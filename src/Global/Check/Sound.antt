-- ===== src/Global/Check/Sound.antt =====
-- What `ba_check_allocator` of src/gjalloc.c finds out about an allocator.
use mathlib.Core.Bool.{true≢false}
use mathlib.Core.Option.{none-ne-some}
use mathlib.Core.Path.{subst}
use gjalloc.Base.{
  plus_zero, plus_suc, zero_plus, ℕ, zero, suc, ◌+◌, ◌≤◌, ◌<◌, ◌≡◌, ◌≢◌, refl, sym, ap, ◌∙◌, arith,
  true, false, Bool, Bool-cases, inl, inr, Option, none, some, List, [], ◌∷◌, length, ◌==◌,
  if◌then◌else◌, ==→eq, ==→ne, eq→==, ne→==, get_elem?, ltb, ltb→le, le→ltb, Option-cases, ◌||◌,
  ◌↔◌,
}
use gjalloc.Memory.{Page, Memory, null, load_page}
use gjalloc.Page.FreeList.{mem}
use gjalloc.Page.Frame.{mem_head, mem_tail}
use gjalloc.Allocator.{Allocator}
use gjalloc.Htable.{bucket_of}
use gjalloc.Htable.Chain.{Chain, nil, cons}
use gjalloc.Global.Update.{set_header}
use gjalloc.Global.Count.{Chain-headers, set_header-WritesHeader, WritesHeader}
use gjalloc.Global.Check.{is_bad_page, check_chain, check_table, ba_check_allocator}

-- Whether a page of a list is bad, or of the `n` buckets from `i` on.
abbrev bad_page : Allocator → ℕ → ℕ → Option Page → Bool
bad_page a n p none = false
bad_page a n p (some pg) = is_bad_page a n p pg

abbrev bad_chain : Allocator → Memory → ℕ → List ℕ → Bool
bad_chain a m n [] = false
bad_chain a m n (p ∷ ps) = bad_page a n p (m.page p) || bad_chain a m n ps

abbrev bad_buckets : Allocator → Memory → (ℕ → List ℕ) → ℕ → ℕ → Bool
bad_buckets a m t i zero = false
bad_buckets a m t i (suc n) = bad_chain a m i (t i) || bad_buckets a m t (suc i) n

or_assoc : (x y z : Bool) → ((x || y) || z) ≡ (x || (y || z))
or_assoc x y z = ground arith

or_false : (x : Bool) → x ≡ (x || false)
or_false x = ground arith

or_split : (x y : Bool) → (x || y) ≡ false → (x ≡ false) × (y ≡ false)
or_split x y h = (ground arith, ground arith)

module _ (a : Allocator) (m : Memory) where
  same_page :
      (n q x : ℕ) (pg : Page)
      → q ≡ x
      → m.page q ≡ some pg
      → is_bad_page a n q pg ≡ bad_page a n x (m.page x)
  same_page n q x pg e is =
      let at_x : m.page x ≡ some pg = ap m.page (sym e) ∙ is in
      rw at_x (ap (λ z. is_bad_page a n z pg) e)

  check_chain-bad :
      (n fuel q : ℕ) (bad : Bool) {ps : List ℕ}
      → Chain m.page q ps
      → length ps < fuel
      → check_chain a n fuel q bad m ≡ some (bad || bad_chain a m n ps, m)
  unfolding check_chain load_page
  check_chain-bad n zero q bad c enough = absurd (omega arith)
  check_chain-bad n (suc fuel) q bad (nil e) enough =
      rw (eq→== q null e) (ap (λ b. some (b, m)) (or_false bad))
  check_chain-bad n (suc fuel) q bad (cons {x} {ps} pg e ne is rest) enough =
      rw (ne→== q null ne, is)
        (check_chain-bad n fuel pg.hchain (bad || is_bad_page a n q pg) rest (omega arith)
          ∙ ap (λ b. some (b, m))
              (or_assoc bad (is_bad_page a n q pg) (bad_chain a m n ps)
                ∙ ap (λ b. bad || (b || bad_chain a m n ps)) (same_page n q x pg e is)))

  check_table-bad :
      (t : ℕ → List ℕ) (heads : List ℕ) (i : ℕ) (bad : Bool)
      → ((k q : ℕ) → get_elem? heads k ≡ some q → Chain m.page q (t (i + k)))
      → ((k : ℕ) → length (t k) ≤ a.num_pages)
      → check_table a i heads bad m ≡ some (bad || bad_buckets a m t i (length heads), m)
  unfolding check_table
  check_table-bad t [] i bad chains few = ap (λ b. some (b, m)) (or_false bad)
  check_table-bad t (head ∷ heads) i bad chains few =
      let here = subst (λ z. Chain m.page head (t z)) (plus_zero i) (chains 0 head refl) in
      rw (check_chain-bad i (a.num_pages + 1) head bad here (omega (arith, few i))) (
        check_table-bad t heads (suc i) (bad || bad_chain a m i (t i))
          (λ k q h. subst (λ z. Chain m.page q (t z)) (plus_suc i k) (chains (suc k) q h)) few
        ∙ ap (λ b. some (b, m)) (or_assoc bad (bad_chain a m i (t i)) _))

-- What the check asks of a page: a full one that is not allocated from is in no list and counts
-- all its blocks as used.
pub record IsGoodPage (a : Allocator) (n p : ℕ) (pg : Page) : Type 0 where
  pub home : bucket_of a p ≡ n
  pub full :
      p ≢ a.alloc
      → pg.h.first ≡ null
      → (pg.prev ≡ null) × (pg.next ≡ null) × (pg.h.used ≡ a.l.blocks)

is_bad_page-good :
    (a : Allocator) (n p : ℕ) (pg : Page) → (is_bad_page a n p pg ≡ false) ↔ IsGoodPage a n p pg
unfolding is_bad_page
is_bad_page-good a n p pg = (
  λ ok. record { home = ground arith; full = λ ne full. ground arith },
  λ good. ground (arith, good.home, good.full),
)

-- Every page of the `n` buckets from `i` on is good.
abbrev AllGood : Allocator → Memory → (ℕ → List ℕ) → ℕ → ℕ → Type 0
AllGood a m t i n =
    (k p : ℕ) (pg : Page)
    → i ≤ k
    → k < i + n
    → mem p (t k) ≡ true
    → m.page p ≡ some pg
    → IsGoodPage a k p pg

bad_chain-good :
    (a : Allocator) (m : Memory) (n : ℕ) (ps : List ℕ)
    → bad_chain a m n ps ≡ false
    → (p : ℕ) (pg : Page) → mem p ps ≡ true
    → m.page p ≡ some pg
    → IsGoodPage a n p pg
bad_chain-good a m n [] ok p pg here is = cc
bad_chain-good a m n (x ∷ ps) ok p pg here is =
    let (first, rest) = or_split (bad_page a n x (m.page x)) (bad_chain a m n ps) ok in
    elim (Bool-cases (p == x)) [
      | inl same ↦
          (is_bad_page-good a n p pg).0 (same_page a m n p x pg (==→eq p x same) is ∙ first)
      | inr other ↦ bad_chain-good a m n ps rest p pg (rw other at here) is
    ]

good-bad_chain :
    (a : Allocator) (m : Memory) (n : ℕ) (ps : List ℕ)
    → ((p : ℕ) (pg : Page) → mem p ps ≡ true → m.page p ≡ some pg → IsGoodPage a n p pg)
    → bad_chain a m n ps ≡ false
good-bad_chain a m n [] good = refl
good-bad_chain a m n (x ∷ ps) good =
    rw (good_first, good-bad_chain a m n ps (λ p pg here is. good p pg (mem_tail p x ps here) is))
      refl
  where
    good_first : bad_page a n x (m.page x) ≡ false
    good_first = elim (Option-cases (m.page x)) [
      | inl gone ↦ rw gone refl
      | inr (pg, is) ↦ rw is ((is_bad_page-good a n x pg).1 (good x pg (mem_head x ps) is))
    ]

bad_buckets-good :
    (a : Allocator) (m : Memory) (t : ℕ → List ℕ) (i n : ℕ)
    → (bad_buckets a m t i n ≡ false) ↔ AllGood a m t i n
bad_buckets-good a m t i zero = (λ ok k p pg lo hi. absurd (omega arith), λ good. refl)
bad_buckets-good a m t i (suc n) = (
  λ ok k p pg lo hi here is.
      let (first, rest) = or_split (bad_chain a m i (t i)) (bad_buckets a m t (suc i) n) ok in
      elim (Bool-cases (k == i)) [
        | inl same ↦
            let e = ==→eq k i same in
            subst (λ z. IsGoodPage a z p pg) (sym e)
              (bad_chain-good a m i (t i) first p pg (ap (λ z. mem p (t z)) (sym e) ∙ here) is)
        | inr other ↦
            (bad_buckets-good a m t (suc i) n).0 rest k p pg (omega (arith, ==→ne k i other))
              (omega arith) here is
      ],
  λ good.
      let first =
        good-bad_chain a m i (t i)
          (λ p pg here is. good i p pg (omega arith) (omega arith) here is) in
      let rest =
        (bad_buckets-good a m t (suc i) n).1
          (λ k p pg lo hi here is. good k p pg (omega arith) (omega arith) here is) in
      rw (first, rest) refl,
)

-- What the check asks of the allocator, in the memory `m` with its header written back.
pub record IsChecked (a : Allocator) (m : Memory) (t : ℕ → List ℕ) : Type 0 where
  pub few_empty : a.empty_pages ≤ a.num_pages
  pub good :
      (n p : ℕ) (pg : Page)
      → n < length a.htable
      → mem p (t n) ≡ true
      → m.page p ≡ some pg
      → IsGoodPage a n p pg

check_run :
    (a : Allocator) (m m' : Memory) (bad : Bool)
    → a.alloc ≢ null
    → set_header a.alloc a.h m ≡ some (tt, m')
    → check_table a 0 a.htable (ltb a.num_pages a.empty_pages) m' ≡ some (bad, m')
    → ba_check_allocator a m ≡ (if bad then none else some (tt, m'))
unfolding ba_check_allocator
check_run a m m' true ne wrote checked = rw (ne→== a.alloc null ne, wrote, checked) refl
check_run a m m' false ne wrote checked = rw (ne→== a.alloc null ne, wrote, checked) refl

bad-IsChecked :
    (a : Allocator) (m : Memory) (t : ℕ → List ℕ)
    → ((ltb a.num_pages a.empty_pages || bad_buckets a m t 0 (length a.htable)) ≡ false)
      ↔ IsChecked a m t
bad-IsChecked a m t = (
  λ ok.
      let (first, rest) =
        or_split (ltb a.num_pages a.empty_pages) (bad_buckets a m t 0 (length a.htable)) ok in
      record {
        few_empty = ltb→le a.num_pages a.empty_pages first;
        good = λ n p pg lt here is.
            (bad_buckets-good a m t 0 (length a.htable)).0 rest n p pg (omega arith) (omega arith)
              here is;
      },
  λ c.
      rw
        (
          le→ltb a.num_pages a.empty_pages c.few_empty,
          (bad_buckets-good a m t 0 (length a.htable)).1
              (λ n p pg lo lt here is. c.good n p pg (omega arith) here is),
        )
        refl,
)

-- A run that fails if `bad` holds, read as what `bad` denies.
verdict :
    {P : Type 0} {run : Option (Unit {0} × Memory)} (bad : Bool) (m : Memory)
    → run ≡ (if bad then none else some (tt, m))
    → ((bad ≡ false) ↔ P)
    → ((run ≡ some (tt, m)) ↔ P) × (¬ P → run ≡ none)
verdict true m ran (sound, complete) = (
  (λ ok. absurd (none-ne-some _ (sym ran ∙ ok)), λ p. absurd (true≢false (complete p))),
  λ no_p. ran,
)
verdict false m ran (sound, complete) =
    ((λ ok. sound refl, λ p. ran), λ no_p. absurd (no_p (sound refl)))

-- Given chains through the pages of all buckets, at most `num_pages` in each, and a page that is
-- allocated from, the check ends;
-- it accepts the allocator, with its header written back, if and only if there are not more
-- empty pages than pages, each page stands in the bucket of its hash, and each full page but the
-- one that is allocated from is in no list and counts all its blocks as used.
pub ba_check_allocator-IsChecked :
    (a : Allocator) (m : Memory) (t : ℕ → List ℕ) (pg : Page)
    → ((k q : ℕ) → get_elem? a.htable k ≡ some q → Chain m.page q (t k))
    → ((k : ℕ) → length (t k) ≤ a.num_pages)
    → a.alloc ≢ null
    → m.page a.alloc ≡ some pg
    → (m' : Memory) × WritesHeader a m m'
      × ((ba_check_allocator a m ≡ some (tt, m')) ↔ IsChecked a m' t)
      × (¬ IsChecked a m' t → ba_check_allocator a m ≡ none)
unfolding ba_check_allocator
ba_check_allocator-IsChecked a m t pg chains few ne is =
    let (m', wrote, same) = set_header-WritesHeader a m pg is in
    let checked =
      check_table-bad a m' t a.htable 0 (ltb a.num_pages a.empty_pages)
        (λ k q at.
          subst (λ z. Chain m'.page q (t z)) (zero_plus k)
            (Chain-headers a m m' same (chains k q at)))
        few in
    let run = check_run a m m' _ ne wrote checked in
    let (accepts, refuses) = verdict _ m' run (bad-IsChecked a m' t) in (m', same, accepts, refuses)
