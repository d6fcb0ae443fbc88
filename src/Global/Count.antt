-- ===== src/Global/Count.antt =====
-- `ba_count` of src/gjalloc.c and its loop over all pages, `PAGE_LOOP`.
use mathlib.Core.Option.{some-injective}
use mathlib.Core.Path.{subst}
use gjalloc.Base.{
  plus_zero, plus_suc, zero_plus, ℕ, zero, suc, ◌+◌, ◌<◌, ◌≡◌, ◌≢◌, refl, sym, ap, ◌∙◌, arith,
  Bool-cases, inl, inr, Option, none, some, List, [], ◌∷◌, length, ◌==◌, if◌then◌else◌, ==→eq,
  eq→==, ne→==, get_elem?, u64,
}
use gjalloc.Memory.{Page, Memory, null, update, M, load_page, store_page}
use gjalloc.Allocator.{Allocator}
use gjalloc.Htable.Chain.{Chain, nil, cons, IsTable, IsTable-heads}
use gjalloc.Global.Update.{set_header}
use gjalloc.Global.Whole.{chain_fold, page_loop, add_used, write_back, ba_count}

-- How many blocks of the page are used.
abbrev used_in : Option Page → ℕ
used_in none = 0
used_in (some pg) = pg.h.used

abbrev pub used_of : Memory → List ℕ → ℕ
used_of m [] = 0
used_of m (p ∷ ps) = used_in (m.page p) + used_of m ps

-- Of the pages of `n` buckets from the bucket `i` on.
abbrev pub used_of_buckets : Memory → (ℕ → List ℕ) → ℕ → ℕ → ℕ
used_of_buckets m t i zero = 0
used_of_buckets m t i (suc n) = used_of m (t i) + used_of_buckets m t (suc i) n

u64_add_left : (n a : ℕ) → u64 (u64 n + a) ≡ u64 (n + a)
u64_add_left n a = omega arith

module _ (m : Memory) where
  add_used-page :
      (p n : ℕ) (pg : Page)
      → m.page p ≡ some pg
      → add_used p n m ≡ some (u64 (n + used_in (m.page p)), m)
  unfolding add_used load_page
  add_used-page p n pg is = rw is refl

  chain_fold-used :
      (fuel q n : ℕ) {ps : List ℕ}
      → Chain m.page q ps
      → length ps < fuel
      → chain_fold add_used fuel q (u64 n) m ≡ some (u64 (n + used_of m ps), m)
  unfolding chain_fold load_page
  chain_fold-used zero q n c enough = absurd (omega arith)
  chain_fold-used (suc fuel) q n (nil e) enough =
      rw (eq→== q null e) (ap (λ t. some (t, m)) (omega arith))
  chain_fold-used (suc fuel) q n (cons {x} {ps} pg e ne is rest) enough =
      rw (ne→== q null ne, is, add_used-page q (u64 n) pg is)
        (ap (λ k. chain_fold add_used fuel pg.hchain k m) (u64_add_left n (used_in (m.page q)))
          ∙ chain_fold-used fuel pg.hchain (n + used_in (m.page q)) rest (omega arith)
          ∙ ap (λ k. some (u64 k, m)) (omega (arith, ap (λ z. used_in (m.page z)) e)))

  page_loop-used :
      (t : ℕ → List ℕ) (fuel : ℕ) (heads : List ℕ) (i n : ℕ)
      → ((k q : ℕ) → get_elem? heads k ≡ some q → Chain m.page q (t (i + k)))
      → ((k : ℕ) → length (t k) < fuel)
      → page_loop add_used fuel heads (u64 n) m
        ≡ some (u64 (n + used_of_buckets m t i (length heads)), m)
  unfolding page_loop
  page_loop-used t fuel [] i n chains enough = ap (λ t. some (t, m)) (omega arith)
  page_loop-used t fuel (head ∷ heads) i n chains enough =
      let here = subst (λ z. Chain m.page head (t z)) (plus_zero i) (chains 0 head refl) in
      rw (chain_fold-used fuel head n here (enough i)) (
        page_loop-used t fuel heads (suc i) (n + used_of m (t i))
          (λ k q h. subst (λ z. Chain m.page q (t z)) (plus_suc i k) (chains (suc k) q h)) enough
        ∙ ap (λ k. some (u64 k, m)) (omega arith))

-- The allocator's header is written back to its page.
abbrev pub WritesHeader : Allocator → Memory → Memory → Type 0
WritesHeader a m m' =
    (r : ℕ) (pg : Page)
    → m.page r ≡ some pg
    → m'.page r ≡ some (record pg { h = if a.alloc == r then a.h else pg.h })

pub Chain-headers :
    (a : Allocator) (m m' : Memory) {q : ℕ} {ps : List ℕ}
    → WritesHeader a m m'
    → Chain m.page q ps
    → Chain m'.page q ps
Chain-headers a m m' same (nil e) = nil e
Chain-headers a m m' same (cons {q} pg e ne is rest) =
    cons (record pg { h = if a.alloc == q then a.h else pg.h }) e ne (same q pg is)
      (Chain-headers a m m' same rest)

pub set_header-WritesHeader :
    (a : Allocator) (m : Memory) (pg : Page)
    → m.page a.alloc ≡ some pg
    → (m' : Memory) × (set_header a.alloc a.h m ≡ some (tt, m')) × WritesHeader a m m'
unfolding set_header load_page store_page
set_header-WritesHeader a m pg is = (
  record m { page = update m.page a.alloc (some (record pg { h = a.h })) },
  rw (is, is) refl,
  λ r v r_is. elim (Bool-cases (a.alloc == r)) [
    | inl here ↦
        let e = some-injective pg v (sym is ∙ ap m.page (==→eq a.alloc r here) ∙ r_is) in
        rw here (ap (λ (x : Page). some (record x { h = a.h })) e)
    | inr other ↦ rw other r_is
  ],
)

write_back-headers :
    (free : ℕ → M (Unit {0})) (a : Allocator) (m : Memory) (pg : Page)
    → a.last_free ≡ null
    → m.page a.alloc ≡ some pg
    → a.alloc ≢ null
    → (m' : Memory) × (write_back free a m ≡ some (a, m')) × WritesHeader a m m'
unfolding write_back
write_back-headers free a m pg none_freed is ne =
    let (m', wrote, same) = set_header-WritesHeader a m pg is in
    (m', rw (ne→== a.alloc null ne, wrote, eq→== a.last_free null none_freed) refl, same)

heads-chains :
    {a : Allocator} {m : Memory} (m' : Memory) {t : ℕ → List ℕ}
    → IsTable a m t
    → length a.htable ≡ a.allocated
    → WritesHeader a m m'
    → (k q : ℕ) → get_elem? a.htable k ≡ some q
    → Chain m'.page q (t k)
heads-chains {a} {m} m' table size same k q at =
    Chain-headers a m m' same (IsTable-heads table size k q at)

table_loop-used :
    {a : Allocator} {m : Memory} (m' : Memory) {t : ℕ → List ℕ}
    → IsTable a m t
    → length a.htable ≡ a.allocated
    → WritesHeader a m m'
    → page_loop add_used (a.num_pages + 1) a.htable 0 m'
      ≡ some (u64 (used_of_buckets m' t 0 a.allocated), m')
table_loop-used {a} m' {t} table size same =
    page_loop-used m' t (a.num_pages + 1) a.htable 0 0
      (λ k q at.
        subst (λ z. Chain m'.page q (t z)) (zero_plus k) (heads-chains m' table size same k q at))
      (λ k. omega (arith, table.few k))
    ∙ ap (λ n. some (u64 n, m')) (sym (zero_plus (used_of_buckets m' t 0 (length a.htable))))
    ∙ ap (λ n. some (u64 (used_of_buckets m' t 0 n), m')) size

-- Given a table in an array of `allocated` heads, a page that is allocated from, and none that was
-- last freed into, `ba_count` ends without a fault and returns, as a 64-bit word, how many blocks
-- the pages of all buckets have in use, after the header of the one page was written back.
pub ba_count-used :
    (free : ℕ → M (Unit {0})) {a : Allocator} {m : Memory} {t : ℕ → List ℕ} (pg : Page)
    → IsTable a m t
    → length a.htable ≡ a.allocated
    → a.last_free ≡ null
    → a.alloc ≢ null
    → m.page a.alloc ≡ some pg
    → (m' : Memory) × WritesHeader a m m'
      × (ba_count free a m ≡ some ((a, u64 (used_of_buckets m' t 0 a.allocated)), m'))
unfolding ba_count
ba_count-used free {a} {m} {t} pg table size none_freed ne is =
    let (m', wrote, same) = write_back-headers free a m pg none_freed is ne in
    (m', same, rw (wrote, table_loop-used m' table size same) refl)
