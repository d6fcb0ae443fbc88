-- ===== src/Htable/Linear.antt =====
-- `ba_htable_linear_lookup` of src/gjalloc.c searches all pages, and agrees with the hash lookup.
-- A chain is walked on fuel, `num_pages + 1` units.
use mathlib.Core.Bool.{false≢true}
use mathlib.Core.Path.{subst}
use gjalloc.Base.{
  plus_zero, plus_suc, zero_plus, ℕ, zero, suc, ◌+◌, ◌^◌, ◌≤◌, ◌<◌, ◌≡◌, ◌≢◌, refl, sym, ap, ◌∙◌,
  true, false, none, some, List, [], ◌∷◌, length, arith, ◌==◌, if◌then◌else◌, Bool-cases, inl, inr,
  ◌⊎◌, ne→==, ==→eq, ==→ne, sub64, leb→le, get_elem?,
}
use gjalloc.Layout.{Layout}
use gjalloc.Memory.{Memory, null, load_page, M, pure, ◌>>=◌}
use gjalloc.Page.FreeList.{mem}
use gjalloc.Allocator.{Allocator}
use gjalloc.Htable.{ba_check_ptr, ba_htable_lookup}
use gjalloc.Htable.Hash.{bucket_of-lt}
use gjalloc.Htable.Chain.{IsTable-heads, Chain, nil, cons, IsTable}
use gjalloc.Htable.Lookup.{holder, holder-Holds, ba_htable_lookup_sound, ba_htable_lookup-finds}

-- `PAGE_LOOP` reads the successor before its body runs.
linear_chain : Layout → ℕ → ℕ → ℕ → M ℕ
linear_chain l ptr zero p = λ _. none
linear_chain l ptr (suc fuel) p = if p == null then pure 0 else do
  pg ← load_page p
  if ba_check_ptr l p ptr then pure p else linear_chain l ptr fuel pg.hchain

linear_table : Layout → ℕ → ℕ → List ℕ → M ℕ
unfolding linear_chain
linear_table l ptr fuel [] = pure 0
linear_table l ptr fuel (head ∷ t) = do
  p ← linear_chain l ptr fuel head
  if p == null then linear_table l ptr fuel t else pure p

unfoldable pub ba_htable_linear_lookup : Allocator → ℕ → M ℕ
unfolding linear_table
ba_htable_linear_lookup a ptr = linear_table a.l ptr (a.num_pages + 1) a.htable

linear_chain-holder :
    (l : Layout) (ptr fuel : ℕ) (m : Memory) {q : ℕ} {ps : List ℕ}
    → length ps < fuel
    → Chain m.page q ps
    → linear_chain l ptr fuel q m ≡ some (holder l ptr ps, m)
unfolding linear_chain holder load_page
linear_chain-holder l ptr zero m enough c = absurd (omega arith)
linear_chain-holder l ptr (suc fuel) m enough (nil e) = rw e refl
linear_chain-holder l ptr (suc fuel) m {q} enough (cons {x} {ps} pg e ne is rest) =
    let at_x : m.page x ≡ some pg = ap m.page (sym e) ∙ is in
    rw (ne→== q null ne, e, at_x)
      (elim (Bool-cases (ba_check_ptr l x ptr)) [
        | inl here ↦ rw here refl
        | inr other ↦ rw other (linear_chain-holder l ptr fuel m (omega arith) rest)
      ])

-- The first page that holds the pointer in the `n` buckets from `i` on, or 0.
abbrev first_holder : Layout → ℕ → (ℕ → List ℕ) → ℕ → ℕ → ℕ
first_holder l ptr t i zero = 0
first_holder l ptr t i (suc n) =
    let behind = first_holder l ptr t (suc i) n in
    if holder l ptr (t i) == 0 then behind else holder l ptr (t i)

linear_table-first_holder :
    (l : Layout) (ptr fuel : ℕ) (m : Memory) (t : ℕ → List ℕ) (heads : List ℕ) (i : ℕ)
    → ((k q : ℕ) → get_elem? heads k ≡ some q → Chain m.page q (t (i + k)))
    → ((k : ℕ) → length (t k) < fuel)
    → linear_table l ptr fuel heads m ≡ some (first_holder l ptr t i (length heads), m)
unfolding linear_table
linear_table-first_holder l ptr fuel m t [] i chains enough = refl
linear_table-first_holder l ptr fuel m t (head ∷ heads) i chains enough =
    let here = subst (λ z. Chain m.page head (t z)) (plus_zero i) (chains 0 head refl) in
    rw (linear_chain-holder l ptr fuel m (enough i) here)
      (elim (Bool-cases (holder l ptr (t i) == 0)) [
        | inl missed ↦ rw missed (
            linear_table-first_holder l ptr fuel m t heads (suc i)
              (λ k q h. subst (λ z. Chain m.page q (t z)) (plus_suc i k) (chains (suc k) q h))
              enough)
        | inr hit ↦ rw hit refl
      ])

-- If no page of a list is found, none holds the pointer.
holder-zero :
    (l : Layout) (ptr : ℕ) (ps : List ℕ)
    → mem 0 ps ≡ false
    → holder l ptr ps ≡ 0
    → (p : ℕ) → mem p ps ≡ true
    → ba_check_ptr l p ptr ≡ false
unfolding holder
holder-zero l ptr [] proper missed p here = cc
holder-zero l ptr (x ∷ ps) proper missed p here = elim (Bool-cases (ba_check_ptr l x ptr)) [
  | inl is ↦ (let e = rw is at missed in ground (arith, e))
  | inr isnt ↦ elim (Bool-cases (p == x)) [
    | inl same ↦ ap (λ z. ba_check_ptr l z ptr) (==→eq p x same) ∙ isnt
    | inr other ↦ holder-zero l ptr ps (ground arith) (rw isnt at missed) p (rw other at here)
  ]
]

first_holder-zero :
    (l : Layout) (ptr : ℕ) (t : ℕ → List ℕ) (i n : ℕ)
    → ((k : ℕ) → mem 0 (t k) ≡ false)
    → first_holder l ptr t i n ≡ 0
    → (k p : ℕ) → i ≤ k
    → k < i + n
    → mem p (t k) ≡ true
    → ba_check_ptr l p ptr ≡ false
first_holder-zero l ptr t i zero proper missed k p lo hi here = absurd (omega arith)
first_holder-zero l ptr t i (suc n) proper missed k p lo hi here =
    elim (Bool-cases (holder l ptr (t i) == 0)) [
      | inl none_here ↦ elim (Bool-cases (k == i)) [
        | inl same ↦
            holder-zero l ptr (t i) (proper i) (==→eq (holder l ptr (t i)) 0 none_here) p
              (ap (λ z. mem p (t z)) (sym (==→eq k i same)) ∙ here)
        | inr other ↦
            first_holder-zero l ptr t (suc i) n proper (rw none_here at missed) k p
              (omega (arith, ==→ne k i other)) (omega arith) here
      ]
      | inr hit ↦ absurd (==→ne (holder l ptr (t i)) 0 hit (rw hit at missed))
    ]

first_holder-Holds :
    (l : Layout) (ptr : ℕ) (t : ℕ → List ℕ) (i n : ℕ)
    → (first_holder l ptr t i n ≡ 0)
      ⊎ ((k : ℕ) × (mem (first_holder l ptr t i n) (t k) ≡ true)
          × (ba_check_ptr l (first_holder l ptr t i n) ptr ≡ true))
first_holder-Holds l ptr t i zero = inl refl
first_holder-Holds l ptr t i (suc n) = elim (Bool-cases (holder l ptr (t i) == 0)) [
  | inl missed ↦ rw missed (first_holder-Holds l ptr t (suc i) n)
  | inr hit ↦ rw hit (elim (holder-Holds l ptr (t i)) [
    | inl none_here ↦ absurd (==→ne (holder l ptr (t i)) 0 hit none_here)
    | inr (is, holds) ↦ inr (i, is, holds)
  ])
]

-- A page that holds a pointer starts at most at it, and ends at most its offset before it.
ba_check_ptr-bounds :
    (l : Layout) (p ptr : ℕ)
    → p + l.offset < 2 ^ 64
    → ptr < 2 ^ 64
    → ba_check_ptr l p ptr ≡ true
    → (p ≤ ptr) × (ptr ≤ p + l.offset)
unfolding ba_check_ptr
ba_check_ptr-bounds l p ptr ends word holds =
    let le = leb→le (sub64 ptr p) l.offset holds in (omega (arith, le), omega (arith, le))

-- The pages of a table are real ones, end below 2 ^ 64, and no two of them hold the pointer.
pub record IsApart (l : Layout) (t : ℕ → List ℕ) (ptr : ℕ) : Type 0 where
  pub proper : (n p : ℕ) → mem p (t n) ≡ true → (p ≢ 0) × (p + l.offset < 2 ^ 64)
  pub alone :
      (n k p q : ℕ)
      → mem p (t n) ≡ true
      → mem q (t k) ≡ true
      → ba_check_ptr l p ptr ≡ true
      → ba_check_ptr l q ptr ≡ true
      → q ≡ p

module _ {a : Allocator} {m : Memory} {t : ℕ → List ℕ} (table : IsTable a m t)
    (size : length a.htable ≡ a.allocated) (ptr : ℕ) (apart : IsApart a.l t ptr) where
  no_null : (n : ℕ) → mem 0 (t n) ≡ false
  no_null n = elim (Bool-cases (mem 0 (t n))) [
    | inl is ↦ absurd ((apart.proper n 0 is).0 refl)
    | inr isnt ↦ isnt
  ]

  lookup-none :
      first_holder a.l ptr t 0 (length a.htable) ≡ 0 → ba_htable_lookup a ptr m ≡ some (0, m)
  lookup-none missed =
      let (r, ran, cases) = ba_htable_lookup_sound table ptr in
      elim cases [
        | inl none_here ↦ ran ∙ ap (λ z. some (z, m)) none_here
        | inr (n, is, holds) ↦
            let lt = bucket_of-lt a r table.some_buckets table.word in
            let isnt =
              first_holder-zero a.l ptr t 0 (length a.htable) no_null missed n r (omega arith)
                (omega (arith, size, table.homes n r is, lt)) is in
            absurd (false≢true (sym isnt ∙ holds))
      ]

  -- Given a table in an array of `allocated` heads, of pages of which no two hold the pointer, and
  -- none reaches further than the magnitude, the hash lookup and the search of all pages
  -- end with the same result.
  pub ba_htable_lookup-linear :
      ptr < 2 ^ 64
      → a.l.offset < 2 ^ a.magnitude
      → (r : ℕ) × (ba_htable_linear_lookup a ptr m ≡ some (r, m))
        × (ba_htable_lookup a ptr m ≡ some (r, m))
  unfolding ba_htable_linear_lookup
  ba_htable_lookup-linear word reach = (
    first_holder a.l ptr t 0 (length a.htable),
    linear_table-first_holder a.l ptr (a.num_pages + 1) m t a.htable 0
        (λ k q at.
          subst (λ z. Chain m.page q (t z)) (zero_plus k) (IsTable-heads table size k q at))
        (λ k. omega (arith, table.few k)),
    elim (first_holder-Holds a.l ptr t 0 (length a.htable)) [
      | inl missed ↦ lookup-none missed ∙ ap (λ z. some (z, m)) (sym missed)
      | inr (k, is, holds) ↦ finds _ k is holds
    ],
  )
    where
      finds :
          (p k : ℕ)
          → mem p (t k) ≡ true
          → ba_check_ptr a.l p ptr ≡ true
          → ba_htable_lookup a ptr m ≡ some (p, m)
      finds p k is holds =
          let (ne, ends) = apart.proper k p is in
          let (lo, hi) = ba_check_ptr-bounds a.l p ptr ends word holds in
          ba_htable_lookup-finds table ptr p (ap (λ n. mem p (t n)) (table.homes k p is) ∙ is) ne lo
            hi reach ends (λ n q q_is q_holds. apart.alone k n p q is q_is holds q_holds)
