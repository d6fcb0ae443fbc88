-- ===== src/Htable/Resize/Buckets.antt =====
-- The buckets of src/gjalloc.c after `ba_htable_grow`, and the pages in them.
use mathlib.Core.Bool.{false≢true}
use mathlib.Core.Path.{subst}
use gjalloc.Base.{
  ℕ, ◌+◌, ◌-◌, ◌^◌, ◌≤◌, ◌<◌, ◌≡◌, ◌≢◌, refl, sym, ap, ◌∙◌, true, Bool-cases, inl, inr, ◌⊎◌, List,
  [], length, arith, ◌==◌, if◌then◌else◌, ==→eq, ==→ne, eq→==, ne→==, ltb, lt→ltb, le→ltb, dec_lt,
}
use gjalloc.Memory.{Memory}
use gjalloc.Page.FreeList.{mem, Distinct}
use gjalloc.Allocator.{Allocator}
use gjalloc.Htable.{bucket_of}
use gjalloc.Htable.Hash.{bucket_of-lt}
use gjalloc.Htable.Chain.{IsTable, Chain-proper}
use gjalloc.Htable.Resize.Mask.{wider, bucket_of-wider}
use gjalloc.Htable.Resize.Split.{
  mem-staying, mem-going, length-staying, length-going, Distinct-staying, Distinct-going,
}
use gjalloc.Htable.Resize.Halfway.{kept, sent, Pages}

module _ (a : Allocator) (t : ℕ → List ℕ) where
  -- The buckets after the table has grown.
  abbrev pub grown : ℕ → List ℕ
  grown k =
      if ltb k a.allocated
      then kept a t k
      else if ltb k (a.allocated + a.allocated)
      then sent a t (k - a.allocated)
      else []

  pub Pages-IsTable :
      (m : Memory) (w : ℕ) → IsTable a m t → a.allocated ≡ 2 ^ w → a.allocated < 2 ^ 31 → Pages a t
  Pages-IsTable m w table power word = record {
    apart = λ j k p here ne. elim (Bool-cases (mem p (t k))) [
      | inl there ↦ absurd (ne (sym (table.homes j p here) ∙ table.homes k p there))
      | inr isnt ↦ isnt
    ];
    proper = λ k lt. Chain-proper (table.chains k lt).2;
    law = λ k p here. elim (bucket_of-wider a w power word p) [
      | inl same ↦ inl (same ∙ table.homes k p here)
      | inr further ↦ inr (further ∙ ap (λ z. z + a.allocated) (table.homes k p here))
    ];
    distinct = table.distinct;
    few = table.few;
    some_buckets = table.some_buckets;
  }

  pub grown_low : (k : ℕ) → k < a.allocated → grown k ≡ kept a t k
  grown_low k lt = rw (lt→ltb k a.allocated lt) refl

  pub grown_high : (k : ℕ) → k < a.allocated → grown (k + a.allocated) ≡ sent a t k
  grown_high k lt =
      let e : k + a.allocated - a.allocated ≡ k = omega arith in
      rw
        (
          le→ltb (k + a.allocated) a.allocated (omega arith),
          lt→ltb (k + a.allocated) (a.allocated + a.allocated) (omega arith),
        )
        (ap (sent a t) e)

  pub grown-cases :
      (k : ℕ)
      → ((k < a.allocated) × (grown k ≡ kept a t k))
        ⊎ (((j : ℕ) × (k ≡ j + a.allocated) × (j < a.allocated) × (grown k ≡ sent a t j))
            ⊎ ((a.allocated + a.allocated ≤ k) × (grown k ≡ [])))
  grown-cases k = elim (dec_lt k a.allocated) [
    | yes low ↦ inl (low, grown_low k low)
    | no ge ↦ elim (dec_lt k (a.allocated + a.allocated)) [
      | yes high ↦
          let e : k - a.allocated + a.allocated ≡ k = omega arith in
          inr (
            inl (
              k - a.allocated,
              sym e,
              omega arith,
              ap grown (sym e) ∙ grown_high (k - a.allocated) (omega arith),
            ))
      | no out ↦ inr (
          inr (
            omega arith,
            rw
                (
                  le→ltb k a.allocated (omega arith),
                  le→ltb k (a.allocated + a.allocated) (omega arith),
                )
                refl,
          ))
    ]
  ]

  module _ (m : Memory) (w : ℕ) (table : IsTable a m t) (power : a.allocated ≡ 2 ^ w)
      (word : a.allocated < 2 ^ 31) where
    pub twice : (wider a).allocated ≡ a.allocated + a.allocated
    twice = omega (arith, word)

    home_low : (k p : ℕ) → mem p (kept a t k) ≡ true → bucket_of (wider a) p ≡ k
    home_low k p h =
        ==→eq (bucket_of (wider a) p) k
          (ground (arith, h, mem-staying (λ r. bucket_of (wider a) r == k) p (t k)))

    home_high : (k p : ℕ) → mem p (sent a t k) ≡ true → bucket_of (wider a) p ≡ k + a.allocated
    home_high k p h =
        let away : bucket_of (wider a) p ≢ k =
          ==→ne (bucket_of (wider a) p) k
            (ground (arith, h, mem-going (λ r. bucket_of (wider a) r == k) p (t k) [])) in
        let inside : mem p (t k) ≡ true =
          ground (arith, h, mem-going (λ r. bucket_of (wider a) r == k) p (t k) []) in
        elim ((Pages-IsTable m w table power word).law k p inside) [
          | inl here ↦ absurd (away here)
          | inr further ↦ further
        ]

    pub homes_grown : (k p : ℕ) → mem p (grown k) ≡ true → bucket_of (wider a) p ≡ k
    homes_grown k p h = elim (grown-cases k) [
      | inl (lt, e) ↦ home_low k p (ap (mem p) (sym e) ∙ h)
      | inr (inl (j, is, lt, e)) ↦ home_high j p (ap (mem p) (sym e) ∙ h) ∙ sym is
      | inr (inr (ge, e)) ↦ absurd (false≢true (ap (mem p) (sym e) ∙ h))
    ]

    pub Distinct-grown : (k : ℕ) → Distinct (grown k)
    Distinct-grown k = elim (grown-cases k) [
      | inl (lt, e) ↦
          subst Distinct (sym e)
            (Distinct-staying (λ r. bucket_of (wider a) r == k) (t k) (table.distinct k))
      | inr (inl (j, is, lt, e)) ↦ subst Distinct (sym e) (
          Distinct-going (λ r. bucket_of (wider a) r == j) (t j) [] (table.distinct j) tt
            (λ r h. refl))
      | inr (inr (ge, e)) ↦ subst Distinct (sym e) tt
    ]

    pub few_grown : (k : ℕ) → length (grown k) ≤ a.num_pages
    few_grown k = elim (grown-cases k) [
      | inl (lt, e) ↦
          omega (
            arith,
            ap length e,
            length-staying (λ r. bucket_of (wider a) r == k) (t k),
            table.few k,
          )
      | inr (inl (j, is, lt, e)) ↦
          omega (
            arith,
            ap length e,
            length-going (λ r. bucket_of (wider a) r == j) (t j) [],
            table.few j,
          )
      | inr (inr (ge, e)) ↦ omega (arith, ap length e)
    ]

    pub same_pages : (p : ℕ) → mem p (grown (bucket_of (wider a) p)) ≡ mem p (t (bucket_of a p))
    same_pages p =
        let k = bucket_of a p in
        let lt : k < a.allocated = bucket_of-lt a p table.some_buckets (omega (arith, word)) in
        elim (bucket_of-wider a w power word p) [
          | inl e ↦
              ap (λ z. mem p (grown z)) e
              ∙ ap (mem p) (grown_low k lt)
              ∙ mem-staying (λ r. bucket_of (wider a) r == k) p (t k)
              ∙ rw (eq→== (bucket_of (wider a) p) k e) refl
          | inr e ↦
              let away : bucket_of (wider a) p ≢ k = λ z. omega (arith, table.some_buckets) in
              ap (λ z. mem p (grown z)) e
              ∙ ap (mem p) (grown_high k lt)
              ∙ mem-going (λ r. bucket_of (wider a) r == k) p (t k) []
              ∙ ground (arith, ne→== (bucket_of (wider a) p) k away)
        ]
