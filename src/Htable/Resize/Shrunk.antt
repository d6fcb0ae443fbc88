-- ===== src/Htable/Resize/Shrunk.antt =====
-- `ba_htable_shrink` of src/gjalloc.c halves the table and keeps its pages.
use native.Mathlib.Nat.{pow-suc}
use mathlib.Core.Bool.{false≢true}
use mathlib.Core.Path.{subst}
use gjalloc.Base.{
  ℕ, zero, suc, ◌+◌, ◌*◌, ◌/◌, ◌^◌, ◌≤◌, ◌<◌, ◌≡◌, ◌≢◌, refl, sym, ap, ◌∙◌, true, false, Bool-cases,
  inl, inr, ◌⊎◌, some, List, [], length, length-append, arith, if◌then◌else◌, get_elem?-take,
  length-take, take, ltb, lt→ltb, le→ltb, dec_lt, u32,
}
use gjalloc.Memory.{Memory}
use gjalloc.Page.FreeList.{mem, Distinct}
use gjalloc.Allocator.{Allocator}
use gjalloc.Htable.{bucket_of, masked_hash, hash1}
use gjalloc.Htable.Hash.{bucket_of-lt}
use gjalloc.Htable.Chain.{Chain, IsTable}
use gjalloc.Htable.Resize.{ba_htable_shrink}
use gjalloc.Htable.Resize.Mask.{bucket_of-wider}
use gjalloc.Htable.Resize.Append.{mem-append, Distinct-append}
use gjalloc.Htable.Resize.Merge.{joint, Merging, Apart, shrink_loop-Merging}

-- The pages in the first `n` buckets.
abbrev pub page_total : (ℕ → List ℕ) → ℕ → ℕ
page_total t zero = 0
page_total t (suc n) = length (t n) + page_total t n

pub one-page_total : (t : ℕ → List ℕ) (i n : ℕ) → i < n → length (t i) ≤ page_total t n
one-page_total t i zero h = absurd (omega arith)
one-page_total t i (suc n) h = elim (dec_lt i n) [
  | yes lt ↦ omega (arith, one-page_total t i n lt)
  | no ge ↦ let e : i ≡ n = omega arith in omega (arith, ap (λ z. length (t z)) e)
]

two-page_total :
    (t : ℕ → List ℕ) (i j n : ℕ) → i < j → j < n → length (t j) + length (t i) ≤ page_total t n
two-page_total t i j zero lt h = absurd (omega arith)
two-page_total t i j (suc n) lt h = elim (dec_lt j n) [
  | yes below ↦ omega (arith, two-page_total t i j n lt below)
  | no ge ↦
      let e : j ≡ n = omega arith in
      omega (arith, ap (λ z. length (t z)) e, one-page_total t i n (omega arith))
]

-- The allocator with half as many buckets.
abbrev pub narrower : Allocator → Allocator
narrower a = record a { allocated = a.allocated / 2 }

module _ (a : Allocator) (t : ℕ → List ℕ) where
  -- The buckets after the table has shrunk.
  abbrev pub shrunk : ℕ → List ℕ
  shrunk k = if ltb k (a.allocated / 2) then joint (narrower a) t k else []

  pub shrunk_low : (k : ℕ) → k < a.allocated / 2 → shrunk k ≡ joint (narrower a) t k
  shrunk_low k lt = rw (lt→ltb k (a.allocated / 2) lt) refl

  shrunk-cases :
      (k : ℕ)
      → ((k < a.allocated / 2) × (shrunk k ≡ joint (narrower a) t k))
        ⊎ ((a.allocated / 2 ≤ k) × (shrunk k ≡ []))
  shrunk-cases k = elim (dec_lt k (a.allocated / 2)) [
    | yes low ↦ inl (low, shrunk_low k low)
    | no ge ↦ inr (omega arith, rw (le→ltb k (a.allocated / 2) (omega arith)) refl)
  ]

  module _ (m : Memory) (w : ℕ) (table : IsTable a m t) (power : a.allocated ≡ 2 ^ suc w)
      (total : page_total t a.allocated ≤ a.num_pages) where
    half_power : a.allocated / 2 ≡ 2 ^ w
    half_power = omega (arith, power, pow-suc 2 w)

    halves : a.allocated ≡ a.allocated / 2 + a.allocated / 2
    halves = omega (arith, power, pow-suc 2 w)

    bucket_of-narrower :
        (p : ℕ)
        → (bucket_of a p ≡ bucket_of (narrower a) p)
          ⊎ (bucket_of a p ≡ bucket_of (narrower a) p + a.allocated / 2)
    bucket_of-narrower p =
        let e : u32 (2 * (a.allocated / 2)) ≡ a.allocated = omega (arith, halves, table.word) in
        subst
          (λ z.
            (bucket_of (record a { allocated = z }) p ≡ bucket_of (narrower a) p)
            ⊎ (bucket_of (record a { allocated = z }) p
                ≡ bucket_of (narrower a) p + a.allocated / 2))
          e (bucket_of-wider (narrower a) w half_power (omega (arith, table.word)) p)

    not_home : (k p : ℕ) → bucket_of a p ≢ k → mem p (t k) ≡ false
    not_home k p ne = elim (Bool-cases (mem p (t k))) [
      | inl here ↦ absurd (ne (table.homes k p here))
      | inr isnt ↦ isnt
    ]

    narrow_lt : (p : ℕ) → bucket_of (narrower a) p < a.allocated / 2
    narrow_lt p =
        bucket_of-lt (narrower a) p (omega (arith, halves, table.some_buckets))
          (omega (arith, table.word))

    same_pages : (p : ℕ) → mem p (shrunk (bucket_of (narrower a) p)) ≡ mem p (t (bucket_of a p))
    same_pages p =
        let k = bucket_of (narrower a) p in
        let half = a.allocated / 2 in
        let lt : k < half = narrow_lt p in
        ap (mem p) (shrunk_low k lt)
        ∙ mem-append p (t (half + k)) (t k)
        ∙ elim (bucket_of-narrower p) [
          | inl e ↦ rw (not_home (half + k) p (λ z. omega arith)) (ap (λ z. mem p (t z)) (sym e))
          | inr e ↦
              let e' : half + k ≡ bucket_of a p = omega arith in
              let out : mem p (t k) ≡ false = not_home k p (λ z. omega arith) in
              let up = ap (λ z. mem p (t z)) e' in ground (arith, out, up)
        ]

    homes_shrunk :
        (k p : ℕ)
        → k < a.allocated / 2
        → mem p (joint (narrower a) t k) ≡ true
        → bucket_of (narrower a) p ≡ k
    homes_shrunk k p lt h =
        let low = narrow_lt p in
        elim (Bool-cases (mem p (t k))) [
          | inl here ↦
              let home = table.homes k p here in
              elim (bucket_of-narrower p) [ inl e ↦ sym e ∙ home | inr e ↦ absurd (omega arith) ]
          | inr isnt ↦
              let home =
                table.homes (a.allocated / 2 + k) p
                  (ground (arith, h, isnt, mem-append p (t (a.allocated / 2 + k)) (t k))) in
              elim (bucket_of-narrower p) [ inl e ↦ absurd (omega arith) | inr e ↦ omega arith ]
        ]

    Apart-IsTable : Apart (narrower a) t
    Apart-IsTable = record {
      apart = λ j k p here ne. not_home k p (λ e. ne (sym (table.homes j p here) ∙ e));
      distinct = table.distinct;
      few = table.few;
    }

    Distinct-shrunk : (k : ℕ) → k < a.allocated / 2 → Distinct (joint (narrower a) t k)
    Distinct-shrunk k lt =
        Distinct-append (t (a.allocated / 2 + k)) (t k) (table.distinct (a.allocated / 2 + k))
          (table.distinct k)
          (λ r h. Apart-IsTable.apart (a.allocated / 2 + k) k r h (λ e. omega arith))

    few_shrunk : (k : ℕ) → k < a.allocated / 2 → length (joint (narrower a) t k) ≤ a.num_pages
    few_shrunk k lt = omega (
      arith,
      length-append (t (a.allocated / 2 + k)) (t k),
      two-page_total t k (a.allocated / 2 + k) a.allocated (omega arith) (omega (arith, halves)),
      total,
    )

    Merging-start : length a.htable ≡ a.allocated → Merging (narrower a) t 0 a.htable m m
    Merging-start size = record {
      done = λ k lt. absurd (omega arith);
      low = λ k from lt. table.chains k (omega arith);
      high = λ k from lt. table.chains (a.allocated / 2 + k) (omega (arith, halves));
      size = size ∙ halves;
      outside = λ r out. refl;
      words = refl;
    }

    IsTable-shrunk :
        (heads : List ℕ) (m' : Memory)
        → Merging (narrower a) t (a.allocated / 2) heads m m'
        → IsTable (record (narrower a) { htable = take (a.allocated / 2) heads }) m' shrunk
    unfolding bucket_of hash1 masked_hash
    IsTable-shrunk heads m' s = record {
      chains = λ k lt.
          let (q, at, chain) = s.done k lt in
          (
            q,
            get_elem?-take (a.allocated / 2) heads k lt ∙ at,
            subst (Chain m'.page q) (sym (shrunk_low k lt)) chain,
          );
      homes = λ k p h. elim (shrunk-cases k) [
        | inl (lt, e) ↦ homes_shrunk k p lt (ap (mem p) (sym e) ∙ h)
        | inr (ge, e) ↦ absurd (false≢true (ap (mem p) (sym e) ∙ h))
      ];
      distinct = λ k. elim (shrunk-cases k) [
        | inl (lt, e) ↦ subst Distinct (sym e) (Distinct-shrunk k lt)
        | inr (ge, e) ↦ subst Distinct (sym e) tt
      ];
      few = λ k. elim (shrunk-cases k) [
        | inl (lt, e) ↦ omega (arith, ap length e, few_shrunk k lt)
        | inr (ge, e) ↦ omega (arith, ap length e)
      ];
      some_buckets = omega (arith, halves, table.some_buckets);
      word = omega (arith, table.word);
    }

    -- For a hash table with a power of two buckets, at least two, an array of that size, and no
    -- more pages in all buckets than `num_pages`, `ba_htable_shrink` runs and gives a hash table
    -- with half as many buckets and an array of that size, in which each page is in the bucket of
    -- its new hash if and only if it was in the bucket of its old one; no page outside the buckets
    -- and no word of a block has changed.
    pub ba_htable_shrink-IsTable :
        length a.htable ≡ a.allocated
        → (heads : List ℕ) × (m' : Memory) × (ba_htable_shrink a m
            ≡ some (record (narrower a) { htable = heads }, m'))
          × IsTable (record (narrower a) { htable = heads }) m' shrunk
          × (2 * (narrower a).allocated ≡ a.allocated)
          × (length heads ≡ (narrower a).allocated)
          × ((p : ℕ) → mem p (shrunk (bucket_of (narrower a) p)) ≡ mem p (t (bucket_of a p)))
          × ((r : ℕ) → ((k : ℕ) → mem r (t k) ≡ false) → m'.page r ≡ m.page r)
          × (m'.word ≡ m.word)
    unfolding ba_htable_shrink
    ba_htable_shrink-IsTable size =
        let (heads, m', ran, s) =
          shrink_loop-Merging (narrower a) t Apart-IsTable (a.allocated / 2) 0 a.htable m m
            (Merging-start size) (omega arith) in
        (
          take (a.allocated / 2) heads,
          m',
          rw ran refl,
          IsTable-shrunk heads m' s,
          omega (arith, halves),
          length-take (a.allocated / 2) heads (omega (arith, s.size)),
          same_pages,
          s.outside,
          s.words,
        )
