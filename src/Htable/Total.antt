-- ===== src/Htable/Total.antt =====
-- How many pages the hash table of src/gjalloc.c has, and that growing and inserting count right.
use gjalloc.Base.{
  ℕ, zero, suc, ◌+◌, ◌≤◌, ◌<◌, ◌≡◌, ◌≢◌, refl, sym, ap, ◌∙◌, Bool, Bool-cases, inl, inr, List, [],
  ◌∷◌, length, length-append, true, false, ◌/◌, arith, ◌==◌, dec_lt,
}
use gjalloc.Allocator.{Allocator}
use gjalloc.Htable.{bucket_of}
use gjalloc.Page.FreeList.{mem}
use gjalloc.Htable.Insert.{inserted}
use gjalloc.Htable.Unlink.{without, without_absent}
use gjalloc.Htable.Resize.Mask.{wider}
use gjalloc.Htable.Resize.Split.{staying, going}
use gjalloc.Htable.Resize.Halfway.{kept, sent}
use gjalloc.Htable.Resize.Buckets.{grown, grown_low, grown_high}
use gjalloc.Htable.Resize.Shrunk.{page_total, shrunk, shrunk_low}

length_split :
    (stays : ℕ → Bool) (ps ms : List ℕ)
    → length (staying stays ps) + length (going stays ps ms) ≡ length ps + length ms
length_split stays [] ms = refl
length_split stays (p ∷ ps) ms = elim (Bool-cases (stays p)) [
  | inl stay ↦ rw stay (omega (arith, length_split stays ps ms))
  | inr go ↦ rw go (omega (arith, length_split stays ps (p ∷ ms)))
]

length-without_here :
    (p : ℕ) (xs : List ℕ) → mem p xs ≡ true → length (without p xs) + 1 ≡ length xs
length-without_here p [] h = cc
length-without_here p (x ∷ xs) h = elim (Bool-cases (x == p)) [
  | inl same ↦ rw same (omega arith)
  | inr other ↦ rw other (omega (arith, length-without_here p xs (ground (arith, other, h))))
]

module _ (a : Allocator) (t : ℕ → List ℕ) where
  length_parts : (k : ℕ) → length (kept a t k) + length (sent a t k) ≡ length (t k)
  length_parts k = omega (arith, length_split (λ p. bucket_of (wider a) p == k) (t k) [])

  total_parts :
      (n : ℕ)
      → n ≤ a.allocated
      → page_total (grown a t) n + page_total (grown a t) (n + a.allocated)
        ≡ page_total (grown a t) a.allocated + page_total t n
  total_parts zero le =
      let e : 0 + a.allocated ≡ a.allocated = omega arith in
      omega (arith, ap (page_total (grown a t)) e)
  total_parts (suc n) le =
      let e : suc n + a.allocated ≡ suc (n + a.allocated) = omega arith in
      omega (
        arith,
        ap (page_total (grown a t)) e,
        total_parts n (omega arith),
        ap length (grown_low a t n (omega arith)),
        ap length (grown_high a t n (omega arith)),
        length_parts n,
      )

  -- No page is lost or met twice when the table grows.
  pub page_total-grown :
      page_total (grown a t) (a.allocated + a.allocated) ≡ page_total t a.allocated
  page_total-grown = omega (arith, total_parts a.allocated (omega arith))

  module _ (p : ℕ) where
    inserted_here : (n : ℕ) → bucket_of a p ≡ n → length (inserted a p t n) ≡ suc (length (t n))
    inserted_here n e = ground arith

    inserted_else : (n : ℕ) → bucket_of a p ≢ n → length (inserted a p t n) ≡ length (t n)
    inserted_else n ne = ground arith

    total_before : (n : ℕ) → n ≤ bucket_of a p → page_total (inserted a p t) n ≡ page_total t n
    total_before zero le = refl
    total_before (suc n) le =
        omega (arith, total_before n (omega arith), inserted_else n (λ e. omega arith))

    pub page_total-inserted :
        (n : ℕ) → bucket_of a p < n → page_total (inserted a p t) n ≡ page_total t n + 1
    page_total-inserted zero lt = absurd (omega arith)
    page_total-inserted (suc n) lt = elim (dec_lt (bucket_of a p) n) [
      | yes before ↦ omega (arith, page_total-inserted n before, inserted_else n (λ e. omega arith))
      | no here ↦ omega (arith, total_before n (omega arith), inserted_here n (omega arith))
    ]

  total_joined :
      (n : ℕ)
      → n ≤ a.allocated / 2
      → page_total (shrunk a t) n + page_total t (a.allocated / 2)
        ≡ page_total t n + page_total t (a.allocated / 2 + n)
  total_joined zero le =
      let e : a.allocated / 2 + 0 ≡ a.allocated / 2 = omega arith in
      omega (arith, ap (page_total t) e)
  total_joined (suc n) le =
      let e : a.allocated / 2 + suc n ≡ suc (a.allocated / 2 + n) = omega arith in
      omega (
        arith,
        ap (page_total t) e,
        total_joined n (omega arith),
        ap length (shrunk_low a t n (omega arith)),
        length-append (t (a.allocated / 2 + n)) (t n),
      )

  -- No page is lost or met twice when the table shrinks.
  pub page_total-shrunk :
      a.allocated ≡ a.allocated / 2 + a.allocated / 2
      → page_total (shrunk a t) (a.allocated / 2) ≡ page_total t a.allocated
  page_total-shrunk halves =
      omega (arith, total_joined (a.allocated / 2) (omega arith), ap (page_total t) halves)

  module _ (p b : ℕ) (here : mem p (t b) ≡ true)
      (alone : (n : ℕ) → n ≢ b → mem p (t n) ≡ false) where
    without_else : (n : ℕ) → n ≢ b → length (without p (t n)) ≡ length (t n)
    without_else n ne = ap length (without_absent p (t n) (alone n ne))

    total_without_before : (n : ℕ) → n ≤ b → page_total (λ k. without p (t k)) n ≡ page_total t n
    total_without_before zero le = refl
    total_without_before (suc n) le =
        omega (arith, total_without_before n (omega arith), without_else n (λ e. omega arith))

    pub page_total-without :
        (n : ℕ) → b < n → page_total (λ k. without p (t k)) n + 1 ≡ page_total t n
    page_total-without zero lt = absurd (omega arith)
    page_total-without (suc n) lt = elim (dec_lt b n) [
      | yes before ↦ omega (arith, page_total-without n before, without_else n (λ e. omega arith))
      | no at ↦
          let e : b ≡ n = omega arith in
          omega (
            arith,
            total_without_before n (omega arith),
            length-without_here p (t n) (ap (λ z. mem p (t z)) (sym e) ∙ here),
          )
    ]
