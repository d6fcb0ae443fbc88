-- ===== src/Page/Unshift.antt =====
-- `ba_unshift` of src/gjalloc.h puts a block in front of the free list, and `ba_free_page` of
-- src/gjalloc.c frees all of a page.
use gjalloc.Base.{
  ℕ, zero, suc, ◌+◌, ◌-◌, ◌≤◌, ◌<◌, ◌^◌, ◌≡◌, refl, sym, ap, ◌∙◌, true, false, not, ◌&&◌, Option,
  some, List, [], ◌∷◌, length, ◌==◌, ltb, arith, sub32, bit_and, if◌then◌else◌, eq→==, ne→==, ==→eq,
  ==→ne, dec_lt, Bool-cases, inl, inr, ◌⊎◌,
}
use gjalloc.Base.Bits.{bit, bit-bit_and}
use gjalloc.Layout.{Layout}
use gjalloc.Memory.{Header, Memory, null, ba_one, update, store-some}
use gjalloc.Page.{block, ba_unshift, ba_free_page}
use gjalloc.Page.FreeList.{
  run_of, mem, Distinct, IsAscending, IsPlaced, FreeList, run, cons, IsThere, IsPage, SameOutside,
}
use gjalloc.Page.Frame.{mem-lt, mem-run_of_outside, block-lt, first-ne-one, frame-update}
use gjalloc.Page.Pigeonhole.{length-le}
use gjalloc.Page.Shift.{IsThere-update, IsAscending-run}

-- The flags after `ba_unshift`.
abbrev next_flags : Header → ℕ → ℕ
next_flags h b =
    if not (h.first == null) && ltb h.first b then bit_and h.flags (2 ^ 32 - 1 - 1) else h.flags

unshift_eq :
    (h : Header) (b : ℕ) (m : Memory) (v : ℕ)
    → m.word b ≡ some v
    → ba_unshift h b m
      ≡ some (
        record { first = b; used = sub32 h.used 1; flags = next_flags h b },
        record m { word = update m.word b (some h.first) },
      )
unfolding ba_unshift
unshift_eq h b m v e = rw (store-some b h.first v m e) refl

-- Where the sorted flag survives, the new block stands before the old first one.
kept_flag :
    (h : Header) (b : ℕ)
    → bit (next_flags h b) 0 ≡ 1
    → ((h.first ≡ null) ⊎ (b ≤ h.first)) × (bit h.flags 0 ≡ 1)
kept_flag h b f = ground (arith, bit-bit_and h.flags (2 ^ 32 - 1 - 1) 0)

Distinct-run_of : (n i : ℕ) → Distinct (run_of n i)
Distinct-run_of zero i = tt
Distinct-run_of (suc n) i =
    (mem-run_of_outside i n (suc i) (inl (omega arith)), Distinct-run_of n (suc i))

length-run_of : (n i : ℕ) → length (run_of n i) ≡ n
length-run_of zero i = refl
length-run_of (suc n) i = ap suc (length-run_of n (suc i))

first_block :
    {l : Layout} {p gap : ℕ} {w : ℕ → Option ℕ} {first x : ℕ} {xs : List ℕ}
    → FreeList l p gap w first (x ∷ xs)
    → first ≡ block l p x
first_block {l} {p} (run i n e g start is xs) = start ∙ ap (block l p) (cc)
first_block (cons i next lt start is ne rest) = start

module _ {l : Layout} {p : ℕ} (placed : IsPlaced l p) where
  IsAscending-cons :
      {w : ℕ → Option ℕ} {first : ℕ} (i : ℕ) (xs : List ℕ)
      → FreeList l p 1 w first xs
      → mem i xs ≡ false
      → (first ≡ null) ⊎ (block l p i ≤ first)
      → IsAscending xs
      → IsAscending (i ∷ xs)
  IsAscending-cons i [] f out order a = tt
  IsAscending-cons {first} i (x ∷ xs) f out order a =
      let start = first_block f in
      let ne : (i == x) ≡ false = ground arith in
      let ordered : block l p i ≤ block l p x = ground arith in
      (
        elim (dec_lt i x) [
          | yes lt ↦ lt
          | no ge ↦ elim (dec_lt x i) [
            | yes gt ↦ absurd (omega (arith, block-lt placed x i gt, placed.wide))
            | no le ↦ absurd (==→ne i x ne (omega arith))
          ]
        ],
        a,
      )

  -- Given a block of the page that is not free, `ba_unshift` puts it in front of the free
  -- list, writes only its word, and keeps the page invariant.
  pub ba_unshift-IsPage :
      (h : Header) (m : Memory) (i : ℕ) (xs : List ℕ)
      → i < l.blocks
      → mem i xs ≡ false
      → IsPage l p h m xs
      → (h' : Header) × (m' : Memory) × (ba_unshift h (block l p i) m ≡ some (h', m'))
        × IsPage l p h' m' (i ∷ xs)
        × SameOutside l p (i ∷ []) m m'
        × (h.used ≡ h'.used + 1)
  ba_unshift-IsPage h m i xs lt out v =
      let b = block l p i in
      let (u, is) = v.there.value i lt in
      let m' : Memory = record m { word = update m.word b (some h.first) } in
      let few : suc (length xs) ≤ l.blocks =
        length-le l.blocks (i ∷ xs) (out, v.distinct) (λ j q. inside j q) in
      let less : h.used ≡ sub32 h.used 1 + 1 = omega (arith, v.count, placed.few) in
      (
        record { first = b; used = sub32 h.used 1; flags = next_flags h b },
        m',
        unshift_eq h b m u is,
        record {
          list =
              cons i h.first lt refl (rw (eq→== b b refl) refl) (first-ne-one placed v.list)
                (frame-update placed i (some h.first) v.list out);
          distinct = (out, v.distinct);
          count = omega (arith, v.count, less);
          sorted = λ f.
              let (order, was) = kept_flag h b f in
              IsAscending-cons i xs v.list out order (v.sorted was);
          there = IsThere-update b h.first v.there;
        },
        record {
          pages = refl;
          words = λ a outside.
              let here : mem i (i ∷ []) ≡ true = rw (eq→== i i refl) refl in
              rw (ne→== b a (λ e. outside i here (sym e))) refl;
        },
        less,
      )
    where
      inside : (j : ℕ) → mem j (i ∷ xs) ≡ true → j < l.blocks
      inside j h = elim (Bool-cases (j == i)) [
        | inl here ↦ omega (arith, ==→eq j i here)
        | inr other ↦ mem-lt placed j v.list (rw other at h)
      ]

  -- `ba_free_page` frees every block of a page that has at least two: they will be handed out
  -- in the order of their addresses.
  pub ba_free_page-IsPage :
      (m : Memory)
      → 2 ≤ l.blocks
      → IsThere l p m.word
      → (h : Header) × (m' : Memory) × (ba_free_page l p m ≡ some (h, m'))
        × IsPage l p h m' (run_of l.blocks 0)
        × SameOutside l p (0 ∷ []) m m'
        × (h.used ≡ 0)
  unfolding ba_free_page
  ba_free_page-IsPage m two there =
      let b = block l p 0 in
      let (u, is) = there.value 0 (omega arith) in
      let m' : Memory = record m { word = update m.word b (some ba_one) } in
      let all : suc (l.blocks - 1) ≡ l.blocks = omega arith in
      (
        record { first = b; used = 0; flags = 1 },
        m',
        rw (store-some b ba_one u m is) refl,
        record {
          list =
              run 0 (l.blocks - 1) (omega arith) (omega arith) refl (rw (eq→== b b refl) refl)
                (ap (λ n. run_of n 0) (sym all));
          distinct = Distinct-run_of l.blocks 0;
          count = omega (arith, length-run_of l.blocks 0);
          sorted = λ f. IsAscending-run l.blocks 0;
          there = IsThere-update b ba_one there;
        },
        record {
          pages = refl;
          words = λ a outside. rw (ne→== b a (λ e. outside 0 refl (sym e))) refl;
        },
        refl,
      )
