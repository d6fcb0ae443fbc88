-- ===== src/Layout/RoundUp.antt =====
-- `round_up32` of src/gjalloc.h: the least power of two above its argument.
use native.Mathlib.Nat.{pow-suc, one-le-pow}
use gjalloc.Base.{
  ℕ, zero, suc, ◌+◌, ◌-◌, ◌/◌, ◌^◌, ◌≤◌, ◌<◌, bit_or, ◌≡◌, sym, ap, ◌∙◌, arith, u32, dec_lt,
}
use gjalloc.Base.Bits.{bit, bit-le-one, bit-bit_or, bit-shr, bit_or-lt, bit_ext, bit-ones}
use gjalloc.Layout.{smear, round_up32_, round_up32}

-- The digits of `v` from `lo` up to `m` are ones, and there are no others above.
record IsTop (m lo v : ℕ) : Type 0 where
  below : v < 2 ^ m
  ones : (j : ℕ) → lo ≤ j → j < m → bit v j ≡ 1

-- One smearing step with a shift by `s` fills `s` further digits, if `s` are already there.
smear-IsTop : (m t s v : ℕ) → s ≤ t → IsTop m (m - t) v → IsTop m (m - (t + s)) (smear v (2 ^ s))
unfolding smear
smear-IsTop m t s v fits top = record {
  below = bit_or-lt m v (v / 2 ^ s) top.below (omega (arith, top.below, small));
  ones = filled;
}
  where
    small : v / 2 ^ s ≤ v
    small = grind arith

    filled : (j : ℕ) → m - (t + s) ≤ j → j < m → bit (bit_or v (v / 2 ^ s)) j ≡ 1
    filled j lo hi =
        let joined = bit-bit_or v (v / 2 ^ s) j in
        let moved = bit-shr v s j in
        elim (dec_lt j (m - t)) [
          | yes p ↦
              omega
                (arith, joined, moved, bit-le-one v j, top.ones (s + j) (omega arith) (omega arith))
          | no p ↦ omega (arith, joined, moved, bit-le-one v (s + j), top.ones j (omega arith) hi)
        ]

-- A number from `2 ^ k` up to `2 ^ (k + 1)` has the digit `k`.
IsTop-start : (k v : ℕ) → 2 ^ k ≤ v → v < 2 ^ suc k → IsTop (suc k) k v
IsTop-start k v lo hi = record {
  below = hi;
  ones = λ j p q. let e : j ≡ k = omega arith in rw e (top k v lo hi);
}
  where
    top : (k v : ℕ) → 2 ^ k ≤ v → v < 2 ^ suc k → bit v k ≡ 1
    top zero v lo hi = omega (arith, pow-suc 2 0)
    top (suc k) v lo hi =
        top k (v / 2) (omega (arith, pow-suc 2 k)) (omega (arith, pow-suc 2 (suc k)))

-- `round_up32_` fills every digit below the highest one.
pub round_up32_-ones :
    (k v : ℕ) → k < 32 → 2 ^ k ≤ v → v < 2 ^ suc k → round_up32_ v ≡ 2 ^ suc k - 1
unfolding round_up32_
round_up32_-ones k v small lo hi =
    let one = IsTop-start k v lo hi in
    let start : suc k - 1 ≡ k = omega arith in
    let s1 = smear-IsTop (suc k) 1 1 v (omega arith) (rw start one) in
    let s2 = smear-IsTop (suc k) 2 2 _ (omega arith) s1 in
    let s4 = smear-IsTop (suc k) 4 4 _ (omega arith) s2 in
    let s8 = smear-IsTop (suc k) 8 8 _ (omega arith) s4 in
    let s16 = smear-IsTop (suc k) 16 16 _ (omega arith) s8 in
    bit_ext (suc k) _ _ s16.below (omega (arith, one-le-pow (suc k) 2))
      (λ j h. s16.ones j (omega arith) h ∙ sym (bit-ones (suc k) j h))

-- For a positive argument `round_up32` is the least power of two above it, modulo `2 ^ 32`.
pub round_up32_lem : (k v : ℕ) → k < 32 → 2 ^ k ≤ v → v < 2 ^ suc k → round_up32 v ≡ u32 (2 ^ suc k)
unfolding round_up32
round_up32_lem k v small lo hi =
    ap u32 (omega (arith, round_up32_-ones k v small lo hi, one-le-pow (suc k) 2))
