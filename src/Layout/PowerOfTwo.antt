-- ===== src/Layout/PowerOfTwo.antt =====
-- The test `v & (v - 1)` of src/gjalloc.h, and `__builtin_ctz` at powers of two.
use native.Mathlib.Nat.{pow-suc, one-le-pow, pow-le-pow_right}
use gjalloc.Base.{
  ℕ, zero, suc, ◌+◌, ◌-◌, ◌*◌, ◌/◌, ◌%◌, ◌^◌, ◌≤◌, ◌<◌, bit_and, ◌≡◌, refl, ap, ◌∙◌, ◌↔◌, arith,
  dec_lt,
}
use gjalloc.Base.Bits.{bit_and_low}
use gjalloc.Layout.{count_zeros}

bit_and-self_fuel : (n v : ℕ) → v ≤ n → bit_and v v ≡ v
bit_and-self_fuel zero v h = let e : v ≡ 0 = omega arith in rw e refl
bit_and-self_fuel (suc n) zero h = refl
bit_and-self_fuel (suc n) (suc v) h =
    omega (arith, bit_and_low (suc v) (suc v), bit_and-self_fuel n (suc v / 2) (omega arith))

pub bit_and_self : (v : ℕ) → bit_and v v ≡ v
bit_and_self v = bit_and-self_fuel v v (omega arith)

-- Between two powers of two the test `v & (v - 1)` is zero at the lower one alone.
pub power_test : (k v : ℕ) → 2 ^ k ≤ v → v < 2 ^ suc k → (bit_and v (v - 1) ≡ 0) ↔ (v ≡ 2 ^ k)
power_test zero v lo hi = let e : v ≡ 1 = omega (arith, pow-suc 2 0) in rw e (λ h. refl, λ h. refl)
power_test (suc k) v lo hi =
    let (to, from) =
      power_test k (v / 2) (omega (arith, pow-suc 2 k)) (omega (arith, pow-suc 2 (suc k))) in
    elim (dec_lt 0 (v % 2)) [
      | yes odd ↦
          let down : (v - 1) / 2 ≡ v / 2 = omega arith in
          let low = bit_and_low v (v - 1) in
          let same : bit_and v (v - 1) ≡ v / 2 * 2 =
            omega (arith, low, ap (bit_and (v / 2)) down, bit_and_self (v / 2)) in
          (
            λ h. absurd (omega (arith, one-le-pow k 2, pow-suc 2 k)),
            λ h. absurd (omega (arith, pow-suc 2 k)),
          )
      | no even ↦
          let down : (v - 1) / 2 ≡ v / 2 - 1 = omega (arith, one-le-pow k 2, pow-suc 2 k) in
          let low = bit_and_low v (v - 1) in
          let same : bit_and v (v - 1) ≡ bit_and (v / 2) (v / 2 - 1) * 2 =
            omega (arith, low, ap (bit_and (v / 2)) down) in
          (
            λ h. omega (arith, to (omega arith), pow-suc 2 k),
            λ h. omega (arith, from (omega (arith, pow-suc 2 k))),
          )
    ]

-- `2 ^ k` ends in `k` zeros.
pub count_zeros-pow : (fuel k : ℕ) → k < fuel → count_zeros fuel (2 ^ k) ≡ k
unfolding count_zeros
count_zeros-pow zero k h = absurd (omega arith)
count_zeros-pow (suc fuel) zero h = refl
count_zeros-pow (suc fuel) (suc k) h =
    let half : 2 ^ suc k / 2 ≡ 2 ^ k = omega (arith, pow-suc 2 k) in
    let even : 2 ^ suc k % 2 ≡ 0 = omega (arith, pow-suc 2 k) in
    rw (even, half) (ap (λ t. t + 1) (count_zeros-pow fuel k (omega arith)) ∙ omega arith)

-- Every positive number lies between two powers of two.
pub log2_exists : (n v : ℕ) → 0 < v → v ≤ n → (k : ℕ) × (2 ^ k ≤ v) × (v < 2 ^ suc k)
log2_exists zero v p h = absurd (omega arith)
log2_exists (suc n) v p h = elim (dec_lt 1 v) [
  | yes big ↦
      let (k, lo, hi) = log2_exists n (v / 2) (omega arith) (omega arith) in
      (suc k, omega (arith, pow-suc 2 k), omega (arith, pow-suc 2 (suc k)))
  | no small ↦ (0, omega arith, omega (arith, pow-suc 2 0))
]

pub pow-lt_inv : (j k : ℕ) → 2 ^ j < 2 ^ k → j < k
pow-lt_inv j k h = elim (dec_lt j k) [
  | yes p ↦ p
  | no p ↦
      absurd (omega (arith, pow-le-pow_right {n = 2} (omega arith) {i = k} {j = j} (omega arith)))
]
