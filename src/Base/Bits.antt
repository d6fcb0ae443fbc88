-- ===== src/Base/Bits.antt =====
-- The binary digits of a number, and what `|`, `&` and the shifts do to them.
use Prim.Native.Nat.{
  ℕ, zero, suc, ◌+◌, ◌-◌, ◌*◌, ◌/◌, ◌%◌, ◌^◌, ◌≤◌, ◌<◌, min, max, bit_and, bit_or, bitwise, digits,
}
use Prim.Native.Nat.{bit_and-bitwise, bit_or-bitwise}
use mathlib.Core.Path.{◌≡◌, refl, ap, sym, ◌∙◌}
use native.Mathlib.Nat.{pow-suc, pow-succ', div-div-eq-div-mul, one-le-pow}
use native.Mathlib.Omega.{arith}

-- Digit `j` of `v`, 0 or 1.
abbrev pub bit : ℕ → ℕ → ℕ
bit v zero = v % 2
bit v (suc j) = bit (v / 2) j

pub bit-le-one : (v j : ℕ) → bit v j ≤ 1
bit-le-one v zero = omega arith
bit-le-one v (suc j) = bit-le-one (v / 2) j

module _ (z : ℕ → ℕ) (f : ℕ → ℕ → ℕ) where
  out_of_digits : (k b : ℕ) → digits z f k 0 b ≡ z b
  out_of_digits zero b = refl
  out_of_digits (suc k) b = refl

  -- Two amounts of fuel that cover the digits of the first number give one result.
  enough_digits : (k m a b : ℕ) → a ≤ k → a ≤ m → digits z f k a b ≡ digits z f m a b
  enough_digits k m zero b h g = out_of_digits k b ∙ sym (out_of_digits m b)
  enough_digits zero m (suc a) b h g = absurd (omega arith)
  enough_digits (suc k) zero (suc a) b h g = absurd (omega arith)
  enough_digits (suc k) (suc m) (suc a) b h g =
      ap (λ t. t * 2 + f (suc a % 2) (b % 2))
        (enough_digits k m (suc a / 2) (b / 2) (omega arith) (omega arith))

  one_digit :
      (a b : ℕ)
      → bitwise z f (suc a) b ≡ bitwise z f (suc a / 2) (b / 2) * 2 + f (suc a % 2) (b % 2)
  one_digit a b =
      ap (λ t. t * 2 + f (suc a % 2) (b % 2))
        (enough_digits a (suc a / 2) (suc a / 2) (b / 2) (omega arith) (omega arith))

-- One step of `|` and of `&`: the lowest digits join, and the rest go on.
pub bit_or_low : (a b : ℕ) → bit_or a b ≡ bit_or (a / 2) (b / 2) * 2 + max (a % 2) (b % 2)
bit_or_low zero b = omega (arith, bit_or-bitwise 0 b, bit_or-bitwise 0 (b / 2))
bit_or_low (suc a) b = omega (
  arith,
  bit_or-bitwise (suc a) b,
  bit_or-bitwise (suc a / 2) (b / 2),
  one_digit (λ y. y) max a b,
)

pub bit_and_low : (a b : ℕ) → bit_and a b ≡ bit_and (a / 2) (b / 2) * 2 + min (a % 2) (b % 2)
bit_and_low zero b = omega (arith, bit_and-bitwise 0 b, bit_and-bitwise 0 (b / 2))
bit_and_low (suc a) b = omega (
  arith,
  bit_and-bitwise (suc a) b,
  bit_and-bitwise (suc a / 2) (b / 2),
  one_digit (λ y. 0) min a b,
)

pub bit-bit_or : (a b j : ℕ) → bit (bit_or a b) j ≡ max (bit a j) (bit b j)
bit-bit_or a b zero = omega (arith, bit_or_low a b)
bit-bit_or a b (suc j) =
    let half : bit_or a b / 2 ≡ bit_or (a / 2) (b / 2) = omega (arith, bit_or_low a b) in
    rw half (bit-bit_or (a / 2) (b / 2) j)

pub bit-bit_and : (a b j : ℕ) → bit (bit_and a b) j ≡ min (bit a j) (bit b j)
bit-bit_and a b zero = omega (arith, bit_and_low a b)
bit-bit_and a b (suc j) =
    let half : bit_and a b / 2 ≡ bit_and (a / 2) (b / 2) = omega (arith, bit_and_low a b) in
    rw half (bit-bit_and (a / 2) (b / 2) j)

-- `v >> k` drops the `k` lowest digits.
pub bit-shr : (v k j : ℕ) → bit (v / 2 ^ k) j ≡ bit v (k + j)
bit-shr v zero j =
    let whole : v / 1 ≡ v = omega arith in
    let same : j ≡ 0 + j = omega arith in rw whole (ap (bit v) same)
bit-shr v (suc k) j =
    let halves : v / 2 ^ suc k ≡ v / 2 / 2 ^ k =
      ap (λ t. v / t) (pow-succ' 2 k) ∙ sym (div-div-eq-div-mul v 2 (2 ^ k)) in
    let next : suc (k + j) ≡ suc k + j = omega arith in
    rw halves (bit-shr (v / 2) k j ∙ ap (bit v) next)

-- Two numbers below `2 ^ m` with the same `m` digits are one number.
pub bit_ext : (m a b : ℕ) → a < 2 ^ m → b < 2 ^ m → ((j : ℕ) → j < m → bit a j ≡ bit b j) → a ≡ b
bit_ext zero a b ha hb same = omega arith
bit_ext (suc m) a b ha hb same = omega (
  arith,
  same 0 (omega arith),
  bit_ext m (a / 2) (b / 2) (omega (arith, pow-suc 2 m)) (omega (arith, pow-suc 2 m))
      (λ j h. same (suc j) (omega arith)),
)

pub bit_or-lt : (m a b : ℕ) → a < 2 ^ m → b < 2 ^ m → bit_or a b < 2 ^ m
bit_or-lt zero a b ha hb =
    let ea : a ≡ 0 = omega arith in let eb : b ≡ 0 = omega arith in rw (ea, eb) (omega arith)
bit_or-lt (suc m) a b ha hb = omega (
  arith,
  pow-suc 2 m,
  bit_or_low a b,
  bit_or-lt m (a / 2) (b / 2) (omega (arith, pow-suc 2 m)) (omega (arith, pow-suc 2 m)),
)

-- The digits of `2 ^ m - 1` are ones.
pub bit-ones : (m j : ℕ) → j < m → bit (2 ^ m - 1) j ≡ 1
bit-ones zero j h = absurd (omega arith)
bit-ones (suc m) zero h = omega (arith, pow-suc 2 m, one-le-pow m 2)
bit-ones (suc m) (suc j) h =
    let half : (2 ^ suc m - 1) / 2 ≡ 2 ^ m - 1 = omega (arith, pow-suc 2 m, one-le-pow m 2) in
    rw half (bit-ones m j (omega arith))

bit_and-le_fuel : (n a b : ℕ) → a ≤ n → bit_and a b ≤ a
bit_and-le_fuel n zero b h = omega (arith, bit_and-bitwise 0 b)
bit_and-le_fuel zero (suc a) b h = absurd (omega arith)
bit_and-le_fuel (suc n) (suc a) b h =
    omega (arith, bit_and_low (suc a) b, bit_and-le_fuel n (suc a / 2) (b / 2) (omega arith))

pub bit_and-le : (a b : ℕ) → bit_and a b ≤ a
bit_and-le a b = bit_and-le_fuel a a b (omega arith)

bit_and-le_fuel_right : (n a b : ℕ) → a ≤ n → bit_and a b ≤ b
bit_and-le_fuel_right n zero b h = omega (arith, bit_and-bitwise 0 b)
bit_and-le_fuel_right zero (suc a) b h = absurd (omega arith)
bit_and-le_fuel_right (suc n) (suc a) b h =
    omega (arith, bit_and_low (suc a) b, bit_and-le_fuel_right n (suc a / 2) (b / 2) (omega arith))

pub bit_and-le_right : (a b : ℕ) → bit_and a b ≤ b
bit_and-le_right a b = bit_and-le_fuel_right a a b (omega arith)
