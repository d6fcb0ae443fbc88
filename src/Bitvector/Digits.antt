-- ===== src/Bitvector/Digits.antt =====
-- The digits of the masks that the `bv_` functions use, and of a whole vector.
use native.Mathlib.Nat.{pow-suc, one-le-pow, pow-le-pow_right}
use gjalloc.Base.{
  ℕ, zero, suc, ◌+◌, ◌-◌, ◌*◌, ◌/◌, ◌%◌, ◌^◌, ◌≤◌, ◌<◌, ◌≡◌, ◌≢◌, refl, ap, arith, u32, inl, inr,
  Bool-cases, ◌==◌, List, ◌∷◌, get_or,
}
use gjalloc.Base.Bits.{bit, bit-ones}
use gjalloc.Layout.{count_zeros}

pub bit-zero : (j : ℕ) → bit 0 j ≡ 0
bit-zero zero = refl
bit-zero (suc j) = bit-zero j

-- The only digit of `2 ^ b` is `b`.
pub bit-pow : (b : ℕ) → bit (2 ^ b) b ≡ 1
bit-pow zero = refl
bit-pow (suc b) =
    let half : 2 ^ suc b / 2 ≡ 2 ^ b = omega (arith, pow-suc 2 b) in rw half (bit-pow b)

pub bit-pow_ne : (b j : ℕ) → b ≢ j → bit (2 ^ b) j ≡ 0
bit-pow_ne zero zero h = absurd (h refl)
bit-pow_ne zero (suc j) h = bit-zero j
bit-pow_ne (suc b) zero h = omega (arith, pow-suc 2 b)
bit-pow_ne (suc b) (suc j) h =
    let half : 2 ^ suc b / 2 ≡ 2 ^ b = omega (arith, pow-suc 2 b) in
    rw half (bit-pow_ne b j (λ e. h (ap suc e)))

-- `~x`, on `m` digits.
pub bit-complement : (m x j : ℕ) → x < 2 ^ m → j < m → bit (2 ^ m - 1 - x) j ≡ 1 - bit x j
bit-complement zero x j h lt = absurd (omega arith)
bit-complement (suc m) x zero h lt = omega (arith, pow-suc 2 m, one-le-pow m 2)
bit-complement (suc m) x (suc j) h lt =
    let half : (2 ^ suc m - 1 - x) / 2 ≡ 2 ^ m - 1 - x / 2 = omega (arith, pow-suc 2 m) in
    rw half (bit-complement m (x / 2) j (omega (arith, pow-suc 2 m)) (omega arith))

-- The mask of the digits from `b` up.
pub bit-mask_low : (m b j : ℕ) → b ≤ m → j < b → bit (2 ^ m - 2 ^ b) j ≡ 0
bit-mask_low m zero j h lt = absurd (omega arith)
bit-mask_low zero (suc b) j h lt = absurd (omega arith)
bit-mask_low (suc m) (suc b) zero h lt = omega (arith, pow-suc 2 m, pow-suc 2 b)
bit-mask_low (suc m) (suc b) (suc j) h lt =
    let half : (2 ^ suc m - 2 ^ suc b) / 2 ≡ 2 ^ m - 2 ^ b =
      omega (arith, pow-suc 2 m, pow-suc 2 b) in
    rw half (bit-mask_low m b j (omega arith) (omega arith))

pub bit-mask_high : (m b j : ℕ) → b ≤ j → j < m → bit (2 ^ m - 2 ^ b) j ≡ 1
bit-mask_high m zero j h lt = bit-ones m j lt
bit-mask_high zero (suc b) j h lt = absurd (omega arith)
bit-mask_high (suc m) (suc b) zero h lt = absurd (omega arith)
bit-mask_high (suc m) (suc b) (suc j) h lt =
    let half : (2 ^ suc m - 2 ^ suc b) / 2 ≡ 2 ^ m - 2 ^ b =
      omega (arith, pow-suc 2 m, pow-suc 2 b) in
    rw half (bit-mask_high m b j (omega arith) (omega arith))

-- `~0 << b` on 32 bits.
pub shifted_ones : (b : ℕ) → b < 32 → u32 ((2 ^ 32 - 1) * 2 ^ b) ≡ 2 ^ 32 - 2 ^ b
shifted_ones b h =
    let top = pow-le-pow_right {n = 2} (omega arith) {i = b} {j = 31} (omega arith) in
    omega (arith, one-le-pow b 2)

-- `__builtin_ctz` finds the lowest one.
pub count_zeros_one :
    (m v : ℕ) → 0 < v → v < 2 ^ m → (count_zeros m v < m) × (bit v (count_zeros m v) ≡ 1)
unfolding count_zeros
count_zeros_one zero v pos h = absurd (omega arith)
count_zeros_one (suc m) v pos h = elim (Bool-cases (v % 2 == 0)) [
  | inl even ↦
      let (lt, one) = count_zeros_one m (v / 2) (ground arith) (omega (arith, pow-suc 2 m)) in
      let next : count_zeros m (v / 2) + 1 ≡ suc (count_zeros m (v / 2)) = omega arith in
      rw (even, next) (omega arith, one)
  | inr odd ↦ rw odd (omega arith, ground arith)
]

pub count_zeros_zeros : (m v j : ℕ) → j < count_zeros m v → bit v j ≡ 0
unfolding count_zeros
count_zeros_zeros zero v j h = absurd (omega arith)
count_zeros_zeros (suc m) v zero h = ground arith
count_zeros_zeros (suc m) v (suc j) h = count_zeros_zeros m (v / 2) j (ground arith)

-- Digit `i` of a vector of 32-bit words.
abbrev pub digit : List ℕ → ℕ → ℕ
digit ws i = bit (get_or ws (i / 32) 0) (i % 32)

pub digit-skip : (w : ℕ) (ws : List ℕ) (i : ℕ) → digit (w ∷ ws) (32 + i) ≡ digit ws i
digit-skip w ws i =
    let word : (32 + i) / 32 ≡ suc (i / 32) = omega arith in
    let place : (32 + i) % 32 ≡ i % 32 = omega arith in rw (word, place) refl

pub digit-here : (w : ℕ) (ws : List ℕ) (i : ℕ) → i < 32 → digit (w ∷ ws) i ≡ bit w i
digit-here w ws i h =
    let word : i / 32 ≡ 0 = omega arith in
    let place : i % 32 ≡ i = omega arith in rw (word, place) refl
