-- ===== src/Bitvector/Access.antt =====
-- `bv_set` and `bv_get` of src/gjalloc.h as one array of bits, and the size that
-- `bv_byte_length` asks for.
use native.Mathlib.Nat.{pow-suc, one-le-pow, pow-le-pow_right}
use gjalloc.Base.{
  length-set, ne→==, ℕ, zero, suc, ◌+◌, ◌-◌, ◌*◌, ◌/◌, ◌%◌, ◌^◌, ◌≤◌, ◌<◌, bit_and, bit_or, ◌≡◌,
  ◌≢◌, refl, ap, ◌∙◌, ◌↔◌, arith, Bool, true, false, not, some, List, [], ◌∷◌, length, get_elem?,
  get_or, set, ◌==◌, if◌then◌else◌, get_or-set_self, get_or-set_ne, ℕ_discrete,
}
use gjalloc.Base.Bits.{bit, bit-le-one, bit-bit_or, bit-bit_and, bit_and_low}
use gjalloc.Bitvector.{Bitvector, bv_byte_length, bv_set, bv_get}
use gjalloc.Bitvector.Digits.{bit-pow, bit-pow_ne, bit-complement, digit}

abbrev pub digit_of : Bool → ℕ
digit_of true = 1
digit_of false = 0

-- The word that `bv_set` stores.
stored : ℕ → ℕ → Bool → ℕ
stored w b value = if value then bit_or w (2 ^ b) else bit_and w (2 ^ 32 - 1 - 2 ^ b)

bit-stored :
    (w b j : ℕ) (value : Bool)
    → b < 32
    → j < 32
    → bit (stored w b value) j ≡ (if j == b then digit_of value else bit w j)
unfolding stored
bit-stored w b j true hb hj =
    ground (arith, bit-bit_or w (2 ^ b) j, bit-pow b, bit-pow_ne b j, bit-le-one w j)
bit-stored w b j false hb hj =
    let top = pow-le-pow_right {n = 2} (omega arith) {i = b} {j = 31} (omega arith) in
    ground (
      arith,
      bit-bit_and w (2 ^ 32 - 1 - 2 ^ b) j,
      bit-complement 32 (2 ^ b) j (omega arith) hj,
      bit-pow b,
      bit-pow_ne b j,
      bit-le-one w j,
    )

-- The vector has a word for each of the places below `n`.
abbrev pub Covers : Bitvector → ℕ → Type 0
Covers bv n = n ≤ 32 * length bv.v

pub get_elem?-get_or : (ws : List ℕ) (i : ℕ) → i < length ws → get_elem? ws i ≡ some (get_or ws i 0)
get_elem?-get_or [] i h = absurd (omega arith)
get_elem?-get_or (w ∷ ws) zero h = refl
get_elem?-get_or (w ∷ ws) (suc i) h = get_elem?-get_or ws i (omega arith)

bit_and-zero : (n w : ℕ) → w ≤ n → bit_and w 0 ≡ 0
bit_and-zero n zero h = refl
bit_and-zero zero (suc w) h = absurd (omega arith)
bit_and-zero (suc n) (suc w) h =
    omega (arith, bit_and_low (suc w) 0, bit_and-zero n (suc w / 2) (omega arith))

-- `w & (1 << b)` keeps the digit `b` alone.
bit_and-pow : (b w : ℕ) → bit_and w (2 ^ b) ≡ bit w b * 2 ^ b
bit_and-pow zero w = omega (arith, bit_and_low w 1, bit_and-zero (w / 2) (w / 2) (omega arith))
bit_and-pow (suc b) w =
    let half : 2 ^ suc b / 2 ≡ 2 ^ b = omega (arith, pow-suc 2 b) in
    let even : 2 ^ suc b % 2 ≡ 0 = omega (arith, pow-suc 2 b) in
    omega (
      arith,
      bit_and_low w (2 ^ suc b),
      ap (bit_and (w / 2)) half,
      even,
      bit_and-pow b (w / 2),
      ap (λ (t : ℕ). bit (w / 2) b * t) (pow-suc 2 b),
    )

digit_of-test : (w b : ℕ) → digit_of (not (bit_and w (2 ^ b) == 0)) ≡ bit w b
digit_of-test w b = elim (ℕ_discrete (bit w b) 0) [
  | yes e ↦
      let zeros : bit_and w (2 ^ b) ≡ 0 = bit_and-pow b w ∙ ap (λ t. t * 2 ^ b) e ∙ omega arith in
      ground arith
  | no ne ↦
      let one : bit w b ≡ 1 = omega (arith, bit-le-one w b) in
      let pos : bit_and w (2 ^ b) ≡ 2 ^ b =
        bit_and-pow b w ∙ ap (λ t. t * 2 ^ b) one ∙ omega arith in
      ground (arith, one-le-pow b 2)
]

-- The digits of a vector in which one word has been stored.
digit-set :
    (ws : List ℕ) (n j : ℕ) (value : Bool)
    → n / 32 < length ws
    → digit (set ws (n / 32) (stored (get_or ws (n / 32) 0) (n % 32) value)) j
      ≡ (if j == n then digit_of value else digit ws j)
digit-set ws n j value h = elim (ℕ_discrete (n / 32) (j / 32)) [
  | yes same ↦
      let w = get_or ws (n / 32) 0 in
      let read = get_or-set_self ws (n / 32) (stored w (n % 32) value) 0 h in
      let tests : (j % 32 == n % 32) ≡ (j == n) = ground arith in
      rw (← same, read, bit-stored w (n % 32) (j % 32) value (omega arith) (omega arith), tests)
        refl
  | no other ↦
      let read =
        get_or-set_ne ws (n / 32) (j / 32) (stored (get_or ws (n / 32) 0) (n % 32) value) 0 other in
      let ne : j ≢ n = omega arith in rw (read, ne→== j n ne) refl
]

-- `bv_set` inside the vector writes one digit and leaves every other.
pub bv_set-digit :
    (bv : Bitvector) (n : ℕ) (value : Bool)
    → Covers bv (suc n)
    → (bv' : Bitvector) × (bv_set bv n value ≡ some bv')
      × (bv'.length ≡ bv.length)
      × (length bv'.v ≡ length bv.v)
      × ((j : ℕ) → digit bv'.v j ≡ (if j == n then digit_of value else digit bv.v j))
unfolding bv_set stored
bv_set-digit bv n value h =
    let inside : n / 32 < length bv.v = omega arith in
    let word = get_elem?-get_or bv.v (n / 32) inside in
    let w' = stored (get_or bv.v (n / 32) 0) (n % 32) value in
    (
      record bv { v = set bv.v (n / 32) w' },
      rw (word, bv_set) refl,
      refl,
      length-set bv.v (n / 32) w',
      λ j. digit-set bv.v n j value inside,
    )

-- `bv_get` inside the vector reads that digit.
pub bv_get-digit :
    (bv : Bitvector) (n : ℕ)
    → Covers bv (suc n)
    → (b : Bool) × (bv_get bv n ≡ some b) × (digit_of b ≡ digit bv.v n)
unfolding bv_get
bv_get-digit bv n h =
    let inside : n / 32 < length bv.v = omega arith in
    let word = get_elem?-get_or bv.v (n / 32) inside in
    let w = get_or bv.v (n / 32) 0 in
    (not (bit_and w (2 ^ (n % 32)) == 0), rw (word, bv_get) refl, digit_of-test w (n % 32))

-- The bytes are whole words, enough for every place below the length. They are enough for one
-- word more, which `bv_ctz` may read, exactly when the length is 1 to 224 modulo 256.
pub bv_byte_length-covers :
    (bv : Bitvector)
    → (bv.length ≤ 8 * bv_byte_length bv)
      × (bv_byte_length bv % 4 ≡ 0)
      × ((bv.length + 32 ≤ 8 * bv_byte_length bv)
          ↔ ((1 ≤ bv.length % 256) × (bv.length % 256 ≤ 224)))
unfolding bv_byte_length
bv_byte_length-covers bv = ground arith
