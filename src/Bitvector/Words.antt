-- ===== src/Bitvector/Words.antt =====
-- `bv_set` of src/gjalloc.h stores words of 32 bits.
use mathlib.Core.Path.{subst}
use mathlib.Core.Option.{some-injective}
use native.Mathlib.Nat.{pow-le-pow_right}
use gjalloc.Base.{
  ℕ, zero, suc, ◌/◌, ◌%◌, ◌^◌, ◌<◌, ◌≡◌, refl, sym, ap, ◌∙◌, arith, bit_or, true, some, List, [],
  ◌∷◌, length, set, get_or, replicate,
}
use gjalloc.Base.Bits.{bit_or-lt}
use gjalloc.Bitvector.{Bitvector, bv_set}
use gjalloc.Bitvector.Digits.{digit, bit-zero}
use gjalloc.Bitvector.Least.{All32, All32-get_or}
use gjalloc.Bitvector.Access.{Covers, get_elem?-get_or}

All32-set : (ws : List ℕ) (i w : ℕ) → All32 ws → w < 2 ^ 32 → All32 (set ws i w)
All32-set [] i w all small = tt
All32-set (x ∷ ws) zero w all small = (small, all.1)
All32-set (x ∷ ws) (suc i) w all small = (all.0, All32-set ws i w all.1 small)

pow-lt : (b : ℕ) → b < 32 → 2 ^ b < 2 ^ 32
pow-lt b h = omega (arith, pow-le-pow_right {n = 2} (omega arith) {i = b} {j = 31} (omega arith))

pub bv_set-All32 :
    (bv bv' : Bitvector) (n : ℕ)
    → Covers bv (suc n)
    → bv_set bv n true ≡ some bv'
    → All32 bv.v
    → All32 bv'.v
unfolding bv_set
bv_set-All32 bv bv' n room is all =
    let inside : n / 32 < length bv.v = omega arith in
    let word = get_elem?-get_or bv.v (n / 32) inside in
    let w = get_or bv.v (n / 32) 0 in
    let w' = bit_or w (2 ^ (n % 32)) in
    let stored : bv_set bv n true ≡ some (record bv { v = set bv.v (n / 32) w' }) =
      rw (word, bv_set) refl in
    let e = some-injective _ _ (sym stored ∙ is) in
    subst (λ t. All32 t.v) e
      (All32-set bv.v (n / 32) w' all (
        bit_or-lt 32 w (2 ^ (n % 32)) (All32-get_or bv.v (n / 32) all)
          (pow-lt (n % 32) (omega arith))))

abbrev pub zeros : ℕ → List ℕ
zeros n = replicate n 0

pub All32-replicate : (n : ℕ) → All32 (zeros n)
All32-replicate zero = tt
All32-replicate (suc n) = (omega arith, All32-replicate n)

pub length-replicate : (n : ℕ) → length (zeros n) ≡ n
length-replicate zero = refl
length-replicate (suc n) = ap suc (length-replicate n)

get_or-replicate : (n i : ℕ) → get_or (zeros n) i 0 ≡ 0
get_or-replicate zero i = refl
get_or-replicate (suc n) zero = refl
get_or-replicate (suc n) (suc i) = get_or-replicate n i

-- A new vector has no digit that is set.
pub digit-replicate : (n i : ℕ) → digit (zeros n) i ≡ 0
digit-replicate n i = rw (get_or-replicate n (i / 32)) (bit-zero (i % 32))
