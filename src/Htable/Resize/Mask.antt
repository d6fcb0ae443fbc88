-- ===== src/Htable/Resize/Mask.antt =====
-- With a power of two buckets, the hash of src/gjalloc.c is taken modulo their number: with twice
-- as many, a page stays in its bucket or goes to the one that is as many further on.
use native.Mathlib.Nat.{
  pow-suc, one-le-pow, mod-add-div', add-mul-mod_self_right, mod-eq_of_lt, mod-lt, mod-one,
}
use gjalloc.Base.{
  ℕ, zero, suc, ◌+◌, ◌-◌, ◌*◌, ◌/◌, ◌%◌, ◌^◌, ◌<◌, ◌≡◌, sym, ap, ◌∙◌, inl, inr, ◌⊎◌, arith, min,
  bit_and, u32, sub32, dec_lt,
}
use gjalloc.Base.Bits.{bit_and_low, bit_and-le_right}
use gjalloc.Page.{last_block}
use gjalloc.Allocator.{Allocator}
use gjalloc.Htable.{hash1, masked_hash, bucket_of}

product_swap : (d k : ℕ) → d * 2 * k ≡ d * (k * 2)
product_swap d k = grind arith

succ_product : (d k : ℕ) → (d * 2 + 1) * k ≡ d * (k * 2) + k
succ_product d k = grind arith

product_half : (d k : ℕ) → d * (k * 2) ≡ d * k * 2
product_half d k = grind arith

-- The number that is `r` modulo `k`, where `d` is the quotient.
mod_unique : (x r d k : ℕ) → r < k → x ≡ r + d * k → x % k ≡ r
mod_unique x r d k lt e = ap (λ t. t % k) e ∙ add-mul-mod_self_right r d k ∙ mod-eq_of_lt lt

mod_double : (x k : ℕ) → 0 < k → x % (k * 2) ≡ x / 2 % k * 2 + x % 2
mod_double x k pos =
    mod_unique x (x / 2 % k * 2 + x % 2) (x / 2 / k) (k * 2) (omega (arith, mod-lt (x / 2) pos))
      (omega (arith, mod-add-div' (x / 2) k, product_half (x / 2 / k) k))

pow_half : (k : ℕ) → (2 ^ suc k - 1) / 2 ≡ 2 ^ k - 1
pow_half k = omega (arith, pow-suc 2 k, one-le-pow k 2 (omega arith))

pow_odd : (k : ℕ) → (2 ^ suc k - 1) % 2 ≡ 1
pow_odd k = omega (arith, pow-suc 2 k, one-le-pow k 2 (omega arith))

bit_and-mod : (k h : ℕ) → bit_and h (2 ^ k - 1) ≡ h % 2 ^ k
bit_and-mod zero h = omega (arith, bit_and-le_right h 0, mod-one h)
bit_and-mod (suc k) h =
    let low =
      bit_and_low h (2 ^ suc k - 1)
      ∙ ap (λ t. bit_and (h / 2) t * 2 + min (h % 2) ((2 ^ suc k - 1) % 2)) (pow_half k) in
    let twice =
      ap (λ t. h % t) (pow-suc 2 k) ∙ mod_double h (2 ^ k) (one-le-pow k 2 (omega arith)) in
    omega (arith, low, pow_odd k, bit_and-mod k (h / 2), twice)

-- Modulo twice as much.
mod_twice : (h k : ℕ) → 0 < k → (h % (k * 2) ≡ h % k) ⊎ (h % (k * 2) ≡ h % k + k)
mod_twice h k pos =
    let below : h % (k * 2) < k * 2 = mod-lt h (omega arith) in
    let parts = mod-add-div' h (k * 2) in
    let half = product_half (h / (k * 2)) k in
    elim (dec_lt (h % (k * 2)) k) [
      | yes lt ↦ inl (
          sym (
            mod_unique h (h % (k * 2)) (h / (k * 2) * 2) k lt
              (omega (arith, parts, product_swap (h / (k * 2)) k))))
      | no ge ↦ inr (
          let low : h % k ≡ h % (k * 2) - k =
            mod_unique h (h % (k * 2) - k) (h / (k * 2) * 2 + 1) k (omega arith)
              (omega (arith, parts, succ_product (h / (k * 2)) k)) in
          omega arith)
    ]

masked_hash-mod :
    (a : Allocator) (k h : ℕ)
    → a.allocated ≡ 2 ^ k
    → a.allocated < 2 ^ 32
    → masked_hash a h ≡ h % 2 ^ k
unfolding masked_hash
masked_hash-mod a k h power word =
    let mask : sub32 a.allocated 1 ≡ 2 ^ k - 1 =
      omega (arith, power, one-le-pow k 2 (omega arith)) in
    ap (bit_and h) mask ∙ bit_and-mod k h

-- The allocator with twice as many buckets.
abbrev pub wider : Allocator → Allocator
wider a = record a { allocated = u32 (2 * a.allocated) }

pub bucket_of-wider :
    (a : Allocator) (k : ℕ)
    → a.allocated ≡ 2 ^ k
    → a.allocated < 2 ^ 31
    → (p : ℕ)
    → (bucket_of (wider a) p ≡ bucket_of a p)
      ⊎ (bucket_of (wider a) p ≡ bucket_of a p + a.allocated)
unfolding bucket_of hash1
bucket_of-wider a k power word p =
    let h = hash1 a (last_block a.l p) in
    let old = masked_hash-mod a k h power (omega arith) in
    let twice : u32 (2 * a.allocated) ≡ 2 ^ suc k = omega (arith, power, pow-suc 2 k) in
    let new = masked_hash-mod (wider a) (suc k) h twice (omega arith) in
    elim (mod_twice h (2 ^ k) (one-le-pow k 2 (omega arith))) [
      | inl same ↦ inl (new ∙ ap (λ t. h % t) (pow-suc 2 k) ∙ same ∙ sym old)
      | inr further ↦ inr (new ∙ ap (λ t. h % t) (pow-suc 2 k) ∙ omega (arith, further, old, power))
    ]
