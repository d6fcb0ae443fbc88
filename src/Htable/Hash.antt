-- ===== src/Htable/Hash.antt =====
-- Where `hash1` and `hash2` of src/gjalloc.c put a page and look for it.
use gjalloc.Base.{
  ℕ, ◌+◌, ◌/◌, ◌^◌, ◌≤◌, ◌<◌, ◌≡◌, sym, ap, ◌∙◌, inl, inr, ◌⊎◌, arith, u64, u32, sub32,
}
use gjalloc.Base.Bits.{bit_and-le_right}
use native.Mathlib.Nat.{
  one-le-pow, le-div_iff_mul-le, div-lt_iff_lt-mul, div-mul-le_self, lt-div-mul-add, div-le_self,
}
use gjalloc.Allocator.{Allocator}
use gjalloc.Htable.{mix, hash1, hash2, masked_hash, bucket_of}

pub masked_hash-lt :
    (a : Allocator) (h : ℕ) → 1 ≤ a.allocated → a.allocated < 2 ^ 32 → masked_hash a h < a.allocated
unfolding masked_hash
masked_hash-lt a h some word = omega (arith, bit_and-le_right h (sub32 a.allocated 1))

pub bucket_of-lt :
    (a : Allocator) (p : ℕ) → 1 ≤ a.allocated → a.allocated < 2 ^ 32 → bucket_of a p < a.allocated
unfolding bucket_of
bucket_of-lt a p some_buckets word = masked_hash-lt a (hash1 a _) some_buckets word

-- A distance below `k` crosses at most one multiple of `k`.
next_multiple : (x y k : ℕ) → 0 < k → x ≤ y → y < x + k → (y / k ≡ x / k) ⊎ (y / k ≡ x / k + 1)
next_multiple x y k pos lo hi =
    let up : x / k ≤ y / k = (le-div_iff_mul-le pos).1 (omega (arith, div-mul-le_self x k)) in
    let dn : y / k < x / k + 2 =
      (div-lt_iff_lt-mul pos).1 (omega (arith, lt-div-mul-add {a = x} pos)) in
    omega arith

-- The bucket of a page is one of the two that a pointer into the page is looked up in.
pub bucket_of-hash :
    (a : Allocator) (p ptr : ℕ)
    → p ≤ ptr
    → ptr ≤ p + a.l.offset
    → a.l.offset < 2 ^ a.magnitude
    → p + a.l.offset < 2 ^ 64
    → (bucket_of a p ≡ masked_hash a (hash1 a ptr)) ⊎ (bucket_of a p ≡ masked_hash a (hash2 a ptr))
unfolding bucket_of hash1 hash2
bucket_of-hash a p ptr lo hi small inside =
    elim (next_multiple ptr (p + a.l.offset) (2 ^ a.magnitude)
      (one-le-pow a.magnitude 2 (omega arith)) hi (omega arith)) [
        | inl same ↦ inl (ap (λ t. masked_hash a (u32 (mix t))) same)
        | inr next ↦
            let whole : u64 (ptr / 2 ^ a.magnitude + 1) ≡ ptr / 2 ^ a.magnitude + 1 =
              omega (arith, div-le_self (p + a.l.offset) (2 ^ a.magnitude)) in
            inr (ap (λ t. masked_hash a (u32 (mix t))) (next ∙ sym whole))
      ]
