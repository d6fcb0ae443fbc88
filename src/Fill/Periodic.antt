-- ===== src/Fill/Periodic.antt =====
-- What `cmemset` of src/gjalloc.c leaves in the buffer.
use gjalloc.Base.{
  ℕ, zero, suc, ◌+◌, ◌-◌, ◌*◌, ◌%◌, ◌^◌, ◌≤◌, ◌<◌, ◌≡◌, refl, sym, ap, ◌∙◌, some, arith, leb, ◌==◌,
  Bool-cases, inl, inr, u64, sub64, leb→le, leb→lt, ==→eq, le→leb, lt→ltb, lt→leb, le→ltb,
}
use mathlib.Core.Path.{subst}
use native.Mathlib.Nat.{mod-eq-sub-mod, mod-eq_of_lt}
use gjalloc.Fill.{memcpy, fill_loop, cmemset}

mod_back : (i k s : ℕ) → 0 < s → k * s ≤ i → (i - k * s) % s ≡ i % s
mod_back i zero s pos le = let none_off : i - 0 * s ≡ i = omega arith in ap (λ t. t % s) none_off
mod_back i (suc k) s pos le =
    let earlier : i - suc k * s ≡ i - k * s - s = omega arith in
    ap (λ t. t % s) earlier
    ∙ sym (mod-eq-sub-mod {n = i - k * s} {m = s} (omega arith))
    ∙ mod_back i k s pos (omega arith)

-- Where the copy lands, and where it does not.
memcpy-in :
    (dst : ℕ → ℕ) (to : ℕ) (src : ℕ → ℕ) (len i : ℕ)
    → to ≤ i
    → i < to + len
    → memcpy dst to src len i ≡ src (i - to)
unfolding memcpy
memcpy-in dst to src len i lo hi = rw (le→leb to i lo, lt→ltb i (to + len) hi) refl

memcpy-before :
    (dst : ℕ → ℕ) (to : ℕ) (src : ℕ → ℕ) (len i : ℕ) → i < to → memcpy dst to src len i ≡ dst i
unfolding memcpy
memcpy-before dst to src len i lt = rw (lt→leb to i lt) refl

memcpy-behind :
    (dst : ℕ → ℕ) (to : ℕ) (src : ℕ → ℕ) (len i : ℕ)
    → to + len ≤ i
    → memcpy dst to src len i ≡ dst i
unfolding memcpy
memcpy-behind dst to src len i le = rw (le→leb to i (omega arith), le→ltb i (to + len) le) refl

mul_least : (k s : ℕ) → 1 ≤ k → s ≤ k * s
mul_least k s one = grind arith

pred_mul : (n s : ℕ) → 1 ≤ n → (n - 1) * s + s ≡ n * s
pred_mul zero s one = absurd (omega arith)
pred_mul (suc n) s one = let back : suc n - 1 ≡ n = omega arith in rw back (omega arith)

minus_zero : (i : ℕ) → i - 0 ≡ i
minus_zero i = omega arith

no_wrap : (n : ℕ) → n < 2 ^ 64 → u64 n ≡ n
no_wrap n lt = omega arith

-- A round of the loop.
fill_loop-more :
    (fuel : ℕ) (dst : ℕ → ℕ) (s n : ℕ)
    → s ≤ n
    → s + n < 2 ^ 64
    → fill_loop (suc fuel) dst s n ≡ fill_loop fuel (memcpy dst s dst s) (s * 2) (n - s)
unfolding fill_loop
fill_loop-more fuel dst s n le small =
    let twice : u64 (s * 2) ≡ s * 2 = omega arith in
    let fewer : sub64 n s ≡ n - s = omega arith in rw (le→leb s n le, twice, fewer) refl

module _ (src : ℕ → ℕ) (size : ℕ) (pos : 0 < size) where
  -- The first `n` bytes are copies of `src`, and the others are those of `old`.
  Filled : ℕ → (ℕ → ℕ) → (ℕ → ℕ) → Type 0
  Filled n old r = ((i : ℕ) → i < n → r i ≡ src (i % size)) × ((i : ℕ) → n ≤ i → r i ≡ old i)

  -- A copy of the first `len` of the `k` blocks that are there.
  extend :
      (old dst : ℕ → ℕ) (k len : ℕ)
      → len ≤ k * size
      → Filled (k * size) old dst
      → Filled (k * size + len) old (memcpy dst (k * size) dst len)
  unfolding Filled
  extend old dst k len le (copies, others) = (
    λ i lt. elim (Bool-cases (leb (k * size) i)) [
      | inl hi ↦
          let there = leb→le (k * size) i hi in
          memcpy-in dst (k * size) dst len i there lt
          ∙ copies (i - k * size) (omega arith)
          ∙ ap src (mod_back i k size pos there)
      | inr lo ↦
          let here = leb→lt (k * size) i lo in
          memcpy-before dst (k * size) dst len i here ∙ copies i here
    ],
    λ i out. memcpy-behind dst (k * size) dst len i out ∙ others i (omega arith),
  )

  fill_loop-Filled :
      (fuel k n : ℕ) (old dst : ℕ → ℕ)
      → 1 ≤ k
      → n < fuel * size
      → k * size + n < 2 ^ 64
      → Filled (k * size) old dst
      → (r : ℕ → ℕ) × (fill_loop fuel dst (k * size) n ≡ some r) × Filled (k * size + n) old r
  unfolding fill_loop
  fill_loop-Filled zero k n old dst one enough small filled = absurd (omega arith)
  fill_loop-Filled (suc fuel) k n old dst one enough small filled =
      elim (Bool-cases (leb (k * size) n)) [
        | inl more ↦
            let le = leb→le (k * size) n more in
            let base = mul_least k size one in
            let twice : k * size * 2 ≡ (k + k) * size = omega arith in
            let doubled = extend old dst k (k * size) (omega arith) filled in
            let both : k * size + k * size ≡ (k + k) * size = omega arith in
            let whole : (k + k) * size + (n - k * size) ≡ k * size + n = omega arith in
            let (r, runs, all) =
              fill_loop-Filled fuel (k + k) (n - k * size) old
                (memcpy dst (k * size) dst (k * size)) (omega arith) (omega arith) (omega arith)
                (subst (λ t. Filled t old (memcpy dst (k * size) dst (k * size))) both doubled) in
            (
              r,
              fill_loop-more fuel dst (k * size) n le (omega arith)
                  ∙ ap (λ t. fill_loop fuel (memcpy dst (k * size) dst (k * size)) t (n - k * size))
                      twice
                  ∙ runs,
              subst (λ t. Filled t old r) whole all,
            )
        | inr last ↦
            let lt = leb→lt (k * size) n last in
            elim (Bool-cases (n == 0)) [
              | inl done ↦
                  let whole : k * size ≡ k * size + n = omega (arith, ==→eq n 0 done) in
                  (dst, rw (last, done) refl, subst (λ t. Filled t old dst) whole filled)
              | inr some_left ↦ (
                memcpy dst (k * size) dst n,
                rw (last, some_left) refl,
                extend old dst k n (omega arith) filled,
              )
            ]
      ]

  -- Given at least one copy to make, and a total that does not overflow, `cmemset` ends; the
  -- buffer then starts with `n` copies of the `size` bytes, and is what it was behind them.
  pub cmemset-Filled :
      (dst : ℕ → ℕ) (n : ℕ)
      → 1 ≤ n
      → n * size < 2 ^ 64
      → (r : ℕ → ℕ) × (cmemset dst src size n ≡ some r)
        × ((i : ℕ) → i < n * size → r i ≡ src (i % size))
        × ((i : ℕ) → n * size ≤ i → r i ≡ dst i)
  unfolding cmemset Filled
  cmemset-Filled dst n one small =
      let first : size ≡ 1 * size = omega arith in
      let back = pred_mul n size one in
      let short = mul_least size n pos in
      let pred : sub64 n 1 ≡ n - 1 = omega arith in
      let rest : u64 (sub64 n 1 * size) ≡ (n - 1) * size =
        ap (λ t. u64 (t * size)) pred ∙ no_wrap ((n - 1) * size) (omega arith) in
      let D = memcpy dst 0 src size in
      let start : Filled (1 * size) dst D = (
        λ i lt.
            let same : i - 0 ≡ i % size =
              minus_zero i ∙ sym (mod-eq_of_lt {n = i} {m = size} (omega arith)) in
            memcpy-in dst 0 src size i (omega arith) (omega arith) ∙ ap src same,
        λ i out. memcpy-behind dst 0 src size i (omega arith),
      ) in
      let (r, runs, (copies, others)) =
        fill_loop-Filled (n + 1) 1 ((n - 1) * size) dst D (omega arith) (omega arith) (omega arith)
          start in
      (
        r,
        ap (λ t. fill_loop (n + 1) D t (u64 (sub64 n 1 * size))) first
            ∙ ap (fill_loop (n + 1) D (1 * size)) rest
            ∙ runs,
        λ i lt. copies i (omega arith),
        λ i out. others i (omega arith),
      )
