-- ===== src/Layout/Align.antt =====
-- What `ba_align_layout` of src/gjalloc.h does to a layout made by `ba_init_layout`.
use native.Mathlib.Nat.{pow-suc, pow-le-pow_right}
use gjalloc.Base.{
  ℕ, zero, suc, ◌+◌, ◌-◌, ◌*◌, ◌/◌, ◌^◌, ◌≤◌, ◌<◌, ◌≡◌, ◌∙◌, ap, arith, u32, sub32, bit_and,
  Bool-cases, inl, inr, ◌==◌, refl, ==→eq, ==→ne, ◌≢◌, if◌then◌else◌, not,
}
use gjalloc.Layout.{
  Layout, page_size, ba_init_layout, ba_align_layout, aligned_size, magnitude, round_up32,
}
use gjalloc.Layout.RoundUp.{round_up32_lem}
use gjalloc.Layout.PowerOfTwo.{power_test, count_zeros-pow, log2_exists, pow-lt_inv}

-- A layout whose sizes do not overflow `uint32_t` when its page is rounded up.
pub record IsSmall (block_size blocks : ℕ) : Type 0 where
  pub some_size : 1 ≤ block_size
  pub some_blocks : 1 ≤ blocks
  pub fits : blocks * block_size + 48 ≤ 2 ^ 31

-- The page of `l`, with the overhead of `malloc`, fits `2 ^ exponent` bytes and leaves no room
-- for one more block; it is larger than half of that.
pub record IsAligned (exponent : ℕ) (l : Layout) : Type 0 where
  pub last : l.offset + l.block_size ≡ 40 + l.blocks * l.block_size
  pub fits : page_size l + 8 ≤ 2 ^ exponent
  pub full : 2 ^ exponent < page_size l + l.block_size + 8
  pub half : 2 ^ exponent < 2 * page_size l
  pub small : exponent ≤ 31
  pub some_size : 1 ≤ l.block_size
  pub some_blocks : 1 ≤ l.blocks

pred-mul-add : (n s : ℕ) → 1 ≤ n → (n - 1) * s + s ≡ n * s
pred-mul-add n s h = omega (arith, ap (λ (t : ℕ). t * s) (pred_suc n h))
  where
    pred_suc : (n : ℕ) → 1 ≤ n → suc (n - 1) ≡ n
    pred_suc n h = omega arith

le-mul : (n s : ℕ) → 1 ≤ s → n ≤ n * s
le-mul n s h = grind arith

blocks-le : (s n : ℕ) → 1 ≤ n → s ≤ n * s
blocks-le s n h = grind arith

-- Where the product does not overflow, the last block starts `blocks - 1` blocks into the page.
pub ba_init_layout-offset :
    (s n : ℕ) → 1 ≤ s → 1 ≤ n → n * s + 48 ≤ 2 ^ 32 → (ba_init_layout s n).offset + s ≡ 40 + n * s
unfolding ba_init_layout
ba_init_layout-offset s n pos some fits =
    let less : sub32 n 1 ≡ n - 1 = omega (arith, le-mul n s pos) in
    rw less (omega (arith, pred-mul-add n s some))

-- The rounded size is the least power of two that holds the page.
aligned_size_lem :
    (s n : ℕ)
    → IsSmall s n
    → (k : ℕ) × (aligned_size (ba_init_layout s n) ≡ 2 ^ k)
      × (n * s + 48 ≤ 2 ^ k)
      × (k ≤ 31)
      × (2 ^ k < 2 * (n * s + 48))
unfolding aligned_size
aligned_size_lem s n small =
    let (k, lo, hi) = log2_exists (n * s + 48) (n * s + 48) (omega arith) (omega arith) in
    rw whole (pick k lo hi)
  where
    offset : (ba_init_layout s n).offset + (ba_init_layout s n).block_size ≡ 40 + n * s
    offset =
        unfold ba_init_layout in
        ba_init_layout-offset s n small.some_size small.some_blocks (omega arith)

    whole : u32 ((ba_init_layout s n).offset + (ba_init_layout s n).block_size + 8) ≡ n * s + 48
    whole = omega (arith, offset)

    pick :
        (k : ℕ)
        → 2 ^ k ≤ n * s + 48
        → n * s + 48 < 2 ^ suc k
        → (k : ℕ) × ((if not (bit_and (n * s + 48) (sub32 (n * s + 48) 1) == 0)
              then round_up32 (n * s + 48)
              else n * s + 48)
            ≡ 2 ^ k)
          × (n * s + 48 ≤ 2 ^ k)
          × (k ≤ 31)
          × (2 ^ k < 2 * (n * s + 48))
    pick k lo hi =
        let (to, from) = power_test k (n * s + 48) lo hi in
        let down : sub32 (n * s + 48) 1 ≡ n * s + 48 - 1 = omega arith in
        let at_most : k < 32 = pow-lt_inv k 32 (omega arith) in
        rw down (elim (Bool-cases (bit_and (n * s + 48) (n * s + 48 - 1) == 0)) [
          | inl power ↦
              let e = to (==→eq _ _ power) in (k, rw power e, omega arith, omega arith, omega arith)
          | inr other ↦
              let ne : n * s + 48 ≢ 2 ^ k = λ e. ==→ne _ _ other (from e) in
              let small_k : k < 31 = pow-lt_inv k 31 (omega arith) in
              (
                suc k,
                rw other (round_up32_lem k (n * s + 48) at_most lo hi ∙ fits_word k small_k),
                omega arith,
                omega arith,
                omega (arith, pow-suc 2 k),
              )
        ])
      where
        fits_word : (k : ℕ) → k < 31 → u32 (2 ^ suc k) ≡ 2 ^ suc k
        fits_word k h =
            omega (arith, pow-le-pow_right {n = 2} (omega arith) {i = suc k} {j = 31} (omega arith))

-- Division of a room `r` into blocks of `s` bytes.
division_bounds :
    (r n s : ℕ) → 1 ≤ s → n * s ≤ r → (n ≤ r / s) × (r / s * s ≤ r) × (r < r / s * s + s)
division_bounds r n s pos h = (grind arith, grind arith, grind arith)

-- The layout of `n` blocks that fill `2 ^ k` bytes is aligned.
filled-IsAligned :
    (k s n : ℕ)
    → 1 ≤ s
    → 1 ≤ n
    → k ≤ 31
    → n * s + 48 ≤ 2 ^ k
    → 2 ^ k < n * s + s + 48
    → IsAligned k (ba_init_layout s n)
filled-IsAligned k s n pos some at_most inside full =
    let top = pow-le-pow_right {n = 2} (omega arith) {i = k} {j = 31} at_most in
    let offset = ba_init_layout-offset s n pos some (omega arith) in
    let one = le-mul s n some in
    unfold ba_init_layout in
    record {
      last = offset;
      fits = omega (arith, offset);
      full = omega (arith, offset);
      half = omega (arith, offset, blocks-le s n some);
      small = at_most;
      some_size = pos;
      some_blocks = some;
    }

-- `ba_align_layout` makes a layout anew, with the blocks that its power of two has room for.
align_eq :
    (s n k : ℕ)
    → aligned_size (ba_init_layout s n) ≡ 2 ^ k
    → n * s + 48 ≤ 2 ^ k
    → k ≤ 31
    → ba_align_layout (ba_init_layout s n) ≡ ba_init_layout s ((2 ^ k - 48) / s)
unfolding ba_align_layout ba_init_layout
align_eq s n k is room at_most =
    let top = pow-le-pow_right {n = 2} (omega arith) {i = k} {j = 31} at_most in
    let down : sub32 (2 ^ k) 48 ≡ 2 ^ k - 48 = omega arith in rw (is, down)

-- For sizes that do not overflow, `ba_align_layout` makes the page fill a power of two that is
-- at most 2 ^ 31, keeps the block size, and gives no fewer blocks than were asked for.
pub ba_align_layout-IsAligned :
    (s n : ℕ)
    → IsSmall s n
    → let l = ba_align_layout (ba_init_layout s n) in
      (k : ℕ) × IsAligned k l × (l.block_size ≡ s) × (n ≤ l.blocks)
ba_align_layout-IsAligned s n small =
    let (k, is, room, at_most, least) = aligned_size_lem s n small in
    let (enough, inside, full) = division_bounds (2 ^ k - 48) n s small.some_size (omega arith) in
    rw (align_eq s n k is room at_most) (
      k,
      filled-IsAligned k s ((2 ^ k - 48) / s) small.some_size (omega arith) at_most (omega arith)
          (omega arith),
      unfold ba_init_layout in refl,
      unfold ba_init_layout in enough,
    )

init_again :
    (s n : ℕ)
    → ba_init_layout (ba_init_layout s n).block_size (ba_init_layout s n).blocks
      ≡ ba_init_layout s n
unfolding ba_init_layout
init_again s n = refl

-- Aligning again, as `ba_init` does to the layout that `ba_local_grow` has aligned already,
-- changes nothing.
pub ba_align_layout-idempotent :
    (s n : ℕ)
    → IsSmall s n
    → let l = ba_align_layout (ba_init_layout s n) in
      ba_align_layout (ba_init_layout l.block_size l.blocks) ≡ l
ba_align_layout-idempotent s n small =
    let (k, is, room, at_most, least) = aligned_size_lem s n small in
    let (enough, inside, full) = division_bounds (2 ^ k - 48) n s small.some_size (omega arith) in
    let q = (2 ^ k - 48) / s in
    let top = pow-le-pow_right {n = 2} (omega arith) {i = k} {j = 31} at_most in
    let again : IsSmall s q = record {
      some_size = small.some_size;
      some_blocks = omega arith;
      fits = omega arith;
    } in
    let (j, is', room', at_most', least') = aligned_size_lem s q again in
    let one = blocks-le s q (omega arith) in
    let up = pow-lt_inv k (suc j) (omega (arith, pow-suc 2 j)) in
    let dn = pow-lt_inv j (suc k) (omega (arith, pow-suc 2 k)) in
    let same : j ≡ k = omega arith in
    rw (align_eq s n k is room at_most, init_again s q, align_eq s q j is' room' at_most', same)

-- `ba_init` takes for the magnitude the exponent of that power of two.
pub magnitude_lem : (k : ℕ) (l : Layout) → IsAligned k l → magnitude l ≡ k
unfolding magnitude
magnitude_lem zero l a = absurd (omega (arith, a.fits))
magnitude_lem (suc k) l a =
    let top = pow-le-pow_right {n = 2} (omega arith) {i = suc k} {j = 31} a.small in
    let up =
      round_up32_lem k (page_size l) (omega (arith, a.small)) (omega (arith, a.half, pow-suc 2 k))
        (omega (arith, a.fits)) in
    let word : u32 (2 ^ suc k) ≡ 2 ^ suc k = omega arith in
    let cast : u32 (page_size l) ≡ page_size l = omega (arith, a.fits) in
    rw (cast, up, word) (count_zeros-pow 32 (suc k) (omega (arith, a.small)))
