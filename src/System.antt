-- ===== src/System.antt =====
-- `ba_xalloc` and `ba_xrealloc` of src/gjalloc.c, and what the debug build asks of a pointer.
use gjalloc.Base.{
  ℕ, ◌<◌, ◌≡◌, refl, some, false, ltb, ◌||◌, ◌==◌, if◌then◌else◌, none, arith, le→ltb,
}
use gjalloc.Layout.{Layout}
use gjalloc.Memory.{Memory, null, M, pure, ◌>>=◌}
use gjalloc.Page.{block, last_block}
use gjalloc.Page.FreeList.{IsPlaced}
use gjalloc.Page.Frame.{mul_step}

-- The system's `malloc` gives NULL when there is no memory; `none` is `ba_error`.
unfoldable pub ba_xalloc : (malloc : ℕ → M ℕ) → ℕ → M ℕ
ba_xalloc malloc size = do p ← malloc size; if p == null then (λ _. none) else pure p

unfoldable pub ba_xrealloc : (realloc : ℕ → ℕ → M ℕ) → ℕ → ℕ → M ℕ
ba_xrealloc realloc p size = do q ← realloc p size; if q == null then (λ _. none) else pure q

-- A pointer in front of the first block of the page or behind the last one is an error.
unfoldable pub ba_check_belongs : ℕ → Layout → ℕ → M (Unit {0})
ba_check_belongs p l ptr =
    if ltb ptr (block l p 0) || ltb (last_block l p) ptr then (λ _. none) else pure tt

-- Every block of a page that is placed passes the test.
pub ba_check_belongs-block :
    {l : Layout} {p : ℕ}
    → IsPlaced l p
    → (i : ℕ) (m : Memory) → i < l.blocks
    → ba_check_belongs p l (block l p i) m ≡ some (tt, m)
unfolding ba_check_belongs
ba_check_belongs-block {l} {p} placed i m lt =
    let low : ltb (block l p i) (block l p 0) ≡ false =
      le→ltb (block l p i) (block l p 0) (omega arith) in
    let high : ltb (last_block l p) (block l p i) ≡ false =
      le→ltb (last_block l p) (block l p i)
        (omega (arith, placed.last, placed.some_blocks, mul_step i l.blocks l.block_size lt)) in
    rw (low, high) refl
