-- ===== src/Page.antt =====
-- A page and its free list: `ba_empty`, `ba_unshift` and `ba_shift` of src/gjalloc.h, and
-- `ba_free_page` of src/gjalloc.c without a blueprint (`ba_init` sets it to NULL, and no
-- function sets it to anything else).
-- A pointer is its address; the last block of a page ends below 2 ^ 64.
pub mod FreeList
pub mod Frame
pub mod Overrun
pub mod Pigeonhole
pub mod Shift
pub mod Sort
pub mod Walk
pub mod Merge
pub mod Grow
pub mod Unshift
use gjalloc.Base.{
  ℕ, ◌+◌, ◌-◌, ◌*◌, ◌^◌, bit_and, bit_or, u32, sub32, u64, ltb, ◌==◌, if◌then◌else◌, Bool, not,
  ◌&&◌,
}
use gjalloc.Layout.{Layout, sizeof_page}
use gjalloc.Memory.{Header, Memory, null, ba_one, M, pure, ◌>>=◌, ◌>>◌, load, store}

-- `BA_FLAG_SORTED`
abbrev pub ba_flag_sorted : ℕ
ba_flag_sorted = 1

-- `BA_BLOCKN`
abbrev pub block : Layout → ℕ → ℕ → ℕ
block l p n = p + sizeof_page + n * l.block_size

-- `BA_LASTBLOCK`
abbrev pub last_block : Layout → ℕ → ℕ
last_block l p = p + l.offset

unfoldable pub ba_empty : Header → Bool
ba_empty h = h.first == null

unfoldable pub ba_unshift : Header → ℕ → M Header
ba_unshift h b = do
  store b h.first
  let flags' =
      if not (h.first == null) && ltb h.first b
      then bit_and h.flags (2 ^ 32 - 1 - ba_flag_sorted)
      else h.flags
  pure (record { first = b; used = sub32 h.used 1; flags = flags' })

-- The block taken, and the header that is left.
unfoldable pub ba_shift : Header → ℕ → Layout → M (ℕ × Header)
ba_shift h p l = do
  next ← load h.first
  if next == ba_one
      then run_on (u64 (h.first + l.block_size))
      else pure (h.first, record h { first = next; used = u32 (h.used + 1) })
  where
    -- The block behind the one taken becomes the first.
    run_on : ℕ → M (ℕ × Header)
    run_on first' = do
      store first' (if first' == last_block l p then 0 else 1)
      pure (
        h.first,
        record { first = first'; used = u32 (h.used + 1); flags = bit_or h.flags ba_flag_sorted },
      )

-- The header that `ba_free_page` leaves in the page.
unfoldable pub ba_free_page : Layout → ℕ → M Header
ba_free_page l p = do
  store (block l p 0) ba_one
  pure (record { first = block l p 0; used = 0; flags = ba_flag_sorted })
