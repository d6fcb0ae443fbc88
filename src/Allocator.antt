-- ===== src/Allocator.antt =====
-- `struct block_allocator` of src/gjalloc.h, without the statistics (`BA_STATS`).
pub mod Init
use gjalloc.Base.{ℕ, List}
use gjalloc.Layout.{Layout}
use gjalloc.Memory.{Header}

-- Pointers are addresses, 0 for NULL; `pages` holds the heads of the three lists of pages, and
-- `htable` the heads of the hash chains.
pub record Allocator : Type 0 where
  pub l : Layout
  pub h : Header
  pub alloc : ℕ
  pub last_free : ℕ
  pub hf : Header
  pub pages : List ℕ
  pub htable : List ℕ
  pub magnitude : ℕ
  pub empty_pages : ℕ
  pub max_empty_pages : ℕ
  pub allocated : ℕ
  pub num_pages : ℕ
