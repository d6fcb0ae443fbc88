-- ===== src/Local.antt =====
-- The local allocator of src/gjalloc.h and src/gjalloc.c (`struct ba_local`): one page that
-- doubles, until at `max_blocks` blocks it becomes the first page of an allocator of its own.
-- That allocator is a part of the state. The system's `malloc`, `realloc` and `free`, the
-- relocation strategy and the callbacks are parameters.
pub mod Grow
pub mod Blocks
pub mod Reserve
pub mod Whole
use gjalloc.Base.{ℕ, ltb, ◌==◌, if◌then◌else◌, Option, none, some}
use gjalloc.Layout.{Layout, ba_init_layout}
use gjalloc.Memory.{Header, null}
use gjalloc.Allocator.{Allocator}

-- Without the relocation strategy.
pub record Local : Type 0 where
  pub l : Layout
  pub h : Header
  pub page : ℕ
  pub last_free : ℕ
  pub hf : Header
  pub a : Option Allocator
  pub max_blocks : ℕ

-- `simple` is whether a relocation function is given. `none` is `ba_error`.
unfoldable pub ba_init_local : Local → ℕ → ℕ → ℕ → ℕ → Option Local
ba_init_local a block_size blocks max_blocks simple =
    let size = if ltb block_size 8 then 8 else block_size in
    let blocks' = if blocks == 0 then 16 else blocks in
    let max' = if max_blocks == 0 then 512 else max_blocks in
    if ltb max' blocks'
    then none
    else if simple == null
    then none
    else some (record a {
      l = ba_init_layout size blocks';
      h = record { first = null; used = 0; flags = 0 };
      page = null;
      max_blocks = max';
      a = none;
      last_free = null;
    })
