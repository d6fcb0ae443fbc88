-- ===== src/Temporary.antt =====
-- The temporary allocator of src/gjalloc.h and src/gjalloc.c (`struct ba_temporary`): blocks
-- are never freed one by one. The system's `malloc` and `free` and the callback of the walk are
-- parameters. Loops along the pages take fuel, `num_pages + 1` units.
use gjalloc.Base.{ℕ, zero, suc, ◌+◌, u32, ltb, ◌==◌, if◌then◌else◌, Bool, none}
use gjalloc.Layout.{Layout, ba_init_layout, ba_align_layout}
use gjalloc.Memory.{Header, null, M, pure, ◌>>=◌, ◌>>◌, load_page, store_page}
use gjalloc.Page.{block, last_block, ba_empty, ba_shift}
use gjalloc.Global.Get.{ba_low_alloc_page}

pub record Temporary : Type 0 where
  pub l : Layout
  pub h : Header
  pub page : ℕ
  pub num_pages : ℕ

unfoldable pub ba_init_temporary : Temporary → ℕ → ℕ → Temporary
ba_init_temporary a block_size blocks =
    let blocks' = if blocks == 0 then 128 else blocks in
    let size = if ltb block_size 8 then 8 else block_size in
    record {
      l = ba_align_layout (ba_init_layout size blocks');
      h = record (a.h) { first = null };
      page = null;
      num_pages = 0;
    }

module _ (malloc : ℕ → M ℕ) where
  -- A new page in front of the others.
  push_page : Temporary → M Temporary
  push_page a = do
    p ← ba_low_alloc_page malloc a.l
    pg ← load_page p
    store_page p (record pg { next = a.page })
    pure (record a { page = p; h = pg.h; num_pages = u32 (a.num_pages + 1) })

  unfoldable pub ba_talloc : Temporary → M (Temporary × ℕ)
  unfolding push_page
  ba_talloc a = do
    a' ← (if ba_empty a.h then push_page a else pure a)
    s ← ba_shift a'.h a'.page a'.l
    pure (record a' { h = s.1 }, s.0)

module _ (callback : ℕ → ℕ → M Bool) where
  -- The pages that are full; the callback says whether to stop (`BA_STOP`).
  walk_full : Layout → ℕ → ℕ → M (Unit {0})
  walk_full l zero p = λ _. none
  walk_full l (suc fuel) p = if p == null then pure tt else do
    stop ← callback (block l p 0) (last_block l p + l.block_size)
    if stop then pure tt else do pg ← load_page p; walk_full l fuel pg.next

  unfoldable pub ba_walk_temporary : Temporary → M (Unit {0})
  unfolding walk_full
  ba_walk_temporary a = if ba_empty a.h then walk_full a.l (a.num_pages + 1) a.page else do
    stop ← callback (block a.l a.page 0) a.h.first
    if stop then pure tt else do pg ← load_page a.page; walk_full a.l (a.num_pages + 1) pg.next

module _ (free : ℕ → M (Unit {0})) where
  free_list : ℕ → ℕ → M (Unit {0})
  free_list zero p = λ _. none
  free_list (suc fuel) p =
      if p == null then pure tt else do pg ← load_page p; free p; free_list fuel pg.next

  unfoldable pub ba_tdestroy : Temporary → M Temporary
  unfolding free_list
  ba_tdestroy a = do
    free_list (a.num_pages + 1) a.page
    pure (record a { page = null; h = record (a.h) { first = null }; num_pages = 0 })
