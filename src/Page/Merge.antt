-- ===== src/Page/Merge.antt =====
-- `ba_merge_pages` of src/gjalloc.c: the used blocks of the page `p2` are moved into the free
-- blocks of the page `p1`. The callback `relocate` is a parameter. Byte counts are 64-bit words.
-- The loops take fuel, one unit more than there are blocks.
use gjalloc.Base.{ℕ, zero, suc, ◌+◌, u32, u64, sub64, ltb, ◌==◌, if◌then◌else◌, Bool, false, none}
use gjalloc.Layout.{Layout}
use gjalloc.Memory.{Header, null, ba_one, M, pure, ◌>>=◌, ◌>>◌, load, store, load_page, store_page}
use gjalloc.Page.{ba_free_page}
use gjalloc.Page.Sort.{ba_sort}
use gjalloc.Page.Walk.{walk_chunks}

-- `p->h = h`
write_header : ℕ → Header → M (Unit {0})
write_header p h = do pg ← load_page p; store_page p (record pg { h = h })

-- The loop over free blocks that stand in a row: the last of them and their bytes.
run_end : Layout → ℕ → ℕ → ℕ → ℕ → M (ℕ × ℕ)
run_end l bytes zero tmp free_bytes = λ _. none
run_end l bytes (suc fuel) tmp free_bytes = do
  next ← load tmp
  if next == u64 (tmp + l.block_size)
      then (if u64 (free_bytes + l.block_size) == bytes
          then pure (next, u64 (free_bytes + l.block_size))
          else run_end l bytes fuel next (u64 (free_bytes + l.block_size)))
      else pure (tmp, free_bytes)

module _ (relocate : ℕ → ℕ → ℕ → M (Unit {0})) (l : Layout) where
  -- All that is behind `free_block` is free. The next free block is returned.
  in_row : ℕ → ℕ → ℕ → M ℕ
  in_row free_block start bytes = do
    relocate free_block start bytes
    store (u64 (free_block + bytes)) ba_one
    pure (u64 (free_block + bytes))

  -- The `do` loop.
  fill_runs : ℕ → ℕ → ℕ → ℕ → M ℕ
  unfolding run_end in_row
  fill_runs zero free_block start bytes = λ _. none
  fill_runs (suc fuel) free_block start bytes = do
    r ← run_end l bytes (l.blocks + 1) free_block l.block_size
    next ← load (r.0)
    if next == ba_one then in_row free_block start bytes else do
      relocate free_block start (r.1)
      if sub64 bytes (r.1) == 0
          then pure next
          else fill_runs fuel next (u64 (start + r.1)) (sub64 bytes (r.1))

  -- A chunk of used blocks from `start` up to `stop`.
  unfoldable pub merge_chunk : ℕ → ℕ → ℕ → M (ℕ × Bool)
  unfolding fill_runs in_row
  merge_chunk start stop free_block = do
    next ← load free_block
    free_block' ←
        (if next == ba_one
          then in_row free_block start (sub64 stop start)
          else fill_runs (l.blocks + 1) free_block start (sub64 stop start))
    pure (free_block', false)

  unfoldable pub ba_merge_pages : ℕ → ℕ → M (Unit {0})
  unfolding write_header
  ba_merge_pages p1 p2 = do
    pg1 ← load_page p1
    h1 ← ba_sort p1 pg1.h l
    write_header p1 h1
    pg2 ← load_page p2
    if ltb l.blocks (u32 (h1.used + pg2.h.used)) then (λ _. none) else do
      free_block ← walk_chunks merge_chunk l p2 h1.first
      pg2' ← load_page p2
      let used = u32 (h1.used + pg2'.h.used)
      let first' = if used == l.blocks then null else free_block
      write_header p1 (record h1 { used = used; first = first' })
      h2 ← ba_free_page l p2
      write_header p2 h2
