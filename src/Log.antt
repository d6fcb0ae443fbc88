-- ===== src/Log.antt =====
-- The log allocator of src/gjalloc.h and src/gjalloc.c (`struct ba_log`): pages of twice the
-- size of the one before, of which the last is allocated from. The header of a page is a
-- `struct ba_page_header`, kept here in the field `h` of a page. The system's `malloc` and `free`
-- are parameters. A write behind the array of 16 pages is a fault.
pub mod Sizes
use mathlib.Core.Option
use gjalloc.Base.{
  ℕ, zero, suc, ◌+◌, ◌*◌, ◌/◌, ◌-◌, u32, u64, sub32, ltb, ◌==◌, if◌then◌else◌, Bool, not, ◌&&◌,
  Option, none, some, List, [], ◌∷◌, get_elem?, set, length, replicate,
}
use gjalloc.Layout.{Layout, round_up32, sizeof_log_page}
use gjalloc.Memory.{
  Header, Page, null, ba_one, M, pure, ◌>>=◌, ◌>>◌, load, store, load_page, store_page,
}
use gjalloc.Page.{last_block}
use gjalloc.Htable.{ba_check_ptr}

-- The pages are numbered from 0 to `size`.
pub record Log : Type 0 where
  pub l : Layout
  pub size : ℕ
  pub pages : List ℕ

unfoldable pub log_layout : ℕ → ℕ → Layout
log_layout block_size blocks = record {
  offset = u64 (sizeof_log_page + u32 (sub32 blocks 1 * block_size));
  block_size = block_size;
  blocks = blocks;
}

unfoldable pub ba_double_layout : Layout → Layout
ba_double_layout l = log_layout l.block_size (u32 (l.blocks * 2))

unfoldable pub ba_half_layout : Layout → Layout
ba_half_layout l = log_layout l.block_size (l.blocks / 2)

-- `a->pages[i]`
unfoldable pub log_page : List ℕ → ℕ → M ℕ
log_page pages i m = Option.map (λ p. (p, m)) (get_elem? pages i)

-- `a->pages[i] = p`
set_log_page : List ℕ → ℕ → ℕ → M (List ℕ)
set_log_page pages i p = if ltb i (length pages) then pure (set pages i p) else λ _. none

-- `p->h = h`
set_log_header : ℕ → Header → M (Unit {0})
set_log_header p h = do pg ← load_page p; store_page p (record pg { h = h })

-- The first block that is free, after `ptr` is taken from the page `p`.
next_free : Layout → ℕ → ℕ → M ℕ
next_free l p ptr = do
  next ← load ptr
  if next == ba_one
      then (do
        let first = u64 (ptr + l.block_size)
        store first (if first == last_block l p then 0 else 1)
        pure first)
      else pure next

module _ (malloc : ℕ → M ℕ) where
  unfoldable pub ba_alloc_log_page : Layout → M ℕ
  unfolding set_log_header
  ba_alloc_log_page l = do
    p ← malloc (u64 (l.block_size * l.blocks + sizeof_log_page))
    pg ← load_page p
    store (p + sizeof_log_page) ba_one
    set_log_header p (record (pg.h) { first = p + sizeof_log_page; used = 0 })
    pure p

  unfoldable pub ba_log_init : ℕ → ℕ → M Log
  unfolding set_log_page
  ba_log_init block_size blocks = do
    let l = log_layout block_size (round_up32 blocks)
    p ← ba_alloc_log_page l
    pages ← set_log_page (replicate 16 null) 0 p
    pure (record { l = l; size = 0; pages = pages })

  -- The last page is full: a page of twice its size comes behind it.
  double_log : Log → M Log
  unfolding set_log_page
  double_log a = do
    p ← ba_alloc_log_page (ba_double_layout a.l)
    pages ← set_log_page a.pages (a.size + 1) p
    pure (record { l = ba_double_layout a.l; size = a.size + 1; pages = pages })

  -- The allocator that is left, and the block.
  unfoldable pub ba_log_alloc : Log → M (Log × ℕ)
  unfolding log_page next_free set_log_header double_log
  ba_log_alloc a = do
    p ← log_page a.pages a.size
    pg ← load_page p
    first' ← next_free a.l p pg.h.first
    set_log_header p (record (pg.h) { first = first'; used = u32 (pg.h.used + 1) })
    if first' == null then (do a' ← double_log a; pure (a', pg.h.first)) else pure (a, pg.h.first)

-- The page that holds `ptr`, from the last one (`i`) down, with its place.
unfoldable pub find_log_page : List ℕ → Layout → ℕ → ℕ → M (ℕ × ℕ)
unfolding log_page
find_log_page pages l ptr zero = do
  p ← log_page pages 0
  if ba_check_ptr l p ptr then pure (p, 0) else λ _. none
find_log_page pages l ptr (suc i) = do
  p ← log_page pages (suc i)
  if ba_check_ptr l p ptr then pure (p, suc i) else find_log_page pages (ba_half_layout l) ptr i

module _ (free : ℕ → M (Unit {0})) where
  -- The last pages that are empty are given back, as long as the page before has a free block.
  drop_pages : ℕ → Log → ℕ → M Log
  unfolding log_page set_log_page
  drop_pages zero a p = pure (record a { size = 0 })
  drop_pages (suc i) a p = do
    pg ← load_page p
    if not (pg.h.used == 0) then pure (record a { size = suc i }) else do
      before ← log_page a.pages i
      pb ← load_page before
      if pb.h.first == null then pure (record a { size = suc i }) else do
        free p
        pages ← set_log_page a.pages (suc i) null
        drop_pages i (record a { pages = pages; l = ba_half_layout a.l }) before

  -- A block of no page is a NULL access.
  unfoldable pub ba_log_free : Log → ℕ → M Log
  unfolding find_log_page drop_pages set_log_header
  ba_log_free a ptr = do
    r ← find_log_page a.pages a.l ptr a.size
    pg ← load_page (r.0)
    store ptr pg.h.first
    let used = sub32 pg.h.used 1
    set_log_header (r.0) (record (pg.h) { first = ptr; used = used })
    if used == 0 && r.1 == a.size then drop_pages a.size a (r.0) else pure a
