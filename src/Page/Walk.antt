-- ===== src/Page/Walk.antt =====
-- `BA_WALK_CHUNKS` and `ba_walk_page` of src/gjalloc.c: the chunks of used blocks of a page,
-- found between the blocks of its sorted free list. In all uses of the macro the header is that
-- of the page. The loop takes fuel, one unit more than there are blocks.
pub mod Chunks
pub mod Visits
use gjalloc.Base.{ℕ, zero, suc, ◌+◌, u64, ltb, ◌==◌, if◌then◌else◌, Bool, true, false, none}
use gjalloc.Layout.{Layout}
use gjalloc.Memory.{Page, null, ba_one, M, pure, ◌>>=◌, ◌>>◌, load, load_page, store_page}
use gjalloc.Page.{block, last_block}
use gjalloc.Page.Sort.{ba_sort}
use gjalloc.Htable.{ba_check_ptr}

module _ {S : Type 0} (body : ℕ → ℕ → S → M (S × Bool)) (l : Layout) (p : ℕ) where
  -- `if (_start < _stop) C`; the body says whether to break.
  chunk_body : ℕ → ℕ → S → M (S × Bool)
  chunk_body start stop s = if ltb start stop then body start stop s else pure (s, false)

  -- Where the chunk before the free block `b` ends, or the page.
  chunk_stop : ℕ → ℕ
  chunk_stop b = if b == null then u64 (last_block l p + l.block_size) else b

  unfoldable pub chunk_loop : ℕ → ℕ → ℕ → S → M S
  unfolding chunk_body chunk_stop
  chunk_loop zero start stop s = λ _. none
  chunk_loop (suc fuel) start stop s = do
    r ← chunk_body start stop s
    if (r.1)
        then pure (r.0)
        else if ba_check_ptr l p stop
        then (do
          b ← load stop
          if b == ba_one
              then pure (r.0)
              else chunk_loop fuel (u64 (stop + l.block_size)) (chunk_stop b) (r.0))
        else pure (r.0)

  unfoldable pub walk_chunks : S → M S
  unfolding chunk_loop chunk_stop
  walk_chunks s = do
    pg ← load_page p
    h' ← ba_sort p pg.h l
    pg' ← load_page p
    store_page p (record pg' { h = h' })
    chunk_loop (l.blocks + 1) (block l p 0) (chunk_stop h'.first) s

-- The callback says whether to stop (`BA_STOP`), and so does `ba_walk_page`.
unfoldable pub ba_walk_page : (ℕ → ℕ → M Bool) → Layout → ℕ → M Bool
ba_walk_page callback l p =
    walk_chunks (λ start stop s. do r ← callback start stop; pure (r, r)) l p false
