-- ===== src/Global/Walk.antt =====
-- `ba_walk` of src/gjalloc.c: all chunks of used blocks of all pages. The callback and the
-- system's `free` are parameters. A chain is walked on fuel, `num_pages + 1` units.
use gjalloc.Base.{ℕ, zero, suc, ◌+◌, ◌==◌, if◌then◌else◌, Bool, true, false, none, List, [], ◌∷◌}
use gjalloc.Layout.{Layout}
use gjalloc.Memory.{null, M, pure, ◌>>=◌, load_page}
use gjalloc.Page.Walk.{ba_walk_page}
use gjalloc.Allocator.{Allocator}
use gjalloc.Global.Whole.{write_back}

-- `PAGE_LOOP` with a body that says whether to return.
chain_until : (ℕ → M Bool) → ℕ → ℕ → M Bool
chain_until body zero p = λ _. none
chain_until body (suc fuel) p = if p == null then pure false else do
  pg ← load_page p
  stop ← body p
  if stop then pure true else chain_until body fuel pg.hchain

page_until : (ℕ → M Bool) → ℕ → List ℕ → M Bool
unfolding chain_until
page_until body fuel [] = pure false
page_until body fuel (head ∷ t) = do
  stop ← chain_until body fuel head
  if stop then pure true else page_until body fuel t

module _ (callback : ℕ → ℕ → M Bool) where
  -- A page without used blocks is passed over.
  walk_used : Layout → ℕ → M Bool
  walk_used l p = do
    pg ← load_page p
    if pg.h.used == 0 then pure false else ba_walk_page callback l p

  unfoldable pub ba_walk : (free : ℕ → M (Unit {0})) → Allocator → M Allocator
  unfolding page_until walk_used
  ba_walk free a = do
    a' ← write_back free a
    stop ← page_until (walk_used a'.l) (a'.num_pages + 1) a'.htable
    if stop
        then pure a'
        else if a'.alloc == null
        then pure a'
        else do pg ← load_page a'.alloc; pure (record a' { h = pg.h })
