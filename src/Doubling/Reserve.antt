-- ===== src/Doubling/Reserve.antt =====
-- `ba_dreserve` and `ba_low_dreserve` of src/gjalloc.h and src/gjalloc.c.
use gjalloc.Base.{ℕ, ◌+◌, u32, ltb, if◌then◌else◌}
use gjalloc.Layout.{ba_init_layout, round_up32}
use gjalloc.Memory.{M, pure, ◌>>=◌, ◌>>◌, load_page}
use gjalloc.Page.Grow.{ba_grow_page}
use gjalloc.Global.Update.{set_header}
use gjalloc.Doubling.{Doubling}

module _ (realloc : ℕ → ℕ → M ℕ) (simple : ℕ → ℕ → ℕ → M (Unit {0})) where
  unfoldable pub ba_low_dreserve : Doubling → ℕ → M Doubling
  ba_low_dreserve a n = do
    let l = ba_init_layout a.l.block_size (round_up32 n)
    set_header a.p a.h
    p ← ba_grow_page realloc simple a.p a.l l
    pg ← load_page p
    pure (record { l = l; h = pg.h; p = p })

  unfoldable pub ba_dreserve : Doubling → ℕ → M Doubling
  ba_dreserve a n =
      if ltb a.l.blocks (u32 (n + a.h.used)) then ba_low_dreserve a (u32 (n + a.h.used)) else pure a
