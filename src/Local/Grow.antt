-- ===== src/Local/Grow.antt =====
-- `ba_local_grow`, `ba_local_get_page` and `ba_lreserve` of src/gjalloc.c and src/gjalloc.h.
-- The fresh memory of a `struct block_allocator` holds unknown values, `blank`.
use mathlib.Core.Option
use gjalloc.Base.{
  ℕ, zero, suc, ◌+◌, ◌*◌, u32, u64, ltb, leb, ◌==◌, if◌then◌else◌, Option, none, some,
}
use gjalloc.Layout.{Layout, ba_init_layout, ba_align_layout, page_size}
use gjalloc.Memory.{null, M, pure, ◌>>=◌, ◌>>◌, load_page, store_page}
use gjalloc.Page.{ba_free_page}
use gjalloc.Page.Grow.{ba_grow_page}
use gjalloc.Allocator.{Allocator}
use gjalloc.Allocator.Init.{ba_init}
use gjalloc.Htable.{ba_htable_insert}
use gjalloc.Global.Update.{ba_update_slot, set_header}
use gjalloc.Global.Get.{ba_get_page}
use gjalloc.Local.{Local}

-- `ba_init`, which does not return on an error.
init_allocator : Allocator → Layout → M Allocator
init_allocator blank l m = Option.map (λ a. (a, m)) (ba_init blank l.block_size l.blocks)

-- `while (blocks < n) blocks *= 2;`, which does not end once `blocks` is 0.
unfoldable pub double_until : ℕ → ℕ → ℕ → Option ℕ
double_until zero blocks n = none
double_until (suc fuel) blocks n =
    let rest = double_until fuel (u32 (blocks * 2)) n in if ltb blocks n then rest else some blocks

module _ (blank : Allocator) (realloc : ℕ → ℕ → M ℕ) (simple : ℕ → ℕ → ℕ → M (Unit {0})) where
  -- The page becomes the first page of a new allocator.
  unfoldable pub transform : Local → M Local
  unfolding init_allocator
  transform a = do
    g ← init_allocator blank a.l
    pg ← load_page a.page
    store_page a.page (record pg { next = null; prev = null })
    let g' = record g { num_pages = u32 (g.num_pages + 1) }
    t ← ba_htable_insert g' a.page
    pure (record a { a = some (record g' { htable = t }) })

  -- The page with a new layout.
  unfoldable pub grow_to : Local → Layout → M Local
  grow_to a l = do
    set_header a.page a.h
    p ← ba_grow_page realloc simple a.page a.l l
    pg ← load_page p
    pure (record a { page = p; h = pg.h; l = l })

  unfoldable pub ba_local_grow : Local → ℕ → M Local
  unfolding transform grow_to
  ba_local_grow a blocks =
      if leb a.max_blocks blocks
      then (do
        a' ← grow_to a (ba_align_layout (ba_init_layout a.l.block_size a.max_blocks))
        transform a')
      else grow_to a (ba_init_layout a.l.block_size blocks)

  -- A loop that does not end is a fault.
  unfoldable pub ba_lreserve : Local → ℕ → M Local
  unfolding double_until
  ba_lreserve a n = elim a.a [
    | some g ↦ pure a
    | none ↦
        let n' = u32 (n + a.h.used) in
        if ltb a.l.blocks n'
        then elim (double_until 33 (u32 (a.l.blocks * 2)) n') [
          | none ↦ (λ _. none)
          | some blocks ↦ ba_local_grow a blocks
        ]
        else pure a
  ]

  module _ (malloc : ℕ → M ℕ) (free : ℕ → M (Unit {0})) where
    -- The first page.
    first_page : Local → M Local
    first_page a = do
      let l = ba_init_layout a.l.block_size a.l.blocks
      p ← malloc (u64 (page_size l))
      h ← ba_free_page l p
      set_header p h
      pure (record a { l = l; page = p; h = h })

    -- The next page of the allocator `g`.
    shared_page : Local → Allocator → M Local
    shared_page a g = do
      s ← ba_get_page malloc g a.page
      u ←
          (if s.1 == a.last_free
            then (do
              r ← ba_update_slot free (s.0) a.last_free a.hf
              pure (record a { a = some (r.0); hf = r.1; last_free = null }))
            else pure (record a { a = some (s.0) }))
      pg ← load_page (s.1)
      pure (record u { page = s.1; h = pg.h })

    unfoldable pub ba_local_get_page : Local → M Local
    unfolding first_page shared_page
    ba_local_get_page a = elim a.a [
      | some g ↦ shared_page a g
      | none ↦ if a.page == null then first_page a else ba_local_grow a (u32 (a.l.blocks * 2))
    ]
