-- ===== src/Local/Whole.antt =====
-- The operations on all blocks of a local allocator of src/gjalloc.c and src/gjalloc.h:
-- `ba_lcount`, `ba_lcapacity`, `ba_walk_local`, `ba_ldestroy`, `ba_lfree_all`, `ba_ldefragment`.
use gjalloc.Base.{ℕ, ◌==◌, if◌then◌else◌, Bool, not, ◌&&◌, none, some}
use gjalloc.Memory.{null, M, pure, ◌>>=◌, ◌>>◌, load_page}
use gjalloc.Page.{ba_free_page}
use gjalloc.Page.Walk.{ba_walk_page}
use gjalloc.Allocator.{Allocator}
use gjalloc.Global.Update.{ba_update_slot, set_header}
use gjalloc.Global.Whole.{ba_capacity, ba_count, ba_free_all, ba_destroy}
use gjalloc.Global.Walk.{ba_walk}
use gjalloc.Global.Defragment.{ba_defragment}
use gjalloc.Local.{Local}

-- `a->page && a->l.blocks` is 0 or 1.
unfoldable pub ba_lcapacity : Local → ℕ
ba_lcapacity a = elim a.a [
  | some g ↦ ba_capacity g
  | none ↦ if not (a.page == null) && not (a.l.blocks == 0) then 1 else 0
]

-- `if (a->page) a->page->h = a->h;`
save_header : Local → M (Unit {0})
save_header a = if a.page == null then pure tt else set_header a.page a.h

module _ (free : ℕ → M (Unit {0})) where
  -- What is in `hf` goes to its page: the local allocator and `g` with it.
  flush_free : Local → Allocator → M (Local × Allocator)
  flush_free a g =
      if a.last_free == null
      then pure (a, g)
      else do s ← ba_update_slot free g a.last_free a.hf; pure (record a { hf = s.1 }, s.0)

  unfoldable pub ba_lcount : Local → M (Local × ℕ)
  unfolding save_header flush_free
  ba_lcount a = elim a.a [
    | none ↦ pure (a, if a.page == null then 0 else a.h.used)
    | some g ↦ do
      save_header a
      s ← flush_free a g
      r ← ba_count free (s.1)
      pure (record (s.0) { a = some (r.0) }, r.1)
  ]

  -- `if (a->page) a->h = a->page->h;`
  read_header : Local → M Local
  read_header a =
      if a.page == null then pure a else do pg ← load_page a.page; pure (record a { h = pg.h })

  unfoldable pub ba_walk_local : (callback : ℕ → ℕ → M Bool) → Local → M Local
  unfolding save_header flush_free read_header
  ba_walk_local callback a = do
    save_header a
    elim a.a [
      | none ↦
          if a.page == null
          then pure a
          else do stopped ← ba_walk_page callback a.l a.page; read_header a
      | some g ↦ do
        s ← flush_free a g
        g' ← ba_walk callback free (s.1)
        read_header (record (s.0) { a = some g'; last_free = null })
    ]

  unfoldable pub ba_ldestroy : Local → M Local
  ba_ldestroy a = do
    elim a.a [ none ↦ free a.page | some g ↦ do g' ← ba_destroy free g; pure tt ]
    pure (record a { a = none; page = null; h = record (a.h) { first = null } })

  unfoldable pub ba_lfree_all : Local → M Local
  ba_lfree_all a = elim a.a [
    | some g ↦ do g' ← ba_free_all free g; pure (record a { a = some g' })
    | none ↦ do h ← ba_free_page a.l a.page; set_header a.page h; pure (record a { h = h })
  ]

  unfoldable pub ba_ldefragment : (relocate : ℕ → ℕ → ℕ → M (Unit {0})) → ℕ → Local → M Local
  unfolding flush_free
  ba_ldefragment relocate capacity a = elim a.a [
    | none ↦ pure a
    | some g ↦ do
      s ← flush_free a g
      g' ← ba_defragment free relocate capacity (s.1)
      pure (record (s.0) { a = some g'; last_free = null })
  ]
