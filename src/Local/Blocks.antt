-- ===== src/Local/Blocks.antt =====
-- `ba_lalloc` and `ba_lfree` of src/gjalloc.h, and `ba_local_get_free_page` of src/gjalloc.c.
use gjalloc.Base.{ℕ, if◌then◌else◌, none, some}
use gjalloc.Memory.{M, pure, ◌>>=◌}
use gjalloc.Page.{ba_empty, ba_shift, ba_unshift}
use gjalloc.Allocator.{Allocator}
use gjalloc.Htable.{ba_check_ptr}
use gjalloc.Global.Get.{ba_low_get_free_page}
use gjalloc.Local.{Local}
use gjalloc.Local.Grow.{ba_local_get_page}

-- The allocator that is left, and the block.
unfoldable pub ba_lalloc :
    (blank : Allocator) (realloc : ℕ → ℕ → M ℕ) (simple : ℕ → ℕ → ℕ → M (Unit {0}))
    (malloc : ℕ → M ℕ) (free : ℕ → M (Unit {0}))
    → Local
    → M (Local × ℕ)
ba_lalloc blank realloc simple malloc free a = do
  a' ← (if ba_empty a.h then ba_local_get_page blank realloc simple malloc free a else pure a)
  s ← ba_shift a'.h a'.page a'.l
  pure (record a' { h = s.1 }, s.0)

module _ (free : ℕ → M (Unit {0})) where
  unfoldable pub ba_local_get_free_page : Local → Allocator → ℕ → M Local
  ba_local_get_free_page a g ptr = do
    s ← ba_low_get_free_page free g a.hf a.last_free ptr
    pure (record a { a = some (s.0); hf = s.1; last_free = s.2 })

  -- The block is one of the page that is allocated from.
  free_here : Local → ℕ → M Local
  free_here a ptr = do h' ← ba_unshift a.h ptr; pure (record a { h = h' })

  free_other : Local → Allocator → ℕ → M Local
  free_other a g ptr = do
    a' ← (if ba_check_ptr a.l a.last_free ptr then pure a else ba_local_get_free_page a g ptr)
    hf' ← ba_unshift a'.hf ptr
    pure (record a' { hf = hf' })

  unfoldable pub ba_lfree : Local → ℕ → M Local
  unfolding free_here free_other
  ba_lfree a ptr = elim a.a [
    | none ↦ free_here a ptr
    | some g ↦ if ba_check_ptr a.l a.page ptr then free_here a ptr else free_other a g ptr
  ]
