-- ===== src/Global/Blocks.antt =====
-- `ba_alloc` and `ba_free` of src/gjalloc.h.
pub mod First
pub mod Trip
pub mod Static
use gjalloc.Base.{ℕ, ◌==◌, if◌then◌else◌}
use gjalloc.Memory.{M, pure, ◌>>=◌, ◌>>◌}
use gjalloc.Page.{ba_empty, ba_shift, ba_unshift}
use gjalloc.Allocator.{Allocator}
use gjalloc.Htable.{ba_check_ptr}
use gjalloc.Global.Get.{ba_global_get_page, ba_get_free_page}

-- The allocator that is left, and the block.
unfoldable pub ba_alloc :
    (malloc : ℕ → M ℕ) → (free : ℕ → M (Unit {0})) → Allocator → M (Allocator × ℕ)
ba_alloc malloc free a = do
  a' ← (if ba_empty a.h then ba_global_get_page malloc free a else pure a)
  s ← ba_shift a'.h a'.alloc a'.l
  pure (record a' { h = s.1 }, s.0)

-- A block of neither the page that is allocated from nor the one last freed into.
free_elsewhere : (free : ℕ → M (Unit {0})) → Allocator → ℕ → M Allocator
free_elsewhere free a ptr = do
  a' ← (if ba_check_ptr a.l a.last_free ptr then pure a else ba_get_free_page free a ptr)
  hf' ← ba_unshift a'.hf ptr
  pure (record a' { hf = hf' })

unfoldable pub ba_free : (free : ℕ → M (Unit {0})) → Allocator → ℕ → M Allocator
unfolding free_elsewhere
ba_free free a ptr =
    if ba_check_ptr a.l a.alloc ptr
    then (do h' ← ba_unshift a.h ptr; pure (record a { h = h' }))
    else free_elsewhere free a ptr
