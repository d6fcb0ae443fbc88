-- ===== src/Doubling.antt =====
-- The doubling allocator of src/gjalloc.h and src/gjalloc.c (`struct ba_doubling`): one page.
-- The system's `malloc`, `realloc` and `free` and the relocation strategy are parameters.
pub mod Order
pub mod Reserve
pub mod Client
pub mod Progress
use gjalloc.Base.{ℕ, ◌-◌, bit_and, sub32, ◌==◌, if◌then◌else◌}
use gjalloc.Layout.{Layout, ba_init_layout, round_up32}
use gjalloc.Memory.{Header, null, M, pure, ◌>>=◌, ◌>>◌, load_page}
use gjalloc.Page.{ba_shift, ba_unshift}
use gjalloc.Global.Get.{ba_low_alloc_page}

-- Without the relocation strategy.
pub record Doubling : Type 0 where
  pub l : Layout
  pub h : Header
  pub p : ℕ

-- The number of blocks that `ba_init_doubling` goes on with.
unfoldable pub doubling_blocks : ℕ → ℕ
doubling_blocks blocks = if bit_and blocks (sub32 blocks 1) == 0 then blocks else round_up32 blocks

unfoldable pub ba_init_doubling : (malloc : ℕ → M ℕ) → ℕ → ℕ → M Doubling
ba_init_doubling malloc block_size blocks = do
  let l = ba_init_layout block_size (doubling_blocks blocks)
  p ← ba_low_alloc_page malloc l
  pg ← load_page p
  pure (record { l = l; h = pg.h; p = p })

-- The allocator that is left, and the block.
unfoldable pub ba_dalloc : Doubling → M (Doubling × ℕ)
ba_dalloc a = do s ← ba_shift a.h a.p a.l; pure (record a { h = s.1 }, s.0)

unfoldable pub ba_dfree : Doubling → ℕ → M Doubling
ba_dfree a ptr = do h' ← ba_unshift a.h ptr; pure (record a { h = h' })

unfoldable pub ba_ddestroy : (free : ℕ → M (Unit {0})) → Doubling → M Doubling
ba_ddestroy free a = do free a.p; pure (record a { p = null; h = record (a.h) { first = null } })
