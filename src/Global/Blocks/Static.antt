-- ===== src/Global/Blocks/Static.antt =====
-- An allocator of `BA_INIT` in src/gjalloc.h makes its layout and its table when the first block
-- is taken.
use mathlib.Core.Option.{some-injective}
use gjalloc.Base.{ap, ◌∙◌, ℕ, ◌≡◌, ◌≢◌, refl, some, ne→==}
use gjalloc.Memory.{Memory, M}
use gjalloc.Page.{ba_empty}
use gjalloc.Allocator.{Allocator}
use gjalloc.Allocator.Init.{ba_init, initial, ba_static}
use gjalloc.Global.Update.{page_list}
use gjalloc.Global.Get.{ba_grow, ba_alloc_page, ba_get_page, ba_global_get_page}
use gjalloc.Global.Blocks.{ba_alloc}

module _ (malloc : ℕ → M ℕ) (free : ℕ → M (Unit {0})) (s n : ℕ) (ne : s ≢ 0) (m : Memory) where
  ba_alloc_page-static :
      ba_alloc_page malloc (ba_static s n) m ≡ ba_alloc_page malloc (initial (ba_static s n) s n) m
  unfolding ba_alloc_page ba_grow ba_init ba_static
  ba_alloc_page-static = rw (ne→== s 0 ne) refl

  ba_alloc-initial :
      ba_alloc malloc free (ba_static s n) m ≡ ba_alloc malloc free (initial (ba_static s n) s n) m
  unfolding ba_alloc ba_global_get_page ba_get_page ba_empty page_list ba_static initial
  ba_alloc-initial = rw ba_alloc_page-static refl

  -- For a block size other than 0, the first `ba_alloc` on an allocator of `BA_INIT` does the same as
  -- after an explicit `ba_init` with the same sizes.
  pub ba_alloc-static :
      (a : Allocator)
      → ba_init (ba_static s n) s n ≡ some a
      → ba_alloc malloc free (ba_static s n) m ≡ ba_alloc malloc free a m
  unfolding ba_init
  ba_alloc-static a made =
      ba_alloc-initial
      ∙ ap (λ x. ba_alloc malloc free x m)
          (some-injective (initial (ba_static s n) s n) a (rw (ne→== s 0 ne) at made))
