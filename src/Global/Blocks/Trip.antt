-- ===== src/Global/Blocks/Trip.antt =====
-- `ba_alloc` and then `ba_free` of the same block, in src/gjalloc.h.
use gjalloc.Base.{
  ℕ, ◌<◌, ◌≡◌, ◌≢◌, refl, true, some, Option, List, ◌∷◌, arith, ne→==, le→leb, sub64,
}
use gjalloc.Layout.{Layout}
use gjalloc.Memory.{Memory, null, M}
use gjalloc.Page.{block, ba_empty}
use gjalloc.Page.FreeList.{FreeList, run, cons, IsPlaced, IsPage}
use gjalloc.Page.Frame.{mem-lt, mem_head, mul_step}
use gjalloc.Page.Shift.{ba_shift-IsPage}
use gjalloc.Page.Unshift.{ba_unshift-IsPage}
use gjalloc.Allocator.{Allocator}
use gjalloc.Htable.{ba_check_ptr}
use gjalloc.Global.Blocks.{ba_alloc, ba_free}

-- A block of the page is recognised as one.
pub ba_check_ptr-block :
    {l : Layout} {p : ℕ}
    → IsPlaced l p
    → (i : ℕ) → i < l.blocks
    → ba_check_ptr l p (block l p i) ≡ true
unfolding ba_check_ptr
ba_check_ptr-block {l} {p} placed i lt =
    le→leb (sub64 (block l p i) p) l.offset
      (omega (arith, placed.last, placed.ends, mul_step i l.blocks l.block_size lt))

pub first-ne-null :
    {l : Layout} {p i : ℕ} {rest : List ℕ} {w : ℕ → Option ℕ} {first : ℕ}
    → FreeList l p 1 w first (i ∷ rest)
    → first ≢ null
first-ne-null (run j n lt g e r x) h = omega arith
first-ne-null (cons j next lt e r ne behind) h = omega arith

module _ (a : Allocator) (m : Memory) (placed : IsPlaced a.l a.alloc) (malloc : ℕ → M ℕ)
    (free : ℕ → M (Unit {0})) (i : ℕ) (rest : List ℕ)
    (page : IsPage a.l a.alloc a.h m (i ∷ rest)) where
  -- Given a page with a free block, `ba_alloc` hands out the first one and `ba_free` puts it
  -- back: the page has the same free blocks in the same order as before, and nothing else of
  -- the allocator has changed, whatever the system's `malloc` and `free` do.
  pub ba_alloc-ba_free :
      (a1 a2 : Allocator) × (m1 m2 : Memory) × (ba_alloc malloc free a m
        ≡ some ((a1, block a.l a.alloc i), m1))
      × IsPage a.l a.alloc a1.h m1 rest
      × (ba_free free a1 (block a.l a.alloc i) m1 ≡ some (a2, m2))
      × IsPage a.l a.alloc a2.h m2 (i ∷ rest)
      × (a2 ≡ record a { h = a2.h })
  unfolding ba_alloc ba_free ba_empty
  ba_alloc-ba_free =
      let (h1, m1, took, page1, same1, used1) =
        ba_shift-IsPage placed a.h m page.there i rest page in
      let here : i < a.l.blocks = mem-lt placed i page.list (mem_head i rest) in
      let (h2, m2, put, page2, same2, used2) =
        ba_unshift-IsPage placed h1 m1 i rest here page.distinct.0 page1 in
      (
        record a { h = h1 },
        record a { h = h2 },
        m1,
        m2,
        rw (ne→== a.h.first null (first-ne-null page.list), took) refl,
        page1,
        rw (ba_check_ptr-block placed i here, put) refl,
        page2,
        refl,
      )
