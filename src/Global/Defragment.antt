-- ===== src/Global/Defragment.antt =====
-- `ba_shrink` and `ba_defragment` of src/gjalloc.c. The callback `relocate` and the system's
-- `free` are parameters. The loops along the lists of pages take fuel, `num_pages + 1` units:
-- each round gives a page back.
use gjalloc.Base.{
  ℕ, zero, suc, ◌+◌, ◌/◌, sub32, ltb, leb, ◌==◌, if◌then◌else◌, ◌&&◌, not, none, List, set,
}
use gjalloc.Memory.{null, M, pure, ◌>>=◌, ◌>>◌, load_page}
use gjalloc.Links.{double_link, double_unlink, double_shift}
use gjalloc.Page.Merge.{ba_merge_pages}
use gjalloc.Allocator.{Allocator}
use gjalloc.Allocator.Init.{ba_alloc_initial}
use gjalloc.Htable.{ba_htable_delete}
use gjalloc.Htable.Resize.{ba_htable_shrink}
use gjalloc.Global.Slot.{ba_is_low, ba_is_high}
use gjalloc.Global.Update.{ba_update_slot, page_list, set_header}
use gjalloc.Global.Whole.{ba_capacity}

module _ (free : ℕ → M (Unit {0})) where
  -- The loop that frees the empty pages from `p` on: the table that is left.
  free_empty : Allocator → ℕ → ℕ → M (List ℕ)
  free_empty a zero p = λ _. none
  free_empty a (suc fuel) p = do
    pg ← load_page p
    t ← ba_htable_delete a p
    free p
    if pg.next == null then pure t else free_empty (record a { htable = t }) fuel pg.next

  unfoldable pub ba_shrink : Allocator → M Allocator
  unfolding free_empty page_list
  ba_shrink a = do
    p ← page_list a.pages 2
    if p == null then pure a else do
      t ← free_empty (record a { pages = set a.pages 2 null }) (a.num_pages + 1) p
      let a' = record a {
        pages = set a.pages 2 null;
        htable = t;
        num_pages = sub32 a.num_pages a.empty_pages;
        empty_pages = 0;
      }
      if ltb ba_alloc_initial a'.allocated && leb a'.num_pages (a'.allocated / 4)
          then ba_htable_shrink a'
          else pure a'

  -- The page that is allocated from goes to the first list, if it is low.
  discard_alloc : Allocator → M Allocator
  unfolding page_list
  discard_alloc a =
      if not (a.alloc == null) && ba_is_low a.l a.h
      then (do
        set_header a.alloc a.h
        head ← page_list a.pages 0
        head' ← double_link head a.alloc
        pure (record a {
          pages = set a.pages 0 head';
          alloc = null;
          h = record (a.h) { first = null };
        }))
      else pure a

  discard_last_free : Allocator → M Allocator
  discard_last_free a = if a.last_free == null then pure a else do
    s ← ba_update_slot free a a.last_free a.hf
    pure (record (s.0) { hf = s.1; last_free = null })

  -- `p1` is high after the merge, and goes from the first list to the second.
  move_high : Allocator → ℕ → M Allocator
  unfolding page_list
  move_high a p = do
    pg ← load_page p
    if ba_is_high a.l pg.h
        then (do
          low ← page_list a.pages 0
          low' ← double_shift low
          high ← page_list a.pages 1
          high' ← double_link high p
          pure (record a { pages = set (set a.pages 0 low') 1 high' }))
        else pure a

  module _ (relocate : ℕ → ℕ → ℕ → M (Unit {0})) (capacity : ℕ) where
    -- `p2` is merged into `p1` and given back.
    merge_pair : Allocator → ℕ → ℕ → M Allocator
    unfolding page_list move_high
    merge_pair a p1 p2 = do
      ba_merge_pages relocate a.l p1 p2
      head ← page_list a.pages 0
      head' ← double_unlink head p2
      let a' = record a { pages = set a.pages 0 head' }
      t ← ba_htable_delete a' p2
      free p2
      move_high (record a' { htable = t; num_pages = sub32 a'.num_pages 1 }) p1

    merge_loop : ℕ → Allocator → M Allocator
    unfolding merge_pair page_list
    merge_loop zero a = λ _. none
    merge_loop (suc fuel) a = do
      p1 ← page_list a.pages 0
      if p1 == null then pure a else do
        pg ← load_page p1
        if pg.next == null then pure a else do
          a' ← merge_pair a p1 pg.next
          if leb (ba_capacity a') capacity then pure a' else merge_loop fuel a'

    unfoldable pub ba_defragment : Allocator → M Allocator
    unfolding discard_alloc discard_last_free merge_loop
    ba_defragment a = do
      a1 ← ba_shrink a
      if leb (ba_capacity a1) capacity
          then pure a1
          else do a2 ← discard_alloc a1; a3 ← discard_last_free a2; merge_loop (a3.num_pages + 1) a3
