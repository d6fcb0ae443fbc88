-- ===== src/Global/Update.antt =====
-- `ba_update_slot` and `ba_remove_page` of src/gjalloc.c. The system's `free` is a parameter.
use mathlib.Core.Option
use gjalloc.Base.{
  ℕ, ◌+◌, ◌/◌, u32, sub32, ltb, leb, ◌==◌, if◌then◌else◌, Bool, true, false, ◌&&◌, Option, none,
  some, List, get_elem?, set, zero, suc,
}
use gjalloc.Memory.{Header, null, ba_one, M, pure, ◌>>=◌, ◌>>◌, load_page, store_page, store}
use gjalloc.Page.{block}
use gjalloc.Links.{double_link, double_unlink}
use gjalloc.Allocator.{Allocator}
use gjalloc.Allocator.Init.{ba_alloc_initial}
use gjalloc.Htable.{ba_htable_delete}
use gjalloc.Htable.Resize.{ba_htable_shrink}
use gjalloc.Global.Slot.{ba_get_slot}

-- `a->pages[i]`, a fault behind the three lists.
unfoldable pub page_list : List ℕ → ℕ → M ℕ
page_list pages i m = Option.map (λ p. (p, m)) (get_elem? pages i)

-- The page of the list from `t` on with the highest address, or `p` if none is higher.
unfoldable pub highest_page : ℕ → ℕ → ℕ → M ℕ
highest_page zero p t = λ _. none
highest_page (suc fuel) p t = do
  pg ← load_page t
  let p' = if ltb p t then t else p
  if pg.next == null then pure p' else highest_page fuel p' pg.next

-- `p->h = h`
unfoldable pub set_header : ℕ → Header → M (Unit {0})
set_header p h = do pg ← load_page p; store_page p (record pg { h = h })

unfoldable pub unlink_slot : List ℕ → Option ℕ → ℕ → M (List ℕ)
unfolding page_list
unlink_slot pages none p = pure pages
unlink_slot pages (some i) p = do
  head ← page_list pages i
  head' ← double_unlink head p
  pure (set pages i head')

unfoldable pub link_slot : List ℕ → Option ℕ → ℕ → M (List ℕ)
unfolding page_list
link_slot pages none p = pure pages
link_slot pages (some i) p = do
  head ← page_list pages i
  head' ← double_link head p
  pure (set pages i head')

unfoldable pub same_slot : Option ℕ → Option ℕ → Bool
same_slot none none = true
same_slot none (some j) = false
same_slot (some i) none = false
same_slot (some i) (some j) = i == j

module _ (free : ℕ → M (Unit {0})) where
  unfoldable pub ba_remove_page : Allocator → M Allocator
  unfolding page_list highest_page
  ba_remove_page a = do
    first ← page_list a.pages 2
    p ← highest_page a.empty_pages first first
    head ← double_unlink first p
    t ← ba_htable_delete a p
    free p
    let a' = record a {
      pages = set a.pages 2 head;
      htable = t;
      empty_pages = sub32 a.empty_pages 1;
      num_pages = sub32 a.num_pages 1;
    }
    if ltb ba_alloc_initial a'.allocated && leb a'.num_pages (a'.allocated / 4)
        then ba_htable_shrink a'
        else pure a'

  -- An empty page gets a new free list, and may be removed.
  unfoldable pub reset_page : Allocator → ℕ → Header → M (Allocator × Header)
  reset_page a p h = do
    let h' : Header = record h { first = block a.l p 0 }
    store (block a.l p 0) ba_one
    set_header p h'
    let more = record a { empty_pages = u32 (a.empty_pages + 1) }
    a' ← (if leb a.max_empty_pages more.empty_pages then ba_remove_page more else pure more)
    pure (a', h')

  -- The allocator and the header `*h` that are left.
  unfoldable pub ba_update_slot : Allocator → ℕ → Header → M (Allocator × Header)
  unfolding reset_page unlink_slot link_slot same_slot
  ba_update_slot a p h = do
    pg ← load_page p
    if same_slot (ba_get_slot a pg.h) (ba_get_slot a h) then pure (a, h) else do
      less ← unlink_slot a.pages (ba_get_slot a pg.h) p
      pages' ← link_slot less (ba_get_slot a h) p
      let a' = record a { pages = pages' }
      if h.used == 0 then reset_page a' p h else do set_header p h; pure (a', h)
