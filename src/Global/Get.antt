-- ===== src/Global/Get.antt =====
-- Where the global allocator gets the page to allocate from and the page to free into:
-- `ba_grow`, `ba_alloc_page`, `ba_get_page`, `ba_global_get_page`, `ba_find_page`,
-- `ba_get_free_page` of src/gjalloc.c. The system's `malloc` and `free` are parameters.
use mathlib.Core.Option
use gjalloc.Base.{ℕ, ◌+◌, ◌*◌, ◌^◌, u32, u64, sub32, leb, ◌==◌, if◌then◌else◌, none, set}
use gjalloc.Layout.{Layout}
use gjalloc.Memory.{Header, null, M, pure, ◌>>=◌, ◌>>◌, load_page, store_page}
use gjalloc.Page.{ba_free_page, ba_flag_sorted}
use gjalloc.Links.{double_shift}
use gjalloc.Allocator.{Allocator}
use gjalloc.Allocator.Init.{ba_init}
use gjalloc.Htable.{ba_htable_insert, ba_htable_lookup}
use gjalloc.Htable.Resize.{ba_htable_grow}
use gjalloc.Global.Update.{ba_update_slot, page_list, set_header}

-- `BA_PAGESIZE`
unfoldable pub ba_pagesize : Layout → ℕ
ba_pagesize l = u64 (l.offset + l.block_size)

-- `none` is `ba_error` again.
unfoldable pub ba_grow : Allocator → M Allocator
ba_grow a =
    if a.allocated == 0
    then (λ m. Option.map (λ a'. (a', m)) (ba_init a a.l.block_size a.l.blocks))
    else if leb (2 ^ 31) a.allocated
    then (λ _. none)
    else ba_htable_grow a

unfoldable pub ba_find_page : Allocator → ℕ → M ℕ
ba_find_page a ptr = do p ← ba_htable_lookup a ptr; if p == null then (λ _. none) else pure p

-- The page `p` is full now.
retire : Layout → ℕ → M (Unit {0})
retire l p =
    if p == null
    then pure tt
    else set_header p (record { first = null; used = l.blocks; flags = ba_flag_sorted })

-- The first page of the list `i`.
take_page : Allocator → ℕ → ℕ → M (Allocator × ℕ)
take_page a i p = do head ← double_shift p; pure (record a { pages = set a.pages i head }, p)

-- `p->next = NULL`
unfoldable pub clear_next : ℕ → M (Unit {0})
clear_next p = do pg ← load_page p; store_page p (record pg { next = null })

module _ (malloc : ℕ → M ℕ) where
  -- Memory for a page with all blocks free, linked to no other page; `hchain` is not set.
  new_page : Layout → M ℕ
  new_page l = do
    p ← malloc (ba_pagesize l)
    pg ← load_page p
    h ← ba_free_page l p
    store_page p (record pg { h = h; next = null; prev = null })
    pure p

  unfoldable pub ba_low_alloc_page : Layout → M ℕ
  unfolding new_page
  ba_low_alloc_page l = new_page l

  unfoldable pub ba_alloc_page : Allocator → M (Allocator × ℕ)
  unfolding new_page
  ba_alloc_page a = do
    roomy ← (if leb (u32 (2 * a.allocated)) a.num_pages then ba_grow a else pure a)
    let more = record roomy { num_pages = u32 (roomy.num_pages + 1) }
    p ← new_page more.l
    t ← ba_htable_insert more p
    pure (record more { htable = t }, p)

  -- A page from the list behind that at `i`, of the empty pages, or a new one.
  empty_page : Allocator → ℕ → M (Allocator × ℕ)
  unfolding take_page page_list
  empty_page a i = do
    p ← page_list a.pages i
    if p == null then ba_alloc_page a else do
      s ← take_page a i p
      pure (record (s.0) { empty_pages = sub32 a.empty_pages 1 }, s.1)

  -- The first list that is tried is at 0, or at 1 if there is none at 0.
  choose_page : Allocator → M (Allocator × ℕ)
  unfolding empty_page take_page page_list
  choose_page a = do
    high ← page_list a.pages 0
    let i = if high == null then 1 else 0
    p ← page_list a.pages i
    if p == null then empty_page a (i + 1) else take_page a i p

  unfoldable pub ba_get_page : Allocator → ℕ → M (Allocator × ℕ)
  unfolding retire choose_page clear_next
  ba_get_page a p = do retire a.l p; s ← choose_page a; clear_next (s.1); pure s

  module _ (free : ℕ → M (Unit {0})) where
    -- What is in `hf` goes to the page if it is the one that is allocated from now.
    merge_last_free : Allocator → M Allocator
    merge_last_free a =
        if a.alloc == a.last_free
        then (do
          s ← ba_update_slot free a a.last_free a.hf
          pure (record (s.0) { hf = s.1; last_free = null }))
        else pure a

    unfoldable pub ba_global_get_page : Allocator → M Allocator
    unfolding merge_last_free
    ba_global_get_page a = do
      s ← ba_get_page a a.alloc
      a' ← merge_last_free (record (s.0) { alloc = s.1 })
      pg ← load_page a'.alloc
      pure (record a' { h = pg.h })

-- The frees collected for the page `pp` are written back, and the page of `ptr` takes its
-- place: the allocator, the header `*h` and the page.
unfoldable pub ba_low_get_free_page :
    (free : ℕ → M (Unit {0})) → Allocator → Header → ℕ → ℕ → M (Allocator × Header × ℕ)
ba_low_get_free_page free a h pp ptr = do
  a' ← (if pp == null then pure a else do s ← ba_update_slot free a pp h; pure (s.0))
  p ← ba_find_page a' ptr
  pg ← load_page p
  pure (a', pg.h, p)

unfoldable pub ba_get_free_page : (free : ℕ → M (Unit {0})) → Allocator → ℕ → M Allocator
ba_get_free_page free a ptr = do
  s ← ba_low_get_free_page free a a.hf a.last_free ptr
  pure (record (s.0) { hf = s.1; last_free = s.2 })
