-- ===== src/Page/Grow.antt =====
-- `ba_grow_page` of src/gjalloc.c: a page is made larger by `realloc`, which may move it. The
-- system's `realloc` and the callback `simple` of the relocation strategy are parameters.
-- The loops along the free list take fuel, one unit more than the old page has blocks.
use gjalloc.Base.{ℕ, zero, suc, ◌+◌, u64, sub64, ltb, ◌==◌, if◌then◌else◌, false, none}
use gjalloc.Layout.{Layout, page_size}
use gjalloc.Memory.{null, ba_one, M, pure, ◌>>=◌, ◌>>◌, load, store, load_page, store_page}
use gjalloc.Page.{ba_free_page}
use gjalloc.Page.Walk.{walk_chunks}

-- `*t`: `t` is the address of a block, or 0 for the first pointer of the header of `n`.
read_free : ℕ → ℕ → M ℕ
read_free n t = if t == null then (do pg ← load_page n; pure pg.h.first) else load t

-- `*t = b`
write_free : ℕ → ℕ → ℕ → M (Unit {0})
write_free n t b =
    if t == null
    then (do pg ← load_page n; store_page n (record pg { h = record (pg.h) { first = b } }))
    else store t b

-- `ba_simple_rel_pointer`
unfoldable pub ba_simple_rel_pointer : ℕ → ℕ → ℕ
ba_simple_rel_pointer u diff = if u == 0 then u else u64 (u + diff)

-- The loop that moves the pointers of the free list: the last `t`.
move_list : ℕ → ℕ → ℕ → ℕ → M ℕ
unfolding read_free write_free
move_list n diff zero t = λ _. none
move_list n diff (suc fuel) t = do
  b ← read_free n t
  if ltb ba_one b
      then (do
        write_free n t (ba_simple_rel_pointer b diff)
        move_list n diff fuel (ba_simple_rel_pointer b diff))
      else pure t

-- The loop to the end of a list that has not moved.
list_end : ℕ → ℕ → ℕ → M ℕ
unfolding read_free
list_end n zero t = λ _. none
list_end n (suc fuel) t = do b ← read_free n t; if ltb ba_one b then list_end n fuel b else pure t

-- The blocks that are new are added to a list that ended with NULL.
append_new : Layout → ℕ → ℕ → M (Unit {0})
unfolding read_free write_free
append_new ol n t = do
  b ← read_free n t
  if b == null
      then (do write_free n t (u64 (n + page_size ol)); store (u64 (n + page_size ol)) ba_one)
      else pure tt

unfoldable pub ba_grow_page :
    (realloc : ℕ → ℕ → M ℕ) (simple : ℕ → ℕ → ℕ → M (Unit {0})) → ℕ → Layout → Layout → M ℕ
unfolding move_list list_end append_new
ba_grow_page realloc simple p ol l = do
  n ← realloc p (u64 (page_size l))
  if p == null
      then (do h ← ba_free_page l n; pg ← load_page n; store_page n (record pg { h = h }); pure n)
      else if sub64 n p == 0
      then (do t ← list_end n (ol.blocks + 1) null; append_new ol n t; pure n)
      else do
        t ← move_list n (sub64 n p) (ol.blocks + 1) null
        append_new ol n t
        walk_chunks (λ start stop s. do simple start stop (sub64 n p); pure (s, false)) ol n tt
        pure n
