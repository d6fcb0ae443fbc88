-- ===== src/Global/Whole.antt =====
-- The operations of src/gjalloc.c on all pages of an allocator: `ba_count`, `ba_count_all`,
-- `ba_capacity`, `ba_free_all` and `ba_destroy`, with the loop `PAGE_LOOP`.
-- A chain is walked on fuel, `num_pages + 1` units.
use gjalloc.Base.{ℕ, zero, suc, ◌+◌, ◌*◌, u64, ◌==◌, if◌then◌else◌, none, List, [], ◌∷◌, replicate}
use gjalloc.Memory.{null, M, pure, ◌>>=◌, ◌>>◌, load_page}
use gjalloc.Allocator.{Allocator}
use gjalloc.Global.Update.{ba_update_slot, set_header}
use gjalloc.Global.Get.{ba_pagesize}

-- The inner loop of `PAGE_LOOP`; the successor is read before the body runs.
unfoldable pub chain_fold : {S : Type 0} → (ℕ → S → M S) → ℕ → ℕ → S → M S
chain_fold body zero p s = λ _. none
chain_fold body (suc fuel) p s =
    if p == null
    then pure s
    else do pg ← load_page p; s' ← body p s; chain_fold body fuel pg.hchain s'

unfoldable pub page_loop : {S : Type 0} → (ℕ → S → M S) → ℕ → List ℕ → S → M S
unfolding chain_fold
page_loop body fuel [] s = pure s
page_loop body fuel (head ∷ t) s = do s' ← chain_fold body fuel head s; page_loop body fuel t s'

unfoldable pub ba_capacity : Allocator → ℕ
ba_capacity a = u64 (a.num_pages * a.l.blocks)

-- `n += p->h.used`
unfoldable pub add_used : ℕ → ℕ → M ℕ
add_used p n = do pg ← load_page p; pure (u64 (n + pg.h.used))

module _ (free : ℕ → M (Unit {0})) where
  -- The headers that the allocator works on are written back to their pages.
  unfoldable pub write_back : Allocator → M Allocator
  write_back a = do
    (if a.alloc == null then pure tt else set_header a.alloc a.h)
    if a.last_free == null then pure a else do
      s ← ba_update_slot free a a.last_free a.hf
      pure (record (s.0) { hf = s.1; last_free = null })

  unfoldable pub ba_count : Allocator → M (Allocator × ℕ)
  unfolding write_back add_used
  ba_count a = do
    a' ← write_back a
    n ← page_loop add_used (a'.num_pages + 1) a'.htable 0
    pure (a', n)

  -- The number of blocks and the size in bytes.
  unfoldable pub ba_count_all : Allocator → M (Allocator × ℕ × ℕ)
  ba_count_all a = do
    let size = u64 (8 * a.allocated + a.num_pages * ba_pagesize a.l)
    s ← ba_count a
    pure (s.0, s.1, size)

  free_pages : Allocator → M (Unit {0})
  free_pages a = page_loop (λ p u. free p) (a.num_pages + 1) a.htable tt

  unfoldable pub ba_free_all : Allocator → M Allocator
  unfolding free_pages
  ba_free_all a = if a.allocated == 0 then pure a else do
    free_pages a
    pure (record a {
      h = record (a.h) { first = null };
      alloc = null;
      num_pages = 0;
      empty_pages = 0;
      pages = null ∷ null ∷ null ∷ [];
      last_free = null;
      htable = replicate a.allocated null;
    })

  -- The table is given back too; a NULL table is an empty one.
  unfoldable pub ba_destroy : Allocator → M Allocator
  unfolding free_pages
  ba_destroy a = if a.allocated == 0 then pure a else do
    free_pages a
    pure (record a {
      h = record (a.h) { first = null };
      alloc = null;
      last_free = null;
      allocated = 0;
      htable = [];
      pages = null ∷ null ∷ null ∷ [];
      empty_pages = 0;
      num_pages = 0;
    })
