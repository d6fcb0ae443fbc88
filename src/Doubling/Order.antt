-- ===== src/Doubling/Order.antt =====
-- In which order the doubling allocator of src/gjalloc.h hands out the blocks of a new page.
use mathlib.Core.Path.{subst}
use gjalloc.Base.{
  ℕ, zero, suc, ◌+◌, ◌≤◌, ◌≡◌, ◌≢◌, refl, sym, ap, ◌∙◌, some, List, [], ◌∷◌, arith, map, eq→==,
  ne→==,
}
use gjalloc.Layout.{Layout, ba_init_layout}
use gjalloc.Memory.{Page, Memory, null, M, pure, ◌>>=◌, update, load_page, store_page}
use gjalloc.Page.{block}
use gjalloc.Page.FreeList.{run_of, IsPlaced, IsThere, IsPage}
use gjalloc.Page.Shift.{ba_shift-IsPage}
use gjalloc.Page.Unshift.{ba_free_page-IsPage}
use gjalloc.Global.Get.{ba_pagesize, ba_low_alloc_page}
use gjalloc.Doubling.{Doubling, doubling_blocks, ba_init_doubling, ba_dalloc}

-- `n` calls of `ba_dalloc`: the blocks in the order in which they are handed out.
unfoldable pub dalloc_times : ℕ → Doubling → M (Doubling × List ℕ)
dalloc_times zero a = pure (a, [])
dalloc_times (suc n) a = do s ← ba_dalloc a; t ← dalloc_times n (s.0); pure (t.0, s.1 ∷ t.1)

-- What a call of `malloc` for a page of the layout `l` gives: the memory at `p`.
pub record GivesPage (malloc : ℕ → M ℕ) (l : Layout) (m : Memory) (p : ℕ) : Type 0 where
  pub given : Memory
  pub header : Page
  pub runs : malloc (ba_pagesize l) m ≡ some (p, given)
  pub has_header : given.page p ≡ some header
  pub there : IsThere l p given.word
  pub placed : IsPlaced l p

-- A new page has all its blocks free.
pub ba_low_alloc_page-IsPage :
    (malloc : ℕ → M ℕ) (l : Layout) (m : Memory) (p : ℕ) (gives : GivesPage malloc l m p)
    → 2 ≤ l.blocks
    → (pg : Page) × (m' : Memory) × (ba_low_alloc_page malloc l m ≡ some (p, m'))
      × (m'.page p ≡ some pg)
      × (pg.next ≡ null)
      × (pg.prev ≡ null)
      × (pg.h.used ≡ 0)
      × ((r : ℕ) → r ≢ p → m'.page r ≡ gives.given.page r)
      × IsPage l p pg.h m' (run_of l.blocks 0)
unfolding ba_low_alloc_page load_page store_page
ba_low_alloc_page-IsPage malloc l m p gives two =
    let (h, m1, freed, v, same, none_used) =
      ba_free_page-IsPage gives.placed gives.given two gives.there in
    let pg : Page = record (gives.header) { h = h; next = null; prev = null } in
    let still : m1.page p ≡ some (gives.header) = ap (λ f. f p) same.pages ∙ gives.has_header in
    (
      pg,
      record m1 { page = update m1.page p (some pg) },
      rw (gives.runs, gives.has_header) (rw freed (rw still refl)),
      rw (eq→== p p refl) refl,
      refl,
      refl,
      none_used,
      λ r ne. rw (ne→== p r (λ z. ne (sym z))) (ap (λ f. f r) same.pages),
      record {
        list = v.list;
        distinct = v.distinct;
        count = v.count;
        sorted = v.sorted;
        there = record { value = v.there.value };
      },
    )

dalloc_times_lem :
    (k r i : ℕ) (a : Doubling) (m : Memory)
    → IsPlaced a.l a.p
    → IsPage a.l a.p a.h m (run_of (k + r) i)
    → (a' : Doubling) × (m' : Memory) × (dalloc_times k a m
        ≡ some ((a', map (block a.l a.p) (run_of k i)), m'))
      × (a'.h.used ≡ a.h.used + k)
unfolding dalloc_times ba_dalloc
dalloc_times_lem zero r i a m placed v = (a, m, refl, omega arith)
dalloc_times_lem (suc k) r i a m placed v =
    let one_more : suc k + r ≡ suc (k + r) = omega arith in
    let v0 : IsPage a.l a.p a.h m (i ∷ run_of (k + r) (suc i)) =
      subst (λ n. IsPage a.l a.p a.h m (run_of n i)) one_more v in
    let (h', m1, took, v1, same, used) =
      ba_shift-IsPage placed a.h m v.there i (run_of (k + r) (suc i)) v0 in
    let (a', m', rest, total) = dalloc_times_lem k r (suc i) (record a { h = h' }) m1 placed v1 in
    (a', m', rw took (rw rest refl), omega (arith, total, used))

-- Given that `malloc` finds memory for a page of at least two blocks, each of room for a pointer,
-- that ends below 2 ^ 64, `ba_init_doubling`
-- succeeds, and as many calls of `ba_dalloc` as there are blocks, or fewer, then hand out the
-- blocks of the page in the order of their addresses, each once.
pub ba_dalloc-order :
    (malloc : ℕ → M ℕ) (block_size blocks : ℕ) (m : Memory) (p : ℕ)
    → GivesPage malloc (ba_init_layout block_size (doubling_blocks blocks)) m p
    → 2 ≤ doubling_blocks blocks
    → (a : Doubling) × (m1 : Memory) × (ba_init_doubling malloc block_size blocks m ≡ some (a, m1))
      × (a.l ≡ ba_init_layout block_size (doubling_blocks blocks))
      × ((k r : ℕ)
          → k + r ≡ doubling_blocks blocks
          → (a' : Doubling) × (m' : Memory) × (dalloc_times k a m1
              ≡ some ((a', map (block a.l p) (run_of k 0)), m'))
            × (a'.h.used ≡ k))
unfolding ba_init_doubling load_page ba_init_layout
ba_dalloc-order malloc block_size blocks m p gives two =
    let l = ba_init_layout block_size (doubling_blocks blocks) in
    let (pg, m1, runs, is, nx, pv, none_used, others, v) =
      ba_low_alloc_page-IsPage malloc l m p gives two in
    let a : Doubling = record { l = l; h = pg.h; p = p } in
    (
      a,
      m1,
      rw runs (rw is refl),
      refl,
      λ k r e.
          let all_free = subst (λ n. IsPage l p pg.h m1 (run_of n 0)) (sym e) v in
          let (a', m', all, total) = dalloc_times_lem k r 0 a m1 gives.placed all_free in
          (a', m', all, omega (arith, total, none_used)),
    )
