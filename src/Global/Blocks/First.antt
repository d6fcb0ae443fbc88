-- ===== src/Global/Blocks/First.antt =====
-- The first `ba_alloc` of an allocator without pages, in src/gjalloc.h and src/gjalloc.c.
use mathlib.Core.Path.{subst, fun_ext}
use gjalloc.Base.{
  ℕ, suc, ◌-◌, ◌*◌, ◌^◌, ◌≤◌, ◌<◌, ◌≡◌, ◌≢◌, refl, sym, ap, ◌∙◌, false, some, List, [], ◌∷◌, arith,
  ◌==◌, replicate, ne→==, u32, leb, lt→leb, Bool-cases, ==→eq, inl, inr,
}
use gjalloc.Layout.{Layout}
use gjalloc.Memory.{Header, Page, Memory, null, M, update, load_page, store_page}
use gjalloc.Page.{block, ba_empty, ba_shift}
use gjalloc.Page.FreeList.{FreeList, run_of, IsThere, IsPage}
use gjalloc.Page.Shift.{ba_shift-IsPage}
use gjalloc.Allocator.{Allocator}
use gjalloc.Htable.{bucket_of, hash1, masked_hash}
use gjalloc.Htable.Chain.{Chain, IsTable, IsTable-empty}
use gjalloc.Htable.Insert.{ba_htable_insert-IsTable, inserted}
use gjalloc.Global.Update.{page_list}
use gjalloc.Global.Get.{
  ba_low_alloc_page, ba_alloc_page, ba_get_page, ba_global_get_page, clear_next,
}
use gjalloc.Global.Blocks.{ba_alloc}
use gjalloc.Doubling.Order.{GivesPage, ba_low_alloc_page-IsPage}

-- The allocator without pages, as `ba_init` and `ba_free_all` leave it.
abbrev pub emptied : Allocator → Allocator
emptied a = record a {
  h = record (a.h) { first = null };
  alloc = null;
  last_free = null;
  pages = null ∷ null ∷ null ∷ [];
  htable = replicate a.allocated null;
  empty_pages = 0;
  num_pages = 0;
}

-- A page is one in any memory with the same words.
IsPage-words :
    {l : Layout} {p : ℕ} {h : Header} {m m' : Memory} {xs : List ℕ}
    → m'.word ≡ m.word
    → IsPage l p h m xs
    → IsPage l p h m' xs
IsPage-words {l} {p} {h} {m} {m'} {xs} e v = record {
  list = subst (λ w. FreeList l p 1 w h.first xs) (sym e) v.list;
  distinct = v.distinct;
  count = v.count;
  sorted = v.sorted;
  there = subst (λ w. IsThere l p w) (sym e) v.there;
}

-- The table does not depend on the header, the page that is allocated from, and the words.
IsTable-moved :
    (a : Allocator) (p : ℕ) (h : Header) {m m' : Memory} {t : ℕ → List ℕ}
    → IsTable a m t
    → m'.page ≡ m.page
    → IsTable (record a { alloc = p; h = h }) m' t
IsTable-moved a p h {m} {m'} {t} table e = record {
  chains = λ n lt.
      let (q, at, chain) = table.chains n lt in (q, at, subst (λ f. Chain f q (t n)) (sym e) chain);
  homes = unfold bucket_of hash1 masked_hash in table.homes;
  distinct = table.distinct;
  few = table.few;
  some_buckets = table.some_buckets;
  word = table.word;
}

-- `p->next = NULL` for a page that is linked to no other.
clear_next_lem :
    (m : Memory) (p : ℕ) (pg : Page)
    → m.page p ≡ some pg
    → pg.next ≡ null
    → clear_next p m ≡ some (tt, m)
unfolding clear_next load_page store_page
clear_next_lem m p pg is last =
    rw is (rw is (ap (λ f. some (tt, record m { page = f })) (fun_ext same)))
  where
    same : (r : ℕ) → update m.page p (some (record pg { next = null })) r ≡ m.page r
    same r = elim (Bool-cases (p == r)) [
      | inl here ↦
          rw here (
            ap (λ n. some (record pg { next = n })) (sym last)
            ∙ sym is
            ∙ ap m.page (==→eq p r here))
      | inr other ↦ rw other refl
    ]

module _ (malloc : ℕ → M ℕ) (free : ℕ → M (Unit {0})) (a : Allocator) (m : Memory) (p : ℕ)
    (gives : GivesPage malloc a.l m p) (two : 2 ≤ a.l.blocks) (ne : p ≢ null)
    (some_buckets : 1 ≤ a.allocated) (few_buckets : a.allocated < 2 ^ 31) where
  -- The allocator with its first page.
  abbrev counted : Allocator
  counted = record (emptied a) { num_pages = 1 }

  -- `ba_alloc_page` makes the page and puts it into the table.
  ba_alloc_page_lem :
      (heads : List ℕ) × (pg : Page) × (m' : Memory) × (ba_alloc_page malloc (emptied a) m
        ≡ some ((record counted { htable = heads }, p), m'))
      × (m'.page p ≡ some pg)
      × (pg.next ≡ null)
      × IsPage a.l p pg.h m' (run_of a.l.blocks 0)
      × IsTable (record counted { htable = heads }) m' (inserted counted p (λ n. []))
  unfolding ba_alloc_page ba_low_alloc_page
  ba_alloc_page_lem =
      let (pg, m1, made, is, nx, pv, none_used, kept, v) =
        ba_low_alloc_page-IsPage malloc a.l m p gives two in
      let table = IsTable-empty counted m1 refl some_buckets (omega arith) in
      let (heads, m2, put, after, words, others, (q, here)) =
        ba_htable_insert-IsTable table p pg ne is (λ n. refl) (λ n. omega arith) in
      let twice : leb (u32 (2 * a.allocated)) 0 ≡ false =
        lt→leb (u32 (2 * a.allocated)) 0 (omega arith) in
      (
        heads,
        record pg { hchain = q },
        m2,
        rw twice (rw made (rw put refl)),
        here,
        nx,
        IsPage-words words v,
        after,
      )

  -- The steps of the first `ba_alloc`, once the page is there.
  first_run :
      (a1 : Allocator) (pg : Page) (m2 m3 : Memory) (b : ℕ) (h' : Header)
      → ba_alloc_page malloc (emptied a) m ≡ some ((a1, p), m2)
      → a1.last_free ≡ null
      → a1.l ≡ a.l
      → m2.page p ≡ some pg
      → clear_next p m2 ≡ some (tt, m2)
      → ba_shift pg.h p a.l m2 ≡ some ((b, h'), m3)
      → ba_alloc malloc free (emptied a) m ≡ some ((record a1 { alloc = p; h = h' }, b), m3)
  unfolding ba_alloc ba_global_get_page ba_get_page ba_empty page_list load_page
  first_run a1 pg m2 m3 b h' made none_freed layout here cleared took =
      rw (made, cleared, none_freed, ne→== p null ne, here, layout, took) refl

  -- Given an allocator without pages, as `ba_free_all` leaves it, and that `malloc` finds memory
  -- for a page of at least two blocks, `ba_alloc` hands out the first block of that page; the
  -- others are free, and the page is the only one of the table.
  pub ba_alloc-first :
      (a' : Allocator) × (m' : Memory) × (ba_alloc malloc free (emptied a) m
        ≡ some ((a', block a.l p 0), m'))
      × (a'.alloc ≡ p)
      × (a'.num_pages ≡ 1)
      × IsPage a.l p a'.h m' (run_of (a.l.blocks - 1) 1)
      × IsTable a' m' (inserted counted p (λ n. []))
  unfolding ba_alloc ba_global_get_page ba_get_page ba_empty page_list load_page
  ba_alloc-first =
      let (heads, pg, m2, made, here, nx, v, table) = ba_alloc_page_lem in
      let all : suc (a.l.blocks - 1) ≡ a.l.blocks = omega arith in
      let v2 : IsPage a.l p pg.h m2 (0 ∷ run_of (a.l.blocks - 1) 1) =
        subst (λ n. IsPage a.l p pg.h m2 (run_of n 0)) (sym all) v in
      let (h', m3, took, v3, same, used) =
        ba_shift-IsPage gives.placed pg.h m2 v2.there 0 (run_of (a.l.blocks - 1) 1) v2 in
      let moved = IsTable-moved (record counted { htable = heads }) p h' table same.pages in
      (
        record counted { htable = heads; alloc = p; h = h' },
        m3,
        first_run (record counted { htable = heads }) pg m2 m3 (block a.l p 0) h' made refl refl
            here (clear_next_lem m2 p pg here nx) took,
        refl,
        refl,
        v3,
        moved,
      )
