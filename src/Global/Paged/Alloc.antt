-- ===== src/Global/Paged/Alloc.antt =====
-- `ba_alloc_page` of src/gjalloc.c puts a new page into the table.
use mathlib.Core.Path.{subst}
use gjalloc.Base.{
  ℕ, ◌+◌, ◌*◌, ◌^◌, ◌≤◌, ◌<◌, ◌≡◌, ◌≢◌, refl, sym, ap, ◌∙◌, false, some, List, length, arith, ◌==◌,
  ◌||◌, if◌then◌else◌, u32, leb,
}
use gjalloc.Layout.{Layout}
use gjalloc.Memory.{Memory, null, M}
use gjalloc.Allocator.{Allocator}
use gjalloc.Htable.{bucket_of, hash1, masked_hash, ba_htable_insert}
use gjalloc.Htable.Hash.{bucket_of-lt}
use gjalloc.Htable.Chain.{IsTable}
use gjalloc.Htable.Insert.{inserted, ba_htable_insert-IsTable}
use gjalloc.Htable.Total.{page_total-inserted}
use gjalloc.Global.Get.{ba_grow, ba_low_alloc_page, ba_alloc_page}
use gjalloc.Doubling.Order.{GivesPage, ba_low_alloc_page-IsPage}
use gjalloc.Global.Paged.{
  IsPaged, in_table, IsTable-out, IsTable-more, in_table-inserted, length-insert,
}
use gjalloc.Global.Paged.Room.{Roomy, makes_room}

-- `malloc` finds the memory at `p` for a page, whatever the page headers are, and changes no
-- other page.
pub record AlwaysGives (malloc : ℕ → M ℕ) (l : Layout) (m : Memory) (p : ℕ) : Type 0 where
  pub gives : (m1 : Memory) → m1.word ≡ m.word → GivesPage malloc l m1 p
  pub same :
      (m1 : Memory) (e : m1.word ≡ m.word) (r : ℕ) → r ≢ p → (gives m1 e).given.page r ≡ m1.page r

alloc_run :
    (malloc : ℕ → M ℕ) (a a1 : Allocator) (p : ℕ) (heads : List ℕ) (m m1 m2 m3 : Memory)
    → (if leb (u32 (2 * a.allocated)) a.num_pages then ba_grow a else (λ s. some (a, s))) m
      ≡ some (a1, m1)
    → ba_low_alloc_page malloc a1.l m1 ≡ some (p, m2)
    → ba_htable_insert (record a1 { num_pages = u32 (a1.num_pages + 1) }) p m2 ≡ some (heads, m3)
    → ba_alloc_page malloc a m
      ≡ some ((record a1 { num_pages = u32 (a1.num_pages + 1); htable = heads }, p), m3)
unfolding ba_alloc_page ba_low_alloc_page
alloc_run malloc a a1 p heads m m1 m2 m3 roomy made put = rw (roomy, made, put) refl

module _ (malloc : ℕ → M ℕ) (a : Allocator) (m : Memory) (t : ℕ → List ℕ) (s : IsPaged a m t)
    (few_buckets : a.allocated < 2 ^ 31) (few_pages : a.num_pages + 1 < 2 ^ 32) (p : ℕ)
    (gives : AlwaysGives malloc a.l m p) (two : 2 ≤ a.l.blocks) (ne : p ≢ null)
    (out : in_table a t p ≡ false) where
  -- The allocator in which one page more is counted.
  abbrev counted : Allocator → Allocator
  counted a1 = record a1 { num_pages = u32 (a1.num_pages + 1) }

  abbrev AddsPage : Type 0
  AddsPage =
      (a' : Allocator) × (m' : Memory) × (t' : ℕ → List ℕ) × (ba_alloc_page malloc a m
        ≡ some ((a', p), m'))
      × IsPaged a' m' t'
      × (a'.num_pages ≡ a.num_pages + 1)
      × ((r : ℕ) → in_table a' t' r ≡ ((r == p) || in_table a t r))

  IsPaged-inserted :
      (a1 : Allocator) (m1 m3 : Memory) (t1 : ℕ → List ℕ) (heads : List ℕ)
      → Roomy a a1 m m1 t t1
      → length heads ≡ length a1.htable
      → IsTable (record (counted a1) { htable = heads }) m3 (inserted (counted a1) p t1)
      → IsPaged (record (counted a1) { htable = heads }) m3 (inserted (counted a1) p t1)
  unfolding bucket_of hash1 masked_hash
  IsPaged-inserted a1 m1 m3 t1 heads r size table =
      let old = r.paged in
      let more : u32 (a1.num_pages + 1) ≡ a1.num_pages + 1 = omega (arith, r.pages, few_pages) in
      record {
        table = table;
        size = size ∙ old.size;
        width = old.width;
        power = old.power;
        total =
            page_total-inserted (counted a1) t1 p a1.allocated
              (bucket_of-lt (counted a1) p old.table.some_buckets old.table.word)
            ∙ omega (arith, more, old.total);
        load = omega (arith, more, r.space);
      }

  in_table-counted :
      (a1 : Allocator) (heads : List ℕ) (t1 : ℕ → List ℕ) (r : ℕ)
      → in_table (record (counted a1) { htable = heads }) (inserted (counted a1) p t1) r
        ≡ ((r == p) || in_table a1 t1 r)
  unfolding bucket_of hash1 masked_hash
  in_table-counted a1 heads t1 r = in_table-inserted (counted a1) p r t1

  adds_page : (a1 : Allocator) (m1 : Memory) (t1 : ℕ → List ℕ) → Roomy a a1 m m1 t t1 → AddsPage
  adds_page a1 m1 t1 r =
      let given = subst (λ z. AlwaysGives malloc z m p) (sym r.layout) gives in
      let here = given.gives m1 r.words in
      let more : u32 (a1.num_pages + 1) ≡ a1.num_pages + 1 = omega (arith, r.pages, few_pages) in
      let free_of = IsTable-out r.paged.table p (r.same p ∙ out) in
      let (pg, m2, made, is, nx, pv, none_used, others, v) =
        ba_low_alloc_page-IsPage malloc a1.l m1 p here
          (omega (arith, two, ap (λ z. z.blocks) r.layout)) in
      let table : IsTable (counted a1) m2 t1 =
        IsTable-more a1 (u32 (a1.num_pages + 1)) p r.paged.table (omega (arith, more)) free_of
          (λ q q_ne. others q q_ne ∙ given.same m1 r.words q q_ne) in
      let (heads, m3, put, after, words, kept, hchain) =
        ba_htable_insert-IsTable table p pg ne is free_of
          (λ n. omega (arith, more, r.paged.table.few n)) in
      (
        record (counted a1) { htable = heads },
        m3,
        inserted (counted a1) p t1,
        alloc_run malloc a a1 p heads m m1 m2 m3 r.runs made put,
        IsPaged-inserted a1 m1 m3 t1 heads r (length-insert table p pg is put) after,
        omega (arith, more, r.pages),
        λ q. in_table-counted a1 heads t1 q ∙ ap (λ b. (q == p) || b) (r.same q),
      )

  -- Given an allocator whose table holds its pages, with fewer than 2 ^ 31 buckets and a count of
  -- pages that can grow, and that `malloc` finds memory for a page of at least two blocks that is
  -- not in the table, `ba_alloc_page` runs and makes a page that is then in the table, with all
  -- pages that were there and no other; the table, which may have been doubled, again has at least
  -- one bucket for two pages.
  pub ba_alloc_page-IsPaged :
      (a' : Allocator) × (m' : Memory) × (t' : ℕ → List ℕ) × (ba_alloc_page malloc a m
        ≡ some ((a', p), m'))
      × IsPaged a' m' t'
      × (a'.num_pages ≡ a.num_pages + 1)
      × ((r : ℕ) → in_table a' t' r ≡ ((r == p) || in_table a t r))
  ba_alloc_page-IsPaged =
      let (a1, m1, t1, r) = makes_room a m t s few_buckets in adds_page a1 m1 t1 r
