-- ===== src/Global/Paged/Remove.antt =====
-- `ba_remove_page` of src/gjalloc.c gives the highest empty page back.
use gjalloc.Base.{
  ℕ, ◌+◌, ◌^◌, ◌≤◌, ◌<◌, ◌≡◌, ◌≢◌, sym, ap, ◌∙◌, true, false, Bool-cases, inl, inr, some, List,
  length, arith, ◌==◌, ◌&&◌, not, if◌then◌else◌, sub32, get_elem?, set,
}
use gjalloc.Memory.{Memory, null, M}
use gjalloc.Page.FreeList.{mem, Distinct}
use gjalloc.Links.{double_unlink}
use gjalloc.Links.Linked.{Linked}
use gjalloc.Allocator.{Allocator}
use gjalloc.Htable.{bucket_of, hash1, masked_hash, ba_htable_delete}
use gjalloc.Htable.Hash.{bucket_of-lt}
use gjalloc.Htable.Chain.{IsTable}
use gjalloc.Htable.Unlink.{without, without-gone}
use gjalloc.Htable.Delete.{ba_htable_delete-without}
use gjalloc.Htable.Resize.{ba_htable_shrink}
use gjalloc.Htable.Resize.Shrunk.{page_total}
use gjalloc.Htable.Total.{page_total-without}
use gjalloc.Global.Update.{page_list, highest_page, ba_remove_page}
use gjalloc.Global.Paged.{IsPaged, in_table}
use gjalloc.Links.Unlinked.{double_unlink-Linked}
use gjalloc.Global.Paged.Highest.{Linked-first, IsHighest, walks_to_top}
use gjalloc.Global.Paged.Fewer.{
  IsTable-links, in_table-without, fewer, IsTable-fewer, is_sparse, shrinks_if,
}

-- `free` ends and leaves the other pages.
pub record FreesPage (free : ℕ → M (Unit {0})) (p : ℕ) (m : Memory) : Type 0 where
  pub after : Memory
  pub runs : free p m ≡ some (tt, after)
  pub same : (r : ℕ) → r ≢ p → after.page r ≡ m.page r

remove_run :
    (free : ℕ → M (Unit {0})) (a a' : Allocator) (m m1 m2 m3 m' : Memory) (first p head : ℕ)
    (heads : List ℕ)
    → get_elem? a.pages 2 ≡ some first
    → highest_page a.empty_pages first first m ≡ some (p, m)
    → double_unlink first p m ≡ some (head, m1)
    → ba_htable_delete a p m1 ≡ some (heads, m2)
    → free p m2 ≡ some (tt, m3)
    → (let b = fewer a (set a.pages 2 head) heads (sub32 a.empty_pages 1) (sub32 a.num_pages 1) in
          if is_sparse b then ba_htable_shrink b else (λ z. some (b, z)))
        m3
      ≡ some (a', m')
    → ba_remove_page free a m ≡ some (a', m')
unfolding ba_remove_page page_list
remove_run free a a' m m1 m2 m3 m' first p head heads at found unlinked deleted freed shrank =
    rw (at, found, unlinked, deleted, freed) shrank

module _ (free : ℕ → M (Unit {0})) (frees : (p : ℕ) (m : Memory) → FreesPage free p m)
    (a : Allocator) (m : Memory) (t : ℕ → List ℕ) (s : IsPaged a m t)
    (few_pages : a.num_pages < 2 ^ 32) (first : ℕ) (es : List ℕ)
    (at : get_elem? a.pages 2 ≡ some first) (list : Linked m.page null first es)
    (distinct : Distinct es) (ne : first ≢ null) (enough : length es ≤ a.empty_pages)
    (held : (r : ℕ) → mem r es ≡ true → in_table a t r ≡ true) where
  -- The buckets without the page.
  abbrev left : ℕ → ℕ → List ℕ
  left p n = without p (t n)

  IsPaged-fewer :
      (p : ℕ) (pages heads : List ℕ) (m2 m3 : Memory)
      → in_table a t p ≡ true
      → IsTable (record a { htable = heads }) m2 (left p)
      → length heads ≡ length a.htable
      → ((r : ℕ) → r ≢ p → m3.page r ≡ m2.page r)
      → IsPaged (fewer a pages heads (sub32 a.empty_pages 1) (sub32 a.num_pages 1)) m3 (left p)
        × (sub32 a.num_pages 1 + 1 ≡ a.num_pages)
  IsPaged-fewer p pages heads m2 m3 here table size same =
      let lt = bucket_of-lt a p s.table.some_buckets s.table.word in
      let total =
        page_total-without a t p (bucket_of a p) here (λ n n_ne. alone n n_ne) a.allocated lt in
      let less : sub32 a.num_pages 1 + 1 ≡ a.num_pages = omega (arith, total, s.total, few_pages) in
      let sum : page_total (left p) a.allocated ≡ sub32 a.num_pages 1 =
        omega (arith, total, s.total, less) in
      (
        record {
          table =
              IsTable-fewer a pages heads (sub32 a.empty_pages 1) (sub32 a.num_pages 1) p table sum
                (λ n. without-gone p (t n) (s.table.distinct n)) same;
          size = size ∙ s.size;
          width = s.width;
          power = s.power;
          total = sum;
          load = omega (arith, s.load, less);
        },
        less,
      )
    where
      alone : (n : ℕ) → n ≢ bucket_of a p → mem p (t n) ≡ false
      alone n n_ne = elim (Bool-cases (mem p (t n))) [
        | inl is ↦ absurd (n_ne (sym (s.table.homes n p is)))
        | inr isnt ↦ isnt
      ]

  in_table-fewer :
      (p : ℕ) (pages heads : List ℕ) (empty k r : ℕ)
      → in_table (fewer a pages heads empty k) (left p) r ≡ (not (r == p) && in_table a t r)
  unfolding bucket_of hash1 masked_hash
  in_table-fewer p pages heads empty k r =
      in_table-without a t p (λ n. without-gone p (t n) (s.table.distinct n)) r

  -- Given an allocator whose table holds its pages, and a list of its empty pages, each in the table,
  -- with a count that is at least their number, and a `free` that leaves the other pages,
  -- `ba_remove_page` runs and takes the page with the highest address of that list, and no
  -- other, out of the table; the table, which may have been halved, holds the remaining pages, whose
  -- number has gone down by one.
  pub ba_remove_page-IsPaged :
      (p : ℕ) × (a' : Allocator) × (m' : Memory) × (t' : ℕ → List ℕ) × (ba_remove_page free a m
        ≡ some (a', m'))
      × (mem p es ≡ true)
      × ((r : ℕ) → mem r es ≡ true → r ≤ p)
      × IsPaged a' m' t'
      × (a'.num_pages + 1 ≡ a.num_pages)
      × ((r : ℕ) → in_table a' t' r ≡ (not (r == p) && in_table a t r))
  ba_remove_page-IsPaged =
      let found = walks_to_top m a.empty_pages first list ne enough in
      let p = found.top in
      let listed = in_list found in
      let (head, m1, unlinked, rest, only) =
        double_unlink-Linked m first p es list distinct listed in
      let (heads, m2, deleted, table, size, words, others) =
        ba_htable_delete-without (IsTable-links only s.table) p in
      let freed = frees p m2 in
      let pages = set a.pages 2 head in
      let (paged, less) =
        IsPaged-fewer p pages heads m2 freed.after (held p listed) table size freed.same in
      let (a', m', t', shrank, after, count, kept) = shrinks_if _ freed.after (left p) paged in
      (
        p,
        a',
        m',
        t',
        remove_run free a a' m m1 m2 freed.after m' first p head heads at found.runs unlinked
            deleted freed.runs shrank,
        listed,
        found.above,
        after,
        omega (arith, count, less),
        λ r. kept r ∙ in_table-fewer p pages heads (sub32 a.empty_pages 1) (sub32 a.num_pages 1) r,
      )
    where
      in_list : (f : IsHighest a.empty_pages first first es m) → mem f.top es ≡ true
      in_list f = elim f.one_of [
        | inl same ↦ ap (λ z. mem z es) same ∙ Linked-first list ne
        | inr here ↦ here
      ]
