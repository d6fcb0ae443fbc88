-- ===== src/Tests/Checks.antt =====
-- The search of all pages, the check of the debug build, the table when it grows and shrinks, and
-- an allocator of `BA_INIT`, on concrete inputs.
use gjalloc.Base.{ℕ, ◌*◌, ◌≡◌, ◌≢◌, refl, arith, false, none, some, List, length, ◌↔◌}
use gjalloc.Memory.{Memory, M, null}
use gjalloc.Page.FreeList.{mem}
use gjalloc.Allocator.Init.{ba_init, initial, ba_static}
use gjalloc.Htable.{bucket_of, ba_htable_lookup}
use gjalloc.Htable.Chain.{IsTable, IsTable-heads}
use gjalloc.Htable.Linear.{IsApart, ba_htable_linear_lookup, ba_htable_lookup-linear}
use gjalloc.Htable.Resize.{ba_htable_grow, ba_htable_shrink}
use gjalloc.Htable.Resize.Mask.{wider}
use gjalloc.Htable.Resize.Buckets.{grown}
use gjalloc.Htable.Resize.Table.{ba_htable_grow-IsTable}
use gjalloc.Htable.Resize.Shrunk.{narrower, shrunk, ba_htable_shrink-IsTable}
use gjalloc.Global.Count.{WritesHeader}
use gjalloc.Global.Blocks.{ba_alloc}
use gjalloc.Global.Blocks.Static.{ba_alloc-static}
use gjalloc.Global.Check.{ba_check_allocator}
use gjalloc.Global.Check.Sound.{IsChecked, ba_check_allocator-IsChecked}
use gjalloc.Tests.{
  four, memory, heap, page_1000, one_page, in_bucket, in_bucket_only, one_page-IsTable,
}
use gjalloc.Tests.Counts.{keep, counting, counting-IsTable}

one_page-IsApart : IsApart four in_bucket 1056
one_page-IsApart = record {
  proper = λ n p h. let (at, here) = in_bucket_only n p h in ((λ e. omega arith), omega arith);
  alone = λ n k p q p_is q_is p_holds q_holds.
      omega (arith, in_bucket_only n p p_is, in_bucket_only k q q_is);
}

ba_htable_lookup-linear_example :
    (r : ℕ) × (ba_htable_linear_lookup one_page 1056 heap ≡ some (r, heap))
    × (ba_htable_lookup one_page 1056 heap ≡ some (r, heap))
ba_htable_lookup-linear_example =
    ba_htable_lookup-linear one_page-IsTable refl 1056 one_page-IsApart (omega arith) (omega arith)

ba_check_allocator-IsChecked_example :
    (m' : Memory) × WritesHeader counting heap m'
    × ((ba_check_allocator counting heap ≡ some (tt, m')) ↔ IsChecked counting m' in_bucket)
    × (¬ IsChecked counting m' in_bucket → ba_check_allocator counting heap ≡ none)
ba_check_allocator-IsChecked_example =
    ba_check_allocator-IsChecked counting heap in_bucket page_1000
      (IsTable-heads counting-IsTable refl) one_page-IsTable.few (λ e. omega arith) refl

ba_htable_grow-IsTable_example :
    (heads : List ℕ) × (m' : Memory) × (ba_htable_grow one_page heap
      ≡ some (record (wider one_page) { htable = heads }, m'))
    × IsTable (record (wider one_page) { htable = heads }) m' (grown one_page in_bucket)
    × ((wider one_page).allocated ≡ 2 * 8)
    × (length heads ≡ 2 * 8)
    × ((p : ℕ)
        → mem p (grown one_page in_bucket (bucket_of (wider one_page) p))
          ≡ mem p (in_bucket (bucket_of one_page p)))
    × ((r : ℕ) → r ≢ null → ((k : ℕ) → mem r (in_bucket k) ≡ false) → m'.page r ≡ heap.page r)
    × (m'.word ≡ heap.word)
ba_htable_grow-IsTable_example =
    ba_htable_grow-IsTable one_page in_bucket heap 3 one_page-IsTable refl (omega arith) refl

ba_htable_shrink-IsTable_example :
    (heads : List ℕ) × (m' : Memory) × (ba_htable_shrink one_page heap
      ≡ some (record (narrower one_page) { htable = heads }, m'))
    × IsTable (record (narrower one_page) { htable = heads }) m' (shrunk one_page in_bucket)
    × (2 * (narrower one_page).allocated ≡ 8)
    × (length heads ≡ (narrower one_page).allocated)
    × ((p : ℕ)
        → mem p (shrunk one_page in_bucket (bucket_of (narrower one_page) p))
          ≡ mem p (in_bucket (bucket_of one_page p)))
    × ((r : ℕ) → ((k : ℕ) → mem r (in_bucket k) ≡ false) → m'.page r ≡ heap.page r)
    × (m'.word ≡ heap.word)
ba_htable_shrink-IsTable_example =
    ba_htable_shrink-IsTable one_page in_bucket heap 2 one_page-IsTable refl (omega arith) refl

-- `malloc` gives the address 4096.
abbrev give_page : ℕ → M ℕ
give_page n m = some (4096, m)

ba_alloc-static_example :
    ba_alloc give_page keep (ba_static 16 4) memory
    ≡ ba_alloc give_page keep (initial (ba_static 16 4) 16 4) memory
unfolding ba_init
ba_alloc-static_example =
    ba_alloc-static give_page keep 16 4 (omega arith) memory (initial (ba_static 16 4) 16 4) refl
