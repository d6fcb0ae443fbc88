-- ===== src/Tests/Counts.antt =====
-- Counting the used blocks of an allocator, and finding a page of a log allocator.
use gjalloc.Base.{
  ℕ, zero, suc, ◌≤◌, ◌<◌, ◌≡◌, refl, arith, true, false, some, [], ◌∷◌, u64, get_elem?,
}
use gjalloc.Memory.{Memory, M}
use gjalloc.Allocator.{Allocator}
use gjalloc.Htable.{bucket_of, masked_hash, hash1, ba_check_ptr}
use gjalloc.Htable.Chain.{IsTable}
use gjalloc.Global.Whole.{ba_count}
use gjalloc.Global.Count.{WritesHeader, used_of_buckets, ba_count-used}
use gjalloc.Log.{log_layout, find_log_page}
use gjalloc.Log.Sizes.{layout_at, find_log_page-finds}
use gjalloc.Tests.{memory, heap, page_1000, fresh, one_page, in_bucket, one_page-IsTable}

abbrev pub keep : ℕ → M (Unit {0})
keep p m = some (tt, m)

-- Three blocks of the page at 1000 are used, which only the allocator's header says.
abbrev pub counting : Allocator
counting = record one_page { alloc = 1000; h = record fresh { used = 3 } }

pub counting-IsTable : IsTable counting heap in_bucket
unfolding bucket_of masked_hash hash1
counting-IsTable = record {
  chains = one_page-IsTable.chains;
  homes = one_page-IsTable.homes;
  distinct = one_page-IsTable.distinct;
  few = one_page-IsTable.few;
  some_buckets = one_page-IsTable.some_buckets;
  word = one_page-IsTable.word;
}

ba_count-used_example :
    (m' : Memory) × WritesHeader counting heap m'
    × (ba_count keep counting heap ≡ some ((counting, u64 (used_of_buckets m' in_bucket 0 8)), m'))
ba_count-used_example = ba_count-used keep page_1000 counting-IsTable refl refl (omega arith) refl

-- Pages of 2, 4 and 8 blocks of 16 bytes.
abbrev page_at : ℕ → ℕ
page_at zero = 1000
page_at (suc zero) = 2000
page_at (suc (suc j)) = 3000

three_pages : (j : ℕ) → j ≤ 2 → get_elem? (1000 ∷ 2000 ∷ 3000 ∷ []) j ≡ some (page_at j)
three_pages zero le = refl
three_pages (suc zero) le = refl
three_pages (suc (suc zero)) le = refl
three_pages (suc (suc (suc j))) le = absurd (omega arith)

others_not : (j : ℕ) → 1 < j → j ≤ 2 → ba_check_ptr (layout_at 16 2 j) (page_at j) 2040 ≡ false
unfolding ba_check_ptr log_layout
others_not zero lt le = absurd (omega arith)
others_not (suc zero) lt le = absurd (omega arith)
others_not (suc (suc zero)) lt le = refl
others_not (suc (suc (suc j))) lt le = absurd (omega arith)

second_holds : ba_check_ptr (layout_at 16 2 1) 2000 2040 ≡ true
unfolding ba_check_ptr log_layout
second_holds = refl

find_log_page-finds_example :
    find_log_page (1000 ∷ 2000 ∷ 3000 ∷ []) (layout_at 16 2 2) 2040 2 memory
    ≡ some ((2000, 1), memory)
find_log_page-finds_example =
    find_log_page-finds (1000 ∷ 2000 ∷ 3000 ∷ []) page_at 16 2 2040 memory 2 1 three_pages
      (omega arith) second_holds others_not
