-- ===== src/Tests/Allocators.antt =====
-- Runs of the operations of src/gjalloc.c and src/gjalloc.h that work on whole allocators and
-- lists of pages.
use gjalloc.Base.{
  Option, none, some, ℕ, zero, suc, ◌+◌, ◌*◌, ◌%◌, ◌≤◌, ◌<◌, ◌≡◌, ◌≢◌, refl, true, false, [], ◌∷◌,
  arith, map, ◌⊎◌,
}
use gjalloc.Layout.{Layout, ba_init_layout}
use gjalloc.Memory.{Header, Memory, null, M, update}
use gjalloc.Page.{block, ba_shift, ba_free_page}
use gjalloc.Page.FreeList.{run_of, IsPlaced, IsThere, IsPage}
use gjalloc.Memory.{load, store}
use gjalloc.Layout.{count_zeros}
use gjalloc.Bitvector.{bv_set, bv_get, bv_ctz, bv_byte_length}
use gjalloc.Page.Sort.{ba_sort_list, ba_nblock}
use gjalloc.Page.Overrun.{ba_shift-overrun}
use gjalloc.Allocator.{Allocator}
use gjalloc.Links.{double_link}
use gjalloc.Links.Linked.{Linked, OnlyLinks, nil, cons, double_link-Linked}
use gjalloc.Global.Slot.{ba_get_slot, ba_is_low, ba_is_high, ba_get_slot_lem}
use gjalloc.Global.Blocks.{ba_alloc, ba_free}
use gjalloc.Htable.Chain.{IsTable}
use gjalloc.Htable.Insert.{inserted}
use gjalloc.Global.Blocks.First.{emptied, ba_alloc-first}
use gjalloc.Global.Blocks.Trip.{ba_alloc-ba_free}
use gjalloc.Fill.{cmemset}
use gjalloc.Fill.Periodic.{cmemset-Filled}
use gjalloc.Doubling.{Doubling, doubling_blocks, ba_init_doubling}
use gjalloc.Doubling.Order.{dalloc_times, GivesPage, ba_dalloc-order}
use gjalloc.Tests.{
  four, words, memory, fresh, four-IsPlaced, words-IsThere, fresh-IsPage, page_1000, heap, ready,
}

ba_get_slot_lem_example :
    ((fresh.first ≡ null) × (ba_get_slot ready fresh ≡ none) × (ba_is_high four fresh ≡ false))
    ⊎ ((fresh.first ≢ null)
        × (((fresh.used ≡ 0)
              × (ba_get_slot ready fresh ≡ some 2)
              × (ba_is_low four fresh ≡ true)
              × (ba_is_high four fresh ≡ false))
            ⊎ ((fresh.used ≢ 0)
                × (((ba_get_slot ready fresh ≡ some 1)
                      × (ba_is_low four fresh ≡ false)
                      × (ba_is_high four fresh ≡ true))
                    ⊎ ((ba_get_slot ready fresh ≡ some 0)
                        × (ba_is_low four fresh ≡ true)
                        × (ba_is_high four fresh ≡ false))))))
ba_get_slot_lem_example = ba_get_slot_lem ready fresh (omega arith)

-- The allocator works on the page at 1000.
abbrev working : Allocator
working = record ready { h = fresh; alloc = 1000 }

-- A system that has no more memory.
abbrev no_malloc : ℕ → M ℕ
no_malloc n m = none

abbrev keep : ℕ → M (Unit {0})
keep p m = some (tt, m)

ba_alloc-ba_free_example :
    (a1 a2 : Allocator) × (m1 m2 : Memory) × (ba_alloc no_malloc keep working memory
      ≡ some ((a1, 1040), m1))
    × IsPage four 1000 a1.h m1 (1 ∷ 2 ∷ 3 ∷ [])
    × (ba_free keep a1 1040 m1 ≡ some (a2, m2))
    × IsPage four 1000 a2.h m2 (0 ∷ 1 ∷ 2 ∷ 3 ∷ [])
    × (a2 ≡ record working { h = a2.h })
ba_alloc-ba_free_example =
    ba_alloc-ba_free working memory four-IsPlaced no_malloc keep 0 (1 ∷ 2 ∷ 3 ∷ []) fresh-IsPage

-- A page at 1000 in a list, and one at 2000 in none.
abbrev two_pages : Memory
two_pages = record {
  word = words;
  page = update (update (λ p. none) 1000 (some page_1000)) 2000 (some page_1000);
}

one-Linked : Linked two_pages.page null 1000 (1000 ∷ [])
one-Linked = cons page_1000 refl (omega arith) refl refl (nil refl)

double_link-Linked_example :
    (m' : Memory) × (double_link 1000 2000 two_pages ≡ some (2000, m'))
    × Linked m'.page null 2000 (2000 ∷ 1000 ∷ [])
    × OnlyLinks (2000 ∷ 1000 ∷ []) two_pages m'
double_link-Linked_example =
    double_link-Linked two_pages 1000 2000 page_1000 (1000 ∷ []) one-Linked (refl, tt) (omega arith)
      refl refl

cmemset-Filled_example :
    (r : ℕ → ℕ) × (cmemset (λ i. 9) (λ i. i) 3 5 ≡ some r)
    × ((i : ℕ) → i < 5 * 3 → r i ≡ i % 3)
    × ((i : ℕ) → 5 * 3 ≤ i → r i ≡ 9)
cmemset-Filled_example =
    cmemset-Filled (λ i. i) 3 (omega arith) (λ i. 9) 5 (omega arith) (omega arith)

abbrev pub give_1000 : ℕ → M ℕ
give_1000 n m = some (1000, heap)

gives_1000 : GivesPage give_1000 (ba_init_layout 16 (doubling_blocks 4)) memory 1000
unfolding ba_init_layout doubling_blocks
gives_1000 = record {
  given = heap;
  header = page_1000;
  runs = refl;
  has_header = refl;
  there = words-IsThere;
  placed = four-IsPlaced;
}

two_or_more : 2 ≤ doubling_blocks 4
unfolding doubling_blocks
two_or_more = omega arith

ba_dalloc-order_example :
    (a : Doubling) × (m1 : Memory) × (ba_init_doubling give_1000 16 4 memory ≡ some (a, m1))
    × (a.l ≡ ba_init_layout 16 (doubling_blocks 4))
    × ((k r : ℕ)
        → k + r ≡ doubling_blocks 4
        → (a' : Doubling) × (m' : Memory) × (dalloc_times k a m1
            ≡ some ((a', map (block a.l 1000) (run_of k 0)), m'))
          × (a'.h.used ≡ k))
ba_dalloc-order_example = ba_dalloc-order give_1000 16 4 memory 1000 gives_1000 two_or_more

abbrev single : Layout
single = record { offset = 40; block_size = 16; blocks = 1 }

abbrev one_word : Memory
one_word = record { word = update (λ a. none) 1040 (some 7); page = λ p. none }

single-IsPlaced : IsPlaced single 1000
single-IsPlaced = record {
  last = refl;
  wide = omega arith;
  some_blocks = omega arith;
  few = omega arith;
  ends = omega arith;
}

one_word-IsThere : IsThere single 1000 one_word.word
one_word-IsThere = record { value = value }
  where
    value : (j : ℕ) → j < 1 → (v : ℕ) × (one_word.word (block single 1000 j) ≡ some v)
    value zero h = (7, refl)
    value (suc j) h = absurd (omega arith)

ba_shift-overrun_example :
    (h : Header) × (m' : Memory) × (ba_free_page single 1000 one_word ≡ some (h, m'))
    × (ba_shift h 1000 single m' ≡ none)
ba_shift-overrun_example = ba_shift-overrun single-IsPlaced one_word refl one_word-IsThere refl

-- The free blocks 2, 0, 3 in this order, with NULL at the end; the sorted list is 0 and then
-- all from 2 on.
abbrev unsorted : Memory
unsorted = record {
  word = update (update (update words 1072 (some 1040)) 1040 (some 1088)) 1088 (some 0);
  page = λ p. none;
}

abbrev sorted_words : Option (ℕ × Memory) → Option ℕ × Option ℕ × Option ℕ
sorted_words none = (none, none, none)
sorted_words (some (b, m)) = (some b, m.word 1040, m.word 1072)

ba_sort_list_runs :
    sorted_words (ba_sort_list 1000 1072 four unsorted) ≡ (some 1040, some 1072, some 1)
unfolding ba_sort_list load store ba_nblock bv_set bv_get bv_ctz bv_byte_length count_zeros
ba_sort_list_runs = refl

pub gives_four : GivesPage give_1000 four memory 1000
gives_four = record {
  given = heap;
  header = page_1000;
  runs = refl;
  has_header = refl;
  there = words-IsThere;
  placed = four-IsPlaced;
}

ba_alloc-first_example :
    (a' : Allocator) × (m' : Memory) × (ba_alloc give_1000 keep (emptied ready) memory
      ≡ some ((a', 1040), m'))
    × (a'.alloc ≡ 1000)
    × (a'.num_pages ≡ 1)
    × IsPage four 1000 a'.h m' (1 ∷ 2 ∷ 3 ∷ [])
    × IsTable a' m' (inserted (record (emptied ready) { num_pages = 1 }) 1000 (λ n. []))
ba_alloc-first_example =
    ba_alloc-first give_1000 keep ready memory 1000 gives_four (omega arith) (omega arith)
      (omega arith) (omega arith)
