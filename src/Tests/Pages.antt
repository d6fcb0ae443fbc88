-- ===== src/Tests/Pages.antt =====
-- Sorting and walking a page, and a client of a doubling allocator, on a page of four blocks.
use gjalloc.Base.{
  ◌-◌, ℕ, zero, suc, ◌+◌, ◌<◌, ◌≡◌, refl, arith, none, some, List, [], ◌∷◌, map, ltb, ◌&&◌, not,
  if◌then◌else◌,
}
use gjalloc.Base.Bits.{bit}
use gjalloc.Memory.{Header, Page, Memory, update}
use gjalloc.Page.{block}
use gjalloc.Page.FreeList.{mem, IsPage, IsThere, nil, cons}
use gjalloc.Page.Sort.{ba_sort}
use gjalloc.Page.Sort.Sorted.{IsSorting, ba_sort-IsSorting}
use gjalloc.Page.Walk.{walk_chunks}
use gjalloc.Page.Walk.Chunks.{visits}
use gjalloc.Page.Walk.Visits.{visit_all, body, walk_chunks-visits}
use gjalloc.Doubling.{Doubling}
use gjalloc.Doubling.Client.{serve, Serves, serve-Refines}
use gjalloc.Spec.{get, give, pool_of, Steps}
use gjalloc.Tests.{four, words, memory, fresh, four-IsPlaced, fresh-IsPage}

-- The free blocks 2, 0 and 3 in this order; block 1 is used.
abbrev mixed_header : Header
mixed_header = record { first = 1072; used = 1; flags = 0 }

abbrev mixed_page : Page
mixed_page = record { h = mixed_header; next = 0; prev = 0; hchain = 0 }

abbrev mixed : Memory
mixed = record {
  word = update (update (update words 1072 (some 1040)) 1040 (some 1088)) 1088 (some 0);
  page = update (λ p. none) 1000 (some mixed_page);
}

mixed-IsThere : IsThere four 1000 mixed.word
mixed-IsThere = record { value = value }
  where
    value : (j : ℕ) → j < 4 → (v : ℕ) × (mixed.word (block four 1000 j) ≡ some v)
    value zero h = (1088, refl)
    value (suc zero) h = (7, refl)
    value (suc (suc zero)) h = (1040, refl)
    value (suc (suc (suc zero))) h = (0, refl)
    value (suc (suc (suc (suc j)))) h = absurd (omega arith)

mixed-IsPage : IsPage four 1000 mixed_header mixed (2 ∷ 0 ∷ 3 ∷ [])
mixed-IsPage = record {
  list = cons 2 1040 (omega arith) refl refl (omega arith) (
      cons 0 1088 (omega arith) refl refl (omega arith)
        (cons 3 0 (omega arith) refl refl (omega arith) (nil refl)));
  distinct = (refl, (refl, (refl, tt)));
  count = refl;
  sorted = λ h. absurd (omega arith);
  there = mixed-IsThere;
}

ba_sort-IsSorting_example :
    (h' : Header) × (m' : Memory) × (zs : List ℕ) × (ba_sort 1000 mixed_header four mixed
      ≡ some (h', m'))
    × IsSorting four 1000 (2 ∷ 0 ∷ 3 ∷ []) zs h'.first mixed m'
    × (h'.used ≡ 1)
    × (bit h'.flags 0 ≡ 1)
ba_sort-IsSorting_example =
    ba_sort-IsSorting four-IsPlaced (omega arith) (omega arith) mixed_header mixed (2 ∷ 0 ∷ 3 ∷ [])
      mixed-IsPage

-- How many bytes the chunks have together.
abbrev bytes : ℕ → ℕ → ℕ → ℕ
bytes start stop s = s + (stop - start)

walk_chunks-visits_example :
    (m' : Memory) × (cs : List (ℕ × ℕ)) × (walk_chunks (body bytes four 1000) four 1000 0 mixed
      ≡ some (visit_all bytes four 1000 cs 0, m'))
    × ((j : ℕ) → visits j cs ≡ (if ltb j 4 && not (mem j (2 ∷ 0 ∷ 3 ∷ [])) then 1 else 0))
walk_chunks-visits_example =
    walk_chunks-visits bytes four 1000 four-IsPlaced (omega arith) (omega arith) mixed mixed_page
      (2 ∷ 0 ∷ 3 ∷ []) 0 refl mixed-IsPage

abbrev pub client : Doubling
client = record { l = four; h = fresh; p = 1000 }

pub client-Serves : Serves client memory (0 ∷ 1 ∷ 2 ∷ 3 ∷ []) []
client-Serves = record { placed = four-IsPlaced; page = fresh-IsPage; once = λ j. ground arith }

-- Two blocks are taken, the older one comes back, and there is no third.
serve-Refines_example :
    (h' : Header) × (m' : Memory) × (xs ys : List ℕ) × (serve
        (get ∷ get ∷ give 1 ∷ give 2 ∷ [])
        client
        []
        memory
      ≡ some ((record client { h = h' }, map (block four 1000) ys), m'))
    × Serves (record client { h = h' }) m' xs ys
    × Steps (pool_of (0 ∷ 1 ∷ 2 ∷ 3 ∷ [])) [] (get ∷ get ∷ give 1 ∷ give 2 ∷ []) (pool_of xs) ys
serve-Refines_example =
    serve-Refines (get ∷ get ∷ give 1 ∷ give 2 ∷ []) client memory (0 ∷ 1 ∷ 2 ∷ 3 ∷ []) []
      client-Serves
