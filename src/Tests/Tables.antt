-- ===== src/Tests/Tables.antt =====
-- Deletions from the hash table, and the local and the doubling allocator on concrete inputs.
use gjalloc.Base.{
  ℕ, suc, ◌*◌, ◌^◌, ◌≤◌, ◌<◌, ◌≡◌, ◌≢◌, refl, arith, true, false, none, some, List, [], ◌∷◌, map,
  replicate, u32,
}
use mathlib.Core.Option
use gjalloc.Global.Update.{set_header}
use gjalloc.Layout.{ba_init_layout}
use gjalloc.Page.Grow.{ba_grow_page}
use gjalloc.Memory.{Header, Memory, M, load, load_page, store_page}
use gjalloc.Page.{block, ba_empty}
use gjalloc.Page.FreeList.{mem}
use gjalloc.Htable.{ba_htable_delete}
use gjalloc.Htable.Chain.{IsTable}
use gjalloc.Htable.Delete.{ba_htable_delete-IsTable}
use gjalloc.Doubling.Client.{serve}
use gjalloc.Doubling.Progress.{serve-gets}
use gjalloc.Spec.{get, times}
use gjalloc.Local.{Local}
use gjalloc.Local.Grow.{double_until, ba_local_grow, ba_lreserve}
use gjalloc.Local.Reserve.{GrowsTo, ba_lreserve-ends, ba_lreserve-diverges}
use gjalloc.Tests.{four, memory, fresh, heap, blank, one_page, in_bucket, one_page-IsTable}
use gjalloc.Tests.Pages.{client, client-Serves}

ba_htable_delete-IsTable_example :
    (heads : List ℕ) × (m' : Memory) × (t' : ℕ → List ℕ) × (ba_htable_delete one_page 1000 heap
      ≡ some (heads, m'))
    × IsTable (record one_page { htable = heads }) m' t'
    × ((n : ℕ) → mem 1000 (t' n) ≡ false)
    × ((n r : ℕ) → r ≢ 1000 → mem r (t' n) ≡ mem r (in_bucket n))
    × (m'.word ≡ heap.word)
    × ((r : ℕ) → ((n : ℕ) → mem r (in_bucket n) ≡ false) → m'.page r ≡ heap.page r)
ba_htable_delete-IsTable_example = ba_htable_delete-IsTable one_page-IsTable 1000

serve-gets_example :
    (h' : Header) × (m' : Memory) × (held : List ℕ) × (serve (replicate 4 get) client [] memory
      ≡ some ((record client { h = h' }, map (block four 1000) held), m'))
    × ((j : ℕ) → j < 4 → times j held ≡ 1)
    × (ba_empty h' ≡ true)
serve-gets_example = serve-gets (0 ∷ 1 ∷ 2 ∷ 3 ∷ []) client memory [] client-Serves

-- A local allocator with the page at 1000.
abbrev local : Local
local = record {
  l = four;
  h = fresh;
  page = 1000;
  last_free = 0;
  hf = fresh;
  a = none;
  max_blocks = 512;
}

abbrev no_realloc : ℕ → ℕ → M ℕ
no_realloc p n m = none

abbrev no_move : ℕ → ℕ → ℕ → M (Unit {0})
no_move start stop diff m = some (tt, m)

-- `realloc` that finds room behind the page.
abbrev in_place : ℕ → ℕ → M ℕ
in_place p n m = some (p, m)

-- For 50 blocks the page of four grows to 64.
ba_lreserve-ends_example :
    (r j : ℕ) × (ba_lreserve blank in_place no_move local 50 heap
      ≡ ba_local_grow blank in_place no_move local r heap)
    × (r ≡ 4 * 2 ^ suc j)
    × (50 ≤ r)
    × (r < 100)
    × GrowsTo blank in_place no_move local r (ba_lreserve blank in_place no_move local 50 heap) heap
ba_lreserve-ends_example =
    ba_lreserve-ends blank in_place no_move local 50 heap refl (omega arith) (omega arith)
      (omega arith)

lreserve_run :
    Option.map (λ z. z.0.l.blocks) (ba_lreserve blank in_place no_move local 50 heap) ≡ some 64
unfolding ba_lreserve ba_local_grow set_header ba_grow_page load_page store_page load ba_init_layout
lreserve_run = refl

ba_lreserve-diverges_example :
    ((fuel : ℕ) → double_until fuel (u32 8) (u32 0x8000_0001) ≡ none)
    × (ba_lreserve blank no_realloc no_move local 0x8000_0001 memory ≡ none)
ba_lreserve-diverges_example =
    ba_lreserve-diverges blank no_realloc no_move local 2 0x8000_0001 memory refl (omega arith)
      (omega arith) (omega arith) (omega arith)
