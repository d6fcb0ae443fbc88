-- ===== src/Page/Overrun.antt =====
-- A page of one block, in `ba_free_page` of src/gjalloc.c and `ba_shift` of src/gjalloc.h.
use gjalloc.Base.{ℕ, ◌+◌, ◌*◌, ◌≡◌, ◌≢◌, refl, none, some, arith, eq→==, ne→==, u64}
use gjalloc.Layout.{Layout}
use gjalloc.Memory.{Header, Memory, ba_one, update, load, store}
use gjalloc.Page.{block, last_block, ba_shift, ba_free_page}
use gjalloc.Page.FreeList.{IsPlaced, IsThere}

-- `ba_free_page` marks the only block of a page of one block with BA_ONE, and the next
-- `ba_shift` writes to the word behind the page: it faults if that is not memory.
pub ba_shift-overrun :
    {l : Layout} {p : ℕ}
    → IsPlaced l p
    → (m : Memory) → l.blocks ≡ 1
    → IsThere l p m.word
    → m.word (last_block l p + l.block_size) ≡ none
    → (h : Header) × (m' : Memory) × (ba_free_page l p m ≡ some (h, m'))
      × (ba_shift h p l m' ≡ none)
unfolding ba_free_page ba_shift load store
ba_shift-overrun {l} {p} placed m single there behind =
    let b = block l p 0 in
    let (u, is) = there.value 0 (omega arith) in
    let one : l.blocks * l.block_size ≡ l.block_size = rw single (omega arith) in
    let end : u64 (b + l.block_size) ≡ last_block l p + l.block_size =
      omega (arith, placed.last, placed.ends, one) in
    let apart : b ≢ last_block l p + l.block_size = omega (arith, placed.last, placed.wide, one) in
    (
      record { first = b; used = 0; flags = 1 },
      record m { word = update m.word b (some ba_one) },
      rw is refl,
      rw (eq→== b b refl, end, ne→== b (last_block l p + l.block_size) apart, behind) refl,
    )
