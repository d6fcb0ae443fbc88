-- ===== src/Page/Sort.antt =====
-- `ba_sort_list` and `ba_sort` of src/gjalloc.c: the free list in the order of the addresses.
-- The loops take fuel, one unit more than there are blocks: a free list names each block once,
-- and `bv_ctz` goes up.
pub mod Mark
pub mod Trim
pub mod Chain
pub mod Sorted
use mathlib.Core.Option
use gjalloc.Base.{
  ℕ, zero, suc, ◌+◌, ◌-◌, ◌/◌, sub64, ltb, ◌==◌, if◌then◌else◌, true, not, Option, none, some,
  replicate, bit_and, bit_or,
}
use gjalloc.Layout.{Layout, sizeof_page}
use gjalloc.Memory.{Header, null, ba_one, M, pure, ◌>>=◌, ◌>>◌, load, store}
use gjalloc.Bitvector.{Bitvector, bv_byte_length, bv_set, bv_get, bv_ctz, minus_one}
use gjalloc.Page.{block, ba_flag_sorted}

-- `BA_NBLOCK`
unfoldable pub ba_nblock : Layout → ℕ → ℕ → ℕ
ba_nblock l p ptr = sub64 ptr (p + sizeof_page) / l.block_size

-- An access to the bit vector.
pub from_vector : {A : Type 0} → Option A → M A
from_vector o m = Option.map (λ a. (a, m)) o

-- The loop that sets the bits of the free blocks.
pub mark_free : Layout → ℕ → ℕ → ℕ → Bitvector → M Bitvector
unfolding from_vector
mark_free l p zero b v = λ _. none
mark_free l p (suc fuel) b v = if b == null then pure v else do
  let n = ba_nblock l p b
  v' ← from_vector (bv_set v n true)
  next ← load b
  if next == ba_one then pure (record v' { length = n + 1 }) else mark_free l p fuel next v'

-- `while (i && bv_get(&v, i)) { i--; }`
pub trim : Bitvector → ℕ → Option ℕ
trim v zero = some 0
trim v (suc i) =
    let rest = trim v i in
    elim (bv_get v (suc i)) [ none ↦ none | some is_set ↦ if is_set then rest else some (suc i) ]

-- The blocks at the end that are free are left out of the vector.
pub trim_length : Bitvector → Option Bitvector
unfolding trim
trim_length v =
    if v.length == 0
    then some v
    else Option.map (λ i. record v { length = i + 1 }) (trim v (v.length - 1))

-- `*t = b`: `t` is the address of a block, or 0 for the variable that is returned, `first`.
pub write_next : ℕ → ℕ → ℕ → M ℕ
write_next first t b = if t == null then pure b else do store t b; pure first

-- The loop that links the blocks whose bits are set: the first one, and the last `t`.
pub rechain : Layout → ℕ → Bitvector → ℕ → ℕ → ℕ → ℕ → M (ℕ × ℕ)
unfolding from_vector
rechain l p v zero j first t = λ _. none
rechain l p v (suc fuel) j first t = do
  i ← from_vector (bv_ctz v j)
  if i == minus_one then pure (first, t) else do
    first' ← write_next first t (block l p i)
    rechain l p v fuel (i + 1) first' (block l p i)

-- The end of the new list.
pub finish : Layout → ℕ → Bitvector → ℕ → ℕ → M ℕ
finish l p v first t =
    if ltb v.length l.blocks
    then (do
      first' ← write_next first t (block l p v.length)
      store (block l p v.length) ba_one
      pure first')
    else write_next first t null

unfoldable pub ba_sort_list : ℕ → ℕ → Layout → M ℕ
unfolding mark_free trim_length rechain finish from_vector write_next
ba_sort_list p b l = do
  let empty : Bitvector = record { length = l.blocks; v = replicate 0 0 }
  let zeros : Bitvector = record empty { v = replicate (bv_byte_length empty / 4) 0 }
  marked ← mark_free l p (l.blocks + 1) b zeros
  v ← from_vector (trim_length marked)
  s ← rechain l p v (l.blocks + 1) 0 b null
  finish l p v (s.0) (s.1)

-- The header that is left.
unfoldable pub ba_sort : ℕ → Header → Layout → M Header
ba_sort p h l = if not (bit_and h.flags ba_flag_sorted == 0) then pure h else do
  first' ← ba_sort_list p h.first l
  pure (record h { first = first'; flags = bit_or h.flags ba_flag_sorted })

-- What `ba_defragment_page` does so far; the callback is not used.
unfoldable pub ba_defragment_page : Layout → Header → ℕ → M Header
ba_defragment_page l h p = ba_sort p h l
