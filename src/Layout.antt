-- ===== src/Layout.antt =====
-- `struct ba_layout` of src/gjalloc.h: the page layout that every allocator keeps, how it is
-- set up, and how a page is rounded up to fill a power of two.
pub mod RoundUp
pub mod PowerOfTwo
pub mod Align
use gjalloc.Base.{
  ℕ, zero, suc, ◌+◌, ◌-◌, ◌*◌, ◌/◌, ◌%◌, bit_and, bit_or, u32, sub32, ◌==◌, if◌then◌else◌, not,
}

-- `sizeof(struct ba_page)`, `sizeof(struct ba_log_page)` and `sizeof(void*)` on LP64: a header
-- of a pointer and two 32-bit words, then three pointers.
abbrev pub sizeof_page : ℕ
sizeof_page = 40

abbrev pub sizeof_log_page : ℕ
sizeof_log_page = 16

abbrev pub sizeof_pointer : ℕ
sizeof_pointer = 8

abbrev pub malloc_overhead : ℕ
malloc_overhead = sizeof_pointer

pub record Layout : Type 0 where
  pub offset : ℕ
  pub block_size : ℕ
  pub blocks : ℕ

-- `BA_PAGESIZE`
abbrev pub page_size : Layout → ℕ
page_size l = l.offset + l.block_size

-- `v |= v >> 1; ...; v |= v >> 16`
smear : ℕ → ℕ → ℕ
smear v d = bit_or v (v / d)

unfoldable pub round_up32_ : ℕ → ℕ
unfolding smear
round_up32_ v = smear (smear (smear (smear (smear v 2) 4) 16) 256) 65536

unfoldable pub round_up32 : ℕ → ℕ
round_up32 v = u32 (round_up32_ v + 1)

-- The product is one of `uint32_t`, the sum one of `size_t`.
unfoldable pub ba_init_layout : (block_size blocks : ℕ) → Layout
ba_init_layout block_size blocks = record {
  offset = sizeof_page + u32 (sub32 blocks 1 * block_size);
  block_size = block_size;
  blocks = blocks;
}

-- `page_size` of `ba_align_layout` once it is rounded up, a `uint32_t`.
unfoldable pub aligned_size : Layout → ℕ
aligned_size l =
    let size = u32 (l.offset + l.block_size + malloc_overhead) in
    if not (bit_and size (sub32 size 1) == 0) then round_up32 size else size

unfoldable pub ba_align_layout : Layout → Layout
unfolding aligned_size
ba_align_layout l =
    ba_init_layout l.block_size
      (sub32 (aligned_size l) (malloc_overhead + sizeof_page) / l.block_size)

-- `__builtin_ctz`: the number of zeros below the lowest one, at most `fuel`.
unfoldable pub count_zeros : ℕ → ℕ → ℕ
count_zeros zero v = 0
count_zeros (suc fuel) v = let rest = count_zeros fuel (v / 2) in if v % 2 == 0 then rest + 1 else 0

-- `a->magnitude` as `ba_init` sets it: the page size is cast to `uint32_t`.
unfoldable pub magnitude : Layout → ℕ
magnitude l = count_zeros 32 (round_up32 (u32 (page_size l)))
