-- ===== src/Allocator/Init.antt =====
-- `ba_init` of src/gjalloc.c.
use gjalloc.Base.{
  ℕ, ◌≤◌, ◌≡◌, ◌≢◌, refl, arith, Option, none, some, [], ◌∷◌, replicate, ltb, ◌==◌, sub64, u32, ◌/◌,
  if◌then◌else◌, ne→==,
}
use gjalloc.Layout.{ba_init_layout, ba_align_layout, magnitude, sizeof_page, malloc_overhead}
use gjalloc.Layout.Align.{IsSmall, IsAligned, ba_align_layout-IsAligned, magnitude_lem}
use gjalloc.Memory.{Memory, null}
use gjalloc.Allocator.{Allocator}
use gjalloc.Htable.Chain.{IsTable, IsTable-empty}

abbrev pub ba_alloc_initial : ℕ
ba_alloc_initial = 8

abbrev pub ba_max_empty : ℕ
ba_max_empty = 8

-- The block size and the number of blocks that `ba_init` goes on with.
abbrev pub at_least_pointer : ℕ → ℕ
at_least_pointer block_size = if ltb block_size 8 then 8 else block_size

abbrev pub blocks_or_default : ℕ → ℕ
blocks_or_default blocks = if blocks == 0 then 512 else blocks

-- The allocator that `ba_init` leaves. The fields that it does not set (`h.used`, `h.flags`,
-- `hf`) keep what they held.
unfoldable pub initial : Allocator → ℕ → ℕ → Allocator
initial a block_size blocks =
    let l =
      ba_align_layout (ba_init_layout (at_least_pointer block_size) (blocks_or_default blocks)) in
    record {
      l = l;
      h = record { first = null; used = a.h.used; flags = a.h.flags };
      alloc = null;
      last_free = null;
      hf = a.hf;
      pages = null ∷ null ∷ null ∷ [];
      htable = replicate ba_alloc_initial null;
      magnitude = magnitude l;
      empty_pages = 0;
      max_empty_pages = ba_max_empty;
      allocated = ba_alloc_initial;
      num_pages = 0;
    }

-- `none` is the call of `ba_error`, which does not return.
unfoldable pub ba_init : Allocator → ℕ → ℕ → Option Allocator
unfolding initial
ba_init a block_size blocks = if block_size == 0 then none else some (initial a block_size blocks)

-- `BA_INIT`, the initializer of a variable: the layout and the table are not made yet.
unfoldable pub ba_static : ℕ → ℕ → Allocator
ba_static block_size blocks = record {
  l = record { offset = 0; block_size = block_size; blocks = blocks };
  h = record { first = null; used = 0; flags = 0 };
  alloc = null;
  last_free = null;
  hf = record { first = null; used = 0; flags = 0 };
  pages = null ∷ null ∷ null ∷ [];
  htable = [];
  magnitude = 0;
  empty_pages = 0;
  max_empty_pages = ba_max_empty;
  allocated = 0;
  num_pages = 0;
}

-- `BA_INIT_PAGES`: as many blocks as a page of `page_size` bytes has room for, in 32 bits.
unfoldable pub ba_static_pages : ℕ → ℕ → Allocator
ba_static_pages block_size page_size =
    ba_static block_size (u32 (sub64 (sub64 page_size sizeof_page) malloc_overhead / block_size))

-- An allocator ready for its first block: an aligned layout with blocks that can hold a
-- pointer, the magnitude of its pages, and a table with no page.
pub record IsReady (a : Allocator) (m : Memory) (block_size blocks : ℕ) : Type 0 where
  pub aligned : IsAligned a.magnitude a.l
  pub block_size_is : a.l.block_size ≡ at_least_pointer block_size
  pub enough : blocks ≤ a.l.blocks
  pub table : IsTable a m (λ n. [])
  pub no_page : (a.alloc ≡ null) × (a.last_free ≡ null) × (a.num_pages ≡ 0) × (a.empty_pages ≡ 0)

-- For a block size other than 0 and sizes that do not overflow, `ba_init` succeeds and makes
-- the allocator ready, with at least as many blocks to a page as were asked for.
pub ba_init-IsReady :
    (a : Allocator) (m : Memory) (s n : ℕ)
    → s ≢ 0
    → IsSmall (at_least_pointer s) (blocks_or_default n)
    → (a' : Allocator) × (ba_init a s n ≡ some a') × IsReady a' m s n
unfolding ba_init
ba_init-IsReady a m s n ne small =
    let (k, aligned, size_is, enough) =
      ba_align_layout-IsAligned (at_least_pointer s) (blocks_or_default n) small in
    (
      initial a s n,
      rw (ne→== s 0 ne) refl,
      record {
        aligned = rw (magnitude_lem k _ aligned) aligned;
        block_size_is = size_is;
        enough = ground arith;
        table = IsTable-empty (initial a s n) m refl (omega arith) (omega arith);
        no_page = (refl, refl, refl, refl);
      },
    )
