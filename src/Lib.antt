-- ===== src/Lib.antt =====
-- GJAlloc: the fixed-size block allocators of src/gjalloc.c and src/gjalloc.h.
--
-- An allocator hands out blocks of one size from pages. A page is a header (`struct ba_page`)
-- and an array of blocks; its free blocks form a list through their first words. A hash table
-- over addresses finds the page of a block that is freed. Files and what they model:
--
-- - Layout - `struct ba_layout`, `ba_init_layout`, `ba_align_layout`, `round_up32`; Layout/RoundUp,
--   Layout/PowerOfTwo and Layout/Align hold the proofs.
-- - Bitvector - `struct bitvector`, `bv_byte_length`, `bv_set`, `bv_get`, `bv_ctz`; the files below
--   it say what they do to the digits of the words.
-- - Memory - the words of the blocks and the page headers by address, with a state monad in which
--   an access to memory that is not there is a fault.
-- - Page - `ba_shift`, `ba_unshift`, `ba_empty`, `ba_free_page`; Page/FreeList says what a free
--   list is, Page/Shift and Page/Unshift hold the proofs.
-- - System - `ba_xalloc`, `ba_xrealloc`, `ba_check_belongs`.
-- - Allocator - `struct block_allocator`; Allocator/Init holds `ba_init` and the initializers `BA_INIT`
--   and `BA_INIT_PAGES`.
-- - Htable - `hash1`, `hash2`, `ba_htable_insert`, `ba_htable_delete`, `ba_htable_lookup`;
--   Htable/Linear - `ba_htable_linear_lookup`. Htable/Resize - `ba_htable_grow` and
--   `ba_htable_shrink`; below it Mask is about the hash with twice as many buckets, Split, Link, Stands
--   and Move are about one bucket, Halfway, Buckets and Table about the whole of growing, Append,
--   Merge and Shrunk about shrinking; Htable/Total counts the pages of a table. Htable/Chain says
--   what a table is; Htable/Hash, Htable/Insert, Htable/Unlink, Htable/Delete and Htable/Lookup hold
--   proofs.
-- - Links - `DOUBLE_LINK`, `DOUBLE_UNLINK`, `DOUBLE_SHIFT`; Links/Linked says what a list is,
--   Links/Unlinked is about `DOUBLE_UNLINK`.
-- - Page/Sort - `ba_sort_list`, `ba_sort`: Page/Sort/Mark, Page/Sort/Trim and Page/Sort/Chain are
--   about its three loops, Page/Sort/Sorted about the whole. Page/Overrun is about pages of one
--   block.
-- - Page/Walk - `BA_WALK_CHUNKS`, `ba_walk_page`; Page/Walk/Chunks says what has to be visited,
--   Page/Walk/Visits proves it. Page/Merge - `ba_merge_pages`. Page/Grow - `ba_grow_page`.
-- - Global - the allocator that all share: Global/Slot (`ba_get_slot`), Global/Update
--   (`ba_update_slot`, `ba_remove_page`), Global/Get (`ba_global_get_page`,
--   `ba_get_free_page`), Global/Blocks (`ba_alloc`, `ba_free`), Global/Whole (`ba_count`,
--   `ba_free_all`, `ba_destroy`), Global/Walk (`ba_walk`), Global/Defragment (`ba_shrink`,
--   `ba_defragment`), Global/Check (`ba_check_allocator`, `ba_print_hashstats`);
--   Global/Blocks/First, Global/Blocks/Static, Global/Blocks/Trip, Global/Count and
--   Global/Check/Sound hold proofs. Global/Paged says what the page table of an allocator is, and
--   Global/Paged/Room and Global/Paged/Alloc are about `ba_alloc_page`, Global/Paged/Highest,
--   Global/Paged/Fewer and Global/Paged/Remove about `ba_remove_page`, Global/Paged/Commands and
--   Global/Paged/Keeps about `ba_update_slot`, Global/Paged/Runs about any sequence of them.
-- - Local - `struct ba_local`: Local/Grow (`ba_local_grow`, `ba_lreserve`), Local/Blocks (`ba_lalloc`,
--   `ba_lfree`), Local/Whole (what runs over all blocks), Local/Reserve (about the loop of
--   `ba_lreserve`). Behind it stands a global allocator.
-- - Log - `struct ba_log`, `ba_log_alloc`, `ba_log_free`; Log/Sizes is about the sizes of the pages.
-- - Temporary, Doubling - `struct ba_temporary`, `struct ba_doubling` and their operations;
--   Doubling/Reserve holds `ba_dreserve`.
-- - Spec - an abstract pool of blocks, with steps for a request. Doubling/Client and
--   Doubling/Progress are about clients of a doubling allocator, which are runs of the pool.
-- - Fill - `cmemset`.
-- - Base - shared names, lists and the digits of numbers. Tests: runs on small inputs.
-- - Singleton - `GJAlloc_Singleton` and `GJAlloc` of src/gjalloc.hh. SmartPointer - src/smartpointer.hh.
--   Singleton/Balance, SmartPointer/Owners and SmartPointer/Assign hold the proofs.
--
-- Numbers of C are native natural numbers; `uint32_t`, `size_t` and `uintptr_t` arithmetic wraps
-- where the code can leave the type. Pointers are addresses of 64 bits, NULL is 0. The release
-- build is modelled, with the functions of the debug build that compute something
-- (`ba_check_allocator`, `ba_check_belongs`) beside it; BV_LENGTH is 32 since no build file defines
-- SIZEOF_LONG.
--
-- `malloc`, `realloc`, `free` and the callbacks are parameters, commands on the memory. Where the code
-- calls `ba_xalloc` or `ba_xrealloc` the parameter stands for that function, with the test for NULL
-- done, so NULL is never its result.
--
-- Walks along a hash chain take fuel, one unit more than `num_pages`; a chain of the table has at
-- most `num_pages` pages, so the fuel is enough. The other walks along pages and the loops of
-- `ba_sort_list` take fuel in the same way, one unit more than there are pages or blocks. The walk
-- of `ba_remove_page` takes a unit for each empty page, which are those of its list. The loops of
-- `BA_WALK_CHUNKS`, `ba_merge_pages` and `ba_grow_page` take one unit more than there are blocks.
-- The loop of `ba_lreserve` takes 33 units, more than a 32-bit number can be doubled. The loop of
-- `cmemset` takes one unit for each copy, and one more. All other loops recur on the list they
-- walk.
--
-- Not modelled: constructors and destructors of user types in the C++ headers, which run code of
-- the client; tests and benchmarks, which are drivers; what the debug functions print, the counters
-- of BA_STATS and BA_MEMTRACE and the calls of Valgrind, which change no state of the allocators.
pub mod Base
pub mod Layout
pub mod Bitvector
pub mod Memory
pub mod Page
pub mod Allocator
pub mod Htable
pub mod Spec
pub mod System
pub mod Singleton
pub mod SmartPointer
pub mod Links
pub mod Global
pub mod Local
pub mod Log
pub mod Temporary
pub mod Doubling
pub mod Fill
mod Tests
