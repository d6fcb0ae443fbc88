-- ===== src/Global.antt =====
-- The allocator of src/gjalloc.c that the whole program shares: its pages stand in three lists
-- by how full they are, and the page it allocates from and the full pages in none.
pub mod Slot
pub mod Update
pub mod Get
pub mod Blocks
pub mod Whole
pub mod Count
pub mod Check
pub mod Paged
pub mod Walk
pub mod Defragment
