-- ===== src/Requests.antt =====
-- kernel/blk_drv/ll_rw_blk.c, and `end_request` of kernel/blk_drv/blk.h.
mod Defs
pub mod Elevator
pub mod Entries
pub mod Order
mod Tests
unfoldable pub use Defs.*
