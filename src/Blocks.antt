-- ===== src/Blocks.antt =====
-- fs/bitmap.c: the blocks and inodes of a file system, and their bitmaps.
mod Defs
pub mod Search
pub mod Zones
pub mod Free
pub mod Inodes
mod Tests
unfoldable pub use Defs.*
