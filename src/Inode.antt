-- ===== src/Inode.antt =====
-- fs/inode.c and fs/truncate.c: the blocks of a file.
mod Defs
pub mod Bmap
pub mod Step
pub mod Words
pub mod Create
mod Tests
unfoldable pub use Defs.*
