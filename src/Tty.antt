-- ===== src/Tty.antt =====
-- kernel/chr_drv/tty_io.c: the terminals' line discipline and their output.
mod Defs
pub mod Line
pub mod Discipline
pub mod Output
mod Tests
unfoldable pub use Defs.*
