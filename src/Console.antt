-- ===== src/Console.antt =====
-- kernel/chr_drv/console.c: the console's screen and its escape sequences.
mod Defs
mod Write
mod Edit
mod Safe
mod Chars
pub mod Stays
pub mod Scroll
mod Tests
unfoldable pub use Defs.*
unfoldable pub use Write.*
