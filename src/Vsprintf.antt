-- ===== src/Vsprintf.antt =====
-- kernel/vsprintf.c: formatted output.
mod Number
mod Format
pub mod Digits
pub mod Width
pub mod Texts
mod Tests
unfoldable pub use Number.*
unfoldable pub use Format.*
