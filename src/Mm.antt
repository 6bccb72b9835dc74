-- ===== src/Mm.antt =====
-- mm/memory.c: physical pages and page tables.
mod Defs
pub mod Pages
pub mod Cow
pub mod Exit
mod Tests
pub mod Fork
pub mod Refs
unfoldable pub use Defs.*
