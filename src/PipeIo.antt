-- ===== src/PipeIo.antt =====
-- fs/pipe.c: reading and writing pipes.
mod Defs
pub mod Window
pub mod Rounds
pub mod Read
pub mod Write
pub mod Steps
mod Tests
unfoldable pub use Defs.*
