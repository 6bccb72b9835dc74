-- ===== src/Files.antt =====
-- The descriptors of a process and the table of open files: fs/fcntl.c, fs/pipe.c (`sys_pipe`) and
-- fs/open.c (`sys_close`).
mod Defs
mod Uses
pub mod Counts
pub mod Dup
mod PipeFails
mod PipeSteps
pub mod Pipe
mod Tests
unfoldable pub use Defs.*
