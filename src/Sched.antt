-- ===== src/Sched.antt =====
-- kernel/sched.c: the scheduler, the wait queues and the system calls on the current task.
mod Defs
mod Pick
mod Rounds
pub mod Sleep
pub mod Laws
mod Tests
unfoldable pub use Defs.*
