-- ===== src/Fork/Tests.antt =====
-- kernel/fork.c, `find_empty_process`: two processes, and a last pid just before them.
use hit_os.Common.{ℕ, ◌≡◌, refl, Option, none, some, update, arith}
use hit_os.Common.Int.{pos}
use hit_os.Task.{Task, TaskState, running}
use hit_os.Sched.{Table}
use hit_os.Fork.{find_empty_process}
use hit_os.Fork.Pid.{IsEmptyProcess, find_empty_process-ends}

abbrev process : ℕ → TaskState → Task
process pid state = record {
  state = state;
  counter = pos 15;
  priority = pos 15;
  signal = 0;
  blocked = 0;
  exit_code = pos 0;
  pid = pos pid;
  father = pos 1;
  pgrp = pos pid;
  session = pos 1;
  leader = pos 0;
  uid = 0;
  euid = 0;
  suid = 0;
  gid = 5;
  egid = 5;
  sgid = 5;
  alarm = pos 0;
  utime = pos 0;
  stime = pos 0;
  cutime = pos 0;
  cstime = pos 0;
  used_math = 0;
  tty = pos 0;
  umask = 18;
}

abbrev table : Table
table = update (update (λ _. none) 0 (some (process 0 running))) 1 (some (process 8 running))

passes_taken : find_empty_process 130 7 table ≡ some (9, some 2)
unfolding find_empty_process
passes_taken = refl

find_empty_process-ends_example :
    (pid : ℕ) × (slot : Option ℕ) × (find_empty_process 130 7 table ≡ some (pid, slot))
    × IsEmptyProcess table pid slot
find_empty_process-ends_example = find_empty_process-ends table 130 7 (omega arith) (omega arith)
