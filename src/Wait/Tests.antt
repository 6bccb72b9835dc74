-- ===== src/Wait/Tests.antt =====
-- kernel/exit.c, `sys_waitpid`: a father in slot 1, with a child that runs and one that has ended.
use hit_os.Common.{ℕ, ◌≡◌, refl, none, some, update}
use hit_os.Common.Int.{pos, negsuc}
use hit_os.Task.{Task, TaskState, running, zombie}
use hit_os.Sched.{Table, modify_at}
use hit_os.Wait.{reaps, returns, echild, add_times, sys_waitpid}

abbrev process : ℕ → TaskState → Task
process pid state = record {
  state = state;
  counter = pos 15;
  priority = pos 15;
  signal = 0;
  blocked = 0;
  exit_code = pos 0;
  pid = pos pid;
  father = pos 1;
  pgrp = pos pid;
  session = pos 1;
  leader = pos 0;
  uid = 0;
  euid = 0;
  suid = 0;
  gid = 5;
  egid = 5;
  sgid = 5;
  alarm = pos 0;
  utime = pos 0;
  stime = pos 0;
  cutime = pos 0;
  cstime = pos 0;
  used_math = 0;
  tty = pos 0;
  umask = 18;
}

abbrev table : Table
table =
    update (update (update (λ _. none) 1 (some (process 1 running))) 2 (some (process 8 zombie))) 3
      (some (process 9 running))

finds_zombie :
    sys_waitpid (negsuc 0) 0 1 (process 1 running) table
    ≡ reaps 2 (pos 8) (pos 0) (update (modify_at 1 (add_times (process 8 zombie)) table) 2 none)
unfolding sys_waitpid
finds_zombie = refl

no_such_child : sys_waitpid (pos 7) 0 1 (process 1 running) table ≡ returns echild none table
unfolding sys_waitpid
no_such_child = refl
