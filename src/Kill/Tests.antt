-- ===== src/Kill/Tests.antt =====
-- kernel/exit.c, `sys_kill`: three processes in slots 0 to 2.
use hit_os.Common.{ℕ, ◌^◌, for_down, ◌≡◌, ◌≢◌, refl, Option, none, some, update, arith}
use hit_os.Common.Int.{pos, negsuc}
use hit_os.Task.{Task, running}
use hit_os.Kill.{sys_kill}
use hit_os.Kill.Laws.{sys_kill-empty}

abbrev process : ℕ → ℕ → Task
process pid uid = record {
  state = running;
  counter = pos 15;
  priority = pos 15;
  signal = 0;
  blocked = 0;
  exit_code = pos 0;
  pid = pos pid;
  father = pos 1;
  pgrp = pos pid;
  session = pos 1;
  leader = pos 0;
  uid = uid;
  euid = uid;
  suid = uid;
  gid = 5;
  egid = 5;
  sgid = 5;
  alarm = pos 0;
  utime = pos 0;
  stime = pos 0;
  cutime = pos 0;
  cstime = pos 0;
  used_math = 0;
  tty = pos 0;
  umask = 18;
}

abbrev table : ℕ → Option Task
table =
    update (update (update (λ _. none) 0 (some (process 0 0))) 1 (some (process 1 0))) 2
      (some (process 8 3))

kill_self :
    ((sys_kill (pos 8) (pos 15) (process 8 3) table).0 ≡ pos 0)
    × ((sys_kill (pos 8) (pos 15) (process 8 3) table).1 2
        ≡ some (record (process 8 3) { signal = 2 ^ 14 }))
unfolding sys_kill for_down
kill_self = (refl, refl)

sys_kill-empty_example : (sys_kill (negsuc 0) (pos 15) (process 1 0) table).0 ≢ pos 0
sys_kill-empty_example =
    sys_kill-empty (pos 15) (process 1 0) table 3 (omega arith) (omega arith) refl
