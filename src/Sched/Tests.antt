-- ===== src/Sched/Tests.antt =====
-- kernel/sched.c at small task tables.
use mathlib.Core.Option
use hit_os.Common.{ℕ, ◌≡◌, refl, Option, none, some, arith, update}
use hit_os.Common.Int.{ℤ, pos, negsuc}
use hit_os.Task.{Task, TaskState, running, interruptible, uninterruptible}
use hit_os.Sched.Defs.{Kernel, Table, schedule, sleep_on, modify_at, set_state}
use hit_os.Sched.Rounds.{AllTasks, IsSound}
use hit_os.Sched.Laws.{IsChosen, IsLooked, schedule-IsChosen, schedule-IsLooked}
use hit_os.Sched.Sleep.{Waiting, Steps, here, next, sleeps, WillWake, Steps-NoneLost}

abbrev task_of : TaskState → ℕ → ℕ → Task
task_of s counter priority = record {
  state = s;
  counter = pos counter;
  priority = pos priority;
  signal = 0;
  blocked = 0;
  exit_code = pos 0;
  pid = pos 1;
  father = pos 0;
  pgrp = pos 0;
  session = pos 0;
  leader = pos 0;
  uid = 0;
  euid = 0;
  suid = 0;
  gid = 0;
  egid = 0;
  sgid = 0;
  alarm = pos 0;
  utime = pos 0;
  stime = pos 0;
  cutime = pos 0;
  cstime = pos 0;
  used_math = 0;
  tty = negsuc 0;
  umask = 18;
}

-- Task 1 sleeps, with SIGALRM due; task 2 has used up its time.
abbrev table : Table
table =
    update
      (update (update (λ _. none) 0 (some (task_of running 15 15))) 1
        (some (record (task_of interruptible 4 15) { alarm = pos 7 })))
      2 (some (task_of running 0 15))

abbrev kernel : Kernel
kernel = record { task = table; current = 2; jiffies = pos 8 }

-- Task 1 is woken by its alarm and has time left.
schedule-kernel : Option.map (λ (k : Kernel). k.current) (schedule 2 kernel) ≡ some 1
unfolding schedule
schedule-kernel = refl

-- With nobody left to run but task 2, all counters are recharged.
schedule-recharge :
    Option.map {B = ℕ × Option ℤ}
      (λ (k : Kernel). (k.current, Option.map (λ (t : Task). t.counter) (k.task 2)))
      (schedule 2 (record kernel { jiffies = pos 7 }))
    ≡ some (2, some (pos 15))
unfolding schedule
schedule-recharge = refl

kernel-IsSound : AllTasks IsSound table
kernel-IsSound i t e = ground arith

schedule-IsChosen_example :
    (k : Kernel) × (schedule 2 kernel ≡ some k)
    × IsChosen k.task k.current
    × AllTasks IsSound k.task
schedule-IsChosen_example = schedule-IsChosen 0 kernel kernel-IsSound

abbrev scheduled : Kernel
unfolding schedule
scheduled = elim (schedule 2 kernel) [ none ↦ kernel | some k ↦ k ]

schedule-IsLooked_example :
    (t : Task) × (scheduled.task 1 ≡ some t)
    × IsLooked (pos 8) (record (task_of interruptible 4 15) { alarm = pos 7 }) t
unfolding schedule
schedule-IsLooked_example =
    schedule-IsLooked 2 kernel scheduled 1 (record (task_of interruptible 4 15) { alarm = pos 7 })
      refl (omega arith) (omega arith) refl

abbrev nobody : Waiting
nobody = record { kernel = kernel; queue = none; frame = λ _. none }

abbrev sleeping : Kernel
sleeping = record kernel { task = modify_at 2 (set_state uninterruptible) table }

abbrev one_asleep : Waiting
one_asleep = record { kernel = sleeping; queue = some 2; frame = update (λ _. none) 2 (some none) }

one_asleep-Steps : Steps nobody one_asleep
unfolding sleep_on
one_asleep-Steps =
    next here (sleeps sleeping (some 2) none (task_of running 0 15) refl (omega arith) refl refl)

Steps-NoneLost_example : WillWake one_asleep 2
Steps-NoneLost_example = Steps-NoneLost nobody one_asleep (λ i. refl) one_asleep-Steps 2 none refl
