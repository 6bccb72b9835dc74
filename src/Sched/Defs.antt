-- ===== src/Sched/Defs.antt =====
-- kernel/sched.c, line by line. A `task_struct *` is the number of its slot in `task[]`; the loops
-- `for (p = &LAST_TASK; p > &FIRST_TASK; --p)` run over the slots 63 to 1.
use Prim.Native.Nat.{bit_or}
use mathlib.Core.Option
use hit_os.Common.{
  ℕ, zero, suc, not, ◌&&◌, Option, none, some, ◌==◌, if◌then◌else◌, for_down, rewrite_at, ◌⊎◌, inl,
  inr, Outcome, ok, panic,
}
use hit_os.Common.Int.{ℤ, pos, negsuc, ◌+ℤ◌, ◌-ℤ◌, ltz, is_zero, shr1, wrap32, scale, quotient}
use hit_os.Task.{
  Task, TaskState, running, interruptible, uninterruptible, is_running, is_interruptible,
  sigalrm_bit, deliverable,
}

-- `task[NR_TASKS]`
abbrev pub Table : Type 0
Table = ℕ → Option Task

abbrev pub last_task : ℕ
last_task = 63

pub record Kernel : Type 0 where
  pub task : Table
  pub current : ℕ
  pub jiffies : ℤ

-- The alarm clock: a passed alarm becomes SIGALRM.
unfoldable pub check_alarm : ℤ → Task → Task
check_alarm jiffies t =
    if not (is_zero t.alarm) && ltz t.alarm jiffies
    then record t { signal = bit_or t.signal sigalrm_bit; alarm = pos 0 }
    else t

-- An interruptible sleeper with a signal that is not blocked is made runnable.
unfoldable pub check_signal : Task → Task
check_signal t =
    if not (deliverable t == 0) && is_interruptible t.state then record t { state = running } else t

abbrev pub wake_signalled : ℤ → Option Task → Option Task
wake_signalled jiffies = Option.map (λ t. check_signal (check_alarm jiffies t))

-- counter = (counter >> 1) + priority
unfoldable pub recharge : Task → Task
unfolding shr1 ◌+ℤ◌ wrap32
recharge t = record t { counter = wrap32 (shr1 t.counter +ℤ t.priority) }

-- One round of the search for the largest counter: `c` and `next` so far, at slot `i`.
unfoldable pub consider : Table → ℕ → ℤ × ℕ → ℤ × ℕ
consider task i (c, next) = elim (task i) [
  | none ↦ (c, next)
  | some t ↦ if is_running t.state && ltz c t.counter then (t.counter, i) else (c, next)
]

unfoldable pub pick : Table → ℤ × ℕ
unfolding for_down consider
pick task = for_down last_task (consider task) (negsuc 0, 0)

unfoldable pub recharge_all : Table → Table
unfolding for_down recharge
recharge_all task = for_down last_task (rewrite_at (Option.map recharge)) task

-- `while (1)` of `schedule`, on fuel: the task that is chosen, and the table with its counters.
unfoldable pub choose : ℕ → Table → Option (ℕ × Table)
unfolding pick recharge_all
choose zero task = none
choose (suc fuel) task =
    let again = choose fuel (recharge_all task) in
    let (c, next) = pick task in if is_zero c then again else some (next, task)

-- `schedule`; `switch_to(next)` makes `next` the current task.
unfoldable pub schedule : ℕ → Kernel → Option Kernel
unfolding for_down check_alarm check_signal choose
schedule fuel k =
    Option.map (λ (next, task). record k { task = task; current = next })
      (choose fuel (for_down last_task (rewrite_at (wake_signalled k.jiffies)) k.task))

-- A change of the structure that `current` points to.
abbrev pub modify_at : ℕ → (Task → Task) → Table → Table
modify_at i f = rewrite_at (Option.map f) i

abbrev pub modify_current : (Task → Task) → Kernel → Kernel
modify_current f k = record k { task = modify_at k.current f k.task }

abbrev pub set_state : TaskState → Task → Task
set_state s t = record t { state = s }

-- A wait queue is a `struct task_struct *`: the slot of the last sleeper, if any. The routines take
-- its address, which may be NULL.
abbrev pub WaitQueue : Type 0
WaitQueue = Option ℕ

abbrev pub wake_task : WaitQueue → Kernel → Kernel
wake_task none k = k
wake_task (some i) k = record k { task = modify_at i (set_state running) k.task }

-- What `sleep_on` has done when it calls `schedule`: it has returned at once, or `tmp` lies on the
-- stack of the sleeping task and `queue` is the new `*p`.
pub data SleepCall : Type 0 where
  returned : SleepCall
  asleep : Kernel → (queue tmp : WaitQueue) → SleepCall

unfoldable pub fall_asleep : TaskState → Option WaitQueue → Kernel → Outcome SleepCall
fall_asleep s none k = ok returned
fall_asleep s (some q) k =
    if k.current == 0
    then panic
    else ok (asleep (modify_current (set_state s) k) (some k.current) q)

unfoldable pub sleep_on : Option WaitQueue → Kernel → Outcome SleepCall
unfolding fall_asleep
sleep_on = fall_asleep uninterruptible

-- The rest of `sleep_on`, when the task runs again.
unfoldable pub sleep_on_resume : (tmp : WaitQueue) → Kernel → Kernel
sleep_on_resume tmp k = wake_task tmp k

unfoldable pub interruptible_sleep_on : Option WaitQueue → Kernel → Outcome SleepCall
unfolding fall_asleep
interruptible_sleep_on = fall_asleep interruptible

-- The rest of `interruptible_sleep_on`: another sleeper has come later, so it is woken and this task
-- sleeps on (`inl`); or the queue is emptied and the sleeper before this one is woken.
unfoldable pub interruptible_sleep_on_resume :
    (queue tmp : WaitQueue) → Kernel → Kernel ⊎ (Kernel × WaitQueue)
interruptible_sleep_on_resume none tmp k = inr (wake_task tmp k, none)
interruptible_sleep_on_resume (some i) tmp k =
    if not (i == k.current)
    then inl (modify_current (set_state interruptible) (wake_task (some i) k))
    else inr (wake_task tmp k, none)

unfoldable pub wake_up : Option WaitQueue → Kernel → Kernel × Option WaitQueue
wake_up none k = (k, none)
wake_up (some none) k = (k, some none)
wake_up (some (some i)) k = (wake_task (some i) k, some none)

-- `sys_pause`, up to its return after `schedule`
unfoldable pub sys_pause : ℕ → Kernel → Option Kernel
unfolding schedule
sys_pause fuel k = schedule fuel (modify_current (set_state interruptible) k)

abbrev pub hz : ℕ
hz = 100

-- The new alarm, and the seconds that were left of the old one.
unfoldable pub set_alarm : (jiffies seconds : ℤ) → Task → Task
unfolding wrap32 ◌+ℤ◌ scale
set_alarm jiffies seconds t = record t {
  alarm = if ltz (pos 0) seconds then wrap32 (jiffies +ℤ scale hz seconds) else pos 0;
}

unfoldable pub alarm_left : (jiffies : ℤ) → Task → ℤ
unfolding wrap32 ◌-ℤ◌ quotient
alarm_left jiffies t =
    if is_zero t.alarm then t.alarm else quotient (wrap32 (t.alarm -ℤ jiffies)) hz

-- A system call on the current task returns `none` only if `current` points to no task.
unfoldable pub sys_alarm : ℤ → Kernel → Option (ℤ × Kernel)
unfolding set_alarm alarm_left
sys_alarm seconds k =
    Option.map (λ t. (alarm_left k.jiffies t, modify_current (set_alarm k.jiffies seconds) k))
      (k.task k.current)

unfoldable pub renice : ℤ → Task → Task
unfolding wrap32 ◌-ℤ◌
renice increment t =
    let p = wrap32 (t.priority -ℤ increment) in
    if ltz (pos 0) p then record t { priority = p } else t

unfoldable pub sys_nice : ℤ → Kernel → ℤ × Kernel
unfolding renice
sys_nice increment k = (pos 0, modify_current (renice increment) k)

unfoldable pub sys_getpid : Kernel → Option ℤ
sys_getpid k = Option.map (λ t. t.pid) (k.task k.current)

unfoldable pub sys_getppid : Kernel → Option ℤ
sys_getppid k = Option.map (λ t. t.father) (k.task k.current)

unfoldable pub sys_getuid : Kernel → Option ℕ
sys_getuid k = Option.map (λ t. t.uid) (k.task k.current)

unfoldable pub sys_geteuid : Kernel → Option ℕ
sys_geteuid k = Option.map (λ t. t.euid) (k.task k.current)

unfoldable pub sys_getgid : Kernel → Option ℕ
sys_getgid k = Option.map (λ t. t.gid) (k.task k.current)

unfoldable pub sys_getegid : Kernel → Option ℕ
sys_getegid k = Option.map (λ t. t.egid) (k.task k.current)
