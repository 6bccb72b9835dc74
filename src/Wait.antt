-- ===== src/Wait.antt =====
-- kernel/exit.c: waiting for a child, and what an exit tells the others. A `task_struct *` is the
-- number of its slot. A call is cut at `schedule`.
pub mod Children
pub mod Laws
mod Tests
use Prim.Native.Nat.{bit_and, bit_or}
use mathlib.Core.Option
use hit_os.Common.{
  ℕ, zero, suc, ◌+◌, ◌/◌, ◌%◌, ◌^◌, Bool, true, false, not, ◌||◌, ◌&&◌, Option, none, some, Outcome,
  ok, panic, leb, ltb, ◌==◌, if◌then◌else◌, update, for_down, rewrite_at,
}
use hit_os.Common.Int.{ℤ, pos, negsuc, ◌+ℤ◌, ◌-ℤ◌, ltz, eqz, is_zero, wrap32}
use hit_os.Common.Words.{not32}
use hit_os.Task.{Task, TaskState, running, interruptible, uninterruptible, zombie, stopped}
use hit_os.Sched.{Table, modify_at, set_state}

abbrev pub echild : ℤ
echild = negsuc 9

abbrev pub eintr : ℤ
eintr = negsuc 3

-- 1<<(SIGCHLD-1)
abbrev pub sigchld_bit : ℕ
sigchld_bit = 2 ^ 16

abbrev pub has_nohang : ℕ → Bool
has_nohang options = options % 2 == 1

abbrev pub has_untraced : ℕ → Bool
has_untraced options = options / 2 % 2 == 1

-- `release`, also for a NULL pointer. The page of the slot is freed, and `schedule` called, by the one
-- who calls it.
unfoldable pub release : Option ℕ → Table → Outcome Table
release none task = ok task
release (some i) task = if (i == 0) || ltb 63 i then panic else ok (update task i none)

-- The tests for `pid`; `cur` is the current task.
unfoldable pub is_waited : (pid : ℤ) (cur t : Task) → Bool
unfolding ◌-ℤ◌ wrap32
is_waited pid cur t =
    if ltz (pos 0) pid
    then eqz t.pid pid
    else if is_zero pid
    then eqz t.pgrp cur.pgrp
    else if eqz pid (negsuc 0)
    then true
    else eqz t.pgrp (wrap32 (pos 0 -ℤ pid))

-- What the loop does at a slot: it goes on; it sets `flag` and goes on; it returns for a child that is
-- stopped, or for a zombie.
pub data Look : Type 0 where
  passes lives stops dies : Look

abbrev pub look_state : (untraced : Bool) → TaskState → Look
look_state untraced stopped = if untraced then stops else passes
look_state untraced zombie = dies
look_state untraced running = lives
look_state untraced interruptible = lives
look_state untraced uninterruptible = lives

unfoldable pub look_slot :
    (pid : ℤ) (untraced : Bool) (me : ℕ) (cur : Task) (i : ℕ) → Option Task → Look
unfolding is_waited
look_slot pid untraced me cur i none = passes
look_slot pid untraced me cur i (some t) =
    if (i == me) || not (eqz t.father cur.pid) || not (is_waited pid cur t)
    then passes
    else look_state untraced t.state

unfoldable pub look : (pid : ℤ) (untraced : Bool) (me : ℕ) (cur : Task) (task : Table) → ℕ → Look
unfolding look_slot
look pid untraced me cur task i = look_slot pid untraced me cur i (task i)

pub data Found : Type 0 where
  stopped_at zombie_at : ℕ → Found
  no_one : (flag : Bool) → Found

abbrev pub raise : Look → Bool → Bool
raise lives flag = true
raise passes flag = flag
raise stops flag = flag
raise dies flag = flag

abbrev pub settle : ℕ → Look → Found → Found
settle i stops rest = stopped_at i
settle i dies rest = zombie_at i
settle i passes rest = rest
settle i lives rest = rest

-- The loop over the slots `n` to 1.
unfoldable pub scan : (n : ℕ) (flag : Bool) → (ℕ → Look) → Found
scan zero flag view = no_one flag
scan (suc n) flag view = settle (suc n) (view (suc n)) (scan n (raise (view (suc n)) flag) view)

-- How a round ends. `stat` is what is put at `stat_addr`. `reaps` is the call of `schedule` in
-- `release`: the page of slot `i` has been freed, and then the call puts `code` and returns `pid`.
pub data Waited : Type 0 where
  returns : (value : ℤ) (stat : Option ℤ) → Table → Waited
  reaps : (i : ℕ) (pid code : ℤ) → Table → Waited
  sleeps : Table → Waited
  faults : Waited

unfoldable pub add_times : Task → Task → Task
unfolding ◌+ℤ◌ wrap32
add_times t cur = record cur {
  cutime = wrap32 (cur.cutime +ℤ t.utime);
  cstime = wrap32 (cur.cstime +ℤ t.stime);
}

unfoldable pub reap : (me i : ℕ) → Option Task → Table → Waited
unfolding add_times release
reap me i none task = faults
reap me i (some t) task = elim (release (some i) (modify_at me (add_times t) task)) [
  | ok task' ↦ reaps i t.pid t.exit_code task'
  | _ ↦ faults
]

abbrev pub report : Option Task → Table → Waited
report none task = faults
report (some t) task = returns t.pid (some (pos 0x7f)) task

unfoldable pub use_found : (options me : ℕ) → Found → Table → Waited
unfolding reap
use_found options me (stopped_at i) task = report (task i) task
use_found options me (zombie_at i) task = reap me i (task i) task
use_found options me (no_one true) task =
    if has_nohang options
    then returns (pos 0) none task
    else sleeps (modify_at me (set_state interruptible) task)
use_found options me (no_one false) task = returns echild none task

-- `sys_waitpid` from the label `repeat` on; `cur` is the current task, in slot `me`.
unfoldable pub sys_waitpid : (pid : ℤ) (options me : ℕ) (cur : Task) → Table → Waited
unfolding look scan use_found
sys_waitpid pid options me cur task =
    use_found options me (scan 63 false (look pid (has_untraced options) me cur task)) task

-- When a sleeping call runs again: nothing, to repeat the round, or what it returns.
unfoldable pub waitpid_resume : (me : ℕ) (cur : Task) → Table → Option ℤ × Table
waitpid_resume me cur task =
    let signal = bit_and cur.signal (not32 sigchld_bit) in
    (
      if signal == 0 then none else some eintr,
      modify_at me (λ t. record t { signal = signal }) task,
    )

-- `kill_session` sends SIGHUP.
unfoldable pub kill_session : (cur : Task) → Table → Table
unfolding for_down
kill_session cur task =
    for_down 63
      (rewrite_at (
        Option.map
          (λ t. if eqz t.session cur.session then record t { signal = bit_or t.signal 1 } else t)))
      task

-- The slot of the process, of `n` slots from slot `i` on.
unfoldable pub find_pid : (n i : ℕ) (pid : ℤ) → Table → Option ℕ
find_pid zero i pid task = none
find_pid (suc n) i pid task =
    let rest = find_pid n (i + 1) pid task in
    elim (task i) [ none ↦ rest | some t ↦ if eqz t.pid pid then some i else rest ]

-- `tell_father` of the current task, in slot `me`. Without a father it is released.
unfoldable pub tell_father : (pid : ℤ) (me : ℕ) → Table → Outcome Table
unfolding find_pid release
tell_father pid me task = elim (if is_zero pid then none else find_pid 64 0 pid task) [
  | some i ↦ ok (modify_at i (λ t. record t { signal = bit_or t.signal sigchld_bit }) task)
  | none ↦ release (some me) task
]
