-- ===== src/Fork.antt =====
-- kernel/fork.c, `find_empty_process`: a new pid and a free slot. `last_pid` is not negative: the count
-- that runs over comes back as 1.
pub mod Pid
mod Tests
use hit_os.Common.{
  ℕ, zero, suc, ◌+◌, ◌^◌, Bool, true, false, ◌||◌, Option, none, some, leb, if◌then◌else◌,
}
use hit_os.Common.Int.{ℤ, pos, eqz}
use hit_os.Task.{Task}
use hit_os.Sched.{Table}

unfoldable pub next_pid : ℕ → ℕ
next_pid last_pid = if leb (2 ^ 31) (last_pid + 1) then 1 else last_pid + 1

abbrev pub has_pid : ℕ → Option Task → Bool
has_pid pid none = false
has_pid pid (some t) = eqz t.pid (pos pid)

-- One of the first `n` slots has the pid.
unfoldable pub is_taken : (n pid : ℕ) → Table → Bool
is_taken zero pid task = false
is_taken (suc n) pid task = has_pid pid (task n) || is_taken n pid task

-- The loop from the label `repeat` on, on fuel.
unfoldable pub find_new_pid : (fuel last_pid : ℕ) → Table → Option ℕ
unfolding next_pid is_taken
find_new_pid zero last_pid task = none
find_new_pid (suc fuel) last_pid task =
    let again = find_new_pid fuel (next_pid last_pid) task in
    if is_taken 64 (next_pid last_pid) task then again else some (next_pid last_pid)

-- The first free slot, of `n` slots from slot `i` on.
unfoldable pub find_slot : (n i : ℕ) → Table → Option ℕ
find_slot zero i task = none
find_slot (suc n) i task =
    let rest = find_slot n (i + 1) task in elim (task i) [ none ↦ some i | some t ↦ rest ]

-- The new `last_pid`, and the slot, or none for -EAGAIN.
unfoldable pub find_empty_process : (fuel last_pid : ℕ) → Table → Option (ℕ × Option ℕ)
unfolding find_new_pid find_slot
find_empty_process fuel last_pid task = elim (find_new_pid fuel last_pid task) [
  | none ↦ none
  | some pid ↦ some (pid, find_slot 63 1 task)
]
