-- ===== src/Wait/Laws.antt =====
-- kernel/exit.c: what `sys_waitpid` comes to.
use hit_os.Common.{
  ℕ, ◌<◌, ◌≤◌, ◌≡◌, ◌≢◌, ◌/◌, ◌%◌, Bool, true, false, none, some, ◌==◌, if◌then◌else◌, update, ◌⊎◌,
}
use hit_os.Common.Int.{ℤ, pos, negsuc, ◌+ℤ◌, wrap32}
use hit_os.Task.{Task, interruptible, zombie, stopped}
use hit_os.Sched.{Table, modify_at, set_state}
use hit_os.Wait.{
  Look, passes, lives, stops, dies, Found, stopped_at, zombie_at, no_one, Waited, returns, reaps,
  sleeps,
}
use hit_os.Wait.Children.{IsPassed, IsChild, IsSkipped}

module _ (view : ℕ → Look) where
  -- What the loop over the slots `n` to 1 finds, with `flag` before.
  data IsFound (n : ℕ) (flag : Bool) : Found → Type 0 where
    at_stopped :
        (i : ℕ)
        → 1 ≤ i
        → i ≤ n
        → view i ≡ stops
        → ((j : ℕ) → i < j → j ≤ n → IsPassed (view j))
        → IsFound n flag (stopped_at i)
    at_zombie :
        (i : ℕ)
        → 1 ≤ i
        → i ≤ n
        → view i ≡ dies
        → ((j : ℕ) → i < j → j ≤ n → IsPassed (view j))
        → IsFound n flag (zombie_at i)
    at_living :
        ((j : ℕ) → 1 ≤ j → j ≤ n → IsPassed (view j))
        → (flag ≡ true) ⊎ ((j : ℕ) × (1 ≤ j) × (j ≤ n) × (view j ≡ lives))
        → IsFound n flag (no_one true)
    at_none :
        ((j : ℕ) → 1 ≤ j → j ≤ n → view j ≡ passes) → flag ≡ false → IsFound n flag (no_one false)

-- The options WNOHANG and WUNTRACED.
abbrev pub nohang : ℕ → Bool
nohang options = options % 2 == 1

abbrev pub untraced : ℕ → Bool
untraced options = options / 2 % 2 == 1

-- The current task has the times of the child `t` on top of those of its other children.
abbrev pub credited : Task → Task → Task
unfolding ◌+ℤ◌ wrap32
credited t cur = record cur {
  cutime = wrap32 (cur.cutime +ℤ t.utime);
  cstime = wrap32 (cur.cstime +ℤ t.stime);
}

-- The ways of a call.
pub data WaitEnds (pid : ℤ) (options me : ℕ) (cur : Task) (task : Table) : Waited → Type 0 where
  stopped_child :
      (i : ℕ) (t : Task)
      → 1 ≤ i
      → i ≤ 63
      → IsChild pid me cur task i t
      → t.state ≡ stopped
      → untraced options ≡ true
      → ((j : ℕ) (u : Task)
          → i < j
          → j ≤ 63
          → IsChild pid me cur task j u
          → IsSkipped (untraced options) u.state)
      → WaitEnds pid options me cur task (returns t.pid (some (pos 0x7f)) task)
  dead_child :
      (i : ℕ) (t : Task)
      → 1 ≤ i
      → i ≤ 63
      → IsChild pid me cur task i t
      → t.state ≡ zombie
      → ((j : ℕ) (u : Task)
          → i < j
          → j ≤ 63
          → IsChild pid me cur task j u
          → IsSkipped (untraced options) u.state)
      → WaitEnds pid options me cur task
          (reaps i t.pid t.exit_code (update (modify_at me (credited t) task) i none))
  only_living :
      ((j : ℕ) (u : Task)
        → 1 ≤ j
        → j ≤ 63
        → IsChild pid me cur task j u
        → IsSkipped (untraced options) u.state)
      → (j : ℕ) (u : Task) → 1 ≤ j
      → j ≤ 63
      → IsChild pid me cur task j u
      → u.state ≢ zombie
      → u.state ≢ stopped
      → WaitEnds pid options me cur task (
          if nohang options
          then returns (pos 0) none task
          else sleeps (modify_at me (set_state interruptible) task))
  no_child :
      ((j : ℕ) (u : Task)
        → 1 ≤ j
        → j ≤ 63
        → IsChild pid me cur task j u
        → (u.state ≡ stopped) × (untraced options ≡ false))
      → WaitEnds pid options me cur task (returns (negsuc 9) none task)
