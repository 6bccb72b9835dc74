-- ===== src/Sched/Rounds.antt =====
-- kernel/sched.c, lines 111 to 140: what the loops over the task table do to each task, and how often
-- the search for the next task is repeated.
use mathlib.Core.Option
use native.Mathlib.Decide.{ℕ_discrete}
use mathlib.Core.Path.{subst}
use hit_os.Common.{
  ℕ, ◌+◌, ◌/◌, ◌^◌, ◌≤◌, ◌<◌, ◌≡◌, inl, inr, some, arith, for_down, for_down_inv,
  for_down-rewrite_in, rewrite_at, Option-cases,
}
use hit_os.Common.Int.{ℤ, pos, pos_part, ◌+ℤ◌, ◌≤ℤ◌, ◌<ℤ◌, shr1, wrap32}
use hit_os.Task.{Task}
use hit_os.Sched.Defs.{Table, check_alarm, check_signal, recharge, recharge_all}

abbrev pub AllTasks : (Task → Type 0) → Table → Type 0
AllTasks P task = (i : ℕ) (t : Task) → task i ≡ some t → P t

-- Counter and priority are in the range in which `counter >> 1` and the sum cannot overflow a `long`.
pub record IsSound (t : Task) : Type 0 where
  pub low : pos 1 ≤ℤ t.priority
  pub high : t.priority ≤ℤ pos (2 ^ 29)
  pub charged : pos 0 ≤ℤ t.counter
  pub bounded : t.counter ≤ℤ pos (2 ^ 30)

rewrite-AllTasks :
    (P : Task → Type 0) (g : Task → Task)
    → ((t : Task) → P t → P (g t))
    → (i : ℕ) (task : Table) → AllTasks P task
    → AllTasks P (rewrite_at (Option.map g) i task)
rewrite-AllTasks P g keep i task h j t e = elim (Option-cases (task i)) [
  | inl q ↦ h j t (ground arith)
  | inr (u, q) ↦ elim (ℕ_discrete i j) [
    | yes same ↦ let w : g u ≡ t = ground arith in subst P w (keep u (h i u q))
    | no other ↦ h j t (ground arith)
  ]
]

pub for_down-AllTasks :
    (P : Task → Type 0) (g : Task → Task)
    → ((t : Task) → P t → P (g t))
    → (n : ℕ) (task : Table) → AllTasks P task
    → AllTasks P (for_down n (rewrite_at (Option.map g)) task)
for_down-AllTasks P g keep =
    for_down_inv (AllTasks P) (rewrite_at (Option.map g)) (rewrite-AllTasks P g keep)

pub wake-IsSound :
    (jiffies : ℤ) (t : Task) → IsSound t → IsSound (check_signal (check_alarm jiffies t))
unfolding check_alarm check_signal
wake-IsSound jiffies t s = ground arith

-- In that range the new counter is the exact sum.
pub counter-recharge :
    (t : Task)
    → IsSound t
    → (recharge t).counter ≡ pos (pos_part t.counter / 2 + pos_part t.priority)
unfolding recharge shr1 ◌+ℤ◌ wrap32
counter-recharge t s = ground arith

pub recharge-IsSound :
    (t : Task) → IsSound t → IsSound (recharge t) × (pos 0 <ℤ (recharge t).counter)
unfolding recharge
recharge-IsSound t s = ground (arith, counter-recharge t s)

pub recharge_all-IsSound :
    (task : Table) → AllTasks IsSound task → AllTasks IsSound (recharge_all task)
unfolding recharge_all
recharge_all-IsSound task h =
    for_down-AllTasks IsSound recharge (λ t s. (recharge-IsSound t s).0) 63 task h

-- In the slots 1 to 63 every task has been recharged.
pub recharge_all-in :
    (task : Table) (i : ℕ) → 0 < i → i ≤ 63 → recharge_all task i ≡ Option.map recharge (task i)
unfolding recharge_all
recharge_all-in task i low high = for_down-rewrite_in (Option.map recharge) 63 i task low high

pub recharge_all-pos :
    (task : Table)
    → AllTasks IsSound task
    → (i : ℕ) (t : Task) → 0 < i
    → i ≤ 63
    → recharge_all task i ≡ some t
    → pos 0 <ℤ t.counter
recharge_all-pos task sound i t low high e = elim (Option-cases (task i)) [
  | inl q ↦ ground (arith, recharge_all-in task i low high)
  | inr (u, q) ↦
      let w : recharge u ≡ t = ground (arith, recharge_all-in task i low high) in
      subst (λ v. pos 0 <ℤ v.counter) w (recharge-IsSound u (sound i u q)).1
]
