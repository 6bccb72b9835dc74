-- ===== src/Fork/Pid.antt =====
-- kernel/fork.c: the search for a pid ends.
use mathlib.Core.Path.{subst}
use hit_os.Common.{
  ℕ, zero, suc, ◌+◌, ◌^◌, ◌<◌, ◌≤◌, ◌≡◌, ◌≢◌, refl, sym, ap, ◌∙◌, arith, Bool, true, false, ◌||◌,
  Option, none, some, leb, if◌then◌else◌, inl, inr, Bool-cases, Option-cases,
}
use native.Mathlib.Decide.{ℕ_discrete}
use hit_os.Common.Int.{pos, ltz}
use hit_os.Task.{Task}
use hit_os.Sched.{Table}
use hit_os.Fork.{next_pid, has_pid, is_taken, find_new_pid, find_slot, find_empty_process}

-- 1 for a task with a pid from `c` on.
abbrev counts : ℕ → Option Task → ℕ
counts c none = 0
counts c (some t) = if ltz t.pid (pos c) then 0 else 1

-- The tasks of the first `n` slots with a pid from `c` on.
count_from : (n c : ℕ) → Table → ℕ
count_from zero c task = 0
count_from (suc n) c task = counts c (task n) + count_from n c task

counts-suc : (c : ℕ) (o : Option Task) → counts (c + 1) o ≤ counts c o
counts-suc c none = omega arith
counts-suc c (some t) = ground arith

counts-has_pid : (c : ℕ) (o : Option Task) → has_pid c o ≡ true → counts (c + 1) o < counts c o
counts-has_pid c none e = cc
counts-has_pid c (some t) e = ground arith

counts-small : (c : ℕ) (o : Option Task) → counts c o ≤ 1
counts-small c none = omega arith
counts-small c (some t) = ground arith

count_from-suc : (n c : ℕ) (task : Table) → count_from n (c + 1) task ≤ count_from n c task
unfolding count_from
count_from-suc zero c task = omega arith
count_from-suc (suc n) c task = omega (arith, counts-suc c (task n), count_from-suc n c task)

count_from-small : (n c : ℕ) (task : Table) → count_from n c task ≤ n
unfolding count_from
count_from-small zero c task = omega arith
count_from-small (suc n) c task = omega (arith, counts-small c (task n), count_from-small n c task)

-- A pid that is taken leaves fewer tasks above.
count_from-is_taken :
    (n c : ℕ) (task : Table)
    → is_taken n c task ≡ true
    → count_from n (c + 1) task < count_from n c task
unfolding count_from is_taken
count_from-is_taken zero c task e = cc
count_from-is_taken (suc n) c task e = elim (Bool-cases (has_pid c (task n))) [
  | inl h ↦ omega (arith, counts-has_pid c (task n) h, count_from-suc n c task)
  | inr h ↦
      let rest : is_taken n c task ≡ true = sym (ap (λ (b : Bool). b || is_taken n c task) h) ∙ e in
      omega (arith, counts-suc c (task n), count_from-is_taken n c task rest)
]

-- The search comes to a pid that is positive and that no task has.
pub record IsNewPid (task : Table) (fuel last_pid pid : ℕ) : Type 0 where
  pub found : find_new_pid fuel last_pid task ≡ some pid
  pub positive : 1 ≤ pid
  pub small : pid < 2 ^ 31
  pub free : is_taken 64 pid task ≡ false

abbrev Finds : Table → (fuel last_pid : ℕ) → Type 0
Finds task fuel last_pid = (pid : ℕ) × IsNewPid task fuel last_pid pid

next_pid-range : (last_pid : ℕ) → (1 ≤ next_pid last_pid) × (next_pid last_pid < 2 ^ 31)
unfolding next_pid
next_pid-range last_pid = ground arith

next_pid-small : (last_pid : ℕ) → last_pid + 1 < 2 ^ 31 → next_pid last_pid ≡ last_pid + 1
unfolding next_pid
next_pid-small last_pid h = ground arith

next_pid-over : (last_pid : ℕ) → 2 ^ 31 ≤ last_pid + 1 → next_pid last_pid ≡ 1
unfolding next_pid
next_pid-over last_pid h = ground arith

-- One round.
round :
    (task : Table) (fuel last_pid : ℕ)
    → (is_taken 64 (next_pid last_pid) task ≡ true → Finds task fuel (next_pid last_pid))
    → Finds task (suc fuel) last_pid
unfolding find_new_pid
round task fuel last_pid more = elim (Bool-cases (is_taken 64 (next_pid last_pid) task)) [
  | inl e ↦
      let (pid, s) = more e in
      (pid, record { found = rw e s.found; positive = s.positive; small = s.small; free = s.free })
  | inr e ↦ (
    next_pid last_pid,
    record {
      found = rw e refl;
      positive = (next_pid-range last_pid).0;
      small = (next_pid-range last_pid).1;
      free = e;
    },
  )
]

-- While the count does not run over.
find-straight :
    (task : Table) (fuel last_pid : ℕ)
    → count_from 64 (last_pid + 1) task < fuel
    → last_pid + 1 + count_from 64 (last_pid + 1) task < 2 ^ 31
    → Finds task fuel last_pid
find-straight task zero last_pid f h = absurd (omega arith)
find-straight task (suc fuel) last_pid f h =
    let same = next_pid-small last_pid (omega arith) in
    round task fuel last_pid (λ e.
      let less : count_from 64 (last_pid + 1 + 1) task < count_from 64 (last_pid + 1) task =
        count_from-is_taken 64 (last_pid + 1) task
          (ap (λ (c : ℕ). is_taken 64 c task) (sym same) ∙ e) in
      subst (Finds task fuel) (sym same)
        (find-straight task fuel (last_pid + 1) (omega arith) (omega arith)))

find-new :
    (task : Table) (fuel last_pid : ℕ)
    → last_pid < 2 ^ 31
    → count_from 64 (last_pid + 1) task + 65 < fuel
    → Finds task fuel last_pid
find-new task zero last_pid h f = absurd (omega arith)
find-new task (suc fuel) last_pid h f = elim (Bool-cases (leb (2 ^ 31) (last_pid + 1))) [
  | inl over ↦
      let same = next_pid-over last_pid (ground arith) in
      round task fuel last_pid (λ e. subst (Finds task fuel) (sym same) (
        find-straight task fuel 1 (omega (arith, count_from-small 64 2 task))
          (omega (arith, count_from-small 64 2 task))))
  | inr under ↦
      let same = next_pid-small last_pid (ground arith) in
      round task fuel last_pid (λ e.
        let less : count_from 64 (last_pid + 1 + 1) task < count_from 64 (last_pid + 1) task =
          count_from-is_taken 64 (last_pid + 1) task
            (ap (λ (c : ℕ). is_taken 64 c task) (sym same) ∙ e) in
        subst (Finds task fuel) (sym same)
          (find-new task fuel (last_pid + 1) (ground arith) (omega arith)))
]

-- The first free slot of the `n` from `i` on, or none where there is no free one.
abbrev pub IsFirstFree : (n i : ℕ) → Table → Option ℕ → Type 0
IsFirstFree n i task none = (j : ℕ) → i ≤ j → j < i + n → task j ≢ none
IsFirstFree n i task (some k) =
    (i ≤ k) × (k < i + n) × (task k ≡ none) × ((j : ℕ) → i ≤ j → j < k → task j ≢ none)

step_up :
    (n i : ℕ) (task : Table) (o : Option ℕ)
    → task i ≢ none
    → IsFirstFree n (i + 1) task o
    → IsFirstFree (suc n) i task o
step_up n i task none ne f = λ j l h. elim (ℕ_discrete i j) [
  | yes e ↦ subst (λ (x : ℕ). task x ≢ none) e ne
  | no d ↦ f j (omega arith) (omega arith)
]
step_up n i task (some k) ne (l, h, e, f) = (
  omega arith,
  omega arith,
  e,
  λ j a b. elim (ℕ_discrete i j) [
    | yes s ↦ subst (λ (x : ℕ). task x ≢ none) s ne
    | no d ↦ f j (omega arith) b
  ],
)

find_slot-IsFirstFree : (n i : ℕ) (task : Table) → IsFirstFree n i task (find_slot n i task)
unfolding find_slot
find_slot-IsFirstFree zero i task = λ j l h. absurd (omega arith)
find_slot-IsFirstFree (suc n) i task = elim (Option-cases (task i)) [
  | inl e ↦ rw (e, find_slot) (omega arith, omega arith, e, λ j a b. absurd (omega arith))
  | inr (t, e) ↦
      rw (e, find_slot)
        (step_up n i task (find_slot n (i + 1) task) (λ h. cc)
          (find_slot-IsFirstFree n (i + 1) task))
]

-- What find_empty_process comes back with.
pub record IsEmptyProcess (task : Table) (pid : ℕ) (slot : Option ℕ) : Type 0 where
  pub positive : 1 ≤ pid
  pub small : pid < 2 ^ 31
  pub free : is_taken 64 pid task ≡ false
  pub first : IsFirstFree 63 1 task slot

found-empty :
    (task : Table) (fuel last_pid pid : ℕ)
    → find_new_pid fuel last_pid task ≡ some pid
    → find_empty_process fuel last_pid task ≡ some (pid, find_slot 63 1 task)
unfolding find_empty_process
found-empty task fuel last_pid pid e = rw (e, find_empty_process) refl

pub find_empty_process-ends :
    (task : Table) (fuel last_pid : ℕ)
    → last_pid < 2 ^ 31
    → 130 ≤ fuel
    → (pid : ℕ) × (slot : Option ℕ) × (find_empty_process fuel last_pid task ≡ some (pid, slot))
      × IsEmptyProcess task pid slot
find_empty_process-ends task fuel last_pid h f =
    let (pid, s) =
      find-new task fuel last_pid h (omega (arith, count_from-small 64 (last_pid + 1) task)) in
    (
      pid,
      find_slot 63 1 task,
      found-empty task fuel last_pid pid s.found,
      record {
        positive = s.positive;
        small = s.small;
        free = s.free;
        first = find_slot-IsFirstFree 63 1 task;
      },
    )
