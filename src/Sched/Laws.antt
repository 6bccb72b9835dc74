-- ===== src/Sched/Laws.antt =====
-- kernel/sched.c, `schedule`: which task gets the processor.
use Prim.Native.Nat.{bit_and, bit_or}
use mathlib.Core.Path.{subst}
use mathlib.Core.Option
use native.Mathlib.Decide.{ℕ_discrete}
use hit_os.Common.{
  ℕ, zero, suc, ◌≤◌, ◌<◌, ◌≡◌, refl, sym, ap, ◌∙◌, ◌≢◌, ◌⊎◌, inl, inr, true, false, not, ◌&&◌, ◌^◌,
  Option, some, arith, for_down, for_down_inv, for_down-rewrite_in, rewrite_at, Bool-cases,
  Option-map-eq-some,
}
use hit_os.Common.Int.{ℤ, pos, negsuc, is_zero, ltz, ◌≤ℤ◌, ◌<ℤ◌}
use hit_os.Task.{Task, running, interruptible, is_interruptible, deliverable, blockable}
use hit_os.Common.Words.{not32}
use hit_os.Sched.Defs.{
  Table, Kernel, last_task, check_alarm, check_signal, recharge, recharge_all, wake_signalled, pick,
  choose, schedule,
}
use hit_os.Sched.Pick.{IsPick, pick-IsPick}
use hit_os.Sched.Rounds.{
  AllTasks, IsSound, wake-IsSound, for_down-AllTasks, recharge_all-IsSound, recharge_all-pos,
}

-- A task of the slots 1 to 63 is runnable at slot `i`.
abbrev pub RunnableAt : Table → ℕ → Task → Type 0
RunnableAt task i t = (0 < i) × (i ≤ 63) × (task i ≡ some t) × (t.state ≡ running)

-- `next` is a runnable task with time left, of largest counter; or it is the idle task, and no other
-- task is runnable.
abbrev pub IsChosen : Table → ℕ → Type 0
IsChosen task next =
    ((next ≡ 0) × ((i : ℕ) (t : Task) → ¬ RunnableAt task i t))
    ⊎ ((t : Task) × RunnableAt task next t
        × (pos 0 <ℤ t.counter)
        × ((i : ℕ) (u : Task) → RunnableAt task i u → u.counter ≤ℤ t.counter))

-- A search that does not end with `c == 0` has found its task.
IsPick-IsChosen :
    (task : Table) (c : ℤ) (next : ℕ)
    → AllTasks IsSound task
    → IsPick task 63 (negsuc 0, 0) (c, next)
    → is_zero c ≡ false
    → IsChosen task next
IsPick-IsChosen task c next sound p z = elim p.source [
  | inl e ↦ inl (
    ground arith,
    λ i t (low, high, at, r).
        absurd (
          let h = p.largest i t low high at r in let s = sound i t at in ground (arith, s.charged)),
  )
  | inr (t, low, high, at, r, q, l) ↦ inr (
    t,
    (low, high, at, r),
    ground arith,
    λ i u (low', high', at', r'). ground (arith, p.largest i u low' high' at' r'),
  )
]

-- After the counters are recharged the search cannot end with `c == 0`.
IsPick-recharged :
    (task : Table) (c : ℤ) (next : ℕ)
    → ((i : ℕ) (t : Task) → 0 < i → i ≤ 63 → task i ≡ some t → pos 0 <ℤ t.counter)
    → IsPick task 63 (negsuc 0, 0) (c, next)
    → is_zero c ≡ false
IsPick-recharged task c next up p = elim p.source [
  | inl e ↦ ground arith
  | inr (t, low, high, at, r, q, l) ↦ ground (arith, up next t low high at)
]

choose-IsChosen :
    (fuel : ℕ) (task : Table)
    → AllTasks IsSound task
    → (next : ℕ) × (task' : Table) × (choose (suc (suc fuel)) task ≡ some (next, task'))
      × ((task' ≡ task) ⊎ (task' ≡ recharge_all task))
      × IsChosen task' next
unfolding choose
choose-IsChosen fuel task sound = elim (Bool-cases (is_zero (pick task).0)) [
  | inr some_left ↦ (
    (pick task).1,
    task,
    rw some_left,
    inl refl,
    IsPick-IsChosen task _ _ sound (pick-IsPick task) some_left,
  )
  | inl all_used ↦
      let task' = recharge_all task in
      let found = IsPick-recharged task' _ _ (recharge_all-pos task sound) (pick-IsPick task') in
      (
        (pick task').1,
        task',
        rw (all_used, found),
        inr refl,
        IsPick-IsChosen task' _ _ (recharge_all-IsSound task sound) (pick-IsPick task') found,
      )
]

-- `schedule` comes back, at the latest after one recharge of all counters. It then runs a runnable
-- task of slots 1 to 63 with time left, of largest counter among the runnable ones, or task 0 if no
-- other is runnable. This holds where every priority is from 1 to 2^29 and every counter from 0 to
-- 2^30, and these bounds hold afterwards.
pub schedule-IsChosen :
    (fuel : ℕ) (k : Kernel)
    → AllTasks IsSound k.task
    → (k' : Kernel) × (schedule (suc (suc fuel)) k ≡ some k')
      × IsChosen k'.task k'.current
      × AllTasks IsSound k'.task
unfolding schedule
schedule-IsChosen fuel k sound =
    let woken = for_down last_task (rewrite_at (wake_signalled k.jiffies)) k.task in
    let sound' : AllTasks IsSound woken =
      for_down-AllTasks IsSound _ (wake-IsSound k.jiffies) last_task k.task sound in
    let (next, task', e, which, chosen) = choose-IsChosen fuel woken sound' in
    (
      record k { task = task'; current = next },
      rw e,
      chosen,
      elim which [
        | inl same ↦ subst (AllTasks IsSound) (sym same) sound'
        | inr charged ↦ subst (AllTasks IsSound) (sym charged) (recharge_all-IsSound woken sound')
      ],
    )

abbrev pub uncharged : Option Task → Option Task
uncharged = Option.map (λ (t : Task). record t { counter = pos 0 })

uncharged-rewrite_at :
    (task : Table) (j i : ℕ)
    → uncharged (rewrite_at (Option.map recharge) j task i) ≡ uncharged (task i)
unfolding recharge
uncharged-rewrite_at task j i = ground arith

uncharged-recharge_all :
    (task : Table) (i : ℕ) → uncharged (recharge_all task i) ≡ uncharged (task i)
unfolding recharge_all
uncharged-recharge_all task i =
    for_down_inv (λ task'. uncharged (task' i) ≡ uncharged (task i))
      (rewrite_at (Option.map recharge)) (λ j task' h. uncharged-rewrite_at task' j i ∙ h) 63 task
      refl

uncharged-choose :
    (fuel : ℕ) (task : Table) (next : ℕ) (task' : Table) (i : ℕ)
    → choose fuel task ≡ some (next, task')
    → uncharged (task' i) ≡ uncharged (task i)
unfolding choose
uncharged-choose zero task next task' i e = cc
uncharged-choose (suc fuel) task next task' i e = elim (Bool-cases (is_zero (pick task).0)) [
  | inl all_used ↦
      uncharged-choose fuel (recharge_all task) next task' i (ground arith)
      ∙ uncharged-recharge_all task i
  | inr some_left ↦ ground arith
]

-- The alarm of the task has passed.
abbrev pub HasAlarm : ℤ → Task → Type 0
HasAlarm jiffies t = (t.alarm ≢ pos 0) × (t.alarm <ℤ jiffies)

-- How `schedule` leaves a task: an alarm that has passed is taken away and becomes SIGALRM, signal 14;
-- an interruptible sleeper with a signal that it does not block becomes runnable; nothing else of its
-- signals, its alarm and its state changes.
pub record IsLooked (jiffies : ℤ) (t t' : Task) : Type 0 where
  pub alarm :
      (HasAlarm jiffies t × (t'.alarm ≡ pos 0) × (t'.signal ≡ bit_or t.signal (2 ^ 13)))
      ⊎ ((¬ HasAlarm jiffies t) × (t'.alarm ≡ t.alarm) × (t'.signal ≡ t.signal))
  pub blocked : t'.blocked ≡ t.blocked
  pub state :
      ((t.state ≡ interruptible) × (deliverable t' ≢ 0) × (t'.state ≡ running))
      ⊎ (((t.state ≢ interruptible) ⊎ (deliverable t' ≡ 0)) × (t'.state ≡ t.state))

alarm_passed :
    (a jiffies : ℤ) → (not (is_zero a) && ltz a jiffies) ≡ true → (a ≢ pos 0) × (a <ℤ jiffies)
alarm_passed a jiffies e = (λ z. ground arith, ground arith)

alarm_waits :
    (a jiffies : ℤ) → (not (is_zero a) && ltz a jiffies) ≡ false → ¬ ((a ≢ pos 0) × (a <ℤ jiffies))
alarm_waits a jiffies e = λ (ne, l). ground arith

-- What the signals make of the state.
check_signal-state :
    (t : Task)
    → (((t.state ≡ interruptible) × (deliverable t ≢ 0) × ((check_signal t).state ≡ running))
        ⊎ (((t.state ≢ interruptible) ⊎ (deliverable t ≡ 0)) × ((check_signal t).state ≡ t.state)))
      × ((check_signal t).signal ≡ t.signal)
      × ((check_signal t).alarm ≡ t.alarm)
      × ((check_signal t).blocked ≡ t.blocked)
unfolding check_signal
check_signal-state t = elim (ℕ_discrete (deliverable t) 0) [
  | yes blocked ↦ (inr (inr blocked, ground arith), ground arith, ground arith, ground arith)
  | no pending ↦ elim (Bool-cases (is_interruptible t.state)) [
    | inl sleeps ↦
        (inl (ground arith, pending, ground arith), ground arith, ground arith, ground arith)
    | inr other ↦
        (inr (inl (λ e. ground arith), ground arith), ground arith, ground arith, ground arith)
  ]
]

check_alarm-alarm :
    (jiffies : ℤ) (t : Task)
    → ((HasAlarm jiffies t
          × ((check_alarm jiffies t).alarm ≡ pos 0)
          × ((check_alarm jiffies t).signal ≡ bit_or t.signal (2 ^ 13)))
        ⊎ ((¬ HasAlarm jiffies t)
            × ((check_alarm jiffies t).alarm ≡ t.alarm)
            × ((check_alarm jiffies t).signal ≡ t.signal)))
      × ((check_alarm jiffies t).blocked ≡ t.blocked)
      × ((check_alarm jiffies t).state ≡ t.state)
unfolding check_alarm
check_alarm-alarm jiffies t = elim (Bool-cases (not (is_zero t.alarm) && ltz t.alarm jiffies)) [
  | inl e ↦ (inl (alarm_passed t.alarm jiffies e, rw e refl, rw e refl), rw e refl, rw e refl)
  | inr e ↦ (inr (alarm_waits t.alarm jiffies e, rw e refl, rw e refl), rw e refl, rw e refl)
]

check_signal-IsLooked :
    (jiffies : ℤ) (t : Task) → IsLooked jiffies t (check_signal (check_alarm jiffies t))
check_signal-IsLooked jiffies t =
    let a = check_alarm jiffies t in
    let c = check_signal a in
    let (alarm, blocked, state) = check_alarm-alarm jiffies t in
    let (ran, signal, alarm', blocked') = check_signal-state a in
    let same : deliverable c ≡ deliverable a =
      ap (λ (s : ℕ). bit_and s (not32 (bit_and blockable c.blocked))) signal
      ∙ ap (λ (b : ℕ). bit_and a.signal (not32 (bit_and blockable b))) blocked' in
    record {
      alarm = elim alarm [
        | inl (p, q, r) ↦ inl (p, alarm' ∙ q, signal ∙ r)
        | inr (p, q, r) ↦ inr (p, alarm' ∙ q, signal ∙ r)
      ];
      blocked = blocked' ∙ blocked;
      state = elim ran [
        | inl (p, q, r) ↦ inl (sym state ∙ p, (λ e. q (sym same ∙ e)), r)
        | inr (inl p, r) ↦ inr (inl (λ e. p (state ∙ e)), r ∙ state)
        | inr (inr p, r) ↦ inr (inr (same ∙ p), r ∙ state)
      ];
    }

-- Whenever `schedule` comes back, it has looked at the alarm and at the signals of each task of the
-- slots 1 to 63: an alarm that has passed is taken away and becomes SIGALRM; an interruptible sleeper
-- with a signal that it does not block, SIGALRM included, has become runnable; and nothing else of the
-- signals, the alarms and the states has changed.
pub schedule-IsLooked :
    (fuel : ℕ) (k k' : Kernel) (i : ℕ) (t : Task)
    → schedule fuel k ≡ some k'
    → 0 < i
    → i ≤ 63
    → k.task i ≡ some t
    → (t' : Task) × (k'.task i ≡ some t') × IsLooked k.jiffies t t'
unfolding schedule
schedule-IsLooked fuel k k' i t e low high at =
    let woken = for_down last_task (rewrite_at (wake_signalled k.jiffies)) k.task in
    let ((next, task'), chosen, same) = Option-map-eq-some _ _ _ e in
    let c = check_signal (check_alarm k.jiffies t) in
    let here : woken i ≡ some c =
      for_down-rewrite_in (wake_signalled k.jiffies) 63 i k.task low high
      ∙ ap (wake_signalled k.jiffies) at in
    let kept : uncharged (k'.task i) ≡ uncharged (some c) =
      ap (λ (r : Kernel). uncharged (r.task i)) (sym same)
      ∙ uncharged-choose fuel woken next task' i chosen
      ∙ ap uncharged here in
    let (t', at', w) = Option-map-eq-some _ _ _ kept in
    let l = check_signal-IsLooked k.jiffies t in
    let l' =
      subst (IsLooked k.jiffies t) (sym w)
        (record { alarm = l.alarm; blocked = l.blocked; state = l.state }) in
    (t', at', record { alarm = l'.alarm; blocked = l'.blocked; state = l'.state })
