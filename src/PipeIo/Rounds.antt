-- ===== src/PipeIo/Rounds.antt =====
-- fs/pipe.c: what the loops of `read_pipe` and `write_pipe` share.
use mathlib.Core.Path.{subst}
use native.Mathlib.Decide.{ℕ_discrete}
use hit_os.Common.{
  ℕ, ◌≡◌, ◌≢◌, ap, sym, none, ne→not-==, ◌∙◌, refl, arith, Bool, true, false, not, Option, some,
  if◌then◌else◌, Outcome, ok, panic, exits,
}
use hit_os.Task.{uninterruptible}
use hit_os.Sched.{
  SleepCall, Kernel, WaitQueue, returned, asleep, sleep_on, fall_asleep, wake_up, wake_task,
  modify_current, set_state,
}
use hit_os.PipeIo.{Pipe, Progress, sleeps, panics, pipe_size, wake_others, slept, wait}
use hit_os.PipeIo.Window.{IsPipe, contents}

-- The other pipe has the same bytes, and the same count of users.
pub record IsSame (p q : Pipe) : Type 0 where
  pub page : q.page ≡ p.page
  pub head : q.head ≡ p.head
  pub tail : q.tail ≡ p.tail
  pub i_count : q.i_count ≡ p.i_count

pub wake_others-IsSame : (p : Pipe) → IsSame p (wake_others p)
unfolding wake_others
wake_others-IsSame p = record { page = refl; head = refl; tail = refl; i_count = refl }

slept-IsSame : (o : Outcome SleepCall) (p : Pipe) → IsSame p (slept o p).1
slept-IsSame (ok returned) p = record { page = refl; head = refl; tail = refl; i_count = refl }
slept-IsSame (ok (asleep k queue tmp)) p = record {
  page = refl;
  head = refl;
  tail = refl;
  i_count = refl;
}
slept-IsSame panic p = record { page = refl; head = refl; tail = refl; i_count = refl }
slept-IsSame exits p = record { page = refl; head = refl; tail = refl; i_count = refl }

pub wait-IsSame : (p : Pipe) → IsSame p (wait p).1
unfolding wait
wait-IsSame p = slept-IsSame (sleep_on (some p.i_wait) p.kernel) p

-- The sleeper of the queue `o`, if there is one, has been woken.
pub record IsAwake (k : Kernel) (o : WaitQueue) (q : Pipe) : Type 0 where
  pub kernel : q.kernel ≡ wake_task o k
  pub queue : q.i_wait ≡ none

-- The sleeper of the queue `o` has been woken, and then the current task has fallen asleep as the
-- only one in the queue; or `sleep_on` has called `panic` as it does for task 0.
pub data IsAsleep (k : Kernel) (o : WaitQueue) : Progress → Pipe → Type 0 where
  sleeper :
      (q : Pipe)
      → k.current ≢ 0
      → q.i_wait ≡ some k.current
      → q.kernel ≡ modify_current (set_state uninterruptible) (wake_task o k)
      → IsAsleep k o (sleeps none) q
  idle : (q : Pipe) → k.current ≡ 0 → IsAsleep k o panics q

woken_queue :
    (p : Pipe) (o : WaitQueue)
    → ((wake_up (some o) p.kernel).0 ≡ wake_task o p.kernel)
      × ((wake_up (some o) p.kernel).1 ≡ some none)
unfolding wake_up
woken_queue p none = (refl, refl)
woken_queue p (some i) = (refl, refl)

pub wake_others-IsAwake : (p : Pipe) → IsAwake p.kernel p.i_wait (wake_others p)
unfolding wake_others
wake_others-IsAwake p =
    let (k, q) = woken_queue p p.i_wait in
    record {
      kernel = k;
      queue = ap (λ (o : Option WaitQueue). elim o [ some q ↦ q | none ↦ p.i_wait ]) q;
    }

wake_task-current : (o : WaitQueue) (k : Kernel) → (wake_task o k).current ≡ k.current
wake_task-current none k = refl
wake_task-current (some i) k = refl

wait_idle : (w : Pipe) → w.kernel.current ≡ 0 → wait w ≡ (panics, w)
unfolding wait sleep_on fall_asleep
wait_idle w e = rw e refl

wait_asleep :
    (w : Pipe)
    → w.kernel.current ≢ 0
    → wait w ≡ (
      sleeps w.i_wait,
      record w {
        kernel = modify_current (set_state uninterruptible) w.kernel;
        i_wait = some w.kernel.current;
      },
    )
unfolding wait sleep_on fall_asleep
wait_asleep w ne = rw (ne→not-== w.kernel.current 0 ne) refl

-- A call that wakes the others and sleeps.
pub wait-IsAsleep :
    (p w : Pipe) → IsAwake p.kernel p.i_wait w → IsAsleep p.kernel p.i_wait (wait w).0 (wait w).1
wait-IsAsleep p w awake =
    let same : w.kernel.current ≡ p.kernel.current =
      ap (λ (k : Kernel). k.current) awake.kernel ∙ wake_task-current p.i_wait p.kernel in
    elim (ℕ_discrete w.kernel.current 0) [
      | yes e ↦
          subst (λ (r : Progress × Pipe). IsAsleep p.kernel p.i_wait r.0 r.1) (sym (wait_idle w e))
            (idle w (sym same ∙ e))
      | no ne ↦
          let here =
            sleeper
              (record w {
                kernel = modify_current (set_state uninterruptible) w.kernel;
                i_wait = some w.kernel.current;
              })
              (λ e. ne (same ∙ e)) (ap (λ (i : ℕ). some i) same)
              (ap (λ (k : Kernel). modify_current (set_state uninterruptible) k) awake.kernel) in
          subst (λ (r : Progress × Pipe). IsAsleep p.kernel p.i_wait r.0 r.1)
            (sym (wait_asleep w ne))
            (subst
              (λ (o : WaitQueue). IsAsleep p.kernel p.i_wait (sleeps o) (record w {
                kernel = modify_current (set_state uninterruptible) w.kernel;
                i_wait = some w.kernel.current;
              }))
              (sym awake.queue) here)
    ]

pub IsSame-trans : (p q r : Pipe) → IsSame p q → IsSame q r → IsSame p r
IsSame-trans p q r s t = record {
  page = t.page ∙ s.page;
  head = t.head ∙ s.head;
  tail = t.tail ∙ s.tail;
  i_count = t.i_count ∙ s.i_count;
}

pub contents-IsSame : (p q : Pipe) → IsSame p q → contents q ≡ contents p
unfolding contents pipe_size
contents-IsSame p q s = rw (s.page, s.head, s.tail) refl

pub IsPipe-IsSame : (p q : Pipe) → IsSame p q → IsPipe p → IsPipe q
IsPipe-IsSame p q s r = record {
  head_in = omega (arith, s.head, r.head_in);
  tail_in = omega (arith, s.tail, r.tail_in);
}

-- A round of both loops: it is done, goes on, returns, or sleeps.
pub round_cases {ℓ} :
    {R : Type 0} (P : R → Type ℓ) (done some_left used : Bool) (rest : Option R) (x y z : R)
    → (done ≡ true → P x)
    → (done ≡ false → some_left ≡ true → (r : R) × (rest ≡ some r) × P r)
    → (done ≡ false → some_left ≡ false → used ≡ false → P y)
    → (done ≡ false → some_left ≡ false → used ≡ true → P z)
    → (r : R) × ((if done
          then some x
          else if some_left
          then rest
          else if not used
          then some y
          else some z)
        ≡ some r)
      × P r
round_cases P true b u rest x y z h1 h2 h3 h4 = (x, refl, h1 refl)
round_cases P false true u rest x y z h1 h2 h3 h4 = h2 refl refl
round_cases P false false false rest x y z h1 h2 h3 h4 = (y, refl, h3 refl refl refl)
round_cases P false false true rest x y z h1 h2 h3 h4 = (z, refl, h4 refl refl refl)
