-- ===== src/Sched/Sleep.antt =====
-- kernel/sched.c, `sleep_on` and `wake_up`: no sleeper on a wait queue is lost, in any interleaving.
-- A task inside `sleep_on` keeps the sleeper before it in `tmp`, on its kernel stack: the queue is a
-- chain through these stacks.
use mathlib.Core.Option
use native.Mathlib.Decide.{ℕ_discrete}
use hit_os.Common.{
  ℕ, ◌≤◌, ◌<◌, ◌≡◌, refl, sym, ap, ◌∙◌, ◌≢◌, inl, inr, Option, none, some, arith, update,
  update_self, update_ne, ok,
}
use hit_os.Common.Int.{ℤ}
use hit_os.Task.{Task, running, uninterruptible}
use hit_os.Sched.Defs.{
  Kernel, WaitQueue, SleepCall, asleep, sleep_on, sleep_on_resume, wake_up, schedule, wake_task,
  set_state,
}
use hit_os.Sched.Laws.{IsLooked, schedule-IsLooked}

-- The kernel, one queue `*p`, and the `tmp` of each task that is inside `sleep_on(p)`.
pub record Waiting : Type 0 where
  pub kernel : Kernel
  pub queue : WaitQueue
  pub frame : ℕ → Option WaitQueue

abbrev pub IsRunning : Kernel → ℕ → Type 0
IsRunning k i = (t : Task) × (k.task i ≡ some t) × (t.state ≡ running)

-- What can happen to the queue: the current task goes to sleep, somebody calls `wake_up`, a sleeper
-- that was made runnable goes on behind its `schedule()`, and the scheduler runs.
pub data Step (w : Waiting) : Waiting → Type 0 where
  sleeps :
      (k : Kernel) (queue tmp : WaitQueue) (t : Task)
      → w.kernel.task w.kernel.current ≡ some t
      → w.kernel.current ≤ 63
      → w.frame w.kernel.current ≡ none
      → sleep_on (some w.queue) w.kernel ≡ ok (asleep k queue tmp)
      → Step w (record w {
        kernel = k;
        queue = queue;
        frame = update w.frame w.kernel.current (some tmp);
      })
  wakes :
      (k : Kernel) (queue : WaitQueue)
      → wake_up (some w.queue) w.kernel ≡ (k, some queue)
      → Step w (record w { kernel = k; queue = queue })
  resumes :
      (i : ℕ) (tmp : WaitQueue)
      → w.frame i ≡ some tmp
      → w.kernel.current ≡ i
      → Step w (record w { kernel = sleep_on_resume tmp w.kernel; frame = update w.frame i none })
  schedules :
      (fuel : ℕ) (k : Kernel) → schedule fuel w.kernel ≡ some k → Step w (record w { kernel = k })

pub data Steps (w : Waiting) : Waiting → Type 0 where
  here : Steps w w
  next : {u v : Waiting} → Steps w u → Step u v → Steps w v

-- Task `i` is runnable, or the next `wake_up` wakes it, or it is the `tmp` of a sleeper of which the
-- same is true.
pub data WillWake (w : Waiting) : ℕ → Type 0 where
  awake : {i : ℕ} → IsRunning w.kernel i → WillWake w i
  first : {i : ℕ} → w.queue ≡ some i → WillWake w i
  behind : {i : ℕ} (j : ℕ) → w.frame j ≡ some (some i) → WillWake w j → WillWake w i

-- Every slot in 1 to 63 inside `sleep_on` holds a task, and none is lost.
pub record NoneLost (w : Waiting) : Type 0 where
  pub slot : (i : ℕ) (tmp : WaitQueue) → w.frame i ≡ some tmp → (0 < i) × (i ≤ 63)
  pub live :
      (i : ℕ) (tmp : WaitQueue) → w.frame i ≡ some tmp → (t : Task) × (w.kernel.task i ≡ some t)
  pub none_lost : (i : ℕ) (tmp : WaitQueue) → w.frame i ≡ some tmp → WillWake w i

sleep_on_cases :
    (q : WaitQueue) (k k' : Kernel) (queue tmp : WaitQueue)
    → sleep_on (some q) k ≡ ok (asleep k' queue tmp)
    → (k.current ≢ 0)
      × ((i : ℕ) → i ≢ k.current → k'.task i ≡ k.task i)
      × (k'.task k.current ≡ Option.map (set_state uninterruptible) (k.task k.current))
      × (queue ≡ some k.current)
      × (tmp ≡ q)
unfolding sleep_on
sleep_on_cases q k k' queue tmp e =
    (ground arith, λ i ne. ground arith, ground arith, ground arith, ground arith)

-- Making a task runnable leaves a runnable task runnable.
IsRunning-wake_task :
    (q : WaitQueue) (k : Kernel) (i : ℕ) → IsRunning k i → IsRunning (wake_task q k) i
IsRunning-wake_task none k i r = r
IsRunning-wake_task (some j) k i (t, e, h) = elim (ℕ_discrete j i) [
  | yes same ↦ (set_state running t, ground arith, refl)
  | no other ↦ (t, ground arith, h)
]

IsRunning-wake_task_self :
    (i : ℕ) (k : Kernel) (t : Task) → k.task i ≡ some t → IsRunning (wake_task (some i) k) i
IsRunning-wake_task_self i k t e = (set_state running t, ground arith, refl)

live-wake_task :
    (q : WaitQueue) (k : Kernel) (i : ℕ) (t : Task)
    → k.task i ≡ some t
    → (t' : Task) × ((wake_task q k).task i ≡ some t')
live-wake_task none k i t e = (t, e)
live-wake_task (some j) k i t e = elim (ℕ_discrete j i) [
  | yes same ↦ (set_state running t, ground arith)
  | no other ↦ (t, ground arith)
]

IsLooked-running :
    (jiffies : ℤ) (t t' : Task) → t.state ≡ running → IsLooked jiffies t t' → t'.state ≡ running
IsLooked-running jiffies t t' h l = elim l.state [ inl (a, b, c) ↦ c | inr (a, b) ↦ b ∙ h ]

module _ (w : Waiting) (k : Kernel) (queue tmp : WaitQueue)
    (outside : w.frame w.kernel.current ≡ none)
    (asleep : sleep_on (some w.queue) w.kernel ≡ ok (SleepCall.asleep k queue tmp)) where
  abbrev after_sleep : Waiting
  after_sleep = record w {
    kernel = k;
    queue = queue;
    frame = update w.frame w.kernel.current (some tmp);
  }

  facts :
      (w.kernel.current ≢ 0)
      × ((i : ℕ) → i ≢ w.kernel.current → k.task i ≡ w.kernel.task i)
      × (k.task w.kernel.current
          ≡ Option.map (set_state uninterruptible) (w.kernel.task w.kernel.current))
      × (queue ≡ some w.kernel.current)
      × (tmp ≡ w.queue)
  facts = sleep_on_cases w.queue w.kernel k queue tmp asleep

  not_current : (i : ℕ) (t : WaitQueue) → w.frame i ≡ some t → i ≢ w.kernel.current
  not_current i t e c = ground (arith, ap w.frame c)

  sleeps-WillWake :
      (i : ℕ) (t : WaitQueue) → w.frame i ≡ some t → WillWake w i → WillWake after_sleep i
  sleeps-WillWake i t e (awake (u, at, h)) = awake (u, facts.1 i (not_current i t e) ∙ at, h)
  sleeps-WillWake i t e (first q) =
      behind w.kernel.current
        (update_self w.frame w.kernel.current (some tmp) ∙ ap some (facts.4 ∙ q)) (first facts.3)
  sleeps-WillWake i t e (behind j f d) =
      behind j
        (update_ne w.frame w.kernel.current (some tmp) j (λ c. not_current j (some i) f (sym c))
          ∙ f)
        (sleeps-WillWake j (some i) f d)

  sleeps-NoneLost :
      (u : Task)
      → w.kernel.task w.kernel.current ≡ some u
      → w.kernel.current ≤ 63
      → NoneLost w
      → NoneLost after_sleep
  sleeps-NoneLost u at high inv = record {
    slot = λ i t e. elim (ℕ_discrete w.kernel.current i) [
      | yes c ↦ ground (arith, facts.0)
      | no c ↦ inv.slot i t (ground arith)
    ];
    live = λ i t e. elim (ℕ_discrete w.kernel.current i) [
      | yes c ↦ (set_state uninterruptible u, ground (arith, facts.2))
      | no c ↦ let (v, at') = inv.live i t (ground arith) in (v, facts.1 i (λ q. c (sym q)) ∙ at')
    ];
    none_lost = λ i t e. elim (ℕ_discrete w.kernel.current i) [
      | yes c ↦ first (facts.3 ∙ ap some c)
      | no c ↦ sleeps-WillWake i t (ground arith) (inv.none_lost i t (ground arith))
    ];
  }

module _ (w : Waiting) (inv : NoneLost w) where
  abbrev after_wake_up : Waiting
  after_wake_up = record w { kernel = wake_task w.queue w.kernel; queue = none }

  wakes-WillWake :
      (i : ℕ) (t : WaitQueue) → w.frame i ≡ some t → WillWake w i → WillWake after_wake_up i
  wakes-WillWake i t e (awake r) = awake (IsRunning-wake_task w.queue w.kernel i r)
  wakes-WillWake i t e (first q) =
      let (u, at) = inv.live i t e in awake (rw q (IsRunning-wake_task_self i w.kernel u at))
  wakes-WillWake i t e (behind j f d) = behind j f (wakes-WillWake j (some i) f d)

  wakes-NoneLost : NoneLost after_wake_up
  wakes-NoneLost = record {
    slot = inv.slot;
    live = λ i t e. let (u, at) = inv.live i t e in live-wake_task w.queue w.kernel i u at;
    none_lost = λ i t e. wakes-WillWake i t e (inv.none_lost i t e);
  }

  module _ (i : ℕ) (tmp : WaitQueue) (inside : w.frame i ≡ some tmp) where
    abbrev after_resume : Waiting
    after_resume = record w { kernel = wake_task tmp w.kernel; frame = update w.frame i none }

    resumes-WillWake :
        (j : ℕ) (t : WaitQueue) → w.frame j ≡ some t → WillWake w j → WillWake after_resume j
    resumes-WillWake j t e (awake r) = awake (IsRunning-wake_task tmp w.kernel j r)
    resumes-WillWake j t e (first q) = first q
    resumes-WillWake j t e (behind h f d) = elim (ℕ_discrete i h) [
      | yes same ↦
          let (u, at) = inv.live j t e in
          let left : tmp ≡ some j = ground arith in
          awake (rw left (IsRunning-wake_task_self j w.kernel u at))
      | no other ↦ behind h (update_ne w.frame i none h other ∙ f) (resumes-WillWake h (some j) f d)
    ]

    resumes-NoneLost : NoneLost after_resume
    resumes-NoneLost = record {
      slot = λ j t e. inv.slot j t (ground arith);
      live =
          λ j t e. let (u, at) = inv.live j t (ground arith) in live-wake_task tmp w.kernel j u at;
      none_lost = λ j t e. resumes-WillWake j t (ground arith) (inv.none_lost j t (ground arith));
    }

  module _ (fuel : ℕ) (k : Kernel) (runs : schedule fuel w.kernel ≡ some k) where
    schedules-IsRunning :
        (i : ℕ) (t : WaitQueue) → w.frame i ≡ some t → IsRunning w.kernel i → IsRunning k i
    schedules-IsRunning i t e (u, at, h) =
        let (low, high) = inv.slot i t e in
        let (u', at', s) = schedule-IsLooked fuel w.kernel k i u runs low high at in
        (u', at', IsLooked-running w.kernel.jiffies u u' h s)

    schedules-WillWake :
        (i : ℕ) (t : WaitQueue)
        → w.frame i ≡ some t
        → WillWake w i
        → WillWake (record w { kernel = k }) i
    schedules-WillWake i t e (awake r) = awake (schedules-IsRunning i t e r)
    schedules-WillWake i t e (first q) = first q
    schedules-WillWake i t e (behind j f d) = behind j f (schedules-WillWake j (some i) f d)

    schedules-NoneLost : NoneLost (record w { kernel = k })
    schedules-NoneLost = record {
      slot = inv.slot;
      live = λ i t e.
          let (u, at) = inv.live i t e in
          let (low, high) = inv.slot i t e in
          let (u', at', s) = schedule-IsLooked fuel w.kernel k i u runs low high at in (u', at');
      none_lost = λ i t e. schedules-WillWake i t e (inv.none_lost i t e);
    }

wake_up_cases :
    (q : WaitQueue) (k k' : Kernel) (queue : WaitQueue)
    → wake_up (some q) k ≡ (k', some queue)
    → (k' ≡ wake_task q k) × (queue ≡ none)
unfolding wake_up
wake_up_cases none k k' queue e = (ground arith, ground arith)
wake_up_cases (some i) k k' queue e = (ground arith, ground arith)

Step-NoneLost : {w v : Waiting} → Step w v → NoneLost w → NoneLost v
unfolding sleep_on_resume
Step-NoneLost {w} (sleeps k queue tmp t at high outside e) inv =
    sleeps-NoneLost w k queue tmp outside e t at high inv
Step-NoneLost {w} (wakes k queue e) inv =
    let (a, b) = wake_up_cases w.queue w.kernel k queue e in rw (a, b) (wakes-NoneLost w inv)
Step-NoneLost {w} (resumes i tmp inside c) inv = resumes-NoneLost w inv i tmp inside
Step-NoneLost {w} (schedules fuel k e) inv = schedules-NoneLost w inv fuel k e

-- From a queue on which nobody sleeps, in any order of sleeping, waking, going on and scheduling,
-- every task inside `sleep_on` is runnable, or the next `wake_up` makes it runnable, or it will be
-- made runnable by the sleeper whose `tmp` it is, of which the same is true.
pub Steps-NoneLost :
    (w v : Waiting)
    → ((i : ℕ) → w.frame i ≡ none)
    → Steps w v
    → (i : ℕ) (tmp : WaitQueue) → v.frame i ≡ some tmp
    → WillWake v i
Steps-NoneLost w v empty steps i tmp e = (go steps).none_lost i tmp e
  where
    start : NoneLost w
    start = record {
      slot = λ j t q. ground (arith, empty j);
      live = λ j t q. absurd (ground (arith, empty j));
      none_lost = λ j t q. absurd (ground (arith, empty j));
    }

    go : {u : Waiting} → Steps w u → NoneLost u
    go here = start
    go (next s st) = Step-NoneLost st (go s)
