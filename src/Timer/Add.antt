-- ===== src/Timer/Add.antt =====
-- kernel/sched.c, `add_timer`: where the new timer goes, and when it and the others expire.
use hit_os.Common.{
  ℕ, ◌+◌, ◌^◌, ◌<◌, ◌≡◌, refl, ap, ◌≢◌, inl, inr, List, [], ◌∷◌, ◌++◌, arith, ok, length,
  Bool-cases,
}
use hit_os.Common.Int.{ℤ, pos, pos_part, ◌-ℤ◌, ◌<ℤ◌, ◌≤ℤ◌, ltz, wrap32}
use hit_os.Timer.{Timer, sift, queued, add_timer}

-- A timer waits for at least one tick.
abbrev pub IsPending : Timer → Type 0
IsPending t = (pos 0 <ℤ t.jiffies) × (t.jiffies <ℤ pos (2 ^ 31))

abbrev pub AllPending : List Timer → Type 0
AllPending [] = Unit {0}
AllPending (t ∷ l) = IsPending t × AllPending l

-- The ticks until the last timer of a list expires.
abbrev pub expiry : List Timer → ℕ
expiry [] = 0
expiry (t ∷ l) = pos_part t.jiffies + expiry l

-- The first of these timers is not due before `t`, which stands in front of them.
abbrev pub IsNext : Timer → List Timer → Type 0
IsNext t [] = Unit {0}
IsNext t (n ∷ l) = t.jiffies ≤ℤ n.jiffies

-- `l'` is `l` with `t` put in so that it expires after its own number of ticks: behind the timers that
-- expire before that, and in front of those that do not.
pub record IsPlaced (t : Timer) (l l' : List Timer) : Type 0 where
  pub before : List Timer
  pub after : List Timer
  pub placed : Timer
  pub split : l ≡ before ++ after
  pub joined : l' ≡ before ++ (placed ∷ after)
  pub same_fn : placed.fn ≡ t.fn
  pub on_time : expiry before + pos_part placed.jiffies ≡ pos_part t.jiffies
  pub pending : IsPending placed
  pub next : IsNext placed after

later-wrap32 :
    (a b : ℤ)
    → (pos 0 <ℤ a) × (a <ℤ pos (2 ^ 31))
    → (pos 0 <ℤ b) × (b <ℤ pos (2 ^ 31))
    → b <ℤ a
    → (pos 0 <ℤ wrap32 (a -ℤ b))
      × (wrap32 (a -ℤ b) <ℤ pos (2 ^ 31))
      × (pos_part b + pos_part (wrap32 (a -ℤ b)) ≡ pos_part a)
unfolding wrap32 ◌-ℤ◌
later-wrap32 a b h k l = ground arith

pub sift-IsPlaced :
    (t : Timer) (l : List Timer) → IsPending t → AllPending l → IsPlaced t l (sift t l)
unfolding sift
sift-IsPlaced t [] p q = record {
  before = [];
  after = [];
  placed = t;
  split = refl;
  joined = refl;
  same_fn = refl;
  on_time = omega arith;
  pending = p;
  next = tt;
}
sift-IsPlaced t (n ∷ rest) p (q, qs) = elim (Bool-cases (ltz n.jiffies t.jiffies)) [
  | inl later ↦
      let (low, high, sum) = later-wrap32 t.jiffies n.jiffies p q (ground arith) in
      let r =
        sift-IsPlaced (record t { jiffies = wrap32 (t.jiffies -ℤ n.jiffies) }) rest (low, high)
          qs in
      record {
        before = n ∷ r.before;
        after = r.after;
        placed = r.placed;
        split = ap (λ u. n ∷ u) r.split;
        joined = rw later (ap (λ u. n ∷ u) r.joined);
        same_fn = r.same_fn;
        on_time = omega (arith, r.on_time);
        pending = r.pending;
        next = r.next;
      }
  | inr sooner ↦ record {
    before = [];
    after = n ∷ rest;
    placed = t;
    split = refl;
    joined = rw sooner refl;
    same_fn = refl;
    on_time = omega arith;
    pending = p;
    next = ground arith;
  }
]

-- With a free entry, a function, a positive delay and pending timers, `add_timer` puts one new timer
-- into the list. It is due after exactly `jiffies` ticks, behind the timers that are due before that,
-- which stay as they were, and in front of the others, which stay as they were too.
pub add_timer-IsPlaced :
    (jiffies : ℤ) (fn : ℕ) (l : List Timer)
    → fn ≢ 0
    → IsPending (record { jiffies = jiffies; fn = fn })
    → AllPending l
    → length l < 64
    → (l' : List Timer) × (add_timer jiffies fn l ≡ ok (queued l'))
      × IsPlaced (record { jiffies = jiffies; fn = fn }) l l'
unfolding add_timer
add_timer-IsPlaced jiffies fn l f p q free =
    (sift (record { jiffies = jiffies; fn = fn }) l, ground arith, sift-IsPlaced _ l p q)

sift-front : (t n : Timer) (l : List Timer) → t.jiffies ≤ℤ n.jiffies → sift t (n ∷ l) ≡ t ∷ n ∷ l
unfolding sift
sift-front t n l h = ground arith

pub add_timer-front :
    (t : Timer) (jiffies : ℤ) (fn : ℕ) (l : List Timer)
    → fn ≢ 0
    → pos 0 <ℤ jiffies
    → jiffies ≤ℤ t.jiffies
    → length l < 63
    → add_timer jiffies fn (t ∷ l) ≡ ok (queued (record { jiffies = jiffies; fn = fn } ∷ t ∷ l))
unfolding add_timer
add_timer-front t jiffies fn l f p h free =
    ground (arith, sift-front (record { jiffies = jiffies; fn = fn }) t l h)
