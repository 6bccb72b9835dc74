-- ===== src/Wait/Children.antt =====
-- kernel/exit.c, `sys_waitpid`: what the loop sees at the children of the current task.
use hit_os.Common.{
  ℕ, zero, suc, ◌≡◌, ◌≢◌, refl, sym, ap, ◌∙◌, ne→not-==, arith, Bool, true, false, not, ◌||◌,
  Option, none, some, ◌==◌, if◌then◌else◌, ◌⊎◌, inl, inr, not-==→ne,
}
use hit_os.Common.Int.{ℤ, pos, negsuc, eqz, ◌<ℤ◌, ◌-ℤ◌, wrap32}
use hit_os.Task.{Task, TaskState, running, interruptible, uninterruptible, zombie, stopped}
use hit_os.Sched.{Table}
use hit_os.Wait.{is_waited, Look, passes, lives, stops, dies, look_state, look_slot, look}

-- A slot for which the call does not return.
abbrev pub IsPassed : Look → Type 0
IsPassed v = (v ≡ passes) ⊎ (v ≡ lives)

-- The processes that a call for `pid` asks for: one process, the group of the caller, every process, or
-- the group -pid.
abbrev pub IsAsked : (pid : ℤ) (cur t : Task) → Type 0
IsAsked pid cur t =
    ((pos 0 <ℤ pid) × (t.pid ≡ pid))
    ⊎ ((pid ≡ pos 0) × (t.pgrp ≡ cur.pgrp))
    ⊎ (pid ≡ negsuc 0)
    ⊎ ((pid <ℤ negsuc 0) × (t.pgrp ≡ wrap32 (pos 0 -ℤ pid)))

-- A child of the current task, in another slot, that the call asks for.
pub record IsChild (pid : ℤ) (me : ℕ) (cur : Task) (task : Table) (i : ℕ) (t : Task) : Type 0 where
  pub at : task i ≡ some t
  pub other : i ≢ me
  pub child : t.father ≡ cur.pid
  pub asked : IsAsked pid cur t

pub eqz-eq : (a b : ℤ) → eqz a b ≡ true → a ≡ b
eqz-eq a b e = ground arith

eq-eqz : (a b : ℤ) → a ≡ b → eqz a b ≡ true
eq-eqz a b e = ground arith

is_waited-IsAsked : (pid : ℤ) (cur t : Task) → is_waited pid cur t ≡ true → IsAsked pid cur t
unfolding is_waited
is_waited-IsAsked (pos zero) cur t e =
    let here : eqz t.pgrp cur.pgrp ≡ true = ground arith in inr (inl (refl, eqz-eq _ _ here))
is_waited-IsAsked (pos (suc n)) cur t e =
    let here : eqz t.pid (pos (suc n)) ≡ true = ground arith in inl (omega arith, eqz-eq _ _ here)
is_waited-IsAsked (negsuc zero) cur t e = inr (inr (inl refl))
is_waited-IsAsked (negsuc (suc n)) cur t e =
    let here : eqz t.pgrp (wrap32 (pos 0 -ℤ negsuc (suc n))) ≡ true = ground arith in
    inr (inr (inr (omega arith, eqz-eq _ _ here)))

IsAsked-is_waited : (pid : ℤ) (cur t : Task) → IsAsked pid cur t → is_waited pid cur t ≡ true
unfolding is_waited
IsAsked-is_waited pid cur t (inl (l, e)) = ground (arith, eq-eqz t.pid pid e)
IsAsked-is_waited pid cur t (inr (inl (z, e))) = ground (arith, eq-eqz t.pgrp cur.pgrp e)
IsAsked-is_waited pid cur t (inr (inr (inl m))) = ground arith
IsAsked-is_waited pid cur t (inr (inr (inr (l, e)))) = ground (arith, eq-eqz t.pgrp _ e)

look_filter :
    (a b c : Bool) (v w : Look)
    → w ≢ passes
    → (if a || not b || not c then passes else v) ≡ w
    → (a ≡ false) × (b ≡ true) × (c ≡ true) × (v ≡ w)
look_filter true b c v w ne e = absurd (ne (sym e))
look_filter false false c v w ne e = absurd (ne (sym e))
look_filter false true false v w ne e = absurd (ne (sym e))
look_filter false true true v w ne e = (refl, refl, refl, e)

look_slot-IsChild :
    (pid : ℤ) (u : Bool) (me : ℕ) (cur : Task) (i : ℕ) (o : Option Task) (w : Look)
    → w ≢ passes
    → look_slot pid u me cur i o ≡ w
    → (t : Task) × (o ≡ some t)
      × (i ≢ me)
      × (t.father ≡ cur.pid)
      × IsAsked pid cur t
      × (look_state u t.state ≡ w)
unfolding look_slot
look_slot-IsChild pid u me cur i none w ne e = absurd (ne (sym e))
look_slot-IsChild pid u me cur i (some t) w ne e =
    let (a, b, c, v) =
      look_filter (i == me) (eqz t.father cur.pid) (is_waited pid cur t) (look_state u t.state) w ne
        e in
    (t, refl, not-==→ne i me a, eqz-eq t.father cur.pid b, is_waited-IsAsked pid cur t c, v)

pub look-IsChild :
    (pid : ℤ) (u : Bool) (me : ℕ) (cur : Task) (task : Table) (i : ℕ) (w : Look)
    → w ≢ passes
    → look pid u me cur task i ≡ w
    → (t : Task) × IsChild pid me cur task i t × (look_state u t.state ≡ w)
unfolding look
look-IsChild pid u me cur task i w ne e =
    let (t, at, other, child, asked, v) = look_slot-IsChild pid u me cur i (task i) w ne e in
    (t, record { at = at; other = other; child = child; asked = asked }, v)

-- What the loop sees at a child is what its state says.
pub IsChild-look :
    (pid : ℤ) (u : Bool) (me : ℕ) (cur : Task) (task : Table) (i : ℕ) (t : Task)
    → IsChild pid me cur task i t
    → look pid u me cur task i ≡ look_state u t.state
unfolding look look_slot
IsChild-look pid u me cur task i t c =
    ap (λ (o : Option Task). look_slot pid u me cur i o) c.at
    ∙ rw
        (
          ne→not-== i me c.other,
          eq-eqz t.father cur.pid c.child,
          IsAsked-is_waited pid cur t c.asked,
        )
        refl

-- A child for which the call does not return: no zombie, and stopped only without WUNTRACED.
abbrev pub IsSkipped : (untraced : Bool) → TaskState → Type 0
IsSkipped untraced s = (s ≢ zombie) × ((s ≢ stopped) ⊎ (untraced ≡ false))

pub passed-IsSkipped : (u : Bool) (s : TaskState) → IsPassed (look_state u s) → IsSkipped u s
passed-IsSkipped u running p = (λ e. cc, inl (λ e. cc))
passed-IsSkipped u interruptible p = (λ e. cc, inl (λ e. cc))
passed-IsSkipped u uninterruptible p = (λ e. cc, inl (λ e. cc))
passed-IsSkipped u zombie (inl e) = cc
passed-IsSkipped u zombie (inr e) = cc
passed-IsSkipped true stopped (inl e) = cc
passed-IsSkipped true stopped (inr e) = cc
passed-IsSkipped false stopped p = (λ e. cc, inr refl)

pub stops-stopped : (u : Bool) (s : TaskState) → look_state u s ≡ stops → (s ≡ stopped) × (u ≡ true)
stops-stopped u running e = cc
stops-stopped u interruptible e = cc
stops-stopped u uninterruptible e = cc
stops-stopped u zombie e = cc
stops-stopped true stopped e = (refl, refl)
stops-stopped false stopped e = cc

pub dies-zombie : (u : Bool) (s : TaskState) → look_state u s ≡ dies → s ≡ zombie
dies-zombie u running e = cc
dies-zombie u interruptible e = cc
dies-zombie u uninterruptible e = cc
dies-zombie u zombie e = refl
dies-zombie true stopped e = cc
dies-zombie false stopped e = cc

pub lives-alive : (u : Bool) (s : TaskState) → look_state u s ≡ lives → (s ≢ zombie) × (s ≢ stopped)
lives-alive u running e = (λ e. cc, λ e. cc)
lives-alive u interruptible e = (λ e. cc, λ e. cc)
lives-alive u uninterruptible e = (λ e. cc, λ e. cc)
lives-alive u zombie e = cc
lives-alive true stopped e = cc
lives-alive false stopped e = cc

pub passes-stopped :
    (u : Bool) (s : TaskState) → look_state u s ≡ passes → (s ≡ stopped) × (u ≡ false)
passes-stopped u running e = cc
passes-stopped u interruptible e = cc
passes-stopped u uninterruptible e = cc
passes-stopped u zombie e = cc
passes-stopped true stopped e = cc
passes-stopped false stopped e = (refl, refl)
