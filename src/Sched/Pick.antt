-- ===== src/Sched/Pick.antt =====
-- kernel/sched.c, lines 125 to 134: what the search for the next task finds.
use native.Mathlib.Decide.{ℕ_discrete}
use hit_os.Common.{
  ℕ, zero, suc, ◌≤◌, ◌<◌, ◌≡◌, refl, ◌⊎◌, inl, inr, ◌&&◌, some, arith, ◌∙◌, for_down, Bool-cases,
  Option-cases,
}
use hit_os.Common.Int.{ℤ, negsuc, ltz, ◌≤ℤ◌, ◌<ℤ◌}
use hit_os.Task.{Task, running, is_running}
use hit_os.Sched.Defs.{Table, consider, pick}

-- `r` is the result of a search over the slots 1 to `n` that began with `s`.
pub record IsPick (task : Table) (n : ℕ) (s r : ℤ × ℕ) : Type 0 where
  pub grows : s.0 ≤ℤ r.0
  pub largest :
      (i : ℕ) (t : Task) → 0 < i → i ≤ n → task i ≡ some t → t.state ≡ running → t.counter ≤ℤ r.0
  pub source :
      (r ≡ s)
      ⊎ ((t : Task) × (0 < r.1)
          × (r.1 ≤ n)
          × (task r.1 ≡ some t)
          × (t.state ≡ running)
          × (t.counter ≡ r.0)
          × (s.0 <ℤ r.0))

consider_cases :
    (task : Table) (i : ℕ) (c : ℤ) (next : ℕ)
    → (consider task i (c, next) ≡ (c, next))
      ⊎ ((t : Task) × (task i ≡ some t)
          × (t.state ≡ running)
          × (c <ℤ t.counter)
          × (consider task i (c, next) ≡ (t.counter, i)))
unfolding consider
consider_cases task i c next = elim (Option-cases (task i)) [
  | inl e ↦ inl (ground arith)
  | inr (t, e) ↦ elim (Bool-cases (is_running t.state && ltz c t.counter)) [
    | inl b ↦ inr (t, e, ground arith, ground arith, ground arith)
    | inr b ↦ inl (ground arith)
  ]
]

consider-grows : (task : Table) (i : ℕ) (c : ℤ) (next : ℕ) → c ≤ℤ (consider task i (c, next)).0
unfolding consider
consider-grows task i c next = ground arith

consider-largest :
    (task : Table) (i : ℕ) (c : ℤ) (next : ℕ) (t : Task)
    → task i ≡ some t
    → t.state ≡ running
    → t.counter ≤ℤ (consider task i (c, next)).0
unfolding consider
consider-largest task i c next t e h = ground arith

consider-IsPick :
    (task : Table) (n : ℕ) (c : ℤ) (next : ℕ) (r : ℤ × ℕ)
    → IsPick task n (consider task (suc n) (c, next)) r
    → IsPick task (suc n) (c, next) r
consider-IsPick task n c next r p = record {
  grows = omega (arith, p.grows, consider-grows task (suc n) c next);
  largest = λ i t low high e h. elim (ℕ_discrete i (suc n)) [
    | yes last ↦ ground (arith, consider-largest task (suc n) c next t)
    | no other ↦ p.largest i t low (omega arith) e h
  ];
  source = elim p.source [
    | inl e ↦ elim (consider_cases task (suc n) c next) [
      | inl q ↦ inl (e ∙ q)
      | inr (t, at, h, l, q) ↦ rw (e ∙ q) (inr (t, omega arith, omega arith, at, h, refl, l))
    ]
    | inr (t, low, high, at, h, q, l) ↦
        inr (t, low, omega arith, at, h, q, omega (arith, consider-grows task (suc n) c next))
  ];
}

pub for_down-IsPick :
    (task : Table) (n : ℕ) (s : ℤ × ℕ) → IsPick task n s (for_down n (consider task) s)
unfolding for_down
for_down-IsPick task zero (c, next) = record {
  grows = omega arith;
  largest = λ i t p q. absurd (omega arith);
  source = inl refl;
}
for_down-IsPick task (suc n) (c, next) =
    consider-IsPick task n c next _ (for_down-IsPick task n (consider task (suc n) (c, next)))

-- `next` is slot 0 if no task of slots 1 to 63 is runnable with a counter of 0 or more; otherwise it
-- is such a task, of largest counter.
pub pick-IsPick : (task : Table) → IsPick task 63 (negsuc 0, 0) (pick task)
unfolding pick
pick-IsPick task = for_down-IsPick task 63 (negsuc 0, 0)
