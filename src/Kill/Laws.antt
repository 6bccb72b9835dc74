-- ===== src/Kill/Laws.antt =====
-- kernel/exit.c, `sys_kill`: who gets the signal, and what is returned.
use native.Mathlib.Decide.{ℕ_discrete}
use hit_os.Common.{
  ℕ, zero, suc, ◌≤◌, ◌<◌, ◌≡◌, refl, ◌∙◌, sym, ap, fun_ext, ◌≢◌, ◌⊎◌, inl, inr, false, Option, none,
  arith, leb, if◌then◌else◌, Bool-cases, update_self, update_ne, for_down, for_down_inv, rewrite_at,
  for_down-rewrite_in, for_down-rewrite_above, for_down-rewrite_zero,
}
use hit_os.Common.Int.{ℤ, pos, negsuc, is_zero}
use hit_os.Task.{Task}
use hit_os.Kill.{einval, send_sig, is_addressed, kill_one, sys_kill}

is_zero-false : (z : ℤ) → is_zero z ≡ false → z ≢ pos 0
is_zero-false (pos n) e q = ground arith
is_zero-false (negsuc n) e q = cc

module _ (pid sig : ℤ) (me : Task) where
  -- What becomes of one task: it gets the signal if it is addressed and may be sent the signal.
  abbrev pub signalled : Option Task → Option Task
  signalled p = if is_addressed pid me p then (send_sig sig me.euid (is_zero pid) p).1 else p

  -- What a call promises of slot `i`, of which it makes `p`.
  abbrev pub KillResult : (ℕ → Option Task) → ℕ → Option Task → Type 0
  KillResult task i p =
      ((0 < i) × (i ≤ 63) × (p ≡ signalled (task i))) ⊎ (((i ≡ 0) ⊎ (63 < i)) × (p ≡ task i))

  kill_one-table :
      (i : ℕ) (r : ℤ) (task : ℕ → Option Task)
      → (kill_one pid sig me i (r, task)).1 ≡ rewrite_at signalled i task
  unfolding kill_one
  kill_one-table i r task = fun_ext (λ j. elim (Bool-cases (is_addressed pid me (task i))) [
    | inl hit ↦ rw hit refl
    | inr miss ↦ elim (ℕ_discrete i j) [
      | yes e ↦ rw (miss, ← e, update_self task i (task i)) refl
      | no ne ↦ rw (miss, update_ne task i (task i) j ne) refl
    ]
  ])

  kill_all-table :
      (n : ℕ) (r : ℤ) (task : ℕ → Option Task)
      → (for_down n (kill_one pid sig me) (r, task)).1 ≡ for_down n (rewrite_at signalled) task
  unfolding for_down
  kill_all-table zero r task = refl
  kill_all-table (suc n) r task =
      kill_all-table n (kill_one pid sig me (suc n) (r, task)).0
        (kill_one pid sig me (suc n) (r, task)).1
      ∙ ap (for_down n (rewrite_at signalled)) (kill_one-table (suc n) r task)

  -- `kill` sends the signal to each task of the slots 1 to 63 that it addresses and that may be sent
  -- it, and leaves every other task, that of slot 0 included, as it is.
  pub sys_kill-table :
      (task : ℕ → Option Task) (i : ℕ) → KillResult task i ((sys_kill pid sig me task).1 i)
  unfolding sys_kill
  sys_kill-table task zero = inr (
    inl refl,
    ap (λ f. f 0) (kill_all-table 63 (pos 0) task) ∙ for_down-rewrite_zero signalled 63 task,
  )
  sys_kill-table task (suc i) = elim (Bool-cases (leb (suc i) 63)) [
    | inl low ↦ inl (
      omega arith,
      ground arith,
      ap (λ f. f (suc i)) (kill_all-table 63 (pos 0) task)
          ∙ for_down-rewrite_in signalled 63 (suc i) task (omega arith) (ground arith),
    )
    | inr high ↦ inr (
      inr (ground arith),
      ap (λ f. f (suc i)) (kill_all-table 63 (pos 0) task)
          ∙ for_down-rewrite_above signalled 63 (suc i) task (ground arith),
    )
  ]

  -- Once there is an error to return, there is one after each round.
  kill_one-failed :
      (i : ℕ) (s : ℤ × (ℕ → Option Task)) → s.0 ≢ pos 0 → (kill_one pid sig me i s).0 ≢ pos 0
  unfolding kill_one
  kill_one-failed i (r, task) h = elim (Bool-cases (is_addressed pid me (task i))) [
    | inr miss ↦ rw miss h
    | inl hit ↦ elim (Bool-cases (is_zero (send_sig sig me.euid (is_zero pid) (task i)).0)) [
      | inl sent ↦ rw (hit, sent) h
      | inr error ↦ rw (hit, error) (λ q. is_zero-false _ error q)
    ]
  ]

-- An empty slot is an error of the loop for the pid -1.
kill_one-empty :
    (sig : ℤ) (me : Task) (i : ℕ) (r : ℤ) (task : ℕ → Option Task)
    → task i ≡ none
    → (kill_one (negsuc 0) sig me i (r, task)).0 ≡ einval
unfolding kill_one send_sig
kill_one-empty sig me i r task e = rw e refl

einval-nonzero : einval ≢ pos 0
einval-nonzero q = cc

kill_all-empty :
    (sig : ℤ) (me : Task) (n i : ℕ) (r : ℤ) (task : ℕ → Option Task)
    → task i ≡ none
    → 0 < i
    → i ≤ n
    → (for_down n (kill_one (negsuc 0) sig me) (r, task)).0 ≢ pos 0
unfolding for_down
kill_all-empty sig me zero i r task e l h = absurd (omega arith)
kill_all-empty sig me (suc n) i r task e l h = elim (ℕ_discrete i (suc n)) [
  | yes same ↦
      for_down_inv (λ s. s.0 ≢ pos 0) (kill_one (negsuc 0) sig me)
        (kill_one-failed (negsuc 0) sig me) n (kill_one (negsuc 0) sig me (suc n) (r, task))
        (λ q. einval-nonzero (sym (kill_one-empty sig me (suc n) r task (rw (← same) e)) ∙ q))
  | no ne ↦
      kill_all-empty sig me n i (kill_one (negsuc 0) sig me (suc n) (r, task)).0
        (kill_one (negsuc 0) sig me (suc n) (r, task)).1
        (ap (λ f. f i) (kill_one-table (negsuc 0) sig me (suc n) r task)
          ∙ update_ne task (suc n) (signalled (negsuc 0) sig me (task (suc n))) i (λ q. ne (sym q))
          ∙ e)
        l (omega arith)
]

-- `kill` of the pid -1 fails whenever one of the slots 1 to 63 is empty, whoever calls it and
-- whatever the signal is.
pub sys_kill-empty :
    (sig : ℤ) (me : Task) (task : ℕ → Option Task) (i : ℕ)
    → 0 < i
    → i ≤ 63
    → task i ≡ none
    → (sys_kill (negsuc 0) sig me task).0 ≢ pos 0
unfolding sys_kill
sys_kill-empty sig me task i l h e = kill_all-empty sig me 63 i (pos 0) task e l h
