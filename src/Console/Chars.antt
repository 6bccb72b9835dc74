-- ===== src/Console/Chars.antt =====
-- kernel/chr_drv/console.c, `con_write`: characters that are no part of an escape sequence keep the
-- console safe.
use hit_os.Common.{
  ℕ, zero, suc, ◌+◌, ◌-◌, ◌*◌, ◌%◌, ◌^◌, ◌≤◌, ◌<◌, ◌≡◌, refl, ◌∙◌, inl, inr, Bool, ltb, leb,
  if◌then◌else◌, update_ne, arith, Bool-cases, if_keeps,
}
use hit_os.Console.Defs.{Video, Console, gotoxy, scrup, scroll_origin, scroll_lines, lf}
use hit_os.Console.Write.{
  cr, repeat, sysbeep, wrap_line, put_cell, put_char, back_space, tab, plain_char,
}
use hit_os.Console.Safe.{IsVideo, IsScreen, IsSafe, gotoxy-IsScreen, lf-IsSafe}
use hit_os.Console.Edit.{line_in, del-IsSafe}

module _ (v : Video) (video : IsVideo v) (m : ℕ → ℕ) where
  pub lf-x : (s : Console) → (lf v s).x ≡ s.x
  unfolding lf scrup scroll_origin scroll_lines
  lf-x s = ground arith

  pub repeat-IsSafe :
      (n : ℕ) (f : Console → Console)
      → ((s : Console) → IsSafe v m s → IsSafe v m (f s))
      → (s : Console) → IsSafe v m s
      → IsSafe v m (repeat n f s)
  unfolding repeat
  repeat-IsSafe zero f keep s safe = safe
  repeat-IsSafe (suc n) f keep s safe = repeat-IsSafe n f keep (f s) (keep s safe)

  -- A change of the other fields.
  pub same_screen :
      (s s' : Console)
      → IsSafe v m s
      → IsScreen v s'
      → ((a : ℕ) → s'.mem a ≡ s.mem a)
      → IsSafe v m s'
  same_screen s s' safe i same = record {
    screen = i;
    outside = λ a out. same a ∙ safe.outside a out;
  }

  pub gotoxy-IsSafe : (a b : ℕ) (s : Console) → IsSafe v m s → IsSafe v m (gotoxy v a b s)
  unfolding gotoxy
  gotoxy-IsSafe a b s safe =
      same_screen s (gotoxy v a b s) safe (gotoxy-IsScreen v video a b s safe.screen)
        (λ a'. ground arith)

  pub cr-IsSafe : (s : Console) → IsSafe v m s → IsSafe v m (cr s)
  unfolding cr
  cr-IsSafe s safe = same_screen s (cr s) safe (ground (arith, safe.screen)) (λ a. refl)

  pub back_space-IsSafe : (s : Console) → IsSafe v m s → IsSafe v m (back_space v s)
  unfolding back_space
  back_space-IsSafe s safe =
      same_screen s (back_space v s) safe (ground (arith, safe.screen)) (λ a. ground arith)

  pub put_cell-IsSafe :
      (c : ℕ) (s : Console) → IsSafe v m s → s.x < v.num_columns → IsSafe v m (put_cell v c s)
  unfolding put_cell
  put_cell-IsSafe c s safe h = record {
    screen = ground (arith, safe.screen);
    outside = λ a out.
        let (l, e, b) = line_in v video s safe.screen in
        update_ne s.mem s.pos (s.attr * 2 ^ 8 + c) a (grind (arith, safe.screen))
        ∙ safe.outside a out;
  }

  -- At the right margin the cursor goes to the start of the next line.
  pub wrap_line-IsSafe :
      (s : Console)
      → IsSafe v m s
      → v.num_columns ≤ s.x
      → IsSafe v m (wrap_line v s) × ((wrap_line v s).x ≡ 0)
  unfolding wrap_line
  wrap_line-IsSafe s safe h =
      let s' = record s { x = s.x - v.num_columns; pos = s.pos - v.size_row } in
      let i : IsScreen v s' = ground (arith, safe.screen, video) in
      (
        lf-IsSafe v video m s' (same_screen s s' safe i (λ a. refl)),
        lf-x s' ∙ omega (arith, safe.screen),
      )

  pub put_char-IsSafe : (c : ℕ) (s : Console) → IsSafe v m s → IsSafe v m (put_char v c s)
  unfolding put_char
  put_char-IsSafe c s safe = elim (Bool-cases (leb v.num_columns s.x)) [
    | inl margin ↦
        let (safe', start) = wrap_line-IsSafe s safe (ground arith) in
        rw margin (put_cell-IsSafe c (wrap_line v s) safe' (omega (arith, start, video)))
    | inr within ↦ rw within (put_cell-IsSafe c s safe (ground arith))
  ]

  pub tab-IsSafe : (s : Console) → IsSafe v m s → IsSafe v m (tab v s)
  unfolding tab wrap_line
  tab-IsSafe s safe =
      let c = 8 - s.x % 8 in
      elim (Bool-cases (ltb v.num_columns (s.x + c))) [
        | inl over ↦
            let s' = record s { x = s.x + c - v.num_columns; pos = s.pos + c * 2 - v.size_row } in
            let i : IsScreen v s' = ground (arith, safe.screen, video) in
            rw over (lf-IsSafe v video m s' (same_screen s s' safe i (λ a. refl)))
        | inr within ↦ rw within (same_screen s _ safe (ground (arith, safe.screen)) (λ a. refl))
      ]

  pub if-IsSafe :
      (b : Bool) (s s' : Console) → IsSafe v m s → IsSafe v m s' → IsSafe v m (if b then s else s')
  if-IsSafe = if_keeps (IsSafe v m)

  pub sysbeep-IsSafe : (s : Console) → IsSafe v m s → IsSafe v m (sysbeep s)
  unfolding sysbeep
  sysbeep-IsSafe s safe = same_screen s _ safe (ground (arith, safe.screen)) (λ a. refl)

  pub state-IsSafe : (n : ℕ) (s : Console) → IsSafe v m s → IsSafe v m (record s { state = n })
  state-IsSafe n s safe =
      same_screen s (record s { state = n }) safe (ground (arith, safe.screen)) (λ a. refl)

  pub par-IsSafe : (par : ℕ → ℕ) (s : Console) → IsSafe v m s → IsSafe v m (record s { par = par })
  par-IsSafe par s safe =
      same_screen s (record s { par = par }) safe (ground (arith, safe.screen)) (λ a. refl)

  pub plain_char-IsSafe :
      (verase c : ℕ) (s : Console) → IsSafe v m s → IsSafe v m (plain_char v verase c s)
  unfolding plain_char
  plain_char-IsSafe verase c s safe = if-IsSafe _ _ _ (put_char-IsSafe c s safe) (
      if-IsSafe _ _ _ (state-IsSafe 1 s safe) (
        if-IsSafe _ _ _ (lf-IsSafe v video m s safe) (
          if-IsSafe _ _ _ (cr-IsSafe s safe) (
            if-IsSafe _ _ _ (del-IsSafe v video m s safe) (
              if-IsSafe _ _ _ (back_space-IsSafe s safe) (
                if-IsSafe _ _ _ (tab-IsSafe s safe)
                  (if-IsSafe _ _ _ (sysbeep-IsSafe s safe) (safe))))))))
