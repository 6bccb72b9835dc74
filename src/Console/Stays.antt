-- ===== src/Console/Stays.antt =====
-- kernel/chr_drv/console.c, `con_write`: whatever is written, the cursor stays on the screen and no
-- write leaves the video memory.
use hit_os.Common.{ℕ, ◌+◌, refl, inl, inr, ◌&&◌, ltb, ◌==◌, arith, Bool-cases, List, [], ◌∷◌}
use hit_os.Common.Words.{add32, sub32}
use hit_os.Console.Defs.{Video, Console, insert_char, insert_line, delete_char, delete_line}
use hit_os.Console.Write.{
  clamp, csi_m, save_cur, at_least_one, less_one, restore_cur, escape_char, set_region,
  move_command, edit_command, command, param_char, con_char,
}
use hit_os.Console.Safe.{
  IsVideo, IsScreen, IsSafe, lf-IsSafe, ri-IsSafe, insert_line-IsSafe, delete_line-IsSafe,
}
use hit_os.Console.Chars.{
  repeat-IsSafe, same_screen, gotoxy-IsSafe, if-IsSafe, state-IsSafe, par-IsSafe, plain_char-IsSafe,
}
use hit_os.Console.Edit.{csi_J-IsSafe, csi_K-IsSafe, insert_char-IsSafe, delete_char-IsSafe}

module _ (v : Video) (video : IsVideo v) (m : ℕ → ℕ) where
  save_cur-IsSafe : (s : Console) → IsSafe v m s → IsSafe v m (save_cur s)
  unfolding save_cur
  save_cur-IsSafe s safe = same_screen v video m s _ safe (ground (arith, safe.screen)) (λ a. refl)

  restore_cur-IsSafe : (s : Console) → IsSafe v m s → IsSafe v m (restore_cur v s)
  unfolding restore_cur
  restore_cur-IsSafe s safe = gotoxy-IsSafe v video m s.saved_x s.saved_y s safe

  escape_char-IsSafe : (c : ℕ) (s : Console) → IsSafe v m s → IsSafe v m (escape_char v c s)
  unfolding escape_char
  escape_char-IsSafe c s safe =
      let safe' = state-IsSafe v video m 0 s safe in
      if-IsSafe v video m _ _ _ (state-IsSafe v video m 2 s safe) (
        if-IsSafe v video m _ _ _ (gotoxy-IsSafe v video m 0 (add32 s.y 1) _ safe') (
          if-IsSafe v video m _ _ _ (ri-IsSafe v video m _ safe') (
            if-IsSafe v video m _ _ _ (lf-IsSafe v video m _ safe') (
              if-IsSafe v video m _ _ _ (safe') (
                if-IsSafe v video m _ _ _ (save_cur-IsSafe _ safe')
                  (if-IsSafe v video m _ _ _ (restore_cur-IsSafe _ safe') (safe')))))))

  at_least_one-IsSafe : (s : Console) → IsSafe v m s → IsSafe v m (at_least_one s)
  unfolding at_least_one
  at_least_one-IsSafe s safe = par-IsSafe v video m _ s safe

  less_one-IsSafe : (i : ℕ) (s : Console) → IsSafe v m s → IsSafe v m (less_one i s)
  unfolding less_one
  less_one-IsSafe i s safe = par-IsSafe v video m _ s safe

  move_command-IsSafe : (c : ℕ) (s : Console) → IsSafe v m s → IsSafe v m (move_command v c s)
  unfolding move_command
  move_command-IsSafe c s safe =
      let s1 = less_one 0 s in
      let s2 = at_least_one s in
      let s3 = less_one 1 s1 in
      let one = at_least_one-IsSafe s safe in
      let less = less_one-IsSafe 0 s safe in
      if-IsSafe v video m _ _ _ (gotoxy-IsSafe v video m (s1.par 0) s.y _ less) (
        if-IsSafe v video m _ _ _ (gotoxy-IsSafe v video m s.x (sub32 s.y (s2.par 0)) _ one) (
          if-IsSafe v video m _ _ _ (gotoxy-IsSafe v video m s.x (add32 s.y (s2.par 0)) _ one) (
            if-IsSafe v video m _ _ _ (gotoxy-IsSafe v video m (add32 s.x (s2.par 0)) s.y _ one) (
              if-IsSafe v video m _ _ _ (gotoxy-IsSafe v video m (sub32 s.x (s2.par 0)) s.y _ one) (
                if-IsSafe v video m _ _ _ (gotoxy-IsSafe v video m 0 (add32 s.y (s2.par 0)) _ one) (
                  if-IsSafe v video m _ _ _ (gotoxy-IsSafe v video m 0 (sub32 s.y (s2.par 0)) _ one)
                    (if-IsSafe v video m _ _ _ (gotoxy-IsSafe v video m s.x (s1.par 0) _ less) (
                      if-IsSafe v video m _ _ _
                        (gotoxy-IsSafe v video m (s3.par 1) (s3.par 0) _
                          (less_one-IsSafe 1 (less_one 0 s) less))
                        (safe)))))))))

  set_region-IsSafe : (s : Console) → IsSafe v m s → IsSafe v m (set_region v s)
  unfolding set_region less_one
  set_region-IsSafe s safe =
      same_screen v video m s _ safe (ground (arith, safe.screen)) (λ a. ground arith)

  csi_m-IsSafe : (s : Console) → IsSafe v m s → IsSafe v m (csi_m s)
  unfolding csi_m
  csi_m-IsSafe s safe = same_screen v video m s _ safe (ground (arith, safe.screen)) (λ a. refl)

  edit_command-IsSafe : (c : ℕ) (s : Console) → IsSafe v m s → IsSafe v m (edit_command v c s)
  unfolding edit_command
  edit_command-IsSafe c s safe =
      if-IsSafe v video m _ _ _ (csi_J-IsSafe v video (s.par 0) m s safe) (
        if-IsSafe v video m _ _ _ (csi_K-IsSafe v video (s.par 0) m s safe) (
          if-IsSafe v video m _ _ _
            (repeat-IsSafe v video m (clamp v.num_lines (s.par 0)) (insert_line v)
              (insert_line-IsSafe v video m) s safe)
            (if-IsSafe v video m _ _ _
              (repeat-IsSafe v video m (clamp v.num_lines (s.par 0)) (delete_line v)
                (delete_line-IsSafe v video m) s safe)
              (if-IsSafe v video m _ _ _
                (repeat-IsSafe v video m (clamp v.num_columns (s.par 0)) (delete_char v)
                  (delete_char-IsSafe v video m) s safe)
                (if-IsSafe v video m _ _ _
                  (repeat-IsSafe v video m (clamp v.num_columns (s.par 0)) (insert_char v)
                    (insert_char-IsSafe v video m) s safe)
                  (if-IsSafe v video m _ _ _ (csi_m-IsSafe s safe) (
                    if-IsSafe v video m _ _ _ (set_region-IsSafe s safe) (
                      if-IsSafe v video m _ _ _ (save_cur-IsSafe s safe)
                        (if-IsSafe v video m _ _ _ (restore_cur-IsSafe s safe) (safe))))))))))

  command-IsSafe : (c : ℕ) (s : Console) → IsSafe v m s → IsSafe v m (command v c s)
  unfolding command
  command-IsSafe c s safe = edit_command-IsSafe c _ (move_command-IsSafe c s safe)

  param_char-IsSafe : (c : ℕ) (s : Console) → IsSafe v m s → IsSafe v m (param_char v c s)
  unfolding param_char
  param_char-IsSafe c s safe = elim (Bool-cases ((c == b';') && ltb s.npar 15)) [
    | inl more ↦ rw more (
        same_screen v video m s (record s { npar = s.npar + 1 }) safe (ground (arith, safe.screen))
          (λ a. refl))
    | inr other ↦ rw other (
        if-IsSafe v video m _ _ _ (par-IsSafe v video m _ s safe)
          (command-IsSafe c _ (state-IsSafe v video m 0 s safe)))
  ]

  -- One character keeps the console safe, in every state of the escape sequences.
  pub con_char-IsSafe :
      (verase c : ℕ) (s : Console) → IsSafe v m s → IsSafe v m (con_char v verase c s)
  unfolding con_char
  con_char-IsSafe verase c s safe =
      let start = record s { par = λ _. 0; npar = 0; state = 3; ques = c == b'?' } in
      let safe' : IsSafe v m start =
        same_screen v video m s start safe (ground (arith, safe.screen)) (λ a. refl) in
      if-IsSafe v video m (s.state == 0) _ _ (plain_char-IsSafe v video m verase c s safe) (
        if-IsSafe v video m (s.state == 1) _ _ (escape_char-IsSafe c s safe) (
          if-IsSafe v video m (s.state == 2) _ _
            (if-IsSafe v video m (c == b'?') _ _ safe' (param_char-IsSafe c start safe'))
            (if-IsSafe v video m (s.state == 3) _ _ (param_char-IsSafe c s safe) (
              if-IsSafe v video m (s.state == 4) _ _
                (command-IsSafe c _ (state-IsSafe v video m 0 s safe)) (safe)))))

-- The console after a sequence of characters.
unfoldable pub con_chars : Video → ℕ → List ℕ → Console → Console
con_chars v verase [] s = s
con_chars v verase (c ∷ cs) s = con_chars v verase cs (con_char v verase c s)

-- Whatever is written to a console that is in order, in a mode of at least 8 columns that fits the
-- video memory: the cursor stays on the screen and `pos` stays its address, the screen stays in the
-- video memory, the scroll region on the screen and the parameters in their array; and no write
-- leaves the video memory.
pub con_chars-IsSafe :
    (v : Video) (verase : ℕ) (cs : List ℕ) (s : Console)
    → IsVideo v
    → IsScreen v s
    → IsSafe v s.mem (con_chars v verase cs s)
unfolding con_chars
con_chars-IsSafe v verase cs s video i = go cs s (record { screen = i; outside = λ a out. refl })
  where
    go :
        (cs : List ℕ) (s' : Console) → IsSafe v s.mem s' → IsSafe v s.mem (con_chars v verase cs s')
    go [] s' safe = safe
    go (c ∷ cs) s' safe =
        go cs (con_char v verase c s') (con_char-IsSafe v video s.mem verase c s' safe)
