-- ===== src/Tty/Discipline.antt =====
-- kernel/chr_drv/tty_io.c, `copy_to_cooked`: the line discipline as an edit of lists.
use hit_os.Common.{
  ℕ, zero, suc, ◌<◌, ◌≡◌, refl, sym, ap, ◌∙◌, ◌⊎◌, inl, inr, Bool, true, false, ◌&&◌, ◌||◌, some,
  List, [], ◌∷◌, ◌++◌, arith, Bool-cases, Option-cases,
}
use hit_os.TtyQueue.{is_empty, is_full, last, chars, getch, putch, unput}
use hit_os.TtyQueue.Fifo.{IsRing, contents, contents-getch}
use hit_os.TtyQueue.Typed.{
  typed, typed-putch, typed-unput, typed-empty, contents-empty, chars_small, chars-getch,
  chars-unput, getch-IsRing, putch-IsRing, unput-IsRing,
}
use hit_os.Tty.Line.{
  killed, erased, extended, edited, disciplined, KeepsInput, Makes, if-Makes, MakesSome,
  if-MakesSome,
}
use hit_os.Tty.Defs.{
  copy_to_cooked, wake_readers, Termios, Tty, is_char, l_canon, l_isig, l_echo, ends_line,
  translate, tty_intr, echo_erase, drop_last, kill_line, erase_char, echo, keep_char, signal_char,
  cook_char, cook,
}

module _ (t : Termios) (write : Tty → Tty) (keeps : KeepsInput write) where
  echo_erase-keeps :
      (c : ℕ) (s : Tty)
      → ((echo_erase t write c s).read_q ≡ s.read_q)
        × ((echo_erase t write c s).secondary ≡ s.secondary)
  unfolding echo_erase
  echo_erase-keeps c s = elim (Bool-cases (l_echo t)) [
    | inl on ↦ rw on (keeps.read_q _, keeps.secondary _)
    | inr off ↦ rw off (refl, refl)
  ]

  echo-keeps :
      (c : ℕ) (s : Tty)
      → ((echo t write c s).read_q ≡ s.read_q) × ((echo t write c s).secondary ≡ s.secondary)
  unfolding echo
  echo-keeps c s = elim (Bool-cases (l_echo t)) [
    | inl on ↦ rw on (keeps.read_q _, keeps.secondary _)
    | inr off ↦ rw off (refl, refl)
  ]

  drop_last-keeps :
      (c : ℕ) (s : Tty)
      → ((drop_last t write c s).read_q ≡ s.read_q)
        × ((drop_last t write c s).secondary ≡ unput s.secondary)
  unfolding drop_last
  drop_last-keeps c s = let (input, line) = echo_erase-keeps c s in (input, ap unput line)

  erase_char-Makes :
      (s : Tty) → IsRing s.secondary → Makes (erased t (typed s.secondary)) s (erase_char t write s)
  unfolding erase_char erased
  erase_char-Makes s ring = elim (Bool-cases (is_empty s.secondary)) [
    | inl none_left ↦
        rw (none_left, typed-empty s.secondary none_left)
          (record { line = typed-empty s.secondary none_left; input = refl; ring = ring })
    | inr some_left ↦
        let line = typed-unput s.secondary ring some_left in
        elim (Bool-cases (ends_line t (last s.secondary))) [
          | inl ends ↦
              rw (some_left, line, ends) (record { line = line; input = refl; ring = ring })
          | inr within ↦
              let (input, same) = drop_last-keeps (last s.secondary) s in
              rw (some_left, line, within)
                (record {
                  line = ap typed same;
                  input = input;
                  ring = rw same (unput-IsRing s.secondary ring);
                })
        ]
  ]

  kill_line-Makes :
      (fuel : ℕ) (s : Tty)
      → IsRing s.secondary
      → chars s.secondary < fuel
      → (s' : Tty) × (kill_line t write fuel s ≡ some s')
        × Makes (killed t (typed s.secondary)) s s'
  unfolding kill_line killed
  kill_line-Makes zero s ring h = absurd (omega arith)
  kill_line-Makes (suc fuel) s ring h = elim (Bool-cases (is_empty s.secondary)) [
    | inl none_left ↦ (
      s,
      rw (kill_line, none_left) refl,
      rw (typed-empty s.secondary none_left)
          (record { line = typed-empty s.secondary none_left; input = refl; ring = ring }),
    )
    | inr some_left ↦
        let line = typed-unput s.secondary ring some_left in
        elim (Bool-cases (ends_line t (last s.secondary))) [
          | inl ends ↦ (
            s,
            rw (kill_line, some_left, ends) refl,
            rw (line, ends) (record { line = line; input = refl; ring = ring }),
          )
          | inr within ↦
              let s' = drop_last t write (last s.secondary) s in
              let (input, same) = drop_last-keeps (last s.secondary) s in
              let ring' : IsRing s'.secondary = rw same (unput-IsRing s.secondary ring) in
              let fewer : chars s'.secondary < fuel =
                rw same (omega (arith, chars-unput s.secondary ring some_left)) in
              let (s'', e, made) = kill_line-Makes fuel s' ring' fewer in
              (
                s'',
                rw (kill_line, some_left, within) e,
                rw (line, within)
                    (record {
                      line = made.line ∙ ap (λ q. killed t (typed q)) same;
                      input = made.input ∙ input;
                      ring = made.ring;
                    }),
              )
        ]
  ]

  keep_char-Makes :
      (c : ℕ) (s : Tty)
      → IsRing s.secondary
      → is_full s.secondary ≡ false
      → Makes (c ∷ typed s.secondary) s (keep_char t write c s)
  unfolding keep_char
  keep_char-Makes c s ring room =
      let (input, same) = echo-keeps c _ in
      record {
        line = ap (λ q. typed (putch c q)) same ∙ typed-putch c s.secondary ring room;
        input = input;
        ring = rw same (putch-IsRing c s.secondary ring);
      }

  signal_char-Makes :
      (c : ℕ) (s : Tty)
      → IsRing s.secondary
      → is_full s.secondary ≡ false
      → Makes (extended t c (typed s.secondary)) s (signal_char t write c s)
  unfolding signal_char extended
  signal_char-Makes c s ring room =
      let same : Makes (typed s.secondary) s s = record {
        line = refl;
        input = refl;
        ring = ring;
      } in
      let signalled : (mask : ℕ)
          → Makes (typed s.secondary) s (record s { kernel = tty_intr t mask s.kernel }) =
        λ mask. record { line = refl; input = refl; ring = ring } in
      if-Makes (l_isig t && is_char c (t.c_cc 0)) _ _ s _ _ (signalled 2) (
        if-Makes (l_isig t && is_char c (t.c_cc 1)) _ _ s _ _ (signalled 4)
          (keep_char-Makes c s ring room))

  -- The body of the loop makes the edited line.
  cook_char-Makes :
      (c : ℕ) (s : Tty)
      → IsRing s.secondary
      → is_full s.secondary ≡ false
      → MakesSome (edited t c (typed s.secondary)) s (cook_char t write 1024 c s)
  unfolding cook_char edited
  cook_char-Makes c s ring room =
      let stop : (b : Bool) → Makes (typed s.secondary) s (record s { stopped = b }) =
        λ b. record { line = refl; input = refl; ring = ring } in
      if-MakesSome (l_canon t && is_char c (t.c_cc 3)) _ _ s _ _
        (kill_line-Makes 1024 s ring (chars_small s.secondary))
        (if-MakesSome (l_canon t && is_char c (t.c_cc 2)) _ _ s _ _
          (_, refl, erase_char-Makes s ring)
          (if-MakesSome (l_canon t && is_char c (t.c_cc 9)) _ _ s _ _ (_, refl, stop true)
            (if-MakesSome (l_canon t && is_char c (t.c_cc 8)) _ _ s _ _ (_, refl, stop false)
              (_, refl, signal_char-Makes c s ring room))))

  -- The loop, on fuel above the number of characters in `read_q`.
  cook-disciplined :
      (fuel : ℕ) (s : Tty)
      → IsRing s.read_q
      → IsRing s.secondary
      → chars s.read_q < fuel
      → (s' : Tty) × (taken : List ℕ) × (cook t write fuel s ≡ some s')
        × (contents s.read_q ≡ taken ++ contents s'.read_q)
        × (typed s'.secondary ≡ disciplined t taken (typed s.secondary))
        × ((contents s'.read_q ≡ []) ⊎ (is_full s'.secondary ≡ true))
  unfolding cook disciplined
  cook-disciplined zero s in_order ring h = absurd (omega arith)
  cook-disciplined (suc fuel) s in_order ring h =
      elim (Bool-cases (is_empty s.read_q || is_full s.secondary)) [
        | inl done ↦ (
          s,
          [],
          rw (cook, done) refl,
          refl,
          refl,
          elim (Bool-cases (is_empty s.read_q)) [
            | inl none_left ↦ inl (contents-empty s.read_q none_left)
            | inr some_left ↦ inr (ground arith)
          ],
        )
        | inr more ↦
            let some_in : is_empty s.read_q ≡ false = ground arith in
            let room : is_full s.secondary ≡ false = ground arith in
            let c = (getch s.read_q).0 in
            let s1 = record s { read_q = (getch s.read_q).1 } in
            let first = contents-getch s.read_q in_order some_in in
            let in_order' = getch-IsRing s.read_q in_order in
            let fewer : chars s1.read_q < fuel =
              omega (arith, chars-getch s.read_q in_order some_in) in
            elim (Option-cases (translate t c)) [
              | inl dropped ↦
                  let (s', taken, e, split, line, end) =
                    cook-disciplined fuel s1 in_order' ring fewer in
                  (
                    s',
                    c ∷ taken,
                    rw (cook, more, dropped) e,
                    first ∙ ap (λ l. c ∷ l) split,
                    rw dropped line,
                    end,
                  )
              | inr (c', translated) ↦
                  let (s2, made, makes) = cook_char-Makes c' s1 ring room in
                  let (s', taken, e, split, line, end) =
                    cook-disciplined fuel s2 (rw makes.input in_order') makes.ring
                      (rw makes.input fewer) in
                  (
                    s',
                    c ∷ taken,
                    rw (cook, more, translated, made) e,
                    first ∙ ap (λ l. c ∷ l) (ap contents (sym makes.input) ∙ split),
                    rw translated (line ∙ ap (disciplined t taken) makes.line),
                    end,
                  )
            ]
      ]

  -- With both input queues in order, and a `tty->write` that leaves them alone, `copy_to_cooked` ends
  -- (fuel above the number of characters in `read_q` is enough). It takes characters off the front of
  -- `read_q`, until none is left or `secondary` is full, and makes of the line in `secondary` what the
  -- line discipline makes of it with these characters.
  pub copy_to_cooked-disciplined :
      (fuel : ℕ) (s : Tty)
      → IsRing s.read_q
      → IsRing s.secondary
      → chars s.read_q < fuel
      → (s' : Tty) × (taken : List ℕ) × (copy_to_cooked t write fuel s ≡ some s')
        × (contents s.read_q ≡ taken ++ contents s'.read_q)
        × (typed s'.secondary ≡ disciplined t taken (typed s.secondary))
        × ((contents s'.read_q ≡ []) ⊎ (is_full s'.secondary ≡ true))
  unfolding copy_to_cooked wake_readers
  copy_to_cooked-disciplined fuel s in_order ring h =
      let (s', taken, e, split, line, end) = cook-disciplined fuel s in_order ring h in
      (wake_readers s', taken, rw (copy_to_cooked, e) refl, split, line, end)
