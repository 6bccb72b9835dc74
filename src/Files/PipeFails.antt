-- ===== src/Files/PipeFails.antt =====
-- fs/pipe.c `sys_pipe`: why a search fails.
use hit_os.Common.{
  ℕ, ◌+◌, ◌-◌, ◌≤◌, ◌<◌, ◌≡◌, ◌≢◌, refl, sym, ap, ◌∙◌, false, inl, inr, Option, none, some, arith,
  ◌==◌, update, ltb, ltb→lt, not-ltb→le, update_ne, Option-cases, Bool-cases, not-==→ne,
}
use hit_os.Files.Defs.{
  Files, nr_open, nr_file, is_none, with_count, free_file, free_descriptor, pipe_files,
  pipe_descriptors, second_file, second_descriptor,
}
use hit_os.Files.Counts.{find_first-some, find_first-none}

-- There are no two free entries in the file table.
abbrev pub HasFewFiles : Files → Type 0
HasFewFiles s =
    (f g : ℕ) → f < g → g < 64 → (s.file_table f).f_count ≡ 0 → (s.file_table g).f_count ≢ 0

-- There are no two free descriptors.
abbrev pub HasFewDescriptors : Files → Type 0
HasFewDescriptors s = (a b : ℕ) → a < b → b < 20 → s.filp a ≡ none → s.filp b ≢ none

is_none-false : (o : Option ℕ) → is_none o ≡ false → o ≢ none
is_none-false none e = cc
is_none-false (some x) e = λ h. cc

free_file-none :
    (i : ℕ) (s : Files)
    → i ≤ 64
    → free_file i s ≡ none
    → (f : ℕ) → i ≤ f
    → f < 64
    → (s.file_table f).f_count ≢ 0
unfolding free_file
free_file-none i s top e f l h =
    not-==→ne _ 0
      (find_first-none (λ f. (s.file_table f).f_count == 0) (nr_file - i) i e f l (omega arith))

free_file-below :
    (f : ℕ) (s : Files) → free_file 0 s ≡ some f → (j : ℕ) → j < f → (s.file_table j).f_count ≢ 0
unfolding free_file
free_file-below f s e j h =
    let (a, b, c, d) = find_first-some (λ f. (s.file_table f).f_count == 0) nr_file 0 f e in
    not-==→ne _ 0 (d j (omega arith) h)

free_descriptor-none :
    (i : ℕ) (s : Files)
    → i ≤ 20
    → free_descriptor i s ≡ none
    → (a : ℕ) → i ≤ a
    → a < 20
    → s.filp a ≢ none
unfolding free_descriptor
free_descriptor-none i s top e a l h =
    is_none-false (s.filp a)
      (find_first-none (λ fd. is_none (s.filp fd)) (nr_open - i) i e a l (omega arith))

free_descriptor-below :
    (fd : ℕ) (s : Files) → free_descriptor 0 s ≡ some fd → (j : ℕ) → j < fd → s.filp j ≢ none
unfolding free_descriptor
free_descriptor-below fd s e j h =
    let (a, b, c, d) = find_first-some (λ fd. is_none (s.filp fd)) nr_open 0 fd e in
    is_none-false (s.filp j) (d j (omega arith) h)

free_file-range : (f : ℕ) (s : Files) → free_file 0 s ≡ some f → f < 64
unfolding free_file
free_file-range f s e =
    let (a, b, c, d) = find_first-some (λ f. (s.file_table f).f_count == 0) nr_file 0 f e in
    omega arith

free_descriptor-range : (fd : ℕ) (s : Files) → free_descriptor 0 s ≡ some fd → fd < 20
unfolding free_descriptor
free_descriptor-range fd s e =
    let (a, b, c, d) = find_first-some (λ fd. is_none (s.filp fd)) nr_open 0 fd e in omega arith

-- Nothing is free below `k`, and nothing from there up to `n` but perhaps `k` itself.
one_free :
    (P : ℕ → Type 0) (k n : ℕ)
    → ((j : ℕ) → j < k → ¬ P j)
    → ((j : ℕ) → k + 1 ≤ j → j < n → ¬ P j)
    → (a b : ℕ) → a < b
    → b < n
    → P a
    → ¬ P b
one_free P k n below above a b l h p = elim (Bool-cases (ltb a k)) [
  | inl c ↦ absurd (below a (ltb→lt a k c) p)
  | inr c ↦ above b (omega (arith, not-ltb→le a k c)) h
]

first_file :
    (s : Files) (f : ℕ)
    → free_file 0 s ≡ some f
    → pipe_files s
      ≡ second_file f (record s { file_table = with_count f (λ c. c + 1) s.file_table })
unfolding pipe_files
first_file s f e = rw (pipe_files, e) refl

second_file-none :
    (s s' : Files) (f : ℕ) → second_file f s ≡ (none, s') → free_file (f + 1) s ≡ none
unfolding second_file
second_file-none s s' f e = elim (Option-cases (free_file (f + 1) s)) [
  | inl h ↦ h
  | inr (g, h) ↦
      let found : (second_file f s).0 ≡ some (f, g) = rw (second_file, h) refl in
      absurd (
        let bad : some (f, g) ≡ none = sym found ∙ ap (λ (r : Option (ℕ × ℕ) × Files). r.0) e in cc)
]

pub pipe_files-none : (s s' : Files) → pipe_files s ≡ (none, s') → HasFewFiles s
pipe_files-none s s' e = elim (Option-cases (free_file 0 s)) [
  | inl h ↦ λ f g l k z. free_file-none 0 s (omega arith) h g (omega arith) k
  | inr (f, h) ↦
      let after : Files = record s { file_table = with_count f (λ c. c + 1) s.file_table } in
      let none_left = second_file-none after s' f (sym (first_file s f h) ∙ e) in
      let range = free_file-range f s h in
      one_free (λ j. (s.file_table j).f_count ≡ 0) f 64 (free_file-below f s h)
        (λ j l k z. free_file-none (f + 1) after (omega arith) none_left j l k (ground (arith, z)))
]

first_descriptor :
    (f g fd : ℕ) (s : Files)
    → free_descriptor 0 s ≡ some fd
    → pipe_descriptors f g s
      ≡ second_descriptor g fd (record s { filp = update s.filp fd (some f) })
unfolding pipe_descriptors
first_descriptor f g fd s e = rw (pipe_descriptors, e) refl

second_descriptor-none :
    (g fd : ℕ) (s s' : Files)
    → second_descriptor g fd s ≡ (none, s')
    → free_descriptor (fd + 1) s ≡ none
unfolding second_descriptor
second_descriptor-none g fd s s' e = elim (Option-cases (free_descriptor (fd + 1) s)) [
  | inl h ↦ h
  | inr (fd', h) ↦
      let found : (second_descriptor g fd s).0 ≡ some (fd, fd') = rw (second_descriptor, h) refl in
      absurd (
        let bad : some (fd, fd') ≡ none = sym found ∙ ap (λ (r : Option (ℕ × ℕ) × Files). r.0) e in
        cc)
]

pub pipe_descriptors-none :
    (f g : ℕ) (s s' : Files) → pipe_descriptors f g s ≡ (none, s') → HasFewDescriptors s
pipe_descriptors-none f g s s' e = elim (Option-cases (free_descriptor 0 s)) [
  | inl h ↦ λ a b l k z. free_descriptor-none 0 s (omega arith) h b (omega arith) k
  | inr (fd, h) ↦
      let after : Files = record s { filp = update s.filp fd (some f) } in
      let none_left =
        second_descriptor-none g fd after s' (sym (first_descriptor f g fd s h) ∙ e) in
      let range = free_descriptor-range fd s h in
      one_free (λ j. s.filp j ≡ none) fd 20 (free_descriptor-below fd s h)
        (λ j l k z.
          free_descriptor-none (fd + 1) after (omega arith) none_left j l k
            (update_ne s.filp fd (some f) j (omega arith) ∙ z))
]
