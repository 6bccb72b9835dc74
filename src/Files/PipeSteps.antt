-- ===== src/Files/PipeSteps.antt =====
-- fs/pipe.c `sys_pipe`: the searches for two free files and for two free descriptors.
use hit_os.Common.{
  ℕ, ◌+◌, ◌-◌, ◌≤◌, ◌<◌, ◌≡◌, refl, sym, ap, ◌∙◌, ◌⊎◌, inl, inr, none, some, arith, ◌==◌, update,
  update_ne, Option-cases, ==→eq,
}
use hit_os.Files.Defs.{
  Files, nr_open, nr_file, is_none, with_count, free_file, free_descriptor, pipe_files,
  pipe_descriptors, second_file, second_descriptor,
}
use hit_os.Files.Counts.{find_first-some, is_none-true}

free_file-some :
    (i f : ℕ) (s : Files)
    → i ≤ nr_file
    → free_file i s ≡ some f
    → (i ≤ f) × (f < nr_file) × ((s.file_table f).f_count ≡ 0)
unfolding free_file
free_file-some i f s top e =
    let (l, h, t, b) = find_first-some (λ f. (s.file_table f).f_count == 0) (nr_file - i) i f e in
    (l, omega arith, ==→eq _ _ t)

free_descriptor-some :
    (i fd : ℕ) (s : Files)
    → i ≤ nr_open
    → free_descriptor i s ≡ some fd
    → (i ≤ fd) × (fd < nr_open) × (s.filp fd ≡ none)
unfolding free_descriptor
free_descriptor-some i fd s top e =
    let (l, h, t, b) = find_first-some (λ fd. is_none (s.filp fd)) (nr_open - i) i fd e in
    (l, omega arith, is_none-true (s.filp fd) t)

-- Two states agree in every descriptor, in every entry of the file table, and in the rest.
pub record SameFiles (s s' : Files) : Type 0 where
  pub filp : (fd : ℕ) → s'.filp fd ≡ s.filp fd
  pub files : (f : ℕ) → s'.file_table f ≡ s.file_table f
  pub close : s'.close_on_exec ≡ s.close_on_exec
  pub put : s'.put ≡ s.put

-- A step of `sys_pipe` that succeeded: what was free, and what has changed.
pub record TookFiles (s : Files) (f g : ℕ) (s' : Files) : Type 0 where
  pub free : (s.file_table f).f_count ≡ 0
  pub free' : (s.file_table g).f_count ≡ 0
  pub apart : f < g
  pub top : g < nr_file
  pub close : s'.close_on_exec ≡ s.close_on_exec
  pub put : s'.put ≡ s.put
  pub filp : (fd : ℕ) → s'.filp fd ≡ s.filp fd
  pub table :
      (i : ℕ)
      → s'.file_table i ≡ with_count g (λ c. c + 1) (with_count f (λ c. c + 1) s.file_table) i

-- Raising a count of 0 and setting it back changes nothing.
restored :
    (s : Files) (f i : ℕ)
    → (s.file_table f).f_count ≡ 0
    → with_count f (λ _. 0) (with_count f (λ c. c + 1) s.file_table) i ≡ s.file_table i
restored s f i z = ground arith

update_count :
    (s : Files) (f g : ℕ)
    → f < g
    → (s.file_table g).f_count ≡ (with_count f (λ c. c + 1) s.file_table g).f_count
update_count s f g h = ground arith

second_file_cases :
    (f : ℕ) (s s' : Files)
    → f < nr_file
    → (s.file_table f).f_count ≡ 0
    → s' ≡ record s { file_table = with_count f (λ c. c + 1) s.file_table }
    → ((s'' : Files) × (second_file f s' ≡ (none, s'')) × SameFiles s s'')
      ⊎ ((g : ℕ) × (s'' : Files) × (second_file f s' ≡ (some (f, g), s'')) × TookFiles s f g s'')
unfolding second_file
second_file_cases f s s' low z is = elim (Option-cases (free_file (f + 1) s')) [
  | inl e ↦ inl (
    record s' { file_table = with_count f (λ _. 0) s'.file_table },
    rw (second_file, e) refl,
    rw is (record { filp = λ fd. refl; files = λ i. restored s f i z; close = refl; put = refl }),
  )
  | inr (g, e) ↦
      let (l, h, z') = free_file-some (f + 1) g s' (omega arith) e in
      inr (
        g,
        record s' { file_table = with_count g (λ c. c + 1) s'.file_table },
        rw (second_file, e) refl,
        record {
          free = z;
          free' =
              update_count s f g (omega arith) ∙ ap (λ t. (t.file_table g).f_count) (sym is) ∙ z';
          apart = omega arith;
          top = h;
          close = ap (λ t. t.close_on_exec) is;
          put = ap (λ t. t.put) is;
          filp = λ fd. ap (λ t. t.filp fd) is;
          table = λ i. ap (λ t. with_count g (λ c. c + 1) t.file_table i) is;
        },
      )
]

pub pipe_files_cases :
    (s : Files)
    → ((s' : Files) × (pipe_files s ≡ (none, s')) × SameFiles s s')
      ⊎ ((f : ℕ) × (g : ℕ) × (s' : Files) × (pipe_files s ≡ (some (f, g), s')) × TookFiles s f g s')
unfolding pipe_files
pipe_files_cases s = elim (Option-cases (free_file 0 s)) [
  | inl e ↦ inl (
    s,
    rw (pipe_files, e) refl,
    record { filp = λ fd. refl; files = λ f. refl; close = refl; put = refl },
  )
  | inr (f, e) ↦
      let (l, h, z) = free_file-some 0 f s (omega arith) e in
      elim (second_file_cases f s _ h z refl) [
        | inl (s', e', same) ↦ inl (s', rw (pipe_files, e) e', same)
        | inr (g, s', e', took) ↦ inr (f, g, s', rw (pipe_files, e) e', took)
      ]
]

pub record TookDescriptors (s : Files) (f g fd fd' : ℕ) (s' : Files) : Type 0 where
  pub free : s.filp fd ≡ none
  pub free' : s.filp fd' ≡ none
  pub apart : fd < fd'
  pub top : fd' < nr_open
  pub close : s'.close_on_exec ≡ s.close_on_exec
  pub put : s'.put ≡ s.put
  pub filp : (i : ℕ) → s'.filp i ≡ update (update s.filp fd (some f)) fd' (some g) i
  pub table : (i : ℕ) → s'.file_table i ≡ s.file_table i

second_descriptor_cases :
    (f g fd : ℕ) (s s' : Files)
    → fd < nr_open
    → s.filp fd ≡ none
    → s' ≡ record s { filp = update s.filp fd (some f) }
    → ((s'' : Files) × (second_descriptor g fd s' ≡ (none, s'')) × SameFiles s s'')
      ⊎ ((fd' : ℕ) × (s'' : Files) × (second_descriptor g fd s' ≡ (some (fd, fd'), s''))
          × TookDescriptors s f g fd fd' s'')
unfolding second_descriptor
second_descriptor_cases f g fd s s' low z is = elim (Option-cases (free_descriptor (fd + 1) s')) [
  | inl e ↦ inl (
    record s' { filp = update s'.filp fd none },
    rw (second_descriptor, e) refl,
    rw is (record { filp = λ i. ground arith; files = λ i. refl; close = refl; put = refl }),
  )
  | inr (fd', e) ↦
      let (l, h, z') = free_descriptor-some (fd + 1) fd' s' (omega arith) e in
      inr (
        fd',
        record s' { filp = update s'.filp fd' (some g) },
        rw (second_descriptor, e) refl,
        record {
          free = z;
          free' =
              sym (update_ne s.filp fd (some f) fd' (omega arith))
              ∙ ap (λ t. t.filp fd') (sym is)
              ∙ z';
          apart = omega arith;
          top = h;
          close = ap (λ t. t.close_on_exec) is;
          put = ap (λ t. t.put) is;
          filp = λ i. ap (λ t. update t.filp fd' (some g) i) is;
          table = λ i. ap (λ t. t.file_table i) is;
        },
      )
]

pub pipe_descriptors_cases :
    (f g : ℕ) (s : Files)
    → ((s' : Files) × (pipe_descriptors f g s ≡ (none, s')) × SameFiles s s')
      ⊎ ((fd : ℕ) × (fd' : ℕ) × (s' : Files) × (pipe_descriptors f g s ≡ (some (fd, fd'), s'))
          × TookDescriptors s f g fd fd' s')
unfolding pipe_descriptors
pipe_descriptors_cases f g s = elim (Option-cases (free_descriptor 0 s)) [
  | inl e ↦ inl (
    s,
    rw (pipe_descriptors, e) refl,
    record { filp = λ fd. refl; files = λ i. refl; close = refl; put = refl },
  )
  | inr (fd, e) ↦
      let (l, h, z) = free_descriptor-some 0 fd s (omega arith) e in
      elim (second_descriptor_cases f g fd s _ h z refl) [
        | inl (s', e', same) ↦ inl (s', rw (pipe_descriptors, e) e', same)
        | inr (fd', s', e', took) ↦ inr (fd, fd', s', rw (pipe_descriptors, e) e', took)
      ]
]
