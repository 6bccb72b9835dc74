-- ===== src/Files/Pipe.antt =====
-- fs/pipe.c `sys_pipe`: a pipe, or nothing.
use hit_os.Common.{
  ℕ, ◌+◌, ◌<◌, ◌≡◌, refl, sym, ◌∙◌, ◌≢◌, ◌⊎◌, inl, inr, Option, none, some, arith, update,
}
use hit_os.Common.Int.{pos}
use hit_os.Files.Defs.{
  File, Files, with_count, pipe_descriptors, drop_pipe_files, sys_pipe, pipe_last, pipe_next,
  join_ends,
}
use hit_os.Files.PipeFails.{HasFewFiles, HasFewDescriptors, pipe_files-none, pipe_descriptors-none}
use hit_os.Files.PipeSteps.{
  SameFiles, TookFiles, TookDescriptors, pipe_files_cases, pipe_descriptors_cases,
}

-- What a pipe looks like: two free descriptors below 20 refer to two entries that were free, counted
-- once each; the first reads and the second writes the one inode, from position 0. Nothing else has
-- changed.
pub record IsPipe (s : Files) (inode fd fd' : ℕ) (s' : Files) : Type 0 where
  pub was_free : s.filp fd ≡ none
  pub was_free' : s.filp fd' ≡ none
  pub apart : fd < fd'
  pub range : fd' < 20
  pub read_end : ℕ
  pub write_end : ℕ
  pub ends_apart : read_end < write_end
  pub ends_range : write_end < 64
  pub unused : (s.file_table read_end).f_count ≡ 0
  pub unused' : (s.file_table write_end).f_count ≡ 0
  pub refers : s'.filp fd ≡ some read_end
  pub refers' : s'.filp fd' ≡ some write_end
  pub others : (i : ℕ) → i ≢ fd → i ≢ fd' → s'.filp i ≡ s.filp i
  pub reads :
      s'.file_table read_end
      ≡ record (s.file_table read_end) { f_mode = 1; f_count = 1; f_inode = inode; f_pos = pos 0 }
  pub writes :
      s'.file_table write_end
      ≡ record (s.file_table write_end) { f_mode = 2; f_count = 1; f_inode = inode; f_pos = pos 0 }
  pub other_files : (i : ℕ) → i ≢ read_end → i ≢ write_end → s'.file_table i ≡ s.file_table i
  pub close : s'.close_on_exec ≡ s.close_on_exec
  pub put : s'.put ≡ s.put

cleared :
    (table table' : ℕ → File) (f g i : ℕ)
    → f < g
    → (table f).f_count ≡ 0
    → (table g).f_count ≡ 0
    → ((j : ℕ) → table' j ≡ with_count g (λ c. c + 1) (with_count f (λ c. c + 1) table) j)
    → with_count f (λ _. 0) (with_count g (λ _. 0) table') i ≡ table i
cleared table table' f g i h z z' same = ground (arith, same i, same f, same g)

-- Dropping both files undoes the steps before.
dropped-SameFiles :
    (s s' u : Files) (f g : ℕ)
    → TookFiles s f g s'
    → ((i : ℕ) → u.filp i ≡ s.filp i)
    → ((i : ℕ) → u.file_table i ≡ s'.file_table i)
    → u.close_on_exec ≡ s'.close_on_exec
    → u.put ≡ s'.put
    → SameFiles s (drop_pipe_files f g u)
dropped-SameFiles s s' u f g took p q c d = record {
  filp = p;
  close = c ∙ took.close;
  put = d ∙ took.put;
  files = λ i.
      cleared s.file_table u.file_table f g i took.apart took.free took.free'
        (λ j. q j ∙ took.table j);
}

taken_back :
    (filp filp' : ℕ → Option ℕ) (fd fd' i : ℕ) (v v' : Option ℕ)
    → fd < fd'
    → filp fd ≡ none
    → filp fd' ≡ none
    → ((j : ℕ) → filp' j ≡ update (update filp fd v) fd' v' j)
    → update (update filp' fd' none) fd none i ≡ filp i
taken_back filp filp' fd fd' i v v' h z z' same = ground (arith, same i)

-- What `sys_pipe` promises of its result: no pipe and nothing changed, for want of an inode, of two free
-- files or of two free descriptors; or a pipe of the inode.
abbrev pub PipeResult : Option ℕ → Files → Option (ℕ × ℕ) × Files → Type 0
PipeResult inode s r =
    ((s' : Files) × (r ≡ (none, s'))
      × SameFiles s s'
      × ((inode ≡ none) ⊎ HasFewFiles s ⊎ HasFewDescriptors s))
    ⊎ ((i : ℕ) × (fd : ℕ) × (fd' : ℕ) × (s' : Files) × (inode ≡ some i)
        × (r ≡ (some (fd, fd'), s'))
        × IsPipe s i fd fd' s')

end_file :
    (table table' : ℕ → File) (f g : ℕ)
    → f < g
    → (table f).f_count ≡ 0
    → (table g).f_count ≡ 0
    → ((j : ℕ) → table' j ≡ with_count g (λ c. c + 1) (with_count f (λ c. c + 1) table) j)
    → (table' f ≡ record (table f) { f_count = 1 }) × (table' g ≡ record (table g) { f_count = 1 })
end_file table table' f g h z z' same = (ground (arith, same f), ground (arith, same g))

join_ends_cases :
    (inode : Option ℕ) (f g fd fd' : ℕ) (s s' u : Files)
    → TookFiles s f g s'
    → TookDescriptors s' f g fd fd' u
    → PipeResult inode s (join_ends inode f g fd fd' u)
unfolding join_ends
join_ends_cases none f g fd fd' s s' u took took' = inl (
  _,
  refl,
  dropped-SameFiles s s' _ f g took
      (λ i.
        taken_back s'.filp u.filp fd fd' i (some f) (some g) took'.apart took'.free took'.free'
          took'.filp
        ∙ took.filp i)
      took'.table took'.close took'.put,
  inl refl,
)
join_ends_cases (some i) f g fd fd' s s' u took took' =
    let (first, second) =
      end_file s.file_table u.file_table f g took.apart took.free took.free'
        (λ j. took'.table j ∙ took.table j) in
    inr (
      i,
      fd,
      fd',
      _,
      refl,
      refl,
      record {
        was_free = sym (took.filp fd) ∙ took'.free;
        was_free' = sym (took.filp fd') ∙ took'.free';
        apart = took'.apart;
        range = took'.top;
        close = took'.close ∙ took.close;
        put = took'.put ∙ took.put;
        read_end = f;
        write_end = g;
        ends_apart = took.apart;
        ends_range = took.top;
        unused = took.free;
        unused' = took.free';
        refers = ground (arith, took'.filp fd, took'.apart);
        refers' = ground (arith, took'.filp fd', took'.apart);
        others = λ j a b. ground (arith, took'.filp j, took.filp j);
        reads = ground (arith, first);
        writes = ground (arith, second);
        other_files = λ j a b. ground (arith, took'.table j, took.table j);
      },
    )

pipe_last_cases :
    (inode : Option ℕ) (f g : ℕ) (s s' : Files)
    → TookFiles s f g s'
    → PipeResult inode s (pipe_last inode f g (pipe_descriptors f g s'))
unfolding pipe_last
pipe_last_cases inode f g s s' took = elim (pipe_descriptors_cases f g s') [
  | inl (u, e, same) ↦
      let few = pipe_descriptors-none f g s' u e in
      rw e (
        inl (
          _,
          refl,
          dropped-SameFiles s s' u f g took (λ i. same.filp i ∙ took.filp i) same.files same.close
              same.put,
          inr (inr (λ a b l h z y. few a b l h (took.filp a ∙ z) (took.filp b ∙ y))),
        ))
  | inr (fd, fd', u, e, took') ↦ rw e (join_ends_cases inode f g fd fd' s s' u took took')
]

-- `pipe` makes a pipe, or fails and leaves everything as it was: the descriptors with their
-- close-on-exec flags, the file table, and the inodes. It fails only where there is no pipe inode, no
-- two free files, or no two free descriptors.
pub sys_pipe_cases : (inode : Option ℕ) (s : Files) → PipeResult inode s (sys_pipe inode s)
unfolding sys_pipe pipe_next
sys_pipe_cases inode s = elim (pipe_files_cases s) [
  | inl (s', e, same) ↦ rw e (inl (s', refl, same, inr (inl (pipe_files-none s s' e))))
  | inr (f, g, s', e, took) ↦ rw e (pipe_last_cases inode f g s s' took)
]
