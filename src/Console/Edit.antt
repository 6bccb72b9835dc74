-- ===== src/Console/Edit.antt =====
-- kernel/chr_drv/console.c: erasing, inserting and deleting stay within the video memory.
use hit_os.Common.{
  ℕ, zero, suc, ◌+◌, ◌-◌, ◌*◌, ◌/◌, ◌≤◌, ◌<◌, ◌≡◌, refl, ◌∙◌, ◌⊎◌, inl, inr, ltb, leb, ◌==◌,
  if◌then◌else◌, update, update_ne, arith, Bool-cases, ap, if_keeps, mul_suc, mul_mono,
}
use hit_os.Console.Defs.{
  Video, Console, del, erase, csi_J, csi_K, insert_cells, insert_char, delete_cells, delete_char,
}
use hit_os.Console.Safe.{IsVideo, IsScreen, IsSafe, fill-SameOutside, del-IsScreen}

insert_cells-out :
    (n p old : ℕ) (m : ℕ → ℕ) (a : ℕ) → (a < p) ⊎ (p + n * 2 ≤ a) → insert_cells n p old m a ≡ m a
unfolding insert_cells
insert_cells-out zero p old m a out = refl
insert_cells-out (suc n) p old m a out =
    insert_cells-out n (p + 2) (m p) (update m p old) a (grind arith)
    ∙ update_ne m p old a (grind arith)

module _ (v : Video) where
  delete_cells-out :
      (n p : ℕ) (m : ℕ → ℕ) (a : ℕ) → (a < p) ⊎ (p + n * 2 + 2 ≤ a) → delete_cells v n p m a ≡ m a
  unfolding delete_cells
  delete_cells-out zero p m a out = update_ne m p v.erase_char a (grind arith)
  delete_cells-out (suc n) p m a out =
      delete_cells-out n (p + 2) (update m p (m (p + 2))) a (grind arith)
      ∙ update_ne m p (m (p + 2)) a (grind arith)

  module _ (video : IsVideo v) where
    -- The line of the cursor lies on the screen.
    pub line_in :
        (s : Console)
        → IsScreen v s
        → (v.mem_start + s.x * 2 ≤ s.pos)
          × (s.pos + v.num_columns * 2 ≤ v.mem_end + s.x * 2)
          × (s.pos ≤ s.scr_end)
    line_in s i =
        let above = mul_mono (s.y + 1) v.num_lines v.size_row (omega (arith, i.y_in)) in
        let next = mul_suc (s.y + 1) s.y v.size_row (omega arith) in
        (omega (arith, i), omega (arith, i, video), omega (arith, i, video))

    pub del-IsSafe : (m : ℕ → ℕ) (s : Console) → IsSafe v m s → IsSafe v m (del v s)
    unfolding del
    del-IsSafe m s safe = record {
      screen = del-IsScreen v video s safe.screen;
      outside = λ a out.
          let here = line_in s safe.screen in
          ground (arith, here, out, safe.outside a out, safe.screen);
    }

    erase-IsSafe :
        (start count : ℕ) (m : ℕ → ℕ) (s : Console)
        → IsSafe v m s
        → v.mem_start ≤ start
        → start + count * 2 ≤ v.mem_end
        → IsSafe v m (erase v start count s)
    unfolding erase
    erase-IsSafe start count m s safe l h = record {
      screen = ground (arith, safe.screen);
      outside = λ a out.
          fill-SameOutside v video start count v.erase_char s.mem l h a out ∙ safe.outside a out;
    }

    pub csi_J-IsSafe : (p : ℕ) (m : ℕ → ℕ) (s : Console) → IsSafe v m s → IsSafe v m (csi_J v p s)
    unfolding csi_J
    csi_J-IsSafe p m s safe =
        let (l, h, e) = line_in s safe.screen in
        let i = safe.screen in
        let down =
          erase-IsSafe s.pos ((s.scr_end - s.pos) / 2) m s safe (omega arith) (omega (arith, i)) in
        let up =
          erase-IsSafe s.origin ((s.pos - s.origin) / 2) m s safe (omega (arith, i))
            (omega (arith, i)) in
        let area : v.num_columns * v.num_lines * 2 ≡ v.num_lines * v.size_row =
          omega (arith, ap (λ (t : ℕ). v.num_lines * t) video.row) in
        let all =
          erase-IsSafe s.origin (v.num_columns * v.num_lines) m s safe (omega (arith, i))
            (omega (arith, i)) in
        let P = IsSafe v m in
        if_keeps P (p == 0) _ _ down (if_keeps P (p == 1) _ _ up (if_keeps P (p == 2) _ _ all safe))

    pub csi_K-IsSafe : (p : ℕ) (m : ℕ → ℕ) (s : Console) → IsSafe v m s → IsSafe v m (csi_K v p s)
    unfolding csi_K
    csi_K-IsSafe p m s safe =
        let (l, h, e) = line_in s safe.screen in
        let i = safe.screen in
        let line =
          erase-IsSafe (s.pos - s.x * 2) v.num_columns m s safe (omega (arith, i))
            (omega (arith, i)) in
        let left =
          erase-IsSafe (s.pos - s.x * 2) (if ltb s.x v.num_columns then s.x else v.num_columns) m s
            safe (omega (arith, i)) (ground (arith, i)) in
        let P = IsSafe v m in
        let right : P (if leb v.num_columns s.x then s else erase v s.pos (v.num_columns - s.x) s) =
          elim (Bool-cases (leb v.num_columns s.x)) [
            | inl margin ↦ rw margin safe
            | inr within ↦ rw within (
                erase-IsSafe s.pos (v.num_columns - s.x) m s safe (omega arith) (ground (arith, i)))
          ] in
        if_keeps P (p == 0) _ _ right
          (if_keeps P (p == 1) _ _ left (if_keeps P (p == 2) _ _ line safe))

    pub insert_char-IsSafe : (m : ℕ → ℕ) (s : Console) → IsSafe v m s → IsSafe v m (insert_char v s)
    unfolding insert_char
    insert_char-IsSafe m s safe = record {
      screen = ground (arith, safe.screen);
      outside = λ a out.
          let (l, h, e) = line_in s safe.screen in
          insert_cells-out (v.num_columns - s.x) s.pos v.erase_char s.mem a
            (grind (arith, safe.screen))
          ∙ safe.outside a out;
    }

    pub delete_char-IsSafe : (m : ℕ → ℕ) (s : Console) → IsSafe v m s → IsSafe v m (delete_char v s)
    unfolding delete_char
    delete_char-IsSafe m s safe = elim (Bool-cases (leb v.num_columns s.x)) [
      | inl margin ↦ rw margin safe
      | inr within ↦ rw within (record {
        screen = ground (arith, safe.screen);
        outside = λ a out.
            let (l, h, e) = line_in s safe.screen in
            delete_cells-out (v.num_columns - s.x - 1) s.pos s.mem a (grind (arith, safe.screen))
            ∙ safe.outside a out;
      })
    ]
