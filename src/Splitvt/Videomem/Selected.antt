-- ===== src/Splitvt/Videomem/Selected.antt =====
-- splitvt/videomem.c: how much of a selection is written.
use minilib_ports.Common.{
  ℕ, zero, suc, ◌+◌, ◌-◌, ◌≤◌, ◌<◌, ◌≡◌, refl, Bool, true, false, not, ◌&&◌, List, [], ◌∷◌, ◌++◌,
  arith, some, length, get_or, ltb, leb, ◌==◌, if◌then◌else◌, Bool-cases, inl, inr, Bytes, ◌%◌,
}
use minilib_ports.Splitvt.Window.{Window, decr}
use minilib_ports.Splitvt.Window.Places.{get_elem?_lem}
use minilib_ports.Splitvt.Videomem.Selection.{
  eol_cells, eol_line, video_eol, shown, sel_cells, Selection, next_eos, first_cell, end_line,
  sel_lines, getsel_video,
}
use minilib_ports.Splitvt.Videomem.Shape.{row_of, pixel, Shape}

-- No byte is the NUL.
unfoldable pub no_nul : Bytes → Bool
no_nul [] = true
no_nul (c ∷ s) = not (c == 0) && no_nul s

no_nul-snoc : (s : Bytes) (c : ℕ) → no_nul s ≡ true → (c == 0) ≡ false → no_nul (s ++ c ∷ []) ≡ true
unfolding no_nul
no_nul-snoc [] c h k = rw k refl
no_nul-snoc (d ∷ s) c h k = ground (arith, no_nul-snoc s c (ground arith) k)

length-snoc : (s : Bytes) (c : ℕ) → length (s ++ c ∷ []) ≡ suc (length s)
length-snoc [] c = refl
length-snoc (d ∷ s) c = omega (arith, length-snoc s c)

eol_cells_lem :
    (k j eol : ℕ) (row : List ℕ)
    → j + k ≤ length row
    → eol ≤ j
    → (r : ℕ) × (eol_cells k j eol row ≡ some r) × (r ≤ j + k)
unfolding eol_cells
eol_cells_lem zero j eol row h h' = (eol, refl, omega arith)
eol_cells_lem (suc k) j eol row h h' =
    let next : ℕ = if get_or row j 0 % 256 == 0 then eol else suc j in
    let (r, e, b) = eol_cells_lem k (suc j) next row (omega arith) (ground arith) in
    (r, rw (eol_cells, get_elem?_lem row j 0 (omega arith)) e, omega arith)

eol_line_lem :
    (n i : ℕ) {rows cols : ℕ} (mem : List (List ℕ))
    → Shape rows cols mem
    → n ≤ cols
    → i < rows
    → (r : ℕ) × (eol_line n (suc i) mem ≡ some r) × (r ≤ n)
unfolding eol_line
eol_line_lem zero i mem s h k = (0, refl, omega arith)
eol_line_lem (suc n) i mem s h k =
    let (r, e, b) =
      eol_cells_lem (suc n) 0 0 (row_of mem i) (omega (arith, s.width i k)) (omega arith) in
    (r, rw (eol_line, get_elem?_lem mem i [] (omega (arith, s.lines))) e, omega arith)

sel_cells_lem :
    (k i j : ℕ) {rows cols : ℕ} (mem : List (List ℕ)) (buf : Bytes)
    → Shape rows cols mem
    → i < rows
    → (1 ≤ k → j + k ≤ cols)
    → no_nul buf ≡ true
    → (r : Bytes) × (sel_cells k i j mem buf ≡ some r)
      × (length r ≡ length buf + k)
      × (no_nul r ≡ true)
unfolding sel_cells
sel_cells_lem zero i j mem buf s h h' z = (buf, refl, omega arith, z)
sel_cells_lem (suc k) i j mem buf s h h' z =
    let c : ℕ = shown (pixel mem i j) in
    let in_line : j + suc k ≤ _ = h' (omega arith) in
    let (r, e, l, z') =
      sel_cells_lem k i (suc j) mem (buf ++ c ∷ []) s h (λ m. omega arith)
        (no_nul-snoc buf c z (ground arith)) in
    (
      r,
      rw
          (
            sel_cells,
            get_elem?_lem mem i [] (omega (arith, s.lines)),
            get_elem?_lem (row_of mem i) j 0 (omega (arith, s.width i h)),
          )
          e,
      omega (arith, length-snoc buf c),
      z',
    )

-- The byte behind a line.
end_line_lem :
    (maxlen j eos eol cols : ℕ) (buf : Bytes)
    → no_nul buf ≡ true
    → 1 ≤ cols
    → length buf < maxlen + cols
    → (length (end_line maxlen j eos eol buf) < maxlen + cols)
      × (no_nul (end_line maxlen j eos eol buf) ≡ true)
end_line_lem maxlen j eos eol cols buf z o h =
    elim (Bool-cases (ltb (length buf) maxlen && leb eol (if ltb j eos then eos else j))) [
      | inl more ↦ rw more (
          let l : length (buf ++ b'\r' ∷ []) ≡ suc (length buf) = length-snoc buf b'\r' in
          let fits : length buf < maxlen = ground arith in
          (omega arith, no_nul-snoc buf b'\r' z refl))
      | inr full ↦ rw full (h, z)
    ]

decr_lem : (n : ℕ) → 1 ≤ n → (m : ℕ) × (decr n ≡ some m) × (suc m ≡ n)
decr_lem zero h = absurd (omega arith)
decr_lem (suc n) h = (n, refl, refl)

first_cell_lem : (sel : Selection) (i : ℕ) → 1 ≤ sel.y1 → (j : ℕ) × (first_cell sel i ≡ some j)
first_cell_lem sel i y = elim (Bool-cases (suc i == sel.x1)) [
  | inl first ↦ let (j, e, p) = decr_lem sel.y1 y in (j, rw (first, e) refl)
  | inr later ↦ (0, rw later refl)
]

module _ (maxlen : ℕ) (sel : Selection) (win : Window) where
  sel_lines_lem :
      (k i eos : ℕ) (buf : Bytes)
      → Shape win.rows win.cols win.videomem
      → 1 ≤ win.cols
      → 1 ≤ sel.y1
      → (1 ≤ k → i + k ≤ win.rows)
      → eos ≤ win.cols
      → no_nul buf ≡ true
      → length buf < maxlen + win.cols
      → (r : Bytes) × (sel_lines k i maxlen sel win eos buf ≡ some r)
        × (length r < maxlen + win.cols)
        × (no_nul r ≡ true)
  unfolding sel_lines video_eol
  sel_lines_lem zero i eos buf s o y h b z l = (buf, refl, l, z)
  sel_lines_lem (suc k) i eos buf s o y h b z l = elim (Bool-cases (ltb (length buf) maxlen)) [
    | inl room ↦
        let in_window : i + suc k ≤ win.rows = h (omega arith) in
        let (eol, e, le) = eol_line_lem win.cols i win.videomem s (omega arith) (omega arith) in
        let (j, f) = first_cell_lem sel i y in
        let eos' : ℕ = next_eos sel i eol eos in
        let b' : eos' ≤ win.cols = ground arith in
        let (buf', g, n, z') =
          sel_cells_lem (eos' - j) i j win.videomem buf s (omega arith) (λ m. omega arith) z in
        let (l'', z'') = end_line_lem maxlen j eos' eol win.cols buf' z' o (ground arith) in
        let (r, t, l3, z3) =
          sel_lines_lem k (suc i) eos' (end_line maxlen j eos' eol buf') s o y (λ m. omega arith) b'
            z'' l'' in
        (r, rw (sel_lines, room, video_eol, e, f, g) t, l3, z3)
    | inr full ↦ (buf, rw (sel_lines, full) refl, l, z)
  ]

pub record SelectionWritten (win : Window) (maxlen : ℕ) (sel : Selection) : Type 0 where
  pub text : Bytes
  pub ends : getsel_video win maxlen sel ≡ some text
  pub size : length text < (maxlen - 1) + win.cols
  pub is_string : no_nul text ≡ true

-- In a memory of the size of its window, which has a column, for lines in the window and columns from
-- 1 on: getsel_video ends, and what it writes in front of the NUL has no NUL in it, and is shorter
-- than maxlen - 1 and the width of the window together.
pub getsel_video_lem :
    (win : Window) (maxlen : ℕ) (sel : Selection)
    → Shape win.rows win.cols win.videomem
    → 1 ≤ win.cols
    → 1 ≤ sel.x1
    → sel.x2 ≤ win.rows
    → 1 ≤ sel.y1
    → SelectionWritten win maxlen sel
unfolding getsel_video no_nul
getsel_video_lem win maxlen sel s o x h y =
    let (i, e, p) = decr_lem sel.x1 x in
    let (r, t, l, z) =
      sel_lines_lem (maxlen - 1) sel win (sel.x2 - i) i 0 [] s o y (λ m. omega arith) (omega arith)
        refl (omega arith) in
    record { text = r; ends = rw (getsel_video, e) t; size = l; is_string = z }
