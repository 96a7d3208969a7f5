-- ===== src/Splitvt/Videomem/Erased.antt =====
-- splitvt/videomem.c: what is erased.
use minilib_ports.Common.{
  ℕ, zero, suc, ◌+◌, ◌-◌, ◌≤◌, ◌≡◌, refl, ◌∙◌, Bool, ◌&&◌, List, [], arith, some, length, get_or,
  set, get_or-set, length-set, ltb, leb, ◌==◌, if◌then◌else◌, Bool-cases, inl, inr,
}
use minilib_ports.Splitvt.Window.{Window}
use minilib_ports.Splitvt.Window.Places.{get1_lem, set1_lem}
use minilib_ports.Splitvt.Videomem.{erase_cells, erase_line, erase_lines, erase_video}
use minilib_ports.Splitvt.Videomem.Shape.{row_of, pixel, Shape, Shape-set}

-- A place that counts from 0 is one of the `n` from `y` on, which counts from 1.
abbrev pub is_from : ℕ → ℕ → ℕ → Bool
is_from y n j = leb y (suc j) && ltb (suc j) (y + n)

pub record CellsErased (n y : ℕ) (row : List ℕ) : Type 0 where
  pub result : List ℕ
  pub ends : erase_cells n y row ≡ some result
  pub size : length result ≡ length row
  pub cells : (j : ℕ) → get_or result j 0 ≡ (if is_from y n j then 0 else get_or row j 0)

pub erase_cells_lem :
    (n y : ℕ) (row : List ℕ) → 1 ≤ y → y + n ≤ suc (length row) → CellsErased n y row
unfolding erase_cells
erase_cells_lem zero y row h k = record {
  result = row;
  ends = refl;
  size = refl;
  cells = λ j. ground arith;
}
erase_cells_lem (suc n) y row h k =
    let row' : List ℕ = set row (y - 1) 0 in
    let e : CellsErased n (suc y) row' =
      erase_cells_lem n (suc y) row' (omega arith) (omega (arith, length-set row (y - 1) 0)) in
    record {
      result = e.result;
      ends = rw (erase_cells, set1_lem row y 0 h (omega arith)) e.ends;
      size = e.size ∙ length-set row (y - 1) 0;
      cells = λ j. ground (arith, e.cells j, get_or-set row (y - 1) j 0 0);
    }

pub record LinesErased (m n y x rows cols : ℕ) (mem : List (List ℕ)) : Type 0 where
  pub result : List (List ℕ)
  pub ends : erase_lines m n y x mem ≡ some result
  pub shape : Shape rows cols result
  pub pixels :
      (i j : ℕ) → pixel result i j ≡ (if is_from x m i && is_from y n j then 0 else pixel mem i j)

-- One line.
line_erased :
    (n y x rows cols : ℕ) (mem : List (List ℕ))
    → Shape rows cols mem
    → 1 ≤ y
    → y + n ≤ suc cols
    → 1 ≤ x
    → x ≤ rows
    → (mem' : List (List ℕ)) × (erase_line n y x mem ≡ some mem')
      × Shape rows cols mem'
      × ((i j : ℕ) → pixel mem' i j ≡ (if (suc i == x) && is_from y n j then 0 else pixel mem i j))
unfolding erase_line
line_erased zero y x rows cols mem s h k h' k' = (mem, refl, s, λ i j. ground arith)
line_erased (suc n) y x rows cols mem s h k h' k' =
    let row : List ℕ = row_of mem (x - 1) in
    let width : length row ≡ cols = s.width (x - 1) (omega arith) in
    let e : CellsErased (suc n) y row = erase_cells_lem (suc n) y row h (omega arith) in
    (
      set mem (x - 1) e.result,
      rw
          (
            erase_line,
            get1_lem mem x [] h' (omega (arith, s.lines)),
            e.ends,
            set1_lem mem x e.result h' (omega (arith, s.lines)),
          )
          refl,
      Shape-set (x - 1) e.result s (omega arith) (e.size ∙ width),
      λ i j.
          let here : row_of (set mem (x - 1) e.result) i
              ≡ (if x - 1 == i then e.result else row_of mem i) =
            get_or-set mem (x - 1) i e.result [] (omega (arith, s.lines)) in
          elim (Bool-cases (x - 1 == i)) [
            | inl this ↦
                let same : x - 1 ≡ i = ground arith in
                rw (here, this) (e.cells j ∙ (rw same (ground arith)))
            | inr other ↦ rw (here, other) (ground arith)
          ],
    )

pub erase_lines_lem :
    (m n y x rows cols : ℕ) (mem : List (List ℕ))
    → Shape rows cols mem
    → 1 ≤ y
    → y + n ≤ suc cols
    → 1 ≤ x
    → x + m ≤ suc rows
    → LinesErased m n y x rows cols mem
unfolding erase_lines
erase_lines_lem zero n y x rows cols mem s h k h' k' = record {
  result = mem;
  ends = refl;
  shape = s;
  pixels = λ i j. ground arith;
}
erase_lines_lem (suc m) n y x rows cols mem s h k h' k' =
    let (mem', e, s', p) = line_erased n y x rows cols mem s h k h' (omega arith) in
    let r : LinesErased m n y (suc x) rows cols mem' =
      erase_lines_lem m n y (suc x) rows cols mem' s' h k (omega arith) (omega arith) in
    record {
      result = r.result;
      ends = rw (erase_lines, e) r.ends;
      shape = r.shape;
      pixels = λ i j. ground (arith, r.pixels i j, p i j);
    }

-- A place that counts from 0 is between two that count from 1.
abbrev pub is_between : ℕ → ℕ → ℕ → Bool
is_between a b i = leb a (suc i) && leb (suc i) b

pub record VideoErased (x1 x2 y1 y2 : ℕ) (win : Window) : Type 0 where
  pub memory : List (List ℕ)
  pub ends : erase_video x1 x2 y1 y2 win ≡ some (record win { videomem = memory })
  pub shape : Shape win.rows win.cols memory
  pub pixels :
      (i j : ℕ)
      → pixel memory i j
        ≡ (if is_between x1 x2 i && is_between y1 y2 j then 0 else pixel win.videomem i j)

-- In a memory of the size of its window: for lines and columns in the window, erase_video ends, sets
-- the pixels in the lines and the columns to 0, and leaves all other pixels, and the size.
pub erase_video_lem :
    (x1 x2 y1 y2 : ℕ) (win : Window)
    → Shape win.rows win.cols win.videomem
    → 1 ≤ x1
    → x2 ≤ win.rows
    → x1 ≤ suc x2
    → 1 ≤ y1
    → y2 ≤ win.cols
    → y1 ≤ suc y2
    → VideoErased x1 x2 y1 y2 win
unfolding erase_video
erase_video_lem x1 x2 y1 y2 win s h k l h' k' l' =
    let r : LinesErased (suc x2 - x1) (suc y2 - y1) y1 x1 win.rows win.cols win.videomem =
      erase_lines_lem (suc x2 - x1) (suc y2 - y1) y1 x1 win.rows win.cols win.videomem s h'
        (omega arith) h (omega arith) in
    record {
      memory = r.result;
      ends = rw (erase_video, r.ends) refl;
      shape = r.shape;
      pixels = λ i j. ground (arith, r.pixels i j);
    }
