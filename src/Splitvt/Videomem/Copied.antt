-- ===== src/Splitvt/Videomem/Copied.antt =====
-- splitvt/videomem.c: what is copied.
use minilib_ports.Common.{
  ℕ, zero, suc, ◌+◌, ◌-◌, ◌^◌, ◌≤◌, ◌<◌, ◌≡◌, refl, ◌∙◌, true, ◌&&◌, List, [], arith, some, length,
  get_or, set, get_or-set, length-set, ltb, leb, ◌==◌, if◌then◌else◌, Bool-cases, inl, inr,
}
use minilib_ports.Splitvt.Window.{Window}
use minilib_ports.Splitvt.Window.Places.{get_elem?_lem, set_elem?_lem}
use minilib_ports.Splitvt.Videomem.Copy.{
  copy_cells, copy_line, copy_lines, copy_video, new_line, at_least_one, min,
}
use minilib_ports.Splitvt.Videomem.Shape.{row_of, pixel, Shape, Shape-set}

pub record CellsCopied (k j : ℕ) (old row : List ℕ) : Type 0 where
  pub result : List ℕ
  pub ends : copy_cells k j old row ≡ some result
  pub size : length result ≡ length row
  pub cells :
      (c : ℕ)
      → get_or result c 0 ≡ (if leb j c && ltb c (j + k) then get_or old c 0 else get_or row c 0)

pub copy_cells_lem :
    (k j : ℕ) (old row : List ℕ) → j + k ≤ length old → j + k ≤ length row → CellsCopied k j old row
unfolding copy_cells
copy_cells_lem zero j old row h h' = record {
  result = row;
  ends = refl;
  size = refl;
  cells = λ c. ground arith;
}
copy_cells_lem (suc k) j old row h h' =
    let row' : List ℕ = set row j (get_or old j 0) in
    let e : CellsCopied k (suc j) old row' =
      copy_cells_lem k (suc j) old row' (omega arith)
        (omega (arith, length-set row j (get_or old j 0))) in
    record {
      result = e.result;
      ends =
          rw
            (
              copy_cells,
              get_elem?_lem old j 0 (omega arith),
              set_elem?_lem row j (get_or old j 0) (omega arith),
            )
            e.ends;
      size = e.size ∙ length-set row j (get_or old j 0);
      cells = λ c.
          let g : get_or row' c 0 ≡ (if j == c then get_or old j 0 else get_or row c 0) =
            get_or-set row j c (get_or old j 0) 0 (omega arith) in
          elim (Bool-cases (j == c)) [
            | inl this ↦
                let same : j ≡ c = ground arith in
                let now : get_or row' c 0 ≡ get_or old j 0 = g ∙ (rw this refl) in
                e.cells c ∙ (rw (now, same) (ground arith))
            | inr other ↦
                let now : get_or row' c 0 ≡ get_or row c 0 = g ∙ (rw other refl) in
                e.cells c ∙ (rw now (ground arith))
          ];
    }

-- One line.
copy_line_lem :
    (n i ni : ℕ) {orows ocols rows cols : ℕ} (mem area : List (List ℕ))
    → Shape orows ocols mem
    → Shape rows cols area
    → n ≤ ocols
    → n ≤ cols
    → i < orows
    → ni < rows
    → (area' : List (List ℕ)) × (copy_line n (suc i) (suc ni) mem area ≡ some area')
      × Shape rows cols area'
      × ((a b : ℕ)
          → pixel area' a b ≡ (if (ni == a) && ltb b n then pixel mem i b else pixel area a b))
unfolding copy_line
copy_line_lem zero i ni mem area s s' h h' k k' = (area, refl, s', λ a b. ground arith)
copy_line_lem (suc n) i ni mem area s s' h h' k k' =
    let old : List ℕ = row_of mem i in
    let row : List ℕ = row_of area ni in
    let width : length row ≡ _ = s'.width ni k' in
    let e : CellsCopied (suc n) 0 old row =
      copy_cells_lem (suc n) 0 old row (omega (arith, s.width i k)) (omega (arith, width)) in
    (
      set area ni e.result,
      rw
          (
            copy_line,
            get_elem?_lem mem i [] (omega (arith, s.lines)),
            get_elem?_lem area ni [] (omega (arith, s'.lines)),
            e.ends,
            set_elem?_lem area ni e.result (omega (arith, s'.lines)),
          )
          refl,
      Shape-set ni e.result s' k' (e.size ∙ width),
      λ a b.
          let here : row_of (set area ni e.result) a
              ≡ (if ni == a then e.result else row_of area a) =
            get_or-set area ni a e.result [] (omega (arith, s'.lines)) in
          elim (Bool-cases (ni == a)) [
            | inl this ↦
                let same : ni ≡ a = ground arith in
                rw (here, this) (e.cells b ∙ (rw same (ground arith)))
            | inr other ↦ rw (here, other) (ground arith)
          ],
    )

-- Lines are copied from the line `i` up, and `at` is where the cursor's line is put.
pub record LinesCopied (i ni n rows cols x : ℕ) (win : Window) (area : List (List ℕ)) : Type 0 where
  pub result : List (List ℕ)
  pub line : ℕ
  pub ends : copy_lines i ni n rows win (x, area) ≡ some (line, result)
  pub at : line ≡ (
      if leb 1 win.cursor_x && leb win.cursor_x i && ltb i (ni + win.cursor_x)
      then at_least_one (win.cursor_x + rows - win.rows)
      else x)
  pub shape : Shape rows cols result
  pub pixels :
      (a b : ℕ)
      → pixel result a b ≡ (
          if ltb a ni && leb ni (a + i) && ltb b n
          then pixel win.videomem (a + i - ni) b
          else pixel area a b)

-- The cursor's line in the new memory.
new_line_lem :
    (i rows x : ℕ) (win : Window)
    → i + rows < 2 ^ 31
    → new_line i rows win x
      ≡ some (if win.cursor_x == i then at_least_one (i + rows - win.rows) else x)
new_line_lem i rows x win h = elim (Bool-cases (win.cursor_x == i)) [
  | inl this ↦ let fits : ltb (i + rows) (2 ^ 31) ≡ true = ground arith in rw (this, fits) refl
  | inr other ↦ rw other refl
]

line_step :
    (c i ni rows orows x : ℕ)
    → (if leb 1 c && leb c i && ltb i (ni + c)
        then at_least_one (c + rows - orows)
        else (if c == suc i then at_least_one (suc i + rows - orows) else x))
      ≡ (if leb 1 c && leb c (suc i) && ltb (suc i) (suc ni + c)
          then at_least_one (c + rows - orows)
          else x)
line_step c i ni rows orows x = elim (Bool-cases (c == suc i)) [
  | inl this ↦ let same : c ≡ suc i = ground arith in rw (this, same) (ground arith)
  | inr other ↦ rw other (ground arith)
]

pixel_step :
    (i ni n a b : ℕ) (mem area area' : List (List ℕ))
    → pixel area' a b ≡ (if (ni == a) && ltb b n then pixel mem i b else pixel area a b)
    → (if ltb a ni && leb ni (a + i) && ltb b n then pixel mem (a + i - ni) b else pixel area' a b)
      ≡ (if ltb a (suc ni) && leb (suc ni) (a + suc i) && ltb b n
          then pixel mem (a + suc i - suc ni) b
          else pixel area a b)
pixel_step i ni n a b mem area area' p = elim (Bool-cases (ni == a)) [
  | inl this ↦ let same : a + suc i - suc ni ≡ i = ground arith in rw (p, this, same) (ground arith)
  | inr other ↦ rw (p, other) (ground arith)
]

pub copy_lines_lem :
    (i ni n rows cols x : ℕ) (win : Window) (area : List (List ℕ))
    → Shape win.rows win.cols win.videomem
    → Shape rows cols area
    → win.rows + rows < 2 ^ 31
    → n ≤ win.cols
    → n ≤ cols
    → i ≤ win.rows
    → ni ≤ rows
    → LinesCopied i ni n rows cols x win area
unfolding copy_lines
copy_lines_lem zero ni n rows cols x win area s s' f h h' k k' = record {
  result = area;
  line = x;
  ends = refl;
  at = ground arith;
  shape = s';
  pixels = λ a b. ground arith;
}
copy_lines_lem (suc i) zero n rows cols x win area s s' f h h' k k' = record {
  result = area;
  line = x;
  ends = refl;
  at = ground arith;
  shape = s';
  pixels = λ a b. ground arith;
}
copy_lines_lem (suc i) (suc ni) n rows cols x win area s s' f h h' k k' =
    let x' : ℕ = if win.cursor_x == suc i then at_least_one (suc i + rows - win.rows) else x in
    let (area', e, t, p) =
      copy_line_lem n i ni win.videomem area s s' h h' (omega arith) (omega arith) in
    let r : LinesCopied i ni n rows cols x' win area' =
      copy_lines_lem i ni n rows cols x' win area' s t f h h' (omega arith) (omega arith) in
    record {
      result = r.result;
      line = r.line;
      ends = rw (copy_lines, new_line_lem (suc i) rows x win (omega arith), e) r.ends;
      at = r.at ∙ line_step win.cursor_x i ni rows win.rows x;
      shape = r.shape;
      pixels = λ a b. r.pixels a b ∙ pixel_step i ni n a b win.videomem area area' (p a b);
    }

-- The last line of the window is the last line of the new memory.
pub record VideoCopied (win : Window) (area : List (List ℕ)) (rows cols : ℕ) : Type 0 where
  pub memory : List (List ℕ)
  pub line : ℕ
  pub column : ℕ
  pub ends : copy_video win area rows cols ≡ some (line, column, memory)
  pub shape : Shape rows cols memory
  pub pixels :
      (i j : ℕ)
      → i < rows
      → pixel memory i j ≡ (
          if leb rows (i + win.rows) && ltb j (min win.cols cols)
          then pixel win.videomem (i + win.rows - rows) j
          else pixel area i j)
  pub at_line : line ≡ at_least_one (win.cursor_x + rows - win.rows)
  pub at_column : column ≡ min win.cursor_y cols
