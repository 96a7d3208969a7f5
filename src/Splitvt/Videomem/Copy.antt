-- ===== src/Splitvt/Videomem/Copy.antt =====
-- splitvt/videomem.c: a window's memory copied to memory of another size. The new memory is not the
-- window's.
use minilib_ports.Common.{ℕ, zero, suc, ◌+◌, ◌-◌, List, ltb, ◌==◌, if◌then◌else◌, Option, some}
use minilib_ports.Splitvt.Window.{Window, ◌>>=◌, get_elem?, set_elem?, get1, set1, int}

-- The inner loop: `k` pixels from column `j` on, which counts from 0.
unfoldable pub copy_cells : ℕ → ℕ → List ℕ → List ℕ → Option (List ℕ)
copy_cells zero j old row = some row
copy_cells (suc k) j old row = do
  pixel ← get_elem? old j
  row' ← set_elem? row j pixel
  copy_cells k (suc j) old row'

-- `k` pixels of the line `i`, to the line `ni`. No line is read where no pixel is copied.
unfoldable pub copy_line : ℕ → ℕ → ℕ → List (List ℕ) → List (List ℕ) → Option (List (List ℕ))
unfolding copy_cells
copy_line zero i ni mem area = some area
copy_line (suc k) i ni mem area = do
  old ← get1 mem i
  row ← get1 area ni
  row' ← copy_cells (suc k) 0 old row
  set1 area ni row'

abbrev pub at_least_one : ℕ → ℕ
at_least_one n = if ltb n 1 then 1 else n

-- `newcursor->x` behind the first statement of the outer loop, for the line `i`.
abbrev pub new_line : ℕ → ℕ → Window → ℕ → Option ℕ
new_line i rows win x =
    if win.cursor_x == i
    then (do sum ← int (i + rows); some (at_least_one (sum - win.rows)))
    else some x

-- The outer loop, with `newcursor->x`.
unfoldable pub copy_lines : ℕ → ℕ → ℕ → ℕ → Window → ℕ × List (List ℕ) → Option (ℕ × List (List ℕ))
unfolding copy_line
copy_lines zero ni n rows win s = some s
copy_lines (suc i) zero n rows win s = some s
copy_lines (suc i) (suc ni) n rows win (x, area) = do
  x' ← new_line (suc i) rows win x
  area' ← copy_line n (suc i) (suc ni) win.videomem area
  copy_lines i ni n rows win (x', area')

abbrev pub min : ℕ → ℕ → ℕ
min a b = if ltb b a then b else a

-- `newcursor->x`, `newcursor->y` and the new memory.
unfoldable pub copy_video : Window → List (List ℕ) → ℕ → ℕ → Option (ℕ × ℕ × List (List ℕ))
unfolding copy_lines
copy_video win newarea rows cols = do
  r ← copy_lines win.rows rows (min win.cols cols) rows win (0, newarea)
  some (at_least_one r.0, min win.cursor_y cols, r.1)
