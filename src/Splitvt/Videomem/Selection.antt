-- ===== src/Splitvt/Videomem/Selection.antt =====
-- splitvt/videomem.c: the text of a selection, and the marks of the selected pixels. `i`, `j` and
-- `eol` count from 0.

use minilib_ports.Common.{
  ℕ, zero, suc, ◌-◌, ◌%◌, ◌&&◌, List, [], ◌∷◌, ◌++◌, ltb, leb, ◌==◌, if◌then◌else◌, Bytes, Option,
  some, length,
}
use minilib_ports.Splitvt.Window.{Window, ◌>>=◌, get_elem?, get1, decr}
use minilib_ports.Splitvt.Videomem.Copy.{min}

-- The loop of `video_eol`, with one more than its `eol`.
unfoldable pub eol_cells : ℕ → ℕ → ℕ → List ℕ → Option ℕ
eol_cells zero j eol row = some eol
eol_cells (suc k) j eol row = do
  pixel ← get_elem? row j
  eol_cells k (suc j) (if pixel % 256 == 0 then eol else suc j) row

unfoldable pub eol_line : ℕ → ℕ → List (List ℕ) → Option ℕ
unfolding eol_cells
eol_line zero lineno mem = some 0
eol_line (suc k) lineno mem = do row ← get1 mem lineno; eol_cells (suc k) 0 0 row

unfoldable pub video_eol : Window → ℕ → Option ℕ
unfolding eol_line
video_eol win lineno = eol_line win.cols lineno win.videomem

-- What is written for a pixel.
abbrev pub shown : ℕ → ℕ
shown pixel = if pixel % 256 == 0 then b' ' else pixel % 256

-- The inner loop: `k` bytes, behind those that `buf` has got; `l` is their number.
unfoldable pub sel_cells : ℕ → ℕ → ℕ → List (List ℕ) → Bytes → Option Bytes
sel_cells zero i j mem buf = some buf
sel_cells (suc k) i j mem buf = do
  row ← get_elem? mem i
  pixel ← get_elem? row j
  sel_cells k i (suc j) mem (buf ++ shown pixel ∷ [])

-- The arguments of a call.
pub record Selection : Type 0 where
  pub x1 : ℕ
  pub x2 : ℕ
  pub y1 : ℕ
  pub y2 : ℕ

-- `eos`, for the line `i`.
abbrev pub next_eos : Selection → ℕ → ℕ → ℕ → ℕ
next_eos sel i eol eos =
    if suc i == sel.x2 then min (sel.y2 - 1) eol else if suc i == sel.x1 then eol else eos

-- `j`, for the line `i`.
abbrev pub first_cell : Selection → ℕ → Option ℕ
first_cell sel i = if suc i == sel.x1 then decr sel.y1 else some 0

-- The byte behind a line. The loop has left `j` at `eos`, or where it began.
abbrev pub end_line : ℕ → ℕ → ℕ → ℕ → Bytes → Bytes
end_line maxlen j eos eol buf =
    if ltb (length buf) maxlen && leb eol (if ltb j eos then eos else j)
    then buf ++ b'\r' ∷ []
    else buf

-- The outer loop: `k` lines from `i` on, where `maxlen` is one less than the argument. On a line
-- between the first and the last one, `eos` is still that of the first.
unfoldable pub sel_lines : ℕ → ℕ → ℕ → Selection → Window → ℕ → Bytes → Option Bytes
unfolding video_eol sel_cells
sel_lines zero i maxlen sel win eos buf = some buf
sel_lines (suc k) i maxlen sel win eos buf =
    if ltb (length buf) maxlen
    then (do
      eol ← video_eol win (suc i)
      j ← first_cell sel i
      buf' ← sel_cells (next_eos sel i eol eos - j) i j win.videomem buf
      sel_lines k (suc i) maxlen sel win (next_eos sel i eol eos)
          (end_line maxlen j (next_eos sel i eol eos) eol buf'))
    else some buf

-- What is written in front of the NUL, also where the buffer is shorter. The first line sets `eos`.
unfoldable pub getsel_video : Window → ℕ → Selection → Option Bytes
unfolding sel_lines
getsel_video win maxlen sel = do i ← decr sel.x1; sel_lines (sel.x2 - i) i (maxlen - 1) sel win 0 []
