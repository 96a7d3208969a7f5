-- ===== src/Splitvt/Videomem.antt =====
-- splitvt/videomem.c: the memory of a window. A line is the row that the pointer in `videomem` is at;
-- no two of these pointers are equal between calls, so the lines are a list of rows. A pixel is the
-- bit pattern of an `int`.
use Prim.Native.Nat.{bit_and, bit_or, bit_xor}
use minilib_ports.Common.{
  ℕ, zero, suc, ◌+◌, ◌-◌, ◌*◌, ◌/◌, ◌%◌, ◌^◌, Bool, true, false, not, ◌&&◌, ◌||◌, List, [], ◌∷◌,
  ◌++◌, ltb, leb, ◌==◌, if◌then◌else◌, Bytes, Option, none, some, replicate, length,
}
use minilib_ports.Splitvt.Window.{
  Window, ◌>>=◌, get_elem?, set_elem?, get1, set1, bold, underline, blink, reverse_bit, selected,
}
pub mod Shape
pub mod Erased
pub mod Scrolled
pub mod Copy
pub mod Copied
pub mod Selection
pub mod Selected

-- A row of zeros, and the rows.
unfoldable pub alloc_video : ℕ → ℕ → List (List ℕ)
unfolding replicate
alloc_video rows cols = replicate rows (replicate cols 0)

-- `videomem[x - 1][y - 1] = c`
unfoldable pub put_pixel : ℕ → ℕ → ℕ → List (List ℕ) → Option (List (List ℕ))
put_pixel c x y mem = do row ← get1 mem x; row' ← set1 row y c; set1 mem x row'

unfoldable pub put_video : ℕ → ℕ → ℕ → Window → Option Window
unfolding put_pixel
put_video c x y win = do mem ← put_pixel c x y win.videomem; some (record win { videomem = mem })

unfoldable pub get_video : ℕ → ℕ → Window → Option ℕ
get_video x y win = do row ← get1 win.videomem x; get1 row y

-- `(int)c` for a `char` with a sign.
abbrev pub int_of_char : ℕ → ℕ
int_of_char c = if ltb c 128 then c else c + (2 ^ 32 - 256)

unfoldable pub add_video : ℕ → Window → Option Window
unfolding put_video get_video
add_video c win = do
  win' ← put_video (int_of_char c) win.cursor_x win.cursor_y win
  pixel ← get_video win.cursor_x win.cursor_y win'
  put_video (bit_or pixel (win.textattr * 256)) win.cursor_x win.cursor_y win'

-- The inner loop of `erase_video`: `n` pixels of a row, from column `y` on.
unfoldable pub erase_cells : ℕ → ℕ → List ℕ → Option (List ℕ)
erase_cells zero y row = some row
erase_cells (suc n) y row = do row' ← set1 row y 0; erase_cells n (suc y) row'

-- Of a line nothing is read where no pixel is erased.
unfoldable pub erase_line : ℕ → ℕ → ℕ → List (List ℕ) → Option (List (List ℕ))
unfolding erase_cells
erase_line zero y x mem = some mem
erase_line (suc n) y x mem = do row ← get1 mem x; row' ← erase_cells (suc n) y row; set1 mem x row'

-- The outer loop: `m` lines from `x` on.
unfoldable pub erase_lines : ℕ → ℕ → ℕ → ℕ → List (List ℕ) → Option (List (List ℕ))
unfolding erase_line
erase_lines zero n y x mem = some mem
erase_lines (suc m) n y x mem = do mem' ← erase_line n y x mem; erase_lines m n y (suc x) mem'

unfoldable pub erase_video : ℕ → ℕ → ℕ → ℕ → Window → Option Window
unfolding erase_lines
erase_video x1 x2 y1 y2 win = do
  mem ← erase_lines (suc x2 - x1) (suc y2 - y1) y1 x1 win.videomem
  some (record win { videomem = mem })

-- The loop of `scroll_video` over the pointers, from `n` on; `n` at its end stands first.
unfoldable pub shift_up : ℕ → ℕ → List (List ℕ) → Option (ℕ × List (List ℕ))
shift_up zero n mem = some (n, mem)
shift_up (suc k) n mem = do
  row ← get_elem? mem (suc n)
  mem' ← set_elem? mem n row
  shift_up k (suc n) mem'

unfoldable pub scroll_once : Window → Option Window
unfolding shift_up erase_cells
scroll_once win = do
  tmp ← get1 win.videomem win.scr_upper
  blank ← erase_cells win.cols 1 tmp
  mem ← set1 win.videomem win.scr_upper blank
  r ← shift_up (win.scr_lower - win.scr_upper) (win.scr_upper - 1) mem
  mem' ← set_elem? r.1 r.0 blank
  some (record win { videomem = mem' })

unfoldable pub scroll_times : ℕ → Window → Option Window
unfolding scroll_once
scroll_times zero win = some win
scroll_times (suc k) win = do win' ← scroll_once win; scroll_times k win'

unfoldable pub scroll_video : ℕ → Window → Option Window
unfolding scroll_times
scroll_video numlines win =
    if ltb win.scr_lower win.cursor_x then some win else scroll_times numlines win

-- The loop of `revscroll_video`, from `n` down.
unfoldable pub shift_down : ℕ → ℕ → List (List ℕ) → Option (ℕ × List (List ℕ))
shift_down zero n mem = some (n, mem)
shift_down (suc k) zero mem = none
shift_down (suc k) (suc n) mem = do
  row ← get_elem? mem n
  mem' ← set_elem? mem (suc n) row
  shift_down k n mem'

unfoldable pub revscroll_once : Window → Option Window
unfolding shift_down erase_cells
revscroll_once win = do
  tmp ← get1 win.videomem win.scr_lower
  blank ← erase_cells win.cols 1 tmp
  mem ← set1 win.videomem win.scr_lower blank
  r ← shift_down (win.scr_lower - win.scr_upper) (win.scr_lower - 1) mem
  mem' ← set_elem? r.1 r.0 blank
  some (record win { videomem = mem' })

unfoldable pub revscroll_times : ℕ → Window → Option Window
unfolding revscroll_once
revscroll_times zero win = some win
revscroll_times (suc k) win = do win' ← revscroll_once win; revscroll_times k win'

unfoldable pub revscroll_video : ℕ → Window → Option Window
unfolding revscroll_times
revscroll_video numlines win =
    if ltb win.cursor_x win.scr_upper then some win else revscroll_times numlines win

-- The loop of `rshift_video`: `k` pixels of the row at the cursor, from `i` down.
unfoldable pub rshift_cells : ℕ → ℕ → ℕ → List ℕ → Option (List ℕ)
rshift_cells zero i numcols row = some row
rshift_cells (suc k) i numcols row = do
  pixel ← if leb numcols i then get_elem? row (i - numcols) else some 0
  row' ← set_elem? row i pixel
  rshift_cells k (i - 1) numcols row'

-- No line is read where the loop makes no round.
unfoldable pub rshift_video : ℕ → Window → Option Window
unfolding rshift_cells
rshift_video numcols win =
    if ltb win.cursor_y win.cols
    then (do
      row ← get1 win.videomem win.cursor_x
      row' ← rshift_cells (win.cols - win.cursor_y) (win.cols - 1) numcols row
      mem ← set1 win.videomem win.cursor_x row'
      some (record win { videomem = mem }))
    else some win
