-- ===== src/Splitvt/Vt100/Valid.antt =====
-- splitvt/vt100.c: a window in order, and the parts that keep it so.
use Prim.Native.Nat.{bit_or}
use minilib_ports.Common.{
  ℕ, zero, suc, ◌-◌, ◌*◌, ◌^◌, ◌≤◌, ◌<◌, ◌≡◌, inl, inr, refl, ◌∙◌, Bool, true, false, List, [],
  arith, Option, some, length, get_or, set, length-set, replicate, ltb, leb, if◌then◌else◌,
  Bool-cases,
}
use minilib_ports.Splitvt.Window.{Window, ◌>>=◌, get_elem?, max_params, Process}
use minilib_ports.Splitvt.Window.Places.{get_elem?_lem, set_elem?_lem, get1_lem, set1_lem}
use minilib_ports.Splitvt.Videomem.{
  put_pixel, put_video, get_video, add_video, int_of_char, erase_video, rshift_cells, rshift_video,
  scroll_video, revscroll_video,
}
use minilib_ports.Splitvt.Videomem.Erased.{VideoErased, erase_video_lem}
use minilib_ports.Splitvt.Videomem.Scrolled.{Scrollable, Redrawn, scroll_video_lem}
use minilib_ports.Splitvt.Videomem.Shape.{row_of, pixel, Shape, Shape-set}
use minilib_ports.Splitvt.Vt100.Csi.{reset_escape}

-- The cursor is in the window, or one column behind it.
pub record IsValid (cs : ℕ) (win : Window) : Type 0 where
  pub shape : Shape win.rows win.cols win.videomem
  pub tabs : length win.tabstops ≡ win.cols
  pub columns : 1 ≤ win.cols
  pub wide : win.cols ≡ cs
  pub x_low : 1 ≤ win.cursor_x
  pub x_high : win.cursor_x ≤ win.rows
  pub y_low : 1 ≤ win.cursor_y
  pub y_high : win.cursor_y ≤ suc win.cols
  pub upper : 1 ≤ win.scr_upper
  pub region : win.scr_upper ≤ win.scr_lower
  pub lower : win.scr_lower ≤ win.rows
  pub params : length win.esc_param ≡ max_params
  pub current : win.cur_param < max_params
  pub small : suc win.cols < 2 ^ 31

-- The call ends, with a window in order.
abbrev pub Kept : ℕ → Option Window → Type 0
Kept cs r = (win' : Window) × (r ≡ some win') × IsValid cs win'

pub Kept-if :
    {cs : ℕ} {r r' : Option Window} (b : Bool)
    → (b ≡ true → Kept cs r)
    → (b ≡ false → Kept cs r')
    → Kept cs (if b then r else r')
Kept-if true f g = f refl
Kept-if false f g = g refl

pub Kept-bind :
    {cs : ℕ} {r : Option Window} (f : Window → Option Window)
    → Kept cs r
    → ((win : Window) → IsValid cs win → Kept cs (f win))
    → Kept cs (r >>= f)
Kept-bind f (win, e, v) g = rw e (g win v)

-- The same window but for what is not in the invariant.
pub reset_escape-IsValid : {cs : ℕ} {win : Window} → IsValid cs win → IsValid cs (reset_escape win)
unfolding reset_escape replicate
reset_escape-IsValid v = record {
  shape = v.shape;
  tabs = v.tabs;
  columns = v.columns;
  wide = v.wide;
  x_low = v.x_low;
  x_high = v.x_high;
  y_low = v.y_low;
  y_high = v.y_high;
  upper = v.upper;
  region = v.region;
  lower = v.lower;
  params = refl;
  current = omega arith;
  small = v.small;
}

pub memory-IsValid :
    {cs : ℕ} {win : Window} (mem : List (List ℕ))
    → IsValid cs win
    → Shape win.rows win.cols mem
    → IsValid cs (record win { videomem = mem })
memory-IsValid mem v s = record {
  shape = s;
  tabs = v.tabs;
  columns = v.columns;
  wide = v.wide;
  x_low = v.x_low;
  x_high = v.x_high;
  y_low = v.y_low;
  y_high = v.y_high;
  upper = v.upper;
  region = v.region;
  lower = v.lower;
  params = v.params;
  current = v.current;
  small = v.small;
}

-- The cursor at another place of the window.
pub cursor-IsValid :
    {cs : ℕ} {win : Window} (x y : ℕ)
    → IsValid cs win
    → 1 ≤ x
    → x ≤ win.rows
    → 1 ≤ y
    → y ≤ suc win.cols
    → IsValid cs (record win { cursor_x = x; cursor_y = y })
cursor-IsValid x y v a b c d = record {
  shape = v.shape;
  tabs = v.tabs;
  columns = v.columns;
  wide = v.wide;
  x_low = a;
  x_high = b;
  y_low = c;
  y_high = d;
  upper = v.upper;
  region = v.region;
  lower = v.lower;
  params = v.params;
  current = v.current;
  small = v.small;
}

pub tabs-IsValid :
    {cs : ℕ} {win : Window} (tabs : List ℕ)
    → IsValid cs win
    → length tabs ≡ win.cols
    → IsValid cs (record win { tabstops = tabs })
tabs-IsValid tabs v h = record {
  shape = v.shape;
  tabs = h;
  columns = v.columns;
  wide = v.wide;
  x_low = v.x_low;
  x_high = v.x_high;
  y_low = v.y_low;
  y_high = v.y_high;
  upper = v.upper;
  region = v.region;
  lower = v.lower;
  params = v.params;
  current = v.current;
  small = v.small;
}

-- What has no part in the invariant.
pub others-IsValid :
    {cs : ℕ} {win : Window} (process : Process) (attr saved_x saved_y saved_attr : ℕ)
    → IsValid cs win
    → IsValid cs (record win {
      process_char = process;
      textattr = attr;
      saved_x = saved_x;
      saved_y = saved_y;
      saved_textattr = saved_attr;
    })
others-IsValid process attr sx sy sa v = record {
  shape = v.shape;
  tabs = v.tabs;
  columns = v.columns;
  wide = v.wide;
  x_low = v.x_low;
  x_high = v.x_high;
  y_low = v.y_low;
  y_high = v.y_high;
  upper = v.upper;
  region = v.region;
  lower = v.lower;
  params = v.params;
  current = v.current;
  small = v.small;
}

IsValid-Scrollable : {cs : ℕ} {win : Window} → IsValid cs win → Scrollable win
IsValid-Scrollable v = record {
  shape = v.shape;
  upper = v.upper;
  region = v.region;
  lower = v.lower;
}

Redrawn-Kept :
    {cs : ℕ} {win : Window} {r : Option Window} {p : ℕ → ℕ → ℕ}
    → IsValid cs win
    → Redrawn win r p
    → Kept cs r
Redrawn-Kept {win} v d =
    (record win { videomem = d.memory }, d.ends, memory-IsValid d.memory v d.shape)

pub scroll_video-Kept :
    {cs : ℕ} {win : Window} (n : ℕ) → IsValid cs win → Kept cs (scroll_video n win)
scroll_video-Kept {win} n v = Redrawn-Kept v (scroll_video_lem n win (IsValid-Scrollable v)).0

pub revscroll_video-Kept :
    {cs : ℕ} {win : Window} (n : ℕ) → IsValid cs win → Kept cs (revscroll_video n win)
revscroll_video-Kept {win} n v = Redrawn-Kept v (scroll_video_lem n win (IsValid-Scrollable v)).1

pub erase_video-Kept :
    {cs : ℕ} {win : Window} (x1 x2 y1 y2 : ℕ)
    → IsValid cs win
    → 1 ≤ x1
    → x2 ≤ win.rows
    → x1 ≤ suc x2
    → 1 ≤ y1
    → y2 ≤ win.cols
    → y1 ≤ suc y2
    → Kept cs (erase_video x1 x2 y1 y2 win)
erase_video-Kept {win} x1 x2 y1 y2 v a b c d e f =
    let r : VideoErased x1 x2 y1 y2 win = erase_video_lem x1 x2 y1 y2 win v.shape a b c d e f in
    (record win { videomem = r.memory }, r.ends, memory-IsValid r.memory v r.shape)

put_video-Kept :
    {cs : ℕ} {win : Window} (c x y : ℕ)
    → IsValid cs win
    → 1 ≤ x
    → x ≤ win.rows
    → 1 ≤ y
    → y ≤ win.cols
    → (mem : List (List ℕ)) × (put_video c x y win ≡ some (record win { videomem = mem }))
      × Shape win.rows win.cols mem
unfolding put_video put_pixel
put_video-Kept {win} c x y v a b d e =
    let mem : List (List ℕ) = win.videomem in
    let row : List ℕ = row_of mem (x - 1) in
    let width : length row ≡ win.cols = v.shape.width (x - 1) (omega arith) in
    (
      set mem (x - 1) (set row (y - 1) c),
      rw
          (
            put_video,
            get1_lem mem x [] a (omega (arith, v.shape.lines)),
            set1_lem row y c d (omega arith),
            set1_lem mem x (set row (y - 1) c) a (omega (arith, v.shape.lines)),
          )
          refl,
      Shape-set (x - 1) (set row (y - 1) c) v.shape (omega arith)
          (length-set row (y - 1) c ∙ width),
    )

get_video-some :
    {cs : ℕ} {win : Window} (x y : ℕ)
    → IsValid cs win
    → 1 ≤ x
    → x ≤ win.rows
    → 1 ≤ y
    → y ≤ win.cols
    → get_video x y win ≡ some (pixel win.videomem (x - 1) (y - 1))
unfolding get_video
get_video-some {win} x y v a b d e =
    let width : length (row_of win.videomem (x - 1)) ≡ win.cols =
      v.shape.width (x - 1) (omega arith) in
    rw (get_video, get1_lem win.videomem x [] a (omega (arith, v.shape.lines)))
      (get1_lem (row_of win.videomem (x - 1)) y 0 d (omega arith))

-- A byte at the cursor, with the cursor still in the window.
pub add_video-Kept :
    {cs : ℕ} {win : Window} (c : ℕ)
    → IsValid cs win
    → win.cursor_y ≤ win.cols
    → (mem : List (List ℕ)) × (add_video c win ≡ some (record win { videomem = mem }))
      × Shape win.rows win.cols mem
unfolding add_video
add_video-Kept {cs} {win} c v h =
    let (mem, e, s) =
      put_video-Kept (int_of_char c) win.cursor_x win.cursor_y v v.x_low v.x_high v.y_low h in
    let win' : Window = record win { videomem = mem } in
    let v' : IsValid cs win' = memory-IsValid mem v s in
    let was : ℕ = pixel mem (win.cursor_x - 1) (win.cursor_y - 1) in
    let g : get_video win.cursor_x win.cursor_y win' ≡ some was =
      get_video-some win.cursor_x win.cursor_y v' v.x_low v.x_high v.y_low h in
    let (mem', e', s') =
      put_video-Kept (bit_or was (win.textattr * 256)) win.cursor_x win.cursor_y v' v.x_low v.x_high
        v.y_low h in
    (mem', rw (add_video, e, g) e', s')

rshift_cells-size :
    (k i numcols : ℕ) (row : List ℕ)
    → k ≤ suc i
    → i < length row
    → (row' : List ℕ) × (rshift_cells k i numcols row ≡ some row') × (length row' ≡ length row)
unfolding rshift_cells
rshift_cells-size zero i numcols row h l = (row, refl, refl)
rshift_cells-size (suc k) i numcols row h l =
    let c : ℕ = if leb numcols i then get_or row (i - numcols) 0 else 0 in
    let read : (if leb numcols i then get_elem? row (i - numcols) else some 0) ≡ some c =
      ground (arith, get_elem?_lem row (i - numcols) 0 (omega arith)) in
    let (row', e, size) =
      rshift_cells-size k (i - 1) numcols (set row i c) (omega arith)
        (omega (arith, length-set row i c)) in
    (row', rw (rshift_cells, read, set_elem?_lem row i c l) e, size ∙ length-set row i c)

pub rshift_video-Kept :
    {cs : ℕ} {win : Window} (n : ℕ) → IsValid cs win → Kept cs (rshift_video n win)
unfolding rshift_video
rshift_video-Kept {win} n v = elim (Bool-cases (ltb win.cursor_y win.cols)) [
  | inl some_left ↦
      let mem : List (List ℕ) = win.videomem in
      let row : List ℕ = row_of mem (win.cursor_x - 1) in
      let width : length row ≡ win.cols =
        v.shape.width (win.cursor_x - 1) (omega (arith, v.x_low, v.x_high)) in
      let (row', e, size) =
        rshift_cells-size (win.cols - win.cursor_y) (win.cols - 1) n row (omega arith)
          (omega (arith, v.columns)) in
      (
        record win { videomem = set mem (win.cursor_x - 1) row' },
        rw
            (
              rshift_video,
              some_left,
              get1_lem mem win.cursor_x [] v.x_low (omega (arith, v.x_high, v.shape.lines)),
              e,
              set1_lem mem win.cursor_x row' v.x_low (omega (arith, v.x_high, v.shape.lines)),
            )
            refl,
        memory-IsValid (set mem (win.cursor_x - 1) row') v (
            Shape-set (win.cursor_x - 1) row' v.shape (omega (arith, v.x_low, v.x_high))
              (size ∙ width)),
      )
  | inr none_left ↦ (win, rw (rshift_video, none_left) refl, v)
]
