-- ===== src/Splitvt/Vt100/Csi.antt =====
-- splitvt/vt100.c: the escape sequences that begin with `ESC [`.
use Prim.Native.Nat.{bit_and, bit_or}
use minilib_ports.Common.{
  ℕ, zero, suc, ◌+◌, ◌-◌, ◌*◌, Bool, ◌&&◌, ◌||◌, List, ◌∷◌, ◌++◌, ltb, leb, ◌==◌, if◌then◌else◌,
  Bytes, codes, Option, some, replicate, get_or,
}
use minilib_ports.Splitvt.Window.{
  Window, ◌>>=◌, get_elem?, set_elem?, set1, int, scan_for_esc, max_params, bold, underline, blink,
  reverse_bit,
}
use minilib_ports.Splitvt.Videomem.{erase_video, revscroll_video, rshift_video}

unfoldable pub reset_escape : Window → Window
unfolding replicate
reset_escape win = record win {
  process_char = scan_for_esc;
  esc_param = replicate max_params 0;
  param_idx = 0;
  cur_param = 0;
}

abbrev pub is_decimal : ℕ → Bool
is_decimal c = leb b'0' c && leb c b'9'

-- A digit of a parameter.
unfoldable pub digit_param : ℕ → Window → Option Window
digit_param c win = do
  p ← get_elem? win.esc_param win.cur_param
  q ← int (p * 10)
  q' ← int (q + (c - b'0'))
  params ← set_elem? win.esc_param win.cur_param q'
  some (record win { esc_param = params })

unfoldable pub next_param : Window → Option Window
next_param win = do
  i ← int (suc win.param_idx)
  some (record win { param_idx = i; cur_param = if ltb i max_params then i else win.cur_param })

-- `esc_param[i]` for a numeral `i`.
abbrev pub param : ℕ → Window → ℕ
param i win = get_or win.esc_param i 0

-- A parameter of which 0 stands for 1.
abbrev pub count_of : ℕ → ℕ
count_of p = if p == 0 then 1 else p

unfoldable pub set_scroll_region : Window → Window
set_scroll_region win =
    let p = param 0 win in
    let q = param 1 win in
    let upper = if ltb p 1 then 1 else p in
    let lower = if ltb win.rows q then win.rows else q in
    let region =
      if (p == 0) && (q == 0)
      then record win { scr_upper = 1; scr_lower = win.rows }
      else if ltb lower upper
      then record win { scr_upper = 1; scr_lower = win.rows }
      else record win { scr_upper = upper; scr_lower = lower } in
    record region { cursor_x = 1; cursor_y = 1 }

unfoldable pub cursor_up : Window → Window
cursor_up win =
    let p = count_of (param 0 win) in
    if win.cursor_x == win.scr_upper
    then win
    else if ltb (win.scr_upper + p) win.cursor_x
    then record win { cursor_x = win.cursor_x - p }
    else record win { cursor_x = win.scr_upper }

unfoldable pub cursor_down : Window → Option Window
cursor_down win =
    let p = count_of (param 0 win) in
    if win.cursor_x == win.scr_lower then some win else (do
      newx ← int (win.cursor_x + p)
      some (record win { cursor_x = if leb newx win.scr_lower then newx else win.scr_lower }))

unfoldable pub cursor_right : Window → Option Window
cursor_right win =
    let p = count_of (param 0 win) in
    if win.cursor_y == win.cols then some win else (do
      newy ← int (win.cursor_y + p)
      some (record win { cursor_y = if ltb newy win.cols then newy else win.cols }))

unfoldable pub cursor_left : Window → Window
cursor_left win =
    let p = count_of (param 0 win) in
    if win.cursor_y == 1
    then win
    else if ltb (1 + p) win.cursor_y
    then record win { cursor_y = win.cursor_y - p }
    else record win { cursor_y = 1 }

abbrev pub at_most : ℕ → ℕ → ℕ
at_most limit n = if ltb limit n then limit else n

unfoldable pub cursor_to : Window → Window
cursor_to win = record win {
  cursor_x = at_most win.rows (count_of (param 0 win));
  cursor_y = at_most win.cols (count_of (param 1 win));
}

-- `n` tabstops cleared, from index `i` on.
unfoldable pub clear_tabs : ℕ → ℕ → List ℕ → Option (List ℕ)
clear_tabs zero i tabs = some tabs
clear_tabs (suc n) i tabs = do tabs' ← set_elem? tabs i 0; clear_tabs n (suc i) tabs'

unfoldable pub clear_tabstops : Window → Option Window
unfolding clear_tabs
clear_tabstops win =
    if param 0 win == 0
    then (do tabs ← set1 win.tabstops win.cursor_y 0; some (record win { tabstops = tabs }))
    else if param 0 win == 3
    then (do tabs ← clear_tabs win.cols 0 win.tabstops; some (record win { tabstops = tabs }))
    else some win

-- The attributes; colours go to the terminal only.
unfoldable pub process_m : ℕ → ℕ → ℕ
process_m attr n =
    if n == 0
    then 0
    else if n == 1
    then bit_or attr bold
    else if n == 4
    then bit_or attr underline
    else if n == 5
    then bit_or attr blink
    else if n == 7
    then bit_or attr reverse_bit
    else if n == 22
    then bit_and attr (255 - bold)
    else if n == 24
    then bit_and attr (255 - underline)
    else if n == 25
    then bit_and attr (255 - blink)
    else if n == 27
    then bit_and attr (255 - reverse_bit)
    else attr

-- The loop over the parameters from `i` on, which reads one before it looks at `i`. The first argument
-- is how many parameters there are from `i` on.
unfoldable pub more_attributes : ℕ → ℕ → List ℕ → ℕ → Option ℕ
unfolding process_m
more_attributes zero i params attr = do p ← get_elem? params i; some attr
more_attributes (suc n) i params attr = do
  p ← get_elem? params i
  let rest = more_attributes n (suc i) params (process_m attr p)
  if p == 0 then some attr else rest

unfoldable pub set_attributes : Window → Option Window
unfolding more_attributes
set_attributes win = do
  attr ← more_attributes (max_params - 1) 1 win.esc_param (process_m win.textattr (param 0 win))
  some (record win { textattr = attr })

unfoldable pub clear_screen : Window → Option Window
clear_screen win =
    let p = param 0 win in
    if p == 0
    then erase_video win.cursor_x win.rows 1 win.cols win
    else if p == 1
    then erase_video 1 win.cursor_x 1 win.cols win
    else if p == 2
    then (do
      win' ← erase_video 1 win.rows 1 win.cols win
      some (record win' { cursor_x = 1; cursor_y = 1 }))
    else some win

unfoldable pub clear_line : Window → Option Window
clear_line win =
    let p = param 0 win in
    if p == 0
    then erase_video win.cursor_x win.cursor_x win.cursor_y win.cols win
    else if p == 1
    then erase_video win.cursor_x win.cursor_x 1 win.cursor_y win
    else if p == 2
    then erase_video win.cursor_x win.cursor_x 1 win.cols win
    else some win

-- The replies to the program; `decimal` is what `%d` prints.
unfoldable pub report_status : (ℕ → Bytes) → Window → Window
report_status decimal win =
    let p = param 0 win in
    if p == 5
    then record win { sent = win.sent ++ 27 ∷ codes "[0n" }
    else if p == 6
    then record win {
      sent =
          win.sent
          ++ 27 ∷ codes "["
          ++ (decimal win.cursor_x ++ (codes ";" ++ (decimal win.cursor_y ++ codes "R")));
    }
    else win

-- The cases of `E_brac` that end in `reset_esc`.
unfoldable pub csi : (ℕ → Bytes) → ℕ → Window → Option Window
unfolding set_scroll_region cursor_up cursor_down cursor_right cursor_left cursor_to clear_tabstops
    set_attributes clear_screen clear_line report_status
csi decimal c win =
    if c == b'r'
    then some (set_scroll_region win)
    else if c == b'A'
    then some (cursor_up win)
    else if c == b'B'
    then cursor_down win
    else if c == b'C'
    then cursor_right win
    else if c == b'D'
    then some (cursor_left win)
    else if c == b'f' || c == b'H'
    then some (cursor_to win)
    else if c == b'g'
    then clear_tabstops win
    else if c == b'm'
    then set_attributes win
    else if c == b'J'
    then clear_screen win
    else if c == b'K'
    then clear_line win
    else if c == b'P'
    then erase_video win.cursor_x win.cursor_x win.cursor_y win.cursor_y win
    else if c == b'M'
    then revscroll_video 1 win
    else if c == b'@'
    then rshift_video (count_of (param 0 win)) win
    else if c == b'n'
    then some (report_status decimal win)
    else if c == b'c'
    then some (record win { sent = win.sent ++ 27 ∷ codes "[?6c" })
    else some win
