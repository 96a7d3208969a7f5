-- ===== src/Splitvt/Vt100.antt =====
-- splitvt/vt100.c: the functions that take one byte of the output of a program, `process_char`. What
-- they write to the terminal is not modelled.
use minilib_ports.Common.{
  ℕ, zero, suc, ◌+◌, ◌-◌, ◌*◌, Bool, true, false, not, ◌&&◌, ◌||◌, List, [], ◌∷◌, ◌++◌, ltb, leb,
  ◌==◌, if◌then◌else◌, Bytes, codes, Option, none, some, replicate, get_or,
}
use minilib_ports.Splitvt.Window.{
  Window, ◌>>=◌, get_elem?, set_elem?, set1, int, decr, Process, scan_for_esc, escape, e_brac,
  e_brac_q, e_lparen, e_rparen, e_pound, KeyState, normal, application, max_params,
}
use minilib_ports.Splitvt.Videomem.{add_video, scroll_video, revscroll_video}
use minilib_ports.Splitvt.Vt100.Csi.{
  csi, reset_escape, is_decimal, digit_param, next_param, param, at_most,
}
pub mod Csi
pub mod Valid
pub mod CsiKept
pub mod ScanKept
pub mod Kept
pub mod Faults

abbrev pub uk_charset : ℕ
uk_charset = 1

abbrev pub us_charset : ℕ
us_charset = 2

abbrev pub graphics : ℕ
graphics = 4

-- The screen: the window that is written to, the columns of the other one, and of the terminal.
pub record Screen : Type 0 where
  pub cur : Window
  pub other_cols : ℕ
  pub physical_cols : ℕ

-- `vt_resetwin`, with the columns of the terminal.
unfoldable pub vt_resetwin : ℕ → Window → Window
unfolding reset_escape
vt_resetwin cols win = reset_escape (record win {
  cursor_x = 1;
  cursor_y = 1;
  cols = cols;
  scr_upper = 1;
  scr_lower = win.rows;
  saved_x = 0;
  saved_y = 0;
  key_state = normal;
  textattr = 0;
  saved_textattr = 0;
  charset0 = us_charset;
  charset1 = us_charset;
})

-- The cases of a byte that ends or cancels a sequence.
abbrev pub is_cancel : ℕ → Bool
is_cancel c = c == 24 || c == 26

-- A line down, or a scroll at the margin.
unfoldable pub line_feed : Window → Option Window
line_feed win =
    if ltb win.cursor_x win.scr_lower
    then some (record win { cursor_x = suc win.cursor_x })
    else scroll_video 1 win

-- The loop of a tab: at least one column is passed. It ends at the last column, so it makes one round
-- more at most than there are columns.
unfoldable pub tab : ℕ → Window → Option Window
tab zero win = none
tab (suc rounds) win = do
  y ← int (suc win.cursor_y)
  let win' = record win { cursor_y = y }
  stop ← get_elem? win.tabstops win.cursor_y
  let rest = tab rounds win'
  if (stop == 0) && ltb y win.cols then rest else some win'

-- The default case, with the wrap at the end of a line.
unfoldable pub printable : ℕ → Window → Option Window
unfolding line_feed
printable c win = do
  win' ←
      if ltb win.cols win.cursor_y
      then (do next ← line_feed win; some (record next { cursor_y = 1 }))
      else some win
  win'' ← add_video c win'
  some (record win'' { cursor_y = suc win''.cursor_y })

unfoldable pub scan_byte : ℕ → Window → Option Window
unfolding line_feed tab printable reset_escape
scan_byte c win =
    if c == 0 || c == 3 || c == 4 || c == 5 || c == 7
    then some win
    else if c == 8
    then (if win.cursor_y == 1
        then some win
        else (do y ← decr win.cursor_y; some (record win { cursor_y = y })))
    else if c == 9
    then tab (suc win.cols) win
    else if c == 10 || c == 11 || c == 12
    then line_feed win
    else if c == 13
    then some (record win { cursor_y = 1 })
    else if c == 14 || c == 15 || c == 17 || c == 18
    then some win
    else if is_cancel c
    then some (reset_escape win)
    else if c == 27
    then some (record win { process_char = escape })
    else printable c win

unfoldable pub reverse_line_feed : Window → Option Window
reverse_line_feed win =
    if ltb win.scr_upper win.cursor_x
    then some (record win { cursor_x = win.cursor_x - 1 })
    else revscroll_video 1 win

unfoldable pub restore_cursor : Window → Window
restore_cursor win = record win {
  cursor_x = at_most win.rows win.saved_x;
  cursor_y = at_most win.cols win.saved_y;
  textattr = win.saved_textattr;
}

-- The cases of `E_` that end in `reset_esc`, with the columns of the terminal.
unfoldable pub escaped : ℕ → ℕ → Window → Option Window
unfolding line_feed reverse_line_feed restore_cursor vt_resetwin
escaped cols c win =
    if c == b'D'
    then line_feed win
    else if c == b'M'
    then reverse_line_feed win
    else if c == b'E'
    then (do next ← line_feed win; some (record next { cursor_y = 1 }))
    else if c == b'7'
    then some (record win {
      saved_x = win.cursor_x;
      saved_y = win.cursor_y;
      saved_textattr = win.textattr;
    })
    else if c == b'8'
    then some (restore_cursor win)
    else if c == b'='
    then some (record win { key_state = application })
    else if c == b'>'
    then some (record win { key_state = normal })
    else if c == b'H'
    then (do tabs ← set1 win.tabstops win.cursor_y 1; some (record win { tabstops = tabs }))
    else if c == b'Z'
    then some (record win { sent = win.sent ++ 27 ∷ codes "[?6c" })
    else if c == b'c'
    then some (vt_resetwin cols win)
    else some win

unfoldable pub e_ : ℕ → ℕ → Window → Option Window
unfolding escaped reset_escape
e_ cols c win =
    if is_cancel c
    then some (reset_escape win)
    else if c == b'['
    then some (record win { process_char = e_brac })
    else if c == b'('
    then some (record win { process_char = e_lparen })
    else if c == b')'
    then some (record win { process_char = e_rparen })
    else if c == b'#'
    then some (record win { process_char = e_pound })
    else (do win' ← escaped cols c win; some (reset_escape win'))

unfoldable pub e_bracket : (ℕ → Bytes) → ℕ → Window → Option Window
unfolding csi digit_param next_param reset_escape
e_bracket decimal c win =
    if is_decimal c
    then digit_param c win
    else if is_cancel c
    then some (reset_escape win)
    else if c == b'?'
    then (do
      p ← get_elem? win.esc_param win.cur_param
      some (if p == 0 then record win { process_char = e_brac_q } else reset_escape win))
    else if c == b';'
    then next_param win
    else (do win' ← csi decimal c win; some (reset_escape win'))

-- The modes of the keypad and of the columns; `entry_cols` is what `vt_rows_cols` finds.
unfoldable pub private_mode : ℕ → ℕ → Screen → Screen
private_mode entry_cols c scr =
    let p = param 0 scr.cur in
    if c == b'h'
    then (if p == 1
        then record scr { cur = record scr.cur { key_state = application } }
        else if (p == 3) && not (scr.physical_cols == 132)
        then record scr {
          cur = record scr.cur { cols = 132 };
          other_cols = 132;
          physical_cols = 132;
        }
        else scr)
    else if c == b'l'
    then (if p == 1
        then record scr { cur = record scr.cur { key_state = normal } }
        else if (p == 3) && (scr.physical_cols == 132)
        then record scr {
          cur = record scr.cur { cols = entry_cols };
          other_cols = entry_cols;
          physical_cols = entry_cols;
        }
        else scr)
    else scr

unfoldable pub e_bracket_q : ℕ → ℕ → Screen → Option Screen
unfolding private_mode digit_param reset_escape
e_bracket_q entry_cols c scr =
    if is_decimal c
    then (do win ← digit_param c scr.cur; some (record scr { cur = win }))
    else if is_cancel c
    then some (record scr { cur = reset_escape scr.cur })
    else (let scr' = private_mode entry_cols c scr in
        some (record scr' { cur = reset_escape scr'.cur }))

-- The character set that a byte selects.
abbrev pub charset_of : ℕ → ℕ → ℕ
charset_of old c =
    if c == b'A'
    then uk_charset
    else if c == b'B'
    then us_charset
    else if c == b'0'
    then graphics
    else old

unfoldable pub e_paren_left : ℕ → Window → Window
unfolding reset_escape
e_paren_left c win =
    if is_cancel c
    then reset_escape win
    else reset_escape (record win { charset0 = charset_of win.charset0 c })

unfoldable pub e_paren_right : ℕ → Window → Window
unfolding reset_escape
e_paren_right c win =
    if is_cancel c
    then reset_escape win
    else reset_escape (record win { charset1 = charset_of win.charset1 c })

module _ (decimal : ℕ → Bytes) (entry_cols : ℕ) where
  -- The function that `process_char` points to, called.
  unfoldable pub call : Process → ℕ → Screen → Option Screen
  unfolding scan_byte e_ e_bracket e_bracket_q e_paren_left e_paren_right reset_escape
  call scan_for_esc c scr = do win ← scan_byte c scr.cur; some (record scr { cur = win })
  call escape c scr = do win ← e_ scr.physical_cols c scr.cur; some (record scr { cur = win })
  call e_brac c scr = do win ← e_bracket decimal c scr.cur; some (record scr { cur = win })
  call e_brac_q c scr = e_bracket_q entry_cols c scr
  call e_lparen c scr = some (record scr { cur = e_paren_left c scr.cur })
  call e_rparen c scr = some (record scr { cur = e_paren_right c scr.cur })
  call e_pound c scr = some (record scr { cur = reset_escape scr.cur })

  -- `(*curwin->process_char)(c, source)`
  unfoldable pub process : ℕ → Screen → Option Screen
  unfolding call
  process c scr = call scr.cur.process_char c scr

  -- The loop of `vt_write` on the window that is set.
  unfoldable pub vt_write : Bytes → Screen → Option Screen
  unfolding process
  vt_write [] scr = some scr
  vt_write (c ∷ text) scr = do scr' ← process c scr; vt_write text scr'
