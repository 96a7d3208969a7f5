-- ===== src/Splitvt/Vt100/ScanKept.antt =====
-- splitvt/vt100.c: bytes outside the sequences that begin with `ESC [` keep the window in order.
use minilib_ports.Common.{
  ℕ, zero, suc, ◌+◌, ◌-◌, ◌≤◌, ◌<◌, ◌≡◌, inl, inr, refl, ◌∙◌, subst, ◌&&◌, ◌||◌, ◌∷◌, ◌++◌, arith,
  Option, some, length, get_or, set, length-set, ltb, ◌==◌, if◌then◌else◌, Bool-cases, codes,
  replicate,
}
use minilib_ports.Splitvt.Window.{
  Window, ◌>>=◌, get_elem?, decr, escape, normal, application, KeyState,
}
use minilib_ports.Splitvt.Window.Places.{get_elem?_lem, set1_lem}
use minilib_ports.Splitvt.Videomem.Shape.{Shape}
use minilib_ports.Splitvt.Vt100.{
  vt_resetwin, is_cancel, line_feed, tab, printable, scan_byte, reverse_line_feed, restore_cursor,
  escaped,
}
use minilib_ports.Splitvt.Vt100.Csi.{reset_escape, at_most}
use minilib_ports.Splitvt.Vt100.CsiKept.{int_lem, is, sent-IsValid}
use minilib_ports.Splitvt.Vt100.Valid.{
  IsValid, Kept, Kept-if, Kept-bind, memory-IsValid, cursor-IsValid, tabs-IsValid, others-IsValid,
  reset_escape-IsValid, scroll_video-Kept, revscroll_video-Kept, add_video-Kept,
}

line_feed-Kept : {cs : ℕ} {win : Window} → IsValid cs win → Kept cs (line_feed win)
unfolding line_feed
line_feed-Kept {win} v =
    Kept-if (ltb win.cursor_x win.scr_lower)
      (λ above. (
        record win { cursor_x = suc win.cursor_x },
        refl,
        cursor-IsValid (suc win.cursor_x) win.cursor_y v (omega arith) (ground (arith, v.lower))
            v.y_low v.y_high,
      ))
      (λ _. scroll_video-Kept 1 v)

-- A tab in front of the last column.
tab-Kept :
    {cs : ℕ} (rounds : ℕ) {win : Window}
    → IsValid cs win
    → win.cursor_y < win.cols
    → win.cols ≤ win.cursor_y + rounds
    → Kept cs (tab rounds win)
unfolding tab
tab-Kept zero v h k = absurd (omega arith)
tab-Kept {cs} (suc rounds) {win} v h k =
    let y : ℕ = suc win.cursor_y in
    let stop : ℕ = get_or win.tabstops win.cursor_y 0 in
    let read : get_elem? win.tabstops win.cursor_y ≡ some stop =
      get_elem?_lem win.tabstops win.cursor_y 0 (omega (arith, v.tabs)) in
    let moved : IsValid cs (record win { cursor_y = y }) =
      cursor-IsValid win.cursor_x y v v.x_low v.x_high (omega arith) (omega arith) in
    rw (tab, int_lem y (omega (arith, v.small)), read)
      (Kept-if ((stop == 0) && ltb y win.cols)
        (λ on. tab-Kept rounds moved (ground arith) (omega arith))
        (λ _. (record win { cursor_y = y }, refl, moved)))

abbrev wrapped : Window → Option Window
wrapped win =
    if ltb win.cols win.cursor_y
    then (do next ← line_feed win; some (record next { cursor_y = 1 }))
    else some win

-- The column behind the last is left first.
wrapped-Kept :
    {cs : ℕ} {win : Window}
    → IsValid cs win
    → (win' : Window) × (wrapped win ≡ some win') × IsValid cs win' × (win'.cursor_y ≤ win'.cols)
wrapped-Kept {win} v = elim (Bool-cases (ltb win.cols win.cursor_y)) [
  | inl behind ↦
      let (next, e, w) = line_feed-Kept v in
      (
        record next { cursor_y = 1 },
        rw (behind, e) refl,
        cursor-IsValid next.cursor_x 1 w w.x_low w.x_high (omega arith) (omega arith),
        w.columns,
      )
  | inr inside ↦ (win, rw inside refl, v, ground arith)
]

printable-Kept : {cs : ℕ} {win : Window} (c : ℕ) → IsValid cs win → Kept cs (printable c win)
unfolding printable
printable-Kept {win} c v =
    let (win', e, w, h) = wrapped-Kept v in
    let (mem, f, s) = add_video-Kept c w h in
    (
      record win' { videomem = mem; cursor_y = suc win'.cursor_y },
      rw (printable, e, f) refl,
      cursor-IsValid win'.cursor_x (suc win'.cursor_y) (memory-IsValid mem w s) w.x_low w.x_high
          (omega arith) (omega arith),
    )

pub scan_byte-Kept :
    {cs : ℕ} {win : Window} (c : ℕ)
    → IsValid cs win
    → (c ≡ 9 → win.cursor_y < win.cols)
    → Kept cs (scan_byte c win)
unfolding scan_byte
scan_byte-Kept {win} c v h =
    Kept-if (c == 0 || c == 3 || c == 4 || c == 5 || c == 7) (λ _. (win, refl, v))
      (λ _.
        Kept-if (c == 8)
          (λ _.
            Kept-if (win.cursor_y == 1) (λ _. (win, refl, v))
              (λ behind.
                let down : decr win.cursor_y ≡ some (win.cursor_y - 1) = ground (arith, v.y_low) in
                (
                  record win { cursor_y = win.cursor_y - 1 },
                  rw down refl,
                  cursor-IsValid win.cursor_x (win.cursor_y - 1) v v.x_low v.x_high
                      (ground (arith, v.y_low)) (omega (arith, v.y_high)),
                )))
          (λ _.
            Kept-if (c == 9) (λ e. tab-Kept (suc win.cols) v (h (is e)) (omega arith))
              (λ _.
                Kept-if (c == 10 || c == 11 || c == 12) (λ _. line_feed-Kept v)
                  (λ _.
                    Kept-if (c == 13)
                      (λ _. (
                        record win { cursor_y = 1 },
                        refl,
                        cursor-IsValid win.cursor_x 1 v v.x_low v.x_high (omega arith)
                            (omega arith),
                      ))
                      (λ _.
                        Kept-if (c == 14 || c == 15 || c == 17 || c == 18) (λ _. (win, refl, v))
                          (λ _.
                            Kept-if (is_cancel c)
                              (λ _. (reset_escape win, refl, reset_escape-IsValid v))
                              (λ _.
                                Kept-if (c == 27)
                                  (λ _. (
                                    record win { process_char = escape },
                                    refl,
                                    others-IsValid escape win.textattr win.saved_x win.saved_y
                                        win.saved_textattr v,
                                  ))
                                  (λ _. printable-Kept c v))))))))

-- What a byte must not do behind `ESC`: set a tab behind the last column, or restore a cursor that
-- was never saved.
pub record EscapeSafe (c : ℕ) (win : Window) : Type 0 where
  pub tab_set : c ≡ b'H' → win.cursor_y ≤ win.cols
  pub restored : c ≡ b'8' → (1 ≤ win.saved_x) × (1 ≤ win.saved_y)

reverse_line_feed-Kept : {cs : ℕ} {win : Window} → IsValid cs win → Kept cs (reverse_line_feed win)
unfolding reverse_line_feed
reverse_line_feed-Kept {win} v =
    Kept-if (ltb win.scr_upper win.cursor_x)
      (λ below. (
        record win { cursor_x = win.cursor_x - 1 },
        refl,
        cursor-IsValid (win.cursor_x - 1) win.cursor_y v (ground (arith, v.upper))
            (omega (arith, v.x_high)) v.y_low v.y_high,
      ))
      (λ _. revscroll_video-Kept 1 v)

restore_cursor-IsValid :
    {cs : ℕ} {win : Window}
    → IsValid cs win
    → 1 ≤ win.saved_x
    → 1 ≤ win.saved_y
    → IsValid cs (restore_cursor win)
unfolding restore_cursor
restore_cursor-IsValid {win} v h k =
    others-IsValid win.process_char win.saved_textattr win.saved_x win.saved_y win.saved_textattr (
      cursor-IsValid (at_most win.rows win.saved_x) (at_most win.cols win.saved_y) v
        (ground (arith, v.x_low, v.x_high)) (ground arith) (ground (arith, v.columns))
        (ground arith))

vt_resetwin-IsValid : {cs : ℕ} {win : Window} → IsValid cs win → IsValid cs (vt_resetwin cs win)
unfolding vt_resetwin replicate
vt_resetwin-IsValid {cs} {win} v = record {
  shape = subst (λ n. Shape win.rows n win.videomem) v.wide v.shape;
  tabs = v.tabs ∙ v.wide;
  columns = omega (arith, v.columns, v.wide);
  wide = refl;
  x_low = omega arith;
  x_high = omega (arith, v.x_low, v.x_high);
  y_low = omega arith;
  y_high = omega arith;
  upper = omega arith;
  region = omega (arith, v.x_low, v.x_high);
  lower = omega arith;
  params = refl;
  current = omega arith;
  small = omega (arith, v.small, v.wide);
}

pub state-IsValid :
    {cs : ℕ} {win : Window} (key : KeyState) (g0 g1 : ℕ)
    → IsValid cs win
    → IsValid cs (record win { key_state = key; charset0 = g0; charset1 = g1 })
state-IsValid key g0 g1 v = record {
  shape = v.shape;
  tabs = v.tabs;
  columns = v.columns;
  wide = v.wide;
  x_low = v.x_low;
  x_high = v.x_high;
  y_low = v.y_low;
  y_high = v.y_high;
  upper = v.upper;
  region = v.region;
  lower = v.lower;
  params = v.params;
  current = v.current;
  small = v.small;
}

pub escaped-Kept :
    {cs : ℕ} (c : ℕ) {win : Window} → IsValid cs win → EscapeSafe c win → Kept cs (escaped cs c win)
unfolding escaped
escaped-Kept {cs} c {win} v s =
    Kept-if (c == b'D') (λ _. line_feed-Kept v)
      (λ _.
        Kept-if (c == b'M') (λ _. reverse_line_feed-Kept v)
          (λ _.
            Kept-if (c == b'E')
              (λ _.
                Kept-bind (λ next. some (record next { cursor_y = 1 })) (line_feed-Kept v)
                  (λ next w. (
                    record next { cursor_y = 1 },
                    refl,
                    cursor-IsValid next.cursor_x 1 w w.x_low w.x_high (omega arith) (omega arith),
                  )))
              (λ _.
                Kept-if (c == b'7')
                  (λ _. (
                    record win {
                      saved_x = win.cursor_x;
                      saved_y = win.cursor_y;
                      saved_textattr = win.textattr;
                    },
                    refl,
                    others-IsValid win.process_char win.textattr win.cursor_x win.cursor_y
                        win.textattr v,
                  ))
                  (λ _.
                    Kept-if (c == b'8')
                      (λ e. (
                        restore_cursor win,
                        refl,
                        restore_cursor-IsValid v (s.restored (is e)).0 (s.restored (is e)).1,
                      ))
                      (λ _.
                        Kept-if (c == b'=')
                          (λ _. (
                            record win { key_state = application },
                            refl,
                            state-IsValid application win.charset0 win.charset1 v,
                          ))
                          (λ _.
                            Kept-if (c == b'>')
                              (λ _. (
                                record win { key_state = normal },
                                refl,
                                state-IsValid normal win.charset0 win.charset1 v,
                              ))
                              (λ _.
                                Kept-if (c == b'H')
                                  (λ e.
                                    let fits : win.cursor_y ≤ length win.tabstops =
                                      omega (arith, s.tab_set (is e), v.tabs) in
                                    (
                                      record win {
                                        tabstops = set win.tabstops (win.cursor_y - 1) 1;
                                      },
                                      rw (set1_lem win.tabstops win.cursor_y 1 v.y_low fits) refl,
                                      tabs-IsValid (set win.tabstops (win.cursor_y - 1) 1) v
                                          (length-set win.tabstops (win.cursor_y - 1) 1 ∙ v.tabs),
                                    ))
                                  (λ _.
                                    Kept-if (c == b'Z')
                                      (λ _. (
                                        record win { sent = win.sent ++ 27 ∷ codes "[?6c" },
                                        refl,
                                        sent-IsValid _ v,
                                      ))
                                      (λ _.
                                        Kept-if (c == b'c')
                                          (λ _. (vt_resetwin cs win, refl, vt_resetwin-IsValid v))
                                          (λ _. (win, refl, v)))))))))))
