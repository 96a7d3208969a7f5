-- ===== src/Splitvt/Vt100/Faults.antt =====
-- splitvt/vt100.c: bytes that make the program leave an array.
use minilib_ports.Common.{
  ℕ, zero, suc, ◌+◌, ◌-◌, ◌≤◌, ◌<◌, ◌≡◌, inl, inr, refl, ap, ◌∙◌, true, false, ◌||◌, List, [],
  arith, Option, none, some, length, get_or, set, length-set, leb, ◌==◌, Bool-cases, Bytes, drop,
}
use minilib_ports.Splitvt.Window.{
  Window, ◌>>=◌, set1, int, max_params, Process, scan_for_esc, escape, e_brac,
}
use minilib_ports.Splitvt.Window.Places.{get_elem?-none, set1-none, get1_lem, set1_lem}
use minilib_ports.Splitvt.Videomem.{erase_cells, erase_line, erase_lines, erase_video}
use minilib_ports.Splitvt.Videomem.Shape.{row_of}
use minilib_ports.Splitvt.Vt100.{Screen, tab, scan_byte, e_, e_bracket, call, process}
use minilib_ports.Splitvt.Vt100.Csi.{
  param, reset_escape, clear_tabstops, clear_line, more_attributes, process_m, set_attributes,
}
use minilib_ports.Splitvt.Vt100.CsiKept.{any_zero, any_zero-drop, more_attributes-next}
use minilib_ports.Splitvt.Vt100.Kept.{ScreenValid}
use minilib_ports.Splitvt.Vt100.Valid.{IsValid}

-- A byte that ends a sequence in a case of `E_brac`.
abbrev Sequence : ℕ → ℕ → Screen → Type 0
Sequence c command scr = (scr.cur.process_char ≡ e_brac) × (c ≡ command)

-- A tab with the cursor in the last column or behind it, a tabstop or an erasure at the column behind
-- the last, and attributes with a parameter in each place.
pub data Fault (c : ℕ) (scr : Screen) : Type 0 where
  tab_at_end :
      scr.cur.process_char ≡ scan_for_esc → c ≡ 9 → scr.cur.cols ≤ scr.cur.cursor_y → Fault c scr
  tab_set_behind :
      scr.cur.process_char ≡ escape → c ≡ b'H' → scr.cur.cols < scr.cur.cursor_y → Fault c scr
  tab_cleared_behind :
      Sequence c b'g' scr → param 0 scr.cur ≡ 0 → scr.cur.cols < scr.cur.cursor_y → Fault c scr
  line_begin_behind :
      Sequence c b'K' scr → param 0 scr.cur ≡ 1 → scr.cur.cols < scr.cur.cursor_y → Fault c scr
  under_behind : Sequence c b'P' scr → scr.cur.cols < scr.cur.cursor_y → Fault c scr
  all_params : Sequence c b'm' scr → any_zero (drop 1 scr.cur.esc_param) ≡ false → Fault c scr

bind-none {ℓ κ} : {A : Type ℓ} {B : Type κ} (o : Option A) → ◌>>=◌ {B = B} o (λ _. none) ≡ none
bind-none none = refl
bind-none (some a) = refl

tab-none :
    (rounds : ℕ) (win : Window) → length win.tabstops ≤ win.cursor_y → tab (suc rounds) win ≡ none
unfolding tab
tab-none rounds win h =
    rw (tab, get_elem?-none win.tabstops win.cursor_y h) (bind-none (int (suc win.cursor_y)))

-- More pixels than the row has from there on.
erase_cells-none :
    (n y : ℕ) (row : List ℕ)
    → 1 ≤ y
    → y ≤ suc (length row)
    → suc (length row) < y + n
    → erase_cells n y row ≡ none
unfolding erase_cells
erase_cells-none zero y row h k l = absurd (omega arith)
erase_cells-none (suc n) y row h k l = elim (Bool-cases (leb y (length row))) [
  | inl inside ↦
      rw (erase_cells, set1_lem row y 0 h (ground arith))
        (erase_cells-none n (suc y) (set row (y - 1) 0) (omega arith)
          (ground (arith, length-set row (y - 1) 0)) (omega (arith, length-set row (y - 1) 0)))
  | inr beyond ↦ rw (erase_cells, set1-none row y 0 (ground arith)) refl
]

-- An erasure in the line of the cursor that goes up to a column behind the last.
erase_video-none :
    {cs : ℕ} (y1 y2 : ℕ) {win : Window}
    → IsValid cs win
    → 1 ≤ y1
    → y1 ≤ y2
    → y1 ≤ suc win.cols
    → win.cols < y2
    → erase_video win.cursor_x win.cursor_x y1 y2 win ≡ none
unfolding erase_video erase_lines erase_line
erase_video-none y1 y2 {win} v h k m l =
    let row : List ℕ = row_of win.videomem (win.cursor_x - 1) in
    let width : length row ≡ win.cols =
      v.shape.width (win.cursor_x - 1) (omega (arith, v.x_low, v.x_high)) in
    let one : suc win.cursor_x - win.cursor_x ≡ 1 = omega arith in
    let some_cells : suc y2 - y1 ≡ suc (y2 - y1) = omega arith in
    rw
      (
        erase_video,
        one,
        some_cells,
        get1_lem win.videomem win.cursor_x [] v.x_low (omega (arith, v.x_high, v.shape.lines)),
        erase_cells-none (suc (y2 - y1)) y1 row h (omega arith) (omega arith),
      )
      refl

more_attributes-none :
    (n i : ℕ) (params : List ℕ) (attr : ℕ)
    → i + n ≡ length params
    → any_zero (drop i params) ≡ false
    → more_attributes n i params attr ≡ none
unfolding more_attributes
more_attributes-none zero i params attr h z = rw (get_elem?-none params i (omega arith)) refl
more_attributes-none (suc n) i params attr h z =
    let e : any_zero (drop i params) ≡ (get_or params i 0 == 0 || any_zero (drop (suc i) params)) =
      any_zero-drop params i (omega arith) in
    more_attributes-next n i params attr (omega arith) (ground arith)
    ∙ more_attributes-none n (suc i) params (process_m attr (get_or params i 0)) (omega arith)
        (ground arith)

module _ (decimal : ℕ → Bytes) (entry_cols : ℕ) where
  -- The function that is called, and the byte, put in their places.
  call-process :
      (p : Process) (command : ℕ) {c : ℕ} (scr : Screen)
      → scr.cur.process_char ≡ p
      → c ≡ command
      → call decimal entry_cols p command scr ≡ none
      → process decimal entry_cols c scr ≡ none
  unfolding process
  call-process p command {c} scr e f h =
      ap (λ q. call decimal entry_cols q c scr) e ∙ ap (λ b. call decimal entry_cols p b scr) f ∙ h

  -- A window that is not there, put on the screen.
  no_window :
      (scr : Screen) {r : Option Window}
      → r ≡ none
      → (r >>= λ win. some (record scr { cur = win })) ≡ none
  no_window scr h = ap (λ o. o >>= λ win. some (record scr { cur = win })) h

  reset_none : {r : Option Window} → r ≡ none → (r >>= λ win. some (reset_escape win)) ≡ none
  reset_none h = ap (λ o. o >>= λ win. some (reset_escape win)) h

  Sequence-none :
      (command : ℕ) {c : ℕ} (scr : Screen)
      → Sequence c command scr
      → e_bracket decimal command scr.cur ≡ none
      → process decimal entry_cols c scr ≡ none
  unfolding call
  Sequence-none command {c} scr (e, f) h = call-process e_brac command scr e f (no_window scr h)

  clear_tabs-fault : (win : Window) → clear_tabstops win ≡ none → e_bracket decimal b'g' win ≡ none
  unfolding e_bracket
  clear_tabs-fault win h = reset_none h

  clear_line-fault : (win : Window) → clear_line win ≡ none → e_bracket decimal b'K' win ≡ none
  unfolding e_bracket
  clear_line-fault win h = reset_none h

  under-fault :
      (win : Window)
      → erase_video win.cursor_x win.cursor_x win.cursor_y win.cursor_y win ≡ none
      → e_bracket decimal b'P' win ≡ none
  unfolding e_bracket
  under-fault win h = reset_none h

  attributes-fault : (win : Window) → set_attributes win ≡ none → e_bracket decimal b'm' win ≡ none
  unfolding e_bracket
  attributes-fault win h = reset_none h

  scan_byte-fault : (win : Window) → tab (suc win.cols) win ≡ none → scan_byte 9 win ≡ none
  unfolding scan_byte
  scan_byte-fault win h = h

  escape-fault :
      (cols : ℕ) (win : Window) → set1 win.tabstops win.cursor_y 1 ≡ none → e_ cols b'H' win ≡ none
  unfolding e_
  escape-fault cols win h =
      reset_none (ap (λ o. o >>= λ tabs. some (record win { tabstops = tabs })) h)

  -- On a screen in order, the bytes of `Fault` make the program read or write outside the tabstops, the
  -- memory or the parameters.
  pub process-Fault :
      (c : ℕ) (scr : Screen)
      → ScreenValid scr
      → Fault c scr
      → process decimal entry_cols c scr ≡ none
  unfolding call clear_tabstops clear_line set_attributes
  process-Fault c scr v (tab_at_end e f h) = call-process scan_for_esc 9 scr e f (
      no_window scr
        (scan_byte-fault scr.cur (tab-none scr.cur.cols scr.cur (omega (arith, v.tabs)))))
  process-Fault c scr v (tab_set_behind e f h) = call-process escape b'H' scr e f (
      no_window scr (
        escape-fault scr.physical_cols scr.cur
          (set1-none scr.cur.tabstops scr.cur.cursor_y 1 (omega (arith, v.tabs)))))
  process-Fault c scr v (tab_cleared_behind e zero_param h) =
      let out : set1 scr.cur.tabstops scr.cur.cursor_y 0 ≡ none =
        set1-none scr.cur.tabstops scr.cur.cursor_y 0 (omega (arith, v.tabs)) in
      let first : (param 0 scr.cur == 0) ≡ true = ground arith in
      Sequence-none b'g' scr e (clear_tabs-fault scr.cur (rw (clear_tabstops, first, out) refl))
  process-Fault c scr v (line_begin_behind e one h) =
      let not_zero : (param 0 scr.cur == 0) ≡ false = ground arith in
      let is_one : (param 0 scr.cur == 1) ≡ true = ground arith in
      Sequence-none b'K' scr e (
        clear_line-fault scr.cur (
          rw (clear_line, not_zero, is_one)
            (erase_video-none 1 scr.cur.cursor_y v (omega arith) v.y_low (omega arith) h)))
  process-Fault c scr v (under_behind e h) = Sequence-none b'P' scr e (
      under-fault scr.cur
        (erase_video-none scr.cur.cursor_y scr.cur.cursor_y v v.y_low (omega arith) v.y_high h))
  process-Fault c scr v (all_params e z) = Sequence-none b'm' scr e (
      attributes-fault scr.cur (
        rw
          (
            set_attributes,
            more_attributes-none (max_params - 1) 1 scr.cur.esc_param
                (process_m scr.cur.textattr (param 0 scr.cur)) (omega (arith, v.params)) z,
          )
          refl))
