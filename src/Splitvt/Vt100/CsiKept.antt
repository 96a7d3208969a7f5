-- ===== src/Splitvt/Vt100/CsiKept.antt =====
-- splitvt/vt100.c: the sequences that begin with `ESC [` keep the window in order.

use minilib_ports.Common.{
  ℕ, zero, suc, ◌+◌, ◌-◌, ◌^◌, ◌≤◌, ◌<◌, ◌≡◌, inl, inr, refl, ap, ◌∙◌, Bool, true, false, ◌||◌,
  List, [], ◌∷◌, ◌++◌, arith, some, length, get_or, set, length-set, ltb, leb, ◌==◌, if◌then◌else◌,
  Bool-cases, Bytes, codes, drop,
}
use minilib_ports.Splitvt.Window.{Window, int, max_params}
use minilib_ports.Splitvt.Window.Places.{get_elem?_lem, set_elem?_lem, set1_lem}
use minilib_ports.Splitvt.Vt100.Csi.{
  csi, param, count_of, at_most, set_scroll_region, cursor_up, cursor_down, cursor_right,
  cursor_left, cursor_to, clear_tabs, clear_tabstops, process_m, more_attributes, set_attributes,
  clear_screen, clear_line, report_status,
}
use minilib_ports.Splitvt.Vt100.Valid.{
  IsValid, Kept, Kept-if, Kept-bind, cursor-IsValid, tabs-IsValid, others-IsValid, erase_video-Kept,
  revscroll_video-Kept, rshift_video-Kept,
}

-- One of the bytes is 0.
unfoldable pub any_zero : List ℕ → Bool
any_zero [] = false
any_zero (x ∷ xs) = x == 0 || any_zero xs

-- What a sequence must not do: move by a number that overflows, use the column behind the last, or
-- have a parameter in each place.
pub record CsiSafe (c : ℕ) (win : Window) : Type 0 where
  pub down : c ≡ b'B' → win.cursor_x + count_of (param 0 win) < 2 ^ 31
  pub right : c ≡ b'C' → win.cursor_y + count_of (param 0 win) < 2 ^ 31
  pub tab_cleared : c ≡ b'g' → param 0 win ≡ 0 → win.cursor_y ≤ win.cols
  pub attributes : c ≡ b'm' → any_zero (drop 1 win.esc_param) ≡ true
  pub line_begin : c ≡ b'K' → param 0 win ≡ 1 → win.cursor_y ≤ win.cols
  pub under : c ≡ b'P' → win.cursor_y ≤ win.cols

set_scroll_region-IsValid :
    {cs : ℕ} {win : Window} → IsValid cs win → IsValid cs (set_scroll_region win)
unfolding set_scroll_region
set_scroll_region-IsValid {win} v = record {
  shape = ground (arith, v.shape);
  tabs = ground (arith, v.tabs);
  columns = ground (arith, v.columns);
  wide = ground (arith, v.wide);
  x_low = ground arith;
  x_high = ground (arith, v.x_low, v.x_high);
  y_low = ground arith;
  y_high = ground (arith, v.columns);
  upper = ground (arith, v.upper);
  region = ground (arith, v.x_low, v.x_high);
  lower = ground (arith, v.lower);
  params = ground (arith, v.params);
  current = ground (arith, v.current);
  small = ground (arith, v.small);
}

cursor_up-IsValid : {cs : ℕ} {win : Window} → IsValid cs win → IsValid cs (cursor_up win)
unfolding cursor_up
cursor_up-IsValid {win} v = elim (Bool-cases (win.cursor_x == win.scr_upper)) [
  | inl top ↦ rw (cursor_up, top) v
  | inr below ↦ elim (Bool-cases (ltb (win.scr_upper + count_of (param 0 win)) win.cursor_x)) [
    | inl inside ↦
        rw (cursor_up, below, inside)
          (cursor-IsValid (win.cursor_x - count_of (param 0 win)) win.cursor_y v
            (ground (arith, v.upper)) (omega (arith, v.x_high)) v.y_low v.y_high)
    | inr beyond ↦
        rw (cursor_up, below, beyond)
          (cursor-IsValid win.scr_upper win.cursor_y v v.upper (omega (arith, v.region, v.lower))
            v.y_low v.y_high)
  ]
]

cursor_left-IsValid : {cs : ℕ} {win : Window} → IsValid cs win → IsValid cs (cursor_left win)
unfolding cursor_left
cursor_left-IsValid {win} v = elim (Bool-cases (win.cursor_y == 1)) [
  | inl first ↦ rw (cursor_left, first) v
  | inr behind ↦ elim (Bool-cases (ltb (1 + count_of (param 0 win)) win.cursor_y)) [
    | inl inside ↦
        rw (cursor_left, behind, inside)
          (cursor-IsValid win.cursor_x (win.cursor_y - count_of (param 0 win)) v v.x_low v.x_high
            (ground arith) (omega (arith, v.y_high)))
    | inr beyond ↦
        rw (cursor_left, behind, beyond)
          (cursor-IsValid win.cursor_x 1 v v.x_low v.x_high (omega arith) (omega arith))
  ]
]

cursor_to-IsValid : {cs : ℕ} {win : Window} → IsValid cs win → IsValid cs (cursor_to win)
unfolding cursor_to
cursor_to-IsValid {win} v =
    cursor-IsValid (at_most win.rows (count_of (param 0 win)))
      (at_most win.cols (count_of (param 1 win))) v (ground (arith, v.x_low, v.x_high))
      (ground arith) (ground (arith, v.columns)) (ground arith)

pub int_lem : (n : ℕ) → n < 2 ^ 31 → int n ≡ some n
int_lem n h = ground arith

cursor_down-Kept :
    {cs : ℕ} {win : Window}
    → IsValid cs win
    → win.cursor_x + count_of (param 0 win) < 2 ^ 31
    → Kept cs (cursor_down win)
unfolding cursor_down
cursor_down-Kept {win} v h =
    let newx : ℕ = win.cursor_x + count_of (param 0 win) in
    let x : ℕ = if leb newx win.scr_lower then newx else win.scr_lower in
    elim (Bool-cases (win.cursor_x == win.scr_lower)) [
      | inl bottom ↦ (win, rw (cursor_down, bottom) refl, v)
      | inr above ↦ (
        record win { cursor_x = x },
        rw (cursor_down, above, int_lem newx h) refl,
        cursor-IsValid x win.cursor_y v (ground (arith, v.x_low, v.upper, v.region))
            (ground (arith, v.lower)) v.y_low v.y_high,
      )
    ]

cursor_right-Kept :
    {cs : ℕ} {win : Window}
    → IsValid cs win
    → win.cursor_y + count_of (param 0 win) < 2 ^ 31
    → Kept cs (cursor_right win)
unfolding cursor_right
cursor_right-Kept {win} v h =
    let newy : ℕ = win.cursor_y + count_of (param 0 win) in
    let y : ℕ = if ltb newy win.cols then newy else win.cols in
    elim (Bool-cases (win.cursor_y == win.cols)) [
      | inl last ↦ (win, rw (cursor_right, last) refl, v)
      | inr before ↦ (
        record win { cursor_y = y },
        rw (cursor_right, before, int_lem newy h) refl,
        cursor-IsValid win.cursor_x y v v.x_low v.x_high (ground (arith, v.y_low, v.columns))
            (ground arith),
      )
    ]

clear_tabs-size :
    (n i : ℕ) (tabs : List ℕ)
    → i + n ≤ length tabs
    → (tabs' : List ℕ) × (clear_tabs n i tabs ≡ some tabs') × (length tabs' ≡ length tabs)
unfolding clear_tabs
clear_tabs-size zero i tabs h = (tabs, refl, refl)
clear_tabs-size (suc n) i tabs h =
    let (tabs', e, size) =
      clear_tabs-size n (suc i) (set tabs i 0) (omega (arith, length-set tabs i 0)) in
    (tabs', rw (clear_tabs, set_elem?_lem tabs i 0 (omega arith)) e, size ∙ length-set tabs i 0)

clear_tabstops-Kept :
    {cs : ℕ} {win : Window}
    → IsValid cs win
    → (param 0 win ≡ 0 → win.cursor_y ≤ win.cols)
    → Kept cs (clear_tabstops win)
unfolding clear_tabstops
clear_tabstops-Kept {win} v h =
    Kept-if (param 0 win == 0)
      (λ one.
        let fits : win.cursor_y ≤ length win.tabstops = omega (arith, h (ground arith), v.tabs) in
        (
          record win { tabstops = set win.tabstops (win.cursor_y - 1) 0 },
          rw (set1_lem win.tabstops win.cursor_y 0 v.y_low fits) refl,
          tabs-IsValid (set win.tabstops (win.cursor_y - 1) 0) v
              (length-set win.tabstops (win.cursor_y - 1) 0 ∙ v.tabs),
        ))
      (λ not_one.
        Kept-if (param 0 win == 3)
          (λ all.
            let (tabs', e, size) =
              clear_tabs-size win.cols 0 win.tabstops (omega (arith, v.tabs)) in
            (record win { tabstops = tabs' }, rw e refl, tabs-IsValid tabs' v (size ∙ v.tabs)))
          (λ _. (win, refl, v)))

pub any_zero-drop :
    (xs : List ℕ) (i : ℕ)
    → i < length xs
    → any_zero (drop i xs) ≡ (get_or xs i 0 == 0 || any_zero (drop (suc i) xs))
unfolding any_zero
any_zero-drop [] i h = absurd (omega arith)
any_zero-drop (x ∷ xs) zero h = refl
any_zero-drop (x ∷ xs) (suc i) h = any_zero-drop xs i (omega arith)

any_zero-drop_all : (xs : List ℕ) (i : ℕ) → length xs ≤ i → any_zero (drop i xs) ≡ false
unfolding any_zero
any_zero-drop_all [] zero h = refl
any_zero-drop_all [] (suc i) h = refl
any_zero-drop_all (x ∷ xs) zero h = absurd (omega arith)
any_zero-drop_all (x ∷ xs) (suc i) h = any_zero-drop_all xs i (omega arith)

if_false {ℓ} : {A : Type ℓ} {b : Bool} (x y : A) → b ≡ false → (if b then x else y) ≡ y
if_false x y h = ap (λ b. if b then x else y) h

pub more_attributes-next :
    (n i : ℕ) (params : List ℕ) (attr : ℕ)
    → i < length params
    → (get_or params i 0 == 0) ≡ false
    → more_attributes (suc n) i params attr
      ≡ more_attributes n (suc i) params (process_m attr (get_or params i 0))
unfolding more_attributes
more_attributes-next n i params attr h goes =
    rw (more_attributes, get_elem?_lem params i 0 h) (if_false _ _ goes)

-- The loop ends at a parameter that is 0.
more_attributes-some :
    (n i : ℕ) (params : List ℕ) (attr : ℕ)
    → i + n ≡ length params
    → any_zero (drop i params) ≡ true
    → (attr' : ℕ) × (more_attributes n i params attr ≡ some attr')
unfolding more_attributes
more_attributes-some zero i params attr h z =
    let none_left : any_zero (drop i params) ≡ false = any_zero-drop_all params i (omega arith) in
    cc
more_attributes-some (suc n) i params attr h z = elim (Bool-cases (get_or params i 0 == 0)) [
  | inl stops ↦ (attr, rw (more_attributes, get_elem?_lem params i 0 (omega arith), stops) refl)
  | inr goes ↦
      let (attr', e) =
        more_attributes-some n (suc i) params (process_m attr (get_or params i 0)) (omega arith)
          (ground (arith, any_zero-drop params i (omega arith))) in
      (attr', more_attributes-next n i params attr (omega arith) goes ∙ e)
]

set_attributes-Kept :
    {cs : ℕ} {win : Window}
    → IsValid cs win
    → any_zero (drop 1 win.esc_param) ≡ true
    → Kept cs (set_attributes win)
unfolding set_attributes
set_attributes-Kept {win} v z =
    let (attr, e) =
      more_attributes-some (max_params - 1) 1 win.esc_param (process_m win.textattr (param 0 win))
        (omega (arith, v.params)) z in
    (
      record win { textattr = attr },
      rw (set_attributes, e) refl,
      others-IsValid win.process_char attr win.saved_x win.saved_y win.saved_textattr v,
    )

clear_screen-Kept : {cs : ℕ} {win : Window} → IsValid cs win → Kept cs (clear_screen win)
unfolding clear_screen
clear_screen-Kept {win} v =
    Kept-if (param 0 win == 0)
      (λ below.
        erase_video-Kept win.cursor_x win.rows 1 win.cols v v.x_low (omega arith)
          (omega (arith, v.x_high)) (omega arith) (omega arith) (omega arith))
      (λ _.
        Kept-if (param 0 win == 1)
          (λ above.
            erase_video-Kept 1 win.cursor_x 1 win.cols v (omega arith) v.x_high
              (omega (arith, v.x_low)) (omega arith) (omega arith) (omega arith))
          (λ _.
            Kept-if (param 0 win == 2)
              (λ all.
                Kept-bind (λ win'. some (record win' { cursor_x = 1; cursor_y = 1 }))
                  (erase_video-Kept 1 win.rows 1 win.cols v (omega arith) (omega arith)
                    (omega arith) (omega arith) (omega arith) (omega arith))
                  (λ win' v'. (
                    record win' { cursor_x = 1; cursor_y = 1 },
                    refl,
                    cursor-IsValid 1 1 v' (omega arith) (omega (arith, v'.x_low, v'.x_high))
                        (omega arith) (omega arith),
                  )))
              (λ _. (win, refl, v))))

clear_line-Kept :
    {cs : ℕ} {win : Window}
    → IsValid cs win
    → (param 0 win ≡ 1 → win.cursor_y ≤ win.cols)
    → Kept cs (clear_line win)
unfolding clear_line
clear_line-Kept {win} v h =
    Kept-if (param 0 win == 0)
      (λ to_end.
        erase_video-Kept win.cursor_x win.cursor_x win.cursor_y win.cols v v.x_low v.x_high
          (omega arith) v.y_low (omega arith) v.y_high)
      (λ _.
        Kept-if (param 0 win == 1)
          (λ to_begin.
            erase_video-Kept win.cursor_x win.cursor_x 1 win.cursor_y v v.x_low v.x_high
              (omega arith) (omega arith) (h (ground arith)) (omega (arith, v.y_low)))
          (λ _.
            Kept-if (param 0 win == 2)
              (λ whole.
                erase_video-Kept win.cursor_x win.cursor_x 1 win.cols v v.x_low v.x_high
                  (omega arith) (omega arith) (omega arith) (omega arith))
              (λ _. (win, refl, v))))

pub sent-IsValid :
    {cs : ℕ} {win : Window} (text : Bytes)
    → IsValid cs win
    → IsValid cs (record win { sent = text })
sent-IsValid text v = record {
  shape = v.shape;
  tabs = v.tabs;
  columns = v.columns;
  wide = v.wide;
  x_low = v.x_low;
  x_high = v.x_high;
  y_low = v.y_low;
  y_high = v.y_high;
  upper = v.upper;
  region = v.region;
  lower = v.lower;
  params = v.params;
  current = v.current;
  small = v.small;
}

report_status-IsValid :
    {cs : ℕ} (decimal : ℕ → Bytes) {win : Window}
    → IsValid cs win
    → IsValid cs (report_status decimal win)
unfolding report_status
report_status-IsValid decimal {win} v = elim (Bool-cases (param 0 win == 5)) [
  | inl five ↦ rw (report_status, five) (sent-IsValid _ v)
  | inr other ↦ elim (Bool-cases (param 0 win == 6)) [
    | inl six ↦ rw (report_status, other, six) (sent-IsValid _ v)
    | inr neither ↦ rw (report_status, other, neither) v
  ]
]

pub is : {a b : ℕ} → (a == b) ≡ true → a ≡ b
is h = ground arith

pub csi-Kept :
    {cs : ℕ} (decimal : ℕ → Bytes) (c : ℕ) {win : Window}
    → IsValid cs win
    → CsiSafe c win
    → Kept cs (csi decimal c win)
unfolding csi
csi-Kept decimal c {win} v s =
    Kept-if (c == b'r') (λ _. (set_scroll_region win, refl, set_scroll_region-IsValid v))
      (λ _.
        Kept-if (c == b'A') (λ _. (cursor_up win, refl, cursor_up-IsValid v))
          (λ _.
            Kept-if (c == b'B') (λ e. cursor_down-Kept v (s.down (is e)))
              (λ _.
                Kept-if (c == b'C') (λ e. cursor_right-Kept v (s.right (is e)))
                  (λ _.
                    Kept-if (c == b'D') (λ _. (cursor_left win, refl, cursor_left-IsValid v))
                      (λ _.
                        Kept-if (c == b'f' || c == b'H')
                          (λ _. (cursor_to win, refl, cursor_to-IsValid v))
                          (λ _.
                            Kept-if (c == b'g') (λ e. clear_tabstops-Kept v (s.tab_cleared (is e)))
                              (λ _.
                                Kept-if (c == b'm')
                                  (λ e. set_attributes-Kept v (s.attributes (is e)))
                                  (λ _.
                                    Kept-if (c == b'J') (λ _. clear_screen-Kept v)
                                      (λ _.
                                        Kept-if (c == b'K')
                                          (λ e. clear_line-Kept v (s.line_begin (is e)))
                                          (λ _.
                                            Kept-if (c == b'P')
                                              (λ e.
                                                erase_video-Kept win.cursor_x win.cursor_x
                                                  win.cursor_y win.cursor_y v v.x_low v.x_high
                                                  (omega arith) v.y_low (s.under (is e))
                                                  (omega arith))
                                              (λ _.
                                                Kept-if (c == b'M') (λ _. revscroll_video-Kept 1 v)
                                                  (λ _.
                                                    Kept-if (c == b'@')
                                                      (λ _.
                                                        rshift_video-Kept (count_of (param 0 win))
                                                          v)
                                                      (λ _.
                                                        Kept-if (c == b'n')
                                                          (λ _. (
                                                            report_status decimal win,
                                                            refl,
                                                            report_status-IsValid decimal v,
                                                          ))
                                                          (λ _.
                                                            Kept-if (c == b'c')
                                                            (λ _. (
                                                            record win {
                                                            sent = win.sent ++ 27 ∷ codes "[?6c";
                                                            },
                                                            refl,
                                                            sent-IsValid _ v,
                                                            ))
                                                            (λ _. (win, refl, v))))))))))))))))
