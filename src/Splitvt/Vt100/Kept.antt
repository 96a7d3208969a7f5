-- ===== src/Splitvt/Vt100/Kept.antt =====
-- splitvt/vt100.c: every byte keeps the screen in order, but for those that `Safe` excludes.
use minilib_ports.Common.{
  ℕ, suc, ◌+◌, ◌-◌, ◌*◌, ◌^◌, ◌<◌, ◌≡◌, inl, inr, refl, sym, ◌∙◌, subst, true, false, not, ◌&&◌,
  List, [], ◌∷◌, arith, Option, some, get_or, set, length-set, ltb, ◌==◌, if◌then◌else◌, Bool-cases,
  Bytes,
}
use minilib_ports.Splitvt.Window.{
  Window, ◌>>=◌, get_elem?, max_params, Process, scan_for_esc, escape, e_brac, e_brac_q, e_lparen,
  e_rparen, e_pound, normal, application,
}
use minilib_ports.Splitvt.Window.Places.{get_elem?_lem, set_elem?_lem}
use minilib_ports.Splitvt.Videomem.Shape.{Shape}
use minilib_ports.Splitvt.Vt100.{
  Screen, is_cancel, e_, e_bracket, private_mode, e_bracket_q, charset_of, e_paren_left,
  e_paren_right, call, process, vt_write,
}
use minilib_ports.Splitvt.Vt100.Csi.{reset_escape, is_decimal, digit_param, next_param, param}
use minilib_ports.Splitvt.Vt100.CsiKept.{CsiSafe, csi-Kept, int_lem, is}
use minilib_ports.Splitvt.Vt100.Valid.{
  IsValid, Kept, Kept-if, Kept-bind, others-IsValid, reset_escape-IsValid,
}
use minilib_ports.Splitvt.Vt100.ScanKept.{EscapeSafe, scan_byte-Kept, escaped-Kept, state-IsValid}

-- The screen: the window and the terminal have the same columns.
abbrev pub ScreenValid : Screen → Type 0
ScreenValid scr = IsValid scr.physical_cols scr.cur

-- The number of the parameter with one more digit.
abbrev pub more_digits : ℕ → Window → ℕ
more_digits c win = get_or win.esc_param win.cur_param 0 * 10 + (c - b'0')

module _ (decimal : ℕ → Bytes) (entry_cols : ℕ) where
  -- What a byte must not do, by the state that the sequence is in.
  pub record Safe (c : ℕ) (scr : Screen) : Type 0 where
    pub tabulates : scr.cur.process_char ≡ scan_for_esc → c ≡ 9 → scr.cur.cursor_y < scr.cur.cols
    pub escapes : scr.cur.process_char ≡ escape → EscapeSafe c scr.cur
    pub digit : is_decimal c ≡ true → more_digits c scr.cur < 2 ^ 31
    pub separator : c ≡ b';' → suc scr.cur.param_idx < 2 ^ 31
    pub sequence : scr.cur.process_char ≡ e_brac → CsiSafe c scr.cur
    pub widens :
        scr.cur.process_char ≡ e_brac_q → c ≡ b'h' → param 0 scr.cur ≡ 3 → scr.physical_cols ≡ 132
    pub narrows :
        scr.cur.process_char ≡ e_brac_q
        → c ≡ b'l'
        → param 0 scr.cur ≡ 3
        → scr.physical_cols ≡ 132
        → entry_cols ≡ 132

  process_IsValid :
      {cs : ℕ} {win : Window} (next : Process)
      → IsValid cs win
      → IsValid cs (record win { process_char = next })
  process_IsValid {cs} {win} next v =
      others-IsValid next win.textattr win.saved_x win.saved_y win.saved_textattr v

  e_-Kept :
      {cs : ℕ} (c : ℕ) {win : Window} → IsValid cs win → EscapeSafe c win → Kept cs (e_ cs c win)
  unfolding e_
  e_-Kept {cs} c {win} v s =
      Kept-if (is_cancel c) (λ _. (reset_escape win, refl, reset_escape-IsValid v))
        (λ _.
          Kept-if (c == b'[')
            (λ _. (record win { process_char = e_brac }, refl, process_IsValid e_brac v))
            (λ _.
              Kept-if (c == b'(')
                (λ _. (record win { process_char = e_lparen }, refl, process_IsValid e_lparen v))
                (λ _.
                  Kept-if (c == b')')
                    (λ _.
                      (record win { process_char = e_rparen }, refl, process_IsValid e_rparen v))
                    (λ _.
                      Kept-if (c == b'#')
                        (λ _.
                          (record win { process_char = e_pound }, refl, process_IsValid e_pound v))
                        (λ _.
                          Kept-bind (λ win'. some (reset_escape win')) (escaped-Kept c v s)
                            (λ win' v'. (reset_escape win', refl, reset_escape-IsValid v')))))))

  digit_param-Kept :
      {cs : ℕ} (c : ℕ) {win : Window}
      → IsValid cs win
      → more_digits c win < 2 ^ 31
      → Kept cs (digit_param c win)
  unfolding digit_param
  digit_param-Kept c {win} v h =
      let p : ℕ = get_or win.esc_param win.cur_param 0 in
      let params : List ℕ = set win.esc_param win.cur_param (more_digits c win) in
      (
        record win { esc_param = params },
        rw
            (
              digit_param,
              get_elem?_lem win.esc_param win.cur_param 0 (omega (arith, v.params, v.current)),
              int_lem (p * 10) (omega arith),
              int_lem (more_digits c win) h,
              set_elem?_lem win.esc_param win.cur_param (more_digits c win)
                  (omega (arith, v.params, v.current)),
            )
            refl,
        record {
          shape = v.shape;
          tabs = v.tabs;
          columns = v.columns;
          wide = v.wide;
          x_low = v.x_low;
          x_high = v.x_high;
          y_low = v.y_low;
          y_high = v.y_high;
          upper = v.upper;
          region = v.region;
          lower = v.lower;
          params = length-set win.esc_param win.cur_param (more_digits c win) ∙ v.params;
          current = v.current;
          small = v.small;
        },
      )

  next_param-Kept :
      {cs : ℕ} {win : Window}
      → IsValid cs win
      → suc win.param_idx < 2 ^ 31
      → Kept cs (next_param win)
  unfolding next_param
  next_param-Kept {cs} {win} v h = (
    record win {
      param_idx = suc win.param_idx;
      cur_param = if ltb (suc win.param_idx) max_params then suc win.param_idx else win.cur_param;
    },
    rw (next_param, int_lem (suc win.param_idx) h) refl,
    record {
      shape = v.shape;
      tabs = v.tabs;
      columns = v.columns;
      wide = v.wide;
      x_low = v.x_low;
      x_high = v.x_high;
      y_low = v.y_low;
      y_high = v.y_high;
      upper = v.upper;
      region = v.region;
      lower = v.lower;
      params = v.params;
      current = ground (arith, v.current);
      small = v.small;
    },
  )

  e_bracket-Kept :
      {cs : ℕ} (c : ℕ) {win : Window}
      → IsValid cs win
      → (is_decimal c ≡ true → more_digits c win < 2 ^ 31)
      → (c ≡ b';' → suc win.param_idx < 2 ^ 31)
      → CsiSafe c win
      → Kept cs (e_bracket decimal c win)
  unfolding e_bracket
  e_bracket-Kept c {win} v d n s =
      Kept-if (is_decimal c) (λ e. digit_param-Kept c v (d e))
        (λ _.
          Kept-if (is_cancel c) (λ _. (reset_escape win, refl, reset_escape-IsValid v))
            (λ _.
              Kept-if (c == b'?')
                (λ _.
                  let p : ℕ = get_or win.esc_param win.cur_param 0 in
                  let read : get_elem? win.esc_param win.cur_param ≡ some p =
                    get_elem?_lem win.esc_param win.cur_param 0
                      (omega (arith, v.params, v.current)) in
                  elim (Bool-cases (p == 0)) [
                    | inl first ↦ (
                      record win { process_char = e_brac_q },
                      rw (read, first) refl,
                      process_IsValid e_brac_q v,
                    )
                    | inr later ↦ (reset_escape win, rw (read, later) refl, reset_escape-IsValid v)
                  ])
                (λ _.
                  Kept-if (c == b';') (λ e. next_param-Kept v (n (is e)))
                    (λ _.
                      Kept-bind (λ win'. some (reset_escape win')) (csi-Kept decimal c v s)
                        (λ win' v'. (reset_escape win', refl, reset_escape-IsValid v'))))))

  abbrev pub ScreenKept : Option Screen → Type 0
  ScreenKept r = (scr : Screen) × (r ≡ some scr) × ScreenValid scr

  window-ScreenKept :
      (scr : Screen) {r : Option Window}
      → Kept scr.physical_cols r
      → ScreenKept (r >>= λ win. some (record scr { cur = win }))
  window-ScreenKept scr (win, e, v) = (record scr { cur = win }, rw e refl, v)

  cols-IsValid :
      {cs : ℕ} {win : Window} (n : ℕ)
      → n ≡ win.cols
      → IsValid cs win
      → IsValid n (record win { cols = n })
  cols-IsValid {cs} {win} n e v = record {
    shape = subst (λ k. Shape win.rows k win.videomem) (sym e) v.shape;
    tabs = v.tabs ∙ sym e;
    columns = omega (arith, v.columns);
    wide = refl;
    x_low = v.x_low;
    x_high = v.x_high;
    y_low = v.y_low;
    y_high = omega (arith, v.y_high);
    upper = v.upper;
    region = v.region;
    lower = v.lower;
    params = v.params;
    current = v.current;
    small = omega (arith, v.small);
  }

  private_mode-ScreenValid :
      (c : ℕ) (scr : Screen)
      → ScreenValid scr
      → (c ≡ b'h' → param 0 scr.cur ≡ 3 → scr.physical_cols ≡ 132)
      → (c ≡ b'l' → param 0 scr.cur ≡ 3 → scr.physical_cols ≡ 132 → entry_cols ≡ 132)
      → ScreenValid (private_mode entry_cols c scr)
  unfolding private_mode
  private_mode-ScreenValid c scr v wide narrow = elim (Bool-cases (c == b'h')) [
    | inl h ↦ elim (Bool-cases (param 0 scr.cur == 1)) [
      | inl one ↦
          rw (private_mode, h, one) (state-IsValid application scr.cur.charset0 scr.cur.charset1 v)
      | inr other ↦
          let stays : ((param 0 scr.cur == 3) && not (scr.physical_cols == 132)) ≡ false =
            ground (arith, wide (is h)) in
          rw (private_mode, h, other, stays) v
    ]
    | inr not_h ↦ elim (Bool-cases (c == b'l')) [
      | inl l ↦ elim (Bool-cases (param 0 scr.cur == 1)) [
        | inl one ↦
            rw (private_mode, not_h, l, one)
              (state-IsValid normal scr.cur.charset0 scr.cur.charset1 v)
        | inr other ↦ elim (Bool-cases ((param 0 scr.cur == 3) && (scr.physical_cols == 132))) [
          | inl both ↦
              let same : entry_cols ≡ scr.cur.cols = ground (arith, narrow (is l), v.wide) in
              rw (private_mode, not_h, l, other, both) (cols-IsValid entry_cols same v)
          | inr stays ↦ rw (private_mode, not_h, l, other, stays) v
        ]
      ]
      | inr neither ↦ rw (private_mode, not_h, neither) v
    ]
  ]

  e_bracket_q-Kept :
      (c : ℕ) (scr : Screen)
      → ScreenValid scr
      → (is_decimal c ≡ true → more_digits c scr.cur < 2 ^ 31)
      → (c ≡ b'h' → param 0 scr.cur ≡ 3 → scr.physical_cols ≡ 132)
      → (c ≡ b'l' → param 0 scr.cur ≡ 3 → scr.physical_cols ≡ 132 → entry_cols ≡ 132)
      → ScreenKept (e_bracket_q entry_cols c scr)
  unfolding e_bracket_q
  e_bracket_q-Kept c scr v d wide narrow = elim (Bool-cases (is_decimal c)) [
    | inl digit ↦
        let (win, e, w) = digit_param-Kept c v (d digit) in
        (record scr { cur = win }, rw (e_bracket_q, digit, e) refl, w)
    | inr other ↦ elim (Bool-cases (is_cancel c)) [
      | inl cancel ↦ (
        record scr { cur = reset_escape scr.cur },
        rw (e_bracket_q, other, cancel) refl,
        reset_escape-IsValid v,
      )
      | inr mode ↦
          let scr' : Screen = private_mode entry_cols c scr in
          (
            record scr' { cur = reset_escape scr'.cur },
            rw (e_bracket_q, other, mode) refl,
            reset_escape-IsValid (private_mode-ScreenValid c scr v wide narrow),
          )
    ]
  ]

  e_paren_left-IsValid :
      {cs : ℕ} (c : ℕ) {win : Window} → IsValid cs win → IsValid cs (e_paren_left c win)
  unfolding e_paren_left
  e_paren_left-IsValid c {win} v = elim (Bool-cases (is_cancel c)) [
    | inl cancel ↦ rw (e_paren_left, cancel) (reset_escape-IsValid v)
    | inr other ↦
        rw (e_paren_left, other)
          (reset_escape-IsValid
            (state-IsValid win.key_state (charset_of win.charset0 c) win.charset1 v))
  ]

  e_paren_right-IsValid :
      {cs : ℕ} (c : ℕ) {win : Window} → IsValid cs win → IsValid cs (e_paren_right c win)
  unfolding e_paren_right
  e_paren_right-IsValid c {win} v = elim (Bool-cases (is_cancel c)) [
    | inl cancel ↦ rw (e_paren_right, cancel) (reset_escape-IsValid v)
    | inr other ↦
        rw (e_paren_right, other)
          (reset_escape-IsValid
            (state-IsValid win.key_state win.charset0 (charset_of win.charset1 c) v))
  ]

  call-Kept :
      (p : Process) (c : ℕ) {scr : Screen}
      → scr.cur.process_char ≡ p
      → ScreenValid scr
      → Safe c scr
      → ScreenKept (call decimal entry_cols p c scr)
  unfolding call
  call-Kept scan_for_esc c {scr} e v s = window-ScreenKept scr (scan_byte-Kept c v (s.tabulates e))
  call-Kept escape c {scr} e v s = window-ScreenKept scr (e_-Kept c v (s.escapes e))
  call-Kept e_brac c {scr} e v s =
      window-ScreenKept scr (e_bracket-Kept c v s.digit s.separator (s.sequence e))
  call-Kept e_brac_q c {scr} e v s = e_bracket_q-Kept c scr v s.digit (s.widens e) (s.narrows e)
  call-Kept e_lparen c {scr} e v s =
      (record scr { cur = e_paren_left c scr.cur }, refl, e_paren_left-IsValid c v)
  call-Kept e_rparen c {scr} e v s =
      (record scr { cur = e_paren_right c scr.cur }, refl, e_paren_right-IsValid c v)
  call-Kept e_pound c {scr} e v s =
      (record scr { cur = reset_escape scr.cur }, refl, reset_escape-IsValid v)

  -- Each byte of the text is safe where it is reached.
  abbrev pub AllSafe : Bytes → Screen → Type 0
  AllSafe [] scr = Unit {0}
  AllSafe (c ∷ text) scr =
      Safe c scr
      × ((scr' : Screen) → process decimal entry_cols c scr ≡ some scr' → AllSafe text scr')

  -- From a screen in order, and for bytes that are safe where they are reached, vt_write ends with no
  -- access outside an array and no overflow, and the screen is in order: the memory and the tabstops
  -- have the size of the window, the scroll region is in it, and the cursor in it or one column behind.
  pub vt_write-ScreenValid :
      (text : Bytes) (scr : Screen)
      → ScreenValid scr
      → AllSafe text scr
      → ScreenKept (vt_write decimal entry_cols text scr)
  unfolding vt_write process
  vt_write-ScreenValid [] scr v s = (scr, refl, v)
  vt_write-ScreenValid (c ∷ text) scr v (s, rest) =
      let (scr', e, w) = call-Kept scr.cur.process_char c refl v s in
      let (last, f, u) = vt_write-ScreenValid text scr' w (rest scr' e) in
      (last, rw (vt_write, e) f, u)
