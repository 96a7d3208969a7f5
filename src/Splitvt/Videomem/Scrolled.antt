-- ===== src/Splitvt/Videomem/Scrolled.antt =====
-- splitvt/videomem.c: what is scrolled.
use minilib_ports.Common.{
  ℕ, zero, suc, ◌+◌, ◌-◌, ◌≤◌, ◌<◌, ◌≡◌, refl, ap, ◌∙◌, Bool, ◌&&◌, List, [], ◌∷◌, arith, Option,
  some, length, get_or, set, get_or-set, length-set, ltb, leb, ◌==◌, if◌then◌else◌, Bool-cases, inl,
  inr,
}
use minilib_ports.Splitvt.Window.{Window}
use minilib_ports.Splitvt.Window.Places.{get_elem?_lem, set_elem?_lem, get1_lem, set1_lem}
use minilib_ports.Splitvt.Videomem.{
  erase_cells, shift_up, scroll_once, scroll_times, scroll_video, shift_down, revscroll_once,
  revscroll_times, revscroll_video,
}
use minilib_ports.Splitvt.Videomem.Erased.{CellsErased, erase_cells_lem}
use minilib_ports.Splitvt.Videomem.Shape.{row_of, pixel, Shape}

-- The rows from `n` on, `k` of them, are those one line below.
record ShiftedUp (k n : ℕ) (mem : List (List ℕ)) : Type 0 where
  result : List (List ℕ)
  ends : shift_up k n mem ≡ some (n + k, result)
  size : length result ≡ length mem
  rows :
      (i : ℕ)
      → row_of result i ≡ (if leb n i && ltb i (n + k) then row_of mem (suc i) else row_of mem i)

shift_up_lem : (k n : ℕ) (mem : List (List ℕ)) → n + k < length mem → ShiftedUp k n mem
unfolding shift_up
shift_up_lem zero n mem h =
    let e : n + 0 ≡ n = omega arith in
    record { result = mem; ends = rw e refl; size = refl; rows = λ i. ground arith }
shift_up_lem (suc k) n mem h =
    let mem' : List (List ℕ) = set mem n (row_of mem (suc n)) in
    let size : length mem' ≡ length mem = length-set mem n (row_of mem (suc n)) in
    let r : ShiftedUp k (suc n) mem' = shift_up_lem k (suc n) mem' (omega arith) in
    let e : suc n + k ≡ n + suc k = omega arith in
    record {
      result = r.result;
      ends =
          rw
            (
              shift_up,
              get_elem?_lem mem (suc n) [] (omega arith),
              set_elem?_lem mem n (row_of mem (suc n)) (omega arith),
              ← e,
            )
            r.ends;
      size = r.size ∙ size;
      rows = λ i. ground (
        arith,
        r.rows i,
        get_or-set mem n i (row_of mem (suc n)) [] (omega arith),
        get_or-set mem n (suc i) (row_of mem (suc n)) [] (omega arith),
      );
    }

-- The rows up to `n`, `k` of them, are those one line above.
record ShiftedDown (k n : ℕ) (mem : List (List ℕ)) : Type 0 where
  result : List (List ℕ)
  ends : shift_down k n mem ≡ some (n - k, result)
  size : length result ≡ length mem
  rows :
      (i : ℕ)
      → row_of result i ≡ (if leb i n && ltb n (i + k) then row_of mem (i - 1) else row_of mem i)

shift_down_lem : (k n : ℕ) (mem : List (List ℕ)) → k ≤ n → n < length mem → ShiftedDown k n mem
unfolding shift_down
shift_down_lem zero n mem l h =
    let e : n - 0 ≡ n = omega arith in
    record { result = mem; ends = rw e refl; size = refl; rows = λ i. ground arith }
shift_down_lem (suc k) zero mem l h = absurd (omega arith)
shift_down_lem (suc k) (suc n) mem l h =
    let mem' : List (List ℕ) = set mem (suc n) (row_of mem n) in
    let size : length mem' ≡ length mem = length-set mem (suc n) (row_of mem n) in
    let r : ShiftedDown k n mem' = shift_down_lem k n mem' (omega arith) (omega arith) in
    let e : n - k ≡ suc n - suc k = omega arith in
    record {
      result = r.result;
      ends =
          rw
            (
              shift_down,
              get_elem?_lem mem n [] (omega arith),
              set_elem?_lem mem (suc n) (row_of mem n) (omega arith),
              ← e,
            )
            r.ends;
      size = r.size ∙ size;
      rows = λ i. elim (Bool-cases (suc n == i)) [
        | inl here ↦
            let this : suc n ≡ i = ground arith in
            let e' : suc n - 1 ≡ n = omega arith in
            let above : row_of mem (suc n - 1) ≡ row_of mem n = ap (row_of mem) e' in
            rw (← this) (
              ground (
                arith,
                r.rows (suc n),
                get_or-set mem (suc n) (suc n) (row_of mem n) [] (omega arith),
                above,
              ))
        | inr other ↦ ground (
          arith,
          r.rows i,
          get_or-set mem (suc n) i (row_of mem n) [] (omega arith),
          get_or-set mem (suc n) (i - 1) (row_of mem n) [] (omega arith),
        )
      ];
    }

get_or-beyond : (xs : List ℕ) (j : ℕ) → length xs ≤ j → get_or xs j 0 ≡ 0
get_or-beyond [] j h = refl
get_or-beyond (x ∷ xs) zero h = absurd (omega arith)
get_or-beyond (x ∷ xs) (suc j) h = get_or-beyond xs j (omega arith)

-- A row of zeros.
erase_row :
    (cols : ℕ) (row : List ℕ)
    → length row ≡ cols
    → (blank : List ℕ) × (erase_cells cols 1 row ≡ some blank)
      × (length blank ≡ cols)
      × ((j : ℕ) → get_or blank j 0 ≡ 0)
erase_row cols row w =
    let e : CellsErased cols 1 row = erase_cells_lem cols 1 row (omega arith) (omega arith) in
    (
      e.result,
      e.ends,
      e.size ∙ w,
      λ j. elim (Bool-cases (ltb j cols)) [
        | inl inside ↦ ground (arith, e.cells j)
        | inr beyond ↦ get_or-beyond e.result j (ground (arith, e.size))
      ],
    )

-- The scroll region is in a memory of the size of its window.
pub record Scrollable (win : Window) : Type 0 where
  pub shape : Shape win.rows win.cols win.videomem
  pub upper : 1 ≤ win.scr_upper
  pub region : win.scr_upper ≤ win.scr_lower
  pub lower : win.scr_lower ≤ win.rows

-- A line that counts from 0 is in the region.
abbrev pub in_region : Window → ℕ → Bool
in_region win i = leb win.scr_upper (suc i) && leb (suc i) win.scr_lower

-- What stands in the region after a scroll by `n` lines: the lines below, and blank ones.
abbrev pub scrolled : ℕ → Window → ℕ → ℕ → ℕ
scrolled n win i j =
    if in_region win i
    then (if ltb (i + n) win.scr_lower then pixel win.videomem (i + n) j else 0)
    else pixel win.videomem i j

abbrev pub revscrolled : ℕ → Window → ℕ → ℕ → ℕ
revscrolled n win i j =
    if in_region win i
    then (if leb (win.scr_upper + n) (suc i) then pixel win.videomem (i - n) j else 0)
    else pixel win.videomem i j

-- The window with a memory of the same size.
pub record Redrawn (win : Window) (r : Option Window) (pixels : ℕ → ℕ → ℕ) : Type 0 where
  pub memory : List (List ℕ)
  pub ends : r ≡ some (record win { videomem = memory })
  pub shape : Shape win.rows win.cols memory
  pub shows : (i j : ℕ) → pixel memory i j ≡ pixels i j

scroll_once_lem : (win : Window) → Scrollable win → Redrawn win (scroll_once win) (scrolled 1 win)
unfolding scroll_once
scroll_once_lem win s =
    let mem : List (List ℕ) = win.videomem in
    let u : ℕ = win.scr_upper - 1 in
    let k : ℕ = win.scr_lower - win.scr_upper in
    let tmp : List ℕ = row_of mem u in
    let (blank, clears, width, zeros) =
      erase_row win.cols tmp (s.shape.width u (omega (arith, s.upper, s.region, s.lower))) in
    let mem0 : List (List ℕ) = set mem u blank in
    let size0 : length mem0 ≡ length mem = length-set mem u blank in
    let top : u < length mem = omega (arith, s.upper, s.region, s.lower, s.shape.lines) in
    let up : ShiftedUp k u mem0 =
      shift_up_lem k u mem0 (omega (arith, s.upper, s.region, s.lower, s.shape.lines)) in
    let last : u + k < length up.result =
      omega (arith, up.size, s.upper, s.region, s.lower, s.shape.lines) in
    let result : List (List ℕ) = set up.result (u + k) blank in
    let rows : (i : ℕ)
        → row_of result i ≡ (
            if u + k == i
            then blank
            else if leb u i && ltb i (u + k)
            then row_of mem (suc i)
            else row_of mem i) =
      λ i. ground (
        arith,
        get_or-set up.result (u + k) i blank [] last,
        up.rows i,
        get_or-set mem u i blank [] top,
        get_or-set mem u (suc i) blank [] top,
      ) in
    record {
      memory = result;
      ends =
          rw
            (
              scroll_once,
              get1_lem mem win.scr_upper [] s.upper (omega arith),
              clears,
              set1_lem mem win.scr_upper blank s.upper (omega arith),
              up.ends,
              set_elem?_lem up.result (u + k) blank last,
            )
            refl;
      shape = record {
        lines = length-set up.result (u + k) blank ∙ up.size ∙ size0 ∙ s.shape.lines;
        width = λ i h. rw (rows i) (ground (arith, width, s.shape.width i, s.shape.width (suc i)));
      };
      shows = λ i j.
          let next : i + 1 ≡ suc i = omega arith in rw (rows i, next) (ground (arith, zeros j));
    }

revscroll_once_lem :
    (win : Window) → Scrollable win → Redrawn win (revscroll_once win) (revscrolled 1 win)
unfolding revscroll_once
revscroll_once_lem win s =
    let mem : List (List ℕ) = win.videomem in
    let l : ℕ = win.scr_lower - 1 in
    let k : ℕ = win.scr_lower - win.scr_upper in
    let tmp : List ℕ = row_of mem l in
    let (blank, clears, width, zeros) =
      erase_row win.cols tmp (s.shape.width l (omega (arith, s.upper, s.region, s.lower))) in
    let mem0 : List (List ℕ) = set mem l blank in
    let size0 : length mem0 ≡ length mem = length-set mem l blank in
    let bottom : l < length mem = omega (arith, s.upper, s.region, s.lower, s.shape.lines) in
    let down : ShiftedDown k l mem0 =
      shift_down_lem k l mem0 (omega (arith, s.upper)) (omega arith) in
    let first : l - k < length down.result = omega (arith, down.size) in
    let result : List (List ℕ) = set down.result (l - k) blank in
    let rows : (i : ℕ)
        → row_of result i ≡ (
            if l - k == i
            then blank
            else if leb i l && ltb l (i + k)
            then row_of mem (i - 1)
            else row_of mem i) =
      λ i. ground (
        arith,
        s.upper,
        s.region,
        get_or-set down.result (l - k) i blank [] first,
        down.rows i,
        get_or-set mem l i blank [] bottom,
        get_or-set mem l (i - 1) blank [] bottom,
      ) in
    record {
      memory = result;
      ends =
          rw
            (
              revscroll_once,
              get1_lem mem win.scr_lower [] (omega (arith, s.upper, s.region))
                  (omega (arith, s.lower, s.shape.lines)),
              clears,
              set1_lem mem win.scr_lower blank (omega (arith, s.upper, s.region))
                  (omega (arith, s.lower, s.shape.lines)),
              down.ends,
              set_elem?_lem down.result (l - k) blank first,
            )
            refl;
      shape = record {
        lines = length-set down.result (l - k) blank ∙ down.size ∙ size0 ∙ s.shape.lines;
        width = λ i h. rw (rows i) (ground (arith, width, s.shape.width i, s.shape.width (i - 1)));
      };
      shows = λ i j. rw (rows i) (ground (arith, s.upper, s.region, zeros j));
    }

-- The window after a scroll by some lines, scrolled again.
Scrollable-memory :
    (win : Window) (mem : List (List ℕ))
    → Scrollable win
    → Shape win.rows win.cols mem
    → Scrollable (record win { videomem = mem })
Scrollable-memory win mem s t = record {
  shape = t;
  upper = s.upper;
  region = s.region;
  lower = s.lower;
}

scroll_times_lem :
    (n : ℕ) (win : Window) → Scrollable win → Redrawn win (scroll_times n win) (scrolled n win)
unfolding scroll_times
scroll_times_lem zero win s = record {
  memory = win.videomem;
  ends = refl;
  shape = s.shape;
  shows = λ i j. let e : i + 0 ≡ i = omega arith in rw e (ground arith);
}
scroll_times_lem (suc n) win s =
    let once : Redrawn win (scroll_once win) (scrolled 1 win) = scroll_once_lem win s in
    let win' : Window = record win { videomem = once.memory } in
    let more : Redrawn win' (scroll_times n win') (scrolled n win') =
      scroll_times_lem n win' (Scrollable-memory win once.memory s once.shape) in
    record {
      memory = more.memory;
      ends = rw (scroll_times, once.ends) more.ends;
      shape = more.shape;
      shows = λ i j.
          let e : i + n + 1 ≡ i + suc n = omega arith in
          let a : pixel once.memory (i + n) j ≡ scrolled 1 win (i + n) j = once.shows (i + n) j in
          rw (more.shows i j) (rw (a, once.shows i j, e) (ground arith));
    }

revscroll_times_lem :
    (n : ℕ) (win : Window)
    → Scrollable win
    → Redrawn win (revscroll_times n win) (revscrolled n win)
unfolding revscroll_times
revscroll_times_lem zero win s = record {
  memory = win.videomem;
  ends = refl;
  shape = s.shape;
  shows = λ i j. let e : i - 0 ≡ i = omega arith in rw e (ground arith);
}
revscroll_times_lem (suc n) win s =
    let once : Redrawn win (revscroll_once win) (revscrolled 1 win) = revscroll_once_lem win s in
    let win' : Window = record win { videomem = once.memory } in
    let more : Redrawn win' (revscroll_times n win') (revscrolled n win') =
      revscroll_times_lem n win' (Scrollable-memory win once.memory s once.shape) in
    record {
      memory = more.memory;
      ends = rw (revscroll_times, once.ends) more.ends;
      shape = more.shape;
      shows = λ i j.
          let e : i - n - 1 ≡ i - suc n = omega arith in
          let a : pixel once.memory (i - n) j ≡ revscrolled 1 win (i - n) j =
            once.shows (i - n) j in
          rw (more.shows i j) (rw (a, once.shows i j, e) (ground arith));
    }

-- In a memory of the size of its window, with the scroll region in it, scroll_video ends: with the
-- cursor not below the region, each line of it shows the line that was n below, or is blank where
-- that is outside; with the cursor there, all is left. revscroll_video is the same upwards, with a
-- cursor that is not above the region. Other lines and the size are left.
pub scroll_video_lem :
    (n : ℕ) (win : Window)
    → Scrollable win
    → Redrawn win
        (scroll_video n win)
        (if ltb win.scr_lower win.cursor_x then pixel win.videomem else scrolled n win)
      × Redrawn win
          (revscroll_video n win)
          (if ltb win.cursor_x win.scr_upper then pixel win.videomem else revscrolled n win)
unfolding scroll_video revscroll_video
scroll_video_lem n win s =
    let same : Redrawn win (some win) (pixel win.videomem) = record {
      memory = win.videomem;
      ends = refl;
      shape = s.shape;
      shows = λ i j. refl;
    } in
    (
      elim (Bool-cases (ltb win.scr_lower win.cursor_x)) [
        | inl outside ↦ rw (scroll_video, outside) same
        | inr inside ↦ rw (scroll_video, inside) (scroll_times_lem n win s)
      ],
      elim (Bool-cases (ltb win.cursor_x win.scr_upper)) [
        | inl outside ↦ rw (revscroll_video, outside) same
        | inr inside ↦ rw (revscroll_video, inside) (revscroll_times_lem n win s)
      ],
    )
