-- ===== src/Splitvt/Tests.antt =====
-- A window of three lines and four columns.
use minilib_ports.Common.{
  ℕ, zero, suc, ◌+◌, ◌≤◌, ◌<◌, ◌≡◌, refl, List, [], ◌∷◌, ◌++◌, Bytes, codes, Option, some, none,
  arith, length,
}
use minilib_ports.Splitvt.Videomem.{add_video, scroll_video, revscroll_video, rshift_video}
use minilib_ports.Splitvt.Videomem.Erased.{VideoErased, erase_video_lem}
use minilib_ports.Splitvt.Videomem.Scrolled.{Redrawn, scrolled, revscrolled, scroll_video_lem}
use minilib_ports.Splitvt.Videomem.Copy.{copy_video}
use minilib_ports.Splitvt.Videomem.Selected.{SelectionWritten, getsel_video_lem}
use minilib_ports.Splitvt.Videomem.Selection.{Selection, getsel_video}
use minilib_ports.Splitvt.Videomem.Shape.{row_of, Shape}
use minilib_ports.Splitvt.Vt100.{Screen, process, vt_write}
use minilib_ports.Splitvt.Vt100.Faults.{tab_at_end, process-Fault}
use minilib_ports.Splitvt.Vt100.Kept.{ScreenKept, Safe, vt_write-ScreenValid}
use minilib_ports.Splitvt.Vt100.Valid.{IsValid}
use minilib_ports.Splitvt.Window.{Window, scan_for_esc, normal}

abbrev blank : Window
blank = record {
  cursor_x = 1;
  cursor_y = 1;
  rows = 3;
  cols = 4;
  scr_upper = 1;
  scr_lower = 3;
  process_char = scan_for_esc;
  key_state = normal;
  charset0 = 2;
  charset1 = 2;
  textattr = 0;
  esc_param = 0 ∷ 0 ∷ 0 ∷ 0 ∷ 0 ∷ 0 ∷ 0 ∷ 0 ∷ 0 ∷ 0 ∷ 0 ∷ 0 ∷ [];
  cur_param = 0;
  param_idx = 0;
  videomem = (1 ∷ 2 ∷ 3 ∷ 4 ∷ []) ∷ (5 ∷ 6 ∷ 7 ∷ 8 ∷ []) ∷ (9 ∷ 10 ∷ 11 ∷ 12 ∷ []) ∷ [];
  tabstops = 1 ∷ 0 ∷ 0 ∷ 0 ∷ [];
  saved_x = 0;
  saved_y = 0;
  saved_textattr = 0;
  sent = [];
}

widths : (i : ℕ) → i < 3 → length (row_of blank.videomem i) ≡ 4
widths zero h = refl
widths (suc zero) h = refl
widths (suc (suc zero)) h = refl
widths (suc (suc (suc i))) h = absurd (omega arith)

blank-Shape : Shape 3 4 blank.videomem
blank-Shape = record { lines = refl; width = widths }

blank-IsValid : (y : ℕ) → 1 ≤ y → y ≤ 5 → IsValid 4 (record blank { cursor_y = y })
blank-IsValid y h k = record {
  shape = blank-Shape;
  tabs = refl;
  columns = omega arith;
  wide = refl;
  x_low = omega arith;
  x_high = omega arith;
  y_low = h;
  y_high = k;
  upper = omega arith;
  region = omega arith;
  lower = omega arith;
  params = refl;
  current = omega arith;
  small = omega arith;
}

abbrev decimal : ℕ → Bytes
decimal n = (n + 48) ∷ []

abbrev screen : Screen
screen = record { cur = blank; other_cols = 4; physical_cols = 4 }

memory_after : Option Screen → List (List ℕ)
memory_after none = []
memory_after (some scr) = scr.cur.videomem

cursor_after : Option Screen → ℕ × ℕ
cursor_after none = (0, 0)
cursor_after (some scr) = (scr.cur.cursor_x, scr.cur.cursor_y)

sent_after : Option Screen → Bytes
sent_after none = []
sent_after (some scr) = scr.cur.sent

written :
    (memory_after (vt_write decimal 80 (codes "ab" ++ 13 ∷ 10 ∷ codes "c") screen)
      ≡ (97 ∷ 98 ∷ 3 ∷ 4 ∷ []) ∷ (99 ∷ 6 ∷ 7 ∷ 8 ∷ []) ∷ (9 ∷ 10 ∷ 11 ∷ 12 ∷ []) ∷ [])
    × (cursor_after (vt_write decimal 80 (27 ∷ codes "[2;3H") screen) ≡ (2, 3))
    × (sent_after (vt_write decimal 80 (27 ∷ codes "[2;3H" ++ 27 ∷ codes "[6n") screen)
        ≡ 27 ∷ codes "[2;3R")
unfolding vt_write memory_after cursor_after sent_after add_video
written = (refl, refl, refl)

-- Twelve parameters that are not 0.
attributes_fault : vt_write decimal 80 (27 ∷ codes "[1;1;1;1;1;1;1;1;1;1;1;1m") screen ≡ none
unfolding vt_write
attributes_fault = refl

-- The insertion of characters repeats the one at the cursor.
inserted :
    rshift_video 1 blank
    ≡ some (record blank {
      videomem = (1 ∷ 1 ∷ 2 ∷ 3 ∷ []) ∷ (5 ∷ 6 ∷ 7 ∷ 8 ∷ []) ∷ (9 ∷ 10 ∷ 11 ∷ 12 ∷ []) ∷ [];
    })
unfolding rshift_video
inserted = refl

tab-Safe : Safe decimal 80 9 screen
tab-Safe = record {
  tabulates = λ _ _. omega arith;
  escapes = λ e. cc;
  digit = λ e. cc;
  separator = λ e. absurd (omega arith);
  sequence = λ e. cc;
  widens = λ e _ _. cc;
  narrows = λ e _ _ _. cc;
}

vt_write-ScreenValid_example : ScreenKept decimal 80 (vt_write decimal 80 (9 ∷ []) screen)
vt_write-ScreenValid_example =
    vt_write-ScreenValid decimal 80 (9 ∷ []) screen (blank-IsValid 1 (omega arith) (omega arith))
      (tab-Safe, λ _ _. tt)

abbrev at_end : Screen
at_end = record screen { cur = record blank { cursor_y = 4 } }

process-Fault_example : process decimal 80 9 at_end ≡ none
process-Fault_example =
    process-Fault decimal 80 9 at_end (blank-IsValid 4 (omega arith) (omega arith))
      (tab_at_end refl refl (omega arith))

scroll_video_lem_example :
    Redrawn blank (scroll_video 1 blank) (scrolled 1 blank)
    × Redrawn blank (revscroll_video 1 blank) (revscrolled 1 blank)
scroll_video_lem_example =
    scroll_video_lem 1 blank (record {
      shape = blank-Shape;
      upper = omega arith;
      region = omega arith;
      lower = omega arith;
    })

erase_video_lem_example : VideoErased 2 3 2 4 blank
erase_video_lem_example =
    erase_video_lem 2 3 2 4 blank blank-Shape (omega arith) (omega arith) (omega arith)
      (omega arith) (omega arith) (omega arith)

-- Two lines, three columns wide.
abbrev small : List (List ℕ)
small = (0 ∷ 0 ∷ 0 ∷ []) ∷ (0 ∷ 0 ∷ 0 ∷ []) ∷ []

copied : copy_video blank small 2 3 ≡ some (1, 1, (5 ∷ 6 ∷ 7 ∷ []) ∷ (9 ∷ 10 ∷ 11 ∷ []) ∷ [])
unfolding copy_video
copied = refl

abbrev all_lines : Selection
all_lines = record { x1 = 1; x2 = 3; y1 = 1; y2 = 5 }

-- The second line is cut where the first one ends.
cut_line :
    getsel_video
      (record blank {
        videomem = (65 ∷ 0 ∷ 0 ∷ 0 ∷ []) ∷ (66 ∷ 67 ∷ 68 ∷ 69 ∷ []) ∷ (70 ∷ 0 ∷ 71 ∷ 0 ∷ []) ∷ [];
      })
      80
      all_lines
    ≡ some (65 ∷ 13 ∷ 66 ∷ 70 ∷ 32 ∷ 71 ∷ 13 ∷ [])
unfolding getsel_video
cut_line = refl

-- Four bytes and the NUL, in a buffer of two.
too_long : getsel_video blank 2 all_lines ≡ some (1 ∷ 2 ∷ 3 ∷ 4 ∷ [])
unfolding getsel_video
too_long = refl

getsel_video_lem_example : SelectionWritten blank 2 all_lines
getsel_video_lem_example =
    getsel_video_lem blank 2 all_lines blank-Shape (omega arith) (omega arith) (omega arith)
      (omega arith)
