-- ===== src/Splitvt/Window.antt =====
-- splitvt/video.h: a window. Lines and columns count from 1, in fields that are an `int` in the
-- source.
use minilib_ports.Common.{
  ℕ, zero, suc, ◌^◌, Bool, List, [], ◌∷◌, Bytes, Option, none, some, ltb, if◌then◌else◌, replicate,
}
pub mod Places

infixl 5 ◌>>=◌
-- A call does not end well, `none`, where it leaves an array, where an `int` overflows, and where a
-- field would be negative.
abbrev pub ◌>>=◌ {ℓ κ} : {A : Type ℓ} {B : Type κ} → Option A → (A → Option B) → Option B
none >>= f = none
some a >>= f = f a

-- Places count from 0.
abbrev pub get_elem? {ℓ} : {A : Type ℓ} → List A → ℕ → Option A
get_elem? [] i = none
get_elem? (x ∷ xs) zero = some x
get_elem? (x ∷ xs) (suc i) = get_elem? xs i

abbrev pub set_elem? {ℓ} : {A : Type ℓ} → List A → ℕ → A → Option (List A)
set_elem? [] i a = none
set_elem? (x ∷ xs) zero a = some (a ∷ xs)
set_elem? (x ∷ xs) (suc i) a = do ys ← set_elem? xs i a; some (x ∷ ys)

-- `p[n - 1]`, for a line or a column that counts from 1.
abbrev pub get1 {ℓ} : {A : Type ℓ} → List A → ℕ → Option A
get1 xs zero = none
get1 xs (suc i) = get_elem? xs i

abbrev pub set1 {ℓ} : {A : Type ℓ} → List A → ℕ → A → Option (List A)
set1 xs zero a = none
set1 xs (suc i) a = set_elem? xs i a

-- An `int` that is not negative.
abbrev pub int : ℕ → Option ℕ
int n = if ltb n (2 ^ 31) then some n else none

abbrev pub decr : ℕ → Option ℕ
decr zero = none
decr (suc n) = some n

-- The attributes.
abbrev pub bold : ℕ
bold = 1

abbrev pub underline : ℕ
underline = 2

abbrev pub blink : ℕ
blink = 4

abbrev pub reverse_bit : ℕ
reverse_bit = 8

abbrev pub selected : ℕ
selected = 240

abbrev pub max_params : ℕ
max_params = 12

-- The functions that `process_char` points to.
pub data Process : Type 0 where
  scan_for_esc escape e_brac e_brac_q e_lparen e_rparen e_pound : Process

pub data KeyState : Type 0 where
  normal application : KeyState

-- `sent` is what has been written to the descriptor `source`. `cur_param` is the index of the
-- parameter that the pointer is at.
pub record Window : Type 0 where
  pub cursor_x : ℕ
  pub cursor_y : ℕ
  pub rows : ℕ
  pub cols : ℕ
  pub scr_upper : ℕ
  pub scr_lower : ℕ
  pub process_char : Process
  pub key_state : KeyState
  pub charset0 : ℕ
  pub charset1 : ℕ
  pub textattr : ℕ
  pub esc_param : List ℕ
  pub cur_param : ℕ
  pub param_idx : ℕ
  pub videomem : List (List ℕ)
  pub tabstops : List ℕ
  pub saved_x : ℕ
  pub saved_y : ℕ
  pub saved_textattr : ℕ
  pub sent : Bytes
