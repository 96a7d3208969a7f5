-- ===== src/Ash/Outcome.antt =====
-- How a call into the shell ends. `error` of ash/error.c does not return: the callers up to the
-- command loop are left, with what they have already written to the shell's state.
use minilib_ports.Common.{ℕ, ◌≡◌, Bytes}

-- One constructor for each message, and one for each way out of C.
pub data Error : Type 0 where
  -- options.c
  illegal_option no_arg : ℕ → Error
  -- alias.c
  alias_count_botch : Error
  -- mystring.c
  illegal_number number_out_of_range : Bytes → Error
  -- arith_token.c
  bad_constant bad_char : ℕ → Error
  -- arithmetic.c
  not_set non_numeric token_error division_by_zero divide_error : Error
  expecting_rparen expecting_colon expecting_primary expecting_end needs_var_name : Error
  -- var.c
  read_only : Bytes → Error
  -- a read or write outside its object, or through a number taken for a pointer
  fault : Error
  -- the model's fuel ran out
  no_fuel : Error

pub data Outcome {ℓ} (A : Type ℓ) : Type ℓ where
  ok : A → Outcome A
  err : Error → Outcome A

infixl 5 ◌>>=◌
abbrev pub ◌>>=◌ {ℓ κ} : {A : Type ℓ} {B : Type κ} → Outcome A → (A → Outcome B) → Outcome B
ok a >>= f = f a
err e >>= f = err e

-- The call ends normally, in a value that satisfies `P`.
abbrev pub Returns {ℓ κ} : {A : Type ℓ} → Outcome A → (A → Type κ) → Type (ℓ ⊔ κ)
Returns {A} r P = (a : A) × (r ≡ ok a) × P a
