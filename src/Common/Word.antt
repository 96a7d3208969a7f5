-- ===== src/Common/Word.antt =====
-- `intmax_t` and `uintmax_t`, 64 bits wide: a value is its bit pattern, a number below 2 ^ 64.
use minilib_ports.Common.Tests.{ltb, leb, if◌then◌else◌}
use Prim.Native.Nat.{ℕ, ◌-◌, ◌/◌, ◌%◌, ◌^◌}
use mathlib.Core.Bool.{Bool, true, false, not}

abbrev pub word_mod : ℕ
word_mod = 2 ^ 64

-- `INTMAX_MIN`
abbrev pub intmax_min : ℕ
intmax_min = 2 ^ 63

-- The pattern of -1.
abbrev pub minus_one : ℕ
minus_one = 2 ^ 64 - 1

-- The sign bit.
abbrev pub is_negative : ℕ → Bool
is_negative a = leb intmax_min a

-- The absolute value, as an unsigned number.
abbrev pub magnitude : ℕ → ℕ
magnitude a = if is_negative a then word_mod - a else a

abbrev pub negate : ℕ → ℕ
negate a = (word_mod - a) % word_mod

-- `a < b` on `intmax_t`
abbrev pub signed_lt : ℕ → ℕ → Bool
signed_lt a b =
    if is_negative a
    then if is_negative b then ltb a b else true
    else if is_negative b
    then false
    else ltb a b

abbrev pub differ : Bool → Bool → Bool
differ s t = if s then not t else t

-- `a / b` and `a % b` on `intmax_t`, for `b` other than 0: the quotient is cut towards zero, and
-- the remainder has the sign of `a`.
abbrev pub signed_div : ℕ → ℕ → ℕ
signed_div a b =
    let q = magnitude a / magnitude b in
    if differ (is_negative a) (is_negative b) then negate q else q

abbrev pub signed_mod : ℕ → ℕ → ℕ
signed_mod a b = let r = magnitude a % magnitude b in if is_negative a then negate r else r

-- `a >> s` on `intmax_t`: copies of the sign bit come in from above.
abbrev pub signed_shr : ℕ → ℕ → ℕ
signed_shr a s = if is_negative a then minus_one - (minus_one - a) / 2 ^ s else a / 2 ^ s

-- What C makes of a test.
abbrev pub flag : Bool → ℕ
flag true = 1
flag false = 0
