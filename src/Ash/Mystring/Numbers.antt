-- ===== src/Ash/Mystring/Numbers.antt =====
-- ash/mystring.c: `number` and `is_number` accept the same strings.
use minilib_ports.Common.{
  ℕ, ◌+◌, ◌*◌, ◌-◌, ◌^◌, ◌≤◌, ◌≡◌, refl, true, false, ltb, [], ◌∷◌, arith, ◌==◌, Bytes, length,
  if◌then◌else◌,
}
use minilib_ports.Ash.ArithToken.Scan.{is_digit}
use minilib_ports.Ash.Mystring.{is_number, number}
use minilib_ports.Ash.Outcome.{Outcome, ok, err, illegal_number, number_out_of_range}

-- The text behind the leading digits.
unfoldable pub skip_digits : Bytes → Bytes
skip_digits [] = []
skip_digits (c ∷ s) = let rest = skip_digits s in if is_digit c then rest else c ∷ s

-- The value of digits in base 10, behind `acc`.
unfoldable pub decimal_value : ℕ → Bytes → ℕ
decimal_value acc [] = acc
decimal_value acc (c ∷ s) = decimal_value (acc * 10 + (c - b'0')) s

-- `strtoimax` in base 10, as documented, for a text that begins with a digit: it stops behind the
-- leading digits, and a text of digits only has its value, or `INTMAX_MAX` if that is less.
pub record ReadsDecimal (strtoimax : Bytes → ℕ × Bytes) : Type 0 where
  pub stops : (c : ℕ) (s : Bytes) → is_digit c ≡ true → (strtoimax (c ∷ s)).1 ≡ skip_digits s
  pub reads :
      (s : Bytes)
      → is_number s ≡ true
      → (strtoimax s).0
        ≡ (if ltb (decimal_value 0 s) (2 ^ 63) then decimal_value 0 s else 2 ^ 63 - 1)

-- What `number` makes of a string, by its value.
unfoldable pub number_by_value : Bytes → Outcome ℕ
number_by_value s =
    if is_number s
    then if ltb (decimal_value 0 s) (2 ^ 31)
      then ok (decimal_value 0 s)
      else err (number_out_of_range s)
    else err (illegal_number s)

skip_digits-le : (s : Bytes) → length (skip_digits s) ≤ length s
unfolding skip_digits
skip_digits-le [] = omega arith
skip_digits-le (c ∷ s) = ground (arith, skip_digits-le s)

-- All the bytes behind the first are digits exactly if nothing is left behind the digits.
is_number-skip :
    (c : ℕ) (s : Bytes)
    → is_number (c ∷ s) ≡ (if is_digit c then length (skip_digits s) == 0 else false)
unfolding is_number skip_digits
is_number-skip c [] = ground arith
is_number-skip c (d ∷ s) = ground (arith, is_number-skip d s)

no_digits : is_number [] ≡ false
unfolding is_number
no_digits = refl

module _ (strtoimax : Bytes → ℕ × Bytes) (lib : ReadsDecimal strtoimax) where
  -- If `strtoimax` does as documented, `number` returns the value of a string that `is_number`
  -- accepts, if that is below 2 ^ 31, and is out of range otherwise; any other string is illegal.
  pub number_lem : (s : Bytes) → number strtoimax s ≡ number_by_value s
  unfolding number number_by_value
  number_lem [] = ground (arith, no_digits)
  number_lem (c ∷ s) =
      ground (arith, is_number-skip c s, skip_digits-le s, lib.stops c s, lib.reads (c ∷ s))
