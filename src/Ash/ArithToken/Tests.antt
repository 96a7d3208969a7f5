-- ===== src/Ash/ArithToken/Tests.antt =====
-- Runs of `arith_token`, with a `strtoimax` that reads decimal digits.
use minilib_ports.Common.{
  ℕ, ◌+◌, ◌-◌, ◌*◌, ◌%◌, ◌^◌, ◌≤◌, ◌≡◌, refl, ◌&&◌, [], ◌∷◌, leb, arith, if◌then◌else◌, Bytes,
  codes, length,
}
use minilib_ports.Ash.ArithToken.Consumes.{ReadsDigits, Scanned, arith_token-Scanned}
use minilib_ports.Ash.ArithToken.Scan.{
  Scanner, is_digit, is_name, operator, arith_token, number_token, name_token,
}
use minilib_ports.Ash.ArithToken.Spelling.{munch, spellings, operator-munch}
use minilib_ports.Ash.ArithToken.Tokens
use minilib_ports.Ash.ArithToken.Tokens.{TokenVal, val, name}
use minilib_ports.Ash.Outcome.{ok, err, bad_char, bad_constant}

-- The value of the leading digits, behind `acc`, and the text behind them.
unfoldable pub decimal_from : ℕ → Bytes → ℕ × Bytes
decimal_from acc [] = (acc, [])
decimal_from acc (c ∷ s) =
    let more = decimal_from ((acc * 10 + (c - b'0')) % 2 ^ 64) s in
    if leb b'0' c && leb c b'9' then more else (acc, c ∷ s)

decimal_from-le : (acc : ℕ) (s : Bytes) → length (decimal_from acc s).1 ≤ length s
unfolding decimal_from
decimal_from-le acc [] = omega arith
decimal_from-le acc (c ∷ s) = ground (arith, decimal_from-le ((acc * 10 + (c - b'0')) % 2 ^ 64) s)

unfoldable pub decimal : Bytes → ℕ × Bytes
unfolding decimal_from
decimal = decimal_from 0

pub decimal-ReadsDigits : ReadsDigits decimal
unfolding decimal is_digit
decimal-ReadsDigits c s h = ground (arith, decimal_from-le ((c - b'0') % 2 ^ 64) s)

abbrev at : Bytes → Scanner
at buf = record { arith_buf = buf; a_t_val = val 0; arith_lno = 1; arith_var_lno = 0 }

unfoldable pub scanner_runs : Unit {0}
unfolding decimal is_digit is_name operator number_token name_token arith_token
scanner_runs = tt

number :
    arith_token decimal (at (codes " \n42+"))
    ≡ ok (Tokens.num, record (at (codes "+")) { a_t_val = val 42; arith_lno = 2 })
unfolding scanner_runs
number = refl

variable :
    arith_token decimal (at (codes "a_1<<=2"))
    ≡ ok
        (Tokens.var, record (at (codes "<<=2")) { a_t_val = name (codes "a_1"); arith_var_lno = 1 })
unfolding scanner_runs
variable = refl

operators :
    (arith_token decimal (at (codes "<<=2")) ≡ ok (Tokens.lshift + Tokens.ass_gap, at (codes "2")))
    × (arith_token decimal (at (codes ">=2")) ≡ ok (Tokens.ge, at (codes "2")))
    × (arith_token decimal (at (codes "&&&2")) ≡ ok (Tokens.land, at (codes "&2")))
    × (arith_token decimal (at (codes "  ")) ≡ ok (Tokens.bad, at []))
    × (arith_token decimal (at (codes "#")) ≡ err (bad_char b'#'))
    × (arith_token decimal (at (codes "12x")) ≡ err (bad_constant b'x'))
unfolding scanner_runs
operators = (refl, refl, refl, refl, refl, refl)

arith_token-Scanned_example : Scanned 4 (arith_token decimal (at (codes "x+=1")))
arith_token-Scanned_example = arith_token-Scanned decimal decimal-ReadsDigits (at (codes "x+=1"))

operator-munch_example : operator b'<' (codes "<5") ≡ munch spellings (codes "<<5")
operator-munch_example = operator-munch b'<' (codes "<5")
