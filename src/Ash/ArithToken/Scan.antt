-- ===== src/Ash/ArithToken/Scan.antt =====
-- ash/arith_token.c: `arith_token`, with the character classes of ash/syntax.h that it uses.
use minilib_ports.Common.{
  ℕ, ◌+◌, ◌%◌, ◌^◌, Bool, ◌&&◌, ◌||◌, [], ◌∷◌, Option, none, some, leb, ◌==◌, if◌then◌else◌, Bytes,
  head_byte, tail_bytes,
}
use minilib_ports.Ash.ArithToken.Tokens
use minilib_ports.Ash.ArithToken.Tokens.{TokenVal, val, name}
use minilib_ports.Ash.Outcome.{Outcome, ok, err, bad_constant, bad_char}

-- `isdigit`
unfoldable pub is_digit : ℕ → Bool
is_digit c = leb b'0' c && leb c b'9'

-- A letter or `_`.
unfoldable pub is_name : ℕ → Bool
is_name c = leb b'a' c && leb c b'z' || leb b'A' c && leb c b'Z' || c == b'_'

unfoldable pub is_in_name : ℕ → Bool
unfolding is_digit is_name
is_in_name c = is_name c || is_digit c

-- The globals that the scanner reads and writes. The line numbers are `int`s, as 32-bit patterns.
pub record Scanner : Type 0 where
  pub arith_buf : Bytes
  pub a_t_val : TokenVal
  pub arith_lno : ℕ
  pub arith_var_lno : ℕ

-- The label `checkeqcur`: an `=` here makes the operator an assignment.
unfoldable pub checkeqcur : ℕ → Bytes → ℕ × Bytes
checkeqcur token buf =
    if head_byte buf == b'=' then (token + Tokens.ass_gap, tail_bytes buf) else (token, buf)

-- The cases of the `switch` that look at one more byte, or two; `buf` is the text behind the
-- first byte, and so it is below.
unfoldable pub comparison : ℕ → ℕ → ℕ → ℕ → Bytes → ℕ × Bytes
unfolding checkeqcur
comparison c with_eq shift alone buf =
    if head_byte buf == b'='
    then (with_eq, tail_bytes buf)
    else if head_byte buf == c
    then checkeqcur shift (tail_bytes buf)
    else (alone, buf)

unfoldable pub doubled : ℕ → ℕ → ℕ → Bytes → ℕ × Bytes
unfolding checkeqcur
doubled c twice once buf =
    if head_byte buf == c then (twice, tail_bytes buf) else checkeqcur once buf

-- The cases that are one byte long, or end in `checkeq`; `none` is the `default`.
unfoldable pub one_byte : ℕ → Bytes → Option (ℕ × Bytes)
unfolding checkeqcur
one_byte c buf =
    if c == b'='
    then some (checkeqcur Tokens.ass buf)
    else if c == b'('
    then some (Tokens.lparen, buf)
    else if c == b')'
    then some (Tokens.rparen, buf)
    else if c == b'*'
    then some (checkeqcur Tokens.mul buf)
    else if c == b'/'
    then some (checkeqcur Tokens.div buf)
    else if c == b'%'
    then some (checkeqcur Tokens.rem buf)
    else if c == b'~'
    then some (Tokens.bnot, buf)
    else if c == b'^'
    then some (checkeqcur Tokens.bxor buf)
    else if c == b'?'
    then some (Tokens.qmark, buf)
    else if c == b':'
    then some (Tokens.colon, buf)
    else if c == b','
    then some (Tokens.comma, buf)
    else none

-- The `switch` on a byte that is no white space: the token and the text behind it.
unfoldable pub operator : ℕ → Bytes → Option (ℕ × Bytes)
unfolding comparison doubled one_byte
operator c buf =
    if c == b'>'
    then some (comparison b'>' Tokens.ge Tokens.rshift Tokens.gt buf)
    else if c == b'<'
    then some (comparison b'<' Tokens.le Tokens.lshift Tokens.lt buf)
    else if c == b'|'
    then some (doubled b'|' Tokens.lor Tokens.bor buf)
    else if c == b'&'
    then some (doubled b'&' Tokens.land Tokens.band buf)
    else if c == b'+'
    then some (doubled b'+' Tokens.incr Tokens.add buf)
    else if c == b'-'
    then some (doubled b'-' Tokens.decr Tokens.sub buf)
    else if c == b'!'
    then some (if head_byte buf == b'=' then (Tokens.ne, tail_bytes buf) else (Tokens.lnot, buf))
    else one_byte c buf

-- `while (buf++, is_in_name(*buf))`: the bytes that go on the name, and the text behind them.
unfoldable pub span_name : Bytes → Bytes × Bytes
unfolding is_in_name
span_name [] = ([], [])
span_name (c ∷ s) =
    let more = span_name s in if is_in_name c then (c ∷ more.0, more.1) else ([], c ∷ s)

-- `strtoimax(buf, &end, 0)`: the value and `end`.
module _ (strtoimax : Bytes → ℕ × Bytes) where
  -- The branch for a digit.
  unfoldable pub number_token : Bytes → Scanner → Outcome (ℕ × Scanner)
  unfolding is_in_name
  number_token buf s =
      let (v, end) = strtoimax buf in
      if is_in_name (head_byte end)
      then err (bad_constant (head_byte end))
      else ok (Tokens.num, record s { arith_buf = end; a_t_val = val v })

  -- The branch for a letter or `_`, which stands in front of `rest`.
  unfoldable pub name_token : ℕ → Bytes → Scanner → ℕ × Scanner
  unfolding span_name
  name_token c rest s =
      let (more, buf) = span_name rest in
      (
        Tokens.var,
        record s { arith_buf = buf; a_t_val = name (c ∷ more); arith_var_lno = s.arith_lno },
      )

  -- The `for` loop, at `buf`.
  unfoldable pub scan : Bytes → Scanner → Outcome (ℕ × Scanner)
  scan [] s = ok (Tokens.bad, record s { arith_buf = [] })
  scan (c ∷ buf) s =
      let again =
        scan buf (record s {
          arith_lno = if c == b'\n' then (s.arith_lno + 1) % 2 ^ 32 else s.arith_lno;
        }) in
      if is_digit c
      then number_token (c ∷ buf) s
      else if is_name c
      then ok (name_token c buf s)
      else if c == b'\n' || c == b' ' || c == b'\t'
      then again
      else elim (operator c buf) [
        | none ↦ err (bad_char c)
        | some (token, rest) ↦ ok (token, record s { arith_buf = rest })
      ]

  unfoldable pub arith_token : Scanner → Outcome (ℕ × Scanner)
  unfolding scan
  arith_token s = scan s.arith_buf s
