-- ===== src/Ash/ArithToken/Consumes.antt =====
-- ash/arith_token.c: every token but the end takes at least one byte of the expression.
use minilib_ports.Common.{
  ℕ, suc, ◌+◌, ◌≤◌, ◌≡◌, ◌≢◌, refl, true, ◌||◌, [], ◌∷◌, Option, none, some, inl, inr, arith, ◌==◌,
  if◌then◌else◌, Bool-cases, Bytes, tail_bytes, length,
}
use minilib_ports.Ash.ArithToken.Scan.{
  Scanner, is_digit, is_name, checkeqcur, comparison, doubled, one_byte, operator, span_name,
  number_token, name_token, scan, arith_token,
}
use minilib_ports.Ash.ArithToken.Tokens
use minilib_ports.Ash.ArithToken.Tokens.{TokenVal, val, name}
use minilib_ports.Ash.Outcome.{Outcome, ok, err, bad_char, no_fuel}

-- The end of the expression is token 0; a token that was read has weight 1.
abbrev pub weight : ℕ → ℕ
weight token = if token == Tokens.bad then 0 else 1

-- What the code relies on: at a digit `strtoimax` reads at least that.
abbrev pub ReadsDigits : (Bytes → ℕ × Bytes) → Type 0
ReadsDigits strtoimax =
    (c : ℕ) (s : Bytes) → is_digit c ≡ true → length (strtoimax (c ∷ s)).1 ≤ length s

-- A token was read, and no text was put back.
abbrev pub IsRead : Bytes → ℕ × Bytes → Type 0
IsRead s r = (r.0 ≢ 0) × (length r.1 ≤ length s)

tail_bytes-le : (s : Bytes) → length (tail_bytes s) ≤ length s
tail_bytes-le [] = omega arith
tail_bytes-le (x ∷ s) = omega arith

checkeqcur-IsRead : (t : ℕ) (s : Bytes) → t ≢ 0 → IsRead s (checkeqcur t s)
unfolding checkeqcur
checkeqcur-IsRead t s h = ground (arith, tail_bytes-le s)

comparison-IsRead :
    (c t u v : ℕ) (s : Bytes) → t ≢ 0 → u ≢ 0 → v ≢ 0 → IsRead s (comparison c t u v s)
unfolding comparison
comparison-IsRead c t u v s ht hu hv =
    ground (arith, tail_bytes-le s, checkeqcur-IsRead u (tail_bytes s))

doubled-IsRead : (c t u : ℕ) (s : Bytes) → t ≢ 0 → u ≢ 0 → IsRead s (doubled c t u s)
unfolding doubled
doubled-IsRead c t u s ht hu = ground (arith, tail_bytes-le s, checkeqcur-IsRead u s)

one_byte-IsRead : (c : ℕ) (s : Bytes) {r : ℕ × Bytes} → one_byte c s ≡ some r → IsRead s r
unfolding one_byte
one_byte-IsRead c s h = ground (
  arith,
  checkeqcur-IsRead Tokens.ass s,
  checkeqcur-IsRead Tokens.mul s,
  checkeqcur-IsRead Tokens.div s,
  checkeqcur-IsRead Tokens.rem s,
  checkeqcur-IsRead Tokens.bxor s,
)

-- An operator is never token 0, and leaves no more than the text behind its first byte.
pub operator-IsRead : (c : ℕ) (s : Bytes) {r : ℕ × Bytes} → operator c s ≡ some r → IsRead s r
unfolding operator
operator-IsRead c s h = ground (
  arith,
  comparison-IsRead b'>' Tokens.ge Tokens.rshift Tokens.gt s,
  comparison-IsRead b'<' Tokens.le Tokens.lshift Tokens.lt s,
  doubled-IsRead b'|' Tokens.lor Tokens.bor s,
  doubled-IsRead b'&' Tokens.land Tokens.band s,
  doubled-IsRead b'+' Tokens.incr Tokens.add s,
  doubled-IsRead b'-' Tokens.decr Tokens.sub s,
  tail_bytes-le s,
  one_byte-IsRead c s,
)

span_name-le : (s : Bytes) → length (span_name s).1 ≤ length s
unfolding span_name
span_name-le [] = omega arith
span_name-le (c ∷ s) = ground (arith, span_name-le s)

-- The scanner ends by itself, and the text that is left with the token's weight fits in `n`.
abbrev pub Scanned : ℕ → Outcome (ℕ × Scanner) → Type 0
Scanned n (ok r) = length r.1.arith_buf + weight r.0 ≤ n
Scanned n (err e) = e ≢ no_fuel

Scanned-mono : (n m : ℕ) (r : Outcome (ℕ × Scanner)) → Scanned n r → n ≤ m → Scanned m r
Scanned-mono n m (ok r) h le = omega arith
Scanned-mono n m (err e) h le = h

module _ (strtoimax : Bytes → ℕ × Bytes) (reads : ReadsDigits strtoimax) where
  number_token-Scanned :
      (c : ℕ) (buf : Bytes) (s : Scanner)
      → is_digit c ≡ true
      → Scanned (suc (length buf)) (number_token strtoimax (c ∷ buf) s)
  unfolding number_token
  number_token-Scanned c buf s h = ground (arith, reads c buf h)

  name_token-Scanned :
      (c : ℕ) (buf : Bytes) (s : Scanner)
      → Scanned (suc (length buf)) (ok (name_token strtoimax c buf s))
  unfolding name_token
  name_token-Scanned c buf s = omega (arith, span_name-le buf)

  operator-Scanned :
      (c : ℕ) (buf : Bytes) (s : Scanner) (o : Option (ℕ × Bytes))
      → operator c buf ≡ o
      → Scanned (suc (length buf)) (elim o [
        | none ↦ err (bad_char c)
        | some (token, rest) ↦ ok (token, record s { arith_buf = rest })
      ])
  operator-Scanned c buf s none e = cc
  operator-Scanned c buf s (some r) e = ground (arith, operator-IsRead c buf e)

  scan-Scanned : (buf : Bytes) (s : Scanner) → Scanned (length buf) (scan strtoimax buf s)
  unfolding scan
  scan-Scanned [] s = ground arith
  scan-Scanned (c ∷ buf) s = elim (Bool-cases (is_digit c)) [
    | inl digit ↦ rw digit (number_token-Scanned c buf s digit)
    | inr other ↦ rw other (elim (Bool-cases (is_name c)) [
      | inl letter ↦ rw letter (name_token-Scanned c buf s)
      | inr sign ↦ rw sign (elim (Bool-cases (c == b'\n' || c == b' ' || c == b'\t')) [
        | inl blank ↦
            rw blank
              (Scanned-mono (length buf) (suc (length buf)) _ (scan-Scanned buf _) (omega arith))
        | inr black ↦ rw black (operator-Scanned c buf s (operator c buf) refl)
      ])
    ])
  ]

  -- If `strtoimax` reads the digit that it is called at, `arith_token` ends by itself, and every
  -- token but the end takes one byte of the expression at least.
  pub arith_token-Scanned : (s : Scanner) → Scanned (length s.arith_buf) (arith_token strtoimax s)
  unfolding arith_token
  arith_token-Scanned s = scan-Scanned s.arith_buf s
