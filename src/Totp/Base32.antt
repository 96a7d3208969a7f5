-- ===== src/Totp/Base32.antt =====
-- totp/totp.c: the secrets that are accepted.
use minilib_ports.Common.{
  ℕ, suc, ◌+◌, ◌%◌, ◌≡◌, refl, Bool, true, false, not, ◌&&◌, ◌||◌, [], ◌∷◌, arith, ◌==◌, zero, ◌≤◌,
  get_or, replicate, ◌<◌, ◌∙◌, ltb, leb, sym, Bool-cases, inl, inr, if◌then◌else◌, Bytes, length,
}
use minilib_ports.Totp.{none8, base32_vals, no_value, only_padding, check_from, valid_secret}
use minilib_ports.Totp.Groups.{all_below, all_below-true}

-- The padding that base32 has for 5, 4, 3, 2 and 1 bytes in the last group.
abbrev pub is_padding : ℕ → Bool
is_padding n = n == 1 || n == 3 || n == 4 || n == 6

abbrev pub is_between : ℕ → ℕ → ℕ → Bool
is_between a b c = leb a c && leb c b

-- A digit of base32, in upper or lower case.
abbrev pub is_digit : ℕ → Bool
is_digit c = is_between b'A' b'Z' c || is_between b'a' b'z' c || is_between b'2' b'7' c

-- What the check takes for a digit too: 0, 1 and 8, as the comment on the table says, and a brace.
abbrev pub is_taken : ℕ → Bool
is_taken c = c == b'0' || c == b'1' || c == b'8' || c == b'{'

-- Digits and then padding, of one of these lengths.
unfoldable pub digits_padded : Bytes → Bool
unfolding only_padding
digits_padded [] = true
digits_padded (c ∷ s) =
    let later = digits_padded s in
    if c == b'='
    then only_padding s && is_padding (length (c ∷ s))
    else (is_digit c || is_taken c) && later

pub digits_padded-digit :
    (c : ℕ) (s : Bytes)
    → (c == b'=') ≡ false
    → (is_digit c || is_taken c) ≡ true
    → digits_padded (c ∷ s) ≡ digits_padded s
unfolding digits_padded
digits_padded-digit c s other h = rw (digits_padded, other, h) refl

-- The symbol for padding has a value in the table.
padding_value : no_value b'=' ≡ false
unfolding no_value
padding_value = refl

table_run :
    all_below 256 (λ c.
      c == b'='
      || (if no_value c then not (is_digit c || is_taken c) else is_digit c || is_taken c))
    ≡ true
unfolding all_below no_value
table_run = refl

get_or-behind : (xs : Bytes) (i d : ℕ) → length xs ≤ i → get_or xs i d ≡ d
get_or-behind [] i d h = refl
get_or-behind (x ∷ xs) zero d h = absurd (omega arith)
get_or-behind (x ∷ xs) (suc i) d h = get_or-behind xs i d (omega arith)

table_size : length base32_vals ≡ 256
unfolding base32_vals replicate
table_size = refl

no_value-large : (c : ℕ) → 256 ≤ c → no_value c ≡ true
unfolding no_value
no_value-large c h = rw (get_or-behind base32_vals c none8 (omega (arith, table_size))) refl

no_value-byte :
    (c : ℕ) → c < 256 → (c == b'=') ≡ false → no_value c ≡ not (is_digit c || is_taken c)
no_value-byte c h other =
    let run : (c == b'='
          || (if no_value c then not (is_digit c || is_taken c) else is_digit c || is_taken c))
        ≡ true =
      all_below-true 256
        (λ i.
          i == b'='
          || (if no_value i then not (is_digit i || is_taken i) else is_digit i || is_taken i))
        c table_run h in
    let test : (if no_value c then not (is_digit c || is_taken c) else is_digit c || is_taken c)
        ≡ true =
      rw other at run in
    by_test (no_value c) (is_digit c || is_taken c) test
  where
    by_test : (a b : Bool) → (if a then not b else b) ≡ true → a ≡ not b
    by_test true true e = sym e
    by_test true false e = refl
    by_test false true e = refl
    by_test false false e = e

pub no_value-is_digit : (c : ℕ) → (c == b'=') ≡ false → no_value c ≡ not (is_digit c || is_taken c)
no_value-is_digit c other = elim (Bool-cases (ltb c 256)) [
  | inl byte ↦ no_value-byte c (ground arith) other
  | inr large ↦ no_value-large c (ground arith) ∙ ground arith
]

check_from_lem :
    (pos : ℕ) (s : Bytes)
    → (pos + length s) % 8 ≡ 0
    → check_from (pos + length s) pos s ≡ digits_padded s
unfolding check_from digits_padded only_padding
check_from_lem pos [] h = refl
check_from_lem pos (c ∷ s) h = elim (Bool-cases (c == b'=')) [
  | inl pad ↦ ground (arith, padding_value, check_from_lem (suc pos) s)
  | inr other ↦ ground (arith, no_value-is_digit c other, check_from_lem (suc pos) s)
]

pub valid_secret_lem : (k : Bytes) → valid_secret k ≡ (length k % 8 == 0 && digits_padded k)
unfolding valid_secret
valid_secret_lem k = ground (arith, check_from_lem 0 k)
