-- ===== src/Totp/Accepted.antt =====
-- totp/totp.c: what is encoded in base32 is accepted as a secret.
use minilib_ports.Common.{
  ℕ, ◌+◌, ◌*◌, ◌/◌, ◌%◌, ◌<◌, ◌≡◌, refl, ◌∙◌, true, not, ◌||◌, [], ◌∷◌, arith, Bytes, length,
  replicate,
}
use minilib_ports.Totp.{no_value, valid_secret}
use minilib_ports.Totp.Base32.{
  is_digit, is_taken, no_value-is_digit, digits_padded, digits_padded-digit, valid_secret_lem,
}
use minilib_ports.Totp.Decoded.{encode, AllBytes}
use minilib_ports.Totp.Symbols.{symbol, symbol-pad, symbol-value}

symbol_taken : (v : ℕ) → v < 32 → (is_digit (symbol v) || is_taken (symbol v)) ≡ true
symbol_taken v h =
    let e : no_value (symbol v) ≡ not (is_digit (symbol v) || is_taken (symbol v)) =
      no_value-is_digit (symbol v) (symbol-pad v h) in
    ground (arith, e, symbol-value v h)

digits_padded-symbol : (v : ℕ) (s : Bytes) → v < 32 → digits_padded (symbol v ∷ s) ≡ digits_padded s
digits_padded-symbol v s h = digits_padded-digit (symbol v) s (symbol-pad v h) (symbol_taken v h)

empty_padded : digits_padded [] ≡ true
unfolding digits_padded
empty_padded = refl

pad6 : digits_padded (replicate 6 b'=') ≡ true
unfolding digits_padded replicate
pad6 = refl

pad4 : digits_padded (replicate 4 b'=') ≡ true
unfolding digits_padded replicate
pad4 = refl

pad3 : digits_padded (replicate 3 b'=') ≡ true
unfolding digits_padded replicate
pad3 = refl

pad1 : digits_padded (b'=' ∷ []) ≡ true
unfolding digits_padded
pad1 = refl

digits_padded-encode : (bytes : Bytes) → AllBytes bytes → digits_padded (encode bytes) ≡ true
unfolding encode
digits_padded-encode [] v = empty_padded
digits_padded-encode (a ∷ []) v =
    digits_padded-symbol (a / 8) _ (omega arith)
    ∙ digits_padded-symbol (a % 8 * 4 + 0 / 64) _ (omega arith)
    ∙ pad6
digits_padded-encode (a ∷ b ∷ []) v =
    digits_padded-symbol (a / 8) _ (omega arith)
    ∙ digits_padded-symbol (a % 8 * 4 + b / 64) _ (omega arith)
    ∙ digits_padded-symbol (b / 2 % 32) _ (omega arith)
    ∙ digits_padded-symbol (b % 2 * 16 + 0 / 16) _ (omega arith)
    ∙ pad4
digits_padded-encode (a ∷ b ∷ c ∷ []) v =
    digits_padded-symbol (a / 8) _ (omega arith)
    ∙ digits_padded-symbol (a % 8 * 4 + b / 64) _ (omega arith)
    ∙ digits_padded-symbol (b / 2 % 32) _ (omega arith)
    ∙ digits_padded-symbol (b % 2 * 16 + c / 16) _ (omega arith)
    ∙ digits_padded-symbol (c % 16 * 2 + 0 / 128) _ (omega arith)
    ∙ pad3
digits_padded-encode (a ∷ b ∷ c ∷ d ∷ []) v =
    digits_padded-symbol (a / 8) _ (omega arith)
    ∙ digits_padded-symbol (a % 8 * 4 + b / 64) _ (omega arith)
    ∙ digits_padded-symbol (b / 2 % 32) _ (omega arith)
    ∙ digits_padded-symbol (b % 2 * 16 + c / 16) _ (omega arith)
    ∙ digits_padded-symbol (c % 16 * 2 + d / 128) _ (omega arith)
    ∙ digits_padded-symbol (d / 4 % 32) _ (omega arith)
    ∙ digits_padded-symbol (d % 4 * 8 + 0 / 32) _ (omega arith)
    ∙ pad1
digits_padded-encode (a ∷ b ∷ c ∷ d ∷ e ∷ bytes) v =
    digits_padded-symbol (a / 8) _ (omega arith)
    ∙ digits_padded-symbol (a % 8 * 4 + b / 64) _ (omega arith)
    ∙ digits_padded-symbol (b / 2 % 32) _ (omega arith)
    ∙ digits_padded-symbol (b % 2 * 16 + c / 16) _ (omega arith)
    ∙ digits_padded-symbol (c % 16 * 2 + d / 128) _ (omega arith)
    ∙ digits_padded-symbol (d / 4 % 32) _ (omega arith)
    ∙ digits_padded-symbol (d % 4 * 8 + e / 32) _ (omega arith)
    ∙ digits_padded-symbol (e % 32) _ (omega arith)
    ∙ digits_padded-encode bytes v.1.1.1.1.1

length-encode : (bytes : Bytes) → length (encode bytes) % 8 ≡ 0
unfolding encode replicate
length-encode [] = refl
length-encode (a ∷ []) = refl
length-encode (a ∷ b ∷ []) = refl
length-encode (a ∷ b ∷ c ∷ []) = refl
length-encode (a ∷ b ∷ c ∷ d ∷ []) = refl
length-encode (a ∷ b ∷ c ∷ d ∷ e ∷ bytes) = omega (arith, length-encode bytes)

-- The encoding of any bytes is accepted.
pub valid_secret-encode : (bytes : Bytes) → AllBytes bytes → valid_secret (encode bytes) ≡ true
valid_secret-encode bytes v =
    valid_secret_lem (encode bytes)
    ∙ (ground (arith, length-encode bytes, digits_padded-encode bytes v))
