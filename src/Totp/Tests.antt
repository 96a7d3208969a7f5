-- ===== src/Totp/Tests.antt =====
-- Secrets that are accepted, and some that are not.
use minilib_ports.Common.{
  ◌≡◌, refl, true, false, [], codes, replicate, arith, ◌∷◌, ◌++◌, take, Bytes, some, none,
}
use minilib_ports.Totp.{no_value, valid_secret, decode, at}
use minilib_ports.Totp.Decoded.{encode, AllBytes}
use minilib_ports.Totp.RoundTrip.{decode-encode}
use minilib_ports.Totp.Accepted.{valid_secret-encode}

-- The empty secret is accepted too, and so is one with a brace.
accepted :
    (valid_secret (codes "MFRGGZDF") ≡ true)
    × (valid_secret (codes "MFRGGZDFMZTWQ===") ≡ true)
    × (valid_secret (codes "{FRGGZDF") ≡ true)
    × (valid_secret [] ≡ true)
unfolding no_value valid_secret
accepted = (refl, refl, refl, refl)

refused :
    (valid_secret (codes "MFRGG") ≡ false)
    × (valid_secret (codes "MFRGG9DF") ≡ false)
    × (valid_secret (codes "MFRGGZ==") ≡ false)
    × (valid_secret (codes "MFR=GZDF") ≡ false)
    × (valid_secret (codes "MFRGGZDF========") ≡ false)
unfolding no_value valid_secret
refused = (refl, refl, refl, refl, refl)

-- Five bytes and two, at the start of a larger object.
decoded :
    (decode 16 (codes "MFRGGZDFMZTQ====" ++ 0 ∷ 7 ∷ [])
      ≡ some (7, codes "abcdefg" ++ 0 ∷ codes "MZTQ====" ++ 0 ∷ 7 ∷ []))
    × (encode (codes "abcdefg") ≡ codes "MFRGGZDFMZTQ====")
unfolding decode encode
decoded = (refl, refl)

-- The empty secret is read outside its object.
empty_outside : decode 0 (0 ∷ []) ≡ none
unfolding decode
empty_outside = refl

abcdefg-AllBytes : AllBytes (codes "abcdefg")
abcdefg-AllBytes = (
  omega arith,
  (omega arith, (omega arith, (omega arith, (omega arith, (omega arith, (omega arith, tt)))))),
)

decode-encode_example :
    (k : Bytes) × (decode 16 (codes "MFRGGZDFMZTQ====" ++ 0 ∷ 7 ∷ []) ≡ some (7, k))
    × (take 7 k ≡ codes "abcdefg")
    × (at k 7 ≡ 0)
unfolding encode replicate
decode-encode_example =
    decode-encode (codes "abcdefg") (7 ∷ []) abcdefg-AllBytes (omega arith) (omega arith)

valid_secret-encode_example : valid_secret (encode (codes "abcdefg")) ≡ true
valid_secret-encode_example = valid_secret-encode (codes "abcdefg") abcdefg-AllBytes
