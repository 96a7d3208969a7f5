-- ===== src/Ash/ArithToken/Spelling.antt =====
-- ash/arith_token.c: the `switch` against the list of the operators' texts.
use minilib_ports.Common.{
  ℕ, ◌+◌, ◌≡◌, refl, inl, inr, arith, false, ◌==◌, if◌then◌else◌, List, [], ◌∷◌, Option, none, some,
  Bytes, codes, Bool-cases, subst,
}
use minilib_ports.Ash.ArithToken.Scan.{operator}
use minilib_ports.Ash.ArithToken.Tokens

-- What is left of a text that begins with another.
strip : Bytes → Bytes → Option Bytes
strip [] s = some s
strip (b ∷ t) [] = none
strip (b ∷ t) (c ∷ s) = let rest = strip t s in if c == b then rest else none

-- The first entry that the text begins with.
unfoldable pub munch : List (Bytes × ℕ) → Bytes → Option (ℕ × Bytes)
unfolding strip
munch [] s = none
munch ((text, token) ∷ more) s =
    let later = munch more s in
    elim (strip text s) [ none ↦ later | some rest ↦ some (token, rest) ]

-- The operators by their spelling, a longer one before its prefixes.
abbrev pub spellings : List (Bytes × ℕ)
spellings =
    (codes "<<=", Tokens.lshift + Tokens.ass_gap)
    ∷ (codes ">>=", Tokens.rshift + Tokens.ass_gap)
    ∷ (codes "<<", Tokens.lshift)
    ∷ (codes ">>", Tokens.rshift)
    ∷ (codes "<=", Tokens.le)
    ∷ (codes ">=", Tokens.ge)
    ∷ (codes "==", Tokens.eq)
    ∷ (codes "!=", Tokens.ne)
    ∷ (codes "||", Tokens.lor)
    ∷ (codes "&&", Tokens.land)
    ∷ (codes "++", Tokens.incr)
    ∷ (codes "--", Tokens.decr)
    ∷ (codes "|=", Tokens.bor + Tokens.ass_gap)
    ∷ (codes "&=", Tokens.band + Tokens.ass_gap)
    ∷ (codes "^=", Tokens.bxor + Tokens.ass_gap)
    ∷ (codes "+=", Tokens.add + Tokens.ass_gap)
    ∷ (codes "-=", Tokens.sub + Tokens.ass_gap)
    ∷ (codes "*=", Tokens.mul + Tokens.ass_gap)
    ∷ (codes "/=", Tokens.div + Tokens.ass_gap)
    ∷ (codes "%=", Tokens.rem + Tokens.ass_gap)
    ∷ (codes "<", Tokens.lt)
    ∷ (codes ">", Tokens.gt)
    ∷ (codes "=", Tokens.ass)
    ∷ (codes "!", Tokens.lnot)
    ∷ (codes "|", Tokens.bor)
    ∷ (codes "&", Tokens.band)
    ∷ (codes "^", Tokens.bxor)
    ∷ (codes "~", Tokens.bnot)
    ∷ (codes "+", Tokens.add)
    ∷ (codes "-", Tokens.sub)
    ∷ (codes "*", Tokens.mul)
    ∷ (codes "/", Tokens.div)
    ∷ (codes "%", Tokens.rem)
    ∷ (codes "(", Tokens.lparen)
    ∷ (codes ")", Tokens.rparen)
    ∷ (codes "?", Tokens.qmark)
    ∷ (codes ":", Tokens.colon)
    ∷ (codes ",", Tokens.comma)
    ∷ []

-- The `switch` on this byte, and the text behind it, agrees with the list.
abbrev Agrees : Bytes → ℕ → Type 0
Agrees buf c = operator c buf ≡ munch spellings (c ∷ buf)

by_byte : (c b : ℕ) (buf : Bytes) → Agrees buf b → ((c == b) ≡ false → Agrees buf c) → Agrees buf c
by_byte c b buf h k = elim (Bool-cases (c == b)) [
  | inl same ↦ subst (Agrees buf) (ground arith) h
  | inr other ↦ k other
]

at_gt : (buf : Bytes) → Agrees buf b'>'
unfolding operator munch
at_gt [] = refl
at_gt (d ∷ []) = ground arith
at_gt (d ∷ e ∷ s) = ground arith

at_lt : (buf : Bytes) → Agrees buf b'<'
unfolding operator munch
at_lt [] = refl
at_lt (d ∷ []) = ground arith
at_lt (d ∷ e ∷ s) = ground arith

at_or : (buf : Bytes) → Agrees buf b'|'
unfolding operator munch
at_or [] = refl
at_or (d ∷ s) = ground arith

at_and : (buf : Bytes) → Agrees buf b'&'
unfolding operator munch
at_and [] = refl
at_and (d ∷ s) = ground arith

at_add : (buf : Bytes) → Agrees buf b'+'
unfolding operator munch
at_add [] = refl
at_add (d ∷ s) = ground arith

at_sub : (buf : Bytes) → Agrees buf b'-'
unfolding operator munch
at_sub [] = refl
at_sub (d ∷ s) = ground arith

at_not : (buf : Bytes) → Agrees buf b'!'
unfolding operator munch
at_not [] = refl
at_not (d ∷ s) = ground arith

at_ass : (buf : Bytes) → Agrees buf b'='
unfolding operator munch
at_ass [] = refl
at_ass (d ∷ s) = ground arith

at_mul : (buf : Bytes) → Agrees buf b'*'
unfolding operator munch
at_mul [] = refl
at_mul (d ∷ s) = ground arith

at_div : (buf : Bytes) → Agrees buf b'/'
unfolding operator munch
at_div [] = refl
at_div (d ∷ s) = ground arith

at_rem : (buf : Bytes) → Agrees buf b'%'
unfolding operator munch
at_rem [] = refl
at_rem (d ∷ s) = ground arith

at_xor : (buf : Bytes) → Agrees buf b'^'
unfolding operator munch
at_xor [] = refl
at_xor (d ∷ s) = ground arith

at_bnot : (buf : Bytes) → Agrees buf b'~'
unfolding operator munch
at_bnot buf = refl

at_lparen : (buf : Bytes) → Agrees buf b'('
unfolding operator munch
at_lparen buf = refl

at_rparen : (buf : Bytes) → Agrees buf b')'
unfolding operator munch
at_rparen buf = refl

at_qmark : (buf : Bytes) → Agrees buf b'?'
unfolding operator munch
at_qmark buf = refl

at_colon : (buf : Bytes) → Agrees buf b':'
unfolding operator munch
at_colon buf = refl

at_comma : (buf : Bytes) → Agrees buf b','
unfolding operator munch
at_comma buf = refl

munch-skip :
    (c b : ℕ) (t : Bytes) (token : ℕ) (more : List (Bytes × ℕ)) (s : Bytes)
    → (c == b) ≡ false
    → munch ((b ∷ t, token) ∷ more) (c ∷ s) ≡ munch more (c ∷ s)
unfolding munch
munch-skip c b t token more s h = rw (munch, strip, h) refl

-- The `switch` on a byte and the text behind it finds the first entry of the list that they begin
-- with, or none if there is none.
pub operator-munch : (c : ℕ) (buf : Bytes) → operator c buf ≡ munch spellings (c ∷ buf)
unfolding operator munch
operator-munch c buf = by_byte c b'>' buf (at_gt buf) λ h_gt. by_byte c b'<' buf (at_lt buf) λ h_lt.
    by_byte c b'|' buf (at_or buf) λ h_or. by_byte c b'&' buf (at_and buf) λ h_and.
      by_byte c b'+' buf (at_add buf) λ h_add. by_byte c b'-' buf (at_sub buf) λ h_sub.
        by_byte c b'!' buf (at_not buf) λ h_not. by_byte c b'=' buf (at_ass buf) λ h_ass.
          by_byte c b'*' buf (at_mul buf) λ h_mul. by_byte c b'/' buf (at_div buf) λ h_div.
            by_byte c b'%' buf (at_rem buf) λ h_rem. by_byte c b'^' buf (at_xor buf) λ h_xor.
              by_byte c b'~' buf (at_bnot buf) λ h_bnot.
                by_byte c b'(' buf (at_lparen buf) λ h_lparen.
                  by_byte c b')' buf (at_rparen buf) λ h_rparen.
                    by_byte c b'?' buf (at_qmark buf) λ h_qmark.
                      by_byte c b':' buf (at_colon buf) λ h_colon.
                        by_byte c b',' buf (at_comma buf) λ h_comma.
                          rw
                            (
                              h_gt, h_lt, h_or, h_and, h_add, h_sub, h_not, h_ass, h_mul, h_div,
                              h_rem, h_xor, h_bnot, h_lparen, h_rparen, h_qmark, h_colon, h_comma,
                            )
                            (simp (
                              munch-skip, h_gt, h_lt, h_or, h_and, h_add, h_sub, h_not, h_ass,
                              h_mul, h_div, h_rem, h_xor, h_bnot, h_lparen, h_rparen, h_qmark,
                              h_colon, h_comma,
                            ))
