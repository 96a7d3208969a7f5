-- ===== src/Ash/Arithmetic/Division.antt =====
-- ash/arithmetic.c: division and remainder in `do_binop`.
use native.Mathlib.Nat.{div-add-mod, mod-lt}
use minilib_ports.Common.{
  ℕ, ◌+◌, ◌*◌, ◌/◌, ◌%◌, ◌≤◌, ◌<◌, ◌≡◌, ◌≢◌, Bool, true, false, ◌&&◌, ◌⊎◌, inl, inr, arith, ◌==◌,
  Bool-cases,
}
use minilib_ports.Common.Word.{
  word_mod, intmax_min, minus_one, is_negative, magnitude, negate, differ, signed_div, signed_mod,
}
use minilib_ports.Ash.ArithToken.Tokens
use minilib_ports.Ash.Arithmetic.Operators.{do_binop}
use minilib_ports.Ash.Outcome.{ok}

-- Quotient and remainder as C has them: the absolute values divide, the quotient is negative if
-- the signs differ, and the remainder has the sign of the dividend.
pub record Divides (a b q r : ℕ) : Type 0 where
  pub magnitudes : magnitude a ≡ magnitude b * magnitude q + magnitude r
  pub small : magnitude r < magnitude b
  pub quotient_sign : (q ≡ 0) ⊎ (is_negative q ≡ differ (is_negative a) (is_negative b))
  pub remainder_sign : (r ≡ 0) ⊎ (is_negative r ≡ is_negative a)

magnitude-le : (a : ℕ) → a < word_mod → magnitude a ≤ intmax_min
magnitude-le a h = ground arith

magnitude-pos : (b : ℕ) → b < word_mod → b ≢ 0 → 0 < magnitude b
magnitude-pos b h n = ground arith

-- A magnitude with its sign put on.
signed : Bool → ℕ → ℕ
signed true m = negate m
signed false m = m

magnitude-signed :
    (s : Bool) (m : ℕ) → m ≤ intmax_min → (s ≡ false → m < intmax_min) → magnitude (signed s m) ≡ m
unfolding signed
magnitude-signed true m h k = ground arith
magnitude-signed false m h k = ground arith

signed-sign :
    (s : Bool) (m : ℕ)
    → m ≤ intmax_min
    → (s ≡ false → m < intmax_min)
    → (signed s m ≡ 0) ⊎ (is_negative (signed s m) ≡ s)
unfolding signed
signed-sign true m h k = ground arith
signed-sign false m h k = ground arith

div-le : (m n : ℕ) → m / n ≤ m
div-le m n = grind arith

mod-le : (m n : ℕ) → m % n ≤ m
mod-le m n = grind arith

div-lt : (m n : ℕ) → 2 ≤ n → 0 < m → m / n < m
div-lt m n h k = grind arith

module _ (a b : ℕ) (ha : a < word_mod) (hb : b < word_mod) (pos : b ≢ 0)
    (fits : (a == intmax_min && b == minus_one) ≡ false) where
  quotient-fits :
      differ (is_negative a) (is_negative b) ≡ false → magnitude a / magnitude b < intmax_min
  quotient-fits e = elim (Bool-cases (a == intmax_min)) [
    | inl least ↦ ground (arith, div-lt (magnitude a) (magnitude b), magnitude-pos b hb pos)
    | inr other ↦ ground (arith, div-le (magnitude a) (magnitude b))
  ]

  quotient : magnitude (signed_div a b) ≡ magnitude a / magnitude b
  quotient = ground (
    arith,
    magnitude-signed (differ (is_negative a) (is_negative b)) (magnitude a / magnitude b),
    div-le (magnitude a) (magnitude b),
    magnitude-le a ha,
    quotient-fits,
  )

  remainder : magnitude (signed_mod a b) ≡ magnitude a % magnitude b
  remainder = ground (
    arith,
    magnitude-signed (is_negative a) (magnitude a % magnitude b),
    mod-le (magnitude a) (magnitude b),
    magnitude-le a ha,
  )

  -- For 64-bit words with a divisor other than 0, and not the least number by -1, both operators
  -- return, and the results are the quotient and the remainder as C defines them.
  pub do_binop-Divides :
      (do_binop Tokens.div a b ≡ ok (signed_div a b))
      × (do_binop Tokens.rem a b ≡ ok (signed_mod a b))
      × Divides a b (signed_div a b) (signed_mod a b)
  unfolding do_binop
  do_binop-Divides = (
    ground arith,
    ground arith,
    record {
      magnitudes =
          rw (quotient, remainder) (ground (arith, div-add-mod (magnitude a) (magnitude b)));
      small = rw remainder (mod-lt (magnitude a) (magnitude-pos b hb pos));
      quotient_sign = ground (
        arith,
        signed-sign (differ (is_negative a) (is_negative b)) (magnitude a / magnitude b),
        div-le (magnitude a) (magnitude b),
        magnitude-le a ha,
        quotient-fits,
      );
      remainder_sign = ground (
        arith,
        signed-sign (is_negative a) (magnitude a % magnitude b),
        mod-le (magnitude a) (magnitude b),
        magnitude-le a ha,
      );
    },
  )
