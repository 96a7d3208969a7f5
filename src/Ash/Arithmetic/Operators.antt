-- ===== src/Ash/Arithmetic/Operators.antt =====
-- ash/arithmetic.c: precedences and the binary operators, over `intmax_t` as 64-bit patterns.
-- Overflow of the signed operators wraps, as the casts to `uintmax_t` make it.
use Prim.Native.Nat.{bit_and, bit_or, bit_xor}
use minilib_ports.Common.{
  ℕ, ◌+◌, ◌-◌, ◌*◌, ◌%◌, ◌^◌, Bool, not, ◌&&◌, ◌||◌, List, [], ◌∷◌, ltb, leb, ◌==◌, if◌then◌else◌,
  get_or,
}
use minilib_ports.Common.Word.{
  word_mod, intmax_min, minus_one, signed_lt, signed_div, signed_mod, signed_shr, flag,
}
use minilib_ports.Ash.ArithToken.Tokens
use minilib_ports.Ash.Outcome.{Outcome, ok, err, token_error, division_by_zero, divide_error}

-- The table `prec`, from `ARITH_BINOP_MIN` on.
abbrev pub prec : List ℕ
prec = 3 ∷ 3 ∷ 3 ∷ 3 ∷ 4 ∷ 0 ∷ 5 ∷ 2 ∷ 2 ∷ 0 ∷ 1 ∷ 7 ∷ 1 ∷ 6 ∷ 0 ∷ 4 ∷ []

abbrev pub arith_max_prec : ℕ
arith_max_prec = 8

unfoldable pub arith_prec : ℕ → ℕ
arith_prec op = get_or prec (op - Tokens.binop_min) 0

unfoldable pub higher_prec : ℕ → ℕ → Bool
unfolding arith_prec
higher_prec op1 op2 = ltb (arith_prec op1) (arith_prec op2)

-- `op >= ARITH_BINOP_MIN && op < ARITH_BINOP_MAX`
unfoldable pub is_binop : ℕ → Bool
is_binop op = leb Tokens.binop_min op && ltb op Tokens.binop_max

-- The low six bits of a shift count.
abbrev pub shift_count : ℕ → ℕ
shift_count b = b % 64

unfoldable pub do_binop : ℕ → ℕ → ℕ → Outcome ℕ
do_binop op a b =
    if op == Tokens.rem || op == Tokens.div
    then (if b == 0
        then err division_by_zero
        else if a == intmax_min && b == minus_one
        then err divide_error
        else ok (if op == Tokens.rem then signed_mod a b else signed_div a b))
    else if op == Tokens.mul
    then ok (a * b % word_mod)
    else if op == Tokens.add
    then ok ((a + b) % word_mod)
    else if op == Tokens.sub
    then ok ((a + word_mod - b) % word_mod)
    else if op == Tokens.lshift
    then ok (a * 2 ^ shift_count b % word_mod)
    else if op == Tokens.rshift
    then ok (signed_shr a (shift_count b))
    else if op == Tokens.lt
    then ok (flag (signed_lt a b))
    else if op == Tokens.le
    then ok (flag (not (signed_lt b a)))
    else if op == Tokens.gt
    then ok (flag (signed_lt b a))
    else if op == Tokens.ge
    then ok (flag (not (signed_lt a b)))
    else if op == Tokens.eq
    then ok (flag (a == b))
    else if op == Tokens.ne
    then ok (flag (not (a == b)))
    else if op == Tokens.band
    then ok (bit_and a b)
    else if op == Tokens.bxor
    then ok (bit_xor a b)
    else if op == Tokens.bor
    then ok (bit_or a b)
    else err token_error
