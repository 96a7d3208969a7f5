-- ===== src/Ash/Arithmetic/Eval.antt =====
-- ash/arithmetic.c: the evaluator by recursive descent. The functions call one another, so each
-- takes `self`, which makes a call of any of them; `run` ties the knot on fuel. A `val` that is
-- passed by its address is passed by value: no caller reads it again before it is written.
use minilib_ports.Common.{
  ℕ, zero, suc, ◌+◌, ◌-◌, ◌*◌, ◌%◌, ◌^◌, Bool, false, not, ◌&&◌, ◌||◌, [], ◌∷◌, leb, ltb, ◌==◌,
  if◌then◌else◌, Bytes, head_byte, tail_bytes, length,
}
use minilib_ports.Common.Word.{word_mod, minus_one, negate, flag}
use minilib_ports.Ash.ArithToken.Tokens
use minilib_ports.Ash.ArithToken.Tokens.{TokenVal, val, name}
use minilib_ports.Ash.Arithmetic.Operators.{
  arith_max_prec, arith_prec, higher_prec, is_binop, do_binop,
}
use minilib_ports.Ash.Arithmetic.Shell.{
  Shell, M, ◌>>=◌, ◌>>◌, pure, arith_err, lift, get_last, put_last, get_val, token, number_of,
  word_of, name_of, arith_lookupvarint, assign,
}
use minilib_ports.Ash.Outcome.{
  err, expecting_rparen, expecting_colon, expecting_primary, expecting_end, needs_var_name, no_fuel,
}

-- A call of one of the functions. `comma_rest` is the loop of `comma_list`, and `binop2` also
-- stands for a later round of its own loop.
pub data Call : Type 0 where
  primary : ℕ → TokenVal → ℕ → Bool → Call
  binop2 : ℕ → ℕ → ℕ → Bool → Call
  land lor cond : ℕ → TokenVal → ℕ → Bool → Call
  assignment comma_list comma_rest : ℕ → Bool → Call

-- `op` is an assignment operator.
unfoldable pub is_assignment : ℕ → Bool
is_assignment op = op == Tokens.ass || leb Tokens.ass_min op && ltb op Tokens.ass_max

module _ (sh : Shell) (self : Call → M sh.Vars ℕ) where
  -- The operand of a prefix operator, whose token is followed by `op`.
  abbrev pub operand : ℕ → Bool → M sh.Vars ℕ
  operand op noeval = do v ← get_val; op' ← token sh; self (primary op v op' noeval)

  -- `case ARITH_LPAREN`
  unfoldable pub primary_paren : ℕ → Bool → M sh.Vars ℕ
  primary_paren op noeval = do
    result ← self (comma_list op noeval)
    last ← get_last
    if last == Tokens.rparen
        then (do t ← token sh; put_last t; pure result)
        else arith_err expecting_rparen

  -- `case ARITH_VAR` behind the value of the variable
  unfoldable pub primary_suffix : TokenVal → ℕ → Bool → ℕ → M sh.Vars ℕ
  primary_suffix v op noeval result =
      if op == Tokens.incr || op == Tokens.decr
      then (do
        t ← token sh
        put_last t
        if noeval then word_of sh v else (do
          n ← name_of sh v
          assign sh n ((result + (if op == Tokens.incr then 1 else minus_one)) % word_mod)
          pure result))
      else (do put_last op; pure result)

  unfoldable pub primary_var : TokenVal → ℕ → Bool → M sh.Vars ℕ
  primary_var v op noeval = do
    result ← if noeval then word_of sh v else (do n ← name_of sh v; arith_lookupvarint sh n)
    primary_suffix v op noeval result

  -- `case ARITH_INCR`, `case ARITH_DECR`: `a_t_val` is read behind the scan of one more token.
  unfoldable pub primary_prefix : ℕ → TokenVal → ℕ → Bool → M sh.Vars ℕ
  primary_prefix t v op noeval =
      if op == Tokens.var
      then (do
        next ← token sh
        put_last next
        if noeval then word_of sh v else (do
          now ← get_val
          n ← name_of sh now
          old ← arith_lookupvarint sh n
          let result = (old + (if t == Tokens.incr then 1 else minus_one)) % word_mod
          assign sh n result
          pure result))
      else arith_err needs_var_name

  unfoldable pub eval_primary : ℕ → TokenVal → ℕ → Bool → M sh.Vars ℕ
  eval_primary t v op noeval =
      if t == Tokens.lparen
      then primary_paren op noeval
      else if t == Tokens.num
      then (do put_last op; number_of v)
      else if t == Tokens.var
      then primary_var v op noeval
      else if t == Tokens.add
      then operand op noeval
      else if t == Tokens.sub
      then (do b ← operand op noeval; pure (negate b))
      else if t == Tokens.lnot
      then (do b ← operand op noeval; pure (flag (b == 0)))
      else if t == Tokens.bnot
      then (do b ← operand op noeval; pure (minus_one - b))
      else if t == Tokens.incr || t == Tokens.decr
      then primary_prefix t v op noeval
      else arith_err expecting_primary

  -- The end of a round of `binop2`: its operand `b` is complete, and `op2` is the last token.
  unfoldable pub binop2_round : ℕ → ℕ → ℕ → Bool → ℕ → M sh.Vars ℕ
  binop2_round a op precedence noeval b = do
    op2 ← get_last
    a' ← if noeval then pure b else lift (do_binop op a b)
    if not (is_binop op2) || leb precedence (arith_prec op2)
        then pure a'
        else self (binop2 a' op2 precedence noeval)

  unfoldable pub eval_binop2 : ℕ → ℕ → ℕ → Bool → M sh.Vars ℕ
  eval_binop2 a op precedence noeval = do
    t ← token sh
    v ← get_val
    next ← token sh
    b ← self (primary t v next noeval)
    op2 ← get_last
    b' ←
        if is_binop op2 && higher_prec op2 op
        then self (binop2 b op2 (arith_prec op) noeval)
        else pure b
    binop2_round a op precedence noeval b'

  unfoldable pub binop : ℕ → TokenVal → ℕ → Bool → M sh.Vars ℕ
  binop t v op noeval = do
    a ← self (primary t v op noeval)
    op' ← get_last
    if is_binop op' then self (binop2 a op' arith_max_prec noeval) else pure a

  unfoldable pub eval_and : ℕ → TokenVal → ℕ → Bool → M sh.Vars ℕ
  eval_and t v op noeval = do
    a ← binop t v op noeval
    op' ← get_last
    if op' == Tokens.land
        then (do
          t' ← token sh
          v' ← get_val
          next ← token sh
          b ← self (land t' v' next (noeval || a == 0))
          pure (flag (not (a == 0) && not (b == 0))))
        else pure a

  unfoldable pub eval_or : ℕ → TokenVal → ℕ → Bool → M sh.Vars ℕ
  eval_or t v op noeval = do
    a ← self (land t v op noeval)
    op' ← get_last
    if op' == Tokens.lor
        then (do
          t' ← token sh
          v' ← get_val
          next ← token sh
          b ← self (lor t' v' next (noeval || not (a == 0)))
          pure (flag (not (a == 0) || not (b == 0))))
        else pure a

  -- From the `:` on.
  unfoldable pub cond_else : ℕ → ℕ → Bool → M sh.Vars ℕ
  cond_else a b noeval = do
    colon ← get_last
    if colon == Tokens.colon
        then (do
          t' ← token sh
          v' ← get_val
          next ← token sh
          c ← self (cond t' v' next (noeval || not (a == 0)))
          pure (if a == 0 then c else b))
        else arith_err expecting_colon

  unfoldable pub eval_cond : ℕ → TokenVal → ℕ → Bool → M sh.Vars ℕ
  eval_cond t v op noeval = do
    a ← self (lor t v op noeval)
    op' ← get_last
    if op' == Tokens.qmark
        then (do var ← token sh; b ← self (assignment var (noeval || a == 0)); cond_else a b noeval)
        else pure a

  -- The store at the end of an assignment.
  unfoldable pub assign_result : TokenVal → ℕ → ℕ → M sh.Vars ℕ
  assign_result v op result = do
    n ← name_of sh v
    if op == Tokens.ass then (do assign sh n result; pure result) else (do
      old ← arith_lookupvarint sh n
      w ← lift (do_binop (op - Tokens.ass_gap) old result)
      assign sh n w
      pure w)

  unfoldable pub eval_assignment : ℕ → Bool → M sh.Vars ℕ
  eval_assignment var noeval = do
    v ← get_val
    op ← token sh
    if var == Tokens.var && is_assignment op
        then (do
          t ← token sh
          result ← self (assignment t noeval)
          if noeval then pure result else assign_result v op result)
        else self (cond var v op noeval)

  unfoldable pub eval_comma_rest : ℕ → Bool → M sh.Vars ℕ
  eval_comma_rest result noeval = do
    last ← get_last
    if last == Tokens.comma
        then (do
          t ← token sh
          result' ← self (assignment t noeval)
          self (comma_rest result' noeval))
        else pure result

  unfoldable pub eval_comma_list : ℕ → Bool → M sh.Vars ℕ
  eval_comma_list t noeval = do result ← self (assignment t noeval); self (comma_rest result noeval)

  unfoldable pub eval : Call → M sh.Vars ℕ
  eval (primary t v op noeval) = eval_primary t v op noeval
  eval (binop2 a op precedence noeval) = eval_binop2 a op precedence noeval
  eval (land t v op noeval) = eval_and t v op noeval
  eval (lor t v op noeval) = eval_or t v op noeval
  eval (cond t v op noeval) = eval_cond t v op noeval
  eval (assignment var noeval) = eval_assignment var noeval
  eval (comma_list t noeval) = eval_comma_list t noeval
  eval (comma_rest result noeval) = eval_comma_rest result noeval

-- The functions call one another `fuel` deep at most.
unfoldable pub run : (sh : Shell) → ℕ → Call → M sh.Vars ℕ
run sh zero c s = err no_fuel
run sh (suc fuel) c s = eval sh (run sh fuel) c s

-- Whether `LIN` stands in the text, as it does in `LINENO`.
unfoldable pub mentions_lin : Bytes → Bool
mentions_lin [] = false
mentions_lin (c ∷ s) =
    c == b'L' && head_byte s == b'I' && head_byte (tail_bytes s) == b'N' || mentions_lin s

unfoldable pub newlines : Bytes → ℕ
newlines [] = 0
newlines (c ∷ s) = (if c == b'\n' then 1 else 0) + newlines s

-- `arith_lno` as the scan begins; an `int`, as a 32-bit pattern.
unfoldable pub start_lno : Bytes → ℕ → ℕ
unfolding mentions_lin newlines
start_lno s lno = if mentions_lin s then (lno + 2 ^ 32 - newlines s % 2 ^ 32) % 2 ^ 32 else lno

-- Enough for every expression of this length.
abbrev pub arith_fuel : Bytes → ℕ
arith_fuel s = 8 * length s + 9

-- `arith`; the state is what an earlier call has left in the globals.
unfoldable pub arith_from : (sh : Shell) → ℕ → Bytes → ℕ → M sh.Vars ℕ
unfolding start_lno
arith_from sh fuel s lno st =
    (do
      t ← token sh
      result ← run sh fuel (comma_list t false)
      last ← get_last
      if last == Tokens.bad then pure result else arith_err expecting_end)
      (record st { scanner = record st.scanner { arith_buf = s; arith_lno = start_lno s lno } })

unfoldable pub arith : (sh : Shell) → Bytes → ℕ → M sh.Vars ℕ
unfolding arith_from
arith sh s = arith_from sh (arith_fuel s) s
