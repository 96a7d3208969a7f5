-- ===== src/Ash/Arithmetic/Blind/Skipped.antt =====
-- ash/arithmetic.c: what is skipped ends in the same state, whatever the pointers are.
use minilib_ports.Common.{ℕ, ◌≡◌, refl, true, Bytes}
use minilib_ports.Ash.ArithToken.Tokens.{TokenVal}
use minilib_ports.Ash.Arithmetic.Blind.Rules.{
  readdress, Blind, blindness, Same-token, Blind-word_of,
}
use minilib_ports.Ash.Arithmetic.Eval.{
  Call, primary, binop2, land, lor, cond, assignment, comma_list, comma_rest, operand,
  primary_paren, primary_suffix, primary_var, primary_prefix, eval_primary, binop2_round,
  eval_binop2, binop, eval_and, eval_or, cond_else, eval_cond, eval_assignment, eval_comma_rest,
  eval_comma_list, eval,
}
use minilib_ports.Ash.Arithmetic.Pure.{skipping}
use minilib_ports.Ash.Arithmetic.Shell.{Shell, M}

-- The same call, with another number where a skipped call is given one.
abbrev pub twin : ℕ → Call → Call
twin w (binop2 a op precedence noeval) = binop2 w op precedence noeval
twin w (comma_rest result noeval) = comma_rest w noeval
twin w (primary t v op noeval) = primary t v op noeval
twin w c = c

module _ (sh : Shell) (address : Bytes → Bytes → ℕ) (self : Call → M sh.Vars ℕ)
    (self' : Call → M sh.Vars ℕ)
    (ih : (c : Call) (w : ℕ) → skipping c ≡ true → Blind (self c) (self' (twin w c))) where
  call-primary :
      (t : ℕ) (v : TokenVal) (op : ℕ)
      → Blind (self (primary t v op true)) (self' (primary t v op true))
  call-primary t v op = ih (primary t v op true) 0 refl

  call-binop2 :
      (a a' op precedence : ℕ)
      → Blind (self (binop2 a op precedence true)) (self' (binop2 a' op precedence true))
  call-binop2 a a' op precedence = ih (binop2 a op precedence true) a' refl

  call-land :
      (t : ℕ) (v : TokenVal) (op : ℕ) → Blind (self (land t v op true)) (self' (land t v op true))
  call-land t v op = ih (land t v op true) 0 refl

  call-lor :
      (t : ℕ) (v : TokenVal) (op : ℕ) → Blind (self (lor t v op true)) (self' (lor t v op true))
  call-lor t v op = ih (lor t v op true) 0 refl

  call-cond :
      (t : ℕ) (v : TokenVal) (op : ℕ) → Blind (self (cond t v op true)) (self' (cond t v op true))
  call-cond t v op = ih (cond t v op true) 0 refl

  call-assignment : (t : ℕ) → Blind (self (assignment t true)) (self' (assignment t true))
  call-assignment t = ih (assignment t true) 0 refl

  call-comma_list : (t : ℕ) → Blind (self (comma_list t true)) (self' (comma_list t true))
  call-comma_list t = ih (comma_list t true) 0 refl

  call-comma_rest : (r r' : ℕ) → Blind (self (comma_rest r true)) (self' (comma_rest r' true))
  call-comma_rest r r' = ih (comma_rest r true) r' refl

  paren-Blind :
      (op : ℕ)
      → Blind (primary_paren sh self op true) (primary_paren (readdress sh address) self' op true)
  unfolding primary_paren
  paren-Blind op =
      search (blindness, Same-token sh address, Blind-word_of sh address, call-comma_list) depth 12

  suffix-Blind :
      (v : TokenVal) (op r r' : ℕ)
      → Blind
          (primary_suffix sh self v op true r)
          (primary_suffix (readdress sh address) self' v op true r')
  unfolding primary_suffix
  suffix-Blind v op r r' =
      search (blindness, Same-token sh address, Blind-word_of sh address, call-primary) depth 12

  var-Blind :
      (v : TokenVal) (op : ℕ)
      → Blind (primary_var sh self v op true) (primary_var (readdress sh address) self' v op true)
  unfolding primary_var
  var-Blind v op =
      search (blindness, Same-token sh address, Blind-word_of sh address, suffix-Blind) depth 12

  prefix-Blind :
      (t : ℕ) (v : TokenVal) (op : ℕ)
      → Blind
          (primary_prefix sh self t v op true)
          (primary_prefix (readdress sh address) self' t v op true)
  unfolding primary_prefix
  prefix-Blind t v op =
      search (blindness, Same-token sh address, Blind-word_of sh address, call-primary) depth 12

  operand-Blind :
      (op : ℕ) → Blind (operand sh self op true) (operand (readdress sh address) self' op true)
  operand-Blind op =
      search (blindness, Same-token sh address, Blind-word_of sh address, call-primary) depth 12

  primary-Blind :
      (t : ℕ) (v : TokenVal) (op : ℕ)
      → Blind
          (eval_primary sh self t v op true)
          (eval_primary (readdress sh address) self' t v op true)
  unfolding eval_primary
  primary-Blind t v op =
      search
        (
          blindness,
          Same-token sh address,
          Blind-word_of sh address,
          paren-Blind,
          var-Blind,
          prefix-Blind,
          operand-Blind,
        )
        depth 12

  round-Blind :
      (a a' op precedence b b' : ℕ)
      → Blind
          (binop2_round sh self a op precedence true b)
          (binop2_round (readdress sh address) self' a' op precedence true b')
  unfolding binop2_round
  round-Blind a a' op precedence b b' =
      search (blindness, Same-token sh address, Blind-word_of sh address, call-binop2) depth 12

  binop2-Blind :
      (a a' op precedence : ℕ)
      → Blind
          (eval_binop2 sh self a op precedence true)
          (eval_binop2 (readdress sh address) self' a' op precedence true)
  unfolding eval_binop2
  binop2-Blind a a' op precedence =
      search
        (
          blindness,
          Same-token sh address,
          Blind-word_of sh address,
          call-primary,
          call-binop2,
          round-Blind,
        )
        depth 12

  binop-Blind :
      (t : ℕ) (v : TokenVal) (op : ℕ)
      → Blind (binop sh self t v op true) (binop (readdress sh address) self' t v op true)
  unfolding binop
  binop-Blind t v op =
      search (blindness, Same-token sh address, Blind-word_of sh address, call-primary, call-binop2)
        depth 12

  land-Blind :
      (t : ℕ) (v : TokenVal) (op : ℕ)
      → Blind (eval_and sh self t v op true) (eval_and (readdress sh address) self' t v op true)
  unfolding eval_and
  land-Blind t v op =
      search (blindness, Same-token sh address, Blind-word_of sh address, call-land, binop-Blind)
        depth 12

  lor-Blind :
      (t : ℕ) (v : TokenVal) (op : ℕ)
      → Blind (eval_or sh self t v op true) (eval_or (readdress sh address) self' t v op true)
  unfolding eval_or
  lor-Blind t v op =
      search (blindness, Same-token sh address, Blind-word_of sh address, call-land, call-lor) depth
        12

  else-Blind :
      (a a' b b' : ℕ)
      → Blind (cond_else sh self a b true) (cond_else (readdress sh address) self' a' b' true)
  unfolding cond_else
  else-Blind a a' b b' =
      search (blindness, Same-token sh address, Blind-word_of sh address, call-cond) depth 12

  cond-Blind :
      (t : ℕ) (v : TokenVal) (op : ℕ)
      → Blind (eval_cond sh self t v op true) (eval_cond (readdress sh address) self' t v op true)
  unfolding eval_cond
  cond-Blind t v op =
      search
        (
          blindness,
          Same-token sh address,
          Blind-word_of sh address,
          call-lor,
          call-assignment,
          else-Blind,
        )
        depth 12

  assignment-Blind :
      (t : ℕ)
      → Blind (eval_assignment sh self t true) (eval_assignment (readdress sh address) self' t true)
  unfolding eval_assignment
  assignment-Blind t =
      search
        (blindness, Same-token sh address, Blind-word_of sh address, call-assignment, call-cond)
        depth 12

  comma_rest-Blind :
      (r r' : ℕ)
      → Blind
          (eval_comma_rest sh self r true)
          (eval_comma_rest (readdress sh address) self' r' true)
  unfolding eval_comma_rest
  comma_rest-Blind r r' =
      search
        (
          blindness,
          Same-token sh address,
          Blind-word_of sh address,
          call-assignment,
          call-comma_rest,
        )
        depth 12

  comma_list-Blind :
      (t : ℕ)
      → Blind (eval_comma_list sh self t true) (eval_comma_list (readdress sh address) self' t true)
  unfolding eval_comma_list
  comma_list-Blind t =
      search
        (
          blindness,
          Same-token sh address,
          Blind-word_of sh address,
          call-assignment,
          call-comma_rest,
        )
        depth 12

  pub eval-Blind :
      (c : Call) (w : ℕ)
      → skipping c ≡ true
      → Blind (eval sh self c) (eval (readdress sh address) self' (twin w c))
  unfolding eval
  eval-Blind (primary t v op noeval) w e = rw e (primary-Blind t v op)
  eval-Blind (binop2 a op precedence noeval) w e = rw e (binop2-Blind a w op precedence)
  eval-Blind (land t v op noeval) w e = rw e (land-Blind t v op)
  eval-Blind (lor t v op noeval) w e = rw e (lor-Blind t v op)
  eval-Blind (cond t v op noeval) w e = rw e (cond-Blind t v op)
  eval-Blind (assignment t noeval) w e = rw e (assignment-Blind t)
  eval-Blind (comma_list t noeval) w e = rw e (comma_list-Blind t)
  eval-Blind (comma_rest r noeval) w e = rw e (comma_rest-Blind r w)
