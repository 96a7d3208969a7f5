-- ===== src/Ash/Arithmetic/Blind/Live.antt =====
-- ash/arithmetic.c: what is evaluated does not depend on the pointers, if what is skipped in it
-- ends in the same state.
use minilib_ports.Common.{
  ℕ, ◌≡◌, refl, Bool, true, false, not, ◌&&◌, ◌||◌, ◌==◌, if◌then◌else◌, Bytes,
}
use minilib_ports.Common.Word.{flag}
use minilib_ports.Ash.ArithToken.Tokens.{TokenVal}
use minilib_ports.Ash.Arithmetic.Blind.Rules.{
  readdress, Same, Blind, Same-refl, Same-bind, Blind-Same, sameness, Same-token, Same-name_of,
  Same-lookup, Same-assign,
}
use minilib_ports.Ash.Arithmetic.Blind.Skipped.{twin}
use minilib_ports.Ash.Arithmetic.Eval.{
  Call, primary, binop2, land, lor, cond, assignment, comma_list, comma_rest, operand,
  primary_paren, primary_suffix, primary_var, primary_prefix, eval_primary, binop2_round,
  eval_binop2, binop, eval_and, eval_or, cond_else, eval_cond, assign_result, eval_assignment,
  eval_comma_rest, eval_comma_list, eval,
}
use minilib_ports.Ash.Arithmetic.Pure.{skipping}
use minilib_ports.Ash.Arithmetic.Shell.{Shell, M, ◌>>=◌, pure}

module _ (sh : Shell) (address : Bytes → Bytes → ℕ) (self : Call → M sh.Vars ℕ)
    (self' : Call → M sh.Vars ℕ)
    (skip : (c : Call) (w : ℕ) → skipping c ≡ true → Blind (self c) (self' (twin w c)))
    (ih : (c : Call) → skipping c ≡ false → Same (self c) (self' c)) where
  and_right :
      (z : Bool) (t : ℕ) (v : TokenVal) (op : ℕ)
      → Same
          (self (land t v op z) >>= λ b. pure (flag (not z && not (b == 0))))
          (self' (land t v op z) >>= λ b. pure (flag (not z && not (b == 0))))
  and_right true t v op = Blind-Same _ _ _ _ (skip (land t v op true) 0 refl) (λ b b'. Same-refl _)
  and_right false t v op = Same-bind _ _ _ _ (ih (land t v op false) refl) (λ b. Same-refl _)

  or_right :
      (z : Bool) (t : ℕ) (v : TokenVal) (op : ℕ)
      → Same
          (self (lor t v op z) >>= λ b. pure (flag (z || not (b == 0))))
          (self' (lor t v op z) >>= λ b. pure (flag (z || not (b == 0))))
  or_right true t v op = Blind-Same _ _ _ _ (skip (lor t v op true) 0 refl) (λ b b'. Same-refl _)
  or_right false t v op = Same-bind _ _ _ _ (ih (lor t v op false) refl) (λ b. Same-refl _)

  -- The last arm of `cond`, which is skipped unless the condition is zero (`z`).
  else_right :
      (z : Bool) (b b' : ℕ) (t : ℕ) (v : TokenVal) (op : ℕ)
      → (z ≡ false → b ≡ b')
      → Same
          (self (cond t v op (not z)) >>= λ c. pure (if z then c else b))
          (self' (cond t v op (not z)) >>= λ c. pure (if z then c else b'))
  else_right true b b' t v op e = Same-bind _ _ _ _ (ih (cond t v op false) refl) (λ c. Same-refl _)
  else_right false b b' t v op e =
      Blind-Same _ _ _ _ (skip (cond t v op true) 0 refl) (λ c c'. rw (e refl) (Same-refl _))

  else-Same :
      (a b b' : ℕ)
      → ((a == 0) ≡ false → b ≡ b')
      → Same (cond_else sh self a b false) (cond_else (readdress sh address) self' a b' false)
  unfolding cond_else
  else-Same a b b' e = search (sameness, Same-token sh address, else_right (a == 0) b b') depth 12

  cond_arms :
      (z : Bool) (a var : ℕ)
      → (a == 0) ≡ z
      → Same
          (self (assignment var z) >>= λ b. cond_else sh self a b false)
          (self' (assignment var z) >>= λ b. cond_else (readdress sh address) self' a b false)
  cond_arms true a var e =
      Blind-Same _ _ _ _ (skip (assignment var true) 0 refl) λ b b'. else-Same a b b' (λ n. cc)
  cond_arms false a var e =
      Same-bind _ _ _ _ (ih (assignment var false) refl) λ b. else-Same a b b (λ _. refl)

  paren-Same :
      (op : ℕ)
      → Same (primary_paren sh self op false) (primary_paren (readdress sh address) self' op false)
  unfolding primary_paren
  paren-Same op = search (sameness, ih, Same-token sh address) depth 12

  suffix-Same :
      (v : TokenVal) (op r : ℕ)
      → Same
          (primary_suffix sh self v op false r)
          (primary_suffix (readdress sh address) self' v op false r)
  unfolding primary_suffix
  suffix-Same v op r =
      search (sameness, ih, Same-token sh address, Same-name_of sh address, Same-assign sh address)
        depth 12

  var-Same :
      (v : TokenVal) (op : ℕ)
      → Same (primary_var sh self v op false) (primary_var (readdress sh address) self' v op false)
  unfolding primary_var
  var-Same v op =
      search
        (
          sameness,
          ih,
          Same-token sh address,
          suffix-Same,
          Same-name_of sh address,
          Same-lookup sh address,
        )
        depth 12

  prefix-Same :
      (t : ℕ) (v : TokenVal) (op : ℕ)
      → Same
          (primary_prefix sh self t v op false)
          (primary_prefix (readdress sh address) self' t v op false)
  unfolding primary_prefix
  prefix-Same t v op =
      search
        (
          sameness,
          ih,
          Same-token sh address,
          Same-name_of sh address,
          Same-lookup sh address,
          Same-assign sh address,
        )
        depth 12

  operand-Same :
      (op : ℕ) → Same (operand sh self op false) (operand (readdress sh address) self' op false)
  operand-Same op = search (sameness, ih, Same-token sh address) depth 12

  -- With ARITH_NUM a number is read, never a pointer.
  primary-Same :
      (t : ℕ) (v : TokenVal) (op : ℕ)
      → Same
          (eval_primary sh self t v op false)
          (eval_primary (readdress sh address) self' t v op false)
  unfolding eval_primary
  primary-Same t v op = search (sameness, paren-Same, var-Same, prefix-Same, operand-Same) depth 12

  round-Same :
      (a op precedence b : ℕ)
      → Same
          (binop2_round sh self a op precedence false b)
          (binop2_round (readdress sh address) self' a op precedence false b)
  unfolding binop2_round
  round-Same a op precedence b = search (sameness, ih, Same-token sh address) depth 12

  binop2-Same :
      (a op precedence : ℕ)
      → Same
          (eval_binop2 sh self a op precedence false)
          (eval_binop2 (readdress sh address) self' a op precedence false)
  unfolding eval_binop2
  binop2-Same a op precedence = search (sameness, ih, Same-token sh address, round-Same) depth 12

  binop-Same :
      (t : ℕ) (v : TokenVal) (op : ℕ)
      → Same (binop sh self t v op false) (binop (readdress sh address) self' t v op false)
  unfolding binop
  binop-Same t v op = search (sameness, ih, Same-token sh address) depth 12

  land-Same :
      (t : ℕ) (v : TokenVal) (op : ℕ)
      → Same (eval_and sh self t v op false) (eval_and (readdress sh address) self' t v op false)
  unfolding eval_and
  land-Same t v op = search (sameness, ih, Same-token sh address, binop-Same, and_right) depth 12

  lor-Same :
      (t : ℕ) (v : TokenVal) (op : ℕ)
      → Same (eval_or sh self t v op false) (eval_or (readdress sh address) self' t v op false)
  unfolding eval_or
  lor-Same t v op = search (sameness, ih, Same-token sh address, or_right) depth 12

  cond-Same :
      (t : ℕ) (v : TokenVal) (op : ℕ)
      → Same (eval_cond sh self t v op false) (eval_cond (readdress sh address) self' t v op false)
  unfolding eval_cond
  cond-Same t v op = search (sameness, ih, Same-token sh address, cond_arms) depth 12

  result-Same :
      (v : TokenVal) (op r : ℕ)
      → Same (assign_result sh self v op r) (assign_result (readdress sh address) self' v op r)
  unfolding assign_result
  result-Same v op r =
      search
        (
          sameness,
          ih,
          Same-token sh address,
          Same-name_of sh address,
          Same-lookup sh address,
          Same-assign sh address,
        )
        depth 12

  assignment-Same :
      (t : ℕ)
      → Same
          (eval_assignment sh self t false)
          (eval_assignment (readdress sh address) self' t false)
  unfolding eval_assignment
  assignment-Same t = search (sameness, ih, Same-token sh address, result-Same) depth 12

  comma_rest-Same :
      (r : ℕ)
      → Same
          (eval_comma_rest sh self r false)
          (eval_comma_rest (readdress sh address) self' r false)
  unfolding eval_comma_rest
  comma_rest-Same r = search (sameness, ih, Same-token sh address) depth 12

  comma_list-Same :
      (t : ℕ)
      → Same
          (eval_comma_list sh self t false)
          (eval_comma_list (readdress sh address) self' t false)
  unfolding eval_comma_list
  comma_list-Same t = search (sameness, ih, Same-token sh address) depth 12

  pub eval-Same :
      (c : Call) → skipping c ≡ false → Same (eval sh self c) (eval (readdress sh address) self' c)
  unfolding eval
  eval-Same (primary t v op noeval) e = rw e (primary-Same t v op)
  eval-Same (binop2 a op precedence noeval) e = rw e (binop2-Same a op precedence)
  eval-Same (land t v op noeval) e = rw e (land-Same t v op)
  eval-Same (lor t v op noeval) e = rw e (lor-Same t v op)
  eval-Same (cond t v op noeval) e = rw e (cond-Same t v op)
  eval-Same (assignment t noeval) e = rw e (assignment-Same t)
  eval-Same (comma_list t noeval) e = rw e (comma_list-Same t)
  eval-Same (comma_rest r noeval) e = rw e (comma_rest-Same r)
