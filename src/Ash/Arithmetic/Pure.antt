-- ===== src/Ash/Arithmetic/Pure.antt =====
-- ash/arithmetic.c: a part of an expression that is skipped (`noeval`) writes no variable.
use minilib_ports.Common.{ℕ, zero, suc, ◌≡◌, refl, subst, Bool, true, false, if◌then◌else◌, arith}
use minilib_ports.Ash.ArithToken.Tokens.{TokenVal, val, name}
use minilib_ports.Ash.Arithmetic.Eval.{
  Call, primary, binop2, land, lor, cond, assignment, comma_list, comma_rest, operand,
  primary_paren, primary_suffix, primary_var, primary_prefix, eval_primary, binop2_round,
  eval_binop2, binop, eval_and, eval_or, cond_else, eval_cond, eval_assignment, eval_comma_rest,
  eval_comma_list, eval, run,
}
use minilib_ports.Ash.Arithmetic.Shell.{
  Shell, State, M, ◌>>=◌, pure, arith_err, get_last, put_last, get_val, token, number_of, word_of,
}
use minilib_ports.Ash.Outcome.{Outcome, ok, err, Error}

-- If it returns, the variables are `vars`.
abbrev pub EndsWith : {V A : Type 0} → V → Outcome (A × State V) → Type 0
EndsWith vars (ok r) = r.1.vars ≡ vars
EndsWith vars (err e) = Unit

-- A computation that leaves the variables alone.
data KeepsVars {V A : Type 0} (m : M V A) : Type 0 where
  keeps : ((s : State V) → EndsWith s.vars (m s)) → KeepsVars m

kept : {V A : Type 0} {m : M V A} → KeepsVars m → (s : State V) → EndsWith s.vars (m s)
kept (keeps h) = h

EndsWith-elim :
    {V A B : Type 0} (vars : V) (f : A → M V B) (r : Outcome (A × State V))
    → EndsWith vars r
    → ((a : A) (s : State V) → EndsWith s.vars (f a s))
    → EndsWith vars (elim r as (λ _. Outcome (B × State V)) [ err e ↦ err e | ok (a, s') ↦ f a s' ])
EndsWith-elim vars f (ok (a, s)) e g = subst (λ v. EndsWith v (f a s)) e (g a s)
EndsWith-elim vars f (err e) h g = tt

KeepsVars-bind :
    {V A B : Type 0} (m : M V A) (f : A → M V B)
    → KeepsVars m
    → ((a : A) → KeepsVars (f a))
    → KeepsVars (m >>= f)
KeepsVars-bind m f h g = keeps λ s. EndsWith-elim s.vars f (m s) (kept h s) (λ a s'. kept (g a) s')

KeepsVars-if :
    {V A : Type 0} (b : Bool) (m m' : M V A)
    → KeepsVars m
    → KeepsVars m'
    → KeepsVars (if b then m else m')
KeepsVars-if true m m' h h' = h
KeepsVars-if false m m' h h' = h'

KeepsVars-pure : {V A : Type 0} (a : A) → KeepsVars {V = V} (pure a)
KeepsVars-pure a = keeps λ s. refl

KeepsVars-arith_err : {V A : Type 0} (e : Error) → KeepsVars {V = V} {A = A} (arith_err e)
KeepsVars-arith_err e = keeps λ s. tt

KeepsVars-get_last : {V : Type 0} → KeepsVars {V = V} get_last
KeepsVars-get_last = keeps λ s. refl

KeepsVars-get_val : {V : Type 0} → KeepsVars {V = V} get_val
KeepsVars-get_val = keeps λ s. refl

KeepsVars-put_last : {V : Type 0} (t : ℕ) → KeepsVars {V = V} (put_last t)
KeepsVars-put_last t = keeps λ s. refl

KeepsVars-token : (sh : Shell) → KeepsVars (token sh)
unfolding token
KeepsVars-token sh = keeps λ s. ground arith

KeepsVars-word_of : (sh : Shell) (v : TokenVal) → KeepsVars (word_of sh v)
unfolding word_of
KeepsVars-word_of sh (val w) = keeps λ s. refl
KeepsVars-word_of sh (name n) = keeps λ s. refl

KeepsVars-number_of : {V : Type 0} (v : TokenVal) → KeepsVars {V = V} (number_of v)
unfolding number_of
KeepsVars-number_of (val w) = keeps λ s. refl
KeepsVars-number_of (name n) = keeps λ s. tt

ruleset keeping = (
  KeepsVars-number_of, KeepsVars-bind, KeepsVars-if, KeepsVars-pure, KeepsVars-arith_err,
  KeepsVars-get_last, KeepsVars-get_val, KeepsVars-put_last, KeepsVars-token, KeepsVars-word_of,
)

-- Whether a call is made with `noeval`.
abbrev pub skipping : Call → Bool
skipping (primary t v op noeval) = noeval
skipping (binop2 a op precedence noeval) = noeval
skipping (land t v op noeval) = noeval
skipping (lor t v op noeval) = noeval
skipping (cond t v op noeval) = noeval
skipping (assignment t noeval) = noeval
skipping (comma_list t noeval) = noeval
skipping (comma_rest result noeval) = noeval

module _ (sh : Shell) (self : Call → M sh.Vars ℕ)
    (ih : (c : Call) → skipping c ≡ true → KeepsVars (self c)) where
  paren-KeepsVars : (op : ℕ) → KeepsVars (primary_paren sh self op true)
  unfolding primary_paren
  paren-KeepsVars op = search (keeping, ih) depth 8

  suffix-KeepsVars :
      (v : TokenVal) (op result : ℕ) → KeepsVars (primary_suffix sh self v op true result)
  unfolding primary_suffix
  suffix-KeepsVars v op result = search (keeping, ih) depth 12

  var-KeepsVars : (v : TokenVal) (op : ℕ) → KeepsVars (primary_var sh self v op true)
  unfolding primary_var
  var-KeepsVars v op = search (keeping, ih, suffix-KeepsVars) depth 12

  prefix-KeepsVars :
      (t : ℕ) (v : TokenVal) (op : ℕ) → KeepsVars (primary_prefix sh self t v op true)
  unfolding primary_prefix
  prefix-KeepsVars t v op = search (keeping, ih) depth 12

  operand-KeepsVars : (op : ℕ) → KeepsVars (operand sh self op true)
  operand-KeepsVars op = search (keeping, ih) depth 12

  primary-KeepsVars : (t : ℕ) (v : TokenVal) (op : ℕ) → KeepsVars (eval_primary sh self t v op true)
  unfolding eval_primary
  primary-KeepsVars t v op =
      search (keeping, ih, paren-KeepsVars, var-KeepsVars, prefix-KeepsVars, operand-KeepsVars)
        depth 12

  round-KeepsVars :
      (a op precedence b : ℕ) → KeepsVars (binop2_round sh self a op precedence true b)
  unfolding binop2_round
  round-KeepsVars a op precedence b = search (keeping, ih) depth 12

  binop2-KeepsVars : (a op precedence : ℕ) → KeepsVars (eval_binop2 sh self a op precedence true)
  unfolding eval_binop2
  binop2-KeepsVars a op precedence = search (keeping, ih, round-KeepsVars) depth 12

  binop-KeepsVars : (t : ℕ) (v : TokenVal) (op : ℕ) → KeepsVars (binop sh self t v op true)
  unfolding binop
  binop-KeepsVars t v op = search (keeping, ih) depth 12

  land-KeepsVars : (t : ℕ) (v : TokenVal) (op : ℕ) → KeepsVars (eval_and sh self t v op true)
  unfolding eval_and
  land-KeepsVars t v op = search (keeping, ih, binop-KeepsVars) depth 12

  lor-KeepsVars : (t : ℕ) (v : TokenVal) (op : ℕ) → KeepsVars (eval_or sh self t v op true)
  unfolding eval_or
  lor-KeepsVars t v op = search (keeping, ih) depth 12

  else-KeepsVars : (a b : ℕ) → KeepsVars (cond_else sh self a b true)
  unfolding cond_else
  else-KeepsVars a b = search (keeping, ih) depth 12

  cond-KeepsVars : (t : ℕ) (v : TokenVal) (op : ℕ) → KeepsVars (eval_cond sh self t v op true)
  unfolding eval_cond
  cond-KeepsVars t v op = search (keeping, ih, else-KeepsVars) depth 12

  assignment-KeepsVars : (t : ℕ) → KeepsVars (eval_assignment sh self t true)
  unfolding eval_assignment
  assignment-KeepsVars t = search (keeping, ih) depth 12

  comma_rest-KeepsVars : (result : ℕ) → KeepsVars (eval_comma_rest sh self result true)
  unfolding eval_comma_rest
  comma_rest-KeepsVars result = search (keeping, ih) depth 12

  comma_list-KeepsVars : (t : ℕ) → KeepsVars (eval_comma_list sh self t true)
  unfolding eval_comma_list
  comma_list-KeepsVars t = search (keeping, ih) depth 12

  eval-KeepsVars : (c : Call) → skipping c ≡ true → KeepsVars (eval sh self c)
  unfolding eval
  eval-KeepsVars (primary t v op noeval) e = rw e (primary-KeepsVars t v op)
  eval-KeepsVars (binop2 a op precedence noeval) e = rw e (binop2-KeepsVars a op precedence)
  eval-KeepsVars (land t v op noeval) e = rw e (land-KeepsVars t v op)
  eval-KeepsVars (lor t v op noeval) e = rw e (lor-KeepsVars t v op)
  eval-KeepsVars (cond t v op noeval) e = rw e (cond-KeepsVars t v op)
  eval-KeepsVars (assignment t noeval) e = rw e (assignment-KeepsVars t)
  eval-KeepsVars (comma_list t noeval) e = rw e (comma_list-KeepsVars t)
  eval-KeepsVars (comma_rest result noeval) e = rw e (comma_rest-KeepsVars result)

run-KeepsVars : (sh : Shell) (fuel : ℕ) (c : Call) → skipping c ≡ true → KeepsVars (run sh fuel c)
unfolding run
run-KeepsVars sh zero c e = keeps λ s. tt
run-KeepsVars sh (suc fuel) c e =
    keeps λ s. kept (eval-KeepsVars sh (run sh fuel) (run-KeepsVars sh fuel) c e) s

-- A part of an expression that is evaluated with `noeval` leaves every variable as it was, if it
-- returns: the assignments and the increments in it are not made.
pub run-skipping :
    (sh : Shell) (fuel : ℕ) (c : Call) (s : State sh.Vars)
    → skipping c ≡ true
    → EndsWith s.vars (run sh fuel c s)
run-skipping sh fuel c s e = kept (run-KeepsVars sh fuel c e) s
