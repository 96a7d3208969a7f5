-- ===== src/Ash/Arithmetic/Tests.antt =====
-- Runs of `arith` in a shell with a list of variables, and the theorems at concrete expressions.
use minilib_ports.Common.{
  ◌⊎◌, ◌≢◌, ℕ, zero, suc, ◌+◌, ◌-◌, ◌/◌, ◌%◌, ◌≡◌, ◌≢◌, refl, true, false, List, [], ◌∷◌, Option,
  none, some, ltb, arith, if◌then◌else◌, Bytes, codes, equal,
}
use minilib_ports.Common.Word.{word_mod, minus_one, signed_div, signed_mod}
use minilib_ports.Ash.ArithToken.Consumes.{ReadsDigits}
use minilib_ports.Ash.ArithToken.Tests.{decimal, decimal-ReadsDigits, scanner_runs}
use minilib_ports.Ash.ArithToken.Tokens
use minilib_ports.Ash.ArithToken.Tokens.{TokenVal, val, name}
use minilib_ports.Ash.Arithmetic.Blind.{arith_same}
use minilib_ports.Ash.Arithmetic.Blind.Rules.{readdress}
use minilib_ports.Ash.Arithmetic.Division.{Divides, do_binop-Divides}
use minilib_ports.Ash.Arithmetic.Ends.{arith-ends}
use minilib_ports.Ash.Arithmetic.Eval.{
  assignment, primary_paren, primary_suffix, primary_var, primary_prefix, eval_primary,
  binop2_round, eval_binop2, binop, eval_and, eval_or, cond_else, eval_cond, assign_result,
  is_assignment, eval_assignment, eval_comma_rest, eval_comma_list, eval, run, arith as evaluate,
}
use minilib_ports.Ash.Arithmetic.Operators.{higher_prec, is_binop, do_binop}
use minilib_ports.Ash.Arithmetic.Pure.{EndsWith, run-skipping}
use minilib_ports.Ash.Arithmetic.Shell.{
  Shell, State, reader, number_of, token, word_of, name_of, arith_lookupvarint, assign,
}
use minilib_ports.Ash.Outcome.{
  Outcome, Error, ok, err, fault, no_fuel, division_by_zero, expecting_end,
}

abbrev Store : Type 0
Store = List (Bytes × Bytes)

lookup : Bytes → Store → Option Bytes
lookup n [] = none
lookup n ((m, v) ∷ store) = if equal n m then some v else lookup n store

-- The decimal digits of a number.
digits : ℕ → ℕ → Bytes → Bytes
digits zero n rest = rest
digits (suc k) n rest =
    let more = digits k (n / 10) ((n % 10 + b'0') ∷ rest) in
    if ltb n 10 then (n + b'0') ∷ rest else more

-- The numbers of this shell have no sign.
abbrev shell : Shell
shell = record {
  Vars = Store;
  lookupvar = λ lno n store. lookup n store;
  setvar = λ n v store. some ((n, v) ∷ store);
  uflag = false;
  strtoimax = λ s. let (v, end) = decimal s in (v, end, false);
  format = λ n. digits 20 n [];
  address = λ n rest. 4096;
}

abbrev start : Store → State Store
start store = record {
  scanner = record { arith_buf = []; a_t_val = val 0; arith_lno = 0; arith_var_lno = 0 };
  last_token = 0;
  vars = store;
}

-- The value and the variables that an expression ends with.
abbrev result : Outcome (ℕ × State Store) → Outcome (ℕ × Store)
result (ok r) = ok (r.0, r.1.vars)
result (err e) = err e

-- Everything that a run computes with.
evaluator_runs : Unit {0}
unfolding number_of scanner_runs lookup digits equal token word_of name_of arith_lookupvarint assign
    do_binop higher_prec is_binop eval_and is_assignment assign_result primary_paren primary_suffix
    primary_var primary_prefix eval_primary binop2_round eval_binop2 binop eval_or cond_else
    eval_cond eval_assignment eval_comma_rest eval_comma_list eval run evaluate
evaluator_runs = tt

abbrev value : Bytes → Store → Outcome (ℕ × Store)
value s store = result (evaluate shell s 1 (start store))

precedence : value (codes "2+3*4-1<<1") [] ≡ ok (26, [])
unfolding evaluator_runs
precedence = refl

left_to_right : value (codes "100-10-1") [] ≡ ok (89, [])
unfolding evaluator_runs
left_to_right = refl

assignments :
    value (codes "x = 4, x += 3, x * (1 ? x : 2)") []
    ≡ ok (49, (codes "x", codes "7") ∷ (codes "x", codes "4") ∷ [])
unfolding evaluator_runs
assignments = refl

-- The right side of `||` is evaluated, as the left one is 0.
no_short_circuit : value (codes "0 && (x = 5) || 1/0 && 0") [] ≡ err division_by_zero
unfolding evaluator_runs
no_short_circuit = refl

-- What is skipped is scanned and not evaluated.
skipped : value (codes "0 && (x = 5 / 0)") [] ≡ ok (0, [])
unfolding evaluator_runs
skipped = refl

-- `++` reads the name behind the scan of the next token.
increment_of_next : value (codes "++x y") [] ≡ err expecting_end
unfolding evaluator_runs
increment_of_next = refl

increment_fault : value (codes "++x 5") [] ≡ err fault
unfolding evaluator_runs
increment_fault = refl

wraps : value (codes "0-1") [] ≡ ok (minus_one, [])
unfolding evaluator_runs
wraps = refl

reads_digits : ReadsDigits (reader shell)
reads_digits = decimal-ReadsDigits

arith-ends_example :
    ((r : ℕ × State Store) × (evaluate shell (codes "((1+x)*2") 1 (start []) ≡ ok r))
    ⊎ ((e : Error) × (evaluate shell (codes "((1+x)*2") 1 (start []) ≡ err e) × (e ≢ no_fuel))
arith-ends_example = arith-ends shell reads_digits (codes "((1+x)*2") 1 (start [])

abbrev text : State Store
text = record {
  scanner = record {
    arith_buf = codes "=5";
    a_t_val = name (codes "x");
    arith_lno = 0;
    arith_var_lno = 0;
  };
  last_token = 0;
  vars = [];
}

run-skipping_example : EndsWith [] (run shell 30 (assignment Tokens.var true) text)
run-skipping_example = run-skipping shell 30 (assignment Tokens.var true) text refl

arith_same_example :
    evaluate shell (codes "0 && (x + 1) || y") 1 (start [])
    ≡ evaluate (readdress shell λ n rest. 0) (codes "0 && (x + 1) || y") 1 (start [])
arith_same_example = arith_same shell (λ n rest. 0) (codes "0 && (x + 1) || y") 1 (start [])

-- Minus 7 by 2: minus 3, and minus 1 is left.
do_binop-Divides_example :
    (do_binop Tokens.div (word_mod - 7) 2 ≡ ok (signed_div (word_mod - 7) 2))
    × (do_binop Tokens.rem (word_mod - 7) 2 ≡ ok (signed_mod (word_mod - 7) 2))
    × Divides (word_mod - 7) 2 (signed_div (word_mod - 7) 2) (signed_mod (word_mod - 7) 2)
do_binop-Divides_example =
    do_binop-Divides (word_mod - 7) 2 (omega arith) (omega arith) (omega arith) refl
