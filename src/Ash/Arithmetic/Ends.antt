-- ===== src/Ash/Arithmetic/Ends.antt =====
-- ash/arithmetic.c: the evaluator ends on every expression.
pub mod Cost
pub mod Steps
pub mod Calls
use minilib_ports.Common.{
  ℕ, zero, suc, ◌+◌, ◌*◌, ◌≤◌, ◌<◌, ◌≡◌, ◌≢◌, refl, ap, ◌∙◌, ◌⊎◌, Bool, true, false, inl, inr,
  arith, ◌==◌, Bool-cases, if◌then◌else◌, Bytes, length,
}
use minilib_ports.Ash.ArithToken.Consumes.{ReadsDigits, weight}
use minilib_ports.Ash.ArithToken.Tokens
use minilib_ports.Ash.Arithmetic.Ends.Cost.{Holds, Holds-bind, size, mass, cost, Good, token-Holds}
use minilib_ports.Ash.Arithmetic.Ends.Calls.{eval-Good}
use minilib_ports.Ash.Arithmetic.Eval.{
  Call, comma_list, eval, run, arith as evaluate, start_lno, arith_from, arith_fuel,
}
use minilib_ports.Ash.Arithmetic.Shell.{
  Shell, State, M, ◌>>=◌, pure, arith_err, get_last, reader, token,
}
use minilib_ports.Ash.Outcome.{Outcome, ok, err, Error, expecting_end, no_fuel}

module _ (sh : Shell) (reads : ReadsDigits (reader sh)) where
  run-Good :
      (fuel : ℕ) (c : Call) (s : State sh.Vars) → cost c s < fuel → Good c s (run sh fuel c s)
  unfolding run
  run-Good zero c s h = absurd (omega arith)
  run-Good (suc fuel) c s h =
      eval-Good sh reads (run sh fuel) fuel (run-Good fuel) c s (omega arith)

  -- Behind the first token.
  arith_from-Holds :
      (s : Bytes) (st : State sh.Vars)
      → length st.scanner.arith_buf ≡ length s
      → Holds
          (λ _ _. Unit)
          ((token sh >>= λ t. run sh (arith_fuel s) (comma_list t false) >>= λ result.
              get_last >>= λ last.
              if last == Tokens.bad then pure result else arith_err expecting_end)
            st)
  arith_from-Holds s st e =
      Holds-bind (λ t s'. (mass s' + weight t ≤ mass st) × (s'.last_token ≡ st.last_token))
        (λ _ _. Unit) (token sh) _ st (token-Holds sh reads st)
        λ t s' p.
          Holds-bind (λ _ s''. size s'' + 1 ≤ mass s' + weight t) (λ _ _. Unit)
            (run sh (arith_fuel s) (comma_list t false)) _ s'
            (run-Good (arith_fuel s) (comma_list t false) s' (omega arith))
            λ result s'' q. ground arith

  enough : (s : Bytes) (lno : ℕ) (st : State sh.Vars) → evaluate sh s lno st ≢ err no_fuel
  unfolding evaluate
  enough s lno st e =
      (rw e at
        (arith_from-Holds s
          (record st { scanner = record st.scanner { arith_buf = s; arith_lno = start_lno s lno } })
          refl)
        refl)

  -- If `strtoimax` reads the digit that it is called at: whatever the expression and the state, `arith`
  -- ends, in a value and a state, or in an error other than the want of fuel. That is an error of
  -- the shell, or `fault`, where the pointer of a name is read as a number or a number as a pointer.
  pub arith-ends :
      (s : Bytes) (lno : ℕ) (st : State sh.Vars)
      → ((r : ℕ × State sh.Vars) × (evaluate sh s lno st ≡ ok r))
        ⊎ ((e : Error) × (evaluate sh s lno st ≡ err e) × (e ≢ no_fuel))
  unfolding evaluate
  arith-ends s lno st = by_outcome (evaluate sh s lno st) refl
    where
      by_outcome :
          (o : Outcome (ℕ × State sh.Vars))
          → evaluate sh s lno st ≡ o
          → ((r : ℕ × State sh.Vars) × (evaluate sh s lno st ≡ ok r))
            ⊎ ((e : Error) × (evaluate sh s lno st ≡ err e) × (e ≢ no_fuel))
      by_outcome (ok r) h = inl (r, h)
      by_outcome (err e) h = inr (e, h, λ lost. enough s lno st (h ∙ ap err lost))
