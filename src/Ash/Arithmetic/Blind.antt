-- ===== src/Ash/Arithmetic/Blind.antt =====
-- ash/arithmetic.c: where a name was scanned and a number is read, the code reads a pointer. The
-- value of an expression does not depend on it.
pub mod Rules
pub mod Skipped
pub mod Live
use minilib_ports.Common.{ℕ, zero, suc, ◌≡◌, refl, true, false, ◌==◌, if◌then◌else◌, Bytes}
use minilib_ports.Ash.ArithToken.Tokens
use minilib_ports.Ash.Arithmetic.Blind.Live.{eval-Same}
use minilib_ports.Ash.Arithmetic.Blind.Rules.{
  readdress, Same, same, Same-apply, Blind, blind, Blind-apply, Same-refl, Same-bind, Same-if,
  sameness, Same-token,
}
use minilib_ports.Ash.Arithmetic.Blind.Skipped.{twin, eval-Blind}
use minilib_ports.Ash.Arithmetic.Eval.{
  Call, comma_list, run, arith_fuel, start_lno, arith_from, arith as evaluate,
}
use minilib_ports.Ash.Arithmetic.Pure.{skipping}
use minilib_ports.Ash.Arithmetic.Shell.{Shell, State, ◌>>=◌, pure, arith_err, get_last, token}
use minilib_ports.Ash.Outcome.{expecting_end}

module _ (sh : Shell) (address : Bytes → Bytes → ℕ) where
  run-Blind :
      (fuel : ℕ) (c : Call) (w : ℕ)
      → skipping c ≡ true
      → Blind (run sh fuel c) (run (readdress sh address) fuel (twin w c))
  unfolding run
  run-Blind zero c w e = blind λ s. refl
  run-Blind (suc fuel) c w e = blind λ s.
      Blind-apply
        (eval-Blind sh address (run sh fuel) (run (readdress sh address) fuel) (run-Blind fuel) c w
          e)
        s

  run-Same :
      (fuel : ℕ) (c : Call)
      → skipping c ≡ false
      → Same (run sh fuel c) (run (readdress sh address) fuel c)
  unfolding run
  run-Same zero c e = same λ s. refl
  run-Same (suc fuel) c e = same λ s.
      Same-apply
        (eval-Same sh address (run sh fuel) (run (readdress sh address) fuel) (run-Blind fuel)
          (run-Same fuel) c e)
        s

  list-Same :
      (fuel t : ℕ)
      → Same
          (run sh fuel (comma_list t false))
          (run (readdress sh address) fuel (comma_list t false))
  list-Same fuel t = run-Same fuel (comma_list t false) refl

  body-Same :
      (fuel : ℕ)
      → Same
          (do
            t ← token sh
            result ← run sh fuel (comma_list t false)
            last ← get_last
            if last == Tokens.bad then pure result else arith_err expecting_end)
          (do
            t ← token (readdress sh address)
            result ← run (readdress sh address) fuel (comma_list t false)
            last ← get_last
            if last == Tokens.bad then pure result else arith_err expecting_end)
  body-Same fuel = search (sameness, Same-token sh address, list-Same fuel) depth 12

  -- The value of `arith`, the state that it ends in and its error do not depend on what number a
  -- pointer to a name is.
  pub arith_same :
      (s : Bytes) (lno : ℕ) (st : State sh.Vars)
      → evaluate sh s lno st ≡ evaluate (readdress sh address) s lno st
  unfolding evaluate arith_from
  arith_same s lno st = Same-apply (body-Same (arith_fuel s)) _
