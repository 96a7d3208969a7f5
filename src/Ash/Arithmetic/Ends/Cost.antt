-- ===== src/Ash/Arithmetic/Ends/Cost.antt =====
-- ash/arithmetic.c: what a call of the evaluator may cost, and rules for its steps.
use minilib_ports.Common.{ℕ, suc, ◌+◌, ◌*◌, ◌≤◌, ◌≡◌, ◌≢◌, refl, arith, Bytes, length}
use minilib_ports.Ash.ArithToken.Consumes.{ReadsDigits, weight, Scanned, arith_token-Scanned}
use minilib_ports.Ash.ArithToken.Scan.{Scanner, arith_token}
use minilib_ports.Ash.ArithToken.Tokens.{TokenVal, val, name}
use minilib_ports.Ash.Arithmetic.Eval.{
  Call, primary, binop2, land, lor, cond, assignment, comma_list, comma_rest,
}
use minilib_ports.Ash.Arithmetic.Operators.{do_binop}
use minilib_ports.Ash.Arithmetic.Shell.{
  Shell, State, M, ◌>>=◌, lift, reader, token, word_of, name_of, arith_lookupvarint, assign,
}
use minilib_ports.Ash.Outcome.{Outcome, ok, err, no_fuel}

-- The computation does not run out of fuel, and if it returns, `Q` holds of what it returns.
abbrev pub Holds : {V A : Type 0} → (A → State V → Type 0) → Outcome (A × State V) → Type 0
Holds Q (ok r) = Q r.0 r.1
Holds Q (err e) = e ≢ no_fuel

module _ {V A B : Type 0} (Q : A → State V → Type 0) (R : B → State V → Type 0) where
  Holds-elim :
      (f : A → M V B) (r : Outcome (A × State V))
      → Holds Q r
      → ((a : A) (s' : State V) → Q a s' → Holds R (f a s'))
      → Holds R (elim r as (λ _. Outcome (B × State V)) [ err e ↦ err e | ok (a, s') ↦ f a s' ])
  Holds-elim f (ok (a, s')) h k = k a s' h
  Holds-elim f (err e) h k = h

  pub Holds-bind :
      (m : M V A) (f : A → M V B) (s : State V)
      → Holds Q (m s)
      → ((a : A) (s' : State V) → Q a s' → Holds R (f a s'))
      → Holds R ((m >>= f) s)
  Holds-bind m f s h k = Holds-elim f (m s) h k

-- The text that is left, and that with the last token.
abbrev pub mass : {V : Type 0} → State V → ℕ
mass s = length s.scanner.arith_buf

abbrev pub size : {V : Type 0} → State V → ℕ
size s = mass s + weight s.last_token

-- What a call has still to read: the text, and the tokens that it is given.
abbrev pub measure : {V : Type 0} → Call → State V → ℕ
measure (primary t v op noeval) s = mass s + weight t + weight op
measure (binop2 a op precedence noeval) s = suc (mass s)
measure (land t v op noeval) s = mass s + weight t + weight op
measure (lor t v op noeval) s = mass s + weight t + weight op
measure (cond t v op noeval) s = mass s + weight t + weight op
measure (assignment t noeval) s = mass s + weight t
measure (comma_list t noeval) s = mass s + weight t
measure (comma_rest result noeval) s = size s

-- How deep the calls go before a token is read.
abbrev pub rank : Call → ℕ
rank (primary t v op noeval) = 1
rank (binop2 a op precedence noeval) = 0
rank (land t v op noeval) = 3
rank (lor t v op noeval) = 4
rank (cond t v op noeval) = 5
rank (assignment t noeval) = 6
rank (comma_list t noeval) = 7
rank (comma_rest result noeval) = 0

abbrev pub cost : {V : Type 0} → Call → State V → ℕ
cost c s = 8 * measure c s + rank c

-- Every call but the loop's reads at least one token.
abbrev pub least : Call → ℕ
least (comma_rest result noeval) = 0
least (primary t v op noeval) = 1
least _ = 1

abbrev pub Good : {V : Type 0} → Call → State V → Outcome (ℕ × State V) → Type 0
Good c s r = Holds (λ _ s'. size s' + least c ≤ measure c s) r

-- The steps that do not scan.
abbrev pub Still : {V A : Type 0} → State V → Outcome (A × State V) → Type 0
Still s r = Holds (λ _ s'. (mass s' ≡ mass s) × (s'.last_token ≡ s.last_token)) r

module _ (sh : Shell) where
  pub token-Holds :
      ReadsDigits (reader sh)
      → (s : State sh.Vars)
      → Holds (λ t s'. (mass s' + weight t ≤ mass s) × (s'.last_token ≡ s.last_token)) (token sh s)
  unfolding token
  token-Holds reads s =
      by_outcome (arith_token (reader sh) s.scanner)
        (arith_token-Scanned (reader sh) reads s.scanner)
    where
      by_outcome :
          (r : Outcome (ℕ × Scanner))
          → Scanned (mass s) r
          → Holds {V = sh.Vars}
              (λ t s'. (mass s' + weight t ≤ mass s) × (s'.last_token ≡ s.last_token))
              (elim r [ err e ↦ err e | ok (t, scanner) ↦ ok (t, record s { scanner = scanner }) ])
      by_outcome (ok r) h = (h, refl)
      by_outcome (err e) h = h

  pub word_of-Still : (v : TokenVal) (s : State sh.Vars) → Still s (word_of sh v s)
  unfolding word_of
  word_of-Still (val w) s = (refl, refl)
  word_of-Still (name n) s = (refl, refl)

  pub name_of-Still : (v : TokenVal) (s : State sh.Vars) → Still s (name_of sh v s)
  unfolding name_of
  name_of-Still (val w) s = ground arith
  name_of-Still (name n) s = (refl, refl)

  pub arith_lookupvarint-Still :
      (n : Bytes) (s : State sh.Vars) → Still s (arith_lookupvarint sh n s)
  unfolding arith_lookupvarint
  arith_lookupvarint-Still n s = ground arith

  pub assign-Still : (n : Bytes) (w : ℕ) (s : State sh.Vars) → Still s (assign sh n w s)
  unfolding assign
  assign-Still n w s = ground arith

pub value_of-Still :
    (sh : Shell) (v : TokenVal) (s : State sh.Vars)
    → Still s ((name_of sh v >>= arith_lookupvarint sh) s)
unfolding name_of
value_of-Still sh (val w) s = ground arith
value_of-Still sh (name n) s = arith_lookupvarint-Still sh n s

pub do_binop-Still : {V : Type 0} (op a b : ℕ) (s : State V) → Still s (lift (do_binop op a b) s)
unfolding do_binop
do_binop-Still op a b s = ground arith
