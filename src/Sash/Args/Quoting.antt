-- ===== src/Sash/Args/Quoting.antt =====
-- sash-3.8/utils.c: what `makeArgs` makes of arguments that are quoted.
use minilib_ports.Common.{
  ℕ, zero, suc, ◌+◌, ◌≤◌, ◌<◌, ◌≡◌, refl, ap, ◌∙◌, Bool, true, false, ◌||◌, List, [], ◌∷◌, ◌++◌,
  arith, Option, none, some, leb, ltb, if◌then◌else◌, Bytes, length, append-nil, length-append,
}
use minilib_ports.Sash.Args.{
  Collected, store, collect, is_wildcard, skip_blanks, argument_names, copy_table, args_loop,
  make_args, max_arg, max_cmd_length,
}
use minilib_ports.Sash.Outcome.{Outcome, ok, stop, ◌>>=◌, exit_max_args}

-- A backslash before each byte.
unfoldable pub escape : Bytes → Bytes
escape [] = []
escape (c ∷ s) = b'\\' ∷ c ∷ escape s

-- An empty argument is a pair of quotation marks.
unfoldable pub quote_arg : Bytes → Bytes
unfolding escape
quote_arg [] = b'"' ∷ b'"' ∷ []
quote_arg (c ∷ s) = escape (c ∷ s)

-- A command from arguments.
unfoldable pub command : List Bytes → Bytes
unfolding quote_arg
command [] = []
command (arg ∷ []) = quote_arg arg
command (arg ∷ more ∷ args) = quote_arg arg ++ b' ' ∷ command (more ∷ args)

-- What stands in front of the argument that is collected.
abbrev before : Bytes → Outcome Collected → Outcome Collected
before [] r = r
before (c ∷ s) r = store c (before s r)

abbrev some_wildcard : Bool → Bytes → Bool
some_wildcard q [] = q
some_wildcard q (c ∷ s) = some_wildcard (q || is_wildcard c) s

collect-escape :
    (q u : Bool) (s cp : Bytes)
    → collect 0 q u (escape s ++ cp) ≡ before s (collect 0 (some_wildcard q s) u cp)
unfolding collect escape
collect-escape q u [] cp = refl
collect-escape q u (c ∷ s) cp = ap (store c) (collect-escape (q || is_wildcard c) u s cp)

or_false : (b : Bool) → (b || false || false) ≡ b
or_false true = refl
or_false false = refl

collect-quotes : (q u : Bool) (cp : Bytes) → collect 0 q u (b'"' ∷ b'"' ∷ cp) ≡ collect 0 q u cp
unfolding collect
collect-quotes q u [] = rw (or_false q, or_false u) refl
collect-quotes q u (c ∷ cp) = rw (or_false q, or_false u) refl

-- A quoted argument up to the end of the command, and in front of a space.
taken : Bool → Bytes → Bytes → Outcome Collected
taken q arg cp =
    ok (record { argument = arg; quoted_wildcards = q; unquoted_wildcards = false; rest = cp })

before-taken : (q : Bool) (s arg cp : Bytes) → before s (taken q arg cp) ≡ taken q (s ++ arg) cp
unfolding taken
before-taken q [] arg cp = refl
before-taken q (c ∷ s) arg cp = ap (store c) (before-taken q s arg cp)

-- Where an argument ends: at the end of the command, or at a space.
abbrev rest_of : Option Bytes → Bytes
rest_of none = []
rest_of (some cp) = cp

abbrev ending : Option Bytes → Bytes
ending none = []
ending (some cp) = b' ' ∷ cp

collect-ending :
    (q : Bool) (e : Option Bytes) → collect 0 q false (ending e) ≡ taken q [] (rest_of e)
unfolding collect taken
collect-ending q none = refl
collect-ending q (some []) = refl
collect-ending q (some (c ∷ cp)) = refl

collect-quote_arg :
    (arg : Bytes) (e : Option Bytes)
    → collect 0 false false (quote_arg arg ++ ending e)
      ≡ taken (some_wildcard false arg) arg (rest_of e)
unfolding quote_arg
collect-quote_arg [] e = collect-quotes false false (ending e) ∙ collect-ending false e
collect-quote_arg (c ∷ s) e =
    collect-escape false false (c ∷ s) (ending e)
    ∙ (rw (collect-ending (some_wildcard false (c ∷ s)) e)
        (before-taken (some_wildcard false (c ∷ s)) (c ∷ s) [] (rest_of e) ∙ (rw append-nil refl)))

-- A quoted argument begins with no blank.
skip_blanks-quote_arg : (arg cp : Bytes) → skip_blanks (quote_arg arg ++ cp) ≡ quote_arg arg ++ cp
unfolding skip_blanks quote_arg
skip_blanks-quote_arg [] cp = refl
skip_blanks-quote_arg (c ∷ s) cp = refl

skip_blanks-command : (args : List Bytes) → skip_blanks (command args) ≡ command args
unfolding command skip_blanks
skip_blanks-command [] = refl
skip_blanks-command ([] ∷ []) = refl
skip_blanks-command ((c ∷ s) ∷ []) = refl
skip_blanks-command (arg ∷ more ∷ args) = skip_blanks-quote_arg arg (b' ' ∷ command (more ∷ args))

module _ (directory : Bytes → Option (List Bytes)) where
  -- What the loop does with a collected argument.
  abbrev onward : ℕ → ℕ → Collected → Outcome (List Bytes)
  onward fuel n r = do
    names ← argument_names directory r
    if leb max_arg (n + length names) then stop exit_max_args else (do
      copied ← copy_table r names
      later ← args_loop directory fuel (n + length names) (skip_blanks r.rest)
      ok (copied ++ later))

  onward-taken :
      (q : Bool) (fuel n : ℕ) (arg cp : Bytes)
      → n + 1 < max_arg
      → (taken q arg cp >>= onward fuel n)
        ≡ (args_loop directory fuel (n + 1) (skip_blanks cp) >>= λ later. ok (arg ∷ later))
  unfolding argument_names copy_table taken
  onward-taken true fuel n arg cp h =
      let fits : leb max_arg (n + 1) ≡ false = ground arith in rw (onward, fits) refl
  onward-taken false fuel n arg cp h =
      let fits : leb max_arg (n + 1) ≡ false = ground arith in rw (onward, fits) refl

  args_loop-quote_arg :
      (fuel n : ℕ) (arg : Bytes) (e : Option Bytes)
      → n + 1 < max_arg
      → args_loop directory (suc fuel) n (quote_arg arg ++ ending e)
        ≡ (args_loop directory fuel (n + 1) (skip_blanks (rest_of e)) >>= λ later. ok (arg ∷ later))
  unfolding args_loop quote_arg
  args_loop-quote_arg fuel n [] e h =
      ap (λ r. r >>= onward fuel n) (collect-quote_arg [] e)
      ∙ onward-taken false fuel n [] (rest_of e) h
  args_loop-quote_arg fuel n (c ∷ s) e h =
      ap (λ r. r >>= onward fuel n) (collect-quote_arg (c ∷ s) e)
      ∙ onward-taken (some_wildcard false (c ∷ s)) fuel n (c ∷ s) (rest_of e) h

  args_loop-command :
      (fuel n : ℕ) (args : List Bytes)
      → length args < fuel
      → n + length args < max_arg
      → args_loop directory fuel n (command args) ≡ ok args
  unfolding command args_loop
  args_loop-command zero n args h k = absurd (omega arith)
  args_loop-command (suc fuel) n [] h k = refl
  args_loop-command (suc fuel) n (arg ∷ []) h k =
      let last : args_loop directory (suc fuel) n (quote_arg arg ++ [])
          ≡ (args_loop directory fuel (n + 1) (skip_blanks []) >>= λ later. ok (arg ∷ later)) =
        args_loop-quote_arg fuel n arg none (omega arith) in
      rw (← append-nil (quote_arg arg))
        (last ∙ (rw (args_loop-command fuel (n + 1) [] (omega arith) (omega arith)) refl))
  args_loop-command (suc fuel) n (arg ∷ more ∷ args) h k =
      args_loop-quote_arg fuel n arg (some (command (more ∷ args))) (omega arith)
      ∙ (rw
          (
            skip_blanks-command (more ∷ args),
            args_loop-command fuel (n + 1) (more ∷ args) (omega arith) (omega arith),
          )
          refl)

length-command : (args : List Bytes) → length args ≤ length (command args)
unfolding command quote_arg escape
length-command [] = omega arith
length-command ([] ∷ []) = omega arith
length-command ((c ∷ s) ∷ []) = omega arith
length-command ([] ∷ more ∷ args) = omega (arith, length-command (more ∷ args))
length-command ((c ∷ s) ∷ more ∷ args) =
    omega
      (arith, length-command (more ∷ args), length-append (escape s) (b' ' ∷ command (more ∷ args)))

-- For arguments that are quoted and joined by spaces, whatever bytes they have, `makeArgs` ends, with
-- the arguments in its table when it returns, if there are fewer than 256 and the command fits its
-- buffer. No directory is read.
pub make_args-command :
    (directory : Bytes → Option (List Bytes)) (args : List Bytes)
    → length args < max_arg
    → length (command args) < max_cmd_length
    → make_args directory (command args) ≡ ok args
unfolding make_args
make_args-command directory args h k =
    let fits : ltb max_cmd_length (length (command args) + 1) ≡ false = ground arith in
    rw (make_args, fits)
      (args_loop-command directory (length (command args) + 1) 0 args
        (omega (arith, length-command args)) (omega arith))
