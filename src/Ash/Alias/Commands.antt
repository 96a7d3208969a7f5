-- ===== src/Ash/Alias/Commands.antt =====
-- ash/alias.c: `list_aliases` and the built-in commands `alias` and `unalias`.
-- What they print is a list of lines; `print_quoted` of ash/var.c is left to the reader of a line.

use minilib_ports.Common.{
  ℕ, zero, suc, true, false, List, [], ◌∷◌, ◌++◌, Option, none, some, ◌==◌, if◌then◌else◌, Bytes,
  codes, length,
}
use minilib_ports.Ash.Alias.Chain.{Alias, Chain}
use minilib_ports.Ash.Alias.Table.{
  Table, setalias, lookupalias, rmaliases, countaliases, collect, unalias_all,
}
use minilib_ports.Ash.Options.{OptState, nextopt}
use minilib_ports.Ash.Outcome.{Outcome, ok, err, alias_count_botch, fault, no_fuel, ◌>>=◌}

-- `alias NAME=VAL` on the output, or `alias: NAME not found` on the error output.
pub data Line : Type 0 where
  definition : Bytes → Bytes → Line
  not_found : Bytes → Line

unfoldable pub line_of : Alias → Line
line_of ap = definition ap.name ap.val

unfoldable pub lines_of : Chain → List Line
unfolding line_of
lines_of [] = []
lines_of (ap ∷ c) = line_of ap ∷ lines_of c

-- `strchr(s, '=')`: the bytes before it and the bytes behind it.
unfoldable pub split_eq : Bytes → Option (Bytes × Bytes)
split_eq [] = none
split_eq (c ∷ s) =
    let rest = split_eq s in
    if c == b'='
    then some ([], s)
    else elim rest [ none ↦ none | some (before, after) ↦ some (c ∷ before, after) ]

-- The parameter is `qsort` by `by_name`.
module _ (sort : Chain → Chain) where
  unfoldable pub list_aliases : Table → Outcome (Table × List Line)
  unfolding lines_of
  list_aliases t =
      let (t', n) = countaliases t in
      let aliases = collect t' in
      if length aliases == n then ok (t', lines_of (sort aliases)) else err alias_count_botch

  -- The loop of `aliascmd`. The search for `=` starts at the second byte; for an empty argument
  -- that is behind its NUL, outside the string.
  unfoldable pub alias_args : List Bytes → Table → List Line → ℕ → Outcome (Table × List Line × ℕ)
  unfolding split_eq
  alias_args [] t out ret = ok (t, out, ret)
  alias_args ([] ∷ args) t out ret = err fault
  alias_args ((c ∷ n) ∷ args) t out ret = elim (split_eq n) [
    | none ↦ elim (lookupalias (c ∷ n) false t) [
      | none ↦ alias_args args t (out ++ not_found (c ∷ n) ∷ []) 1
      | some ap ↦ alias_args args t (out ++ definition (c ∷ n) ap.val ∷ []) ret
    ]
    | some (before, v) ↦ alias_args args (setalias (c ∷ before) v t) out ret
  ]

  -- `argv` behind the command's name; the exit status stands last.
  unfoldable pub aliascmd : List Bytes → Table → Outcome (Table × List Line × ℕ)
  unfolding alias_args list_aliases
  aliascmd [] t = do (t', out) ← list_aliases t; ok (t', out, 0)
  aliascmd (a ∷ args) t = alias_args (a ∷ args) t [] 0

-- The `while` loop of `unaliascmd`: `none` if it ends, `some` if it returns.
unfoldable pub unalias_options : ℕ → OptState → Table → Outcome (OptState × Option Table)
unalias_options zero s t = err no_fuel
unalias_options (suc fuel) s t = do
  (i, s') ← nextopt (codes "a") s
  elim (i == 0) [
    | true ↦ ok (s', none)
    | false ↦ elim (i == b'a') [
      | true ↦ ok (s', some (rmaliases false t))
      | false ↦ unalias_options fuel s' t
    ]
  ]

unfoldable pub unaliascmd : ℕ → OptState → Table → Outcome (Table × ℕ)
unfolding unalias_options
unaliascmd fuel s t = do
  (s', r) ← unalias_options fuel s t
  elim r [ some t' ↦ ok (t', 0) | none ↦ ok (unalias_all s'.argptr 0 (countaliases t).0) ]
