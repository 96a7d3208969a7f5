-- ===== src/Sash/Args.antt =====
-- sash-3.8/utils.c: `makeArgs`, which divides a command into its arguments, and
-- `expandWildCards`. The arguments are compacted in place in a buffer, at or in front of where they
-- are read; here they are lists of their own.
use minilib_ports.Common.{
  ℕ, zero, suc, ◌+◌, Bool, true, false, not, ◌&&◌, ◌||◌, List, [], ◌∷◌, ◌++◌, Option, none, some,
  leb, ltb, ◌==◌, if◌then◌else◌, Bytes, codes, equal, length,
}
use minilib_ports.Sash.Outcome.{
  Outcome, ok, stop, ◌>>=◌, bad_quoted, unmatched_quote, mixed_wildcards, expansion_error,
  wildcard_directory, no_directory, no_matches, max_files, max_command, exit_max_args, fault,
  no_fuel,
}
use minilib_ports.Sash.Wildcard.{match}
pub mod Expansion
pub mod Quoting
mod Tests

-- `isBlank`
unfoldable pub is_blank : ℕ → Bool
is_blank c = c == b' ' || c == b'\t'

-- `isWildCard`
unfoldable pub is_wildcard : ℕ → Bool
is_wildcard c = c == b'*' || c == b'?' || c == b'['

-- An argument, whether wildcards were seen in it inside and outside of quotes, and `cp`.
pub record Collected : Type 0 where
  pub argument : Bytes
  pub quoted_wildcards : Bool
  pub unquoted_wildcards : Bool
  pub rest : Bytes

abbrev pub store : ℕ → Outcome Collected → Outcome Collected
store c (ok r) = ok (record r { argument = c ∷ r.argument })
store c (stop e) = stop e

-- Behind the last byte of the command.
abbrev pub collect_end : ℕ → Bool → Bool → Outcome Collected
collect_end quote q u =
    if quote == 0
    then ok (record { argument = []; quoted_wildcards = q; unquoted_wildcards = u; rest = [] })
    else stop unmatched_quote

-- The byte is a quotation mark that begins or ends a quote.
abbrev pub is_mark : ℕ → ℕ → Bool
is_mark quote c = c == quote || (quote == 0 && (c == b'\'' || c == b'"'))

-- `quote` behind the byte.
abbrev pub next_quote : ℕ → ℕ → ℕ
next_quote quote c =
    if c == quote then 0 else if quote == 0 && (c == b'\'' || c == b'"') then c else quote

-- The loop over one argument. `quote` is 0 outside of quotes; `q` and `u` are `quotedWildCards` and
-- `unquotedWildCards`.
unfoldable pub collect : ℕ → Bool → Bool → Bytes → Outcome Collected
unfolding is_blank is_wildcard
collect quote q u [] = collect_end quote q u
collect quote q u (c ∷ []) =
    if is_blank c && quote == 0
    then ok (record { argument = []; quoted_wildcards = q; unquoted_wildcards = u; rest = [] })
    else if c == b'\\'
    then stop bad_quoted
    else let last =
        collect_end (next_quote quote c) (q || is_wildcard c && not (quote == 0))
          (u || is_wildcard c && quote == 0) in
      if is_mark quote c then last else store c last
collect quote q u (c ∷ d ∷ cp) =
    let quoted = store d (collect quote (q || is_wildcard d) u cp) in
    let onward =
      collect (next_quote quote c) (q || is_wildcard c && not (quote == 0))
        (u || is_wildcard c && quote == 0) (d ∷ cp) in
    let stored = store c onward in
    if is_blank c && quote == 0
    then ok (record { argument = []; quoted_wildcards = q; unquoted_wildcards = u; rest = d ∷ cp })
    else if c == b'\\'
    then quoted
    else if is_mark quote c
    then onward
    else stored

-- `while (isBlank(*cp)) cp++`
unfoldable pub skip_blanks : Bytes → Bytes
unfolding is_blank
skip_blanks [] = []
skip_blanks (c ∷ cp) = let rest = skip_blanks cp in if is_blank c then rest else c ∷ cp

unfoldable pub any_wildcard : Bytes → Bool
unfolding is_wildcard
any_wildcard [] = false
any_wildcard (c ∷ s) = is_wildcard c || any_wildcard s

-- What is in front of the last component, with its slash, and that component.
unfoldable pub split_last : Bytes → Bytes × Bytes
split_last [] = ([], [])
split_last (c ∷ s) =
    let later = split_last s in
    elim later.0 [
      | [] ↦ if c == b'/' then (c ∷ [], later.1) else ([], c ∷ later.1)
      | d ∷ dir ↦ (c ∷ d ∷ dir, later.1)
    ]

-- All bytes but the last.
unfoldable pub drop_last : Bytes → Bytes
drop_last [] = []
drop_last (c ∷ []) = []
drop_last (c ∷ d ∷ s) = c ∷ drop_last (d ∷ s)

-- `dirName`, from what is in front of the last component.
unfoldable pub dir_name : Bytes → Bytes
unfolding drop_last
dir_name [] = codes "."
dir_name (c ∷ []) = codes "/"
dir_name (c ∷ d ∷ dir) = drop_last (c ∷ d ∷ dir)

-- `dirName[len - 1] == '/'`
unfoldable pub ends_in_slash : Bytes → Bool
ends_in_slash [] = false
ends_in_slash (c ∷ []) = c == b'/'
ends_in_slash (c ∷ d ∷ s) = ends_in_slash (d ∷ s)

-- What is put in front of each name.
unfoldable pub path_front : Bytes → Bytes
unfolding dir_name ends_in_slash
path_front [] = []
path_front (c ∷ dir) =
    let dir' = dir_name (c ∷ dir) in if ends_in_slash dir' then dir' else dir' ++ codes "/"

-- `ARGMAXFILE`
abbrev pub arg_max_file : ℕ
arg_max_file = 512

-- `PATH_LEN`
abbrev pub path_len : ℕ
path_len = 1024

-- `MAXARG` and `MAXCMDLENGTH`
abbrev pub max_arg : ℕ
max_arg = 256

abbrev pub max_cmd_length : ℕ
max_cmd_length = 1024

-- `strcmp(name, ".") == 0 || strcmp(name, "..") == 0`
unfoldable pub is_dots : Bytes → Bool
is_dots name = equal name (codes ".") || equal name (codes "..")

-- The loop over the directory, with `file_count` names selected.
unfoldable pub select_names : Bytes → Bytes → ℕ → List Bytes → Outcome (List Bytes)
unfolding is_dots match
select_names last front file_count [] = ok []
select_names last front file_count (name ∷ names) =
    let skipped = select_names last front file_count names in
    let more = select_names last front (file_count + 1) names in
    if is_dots name then skipped else (do
      selected ← match name last
      if not selected
          then skipped
          else if leb arg_max_file file_count
          then stop max_files
          else (do later ← more; ok ((front ++ name) ∷ later)))

-- The `memcpy` from `fileTable`. Behind an expansion that is an automatic array of `expandWildCards`,
-- which has returned.
unfoldable pub copy_table : Collected → List Bytes → Outcome (List Bytes)
copy_table r names = if r.unquoted_wildcards then stop fault else ok names

-- The names in a directory, in the order of `readdir`, or `none` if it cannot be opened. The sort
-- of the names is commented out in the source.
module _ (directory : Bytes → Option (List Bytes)) where
  -- What `fileTable` holds at the return; it holds nothing if the pattern has no wildcard. `dirName`
  -- takes the directory with its slash, and then a slash and the NUL.
  unfoldable pub expand_wild_cards : Bytes → Outcome (List Bytes)
  unfolding any_wildcard split_last path_front select_names
  expand_wild_cards pattern =
      let (dir, last) = split_last pattern in
      if not (any_wildcard pattern)
      then ok []
      else if any_wildcard dir
      then stop wildcard_directory
      else if ltb path_len (length dir)
      then stop fault
      else elim (directory (dir_name dir)) [
        | none ↦ stop no_directory
        | some names ↦ if leb path_len (length (path_front dir)) then stop fault else (do
          files ← select_names last (path_front dir) 0 names
          elim files [ [] ↦ stop no_matches | file ∷ files' ↦ ok (file ∷ files') ])
      ]

  -- The names that an argument stands for.
  unfoldable pub argument_names : Collected → Outcome (List Bytes)
  unfolding expand_wild_cards
  argument_names r =
      if r.quoted_wildcards && r.unquoted_wildcards
      then stop mixed_wildcards
      else if r.unquoted_wildcards
      then (do
        names ← expand_wild_cards r.argument
        elim names [ [] ↦ stop expansion_error | file ∷ files ↦ ok (file ∷ files) ])
      else ok (r.argument ∷ [])

  -- The loop over the command, with `arg_count` arguments in the table.
  unfoldable pub args_loop : ℕ → ℕ → Bytes → Outcome (List Bytes)
  unfolding collect skip_blanks argument_names copy_table
  args_loop zero arg_count cp = stop no_fuel
  args_loop (suc fuel) arg_count [] = ok []
  args_loop (suc fuel) arg_count (c ∷ cp) = do
    r ← collect 0 false false (c ∷ cp)
    names ← argument_names r
    if leb max_arg (arg_count + length names) then stop exit_max_args else (do
      copied ← copy_table r names
      later ← args_loop fuel (arg_count + length names) (skip_blanks r.rest)
      ok (copied ++ later))

  -- What `argTable` holds at the return. Both it and the strings are automatic arrays, so that this is
  -- not what a caller may read.
  unfoldable pub make_args : Bytes → Outcome (List Bytes)
  unfolding args_loop
  make_args cmd =
      if ltb max_cmd_length (length cmd + 1)
      then stop max_command
      else args_loop (length cmd + 1) 0 cmd
