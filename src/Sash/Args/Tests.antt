-- ===== src/Sash/Args/Tests.antt =====
-- Commands that are divided, in a system with one directory.
use minilib_ports.Common.{
  ◌≡◌, refl, List, [], ◌∷◌, arith, if◌then◌else◌, Option, none, some, Bytes, codes, equal,
}
use minilib_ports.Sash.Args.{make_args, any_wildcard, expand_wild_cards}
use minilib_ports.Sash.Args.Expansion.{
  is_link, chosen, expansion, pattern_of, opened, front_of, is_directory, expand_wild_cards_lem,
}
use minilib_ports.Sash.Args.Quoting.{command, make_args-command}
use minilib_ports.Sash.Outcome.{
  ok, stop, fault, unmatched_quote, bad_quoted, mixed_wildcards, no_matches, no_directory,
}
use minilib_ports.Sash.Strings.Joined.{no_slash}
use minilib_ports.Sash.Wildcard.Meaning.{matches, no_class}

abbrev listing : List Bytes
listing = codes "." ∷ codes ".." ∷ codes "b.c" ∷ codes "a.c" ∷ codes "a.h" ∷ []

directory : Bytes → Option (List Bytes)
directory name = if equal name (codes "src") then some listing else none

divided :
    (make_args directory (codes "ls -l 'a b' x\\ y")
      ≡ ok (codes "ls" ∷ codes "-l" ∷ codes "a b" ∷ codes "x y" ∷ []))
    × (expand_wild_cards directory (codes "src/*.c") ≡ ok (codes "src/b.c" ∷ codes "src/a.c" ∷ []))
    × (make_args directory (codes " ls") ≡ ok ([] ∷ codes "ls" ∷ []))
unfolding make_args expand_wild_cards directory equal
divided = (refl, refl, refl)

-- The table of the names is read behind the return of `expandWildCards`.
expanded_fault : make_args directory (codes "cc src/*.c") ≡ stop fault
unfolding make_args directory equal
expanded_fault = refl

refused :
    (make_args directory (codes "echo 'a") ≡ stop unmatched_quote)
    × (make_args directory (codes "echo \\") ≡ stop bad_quoted)
    × (make_args directory (codes "echo '*'*") ≡ stop mixed_wildcards)
    × (make_args directory (codes "echo src/z*") ≡ stop no_matches)
    × (make_args directory (codes "echo *") ≡ stop no_directory)
unfolding make_args directory equal
refused = (refl, refl, refl, refl, refl)

make_args-command_example :
    make_args directory (command (codes "echo" ∷ [] ∷ codes "* 'x'" ∷ []))
    ≡ ok (codes "echo" ∷ [] ∷ codes "* 'x'" ∷ [])
unfolding command
make_args-command_example =
    make_args-command directory (codes "echo" ∷ [] ∷ codes "* 'x'" ∷ []) (omega arith) (omega arith)

expand_wild_cards_lem_example :
    expand_wild_cards directory (codes "src/*.c")
    ≡ expansion (codes "src/") (chosen (codes "*.c") listing)
unfolding is_directory pattern_of opened front_of no_slash any_wildcard no_class directory equal
expand_wild_cards_lem_example =
    expand_wild_cards_lem directory (some (codes "src")) (codes "*.c") listing refl refl refl refl
      refl

-- The two names that are left out, and the two that match.
chosen_names : chosen (codes "*") listing ≡ codes "b.c" ∷ codes "a.c" ∷ codes "a.h" ∷ []
unfolding chosen is_link matches
chosen_names = refl
