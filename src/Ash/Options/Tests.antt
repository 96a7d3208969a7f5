-- ===== src/Ash/Options/Tests.antt =====
-- Runs of `nextopt`, and its theorem at one of them.
use minilib_ports.Common.{◌≡◌, refl, List, [], ◌∷◌, none, some, Bytes, codes}
use minilib_ports.Ash.Options.Scan.{Scanned, nextopt-Scanned}
use minilib_ports.Ash.Options.{OptState, nextopt}
use minilib_ports.Ash.Outcome.{ok, err, illegal_option, no_arg}

abbrev words : List Bytes → OptState
words args = record { argptr = args; optptr = none; optionarg = none }

-- `-vofile x`, with the options `o:v`
abbrev first : OptState
first = record (words (codes "x" ∷ [])) { optptr = some (codes "ofile") }

nextopt-cluster :
    nextopt (codes "o:v") (words (codes "-vofile" ∷ codes "x" ∷ [])) ≡ ok (b'v', first)
unfolding nextopt
nextopt-cluster = refl

nextopt-argument :
    nextopt (codes "o:v") first
    ≡ ok (b'o', record (words (codes "x" ∷ [])) { optionarg = some (codes "file") })
unfolding nextopt
nextopt-argument = refl

nextopt-errors :
    (nextopt (codes "o:v") (words (codes "-x" ∷ [])) ≡ err (illegal_option b'x'))
    × (nextopt (codes "o:v") (words (codes "-o" ∷ [])) ≡ err (no_arg b'o'))
    × (nextopt (codes "o:v") (words (codes "-:" ∷ [])) ≡ err (illegal_option b':'))
unfolding nextopt
nextopt-errors = (refl, refl, refl)

nextopt-Scanned_example :
    Scanned
      (codes "o:v")
      first
      (b'o', record (words (codes "x" ∷ [])) { optionarg = some (codes "file") })
nextopt-Scanned_example = nextopt-Scanned (codes "o:v") first nextopt-argument
