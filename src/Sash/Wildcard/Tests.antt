-- ===== src/Sash/Wildcard/Tests.antt =====
-- Runs of `match`.
use minilib_ports.Common.{◌≡◌, refl, true, false, codes, [], ◌∷◌, ◌++◌, if◌then◌else◌}
use minilib_ports.Sash.Outcome.{ok, stop, fault}
use minilib_ports.Sash.Wildcard.{match}
use minilib_ports.Sash.Wildcard.Correct.{match_lem}
use minilib_ports.Sash.Wildcard.Classes.{is_plain, has, match-class}
use minilib_ports.Sash.Wildcard.Meaning.{matches, no_class}

plain_patterns :
    (match (codes "main.c") (codes "*.c") ≡ ok true)
    × (match (codes "aXbXc") (codes "a*X?") ≡ ok true)
    × (match (codes "a*c") (codes "a\\*c") ≡ ok true)
    × (match (codes "abc") (codes "a\\*c") ≡ ok false)
    × (match [] (codes "*") ≡ ok true)
unfolding match
plain_patterns = (refl, refl, refl, refl, refl)

classes :
    (match (codes "b.c") (codes "[abc].c") ≡ ok true) × (match (codes "b") (codes "[a") ≡ ok false)
unfolding match
classes = (refl, refl)

-- Where the first try of a class fails behind a `*`, the byte that it should look at next is left
-- out, and with no `*` the null pointer is read.
class_mismatch :
    (match (codes "ab") (codes "*[b]") ≡ ok false) × (match (codes "a") (codes "[b]") ≡ stop fault)
unfolding match
class_mismatch = (refl, refl)

match_lem_example : match (codes "a.b.c") (codes "*.?") ≡ ok (matches (codes "*.?") (codes "a.b.c"))
unfolding no_class
match_lem_example = match_lem (codes "a.b.c") (codes "*.?") refl

match-class_example :
    match (codes "b.c") (b'[' ∷ codes "abc" ++ b']' ∷ codes ".?")
    ≡ (if has b'b' (codes "abc") then ok (matches (codes ".?") (codes ".c")) else stop fault)
unfolding is_plain no_class
match-class_example = match-class b'b' (codes ".c") (codes "abc") (codes ".?") refl refl
