-- ===== src/Ash/Alias/Tests.antt =====
-- Runs of ash/alias.c, and its theorems at concrete tables.
use mathlib.Core.List.Perm
use minilib_ports.Common.{
  ℕ, ◌≡◌, ◌≢◌, refl, false, List, [], ◌∷◌, none, some, arith, Bytes, codes, equal, if◌then◌else◌,
  ◌↔◌, head_byte, set,
}
use minilib_ports.Ash.Alias.Arguments.{
  AliasMap, Models, unalias_spec, unalias_all-Models, unaliascmd_spec, unaliascmd-Models,
}
use minilib_ports.Ash.Alias.Chain.{Chain}
use minilib_ports.Ash.Alias.Commands.{definition, not_found, aliascmd, list_aliases, unaliascmd}
use minilib_ports.Ash.Alias.Keeps.{reading, reading_kept}
use minilib_ports.Ash.Alias.Listing.{listed, list_aliases_lem}
use minilib_ports.Ash.Alias.Refines.{
  IsValid, empty-IsValid, alias_text-empty, setalias-IsValid, alias_text-setalias, unalias_lem,
  rmaliases_lem,
}
use minilib_ports.Ash.Alias.Table.{
  Table, empty, hashalias, setalias, unalias, alias_text, rmaliases, countaliases, unalias_all,
}
use minilib_ports.Ash.Options.{OptState, nextopt}
use minilib_ports.Ash.Outcome.{ok, err, fault, Returns}

hashes : (hashalias (codes "ll") ≡ 33) × (hashalias (codes "") ≡ 0)
unfolding hashalias
hashes = (refl, refl)

abbrev sample : Table
sample = setalias (codes "ll") (codes "ls -l") (setalias (codes "la") (codes "ls -a") empty)

sample-IsValid : IsValid sample
sample-IsValid =
    setalias-IsValid (codes "ll") (codes "ls -l")
      (setalias-IsValid (codes "la") (codes "ls -a") empty-IsValid)

alias_text-sample : alias_text (codes "la") sample ≡ some (codes "ls -a")
unfolding alias_text setalias equal hashalias empty
alias_text-sample = refl

-- An alias that is being read loses its name, and is defined again beside its dead entry.
abbrev busy : Chain
busy = (record { name = codes "ll"; val = codes "ls -l"; flag = 1 }) ∷ []

redefine_busy :
    setalias (codes "ll") (codes "ls") (set empty 33 busy)
    ≡ set empty 33 (
        (record { name = codes "ll"; val = codes "ls"; flag = 0 })
        ∷ (record { name = []; val = codes "ls -l"; flag = 1 })
        ∷ [])
unfolding setalias equal hashalias empty
redefine_busy = refl

define_and_show :
    aliascmd (λ c. c) (codes "x=y=z" ∷ codes "x" ∷ codes "no" ∷ []) empty
    ≡ ok (
      setalias (codes "x") (codes "y=z") empty,
      definition (codes "x") (codes "y=z") ∷ not_found (codes "no") ∷ [],
      1,
    )
unfolding aliascmd alias_text setalias equal hashalias empty
define_and_show = refl

alias_empty_argument : aliascmd (λ c. c) (codes "" ∷ []) empty ≡ err fault
unfolding aliascmd
alias_empty_argument = refl

alias_text-setalias_example :
    alias_text (codes "la") (setalias (codes "ll") (codes "ls") sample)
    ≡ alias_text (codes "la") sample
unfolding equal
alias_text-setalias_example =
    alias_text-setalias (codes "ll") (codes "ls") (codes "la") sample-IsValid (omega arith)
      (omega arith)

unalias_lem_example :
    (alias_text (codes "ll") (unalias (codes "ll") sample).0 ≡ none)
    × (((unalias (codes "ll") sample).1 ≡ 0) ↔ (alias_text (codes "ll") sample ≢ none))
unfolding equal
unalias_lem_example =
    unalias_lem (codes "ll") (codes "ll") sample-IsValid (omega arith) (omega arith)

rmaliases_lem_example :
    IsValid (rmaliases false sample)
    × ((q : Bytes) → head_byte q ≢ 0 → alias_text q (rmaliases false sample) ≡ none)
rmaliases_lem_example = rmaliases_lem false sample-IsValid

abbrev reading_table : Table
reading_table = set empty 33 busy

reading_kept_example :
    (reading (setalias (codes "ll") (codes "ls") reading_table) ≡ reading reading_table)
    × (reading (unalias (codes "ll") reading_table).0 ≡ reading reading_table)
    × (reading (unalias_all (codes "ll" ∷ []) 0 reading_table).0 ≡ reading reading_table)
    × (reading (rmaliases false reading_table) ≡ reading reading_table)
    × (reading (countaliases reading_table).0 ≡ reading reading_table)
reading_kept_example = reading_kept (codes "ll") (codes "ls") (codes "ll" ∷ []) 0 reading_table

list_aliases_lem_example : Returns (list_aliases (λ c. c) sample) λ r.
    IsValid r.0
    × ((q x : Bytes)
        → head_byte q ≢ 0
        → listed q x r.1 ≡ (elim (alias_text q sample) as (λ _. ℕ) [
          | none ↦ 0
          | some v ↦ if equal x v then 1 else 0
        ]))
list_aliases_lem_example = list_aliases_lem (λ c. c) Perm.refl sample-IsValid

abbrev no_aliases : AliasMap
no_aliases q = none

no_aliases-Models : Models no_aliases empty
no_aliases-Models = (empty-IsValid, λ q real. alias_text-empty q)

abbrev words : List Bytes
words = codes "x=y" ∷ codes "x" ∷ []

unalias_all-Models_example :
    Models (unalias_spec words no_aliases 0).0 (unalias_all words 0 empty).0
    × ((unalias_all words 0 empty).1 ≡ (unalias_spec words no_aliases 0).1)
unalias_all-Models_example =
    unalias_all-Models words 0 (omega arith) (omega arith) no_aliases-Models

abbrev argv : OptState
argv = record { argptr = codes "-a" ∷ []; optptr = none; optionarg = none }

unaliascmd-Models_example : Returns (unaliascmd 1 argv empty) λ u.
    Models (unaliascmd_spec (b'a', record argv { argptr = []; optptr = some [] }) no_aliases).0 u.0
    × (u.1 ≡ (unaliascmd_spec (b'a', record argv { argptr = []; optptr = some [] }) no_aliases).1)
unfolding nextopt
unaliascmd-Models_example = unaliascmd-Models 0 argv refl tt no_aliases-Models
