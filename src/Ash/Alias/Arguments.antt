-- ===== src/Ash/Alias/Arguments.antt =====
-- ash/alias.c: the commands `alias` and `unalias` against a map from names to texts.
use Prim.Native.Nat.{bit_or}
use minilib_ports.Common.{
  ℕ, zero, suc, ◌≤◌, ◌≡◌, ◌≢◌, refl, ◌∙◌, false, List, [], ◌∷◌, ◌++◌, Option, none, some, inl, inr,
  arith, ◌==◌, if◌then◌else◌, Option-cases, Bytes, codes, head_byte, equal,
}
use minilib_ports.Ash.Alias.Chain.{Alias, Chain}
use minilib_ports.Ash.Alias.Commands.{Line, definition, not_found, split_eq, unaliascmd}
use minilib_ports.Ash.Alias.Refines.{
  IsValid, unalias_lem, unalias-IsValid, rmaliases_lem, countaliases_lem,
}
use minilib_ports.Ash.Alias.Views.{unalias_chain_le}
use minilib_ports.Ash.Alias.Table.{Table, unalias, alias_text, rmaliases, countaliases, unalias_all}
use minilib_ports.Ash.Options.Scan.{Offers, here, skip, next, nextopt-Scanned}
use minilib_ports.Ash.Options.{OptState, nextopt}
use minilib_ports.Ash.Outcome.{ok, Returns}

abbrev pub AliasMap : Type 0
AliasMap = Bytes → Option Bytes

abbrev pub update : AliasMap → Bytes → Option Bytes → AliasMap
update m n r q = if equal q n then r else m q

-- The table is well formed, and reads as the map at every name with a byte.
abbrev pub Models : AliasMap → Table → Type 0
Models m t = IsValid t × ((q : Bytes) → head_byte q ≢ 0 → alias_text q t ≡ m q)

-- Every argument is a string with a byte.
abbrev pub AllReal : List Bytes → Type 0
AllReal [] = Unit
AllReal (a ∷ args) = (head_byte a ≢ 0) × AllReal args

-- What `alias` means: `NAME=TEXT` defines, any other argument is looked up.
unfoldable pub alias_spec : List Bytes → AliasMap → List Line → ℕ → AliasMap × List Line × ℕ
alias_spec [] m out ret = (m, out, ret)
alias_spec ([] ∷ args) m out ret = alias_spec args m out ret
alias_spec ((c ∷ n) ∷ args) m out ret = elim (split_eq n) [
  | none ↦ elim (m (c ∷ n)) [
    | none ↦ alias_spec args m (out ++ not_found (c ∷ n) ∷ []) 1
    | some x ↦ alias_spec args m (out ++ definition (c ∷ n) x ∷ []) ret
  ]
  | some (before, x) ↦ alias_spec args (update m (c ∷ before) (some x)) out ret
]

-- What `unalias` means: each name is taken out in turn, and a name that is no alias then is an
-- error.
unfoldable pub unalias_spec : List Bytes → AliasMap → ℕ → AliasMap × ℕ
unalias_spec [] m i = (m, i)
unalias_spec (a ∷ args) m i =
    unalias_spec args (update m a none) (elim (m a) [ none ↦ 1 | some _ ↦ i ])

unalias_le : (a : Bytes) (t : Table) → (unalias a t).1 ≤ 1
unfolding unalias
unalias_le a t = unalias_chain_le a _

bit_or_flag : (i r : ℕ) → i ≤ 1 → r ≤ 1 → bit_or i r ≡ (if r == 0 then i else 1)
bit_or_flag zero zero h k = refl
bit_or_flag zero (suc zero) h k = refl
bit_or_flag (suc zero) zero h k = refl
bit_or_flag (suc zero) (suc zero) h k = refl
bit_or_flag (suc (suc i)) r h k = absurd (omega arith)
bit_or_flag zero (suc (suc r)) h k = absurd (omega arith)
bit_or_flag (suc zero) (suc (suc r)) h k = absurd (omega arith)

unalias_status :
    (a : Bytes) {m : AliasMap} {t : Table} (i : ℕ)
    → i ≤ 1
    → head_byte a ≢ 0
    → Models m t
    → bit_or i (unalias a t).1 ≡ (elim (m a) as (λ _. ℕ) [ none ↦ 1 | some _ ↦ i ])
unalias_status a {m} {t} i small real (v, reads) =
    let found = (unalias_lem a a v real real).1 in
    elim (Option-cases (m a)) [
      | inl e ↦ ground (arith, bit_or_flag i (unalias a t).1, unalias_le a t, found.0, reads a real)
      | inr (x, e) ↦
          ground (arith, bit_or_flag i (unalias a t).1, unalias_le a t, found.1, reads a real)
    ]

unalias_all_step :
    (a : Bytes) (args : List Bytes) {m : AliasMap} {t : Table} (i : ℕ)
    → i ≤ 1
    → head_byte a ≢ 0
    → Models m t
    → unalias_all (a ∷ args) i t
      ≡ unalias_all args (elim (m a) [ none ↦ 1 | some _ ↦ i ]) (unalias a t).0
unfolding unalias_all
unalias_all_step a args i small real k = rw (← unalias_status a i small real k)

-- For arguments that all have a byte, the loop of `unalias` takes each name out of the map, and
-- its exit status is 1 exactly if one of them was no alias when its turn came (or the status
-- was 1 before).
pub unalias_all-Models :
    (args : List Bytes) {m : AliasMap} {t : Table} (i : ℕ)
    → i ≤ 1
    → AllReal args
    → Models m t
    → Models (unalias_spec args m i).0 (unalias_all args i t).0
      × ((unalias_all args i t).1 ≡ (unalias_spec args m i).1)
unfolding unalias_all unalias_spec
unalias_all-Models [] i small real k = (k, refl)
unalias_all-Models (a ∷ args) {m} {t} i small real (v, reads) =
    rw (unalias_all_step a args i small real.0 (v, reads), unalias_spec)
      (unalias_all-Models args (elim (m a) [ none ↦ 1 | some _ ↦ i ]) (ground arith) real.1
        (
          unalias-IsValid a v,
          λ q real'. ground (arith, (unalias_lem a q v real.0 real').0, reads q real'),
        ))

offered : {q : Bytes} {c : ℕ} → Offers q c → q ≡ codes "a" → c ≡ b'a'
offered here e = ground arith
offered (skip o) e = absurd (ground arith)
offered (next n o) e = absurd (ground arith)

-- What the command `unalias` means, from what the first call of `nextopt` returned.
unfoldable pub unaliascmd_spec : ℕ × OptState → AliasMap → AliasMap × ℕ
unaliascmd_spec r m = if r.0 == 0 then unalias_spec r.1.argptr m 0 else (λ _. none, 0)

-- If the options of `unalias` are in order and the arguments behind them all have a byte, the
-- command ends after one call of `nextopt`, whatever fuel is left: with `-a` the map is empty and
-- the status 0, and without it the arguments are taken out of the map.
pub unaliascmd-Models :
    (fuel : ℕ) (s : OptState) {m : AliasMap} {t : Table} {r : ℕ × OptState}
    → nextopt (codes "a") s ≡ ok r
    → AllReal r.1.argptr
    → Models m t
    → Returns
        (unaliascmd (suc fuel) s t)
        λ u. Models (unaliascmd_spec r m).0 u.0 × (u.1 ≡ (unaliascmd_spec r m).1)
unfolding unaliascmd unaliascmd_spec
unaliascmd-Models fuel s {m} {t} {r} opt real (v, reads) =
    elim (nextopt-Scanned (codes "a") s opt) [
      | inl e ↦ (
        unalias_all r.1.argptr 0 (countaliases t).0,
        ground arith,
        rw (e, ◌==◌)
            (unalias_all-Models r.1.argptr 0 (omega arith) real
              ((countaliases_lem v).0, λ q real'. (countaliases_lem v).1 q real' ∙ reads q real')),
      )
      | inr (o, _) ↦
          let e = offered o refl in
          ((rmaliases false t, 0), ground arith, rw e (rmaliases_lem false v, refl))
    ]
