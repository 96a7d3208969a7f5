-- ===== src/Ash/Alias/Listing.antt =====
-- ash/alias.c: `list_aliases` prints the whole map, and its count never fails.
use mathlib.Core.List.{Perm, Permᴰ}
use mathlib.Core.Logic.{∥∥₁_elim}
use native.Mathlib.Nat.{ℕ_set}
use minilib_ports.Common.{
  ℕ, zero, suc, ◌+◌, ◌≤◌, ◌≡◌, ◌≢◌, refl, sym, ap, ◌∙◌, ◌&&◌, List, [], ◌∷◌, ◌++◌, none, some,
  arith, if◌then◌else◌, Bytes, head_byte, length, get_or, length-append, equal, equal_iff,
  equal_nil, ==_iff,
}
use minilib_ports.Ash.Alias.Chain.{Chain, count_chain, collect_chain}
use minilib_ports.Ash.Alias.Commands.{Line, definition, not_found, line_of, lines_of, list_aliases}
use minilib_ports.Ash.Alias.Keeps.{length-collect_chain}
use minilib_ports.Ash.Alias.Refines.{IsValid, alias_text_lem, countaliases_lem}
use minilib_ports.Ash.Alias.Table.{Table, hashalias, chain_of, alias_text, countaliases, collect}
use minilib_ports.Ash.Alias.Views.{named, text_in}
use minilib_ports.Ash.Outcome.{Returns}

-- How many aliases of a chain have the name `q` and the text `x`.
abbrev pairs : Bytes → Bytes → Chain → ℕ
pairs q x [] = 0
pairs q x (ap ∷ c) = (if equal q ap.name && equal x ap.val then 1 else 0) + pairs q x c

-- How many lines of an output define `q` as `x`.
abbrev pub listed : Bytes → Bytes → List Line → ℕ
listed q x [] = 0
listed q x (definition n v ∷ out) = (if equal q n && equal x v then 1 else 0) + listed q x out
listed q x (not_found n ∷ out) = listed q x out

listed-lines_of : (q x : Bytes) (c : Chain) → listed q x (lines_of c) ≡ pairs q x c
unfolding lines_of line_of
listed-lines_of q x [] = refl
listed-lines_of q x (ap ∷ c) = rw (listed-lines_of q x c)

module _ (q x : Bytes) where
  pairs-append : (c d : Chain) → pairs q x (c ++ d) ≡ pairs q x c + pairs q x d
  pairs-append [] d = omega arith
  pairs-append (ap ∷ c) d = omega (arith, pairs-append c d)

  pairs_le : (c : Chain) → pairs q x c ≤ named q c
  pairs_le [] = omega arith
  pairs_le (ap ∷ c) = ground (arith, pairs_le c)

  pairs-collect_chain : (c : Chain) → head_byte q ≢ 0 → pairs q x (collect_chain c) ≡ pairs q x c
  unfolding collect_chain
  pairs-collect_chain [] real = refl
  pairs-collect_chain (ap ∷ c) real =
      ground (arith, pairs-collect_chain c real, equal_nil q, equal_iff q ap.name)

  pairs-permᴰ : {c d : Chain} → Permᴰ c d → pairs q x c ≡ pairs q x d
  pairs-permᴰ Permᴰ.nil = refl
  pairs-permᴰ (Permᴰ.cons e p) = rw (e, pairs-permᴰ p)
  pairs-permᴰ (Permᴰ.swap {l = l} e f) = rw (e, f) (omega arith)
  pairs-permᴰ (Permᴰ.trans p r) = pairs-permᴰ p ∙ pairs-permᴰ r

  pairs-perm : {c d : Chain} → Perm c d → pairs q x c ≡ pairs q x d
  pairs-perm p = ∥∥₁_elim p (ℕ_set _ _) pairs-permᴰ

  -- A chain with the name once at most holds the pair exactly if the text is the one it reads.
  pairs-text_in :
      (c : Chain)
      → named q c ≤ 1
      → pairs q x c
        ≡ (elim (text_in q c) as (λ _. ℕ) [ none ↦ 0 | some v ↦ if equal x v then 1 else 0 ])
  pairs-text_in [] h = refl
  pairs-text_in (ap ∷ c) h = ground (arith, pairs-text_in c, pairs_le c)

-- Only one chain of a table holds the name: the others add nothing.
pairs-collect :
    (q x : Bytes) (t : Table) (k : ℕ)
    → head_byte q ≢ 0
    → ((i : ℕ) → i ≢ k → named q (get_or t i []) ≡ 0)
    → pairs q x (collect t) ≡ pairs q x (get_or t k [])
unfolding collect
pairs-collect q x [] k real h = refl
pairs-collect q x (c ∷ t) zero real h = omega (
  arith,
  pairs-append q x (collect_chain c) (collect t),
  pairs-collect_chain q x c real,
  pairs-none t λ i. h (suc i) (omega arith),
)
  where
    pairs-none : (u : Table) → ((i : ℕ) → named q (get_or u i []) ≡ 0) → pairs q x (collect u) ≡ 0
    pairs-none [] g = refl
    pairs-none (d ∷ u) g = omega (
      arith,
      pairs-append q x (collect_chain d) (collect u),
      pairs-collect_chain q x d real,
      pairs_le q x d,
      g 0,
      pairs-none u λ i. g (suc i),
    )
pairs-collect q x (c ∷ t) (suc k) real h = omega (
  arith,
  pairs-append q x (collect_chain c) (collect t),
  pairs-collect_chain q x c real,
  pairs_le q x c,
  h 0 (omega arith),
  pairs-collect q x t k real λ i n. h (suc i) (λ e. n (omega arith)),
)

length-collect : (t : Table) → length (collect (countaliases t).0) ≡ (countaliases t).1
unfolding countaliases collect
length-collect [] = refl
length-collect (c ∷ t) = omega (
  arith,
  length-append (collect_chain (count_chain c).0) (collect (countaliases t).0),
  length-collect_chain c,
  length-collect t,
)

-- For every table that is well formed, and a sorting routine that returns a permutation,
-- `list_aliases` ends with no error, keeps the table well formed, and prints for each name with
-- a byte exactly one line, with its text, if it is an alias, and none if it is not.
pub list_aliases_lem :
    (sort : Chain → Chain)
    → ((c : Chain) → Perm (sort c) c)
    → {t : Table} → IsValid t
    → Returns (list_aliases sort t) λ r.
      IsValid r.0
      × ((q x : Bytes)
          → head_byte q ≢ 0
          → listed q x r.1 ≡ (elim (alias_text q t) as (λ _. ℕ) [
            | none ↦ 0
            | some v ↦ if equal x v then 1 else 0
          ]))
unfolding list_aliases
list_aliases_lem sort perm {t} v =
    let t' = (countaliases t).0 in
    let (w, same) = countaliases_lem v in
    (
      (t', lines_of (sort (collect t'))),
      rw ((==_iff _ _).1 (length-collect t)),
      (
        w,
        λ q x real.
            listed-lines_of q x (sort (collect t'))
            ∙ pairs-perm q x (perm (collect t'))
            ∙ pairs-collect q x t' (hashalias q) real (λ i n. ground (arith, w.placed q real i))
            ∙ pairs-text_in q x (chain_of q t') (ground (arith, w.placed q real (hashalias q)))
            ∙ ap (elim [ none ↦ 0 | some v ↦ if equal x v then 1 else 0 ])
                (sym (alias_text_lem q t') ∙ same q real),
      ),
    )
