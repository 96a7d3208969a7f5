-- ===== src/Ash/Alias/Refines.antt =====
-- ash/alias.c: the table implements a finite map from names to texts.
use minilib_ports.Common.{
  ℕ, zero, suc, ◌≤◌, ◌<◌, ◌≡◌, ◌≢◌, refl, ap, ◌∙◌, Bool, [], ◌∷◌, Option, none, some, inl, inr,
  arith, ◌==◌, if◌then◌else◌, Bool-cases, Bytes, head_byte, ◌↔◌, length, get_or, set, length-set,
  length-replicate, get_or-replicate, get_or-set, equal, equal_iff,
}
use minilib_ports.Ash.Alias.Chain.{Chain, unalias_chain, rm_chain, count_chain}
use minilib_ports.Ash.Alias.Table.{
  Table, atabsize, empty, hashalias, chain_of, unalias, setalias, alias_text, rmaliases,
  countaliases,
}
use minilib_ports.Ash.Alias.Views.{
  named, text_in, text_in-lookup, text_in-none, named-unalias_chain, text_in-unalias_chain,
  named-rm_chain, text_in-count_chain, named-count_chain,
}

-- Each name stands once at most, and only in the chain that it hashes to.
pub record IsValid (t : Table) : Type 0 where
  pub width : length t ≡ atabsize
  pub placed :
      (q : Bytes)
      → head_byte q ≢ 0
      → (i : ℕ) → named q (get_or t i []) ≤ (if i == hashalias q then 1 else 0)

hash-lt : (q : Bytes) → hashalias q < atabsize
unfolding hashalias
hash-lt q = omega arith

pub alias_text_lem : (q : Bytes) (t : Table) → alias_text q t ≡ text_in q (chain_of q t)
unfolding alias_text
alias_text_lem q t = text_in-lookup q (chain_of q t)

pub empty-IsValid : IsValid empty
unfolding empty
empty-IsValid = record {
  width = length-replicate {A = Chain} atabsize [];
  placed = λ q real i. rw get_or-replicate (ground arith);
}

pub alias_text-empty : (q : Bytes) → alias_text q empty ≡ none
unfolding empty
alias_text-empty q =
    rw (alias_text_lem q empty, get_or-replicate atabsize (hashalias q) (let e : Chain = [] in e))

-- The shape of every write: one chain is replaced, and only `n` changes in it.
set-IsValid :
    (t : Table) (n : Bytes) (c : Chain) (k : ℕ)
    → IsValid t
    → k ≤ 1
    → ((q : Bytes)
        → head_byte q ≢ 0
        → named q c ≡ (if equal q n then k else named q (chain_of n t)))
    → IsValid (set t (hashalias n) c)
set-IsValid t n c k v small names = record {
  width = length-set t (hashalias n) c ∙ v.width;
  placed = λ q real i. ground (
    arith,
    get_or-set t (hashalias n) i c [],
    hash-lt n,
    v.width,
    names q real,
    v.placed q real i,
    equal_iff q n,
  );
}

set-text :
    (t : Table) (n q : Bytes) (c : Chain) (r : Option Bytes)
    → IsValid t
    → text_in q c ≡ (if equal q n then r else text_in q (chain_of n t))
    → text_in q (chain_of q (set t (hashalias n) c))
      ≡ (if equal q n then r else text_in q (chain_of q t))
set-text t n q c r v e =
    ground (arith, get_or-set t (hashalias n) (hashalias q) c [], hash-lt n, v.width, equal_iff q n)

-- Removing an alias keeps the table well formed.
pub unalias-IsValid : (n : Bytes) {t : Table} → IsValid t → IsValid (unalias n t).0
unfolding unalias
unalias-IsValid n {t} v =
    let c = chain_of n t in
    set-IsValid t n (unalias_chain n c).0 0 v (omega arith) λ q real.
      ground (arith, named-unalias_chain q real n c, v.placed q real (hashalias n), equal_iff q n)

named-unalias :
    (n q : Bytes) {t : Table}
    → IsValid t
    → head_byte q ≢ 0
    → q ≡ n
    → named q (chain_of n (unalias n t).0) ≡ 0
unfolding unalias
named-unalias n q {t} v real e = ground (
  arith,
  get_or-set t (hashalias n) (hashalias n) (unalias_chain n (chain_of n t)).0 [],
  hash-lt n,
  v.width,
  named-unalias_chain q real n (chain_of n t),
  v.placed q real (hashalias n),
  equal_iff q n,
)

unalias_chain-reads : (n : Bytes) (c : Chain) → ((unalias_chain n c).1 ≡ 0) ↔ (text_in n c ≢ none)
unfolding unalias_chain
unalias_chain-reads n [] = (λ h. cc, λ h. absurd (h refl))
unalias_chain-reads n (ap ∷ c) = elim (Bool-cases (equal n ap.name)) [
  | inl same ↦ rw same (λ _. cc, λ _. refl)
  | inr other ↦ rw other (unalias_chain-reads n c)
]

-- `unalias` takes its name out of the map and leaves all other names alone; it returns 0 if the
-- name was an alias, and 1 if not.
pub unalias_lem :
    (n q : Bytes) {t : Table}
    → IsValid t
    → head_byte n ≢ 0
    → head_byte q ≢ 0
    → (alias_text q (unalias n t).0 ≡ (if equal q n then none else alias_text q t))
      × (((unalias n t).1 ≡ 0) ↔ (alias_text n t ≢ none))
unfolding unalias
unalias_lem n q {t} v real real' = (
  rw (alias_text_lem, alias_text_lem q t)
      (set-text t n q (unalias_chain n (chain_of n t)).0 none v (
        text_in-unalias_chain q real' n (chain_of n t)
          (ground (arith, v.placed q real' (hashalias n))))),
  rw alias_text_lem (unalias_chain-reads n (chain_of n t)),
)

-- Defining an alias keeps the table well formed.
pub setalias-IsValid : (n x : Bytes) {t : Table} → IsValid t → IsValid (setalias n x t)
unfolding setalias
setalias-IsValid n x {t} v =
    let u = (unalias n t).0 in
    let w = unalias-IsValid n v in
    set-IsValid u n ((record { name = n; val = x; flag = 0 }) ∷ chain_of n u) 1 w (omega arith)
      λ q real. ground (arith, named-unalias n q v real, equal_iff q n)

-- After `setalias` its name has the new text, and every other name what it had.
pub alias_text-setalias :
    (n x q : Bytes) {t : Table}
    → IsValid t
    → head_byte n ≢ 0
    → head_byte q ≢ 0
    → alias_text q (setalias n x t) ≡ (if equal q n then some x else alias_text q t)
unfolding setalias
alias_text-setalias n x q {t} v real real' =
    let u = (unalias n t).0 in
    let c = (record { name = n; val = x; flag = 0 }) ∷ chain_of n u in
    let read : text_in q (chain_of q (set u (hashalias n) c))
        ≡ (if equal q n then some x else text_in q (chain_of q u)) =
      set-text u n q c (some x) (unalias-IsValid n v) (ground arith) in
    let gone = (unalias_lem n q v real real').0 in
    ground (arith, read, gone, alias_text_lem q (set u (hashalias n) c), alias_text_lem q u)

get_or-rmaliases :
    (force : Bool) (t : Table) (i : ℕ)
    → get_or (rmaliases force t) i [] ≡ rm_chain force (get_or t i [])
unfolding rmaliases rm_chain
get_or-rmaliases force [] i = refl
get_or-rmaliases force (c ∷ t) zero = refl
get_or-rmaliases force (c ∷ t) (suc i) = get_or-rmaliases force t i

length-rmaliases : (force : Bool) (t : Table) → length (rmaliases force t) ≡ length t
unfolding rmaliases
length-rmaliases force [] = refl
length-rmaliases force (c ∷ t) = ap suc (length-rmaliases force t)

-- `rmaliases` empties the map, whether it is forced or not, and keeps the table well formed.
pub rmaliases_lem :
    (force : Bool) {t : Table}
    → IsValid t
    → IsValid (rmaliases force t)
      × ((q : Bytes) → head_byte q ≢ 0 → alias_text q (rmaliases force t) ≡ none)
rmaliases_lem force {t} v = (
  record {
    width = length-rmaliases force t ∙ v.width;
    placed = λ q real i. rw (get_or-rmaliases, named-rm_chain q real) (ground arith);
  },
  λ q real.
      rw (alias_text_lem, get_or-rmaliases) (text_in-none q _ (named-rm_chain q real force _)),
)

get_or-countaliases :
    (t : Table) (i : ℕ) → get_or (countaliases t).0 i [] ≡ (count_chain (get_or t i [])).0
unfolding countaliases count_chain
get_or-countaliases [] i = refl
get_or-countaliases (c ∷ t) zero = refl
get_or-countaliases (c ∷ t) (suc i) = get_or-countaliases t i

length-countaliases : (t : Table) → length (countaliases t).0 ≡ length t
unfolding countaliases
length-countaliases [] = refl
length-countaliases (c ∷ t) = ap suc (length-countaliases t)

-- `countaliases` frees dead aliases, and the map and the table's form stay as they are.
pub countaliases_lem :
    {t : Table}
    → IsValid t
    → IsValid (countaliases t).0
      × ((q : Bytes) → head_byte q ≢ 0 → alias_text q (countaliases t).0 ≡ alias_text q t)
countaliases_lem {t} v = (
  record {
    width = length-countaliases t ∙ v.width;
    placed = λ q real i. rw (get_or-countaliases, named-count_chain q real) (v.placed q real i);
  },
  λ q real.
      rw (alias_text_lem, alias_text_lem q t, get_or-countaliases) (text_in-count_chain q real _),
)
