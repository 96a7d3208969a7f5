-- ===== src/Ash/Alias/Chain.antt =====
-- ash/alias.c on one chain of the table.
use Prim.Native.Nat.{bit_and}
use minilib_ports.Common.{
  ℕ, ◌+◌, Bool, false, not, ◌&&◌, List, [], ◌∷◌, ◌++◌, Option, none, some, ◌==◌, if◌then◌else◌,
  Bytes, head_byte, equal,
}

-- `struct alias`; `next` is the tail of the chain.
pub record Alias : Type 0 where
  pub name : Bytes
  pub val : Bytes
  pub flag : ℕ

abbrev pub Chain : Type 0
Chain = List Alias

abbrev pub alias_in_use : ℕ
alias_in_use = 1

-- `ap->flag & ALIASINUSE`, as a test
unfoldable pub in_use : Alias → Bool
in_use ap = not (bit_and ap.flag alias_in_use == 0)

-- What stays in front of the pointer that is returned, and the chain that it points to.
unfoldable pub freealias : Chain → Bool → Chain × Chain
unfolding in_use
freealias [] force = ([], [])
freealias (ap ∷ next) force =
    if in_use ap && not force then ((record ap { name = [] }) ∷ [], next) else ([], next)

-- The loop of `unalias` over a chain, with the chain that it leaves.
unfoldable pub unalias_chain : Bytes → Chain → Chain × ℕ
unfolding freealias
unalias_chain name [] = ([], 1)
unalias_chain name (ap ∷ next) =
    let freed = freealias (ap ∷ next) false in
    let later = unalias_chain name next in
    if equal name ap.name then (freed.0 ++ freed.1, 0) else (ap ∷ later.0, later.1)

-- The inner loop of `rmaliases`: `freealias` always returns a pointer to `next`.
unfoldable pub rm_chain : Bool → Chain → Chain
unfolding freealias
rm_chain force [] = []
rm_chain force (ap ∷ next) = (freealias (ap ∷ next) force).0 ++ rm_chain force next

-- The loop of `lookupalias`.
unfoldable pub lookup_chain : Bytes → Bool → Chain → Option Alias
unfolding in_use
lookup_chain name check [] = none
lookup_chain name check (ap ∷ next) =
    let later = lookup_chain name check next in
    if equal name ap.name then (if check && in_use ap then none else some ap) else later

-- `ap->name[0] != '\0'`
abbrev pub is_named : Alias → Bool
is_named ap = not (head_byte ap.name == 0)

-- The inner loop of `countaliases`: the chain that it leaves, and what it adds to `n`.
unfoldable pub count_chain : Chain → Chain × ℕ
unfolding freealias
count_chain [] = ([], 0)
count_chain (ap ∷ next) =
    let later = count_chain next in
    if is_named ap
    then (ap ∷ later.0, later.1 + 1)
    else ((freealias (ap ∷ next) false).0 ++ later.0, later.1)

-- The inner loop of `list_aliases`.
unfoldable pub collect_chain : Chain → Chain
collect_chain [] = []
collect_chain (ap ∷ next) = if is_named ap then ap ∷ collect_chain next else collect_chain next
