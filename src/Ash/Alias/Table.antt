-- ===== src/Ash/Alias/Table.antt =====
-- ash/alias.c: the functions over the whole table `atab`.
use Prim.Native.Nat.{bit_or}
use minilib_ports.Common.{
  ℕ, ◌+◌, ◌-◌, ◌*◌, ◌%◌, ◌^◌, Bool, false, List, [], ◌∷◌, ◌++◌, Option, none, some, ltb,
  if◌then◌else◌, Bytes, head_byte, get_or, set, replicate,
}
use minilib_ports.Ash.Alias.Chain.{
  Alias, Chain, unalias_chain, rm_chain, lookup_chain, count_chain, collect_chain,
}

abbrev pub atabsize : ℕ
atabsize = 39

abbrev pub Table : Type 0
Table = List Chain

-- `atab` as the program starts.
unfoldable pub empty : Table
unfolding replicate
empty = replicate atabsize []

-- A `char` is signed: adding a byte from 128 on to an `unsigned int` subtracts.
abbrev pub char_value : ℕ → ℕ
char_value c = if ltb c 128 then c else 2 ^ 32 - 256 + c

hash_loop : ℕ → Bytes → ℕ
hash_loop hashval [] = hashval
hash_loop hashval (c ∷ p) = hash_loop ((hashval + char_value c) % 2 ^ 32) p

-- The index of the chain that the function returns the address of.
unfoldable pub hashalias : Bytes → ℕ
unfolding hash_loop
hashalias p = hash_loop (head_byte p * 2 ^ 4) p % atabsize

abbrev pub chain_of : Bytes → Table → Chain
chain_of name t = get_or t (hashalias name) []

unfoldable pub unalias : Bytes → Table → Table × ℕ
unfolding unalias_chain hashalias
unalias name t = let r = unalias_chain name (chain_of name t) in (set t (hashalias name) r.0, r.1)

unfoldable pub setalias : Bytes → Bytes → Table → Table
unfolding unalias
setalias name val t =
    let u = (unalias name t).0 in
    set u (hashalias name) ((record { name = name; val = val; flag = 0 }) ∷ chain_of name u)

unfoldable pub lookupalias : Bytes → Bool → Table → Option Alias
unfolding lookup_chain hashalias
lookupalias name check t = lookup_chain name check (chain_of name t)

unfoldable pub alias_text : Bytes → Table → Option Bytes
unfolding lookupalias
alias_text name t = elim (lookupalias name false t) [ none ↦ none | some ap ↦ some ap.val ]

unfoldable pub rmaliases : Bool → Table → Table
unfolding rm_chain
rmaliases force [] = []
rmaliases force (c ∷ t) = rm_chain force c ∷ rmaliases force t

unfoldable pub countaliases : Table → Table × ℕ
unfolding count_chain
countaliases [] = ([], 0)
countaliases (c ∷ t) =
    let r = count_chain c in let later = countaliases t in (r.0 ∷ later.0, r.1 + later.1)

-- The two loops of `list_aliases` that fill the array.
unfoldable pub collect : Table → Chain
unfolding collect_chain
collect [] = []
collect (c ∷ t) = collect_chain c ++ collect t

-- The loop over the arguments of `unaliascmd`.
unfoldable pub unalias_all : List Bytes → ℕ → Table → Table × ℕ
unfolding unalias
unalias_all [] i t = (t, i)
unalias_all (a ∷ args) i t = let r = unalias a t in unalias_all args (bit_or i r.1) r.0
