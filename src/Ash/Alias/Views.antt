-- ===== src/Ash/Alias/Views.antt =====
-- ash/alias.c against a finite map: what a lookup reads after each operation.
-- A dead alias has the empty name, so the map is read at names that have a byte before the NUL.
use minilib_ports.Common.{
  ℕ, ◌+◌, ◌-◌, ◌≤◌, ◌≡◌, ◌≢◌, refl, Bool, false, [], ◌∷◌, Option, none, some, arith, ◌==◌,
  if◌then◌else◌, Bytes, head_byte, equal, equal_iff, equal_nil,
}
use minilib_ports.Ash.Alias.Chain.{Chain, unalias_chain, rm_chain, lookup_chain, count_chain}

-- How many aliases of a chain have the name `q`.
abbrev pub named : Bytes → Chain → ℕ
named q [] = 0
named q (ap ∷ c) = (if equal q ap.name then 1 else 0) + named q c

-- The text under `q` in a chain.
abbrev pub text_in : Bytes → Chain → Option Bytes
text_in q [] = none
text_in q (ap ∷ c) = if equal q ap.name then some ap.val else text_in q c

pub text_in-lookup :
    (q : Bytes) (c : Chain)
    → (elim (lookup_chain q false c) as (λ _. Option Bytes) [ none ↦ none | some ap ↦ some ap.val ])
      ≡ text_in q c
unfolding lookup_chain
text_in-lookup q [] = refl
text_in-lookup q (ap ∷ c) = ground (arith, text_in-lookup q c)

pub text_in-none : (q : Bytes) (c : Chain) → named q c ≡ 0 → text_in q c ≡ none
text_in-none q [] h = refl
text_in-none q (ap ∷ c) h = ground (arith, text_in-none q c)

module _ (q : Bytes) (real : head_byte q ≢ 0) where
  pub named-unalias_chain :
      (n : Bytes) (c : Chain)
      → named q (unalias_chain n c).0 ≡ (if equal q n then named q c - 1 else named q c)
  unfolding unalias_chain
  named-unalias_chain n [] = ground arith
  named-unalias_chain n (ap ∷ c) = ground (
    arith,
    named-unalias_chain n c,
    equal_nil q,
    equal_iff q n,
    equal_iff n ap.name,
    equal_iff q ap.name,
  )

  pub text_in-unalias_chain :
      (n : Bytes) (c : Chain)
      → named q c ≤ 1
      → text_in q (unalias_chain n c).0 ≡ (if equal q n then none else text_in q c)
  unfolding unalias_chain
  text_in-unalias_chain n [] h = ground arith
  text_in-unalias_chain n (ap ∷ c) h = ground (
    arith,
    text_in-unalias_chain n c,
    text_in-none q c,
    equal_nil q,
    equal_iff q n,
    equal_iff n ap.name,
    equal_iff q ap.name,
  )

  pub named-rm_chain : (force : Bool) (c : Chain) → named q (rm_chain force c) ≡ 0
  unfolding rm_chain
  named-rm_chain force [] = refl
  named-rm_chain force (ap ∷ c) = ground (arith, named-rm_chain force c, equal_nil q)

  pub text_in-count_chain : (c : Chain) → text_in q (count_chain c).0 ≡ text_in q c
  unfolding count_chain
  text_in-count_chain [] = refl
  text_in-count_chain (ap ∷ c) =
      ground (arith, text_in-count_chain c, equal_nil q, equal_iff q ap.name)

  pub named-count_chain : (c : Chain) → named q (count_chain c).0 ≡ named q c
  unfolding count_chain
  named-count_chain [] = refl
  named-count_chain (ap ∷ c) = ground (arith, named-count_chain c, equal_nil q, equal_iff q ap.name)

-- The result of `unalias` is 0 exactly if there was such an alias.
pub unalias_chain-found :
    (q : Bytes) (c : Chain) → (unalias_chain q c).1 ≡ (if named q c == 0 then 1 else 0)
unfolding unalias_chain
unalias_chain-found q [] = refl
unalias_chain-found q (ap ∷ c) = ground (arith, unalias_chain-found q c)

pub unalias_chain_le : (q : Bytes) (c : Chain) → (unalias_chain q c).1 ≤ 1
unalias_chain_le q c = ground (arith, unalias_chain-found q c)
