-- ===== src/Ash/Alias/Keeps.antt =====
-- ash/alias.c: an alias whose text the input routine is reading is never freed.
use minilib_ports.Common.{
  ℕ, zero, suc, ◌≡◌, refl, ap, ◌∙◌, false, List, [], ◌∷◌, arith, if◌then◌else◌, Bytes, get_or, set,
  length,
}
use minilib_ports.Ash.Alias.Chain.{
  Chain, in_use, unalias_chain, rm_chain, count_chain, collect_chain,
}
use minilib_ports.Ash.Alias.Table.{
  Table, hashalias, chain_of, unalias, setalias, rmaliases, countaliases, unalias_all,
}

-- The texts that are being read, in the order of a chain.
abbrev pub reading_in : Chain → List Bytes
reading_in [] = []
reading_in (ap ∷ c) = if in_use ap then ap.val ∷ reading_in c else reading_in c

abbrev pub reading : Table → List (List Bytes)
reading [] = []
reading (c ∷ t) = reading_in c ∷ reading t

unalias_chain-keeps : (n : Bytes) (c : Chain) → reading_in (unalias_chain n c).0 ≡ reading_in c
unfolding unalias_chain in_use
unalias_chain-keeps n [] = refl
unalias_chain-keeps n (ap ∷ c) = ground (arith, unalias_chain-keeps n c)

rm_chain-keeps : (c : Chain) → reading_in (rm_chain false c) ≡ reading_in c
unfolding rm_chain in_use
rm_chain-keeps [] = refl
rm_chain-keeps (ap ∷ c) = ground (arith, rm_chain-keeps c)

count_chain-keeps : (c : Chain) → reading_in (count_chain c).0 ≡ reading_in c
unfolding count_chain in_use
count_chain-keeps [] = refl
count_chain-keeps (ap ∷ c) = ground (arith, count_chain-keeps c)

reading-set :
    (t : Table) (i : ℕ) (c : Chain)
    → reading_in c ≡ reading_in (get_or t i [])
    → reading (set t i c) ≡ reading t
reading-set [] i c e = refl
reading-set (d ∷ t) zero c e = rw e
reading-set (d ∷ t) (suc i) c e = rw (reading-set t i c e)

pub unalias-keeps : (n : Bytes) (t : Table) → reading (unalias n t).0 ≡ reading t
unfolding unalias
unalias-keeps n t = reading-set t (hashalias n) _ (unalias_chain-keeps n (chain_of n t))

pub setalias-keeps : (n x : Bytes) (t : Table) → reading (setalias n x t) ≡ reading t
unfolding setalias in_use
setalias-keeps n x t = reading-set _ (hashalias n) _ refl ∙ unalias-keeps n t

pub rmaliases-keeps : (t : Table) → reading (rmaliases false t) ≡ reading t
unfolding rmaliases
rmaliases-keeps [] = refl
rmaliases-keeps (c ∷ t) = rw (rm_chain-keeps, rmaliases-keeps t)

pub countaliases-keeps : (t : Table) → reading (countaliases t).0 ≡ reading t
unfolding countaliases
countaliases-keeps [] = refl
countaliases-keeps (c ∷ t) = rw (count_chain-keeps, countaliases-keeps t)

pub unalias_all-keeps :
    (args : List Bytes) (i : ℕ) (t : Table) → reading (unalias_all args i t).0 ≡ reading t
unfolding unalias_all
unalias_all-keeps [] i t = refl
unalias_all-keeps (a ∷ args) i t = unalias_all-keeps args _ (unalias a t).0 ∙ unalias-keeps a t

pub length-collect_chain :
    (c : Chain) → (count_chain c).1 ≡ length (collect_chain (count_chain c).0)
unfolding count_chain collect_chain in_use
length-collect_chain [] = refl
length-collect_chain (ap ∷ c) = ground (arith, length-collect_chain c)

-- Short of a forced `rmaliases`, no operation frees an alias whose text is being read, or changes
-- its text: in every chain the texts that are being read stay the same, in the same order.
pub reading_kept :
    (n x : Bytes) (args : List Bytes) (i : ℕ) (t : Table)
    → (reading (setalias n x t) ≡ reading t)
      × (reading (unalias n t).0 ≡ reading t)
      × (reading (unalias_all args i t).0 ≡ reading t)
      × (reading (rmaliases false t) ≡ reading t)
      × (reading (countaliases t).0 ≡ reading t)
reading_kept n x args i t = (
  setalias-keeps n x t,
  unalias-keeps n t,
  unalias_all-keeps args i t,
  rmaliases-keeps t,
  countaliases-keeps t,
)
