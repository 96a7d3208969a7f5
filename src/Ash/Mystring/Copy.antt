-- ===== src/Ash/Mystring/Copy.antt =====
-- ash/mystring.c: what `scopyn` leaves in memory, and what `prefix` decides.
use minilib_ports.Common.{
  ℕ, zero, suc, ◌≤◌, ◌≡◌, ◌↔◌, refl, true, [], ◌∷◌, ◌++◌, arith, Bytes, length, take, drop,
}
use minilib_ports.Ash.Mystring.{scopyn, prefix}
use minilib_ports.Ash.Outcome.{ok}

-- In an object of at least `n + 1` bytes, `scopyn` with that size ends, and leaves there the first
-- `n` bytes of the string at most, a NUL, and behind it what was there.
pub scopyn_lem :
    (n : ℕ) (from to : Bytes)
    → suc n ≤ length to
    → scopyn from to (suc n) ≡ ok (take n from ++ 0 ∷ drop (suc (length (take n from))) to)
unfolding scopyn
scopyn_lem n from [] h = absurd (omega arith)
scopyn_lem zero from (x ∷ to) h = refl
scopyn_lem (suc n) [] (x ∷ to) h = refl
scopyn_lem (suc n) (c ∷ from) (x ∷ to) h = rw (scopyn_lem n from to (omega arith)) refl

prefix-append : (pfx rest : Bytes) → prefix pfx (pfx ++ rest) ≡ true
unfolding prefix
prefix-append [] rest = refl
prefix-append (c ∷ pfx) rest = ground (arith, prefix-append pfx rest)

rest_of : (pfx string : Bytes) → prefix pfx string ≡ true → (rest : Bytes) × (string ≡ pfx ++ rest)
unfolding prefix
rest_of [] string h = (string, refl)
rest_of (c ∷ pfx) [] h = absurd (cc)
rest_of (c ∷ pfx) (d ∷ string) h =
    let (rest, e) = rest_of pfx string (ground arith) in
    let same : c ≡ d = ground arith in (rest, cc)

-- `prefix` returns 1 exactly if the string goes on from the other one.
pub prefix_iff :
    (pfx string : Bytes) → (prefix pfx string ≡ true) ↔ ((rest : Bytes) × (string ≡ pfx ++ rest))
prefix_iff pfx string =
    (rest_of pfx string, λ r. let (rest, e) = r in rw e (prefix-append pfx rest))
