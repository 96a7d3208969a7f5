-- ===== src/Sash/Wildcard/Classes.antt =====
-- sash-3.8/utils.c: what `match` does with a class at the front of a pattern.
use minilib_ports.Common.{
  ℕ, suc, ◌+◌, ◌-◌, ◌*◌, ◌<◌, ◌≡◌, refl, ◌∙◌, Bool, true, false, not, ◌&&◌, ◌||◌, [], ◌∷◌, ◌++◌,
  none, some, arith, ◌==◌, if◌then◌else◌, Bytes, length, length-append, Bool-cases, inl, inr,
}
use minilib_ports.Sash.Outcome.{ok, stop, fault}
use minilib_ports.Sash.Wildcard.{
  round, match_loop, match_fuel, match, class, class_loop, any_byte, retry_class,
}
use minilib_ports.Sash.Wildcard.Correct.{loop-Right}
use minilib_ports.Sash.Wildcard.Meaning.{matches, no_class, any_end-now}

-- No byte ends a class or quotes the next one.
unfoldable pub is_plain : Bytes → Bool
is_plain [] = true
is_plain (c ∷ cs) = not (c == b']') && not (c == b'\\') && is_plain cs

unfoldable pub has : ℕ → Bytes → Bool
has x [] = false
has x (c ∷ cs) = x == c || has x cs

class_loop-end :
    (x : ℕ) (found : Bool) (p : Bytes) → class_loop x found (b']' ∷ p) ≡ some (found, p)
unfolding class_loop
class_loop-end x found [] = refl
class_loop-end x found (d ∷ p) = refl

class_loop-byte :
    (x : ℕ) (found : Bool) (c d : ℕ) (s : Bytes)
    → (c == b']') ≡ false
    → (c == b'\\') ≡ false
    → class_loop x found (c ∷ d ∷ s) ≡ class_loop x (found || x == c) (d ∷ s)
unfolding class_loop
class_loop-byte x found c d s h k = rw (h, k) refl

or_or : (a b c : Bool) → ((a || b) || c) ≡ (a || (b || c))
or_or true b c = refl
or_or false b c = refl

or_false : (a : Bool) → (a || false) ≡ a
or_false true = refl
or_false false = refl

class_loop_lem :
    (x : ℕ) (found : Bool) (cs p : Bytes)
    → is_plain cs ≡ true
    → class_loop x found (cs ++ b']' ∷ p) ≡ some (found || has x cs, p)
unfolding is_plain has
class_loop_lem x found [] p h = class_loop-end x found p ∙ rw or_false refl
class_loop_lem x found (c ∷ []) p h =
    class_loop-byte x found c b']' p (ground arith) (ground arith)
    ∙ class_loop-end x (found || x == c) p
    ∙ rw (or_false (x == c)) refl
class_loop_lem x found (c ∷ d ∷ cs) p h =
    class_loop-byte x found c d (cs ++ b']' ∷ p) (ground arith) (ground arith)
    ∙ class_loop_lem x (found || x == c) (d ∷ cs) p (ground arith)
    ∙ rw (or_or found (x == c) (has x (d ∷ cs))) refl

enough : (t p k : ℕ) → t * (p + 1) + p < (suc t + 1) * (p + 2 + k + 2) - 1
enough t p k = grind arith

-- A pattern begins with a class of bytes, none of them `]` or a backslash, and no class begins
-- behind it. If the first byte of the text is in the class, `match` tells whether what is behind the
-- class matches what is behind the byte. Otherwise it reads through a null pointer that it has
-- stepped.
pub match-class :
    (x : ℕ) (text cs p : Bytes)
    → is_plain cs ≡ true
    → no_class p ≡ true
    → match (x ∷ text) (b'[' ∷ cs ++ b']' ∷ p)
      ≡ (if has x cs then ok (matches p text) else stop fault)
unfolding match match_loop round class any_byte retry_class
match-class x text cs p h k =
    let pattern : Bytes = b'[' ∷ cs ++ b']' ∷ p in
    let fuel : ℕ = match_fuel (x ∷ text) pattern in
    let size : length pattern ≡ length p + 2 + length cs =
      omega (arith, length-append cs (b']' ∷ p)) in
    let room : length text * (length p + 1) + length p < fuel - 1 =
      rw size (enough (length text) (length p) (length cs)) in
    let e : fuel ≡ suc (fuel - 1) = omega arith in
    let found : class_loop x false (cs ++ b']' ∷ p) ≡ some (has x cs, p) =
      class_loop_lem x false cs p h in
    elim (Bool-cases (has x cs)) [
      | inl is_in ↦
          rw (e, match_loop, round, class, found, is_in)
            (loop-Right (matches p text) (length p + 1) (fuel - 1) (length text) text p none
              (record {
                enough_here = λ m. m;
                some_end = any_end-now (matches p) text;
                saved = λ m. m;
                text_bound = omega arith;
                pattern_bound = omega arith;
                fuel_bound = room;
                classless = k;
              }))
      | inr out ↦ rw (e, match_loop, round, class, found, out) refl
    ]
