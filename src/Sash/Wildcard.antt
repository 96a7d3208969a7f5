-- ===== src/Sash/Wildcard.antt =====
-- sash-3.8/utils.c: `match`, which tells whether a wildcard pattern matches a text.
use minilib_ports.Common.{
  ℕ, zero, suc, ◌+◌, ◌*◌, Bool, true, false, ◌||◌, [], ◌∷◌, Option, none, some, ◌==◌, if◌then◌else◌,
  Bytes, head_byte, length,
}
use minilib_ports.Sash.Outcome.{Outcome, ok, stop, fault, no_fuel}
pub mod Meaning
pub mod Correct
pub mod Classes
pub mod Tests

-- `retryPat` and `retryText`, which are set together.
abbrev pub Retry : Type 0
Retry = Option (Bytes × Bytes)

-- The rest of the loop at a text and a pattern.
abbrev pub Loop : Type 0
Loop = Bytes → Bytes → Retry → Outcome Bool

-- A mismatch in the `default` case; a null pattern ends the loop.
unfoldable pub retry : Retry → Loop → Outcome Bool
retry none next = ok false
retry (some (pattern, [])) next = stop fault
retry (some (pattern, x ∷ text)) next = next text pattern (some (pattern, text))

-- A mismatch in the case `[`, which falls into the case `?`: one more byte of the text is taken. The
-- null pointer is stepped and read where no `*` was seen.
unfoldable pub retry_class : Retry → Loop → Outcome Bool
retry_class none next = stop fault
retry_class (some (pattern, [])) next = stop fault
retry_class (some (pattern, x ∷ [])) next = ok false
retry_class (some (pattern, x ∷ y ∷ text)) next = next text pattern (some (pattern, y ∷ text))

-- The loop over a class, for the byte `t` of the text: `found`, and the pattern behind the `]`.
unfoldable pub class_loop : ℕ → Bool → Bytes → Option (Bool × Bytes)
class_loop t found [] = none
class_loop t found (c ∷ []) = if c == b']' then some (found, []) else none
class_loop t found (c ∷ d ∷ p) =
    let quoted = class_loop t (found || t == d) p in
    let plain = class_loop t (found || t == c) (d ∷ p) in
    if c == b']' then some (found, d ∷ p) else if c == b'\\' then quoted else plain

-- `case '?'`
unfoldable pub any_byte : Bytes → Bytes → Retry → Loop → Outcome Bool
any_byte [] p back next = ok false
any_byte (x ∷ text) p back next = next text p back

-- `default`, for a byte `c` of the pattern other than the NUL.
unfoldable pub literal : ℕ → Bytes → Bytes → Retry → Loop → Outcome Bool
unfolding retry
literal c [] p back next = ok false
literal c (x ∷ text) p back next = if x == c then next text p back else retry back next

-- `case '['`
unfoldable pub class : Bytes → Bytes → Retry → Loop → Outcome Bool
unfolding class_loop retry_class any_byte
class text p back next = elim (class_loop (head_byte text) false p) [
  | none ↦ ok false
  | some (found, p') ↦ if found then any_byte text p' back next else retry_class back next
]

-- `case '\\'`
unfoldable pub quoted_byte : Bytes → Bytes → Retry → Loop → Outcome Bool
unfolding literal
quoted_byte text [] back next = ok false
quoted_byte text (d ∷ p) back next = literal d text p back next

-- One round of the loop. Behind the end of the pattern `ch` is the NUL, which no byte equals.
unfoldable pub round : Bytes → Bytes → Retry → Loop → Outcome Bool
unfolding retry class any_byte quoted_byte literal
round [] [] back next = ok true
round (x ∷ text) [] back next = retry back next
round text (c ∷ p) back next =
    if c == b'*'
    then next text p (some (p, text))
    else if c == b'['
    then class text p back next
    else if c == b'?'
    then any_byte text p back next
    else if c == b'\\'
    then quoted_byte text p back next
    else literal c text p back next

unfoldable pub match_loop : ℕ → Loop
unfolding round
match_loop zero text p back = stop no_fuel
match_loop (suc fuel) text p back = round text p back (match_loop fuel)

-- Enough for every text and pattern.
abbrev pub match_fuel : Bytes → Bytes → ℕ
match_fuel text pattern = (length text + 1) * (length pattern + 2)

unfoldable pub match : Bytes → Bytes → Outcome Bool
unfolding match_loop
match text pattern = match_loop (match_fuel text pattern) text pattern none
