-- ===== src/Ash/Options.antt =====
-- ash/options.c: `nextopt`, the option parser of the built-in commands.
pub mod Scan
mod Tests
use minilib_ports.Common.{
  ℕ, Bool, true, false, List, [], ◌∷◌, Option, none, some, ◌==◌, if◌then◌else◌, Bytes, head_byte,
}
use minilib_ports.Ash.Outcome.{Outcome, ok, err, illegal_option, no_arg}

-- `argptr`, `optptr` and `optionarg`
pub record OptState : Type 0 where
  pub argptr : List Bytes
  pub optptr : Option Bytes
  pub optionarg : Option Bytes

-- The `for` loop: `q` as it stands at the option's letter, `none` for the error.
unfoldable pub find_option : Bytes → ℕ → Option Bytes
find_option [] c = none
find_option (x ∷ []) c = if x == c then some (x ∷ []) else none
find_option (x ∷ y ∷ q) c =
    let past = find_option q c in
    let next = find_option (y ∷ q) c in
    if x == c then some (x ∷ y ∷ q) else if y == b':' then past else next

-- From `c = *p++` on, with `p` the rest of the word behind the letter, and the words behind it.
-- `p = NULL` is `none`.
unfoldable pub take_option : Bytes → ℕ → Bytes → OptState → Outcome (ℕ × OptState)
unfolding find_option
take_option optstring c p s = elim (find_option optstring c) [
  | none ↦ err (illegal_option c)
  | some [] ↦ err (illegal_option c)
  | some (x ∷ q) ↦
      if head_byte q == b':'
      then (elim p [
        | [] ↦ elim s.argptr [
          | [] ↦ err (no_arg c)
          | a ∷ args ↦ ok (c, record { argptr = args; optptr = none; optionarg = some a })
        ]
        | d ∷ p' ↦ ok (c, record s { optptr = none; optionarg = some (d ∷ p') })
      ])
      else ok (c, record s { optptr = some p })
]

-- The first `if`, where `optptr` holds no more letters. The result 0 is `'\0'`.
unfoldable pub next_word : Bytes → List Bytes → OptState → Outcome (ℕ × OptState)
unfolding take_option
next_word optstring [] s = ok (0, s)
next_word optstring ([] ∷ args) s = ok (0, s)
next_word optstring ((d ∷ []) ∷ args) s = ok (0, s)
next_word optstring ((d ∷ c ∷ p) ∷ args) s =
    if d == b'-'
    then (if c == b'-'
        then (elim p [
          | [] ↦ ok (0, record s { argptr = args })
          | x ∷ p' ↦ take_option optstring c (x ∷ p') (record s { argptr = args })
        ])
        else take_option optstring c p (record s { argptr = args }))
    else ok (0, s)

-- `nextopt`, for an `optstring` that is not `NULL`.
unfoldable pub nextopt : Bytes → OptState → Outcome (ℕ × OptState)
unfolding next_word
nextopt optstring s = elim s.optptr [
  | none ↦ next_word optstring s.argptr s
  | some [] ↦ next_word optstring s.argptr s
  | some (c ∷ p) ↦ take_option optstring c p s
]
