-- ===== src/Ash/Options/Scan.antt =====
-- ash/options.c: what `nextopt` returns, and that the loops over its results end.
use minilib_ports.Common.{
  ℕ, suc, ◌+◌, ◌≤◌, ◌<◌, ◌≡◌, ◌≢◌, refl, sym, subst, true, false, List, [], ◌∷◌, Option, none, some,
  inl, inr, ◌⊎◌, arith, ◌==◌, ==_iff, Bytes, length, Option-cases, Bool-cases,
}
use minilib_ports.Ash.Outcome.{ok}
use minilib_ports.Ash.Options.{OptState, find_option, take_option, next_word, nextopt}

-- The letters that `optstring` offers: a colon marks the letter before it, and is none itself.
pub data Offers : Bytes → ℕ → Type 0 where
  here : {x : ℕ} {q : Bytes} → Offers (x ∷ q) x
  skip : {x c : ℕ} {q : Bytes} → Offers q c → Offers (x ∷ b':' ∷ q) c
  next : {x y c : ℕ} {q : Bytes} → y ≢ b':' → Offers (y ∷ q) c → Offers (x ∷ y ∷ q) c

pub Offers-here : (x c : ℕ) (q : Bytes) → x ≡ c → Offers (x ∷ q) c
Offers-here x c q e = subst (λ k. Offers (x ∷ q) k) e here

pub find_option-Offers : (q : Bytes) (c : ℕ) (r : Bytes) → find_option q c ≡ some r → Offers q c
unfolding find_option
find_option-Offers [] c r h = cc
find_option-Offers (x ∷ []) c r h = Offers-here x c [] (ground arith)
find_option-Offers (x ∷ y ∷ q) c r h = elim (Bool-cases (x == c)) [
  | inl e ↦ Offers-here x c (y ∷ q) ((==_iff x c).0 e)
  | inr n ↦ elim (Bool-cases (y == b':')) [
    | inl colon ↦ rw ((==_iff y b':').0 colon) (skip (find_option-Offers q c r (ground arith)))
    | inr plain ↦ next (ground arith) (find_option-Offers (y ∷ q) c r (ground arith))
  ]
]

-- The bytes that are still to be scanned, with one more for each word.
abbrev pub pending_words : List Bytes → ℕ
pending_words [] = 0
pending_words (w ∷ ws) = suc (length w) + pending_words ws

abbrev pub pending : OptState → ℕ
pending s = elim s.optptr as (λ _. ℕ) [ none ↦ 0 | some p ↦ length p ] + pending_words s.argptr

-- A letter was returned: it is offered, and less is left to scan. Or the scan is over.
abbrev pub Scanned : Bytes → OptState → ℕ × OptState → Type 0
Scanned optstring s r = (r.0 ≡ 0) ⊎ (Offers optstring r.0 × (pending r.1 < pending s))

module _ (optstring : Bytes) (c : ℕ) (p : Bytes) (s : OptState) where
  take_option-pending :
      {r : ℕ × OptState}
      → take_option optstring c p s ≡ ok r
      → (r.0 ≡ c) × (pending r.1 ≤ length p + pending_words s.argptr)
  unfolding take_option
  take_option-pending h = ground arith

  take_option-Offers : {r : ℕ × OptState} → take_option optstring c p s ≡ ok r → Offers optstring c
  unfolding take_option
  take_option-Offers h = elim (Option-cases (find_option optstring c)) [
    | inl e ↦ absurd (ground arith)
    | inr (q, e) ↦ find_option-Offers optstring c q e
  ]

  take_option-Scanned :
      (u : OptState) {r : ℕ × OptState}
      → take_option optstring c p s ≡ ok r
      → length p + pending_words s.argptr < pending u
      → Scanned optstring u r
  take_option-Scanned u {r} h lt =
      let (e, le) = take_option-pending h in
      inr (subst (λ k. Offers optstring k) (sym e) (take_option-Offers h), omega arith)

word_cases :
    (c : ℕ) (p : Bytes) → ((c == b'-') ≡ true) × (p ≡ []) ⊎ ((c == b'-') ≡ false) ⊎ (p ≢ [])
word_cases c [] = ground arith
word_cases c (x ∷ p) = inr (inr (ground arith))

next_word-Scanned :
    (optstring : Bytes) (args : List Bytes) (s : OptState) {r : ℕ × OptState}
    → pending_words args ≤ pending s
    → next_word optstring args s ≡ ok r
    → Scanned optstring s r
unfolding next_word
next_word-Scanned optstring [] s le h = inl (ground arith)
next_word-Scanned optstring ([] ∷ args) s le h = inl (ground arith)
next_word-Scanned optstring ((d ∷ []) ∷ args) s le h = inl (ground arith)
next_word-Scanned optstring ((d ∷ c ∷ p) ∷ args) s {r} le h = elim (Bool-cases (d == b'-')) [
  | inr n ↦ inl (ground arith)
  | inl dash ↦ elim (word_cases c p) [
    | inl ends ↦ inl (ground arith)
    | inr goes ↦
        take_option-Scanned optstring c p (record s { argptr = args }) s {r = r} (ground arith)
          (ground arith)
  ]
]

nextopt-by_optptr :
    (optstring : Bytes) (s : OptState) {r : ℕ × OptState} (o : Option Bytes)
    → s.optptr ≡ o
    → nextopt optstring s ≡ ok r
    → Scanned optstring s r
unfolding nextopt
nextopt-by_optptr optstring s {r} none e h =
    next_word-Scanned optstring s.argptr s {r = r} (omega arith) (ground arith)
nextopt-by_optptr optstring s {r} (some []) e h =
    next_word-Scanned optstring s.argptr s {r = r} (omega arith) (ground arith)
nextopt-by_optptr optstring s {r} (some (c ∷ p)) e h =
    take_option-Scanned optstring c p s s {r = r} (ground arith) (ground arith)

-- Each call of `nextopt` that ends with no error returns 0, or returns a letter that `optstring`
-- offers and leaves less to scan: a loop over its results ends.
pub nextopt-Scanned :
    (optstring : Bytes) (s : OptState) {r : ℕ × OptState}
    → nextopt optstring s ≡ ok r
    → Scanned optstring s r
nextopt-Scanned optstring s h = nextopt-by_optptr optstring s s.optptr refl h
