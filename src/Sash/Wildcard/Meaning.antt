-- ===== src/Sash/Wildcard/Meaning.antt =====
-- What a wildcard pattern with no class means, by recursion on the pattern.
use minilib_ports.Common.{
  ℕ, ◌≡◌, refl, Bool, true, false, not, ◌&&◌, ◌||◌, [], ◌∷◌, arith, ◌==◌, if◌then◌else◌, Bytes,
}

-- Some end of the text satisfies `f`.
abbrev pub any_end : (Bytes → Bool) → Bytes → Bool
any_end f [] = f []
any_end f (x ∷ s) = f (x ∷ s) || any_end f s

abbrev pub is_nil : Bytes → Bool
is_nil [] = true
is_nil (x ∷ s) = false

-- The first byte satisfies `test`, and what is behind it satisfies `f`.
abbrev pub starts : (ℕ → Bool) → (Bytes → Bool) → Bytes → Bool
starts test f [] = false
starts test f (x ∷ s) = test x && f s

abbrev pub is_byte : ℕ → ℕ → Bool
is_byte c x = x == c

abbrev pub every : ℕ → Bool
every x = true

-- `*` stands for any text, `?` for any byte, and a backslash makes the next byte stand for itself; at
-- the end of the pattern it matches nothing.
unfoldable pub matches : Bytes → Bytes → Bool
matches [] = is_nil
matches (c ∷ []) =
    if c == b'*'
    then any_end is_nil
    else if c == b'?'
    then starts every is_nil
    else if c == b'\\'
    then (λ s. false)
    else starts (is_byte c) is_nil
matches (c ∷ d ∷ p) =
    let more = matches (d ∷ p) in
    let behind = matches p in
    if c == b'*'
    then any_end more
    else if c == b'?'
    then starts every more
    else if c == b'\\'
    then starts (is_byte d) behind
    else starts (is_byte c) more

-- No class begins in the pattern.
unfoldable pub no_class : Bytes → Bool
no_class [] = true
no_class (c ∷ []) = not (c == b'[')
no_class (c ∷ d ∷ p) =
    let more = no_class (d ∷ p) in
    let behind = no_class p in if c == b'\\' then behind else not (c == b'[') && more

pub any_end-now : (f : Bytes → Bool) (s : Bytes) → f s ≡ true → any_end f s ≡ true
any_end-now f [] h = h
any_end-now f (x ∷ s) h = ground arith

pub any_end-never :
    (f : Bytes → Bool) → ((s : Bytes) → f s ≡ false) → (s : Bytes) → any_end f s ≡ false
any_end-never f h [] = h []
any_end-never f h (x ∷ s) = ground (arith, h (x ∷ s), any_end-never f h s)

pub any_end-any_end : (f : Bytes → Bool) (s : Bytes) → any_end (any_end f) s ≡ any_end f s
any_end-any_end f [] = refl
any_end-any_end f (x ∷ s) = ground (arith, any_end-any_end f s)

-- If the end that satisfies `starts` loses its first byte, so may the text.
pub any_end-starts :
    (test : ℕ → Bool) (f : Bytes → Bool) (x : ℕ) (s : Bytes)
    → any_end (starts test f) (x ∷ s) ≡ true
    → any_end f s ≡ true
any_end-starts test f x [] h = ground arith
any_end-starts test f x (y ∷ s) h = ground (arith, any_end-starts test f y s)

pub matches-star : (c : ℕ) (p : Bytes) → (c == b'*') ≡ true → matches (c ∷ p) ≡ any_end (matches p)
unfolding matches
matches-star c [] h = rw h refl
matches-star c (d ∷ p) h = rw h refl

module _ (c : ℕ) (star : (c == b'*') ≡ false) where
  pub matches-any : (p : Bytes) → (c == b'?') ≡ true → matches (c ∷ p) ≡ starts every (matches p)
  unfolding matches
  matches-any [] h = rw (star, h) refl
  matches-any (d ∷ p) h = rw (star, h) refl

  module _ (any : (c == b'?') ≡ false) where
    pub matches-quote : (c == b'\\') ≡ true → (s : Bytes) → matches (c ∷ []) s ≡ false
    unfolding matches
    matches-quote h s = rw (star, any, h) refl

    pub matches-quoted :
        (d : ℕ) (p : Bytes)
        → (c == b'\\') ≡ true
        → matches (c ∷ d ∷ p) ≡ starts (is_byte d) (matches p)
    unfolding matches
    matches-quoted d p h = rw (star, any, h) refl

    pub matches-plain :
        (p : Bytes) → (c == b'\\') ≡ false → matches (c ∷ p) ≡ starts (is_byte c) (matches p)
    unfolding matches
    matches-plain [] h = rw (star, any, h) refl
    matches-plain (d ∷ p) h = rw (star, any, h) refl

-- What is left of a pattern with no class has none.
pub no_class-plain :
    (c : ℕ) (p : Bytes)
    → no_class (c ∷ p) ≡ true
    → (c == b'\\') ≡ false
    → ((c == b'[') ≡ false) × (no_class p ≡ true)
unfolding no_class
no_class-plain c [] h q = ground arith
no_class-plain c (d ∷ p) h q = ground arith

pub no_class-quoted :
    (c d : ℕ) (p : Bytes) → no_class (c ∷ d ∷ p) ≡ true → (c == b'\\') ≡ true → no_class p ≡ true
unfolding no_class
no_class-quoted c d p h q = ground arith
