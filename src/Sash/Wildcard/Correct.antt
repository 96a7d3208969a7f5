-- ===== src/Sash/Wildcard/Correct.antt =====
-- sash-3.8/utils.c: `match` ends, stays inside its strings and is right, for patterns with no class.
use minilib_ports.Common.{
  ℕ, zero, suc, ◌+◌, ◌*◌, ◌≤◌, ◌<◌, ◌≡◌, refl, sym, ap, ◌∙◌, Bool, true, false, [], ◌∷◌, none, some,
  arith, ◌==◌, Bytes, length, Bool-cases, inl, inr,
}
use minilib_ports.Sash.Outcome.{ok}
use minilib_ports.Sash.Wildcard.{
  Retry, Loop, retry, any_byte, literal, quoted_byte, round, match_loop, match,
}
use minilib_ports.Sash.Wildcard.Meaning.{
  any_end, starts, every, is_byte, matches, no_class, any_end-now, any_end-never, any_end-any_end,
  any_end-starts, matches-star, matches-any, matches-quote, matches-quoted, matches-plain,
  no_class-plain, no_class-quoted,
}

-- `answer` is whether the whole pattern matches the whole text, and every pattern that the loop
-- sees is shorter than `bound`.
module _ (answer : Bool) (bound : ℕ) where
  -- What a saved `*` says; `left` bounds the text that it may still take.
  abbrev pub Saves : ℕ → Bytes → Bytes → Retry → Type 0
  Saves left text p none = answer ≡ true → matches p text ≡ true
  Saves left text p (some (bp, bt)) =
      (answer ≡ any_end (matches bp) bt)
      × (matches bp bt ≡ true → matches p text ≡ true)
      × (length text ≤ length bt)
      × (length bt ≤ left)
      × (length bp < bound)
      × (no_class bp ≡ true)

  pub record Good (fuel left : ℕ) (text p : Bytes) (back : Retry) : Type 0 where
    pub enough_here : matches p text ≡ true → answer ≡ true
    pub some_end : answer ≡ true → any_end (matches p) text ≡ true
    pub saved : Saves left text p back
    pub text_bound : length text ≤ left
    pub pattern_bound : length p < bound
    pub fuel_bound : left * bound + length p < fuel
    pub classless : no_class p ≡ true

  abbrev pub Right : Loop → ℕ → Type 0
  Right next fuel =
      (left : ℕ) (text p : Bytes) (back : Retry)
      → Good fuel left text p back
      → next text p back ≡ ok answer

  -- Where a `*` starts again, at the text `bt` and with the pattern `bp` behind it.
  Good-star :
      {fuel left : ℕ} {bt bp : Bytes}
      → answer ≡ any_end (matches bp) bt
      → length bt ≤ left
      → length bp < bound
      → left * bound + length bp < fuel
      → no_class bp ≡ true
      → Good fuel left bt bp (some (bp, bt))
  Good-star {bt} {bp} e ht hp hf hc = record {
    enough_here = λ h. e ∙ any_end-now (matches bp) bt h;
    some_end = λ h. sym e ∙ h;
    saved = (e, λ h. h, omega arith, ht, hp, hc);
    text_bound = ht;
    pattern_bound = hp;
    fuel_bound = hf;
    classless = hc;
  }

  -- A mismatch: the last `*` takes one more byte.
  retry-Right :
      {fuel : ℕ} (left : ℕ) (x : ℕ) (text p : Bytes) (back : Retry) (next : Loop)
      → Right next fuel
      → Good (suc fuel) left (x ∷ text) p back
      → matches p (x ∷ text) ≡ false
      → retry back next ≡ ok answer
  unfolding retry
  retry-Right left x text p none next ih g no_match =
      let e : answer ≡ false = ground (arith, g.saved) in rw e refl
  retry-Right left x text p (some (bp, [])) next ih g no_match = absurd (omega (arith, g.saved))
  retry-Right zero x text p (some (bp, y ∷ bt)) next ih g no_match = absurd (omega (arith, g.saved))
  retry-Right (suc left) x text p (some (bp, y ∷ bt)) next ih g no_match =
      let (e, down, shorter, hs, hp, hc) = g.saved in
      ih left bt bp (some (bp, bt)) (Good-star (ground arith) (omega arith) hp (omega arith) hc)

  -- A byte of the pattern that wants one byte of the text.
  module _ (test : ℕ → Bool) (fuel left : ℕ) (p q : Bytes) (back : Retry) (next : Loop)
      (ih : Right next fuel) (shorter : length q < length p)
      (means : (s : Bytes) → matches p s ≡ starts test (matches q) s)
      (plain : no_class q ≡ true) where
    any_end-means : (s : Bytes) → any_end (matches p) s ≡ any_end (starts test (matches q)) s
    any_end-means [] = means []
    any_end-means (x ∷ s) = ground (arith, means (x ∷ s), any_end-means s)

    Saves-byte :
        (x : ℕ) (text : Bytes) (b : Retry) → Saves left (x ∷ text) p b → Saves left text q b
    Saves-byte x text none h = λ a. ground (arith, h a, means (x ∷ text))
    Saves-byte x text (some (bp, bt)) (e, down, len, hs, hp, hc) =
        (e, λ m. ground (arith, down m, means (x ∷ text)), omega arith, hs, hp, hc)

    next-Right :
        (x : ℕ) (text : Bytes)
        → Good (suc fuel) left (x ∷ text) p back
        → test x ≡ true
        → next text q back ≡ ok answer
    next-Right x text g t = ih left text q back (record {
      enough_here = λ m. g.enough_here (ground (arith, means (x ∷ text)));
      some_end = λ a.
          any_end-starts test (matches q) x text (sym (any_end-means (x ∷ text)) ∙ g.some_end a);
      saved = Saves-byte x text back g.saved;
      text_bound = omega (arith, g.text_bound);
      pattern_bound = omega (arith, g.pattern_bound);
      fuel_bound = omega (arith, g.fuel_bound);
      classless = plain;
    })

    -- At the end of the text nothing matches.
    end-Right : Good (suc fuel) left [] p back → ok false ≡ ok answer
    end-Right g = let e : answer ≡ false = ground (arith, g.some_end, means []) in rw e refl

    mismatch-Right :
        (x : ℕ) (text : Bytes)
        → Good (suc fuel) left (x ∷ text) p back
        → test x ≡ false
        → retry back next ≡ ok answer
    mismatch-Right x text g t =
        retry-Right left x text p back next ih g (ground (arith, means (x ∷ text)))

    literal-Right :
        (c : ℕ) (text : Bytes)
        → ((x : ℕ) → test x ≡ is_byte c x)
        → Good (suc fuel) left text p back
        → literal c text q back next ≡ ok answer
    unfolding literal
    literal-Right c [] same g = end-Right g
    literal-Right c (x ∷ text) same g = elim (Bool-cases (x == c)) [
      | inl e ↦ rw e (next-Right x text g (same x ∙ e))
      | inr e ↦ rw e (mismatch-Right x text g (same x ∙ e))
    ]

    any-Right :
        (text : Bytes)
        → ((x : ℕ) → test x ≡ true)
        → Good (suc fuel) left text p back
        → any_byte text q back next ≡ ok answer
    unfolding any_byte
    any-Right [] same g = end-Right g
    any-Right (x ∷ text) same g = next-Right x text g (same x)

  module _ (fuel left : ℕ) (back : Retry) (next : Loop) (ih : Right next fuel) where
    quoted-Right :
        (c : ℕ) (text p : Bytes)
        → (c == b'*') ≡ false
        → (c == b'?') ≡ false
        → (c == b'\\') ≡ true
        → Good (suc fuel) left text (c ∷ p) back
        → quoted_byte text p back next ≡ ok answer
    unfolding quoted_byte
    quoted-Right c text [] s a q g =
        let none_matches : (t : Bytes) → matches (c ∷ []) t ≡ false = matches-quote c s a q in
        let e : answer ≡ false =
          ground (arith, g.some_end, any_end-never (matches (c ∷ [])) none_matches text) in
        rw e refl
    quoted-Right c text (d ∷ p) s a q g =
        literal-Right (is_byte d) fuel left (c ∷ d ∷ p) p back next ih (omega arith)
          (λ t. ap (λ f. f t) (matches-quoted c s a d p q)) (no_class-quoted c d p g.classless q) d
          text (λ x. refl) g

    plain-Right :
        (c : ℕ) (text p : Bytes)
        → (c == b'*') ≡ false
        → (c == b'?') ≡ false
        → (c == b'\\') ≡ false
        → Good (suc fuel) left text (c ∷ p) back
        → literal c text p back next ≡ ok answer
    plain-Right c text p s a q g =
        literal-Right (is_byte c) fuel left (c ∷ p) p back next ih (omega arith)
          (λ t. ap (λ f. f t) (matches-plain c s a p q)) (no_class-plain c p g.classless q).1 c text
          (λ x. refl) g

    star-Right :
        (c : ℕ) (text p : Bytes)
        → (c == b'*') ≡ true
        → Good (suc fuel) left text (c ∷ p) back
        → next text p (some (p, text)) ≡ ok answer
    star-Right c text p s g =
        let means : matches (c ∷ p) ≡ any_end (matches p) = matches-star c p s in
        let whole : any_end (matches (c ∷ p)) text ≡ any_end (matches p) text =
          ap (λ f. any_end f text) means ∙ any_end-any_end (matches p) text in
        let here : matches (c ∷ p) text ≡ any_end (matches p) text = ap (λ f. f text) means in
        let e : answer ≡ any_end (matches p) text =
          ground (arith, g.some_end, g.enough_here, whole, here) in
        ih left text p (some (p, text)) (
          Good-star e g.text_bound (omega arith) (omega arith)
            (no_class-plain c p g.classless (ground arith)).1)

    byte-Right :
        (c : ℕ) (text p : Bytes)
        → Good (suc fuel) left text (c ∷ p) back
        → round text (c ∷ p) back next ≡ ok answer
    unfolding round
    byte-Right c text p g = elim (Bool-cases (c == b'*')) [
      | inl s ↦ rw (round, s) (star-Right c text p s g)
      | inr s ↦ elim (Bool-cases (c == b'\\')) [
        | inl q ↦
            let a : (c == b'?') ≡ false = ground arith in
            let k : (c == b'[') ≡ false = ground arith in
            rw (round, s, k, a, q) (quoted-Right c text p s a q g)
        | inr q ↦
            let (k, plain) = no_class-plain c p g.classless q in
            elim (Bool-cases (c == b'?')) [
              | inl a ↦
                  rw (round, s, k, a)
                    (any-Right every fuel left (c ∷ p) p back next ih (omega arith)
                      (λ t. ap (λ f. f t) (matches-any c s p a)) plain text (λ x. refl) g)
              | inr a ↦ rw (round, s, k, a, q) (plain-Right c text p s a q g)
            ]
      ]
    ]

    round-Right :
        (text p : Bytes) → Good (suc fuel) left text p back → round text p back next ≡ ok answer
    unfolding round matches
    round-Right [] [] g = ap ok (sym (g.enough_here refl))
    round-Right (x ∷ text) [] g = retry-Right left x text [] back next ih g refl
    round-Right text (c ∷ p) g = byte-Right c text p g

  pub loop-Right : (fuel : ℕ) → Right (match_loop fuel) fuel
  unfolding match_loop
  loop-Right zero left text p back g = absurd (omega (arith, g.fuel_bound))
  loop-Right (suc fuel) left text p back g =
      round-Right fuel left back (match_loop fuel) (loop-Right fuel) text p g

-- For a pattern in which no class begins, `match` ends with no read outside its strings, and tells
-- whether the pattern matches the text.
pub match_lem :
    (text pattern : Bytes)
    → no_class pattern ≡ true
    → match text pattern ≡ ok (matches pattern text)
unfolding match
match_lem text pattern h =
    loop-Right (matches pattern text) (length pattern + 1) _ (length text) text pattern none
      (record {
        enough_here = λ m. m;
        some_end = any_end-now (matches pattern) text;
        saved = λ m. m;
        text_bound = omega arith;
        pattern_bound = omega arith;
        fuel_bound = grind arith;
        classless = h;
      })
