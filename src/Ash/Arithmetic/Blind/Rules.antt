-- ===== src/Ash/Arithmetic/Blind/Rules.antt =====
-- Two computations that agree, and two that agree but for their values.
use minilib_ports.Common.{ℕ, ◌≡◌, refl, sym, ap, ◌∙◌, Bool, true, false, if◌then◌else◌, Bytes}
use minilib_ports.Ash.ArithToken.Tokens.{TokenVal, val, name}
use minilib_ports.Ash.Arithmetic.Shell.{
  Shell, State, M, ◌>>=◌, pure, token, word_of, name_of, arith_lookupvarint, assign,
}
use minilib_ports.Ash.Outcome.{Outcome, ok, err}

-- The same shell, where the pointers have other values.
abbrev pub readdress : (sh : Shell) → (Bytes → Bytes → ℕ) → Shell
readdress sh address = record {
  Vars = sh.Vars;
  lookupvar = sh.lookupvar;
  setvar = sh.setvar;
  uflag = sh.uflag;
  strtoimax = sh.strtoimax;
  format = sh.format;
  address = address;
}

-- The state that a computation ends in.
abbrev pub ending : {V A : Type 0} → Outcome (A × State V) → Outcome (State V)
ending (ok r) = ok r.1
ending (err e) = err e

pub data Same {V A : Type 0} (m m' : M V A) : Type 0 where
  same : ((s : State V) → m s ≡ m' s) → Same m m'

pub data Blind {V A : Type 0} (m m' : M V A) : Type 0 where
  blind : ((s : State V) → ending (m s) ≡ ending (m' s)) → Blind m m'

pub Same-apply : {V A : Type 0} {m m' : M V A} → Same m m' → (s : State V) → m s ≡ m' s
Same-apply (same h) = h

pub Blind-apply :
    {V A : Type 0} {m m' : M V A} → Blind m m' → (s : State V) → ending (m s) ≡ ending (m' s)
Blind-apply (blind h) = h

pub Same-refl : {V A : Type 0} (m : M V A) → Same m m
Same-refl m = same λ s. refl

-- What follows an outcome.
abbrev goes_on : {V A B : Type 0} → (A → M V B) → Outcome (A × State V) → Outcome (B × State V)
goes_on f (ok (a, s)) = f a s
goes_on f (err e) = err e

Same-goes_on :
    {V A B : Type 0} (f f' : A → M V B) (r : Outcome (A × State V))
    → ((a : A) → Same (f a) (f' a))
    → goes_on f r ≡ goes_on f' r
Same-goes_on f f' (ok (a, s)) g = Same-apply (g a) s
Same-goes_on f f' (err e) g = refl

Blind-goes_on :
    {V A B : Type 0} (f f' : A → M V B) (r r' : Outcome (A × State V))
    → ((a a' : A) → Blind (f a) (f' a'))
    → ending r ≡ ending r'
    → ending (goes_on f r) ≡ ending (goes_on f' r')
Blind-goes_on f f' (ok (a, s)) (ok (a', s')) g e =
    Blind-apply (g a a') s ∙ ap (λ t. ending (f' a' t)) (cc)
Blind-goes_on f f' (ok (a, s)) (err e') g e = cc
Blind-goes_on f f' (err e') (ok (a, s)) g e = cc
Blind-goes_on f f' (err e') (err e'') g e = cc

Blind-each :
    {V A B : Type 0} (f f' : A → M V B) (r : Outcome (A × State V))
    → ((a : A) → Blind (f a) (f' a))
    → ending (goes_on f r) ≡ ending (goes_on f' r)
Blind-each f f' (ok (a, s)) g = Blind-apply (g a) s
Blind-each f f' (err e) g = refl

goes_on-ending :
    {V A B : Type 0} (f f' : A → M V B) (r r' : Outcome (A × State V))
    → ((a a' : A) → Same (f a) (f' a'))
    → ending r ≡ ending r'
    → goes_on f r ≡ goes_on f' r'
goes_on-ending f f' (ok (a, s)) (ok (a', s')) g e = Same-apply (g a a') s ∙ ap (f' a') (cc)
goes_on-ending f f' (ok (a, s)) (err e') g e = cc
goes_on-ending f f' (err e') (ok (a, s)) g e = cc
goes_on-ending f f' (err e') (err e'') g e = cc

bind-goes_on :
    {V A B : Type 0} (m : M V A) (f : A → M V B) (s : State V) → (m >>= f) s ≡ goes_on f (m s)
bind-goes_on {V = V} {A = A} {B = B} m f s = by_outcome (m s)
  where
    by_outcome :
        (r : Outcome (A × State V))
        → (elim r as (λ _. Outcome (B × State V)) [ err e ↦ err e | ok (a, s') ↦ f a s' ])
          ≡ goes_on f r
    by_outcome (ok r) = refl
    by_outcome (err e) = refl

module _ {V A B : Type 0} (m m' : M V A) where
  pub Same-bind :
      (f f' : A → M V B) → Same m m' → ((a : A) → Same (f a) (f' a)) → Same (m >>= f) (m' >>= f')
  Same-bind f f' h g = same λ s.
      bind-goes_on m f s
      ∙ ap (goes_on f) (Same-apply h s)
      ∙ Same-goes_on f f' (m' s) g
      ∙ sym (bind-goes_on m' f' s)

  pub Blind-bind :
      (f f' : A → M V B)
      → Blind m m'
      → ((a a' : A) → Blind (f a) (f' a'))
      → Blind (m >>= f) (m' >>= f')
  Blind-bind f f' h g = blind λ s.
      ap ending (bind-goes_on m f s)
      ∙ Blind-goes_on f f' (m s) (m' s) g (Blind-apply h s)
      ∙ sym (ap ending (bind-goes_on m' f' s))

  -- The first parts agree in their values too.
  pub Blind-seq :
      (f f' : A → M V B) → Same m m' → ((a : A) → Blind (f a) (f' a)) → Blind (m >>= f) (m' >>= f')
  Blind-seq f f' h g = blind λ s.
      ap ending (bind-goes_on m f s ∙ ap (goes_on f) (Same-apply h s))
      ∙ Blind-each f f' (m' s) g
      ∙ sym (ap ending (bind-goes_on m' f' s))

  -- What follows does not look at the value.
  pub Blind-Same :
      (f f' : A → M V B)
      → Blind m m'
      → ((a a' : A) → Same (f a) (f' a'))
      → Same (m >>= f) (m' >>= f')
  Blind-Same f f' h g = same λ s.
      bind-goes_on m f s
      ∙ goes_on-ending f f' (m s) (m' s) g (Blind-apply h s)
      ∙ sym (bind-goes_on m' f' s)

pub Same-Blind : {V A : Type 0} {m m' : M V A} → Same m m' → Blind m m'
Same-Blind (same h) = blind λ s. ap ending (h s)

pub Same-if :
    {V A : Type 0} (b : Bool) (m m' k k' : M V A)
    → Same m m'
    → Same k k'
    → Same (if b then m else k) (if b then m' else k')
Same-if true m m' k k' h g = h
Same-if false m m' k k' h g = g

pub Blind-if :
    {V A : Type 0} (b : Bool) (m m' k k' : M V A)
    → Blind m m'
    → Blind k k'
    → Blind (if b then m else k) (if b then m' else k')
Blind-if true m m' k k' h g = h
Blind-if false m m' k k' h g = g

-- Two values that nobody looks at.
pub Blind-pure : {V A : Type 0} (a a' : A) → Blind {V = V} (pure a) (pure a')
Blind-pure a a' = blind λ s. refl

pub Blind-refl : {V A : Type 0} (m : M V A) → Blind m m
Blind-refl m = blind λ s. refl

module _ (sh : Shell) (address : Bytes → Bytes → ℕ) where
  pub Same-token : Same (token sh) (token (readdress sh address))
  unfolding token
  Same-token = same λ s. refl

  pub Same-name_of : (v : TokenVal) → Same (name_of sh v) (name_of (readdress sh address) v)
  unfolding name_of
  Same-name_of (val w) = same λ s. refl
  Same-name_of (name n) = same λ s. refl

  pub Same-lookup :
      (n : Bytes) → Same (arith_lookupvarint sh n) (arith_lookupvarint (readdress sh address) n)
  unfolding arith_lookupvarint
  Same-lookup n = same λ s. refl

  pub Same-assign : (n : Bytes) (w : ℕ) → Same (assign sh n w) (assign (readdress sh address) n w)
  unfolding assign
  Same-assign n w = same λ s. refl

  pub Blind-word_of : (v : TokenVal) → Blind (word_of sh v) (word_of (readdress sh address) v)
  unfolding word_of
  Blind-word_of (val w) = blind λ s. refl
  Blind-word_of (name n) = blind λ s. refl

pub ruleset blindness = (Blind-seq, Blind-bind, Blind-if, Blind-pure, Blind-refl, Same-refl)

pub ruleset sameness = (Same-bind, Same-if, Same-refl)
