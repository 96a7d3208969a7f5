-- ===== src/Ash/Arithmetic/Ends/Steps.antt =====
-- ash/arithmetic.c: one rule for each kind of step that the evaluator takes.
use minilib_ports.Common.{ℕ, ◌+◌, ◌≤◌, ◌<◌, ◌≡◌, refl, Bool, true, false, if◌then◌else◌, arith}
use minilib_ports.Ash.ArithToken.Consumes.{ReadsDigits, weight}
use minilib_ports.Ash.Arithmetic.Ends.Cost.{
  Holds, Holds-bind, mass, size, measure, least, cost, Good, Still, token-Holds,
}
use minilib_ports.Ash.Arithmetic.Eval.{Call}
use minilib_ports.Ash.Arithmetic.Shell.{Shell, State, M, ◌>>=◌, pure, reader, token}
use minilib_ports.Ash.Outcome.{Outcome, ok, err}

-- At most `k` is left to read, with `d` to spare.
abbrev pub Leaves : {V : Type 0} → ℕ → ℕ → Outcome (ℕ × State V) → Type 0
Leaves d k r = Holds (λ _ s'. size s' + d ≤ k) r

pub loosen :
    {V : Type 0} (d k d' k' : ℕ) (r : Outcome (ℕ × State V))
    → d' + k ≤ k' + d
    → Leaves d k r
    → Leaves d' k' r
loosen d k d' k' (ok (a, s)) le p = omega arith
loosen d k d' k' (err e) le p = p

pub step_if :
    {V : Type 0} (d k : ℕ) (b : Bool) (m m' : M V ℕ) (s : State V)
    → (b ≡ true → Leaves d k (m s))
    → (b ≡ false → Leaves d k (m' s))
    → Leaves d k ((if b then m else m') s)
step_if d k true m m' s h h' = h refl
step_if d k false m m' s h h' = h' refl

pub step_still :
    {V A : Type 0} (d k : ℕ) (m : M V A) (f : A → M V ℕ) (s : State V)
    → Still s (m s)
    → ((a : A) (s' : State V)
        → mass s' ≡ mass s
        → s'.last_token ≡ s.last_token
        → Leaves d k (f a s'))
    → Leaves d k ((m >>= f) s)
step_still d k m f s h g =
    Holds-bind (λ _ s'. (mass s' ≡ mass s) × (s'.last_token ≡ s.last_token))
      (λ _ s'. size s' + d ≤ k) m f s h (λ a s' p. g a s' p.0 p.1)

module _ (sh : Shell) where
  pub step_token :
      ReadsDigits (reader sh)
      → (d k : ℕ) (f : ℕ → M sh.Vars ℕ) (s : State sh.Vars)
      → ((t : ℕ) (s' : State sh.Vars)
          → mass s' + weight t ≤ mass s
          → s'.last_token ≡ s.last_token
          → Leaves d k (f t s'))
      → Leaves d k ((token sh >>= f) s)
  step_token reads d k f s g =
      Holds-bind (λ t s'. (mass s' + weight t ≤ mass s) × (s'.last_token ≡ s.last_token))
        (λ _ s'. size s' + d ≤ k) (token sh) f s (token-Holds sh reads s) (λ t s' p. g t s' p.0 p.1)

  pub step_self :
      (self : Call → M sh.Vars ℕ) (n : ℕ)
      → ((c : Call) (s : State sh.Vars) → cost c s < n → Good c s (self c s))
      → (d k : ℕ) (c : Call) (f : ℕ → M sh.Vars ℕ) (s : State sh.Vars) → cost c s < n
      → ((a : ℕ) (s' : State sh.Vars) → size s' + least c ≤ measure c s → Leaves d k (f a s'))
      → Leaves d k ((self c >>= f) s)
  step_self self n ih d k c f s h g =
      Holds-bind (λ _ s'. size s' + least c ≤ measure c s) (λ _ s'. size s' + d ≤ k) (self c) f s
        (ih c s h) g

  -- A call in the last place.
  pub last_self :
      (self : Call → M sh.Vars ℕ) (n : ℕ)
      → ((c : Call) (s : State sh.Vars) → cost c s < n → Good c s (self c s))
      → (d k : ℕ) (c : Call) (s : State sh.Vars) → cost c s < n
      → measure c s + d ≤ k + least c
      → Leaves d k (self c s)
  last_self self n ih d k c s h le =
      loosen (least c) (measure c s) d k (self c s) (omega arith) (ih c s h)

-- What is made of a value in the end reads nothing.
pub step_map :
    {V : Type 0} (d k : ℕ) (m : M V ℕ) (f : ℕ → ℕ) (s : State V)
    → Leaves d k (m s)
    → Leaves d k ((m >>= λ b. pure (f b)) s)
step_map d k m f s h =
    Holds-bind (λ _ s'. size s' + d ≤ k) (λ _ s'. size s' + d ≤ k) m (λ b. pure (f b)) s h
      (λ a s' p. p)

-- A part that was shown to leave enough.
pub step_leaves :
    {V : Type 0} (c j d k : ℕ) (m : M V ℕ) (f : ℕ → M V ℕ) (s : State V)
    → Leaves c j (m s)
    → ((a : ℕ) (s' : State V) → size s' + c ≤ j → Leaves d k (f a s'))
    → Leaves d k ((m >>= f) s)
step_leaves c j d k m f s = Holds-bind (λ _ s'. size s' + c ≤ j) (λ _ s'. size s' + d ≤ k) m f s
