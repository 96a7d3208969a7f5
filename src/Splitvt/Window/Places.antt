-- ===== src/Splitvt/Window/Places.antt =====
-- Reads and writes inside an array.
use minilib_ports.Common.{
  ℕ, zero, suc, ◌-◌, ◌≤◌, ◌<◌, ◌≡◌, refl, ap, ◌∙◌, List, [], ◌∷◌, arith, none, some, length, get_or,
  set,
}
use minilib_ports.Splitvt.Window.{get_elem?, set_elem?, get1, set1}

module _ {ℓ} {A : Type ℓ} where
  pub get_elem?_lem :
      (xs : List A) (i : ℕ) (d : A) → i < length xs → get_elem? xs i ≡ some (get_or xs i d)
  get_elem?_lem [] i d h = absurd (omega arith)
  get_elem?_lem (x ∷ xs) zero d h = refl
  get_elem?_lem (x ∷ xs) (suc i) d h = get_elem?_lem xs i d (omega arith)

  pub get_elem?-none : (xs : List A) (i : ℕ) → length xs ≤ i → get_elem? xs i ≡ none
  get_elem?-none [] i h = refl
  get_elem?-none (x ∷ xs) zero h = absurd (omega arith)
  get_elem?-none (x ∷ xs) (suc i) h = get_elem?-none xs i (omega arith)

  pub set_elem?_lem :
      (xs : List A) (i : ℕ) (a : A) → i < length xs → set_elem? xs i a ≡ some (set xs i a)
  set_elem?_lem [] i a h = absurd (omega arith)
  set_elem?_lem (x ∷ xs) zero a h = refl
  set_elem?_lem (x ∷ xs) (suc i) a h = rw (set_elem?_lem xs i a (omega arith)) refl

  pub set_elem?-none : (xs : List A) (i : ℕ) (a : A) → length xs ≤ i → set_elem? xs i a ≡ none
  set_elem?-none [] i a h = refl
  set_elem?-none (x ∷ xs) zero a h = absurd (omega arith)
  set_elem?-none (x ∷ xs) (suc i) a h = rw (set_elem?-none xs i a (omega arith)) refl

module _ {ℓ} {A : Type ℓ} where
  pub get1_lem :
      (xs : List A) (n : ℕ) (d : A) → 1 ≤ n → n ≤ length xs → get1 xs n ≡ some (get_or xs (n - 1) d)
  get1_lem xs zero d h k = absurd (omega arith)
  get1_lem xs (suc i) d h k =
      let e : i ≡ suc i - 1 = omega arith in
      get_elem?_lem xs i d (omega arith) ∙ ap (λ j. some (get_or xs j d)) e

  pub get1-none : (xs : List A) (n : ℕ) → length xs < n → get1 xs n ≡ none
  get1-none xs zero h = refl
  get1-none xs (suc i) h = get_elem?-none xs i (omega arith)

  pub set1_lem :
      (xs : List A) (n : ℕ) (a : A) → 1 ≤ n → n ≤ length xs → set1 xs n a ≡ some (set xs (n - 1) a)
  set1_lem xs zero a h k = absurd (omega arith)
  set1_lem xs (suc i) a h k =
      let e : i ≡ suc i - 1 = omega arith in
      set_elem?_lem xs i a (omega arith) ∙ ap (λ j. some (set xs j a)) e

  pub set1-none : (xs : List A) (n : ℕ) (a : A) → length xs < n → set1 xs n a ≡ none
  set1-none xs zero a h = refl
  set1-none xs (suc i) a h = set_elem?-none xs i a (omega arith)
