-- ===== src/Ash/Arithmetic/Shell.antt =====
-- ash/arithmetic.c: the state of an evaluation, and what the evaluator uses of the rest of the
-- shell and of the C library.
use minilib_ports.Common.{
  ℕ, Bool, ◌||◌, [], ◌∷◌, Option, none, some, ◌==◌, if◌then◌else◌, Bytes, codes,
}
use minilib_ports.Ash.ArithToken.Scan.{Scanner, arith_token}
use minilib_ports.Ash.ArithToken.Tokens.{TokenVal, val, name}
use minilib_ports.Ash.Outcome.{Outcome, ok, err, Error, not_set, non_numeric, read_only, fault}

-- The variables of ash/var.c, the option `-u`, and the library's `strtoimax` (base 0: the value,
-- `end`, and whether `errno` is set) and `snprintf` by `ARITH_FORMAT_STR`. `setvar` is `none` if
-- the variable is read-only. `address` is the pointer to a name as a number, in front of the
-- text that is left: the code reads `val->val` also where `val->name` was written.
pub record Shell : Type 1 where
  pub Vars : Type 0
  pub lookupvar : ℕ → Bytes → Vars → Option Bytes
  pub setvar : Bytes → Bytes → Vars → Option Vars
  pub uflag : Bool
  pub strtoimax : Bytes → ℕ × Bytes × Bool
  pub format : ℕ → Bytes
  pub address : Bytes → Bytes → ℕ

-- What `arith_token` uses of `strtoimax`.
abbrev pub reader : Shell → Bytes → ℕ × Bytes
reader sh buf = let (v, end, _) = sh.strtoimax buf in (v, end)

-- The globals `arith_buf`, `a_t_val`, `arith_lno`, `arith_var_lno` (the scanner's), `last_token`,
-- and the variables.
pub record State (Vars : Type 0) : Type 0 where
  pub scanner : Scanner
  pub last_token : ℕ
  pub vars : Vars

-- A computation over the state. An error leaves the evaluator.
abbrev pub M : Type 0 → Type 0 → Type 0
M V A = State V → Outcome (A × State V)

infixl 5 ◌>>=◌ ◌>>◌
abbrev pub ◌>>=◌ : {V A B : Type 0} → M V A → (A → M V B) → M V B
◌>>=◌ m f s = elim (m s) [ err e ↦ err e | ok (a, s') ↦ f a s' ]

abbrev pub ◌>>◌ : {V B : Type 0} → M V (Unit {0}) → M V B → M V B
m >> k = m >>= λ _. k

abbrev pub pure : {V A : Type 0} → A → M V A
pure a s = ok (a, s)

-- `arith_err`
abbrev pub arith_err : {V A : Type 0} → Error → M V A
arith_err e s = err e

abbrev pub get_last : {V : Type 0} → M V ℕ
get_last s = ok (s.last_token, s)

abbrev pub put_last : {V : Type 0} → ℕ → M V (Unit {0})
put_last t s = ok (tt, record s { last_token = t })

-- `a_t_val`
abbrev pub get_val : {V : Type 0} → M V TokenVal
get_val s = ok (s.scanner.a_t_val, s)

-- `val->val` of an `ARITH_NUM`: with that token the scanner leaves a number. A name there would be
-- a union that is read by another member than it was written by.
unfoldable pub number_of : {V : Type 0} → TokenVal → M V ℕ
number_of (val w) s = ok (w, s)
number_of (name n) s = err fault

-- A function of the evaluator that does not touch the state.
abbrev pub lift : {V A : Type 0} → Outcome A → M V A
lift r s = elim r [ err e ↦ err e | ok w ↦ ok (w, s) ]

module _ (sh : Shell) where
  unfoldable pub token : M sh.Vars ℕ
  token s = elim (arith_token (reader sh) s.scanner) [
    | err e ↦ err e
    | ok (t, scanner) ↦ ok (t, record s { scanner = scanner })
  ]

  -- `v->val` where a name may stand: while skipping, the code reads the pointer.
  unfoldable pub word_of : TokenVal → M sh.Vars ℕ
  word_of (val w) s = ok (w, s)
  word_of (name n) s = ok (sh.address n s.scanner.arith_buf, s)

  -- `v->name`: a number there is no pointer to a string.
  unfoldable pub name_of : TokenVal → M sh.Vars Bytes
  name_of (val w) s = err fault
  name_of (name n) s = ok (n, s)

-- `while (*p != '\0' && is_space(*p)) p++`
unfoldable pub skip_space : Bytes → Bytes
skip_space [] = []
skip_space (c ∷ p) =
    let rest = skip_space p in if c == b' ' || c == b'\t' || c == b'\n' then rest else c ∷ p

module _ (sh : Shell) where
  unfoldable pub numeric : Bytes → Outcome ℕ
  unfolding skip_space
  numeric str =
      let (result, p, errno) = sh.strtoimax str in
      elim p [
        | [] ↦ if errno then err non_numeric else ok result
        | c ∷ p' ↦
            if errno
            then err non_numeric
            else elim (skip_space (c ∷ p')) [ [] ↦ ok result | _ ∷ _ ↦ err non_numeric ]
      ]

  -- The text that is read as a number.
  unfoldable pub number_text : Option Bytes → Outcome Bytes
  number_text none = if sh.uflag then err not_set else ok (codes "0")
  number_text (some []) = ok (codes "0")
  number_text (some (c ∷ str)) = ok (c ∷ str)

  unfoldable pub arith_lookupvarint : Bytes → M sh.Vars ℕ
  unfolding numeric number_text
  arith_lookupvarint varname s =
      lift
        (elim (number_text (sh.lookupvar s.scanner.arith_var_lno varname s.vars)) [
          | err e ↦ err e
          | ok str ↦ numeric str
        ])
        s

  -- `snprintf` and `setvar`
  unfoldable pub assign : Bytes → ℕ → M sh.Vars (Unit {0})
  assign varname w s = elim (sh.setvar varname (sh.format w) s.vars) [
    | none ↦ err (read_only varname)
    | some vars ↦ ok (tt, record s { vars = vars })
  ]
