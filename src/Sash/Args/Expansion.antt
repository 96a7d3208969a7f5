-- ===== src/Sash/Args/Expansion.antt =====
-- sash-3.8/utils.c: the names that a wildcard pattern expands to.
use mathlib.Core.List.{map}
use minilib_ports.Common.{
  ℕ, suc, ◌+◌, ◌≤◌, ◌≡◌, refl, ap, subst, ◌∙◌, Bool, ◌||◌, ltb, ◌==◌, none, equal, codes,
  length-append, true, false, not, ◌&&◌, List, [], ◌∷◌, ◌++◌, arith, Option, some, leb,
  if◌then◌else◌, Bytes, length, Bool-cases, inl, inr,
}
use minilib_ports.Sash.Args.{
  arg_max_file, is_dots, select_names, any_wildcard, split_last, drop_last, ends_in_slash, dir_name,
  path_front, path_len, expand_wild_cards,
}
use minilib_ports.Sash.Outcome.{Outcome, ok, stop, ◌>>=◌, max_files, no_matches}
use minilib_ports.Sash.Strings.Joined.{no_slash}
use minilib_ports.Sash.Wildcard.Correct.{match_lem}
use minilib_ports.Sash.Wildcard.Meaning.{matches, no_class}

-- The two names that every directory has.
unfoldable pub is_link : Bytes → Bool
is_link [] = false
is_link (c ∷ []) = c == b'.'
is_link (c ∷ d ∷ []) = c == b'.' && d == b'.'
is_link (c ∷ d ∷ e ∷ s) = false

is_dots-is_link : (name : Bytes) → is_dots name ≡ is_link name
unfolding is_dots is_link equal
is_dots-is_link [] = refl
is_dots-is_link (c ∷ []) = ground arith
is_dots-is_link (c ∷ d ∷ []) = ground arith
is_dots-is_link (c ∷ d ∷ e ∷ s) = ground arith

-- The names that the last component of a pattern matches, without these two.
unfoldable pub chosen : Bytes → List Bytes → List Bytes
chosen last [] = []
chosen last (name ∷ names) =
    let later = chosen last names in
    if not (is_link name) && matches last name then name ∷ later else later

-- Each with its directory in front, if the table has room.
abbrev pub files : Bytes → Bytes → ℕ → List Bytes → Outcome (List Bytes)
files last front n names =
    if leb (n + length (chosen last names)) arg_max_file
    then ok (map (λ name. front ++ name) (chosen last names))
    else stop max_files

-- What the loop does with a name that is selected.
abbrev selected : Bytes → Bytes → ℕ → Bytes → List Bytes → Outcome (List Bytes)
selected last front n name names =
    if leb arg_max_file n
    then stop max_files
    else (do later ← files last front (n + 1) names; ok ((front ++ name) ∷ later))

selected-files :
    (last front : Bytes) (n : ℕ) (name : Bytes) (names : List Bytes)
    → n ≤ arg_max_file
    → selected last front n name names ≡ (
        if leb (n + suc (length (chosen last names))) arg_max_file
        then ok ((front ++ name) ∷ map (λ m. front ++ m) (chosen last names))
        else stop max_files)
selected-files last front n name names h = elim (Bool-cases (leb arg_max_file n)) [
  | inl full ↦
      let over : leb (n + suc (length (chosen last names))) arg_max_file ≡ false = ground arith in
      rw (selected, full, over) refl
  | inr room ↦ elim (Bool-cases (leb (n + suc (length (chosen last names))) arg_max_file)) [
    | inl fits ↦
        let later : leb (n + 1 + length (chosen last names)) arg_max_file ≡ true = ground arith in
        rw (selected, room, fits, later) refl
    | inr over ↦
        let later : leb (n + 1 + length (chosen last names)) arg_max_file ≡ false = ground arith in
        rw (selected, room, over, later) refl
  ]
]

select_names-files :
    (last front : Bytes) (n : ℕ) (names : List Bytes)
    → no_class last ≡ true
    → n ≤ arg_max_file
    → select_names last front n names ≡ files last front n names
unfolding select_names chosen
select_names-files last front n [] c h =
    let fits : leb (n + 0) arg_max_file ≡ true = ground arith in rw (files, fits) refl
select_names-files last front n (name ∷ names) c h = elim (Bool-cases (is_link name)) [
  | inl dots ↦
      rw (select_names, is_dots-is_link name, dots, chosen)
        (select_names-files last front n names c h)
  | inr plain ↦ elim (Bool-cases (matches last name)) [
    | inl hit ↦ elim (Bool-cases (leb arg_max_file n)) [
      | inl full ↦
          let over : leb (n + suc (length (chosen last names))) arg_max_file ≡ false =
            ground arith in
          rw (select_names, is_dots-is_link name, plain, match_lem name last c, hit, full, over)
            refl
      | inr room ↦
          rw
            (
              select_names,
              is_dots-is_link name,
              plain,
              match_lem name last c,
              hit,
              select_names-files last front (n + 1) names c (ground arith),
            )
            (selected-files last front n name names h)
    ]
    | inr miss ↦
        rw (select_names, is_dots-is_link name, plain, match_lem name last c, miss)
          (select_names-files last front n names c h)
  ]
]

-- What an expansion comes to, by the names that match.
unfoldable pub expansion : Bytes → List Bytes → Outcome (List Bytes)
expansion front [] = stop no_matches
expansion front (name ∷ names) =
    if leb (length (name ∷ names)) arg_max_file
    then ok (map (λ n. front ++ n) (name ∷ names))
    else stop max_files

found_files :
    (front : Bytes) (l : List Bytes)
    → ((if leb (0 + length l) arg_max_file then ok (map (λ n. front ++ n) l) else stop max_files)
        >>= λ found. elim found as (λ _. Outcome (List Bytes)) [
          | [] ↦ stop no_matches
          | file ∷ more ↦ ok (file ∷ more)
        ])
      ≡ expansion front l
unfolding expansion
found_files front [] = refl
found_files front (x ∷ l) = elim (Bool-cases (leb (suc (length l)) arg_max_file)) [
  | inl e ↦ let f : leb (0 + suc (length l)) arg_max_file ≡ true = ground arith in rw (e, f) refl
  | inr e ↦ let f : leb (0 + suc (length l)) arg_max_file ≡ false = ground arith in rw (e, f) refl
]

-- A pattern from the name of a directory, if one is given, and the last component.
unfoldable pub pattern_of : Option Bytes → Bytes → Bytes
pattern_of none last = last
pattern_of (some dir) last = dir ++ b'/' ∷ last

-- The directory that is opened.
unfoldable pub opened : Option Bytes → Bytes
opened none = codes "."
opened (some []) = codes "/"
opened (some (c ∷ dir)) = c ∷ dir

-- What is in front of each name.
unfoldable pub front_of : Option Bytes → Bytes
front_of none = []
front_of (some dir) = dir ++ b'/' ∷ []

-- No slash is last.
unfoldable pub is_closed : Bytes → Bool
is_closed [] = true
is_closed (c ∷ []) = not (c == b'/')
is_closed (c ∷ d ∷ s) = is_closed (d ∷ s)

-- The directory is given without wildcards and without a slash behind it, and is short enough.
unfoldable pub is_directory : Option Bytes → Bool
unfolding is_closed any_wildcard
is_directory none = true
is_directory (some dir) = is_closed dir && not (any_wildcard dir) && ltb (length dir + 1) path_len

split_last-no_slash : (s : Bytes) → no_slash s ≡ true → split_last s ≡ ([], s)
unfolding split_last no_slash
split_last-no_slash [] h = refl
split_last-no_slash (c ∷ s) h =
    let other : (c == b'/') ≡ false = ground arith in
    let later : split_last s ≡ ([], s) = split_last-no_slash s (ground arith) in
    rw (split_last, ap (λ r. r.0) later, ap (λ r. r.1) later, other) refl

split_last-slash :
    (dir s : Bytes) → no_slash s ≡ true → split_last (dir ++ b'/' ∷ s) ≡ (dir ++ b'/' ∷ [], s)
unfolding split_last
split_last-slash [] s h =
    let later : split_last s ≡ ([], s) = split_last-no_slash s h in
    rw (split_last, ap (λ r. r.0) later, ap (λ r. r.1) later) refl
split_last-slash (c ∷ []) s h =
    let later : split_last (b'/' ∷ s) ≡ (b'/' ∷ [], s) = split_last-slash [] s h in
    rw (split_last, ap (λ r. r.0) later, ap (λ r. r.1) later) refl
split_last-slash (c ∷ d ∷ dir) s h =
    let later : split_last (d ∷ dir ++ b'/' ∷ s) ≡ (d ∷ dir ++ b'/' ∷ [], s) =
      split_last-slash (d ∷ dir) s h in
    rw (split_last, ap (λ r. r.0) later, ap (λ r. r.1) later) refl

any_wildcard-append : (s t : Bytes) → any_wildcard (s ++ t) ≡ (any_wildcard s || any_wildcard t)
unfolding any_wildcard
any_wildcard-append [] t = refl
any_wildcard-append (c ∷ s) t = ground (arith, any_wildcard-append s t)

drop_last-append : (s : Bytes) (c : ℕ) → drop_last (s ++ c ∷ []) ≡ s
unfolding drop_last
drop_last-append [] c = refl
drop_last-append (x ∷ []) c = refl
drop_last-append (x ∷ y ∷ s) c = ap (λ t. x ∷ t) (drop_last-append (y ∷ s) c)

dir_name-slash : (dir : Bytes) → dir_name (dir ++ b'/' ∷ []) ≡ opened (some dir)
unfolding dir_name opened
dir_name-slash [] = refl
dir_name-slash (c ∷ []) = drop_last-append (c ∷ []) b'/'
dir_name-slash (c ∷ d ∷ dir) = drop_last-append (c ∷ d ∷ dir) b'/'

ends_in_slash-is_closed :
    (c : ℕ) (s : Bytes) → is_closed (c ∷ s) ≡ true → ends_in_slash (c ∷ s) ≡ false
unfolding ends_in_slash is_closed
ends_in_slash-is_closed c [] h = ground arith
ends_in_slash-is_closed c (d ∷ s) h = ends_in_slash-is_closed d s h

path_front-slash :
    (dir : Bytes) → is_closed dir ≡ true → path_front (dir ++ b'/' ∷ []) ≡ dir ++ b'/' ∷ []
unfolding path_front opened
path_front-slash [] h = refl
path_front-slash (c ∷ dir) h =
    rw (path_front, dir_name-slash (c ∷ dir), opened, ends_in_slash-is_closed c dir h) refl

-- What the code comes to by the parts that it divides the pattern into.
module _ (directory : Bytes → Option (List Bytes)) (pattern : Bytes) (names : List Bytes) where
  abbrev ByParts : Bytes × Bytes → Type 0
  ByParts parts =
      any_wildcard parts.0 ≡ false
      → no_class parts.1 ≡ true
      → ltb path_len (length parts.0) ≡ false
      → directory (dir_name parts.0) ≡ some names
      → leb path_len (length (path_front parts.0)) ≡ false
      → expand_wild_cards directory pattern ≡ expansion (path_front parts.0) (chosen parts.1 names)

  divided_lem : any_wildcard pattern ≡ true → ByParts (split_last pattern)
  unfolding expand_wild_cards
  divided_lem w d c room o room' =
      rw
        (
          expand_wild_cards,
          w,
          d,
          room,
          o,
          room',
          select_names-files (split_last pattern).1 (path_front (split_last pattern).0) 0 names c
              (omega arith),
        )
        (found_files (path_front (split_last pattern).0) (chosen (split_last pattern).1 names))

  parts_lem :
      (parts : Bytes × Bytes)
      → split_last pattern ≡ parts
      → any_wildcard pattern ≡ true
      → ByParts parts
  parts_lem parts e w = subst ByParts e (divided_lem w)

-- For a pattern whose last component has a wildcard and no class, behind a directory with none, or with
-- no directory in front, where that can be opened and is shorter than 1023 bytes: when
-- `expandWildCards` returns, its table has the names in the directory that match the last component,
-- other than `.` and `..`, in the order of the directory and with it in front, or the call ends
-- with an error if there are none or more than 512.
pub expand_wild_cards_lem :
    (directory : Bytes → Option (List Bytes)) (dir : Option Bytes) (last : Bytes)
    (names : List Bytes)
    → is_directory dir ≡ true
    → no_slash last ≡ true
    → any_wildcard last ≡ true
    → no_class last ≡ true
    → directory (opened dir) ≡ some names
    → expand_wild_cards directory (pattern_of dir last)
      ≡ expansion (front_of dir) (chosen last names)
unfolding pattern_of front_of opened is_directory any_wildcard path_front dir_name
expand_wild_cards_lem directory none last names d s w c o =
    parts_lem directory last names ([], last) (split_last-no_slash last s) w refl c refl o refl
expand_wild_cards_lem directory (some dir) last names d s w c o =
    let front : Bytes = dir ++ b'/' ∷ [] in
    let closed : is_closed dir ≡ true = ground arith in
    let size : length front ≡ length dir + 1 = length-append dir (b'/' ∷ []) in
    let front_eq : path_front front ≡ front = path_front-slash dir closed in
    rw (← front_eq) (
      parts_lem directory (dir ++ b'/' ∷ last) names (front, last) (split_last-slash dir last s)
        (any_wildcard-append dir (b'/' ∷ last) ∙ ground arith)
        (any_wildcard-append dir (b'/' ∷ []) ∙ ground arith) c (ground arith)
        (rw (dir_name-slash dir) o) (rw front_eq (ground arith)))
