-- ===== src/Sash/Strings/Joined.antt =====
-- sash-3.8/utils.c: what `makeString` and `buildName` make, and that the buffer is kept.
use minilib_ports.Common.{
  ℕ, suc, ◌+◌, ◌-◌, ◌≤◌, ◌<◌, ◌≡◌, refl, ap, ◌∙◌, Bool, Option, not, ◌&&◌, ◌==◌, true, false, List,
  [], ◌∷◌, ◌++◌, arith, ltb, leb, if◌then◌else◌, Bytes, length, drop, append_assoc, Bool-cases,
  none, some, inl, inr, length-append, length-drop, drop-drop_add,
}
use minilib_ports.Sash.Outcome.{Outcome, Stop, ok, stop, too_long, fault}
use minilib_ports.Sash.Strings.{
  copy_then, put_then, make_string, behind_slash, local_buf, base_of, build_name,
}

-- The arguments with a space between each two.
unfoldable pub unwords : List Bytes → Bytes
unwords [] = []
unwords (arg ∷ []) = arg
unwords (arg ∷ more ∷ argv) = arg ++ b' ' ∷ unwords (more ∷ argv)

-- In memory with room for the string and its NUL, `strcpy` is done before `next`.
module _ (next : Bytes → Outcome Bytes) where
  copy_then-ok :
      (s to r : Bytes)
      → length s < length to
      → next (0 ∷ drop (suc (length s)) to) ≡ ok r
      → copy_then s to next ≡ ok (s ++ r)
  unfolding copy_then
  copy_then-ok [] [] r h e = absurd (omega arith)
  copy_then-ok [] (x ∷ to) r h e = e
  copy_then-ok (c ∷ s) [] r h e = absurd (omega arith)
  copy_then-ok (c ∷ s) (x ∷ to) r h e = rw (copy_then-ok s to r (omega arith) e) refl

  copy_then-stop :
      {why : Stop} (s to : Bytes)
      → length s < length to
      → next (0 ∷ drop (suc (length s)) to) ≡ stop why
      → copy_then s to next ≡ stop why
  unfolding copy_then
  copy_then-stop [] [] h e = absurd (omega arith)
  copy_then-stop [] (x ∷ to) h e = e
  copy_then-stop (c ∷ s) [] h e = absurd (omega arith)
  copy_then-stop (c ∷ s) (x ∷ to) h e = rw (copy_then-stop s to (omega arith) e) refl

  copy_then-fault : (s to : Bytes) → length to ≤ length s → copy_then s to next ≡ stop fault
  unfolding copy_then
  copy_then-fault [] [] h = refl
  copy_then-fault [] (x ∷ to) h = absurd (omega arith)
  copy_then-fault (c ∷ s) [] h = refl
  copy_then-fault (c ∷ s) (x ∷ to) h = rw (copy_then-fault s to (omega arith)) refl

-- What `makeString` comes to, by the length of the joined arguments.
abbrev pub string_or_stop : List Bytes → Bytes → ℕ → Outcome Bytes
string_or_stop argv buf buf_len =
    if ltb (length (unwords argv)) buf_len
    then ok (unwords argv ++ 0 ∷ drop (suc (length (unwords argv))) buf)
    else stop too_long

make_string_args :
    (arg : Bytes) (argv : List Bytes) (buf : Bytes) (buf_len : ℕ)
    → buf_len ≤ length buf
    → make_string (arg ∷ argv) buf buf_len ≡ string_or_stop (arg ∷ argv) buf buf_len
unfolding make_string unwords put_then
make_string_args arg [] buf buf_len h = elim (Bool-cases (leb buf_len (length arg))) [
  | inl e ↦
      let short : ltb (length arg) buf_len ≡ false = ground arith in
      rw (make_string, e, string_or_stop, short) refl
  | inr e ↦
      let room : ltb (length arg) buf_len ≡ true = ground arith in
      rw (make_string, e, string_or_stop, room) (copy_then-ok _ arg buf _ (ground arith) refl)
]
make_string_args arg (more ∷ argv) buf buf_len h =
    let rest : Bytes = drop (suc (length arg)) buf in
    let left : ℕ = buf_len - length arg - 1 in
    let joined : Bytes = unwords (more ∷ argv) in
    let total : length (arg ++ b' ' ∷ joined) ≡ suc (length arg) + length joined =
      omega (arith, length-append arg (b' ' ∷ joined)) in
    let fits : left ≤ length rest = omega (arith, length-drop (suc (length arg)) buf) in
    let ih : make_string (more ∷ argv) rest left ≡ string_or_stop (more ∷ argv) rest left =
      make_string_args more argv rest left fits in
    elim (Bool-cases (leb buf_len (length arg))) [
      | inl e ↦
          let short : ltb (length (arg ++ b' ' ∷ joined)) buf_len ≡ false = ground arith in
          rw (make_string, e, string_or_stop, short) refl
      | inr e ↦ elim (Bool-cases (ltb (length joined) left)) [
        | inl room ↦
            let behind : Bytes = joined ++ 0 ∷ drop (suc (length joined)) rest in
            let behind_eq : drop (suc (length joined)) rest
                ≡ drop (suc (suc (length arg) + length joined)) buf =
              drop-drop_add (suc (suc (length arg) + length joined)) (suc (length joined))
                (suc (length arg)) buf (omega arith) in
            let done : make_string (more ∷ argv) rest left ≡ ok behind = ih ∙ (rw room refl) in
            let all : ltb (length (arg ++ b' ' ∷ joined)) buf_len ≡ true = ground arith in
            rw (make_string, e, string_or_stop, all)
              (copy_then-ok _ arg buf (b' ' ∷ joined ++ 0 ∷ drop (suc (length joined)) rest)
                  (ground arith) (rw done refl)
                ∙ rw (total, append_assoc)
                    (ap (λ t. ok (arg ++ (b' ' ∷ (joined ++ 0 ∷ t)))) behind_eq))
        | inr tight ↦
            let none_left : ltb (length (arg ++ b' ' ∷ joined)) buf_len ≡ false = ground arith in
            rw (make_string, e, string_or_stop, none_left)
              (copy_then-stop _ arg buf (ground arith) (rw ih (rw tight refl)))
      ]
    ]

-- In a buffer that has `buf_len` bytes, of which there is one, `makeString` ends with no write outside
-- it: it leaves the arguments there, with spaces between them and a NUL behind, if they fit, and
-- what is behind the NUL is unchanged; otherwise the string is too long.
pub make_string_lem :
    (argv : List Bytes) (buf : Bytes) (buf_len : ℕ)
    → 0 < buf_len
    → buf_len ≤ length buf
    → make_string argv buf buf_len ≡ string_or_stop argv buf buf_len
unfolding make_string unwords put_then
make_string_lem [] [] buf_len pos h = absurd (omega arith)
make_string_lem [] (x ∷ buf) buf_len pos h =
    let room : ltb 0 buf_len ≡ true = ground arith in rw room refl
make_string_lem (arg ∷ argv) buf buf_len pos h = make_string_args arg argv buf buf_len h

unfoldable pub no_slash : Bytes → Bool
no_slash [] = true
no_slash (c ∷ s) = not (c == b'/') && no_slash s

behind_slash-no_slash : (s : Bytes) → no_slash s ≡ true → behind_slash s ≡ none
unfolding behind_slash no_slash
behind_slash-no_slash [] h = refl
behind_slash-no_slash (c ∷ s) h =
    let other : (c == b'/') ≡ false = ground arith in
    rw (behind_slash, behind_slash-no_slash s (ground arith), other) refl

behind_slash-append : (s t : Bytes) → behind_slash t ≡ none → behind_slash (s ++ b'/' ∷ t) ≡ some t
unfolding behind_slash
behind_slash-append [] t h = rw h refl
behind_slash-append (c ∷ s) t h = rw (behind_slash-append s t h) refl

-- A file name from what is in front of its last slash, if it has one, and its last component.
unfoldable pub file_of : Option Bytes → Bytes → Bytes
file_of none base = base
file_of (some front) base = front ++ b'/' ∷ base

base_of-file_of :
    (front : Option Bytes) (base : Bytes)
    → no_slash base ≡ true
    → base_of (file_of front base) ≡ base
unfolding base_of file_of
base_of-file_of none base h = rw (base_of, behind_slash-no_slash base h) refl
base_of-file_of (some front) base h =
    rw (base_of, behind_slash-append front base (behind_slash-no_slash base h)) refl

-- A slash and the string, at a NUL.
abbrev tail_then : Bytes → Bytes → Outcome Bytes
tail_then base to = copy_then (b'/' ∷ []) to (λ to'. copy_then base to' ok)

tail_then-ok :
    (base rest : Bytes)
    → 1 + length base < suc (length rest)
    → tail_then base (0 ∷ rest) ≡ ok (b'/' ∷ base ++ 0 ∷ drop (1 + length base) rest)
tail_then-ok base rest h =
    let behind : drop (length base) (drop 1 rest) ≡ drop (1 + length base) rest =
      drop-drop_add (1 + length base) (length base) 1 rest (omega arith) in
    copy_then-ok (λ to'. copy_then base to' ok) (b'/' ∷ []) (0 ∷ rest)
      (base ++ 0 ∷ drop (length base) (drop 1 rest)) (omega arith)
      (copy_then-ok ok base (0 ∷ drop 1 rest) (0 ∷ drop (length base) (drop 1 rest))
        (omega (arith, length-drop 1 rest)) refl)
    ∙ ap (λ t. ok (b'/' ∷ (base ++ (0 ∷ t)))) behind

tail_then-fault :
    (base rest : Bytes)
    → suc (length rest) ≤ 1 + length base
    → tail_then base (0 ∷ rest) ≡ stop fault
tail_then-fault base [] h =
    copy_then-fault (λ to'. copy_then base to' ok) (b'/' ∷ []) (0 ∷ []) (omega arith)
tail_then-fault base (x ∷ rest) h =
    copy_then-stop (λ to'. copy_then base to' ok) (b'/' ∷ []) (0 ∷ x ∷ rest) (omega arith)
      (copy_then-fault ok base (0 ∷ rest) (omega arith))

built_lem :
    (dir base buf : Bytes)
    → copy_then dir buf (tail_then base) ≡ (
        if ltb (length dir + 1 + length base) (length buf)
        then ok (dir ++ (b'/' ∷ (base ++ (0 ∷ drop (length dir + 2 + length base) buf))))
        else stop fault)
built_lem dir base buf =
    let rest : Bytes = drop (suc (length dir)) buf in
    let size : length rest ≡ length buf - suc (length dir) = length-drop (suc (length dir)) buf in
    elim (Bool-cases (ltb (length dir + 1 + length base) (length buf))) [
      | inl room ↦
          let behind : drop (1 + length base) rest ≡ drop (length dir + 2 + length base) buf =
            drop-drop_add (length dir + 2 + length base) (1 + length base) (suc (length dir)) buf
              (omega arith) in
          rw room (
            copy_then-ok (tail_then base) dir buf (b'/' ∷ base ++ 0 ∷ drop (1 + length base) rest)
              (ground arith) (tail_then-ok base rest (ground arith))
            ∙ ap (λ t. ok (dir ++ (b'/' ∷ (base ++ (0 ∷ t))))) behind)
      | inr full ↦ rw full (elim (Bool-cases (ltb (length dir) (length buf))) [
        | inl some_room ↦
            copy_then-stop (tail_then base) dir buf (ground arith)
              (tail_then-fault base rest (ground arith))
        | inr no_room ↦ copy_then-fault (tail_then base) dir buf (ground arith)
      ])
    ]

-- In an array `buf`, for a directory that is not empty: `buildName` puts the directory, a slash and the
-- last component of the file there, with a NUL behind, and leaves what is behind that, if they
-- are shorter than the array; otherwise it writes outside of it.
pub build_name_lem :
    (c : ℕ) (dir : Bytes) (front : Option Bytes) (base buf : Bytes)
    → no_slash base ≡ true
    → build_name (c ∷ dir) (file_of front base) buf ≡ (
        if ltb (length (c ∷ dir) + 1 + length base) (length buf)
        then ok (
            local_buf
              ((c ∷ dir) ++ (b'/' ∷ (base ++ (0 ∷ drop (length (c ∷ dir) + 2 + length base) buf)))))
        else stop fault)
unfolding build_name
build_name_lem c dir front base buf h =
    let base_eq : base_of (file_of front base) ≡ base = base_of-file_of front base h in
    let built : copy_then (c ∷ dir) buf (tail_then base) ≡ _ = built_lem (c ∷ dir) base buf in
    elim (Bool-cases (ltb (length (c ∷ dir) + 1 + length base) (length buf))) [
      | inl room ↦ rw (build_name, base_eq, built, room) refl
      | inr full ↦ rw (build_name, base_eq, built, full) refl
    ]
