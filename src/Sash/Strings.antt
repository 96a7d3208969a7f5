-- ===== src/Sash/Strings.antt =====
-- sash-3.8/utils.c: `makeString` and `buildName`.
use minilib_ports.Common.{
  ℕ, suc, ◌+◌, ◌-◌, ◌≤◌, ◌<◌, ◌≡◌, refl, Bool, true, false, ◌||◌, List, [], ◌∷◌, ◌++◌, arith, ltb,
  leb, ◌==◌, if◌then◌else◌, Bytes, length, drop, Option, none, some,
}
use minilib_ports.Sash.Outcome.{Outcome, ok, stop, ◌>>=◌, too_long, fault}
pub mod Joined
mod Tests

-- `strcpy(to, s)`, and then what `next` leaves in the memory from the NUL on. Memory is the list of
-- its bytes up to the end of the object.
unfoldable pub copy_then : Bytes → Bytes → (Bytes → Outcome Bytes) → Outcome Bytes
copy_then [] [] next = stop fault
copy_then [] (x ∷ to) next = next (0 ∷ to)
copy_then (c ∷ s) [] next = stop fault
copy_then (c ∷ s) (x ∷ to) next = do later ← copy_then s to next; ok (c ∷ later)

-- `*buf = c`, and then what `next` leaves behind it.
unfoldable pub put_then : ℕ → Bytes → (Bytes → Outcome Bytes) → Outcome Bytes
put_then c [] next = stop fault
put_then c (x ∷ to) next = do later ← next to; ok (c ∷ later)

-- What the call leaves in the buffer. `buf_len` counts down to 0 at the least, as each argument is
-- shorter than it.
unfoldable pub make_string : List Bytes → Bytes → ℕ → Outcome Bytes
unfolding copy_then put_then
make_string [] buf buf_len = put_then 0 buf ok
make_string (arg ∷ []) buf buf_len =
    if leb buf_len (length arg) then stop too_long else copy_then arg buf (λ to. put_then 0 to ok)
make_string (arg ∷ more ∷ argv) buf buf_len =
    if leb buf_len (length arg)
    then stop too_long
    else copy_then arg buf
        (λ to. put_then b' ' to (λ rest. make_string (more ∷ argv) rest (buf_len - length arg - 1)))

-- `strrchr(s, '/')` and one byte on: what is behind the last slash, if there is one.
unfoldable pub behind_slash : Bytes → Option Bytes
behind_slash [] = none
behind_slash (c ∷ s) =
    let later = behind_slash s in
    elim later [ some t ↦ some t | none ↦ if c == b'/' then some s else none ]

-- What the pointer that is returned points to: the file name of the caller, or the automatic array,
-- with what it holds at the return. No caller may read that.
pub data Name : Type 0 where
  file_name : Name
  local_buf : Bytes → Name

-- The component that is behind the last slash, if there is one.
unfoldable pub base_of : Bytes → Bytes
unfolding behind_slash
base_of file = elim (behind_slash file) [ none ↦ file | some t ↦ t ]

-- A null directory is as an empty one. `buf` is the array.
unfoldable pub build_name : Bytes → Bytes → Bytes → Outcome Name
unfolding base_of copy_then
build_name [] file buf = ok file_name
build_name (c ∷ dir) file buf = do
  built ←
      copy_then (c ∷ dir) buf
        (λ to. copy_then (b'/' ∷ []) to (λ to'. copy_then (base_of file) to' ok))
  ok (local_buf built)
