-- ===== src/Sash/Mode/Perms.antt =====
-- sash-3.8/utils.c: the mode can be read from the string that `modeString` makes of it.
use minilib_ports.Common.{
  ℕ, ◌+◌, ◌*◌, ◌/◌, ◌%◌, ◌^◌, ◌≡◌, refl, ◌||◌, Bool, false, arith, ◌==◌, if◌then◌else◌, Bytes,
  get_or,
}
use minilib_ports.Sash.Mode.{type_byte, flag_byte, magic_byte, mode_string}

-- A type that has a letter of its own.
abbrev pub has_letter : ℕ → Bool
has_letter type = type == 4 || type == 2 || type == 6 || type == 1 || type == 10 || type == 12

unfoldable pub type_of : ℕ → ℕ
type_of c =
    if c == b'd'
    then 4
    else if c == b'c'
    then 2
    else if c == b'b'
    then 6
    else if c == b'p'
    then 1
    else if c == b'l'
    then 10
    else if c == b's'
    then 12
    else 0

unfoldable pub flag_of : ℕ → ℕ → ℕ
flag_of k c = if c == b'-' then 0 else 2 ^ k

-- The letters for the magic bit alone, for both bits, and the `x` for the other one.
unfoldable pub magic_of : ℕ → ℕ → ℕ → ℕ → ℕ → ℕ
magic_of k magic lower upper c =
    if c == lower
    then 2 ^ k + 2 ^ magic
    else if c == upper
    then 2 ^ magic
    else if c == b'x'
    then 2 ^ k
    else 0

-- The permissions that the bytes behind the first stand for.
unfoldable pub perms_of : Bytes → ℕ
unfolding flag_of magic_of
perms_of s =
    flag_of 8 (get_or s 1 0)
    + flag_of 7 (get_or s 2 0)
    + magic_of 6 11 b's' b'S' (get_or s 3 0)
    + flag_of 5 (get_or s 4 0)
    + flag_of 4 (get_or s 5 0)
    + magic_of 3 10 b's' b'S' (get_or s 6 0)
    + flag_of 2 (get_or s 7 0)
    + flag_of 1 (get_or s 8 0)
    + magic_of 0 9 b't' b'T' (get_or s 9 0)

flag_of-flag_byte :
    (mode k letter : ℕ)
    → (letter == b'-') ≡ false
    → flag_of k (flag_byte mode k letter) ≡ mode / 2 ^ k % 2 * 2 ^ k
unfolding flag_of flag_byte
flag_of-flag_byte mode k letter h = ground arith

magic_of-magic_byte :
    (mode k magic lower upper : ℕ)
    → (lower == upper) ≡ false
    → (lower == b'x') ≡ false
    → (upper == b'x') ≡ false
    → (lower == b'-') ≡ false
    → (upper == b'-') ≡ false
    → magic_of k magic lower upper (magic_byte mode k magic lower upper)
      ≡ mode / 2 ^ k % 2 * 2 ^ k + mode / 2 ^ magic % 2 * 2 ^ magic
unfolding magic_of magic_byte
magic_of-magic_byte mode k magic lower upper h1 h2 h3 h4 h5 = ground arith

type_of-type_byte :
    (mode : ℕ)
    → type_of (type_byte mode) ≡ (if has_letter (mode / 2 ^ 12 % 16) then mode / 2 ^ 12 % 16 else 0)
unfolding type_of type_byte
type_of-type_byte mode = ground arith

-- The bits of a number below 2 ^ 12.
sum_of_bits :
    (m : ℕ)
    → m / 2 ^ 8 % 2 * 2 ^ 8
        + m / 2 ^ 7 % 2 * 2 ^ 7
        + (m / 2 ^ 6 % 2 * 2 ^ 6 + m / 2 ^ 11 % 2 * 2 ^ 11)
        + m / 2 ^ 5 % 2 * 2 ^ 5
        + m / 2 ^ 4 % 2 * 2 ^ 4
        + (m / 2 ^ 3 % 2 * 2 ^ 3 + m / 2 ^ 10 % 2 * 2 ^ 10)
        + m / 2 ^ 2 % 2 * 2 ^ 2
        + m / 2 ^ 1 % 2 * 2 ^ 1
        + (m / 2 ^ 0 % 2 * 2 ^ 0 + m / 2 ^ 9 % 2 * 2 ^ 9)
      ≡ m % 2 ^ 12
sum_of_bits m = omega arith

perms_of-mode_string : (mode : ℕ) → perms_of (mode_string mode) ≡ mode % 2 ^ 12
unfolding perms_of mode_string
perms_of-mode_string mode =
    rw
      (
        flag_of-flag_byte mode 8 b'r' refl,
        flag_of-flag_byte mode 7 b'w' refl,
        magic_of-magic_byte mode 6 11 b's' b'S' refl refl refl refl refl,
        flag_of-flag_byte mode 5 b'r' refl,
        flag_of-flag_byte mode 4 b'w' refl,
        magic_of-magic_byte mode 3 10 b's' b'S' refl refl refl refl refl,
        flag_of-flag_byte mode 2 b'r' refl,
        flag_of-flag_byte mode 1 b'w' refl,
        magic_of-magic_byte mode 0 9 b't' b'T' refl refl refl refl refl,
      )
      (sum_of_bits mode)

-- The permissions, with the set-id bits and the sticky bit, can be read from the string, and so can
-- the type of the file, if it has a letter.
pub mode_string_lem :
    (mode : ℕ)
    → (perms_of (mode_string mode) ≡ mode % 2 ^ 12)
      × (type_of (get_or (mode_string mode) 0 0)
          ≡ (if has_letter (mode / 2 ^ 12 % 16) then mode / 2 ^ 12 % 16 else 0))
unfolding mode_string
mode_string_lem mode = (perms_of-mode_string mode, type_of-type_byte mode)
