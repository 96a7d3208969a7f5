-- ===== src/Sash/Mode.antt =====
-- sash-3.8/utils.c: `modeString`, the ten bytes in which a file mode is listed.
use minilib_ports.Common.{
  ℕ, ◌*◌, ◌/◌, ◌%◌, ◌^◌, Bool, true, false, [], ◌∷◌, ◌==◌, if◌then◌else◌, Bytes,
}
pub mod Perms
mod Tests

-- `mode & 2 ^ k`, as a test.
abbrev pub bit : ℕ → ℕ → Bool
bit mode k = mode / 2 ^ k % 2 == 1

-- `(mode & S_IFMT) == type * 010000`
abbrev pub is_type : ℕ → ℕ → Bool
is_type mode type = mode / 2 ^ 12 % 16 == type

-- `S_ISDIR`, `S_ISCHR`, `S_ISBLK`, `S_ISFIFO`, `S_ISLNK`, `S_ISSOCK`
unfoldable pub type_byte : ℕ → ℕ
type_byte mode =
    if is_type mode 4
    then b'd'
    else if is_type mode 2
    then b'c'
    else if is_type mode 6
    then b'b'
    else if is_type mode 1
    then b'p'
    else if is_type mode 10
    then b'l'
    else if is_type mode 12
    then b's'
    else b'-'

-- One of the bits `S_IRUSR`, `S_IWUSR`, `S_IRGRP`, `S_IWGRP`, `S_IROTH`, `S_IWOTH`.
unfoldable pub flag_byte : ℕ → ℕ → ℕ → ℕ
flag_byte mode k letter = if bit mode k then letter else b'-'

-- One of the bits `S_IXUSR`, `S_IXGRP`, `S_IXOTH`, with its magic bit `S_ISUID`, `S_ISGID`, `S_ISVTX`.
unfoldable pub magic_byte : ℕ → ℕ → ℕ → ℕ → ℕ → ℕ
magic_byte mode k magic lower upper =
    if bit mode magic
    then (if bit mode k then lower else upper)
    else if bit mode k
    then b'x'
    else b'-'

unfoldable pub mode_string : ℕ → Bytes
unfolding type_byte flag_byte magic_byte
mode_string mode =
    type_byte mode
    ∷ flag_byte mode 8 b'r'
    ∷ flag_byte mode 7 b'w'
    ∷ magic_byte mode 6 11 b's' b'S'
    ∷ flag_byte mode 5 b'r'
    ∷ flag_byte mode 4 b'w'
    ∷ magic_byte mode 3 10 b's' b'S'
    ∷ flag_byte mode 2 b'r'
    ∷ flag_byte mode 1 b'w'
    ∷ magic_byte mode 0 9 b't' b'T'
    ∷ []
