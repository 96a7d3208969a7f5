-- ===== src/Sash/Strings/Tests.antt =====
-- Runs of `makeString` and `buildName`.
use minilib_ports.Common.{
  ◌≡◌, refl, List, [], ◌∷◌, ◌++◌, arith, Bytes, codes, length, drop, replicate, ltb, if◌then◌else◌,
  some, ◌+◌,
}
use minilib_ports.Sash.Outcome.{ok, stop, too_long, fault}
use minilib_ports.Sash.Strings.{make_string, build_name, local_buf, file_name}
use minilib_ports.Sash.Strings.Joined.{
  string_or_stop, no_slash, file_of, make_string_lem, build_name_lem,
}

abbrev words : List Bytes
words = codes "cp" ∷ codes "a" ∷ codes "b" ∷ []

strings :
    (make_string words (codes "123456789") 9 ≡ ok (codes "cp a b" ++ 0 ∷ codes "89"))
    × (make_string words (codes "123456789") 6 ≡ stop too_long)
    × (make_string words (codes "1234") 9 ≡ stop fault)
unfolding make_string
strings = (refl, refl, refl)

-- An array of ten bytes.
abbrev small : Bytes
small = codes "0123456789"

names :
    (build_name (codes "dir") (codes "a/b.c") small
      ≡ ok (local_buf (codes "dir/b.c" ++ 0 ∷ codes "89")))
    × (build_name (codes "dir") (codes "longer") small ≡ stop fault)
    × (build_name [] (codes "a/b.c") small ≡ ok file_name)
unfolding build_name
names = (refl, refl, refl)

make_string_lem_example :
    make_string words (codes "123456789") 9 ≡ string_or_stop words (codes "123456789") 9
make_string_lem_example = make_string_lem words (codes "123456789") 9 (omega arith) (omega arith)

abbrev zeros : Bytes
zeros = replicate 1024 0

build_name_lem_example : build_name (codes "dir") (codes "a/b.c") zeros ≡ (
    if ltb (3 + 1 + 3) (length zeros)
    then ok (local_buf (codes "dir" ++ (b'/' ∷ (codes "b.c" ++ (0 ∷ drop (3 + 2 + 3) zeros)))))
    else stop fault)
unfolding no_slash file_of
build_name_lem_example =
    build_name_lem b'd' (codes "ir") (some (codes "a")) (codes "b.c") zeros refl
