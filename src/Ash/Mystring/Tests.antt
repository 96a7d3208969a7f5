-- ===== src/Ash/Mystring/Tests.antt =====
-- Runs of the string functions, with a `strtoimax` for texts of digits.
use minilib_ports.Common.{
  ℕ, ◌+◌, ◌^◌, ◌-◌, ◌≡◌, ◌↔◌, refl, true, [], ◌∷◌, ◌++◌, arith, ltb, if◌then◌else◌, Bytes, codes,
  length, take, drop,
}
use minilib_ports.Ash.ArithToken.Scan.{is_digit}
use minilib_ports.Ash.Mystring.{scopyn, prefix, number}
use minilib_ports.Ash.Mystring.Copy.{scopyn_lem, prefix_iff}
use minilib_ports.Ash.Mystring.Numbers.{
  ReadsDecimal, skip_digits, decimal_value, number_by_value, number_lem,
}
use minilib_ports.Ash.Outcome.{ok, err, fault, illegal_number, number_out_of_range}

abbrev digits_only : Bytes → ℕ × Bytes
digits_only s =
    (if ltb (decimal_value 0 s) (2 ^ 63) then decimal_value 0 s else 2 ^ 63 - 1, skip_digits s)

digits_only-ReadsDecimal : ReadsDecimal digits_only
unfolding skip_digits
digits_only-ReadsDecimal = record { stops = λ c s h. ground arith; reads = λ s h. refl }

copies :
    (scopyn (codes "abcdef") (codes "12345678") 4 ≡ ok (codes "abc" ++ 0 ∷ codes "5678"))
    × (scopyn (codes "ab") (codes "12345678") 4 ≡ ok (codes "ab" ++ 0 ∷ codes "45678"))
    × (scopyn (codes "abcdef") (codes "12") 4 ≡ err fault)
    × (scopyn (codes "ab") (codes "12") 0 ≡ ok (0 ∷ codes "2"))
unfolding scopyn
copies = (refl, refl, refl, refl)

numbers :
    (number digits_only (codes "42") ≡ ok 42)
    × (number digits_only (codes "2147483648") ≡ err (number_out_of_range (codes "2147483648")))
    × (number digits_only (codes "4x") ≡ err (illegal_number (codes "4x")))
    × (number digits_only (codes "-4") ≡ err (illegal_number (codes "-4")))
    × (number digits_only [] ≡ err (illegal_number []))
unfolding is_digit number decimal_value skip_digits
numbers = (refl, refl, refl, refl, refl)

scopyn_lem_example :
    scopyn (codes "abcdef") (codes "12345678") 4
    ≡ ok (
        take 3 (codes "abcdef")
        ++ 0 ∷ drop (1 + length (take 3 (codes "abcdef"))) (codes "12345678"))
scopyn_lem_example = scopyn_lem 3 (codes "abcdef") (codes "12345678") (omega arith)

prefix_iff_example :
    (prefix (codes "ab") (codes "abc") ≡ true)
    ↔ ((rest : Bytes) × (codes "abc" ≡ codes "ab" ++ rest))
prefix_iff_example = prefix_iff (codes "ab") (codes "abc")

number_lem_example : number digits_only (codes "42") ≡ number_by_value (codes "42")
number_lem_example = number_lem digits_only digits_only-ReadsDecimal (codes "42")
