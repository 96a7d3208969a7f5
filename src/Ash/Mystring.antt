-- ===== src/Ash/Mystring.antt =====
-- ash/mystring.c: the string functions.
use minilib_ports.Common.{
  ℕ, zero, suc, ◌-◌, ◌%◌, ◌^◌, Bool, true, false, not, ◌||◌, [], ◌∷◌, ◌==◌, if◌then◌else◌, Bytes,
  length,
}
use minilib_ports.Common.Word.{signed_lt}
use minilib_ports.Ash.ArithToken.Scan.{is_digit}
use minilib_ports.Ash.Outcome.{Outcome, ok, err, fault, illegal_number, number_out_of_range, ◌>>=◌}
pub mod Copy
pub mod Numbers
pub mod Tests

-- `to` is the memory from the pointer to the end of its object, one entry for each byte. A `size`
-- that is negative is as 0.
unfoldable pub scopyn : Bytes → Bytes → ℕ → Outcome Bytes
scopyn from [] size = err fault
scopyn from (x ∷ to) zero = ok (0 ∷ to)
scopyn from (x ∷ to) (suc zero) = ok (0 ∷ to)
scopyn [] (x ∷ to) (suc (suc size)) = ok (0 ∷ to)
scopyn (c ∷ from) (x ∷ to) (suc (suc size)) = do later ← scopyn from to (suc size); ok (c ∷ later)

unfoldable pub prefix : Bytes → Bytes → Bool
prefix [] string = true
prefix (c ∷ pfx) [] = false
prefix (c ∷ pfx) (d ∷ string) =
    let later = prefix pfx string in if not (c == d) then false else later

unfoldable pub is_number : Bytes → Bool
is_number [] = false
is_number (c ∷ p) =
    let later = is_number p in
    if not (is_digit c) then false else elim p [ [] ↦ true | d ∷ p' ↦ later ]

-- The library's `strtoimax(s, &ep, 10)`: the value, as a 64-bit pattern, and the text at `ep`.
module _ (strtoimax : Bytes → ℕ × Bytes) where
  -- The pointers `ep` and `s` are compared by what is left of the string.
  unfoldable pub number : Bytes → Outcome ℕ
  number [] = err (illegal_number [])
  number (c ∷ s) =
      let (n, ep) = strtoimax (c ∷ s) in
      if not (is_digit c) || length ep == length (c ∷ s) || not (length ep == 0)
      then err (illegal_number (c ∷ s))
      else if signed_lt n (2 ^ 64 - 2 ^ 31) || signed_lt (2 ^ 31 - 1) n
      then err (number_out_of_range (c ∷ s))
      else ok (n % 2 ^ 32)
