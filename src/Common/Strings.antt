-- ===== src/Common/Strings.antt =====
-- A C string is the list of its bytes before the NUL; the byte that is read at its end is 0.
use Prim.Native.Char.{code}
use Prim.Native.Nat.{ℕ}
use Prim.Native.String.{String}
use mathlib.Core.Bool.{Bool, true, false, ◌&&◌}
use mathlib.Core.List.{List, [], ◌∷◌}
use mathlib.Core.Logic.{◌↔◌, ◌≢◌}
use mathlib.Core.Path.{◌≡◌, refl}
use native.Mathlib.Omega.{arith}
use minilib_ports.Common.Tests.{◌==◌}

abbrev pub Bytes : Type 0
Bytes = List ℕ

-- The bytes of an ASCII literal.
abbrev pub codes : String → Bytes
codes String.[] = []
codes (String.◌∷◌ c s) = code c ∷ codes s

-- `*p`
abbrev pub head_byte : Bytes → ℕ
head_byte [] = 0
head_byte (c ∷ s) = c

-- `p + 1`, for a `p` that does not stand on the NUL
abbrev pub tail_bytes : Bytes → Bytes
tail_bytes [] = []
tail_bytes (c ∷ s) = s

-- `strcmp(s, t) == 0`
unfoldable pub equal : Bytes → Bytes → Bool
equal [] [] = true
equal (a ∷ s) (b ∷ t) = a == b && equal s t
equal _ _ = false

pub equal_iff : (s t : Bytes) → (equal s t ≡ true) ↔ (s ≡ t)
unfolding equal
equal_iff (a ∷ s) (b ∷ t) = ground (arith, equal_iff s t)
equal_iff _ _ = ground arith

pub equal_refl : (s : Bytes) → equal s s ≡ true
equal_refl s = (equal_iff s s).1 refl

pub equal_comm : (s t : Bytes) → equal s t ≡ equal t s
unfolding equal
equal_comm (a ∷ s) (b ∷ t) = ground (arith, equal_comm s t)
equal_comm [] [] = refl
equal_comm [] (b ∷ t) = refl
equal_comm (a ∷ s) [] = refl

-- No string that has a byte equals the empty one.
pub equal_nil : (s : Bytes) → head_byte s ≢ 0 → equal s [] ≡ false
unfolding equal
equal_nil [] h = absurd (h refl)
equal_nil (a ∷ s) h = refl
