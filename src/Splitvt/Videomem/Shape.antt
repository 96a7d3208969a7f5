-- ===== src/Splitvt/Videomem/Shape.antt =====
-- splitvt/videomem.c: rows of one length, and a row written back.
use minilib_ports.Common.{
  ℕ, ◌<◌, ◌≡◌, ◌∙◌, List, [], arith, length, get_or, set, get_or-set, length-set, ◌==◌,
  if◌then◌else◌, Bool-cases, inl, inr,
}

-- The row of a line, that counts from 0, and a pixel of it.
abbrev pub row_of : List (List ℕ) → ℕ → List ℕ
row_of mem i = get_or mem i []

abbrev pub pixel : List (List ℕ) → ℕ → ℕ → ℕ
pixel mem i j = get_or (row_of mem i) j 0

pub record Shape (rows cols : ℕ) (mem : List (List ℕ)) : Type 0 where
  pub lines : length mem ≡ rows
  pub width : (i : ℕ) → i < rows → length (row_of mem i) ≡ cols

pub Shape-set :
    {rows cols : ℕ} {mem : List (List ℕ)} (x : ℕ) (row : List ℕ)
    → Shape rows cols mem
    → x < rows
    → length row ≡ cols
    → Shape rows cols (set mem x row)
Shape-set {rows} {cols} {mem} x row s h w = record {
  lines = length-set mem x row ∙ s.lines;
  width = λ i k.
      let e : row_of (set mem x row) i ≡ (if x == i then row else row_of mem i) =
        get_or-set mem x i row [] (omega (arith, s.lines)) in
      elim (Bool-cases (x == i)) [
        | inl here ↦ rw (e, here) w
        | inr other ↦ rw (e, other) (s.width i k)
      ];
}
