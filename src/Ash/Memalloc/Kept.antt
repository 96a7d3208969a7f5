-- ===== src/Ash/Memalloc/Kept.antt =====
-- ash/memalloc.c: what a mark keeps of the stack while it is set.
use minilib_ports.Common.{
  ℕ, zero, suc, ◌+◌, ◌≤◌, ◌<◌, ◌≡◌, refl, subst, ◌∙◌, true, false, List, [], ◌∷◌, Bool-cases, inl,
  inr, ◌++◌, arith, ◌==◌, Bytes, length, take, drop, some, take-append-le, length-take, take-take,
}
use minilib_ports.Ash.Memalloc.{
  Block, Mark, Stack, overwrite, setstackmark, unwind, mark_at, relocate,
}
use minilib_ports.Ash.Memalloc.Marks.{Below, MarksValid, unwind_top, unwind-id}
use minilib_ports.Ash.Memalloc.Valid.{IsValid, setstackmark-IsValid}

-- Bytes in front of a place are not written over.
pub take-overwrite :
    (n at : ℕ) (bytes space : Bytes)
    → n ≤ at
    → at ≤ length space
    → take n (overwrite at bytes space) ≡ take n space
unfolding overwrite
take-overwrite n at bytes space h k =
    take-append-le n (take at space) (bytes ++ drop (at + length bytes) space)
      (omega (arith, length-take at space))
    ∙ take-take n at space h

-- A mark in the block `id` at the place `nxt` is on the list, behind `d` others that are in no block
-- below that, and in it at no place in front.
abbrev pub Holds : ℕ → ℕ → ℕ → List Mark → Type 0
Holds d id nxt [] = ⊥
Holds zero id nxt (m ∷ marks) = (m.stackp ≡ id) × (m.stacknxt ≡ nxt)
Holds (suc d) id nxt (m ∷ marks) =
    (id ≤ m.stackp) × (m.stackp ≡ id → nxt ≤ m.stacknxt) × Holds d id nxt marks

-- The block that the mark was set in is there, with what is in front of the mark as it was.
pub record Kept (s0 : Stack) (d : ℕ) (s : Stack) : Type 0 where
  pub block : Block
  pub found : unwind block.id s.top s.below ≡ some (block, s0.below)
  pub bytes : take s0.stacknxt block.space ≡ take s0.stacknxt s0.top.space
  pub in_front : s.top.id ≡ block.id → s0.stacknxt ≤ s.stacknxt
  pub holds : Holds d block.id s0.stacknxt s.marks
  pub valid : IsValid s

pub setstackmark-Kept : (s : Stack) → IsValid s → Kept s 0 (setstackmark s)
unfolding setstackmark
setstackmark-Kept s v = record {
  block = s.top;
  found = unwind_top s.top s.below;
  bytes = refl;
  in_front = λ e. omega arith;
  holds = (refl, refl);
  valid = setstackmark-IsValid v;
}

-- The first mark of the list, whichever it is.
pub Holds-first :
    (d id nxt : ℕ) (m : Mark) (marks : List Mark)
    → Holds d id nxt (m ∷ marks)
    → (id ≤ m.stackp) × (m.stackp ≡ id → nxt ≤ m.stacknxt)
Holds-first zero id nxt m marks (e, f) = (omega arith, λ h. omega arith)
Holds-first (suc d) id nxt m marks (e, f, rest) = (e, f)

-- The mark itself.
pub Holds-mark :
    (d id nxt : ℕ) (marks : List Mark)
    → Holds d id nxt marks
    → (m : Mark × List Mark) × (mark_at d marks ≡ some m) × (m.0.stackp ≡ id) × (m.0.stacknxt ≡ nxt)
unfolding mark_at
Holds-mark d id nxt [] h = absurd h
Holds-mark zero id nxt (m ∷ marks) (e, f) = ((m, marks), refl, e, f)
Holds-mark (suc d) id nxt (m ∷ marks) (e, f, rest) = Holds-mark d id nxt marks rest

-- A mark in front of it, and what is behind that.
pub Holds-mark_at :
    (n d id nxt : ℕ) (marks : List Mark) (m : Mark × List Mark)
    → Holds (suc n + d) id nxt marks
    → mark_at n marks ≡ some m
    → (id ≤ m.0.stackp) × (m.0.stackp ≡ id → nxt ≤ m.0.stacknxt) × Holds d id nxt m.1
unfolding mark_at
Holds-mark_at n d id nxt [] m h e = absurd (cc)
Holds-mark_at zero d id nxt (k ∷ marks) m h e =
    let same : (k, marks) ≡ m = cc in
    let count : suc zero + d ≡ suc d = omega arith in
    let h' : Holds (suc d) id nxt (k ∷ marks) = subst (λ c. Holds c id nxt (k ∷ marks)) count h in
    rw (← same) h'
Holds-mark_at (suc n) d id nxt (k ∷ marks) m h e =
    let count : suc (suc n) + d ≡ suc (suc n + d) = omega arith in
    let (low, place, rest) = subst (λ c. Holds c id nxt (k ∷ marks)) count h in
    Holds-mark_at n d id nxt marks m rest e

-- Where the block moves that all these marks are in.
pub Holds-relocate_all :
    (d id new len : ℕ) (top : Block) (below : List Block) (marks : List Mark)
    → Below top.id below
    → MarksValid top below marks
    → top.id ≤ id
    → Holds d id 0 marks
    → Holds d new 0 (relocate id new len marks)
unfolding relocate
Holds-relocate_all d id new len top below [] c v le h = absurd h
Holds-relocate_all zero id new len top below (m ∷ marks) c v le (e, f) =
    let here : (m.stackp == id) ≡ true = ground arith in rw (relocate, here) (refl, refl)
Holds-relocate_all (suc d) id new len top below (m ∷ marks) c (r, found, fits, v) le (e, f, h) =
    let (same, low, chain) = unwind-id m.stackp top below r c found in
    let here : (m.stackp == id) ≡ true = ground arith in
    rw (relocate, here)
      (
        omega arith,
        λ _. omega arith,
        Holds-relocate_all d id new len r.0 r.1 marks chain v (omega arith) h,
      )

-- Where another block moves.
pub Holds-relocate :
    (d id nxt old new len : ℕ) (marks : List Mark)
    → (id == old) ≡ false
    → id < new
    → Holds d id nxt marks
    → Holds d id nxt (relocate old new len marks)
unfolding relocate
Holds-relocate d id nxt old new len [] o lt h = absurd h
Holds-relocate zero id nxt old new len (m ∷ marks) o lt (e, f) =
    let other : (m.stackp == old) ≡ false = ground arith in rw (relocate, other) (e, f)
Holds-relocate (suc d) id nxt old new len (m ∷ marks) o lt (e, f, h) =
    elim (Bool-cases (m.stackp == old)) [
      | inl here ↦
          rw (relocate, here)
            (
              omega arith,
              λ i. absurd (omega arith),
              Holds-relocate d id nxt old new len marks o lt h,
            )
      | inr other ↦ rw (relocate, other) (e, f, h)
    ]
