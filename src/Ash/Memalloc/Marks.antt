-- ===== src/Ash/Memalloc/Marks.antt =====
-- ash/memalloc.c: the marks of the stack, and what keeps them valid.
use minilib_ports.Common.{
  ℕ, ◌+◌, ◌%◌, ◌≤◌, ◌<◌, ◌≡◌, refl, sym, ◌∙◌, subst, true, false, List, [], ◌∷◌, zero, suc, arith,
  ◌==◌, Bytes, length, none, some, Bool-cases, inl, inr,
}
use minilib_ports.Ash.Memalloc.{Block, Mark, unwind, mark_at, relocate}

-- The blocks below one have lower numbers, in their order.
abbrev pub Below : ℕ → List Block → Type 0
Below id [] = Unit {0}
Below id (b ∷ below) = (b.id < id) × Below b.id below

pub record MarkFits (m : Mark) (b : Block) : Type 0 where
  pub fills : m.stacknxt + m.stacknleft ≡ length b.space
  pub next_aligned : m.stacknxt % 8 ≡ 0
  pub size_aligned : length b.space % 8 ≡ 0

-- The block of each mark is found, and the marks behind it are valid for the blocks from there on.
abbrev pub MarksValid : Block → List Block → List Mark → Type 0
MarksValid top below [] = Unit {0}
MarksValid top below (m ∷ marks) =
    (r : Block × List Block) × (unwind m.stackp top below ≡ some r)
    × MarkFits m r.0
    × MarksValid r.0 r.1 marks

pub unwind_top : (top : Block) (below : List Block) → unwind top.id top below ≡ some (top, below)
unfolding unwind
unwind_top top [] = ground arith
unwind_top top (b ∷ below) = ground arith

pub unwind-here :
    (id : ℕ) (top : Block) (below : List Block)
    → (top.id == id) ≡ true
    → unwind id top below ≡ some (top, below)
unfolding unwind
unwind-here id top [] h = rw h refl
unwind-here id top (b ∷ below) h = rw h refl

-- Two blocks at the top that both do not have the number.
pub unwind-passes :
    (id : ℕ) (top top' : Block) (below : List Block)
    → (top.id == id) ≡ false
    → (top'.id == id) ≡ false
    → unwind id top' below ≡ unwind id top below
unfolding unwind
unwind-passes id top top' [] h h' = rw (h, h') refl
unwind-passes id top top' (b ∷ below) h h' = rw (h, h') refl

pub unwind_below :
    (id : ℕ) (top b : Block) (below : List Block)
    → (top.id == id) ≡ false
    → unwind id top (b ∷ below) ≡ unwind id b below
unfolding unwind
unwind_below id top b below h = rw h refl

-- The block that is found has the number, which is that of the top or a lower one.
pub unwind-id :
    (id : ℕ) (top : Block) (below : List Block) (r : Block × List Block)
    → Below top.id below
    → unwind id top below ≡ some r
    → (r.0.id ≡ id) × (id ≤ top.id) × Below r.0.id r.1
unfolding unwind
unwind-id id top [] r h e = ground arith
unwind-id id top (b ∷ below) r h e = elim (Bool-cases (top.id == id)) [
  | inl here ↦ let found : (top, b ∷ below) ≡ r = ground arith in rw (← found) (ground arith)
  | inr on ↦
      let (same, le, rest) =
        unwind-id id b below r h.1 (sym (unwind_below id top b below on) ∙ e) in
      (same, omega arith, rest)
]

-- A block is found from one above it as from the top.
pub unwind-unwind :
    (id mid : ℕ) (top : Block) (below : List Block) (q : Block × List Block)
    → Below top.id below
    → unwind mid top below ≡ some q
    → id ≤ mid
    → unwind id q.0 q.1 ≡ unwind id top below
unfolding unwind
unwind-unwind id mid top [] q h e le = elim (Bool-cases (top.id == mid)) [
  | inl here ↦ let found : (top, []) ≡ q = cc (unwind-here mid top [] here) in rw (← found) refl
  | inr on ↦ let lost : unwind mid top [] ≡ none = rw (unwind, on) refl in absurd (cc)
]
unwind-unwind id mid top (b ∷ below) q h e le = elim (Bool-cases (top.id == mid)) [
  | inl here ↦
      let found : (top, b ∷ below) ≡ q = cc (unwind-here mid top (b ∷ below) here) in
      rw (← found) refl
  | inr on ↦
      let e' : unwind mid b below ≡ some q = sym (unwind_below mid top b below on) ∙ e in
      let (same, low, _) = unwind-id mid b below q h.1 e' in
      unwind-unwind id mid b below q h.1 e' le ∙ sym (unwind_below id top b below (ground arith))
]

-- The block of a mark at a place in the list.
pub MarksValid-mark_at :
    (n : ℕ) (top : Block) (below : List Block) (marks : List Mark) (m : Mark × List Mark)
    → Below top.id below
    → MarksValid top below marks
    → mark_at n marks ≡ some m
    → (r : Block × List Block) × (unwind m.0.stackp top below ≡ some r)
      × MarkFits m.0 r.0
      × MarksValid r.0 r.1 m.1
unfolding mark_at
MarksValid-mark_at n top below [] m h v e = absurd (cc)
MarksValid-mark_at zero top below (k ∷ marks) m h v e =
    let same : (k, marks) ≡ m = cc in rw (← same) v
MarksValid-mark_at (suc n) top below (k ∷ marks) m h (q, f, fits, rest) e =
    let (same, le, chain) = unwind-id k.stackp top below q h f in
    let (r, found, fits', rest') = MarksValid-mark_at n q.0 q.1 marks m chain rest e in
    let (same', le', chain') = unwind-id m.0.stackp q.0 q.1 r chain found in
    (r, sym (unwind-unwind m.0.stackp k.stackp top below q h f (omega arith)) ∙ found, fits', rest')

module _ (top : Block) (below : List Block) (chain : Below top.id below) where
  -- A new block above, with a higher number.
  pub MarksValid-push :
      (new : Block) (marks : List Mark)
      → top.id < new.id
      → MarksValid top below marks
      → MarksValid new (top ∷ below) marks
  MarksValid-push new [] h v = tt
  MarksValid-push new (m ∷ marks) h (r, e, fits, rest) =
      let (same, le, _) = unwind-id m.stackp top below r chain e in
      (r, unwind_below m.stackp new top below (ground arith) ∙ e, fits, rest)

  -- The block at the top with other bytes.
  pub MarksValid-space :
      (space : Bytes) (marks : List Mark)
      → length space ≡ length top.space
      → MarksValid top below marks
      → MarksValid (record top { space = space }) below marks
  MarksValid-space space [] h v = tt
  MarksValid-space space (m ∷ marks) h (r, e, fits, rest) = elim (Bool-cases (top.id == m.stackp)) [
    | inl here ↦
        let found : r ≡ (top, below) = cc (unwind-here m.stackp top below here) in
        let fits' : MarkFits m top = subst (λ q. MarkFits m q.0) found fits in
        let rest' : MarksValid top below marks = subst (λ q. MarksValid q.0 q.1 marks) found rest in
        (
          (record top { space = space }, below),
          unwind-here m.stackp (record top { space = space }) below here,
          record {
            fills = omega (arith, fits'.fills);
            next_aligned = fits'.next_aligned;
            size_aligned = omega (arith, fits'.size_aligned);
          },
          MarksValid-space space marks h rest',
        )
    | inr on ↦
        (r, unwind-passes m.stackp top (record top { space = space }) below on on ∙ e, fits, rest)
  ]

  -- The block at the top moved and grown, with the marks in it relocated.
  pub MarksValid-relocate :
      (new : Block) (marks : List Mark)
      → top.id < new.id
      → length new.space % 8 ≡ 0
      → MarksValid top below marks
      → MarksValid new below (relocate top.id new.id (length new.space) marks)
  unfolding relocate
  MarksValid-relocate new [] h a v = tt
  MarksValid-relocate new (m ∷ marks) h a (r, e, fits, rest) =
      elim (Bool-cases (m.stackp == top.id)) [
        | inl here ↦
            let found : r ≡ (top, below) = cc (unwind-here m.stackp top below (ground arith)) in
            let rest' : MarksValid top below marks =
              subst (λ q. MarksValid q.0 q.1 marks) found rest in
            rw (relocate, here)
              (
                (new, below),
                unwind_top new below,
                record { fills = omega arith; next_aligned = refl; size_aligned = a },
                MarksValid-relocate new marks h a rest',
              )
        | inr on ↦
            let (same, le, _) = unwind-id m.stackp top below r chain e in
            rw (relocate, on)
              (
                r,
                unwind-passes m.stackp top new below (ground arith) (ground arith) ∙ e,
                fits,
                rest,
              )
      ]
