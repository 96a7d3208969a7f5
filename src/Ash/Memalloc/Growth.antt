-- ===== src/Ash/Memalloc/Growth.antt =====
-- ash/memalloc.c: allocation and growth keep the stack valid.
use minilib_ports.Common.{
  not, ◌&&◌, ℕ, ◌+◌, ◌-◌, ◌*◌, ◌%◌, ◌≤◌, ◌<◌, ◌≡◌, ◌⊎◌, refl, subst, List, [], ◌∷◌, ◌++◌, arith,
  ltb, ◌==◌, if◌then◌else◌, Bytes, length, drop, Bool-cases, inl, inr, length-append,
  length-take-le,
}
use minilib_ports.Ash.Memalloc.{
  Block, Stack, relocate, shell_align, is_base, min_size, overwrite, slice, stalloc, regrow,
  move_up, growstackblock, growstackstr, makestrspace,
}
use minilib_ports.Ash.Memalloc.Marks.{
  Below, MarksValid, MarksValid-push, MarksValid-space, MarksValid-relocate,
}
use minilib_ports.Ash.Memalloc.Valid.{IsValid, length-overwrite}

-- What `growstackblock` asks for.
abbrev pub grown_size : Stack → ℕ
grown_size s = shell_align (s.stacknleft * 2 + 100)

Below-raise : (id id' : ℕ) (below : List Block) → id < id' → Below id below → Below id' below
Below-raise id id' [] h c = tt
Below-raise id id' (b ∷ below) h c = (omega (arith, c.0), c.1)

module _ (memory : ℕ → ℕ → Bytes) (sized : (id n : ℕ) → length (memory id n) ≡ n) where
  pub stalloc-IsValid : {s : Stack} (n : ℕ) → IsValid s → IsValid (stalloc memory n s).1
  unfolding stalloc
  stalloc-IsValid {s} n v = elim (Bool-cases (ltb s.stacknleft (shell_align n))) [
    | inl over ↦
        let size : ℕ = if ltb (shell_align n) min_size then min_size else shell_align n in
        rw (stalloc, over)
          (record {
            fills = ground (arith, sized s.next_id size);
            next_aligned = omega arith;
            size_aligned = ground (arith, sized s.next_id size);
            fresh = omega arith;
            chain = (v.fresh, v.chain);
            marks_valid =
                MarksValid-push s.top s.below v.chain
                  (record { id = s.next_id; space = memory s.next_id size }) s.marks v.fresh
                  v.marks_valid;
          })
    | inr room ↦
        rw (stalloc, room)
          (record {
            fills = ground (arith, v.fills);
            next_aligned = omega (arith, v.next_aligned);
            size_aligned = v.size_aligned;
            fresh = v.fresh;
            chain = v.chain;
            marks_valid = v.marks_valid;
          })
  ]

  regrow-IsValid :
      {s : Stack} (newlen : ℕ)
      → IsValid s
      → s.stacknxt ≡ 0
      → s.stacknleft ≤ newlen
      → newlen % 8 ≡ 0
      → IsValid (regrow memory newlen s)
  unfolding regrow
  regrow-IsValid {s} newlen v h l a =
      let space : Bytes = s.top.space ++ memory s.next_id (newlen - length s.top.space) in
      let size : length space ≡ newlen = omega (
        arith,
        v.fills,
        length-append s.top.space (memory s.next_id (newlen - length s.top.space)),
        sized s.next_id (newlen - length s.top.space),
      ) in
      record {
        fills = omega arith;
        next_aligned = refl;
        size_aligned = omega arith;
        fresh = omega arith;
        chain = Below-raise s.top.id s.next_id s.below v.fresh v.chain;
        marks_valid =
            subst
              (λ k.
                MarksValid (record { id = s.next_id; space = space }) s.below
                  (relocate s.top.id s.next_id k s.marks))
              size
              (MarksValid-relocate s.top s.below v.chain (record { id = s.next_id; space = space })
                s.marks v.fresh (omega arith) v.marks_valid);
      }

  pub stalloc-place :
      (n : ℕ) (s : Stack) → (stalloc memory n s).0 + shell_align n ≡ (stalloc memory n s).1.stacknxt
  unfolding stalloc
  stalloc-place n s = ground arith

  module _ (s : Stack) (newlen : ℕ) (v : IsValid s) (more : s.stacknleft ≤ newlen)
      (aligned : newlen % 8 ≡ 0) where
    -- The stack behind the allocation of the new space.
    abbrev pub allocated : Stack
    allocated = (stalloc memory newlen s).1

    abbrev pub place : ℕ
    place = (stalloc memory newlen s).0

    allocated-IsValid : IsValid allocated
    allocated-IsValid = stalloc-IsValid newlen v

    pub place-end : place + newlen ≡ allocated.stacknxt
    place-end = omega (arith, stalloc-place newlen s)

    pub string-fits :
        place + length (slice s.stacknxt s.stacknleft s.top.space) ≤ length allocated.top.space
    string-fits = omega (
      arith,
      place-end,
      allocated-IsValid.fills,
      length-take-le s.stacknleft (drop s.stacknxt s.top.space),
    )

    move_up-IsValid : IsValid (move_up memory newlen s)
    unfolding move_up
    move_up-IsValid =
        let a : IsValid allocated = allocated-IsValid in
        let string : Bytes = slice s.stacknxt s.stacknleft s.top.space in
        let size : length (overwrite place string allocated.top.space)
            ≡ length allocated.top.space =
          length-overwrite place string allocated.top.space string-fits in
        record {
          fills = omega (arith, place-end, a.fills, size);
          next_aligned = omega (arith, place-end, a.next_aligned, aligned);
          size_aligned = omega (arith, size, a.size_aligned);
          fresh = a.fresh;
          chain = a.chain;
          marks_valid =
              MarksValid-space allocated.top allocated.below a.chain
                (overwrite place string allocated.top.space) allocated.marks size a.marks_valid;
        }

  -- The two ways to grow.
  pub growstackblock-cases :
      (s : Stack)
      → (growstackblock memory s ≡ move_up memory (grown_size s) s)
        ⊎ ((growstackblock memory s ≡ regrow memory (grown_size s) s) × (s.stacknxt ≡ 0))
  unfolding growstackblock
  growstackblock-cases s = elim (Bool-cases (s.stacknxt == 0 && not (is_base s.below))) [
    | inl start ↦ inr (rw (growstackblock, start) refl, ground arith)
    | inr inside ↦ inl (rw (growstackblock, inside) refl)
  ]

  pub growstackblock-IsValid : {s : Stack} → IsValid s → IsValid (growstackblock memory s)
  growstackblock-IsValid {s} v = elim (growstackblock-cases s) [
    | inl e ↦ rw e (move_up-IsValid s (grown_size s) v (omega arith) (omega arith))
    | inr (e, start) ↦ rw e (regrow-IsValid (grown_size s) v start (omega arith) (omega arith))
  ]

  pub growstackstr-IsValid : {s : Stack} → IsValid s → IsValid (growstackstr memory s).1
  unfolding growstackstr
  growstackstr-IsValid {s} v =
      let g : IsValid (growstackblock memory s) = growstackblock-IsValid v in
      record {
        fills = g.fills;
        next_aligned = g.next_aligned;
        size_aligned = g.size_aligned;
        fresh = g.fresh;
        chain = g.chain;
        marks_valid = g.marks_valid;
      }

  pub makestrspace-IsValid : {s : Stack} → IsValid s → IsValid (makestrspace memory s).1
  unfolding makestrspace
  makestrspace-IsValid {s} v =
      let g : IsValid (growstackblock memory s) = growstackblock-IsValid v in
      record {
        fills = g.fills;
        next_aligned = g.next_aligned;
        size_aligned = g.size_aligned;
        fresh = g.fresh;
        chain = g.chain;
        marks_valid = g.marks_valid;
      }
