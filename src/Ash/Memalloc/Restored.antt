-- ===== src/Ash/Memalloc/Restored.antt =====
-- ash/memalloc.c: popping a mark gives the stack back as it was when the mark was set.
use minilib_ports.Common.{
  ℕ, suc, List, [], ◌+◌, ◌≤◌, ◌<◌, ◌≡◌, refl, sym, ap, ◌∙◌, subst, true, false, ◌∷◌, arith, ltb,
  ◌==◌, Bytes, length, take, some, Bool-cases, inl, inr,
}
use minilib_ports.Ash.Memalloc.{
  Stack, shell_align, overwrite, stunalloc, setstackmark, unwind, rststackmark, popstackmark,
  stalloc, relocate, Block, Mark, regrow, move_up, growstackblock, grabstackblock,
}
use minilib_ports.Ash.Memalloc.Marks.{
  unwind_top, unwind_below, unwind-here, unwind-passes, unwind-id, unwind-unwind, MarksValid,
}
use minilib_ports.Ash.Memalloc.Steps.{
  Behind, Work, alloc, unalloc, store, grow, grab, count, Works, start, more, set_inner, pop_inner,
  reset_last, popped-mark, Work-IsValid,
}
use minilib_ports.Ash.Memalloc.Growth.{grown_size, growstackblock-cases}
use minilib_ports.Ash.Memalloc.Valid.{
  IsValid, setstackmark-IsValid, popstackmark-IsValid, rststackmark-IsValid, reset_to,
}
use minilib_ports.Ash.Outcome.{ok}
use minilib_ports.Ash.Memalloc.Kept.{
  Kept, Holds, take-overwrite, setstackmark-Kept, Holds-first, Holds-mark, Holds-mark_at,
  Holds-relocate_all, Holds-relocate,
}

module _ (memory : ℕ → ℕ → Bytes) (sized : (id n : ℕ) → length (memory id n) ≡ n) (s0 : Stack) where
  -- A place behind the first mark of the list is behind the memory that is kept.
  Behind-place :
      {d : ℕ} {s : Stack} (k : Kept s0 d s) (p : ℕ)
      → Behind s s.marks p
      → s.top.id ≡ k.block.id
      → s0.stacknxt ≤ p
  Behind-place {d} {s} k p h e = by_marks s.marks k.valid.marks_valid k.holds h
    where
      by_marks :
          (marks : List Mark)
          → MarksValid s.top s.below marks
          → Holds d k.block.id s0.stacknxt marks
          → Behind s marks p
          → s0.stacknxt ≤ p
      by_marks [] v holds behind = absurd holds
      by_marks (m ∷ marks) (r, found, fits, rest) holds behind =
          let (low, place) = Holds-first d k.block.id s0.stacknxt m marks holds in
          let (same, high, chain) = unwind-id m.stackp s.top s.below r k.valid.chain found in
          omega (arith, behind (omega arith), place (omega arith))

  -- No block in use has the next number.
  fresh-id : {d : ℕ} {s : Stack} (k : Kept s0 d s) → k.block.id < s.next_id
  fresh-id {d} {s} k =
      let (same, le, chain) =
        unwind-id k.block.id s.top s.below (k.block, s0.below) k.valid.chain k.found in
      omega (arith, k.valid.fresh)

  -- The same blocks and marks, and a place behind the mark.
  same-Kept :
      {d : ℕ} {s : Stack} (t : Stack) (k : Kept s0 d s)
      → t.top ≡ s.top
      → t.below ≡ s.below
      → t.marks ≡ s.marks
      → (s.top.id ≡ k.block.id → s0.stacknxt ≤ t.stacknxt)
      → IsValid t
      → Kept s0 d t
  same-Kept t k e f g h v = record {
    block = k.block;
    found = rw (e, f) k.found;
    bytes = k.bytes;
    in_front = λ i. h (ap (λ b. b.id) (sym e) ∙ i);
    holds = rw g k.holds;
    valid = v;
  }

  -- A new block on top.
  new-Kept :
      {d : ℕ} {s : Stack} (t : Stack) (k : Kept s0 d s)
      → t.top.id ≡ s.next_id
      → t.below ≡ s.top ∷ s.below
      → t.marks ≡ s.marks
      → IsValid t
      → Kept s0 d t
  new-Kept {d} {s} t k e f g v = record {
    block = k.block;
    found =
        rw f (unwind_below k.block.id t.top s.top s.below (ground (arith, fresh-id k)) ∙ k.found);
    bytes = k.bytes;
    in_front = λ i. absurd (omega (arith, fresh-id k));
    holds = rw g k.holds;
    valid = v;
  }

  stalloc-new :
      (n : ℕ) (s : Stack)
      → ltb s.stacknleft (shell_align n) ≡ true
      → ((stalloc memory n s).1.top.id ≡ s.next_id)
        × ((stalloc memory n s).1.below ≡ s.top ∷ s.below)
        × ((stalloc memory n s).1.marks ≡ s.marks)
  unfolding stalloc
  stalloc-new n s h = (rw (stalloc, h) refl, rw (stalloc, h) refl, rw (stalloc, h) refl)

  stalloc-same :
      (n : ℕ) (s : Stack)
      → ltb s.stacknleft (shell_align n) ≡ false
      → ((stalloc memory n s).1.top ≡ s.top)
        × ((stalloc memory n s).1.below ≡ s.below)
        × ((stalloc memory n s).1.marks ≡ s.marks)
        × (s.stacknxt ≤ (stalloc memory n s).1.stacknxt)
  unfolding stalloc
  stalloc-same n s h = (
    rw (stalloc, h) refl,
    rw (stalloc, h) refl,
    rw (stalloc, h) refl,
    rw (stalloc, h) (omega arith),
  )

  alloc-Kept : {d : ℕ} {s : Stack} (n : ℕ) → Kept s0 d s → Kept s0 d (stalloc memory n s).1
  alloc-Kept {d} {s} n k =
      let v : IsValid (stalloc memory n s).1 = Work-IsValid memory sized (alloc n) k.valid in
      elim (Bool-cases (ltb s.stacknleft (shell_align n))) [
        | inl over ↦
            let (e, f, g) = stalloc-new n s over in new-Kept (stalloc memory n s).1 k e f g v
        | inr room ↦
            let (e, f, g, h) = stalloc-same n s room in
            same-Kept (stalloc memory n s).1 k e f g (λ i. omega (arith, k.in_front i)) v
      ]

  -- The block of the mark at the top.
  at_top :
      {d : ℕ} {s : Stack} (k : Kept s0 d s)
      → (s.top.id == k.block.id) ≡ true
      → (k.block ≡ s.top) × (s0.below ≡ s.below)
  at_top {d} {s} k h =
      let here : unwind k.block.id s.top s.below ≡ some (s.top, s.below) =
        unwind-here k.block.id s.top s.below h in
      (cc k.found, cc k.found)

  store-Kept :
      {d : ℕ} {s : Stack} (at : ℕ) (bytes : Bytes)
      → Kept s0 d s
      → at + length bytes ≤ length s.top.space
      → Behind s s.marks at
      → Kept s0 d (record s { top = record s.top { space = overwrite at bytes s.top.space } })
  store-Kept {d} {s} at bytes k fits behind =
      let t : Stack = record s { top = record s.top { space = overwrite at bytes s.top.space } } in
      let v : IsValid t = Work-IsValid memory sized (store at bytes fits behind) k.valid in
      elim (Bool-cases (s.top.id == k.block.id)) [
        | inl top ↦
            let (block, below) = at_top k top in
            record {
              block = t.top;
              found = unwind_top t.top s.below ∙ (rw below refl);
              bytes =
                  take-overwrite s0.stacknxt at bytes s.top.space
                    (Behind-place k at behind (ground arith)) (omega arith)
                  ∙ ap (λ b. take s0.stacknxt b.space) (sym block)
                  ∙ k.bytes;
              in_front = λ i. k.in_front (ground arith);
              holds = subst (λ i. Holds d i s0.stacknxt s.marks) (ap (λ b. b.id) block) k.holds;
              valid = v;
            }
        | inr other ↦ record {
          block = k.block;
          found = unwind-passes k.block.id s.top t.top s.below other other ∙ k.found;
          bytes = k.bytes;
          in_front = k.in_front;
          holds = k.holds;
          valid = v;
        }
      ]

  move_up-Kept :
      {d : ℕ} {s : Stack} (k : Kept s0 d s)
      → IsValid (move_up memory (grown_size s) s)
      → Kept s0 d (move_up memory (grown_size s) s)
  unfolding move_up
  move_up-Kept {d} {s} k v =
      let (e, f, g) = stalloc-new (grown_size s) s (ground arith) in
      new-Kept (move_up memory (grown_size s) s) k e f g v

  regrow-Kept :
      {d : ℕ} {s : Stack} (k : Kept s0 d s)
      → s.stacknxt ≡ 0
      → IsValid (regrow memory (grown_size s) s)
      → Kept s0 d (regrow memory (grown_size s) s)
  unfolding regrow
  regrow-Kept {d} {s} k begins v =
      let t : Stack = regrow memory (grown_size s) s in
      elim (Bool-cases (s.top.id == k.block.id)) [
        | inl top ↦
            let (block, below) = at_top k top in
            let front : s0.stacknxt ≡ 0 = omega (arith, k.in_front (ground arith)) in
            let at_start : Holds d k.block.id 0 s.marks =
              subst (λ n. Holds d k.block.id n s.marks) front k.holds in
            let held : Holds d s.next_id 0 (relocate k.block.id s.next_id (grown_size s) s.marks) =
              Holds-relocate_all d k.block.id s.next_id (grown_size s) s.top s.below s.marks
                k.valid.chain k.valid.marks_valid (ground arith) at_start in
            let old : k.block.id ≡ s.top.id = ap (λ b. b.id) block in
            record {
              block = t.top;
              found = unwind_top t.top s.below ∙ (rw below refl);
              bytes = rw front refl;
              in_front = λ i. omega arith;
              holds = rw front (
                  subst (λ i. Holds d s.next_id 0 (relocate i s.next_id (grown_size s) s.marks)) old
                    held);
              valid = v;
            }
        | inr other ↦ record {
          block = k.block;
          found =
              unwind-passes k.block.id s.top t.top s.below other (ground (arith, fresh-id k))
              ∙ k.found;
          bytes = k.bytes;
          in_front = λ i. absurd (omega (arith, fresh-id k));
          holds =
              Holds-relocate d k.block.id s0.stacknxt s.top.id s.next_id (grown_size s) s.marks
                (ground arith) (fresh-id k) k.holds;
          valid = v;
        }
      ]

  grow-Kept : {d : ℕ} {s : Stack} → Kept s0 d s → Kept s0 d (growstackblock memory s)
  grow-Kept {d} {s} k =
      let v : IsValid (growstackblock memory s) = Work-IsValid memory sized grow k.valid in
      elim (growstackblock-cases memory sized s) [
        | inl e ↦ subst (Kept s0 d) (sym e) (move_up-Kept k (subst IsValid e v))
        | inr (e, begins) ↦ subst (Kept s0 d) (sym e) (regrow-Kept k begins (subst IsValid e v))
      ]

  Work-Kept : {d : ℕ} {s t : Stack} → Work memory s t → Kept s0 d s → Kept s0 d t
  unfolding stunalloc grabstackblock
  Work-Kept (alloc n) k = alloc-Kept n k
  Work-Kept (unalloc p h a b) k =
      same-Kept _ k refl refl refl (Behind-place k p b)
        (Work-IsValid memory sized (unalloc p h a b) k.valid)
  Work-Kept (store at bytes h b) k = store-Kept at bytes k h b
  Work-Kept grow k = grow-Kept k
  Work-Kept (grab len h) k =
      same-Kept _ k refl refl refl (λ i. omega (arith, k.in_front i))
        (Work-IsValid memory sized (grab len h) k.valid)
  Work-Kept (count n) k =
      same-Kept _ k refl refl refl k.in_front (Work-IsValid memory sized (count n) k.valid)

  -- The stack reset to a mark that is not in front of that one.
  reset_to-Kept :
      {d d' : ℕ} {s : Stack} (k : Kept s0 d s) (m : Mark) (r : Block × List Block)
      (marks : List Mark)
      → unwind m.stackp s.top s.below ≡ some r
      → k.block.id ≤ m.stackp
      → (m.stackp ≡ k.block.id → s0.stacknxt ≤ m.stacknxt)
      → Holds d' k.block.id s0.stacknxt marks
      → IsValid (reset_to m r marks s)
      → Kept s0 d' (reset_to m r marks s)
  reset_to-Kept {s = s} k m r marks found low place holds v =
      let (same, high, chain) = unwind-id m.stackp s.top s.below r k.valid.chain found in
      record {
        block = k.block;
        found = unwind-unwind k.block.id m.stackp s.top s.below r k.valid.chain found low ∙ k.found;
        bytes = k.bytes;
        in_front = λ i. place (omega arith);
        holds = holds;
        valid = v;
      }

  set_inner-Kept : {d : ℕ} {s : Stack} → Kept s0 d s → Kept s0 (suc d) (setstackmark s)
  unfolding setstackmark
  set_inner-Kept {d} {s} k =
      let (same, high, chain) =
        unwind-id k.block.id s.top s.below (k.block, s0.below) k.valid.chain k.found in
      record {
        block = k.block;
        found = k.found;
        bytes = k.bytes;
        in_front = k.in_front;
        holds = (high, k.in_front, k.holds);
        valid = setstackmark-IsValid k.valid;
      }

  pop_inner-Kept :
      {d : ℕ} {s : Stack} (n : ℕ) (t : Stack)
      → Kept s0 (suc n + d) s
      → popstackmark n s ≡ ok t
      → Kept s0 d t
  pop_inner-Kept {d} {s} n t k h =
      let (m, e) = popped-mark n s t h in
      let (r, found, ends, v) = popstackmark-IsValid n m k.valid e in
      let (low, place, holds) = Holds-mark_at n d k.block.id s0.stacknxt s.marks m k.holds e in
      subst (Kept s0 d) (cc) (reset_to-Kept k m.0 r m.1 found low place holds v)

  reset_last-Kept :
      {d : ℕ} {s : Stack} (m : Mark) (marks : List Mark) (t : Stack)
      → Kept s0 d s
      → s.marks ≡ m ∷ marks
      → rststackmark m s ≡ ok t
      → Kept s0 d t
  reset_last-Kept {d} {s} m marks t k e h =
      let (r, found, ends, v) = rststackmark-IsValid m marks k.valid e in
      let (low, place) =
        Holds-first d k.block.id s0.stacknxt m marks
          (subst (Holds d k.block.id s0.stacknxt) e k.holds) in
      subst (Kept s0 d) (cc) (reset_to-Kept k m r s.marks found low place k.holds v)

  Works-Kept : {s : Stack} {d : ℕ} {t : Stack} → Works memory s d t → Kept s0 0 s → Kept s0 d t
  Works-Kept start k = k
  Works-Kept (more ws w) k = Work-Kept w (Works-Kept ws k)
  Works-Kept (set_inner ws) k = set_inner-Kept (Works-Kept ws k)
  Works-Kept (pop_inner {e = e} {t = s} n u ws c h) k =
      pop_inner-Kept n u (subst (λ i. Kept s0 i s) c (Works-Kept ws k)) h
  Works-Kept (reset_last m marks u ws e h) k = reset_last-Kept m marks u (Works-Kept ws k) e h

  -- A mark is set in a valid stack. Behind it there is any work, in which the block of the mark may
  -- move; marks are set and popped, and some, `d` of them, may be left on the list, as they are by a
  -- `longjmp`; and the stack is reset, to such a mark or to this one. Nothing in front of the mark is
  -- written to or given back, and it is not popped. Then it is popped: that succeeds, and the blocks
  -- below, the place and the bytes in front of it are those from before the mark was set; the stack
  -- is valid.
  pub popstackmark-Works :
      {d : ℕ} {s : Stack}
      → IsValid s0
      → Works memory (setstackmark s0) d s
      → (t : Stack) × (popstackmark d s ≡ ok t)
        × (t.below ≡ s0.below)
        × (t.stacknxt ≡ s0.stacknxt)
        × (take s0.stacknxt t.top.space ≡ take s0.stacknxt s0.top.space)
        × IsValid t
  popstackmark-Works {d} {s} v ws =
      let k : Kept s0 d s = Works-Kept ws (setstackmark-Kept s0 v) in
      let (m, e, points, place) = Holds-mark d k.block.id s0.stacknxt s.marks k.holds in
      let (r, found, ends, w) = popstackmark-IsValid d m k.valid e in
      let there : unwind m.0.stackp s.top s.below ≡ some (k.block, s0.below) = rw points k.found in
      let same : r ≡ (k.block, s0.below) = cc in
      (
        reset_to m.0 r m.1 s,
        ends,
        ap (λ q. q.1) same,
        place,
        ap (λ q. take s0.stacknxt q.0.space) same ∙ k.bytes,
        w,
      )
