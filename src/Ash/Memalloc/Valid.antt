-- ===== src/Ash/Memalloc/Valid.antt =====
-- ash/memalloc.c: what holds of the stack at all times.
use minilib_ports.Common.{
  ℕ, ◌+◌, ◌%◌, ◌≤◌, ◌<◌, ◌≡◌, refl, sym, subst, some, List, ◌∷◌, ◌++◌, arith, Bytes, length, take,
  drop, length-append, length-drop, length-take,
}
use minilib_ports.Ash.Memalloc.{
  Block, Mark, Stack, overwrite, stunalloc, setstackmark, unwind, mark_at, rststackmark,
  popstackmark, grabstackblock, ungrabstackstr,
}
use minilib_ports.Ash.Memalloc.Marks.{
  Below, MarkFits, MarksValid, unwind_top, unwind-here, unwind-id, MarksValid-mark_at,
  MarksValid-space,
}
use minilib_ports.Ash.Outcome.{ok}

pub record IsValid (s : Stack) : Type 0 where
  pub fills : s.stacknxt + s.stacknleft ≡ length s.top.space
  pub next_aligned : s.stacknxt % 8 ≡ 0
  pub size_aligned : length s.top.space % 8 ≡ 0
  pub fresh : s.top.id < s.next_id
  pub chain : Below s.top.id s.below
  pub marks_valid : MarksValid s.top s.below s.marks

pub length-overwrite :
    (at : ℕ) (bytes space : Bytes)
    → at + length bytes ≤ length space
    → length (overwrite at bytes space) ≡ length space
unfolding overwrite
length-overwrite at bytes space h = omega (
  arith,
  length-append (take at space) (bytes ++ drop (at + length bytes) space),
  length-append bytes (drop (at + length bytes) space),
  length-drop (at + length bytes) space,
  length-take at space,
)

pub setstackmark-IsValid : {s : Stack} → IsValid s → IsValid (setstackmark s)
unfolding setstackmark
setstackmark-IsValid {s} v = record {
  fills = v.fills;
  next_aligned = v.next_aligned;
  size_aligned = v.size_aligned;
  fresh = v.fresh;
  chain = v.chain;
  marks_valid = (
    (s.top, s.below),
    unwind_top s.top s.below,
    record { fills = v.fills; next_aligned = v.next_aligned; size_aligned = v.size_aligned },
    v.marks_valid,
  );
}

pub stunalloc-IsValid :
    {s : Stack} (p : ℕ) → IsValid s → p ≤ s.stacknxt → p % 8 ≡ 0 → IsValid (stunalloc p s)
unfolding stunalloc
stunalloc-IsValid {s} p v h a = record {
  fills = omega (arith, v.fills);
  next_aligned = a;
  size_aligned = v.size_aligned;
  fresh = v.fresh;
  chain = v.chain;
  marks_valid = v.marks_valid;
}

-- The state that `rststackmark` leaves, with the blocks that it finds.
abbrev pub reset_to : Mark → Block × List Block → List Mark → Stack → Stack
reset_to m r marks s = record s {
  top = r.0;
  below = r.1;
  stacknxt = m.stacknxt;
  stacknleft = m.stacknleft;
  sstrnleft = m.sstrnleft;
  marks = marks;
}

reset_to-IsValid :
    {s : Stack} (m : Mark) (r : Block × List Block) (marks : List Mark)
    → IsValid s
    → unwind m.stackp s.top s.below ≡ some r
    → MarkFits m r.0
    → MarksValid r.0 r.1 marks
    → IsValid (reset_to m r marks s)
reset_to-IsValid {s} m r marks v found fits rest =
    let (same, le, chain') = unwind-id m.stackp s.top s.below r v.chain found in
    record {
      fills = fits.fills;
      next_aligned = fits.next_aligned;
      size_aligned = fits.size_aligned;
      fresh = omega (arith, v.fresh);
      chain = chain';
      marks_valid = rest;
    }

-- Popping any mark of a valid stack finds its block.
pub popstackmark-IsValid :
    {s : Stack} (n : ℕ) (m : Mark × List Mark)
    → IsValid s
    → mark_at n s.marks ≡ some m
    → (r : Block × List Block) × (unwind m.0.stackp s.top s.below ≡ some r)
      × (popstackmark n s ≡ ok (reset_to m.0 r m.1 s))
      × IsValid (reset_to m.0 r m.1 s)
unfolding popstackmark
popstackmark-IsValid {s} n m v e =
    let (r, found, fits, rest) =
      MarksValid-mark_at n s.top s.below s.marks m v.chain v.marks_valid e in
    (
      r,
      found,
      rw (popstackmark, e, rststackmark, found) refl,
      reset_to-IsValid m.0 r m.1 v found fits rest,
    )

-- So does resetting the stack to the mark that was set last, which stays on the list.
pub rststackmark-IsValid :
    {s : Stack} (m : Mark) (marks : List Mark)
    → IsValid s
    → s.marks ≡ m ∷ marks
    → (r : Block × List Block) × (unwind m.stackp s.top s.below ≡ some r)
      × (rststackmark m s ≡ ok (reset_to m r s.marks s))
      × IsValid (reset_to m r s.marks s)
unfolding rststackmark
rststackmark-IsValid {s} m marks v e =
    let (r, found, fits, rest) = subst (MarksValid s.top s.below) e v.marks_valid in
    let (same, le, chain') = unwind-id m.stackp s.top s.below r v.chain found in
    let again : MarksValid r.0 r.1 (m ∷ marks) =
      (r, unwind-here m.stackp r.0 r.1 (ground arith), fits, rest) in
    (
      r,
      found,
      rw (rststackmark, found) refl,
      reset_to-IsValid m r s.marks v found fits (subst (MarksValid r.0 r.1) (sym e) again),
    )

-- A byte stored in the block at the top.
pub store-IsValid :
    {s : Stack} (at : ℕ) (bytes : Bytes)
    → IsValid s
    → at + length bytes ≤ length s.top.space
    → IsValid (record s { top = record s.top { space = overwrite at bytes s.top.space } })
store-IsValid {s} at bytes v h =
    let size : length (overwrite at bytes s.top.space) ≡ length s.top.space =
      length-overwrite at bytes s.top.space h in
    record {
      fills = omega (arith, v.fills, size);
      next_aligned = v.next_aligned;
      size_aligned = omega (arith, v.size_aligned, size);
      fresh = v.fresh;
      chain = v.chain;
      marks_valid =
          MarksValid-space s.top s.below v.chain (overwrite at bytes s.top.space) s.marks size
            v.marks_valid;
    }

pub grabstackblock-IsValid :
    {s : Stack} (len : ℕ) → IsValid s → len ≤ s.stacknleft → IsValid (grabstackblock len s)
unfolding grabstackblock
grabstackblock-IsValid {s} len v h = record {
  fills = omega (arith, v.fills, v.next_aligned, v.size_aligned);
  next_aligned = omega (arith, v.next_aligned);
  size_aligned = v.size_aligned;
  fresh = v.fresh;
  chain = v.chain;
  marks_valid = v.marks_valid;
}

pub ungrabstackstr-IsValid :
    {s : Stack} (from p : ℕ)
    → IsValid s
    → from ≤ s.stacknxt
    → from % 8 ≡ 0
    → IsValid (ungrabstackstr from p s)
unfolding ungrabstackstr
ungrabstackstr-IsValid {s} from p v h a = record {
  fills = omega (arith, v.fills);
  next_aligned = a;
  size_aligned = v.size_aligned;
  fresh = v.fresh;
  chain = v.chain;
  marks_valid = v.marks_valid;
}
