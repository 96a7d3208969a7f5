-- ===== src/Ash/Memalloc.antt =====
-- ash/memalloc.c: the stack of blocks for parse trees and strings, and the macros of ash/memalloc.h
-- that build a string at its top. Sizes do not reach the limit of an `int`.
use minilib_ports.Common.{
  ℕ, zero, suc, ◌+◌, ◌-◌, ◌*◌, ◌/◌, Bool, true, false, not, ◌&&◌, List, [], ◌∷◌, ◌++◌, ltb, leb,
  ◌==◌, if◌then◌else◌, Bytes, length, take, drop, Option, none, some,
}
use minilib_ports.Ash.Outcome.{Outcome, ok, err, fault, ◌>>=◌}
pub mod Marks
pub mod Valid
pub mod Growth
pub mod Kept
pub mod Text
pub mod Steps
pub mod Restored
mod Tests

-- `SHELL_ALIGN`, to the 8 bytes of a pointer or a double.
abbrev pub shell_align : ℕ → ℕ
shell_align n = (n + 7) / 8 * 8

abbrev pub min_size : ℕ
min_size = 504

-- A block: the number of its allocation stands for its address.
pub record Block : Type 0 where
  pub id : ℕ
  pub space : Bytes

-- A `stackmark`. A pointer into a block is its distance from the start of the `space`; `stacknxt`
-- points into the block `stackp`.
pub record Mark : Type 0 where
  pub stackp : ℕ
  pub stacknxt : ℕ
  pub stacknleft : ℕ
  pub sstrnleft : ℕ

-- The globals. `top` is the block `stackp`, and `below` are those behind it by `prev`; the last of
-- all is `stackbase`. `marks` is the list from `markp` on. `next_id` counts the allocations.
pub record Stack : Type 0 where
  pub top : Block
  pub below : List Block
  pub stacknxt : ℕ
  pub stacknleft : ℕ
  pub sstrnleft : ℕ
  pub marks : List Mark
  pub next_id : ℕ

-- `stackp == &stackbase`
abbrev pub is_base : List Block → Bool
is_base [] = true
is_base (b ∷ below) = false

-- Bytes written over those at a place.
unfoldable pub overwrite : ℕ → Bytes → Bytes → Bytes
overwrite at bytes space = take at space ++ (bytes ++ drop (at + length bytes) space)

-- The bytes at a place.
abbrev pub slice : ℕ → ℕ → Bytes → Bytes
slice at n space = take n (drop at space)

unfoldable pub stunalloc : ℕ → Stack → Stack
stunalloc p s = record s { stacknleft = s.stacknleft + s.stacknxt - p; stacknxt = p }

unfoldable pub setstackmark : Stack → Stack
setstackmark s = record s {
  marks =
      record {
        stackp = s.top.id;
        stacknxt = s.stacknxt;
        stacknleft = s.stacknleft;
        sstrnleft = s.sstrnleft;
      }
      ∷ s.marks;
}

-- The loop of `rststackmark`: the blocks from the marked one on. Behind `stackbase` the null pointer
-- is read.
unfoldable pub unwind : ℕ → Block → List Block → Option (Block × List Block)
unwind id top [] = if top.id == id then some (top, []) else none
unwind id top (b ∷ below) =
    let rest = unwind id b below in if top.id == id then some (top, b ∷ below) else rest

unfoldable pub rststackmark : Mark → Stack → Outcome Stack
unfolding unwind
rststackmark mark s = elim (unwind mark.stackp s.top s.below) [
  | none ↦ err fault
  | some b ↦ ok (record s {
    top = b.0;
    below = b.1;
    stacknxt = mark.stacknxt;
    stacknleft = mark.stacknleft;
    sstrnleft = mark.sstrnleft;
  })
]

-- The mark at a place in the list, which stands for the argument of a call, and those from its
-- `marknext` on.
unfoldable pub mark_at : ℕ → List Mark → Option (Mark × List Mark)
mark_at n [] = none
mark_at zero (mark ∷ marks) = some (mark, marks)
mark_at (suc n) (mark ∷ marks) = mark_at n marks

-- Marks in front of the one that is popped, which a `longjmp` has left on the list, go with it.
unfoldable pub popstackmark : ℕ → Stack → Outcome Stack
unfolding rststackmark mark_at
popstackmark n s = elim (mark_at n s.marks) [
  | none ↦ err fault
  | some m ↦ rststackmark m.0 (record s { marks = m.1 })
]

-- The loop over the marks that point to the start of a block that has moved.
unfoldable pub relocate : ℕ → ℕ → ℕ → List Mark → List Mark
relocate old new len [] = []
relocate old new len (m ∷ marks) =
    let rest = relocate old new len marks in
    if m.stackp == old
    then record {
      stackp = new;
      stacknxt = 0;
      sstrnleft = m.sstrnleft + (len - m.stacknleft);
      stacknleft = len;
    }
      ∷ rest
    else m ∷ marks

-- The bytes that stand in memory that the library hands out, by the number of the allocation and
-- the size.
module _ (memory : ℕ → ℕ → Bytes) where
  -- A place in the block that is then at the top.
  unfoldable pub stalloc : ℕ → Stack → ℕ × Stack
  stalloc n s =
      let nbytes = shell_align n in
      if ltb s.stacknleft nbytes
      then (let blocksize = if ltb nbytes min_size then min_size else nbytes in
          (
            0,
            record s {
              top = record { id = s.next_id; space = memory s.next_id blocksize };
              below = s.top ∷ s.below;
              stacknxt = nbytes;
              stacknleft = blocksize - nbytes;
              next_id = suc s.next_id;
            },
          ))
      else (
        s.stacknxt,
        record s { stacknxt = s.stacknxt + nbytes; stacknleft = s.stacknleft - nbytes },
      )

  -- `realloc` of the block at the top, which is as one at a new address.
  unfoldable pub regrow : ℕ → Stack → Stack
  unfolding relocate
  regrow newlen s = record s {
    top = record {
      id = s.next_id;
      space = s.top.space ++ memory s.next_id (newlen - length s.top.space);
    };
    stacknxt = 0;
    sstrnleft = s.sstrnleft + (newlen - s.stacknleft);
    stacknleft = newlen;
    marks = relocate s.top.id s.next_id newlen s.marks;
    next_id = suc s.next_id;
  }

  -- `stalloc` and `memcpy`
  unfoldable pub move_up : ℕ → Stack → Stack
  unfolding stalloc overwrite
  move_up newlen s =
      let (p, t) = stalloc newlen s in
      record t {
        top = record t.top {
          space = overwrite p (slice s.stacknxt s.stacknleft s.top.space) t.top.space;
        };
        stacknxt = p;
        stacknleft = t.stacknleft + newlen;
      }

  unfoldable pub growstackblock : Stack → Stack
  unfolding regrow move_up
  growstackblock s =
      let newlen = shell_align (s.stacknleft * 2 + 100) in
      if s.stacknxt == 0 && not (is_base s.below) then regrow newlen s else move_up newlen s

  -- The place behind the string; no here document is being written (`herefd < 0`).
  unfoldable pub growstackstr : Stack → ℕ × Stack
  unfolding growstackblock
  growstackstr s =
      let len = s.stacknleft in
      let t = growstackblock s in
      (t.stacknxt + len, record t { sstrnleft = t.stacknleft - len - 1 })

  unfoldable pub makestrspace : Stack → ℕ × Stack
  unfolding growstackblock
  makestrspace s =
      let len = s.stacknleft - s.sstrnleft in
      let t = growstackblock s in (t.stacknxt + len, record t { sstrnleft = t.stacknleft - len })

  -- `STPUTC(c, p)`
  unfoldable pub stputc : ℕ → ℕ × Stack → ℕ × Stack
  unfolding growstackstr overwrite
  stputc c (p, s) =
      let (p', t) =
        if s.sstrnleft == 0
        then growstackstr s
        else (p, record s { sstrnleft = s.sstrnleft - 1 }) in
      (suc p', record t { top = record t.top { space = overwrite p' (c ∷ []) t.top.space } })

  -- `grabstackstr(p)`
  unfoldable pub grabstackstr : ℕ → Stack → ℕ × Stack
  unfolding stalloc
  grabstackstr p s = stalloc (p - s.stacknxt) s

unfoldable pub grabstackblock : ℕ → Stack → Stack
grabstackblock len s = record s {
  stacknxt = s.stacknxt + shell_align len;
  stacknleft = s.stacknleft - shell_align len;
}

unfoldable pub ungrabstackstr : ℕ → ℕ → Stack → Stack
ungrabstackstr from p s =
    let left = s.stacknleft + s.stacknxt - from in
    record s { stacknleft = left; stacknxt = from; sstrnleft = left - (p - from) }

-- `STARTSTACKSTR(p)`
unfoldable pub startstackstr : Stack → ℕ × Stack
startstackstr s = (s.stacknxt, record s { sstrnleft = s.stacknleft })
