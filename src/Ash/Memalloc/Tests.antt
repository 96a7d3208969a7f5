-- ===== src/Ash/Memalloc/Tests.antt =====
-- The stack of blocks at a few sizes.
use minilib_ports.Common.{
  ℕ, ◌+◌, ◌≤◌, ◌≡◌, refl, [], ◌∷◌, Bytes, length, take, codes, arith, replicate, length-replicate,
}
use minilib_ports.Ash.Memalloc.{
  Stack, slice, setstackmark, popstackmark, stunalloc, stalloc, growstackblock,
}
use minilib_ports.Ash.Memalloc.Restored.{popstackmark-Works}
use minilib_ports.Ash.Memalloc.Steps.{
  alloc, grow, work, set_mark, pop_mark, set_inner, here, next, start, more, Reach-IsValid,
}
use minilib_ports.Ash.Memalloc.Text.{grabbed, grabbed_lem}
use minilib_ports.Ash.Memalloc.Valid.{IsValid}
use minilib_ports.Ash.Outcome.{ok, err, fault}

abbrev zeros : ℕ → ℕ → Bytes
zeros id n = replicate n 0

zeros-sized : (id n : ℕ) → length (zeros id n) ≡ n
zeros-sized id n = length-replicate n 0

-- `stackbase`, with 16 bytes taken.
abbrev first : Stack
first = record {
  top = record { id = 0; space = replicate 504 0 };
  below = [];
  stacknxt = 16;
  stacknleft = 488;
  sstrnleft = 0;
  marks = [];
  next_id = 1;
}

first-IsValid : IsValid first
unfolding replicate
first-IsValid = record {
  fills = refl;
  next_aligned = refl;
  size_aligned = refl;
  fresh = omega arith;
  chain = tt;
  marks_valid = tt;
}

large_block :
    ((stalloc zeros 600 first).0 ≡ 0)
    × ((stalloc zeros 600 first).1.top.id ≡ 1)
    × ((stalloc zeros 600 first).1.stacknleft ≡ 0)
    × ((stalloc zeros 3 first).0 ≡ 16)
    × ((stalloc zeros 3 first).1.stacknxt ≡ 24)
unfolding stalloc
large_block = (refl, refl, refl, refl, refl)

abbrev given_back : Stack
given_back = stunalloc 0 (stalloc zeros 600 first).1

-- A block that was given back whole moves when it grows, with the mark at its start.
grown_mark :
    ((growstackblock zeros (setstackmark given_back)).top.id ≡ 2)
    × ((growstackblock zeros (setstackmark given_back)).stacknleft ≡ 1304)
    × ((growstackblock zeros (setstackmark given_back)).marks
        ≡ record { stackp = 2; stacknxt = 0; stacknleft = 1304; sstrnleft = 704 } ∷ [])
unfolding growstackblock setstackmark stalloc stunalloc
grown_mark = (refl, refl, refl)

-- A mark is set behind the first one, and a `longjmp` leaves both on the list.
abbrev jumped : Stack
jumped = growstackblock zeros (stalloc zeros 600 (setstackmark (setstackmark first))).1

outer_mark :
    (popstackmark 1 jumped ≡ ok (record first { next_id = 3 }))
    × (popstackmark 0 jumped
        ≡ ok (record first {
          marks = record { stackp = 0; stacknxt = 16; stacknleft = 488; sstrnleft = 0 } ∷ [];
          next_id = 3;
        }))
    × (popstackmark 2 jumped ≡ err fault)
unfolding popstackmark growstackblock stalloc setstackmark
outer_mark = (refl, refl, refl)

popstackmark-Works_example :
    (t : Stack) × (popstackmark 1 jumped ≡ ok t)
    × (t.below ≡ [])
    × (t.stacknxt ≡ 16)
    × (take 16 t.top.space ≡ take 16 (replicate 504 0))
    × IsValid t
popstackmark-Works_example =
    popstackmark-Works zeros zeros-sized first first-IsValid
      (more (more (set_inner start) (alloc 600)) grow)

Reach-IsValid_example : IsValid (record first { next_id = 3 })
Reach-IsValid_example =
    Reach-IsValid zeros zeros-sized
      (next (next (next (next (next here set_mark) set_mark) (work (alloc 600))) (work grow))
        (pop_mark 1 (record first { next_id = 3 }) outer_mark.0))
      first-IsValid

grabbed_lem_example :
    (slice
        (grabbed zeros zeros-sized (codes "abc") first).0
        3
        (grabbed zeros zeros-sized (codes "abc") first).1.top.space
      ≡ codes "abc")
    × ((grabbed zeros zeros-sized (codes "abc") first).0 + 3
        ≤ (grabbed zeros zeros-sized (codes "abc") first).1.stacknxt)
    × IsValid (grabbed zeros zeros-sized (codes "abc") first).1
grabbed_lem_example = grabbed_lem zeros zeros-sized (codes "abc") first first-IsValid
