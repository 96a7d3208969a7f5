-- ===== src/Ash/Memalloc/Steps.antt =====
-- ash/memalloc.c: the stack in use, and what a mark keeps.
use minilib_ports.Common.{
  ℕ, suc, Option-cases, some, inl, inr, ◌+◌, ◌%◌, ◌≤◌, ◌≡◌, refl, subst, List, [], ◌∷◌, Bytes,
  length,
}
use minilib_ports.Ash.Memalloc.{
  Mark, Stack, overwrite, stunalloc, setstackmark, mark_at, rststackmark, popstackmark, stalloc,
  growstackblock, grabstackblock,
}
use minilib_ports.Ash.Memalloc.Growth.{stalloc-IsValid, growstackblock-IsValid}
use minilib_ports.Ash.Memalloc.Valid.{
  IsValid, stunalloc-IsValid, setstackmark-IsValid, popstackmark-IsValid, rststackmark-IsValid,
  store-IsValid, grabstackblock-IsValid,
}
use minilib_ports.Ash.Outcome.{ok, err, fault}

-- A mark that is popped was on the list.
pub popped-mark :
    (n : ℕ) (s t : Stack)
    → popstackmark n s ≡ ok t
    → (m : Mark × List Mark) × (mark_at n s.marks ≡ some m)
unfolding popstackmark
popped-mark n s t h = elim (Option-cases (mark_at n s.marks)) [
  | inl none_there ↦
      let no_mark : popstackmark n s ≡ err fault = rw (popstackmark, none_there) refl in absurd (cc)
  | inr found ↦ found
]

-- A place in the block at the top is not in front of the last mark.
abbrev pub Behind : Stack → List Mark → ℕ → Type 0
Behind s [] p = Unit {0}
Behind s (m ∷ marks) p = s.top.id ≡ m.stackp → m.stacknxt ≤ p

module _ (memory : ℕ → ℕ → Bytes) where
  -- What a client does between two marks. Memory in front of the mark is not given back, nor
  -- written to. `growstackstr`, `makestrspace`, `STPUTC` and `ungrabstackstr` are sequences of these.
  pub data Work (s : Stack) : Stack → Type 0 where
    alloc : (n : ℕ) → Work s (stalloc memory n s).1
    unalloc : (p : ℕ) → p ≤ s.stacknxt → p % 8 ≡ 0 → Behind s s.marks p → Work s (stunalloc p s)
    store :
        (at : ℕ) (bytes : Bytes)
        → at + length bytes ≤ length s.top.space
        → Behind s s.marks at
        → Work s (record s { top = record s.top { space = overwrite at bytes s.top.space } })
    grow : Work s (growstackblock memory s)
    grab : (len : ℕ) → len ≤ s.stacknleft → Work s (grabstackblock len s)
    count : (n : ℕ) → Work s (record s { sstrnleft = n })

  -- `rststackmark` alone is called on the mark that was set last. The mark that is popped may be any
  -- on the list, as it is behind a `longjmp`.
  pub data Step (s : Stack) : Stack → Type 0 where
    work : {t : Stack} → Work s t → Step s t
    set_mark : Step s (setstackmark s)
    pop_mark : (n : ℕ) (t : Stack) → popstackmark n s ≡ ok t → Step s t
    reset_mark :
        (m : Mark) (marks : List Mark) (t : Stack)
        → s.marks ≡ m ∷ marks
        → rststackmark m s ≡ ok t
        → Step s t

  pub data Reach (s : Stack) : Stack → Type 0 where
    here : Reach s s
    next : {t u : Stack} → Reach s t → Step t u → Reach s u

  -- What is done with the first mark of `s` on the list: `d` marks have been set in front of it and not
  -- been popped. It is not popped itself, but may be what the stack is reset to.
  pub data Works (s : Stack) : ℕ → Stack → Type 0 where
    start : Works s 0 s
    more : {d : ℕ} {t u : Stack} → Works s d t → Work t u → Works s d u
    set_inner : {d : ℕ} {t : Stack} → Works s d t → Works s (suc d) (setstackmark t)
    pop_inner :
        {d e : ℕ} {t : Stack} (n : ℕ) (u : Stack)
        → Works s e t
        → e ≡ suc n + d
        → popstackmark n t ≡ ok u
        → Works s d u
    reset_last :
        {d : ℕ} {t : Stack} (m : Mark) (marks : List Mark) (u : Stack)
        → Works s d t
        → t.marks ≡ m ∷ marks
        → rststackmark m t ≡ ok u
        → Works s d u

  module _ (sized : (id n : ℕ) → length (memory id n) ≡ n) where
    pub Work-IsValid : {s t : Stack} → Work s t → IsValid s → IsValid t
    Work-IsValid (alloc n) v = stalloc-IsValid memory sized n v
    Work-IsValid (unalloc p h a b) v = stunalloc-IsValid p v h a
    Work-IsValid (store at bytes h b) v = store-IsValid at bytes v h
    Work-IsValid grow v = growstackblock-IsValid memory sized v
    Work-IsValid (grab len h) v = grabstackblock-IsValid len v h
    Work-IsValid (count n) v = record {
      fills = v.fills;
      next_aligned = v.next_aligned;
      size_aligned = v.size_aligned;
      fresh = v.fresh;
      chain = v.chain;
      marks_valid = v.marks_valid;
    }

    popped : (n : ℕ) (s t : Stack) → popstackmark n s ≡ ok t → IsValid s → IsValid t
    popped n s t h v =
        let (m, e) = popped-mark n s t h in
        let (r, found, ends, w) = popstackmark-IsValid n m v e in subst IsValid (cc) w

    Step-IsValid : {s t : Stack} → Step s t → IsValid s → IsValid t
    Step-IsValid (work w) v = Work-IsValid w v
    Step-IsValid set_mark v = setstackmark-IsValid v
    Step-IsValid {s} (pop_mark n t e) v = popped n s t e v
    Step-IsValid (reset_mark m marks t e h) v =
        let (r, found, ends, w) = rststackmark-IsValid m marks v e in subst IsValid (cc) w

    -- In every state that is reached from a valid one by work, by setting marks, by popping any mark
    -- that is listed, and by resets to the mark that was set last, the stack is valid: the space that
    -- is left ends with its block, sizes and places are aligned, and the block of each mark, and what
    -- the mark says of it, are right for the blocks that will then be left.
    pub Reach-IsValid : {s t : Stack} → Reach s t → IsValid s → IsValid t
    Reach-IsValid here v = v
    Reach-IsValid (next r st) v = Step-IsValid st (Reach-IsValid r v)
