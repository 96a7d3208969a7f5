-- ===== src/Ash/Memalloc/Text.antt =====
-- ash/memalloc.c: a string that is built at the top of the stack.
use minilib_ports.Common.{
  ℕ, zero, suc, ◌+◌, ◌-◌, ◌*◌, ◌≤◌, ◌<◌, ◌≡◌, refl, sym, ap, ◌∙◌, subst, false, [], ◌∷◌, ◌++◌,
  arith, ltb, ◌==◌, Bytes, length, take, drop, Bool-cases, inl, inr, length-append, length-drop,
  length-take, take-append_more, take-append_front, take-append-le, drop-take_append, append_assoc,
  append-nil,
}
use minilib_ports.Ash.Memalloc.{
  Stack, shell_align, overwrite, slice, stalloc, regrow, move_up, growstackblock, growstackstr,
  stputc, grabstackstr, startstackstr,
}
use minilib_ports.Ash.Memalloc.Growth.{
  grown_size, stalloc-IsValid, stalloc-place, growstackblock-cases, growstackblock-IsValid,
  string-fits,
}
use minilib_ports.Ash.Memalloc.Valid.{IsValid, store-IsValid}

-- What was written is there.
slice-overwrite :
    (at : ℕ) (bytes space : Bytes)
    → at + length bytes ≤ length space
    → slice at (length bytes) (overwrite at bytes space) ≡ bytes
unfolding overwrite
slice-overwrite at bytes space h =
    rw (drop-take_append at space (bytes ++ drop (at + length bytes) space) (omega arith))
      (take-append_front bytes (drop (at + length bytes) space))

overwrite-suc :
    (n x : ℕ) (bytes space : Bytes)
    → overwrite (suc n) bytes (x ∷ space) ≡ x ∷ overwrite n bytes space
unfolding overwrite
overwrite-suc n x bytes space =
    let e : suc n + length bytes ≡ suc (n + length bytes) = omega arith in rw e refl

drop-overwrite :
    (at k : ℕ) (bytes space : Bytes)
    → at ≤ length space
    → drop at (overwrite (at + k) bytes space) ≡ overwrite k bytes (drop at space)
drop-overwrite zero k bytes space h = ap (λ n. overwrite n bytes space) (omega arith)
drop-overwrite (suc at) k bytes [] h = absurd (omega arith)
drop-overwrite (suc at) k bytes (x ∷ space) h =
    let e : suc at + k ≡ suc (at + k) = omega arith in
    rw (e, overwrite-suc) (drop-overwrite at k bytes space (omega arith))

-- A byte behind a text makes it longer.
slice-overwrite_next :
    (at c : ℕ) (text space : Bytes)
    → at + length text < length space
    → slice at (length text) space ≡ text
    → slice at (length text + 1) (overwrite (at + length text) (c ∷ []) space) ≡ text ++ c ∷ []
unfolding overwrite
slice-overwrite_next at c text space h e =
    let behind : Bytes = drop (length text + 1) (drop at space) in
    rw (drop-overwrite at (length text) (c ∷ []) space (omega arith), overwrite, e)
      (take-append_more 1 text (c ∷ behind))

module _ (memory : ℕ → ℕ → Bytes) (sized : (id n : ℕ) → length (memory id n) ≡ n) where
  module _ (s : Stack) (v : IsValid s) where
    abbrev free_bytes : Bytes
    free_bytes = slice s.stacknxt s.stacknleft s.top.space

    length-free_bytes : length free_bytes ≡ s.stacknleft
    length-free_bytes =
        length-take s.stacknleft (drop s.stacknxt s.top.space)
          (omega (arith, v.fills, length-drop s.stacknxt s.top.space))

    abbrev Grown : Stack → Type 0
    Grown t =
        (slice t.stacknxt s.stacknleft t.top.space ≡ free_bytes)
        × (s.stacknleft * 2 + 100 ≤ t.stacknleft)

    move_up-Grown : Grown (move_up memory (grown_size s) s)
    unfolding move_up
    move_up-Grown =
        let at : ℕ = (stalloc memory (grown_size s) s).0 in
        let space : Bytes = (stalloc memory (grown_size s) s).1.top.space in
        let fits : at + length free_bytes ≤ length space =
          string-fits memory sized s (grown_size s) v (omega arith) (omega arith) in
        (
          subst (λ n. slice at n (overwrite at free_bytes space) ≡ free_bytes) length-free_bytes
              (slice-overwrite at free_bytes space fits),
          omega arith,
        )

    regrow-Grown : s.stacknxt ≡ 0 → Grown (regrow memory (grown_size s) s)
    unfolding regrow
    regrow-Grown start =
        let more : Bytes = memory s.next_id (grown_size s - length s.top.space) in
        let e : free_bytes ≡ take s.stacknleft s.top.space =
          ap (λ n. slice n s.stacknleft s.top.space) start in
        (take-append-le s.stacknleft s.top.space more (omega (arith, v.fills)) ∙ sym e, omega arith)

    -- Growing gives more room, and the bytes that were free before are at the new place.
    growstackblock-Grown : Grown (growstackblock memory s)
    growstackblock-Grown = elim (growstackblock-cases memory sized s) [
      | inl e ↦ subst Grown (sym e) move_up-Grown
      | inr (e, start) ↦ subst Grown (sym e) (regrow-Grown start)
    ]

  -- A string is being built: `p` is behind its bytes, and `sstrnleft` counts those that are left.
  pub record Builds (text : Bytes) (p : ℕ) (s : Stack) : Type 0 where
    pub valid : IsValid s
    pub place : p ≡ s.stacknxt + length text
    pub left : p + s.sstrnleft ≡ s.stacknxt + s.stacknleft
    pub bytes : slice s.stacknxt (length text) s.top.space ≡ text

  -- In front of the end, a byte is stored behind the text.
  store-Builds :
      (text : Bytes) (c p : ℕ) (s : Stack) (left : ℕ)
      → IsValid s
      → p ≡ s.stacknxt + length text
      → suc p + left ≡ s.stacknxt + s.stacknleft
      → slice s.stacknxt (length text) s.top.space ≡ text
      → Builds (text ++ c ∷ []) (suc p) (record s {
        sstrnleft = left;
        top = record s.top { space = overwrite p (c ∷ []) s.top.space };
      })
  store-Builds text c p s left v e l b =
      let w : IsValid
          (record s { top = record s.top { space = overwrite p (c ∷ []) s.top.space } }) =
        store-IsValid p (c ∷ []) v (omega (arith, v.fills)) in
      record {
        valid = record {
          fills = w.fills;
          next_aligned = w.next_aligned;
          size_aligned = w.size_aligned;
          fresh = w.fresh;
          chain = w.chain;
          marks_valid = w.marks_valid;
        };
        place = omega (arith, length-append text (c ∷ []));
        left = l;
        bytes =
            rw (length-append text (c ∷ []), e)
              (slice-overwrite_next s.stacknxt c text s.top.space (omega (arith, v.fills)) b);
      }

  startstackstr-Builds : (s : Stack) → IsValid s → Builds [] (startstackstr s).0 (startstackstr s).1
  unfolding startstackstr
  startstackstr-Builds s v = record {
    valid = record {
      fills = v.fills;
      next_aligned = v.next_aligned;
      size_aligned = v.size_aligned;
      fresh = v.fresh;
      chain = v.chain;
      marks_valid = v.marks_valid;
    };
    place = omega arith;
    left = refl;
    bytes = refl;
  }

  -- A byte is put behind the string, and where there is no room the string moves.
  stputc-Builds :
      (text : Bytes) (c p : ℕ) (s : Stack)
      → Builds text p s
      → Builds (text ++ c ∷ []) (stputc memory c (p, s)).0 (stputc memory c (p, s)).1
  unfolding stputc growstackstr
  stputc-Builds text c p s b = elim (Bool-cases (s.sstrnleft == 0)) [
    | inl full ↦
        let g : Stack = growstackblock memory s in
        let gv : IsValid g = growstackblock-IsValid memory sized b.valid in
        let (same, more) = growstackblock-Grown s b.valid in
        let whole : length text ≡ s.stacknleft = ground (arith, b.place, b.left) in
        rw (stputc, full)
          (store-Builds text c (g.stacknxt + s.stacknleft) g (g.stacknleft - s.stacknleft - 1) gv
            (omega arith) (omega arith)
            (rw whole (same ∙ subst (λ n. slice s.stacknxt n s.top.space ≡ text) whole b.bytes)))
    | inr room ↦
        rw (stputc, room)
          (store-Builds text c p s (s.sstrnleft - 1) b.valid b.place (ground (arith, b.left))
            b.bytes)
  ]

  -- One `STPUTC` after the other.
  unfoldable pub put_all : Bytes → ℕ × Stack → ℕ × Stack
  put_all [] r = r
  put_all (c ∷ text) r = put_all text (stputc memory c r)

  put_all-Builds :
      (more text : Bytes) (p : ℕ) (s : Stack)
      → Builds text p s
      → Builds (text ++ more) (put_all more (p, s)).0 (put_all more (p, s)).1
  unfolding put_all
  put_all-Builds [] text p s b = rw append-nil b
  put_all-Builds (c ∷ more) text p s b =
      subst
        (λ t.
          Builds t (put_all more (stputc memory c (p, s))).0
            (put_all more (stputc memory c (p, s))).1)
        (append_assoc text (c ∷ []) more)
        (put_all-Builds more (text ++ c ∷ []) (stputc memory c (p, s)).0 (stputc memory c (p, s)).1
          (stputc-Builds text c p s b))

  -- A string is kept where it was built.
  grabstackstr-Builds :
      (text : Bytes) (p : ℕ) (s : Stack)
      → Builds text p s
      → ((grabstackstr memory p s).0 ≡ s.stacknxt)
        × ((grabstackstr memory p s).1.top ≡ s.top)
        × (p ≤ (grabstackstr memory p s).1.stacknxt)
        × IsValid (grabstackstr memory p s).1
  unfolding grabstackstr stalloc
  grabstackstr-Builds text p s b =
      let valid : IsValid (stalloc memory (p - s.stacknxt) s).1 =
        stalloc-IsValid memory sized (p - s.stacknxt) b.valid in
      let fits : shell_align (p - s.stacknxt) ≤ s.stacknleft =
        omega (arith, b.place, b.left, b.valid.fills, b.valid.next_aligned, b.valid.size_aligned) in
      let room : ltb s.stacknleft (shell_align (p - s.stacknxt)) ≡ false = ground arith in
      let here : (stalloc memory (p - s.stacknxt) s).0 ≡ s.stacknxt = rw (stalloc, room) refl in
      let same : (stalloc memory (p - s.stacknxt) s).1.top ≡ s.top = rw (stalloc, room) refl in
      (here, same, omega (arith, b.place, stalloc-place memory sized (p - s.stacknxt) s), valid)

  abbrev pub built : Bytes → Stack → ℕ × Stack
  built text s = put_all text (startstackstr s)

  abbrev pub grabbed : Bytes → Stack → ℕ × Stack
  grabbed text s = grabstackstr memory (built text s).0 (built text s).1

  -- In a valid stack, a string that is built byte by byte, and grabbed, stands at the place that is
  -- returned, however often its block has been left or has grown; the stack is valid again, and what
  -- is handed out next is behind the string.
  pub grabbed_lem :
      (text : Bytes) (s : Stack)
      → IsValid s
      → (slice (grabbed text s).0 (length text) (grabbed text s).1.top.space ≡ text)
        × ((grabbed text s).0 + length text ≤ (grabbed text s).1.stacknxt)
        × IsValid (grabbed text s).1
  grabbed_lem text s v =
      let b : Builds text (built text s).0 (built text s).1 =
        put_all-Builds text [] (startstackstr s).0 (startstackstr s).1 (startstackstr-Builds s v) in
      let (at, top, end, valid) = grabstackstr-Builds text (built text s).0 (built text s).1 b in
      (rw (at, top) b.bytes, omega (arith, b.place), valid)
