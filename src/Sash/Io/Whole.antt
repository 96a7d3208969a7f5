-- ===== src/Sash/Io/Whole.antt =====
-- sash-3.8/utils.c: `fullWrite` and `fullRead` transfer the whole buffer, however the kernel divides it.
use minilib_ports.Common.{
  ℕ, zero, suc, ◌+◌, ◌-◌, ◌≤◌, ◌<◌, ◌≡◌, refl, sym, ap, ◌∙◌, [], ◌∷◌, ◌++◌, arith, Option, none,
  some, Bytes, length, take, drop, append_assoc, append-nil, length-drop,
}
use minilib_ports.Sash.Io.{Kernel, full_write_loop, full_write, full_read_loop, full_read}
use minilib_ports.Sash.Outcome.{ok}

-- What is documented of `write` on a regular file that is written at its end: some of the bytes are
-- taken, one at the least, and appended; after an error there are no more than before.
pub record Appends (k : Kernel) : Type 0 where
  pub contents : k.State → Bytes
  pub some_taken :
      (s : k.State) (c : ℕ) (buf : Bytes) (taken : ℕ) (s' : k.State)
      → k.write s (c ∷ buf) ≡ (some taken, s')
      → (0 < taken)
        × (taken ≤ suc (length buf))
        × (contents s' ≡ contents s ++ take taken (c ∷ buf))
  pub none_taken :
      (s : k.State) (c : ℕ) (buf : Bytes) (s' : k.State)
      → k.write s (c ∷ buf) ≡ (none, s')
      → contents s' ≡ contents s

pub take-drop : (n : ℕ) (s : Bytes) → take n s ++ drop n s ≡ s
take-drop zero s = refl
take-drop (suc n) [] = refl
take-drop (suc n) (x ∷ s) = ap (λ t. x ∷ t) (take-drop n s)

module _ (k : Kernel) (file : Appends k) where
  open file use {contents}

  -- All of the buffer is behind what was in the file, or, with the result -1, a front part of it.
  abbrev pub Wrote : ℕ → k.State → Bytes → Option ℕ × k.State → Type 0
  Wrote total s buf (some n, s') = (n ≡ total + length buf) × (contents s' ≡ contents s ++ buf)
  Wrote total s buf (none, s') =
      (front : Bytes) × (back : Bytes) × (buf ≡ front ++ back) × (contents s' ≡ contents s ++ front)

  Wrote-more :
      (total taken : ℕ) (s s' : k.State) (buf : Bytes) (r : Option ℕ × k.State)
      → taken ≤ length buf
      → contents s' ≡ contents s ++ take taken buf
      → Wrote (total + taken) s' (drop taken buf) r
      → Wrote total s buf r
  Wrote-more total taken s s' buf (some n, t) h e (sum, whole) =
      (omega (arith, length-drop taken buf), whole ∙ rw (e, append_assoc, take-drop taken buf) refl)
  Wrote-more total taken s s' buf (none, t) h e (front, back, split, part) = (
    take taken buf ++ front,
    back,
    rw append_assoc (rw (← split) (sym (take-drop taken buf))),
    part ∙ rw (e, append_assoc) refl,
  )

  full_write_loop-Wrote :
      (fuel total : ℕ) (s : k.State) (buf : Bytes)
      → length buf < fuel
      → (r : Option ℕ × k.State) × (full_write_loop k fuel total s buf ≡ ok r) × Wrote total s buf r
  unfolding full_write_loop
  full_write_loop-Wrote zero total s buf h = absurd (omega arith)
  full_write_loop-Wrote (suc fuel) total s [] h =
      ((some total, s), refl, (omega arith, sym (append-nil _)))
  full_write_loop-Wrote (suc fuel) total s (c ∷ buf) h =
      by_write (λ n s'. full_write_loop-Wrote fuel (total + n) s' (drop n (c ∷ buf)))
        (k.write s (c ∷ buf)) refl
    where
      by_write :
          ((n : ℕ) (s' : k.State)
            → length (drop n (c ∷ buf)) < fuel
            → (r : Option ℕ × k.State) × (full_write_loop k fuel (total + n) s' (drop n (c ∷ buf))
                ≡ ok r)
              × Wrote (total + n) s' (drop n (c ∷ buf)) r)
          → (w : Option ℕ × k.State) → k.write s (c ∷ buf) ≡ w
          → (r : Option ℕ × k.State) × (full_write_loop k (suc fuel) total s (c ∷ buf) ≡ ok r)
            × Wrote total s (c ∷ buf) r
      by_write ih (none, s') e = (
        (none, s'),
        rw (full_write_loop, e) refl,
        ([], c ∷ buf, refl, file.none_taken s c buf s' e ∙ sym (append-nil _)),
      )
      by_write ih (some taken, s') e =
          let (pos, le, more) = file.some_taken s c buf taken s' e in
          let (r, ends, wrote) = ih taken s' (omega (arith, length-drop taken (c ∷ buf))) in
          (r, rw (full_write_loop, e) ends, Wrote-more total taken s s' (c ∷ buf) r le more wrote)

  -- If each call of `write` that does not fail takes at least one byte and appends what it takes,
  -- `fullWrite` ends. It returns the length of the buffer, which is then appended to the file as a
  -- whole, or -1, and then a front part of it is.
  pub full_write-Wrote :
      (s : k.State) (buf : Bytes)
      → (r : Option ℕ × k.State) × (full_write k s buf ≡ ok r) × Wrote 0 s buf r
  unfolding full_write
  full_write-Wrote s buf = full_write_loop-Wrote (length buf + 1) 0 s buf (omega arith)

-- What is documented of `read`: at most as many bytes as are asked for, in their order, and none of
-- them only at the end.
pub record Streams (k : Kernel) : Type 0 where
  pub remaining : k.State → Bytes
  pub some_read :
      (s : k.State) (len : ℕ) (bytes : Bytes) (s' : k.State)
      → k.read s (suc len) ≡ (some bytes, s')
      → (length bytes ≤ suc len) × (remaining s ≡ bytes ++ remaining s')
  pub at_end :
      (s : k.State) (len : ℕ) (s' : k.State) → k.read s (suc len) ≡ (some [], s') → remaining s ≡ []

take-append :
    (n : ℕ) (front back : Bytes)
    → length front ≤ n
    → take n (front ++ back) ≡ front ++ take (n - length front) back
take-append n [] back h = ap (λ k. take k back) (omega arith)
take-append zero (x ∷ front) back h = absurd (omega arith)
take-append (suc n) (x ∷ front) back h =
    let e : suc n - suc (length front) ≡ n - length front = omega arith in
    rw (e, take-append n front back (omega arith)) refl

module _ (k : Kernel) (input : Streams k) where
  open input use {remaining}

  -- With a result other than -1, the bytes are those next in the input, as many as are asked for or
  -- there are.
  abbrev pub Read : Bytes → k.State → ℕ → Option Bytes × k.State → Type 0
  Read done s len (some bytes, s') = bytes ≡ done ++ take len (remaining s)
  Read done s len (none, s') = Unit {0}

  Read-more :
      (done : Bytes) (c : ℕ) (bytes : Bytes) (s s' : k.State) (len : ℕ) (r : Option Bytes × k.State)
      → length (c ∷ bytes) ≤ suc len
      → remaining s ≡ (c ∷ bytes) ++ remaining s'
      → Read (done ++ c ∷ bytes) s' (len - length bytes) r
      → Read done s (suc len) r
  Read-more done c bytes s s' len (none, t) short order h = tt
  Read-more done c bytes s s' len (some b, t) short order h =
      let e : suc len - suc (length bytes) ≡ len - length bytes = omega arith in
      let next : take (suc len) (remaining s)
          ≡ (c ∷ bytes) ++ take (len - length bytes) (remaining s') =
        rw order (take-append (suc len) (c ∷ bytes) (remaining s') short ∙ (rw e refl)) in
      h ∙ rw (next, append_assoc) refl

  full_read_loop-Read :
      (fuel : ℕ) (done : Bytes) (s : k.State) (len : ℕ)
      → len < fuel
      → (r : Option Bytes × k.State) × (full_read_loop k fuel done s len ≡ ok r) × Read done s len r
  unfolding full_read_loop
  full_read_loop-Read zero done s len h = absurd (omega arith)
  full_read_loop-Read (suc fuel) done s zero h = ((some done, s), refl, sym (append-nil _))
  full_read_loop-Read (suc fuel) done s (suc len) h =
      by_read (λ d s' n. full_read_loop-Read fuel d s' n) (k.read s (suc len)) refl
    where
      by_read :
          ((d : Bytes) (s' : k.State) (n : ℕ)
            → n < fuel
            → (r : Option Bytes × k.State) × (full_read_loop k fuel d s' n ≡ ok r) × Read d s' n r)
          → (w : Option Bytes × k.State) → k.read s (suc len) ≡ w
          → (r : Option Bytes × k.State) × (full_read_loop k (suc fuel) done s (suc len) ≡ ok r)
            × Read done s (suc len) r
      by_read ih (none, s') e = ((none, s'), rw (full_read_loop, e) refl, tt)
      by_read ih (some [], s') e = (
        (some done, s'),
        rw (full_read_loop, e) refl,
        rw (input.at_end s len s' e) (sym (append-nil _)),
      )
      by_read ih (some (c ∷ bytes), s') e =
          let (short, order) = input.some_read s len (c ∷ bytes) s' e in
          let (r, ends, was_read) = ih (done ++ c ∷ bytes) s' (len - length bytes) (omega arith) in
          (r, rw (full_read_loop, e) ends, Read-more done c bytes s s' len r short order was_read)

  -- If `read` returns the input in order, `fullRead` ends, and returns -1 or the next bytes of the
  -- input, as many as were asked for, or all that there are if these are fewer.
  pub full_read-Read :
      (s : k.State) (len : ℕ)
      → (r : Option Bytes × k.State) × (full_read k s len ≡ ok r) × Read [] s len r
  unfolding full_read
  full_read-Read s len = full_read_loop-Read (len + 1) [] s len (omega arith)
