-- ===== src/Totp/RoundTrip.antt =====
-- totp/totp.c: what is encoded in base32 comes back from the decoding in place.
use minilib_ports.Common.{
  ℕ, zero, suc, ◌+◌, ◌-◌, ◌%◌, ◌^◌, ◌≤◌, ◌<◌, ◌≡◌, refl, sym, ap, ◌∙◌, Bool, true, false, [], ◌∷◌,
  ◌++◌, arith, ltb, leb, Bytes, length, set, take, subst, some, replicate, append_assoc, append-nil,
  length-drop,
}
use minilib_ports.Totp.{at, decode_group, decode_loop, decode}
use minilib_ports.Totp.Groups.{Buffer, Buffer-drop, Buffer-room, at-set_same, take-set_front}
use minilib_ports.Totp.Decoded.{encode, AllBytes, Last, group1, group2, group3, group4, group5}

-- `pos <= len - 8`
abbrev goes_on : ℕ → ℕ → Bool
goes_on len pos = leb pos ((len + 2 ^ 64 - 8) % 2 ^ 64)

module _ (fuel len n p : ℕ) (k : Bytes) where
  loop_end : goes_on len p ≡ false → decode_loop (suc fuel) len p n k ≡ some (n, k)
  unfolding decode_loop
  loop_end h = rw (decode_loop, h) refl

  loop-Last :
      {out bytes : Bytes}
      → goes_on len p ≡ true
      → p + 7 < length k
      → (l : Last n p out bytes k)
      → decode_loop (suc fuel) len p n k ≡ some (n + length bytes, l.result)
  unfolding decode_loop
  loop-Last h i l =
      let inside : ltb (length k) (p + 8) ≡ false = ground arith in
      rw (decode_loop, h, inside, l.stops) refl

  loop_more :
      (n' : ℕ) (k' : Bytes)
      → goes_on len p ≡ true
      → p + 7 < length k
      → decode_group n p k ≡ (true, n', k')
      → decode_loop (suc fuel) len p n k ≡ decode_loop fuel len (p + 8) n' k'
  unfolding decode_loop
  loop_more n' k' h i e =
      let inside : ltb (length k) (p + 8) ≡ false = ground arith in
      rw (decode_loop, h, inside, e) refl

-- The loop ends with these bytes behind those that it had decoded.
record Looped (fuel len n p : ℕ) (out bytes k : Bytes) : Type 0 where
  result : Bytes
  place : ℕ
  symbols : Bytes
  ends : decode_loop fuel len p n k ≡ some (n + length bytes, result)
  buffer : Buffer (n + length bytes) place (out ++ bytes) symbols result
  room : 0 < length symbols

Last-Looped :
    {fuel len n p : ℕ} {out bytes rest k : Bytes}
    → p + 8 ≤ len
    → len < 2 ^ 64
    → Buffer n p out rest k
    → 7 < length rest
    → Last n p out bytes k
    → Looped (suc fuel) len n p out bytes k
Last-Looped {fuel} {len} {n} {p} {out} {bytes} {rest} {k} h w b i l = record {
  result = l.result;
  place = l.place;
  symbols = l.symbols;
  ends =
      loop-Last fuel len n p k (ground arith)
        (Buffer-room (Buffer-drop 7 b) (omega (arith, length-drop 7 rest))) l;
  buffer = l.buffer;
  room = l.room;
}

encode-long : (bytes : Bytes) → 0 < length bytes → 8 ≤ length (encode bytes)
unfolding encode replicate
encode-long [] h = absurd (omega arith)
encode-long (a ∷ []) h = omega arith
encode-long (a ∷ b ∷ []) h = omega arith
encode-long (a ∷ b ∷ c ∷ []) h = omega arith
encode-long (a ∷ b ∷ c ∷ d ∷ []) h = omega arith
encode-long (a ∷ b ∷ c ∷ d ∷ e ∷ bytes) h = omega arith

encode-Looped :
    (fuel len n p : ℕ) (out bytes tail k : Bytes)
    → AllBytes bytes
    → Buffer n p out (encode bytes ++ 0 ∷ tail) k
    → p + length (encode bytes) ≡ len
    → 8 ≤ len
    → len < 2 ^ 64
    → length (encode bytes) < fuel
    → Looped fuel len n p out bytes k
unfolding encode replicate
encode-Looped zero len n p out bytes tail k v b e h w l = absurd (omega arith)
encode-Looped (suc fuel) len n p out [] tail k v b e h w l =
    let size : n ≡ n + 0 = omega arith in
    record {
      result = k;
      place = p;
      symbols = 0 ∷ tail;
      ends = loop_end fuel len n p k (ground arith) ∙ ap (λ m. some (m, k)) size;
      buffer =
          subst (λ o. Buffer (n + 0) p o (0 ∷ tail) k) (sym (append-nil out))
            (subst (λ m. Buffer m p out (0 ∷ tail) k) size b);
      room = omega arith;
    }
encode-Looped (suc fuel) len n p out (a ∷ []) tail k v b e h w l =
    Last-Looped (omega arith) w b (omega arith) (group1 n p out k a _ v.0 b)
encode-Looped (suc fuel) len n p out (a ∷ a' ∷ []) tail k v b e h w l =
    Last-Looped (omega arith) w b (omega arith) (group2 n p out k a a' v.0 v.1.0 _ b)
encode-Looped (suc fuel) len n p out (a ∷ a' ∷ c ∷ []) tail k v b e h w l =
    Last-Looped (omega arith) w b (omega arith) (group3 n p out k a a' v.0 v.1.0 c v.1.1.0 _ b)
encode-Looped (suc fuel) len n p out (a ∷ a' ∷ c ∷ d ∷ []) tail k v b e h w l =
    Last-Looped (omega arith) w b (omega arith)
      (group4 n p out k a a' v.0 v.1.0 c v.1.1.0 d v.1.1.1.0 _ b)
encode-Looped (suc fuel) len n p out (a ∷ a' ∷ c ∷ d ∷ z ∷ bytes) tail k v b e h w l =
    let (k', f, g) =
      group5 n p out k a a' v.0 v.1.0 c v.1.1.0 d v.1.1.1.0 z (encode bytes ++ 0 ∷ tail) v.1.1.1.1.0
        b in
    let r : Looped fuel len (n + 5) (p + 8) (out ++ a ∷ a' ∷ c ∷ d ∷ z ∷ []) bytes k' =
      encode-Looped fuel len (n + 5) (p + 8) (out ++ a ∷ a' ∷ c ∷ d ∷ z ∷ []) bytes tail k'
        v.1.1.1.1.1 g (omega arith) h w (omega arith) in
    let size : n + 5 + length bytes ≡ n + length (a ∷ a' ∷ c ∷ d ∷ z ∷ bytes) = omega arith in
    record {
      result = r.result;
      place = r.place;
      symbols = r.symbols;
      ends =
          loop_more fuel len n p k (n + 5) k' (ground arith)
            (Buffer-room (Buffer-drop 7 b) (omega arith)) f
          ∙ r.ends
          ∙ ap (λ m. some (m, r.result)) size;
      buffer = rw (← size, ← append_assoc out (a ∷ a' ∷ c ∷ d ∷ z ∷ []) bytes) r.buffer;
      room = r.room;
    }

-- For any bytes, but not none: the object that holds their encoding and its NUL, whatever is behind
-- it, holds them after the decoding, which ends, with their number as the length and a NUL behind
-- them. The length of the encoding is a `size_t`.
pub decode-encode :
    (bytes tail : Bytes)
    → AllBytes bytes
    → 0 < length bytes
    → length (encode bytes) < 2 ^ 64
    → (k : Bytes) × (decode (length (encode bytes)) (encode bytes ++ 0 ∷ tail)
        ≡ some (length bytes, k))
      × (take (length bytes) k ≡ bytes)
      × (at k (length bytes) ≡ 0)
unfolding decode
decode-encode bytes tail v h w =
    let k : Bytes = encode bytes ++ 0 ∷ tail in
    let l : Looped (suc (length (encode bytes))) (length (encode bytes)) 0 0 [] bytes k =
      encode-Looped (suc (length (encode bytes))) (length (encode bytes)) 0 0 [] bytes tail k v
        (record { before = omega arith; decoded = refl; left = refl }) (omega arith)
        (encode-long bytes h) w (omega arith) in
    let size : 0 + length bytes ≡ length bytes = omega arith in
    let b : Buffer (length bytes) l.place bytes l.symbols l.result =
      subst (λ n. Buffer n l.place bytes l.symbols l.result) size l.buffer in
    let room : length bytes < length l.result = omega (arith, b.before, Buffer-room b l.room) in
    (
      set l.result (length bytes) 0,
      rw (decode, l.ends, size) refl,
      take-set_front l.result (length bytes) 0 ∙ b.decoded,
      at-set_same l.result (length bytes) 0 room,
    )
