-- ===== src/Totp/Decoded.antt =====
-- totp/totp.c: base32, and what the loop does to one group of it.
use minilib_ports.Common.{
  ℕ, ◌+◌, ◌*◌, ◌/◌, ◌%◌, ◌<◌, ◌≡◌, refl, ◌∙◌, true, false, [], ◌∷◌, ◌++◌, arith, Bytes, length,
  subst, replicate, append_assoc,
}
use minilib_ports.Totp.{at, byte0, byte1, byte2, byte3, byte4, decode_group}
use minilib_ports.Totp.Groups.{Buffer}
use minilib_ports.Totp.Symbols.{
  is_pad, symbol-pad, Buffer-pad, d0, d1, d2, d3, d4, d5, d6, d7, step0, step1, step2, step3, step4,
}

-- Base32, by groups of five bytes, with padding.
unfoldable pub encode : Bytes → Bytes
encode [] = []
encode (a ∷ []) = d0 a ∷ d1 a 0 ∷ replicate 6 b'='
encode (a ∷ b ∷ []) = d0 a ∷ d1 a b ∷ d2 b ∷ d3 b 0 ∷ replicate 4 b'='
encode (a ∷ b ∷ c ∷ []) = d0 a ∷ d1 a b ∷ d2 b ∷ d3 b c ∷ d4 c 0 ∷ replicate 3 b'='
encode (a ∷ b ∷ c ∷ d ∷ []) = d0 a ∷ d1 a b ∷ d2 b ∷ d3 b c ∷ d4 c d ∷ d5 d ∷ d6 d 0 ∷ b'=' ∷ []
encode (a ∷ b ∷ c ∷ d ∷ e ∷ s) =
    d0 a ∷ d1 a b ∷ d2 b ∷ d3 b c ∷ d4 c d ∷ d5 d ∷ d6 d e ∷ d7 e ∷ encode s

abbrev pub AllBytes : Bytes → Type 0
AllBytes [] = Unit {0}
AllBytes (a ∷ s) = (a < 256) × AllBytes s

-- The group at a place is the last one, and has these bytes.
pub record Last (n p : ℕ) (out bytes k : Bytes) : Type 0 where
  pub result : Bytes
  pub place : ℕ
  pub symbols : Bytes
  pub stops : decode_group n p k ≡ (false, n + length bytes, result)
  pub buffer : Buffer (n + length bytes) place (out ++ bytes) symbols result
  pub room : 0 < length symbols

module _ (n p : ℕ) (out k : Bytes) where
  pub group1 :
      (a : ℕ) (s : Bytes)
      → a < 256
      → Buffer n p out (d0 a ∷ d1 a 0 ∷ b'=' ∷ s) k
      → Last n p out (a ∷ []) k
  unfolding decode_group
  group1 a s h f =
      let g : Buffer (n + 1) (p + 1) (out ++ a ∷ []) (d1 a 0 ∷ b'=' ∷ s) (byte0 n p k) =
        step0 n p a 0 (b'=' ∷ s) h (omega arith) f in
      let stop : is_pad (at (byte0 n p k) (p + 2)) ≡ true = Buffer-pad 1 (p + 2) g (omega arith) in
      record {
        result = byte0 n p k;
        place = p + 1;
        symbols = d1 a 0 ∷ b'=' ∷ s;
        stops = rw stop refl;
        buffer = g;
        room = omega arith;
      }

  module _ (a b : ℕ) (ha : a < 256) (hb : b < 256) where
    abbrev k0 : Bytes
    k0 = byte0 n p k

    abbrev k1 : Bytes
    k1 = byte1 n p k0

    module _ (c : ℕ) (hc : c < 256) (s : Bytes)
        (f : Buffer n p out (d0 a ∷ d1 a b ∷ d2 b ∷ d3 b c ∷ s) k) where
      after0 : Buffer (n + 1) (p + 1) (out ++ a ∷ []) (d1 a b ∷ d2 b ∷ d3 b c ∷ s) k0
      after0 = step0 n p a b (d2 b ∷ d3 b c ∷ s) ha hb f

      goes0 : is_pad (at k0 (p + 2)) ≡ false
      goes0 = Buffer-pad 1 (p + 2) after0 (omega arith) ∙ symbol-pad (b / 2 % 32) (omega arith)

      after1 : Buffer (n + 2) (p + 2) (out ++ a ∷ b ∷ []) (d2 b ∷ d3 b c ∷ s) k1
      after1 =
          subst (λ o. Buffer (n + 2) (p + 2) o (d2 b ∷ d3 b c ∷ s) k1)
            (append_assoc out (a ∷ []) (b ∷ [])) (step1 n p a b c s ha hb hc after0)

    pub group2 :
        (s : Bytes)
        → Buffer n p out (d0 a ∷ d1 a b ∷ d2 b ∷ d3 b 0 ∷ b'=' ∷ s) k
        → Last n p out (a ∷ b ∷ []) k
    unfolding decode_group
    group2 s f =
        let g : Buffer (n + 2) (p + 2) (out ++ a ∷ b ∷ []) (d2 b ∷ d3 b 0 ∷ b'=' ∷ s) k1 =
          after1 0 (omega arith) (b'=' ∷ s) f in
        let stop : is_pad (at k1 (p + 4)) ≡ true = Buffer-pad 2 (p + 4) g (omega arith) in
        record {
          result = k1;
          place = p + 2;
          symbols = d2 b ∷ d3 b 0 ∷ b'=' ∷ s;
          stops = rw (goes0 0 (omega arith) (b'=' ∷ s) f, stop) refl;
          buffer = g;
          room = omega arith;
        }

    module _ (c : ℕ) (hc : c < 256) where
      abbrev k2 : Bytes
      k2 = byte2 n p k1

      module _ (d : ℕ) (hd : d < 256) (s : Bytes)
          (f : Buffer n p out (d0 a ∷ d1 a b ∷ d2 b ∷ d3 b c ∷ d4 c d ∷ s) k) where
        goes1 : is_pad (at k1 (p + 4)) ≡ false
        goes1 =
            Buffer-pad 2 (p + 4) (after1 c hc (d4 c d ∷ s) f) (omega arith)
            ∙ symbol-pad (c % 16 * 2 + d / 128) (omega arith)

        after2 : Buffer (n + 3) (p + 3) (out ++ a ∷ b ∷ c ∷ []) (d3 b c ∷ d4 c d ∷ s) k2
        after2 =
            subst (λ o. Buffer (n + 3) (p + 3) o (d3 b c ∷ d4 c d ∷ s) k2)
              (append_assoc out (a ∷ b ∷ []) (c ∷ []))
              (step2 n p b c d s hb hc hd (after1 c hc (d4 c d ∷ s) f))

      pub group3 :
          (s : Bytes)
          → Buffer n p out (d0 a ∷ d1 a b ∷ d2 b ∷ d3 b c ∷ d4 c 0 ∷ b'=' ∷ s) k
          → Last n p out (a ∷ b ∷ c ∷ []) k
      unfolding decode_group
      group3 s f =
          let g : Buffer (n + 3) (p + 3) (out ++ a ∷ b ∷ c ∷ []) (d3 b c ∷ d4 c 0 ∷ b'=' ∷ s) k2 =
            after2 0 (omega arith) (b'=' ∷ s) f in
          let stop : is_pad (at k2 (p + 5)) ≡ true = Buffer-pad 2 (p + 5) g (omega arith) in
          record {
            result = k2;
            place = p + 3;
            symbols = d3 b c ∷ d4 c 0 ∷ b'=' ∷ s;
            stops =
                rw (goes0 c hc (d4 c 0 ∷ b'=' ∷ s) f, goes1 0 (omega arith) (b'=' ∷ s) f, stop)
                  refl;
            buffer = g;
            room = omega arith;
          }

      module _ (d : ℕ) (hd : d < 256) where
        abbrev k3 : Bytes
        k3 = byte3 n p k2

        module _ (e : ℕ) (he : e < 256) (s : Bytes)
            (f : Buffer n p out
              (d0 a ∷ d1 a b ∷ d2 b ∷ d3 b c ∷ d4 c d ∷ d5 d ∷ d6 d e ∷ s)
              k) where
          goes2 : is_pad (at k2 (p + 5)) ≡ false
          goes2 =
              Buffer-pad 2 (p + 5) (after2 d hd (d5 d ∷ d6 d e ∷ s) f) (omega arith)
              ∙ symbol-pad (d / 4 % 32) (omega arith)

          after3 :
              Buffer (n + 4) (p + 4) (out ++ a ∷ b ∷ c ∷ d ∷ []) (d4 c d ∷ d5 d ∷ d6 d e ∷ s) k3
          after3 =
              subst (λ o. Buffer (n + 4) (p + 4) o (d4 c d ∷ d5 d ∷ d6 d e ∷ s) k3)
                (append_assoc out (a ∷ b ∷ c ∷ []) (d ∷ []))
                (step3 n p b c d e s hc hd he (after2 d hd (d5 d ∷ d6 d e ∷ s) f))

        pub group4 :
            (s : Bytes)
            → Buffer n p out (d0 a ∷ d1 a b ∷ d2 b ∷ d3 b c ∷ d4 c d ∷ d5 d ∷ d6 d 0 ∷ b'=' ∷ s) k
            → Last n p out (a ∷ b ∷ c ∷ d ∷ []) k
        unfolding decode_group
        group4 s f =
            let g : Buffer (n + 4) (p + 4) (out ++ a ∷ b ∷ c ∷ d ∷ [])
                (d4 c d ∷ d5 d ∷ d6 d 0 ∷ b'=' ∷ s) k3 =
              after3 0 (omega arith) (b'=' ∷ s) f in
            let stop : is_pad (at k3 (p + 7)) ≡ true = Buffer-pad 3 (p + 7) g (omega arith) in
            record {
              result = k3;
              place = p + 4;
              symbols = d4 c d ∷ d5 d ∷ d6 d 0 ∷ b'=' ∷ s;
              stops =
                  rw
                    (
                      goes0 c hc (d4 c d ∷ d5 d ∷ d6 d 0 ∷ b'=' ∷ s) f,
                      goes1 d hd (d5 d ∷ d6 d 0 ∷ b'=' ∷ s) f,
                      goes2 0 (omega arith) (b'=' ∷ s) f,
                      stop,
                    )
                    refl;
              buffer = g;
              room = omega arith;
            }

        pub group5 :
            (e : ℕ) (s : Bytes)
            → e < 256
            → Buffer n p out (d0 a ∷ d1 a b ∷ d2 b ∷ d3 b c ∷ d4 c d ∷ d5 d ∷ d6 d e ∷ d7 e ∷ s) k
            → (k' : Bytes) × (decode_group n p k ≡ (true, n + 5, k'))
              × Buffer (n + 5) (p + 8) (out ++ a ∷ b ∷ c ∷ d ∷ e ∷ []) s k'
        unfolding decode_group
        group5 e s he f =
            let g : Buffer (n + 4) (p + 4) (out ++ a ∷ b ∷ c ∷ d ∷ [])
                (d4 c d ∷ d5 d ∷ d6 d e ∷ d7 e ∷ s) k3 =
              after3 e he (d7 e ∷ s) f in
            let goes3 : is_pad (at k3 (p + 7)) ≡ false =
              Buffer-pad 3 (p + 7) g (omega arith) ∙ symbol-pad (e % 32) (omega arith) in
            (
              byte4 n p k3,
              rw
                  (
                    goes0 c hc (d4 c d ∷ d5 d ∷ d6 d e ∷ d7 e ∷ s) f,
                    goes1 d hd (d5 d ∷ d6 d e ∷ d7 e ∷ s) f,
                    goes2 e he (d7 e ∷ s) f,
                    goes3,
                  )
                  refl,
              subst (λ o. Buffer (n + 5) (p + 8) o s (byte4 n p k3))
                  (append_assoc out (a ∷ b ∷ c ∷ d ∷ []) (e ∷ [])) (step4 n p c d e s hd he g),
            )
