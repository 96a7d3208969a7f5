-- ===== src/Totp/Symbols.antt =====
-- totp/totp.c: the symbols of base32, and what each step of the decoding makes of them.

use minilib_ports.Common.{
  ℕ, ◌+◌, ◌-◌, ◌*◌, ◌/◌, ◌%◌, ◌≡◌, refl, ap, ◌∙◌, Bool, true, false, not, ◌<◌, ◌&&◌, [], ◌∷◌, ◌++◌,
  arith, ltb, ◌==◌, if◌then◌else◌, Bytes, get_or, length, set, drop, subst,
}
use minilib_ports.Totp.{no_value, at, value, byte0, byte1, byte2, byte3, byte4}
use minilib_ports.Totp.Groups.{
  Buffer, Buffer-at, Buffer-drop, Buffer-set, Buffer-room, all_below, all_below-true, byte0_lem,
  byte1_lem, byte2_lem, byte3_lem, byte4_lem,
}

-- The symbol of five bits.
abbrev pub symbol : ℕ → ℕ
symbol v = if ltb v 26 then b'A' + v else b'2' + (v - 26)

symbols_run : all_below 32 (λ v. value (symbol v) == v && not (symbol v == b'=')) ≡ true
unfolding all_below value
symbols_run = refl

value-symbol : (v : ℕ) → v < 32 → (value (symbol v) == v && not (symbol v == b'=')) ≡ true
value-symbol v h =
    all_below-true 32 (λ v. value (symbol v) == v && not (symbol v == b'=')) v symbols_run h

-- The five bits at a place in five bytes.
abbrev pub d0 : ℕ → ℕ
d0 a = symbol (a / 8)

abbrev pub d1 : ℕ → ℕ → ℕ
d1 a b = symbol (a % 8 * 4 + b / 64)

abbrev pub d2 : ℕ → ℕ
d2 b = symbol (b / 2 % 32)

abbrev pub d3 : ℕ → ℕ → ℕ
d3 b c = symbol (b % 2 * 16 + c / 16)

abbrev pub d4 : ℕ → ℕ → ℕ
d4 c d = symbol (c % 16 * 2 + d / 128)

abbrev pub d5 : ℕ → ℕ
d5 d = symbol (d / 4 % 32)

abbrev pub d6 : ℕ → ℕ → ℕ
d6 d e = symbol (d % 4 * 8 + e / 32)

abbrev pub d7 : ℕ → ℕ
d7 e = symbol (e % 32)

abbrev pub is_pad : ℕ → Bool
is_pad c = c == b'='

Buffer-value :
    {n p : ℕ} {out rest k : Bytes} (j i v : ℕ)
    → Buffer n p out rest k
    → i ≡ p + j
    → get_or rest j 0 ≡ symbol v
    → v < 32
    → value (at k i) ≡ v
Buffer-value {n} {p} {out} {rest} {k} j i v b e f h =
    let run : (value (symbol v) == v && not (symbol v == b'=')) ≡ true = value-symbol v h in
    let here : at k i ≡ symbol v = ap (λ i. at k i) e ∙ Buffer-at j b ∙ f in
    rw here (ground (arith, run))

pub symbol-pad : (v : ℕ) → v < 32 → is_pad (symbol v) ≡ false
symbol-pad v h =
    let run : (value (symbol v) == v && not (symbol v == b'=')) ≡ true = value-symbol v h in
    ground (arith, run)

pub Buffer-pad :
    {n p : ℕ} {out rest k : Bytes} (j i : ℕ)
    → Buffer n p out rest k
    → i ≡ p + j
    → is_pad (at k i) ≡ is_pad (get_or rest j 0)
Buffer-pad {n} {p} {out} {rest} {k} j i b e =
    ap (λ i. is_pad (at k i)) e ∙ ap is_pad (Buffer-at j b)

Buffer-put :
    {n p : ℕ} {out rest k : Bytes} (n' p' v v' : ℕ) (k' : Bytes)
    → Buffer n p out rest k
    → 0 < length rest
    → n' ≡ n + 1
    → p' ≡ p + 1
    → v ≡ v'
    → k' ≡ set k n v
    → Buffer n' p' (out ++ v' ∷ []) (drop 1 rest) k'
Buffer-put n' p' v v' k' b h e f i g = rw (e, f, g, ← i) (Buffer-set v b h)

module _ (n p : ℕ) {out k : Bytes} where
  pub step0 :
      (a b : ℕ) (s : Bytes)
      → a < 256
      → b < 256
      → Buffer n p out (d0 a ∷ d1 a b ∷ s) k
      → Buffer (n + 1) (p + 1) (out ++ a ∷ []) (d1 a b ∷ s) (byte0 n p k)
  step0 a b s h h' f =
      Buffer-put (n + 1) (p + 1) _ a (byte0 n p k) f (omega arith) refl refl (omega arith) (
        byte0_lem n p k (a / 8) (a % 8 * 4 + b / 64)
          (Buffer-value 0 p (a / 8) f (omega arith) refl (omega arith))
          (Buffer-value 1 (p + 1) (a % 8 * 4 + b / 64) f refl refl (omega arith)) (omega arith)
          (omega arith) f.before (Buffer-room (Buffer-drop 1 f) (omega arith)))

  pub step1 :
      (a b c : ℕ) (s : Bytes)
      → a < 256
      → b < 256
      → c < 256
      → Buffer (n + 1) (p + 1) out (d1 a b ∷ d2 b ∷ d3 b c ∷ s) k
      → Buffer (n + 2) (p + 2) (out ++ b ∷ []) (d2 b ∷ d3 b c ∷ s) (byte1 n p k)
  step1 a b c s h h' h'' f =
      Buffer-put (n + 2) (p + 2) _ b (byte1 n p k) f (omega arith) (omega arith) (omega arith)
        (omega arith)
        (byte1_lem n p k (a % 8 * 4 + b / 64) (b / 2 % 32) (b % 2 * 16 + c / 16)
          (Buffer-value 0 (p + 1) (a % 8 * 4 + b / 64) f (omega arith) refl (omega arith))
          (Buffer-value 1 (p + 2) (b / 2 % 32) f (omega arith) refl (omega arith))
          (Buffer-value 2 (p + 3) (b % 2 * 16 + c / 16) f (omega arith) refl (omega arith))
          (omega arith) (omega arith) (omega arith) (omega (arith, f.before))
          (omega (arith, Buffer-room (Buffer-drop 2 f) (omega arith))))

  pub step2 :
      (b c d : ℕ) (s : Bytes)
      → b < 256
      → c < 256
      → d < 256
      → Buffer (n + 2) (p + 2) out (d2 b ∷ d3 b c ∷ d4 c d ∷ s) k
      → Buffer (n + 3) (p + 3) (out ++ c ∷ []) (d3 b c ∷ d4 c d ∷ s) (byte2 n p k)
  step2 b c d s h h' h'' f =
      Buffer-put (n + 3) (p + 3) _ c (byte2 n p k) f (omega arith) (omega arith) (omega arith)
        (omega arith)
        (byte2_lem n p k (b % 2 * 16 + c / 16) (c % 16 * 2 + d / 128)
          (Buffer-value 1 (p + 3) (b % 2 * 16 + c / 16) f (omega arith) refl (omega arith))
          (Buffer-value 2 (p + 4) (c % 16 * 2 + d / 128) f (omega arith) refl (omega arith))
          (omega arith) (omega arith) (omega (arith, f.before))
          (omega (arith, Buffer-room (Buffer-drop 2 f) (omega arith))))

  pub step3 :
      (b c d e : ℕ) (s : Bytes)
      → c < 256
      → d < 256
      → e < 256
      → Buffer (n + 3) (p + 3) out (d3 b c ∷ d4 c d ∷ d5 d ∷ d6 d e ∷ s) k
      → Buffer (n + 4) (p + 4) (out ++ d ∷ []) (d4 c d ∷ d5 d ∷ d6 d e ∷ s) (byte3 n p k)
  step3 b c d e s h h' h'' f =
      Buffer-put (n + 4) (p + 4) _ d (byte3 n p k) f (omega arith) (omega arith) (omega arith)
        (omega arith)
        (byte3_lem n p k (c % 16 * 2 + d / 128) (d / 4 % 32) (d % 4 * 8 + e / 32)
          (Buffer-value 1 (p + 4) (c % 16 * 2 + d / 128) f (omega arith) refl (omega arith))
          (Buffer-value 2 (p + 5) (d / 4 % 32) f (omega arith) refl (omega arith))
          (Buffer-value 3 (p + 6) (d % 4 * 8 + e / 32) f (omega arith) refl (omega arith))
          (omega arith) (omega arith) (omega arith) (omega (arith, f.before))
          (omega (arith, Buffer-room (Buffer-drop 3 f) (omega arith))))

  pub step4 :
      (c d e : ℕ) (s : Bytes)
      → d < 256
      → e < 256
      → Buffer (n + 4) (p + 4) out (d4 c d ∷ d5 d ∷ d6 d e ∷ d7 e ∷ s) k
      → Buffer (n + 5) (p + 8) (out ++ e ∷ []) s (byte4 n p k)
  step4 c d e s h h' f =
      let end : p + 5 + 3 ≡ p + 8 = omega arith in
      subst (λ q. Buffer (n + 5) q (out ++ e ∷ []) s (byte4 n p k)) end
        (Buffer-drop 3 (
          Buffer-put (n + 5) (p + 5) _ e (byte4 n p k) f (omega arith) (omega arith) (omega arith)
            (omega arith)
            (byte4_lem n p k (d % 4 * 8 + e / 32) (e % 32)
              (Buffer-value 2 (p + 6) (d % 4 * 8 + e / 32) f (omega arith) refl (omega arith))
              (Buffer-value 3 (p + 7) (e % 32) f (omega arith) refl (omega arith)) (omega arith)
              (omega arith) (omega (arith, f.before))
              (omega (arith, Buffer-room (Buffer-drop 3 f) (omega arith))))))

-- A symbol has a value.
no_value_run : all_below 32 (λ v. not (no_value (symbol v))) ≡ true
unfolding all_below no_value
no_value_run = refl

pub symbol-value : (v : ℕ) → v < 32 → no_value (symbol v) ≡ false
symbol-value v h =
    let run : not (no_value (symbol v)) ≡ true =
      all_below-true 32 (λ v. not (no_value (symbol v))) v no_value_run h in
    ground (arith, run)
