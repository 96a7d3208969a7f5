-- ===== src/Totp/Groups.antt =====
-- totp/totp.c: a group of eight symbols, decoded in place.
use Prim.Native.Nat.{bit_and, bit_or}
use minilib_ports.Common.{
  ℕ, zero, suc, ◌+◌, ◌*◌, ◌/◌, ◌%◌, ◌≤◌, ◌<◌, ◌≡◌, refl, sym, ap, ◌∙◌, Bool, true, ◌&&◌, [], ◌∷◌,
  ◌++◌, arith, ◌==◌, Bytes, get_or, Bool-cases, inl, inr, length, set, take, drop, get_or-set,
  drop-drop, length-drop, subst,
}
use minilib_ports.Totp.{at, value, two_parts, one_more, byte0, byte1, byte2, byte3, byte4}

unfoldable pub all_below : ℕ → (ℕ → Bool) → Bool
all_below zero p = true
all_below (suc n) p = p n && all_below n p

pub all_below-true : (n : ℕ) (p : ℕ → Bool) (x : ℕ) → all_below n p ≡ true → x < n → p x ≡ true
unfolding all_below
all_below-true zero p x h k = absurd (omega arith)
all_below-true (suc n) p x h k = elim (Bool-cases (x == n)) [
  | inl last ↦ ground arith
  | inr other ↦ all_below-true n p x (ground arith) (ground arith)
]

-- The bits of two masked values do not meet.
abbrev pub masks_join : ℕ → ℕ → Bool
masks_join a b =
    bit_or (bit_and (a * 8) 248) (bit_and (b / 4) 7) == a * 8 + b / 4
    && bit_or (bit_and (a * 64) 192) (bit_and (b * 2) 62) == a % 4 * 64 + b * 2
    && bit_or (bit_and (a * 16) 240) (bit_and (b / 2) 15) == a % 16 * 16 + b / 2
    && bit_or (bit_and (a * 128) 128) (bit_and (b * 4) 124) == a % 2 * 128 + b * 4
    && bit_or (bit_and (a * 32) 224) (bit_and b 31) == a % 8 * 32 + b

masks_run : all_below 32 (λ a. all_below 32 (masks_join a)) ≡ true
unfolding all_below
masks_run = refl

pub masks : (a b : ℕ) → a < 32 → b < 32 → masks_join a b ≡ true
masks a b h k =
    all_below-true 32 (masks_join a) b
      (all_below-true 32 (λ a. all_below 32 (masks_join a)) a masks_run h) k

-- The last bits of a byte of three parts.
abbrev pub last_joins : ℕ → ℕ → Bool
last_joins m c =
    bit_or (m * 2) (bit_and (c / 16) 1) == m * 2 + c / 16
    && bit_or (m % 64 * 4) (bit_and (c / 8) 3) == m % 64 * 4 + c / 8

last_run : all_below 128 (λ m. all_below 32 (last_joins m)) ≡ true
unfolding all_below
last_run = refl

pub last : (m c : ℕ) → m < 128 → c < 32 → last_joins m c ≡ true
last m c h k =
    all_below-true 32 (last_joins m) c
      (all_below-true 128 (λ m. all_below 32 (last_joins m)) m last_run h) k

set-set : (xs : Bytes) (i x y : ℕ) → set (set xs i x) i y ≡ set xs i y
set-set [] i x y = refl
set-set (z ∷ xs) zero x y = refl
set-set (z ∷ xs) (suc i) x y = ap (λ l. z ∷ l) (set-set xs i x y)

pub at-set_same : (k : Bytes) (i v : ℕ) → i < length k → at (set k i v) i ≡ v
at-set_same k i v h = get_or-set k i i v 0 h ∙ (ground arith)

pub at-set_other : (k : Bytes) (i j v : ℕ) → i < length k → i < j → at (set k i v) j ≡ at k j
at-set_other k i j v h l = get_or-set k i j v 0 h ∙ (ground arith)

pub two_parts_lem :
    (i p : ℕ) (x : ℕ → ℕ) (q : ℕ) (y : ℕ → ℕ) (k : Bytes)
    → i < q
    → i < length k
    → two_parts i p x q y k ≡ set k i (bit_or (x (value (at k p))) (y (value (at k q))))
unfolding two_parts
two_parts_lem i p x q y k h l =
    let v : ℕ = x (value (at k p)) in
    rw (at-set_same k i v l, at-set_other k i q v l h) (set-set k i v _)

pub one_more_lem :
    (i v q : ℕ) (y : ℕ → ℕ) (k : Bytes)
    → i < q
    → i < length k
    → one_more i q y (set k i v) ≡ set k i (bit_or v (y (value (at k q))))
unfolding one_more
one_more_lem i v q y k h l = rw (at-set_same k i v l, at-set_other k i q v l h) (set-set k i v _)

pub take-set : (k : Bytes) (n v : ℕ) → n < length k → take (suc n) (set k n v) ≡ take n k ++ v ∷ []
take-set [] n v h = absurd (omega arith)
take-set (x ∷ k) zero v h = refl
take-set (x ∷ k) (suc n) v h = ap (λ l. x ∷ l) (take-set k n v (omega arith))

pub take-set_front : (k : Bytes) (n v : ℕ) → take n (set k n v) ≡ take n k
take-set_front k zero v = refl
take-set_front [] (suc n) v = refl
take-set_front (x ∷ k) (suc n) v = ap (λ l. x ∷ l) (take-set_front k n v)

drop-set : (k : Bytes) (n p v : ℕ) → n < p → drop p (set k n v) ≡ drop p k
drop-set [] n p v h = refl
drop-set (x ∷ k) n zero v h = absurd (omega arith)
drop-set (x ∷ k) zero (suc p) v h = refl
drop-set (x ∷ k) (suc n) (suc p) v h = drop-set k n p v (omega arith)

get_or-drop : (k : Bytes) (p j : ℕ) → at k (p + j) ≡ get_or (drop p k) j 0
get_or-drop k zero j = ap (λ i. at k i) (omega arith)
get_or-drop [] (suc p) j = refl
get_or-drop (x ∷ k) (suc p) j =
    let e : suc p + j ≡ suc (p + j) = omega arith in ap (λ i. at (x ∷ k) i) e ∙ get_or-drop k p j

-- The bytes that are decoded and the symbols that are left, which do not meet.
pub record Buffer (n p : ℕ) (out rest k : Bytes) : Type 0 where
  pub before : n ≤ p
  pub decoded : take n k ≡ out
  pub left : drop p k ≡ rest

pub Buffer-at :
    {n p : ℕ} {out rest k : Bytes} (j : ℕ) → Buffer n p out rest k → at k (p + j) ≡ get_or rest j 0
Buffer-at {n} {p} {out} {rest} {k} j b = get_or-drop k p j ∙ ap (λ l. get_or l j 0) b.left

pub Buffer-drop :
    {n p : ℕ} {out rest k : Bytes} (m : ℕ)
    → Buffer n p out rest k
    → Buffer n (p + m) out (drop m rest) k
Buffer-drop {n} {p} {out} {rest} {k} m b = record {
  before = omega (arith, b.before);
  decoded = b.decoded;
  left = sym (drop-drop m p k) ∙ ap (drop m) b.left;
}

pub Buffer-room :
    {n p : ℕ} {out rest k : Bytes} → Buffer n p out rest k → 0 < length rest → p < length k
Buffer-room {n} {p} {out} {rest} {k} b h = omega (arith, length-drop p k, ap length b.left)

pub Buffer-set :
    {n p : ℕ} {out rest k : Bytes} (v : ℕ)
    → Buffer n p out rest k
    → 0 < length rest
    → Buffer (n + 1) (p + 1) (out ++ v ∷ []) (drop 1 rest) (set k n v)
Buffer-set {n} {p} {out} {rest} {k} v b h = record {
  before = omega (arith, b.before);
  decoded =
      let e : suc n ≡ n + 1 = omega arith in
      subst (λ m. take m (set k n v) ≡ out ++ v ∷ []) e
        (take-set k n v (omega (arith, b.before, Buffer-room b h))
          ∙ ap (λ l. l ++ v ∷ []) b.decoded);
  left = drop-set k n (p + 1) v (omega (arith, b.before)) ∙ (Buffer-drop 1 b).left;
}

module _ (n p : ℕ) (k : Bytes) where
  pub byte0_lem :
      (v w : ℕ)
      → value (at k p) ≡ v
      → value (at k (p + 1)) ≡ w
      → v < 32
      → w < 32
      → n ≤ p
      → p + 1 < length k
      → byte0 n p k ≡ set k n (v * 8 + w / 4)
  unfolding byte0
  byte0_lem v w e f h h' l m =
      two_parts_lem n p (λ v. bit_and (v * 8) 248) (p + 1) (λ v. bit_and (v / 4) 7) k (omega arith)
        (omega arith)
      ∙ ap (set k n) (rw (e, f) (ground (arith, masks v w h h')))

  pub byte1_lem :
      (v w u : ℕ)
      → value (at k (p + 1)) ≡ v
      → value (at k (p + 2)) ≡ w
      → value (at k (p + 3)) ≡ u
      → v < 32
      → w < 32
      → u < 32
      → n ≤ p
      → p + 3 < length k
      → byte1 n p k ≡ set k (n + 1) (v % 4 * 64 + w * 2 + u / 16)
  unfolding byte1
  byte1_lem v w u e f g h h' h'' l m =
      let front : bit_or (bit_and (v * 64) 192) (bit_and (w * 2) 62) ≡ v % 4 * 64 + w * 2 =
        ground (arith, masks v w h h') in
      let back : bit_or (v % 4 * 64 + w * 2) (bit_and (u / 16) 1) ≡ v % 4 * 64 + w * 2 + u / 16 =
        ground (arith, last (v % 4 * 32 + w) u (omega arith) h'') in
      ap (one_more (n + 1) (p + 3) (λ v. bit_and (v / 16) 1)) (
        two_parts_lem (n + 1) (p + 1) (λ v. bit_and (v * 64) 192) (p + 2) (λ v. bit_and (v * 2) 62)
          k (omega arith) (omega arith))
      ∙ one_more_lem (n + 1) _ (p + 3) (λ v. bit_and (v / 16) 1) k (omega arith) (omega arith)
      ∙ ap (set k (n + 1)) (rw (e, f, g) (rw front back))

  pub byte2_lem :
      (v w : ℕ)
      → value (at k (p + 3)) ≡ v
      → value (at k (p + 4)) ≡ w
      → v < 32
      → w < 32
      → n ≤ p
      → p + 4 < length k
      → byte2 n p k ≡ set k (n + 2) (v % 16 * 16 + w / 2)
  unfolding byte2
  byte2_lem v w e f h h' l m =
      two_parts_lem (n + 2) (p + 3) (λ v. bit_and (v * 16) 240) (p + 4) (λ v. bit_and (v / 2) 15) k
        (omega arith) (omega arith)
      ∙ ap (set k (n + 2)) (rw (e, f) (ground (arith, masks v w h h')))

  pub byte3_lem :
      (v w u : ℕ)
      → value (at k (p + 4)) ≡ v
      → value (at k (p + 5)) ≡ w
      → value (at k (p + 6)) ≡ u
      → v < 32
      → w < 32
      → u < 32
      → n ≤ p
      → p + 6 < length k
      → byte3 n p k ≡ set k (n + 3) (v % 2 * 128 + w * 4 + u / 8)
  unfolding byte3
  byte3_lem v w u e f g h h' h'' l m =
      let front : bit_or (bit_and (v * 128) 128) (bit_and (w * 4) 124) ≡ v % 2 * 128 + w * 4 =
        ground (arith, masks v w h h') in
      let back : bit_or (v % 2 * 128 + w * 4) (bit_and (u / 8) 3) ≡ v % 2 * 128 + w * 4 + u / 8 =
        ground (arith, last (v % 2 * 32 + w) u (omega arith) h'') in
      ap (one_more (n + 3) (p + 6) (λ v. bit_and (v / 8) 3)) (
        two_parts_lem (n + 3) (p + 4) (λ v. bit_and (v * 128) 128) (p + 5)
          (λ v. bit_and (v * 4) 124) k (omega arith) (omega arith))
      ∙ one_more_lem (n + 3) _ (p + 6) (λ v. bit_and (v / 8) 3) k (omega arith) (omega arith)
      ∙ ap (set k (n + 3)) (rw (e, f, g) (rw front back))

  pub byte4_lem :
      (v w : ℕ)
      → value (at k (p + 6)) ≡ v
      → value (at k (p + 7)) ≡ w
      → v < 32
      → w < 32
      → n ≤ p
      → p + 7 < length k
      → byte4 n p k ≡ set k (n + 4) (v % 8 * 32 + w)
  unfolding byte4
  byte4_lem v w e f h h' l m =
      two_parts_lem (n + 4) (p + 6) (λ v. bit_and (v * 32) 224) (p + 7) (λ v. bit_and v 31) k
        (omega arith) (omega arith)
      ∙ ap (set k (n + 4)) (rw (e, f) (ground (arith, masks v w h h')))
