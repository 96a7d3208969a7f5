-- ===== src/Totp.antt =====
-- totp/totp.c: the check of the secret that `main` makes, and its decoding.
use Prim.Native.Nat.{bit_and, bit_or}
use minilib_ports.Common.{
  ℕ, zero, suc, ◌+◌, ◌-◌, ◌*◌, ◌/◌, ◌%◌, ◌^◌, leb, Option, none, some, set, Bool, true, false, not,
  ◌&&◌, ◌||◌, List, [], ◌∷◌, ◌++◌, ltb, ◌==◌, if◌then◌else◌, Bytes, get_or, length, replicate,
}
pub mod Base32
pub mod Groups
pub mod Symbols
pub mod Decoded
pub mod RoundTrip
pub mod Accepted
mod Tests

-- The pattern of -1 as an `int8_t`.
abbrev pub none8 : ℕ
none8 = 255

unfoldable pub base32_vals : List ℕ
unfolding replicate
base32_vals =
    replicate 48 none8
    ++ (14
        ∷ 11
        ∷ 26
        ∷ 27
        ∷ 28
        ∷ 29
        ∷ 30
        ∷ 31
        ∷ 1
        ∷ none8
        ∷ none8
        ∷ none8
        ∷ none8
        ∷ 0
        ∷ none8
        ∷ none8
        ∷ none8
        ∷ 0
        ∷ 1
        ∷ 2
        ∷ 3
        ∷ 4
        ∷ 5
        ∷ 6
        ∷ 7
        ∷ 8
        ∷ 9
        ∷ 10
        ∷ 11
        ∷ 12
        ∷ 13
        ∷ 14
        ∷ 15
        ∷ 16
        ∷ 17
        ∷ 18
        ∷ 19
        ∷ 20
        ∷ 21
        ∷ 22
        ∷ 23
        ∷ 24
        ∷ 25
        ∷ none8
        ∷ none8
        ∷ none8
        ∷ none8
        ∷ none8
        ∷ none8
        ∷ 0
        ∷ 1
        ∷ 2
        ∷ 3
        ∷ 4
        ∷ 5
        ∷ 6
        ∷ 7
        ∷ 8
        ∷ 9
        ∷ 10
        ∷ 11
        ∷ 12
        ∷ 13
        ∷ 14
        ∷ 15
        ∷ 16
        ∷ 17
        ∷ 18
        ∷ 19
        ∷ 20
        ∷ 21
        ∷ 22
        ∷ 23
        ∷ 24
        ∷ 25
        ∷ 26
        ∷ none8
        ∷ none8
        ∷ none8
        ∷ none8
        ∷ replicate 128 none8)

-- `base32_vals[c] == -1`
unfoldable pub no_value : ℕ → Bool
unfolding base32_vals
no_value c = get_or base32_vals c none8 == none8

-- The inner loop: only `=` up to the end.
unfoldable pub only_padding : Bytes → Bool
only_padding [] = true
only_padding (c ∷ s) = let later = only_padding s in if not (c == b'=') then false else later

-- The loop over the secret, whose length is `len`, at `pos`.
unfoldable pub check_from : ℕ → ℕ → Bytes → Bool
unfolding only_padding
check_from len pos [] = true
check_from len pos (c ∷ s) =
    let later = check_from len (suc pos) s in
    if no_value c
    then false
    else if not (c == b'=')
    then later
    else if pos % 16 == 0 || pos % 16 == 8
    then false
    else if ltb 6 (len - pos)
    then false
    else if pos % 8 == 2 || pos % 8 == 4 || pos % 8 == 5 || pos % 8 == 7
    then only_padding (c ∷ s)
    else false

-- Whether `main` goes on with the secret.
unfoldable pub valid_secret : Bytes → Bool
unfolding check_from
valid_secret k =
    let len = length k in
    if not (len % 16 == 0) && not (len % 16 == 8) then false else check_from len 0 k

-- `k[i]`
abbrev pub at : Bytes → ℕ → ℕ
at k i = get_or k i 0

-- `base32_vals[c]`, where it is not -1.
unfoldable pub value : ℕ → ℕ
unfolding base32_vals
value c = get_or base32_vals c none8

-- `k[i] = x; k[i] |= y` for `x` and `y` of the values of `k[p]` and `k[q]`.
unfoldable pub two_parts : ℕ → ℕ → (ℕ → ℕ) → ℕ → (ℕ → ℕ) → Bytes → Bytes
unfolding value
two_parts i p x q y k =
    let k' = set k i (x (value (at k p))) in set k' i (bit_or (at k' i) (y (value (at k' q))))

-- One more `k[i] |= y`.
unfoldable pub one_more : ℕ → ℕ → (ℕ → ℕ) → Bytes → Bytes
unfolding value
one_more i q y k = set k i (bit_or (at k i) (y (value (at k q))))

unfoldable pub byte0 : ℕ → ℕ → Bytes → Bytes
unfolding two_parts
byte0 keylen pos k =
    two_parts keylen pos (λ v. bit_and (v * 8) 248) (pos + 1) (λ v. bit_and (v / 4) 7) k

unfoldable pub byte1 : ℕ → ℕ → Bytes → Bytes
unfolding two_parts one_more
byte1 keylen pos k =
    one_more (keylen + 1) (pos + 3) (λ v. bit_and (v / 16) 1)
      (two_parts (keylen + 1) (pos + 1) (λ v. bit_and (v * 64) 192) (pos + 2)
        (λ v. bit_and (v * 2) 62) k)

unfoldable pub byte2 : ℕ → ℕ → Bytes → Bytes
unfolding two_parts
byte2 keylen pos k =
    two_parts (keylen + 2) (pos + 3) (λ v. bit_and (v * 16) 240) (pos + 4) (λ v. bit_and (v / 2) 15)
      k

unfoldable pub byte3 : ℕ → ℕ → Bytes → Bytes
unfolding two_parts one_more
byte3 keylen pos k =
    one_more (keylen + 3) (pos + 6) (λ v. bit_and (v / 8) 3)
      (two_parts (keylen + 3) (pos + 4) (λ v. bit_and (v * 128) 128) (pos + 5)
        (λ v. bit_and (v * 4) 124) k)

unfoldable pub byte4 : ℕ → ℕ → Bytes → Bytes
unfolding two_parts
byte4 keylen pos k =
    two_parts (keylen + 4) (pos + 6) (λ v. bit_and (v * 32) 224) (pos + 7) (λ v. bit_and v 31) k

-- The body of the decoding loop: whether it goes on, `keylen`, and the secret, which is decoded in
-- place.
unfoldable pub decode_group : ℕ → ℕ → Bytes → Bool × ℕ × Bytes
unfolding byte0 byte1 byte2 byte3 byte4
decode_group keylen pos k =
    let k0 = byte0 keylen pos k in
    if at k0 (pos + 2) == b'='
    then (false, keylen + 1, k0)
    else (let k1 = byte1 keylen pos k0 in
        if at k1 (pos + 4) == b'='
        then (false, keylen + 2, k1)
        else (let k2 = byte2 keylen pos k1 in
            if at k2 (pos + 5) == b'='
            then (false, keylen + 3, k2)
            else (let k3 = byte3 keylen pos k2 in
                if at k3 (pos + 7) == b'='
                then (false, keylen + 4, k3)
                else (true, keylen + 5, byte4 keylen pos k3))))

-- The decoding loop, with `len` as a `size_t`. There is no result where it leaves the secret, or
-- runs out of fuel.
unfoldable pub decode_loop : ℕ → ℕ → ℕ → ℕ → Bytes → Option (ℕ × Bytes)
unfolding decode_group
decode_loop zero len pos keylen k = none
decode_loop (suc fuel) len pos keylen k =
    let (more, keylen', k') = decode_group keylen pos k in
    let rest = decode_loop fuel len (pos + 8) keylen' k' in
    if leb pos ((len + 2 ^ 64 - 8) % 2 ^ 64)
    then (if ltb (length k) (pos + 8) then none else if more then rest else some (keylen', k'))
    else some (keylen, k)

-- The decoded secret, with its length, in the object that held the secret and its NUL.
unfoldable pub decode : ℕ → Bytes → Option (ℕ × Bytes)
unfolding decode_loop
decode len k = elim (decode_loop (suc len) len 0 0 k) [
  | none ↦ none
  | some (keylen, k') ↦ some (keylen, set k' keylen 0)
]
