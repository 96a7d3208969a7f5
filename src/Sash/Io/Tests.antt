-- ===== src/Sash/Io/Tests.antt =====
-- A kernel that transfers at most three bytes at a time, to the end of a file and from its front.
use minilib_ports.Common.{
  ℕ, zero, suc, ◌≤◌, ◌<◌, ◌≡◌, ◌≢◌, refl, sym, [], ◌∷◌, ◌++◌, arith, leb, if◌then◌else◌, Option,
  some, Bytes, codes, length, take, drop,
}
use minilib_ports.Sash.Io.{Kernel, full_write, full_read}
use minilib_ports.Sash.Io.Whole.{
  Appends, Streams, Wrote, Read, take-drop, full_write-Wrote, full_read-Read,
}
use minilib_ports.Sash.Outcome.{ok}

abbrev at_most_three : ℕ → ℕ
at_most_three n = if leb n 3 then n else 3

abbrev kernel : Kernel
kernel = record {
  State = Bytes;
  write = λ s buf. (some (at_most_three (length buf)), s ++ take (at_most_three (length buf)) buf);
  read = λ s n. (some (take (at_most_three n) s), drop (at_most_three n) s);
}

take-le : (n : ℕ) (s : Bytes) → length (take n s) ≤ n
take-le zero s = omega arith
take-le (suc n) [] = omega arith
take-le (suc n) (x ∷ s) = omega (arith, take-le n s)

transfers :
    (full_write kernel (codes "ab") (codes "cdefgh") ≡ ok (some 6, codes "abcdefgh"))
    × (full_read kernel (codes "abcdefgh") 5 ≡ ok (some (codes "abcde"), codes "fgh"))
    × (full_read kernel (codes "ab") 5 ≡ ok (some (codes "ab"), []))
unfolding full_write full_read
transfers = (refl, refl, refl)

kernel-write :
    (s buf : Bytes) (n : ℕ) (s' : Bytes)
    → kernel.write s buf ≡ (some n, s')
    → (at_most_three (length buf) ≡ n) × (s' ≡ s ++ take n buf)
kernel-write s buf n s' e =
    let count : at_most_three (length buf) ≡ n = cc in
    let all : s ++ take (at_most_three (length buf)) buf ≡ s' = cc in
    (count, rw (← all) (rw count refl))

kernel-Appends : Appends kernel
kernel-Appends = record {
  contents = λ s. s;
  some_taken = λ s c buf n s' e.
      let (count, all) = kernel-write s (c ∷ buf) n s' e in (ground arith, ground arith, all);
  none_taken = λ s c buf s' e. cc;
}

kernel-read :
    (s : Bytes) (len : ℕ) (bytes s' : Bytes)
    → kernel.read s len ≡ (some bytes, s')
    → (take (at_most_three len) s ≡ bytes) × (drop (at_most_three len) s ≡ s')
kernel-read s len bytes s' e = (cc, cc)

take-pos : (n x : ℕ) (s : Bytes) → 0 < n → take n (x ∷ s) ≢ []
take-pos zero x s h = absurd (omega arith)
take-pos (suc n) x s h = λ e. cc

kernel-Streams : Streams kernel
kernel-Streams = record {
  remaining = λ s. s;
  some_read = λ s len bytes s' e.
      let (front, back) = kernel-read s (suc len) bytes s' e in
      (
        rw (← front) (ground (arith, take-le (at_most_three (suc len)) s)),
        rw (← front, ← back) (sym (take-drop (at_most_three (suc len)) s)),
      );
  at_end = λ s len s' e. nothing_taken s len (kernel-read s (suc len) [] s' e).0;
}
  where
    nothing_taken : (s : Bytes) (len : ℕ) → take (at_most_three (suc len)) s ≡ [] → s ≡ []
    nothing_taken [] len h = refl
    nothing_taken (x ∷ s) len h = absurd (take-pos (at_most_three (suc len)) x s (ground arith) h)

full_write-Wrote_example :
    (r : Option ℕ × Bytes) × (full_write kernel (codes "ab") (codes "cdefgh") ≡ ok r)
    × Wrote kernel kernel-Appends 0 (codes "ab") (codes "cdefgh") r
full_write-Wrote_example = full_write-Wrote kernel kernel-Appends (codes "ab") (codes "cdefgh")

full_read-Read_example :
    (r : Option Bytes × Bytes) × (full_read kernel (codes "abcdefgh") 5 ≡ ok r)
    × Read kernel kernel-Streams [] (codes "abcdefgh") 5 r
full_read-Read_example = full_read-Read kernel kernel-Streams (codes "abcdefgh") 5
