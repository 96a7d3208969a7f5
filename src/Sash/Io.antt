-- ===== src/Sash/Io.antt =====
-- sash-3.8/utils.c: `fullWrite`, `fullRead` and `tryWrite`.
use minilib_ports.Common.{
  ℕ, zero, suc, ◌+◌, ◌-◌, Bool, true, false, not, ◌&&◌, [], ◌∷◌, ◌++◌, Option, none, some, Bytes,
  length, take, drop, if◌then◌else◌,
}
use minilib_ports.Sash.Outcome.{Outcome, ok, stop, no_fuel}
pub mod Whole
mod Tests

-- What the functions use of the kernel, for one open file: a call of `write` returns how many bytes
-- it took, and one of `read` the bytes; `none` is an error.
pub record Kernel : Type 1 where
  pub State : Type 0
  pub write : State → Bytes → Option ℕ × State
  pub read : State → ℕ → Option Bytes × State

module _ (k : Kernel) where
  -- After a `write`: the result -1, or the rest of the loop.
  abbrev pub written_then :
      (ℕ → k.State → Outcome (Option ℕ × k.State))
      → Option ℕ × k.State
      → Outcome (Option ℕ × k.State)
  written_then next (none, s) = ok (none, s)
  written_then next (some taken, s) = next taken s

  -- The loop, with `total` bytes written; `none` is the result -1.
  unfoldable pub full_write_loop : ℕ → ℕ → k.State → Bytes → Outcome (Option ℕ × k.State)
  full_write_loop zero total s buf = stop no_fuel
  full_write_loop (suc fuel) total s [] = ok (some total, s)
  full_write_loop (suc fuel) total s (c ∷ buf) =
      written_then (λ taken s'. full_write_loop fuel (total + taken) s' (drop taken (c ∷ buf)))
        (k.write s (c ∷ buf))

  -- A write that takes no byte is tried again; the fuel is enough if none does.
  unfoldable pub full_write : k.State → Bytes → Outcome (Option ℕ × k.State)
  unfolding full_write_loop
  full_write s buf = full_write_loop (length buf + 1) 0 s buf

  -- After a `read`, with `done` in the buffer: -1, the end of the file, or the rest of the loop.
  abbrev pub read_then :
      Bytes
      → (ℕ → Bytes → k.State → Outcome (Option Bytes × k.State))
      → Option Bytes × k.State
      → Outcome (Option Bytes × k.State)
  read_then done next (none, s) = ok (none, s)
  read_then done next (some [], s) = ok (some done, s)
  read_then done next (some (c ∷ bytes), s) = next (length bytes) (done ++ c ∷ bytes) s

  -- The loop, with `len` bytes to go.
  unfoldable pub full_read_loop : ℕ → Bytes → k.State → ℕ → Outcome (Option Bytes × k.State)
  full_read_loop zero done s len = stop no_fuel
  full_read_loop (suc fuel) done s zero = ok (some done, s)
  full_read_loop (suc fuel) done s (suc len) =
      read_then done (λ n now s'. full_read_loop fuel now s' (len - n)) (k.read s (suc len))

  -- The bytes that are read; the result is their number, or `none` for -1.
  unfoldable pub full_read : k.State → ℕ → Outcome (Option Bytes × k.State)
  unfolding full_read_loop
  full_read s len = full_read_loop (len + 1) [] s len

  -- The static `failed` before and behind the call, and whether a message is printed.
  unfoldable pub try_write : Bool → k.State → Bytes → Outcome (Bool × Bool × k.State)
  unfolding full_write
  try_write failed s buf = elim (full_write s buf) [
    | stop e ↦ stop e
    | ok (status, s') ↦ elim status [
      | none ↦ ok (true, not failed, s')
      | some total ↦ ok (failed, false, s')
    ]
  ]
