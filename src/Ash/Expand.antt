-- ===== src/Ash/Expand.antt =====
-- ash/expand.c: taking the control bytes out of a word that has been expanded.
use minilib_ports.Common.{
  ℕ, Bool, true, false, not, ◌&&◌, ◌||◌, [], ◌∷◌, ◌==◌, leb, if◌then◌else◌, Bytes,
}
use minilib_ports.Ash.Outcome.{Outcome, ok, err, fault, ◌>>=◌}
pub mod Escapes
mod Tests

abbrev pub ctlesc : ℕ
ctlesc = 129

abbrev pub ctlcnl : ℕ
ctlcnl = 139

-- `ISCTL`
abbrev pub is_ctl : ℕ → Bool
is_ctl c = leb 129 c && leb c 139

abbrev pub is_boring : ℕ → Bool
is_boring c = c == 136 || c == 137 || c == 138

-- The second loop of `rmescapes`, with the bytes that it writes: it is never in front of what it
-- reads. Behind a last `CTLESC` the NUL is copied, and the loop goes on behind the string.
unfoldable pub unescape : Bytes → Outcome Bytes
unescape [] = ok []
unescape (c ∷ []) =
    if is_boring c
    then ok []
    else if c == ctlcnl
    then ok (b'\n' ∷ [])
    else if c == ctlesc
    then err fault
    else ok (c ∷ [])
unescape (c ∷ d ∷ p) =
    let next = unescape (d ∷ p) in
    let behind = unescape p in
    if is_boring c
    then next
    else if c == ctlcnl
    then (do later ← next; ok (b'\n' ∷ later))
    else if c == ctlesc
    then (do later ← behind; ok (d ∷ later))
    else (do later ← next; ok (c ∷ later))

-- The string that is left. The first loop passes what is in front of the first control byte.
unfoldable pub rmescapes : Bytes → Outcome Bytes
unfolding unescape
rmescapes [] = ok []
rmescapes (c ∷ p) =
    let later = rmescapes p in
    if is_ctl c then unescape (c ∷ p) else (do rest ← later; ok (c ∷ rest))
