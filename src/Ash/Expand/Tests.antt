-- ===== src/Ash/Expand/Tests.antt =====
-- A word with control bytes.
use minilib_ports.Common.{◌≡◌, refl, [], ◌∷◌, codes}
use minilib_ports.Ash.Expand.{ctlesc, ctlcnl, rmescapes}
use minilib_ports.Ash.Expand.Escapes.{done, plain, escaped, boring, newline, rmescapes_lem}
use minilib_ports.Ash.Outcome.{ok, err, fault}

without_control : rmescapes (codes "a b") ≡ ok (codes "a b")
unfolding rmescapes
without_control = refl

rmescapes_lem_example :
    (rmescapes (b'a' ∷ 136 ∷ ctlesc ∷ b'*' ∷ ctlesc ∷ ctlesc ∷ ctlcnl ∷ [])
      ≡ ok (b'a' ∷ b'*' ∷ ctlesc ∷ b'\n' ∷ []))
    × (rmescapes (b'a' ∷ 136 ∷ ctlesc ∷ b'*' ∷ ctlesc ∷ ctlesc ∷ ctlcnl ∷ ctlesc ∷ []) ≡ err fault)
rmescapes_lem_example = rmescapes_lem (plain refl (boring refl (escaped (escaped (newline done)))))
