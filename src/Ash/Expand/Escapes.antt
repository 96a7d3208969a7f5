-- ===== src/Ash/Expand/Escapes.antt =====
-- ash/expand.c: what control bytes mean.
use minilib_ports.Common.{ℕ, ◌≡◌, refl, ◌∙◌, true, false, [], ◌∷◌, ◌++◌, Bytes, arith}
use minilib_ports.Ash.Expand.{ctlesc, ctlcnl, is_ctl, is_boring, unescape, rmescapes}
use minilib_ports.Ash.Outcome.{ok, err, fault, ◌>>=◌}

-- The word stands for the text: any byte may be escaped, control bytes are, quote marks may be
-- anywhere between, and a newline may be a control byte.
pub data Escapes : Bytes → Bytes → Type 0 where
  done : Escapes [] []
  plain : {c : ℕ} {s t : Bytes} → is_ctl c ≡ false → Escapes s t → Escapes (c ∷ s) (c ∷ t)
  escaped : {c : ℕ} {s t : Bytes} → Escapes s t → Escapes (ctlesc ∷ c ∷ s) (c ∷ t)
  boring : {c : ℕ} {s t : Bytes} → is_boring c ≡ true → Escapes s t → Escapes (c ∷ s) t
  newline : {s t : Bytes} → Escapes s t → Escapes (ctlcnl ∷ s) (b'\n' ∷ t)

unescape-boring : (c : ℕ) (p : Bytes) → is_boring c ≡ true → unescape (c ∷ p) ≡ unescape p
unfolding unescape
unescape-boring c [] h = rw h refl
unescape-boring c (d ∷ p) h = rw h refl

unescape-plain :
    (c : ℕ) (p : Bytes)
    → is_ctl c ≡ false
    → unescape (c ∷ p) ≡ (do later ← unescape p; ok (c ∷ later))
unfolding unescape
unescape-plain c [] h = ground arith
unescape-plain c (d ∷ p) h = ground arith

unescape-newline : (p : Bytes) → unescape (ctlcnl ∷ p) ≡ (do later ← unescape p; ok (b'\n' ∷ later))
unfolding unescape
unescape-newline [] = refl
unescape-newline (d ∷ p) = refl

unescape_lem :
    {s t : Bytes} → Escapes s t → (unescape s ≡ ok t) × (unescape (s ++ ctlesc ∷ []) ≡ err fault)
unfolding unescape
unescape_lem done = (refl, refl)
unescape_lem (plain {c} {s} {t} h e) =
    let (f, g) = unescape_lem e in
    (unescape-plain c s h ∙ (rw f refl), unescape-plain c (s ++ ctlesc ∷ []) h ∙ (rw g refl))
unescape_lem (escaped e) = let (f, g) = unescape_lem e in (rw f refl, rw g refl)
unescape_lem (boring {c} {s} {t} h e) =
    let (f, g) = unescape_lem e in
    (unescape-boring c s h ∙ f, unescape-boring c (s ++ ctlesc ∷ []) h ∙ g)
unescape_lem (newline {s} {t} e) =
    let (f, g) = unescape_lem e in
    (unescape-newline s ∙ (rw f refl), unescape-newline (s ++ ctlesc ∷ []) ∙ (rw g refl))

rmescapes-ctl : (c : ℕ) (p : Bytes) → is_ctl c ≡ true → rmescapes (c ∷ p) ≡ unescape (c ∷ p)
unfolding rmescapes
rmescapes-ctl c p h = rw (rmescapes, h) refl

rmescapes-plain :
    (c : ℕ) (p : Bytes)
    → is_ctl c ≡ false
    → rmescapes (c ∷ p) ≡ (do later ← rmescapes p; ok (c ∷ later))
unfolding rmescapes
rmescapes-plain c p h = rw (rmescapes, h) refl

boring_ctl : (c : ℕ) → is_boring c ≡ true → is_ctl c ≡ true
boring_ctl c h = ground arith

-- For a word that stands for a text, rmescapes leaves the text; with one more escape at its end, the
-- word is read behind its NUL.
pub rmescapes_lem :
    {s t : Bytes} → Escapes s t → (rmescapes s ≡ ok t) × (rmescapes (s ++ ctlesc ∷ []) ≡ err fault)
unfolding rmescapes
rmescapes_lem done = (refl, refl)
rmescapes_lem (plain {c} {s} {t} h e) =
    let (f, g) = rmescapes_lem e in
    (rmescapes-plain c s h ∙ (rw f refl), rmescapes-plain c (s ++ ctlesc ∷ []) h ∙ (rw g refl))
rmescapes_lem (escaped e) = unescape_lem (escaped e)
rmescapes_lem (boring {c} {s} {t} h e) =
    let (f, g) = unescape_lem (boring {c = c} h e) in
    (
      rmescapes-ctl c s (boring_ctl c h) ∙ f,
      rmescapes-ctl c (s ++ ctlesc ∷ []) (boring_ctl c h) ∙ g,
    )
rmescapes_lem (newline e) = unescape_lem (newline e)
