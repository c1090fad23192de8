-- ===== src/Attest/Lines.antt =====
-- A text of `FIELD=value` lines is read back field by field: `lines`, `split_once` and the map of
-- `parse_and_verify` of minitrue/src/attest.rs.
use distropica.Attest.Fields.{
  ◌>>=◌, exige, lines, Mapa, get, campos, conhecidos, validate_text_field, hex_minusculo,
}
use distropica.Attest.{linha}
use distropica.Effects.{ok}
use distropica.Attest.Body.{exige-eq, any_control-has}
use distropica.Plan.Live.{has, trim}
use distropica.Plan.Order.Names.{contains}
use distropica.Prelude.{
  ℕ, ◌≡◌, refl, sym, ◌∙◌, ap, true, false, none, [], ◌∷◌, equal, equal_iff, ambos, all, arith,
}
use distropica.Text.Pieces.{is_whitespace, sem_espaco}
pub use distropica.Text.Lines.{
  lines-linha, lines-line, split_once-append, has-append, trim-id, sem_espaco-has,
}
use distropica.Text.Utf16.{Text}

-- A value of one line that stands without white space around it.
pub record IsValue (v : Text) : Type 0 where
  pub lf : has 0x0a v ≡ false
  pub cr : has 0x0d v ≡ false
  pub trimmed : equal v (trim v) ≡ true

pub text_field-IsValue : (v : Text) → validate_text_field v ≡ ok tt → IsValue v
unfolding validate_text_field
text_field-IsValue v h = record {
  lf = any_control-has 0x0a v refl (ground (arith, exige-eq _ h));
  cr = any_control-has 0x0d v refl (ground (arith, exige-eq _ h));
  trimmed = ground (arith, exige-eq _ h);
}

hex-not-espaco : (c : ℕ) → hex_minusculo c ≡ true → is_whitespace c ≡ false
hex-not-espaco c h = ground arith

hex-sem_espaco : (v : Text) → all hex_minusculo v ≡ true → sem_espaco v ≡ true
hex-sem_espaco [] h = refl
hex-sem_espaco (c ∷ cs) h =
    let (a, b) = ambos (hex_minusculo c) (all hex_minusculo cs) h in
    rw (hex-not-espaco c a, hex-sem_espaco cs b) refl

hex-has :
    (b : ℕ) (v : Text) → hex_minusculo b ≡ false → all hex_minusculo v ≡ true → has b v ≡ false
unfolding has
hex-has b [] n h = refl
hex-has b (c ∷ cs) n h = ground (arith, hex-has b cs)

pub hex-IsValue : (v : Text) → all hex_minusculo v ≡ true → IsValue v
hex-IsValue v h = record {
  lf = hex-has 0x0a v refl h;
  cr = hex-has 0x0d v refl h;
  trimmed = (equal_iff v (trim v)).1 (sym (trim-id v (hex-sem_espaco v h)));
}

-- One line more, of a field that is not there yet.
pub campos-line :
    (f : Mapa) (c v r : Text)
    → has b'=' c ≡ false
    → has 0x0a c ≡ false
    → has 0x0d c ≡ false
    → contains c conhecidos ≡ true
    → get c f ≡ none
    → IsValue v
    → campos f (lines (linha c v r)) ≡ campos ((c, v) ∷ f) (lines r)
unfolding campos ◌>>=◌ exige
campos-line f c v r e l d k g val =
    ap (campos f) (lines-linha c v r l d val.lf val.cr)
    ∙ rw (split_once-append b'=' c v e, k, val.trimmed, g) refl
