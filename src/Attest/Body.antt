-- ===== src/Attest/Body.antt =====
-- The signed text says what it says of one attestation only: `body` of minitrue/src/attest.rs.
use distropica.Attest.Fields.{exige, validate_text_field, validate_lower_hex, hex_minusculo}
use distropica.Attest.Signed.{IsSigned}
use distropica.Attest.{Ed25519, Attestation, linha, body}
use distropica.Effects.{ok}
use distropica.Plan.Codec.{any_control, is_control}
use distropica.Plan.Live.{has}
use distropica.Prelude.{ℕ, ◌≡◌, refl, Bool, true, false, [], ◌∷◌, ◌++◌, all, arith}
use distropica.Text.Pieces.{texto}
use distropica.Text.Utf16.{Text}
use distropica.Text.Utf8.{utf8, utf8_of}

pub exige-eq : (b : Bool) → exige b ≡ ok tt → b ≡ true
unfolding exige
exige-eq true h = refl
exige-eq false h = cc

pub any_control-has :
    (b : ℕ) (v : Text) → is_control b ≡ true → any_control v ≡ false → has b v ≡ false
unfolding any_control has
any_control-has b [] e h = refl
any_control-has b (c ∷ cs) e h = ground (arith, any_control-has b cs)

hex-has : (v : Text) → all hex_minusculo (utf8 v) ≡ true → has 0x0a v ≡ false
unfolding utf8 utf8_of has
hex-has [] h = refl
hex-has (c ∷ cs) h = ground (arith, hex-has cs)

text_field-has : (v : Text) → validate_text_field v ≡ ok tt → has 0x0a v ≡ false
unfolding validate_text_field
text_field-has v h = any_control-has 0x0a v refl (ground (arith, exige-eq _ h))

pub lower_hex-has : (v : Text) (n : ℕ) → validate_lower_hex v n ≡ ok tt → has 0x0a v ≡ false
unfolding validate_lower_hex
lower_hex-has v n h = hex-has v (ground (arith, exige-eq _ h))

valor-inj :
    (v v' r r' : Text)
    → has 0x0a v ≡ false
    → has 0x0a v' ≡ false
    → v ++ 0x0a ∷ r ≡ v' ++ 0x0a ∷ r'
    → (v ≡ v') × (r ≡ r')
unfolding has
valor-inj [] [] r r' h h' e = (refl, cc (e))
valor-inj [] (c ∷ v') r r' h h' e = absurd (ground (arith, h', e))
valor-inj (c ∷ v) [] r r' h h' e = absurd (ground (arith, h, e))
valor-inj (c ∷ v) (d ∷ v') r r' h h' e =
    let (p, q) = valor-inj v v' r r' (ground (arith, h)) (ground (arith, h')) (cc (e)) in
    (cc (p, e), q)

cancela : (c x y : Text) → c ++ x ≡ c ++ y → x ≡ y
cancela [] x y e = e
cancela (d ∷ c) x y e = cancela c x y (cc (e))

linha-inj :
    (c v v' r r' : Text)
    → has 0x0a v ≡ false
    → has 0x0a v' ≡ false
    → linha c v r ≡ linha c v' r'
    → (v ≡ v') × (r ≡ r')
linha-inj c v v' r r' h h' e =
    valor-inj v v' r r' h h' (cc (cancela c (b'=' ∷ (v ++ 0x0a ∷ r)) (b'=' ∷ (v' ++ 0x0a ∷ r')) e))

-- Two signed attestations with the same signed text are the same attestation, of the same builder.
pub body-inj :
    {Secret Key : Type 0} (ed : Ed25519 Secret Key) (a b : Attestation) (s : IsSigned ed a)
    (t : IsSigned ed b)
    → body a.package_name a.version a.recipe_fingerprint a.artifact_hash s.builder a.builder_key
      ≡ body b.package_name b.version b.recipe_fingerprint b.artifact_hash t.builder b.builder_key
    → (a ≡ b) × (s.builder ≡ t.builder)
unfolding body
body-inj ed a b s t e =
    let (_, e0) =
      linha-inj (texto "ATTEST_FORMAT") (texto "1") (texto "1") _ _ (unfold has in refl)
        (unfold has in refl) e in
    let (e1, r1) =
      linha-inj (texto "PACKAGE") a.package_name b.package_name _ _
        (text_field-has _ s.package_valid) (text_field-has _ t.package_valid) e0 in
    let (e2, r2) =
      linha-inj (texto "VERSION") a.version b.version _ _ (text_field-has _ s.version_valid)
        (text_field-has _ t.version_valid) r1 in
    let (e3, r3) =
      linha-inj (texto "RECIPE_FINGERPRINT") a.recipe_fingerprint b.recipe_fingerprint _ _
        (lower_hex-has _ 32 s.fingerprint_valid) (lower_hex-has _ 32 t.fingerprint_valid) r2 in
    let (e4, r4) =
      linha-inj (texto "ARTIFACT_HASH") a.artifact_hash b.artifact_hash _ _
        (lower_hex-has _ 32 s.hash_valid) (lower_hex-has _ 32 t.hash_valid) r3 in
    let (e5, r5) =
      linha-inj (texto "BUILDER") s.builder t.builder _ _ (text_field-has _ s.builder_valid)
        (text_field-has _ t.builder_valid) r4 in
    let (e6, r6) =
      linha-inj (texto "BUILDER_KEY") a.builder_key b.builder_key [] []
        (lower_hex-has _ 32 s.key_valid) (lower_hex-has _ 32 t.key_valid) r5 in
    (cc (e1, e2, e3, e4, e6), e5)
