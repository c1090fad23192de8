-- ===== src/Attest/Issued.antt =====
-- An attestation that `attest` prints is one that `parse_and_verify` accepts, of
-- minitrue/src/attest.rs.
use distropica.Attest.Body.{exige-eq}
use distropica.Attest.Fields.{
  Result, ◌>>=◌, exige, validate_text_field, validate_lower_hex, hex_minusculo, lines, linhas_de,
  Mapa, get, campos, need,
}
use distropica.Attest.Issue.{local_identity, load_secret, attest}
use distropica.Attest.Signed.{Gives, Gives-ok, Gives-bind}
use distropica.Attest.Lines.{IsValue, text_field-IsValue, hex-IsValue, campos-line}
use distropica.Attest.{
  Ed25519, ArtifactIdentity, linha, body, decode_hex, parse_verifying_key, parse_and_verify,
}
use distropica.Effects.{ok}
use distropica.Plan.Live.{has, is_empty}
use distropica.Plan.Order.Names.{contains}
use distropica.Prelude.{
  ℕ, ◌*◌, ◌≡◌, refl, ◌∙◌, ap, true, some, [], ◌∷◌, ◌++◌, ◌==◌, ==_iff, ambos, equal, all, length,
  Bytes, append_assoc, arith,
}
use distropica.Text.Pieces.{texto, split}
use distropica.Text.Utf16.{Text}
use distropica.Text.Utf8.{utf8, utf8_of, utf8_ascii, is_ascii, is_byte}

-- The lines of an attestation, signature included.
unfoldable pub documento : Text → Text → Text → Text → Text → Text → Text → Text → Text
documento pkg version recipe_fp artifact builder key now sig =
    linha (texto "ATTEST_FORMAT") (texto "1") (
      linha (texto "PACKAGE") pkg (
        linha (texto "VERSION") version (
          linha (texto "RECIPE_FINGERPRINT") recipe_fp (
            linha (texto "ARTIFACT_HASH") artifact (
              linha (texto "BUILDER") builder (
                linha (texto "BUILDER_KEY") key
                  (linha (texto "BUILT_AT") now (linha (texto "SIG") sig []))))))))

abbrev linhas : Mapa → Text → Text
linhas [] r = r
linhas ((c, v) ∷ ps) r = linha c v (linhas ps r)

linhas-append : (ps : Mapa) (r s : Text) → linhas ps r ++ s ≡ linhas ps (r ++ s)
linhas-append [] r s = refl
linhas-append ((c, v) ∷ ps) r s =
    append_assoc c (b'=' ∷ (v ++ 0x0a ∷ linhas ps r)) s
    ∙ ap (λ t. c ++ b'=' ∷ t)
        (append_assoc v (0x0a ∷ linhas ps r) s ∙ ap (λ t. v ++ 0x0a ∷ t) (linhas-append ps r s))

body-append :
    (pkg version recipe_fp artifact builder key now sig : Text)
    → body pkg version recipe_fp artifact builder key
        ++ linha (texto "BUILT_AT") now (linha (texto "SIG") sig [])
      ≡ documento pkg version recipe_fp artifact builder key now sig
unfolding body documento
body-append pkg version recipe_fp artifact builder key now sig =
    linhas-append
      ((texto "ATTEST_FORMAT", texto "1")
        ∷ (texto "PACKAGE", pkg)
        ∷ (texto "VERSION", version)
        ∷ (texto "RECIPE_FINGERPRINT", recipe_fp)
        ∷ (texto "ARTIFACT_HASH", artifact)
        ∷ (texto "BUILDER", builder)
        ∷ (texto "BUILDER_KEY", key)
        ∷ [])
      [] (linha (texto "BUILT_AT") now (linha (texto "SIG") sig []))

abbrev mapa : Text → Text → Text → Text → Text → Text → Text → Text → Mapa
mapa pkg version recipe_fp artifact builder key now sig =
    (texto "SIG", sig)
    ∷ (texto "BUILT_AT", now)
    ∷ (texto "BUILDER_KEY", key)
    ∷ (texto "BUILDER", builder)
    ∷ (texto "ARTIFACT_HASH", artifact)
    ∷ (texto "RECIPE_FINGERPRINT", recipe_fp)
    ∷ (texto "VERSION", version)
    ∷ (texto "PACKAGE", pkg)
    ∷ (texto "ATTEST_FORMAT", texto "1")
    ∷ []

campos-documento :
    (pkg version recipe_fp artifact builder key now sig : Text)
    → IsValue pkg
    → IsValue version
    → IsValue recipe_fp
    → IsValue artifact
    → IsValue builder
    → IsValue key
    → IsValue now
    → IsValue sig
    → campos [] (lines (documento pkg version recipe_fp artifact builder key now sig))
      ≡ ok (mapa pkg version recipe_fp artifact builder key now sig)
unfolding documento has get contains equal
campos-documento pkg version recipe_fp artifact builder key now sig vp vv vr va vb vk vn vs =
    campos-line _ (texto "ATTEST_FORMAT") (texto "1") _ refl refl refl refl refl
      (hex-IsValue (texto "1") refl)
    ∙ campos-line _ (texto "PACKAGE") pkg _ refl refl refl refl refl vp
    ∙ campos-line _ (texto "VERSION") version _ refl refl refl refl refl vv
    ∙ campos-line _ (texto "RECIPE_FINGERPRINT") recipe_fp _ refl refl refl refl refl vr
    ∙ campos-line _ (texto "ARTIFACT_HASH") artifact _ refl refl refl refl refl va
    ∙ campos-line _ (texto "BUILDER") builder _ refl refl refl refl refl vb
    ∙ campos-line _ (texto "BUILDER_KEY") key _ refl refl refl refl refl vk
    ∙ campos-line _ (texto "BUILT_AT") now _ refl refl refl refl refl vn
    ∙ campos-line _ (texto "SIG") sig [] refl refl refl refl refl vs
    ∙ unfold campos in unfold lines in unfold linhas_de in unfold split in unfold is_empty in refl

-- What the theorem asks of the functions of ed25519_dalek and of the hex crate.
pub record IsScheme {Secret Key : Type 0} (ed : Ed25519 Secret Key) : Type 0 where
  pub decoded : (bs : Bytes) → all is_byte bs ≡ true → ed.hex_decode (ed.hex_encode bs) ≡ some bs
  pub lower : (bs : Bytes) → all is_byte bs ≡ true → all hex_minusculo (ed.hex_encode bs) ≡ true
  pub length_lem : (bs : Bytes) → length (ed.hex_encode bs) ≡ length bs * 2
  pub key_bytes : (pk : Key) → all is_byte (ed.to_bytes pk) ≡ true
  pub key_length : (pk : Key) → length (ed.to_bytes pk) ≡ 32
  pub key :
      (sk : Secret) → ed.from_bytes (ed.to_bytes (ed.verifying_key sk)) ≡ some (ed.verifying_key sk)
  pub sig_bytes : (sk : Secret) (msg : Bytes) → all is_byte (ed.sign sk msg) ≡ true
  pub sig_length : (sk : Secret) (msg : Bytes) → length (ed.sign sk msg) ≡ 64
  pub verified :
      (sk : Secret) (msg : Bytes)
      → ed.verify_strict (ed.verifying_key sk) msg (ed.sign sk msg) ≡ true

module _ {Secret Key : Type 0} (ed : Ed25519 Secret Key) (scheme : IsScheme ed) where
  hex-ascii : (v : Text) → all hex_minusculo v ≡ true → utf8 v ≡ v
  hex-ascii [] h = unfold utf8 in refl
  hex-ascii (c ∷ cs) h = utf8_ascii (c ∷ cs) (todas (c ∷ cs) h)
    where
      todas : (v : Text) → all hex_minusculo v ≡ true → all is_ascii v ≡ true
      todas [] h = refl
      todas (c ∷ cs) h = ground (arith, todas cs)

  decode_hex-encode :
      (n : ℕ) (bs : Bytes)
      → all is_byte bs ≡ true
      → length bs ≡ n
      → decode_hex ed n (ed.hex_encode bs) ≡ ok bs
  unfolding decode_hex validate_lower_hex exige ◌>>=◌
  decode_hex-encode n bs b l =
      rw
        (
          hex-ascii (ed.hex_encode bs) (scheme.lower bs b),
          scheme.length_lem bs,
          l,
          igual (n * 2),
          scheme.lower bs b,
          scheme.decoded bs b,
          l,
          igual n,
        )
        refl
    where
      igual : (k : ℕ) → (k == k) ≡ true
      igual k = (==_iff k k).1 refl

  all_hex : (v : Text) → all hex_minusculo (utf8 v) ≡ true → all hex_minusculo v ≡ true
  unfolding utf8 utf8_of
  all_hex [] h = refl
  all_hex (c ∷ cs) h = ground (arith, all_hex cs)

  lower_hex-IsValue : (v : Text) (n : ℕ) → validate_lower_hex v n ≡ ok tt → IsValue v
  unfolding validate_lower_hex
  lower_hex-IsValue v n h = let (_, hex) = ambos _ _ (exige-eq _ h) in hex-IsValue v (all_hex v hex)

  module _ (sk : Secret) where
    abbrev chave : Text
    chave = ed.hex_encode (ed.to_bytes (ed.verifying_key sk))

    abbrev assinatura : Text → Text
    assinatura b = ed.hex_encode (ed.sign sk (utf8 b))

    documento-accepted :
        (pkg version recipe_fp artifact builder now : Text)
        → validate_text_field pkg ≡ ok tt
        → validate_text_field version ≡ ok tt
        → validate_text_field builder ≡ ok tt
        → validate_text_field now ≡ ok tt
        → validate_lower_hex recipe_fp 32 ≡ ok tt
        → validate_lower_hex artifact 32 ≡ ok tt
        → parse_and_verify ed (
            documento pkg version recipe_fp artifact builder chave now
              (assinatura (body pkg version recipe_fp artifact builder chave)))
          ≡ ok (record {
            package_name = pkg;
            version = version;
            recipe_fingerprint = recipe_fp;
            artifact_hash = artifact;
            builder_key = chave;
          })
    unfolding parse_and_verify parse_verifying_key ◌>>=◌ need get equal exige
    documento-accepted pkg version recipe_fp artifact builder now p v b n f a =
        let assinado : Text = assinatura (body pkg version recipe_fp artifact builder chave) in
        rw
          (
            campos-documento pkg version recipe_fp artifact builder chave now assinado
                (text_field-IsValue pkg p) (text_field-IsValue version v)
                (lower_hex-IsValue recipe_fp 32 f) (lower_hex-IsValue artifact 32 a)
                (text_field-IsValue builder b)
                (hex-IsValue chave (
                  scheme.lower (ed.to_bytes (ed.verifying_key sk))
                    (scheme.key_bytes (ed.verifying_key sk))))
                (text_field-IsValue now n)
                (hex-IsValue assinado (
                  scheme.lower
                    (ed.sign sk (utf8 (body pkg version recipe_fp artifact builder chave)))
                    (scheme.sig_bytes sk
                      (utf8 (body pkg version recipe_fp artifact builder chave))))),
            p,
            v,
            b,
            f,
            a,
            n,
            decode_hex-encode 32 (ed.to_bytes (ed.verifying_key sk))
                (scheme.key_bytes (ed.verifying_key sk)) (scheme.key_length (ed.verifying_key sk)),
            scheme.key sk,
            decode_hex-encode 64
                (ed.sign sk (utf8 (body pkg version recipe_fp artifact builder chave)))
                (scheme.sig_bytes sk (utf8 (body pkg version recipe_fp artifact builder chave)))
                (scheme.sig_length sk (utf8 (body pkg version recipe_fp artifact builder chave))),
            scheme.verified sk (utf8 (body pkg version recipe_fp artifact builder chave)),
          )
          refl

  local_identity-valid :
      (meta : Result Mapa) (pkg : Text)
      → Gives (local_identity meta pkg) λ identity.
        (validate_text_field identity.version ≡ ok tt)
        × (validate_lower_hex identity.recipe_fingerprint 32 ≡ ok tt)
        × (validate_lower_hex identity.artifact_hash 32 ≡ ok tt)
  unfolding local_identity
  local_identity-valid meta pkg = Gives-bind _ _ λ u _. Gives-bind _ _ λ m _.
      Gives-bind _ _ λ version _. Gives-bind _ _ λ recipe_fp _. Gives-bind _ _ λ artifact _.
        Gives-bind _ _ λ u1 v. Gives-bind _ _ λ u2 f. Gives-bind _ _ λ u3 a. Gives-ok _ (v, f, a)

  -- For a scheme that verifies what it signs: if the names of the package and of the builder and the
  -- date are valid, the installed package has an identity and the secret key is read, then `attest`
  -- prints a text that `parse_and_verify` accepts, as an attestation of that package and identity
  -- by the public key of the secret one.
  pub parse_and_verify-attest :
      (meta : Result Mapa) (pkg builder now : Text) (secret : Result Text)
      (identity : ArtifactIdentity) (sk : Secret)
      → validate_text_field pkg ≡ ok tt
      → validate_text_field builder ≡ ok tt
      → validate_text_field now ≡ ok tt
      → local_identity meta pkg ≡ ok identity
      → load_secret ed secret ≡ ok sk
      → (text : Text) × (attest ed meta pkg builder secret now ≡ ok text)
        × (parse_and_verify ed text
            ≡ ok (record {
              package_name = pkg;
              version = identity.version;
              recipe_fingerprint = identity.recipe_fingerprint;
              artifact_hash = identity.artifact_hash;
              builder_key = ed.hex_encode (ed.to_bytes (ed.verifying_key sk));
            }))
  unfolding attest ◌>>=◌
  parse_and_verify-attest meta pkg builder now secret identity sk p b n i s =
      let (v, f, a) = (local_identity-valid meta pkg).holds identity i in
      let chave_de : Text = ed.hex_encode (ed.to_bytes (ed.verifying_key sk)) in
      let corpo : Text =
        body pkg identity.version identity.recipe_fingerprint identity.artifact_hash builder
          chave_de in
      (
        corpo
            ++ linha (texto "BUILT_AT") now
                (linha (texto "SIG") (ed.hex_encode (ed.sign sk (utf8 corpo))) []),
        rw (p, b, i, s) refl,
        ap (parse_and_verify ed) (
              body-append pkg identity.version identity.recipe_fingerprint identity.artifact_hash
                builder chave_de now (ed.hex_encode (ed.sign sk (utf8 corpo))))
            ∙ documento-accepted sk pkg identity.version identity.recipe_fingerprint
                identity.artifact_hash builder now p v b n f a,
      )
