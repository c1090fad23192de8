-- ===== src/Attest/Signed.antt =====
-- What a vote rests on: `parse_and_verify` and the tests of `corroboration_for`, of
-- minitrue/src/attest.rs.
use distropica.Attest.Fields.{validate_text_field, validate_lower_hex}
use distropica.Attest.{
  Ed25519, Attestation, body, ou, ou_crimestop, decode_hex, parse_verifying_key, parse_and_verify,
}
pub use distropica.Effects.Results.{Gives, Gives-ok, Gives-bind}
use distropica.Effects.{ok}
use distropica.Prelude.{ℕ, ◌≡◌, refl, Bool, true, false, Option, none, some, Bytes}
use distropica.Text.Utf16.{Text}
use distropica.Text.Utf8.{utf8}

ou-eq : {A : Type 0} (o : Option A) (a : A) → ou o ≡ ok a → o ≡ some a
ou-eq none a h = cc
ou-eq (some b) a h = cc (h)

crimestop-eq : (b : Bool) (u : Unit {0}) → ou_crimestop b ≡ ok u → b ≡ true
crimestop-eq true u h = refl
crimestop-eq false u h = cc

-- An attestation that the key it names has signed, with the name of its builder.
pub record IsSigned {Secret Key : Type 0} (ed : Ed25519 Secret Key) (att : Attestation)
    : Type 0 where
  pub builder : Text
  pub pk : Key
  pub key_bytes : Bytes
  pub sig : Bytes
  pub package_valid : validate_text_field att.package_name ≡ ok tt
  pub version_valid : validate_text_field att.version ≡ ok tt
  pub builder_valid : validate_text_field builder ≡ ok tt
  pub fingerprint_valid : validate_lower_hex att.recipe_fingerprint 32 ≡ ok tt
  pub hash_valid : validate_lower_hex att.artifact_hash 32 ≡ ok tt
  pub key_valid : validate_lower_hex att.builder_key 32 ≡ ok tt
  pub decoded : ed.hex_decode att.builder_key ≡ some key_bytes
  pub key : ed.from_bytes key_bytes ≡ some pk
  pub verified :
      ed.verify_strict pk
        (utf8 (
          body att.package_name att.version att.recipe_fingerprint att.artifact_hash builder
            att.builder_key))
        sig
      ≡ true

module _ {Secret Key : Type 0} (ed : Ed25519 Secret Key) where
  decode_hex-eq :
      (n : ℕ) (value : Text)
      → Gives
          (decode_hex ed n value)
          λ bytes. (validate_lower_hex value n ≡ ok tt) × (ed.hex_decode value ≡ some bytes)
  unfolding decode_hex
  decode_hex-eq n value =
      Gives-bind _ _
        λ u e. Gives-bind _ _ λ bytes d. Gives-bind _ _ λ u' l. Gives-ok bytes (e, ou-eq _ _ d)

  parse_verifying_key-eq :
      (value : Text)
      → Gives (parse_verifying_key ed value) λ pk.
        (bytes : Bytes) × (validate_lower_hex value 32 ≡ ok tt)
        × (ed.hex_decode value ≡ some bytes)
        × (ed.from_bytes bytes ≡ some pk)
  unfolding parse_verifying_key
  parse_verifying_key-eq value = Gives-bind _ _ λ bytes e. record {
    holds =
        λ pk h. let (v, d) = (decode_hex-eq 32 value).holds bytes e in (bytes, v, d, ou-eq _ _ h);
  }

  parse_and_verify-Gives : (text : Text) → Gives (parse_and_verify ed text) (IsSigned ed)
  unfolding parse_and_verify
  parse_and_verify-Gives text = Gives-bind _ _ λ f _. Gives-bind _ _ λ format _.
      Gives-bind _ _ λ u1 _. Gives-bind _ _ λ pacote _. Gives-bind _ _ λ version _.
        Gives-bind _ _ λ recipe_fp _. Gives-bind _ _ λ artifact _. Gives-bind _ _ λ builder _.
          Gives-bind _ _ λ builder_key _. Gives-bind _ _ λ sig_hex _. Gives-bind _ _ λ u2 p.
            Gives-bind _ _ λ u3 v. Gives-bind _ _ λ u4 b. Gives-bind _ _ λ u5 r.
              Gives-bind _ _ λ u6 a. Gives-bind _ _ λ u7 _. Gives-bind _ _ λ pk k.
                Gives-bind _ _ λ sig _. Gives-bind _ _ λ u8 s.
                  let (bytes, kv, kd, kf) = (parse_verifying_key-eq builder_key).holds pk k in
                  Gives-ok _ (record {
                    builder = builder;
                    pk = pk;
                    key_bytes = bytes;
                    sig = sig;
                    package_valid = p;
                    version_valid = v;
                    builder_valid = b;
                    fingerprint_valid = r;
                    hash_valid = a;
                    key_valid = kv;
                    decoded = kd;
                    key = kf;
                    verified = crimestop-eq _ _ s;
                  })

  -- An attestation that is accepted holds valid fields, and the key that it names decodes to a key
  -- that has signed exactly these fields, with a valid name of the builder.
  pub parse_and_verify-IsSigned :
      (text : Text) (att : Attestation) → parse_and_verify ed text ≡ ok att → IsSigned ed att
  parse_and_verify-IsSigned text att h = (parse_and_verify-Gives text).holds att h
