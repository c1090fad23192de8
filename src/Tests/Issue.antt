-- ===== src/Tests/Issue.antt =====
-- An attestation that is issued and read back, with the signature scheme of the other tests.
use distropica.Attest.Fields.{
  ◌>>=◌, exige, validate_text_field, validate_lower_hex, get, Mapa, hex_minusculo,
}
use distropica.Attest.Issue.{required, local_identity, load_secret, attest}
use distropica.Attest.Issued.{IsScheme, parse_and_verify-attest}
use distropica.Attest.{parse_and_verify}
use distropica.Effects.{ok}
use distropica.Recipe.{validate_name, dois_pontos}
use distropica.Plan.Codec.{any_control}
use distropica.Plan.Live.{is_empty, trim_start, trim_end}
use distropica.Prelude.{
  ℕ, ◌+◌, zero, suc, ◌*◌, ◌^◌, ◌%◌, ◌/◌, ◌<◌, ◌≡◌, refl, ap, ap₂, ambos, ◌∙◌, true, some, [], ◌∷◌,
  all, length, Bytes, to_le, from_le, length-to_le, from_le-to_le, equal, equal_iff, arith,
}
use distropica.Text.Pieces.{texto}
use distropica.Text.Utf16.{Text}
use distropica.Text.Utf8.{utf8, utf8_of, is_byte}
use distropica.Tests.Trust.{
  codifica, decodifica, assina, esquema, hash, receita, valor, digito, com_byte,
}

valor-digito : (n : ℕ) → n < 16 → valor (digito n) ≡ n
valor-digito n h = ground arith

byte_lido : (b : ℕ) → is_byte b ≡ true → valor (digito (b / 16)) * 16 + valor (digito (b % 16)) ≡ b
byte_lido b h =
    ap₂ (λ x y. x * 16 + y) (valor-digito (b / 16) (ground arith))
      (valor-digito (b % 16) (omega arith))
    ∙ omega arith

codifica-decoded : (bs : Bytes) → all is_byte bs ≡ true → decodifica (codifica bs) ≡ some bs
unfolding codifica decodifica
codifica-decoded [] h = refl
codifica-decoded (b ∷ bs) h =
    let (hb, hbs) = ambos (is_byte b) (all is_byte bs) h in
    ap₂ com_byte (byte_lido b hb) (codifica-decoded bs hbs)

codifica-lower : (bs : Bytes) → all is_byte bs ≡ true → all hex_minusculo (codifica bs) ≡ true
unfolding codifica
codifica-lower [] h = refl
codifica-lower (b ∷ bs) h = ground (arith, codifica-lower bs)

length-codifica : (bs : Bytes) → length (codifica bs) ≡ length bs * 2
unfolding codifica
length-codifica [] = refl
length-codifica (b ∷ bs) = omega (arith, length-codifica bs)

to_le_bytes : (w n : ℕ) → all is_byte (to_le w n) ≡ true
unfolding to_le
to_le_bytes zero n = refl
to_le_bytes (suc w) n = ground (arith, to_le_bytes w (n / 256))

assina_bytes : (k : ℕ) (msg : Bytes) → all is_byte (assina k msg) ≡ true
unfolding assina
assina_bytes k [] = to_le_bytes 64 (k + 1)
assina_bytes k (b ∷ msg) = assina_bytes ((k * 3 + b) % 65536) msg

length-assina : (k : ℕ) (msg : Bytes) → length (assina k msg) ≡ 64
unfolding assina
length-assina k [] = length-to_le 64 (k + 1)
length-assina k (b ∷ msg) = length-assina ((k * 3 + b) % 65536) msg

esquema-IsScheme : IsScheme esquema
unfolding esquema
esquema-IsScheme = record {
  decoded = codifica-decoded;
  lower = codifica-lower;
  length_lem = length-codifica;
  key_bytes = λ pk. to_le_bytes 32 pk;
  key_length = λ pk. length-to_le 32 pk;
  key = λ sk. ap some (from_le-to_le 32 (sk % 256) (cabe (sk % 256) (omega arith)));
  sig_bytes = λ sk msg. assina_bytes (sk % 256) msg;
  sig_length = λ sk msg. length-assina (sk % 256) msg;
  verified = λ sk msg. (equal_iff (assina (sk % 256) msg) (assina (sk % 256) msg)).1 refl;
}
  where
    cabe : (n : ℕ) → n < 256 → n < 256 ^ 32
    cabe n h = omega arith

abbrev registro : Mapa
registro =
    (texto "VERSION", texto "1.3.1")
    ∷ (texto "FINGERPRINT", receita)
    ∷ (texto "ARTIFACT_HASH", hash)
    ∷ []

abbrev segredo : Text
segredo = texto "0700000000000000000000000000000000000000000000000000000000000000"

parse_and_verify-attest_example :
    (text : Text) × (attest esquema
        (ok registro)
        (texto "zlib")
        (texto "winston")
        (ok segredo)
        (texto "2026-01-01T00:00:00Z")
      ≡ ok text)
    × (parse_and_verify esquema text
        ≡ ok (record {
          package_name = texto "zlib";
          version = texto "1.3.1";
          recipe_fingerprint = receita;
          artifact_hash = hash;
          builder_key = esquema.hex_encode (esquema.to_bytes (esquema.verifying_key 7));
        }))
unfolding esquema validate_text_field validate_lower_hex exige any_control is_empty trim_start
    trim_end equal local_identity validate_name dois_pontos required get ◌>>=◌ load_secret
    decodifica from_le utf8 utf8_of
parse_and_verify-attest_example =
    parse_and_verify-attest esquema esquema-IsScheme (ok registro) (texto "zlib") (texto "winston")
      (texto "2026-01-01T00:00:00Z") (ok segredo)
      (record { version = texto "1.3.1"; recipe_fingerprint = receita; artifact_hash = hash }) 7
      refl refl refl refl refl
