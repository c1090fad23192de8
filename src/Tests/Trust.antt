-- ===== src/Tests/Trust.antt =====
-- Two builders that sign the same artifact, with a small signature scheme in place of ed25519.
use distropica.Attest.Body.{body-inj}
use distropica.Attest.Fields.{
  Mapa, ◌>>=◌, exige, validate_text_field, validate_lower_hex, split_once, lines, linhas_de, sem_cr,
  get, campos, need,
}
use distropica.Attest.Signed.{IsSigned, parse_and_verify-IsSigned}
use distropica.Attest.Verdicts.{IsVerdict, votos_de, corroboration_for-IsVerdict}
use distropica.Attest.{
  Ed25519, Attestation, ArtifactIdentity, body, linha, decode_hex, parse_verifying_key,
  parse_and_verify, corroboration_for,
}
use distropica.Effects.{ok}
use distropica.Plan.Codec.{any_control}
use distropica.Plan.Live.{is_empty, trim_start, trim_end}
use distropica.Plan.Order.Names.{contains}
use distropica.Prelude.{
  ℕ, ◌+◌, ◌*◌, ◌/◌, ◌%◌, ◌≡◌, refl, Option, none, some, List, [], ◌∷◌, ◌++◌, ltb, if◌then◌else◌,
  equal, Bytes, to_le, from_le, ◌-◌,
}
use distropica.Text.Pieces.{texto, split}
use distropica.Text.Utf16.{Text}
use distropica.Text.Utf8.{utf8, utf8_of}

abbrev pub digito : ℕ → ℕ
digito n = if ltb n 10 then b'0' + n else b'a' + (n - 10)

unfoldable pub codifica : Bytes → Text
codifica [] = []
codifica (b ∷ bs) = digito (b / 16) ∷ digito (b % 16) ∷ codifica bs

abbrev pub valor : ℕ → ℕ
valor c = if ltb c b'a' then c - b'0' else c - b'a' + 10

abbrev pub com_byte : ℕ → Option Bytes → Option Bytes
com_byte b none = none
com_byte b (some bs) = some (b ∷ bs)

unfoldable pub decodifica : Text → Option Bytes
decodifica [] = some []
decodifica (_ ∷ []) = none
decodifica (c ∷ d ∷ cs) = com_byte (valor c * 16 + valor d) (decodifica cs)

unfoldable pub assina : ℕ → Bytes → Bytes
assina k [] = to_le 64 (k + 1)
assina k (b ∷ bs) = assina ((k * 3 + b) % 65536) bs

unfoldable pub esquema : Ed25519 ℕ ℕ
esquema = record {
  hex_encode = codifica;
  hex_decode = decodifica;
  from_seed = from_le;
  verifying_key = λ s. s % 256;
  to_bytes = to_le 32;
  from_bytes = λ bs. some (from_le bs);
  sign = λ s msg. assina (s % 256) msg;
  verify_strict = λ k msg sig. equal sig (assina k msg);
  to_lowercase = λ t. t;
}

abbrev pub hash : Text
hash = texto "de4710b70e7acc1267cf106b285f80e4a384ce6923fb4ed2b3bf4181bb29946e"

abbrev pub receita : Text
receita = texto "1111111111111111111111111111111111111111111111111111111111111111"

unfoldable chave : ℕ → Text
chave k = codifica (to_le 32 k)

unfoldable arquivo : Text → ℕ → Text
arquivo builder k =
    body (texto "zlib") (texto "1.3.1") receita hash builder (chave k)
    ++ linha (texto "SIG")
        (codifica
          (assina k (utf8 (body (texto "zlib") (texto "1.3.1") receita hash builder (chave k)))))
        []

abbrev local_zlib : ArtifactIdentity
local_zlib = record { version = texto "1.3.1"; recipe_fingerprint = receita; artifact_hash = hash }

unfoldable confiados : Mapa
confiados = (chave 7, texto "winston") ∷ (chave 9, texto "julia") ∷ []

unfoldable diretorio : List (Text × Bytes)
diretorio =
    (texto "a", utf8 (arquivo (texto "winston") 7))
    ∷ (texto "b", utf8 (arquivo (texto "julia") 9))
    ∷ []

corroboration_for-IsVerdict_example :
    IsVerdict hash
      (votos_de esquema (texto "zlib") local_zlib confiados (some diretorio))
      (corroboration_for esquema (some diretorio) (texto "zlib") local_zlib confiados)
corroboration_for-IsVerdict_example =
    corroboration_for-IsVerdict esquema (texto "zlib") local_zlib confiados (some diretorio)

abbrev atestado : Attestation
atestado = record {
  package_name = texto "zlib";
  version = texto "1.3.1";
  recipe_fingerprint = receita;
  artifact_hash = hash;
  builder_key = texto "0700000000000000000000000000000000000000000000000000000000000000";
}

parse_and_verify_test : parse_and_verify esquema (arquivo (texto "winston") 7) ≡ ok atestado
unfolding esquema utf8 arquivo body utf8_of chave codifica to_le assina parse_and_verify ◌>>=◌
    campos exige get lines linhas_de need sem_cr split_once validate_lower_hex validate_text_field
    decode_hex parse_verifying_key any_control is_empty trim_end trim_start contains equal from_le
    decodifica split
parse_and_verify_test = refl

parse_and_verify-IsSigned_example : IsSigned esquema atestado
parse_and_verify-IsSigned_example =
    parse_and_verify-IsSigned esquema (arquivo (texto "winston") 7) atestado parse_and_verify_test

assinado : IsSigned esquema atestado
assinado =
    parse_and_verify-IsSigned esquema (arquivo (texto "winston") 7) atestado parse_and_verify_test

body-inj_example : (atestado ≡ atestado) × (assinado.builder ≡ assinado.builder)
body-inj_example = body-inj esquema atestado atestado assinado assinado refl
