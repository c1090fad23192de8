-- ===== src/Attest/Issue.antt =====
-- The issue of an attestation and the commands on it: `local_identity`, `load_secret`, `attest`,
-- `corroboration` and `corroborate` of minitrue/src/attest.rs.
use distropica.Attest.Fields.{
  Result, ◌>>=◌, exige, validate_text_field, validate_lower_hex, Mapa, get,
}
use distropica.Attest.{
  Ed25519, ArtifactIdentity, Verdict, divergence, no_artifact, ou, body, linha, trusted_builders,
  corroboration_for,
}
use distropica.Effects.{ok, err}
use distropica.Plan.Live.{is_empty, trim}
use distropica.Prelude.{Option, none, some, List, [], ◌++◌, ◌==◌, if◌then◌else◌, length, Bytes}
use distropica.Text.Pieces.{texto}
use distropica.Recipe.{validate_name}
use distropica.Text.Utf16.{Text}
use distropica.Text.Utf8.{utf8}

-- A field of the record of an installed package, which must not be empty.
abbrev nao_vazio : Option Text → Result Text
nao_vazio none = err 2
nao_vazio (some value) = if is_empty value then err 2 else ok value

unfoldable pub required : Mapa → Text → Result Text
required meta field = nao_vazio (get field meta)

-- `meta` is what `attestable_meta` gives for the package: a map, or its error.
unfoldable pub local_identity : Result Mapa → Text → Result ArtifactIdentity
local_identity attestable_meta pkg = do
  _ ← validate_name pkg
  meta ← attestable_meta
  version ← required meta (texto "VERSION")
  recipe_fp ← required meta (texto "FINGERPRINT")
  artifact ← required meta (texto "ARTIFACT_HASH")
  _ ← validate_text_field version
  _ ← validate_lower_hex recipe_fp 32
  _ ← validate_lower_hex artifact 32
  ok (record { version = version; recipe_fingerprint = recipe_fp; artifact_hash = artifact })

module _ {Secret Key : Type 0} (ed : Ed25519 Secret Key) where
  -- `content` is the file of the secret key, or the error of its reading.
  unfoldable pub load_secret : Result Text → Result Secret
  load_secret content = do
    hexed ← content
    bytes ← ou (ed.hex_decode (trim hexed))
    _ ← exige (length bytes == 32)
    ok (ed.from_seed bytes)

  -- The text that is printed; `now` is `iso_now()`.
  unfoldable pub attest : Result Mapa → Text → Text → Result Text → Text → Result Text
  attest attestable_meta pkg builder secret now = do
    _ ← validate_text_field pkg
    _ ← validate_text_field builder
    identity ← local_identity attestable_meta pkg
    sk ← load_secret secret
    let builder_key = ed.hex_encode (ed.to_bytes (ed.verifying_key sk))
    let b =
        body pkg identity.version identity.recipe_fingerprint identity.artifact_hash builder
          builder_key
    ok (
        b
        ++ linha (texto "BUILT_AT") now
            (linha (texto "SIG") (ed.hex_encode (ed.sign sk (utf8 b))) []))

  unfoldable pub corroboration :
      Result Mapa → Option (List (Text × Bytes)) → Option (List (Text × Bytes)) → Text → Verdict
  corroboration attestable_meta builders attestations pkg =
      elim (local_identity attestable_meta pkg) [
        | err _ ↦ no_artifact
        | ok local ↦ corroboration_for ed attestations pkg local (trusted_builders ed builders)
      ]

  abbrev codigo : Verdict → Result (Unit {0})
  codigo (divergence _) = err 8
  codigo _ = ok tt

  -- The result of the command, without what it prints.
  unfoldable pub corroborate :
      Result Mapa
      → Option (List (Text × Bytes))
      → Option (List (Text × Bytes))
      → Text
      → Result (Unit {0})
  corroborate attestable_meta builders attestations pkg = do
    local ← local_identity attestable_meta pkg
    codigo (corroboration_for ed attestations pkg local (trusted_builders ed builders))
