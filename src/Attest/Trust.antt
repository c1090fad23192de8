-- ===== src/Attest/Trust.antt =====
-- What a corroborated verdict rests on, `corroboration_for` of minitrue/src/attest.rs.
use distropica.Attest.Fields.{Mapa, get}
use distropica.Attest.Signed.{IsSigned}
use distropica.Attest.{Ed25519, Attestation, ArtifactIdentity}
use distropica.Prelude.{◌≡◌, some, Bytes}
use distropica.Text.Utf16.{Text}
use distropica.Text.Utf8.{from_utf8}

module _ {Secret Key : Type 0} (ed : Ed25519 Secret Key) (pkg : Text)
    (identidade : ArtifactIdentity) (trusted : Mapa) where
  -- A file that counts for a builder: a signed attestation of this very package, version and
  -- recipe, by a key that is pinned under the builder's name.
  pub record IsVote (bytes : Bytes) (n h : Text) : Type 0 where
    pub text : Text
    pub att : Attestation
    pub utf8 : from_utf8 bytes ≡ some text
    pub signed : IsSigned ed att
    pub package_name : att.package_name ≡ pkg
    pub version : att.version ≡ identidade.version
    pub fingerprint : att.recipe_fingerprint ≡ identidade.recipe_fingerprint
    pub pinned : get att.builder_key trusted ≡ some n
    pub hash : att.artifact_hash ≡ h
