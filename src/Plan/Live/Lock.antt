-- ===== src/Plan/Live/Lock.antt =====
-- `parse_live_lock` of minitrue/src/plan.rs, and the document that a parsed LIVE_LOCK stands for.
pub mod Canonical
use distropica.Plan.Live.Reader.{
  Leitor, ◌>>=◌, ◌>>◌, pure, valida, corre, bail_if, live_value, linha, qualquer_linha, fim,
}
use distropica.Plan.Live.Payload.{Payload, ler_payload, boot_efi_fields}
use distropica.Plan.Live.{
  canonical_live_lines, canonical_live_decimal, require_all, require_live_sha256,
  validate_live_material_license, any_empty, empty_sha256,
}
use distropica.Prelude.{
  ℕ, Bool, true, false, not, ◌&&◌, ◌||◌, Option, none, some, List, [], ◌∷◌, ◌++◌, equal, Bytes,
}
use distropica.Text.Pieces.{texto}
use distropica.Text.Utf16.{Text}

pub record ParsedLiveLock : Type 0 where
  pub mode : Text
  pub release_eligible : Text
  pub boot_efi_sha256 : Text
  pub components_sha256 : Text
  pub runner_proof_sha256 : Text
  pub embed_proof_sha256 : Text
  pub entries_sha256 : Text
  pub build_contract_sha256 : Text
  pub epoch : Text
  pub initramfs_blob_sha256 : Text
  pub initramfs_cpio_sha256 : Text
  pub embedded_components_sha256 : Text
  pub helper_binary_sha256 : Text
  pub source_snapshot_sha256 : Text
  pub builder_lock_sha256 : Text
  pub builder_rootfs_tree_sha256 : Text
  pub payload_provenance : Text
  pub payload_license : Text
  pub payload_license_evidence_sha256 : Text
  pub payload_sha256 : Text

abbrev pub live_payload_schema : Text
live_payload_schema =
    texto
      "PAYLOAD_SCHEMA=id|variant|materiality|role|artifact_kind|origin_kind|source_id|provenance|license|license_evidence_sha256|payload_sha256"

unfoldable pub equal_all : List Text → List Text → Bool
equal_all [] [] = true
equal_all (x ∷ xs) (y ∷ ys) = equal x y && equal_all xs ys
equal_all _ _ = false

abbrev pub coerente : Text → Text → Bool
coerente mode flag =
    (equal mode (texto "release") && equal flag (texto "yes"))
    || (equal mode (texto "development") && equal flag (texto "no"))

abbrev e_entao : Option (List Text) → (List Text → Option ParsedLiveLock) → Option ParsedLiveLock
e_entao none f = none
e_entao (some ls) f = f ls

-- The lines of LIVE_LOCK in their order, with the tests where the code has them.
unfoldable pub ler_lock : Leitor ParsedLiveLock
ler_lock = do
  linha (texto "LIVE_LOCK_FORMAT=1")
  variant ← live_value (texto "VARIANT")
  bail_if (not (equal variant (texto "live-efi")))
  mode ← live_value (texto "BUILD_MODE")
  release_eligible ← live_value (texto "RELEASE_ELIGIBLE")
  authority ← live_value (texto "AUTHORITY_KIND")
  bail_if (not (equal authority (texto "live-lock")))
  boot_efi ← live_value (texto "BOOT_EFI_SHA256")
  components ← live_value (texto "COMPONENTS_SHA256")
  runner_proof ← live_value (texto "RUNNER_PROOF_SHA256")
  embed_proof ← live_value (texto "EMBED_PROOF_SHA256")
  entries ← live_value (texto "ENTRIES_SHA256")
  build_contract ← live_value (texto "BUILD_CONTRACT_SHA256")
  epoch ← live_value (texto "SOURCE_DATE_EPOCH")
  blob ← live_value (texto "INITRAMFS_BLOB_SHA256")
  cpio ← live_value (texto "INITRAMFS_CPIO_SHA256")
  embedded ← live_value (texto "EMBEDDED_COMPONENTS_SHA256")
  helper ← live_value (texto "LIVE_LOCK_HELPER_BINARY_SHA256")
  snapshot ← live_value (texto "SOURCE_SNAPSHOT_SHA256")
  builder_lock ← live_value (texto "BUILDER_LOCK_SHA256")
  rootfs ← live_value (texto "BUILDER_ROOTFS_TREE_SHA256")
  linha live_payload_schema
  payload_line ← qualquer_linha
  fim
  _ ← valida (canonical_live_decimal epoch)
  bail_if (not (coerente mode release_eligible))
  _ ← valida (
      require_all (
        boot_efi ∷ components ∷ runner_proof ∷ embed_proof ∷ entries ∷ build_contract ∷ blob ∷ cpio
        ∷ embedded ∷ helper ∷ snapshot ∷ builder_lock ∷ rootfs ∷ []))
  bail_if (not (equal blob cpio))
  fields ← valida (ler_payload payload_line)
  bail_if (not (equal_all fields.fixos boot_efi_fields))
  bail_if (not (equal fields.provenance (texto "embed-proof:" ++ embed_proof)))
  _ ← valida (validate_live_material_license fields.license fields.evidence)
  _ ← valida (require_live_sha256 fields.sha256)
  bail_if (not (equal fields.sha256 boot_efi) || equal fields.sha256 empty_sha256)
  pure (record {
    mode = mode;
    release_eligible = release_eligible;
    boot_efi_sha256 = boot_efi;
    components_sha256 = components;
    runner_proof_sha256 = runner_proof;
    embed_proof_sha256 = embed_proof;
    entries_sha256 = entries;
    build_contract_sha256 = build_contract;
    epoch = epoch;
    initramfs_blob_sha256 = blob;
    initramfs_cpio_sha256 = cpio;
    embedded_components_sha256 = embedded;
    helper_binary_sha256 = helper;
    source_snapshot_sha256 = snapshot;
    builder_lock_sha256 = builder_lock;
    builder_rootfs_tree_sha256 = rootfs;
    payload_provenance = fields.provenance;
    payload_license = fields.license;
    payload_license_evidence_sha256 = fields.evidence;
    payload_sha256 = fields.sha256;
  })

unfoldable pub parse_live_lock : Bytes → Option ParsedLiveLock
parse_live_lock bytes = e_entao (canonical_live_lines bytes) (corre ler_lock)
