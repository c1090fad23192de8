-- ===== src/Plan/Live/Lock/Canonical.antt =====
-- What `parse_live_lock` of minitrue/src/plan.rs accepts: the one document of the parsed record.
use distropica.Plan.Live.Lines.{unlines, unlines-canonical_live_lines}
use distropica.Plan.Live.Lock.{
  ParsedLiveLock, ler_lock, parse_live_lock, live_payload_schema, coerente, equal_all, e_entao,
}
use distropica.Plan.Live.Payload.{Payload, ler_payload, ler_payload_lem, boot_efi_fields}
use distropica.Plan.Live.Reader.{
  corre, campo, Accepts, Accepts-pure, corre-Accepts, Accepts-valor, Accepts-linha,
  Accepts-qualquer, Accepts-fim, Accepts-valida, Accepts-bail,
}
use distropica.Plan.Live.{
  canonical_live_lines, canonical_sha256, require_all, require_live_sha256, empty_sha256,
}
use distropica.Prelude.{
  ◌≡◌, refl, sym, ◌∙◌, ap, true, false, not, Option, none, some, List, [], ◌∷◌, ◌++◌, equal,
  equal_iff, all, Bytes, arith,
}
use distropica.Text.Pieces.{texto, join}
use distropica.Text.Utf16.{Text}

-- The document of a record: every line of it is fixed or a field.
unfoldable pub lock_lines : ParsedLiveLock → List Text
lock_lines p =
    texto "LIVE_LOCK_FORMAT=1"
    ∷ texto "VARIANT=live-efi"
    ∷ campo (texto "BUILD_MODE") p.mode
    ∷ campo (texto "RELEASE_ELIGIBLE") p.release_eligible
    ∷ texto "AUTHORITY_KIND=live-lock"
    ∷ campo (texto "BOOT_EFI_SHA256") p.boot_efi_sha256
    ∷ campo (texto "COMPONENTS_SHA256") p.components_sha256
    ∷ campo (texto "RUNNER_PROOF_SHA256") p.runner_proof_sha256
    ∷ campo (texto "EMBED_PROOF_SHA256") p.embed_proof_sha256
    ∷ campo (texto "ENTRIES_SHA256") p.entries_sha256
    ∷ campo (texto "BUILD_CONTRACT_SHA256") p.build_contract_sha256
    ∷ campo (texto "SOURCE_DATE_EPOCH") p.epoch
    ∷ campo (texto "INITRAMFS_BLOB_SHA256") p.initramfs_blob_sha256
    ∷ campo (texto "INITRAMFS_CPIO_SHA256") p.initramfs_cpio_sha256
    ∷ campo (texto "EMBEDDED_COMPONENTS_SHA256") p.embedded_components_sha256
    ∷ campo (texto "LIVE_LOCK_HELPER_BINARY_SHA256") p.helper_binary_sha256
    ∷ campo (texto "SOURCE_SNAPSHOT_SHA256") p.source_snapshot_sha256
    ∷ campo (texto "BUILDER_LOCK_SHA256") p.builder_lock_sha256
    ∷ campo (texto "BUILDER_ROOTFS_TREE_SHA256") p.builder_rootfs_tree_sha256
    ∷ live_payload_schema
    ∷ (texto "PAYLOAD="
        ++ join b'|' (
            boot_efi_fields
            ++ p.payload_provenance ∷ p.payload_license ∷ p.payload_license_evidence_sha256
              ∷ p.payload_sha256 ∷ []))
    ∷ []

unfoldable pub lock_hashes : ParsedLiveLock → List Text
lock_hashes p =
    p.boot_efi_sha256 ∷ p.components_sha256 ∷ p.runner_proof_sha256 ∷ p.embed_proof_sha256
    ∷ p.entries_sha256 ∷ p.build_contract_sha256 ∷ p.initramfs_blob_sha256 ∷ p.initramfs_cpio_sha256
    ∷ p.embedded_components_sha256 ∷ p.helper_binary_sha256 ∷ p.source_snapshot_sha256
    ∷ p.builder_lock_sha256 ∷ p.builder_rootfs_tree_sha256 ∷ []

-- What the fields of an accepted document say of each other.
pub record IsCoherent (p : ParsedLiveLock) : Type 0 where
  pub mode_lem : coerente p.mode p.release_eligible ≡ true
  pub blob_lem : p.initramfs_blob_sha256 ≡ p.initramfs_cpio_sha256
  pub provenance_lem : p.payload_provenance ≡ texto "embed-proof:" ++ p.embed_proof_sha256
  pub payload_lem : p.payload_sha256 ≡ p.boot_efi_sha256
  pub hashes_lem : all canonical_sha256 (lock_hashes p) ≡ true
  pub empty_lem : equal p.payload_sha256 empty_sha256 ≡ false

equal_all_lem : (xs ys : List Text) → equal_all xs ys ≡ true → xs ≡ ys
unfolding equal_all
equal_all_lem [] [] h = refl
equal_all_lem [] (y ∷ ys) h = cc
equal_all_lem (x ∷ xs) [] h = cc
equal_all_lem (x ∷ xs) (y ∷ ys) h = ground (arith, equal_iff x y, equal_all_lem xs ys)

equal_of_not : (x y : Text) → not (equal x y) ≡ false → x ≡ y
equal_of_not x y h = ground (arith, equal_iff x y)

require_all_lem :
    (hs : List Text) (u : Unit {0}) → require_all hs ≡ some u → all canonical_sha256 hs ≡ true
unfolding require_all require_live_sha256
require_all_lem [] u h = refl
require_all_lem (h ∷ hs) u q = ground (arith, require_all_lem hs u)

payload_line_lem :
    (line : Text) (fields : Payload)
    → ler_payload line ≡ some fields
    → not (equal_all fields.fixos boot_efi_fields) ≡ false
    → line
      ≡ texto "PAYLOAD="
        ++ join b'|' (
            boot_efi_fields
            ++ fields.provenance ∷ fields.license ∷ fields.evidence ∷ fields.sha256 ∷ [])
payload_line_lem line fields f h =
    ler_payload_lem line fields f
    ∙ ap
        (λ xs.
          texto "PAYLOAD="
          ++ join b'|'
              (xs ++ fields.provenance ∷ fields.license ∷ fields.evidence ∷ fields.sha256 ∷ []))
        (equal_all_lem fields.fixos boot_efi_fields (ground arith))

ler_lock-Accepts : Accepts ler_lock (λ p ls. (ls ≡ lock_lines p) × IsCoherent p)
unfolding ler_lock lock_lines lock_hashes
ler_lock-Accepts = Accepts-linha _ (
    Accepts-valor _ λ variant _. Accepts-bail λ v. Accepts-valor _ λ mode _.
      Accepts-valor _ λ eligible _. Accepts-valor _ λ authority _. Accepts-bail λ a.
        Accepts-valor _ λ boot _. Accepts-valor _ λ components _. Accepts-valor _ λ runner _.
          Accepts-valor _ λ embed _. Accepts-valor _ λ entries _. Accepts-valor _ λ contract _.
            Accepts-valor _ λ epoch _. Accepts-valor _ λ blob _. Accepts-valor _ λ cpio _.
              Accepts-valor _ λ embedded _. Accepts-valor _ λ helper _.
                Accepts-valor _ λ snapshot _. Accepts-valor _ λ builder _.
                  Accepts-valor _ λ rootfs _. Accepts-linha _ (
                    Accepts-qualquer λ line. Accepts-fim (
                      Accepts-valida λ _ _. Accepts-bail λ m. Accepts-valida λ u hs.
                        Accepts-bail λ b. Accepts-valida λ fields f. Accepts-bail λ fixos.
                          Accepts-bail λ pr. Accepts-valida λ _ _. Accepts-valida λ _ _.
                            Accepts-bail λ s. Accepts-pure _ λ ls e. (
                              rw (
                                equal_of_not variant _ v,
                                equal_of_not authority _ a,
                                e,
                                payload_line_lem line fields f fixos,
                              ),
                              record {
                                mode_lem = ground arith;
                                blob_lem = equal_of_not blob cpio b;
                                provenance_lem = equal_of_not _ _ pr;
                                payload_lem = ground (arith, equal_iff fields.sha256 boot);
                                hashes_lem = require_all_lem _ u hs;
                                empty_lem = ground arith;
                              },
                            ))))

-- If `parse_live_lock` accepts bytes as a record, then the bytes are exactly the document of that
-- record, every line of it fixed or a field; its thirteen hashes are canonical, the mode fits the
-- eligibility, both initramfs hashes agree, the provenance names the embed proof, and the payload's
-- hash is that of the boot EFI and not the empty one.
pub parse_live_lock-unlines :
    (bytes : Bytes) (p : ParsedLiveLock)
    → parse_live_lock bytes ≡ some p
    → (bytes ≡ unlines (lock_lines p)) × IsCoherent p
unfolding parse_live_lock
parse_live_lock-unlines bytes p h = of_lines (canonical_live_lines bytes) refl h
  where
    of_lines :
        (o : Option (List Text))
        → canonical_live_lines bytes ≡ o
        → e_entao o (corre ler_lock) ≡ some p
        → (bytes ≡ unlines (lock_lines p)) × IsCoherent p
    of_lines none e q = cc
    of_lines (some ls) e q =
        let (l, c) = corre-Accepts ler_lock-Accepts ls p q in
        (sym (unlines-canonical_live_lines bytes ls e) ∙ ap unlines l, c)
