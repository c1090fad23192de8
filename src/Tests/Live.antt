-- ===== src/Tests/Live.antt =====
-- The documents of the live system, on a LIVE_LOCK and a LIVE_RUNNER_PROOF.
use distropica.Plan.Live.Lines.{unlines}
use distropica.Plan.Live.Lock.Canonical.{IsCoherent, lock_lines, parse_live_lock-unlines}
use distropica.Plan.Live.Lock.{ParsedLiveLock, parse_live_lock, ler_lock, equal_all}
use distropica.Plan.Live.Payload.{payload_fields, ler_payload}
use distropica.Plan.Live.Runner.Canonical.{
  IsPinned, runner_lines, pin_lines, parse_live_runner_proof-unlines,
}
use distropica.Plan.Live.Runner.{
  ParsedLiveRunnerProof, parse_live_runner_proof, ler_runner_proof, live_values, helper_of,
  pin_keys, pin_values, caminho_aceito, require_pins,
}
use distropica.Plan.Live.Reader.{◌>>=◌, pure, valida, corre, live_value, linha, qualquer_linha, fim}
use distropica.Plan.Live.{
  canonical_live_lines, is_empty, any_empty, ends_with_lf, byte_alheio, canonical_live_decimal,
  canonical_sha256, require_live_sha256, require_all, safe_live_atom, canonical_live_absolute_path,
  all_pieces, has_double_slash, ends_with_slash, starts_with_slash, validate_live_material_license,
  trim_start, trim_end, has,
}
use distropica.Prelude.{List, [], ◌∷◌, ℕ, ◌≡◌, refl, some, true, Bytes, equal, ◌++◌}
use distropica.Text.Pieces.{
  texto, split, join, strip_prefix, digitos, to_string, ler_digitos, parse_u64,
}
use distropica.Text.Utf16.{Text}
use distropica.Text.Utf8.{from_utf8, ler_utf8, passo}

abbrev hash : ℕ → Text
hash c = c ∷ texto "0123456789abcdef0123456789abcdef0123456789abcdef0123456789abcde"

abbrev lock : ParsedLiveLock
lock = record {
  mode = texto "release";
  release_eligible = texto "yes";
  boot_efi_sha256 = hash b'1';
  components_sha256 = hash b'2';
  runner_proof_sha256 = hash b'3';
  embed_proof_sha256 = hash b'4';
  entries_sha256 = hash b'5';
  build_contract_sha256 = hash b'6';
  epoch = texto "1700000000";
  initramfs_blob_sha256 = hash b'7';
  initramfs_cpio_sha256 = hash b'7';
  embedded_components_sha256 = hash b'8';
  helper_binary_sha256 = hash b'9';
  source_snapshot_sha256 = hash b'a';
  builder_lock_sha256 = hash b'b';
  builder_rootfs_tree_sha256 = hash b'c';
  payload_provenance = texto "embed-proof:" ++ hash b'4';
  payload_license = texto "GPL-2.0-only";
  payload_license_evidence_sha256 = hash b'd';
  payload_sha256 = hash b'1';
}

abbrev documento : Bytes
documento = unlines (lock_lines lock)

documento_accepted : parse_live_lock documento ≡ some lock
unfolding parse_live_lock ler_lock lock_lines unlines canonical_live_lines is_empty any_empty
    ends_with_lf byte_alheio canonical_live_decimal canonical_sha256 require_live_sha256 require_all
    validate_live_material_license trim_start trim_end has payload_fields ler_payload ◌>>=◌ pure
    valida corre live_value linha qualquer_linha fim equal_all equal split join strip_prefix digitos
    to_string ler_digitos parse_u64 from_utf8 ler_utf8 passo
documento_accepted = refl

parse_live_lock-unlines_example : (documento ≡ unlines (lock_lines lock)) × IsCoherent lock
parse_live_lock-unlines_example = parse_live_lock-unlines documento lock documento_accepted

abbrev pins_de : List Text → List (Text × Text)
pins_de [] = []
pins_de (k ∷ ks) = (k, hash b'e') ∷ pins_de ks

abbrev runner : ParsedLiveRunnerProof
runner = record {
  mode = texto "release";
  authenticated = texto "yes";
  runner_id = texto "runner-1";
  runner_path = texto "/usr/bin/runner";
  runner_sha256 = hash b'1';
  builder_id = texto "builder-1";
  builder_lock_sha256 = hash b'2';
  builder_rootfs_tree_sha256 = hash b'3';
  source_snapshot_sha256 = hash b'4';
  helper_binary_sha256 = hash b'e';
  epoch = texto "1700000000";
}

abbrev prova : Bytes
prova = unlines (runner_lines runner (pins_de pin_keys))

prova_accepted : parse_live_runner_proof prova ≡ some runner
unfolding unlines canonical_live_lines is_empty any_empty ends_with_lf byte_alheio
    canonical_live_decimal canonical_sha256 require_live_sha256 ◌>>=◌ pure valida corre live_value
    linha fim equal split join digitos to_string ler_digitos parse_u64 from_utf8 ler_utf8 passo
    strip_prefix parse_live_runner_proof ler_runner_proof runner_lines pin_lines live_values
    helper_of pin_values caminho_aceito require_pins safe_live_atom canonical_live_absolute_path
    all_pieces has_double_slash ends_with_slash starts_with_slash
prova_accepted = refl

parse_live_runner_proof-unlines_example :
    (pins : List (Text × Text)) × (prova ≡ unlines (runner_lines runner pins))
    × IsPinned runner pins
parse_live_runner_proof-unlines_example =
    parse_live_runner_proof-unlines prova runner prova_accepted

-- A component "." passes the test for a canonical path.
dot_accepted : canonical_live_absolute_path (texto "/usr/./bin") ≡ true
unfolding canonical_live_absolute_path all_pieces has_double_slash ends_with_slash starts_with_slash
    split equal
dot_accepted = refl
