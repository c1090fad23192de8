-- ===== src/Tests/Entries.antt =====
-- An ENTRY line of LIVE_COMPONENTS.
use distropica.Plan.Live.Component.Canonical.{IsEntry, entry_pieces, parse_live_component-IsEntry}
use distropica.Plan.Live.Component.{
  ParsedLiveComponent, LiveMaterialStatus, LiveMateriality, parse_live_component, parse_live_status,
  parse_materiality, used, contains_text, validate_live_artifact_kind, validate_live_origin_kind,
  atoms_from, check_materiality,
}
use distropica.Plan.Live.Trial.{◌>>=◌}
use distropica.Plan.Live.{
  is_empty, any_empty, canonical_sha256, require_live_sha256, require_all,
  validate_live_material_license, trim_start, trim_end, has, safe_live_atom,
}
use distropica.Plan.Order.{Materiality}
use distropica.Prelude.{[], ◌∷◌, ℕ, ◌≡◌, refl, some, equal, ◌++◌}
use distropica.Text.Pieces.{texto, split, join, strip_prefix}
use distropica.Text.Utf16.{Text}

abbrev hash : ℕ → Text
hash c = c ∷ texto "0123456789abcdef0123456789abcdef0123456789abcdef0123456789abcde"

abbrev linha_entry : Text
linha_entry =
    texto "ENTRY="
    ++ join b'|' (
        texto "busybox"
        ∷ texto "live-efi"
        ∷ texto "consumed"
        ∷ texto "material"
        ∷ texto "runtime"
        ∷ texto "source"
        ∷ texto "official-tar"
        ∷ texto "busybox-1.36"
        ∷ texto "tar"
        ∷ texto "GPL-2.0-only"
        ∷ hash b'1'
        ∷ hash b'2'
        ∷ hash b'3'
        ∷ hash b'4'
        ∷ hash b'5'
        ∷ texto "zig"
        ∷ hash b'6'
        ∷ [])

abbrev busybox : ParsedLiveComponent
busybox = record {
  raw_line = linha_entry;
  id = texto "busybox";
  variant = texto "live-efi";
  status = LiveMaterialStatus.consumed;
  materiality = LiveMateriality.material;
  role = Materiality.runtime;
  artifact_kind = texto "source";
  origin_kind = texto "official-tar";
  source_id = texto "busybox-1.36";
  provenance = texto "tar";
  license = texto "GPL-2.0-only";
  license_evidence_sha256 = hash b'1';
  input_sha256 = hash b'2';
  payload_sha256 = hash b'3';
  config_sha256 = hash b'4';
  contract_sha256 = hash b'5';
  toolchain_id = texto "zig";
  toolchain_sha256 = hash b'6';
}

busybox_accepted : parse_live_component linha_entry (hash b'5') ≡ some busybox
unfolding parse_live_component parse_live_status parse_materiality used contains_text
    validate_live_artifact_kind validate_live_origin_kind atoms_from check_materiality ◌>>=◌
    is_empty any_empty canonical_sha256 require_live_sha256 require_all
    validate_live_material_license trim_start trim_end has safe_live_atom equal split join
    strip_prefix
busybox_accepted = refl

parse_live_component-IsEntry_example :
    (linha_entry ≡ texto "ENTRY=" ++ join b'|' (entry_pieces busybox))
    × (busybox.raw_line ≡ linha_entry)
    × IsEntry (hash b'5') busybox
parse_live_component-IsEntry_example =
    parse_live_component-IsEntry linha_entry (hash b'5') busybox busybox_accepted
