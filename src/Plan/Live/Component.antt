-- ===== src/Plan/Live/Component.antt =====
-- An ENTRY line of LIVE_COMPONENTS, `parse_live_component` of minitrue/src/plan.rs.
pub mod Canonical
use distropica.Plan.Live.{
  any_empty, canonical_sha256, empty_sha256, recusa_se, require_all, safe_live_atom,
  validate_live_material_license,
}
use distropica.Plan.Order.{Materiality}
use distropica.Plan.Live.Trial.{◌>>=◌}
use distropica.Prelude.{
  ℕ, suc, Bool, true, false, not, ◌&&◌, ◌||◌, Option, none, some, List, [], ◌∷◌, ◌==◌,
  if◌then◌else◌, equal, length, get_or,
}
use distropica.Text.Pieces.{texto, split, strip_prefix}
use distropica.Text.Utf16.{Text}

pub data LiveMaterialStatus : Type 0 where
  consumed produced measured not_consumed : LiveMaterialStatus

pub data LiveMateriality : Type 0 where
  material identity_only : LiveMateriality

pub record ParsedLiveComponent : Type 0 where
  pub raw_line : Text
  pub id : Text
  pub variant : Text
  pub status : LiveMaterialStatus
  pub materiality : LiveMateriality
  pub role : Materiality
  pub artifact_kind : Text
  pub origin_kind : Text
  pub source_id : Text
  pub provenance : Text
  pub license : Text
  pub license_evidence_sha256 : Text
  pub input_sha256 : Text
  pub payload_sha256 : Text
  pub config_sha256 : Text
  pub contract_sha256 : Text
  pub toolchain_id : Text
  pub toolchain_sha256 : Text

unfoldable pub parse_live_status : Text → Option LiveMaterialStatus
parse_live_status value =
    if equal value (texto "consumed")
    then some consumed
    else if equal value (texto "produced")
    then some produced
    else if equal value (texto "measured")
    then some measured
    else if equal value (texto "not-consumed")
    then some not_consumed
    else none

unfoldable pub parse_materiality : Text → Text → Option (LiveMateriality × Materiality)
parse_materiality m r =
    if equal m (texto "material") && equal r (texto "runtime")
    then some (material, Materiality.runtime)
    else if equal m (texto "identity-only") && equal r (texto "identity-only")
    then some (identity_only, Materiality.identity_only)
    else none

unfoldable pub contains_text : List Text → Text → Bool
contains_text [] value = false
contains_text (x ∷ xs) value = equal value x || contains_text xs value

abbrev pub artifact_kinds : List Text
artifact_kinds =
    texto "config"
    ∷ texto "source"
    ∷ texto "payload"
    ∷ texto "provenance"
    ∷ texto "tool"
    ∷ texto "linked-input"
    ∷ texto "overlay"
    ∷ texto "script"
    ∷ []

abbrev pub origin_kinds : List Text
origin_kinds =
    texto "repo"
    ∷ texto "official-tar"
    ∷ texto "built-from-source"
    ∷ texto "built-from-official-source"
    ∷ texto "built-from-crates"
    ∷ texto "provided-static"
    ∷ texto "development-prebuilt"
    ∷ texto "generated"
    ∷ texto "toolchain"
    ∷ texto "builder-rootfs"
    ∷ []

unfoldable pub validate_live_artifact_kind : Text → Option (Unit {0})
validate_live_artifact_kind value = recusa_se (not (contains_text artifact_kinds value))

unfoldable pub validate_live_origin_kind : Text → Option (Unit {0})
validate_live_origin_kind value = recusa_se (not (contains_text origin_kinds value))

-- Every field but the ninth, the license, is an atom.
unfoldable pub atoms_from : ℕ → List Text → Bool
atoms_from index [] = true
atoms_from index (field ∷ fields) =
    (index == 9 || safe_live_atom field) && atoms_from (suc index) fields

unfoldable pub used : LiveMaterialStatus → Bool
used consumed = true
used produced = true
used _ = false

-- The tests that depend on the materiality: source, provenance, license, evidence, input, payload.
unfoldable pub check_materiality :
    LiveMateriality
    → LiveMaterialStatus
    → Text
    → Text
    → Text
    → Text
    → Text
    → Text
    → Option (Unit {0})
check_materiality material status source prov license evidence input payload =
    recusa_se (
      not (used status)
      || equal source (texto "-")
      || equal prov (texto "-")
      || equal input empty_sha256
      || equal payload empty_sha256)
    >>= λ _. validate_live_material_license license evidence
check_materiality identity_only status source prov license evidence input payload =
    recusa_se (not (equal license (texto "-")) || not (equal evidence empty_sha256))

unfoldable pub parse_live_component : Text → Text → Option ParsedLiveComponent
parse_live_component line contract_sha256 = do
  payload ← strip_prefix (texto "ENTRY=") line
  let fields = split b'|' payload
  _ ← recusa_se (not (length fields == 17) || any_empty fields)
  _ ← recusa_se (not (atoms_from 0 fields))
  _ ← recusa_se (not (equal (get_or fields 1 []) (texto "live-efi")))
  status ← parse_live_status (get_or fields 2 [])
  par ← parse_materiality (get_or fields 3 []) (get_or fields 4 [])
  let (materiality, role) = par
  _ ← validate_live_artifact_kind (get_or fields 5 [])
  _ ← validate_live_origin_kind (get_or fields 6 [])
  _ ← require_all (
      get_or fields 10 []
      ∷ get_or fields 11 []
      ∷ get_or fields 12 []
      ∷ get_or fields 13 []
      ∷ get_or fields 14 []
      ∷ get_or fields 16 []
      ∷ [])
  _ ← recusa_se (not (equal (get_or fields 14 []) contract_sha256))
  _ ←
      check_materiality materiality status (get_or fields 7 []) (get_or fields 8 [])
        (get_or fields 9 []) (get_or fields 10 []) (get_or fields 11 []) (get_or fields 12 [])
  some (record {
    raw_line = line;
    id = get_or fields 0 [];
    variant = get_or fields 1 [];
    status = status;
    materiality = materiality;
    role = role;
    artifact_kind = get_or fields 5 [];
    origin_kind = get_or fields 6 [];
    source_id = get_or fields 7 [];
    provenance = get_or fields 8 [];
    license = get_or fields 9 [];
    license_evidence_sha256 = get_or fields 10 [];
    input_sha256 = get_or fields 11 [];
    payload_sha256 = get_or fields 12 [];
    config_sha256 = get_or fields 13 [];
    contract_sha256 = get_or fields 14 [];
    toolchain_id = get_or fields 15 [];
    toolchain_sha256 = get_or fields 16 [];
  })
