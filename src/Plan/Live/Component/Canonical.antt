-- ===== src/Plan/Live/Component/Canonical.antt =====
-- What `parse_live_component` of minitrue/src/plan.rs accepts.
use distropica.Plan.Live.Component.{
  LiveMaterialStatus, LiveMateriality, ParsedLiveComponent, parse_live_status, parse_materiality,
  used, check_materiality, parse_live_component, consumed, produced, measured, not_consumed,
  material, identity_only,
}
use distropica.Plan.Live.{empty_sha256, recusa_se}
use distropica.Plan.Order.{Materiality}
use distropica.Plan.Live.Trial.{◌>>=◌, Gives, Gives-some, Gives-then}
use distropica.Prelude.{
  ℕ, zero, suc, ◌+◌, ◌≡◌, refl, sym, ◌∙◌, ap, Bool, true, false, not, ◌||◌, some, List, [], ◌∷◌,
  ◌++◌, ◌==◌, equal, equal_iff, length, drop, get_or, drop-get_or, drop_all, arith,
}
use distropica.Text.Pieces.{texto, split, strip_prefix_lem, join, join-split}
use distropica.Text.Utf16.{Text}

-- The `k` fields from the index `i` on.
fields_from : ℕ → ℕ → List Text → List Text
fields_from zero i fs = []
fields_from (suc k) i fs = get_or fs i [] ∷ fields_from k (suc i) fs

drop-fields_from : (k i : ℕ) (fs : List Text) → length fs ≡ i + k → drop i fs ≡ fields_from k i fs
unfolding fields_from
drop-fields_from zero i fs h = drop_all i fs (omega arith)
drop-fields_from (suc k) i fs h =
    drop-get_or i fs [] (omega arith)
    ∙ ap (◌∷◌ (get_or fs i [])) (drop-fields_from k (suc i) fs (omega arith))

unfoldable pub status_name : LiveMaterialStatus → Text
status_name consumed = texto "consumed"
status_name produced = texto "produced"
status_name measured = texto "measured"
status_name not_consumed = texto "not-consumed"

unfoldable pub materiality_name : LiveMateriality → Text
materiality_name material = texto "material"
materiality_name identity_only = texto "identity-only"

unfoldable pub role_of : LiveMateriality → Materiality
role_of material = Materiality.runtime
role_of identity_only = Materiality.identity_only

unfoldable pub role_name : LiveMateriality → Text
role_name material = texto "runtime"
role_name identity_only = texto "identity-only"

parse_live_status_lem :
    (v : Text) (s : LiveMaterialStatus) → parse_live_status v ≡ some s → v ≡ status_name s
unfolding parse_live_status status_name
parse_live_status_lem v s h = ground (
  arith,
  equal_iff v (texto "consumed"),
  equal_iff v (texto "produced"),
  equal_iff v (texto "measured"),
  equal_iff v (texto "not-consumed"),
)

parse_materiality_lem :
    (v w : Text) (m : LiveMateriality) (r : Materiality)
    → parse_materiality v w ≡ some (m, r)
    → (v ≡ materiality_name m) × (w ≡ role_name m) × (r ≡ role_of m)
unfolding parse_materiality materiality_name role_name role_of
parse_materiality_lem v w m r h = ground (
  arith,
  equal_iff v (texto "material"),
  equal_iff w (texto "runtime"),
  equal_iff v (texto "identity-only"),
  equal_iff w (texto "identity-only"),
)

-- The seventeen pieces of the line of an entry.
unfoldable pub entry_pieces : ParsedLiveComponent → List Text
entry_pieces e =
    e.id
    ∷ e.variant
    ∷ status_name e.status
    ∷ materiality_name e.materiality
    ∷ role_name e.materiality
    ∷ e.artifact_kind
    ∷ e.origin_kind
    ∷ e.source_id
    ∷ e.provenance
    ∷ e.license
    ∷ e.license_evidence_sha256
    ∷ e.input_sha256
    ∷ e.payload_sha256
    ∷ e.config_sha256
    ∷ e.contract_sha256
    ∷ e.toolchain_id
    ∷ e.toolchain_sha256
    ∷ []

-- What the fields of an accepted entry say of each other and of the contract.
pub record IsEntry (contract : Text) (e : ParsedLiveComponent) : Type 0 where
  pub contract_lem : e.contract_sha256 ≡ contract
  pub variant_lem : e.variant ≡ texto "live-efi"
  pub role_lem : e.role ≡ role_of e.materiality
  pub material_lem :
      e.materiality ≡ material
      → (used e.status ≡ true)
        × (equal e.input_sha256 empty_sha256 ≡ false)
        × (equal e.payload_sha256 empty_sha256 ≡ false)
  pub identity_lem :
      e.materiality ≡ identity_only
      → (e.license ≡ texto "-") × (e.license_evidence_sha256 ≡ empty_sha256)

check_materiality-material :
    (m : LiveMateriality) (s : LiveMaterialStatus) (so pr li ev i p : Text) (u : Unit {0})
    → check_materiality m s so pr li ev i p ≡ some u
    → m ≡ material
    → (used s ≡ true) × (equal i empty_sha256 ≡ false) × (equal p empty_sha256 ≡ false)
unfolding check_materiality ◌>>=◌
check_materiality-material material s so pr li ev i p u h e = ground arith
check_materiality-material identity_only s so pr li ev i p u h e = cc

check_materiality-identity :
    (m : LiveMateriality) (s : LiveMaterialStatus) (so pr li ev i p : Text) (u : Unit {0})
    → check_materiality m s so pr li ev i p ≡ some u
    → m ≡ identity_only
    → (li ≡ texto "-") × (ev ≡ empty_sha256)
unfolding check_materiality
check_materiality-identity material s so pr li ev i p u h e = cc
check_materiality-identity identity_only s so pr li ev i p u h e =
    ground (arith, equal_iff li (texto "-"), equal_iff ev empty_sha256)

recusa_se_lem : (b : Bool) (u : Unit {0}) → recusa_se b ≡ some u → b ≡ false
recusa_se_lem true u h = cc
recusa_se_lem false u h = refl

equal_of_recusa : (x y : Text) (u : Unit {0}) → recusa_se (not (equal x y)) ≡ some u → x ≡ y
equal_of_recusa x y u h = ground (arith, equal_iff x y)

fields-pieces :
    (fs : List Text) (u : Unit {0}) (b : Bool)
    → recusa_se (not (length fs == 17) || b) ≡ some u
    → fs ≡ fields_from 17 0 fs
fields-pieces fs u b h = drop-fields_from 17 0 fs (ground arith)

named_pieces :
    (fs : List Text) (a b c : Text)
    → fs ≡ fields_from 17 0 fs
    → get_or fs 2 [] ≡ a
    → get_or fs 3 [] ≡ b
    → get_or fs 4 [] ≡ c
    → fs ≡ get_or fs 0 [] ∷ get_or fs 1 [] ∷ a ∷ b ∷ c ∷ fields_from 12 5 fs
unfolding fields_from
named_pieces fs a b c e p q r =
    let fim_ = fields_from 12 5 fs in
    let g : ℕ → Text = λ n. get_or fs n [] in
    e
    ∙ ap (λ t. g 0 ∷ g 1 ∷ t ∷ g 3 ∷ g 4 ∷ fim_) p
    ∙ ap (λ t. g 0 ∷ g 1 ∷ a ∷ t ∷ g 4 ∷ fim_) q
    ∙ ap (λ t. g 0 ∷ g 1 ∷ a ∷ b ∷ t ∷ fim_) r

parse_live_component-Gives :
    (line contract : Text)
    → Gives (parse_live_component line contract) (λ e.
      (line ≡ texto "ENTRY=" ++ join b'|' (entry_pieces e))
      × (e.raw_line ≡ line)
      × IsEntry contract e)
unfolding parse_live_component entry_pieces fields_from
parse_live_component-Gives line contract = Gives-then _ λ payload pre. Gives-then _ λ u17 n.
    Gives-then _ λ _ _. Gives-then _ λ uv variant. Gives-then _ λ status st.
      Gives-then _ λ (m, r) mr. Gives-then _ λ _ _. Gives-then _ λ _ _. Gives-then _ λ _ _.
        Gives-then _ λ uc contrato. Gives-then _ λ um check. Gives-some _ (
          strip_prefix_lem (texto "ENTRY=") line payload pre
              ∙ ap (λ t. texto "ENTRY=" ++ t)
                  (sym (join-split b'|' payload)
                    ∙ ap (join b'|') (
                        named_pieces (split b'|' payload) _ _ _ (fields-pieces _ u17 _ n)
                          (parse_live_status_lem _ status st) (parse_materiality_lem _ _ m r mr).0
                          (parse_materiality_lem _ _ m r mr).1)),
          refl,
          record {
            contract_lem = equal_of_recusa _ contract uc contrato;
            variant_lem = equal_of_recusa _ _ uv variant;
            role_lem = (parse_materiality_lem _ _ m r mr).2;
            material_lem = check_materiality-material m status _ _ _ _ _ _ um check;
            identity_lem = check_materiality-identity m status _ _ _ _ _ _ um check;
          },
        )

-- If `parse_live_component` accepts a line under a contract, then the line is exactly that of the
-- entry it gives, which keeps it as `raw_line`; the entry's contract is the given one, its variant
-- is live-efi, its role follows from its materiality, a material entry is consumed or produced
-- with an input and a payload that are not empty, and an identity-only one has no license.
pub parse_live_component-IsEntry :
    (line contract : Text) (e : ParsedLiveComponent)
    → parse_live_component line contract ≡ some e
    → (line ≡ texto "ENTRY=" ++ join b'|' (entry_pieces e))
      × (e.raw_line ≡ line)
      × IsEntry contract e
parse_live_component-IsEntry line contract e h =
    (parse_live_component-Gives line contract).holds e h
