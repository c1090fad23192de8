-- ===== src/Plan/Live/Runner/Canonical.antt =====
-- What `parse_live_runner_proof` of minitrue/src/plan.rs accepts.
use distropica.Plan.Live.Lines.{unlines, unlines-canonical_live_lines}
use distropica.Plan.Live.Reader.{
  Leitor, ◌>>=◌, corre, campo, Accepts, Accepts-pure, Accepts-then, Accepts-given, Accepts-valor,
  Accepts-linha, Accepts-fim, Accepts-valida, Accepts-bail, corre-Accepts,
}
use distropica.Plan.Live.Runner.{
  ParsedLiveRunnerProof, ler_runner_proof, parse_live_runner_proof, live_values, helper_of,
  pin_keys, pin_values, caminho_aceito, require_pins, em_linhas,
}
use distropica.Plan.Live.{canonical_live_lines, canonical_sha256, require_live_sha256, empty_sha256}
use distropica.Prelude.{
  ◌≡◌, refl, sym, ◌∙◌, ap, Bool, true, false, not, Option, none, some, List, [], ◌∷◌, ◌++◌, equal,
  equal_iff, all, Bytes, arith, map,
}
use distropica.Text.Pieces.{texto}
use distropica.Text.Utf16.{Text}

-- The lines of keys with their values.
unfoldable pub pin_lines : List (Text × Text) → List Text
pin_lines [] = []
pin_lines ((key, value) ∷ pins) = campo key value ∷ pin_lines pins

abbrev pub key_of : Text × Text → Text
key_of (key, _) = key

unfoldable pub runner_lines : ParsedLiveRunnerProof → List (Text × Text) → List Text
runner_lines p pins =
    texto "LIVE_RUNNER_PROOF_FORMAT=1"
    ∷ texto "VARIANT=live-efi"
    ∷ campo (texto "BUILD_MODE") p.mode
    ∷ campo (texto "AUTHENTICATED") p.authenticated
    ∷ campo (texto "RUNNER_ID") p.runner_id
    ∷ campo (texto "RUNNER_PATH") p.runner_path
    ∷ campo (texto "RUNNER_SHA256") p.runner_sha256
    ∷ campo (texto "BUILDER_ID") p.builder_id
    ∷ campo (texto "BUILDER_LOCK_SHA256") p.builder_lock_sha256
    ∷ campo (texto "BUILDER_ROOTFS_TREE_SHA256") p.builder_rootfs_tree_sha256
    ∷ campo (texto "SOURCE_SNAPSHOT_SHA256") p.source_snapshot_sha256
    ∷ (pin_lines pins ++ campo (texto "SOURCE_DATE_EPOCH") p.epoch ∷ [])

-- The hashes of the document: four of the record, and the pins.
unfoldable pub runner_hashes : ParsedLiveRunnerProof → List (Text × Text) → List Text
runner_hashes p pins =
    p.runner_sha256
    ∷ p.builder_lock_sha256
    ∷ p.builder_rootfs_tree_sha256
    ∷ p.source_snapshot_sha256
    ∷ pin_values pins

Accepts-values :
    {A : Type 0} (keys : List Text) {Q : A → List Text → Type 0} {k : List (Text × Text) → Leitor A}
    → ((pins : List (Text × Text))
        → map key_of pins ≡ keys
        → Accepts (k pins) (λ a ls. Q a (pin_lines pins ++ ls)))
    → Accepts (live_values keys >>= k) Q
unfolding live_values pin_lines
Accepts-values [] {Q} {k} f = Accepts-given _ _ (f [] refl)
Accepts-values (key ∷ keys) {Q} {k} f = Accepts-then _ _ _ (
    Accepts-valor _ λ v _. Accepts-then _ _ _ (
      Accepts-values keys {Q = λ a ls. Q a (campo key v ∷ ls)}
        λ pins e. Accepts-given _ _ (f ((key, v) ∷ pins) (ap (◌∷◌ key) e))))

-- What the fields of an accepted document say, with the pins that it lists.
pub record IsPinned (p : ParsedLiveRunnerProof) (pins : List (Text × Text)) : Type 0 where
  pub keys_lem : map key_of pins ≡ pin_keys
  pub helper_lem : helper_of pins ≡ some p.helper_binary_sha256
  pub path_lem : caminho_aceito p.mode p.authenticated p.runner_path ≡ true
  pub hashes_lem : all canonical_sha256 (runner_hashes p pins) ≡ true
  pub release_lem :
      p.mode ≡ texto "release" → all (λ h. not (equal h empty_sha256)) (runner_hashes p pins) ≡ true

require_pins-canonical :
    (r : Bool) (hs : List Text) (u : Unit {0})
    → require_pins r hs ≡ some u
    → all canonical_sha256 hs ≡ true
unfolding require_pins require_live_sha256
require_pins-canonical r [] u h = refl
require_pins-canonical r (x ∷ xs) u h = ground (arith, require_pins-canonical r xs u)

require_pins-release :
    (r : Bool) (hs : List Text) (u : Unit {0})
    → require_pins r hs ≡ some u
    → r ≡ true
    → all (λ h. not (equal h empty_sha256)) hs ≡ true
unfolding require_pins require_live_sha256
require_pins-release r [] u h e = refl
require_pins-release r (x ∷ xs) u h e = ground (arith, require_pins-release r xs u)

equal_of_not : (x y : Text) → not (equal x y) ≡ false → x ≡ y
equal_of_not x y h = ground (arith, equal_iff x y)

ler_runner_proof-Accepts :
    Accepts ler_runner_proof
      (λ p ls. (pins : List (Text × Text)) × (ls ≡ runner_lines p pins) × IsPinned p pins)
unfolding ler_runner_proof runner_lines runner_hashes
ler_runner_proof-Accepts = Accepts-linha _ (
    Accepts-valor _ λ variant _. Accepts-bail λ v. Accepts-valor _ λ mode _.
      Accepts-valor _ λ authenticated _. Accepts-valor _ λ id _. Accepts-valor _ λ path _.
        Accepts-valor _ λ runner _. Accepts-valor _ λ builder _. Accepts-valor _ λ lock _.
          Accepts-valor _ λ rootfs _. Accepts-valor _ λ snapshot _. Accepts-values _ λ pins ks.
            Accepts-valor _ λ epoch _. Accepts-fim (
              Accepts-valida λ _ _. Accepts-bail λ _. Accepts-bail λ aceito. Accepts-valida λ u hs.
                Accepts-valida λ helper h. Accepts-pure _ λ ls e. (
                  pins,
                  rw (equal_of_not variant _ v, e),
                  record {
                    keys_lem = ks;
                    helper_lem = h;
                    path_lem = ground arith;
                    hashes_lem = require_pins-canonical _ _ u hs;
                    release_lem =
                        λ m. require_pins-release _ _ u hs ((equal_iff mode (texto "release")).1 m);
                  },
                )))

-- If `parse_live_runner_proof` accepts bytes as a record, then the bytes are exactly the document
-- of that record and of a list of pins, one for each of the fifteen keys in their order; the
-- helper's hash is that of the pins, the path of the runner fits the mode, all nineteen hashes are
-- canonical, and in a release none of them is the empty one.
pub parse_live_runner_proof-unlines :
    (bytes : Bytes) (p : ParsedLiveRunnerProof)
    → parse_live_runner_proof bytes ≡ some p
    → (pins : List (Text × Text)) × (bytes ≡ unlines (runner_lines p pins)) × IsPinned p pins
unfolding parse_live_runner_proof
parse_live_runner_proof-unlines bytes p h = of_lines (canonical_live_lines bytes) refl h
  where
    of_lines :
        (o : Option (List Text))
        → canonical_live_lines bytes ≡ o
        → em_linhas o (corre ler_runner_proof) ≡ some p
        → (pins : List (Text × Text)) × (bytes ≡ unlines (runner_lines p pins)) × IsPinned p pins
    of_lines none e q = cc
    of_lines (some ls) e q =
        let (pins, l, c) = corre-Accepts ler_runner_proof-Accepts ls p q in
        (pins, sym (unlines-canonical_live_lines bytes ls e) ∙ ap unlines l, c)
