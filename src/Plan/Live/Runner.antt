-- ===== src/Plan/Live/Runner.antt =====
-- `parse_live_runner_proof` of minitrue/src/plan.rs: the proof of the runner that built the live
-- system, with the hashes of everything that went into it.
pub mod Canonical
use distropica.Plan.Live.Reader.{
  Leitor, ◌>>=◌, ◌>>◌, pure, valida, corre, bail_if, live_value, linha, fim,
}
use distropica.Plan.Live.{
  canonical_live_lines, canonical_live_decimal, canonical_live_absolute_path, safe_live_atom,
  require_live_sha256, recusa_se, empty_sha256,
}
use distropica.Prelude.{
  ℕ, Bool, true, false, not, ◌&&◌, ◌||◌, Option, none, some, List, [], ◌∷◌, ◌++◌, equal,
  if◌then◌else◌, Bytes,
}
use distropica.Text.Pieces.{texto}
use distropica.Text.Utf16.{Text}

pub record ParsedLiveRunnerProof : Type 0 where
  pub mode : Text
  pub authenticated : Text
  pub runner_id : Text
  pub runner_path : Text
  pub runner_sha256 : Text
  pub builder_id : Text
  pub builder_lock_sha256 : Text
  pub builder_rootfs_tree_sha256 : Text
  pub source_snapshot_sha256 : Text
  pub helper_binary_sha256 : Text
  pub epoch : Text

abbrev pub helper_key : Text
helper_key = texto "LIVE_LOCK_HELPER_BINARY_SHA256"

abbrev pub pin_keys : List Text
pin_keys =
    texto "BUILD_EFI_SOURCE_SHA256"
    ∷ texto "LIVE_LOCK_SOURCE_SHA256"
    ∷ texto "LIVE_LOCK_HELPER_SOURCE_SHA256"
    ∷ helper_key
    ∷ texto "BUSYBOX_CONFIG_SHA256"
    ∷ texto "LINUX_TAR_SHA256"
    ∷ texto "BUSYBOX_TAR_SHA256"
    ∷ texto "E2FSPROGS_TAR_SHA256"
    ∷ texto "NCURSES_TAR_SHA256"
    ∷ texto "UTIL_LINUX_TAR_SHA256"
    ∷ texto "MINIPAX_BINARY_SHA256"
    ∷ texto "MINITRUE_BINARY_SHA256"
    ∷ texto "ZIG_TAR_SHA256"
    ∷ texto "ZIG_BINARY_SHA256"
    ∷ texto "MUSL_TREE_SHA256"
    ∷ []

-- The loop over the keys: each with its value.
unfoldable pub live_values : List Text → Leitor (List (Text × Text))
live_values [] = pure []
live_values (key ∷ keys) = do
  value ← live_value key
  pins ← live_values keys
  pure ((key, value) ∷ pins)

-- `helper_binary_sha256` behind the loop.
unfoldable pub helper_of : List (Text × Text) → Option Text
helper_of [] = none
helper_of ((key, value) ∷ pins) =
    let resto = helper_of pins in if equal key helper_key then some value else resto

unfoldable pub pin_values : List (Text × Text) → List Text
pin_values [] = []
pin_values ((key, value) ∷ pins) = value ∷ pin_values pins

-- The test of the path of the runner, by the mode.
unfoldable pub caminho_aceito : Text → Text → Text → Bool
caminho_aceito mode authenticated path =
    if equal mode (texto "release") && equal authenticated (texto "yes")
    then canonical_live_absolute_path path
    else if equal mode (texto "development") && equal authenticated (texto "no")
    then safe_live_atom path
    else false

abbrev depois : Option (Unit {0}) → Option (Unit {0}) → Option (Unit {0})
depois none o = none
depois (some _) o = o

-- The loop over `proof_hashes`.
unfoldable pub require_pins : Bool → List Text → Option (Unit {0})
require_pins release [] = some tt
require_pins release (value ∷ values) =
    depois (require_live_sha256 value)
      (depois (recusa_se (release && equal value empty_sha256)) (require_pins release values))

abbrev pub em_linhas :
    Option (List Text) → (List Text → Option ParsedLiveRunnerProof) → Option ParsedLiveRunnerProof
em_linhas none f = none
em_linhas (some ls) f = f ls

unfoldable pub ler_runner_proof : Leitor ParsedLiveRunnerProof
ler_runner_proof = do
  linha (texto "LIVE_RUNNER_PROOF_FORMAT=1")
  variant ← live_value (texto "VARIANT")
  bail_if (not (equal variant (texto "live-efi")))
  mode ← live_value (texto "BUILD_MODE")
  authenticated ← live_value (texto "AUTHENTICATED")
  runner_id ← live_value (texto "RUNNER_ID")
  runner_path ← live_value (texto "RUNNER_PATH")
  runner ← live_value (texto "RUNNER_SHA256")
  builder_id ← live_value (texto "BUILDER_ID")
  builder_lock ← live_value (texto "BUILDER_LOCK_SHA256")
  rootfs ← live_value (texto "BUILDER_ROOTFS_TREE_SHA256")
  snapshot ← live_value (texto "SOURCE_SNAPSHOT_SHA256")
  pins ← live_values pin_keys
  epoch ← live_value (texto "SOURCE_DATE_EPOCH")
  fim
  _ ← valida (canonical_live_decimal epoch)
  bail_if (not (safe_live_atom runner_id) || not (safe_live_atom builder_id))
  bail_if (not (caminho_aceito mode authenticated runner_path))
  _ ← valida (
      require_pins (equal mode (texto "release"))
        (runner ∷ builder_lock ∷ rootfs ∷ snapshot ∷ pin_values pins))
  helper ← valida (helper_of pins)
  pure (record {
    mode = mode;
    authenticated = authenticated;
    runner_id = runner_id;
    runner_path = runner_path;
    runner_sha256 = runner;
    builder_id = builder_id;
    builder_lock_sha256 = builder_lock;
    builder_rootfs_tree_sha256 = rootfs;
    source_snapshot_sha256 = snapshot;
    helper_binary_sha256 = helper;
    epoch = epoch;
  })

unfoldable pub parse_live_runner_proof : Bytes → Option ParsedLiveRunnerProof
parse_live_runner_proof bytes = em_linhas (canonical_live_lines bytes) (corre ler_runner_proof)
