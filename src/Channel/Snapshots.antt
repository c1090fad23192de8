-- ===== src/Channel/Snapshots.antt =====
-- The signed indices that a catalog starts with: `verify_index`, `current_pair`, `load_snapshot` and
-- `Catalog::load_mode` of minitrue/src/channel.rs. What the cache and the network give is an input,
-- and minisign and SHA-256 are parameters.
pub mod Loaded
use distropica.Channel.Catalog.{Config, Snapshot, Catalog, LoadMode}
use distropica.Channel.Index.{parse_index}
use distropica.Effects.Results.{Result, ◌>>=◌}
use distropica.Effects.{Outcome, ok, err}
use distropica.Prelude.{
  ℕ, Bool, true, false, Option, none, some, List, [], ◌∷◌, if◌then◌else◌, Bytes,
}
use distropica.Text.Utf16.{Text}
use distropica.Text.Utf8.{utf8, from_utf8}

-- What the minisign_verify crate does.
pub record Minisign (PublicKey Signature : Type 0) : Type 0 where
  pub signature_decode : Text → Option Signature
  pub from_base64 : Text → Option PublicKey
  pub verify : PublicKey → Bytes → Signature → Bool

abbrev ou_sete : {A : Type 0} → Option A → Result A
ou_sete none = err 7
ou_sete (some a) = ok a

unfoldable pub verificado : Bool → Result (Unit {0})
verificado true = ok tt
verificado false = err 7

-- An index and its signature.
abbrev pub Par : Type 0
Par = Bytes × Bytes

module _ {PublicKey Signature : Type 0} (minisign : Minisign PublicKey Signature) where
  unfoldable pub verify_index : Config → Bytes → Bytes → Result (Unit {0})
  verify_index config index signature = do
    text ← ou_sete (from_utf8 signature)
    signature ← ou_sete (minisign.signature_decode text)
    key ← ou_sete (minisign.from_base64 config.key)
    verificado (minisign.verify key index signature)

  abbrev se_verificado : Par → Result (Unit {0}) → Result Par
  se_verificado par (ok _) = ok par
  se_verificado par (err _) = err 7

  abbrev do_cache : Config → Option Par → Result Par
  do_cache config none = err 7
  do_cache config (some (index, signature)) =
      se_verificado (index, signature) (verify_index config index signature)

  unfoldable pub current_pair : Bool → Config → Option Par → Result Par → Result Par
  current_pair offline config cached fetch =
      if offline
      then do_cache config cached
      else (fetch >>= λ (index, signature).
          verify_index config index signature >>= λ _. ok (index, signature))

  module _ (sha256 : Bytes → Text) (cached_pair : Config → Result (Option Par))
      (fetch_pair : Config → Result Par) (offline : Bool) where
    unfoldable pub load_snapshot : Config → Bool → Result Snapshot
    load_snapshot config allow_legacy = cached_pair config >>= λ cached.
        current_pair offline config cached (fetch_pair config) >>= λ (index, signature).
        verify_index config index signature >>= λ _.
        parse_index config.trust allow_legacy index >>= λ (index_format, release_root, entries).
        ok (record {
          config = config;
          key_sha256 = sha256 (utf8 config.key);
          index_sha256 = sha256 index;
          index = index;
          signature = signature;
          index_format = index_format;
          release_root = release_root;
          entries = entries;
        })

    unfoldable pub load_snapshots : Bool → List Config → Result (List Snapshot)
    load_snapshots allow_legacy [] = ok []
    load_snapshots allow_legacy (config ∷ configs) = do
      s ← load_snapshot config allow_legacy
      ss ← load_snapshots allow_legacy configs
      ok (s ∷ ss)

    unfoldable pub load_mode : List Config → LoadMode → Bool → Result Catalog
    load_mode configs mode allow_legacy = do
      snapshots ← load_snapshots allow_legacy configs
      ok (record {
        snapshots = snapshots;
        selections = [];
        mode = mode;
        allow_legacy = allow_legacy;
      })
