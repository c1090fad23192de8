-- ===== src/Channel/Snapshots/Loaded.antt =====
-- The catalog of `Catalog::load_mode` of minitrue/src/channel.rs.
use distropica.Channel.Catalog.Loops.{Cada}
use distropica.Channel.Catalog.Selected.{IsLoaded}
use distropica.Channel.Catalog.{Config, Snapshot, Catalog}
use distropica.Channel.Lock.Fields.{valor_ok}
use distropica.Channel.Lock.{Url, url_canonica}
use distropica.Channel.Snapshots.{Minisign, Par, verify_index}
use distropica.Channel.{lower_hex}
use distropica.Effects.Results.{Result}
use distropica.Effects.{ok}
use distropica.Prelude.{◌≡◌, Bool, true, Option, List, Bytes, map}
use distropica.Recipe.{validate_name}
use distropica.Text.Utf16.{Text}

-- A channel with a valid name and an address that is its own canonical form.
pub record IsConfig (parse : Text → Option Url) (config : Config) : Type 0 where
  pub nome : validate_name config.name ≡ ok tt
  pub canonica : url_canonica config.url.as_str (parse config.url.as_str) ≡ true
  pub grafica : valor_ok config.url.as_str ≡ true

abbrev pub nome_da_configuracao : Config → Text
nome_da_configuracao config = config.name

module _ {PublicKey Signature : Type 0} (minisign : Minisign PublicKey Signature)
    (sha256 : Bytes → Text) (parse : Text → Option Url) (cached_pair : Config → Result (Option Par))
    (fetch_pair : Config → Result Par) (offline : Bool)
    (h : (bytes : Bytes) → lower_hex (sha256 bytes) ≡ true) where
  -- A snapshot that is signed by the key of its channel.
  abbrev pub IsSigned : Snapshot → Type 0
  IsSigned s = (verify_index minisign s.config s.index s.signature ≡ ok tt) × IsLoaded parse s

  -- The snapshots of the configurations, in their order.
  abbrev De : List Config → List Snapshot → Type 0
  De configs ss = (map (λ s. s.config) ss ≡ configs) × Cada IsSigned ss
