-- ===== src/Channel/Lock/Provenance.antt =====
-- What a recorded installation says of the package that a lock names: `verify_lock_provenance` of
-- minitrue/src/channel.rs.
use distropica.Channel.Lock.{Url, LockedChannel, LockedPackage, get, do_canal, parse_lock}
use distropica.Channel.{trust_str, confere}
use distropica.Effects.Results.{Result, ◌>>=◌ as ◌>>>◌}
use distropica.Effects.{ok, err}
use distropica.Prelude.{ℕ, Bool, true, false, not, ◌&&◌, Option, none, some, ◌==◌, equal, Bytes}
use distropica.Text.Utf16.{Text}

pub record RecordedProvenance : Type 0 where
  pub package_name : Text
  pub version : Text
  pub recipe_fingerprint : Text
  pub channel : Text
  pub path : Text
  pub trust : Text
  pub artifact_sha256 : Text
  pub index_sha256 : Text
  pub artifact_reprocorr : Text
  pub recipe_reprocorr : Option Text
  pub index_format : ℕ
  pub release_root : Bool
  pub producer_plan_lock_sha256 : Option Text

abbrev pub iguais : Option Text → Option Text → Bool
iguais none none = true
iguais (some a) (some b) = equal a b
iguais _ _ = false

abbrev pub mesmo : Bool → Bool → Bool
mesmo true b = b
mesmo false b = not b

-- `is_some_and(|expected| expected != found)`, negated.
abbrev pub nao_diverge : Option Text → Text → Bool
nao_diverge none found = true
nao_diverge (some expected) found = equal expected found

abbrev pub do_pacote : Option LockedPackage → Result LockedPackage
do_pacote none = err 1
do_pacote (some p) = ok p

unfoldable pub mesma_proveniencia : LockedPackage → LockedChannel → RecordedProvenance → Bool
mesma_proveniencia p c recorded =
    equal p.version recorded.version
    && equal p.recipe_fingerprint recorded.recipe_fingerprint
    && equal p.channel recorded.channel
    && equal p.path recorded.path
    && equal (trust_str p.trust) recorded.trust
    && equal p.artifact_sha256 recorded.artifact_sha256
    && equal c.index_sha256 recorded.index_sha256
    && mesmo c.release_root recorded.release_root
    && p.index_format == recorded.index_format
    && iguais p.producer_plan_lock_sha256 recorded.producer_plan_lock_sha256

module _ (parse : Text → Option Url) where
  unfoldable pub verify_lock_provenance : Bytes → RecordedProvenance → Result (Unit {0})
  verify_lock_provenance bytes recorded = parse_lock parse bytes >>> λ parsed.
      do_pacote (get recorded.package_name parsed.packages) >>> λ p.
      do_canal (get p.channel parsed.channels) >>> λ c.
      confere (mesma_proveniencia p c recorded) >>> λ _.
      confere (nao_diverge p.reprocorr recorded.artifact_reprocorr) >>> λ _.
      confere (nao_diverge recorded.recipe_reprocorr recorded.artifact_reprocorr)
