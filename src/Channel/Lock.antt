-- ===== src/Channel/Lock.antt =====
-- The lock of a channel operation: `LockLines` and `parse_lock` of minitrue/src/channel.rs.
pub mod Accepted
pub mod Ordered
pub mod Fields
pub mod Values
pub mod Proven
pub mod Provenance
pub use distropica.Channel.Presence.{presente, ausente}
use distropica.Channel.{
  Trust, builder, mesma_trust, trust_str, parse_trust, confere, lower_hex, validate_artifact_path,
}
use distropica.Effects.Results.{Result, ◌>>=◌ as ◌>>>◌}
use distropica.Effects.Sealed.{entrega, resultado, escolhe}
use distropica.Effects.{Outcome, ok, err, Exec, ◌>>=◌, ◌>>◌}
use distropica.Plan.Live.{ends_with_lf, ends_with_slash}
use distropica.Plan.Order.Names.{text_lt}
use distropica.Prelude.{
  ℕ, zero, suc, ◌+◌, ◌*◌, Bool, true, false, not, ◌&&◌, ◌||◌, Option, none, some, List, [], ◌∷◌,
  ◌++◌, ltb, leb, ◌==◌, if◌then◌else◌, equal, length, Bytes,
}
use distropica.Recipe.{validate_name, validate_version}
use distropica.Text.Lines.{lines, split_once}
use distropica.Text.Pieces.{texto, to_string, parse_u64}
use distropica.Text.Trim.{is_empty, trim, has, any_control}
use distropica.Text.Utf16.{Text}
use distropica.Text.Utf8.{from_utf8}

-- What the url crate says of an address.
pub record Url : Type 0 where
  pub scheme : Text
  pub has_host : Bool
  pub username : Text
  pub password : Option Text
  pub query : Option Text
  pub fragment : Option Text
  pub path : Text
  pub as_str : Text

-- The lines that are left.
abbrev pub LockLines : Type 0
LockLines = List Text

abbrev pub Leitura : Type 0 → Type 0
Leitura A = Exec LockLines ℕ A

abbrev valor_do_campo : Text → Bool → Option (Text × Text) → Result Text
valor_do_campo expected allow_empty none = err 1
valor_do_campo expected allow_empty (some (key, value)) =
    if equal key expected && (allow_empty || not (is_empty value)) then ok value else err 1

unfoldable pub le_campo : Text → Bool → Text → Result Text
le_campo expected allow_empty line =
    if is_empty line || not (equal (trim line) line) || any_control line
    then err 1
    else valor_do_campo expected allow_empty (split_once b'=' line)

unfoldable pub field : Text → Bool → Leitura Text
field expected allow_empty [] = (err 1, [])
field expected allow_empty (line ∷ ls) = (le_campo expected allow_empty line, ls)

-- `LockLines::finish`.
unfoldable pub finish : Leitura (Unit {0})
finish [] = (ok tt, [])
finish (l ∷ ls) = (err 1, ls)

abbrev pub max_lock_bytes : ℕ
max_lock_bytes = 16 * 1024 * 1024

abbrev pub max_lock_entries : ℕ
max_lock_entries = 50000

abbrev pub contagem : Text → Option ℕ → Result ℕ
contagem value none = err 1
contagem value (some count) =
    if equal (to_string count) value && leb count max_lock_entries then ok count else err 1

unfoldable pub parse_lock_count : Text → Result ℕ
parse_lock_count value = contagem value (parse_u64 value)

abbrev pub url_canonica : Text → Option Url → Bool
url_canonica value none = false
url_canonica value (some url) =
    equal url.scheme (texto "https")
    && url.has_host
    && is_empty url.username
    && not (presente url.password)
    && not (presente url.query)
    && not (presente url.fragment)
    && ends_with_slash url.path
    && equal url.as_str value

pub record LockedChannel : Type 0 where
  pub index_sha256 : Text
  pub release_root : Bool
  pub trust : Trust

pub record LockedPackage : Type 0 where
  pub name : Text
  pub version : Text
  pub recipe_fingerprint : Text
  pub channel : Text
  pub path : Text
  pub artifact_sha256 : Text
  pub reprocorr : Option Text
  pub index_format : ℕ
  pub producer_plan_lock_sha256 : Option Text
  pub trust : Trust

-- A map from names, in the order of the insertions.
abbrev pub Mapa : Type 0 → Type 0
Mapa A = List (Text × A)

unfoldable pub get : {A : Type 0} → Text → Mapa A → Option A
get k [] = none
get k ((n, a) ∷ m) = if equal k n then some a else get k m

pub record ParsedLock : Type 0 where
  pub channels : Mapa LockedChannel
  pub packages : Mapa LockedPackage

-- `CHANNEL.{index}.NAME` and its like.
abbrev pub chave : Text → ℕ → Text → Text
chave tipo index campo = tipo ++ b'.' ∷ (to_string index ++ b'.' ∷ campo)

-- Whether a name comes behind the previous one.
abbrev pub em_ordem : Option Text → Text → Bool
em_ordem none name = true
em_ordem (some previous) name = text_lt previous name

abbrev pub sim_nao : Text → Result Bool
sim_nao v =
    if equal v (texto "yes") then ok true else if equal v (texto "no") then ok false else err 1

abbrev pub exige_que : Bool → Leitura (Unit {0})
exige_que b = resultado (confere b)

module _ (parse : Text → Option Url) where
  unfoldable pub le_canal :
      ℕ → Option Text → Mapa LockedChannel → ℕ → Leitura (Text × LockedChannel)
  le_canal lock_format previous channels index = do
    name ← field (chave (texto "CHANNEL") index (texto "NAME")) false
    _ ← resultado (validate_name name)
    _ ← exige_que (em_ordem previous name)
    url ← field (chave (texto "CHANNEL") index (texto "URL")) false
    _ ← exige_que (url_canonica url (parse url))
    key_sha256 ← field (chave (texto "CHANNEL") index (texto "KEY_SHA256")) false
    index_sha256 ← field (chave (texto "CHANNEL") index (texto "INDEX_SHA256")) false
    _ ← exige_que (lower_hex key_sha256 && lower_hex index_sha256)
    root ←
        escolhe (lock_format == 4)
          (field (chave (texto "CHANNEL") index (texto "RELEASE_ROOT")) false >>= λ v.
            resultado (sim_nao v))
          (entrega false)
    trust_ ← field (chave (texto "CHANNEL") index (texto "TRUST")) false
    trust ← resultado (parse_trust trust_)
    _ ← exige_que (ausente (get name channels))
    entrega (name, record { index_sha256 = index_sha256; release_root = root; trust = trust })

  -- The loop over the channels that are left.
  unfoldable pub le_canais :
      ℕ → ℕ → Option Text → ℕ → Mapa LockedChannel → Leitura (Mapa LockedChannel)
  le_canais lock_format zero previous index channels = entrega channels
  le_canais lock_format (suc left) previous index channels = do
    c ← le_canal lock_format previous channels index
    le_canais lock_format left (some c.0) (index + 1) (channels ++ c ∷ [])

abbrev pub vazio_ou_traco : Text → Bool
vazio_ou_traco v = is_empty v || equal v (texto "-")

abbrev pub menos_traco : Text → Option Text
menos_traco v = if equal v (texto "-") then none else some v

abbrev pub formato_do_indice : Text → Result ℕ
formato_do_indice v =
    if equal v (texto "2")
    then ok 2
    else if equal v (texto "3")
    then ok 3
    else if equal v (texto "4")
    then ok 4
    else err 1

-- The format of the index, and the plan of the producer; both come with the third lock format.
unfoldable pub le_produtor : ℕ → ℕ → Leitura (ℕ × Option Text)
le_produtor lock_format index =
    escolhe (leb 3 lock_format)
      (field (chave (texto "PACKAGE") index (texto "INDEX_FORMAT")) false >>= λ v.
        resultado (formato_do_indice v) >>= λ index_format.
        field (chave (texto "PACKAGE") index (texto "PRODUCER_PLAN_LOCK_SHA256")) false
        >>= λ producer. exige_que (equal producer (texto "-") || lower_hex producer) >>= λ _.
            entrega (index_format, menos_traco producer))
      (entrega (2, none))

-- A channel of the lock that a package refers to, by the rules on trust and on legacy formats.
unfoldable pub fecha_com : Text → LockedPackage → LockedChannel → Bool
fecha_com reprocorr p c =
    mesma_trust p.trust c.trust
    && (if leb 3 p.index_format
        then lower_hex reprocorr && presente p.producer_plan_lock_sha256
        else ausente p.producer_plan_lock_sha256)
    && not (ltb p.index_format 4 && (not (mesma_trust p.trust builder) || c.release_root))
    && not (c.release_root && not (p.index_format == 4))

abbrev pub do_canal : Option LockedChannel → Result LockedChannel
do_canal none = err 1
do_canal (some c) = ok c

unfoldable pub le_pacote :
    ℕ → Option Text → Mapa LockedChannel → Mapa LockedPackage → ℕ → Leitura (Text × LockedPackage)
le_pacote lock_format previous channels packages index = do
  name ← field (chave (texto "PACKAGE") index (texto "NAME")) false
  _ ← resultado (validate_name name)
  _ ← exige_que (em_ordem previous name)
  version ← field (chave (texto "PACKAGE") index (texto "VERSION")) false
  _ ← resultado (validate_version version)
  recipe_fingerprint ← field (chave (texto "PACKAGE") index (texto "RECIPE_FINGERPRINT")) false
  _ ← exige_que (lower_hex recipe_fingerprint)
  channel ← field (chave (texto "PACKAGE") index (texto "CHANNEL")) false
  _ ← resultado (validate_name channel)
  path ← field (chave (texto "PACKAGE") index (texto "PATH")) false
  _ ← resultado (validate_artifact_path path)
  artifact_sha256 ← field (chave (texto "PACKAGE") index (texto "SHA256")) false
  _ ← exige_que (lower_hex artifact_sha256)
  reprocorr ← field (chave (texto "PACKAGE") index (texto "REPROCORR")) (lock_format == 2)
  _ ← exige_que (vazio_ou_traco reprocorr || lower_hex reprocorr)
  (index_format, producer) ← le_produtor lock_format index
  trust_ ← field (chave (texto "PACKAGE") index (texto "TRUST")) false
  trust ← resultado (parse_trust trust_)
  locked ← resultado (do_canal (get channel channels))
  let p : LockedPackage = record {
    name = name;
    version = version;
    recipe_fingerprint = recipe_fingerprint;
    channel = channel;
    path = path;
    artifact_sha256 = artifact_sha256;
    reprocorr = if vazio_ou_traco reprocorr then none else some reprocorr;
    index_format = index_format;
    producer_plan_lock_sha256 = producer;
    trust = trust;
  }
  _ ← exige_que (fecha_com reprocorr p locked)
  _ ← exige_que (ausente (get name packages))
  entrega (name, p)

unfoldable pub le_pacotes :
    ℕ → ℕ → Option Text → Mapa LockedChannel → ℕ → Mapa LockedPackage → Leitura (Mapa LockedPackage)
le_pacotes lock_format zero previous channels index packages = entrega packages
le_pacotes lock_format (suc left) previous channels index packages = do
  p ← le_pacote lock_format previous channels packages index
  le_pacotes lock_format left (some p.0) channels (index + 1) (packages ++ p ∷ [])

abbrev pub formato_do_lock : Text → Result ℕ
formato_do_lock v =
    if equal v (texto "4")
    then ok 4
    else if equal v (texto "3")
    then ok 3
    else if equal v (texto "2")
    then ok 2
    else err 1

module _ (parse : Text → Option Url) where
  unfoldable pub le_lock : Leitura ParsedLock
  le_lock = do
    formato ← field (texto "CHANNEL_LOCK_FORMAT") false
    lock_format ← resultado (formato_do_lock formato)
    arch ← field (texto "ARCH") false
    _ ← exige_que (equal arch (texto "x86_64"))
    canais ← field (texto "CHANNEL_COUNT") false
    channel_count ← resultado (parse_lock_count canais)
    _ ← exige_que (not (lock_format == 4 && channel_count == 0))
    channels ← le_canais parse lock_format channel_count none 0 []
    pacotes ← field (texto "PACKAGE_COUNT") false
    package_count ← resultado (parse_lock_count pacotes)
    _ ← exige_que (not (lock_format == 4 && package_count == 0))
    packages ← le_pacotes lock_format package_count none channels 0 []
    _ ← finish
    entrega (record { channels = channels; packages = packages })

  abbrev pub com_linhas : Option Text → Result ParsedLock
  com_linhas none = err 1
  com_linhas (some text) =
      if has 0x0d text || not (ends_with_lf text) then err 1 else (le_lock (lines text)).0

  unfoldable pub parse_lock : Bytes → Result ParsedLock
  parse_lock bytes =
      if ltb max_lock_bytes (length bytes) then err 1 else com_linhas (from_utf8 bytes)
