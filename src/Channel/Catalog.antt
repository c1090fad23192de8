-- ===== src/Channel/Catalog.antt =====
-- The choice of binary packages and the lock that it leaves: `Catalog::select`, `Catalog::finish`
-- and `lock_body` of minitrue/src/channel.rs.
pub mod Sorted
pub mod Written
pub mod Read
pub mod Loops
pub mod Used
pub mod Selected
pub mod Confirmed
pub mod Lines
pub mod RoundTrip
use distropica.Channel.Index.{IndexEntry, arquitetura}
use distropica.Channel.Lock.{
  Url, Mapa, get, presente, ausente, chave, max_lock_bytes, max_lock_entries,
}
use distropica.Channel.{Trust, corroborado, mesma_trust, trust_str}
use distropica.Effects.Results.{Result, ◌>>=◌}
use distropica.Effects.{Outcome, ok, err, Exec}
use distropica.Plan.Order.Names.{contains, text_lt}
use distropica.Prelude.{
  ℕ, zero, suc, ◌+◌, ◌^◌, Bool, true, false, not, ◌&&◌, ◌||◌, Option, none, some, List, [], ◌∷◌,
  ◌++◌, ltb, leb, if◌then◌else◌, equal, length, map, Bytes,
}
use distropica.Text.Lines.{linha}
use distropica.Text.Pieces.{texto, to_string}
use distropica.Text.Utf16.{Text}
use distropica.Text.Utf8.{utf8}

-- What the catalog uses of the configuration of a channel. Its priority has given the order of the
-- channels before.
pub record Config : Type 0 where
  pub name : Text
  pub url : Url
  pub key : Text
  pub trust : Trust

pub record Snapshot : Type 0 where
  pub config : Config
  pub key_sha256 : Text
  pub index_sha256 : Text
  pub index : Bytes
  pub signature : Bytes
  pub index_format : ℕ
  pub release_root : Bool
  pub entries : List IndexEntry

pub data LoadMode : Type 0 where
  read_only mutating : LoadMode

pub record Selection : Type 0 where
  pub name : Text
  pub version : Text
  pub recipe_fingerprint : Text
  pub channel : Text
  pub trust : Trust
  pub index_sha256 : Text
  pub path : Text
  pub artifact_url : Text
  pub artifact_sha256 : Text
  pub index_reprocorr : Option Text
  pub index_format : ℕ
  pub release_root : Bool
  pub producer_plan_lock_sha256 : Option Text
  pub producer_plan_url : Option Text
  pub legacy_development : Bool
  pub lock_sha256 : Text

pub record Resolution : Type 0 where
  pub selections : Mapa Selection
  pub lock_body : Option Bytes
  pub lock_sha256 : Option Text
  pub snapshots : List Snapshot
  pub mode : LoadMode

pub record Catalog : Type 0 where
  pub snapshots : List Snapshot
  pub selections : Mapa Selection
  pub mode : LoadMode
  pub allow_legacy : Bool

-- What `select` reads of a recipe.
pub record Recipe : Type 0 where
  pub name : Text
  pub version : Text
  pub reprocorr : Option Text

-- The entry of an identity, of this architecture.
unfoldable pub procura : Text → Text → List IndexEntry → Option IndexEntry
procura name version [] = none
procura name version (e ∷ es) =
    if equal name e.name && (equal version e.version && equal arquitetura e.arch)
    then some e
    else procura name version es

abbrev pub hashes_divergem : Option Text → Option Text → Bool
hashes_divergem (some a) (some b) = not (equal a b)
hashes_divergem _ _ = false

abbrev pub ou_traco : Option Text → Text
ou_traco none = texto "-"
ou_traco (some h) = h

-- The choice that is frozen.
abbrev pub selecionada : Bool → Recipe → Snapshot → IndexEntry → Text → Option Text → Selection
selecionada allow_legacy recipe s e artifact_url plano = record {
  name = recipe.name;
  version = recipe.version;
  recipe_fingerprint = e.recipe_fingerprint;
  channel = s.config.name;
  trust = s.config.trust;
  index_sha256 = s.index_sha256;
  path = e.path;
  artifact_url = artifact_url;
  artifact_sha256 = e.sha256;
  index_reprocorr = e.reprocorr;
  index_format = s.index_format;
  release_root = s.release_root;
  producer_plan_lock_sha256 = e.producer_plan_lock_sha256;
  producer_plan_url = plano;
  legacy_development = ltb s.index_format 4 && allow_legacy;
  lock_sha256 = [];
}

module _ (join : Url → Text → Option Url) where
  abbrev pub endereco_de : Option Url → Result Text
  endereco_de none = err 1
  endereco_de (some url) = ok (url.as_str)

  abbrev pub endereco_do_plano : Url → Option Text → Result (Option Text)
  endereco_do_plano url none = ok none
  endereco_do_plano url (some hash) =
      endereco_de (join url (texto "plans/" ++ (hash ++ texto ".lock"))) >>= λ plano.
      ok (some plano)

  -- What a channel offers for a recipe, with an error if it is another package of the same version.
  unfoldable pub oferta : Bool → Recipe → Text → Snapshot → IndexEntry → Result (Option Selection)
  oferta allow_legacy recipe fingerprint s e =
      if not (equal e.recipe_fingerprint fingerprint)
      then err 8
      else if hashes_divergem recipe.reprocorr e.reprocorr
      then err 8
      else if mesma_trust s.config.trust corroborado && ausente recipe.reprocorr
      then ok none
      else (endereco_de (join s.config.url e.path) >>= λ artifact_url.
          endereco_do_plano s.config.url e.producer_plan_lock_sha256 >>= λ plano.
          ok (some (selecionada allow_legacy recipe s e artifact_url plano)))

  abbrev pub oferta_da_entrada :
      Bool → Recipe → Text → Snapshot → Option IndexEntry → Result (Option Selection)
  oferta_da_entrada allow_legacy recipe fingerprint s none = ok none
  oferta_da_entrada allow_legacy recipe fingerprint s (some e) =
      oferta allow_legacy recipe fingerprint s e

  abbrev pub ou_segue : Result (Option Selection) → Option Selection → Result (Option Selection)
  ou_segue resto none = resto
  ou_segue resto (some s) = ok (some s)

  -- The loop over the channels, by priority.
  unfoldable pub primeira_oferta : Bool → Recipe → Text → List Snapshot → Result (Option Selection)
  primeira_oferta allow_legacy recipe fingerprint [] = ok none
  primeira_oferta allow_legacy recipe fingerprint (s ∷ ss) =
      oferta_da_entrada allow_legacy recipe fingerprint s
        (procura recipe.name recipe.version s.entries)
      >>= ou_segue (primeira_oferta allow_legacy recipe fingerprint ss)

  abbrev pub com_selecao : Catalog → Text → Result (Option Selection) → Outcome ℕ Bool × Catalog
  com_selecao c name (ok none) = (ok false, c)
  com_selecao c name (ok (some s)) =
      (ok true, record c { selections = c.selections ++ (name, s) ∷ [] })
  com_selecao c name (err e) = (err e, c)

  unfoldable pub select : Recipe → Text → Exec Catalog ℕ Bool
  select recipe fingerprint c =
      if presente (get recipe.name c.selections)
      then (ok true, c)
      else com_selecao c recipe.name (primeira_oferta c.allow_legacy recipe fingerprint c.snapshots)

-- The lines of a fragment, by their keys and values.
unfoldable pub fragmento : List (Text × Text) → Text
fragmento [] = []
fragmento ((k, v) ∷ ps) = linha k v (fragmento ps)

unfoldable pub campos_do_canal : ℕ → Snapshot → List (Text × Text)
campos_do_canal index s =
    (chave (texto "CHANNEL") index (texto "NAME"), s.config.name)
    ∷ (chave (texto "CHANNEL") index (texto "URL"), s.config.url.as_str)
    ∷ (chave (texto "CHANNEL") index (texto "KEY_SHA256"), s.key_sha256)
    ∷ (chave (texto "CHANNEL") index (texto "INDEX_SHA256"), s.index_sha256)
    ∷ (
      chave (texto "CHANNEL") index (texto "RELEASE_ROOT"),
      if s.release_root then texto "yes" else texto "no",
    )
    ∷ (chave (texto "CHANNEL") index (texto "TRUST"), trust_str s.config.trust)
    ∷ []

unfoldable pub campos_do_pacote : ℕ → Selection → List (Text × Text)
campos_do_pacote index p =
    (chave (texto "PACKAGE") index (texto "NAME"), p.name)
    ∷ (chave (texto "PACKAGE") index (texto "VERSION"), p.version)
    ∷ (chave (texto "PACKAGE") index (texto "RECIPE_FINGERPRINT"), p.recipe_fingerprint)
    ∷ (chave (texto "PACKAGE") index (texto "CHANNEL"), p.channel)
    ∷ (chave (texto "PACKAGE") index (texto "PATH"), p.path)
    ∷ (chave (texto "PACKAGE") index (texto "SHA256"), p.artifact_sha256)
    ∷ (chave (texto "PACKAGE") index (texto "REPROCORR"), ou_traco p.index_reprocorr)
    ∷ (chave (texto "PACKAGE") index (texto "INDEX_FORMAT"), to_string p.index_format)
    ∷ (
      chave (texto "PACKAGE") index (texto "PRODUCER_PLAN_LOCK_SHA256"),
      ou_traco p.producer_plan_lock_sha256,
    )
    ∷ (chave (texto "PACKAGE") index (texto "TRUST"), trust_str p.trust)
    ∷ []

-- The sum of the lengths is a `usize`, and is within the limit.
unfoldable pub append_lock_fragment : Text → Text → Result Text
append_lock_fragment body fragment =
    let n = length (utf8 body) + length (utf8 fragment) in
    if leb (2 ^ 64) n || ltb max_lock_bytes n then err 1 else ok (body ++ fragment)

-- The loop over `enumerate`, for what is written for each.
unfoldable pub escreve_todos :
    {A : Type 0} → (ℕ → A → List (Text × Text)) → ℕ → Text → List A → Result Text
escreve_todos campos index body [] = ok body
escreve_todos campos index body (x ∷ xs) =
    append_lock_fragment body (fragmento (campos index x)) >>= λ body'.
    escreve_todos campos (index + 1) body' xs

module _ {A : Type 0} (nome : A → Text) where
  unfoldable pub insere_por_nome : A → List A → List A
  insere_por_nome x [] = x ∷ []
  insere_por_nome x (y ∷ ys) =
      let resto = insere_por_nome x ys in
      if text_lt (nome y) (nome x) then y ∷ resto else x ∷ y ∷ ys

  -- `sort_by` on the names, which keeps the order of equal ones.
  unfoldable pub sort_by_name : List A → List A
  sort_by_name [] = []
  sort_by_name (x ∷ xs) = insere_por_nome x (sort_by_name xs)

abbrev pub nome_do_canal : Snapshot → Text
nome_do_canal s = s.config.name

abbrev pub nome_do_pacote : Selection → Text
nome_do_pacote p = p.name

unfoldable pub usados : List Text → List Snapshot → List Snapshot
usados used [] = []
usados used (s ∷ ss) =
    let resto = usados used ss in if contains s.config.name used then s ∷ resto else resto

unfoldable pub canais_de : List Snapshot → List Selection → List Snapshot
canais_de snapshots selections =
    sort_by_name nome_do_canal (usados (map (λ p. p.channel) selections) snapshots)

abbrev pub cabecalho_do_lock : ℕ → List (Text × Text)
cabecalho_do_lock n =
    (texto "CHANNEL_LOCK_FORMAT", texto "4")
    ∷ (texto "ARCH", arquitetura)
    ∷ (texto "CHANNEL_COUNT", to_string n)
    ∷ []

abbrev pub contagem_de_pacotes : ℕ → List (Text × Text)
contagem_de_pacotes n = (texto "PACKAGE_COUNT", to_string n) ∷ []

-- The body for the channels and the packages in their order.
unfoldable pub corpo_do_lock : List Snapshot → List Selection → Result Text
corpo_do_lock channels packages =
    if ltb max_lock_entries (length channels) || ltb max_lock_entries (length packages)
    then err 1
    else if ltb max_lock_bytes (length (utf8 (fragmento (cabecalho_do_lock (length channels)))))
    then err 1
    else (escreve_todos campos_do_canal 0 (fragmento (cabecalho_do_lock (length channels))) channels
        >>= λ body.
            append_lock_fragment body (fragmento (contagem_de_pacotes (length packages)))
            >>= λ body'. escreve_todos campos_do_pacote 0 body' packages)

unfoldable pub lock_body : List Snapshot → List Selection → Result Text
lock_body snapshots selections =
    corpo_do_lock (canais_de snapshots selections) (sort_by_name nome_do_pacote selections)

unfoldable pub valores : Mapa Selection → List Selection
valores [] = []
valores ((_, s) ∷ m) = s ∷ valores m

unfoldable pub com_lock : Text → Mapa Selection → Mapa Selection
com_lock hash [] = []
com_lock hash ((n, s) ∷ m) = (s.name, record s { lock_sha256 = hash }) ∷ com_lock hash m

abbrev pub sem_selecoes : {A : Type 0} → List A → Bool
sem_selecoes [] = true
sem_selecoes (_ ∷ _) = false

module _ (sha256 : Bytes → Text) where
  unfoldable pub finish : Catalog → Result Resolution
  finish c =
      if sem_selecoes c.selections
      then ok (record {
        selections = [];
        lock_body = none;
        lock_sha256 = none;
        snapshots = [];
        mode = c.mode;
      })
      else (lock_body c.snapshots (valores c.selections) >>= λ body. ok (record {
        selections = com_lock (sha256 (utf8 body)) c.selections;
        lock_body = some (utf8 body);
        lock_sha256 = some (sha256 (utf8 body));
        snapshots = c.snapshots;
        mode = c.mode;
      }))
