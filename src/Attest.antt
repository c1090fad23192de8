-- ===== src/Attest.antt =====
-- Attestations and their corroboration, minitrue/src/attest.rs: a builder signs the identity of an
-- artifact, and two trusted builders that agree corroborate it.
pub mod Fields
pub mod Names
pub mod Verdicts
pub mod Signed
pub mod Trust
pub mod Body
pub mod Issue
pub mod Lines
pub mod Issued
pub use distropica.Text.Lines.{linha}
use distropica.Effects.{Outcome, ok, err}
use distropica.Plan.Live.{is_empty, trim}
use distropica.Plan.Order.Names.{contains, text_lt}
use distropica.Prelude.{
  ℕ, ◌≡◌, refl, Bool, true, false, not, ◌&&◌, ◌||◌, Option, none, some, List, [], ◌∷◌, ◌++◌, ltb,
  leb, ◌==◌, if◌then◌else◌, equal, length, all, Bytes,
}
use distropica.Text.Pieces.{texto}
use distropica.Text.Utf16.{Text}
use distropica.Text.Utf8.{utf8, utf8_of, from_utf8, within}
use Fields.{
  Result, ◌>>=◌, exige, validate_text_field, validate_lower_hex, lines, Mapa, get, campos, need,
  valor_ou_erro,
}

-- What the code takes from ed25519_dalek, from the hex crate and from the tables of Unicode.
pub record Ed25519 (Secret Key : Type 0) : Type 0 where
  pub hex_encode : Bytes → Text
  pub hex_decode : Text → Option Bytes
  pub from_seed : Bytes → Secret
  pub verifying_key : Secret → Key
  pub to_bytes : Key → Bytes
  pub from_bytes : Bytes → Option Key
  pub sign : Secret → Bytes → Bytes
  pub verify_strict : Key → Bytes → Bytes → Bool
  pub to_lowercase : Text → Text

-- The signed text.
unfoldable pub body : Text → Text → Text → Text → Text → Text → Text
body pkg version recipe_fp artifact builder builder_key =
    linha (texto "ATTEST_FORMAT") (texto "1") (
      linha (texto "PACKAGE") pkg (
        linha (texto "VERSION") version (
          linha (texto "RECIPE_FINGERPRINT") recipe_fp (
            linha (texto "ARTIFACT_HASH") artifact
              (linha (texto "BUILDER") builder (linha (texto "BUILDER_KEY") builder_key []))))))

-- An attestation that was read, whose own signature is right.
pub record Attestation : Type 0 where
  pub package_name : Text
  pub version : Text
  pub recipe_fingerprint : Text
  pub artifact_hash : Text
  pub builder_key : Text

pub record ArtifactIdentity : Type 0 where
  pub version : Text
  pub recipe_fingerprint : Text
  pub artifact_hash : Text

abbrev pub ou : {A : Type 0} → Option A → Result A
ou none = err 2
ou (some a) = ok a

abbrev pub ou_crimestop : Bool → Result (Unit {0})
ou_crimestop true = ok tt
ou_crimestop false = err 7

abbrev pub opcional : Option Text → Result (Unit {0})
opcional none = ok tt
opcional (some v) = validate_text_field v

module _ {Secret Key : Type 0} (ed : Ed25519 Secret Key) where
  unfoldable pub decode_hex : ℕ → Text → Result Bytes
  decode_hex n value = do
    _ ← validate_lower_hex value n
    bytes ← ou (ed.hex_decode value)
    _ ← exige (length bytes == n)
    ok bytes

  unfoldable pub parse_verifying_key : Text → Result Key
  parse_verifying_key value = decode_hex 32 value >>= λ bytes. ou (ed.from_bytes bytes)

  unfoldable pub parse_and_verify : Text → Result Attestation
  parse_and_verify text = do
    f ← campos [] (lines text)
    format ← need f (texto "ATTEST_FORMAT")
    _ ← exige (equal format (texto "1"))
    pacote ← need f (texto "PACKAGE")
    version ← need f (texto "VERSION")
    recipe_fp ← need f (texto "RECIPE_FINGERPRINT")
    artifact_hash ← need f (texto "ARTIFACT_HASH")
    builder ← need f (texto "BUILDER")
    builder_key ← need f (texto "BUILDER_KEY")
    sig_hex ← need f (texto "SIG")
    _ ← validate_text_field pacote
    _ ← validate_text_field version
    _ ← validate_text_field builder
    _ ← validate_lower_hex recipe_fp 32
    _ ← validate_lower_hex artifact_hash 32
    _ ← opcional (get (texto "BUILT_AT") f)
    pk ← parse_verifying_key builder_key
    sig ← decode_hex 64 sig_hex
    _ ← ou_crimestop (
        ed.verify_strict pk (utf8 (body pacote version recipe_fp artifact_hash builder builder_key))
          sig)
    ok (record {
      package_name = pacote;
      version = version;
      recipe_fingerprint = recipe_fp;
      artifact_hash = artifact_hash;
      builder_key = builder_key;
    })

  -- One pin of the directory of the trusted builders: its key, or nothing.
  unfoldable pub pino : Bytes → Option Text
  pino bytes = elim (from_utf8 bytes) [
    | none ↦ none
    | some content ↦
        let key = ed.to_lowercase (trim content) in
        elim (parse_verifying_key key) [ ok _ ↦ some key | err _ ↦ none ]
  ]

  abbrev insere_pino : Option Text → Text → Mapa → Mapa
  insere_pino none name m = m
  insere_pino (some key) name m = (key, name) ∷ m

  -- The map from keys to names; a later pin of a key takes the place of an earlier one.
  unfoldable pub pinos : Mapa → List (Text × Bytes) → Mapa
  pinos m [] = m
  pinos m ((name, bytes) ∷ files) = pinos (insere_pino (pino bytes) name m) files

  abbrev pub trusted_builders : Option (List (Text × Bytes)) → Mapa
  trusted_builders none = []
  trusted_builders (some files) = pinos [] files

pub data Verdict : Type 0 where
  corroborated : List Text → Verdict
  divergence : List (Text × Text) → Verdict
  insufficient : ℕ → Verdict
  no_artifact : Verdict

-- The name that a verified attestation counts for, if it speaks of this very identity and its key
-- is pinned.
unfoldable pub decide : Text → ArtifactIdentity → Mapa → Attestation → Option Text
decide pkg identidade trusted att =
    if not (equal att.package_name pkg)
      || not (equal att.version identidade.version)
      || not (equal att.recipe_fingerprint identidade.recipe_fingerprint)
    then none
    else get att.builder_key trusted

unfoldable pub contem_nome : Text → List (Text × Text) → Bool
contem_nome n [] = false
contem_nome n ((m, h) ∷ ds) = equal n m || contem_nome n ds

-- The builders that agree, and those that differ with what they attest.
pub record Contagem : Type 0 where
  pub agree : List Text
  pub diverge : List (Text × Text)

abbrev pub concorda : Text → Contagem → Contagem
concorda name c = if contains name c.agree then c else record c { agree = c.agree ++ name ∷ [] }

abbrev pub discorda : Text → Text → Contagem → Contagem
discorda name hash c =
    if contem_nome name c.diverge then c else record c { diverge = c.diverge ++ (name, hash) ∷ [] }

-- One vote.
unfoldable pub conta : Text → Option (Text × Text) → Contagem → Contagem
conta artifact none c = c
conta artifact (some (name, hash)) c =
    if equal hash artifact then concorda name c else discorda name hash c

abbrev com_hash : Text → Option Text → Option (Text × Text)
com_hash hash none = none
com_hash hash (some name) = some (name, hash)

unfoldable pub coloca : Text → List Text → List Text
coloca n [] = n ∷ []
coloca n (x ∷ xs) = let resto = coloca n xs in if text_lt x n then x ∷ resto else n ∷ x ∷ xs

-- `sort` of strings.
unfoldable pub sort : List Text → List Text
sort [] = []
sort (x ∷ xs) = coloca x (sort xs)

unfoldable pub veredito : Contagem → Verdict
veredito c = elim c.diverge [
  | d ∷ ds ↦ divergence (d ∷ ds)
  | [] ↦
      if leb 2 (length c.agree) then corroborated (sort c.agree) else insufficient (length c.agree)
]

module _ {Secret Key : Type 0} (ed : Ed25519 Secret Key) where
  -- What one file of the directory of attestations counts for: a builder and a hash, or nothing.
  unfoldable pub voto : Text → ArtifactIdentity → Mapa → Bytes → Option (Text × Text)
  voto pkg identidade trusted bytes = elim (from_utf8 bytes) [
    | none ↦ none
    | some text ↦ elim (parse_and_verify ed text) [
      | err _ ↦ none
      | ok att ↦ com_hash att.artifact_hash (decide pkg identidade trusted att)
    ]
  ]

  unfoldable pub conta_votos :
      Text → ArtifactIdentity → Mapa → List (Text × Bytes) → Contagem → Contagem
  conta_votos pkg identidade trusted [] c = c
  conta_votos pkg identidade trusted ((name, bytes) ∷ files) c =
      conta_votos pkg identidade trusted files
        (conta identidade.artifact_hash (voto pkg identidade trusted bytes) c)

  unfoldable pub corroboration_for :
      Option (List (Text × Bytes)) → Text → ArtifactIdentity → Mapa → Verdict
  corroboration_for none pkg identidade trusted = insufficient 0
  corroboration_for (some files) pkg identidade trusted =
      veredito (conta_votos pkg identidade trusted files (record { agree = []; diverge = [] }))
