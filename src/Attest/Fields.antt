-- ===== src/Attest/Fields.antt =====
-- Lines and fields of an attestation, minitrue/src/attest.rs: the tests on values, and the reading
-- of `FIELD=value` lines into a map. An error is the code of `Fail`.
unfoldable pub use distropica.Effects.Results.{Result, ◌>>=◌, exige}
use distropica.Effects.{ok, err}
use distropica.Plan.Codec.{any_control}
use distropica.Plan.Live.{is_empty, trim}
use distropica.Plan.Order.Names.{contains}
use distropica.Prelude.{
  ℕ, ◌*◌, Bool, true, false, not, ◌&&◌, ◌||◌, Option, none, some, List, [], ◌∷◌, ◌==◌,
  if◌then◌else◌, equal, length, all,
}
use distropica.Text.Pieces.{texto}
unfoldable pub use distropica.Text.Lines.{split_once, sem_cr, linhas_de, lines}
use distropica.Text.Utf16.{Text}
use distropica.Text.Utf8.{utf8, within}

unfoldable pub validate_text_field : Text → Result (Unit {0})
validate_text_field value =
    exige (not (is_empty value || not (equal value (trim value)) || any_control value))

abbrev pub hex_minusculo : ℕ → Bool
hex_minusculo b = within b'0' b'9' b || within b'a' b'f' b

unfoldable pub validate_lower_hex : Text → ℕ → Result (Unit {0})
validate_lower_hex value bytes =
    exige (length (utf8 value) == bytes * 2 && all hex_minusculo (utf8 value))

-- The map of the fields, the last one first: a name stands in it once.
abbrev pub Mapa : Type 0
Mapa = List (Text × Text)

unfoldable pub get : Text → Mapa → Option Text
get k [] = none
get k ((field, value) ∷ f) = if equal k field then some value else get k f

abbrev pub conhecidos : List Text
conhecidos =
    texto "ATTEST_FORMAT"
    ∷ texto "PACKAGE"
    ∷ texto "VERSION"
    ∷ texto "RECIPE_FINGERPRINT"
    ∷ texto "ARTIFACT_HASH"
    ∷ texto "BUILDER"
    ∷ texto "BUILDER_KEY"
    ∷ texto "BUILT_AT"
    ∷ texto "SIG"
    ∷ []

abbrev pub presente : Option Text → Bool
presente none = false
presente (some _) = true

abbrev pub par_ou_erro : Option (Text × Text) → Result (Text × Text)
par_ou_erro none = err 2
par_ou_erro (some p) = ok p

unfoldable pub campos : Mapa → List Text → Result Mapa
campos f [] = ok f
campos f (line ∷ ls) = do
  (field, value) ← par_ou_erro (split_once b'=' line)
  _ ← exige (contains field conhecidos)
  _ ← exige (equal value (trim value))
  _ ← exige (not (presente (get field f)))
  campos ((field, value) ∷ f) ls

abbrev pub valor_ou_erro : Option Text → Result Text
valor_ou_erro none = err 2
valor_ou_erro (some v) = ok v

unfoldable pub need : Mapa → Text → Result Text
need f k = valor_ou_erro (get k f)
