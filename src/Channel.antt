-- ===== src/Channel.antt =====
-- Binary channels, minitrue/src/channel.rs: what an index line and a field of a lock may hold.
pub mod Presence
pub mod Catalog
pub mod Snapshots
pub mod Index
pub mod Lock
use distropica.Effects.Results.{Result}
use distropica.Effects.{ok, err}
use distropica.Prelude.{
  ℕ, Bool, true, false, not, ◌&&◌, ◌||◌, List, [], ◌∷◌, ◌==◌, if◌then◌else◌, equal, length, all,
}
use distropica.Text.Pieces.{texto, split}
use distropica.Text.Trim.{is_empty, has}
use distropica.Text.Utf16.{Text}
use distropica.Text.Utf8.{utf8, within}

-- `bail!` if a test fails: an error without a code of its own, which ends the program with 1.
unfoldable pub confere : Bool → Result (Unit {0})
confere true = ok tt
confere false = err 1

pub data Trust : Type 0 where
  oficial corroborado builder : Trust

abbrev pub trust_str : Trust → Text
trust_str oficial = texto "oficial"
trust_str corroborado = texto "corroborado"
trust_str builder = texto "builder"

abbrev pub mesma_trust : Trust → Trust → Bool
mesma_trust oficial oficial = true
mesma_trust corroborado corroborado = true
mesma_trust builder builder = true
mesma_trust _ _ = false

abbrev pub is_builder : Trust → Bool
is_builder t = mesma_trust t builder

unfoldable pub parse_trust : Text → Result Trust
parse_trust value =
    if equal value (texto "oficial")
    then ok oficial
    else if equal value (texto "corroborado")
    then ok corroborado
    else if equal value (texto "builder")
    then ok builder
    else err 1

abbrev pub hexadecimal : ℕ → Bool
hexadecimal b = within b'0' b'9' b || within b'a' b'f' b

unfoldable pub lower_hex : Text → Bool
lower_hex value = length (utf8 value) == 64 && all hexadecimal (utf8 value)

abbrev pub de_caminho : ℕ → Bool
de_caminho b =
    within b'a' b'z' b
    || within b'A' b'Z' b
    || within b'0' b'9' b
    || b == b'/'
    || b == b'.'
    || b == b'_'
    || b == b'+'
    || b == b'~'
    || b == b'-'

unfoldable pub ends_with : Text → Text → Bool
ends_with fim_ [] = equal [] fim_
ends_with fim_ (c ∷ cs) = equal (c ∷ cs) fim_ || ends_with fim_ cs

abbrev comeca_com_barra : Text → Bool
comeca_com_barra [] = false
comeca_com_barra (c ∷ _) = c == b'/'

-- `Component::Normal` for each component of a relative path without empty pieces: `..` is
-- `ParentDir`, a leading `.` is `CurDir`, and any other `.` is dropped by `components`.
unfoldable pub componentes_normais : List Text → Bool
componentes_normais [] = true
componentes_normais (p ∷ ps) = not (equal p (texto "..")) && componentes_normais ps

abbrev primeira_e_ponto : List Text → Bool
primeira_e_ponto [] = false
primeira_e_ponto (p ∷ _) = equal p (texto ".")

unfoldable pub algum_vazio : List Text → Bool
algum_vazio [] = false
algum_vazio (p ∷ ps) = is_empty p || algum_vazio ps

unfoldable pub artifact_path_ok : Text → Bool
artifact_path_ok path =
    not (is_empty path)
    && not (comeca_com_barra path)
    && not (has 0x5c path)
    && not (algum_vazio (split b'/' path))
    && all de_caminho (utf8 path)
    && ends_with (texto ".tar.zst") path
    && not (primeira_e_ponto (split b'/' path))
    && componentes_normais (split b'/' path)

unfoldable pub validate_artifact_path : Text → Result (Unit {0})
validate_artifact_path path = confere (artifact_path_ok path)
