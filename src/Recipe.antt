-- ===== src/Recipe.antt =====
-- Names and versions of packages: `validate_name` and `validate_version` of minitrue/src/recipe.rs.
use distropica.Effects.Results.{Result, exige}
use distropica.Prelude.{ℕ, Bool, false, not, ◌&&◌, ◌||◌, [], ◌∷◌, ltb, ◌==◌, equal, length, all}
use distropica.Text.Trim.{trim}
use distropica.Text.Utf16.{Text}
use distropica.Text.Utf8.{utf8, within}

abbrev pub minuscula_ou_digito : ℕ → Bool
minuscula_ou_digito c = within b'a' b'z' c || within b'0' b'9' c

abbrev pub de_nome : ℕ → Bool
de_nome c = minuscula_ou_digito c || c == b'-' || c == b'_' || c == b'.' || c == b'+'

unfoldable pub dois_pontos : Text → Bool
dois_pontos [] = false
dois_pontos (c ∷ []) = false
dois_pontos (c ∷ d ∷ ds) = (c == b'.' && d == b'.') || dois_pontos (d ∷ ds)

abbrev pub primeiro_ok : Text → Bool
primeiro_ok [] = false
primeiro_ok (c ∷ cs) = minuscula_ou_digito c && all de_nome cs

unfoldable pub validate_name : Text → Result (Unit {0})
validate_name name =
    exige (primeiro_ok name && not (ltb 128 (length (utf8 name))) && not (dois_pontos name))

abbrev pub alfanumerico : ℕ → Bool
alfanumerico c = within b'a' b'z' c || within b'A' b'Z' c || within b'0' b'9' c

abbrev pub de_versao : ℕ → Bool
de_versao c = alfanumerico c || c == b'.' || c == b'_' || c == b'+' || c == b'~' || c == b'-'

abbrev pub versao_ok : Text → Bool
versao_ok [] = false
versao_ok (c ∷ cs) = alfanumerico c && all de_versao cs

unfoldable pub validate_version : Text → Result (Unit {0})
validate_version version = exige (
    versao_ok version
    && not (ltb 128 (length (utf8 version)))
    && not (dois_pontos version)
    && equal version (trim version))
