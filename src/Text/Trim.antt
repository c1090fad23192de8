-- ===== src/Text/Trim.antt =====
-- `is_empty`, `trim`, `contains` and `char::is_control` of the standard library, on texts.
use distropica.Prelude.{ℕ, Bool, true, false, ◌||◌, [], ◌∷◌, ltb, ◌==◌, if◌then◌else◌}
use distropica.Text.Pieces.{is_whitespace}
use distropica.Text.Utf16.{Text}
use distropica.Text.Utf8.{within}

unfoldable pub is_empty : Text → Bool
is_empty [] = true
is_empty (_ ∷ _) = false

unfoldable pub trim_start : Text → Text
trim_start [] = []
trim_start (c ∷ cs) = let resto = trim_start cs in if is_whitespace c then resto else c ∷ cs

abbrev pub encurta : ℕ → Text → Text
encurta c [] = if is_whitespace c then [] else c ∷ []
encurta c (d ∷ ds) = c ∷ d ∷ ds

unfoldable pub trim_end : Text → Text
trim_end [] = []
trim_end (c ∷ cs) = encurta c (trim_end cs)

abbrev pub trim : Text → Text
trim s = trim_end (trim_start s)

unfoldable pub has : ℕ → Text → Bool
has c [] = false
has c (d ∷ ds) = d == c || has c ds

-- `char::is_control`: the general category Cc.
abbrev pub is_control : ℕ → Bool
is_control c = ltb c 0x20 || within 0x7f 0x9f c

unfoldable pub any_control : Text → Bool
any_control [] = false
any_control (c ∷ cs) = is_control c || any_control cs
