-- ===== src/Plan/Live.antt =====
-- The documents of the live system that a plan takes in, LIVE_LOCK and LIVE_RUNNER_PROOF of
-- minitrue/src/plan.rs: their canonical lines and the checks on their fields. A refusal is `none`.
-- `lines` with `index` is the list of the lines from `index` on, and a parser (`Leitor`) reads
-- from it; the label of a message is left out.
pub mod Reader
pub mod Payload
pub mod Lines
pub mod Trial
pub mod Lock
pub mod Component
pub mod Runner
use distropica.Prelude.Options.{◌>>=◌}
use distropica.Prelude.{
  ℕ, ◌+◌, ◌*◌, ◌-◌, Bool, true, false, not, ◌&&◌, ◌||◌, Option, none, some, List, [], ◌∷◌, ◌++◌,
  ltb, ◌==◌, if◌then◌else◌, equal, length, take, drop, all, Bytes,
}
use distropica.Text.Pieces.{is_whitespace, texto, split, strip_prefix, parse_u64, to_string}
use distropica.Text.Utf16.{Text}
unfoldable pub use distropica.Text.Trim.{is_empty, trim_start, encurta, trim_end, trim, has}
use distropica.Text.Utf8.{within, from_utf8}

abbrev pub max_live_manifest_bytes : ℕ
max_live_manifest_bytes = 16 * 1024 * 1024

abbrev pub empty_sha256 : Text
empty_sha256 = texto "e3b0c44298fc1c149afbf4c8996fb92427ae41e4649b934ca495991b7852b855"

-- `if b { bail! }`.
abbrev pub recusa_se : Bool → Option (Unit {0})
recusa_se true = none
recusa_se false = some tt

unfoldable pub any_empty : List Text → Bool
any_empty [] = false
any_empty (l ∷ ls) = is_empty l || any_empty ls

unfoldable pub ends_with_lf : Bytes → Bool
ends_with_lf [] = false
ends_with_lf (b ∷ []) = b == 0x0a
ends_with_lf (b ∷ c ∷ cs) = ends_with_lf (c ∷ cs)

unfoldable pub byte_alheio : Bytes → Bool
byte_alheio [] = false
byte_alheio (b ∷ bs) = (not (b == 0x0a) && not (within 0x20 0x7e b)) || byte_alheio bs

unfoldable pub canonical_live_lines : Bytes → Option (List Text)
canonical_live_lines bytes = do
  _ ← recusa_se (
      is_empty bytes
      || ltb max_live_manifest_bytes (length bytes)
      || not (ends_with_lf bytes)
      || byte_alheio bytes)
  text ← from_utf8 bytes
  let lines = split 0x0a (take (length text - 1) text)
  _ ← recusa_se (any_empty lines)
  some lines

unfoldable pub canonical_live_decimal : Text → Option ℕ
canonical_live_decimal value = do
  parsed ← parse_u64 value
  _ ← recusa_se (not (equal (to_string parsed) value))
  some parsed

abbrev hex_minusculo : ℕ → Bool
hex_minusculo byte = within b'0' b'9' byte || within b'a' b'f' byte

unfoldable pub canonical_sha256 : Text → Bool
canonical_sha256 value = length value == 64 && all hex_minusculo value

unfoldable pub require_live_sha256 : Text → Option (Unit {0})
require_live_sha256 value = recusa_se (not (canonical_sha256 value))

unfoldable pub require_all : List Text → Option (Unit {0})
require_all [] = some tt
require_all (v ∷ vs) = require_live_sha256 v >>= λ _. require_all vs

abbrev atomo : ℕ → Bool
atomo byte = within 0x21 0x7e byte && not (byte == b'|' || byte == b'=')

unfoldable pub safe_live_atom : Text → Bool
safe_live_atom value = not (is_empty value) && not (ltb 4096 (length value)) && all atomo value

abbrev pub componente_normal : Text → Bool
componente_normal p = not (equal p (texto ".."))

unfoldable pub all_pieces : List Text → Bool
all_pieces [] = true
all_pieces (p ∷ ps) = componente_normal p && all_pieces ps

unfoldable pub has_double_slash : Text → Bool
has_double_slash [] = false
has_double_slash (c ∷ []) = false
has_double_slash (c ∷ d ∷ ds) = (c == b'/' && d == b'/') || has_double_slash (d ∷ ds)

unfoldable pub ends_with_slash : Text → Bool
ends_with_slash [] = false
ends_with_slash (c ∷ []) = c == b'/'
ends_with_slash (c ∷ d ∷ ds) = ends_with_slash (d ∷ ds)

unfoldable pub starts_with_slash : Text → Bool
starts_with_slash [] = false
starts_with_slash (c ∷ _) = c == b'/'

-- `Path::components` of an absolute path drops each ".", so ".." is the one name left that is
-- neither the root nor a normal component.
unfoldable pub canonical_live_absolute_path : Text → Bool
canonical_live_absolute_path value =
    starts_with_slash value
    && not (equal value (texto "/"))
    && not (ends_with_slash value)
    && not (has_double_slash value)
    && all_pieces (split b'/' value)

unfoldable pub validate_live_material_license : Text → Text → Option (Unit {0})
validate_live_material_license license evidence = recusa_se (
    not (equal (trim license) license)
    || is_empty license
    || equal license (texto "-")
    || equal license (texto "NOASSERTION")
    || equal license (texto "NONE")
    || has b'|' license
    || not (canonical_sha256 evidence)
    || equal evidence empty_sha256)
