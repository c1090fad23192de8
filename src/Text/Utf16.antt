-- ===== src/Text/Utf16.antt =====
-- `str::encode_utf16` and `String::from_utf16` of the standard library, used by efi_boot.rs and
-- partition.rs for the UCS-2 fields of UEFI and GPT.
use mathlib.Core.Option
use distropica.Prelude.{
  ℕ, ◌+◌, ◌-◌, ◌*◌, ◌/◌, ◌%◌, ◌≡◌, refl, inl, inr, Bool, true, not, ◌&&◌, ◌||◌, Option, none, some,
  List, [], ◌∷◌, arith, ltb, leb, ◌==◌, if◌then◌else◌, Bool-cases, all,
}

abbrev pub Text : Type 0
Text = List ℕ

abbrev pub is_scalar : ℕ → Bool
is_scalar c = ltb c 0xd800 || (leb 0xe000 c && ltb c 0x110000)

-- Scalar values other than NUL: what a terminated UCS-2 field can hold.
abbrev pub is_char : ℕ → Bool
is_char c = is_scalar c && not (c == 0)

-- The one or two units of a character, followed by `rest`.
abbrev units_of : ℕ → List ℕ → List ℕ
units_of c rest =
    if ltb c 0x10000
    then c ∷ rest
    else (0xd800 + (c - 0x10000) / 0x400) ∷ (0xdc00 + (c - 0x10000) % 0x400) ∷ rest

unfoldable pub encode_utf16 : Text → List ℕ
encode_utf16 [] = []
encode_utf16 (c ∷ cs) = units_of c (encode_utf16 cs)

abbrev is_high : ℕ → Bool
is_high u = leb 0xd800 u && ltb u 0xdc00

abbrev is_low : ℕ → Bool
is_low u = leb 0xdc00 u && ltb u 0xe000

-- An unpaired surrogate is an error.
unfoldable pub from_utf16 : List ℕ → Option Text
from_utf16 [] = some []
from_utf16 (u ∷ []) = if is_high u || is_low u then none else some (u ∷ [])
from_utf16 (u ∷ v ∷ us) =
    let paired = Option.map (◌∷◌ (0x10000 + (u - 0xd800) * 0x400 + (v - 0xdc00))) (from_utf16 us) in
    let single = Option.map (◌∷◌ u) (from_utf16 (v ∷ us)) in
    if is_high u then (if is_low v then paired else none) else if is_low u then none else single

from_utf16-single :
    (c : ℕ) (us : List ℕ) {t : Text}
    → is_scalar c ≡ true
    → ltb c 0x10000 ≡ true
    → from_utf16 us ≡ some t
    → from_utf16 (c ∷ us) ≡ some (c ∷ t)
unfolding from_utf16
from_utf16-single c [] s b h = ground arith
from_utf16-single c (v ∷ us) s b h = ground arith

from_utf16-units_of :
    (c : ℕ) (us : List ℕ) {t : Text}
    → is_scalar c ≡ true
    → from_utf16 us ≡ some t
    → from_utf16 (units_of c us) ≡ some (c ∷ t)
unfolding from_utf16
from_utf16-units_of c us s h = elim (Bool-cases (ltb c 0x10000)) [
  | inl b ↦ rw b (from_utf16-single c us s b h)
  | inr b ↦ ground arith
]

pub from_utf16-encode_utf16 :
    (t : Text) → all is_scalar t ≡ true → from_utf16 (encode_utf16 t) ≡ some t
unfolding encode_utf16
from_utf16-encode_utf16 [] h = unfold from_utf16 in refl
from_utf16-encode_utf16 (c ∷ cs) h =
    from_utf16-units_of c (encode_utf16 cs) (ground arith)
      (from_utf16-encode_utf16 cs (ground arith))

-- What the readers of terminated fields rely on: no unit is 0, and each fits 16 bits.
abbrev pub is_unit : ℕ → Bool
is_unit u = not (u == 0) && ltb u 0x10000

pub encode_utf16_units : (t : Text) → all is_char t ≡ true → all is_unit (encode_utf16 t) ≡ true
unfolding encode_utf16
encode_utf16_units [] h = refl
encode_utf16_units (c ∷ cs) h = ground (arith, encode_utf16_units cs)

pub all-is_scalar_of_char : (t : Text) → all is_char t ≡ true → all is_scalar t ≡ true
all-is_scalar_of_char [] h = refl
all-is_scalar_of_char (c ∷ cs) h = ground (arith, all-is_scalar_of_char cs)
