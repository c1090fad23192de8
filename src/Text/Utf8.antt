-- ===== src/Text/Utf8.antt =====
-- `str::as_bytes` and `String::from_utf8` of the standard library: the well-formed byte sequences
-- of the Unicode standard, with no overlong form and no surrogate.
use distropica.Prelude.{
  ℕ, ◌+◌, ◌-◌, ◌*◌, ◌/◌, ◌%◌, ◌≡◌, refl, Bool, true, ◌&&◌, Option, none, some, [], ◌∷◌, arith, ltb,
  leb, ◌==◌, if◌then◌else◌, all, Bytes,
}
use distropica.Text.Utf16.{Text, is_scalar}

abbrev pub within : ℕ → ℕ → ℕ → Bool
within lo hi c = leb lo c && leb c hi

-- The bytes of a character, followed by `rest`.
unfoldable pub utf8_of : ℕ → Bytes → Bytes
utf8_of c rest =
    if ltb c 0x80
    then c ∷ rest
    else if ltb c 0x800
    then (0xc0 + c / 0x40) ∷ (0x80 + c % 0x40) ∷ rest
    else if ltb c 0x10000
    then (0xe0 + c / 0x1000) ∷ (0x80 + c / 0x40 % 0x40) ∷ (0x80 + c % 0x40) ∷ rest
    else (0xf0 + c / 0x40000)
      ∷ (0x80 + c / 0x1000 % 0x40)
      ∷ (0x80 + c / 0x40 % 0x40)
      ∷ (0x80 + c % 0x40)
      ∷ rest

unfoldable pub utf8 : Text → Bytes
utf8 [] = []
utf8 (c ∷ cs) = utf8_of c (utf8 cs)

-- Between two characters, or inside one: the continuation bytes that follow the next one, the
-- range of the next one, and the value so far.
pub data Estado : Type 0 where
  inicio : Estado
  dentro : ℕ → ℕ → ℕ → ℕ → Estado

pub data Passo : Type 0 where
  emite : ℕ → Passo
  segue : Estado → Passo
  invalido : Passo

unfoldable pub passo : Estado → ℕ → Passo
passo inicio b =
    if ltb b 0x80
    then emite b
    else if within 0xc2 0xdf b
    then segue (dentro 0 0x80 0xbf (b - 0xc0))
    else if b == 0xe0
    then segue (dentro 1 0xa0 0xbf 0)
    else if b == 0xed
    then segue (dentro 1 0x80 0x9f 0xd)
    else if within 0xe1 0xef b
    then segue (dentro 1 0x80 0xbf (b - 0xe0))
    else if b == 0xf0
    then segue (dentro 2 0x90 0xbf 0)
    else if b == 0xf4
    then segue (dentro 2 0x80 0x8f 4)
    else if within 0xf1 0xf3 b
    then segue (dentro 2 0x80 0xbf (b - 0xf0))
    else invalido
passo (dentro falta lo hi valor) b =
    let proximo = valor * 0x40 + (b - 0x80) in
    if within lo hi b
    then (if falta == 0 then emite proximo else segue (dentro (falta - 1) 0x80 0xbf proximo))
    else invalido

abbrev junta : ℕ → Option Text → Option Text
junta c none = none
junta c (some t) = some (c ∷ t)

unfoldable pub ler_utf8 : Estado → Bytes → Option Text
ler_utf8 inicio [] = some []
ler_utf8 (dentro _ _ _ _) [] = none
ler_utf8 e (b ∷ bs) = elim (passo e b) [
  | emite c ↦ junta c (ler_utf8 inicio bs)
  | segue e' ↦ ler_utf8 e' bs
  | invalido ↦ none
]

unfoldable pub from_utf8 : Bytes → Option Text
from_utf8 = ler_utf8 inicio

ler_utf8_of :
    (c : ℕ) (rest : Bytes)
    → is_scalar c ≡ true
    → ler_utf8 inicio (utf8_of c rest) ≡ junta c (ler_utf8 inicio rest)
unfolding ler_utf8 utf8_of passo
ler_utf8_of c rest h = ground arith

ler_utf8-utf8 : (t : Text) → all is_scalar t ≡ true → ler_utf8 inicio (utf8 t) ≡ some t
unfolding utf8
ler_utf8-utf8 [] h = unfold ler_utf8 in refl
ler_utf8-utf8 (c ∷ cs) h = ground (arith, ler_utf8_of c (utf8 cs), ler_utf8-utf8 cs)

pub from_utf8-utf8 : (t : Text) → all is_scalar t ≡ true → from_utf8 (utf8 t) ≡ some t
unfolding from_utf8
from_utf8-utf8 t h = ler_utf8-utf8 t h

abbrev pub is_ascii : ℕ → Bool
is_ascii c = ltb c 0x80

pub utf8_ascii : (t : Text) → all is_ascii t ≡ true → utf8 t ≡ t
unfolding utf8 utf8_of
utf8_ascii [] h = refl
utf8_ascii (c ∷ cs) h = ground (arith, utf8_ascii cs)

-- Every byte of the encoding fits eight bits.
abbrev pub is_byte : ℕ → Bool
is_byte b = ltb b 0x100

pub utf8_bytes : (t : Text) → all is_scalar t ≡ true → all is_byte (utf8 t) ≡ true
unfolding utf8 utf8_of
utf8_bytes [] h = refl
utf8_bytes (c ∷ cs) h = ground (arith, utf8_bytes cs)
