-- ===== src/Text/Pieces.antt =====
-- `split`, `strip_prefix`, `starts_with` and the decimal `parse` and `to_string` of the standard
-- library, on texts, and literals.
use Prim.Native.Char.{code}
use Prim.Native.String.{String}
use distropica.Prelude.Options.{◌>>=◌}
use distropica.Prelude.{
  ℕ, zero, suc, ◌+◌, ◌-◌, ◌*◌, ◌/◌, ◌%◌, ◌^◌, ◌≡◌, refl, Bool, true, false, Option, none, some,
  List, [], ◌∷◌, ◌++◌, ltb, ◌==◌, ◌||◌, not, all, if◌then◌else◌, arith,
}
use distropica.Text.Utf16.{Text}
use distropica.Text.Utf8.{within}

-- The code points of a literal.
abbrev pub texto : String → Text
texto String.[] = []
texto (String.◌∷◌ c s) = code c ∷ texto s

abbrev junta_primeira : ℕ → List Text → List Text
junta_primeira c [] = (c ∷ []) ∷ []
junta_primeira c (p ∷ ps) = (c ∷ p) ∷ ps

-- `str::split` by a character: the pieces between the separators, at least one.
unfoldable pub split : ℕ → Text → List Text
split sep [] = [] ∷ []
split sep (c ∷ cs) =
    let resto = split sep cs in if c == sep then [] ∷ resto else junta_primeira c resto

unfoldable pub join : ℕ → List Text → Text
join sep [] = []
join sep (p ∷ []) = p
join sep (p ∷ q ∷ ps) = p ++ sep ∷ join sep (q ∷ ps)

unfoldable pub strip_prefix : Text → Text → Option Text
strip_prefix [] s = some s
strip_prefix (p ∷ ps) [] = none
strip_prefix (p ∷ ps) (c ∷ cs) = let resto = strip_prefix ps cs in if p == c then resto else none

join-junta_primeira :
    (sep c : ℕ) (ps : List Text) → join sep (junta_primeira c ps) ≡ c ∷ join sep ps
unfolding join
join-junta_primeira sep c [] = refl
join-junta_primeira sep c (p ∷ []) = refl
join-junta_primeira sep c (p ∷ q ∷ ps) = refl

join-cons :
    (sep c : ℕ) (b : Bool) (ps : List Text)
    → join sep ([] ∷ (if b then [] ∷ ps else junta_primeira c ps))
      ≡ sep ∷ join sep (if b then [] ∷ ps else junta_primeira c ps)
unfolding join
join-cons sep c true ps = refl
join-cons sep c false [] = refl
join-cons sep c false (p ∷ ps) = refl

join-cons-split : (sep : ℕ) (s : Text) → join sep ([] ∷ split sep s) ≡ sep ∷ join sep (split sep s)
unfolding join split
join-cons-split sep [] = refl
join-cons-split sep (c ∷ cs) = join-cons sep c (c == sep) (split sep cs)

pub join-split : (sep : ℕ) (s : Text) → join sep (split sep s) ≡ s
unfolding split join
join-split sep [] = refl
join-split sep (c ∷ cs) =
    ground
      (arith, join-split sep cs, join-cons-split sep cs, join-junta_primeira sep c (split sep cs))

piece_cons :
    (c : ℕ) (b : Bool) (ps : List Text)
    → (p : Text) × (qs : List Text) × ((if b then [] ∷ ps else junta_primeira c ps) ≡ p ∷ qs)
piece_cons c true ps = ([], ps, refl)
piece_cons c false [] = (c ∷ [], [], refl)
piece_cons c false (p ∷ ps) = (c ∷ p, ps, refl)

-- A split has at least one piece.
pub split_cons : (sep : ℕ) (s : Text) → (p : Text) × (qs : List Text) × (split sep s ≡ p ∷ qs)
unfolding split
split_cons sep [] = ([], [], refl)
split_cons sep (c ∷ cs) = piece_cons c (c == sep) (split sep cs)

pub strip_prefix_lem : (p s r : Text) → strip_prefix p s ≡ some r → s ≡ p ++ r
unfolding strip_prefix
strip_prefix_lem [] s r h = cc
strip_prefix_lem (p ∷ ps) [] r h = cc
strip_prefix_lem (p ∷ ps) (c ∷ cs) r h = ground (arith, strip_prefix_lem ps cs r)

-- The decimal digits of `n`, with one unit of fuel for each digit.
unfoldable pub digitos : ℕ → ℕ → Text
digitos zero n = []
digitos (suc fuel) n =
    let antes = digitos fuel (n / 10) in
    if ltb n 10 then (b'0' + n) ∷ [] else antes ++ (b'0' + n % 10) ∷ []

-- `to_string` of a `u64`, which has at most 20 digits.
unfoldable pub to_string : ℕ → Text
to_string n = digitos 20 n

abbrev cabe : ℕ → Option ℕ
cabe n = if ltb n (2 ^ 64) then some n else none

unfoldable pub ler_digitos : ℕ → Text → Option ℕ
ler_digitos n [] = some n
ler_digitos n (c ∷ cs) =
    if within b'0' b'9' c then (cabe (n * 10 + (c - b'0')) >>= λ m. ler_digitos m cs) else none

-- `str::parse::<u64>`: a plus sign may stand before the digits, of which there is one at least.
unfoldable pub parse_u64 : Text → Option ℕ
parse_u64 [] = none
parse_u64 (c ∷ []) = ler_digitos 0 (c ∷ [])
parse_u64 (c ∷ d ∷ ds) = if c == b'+' then ler_digitos 0 (d ∷ ds) else ler_digitos 0 (c ∷ d ∷ ds)

-- `char::is_whitespace`: the property White_Space.
abbrev pub is_whitespace : ℕ → Bool
is_whitespace c =
    within 0x9 0xd c
    || c == 0x20
    || c == 0x85
    || c == 0xa0
    || c == 0x1680
    || within 0x2000 0x200a c
    || within 0x2028 0x2029 c
    || c == 0x202f
    || c == 0x205f
    || c == 0x3000

-- No white space.
abbrev pub sem_espaco : Text → Bool
sem_espaco t = all (λ c. not (is_whitespace c)) t
