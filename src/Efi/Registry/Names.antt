-- ===== src/Efi/Registry/Names.antt =====
-- The names of the files of the efivarfs: `Boot{:04X}` and the GUID of the namespace.
use distropica.Prelude.Options.{◌>>=◌}
use distropica.Prelude.{
  ℕ, ◌+◌, ◌-◌, ◌*◌, ◌/◌, ◌%◌, ◌<◌, ◌≤◌, ◌≡◌, refl, ap, ◌&&◌, Option, none, some, [], ◌∷◌, ◌++◌, leb,
  ◌==◌, if◌then◌else◌, equal, equal_iff, take, drop, length, arith, length-append, take-append,
  drop-append, ◌≢◌,
}
use distropica.Text.Pieces.{texto, strip_prefix}
use distropica.Text.Utf16.{Text}
use distropica.Text.Utf8.{within}

abbrev pub global_guid : Text
global_guid = texto "8be4df61-93ca-11d2-aa0d-00e098032b8c"

abbrev pub sufixo : Text
sufixo = b'-' ∷ global_guid

abbrev pub nome_variavel : Text → Text
nome_variavel nome = nome ++ sufixo

unfoldable pub digito_x : ℕ → ℕ
digito_x n = if leb n 9 then b'0' + n else b'A' + (n - 10)

-- `{:04X}` of a u16.
unfoldable pub hexa4 : ℕ → Text
hexa4 n =
    digito_x (n / 4096 % 16)
    ∷ digito_x (n / 256 % 16)
    ∷ digito_x (n / 16 % 16)
    ∷ digito_x (n % 16)
    ∷ []

unfoldable pub nome_boot : ℕ → Text
nome_boot n = texto "Boot" ++ hexa4 n

-- One digit of `from_str_radix` to the base 16, of either case.
unfoldable pub valor_x : ℕ → Option ℕ
valor_x b =
    if within b'0' b'9' b
    then some (b - b'0')
    else if within b'A' b'F' b
    then some (b - b'A' + 10)
    else if within b'a' b'f' b
    then some (b - b'a' + 10)
    else none

unfoldable pub valor_hexa : ℕ → Text → Option ℕ
valor_hexa n [] = some n
valor_hexa n (c ∷ cs) = valor_x c >>= λ d. valor_hexa (n * 16 + d) cs

-- `u16::from_str_radix` of four characters, the first of which may be a plus sign: no overflow.
unfoldable pub numero_hexa : Text → Option ℕ
numero_hexa [] = none
numero_hexa (c ∷ cs) =
    if length (c ∷ cs) == 4
    then (if c == b'+' then valor_hexa 0 cs else valor_hexa 0 (c ∷ cs))
    else none

unfoldable pub strip_suffix : Text → Text → Option Text
strip_suffix fim_ s =
    let k = length s - length fim_ in
    if leb (length fim_) (length s) && equal (drop k s) fim_ then some (take k s) else none

-- The number of a file of an entry.
unfoldable pub numero_de : Text → Option ℕ
numero_de nome = do
  base ← strip_suffix sufixo nome
  hexa ← strip_prefix (texto "Boot") base
  numero_hexa hexa

pub strip_suffix-append : (s fim_ : Text) → strip_suffix fim_ (s ++ fim_) ≡ some s
unfolding strip_suffix
strip_suffix-append s fim_ =
    let k : length (s ++ fim_) - length fim_ ≡ length s = omega (arith, length-append s fim_) in
    rw k (
      ground (
        arith,
        length-append s fim_,
        equal_iff fim_ fim_,
        take-append (length s) s fim_ refl,
        drop-append (length s) s fim_ refl,
      ))

valor_x-digito_x : (n : ℕ) → n < 16 → valor_x (digito_x n) ≡ some n
unfolding valor_x digito_x
valor_x-digito_x n h = ground arith

digito_x_plain : (n : ℕ) → n < 16 → (digito_x n ≢ b'+') × (digito_x n ≢ b'O')
unfolding digito_x
digito_x_plain n h = ground arith

-- Four digits from the base 16.
four_digits :
    (n : ℕ)
    → n < 65536
    → (((n / 4096 % 16) * 16 + n / 256 % 16) * 16 + n / 16 % 16) * 16 + n % 16 ≡ n
four_digits n h = omega arith

numero_hexa-hexa4 : (n : ℕ) → n < 65536 → numero_hexa (hexa4 n) ≡ some n
unfolding numero_hexa hexa4 valor_hexa
numero_hexa-hexa4 n h = ground (
  arith,
  four_digits n,
  digito_x_plain (n / 4096 % 16),
  valor_x-digito_x (n / 4096 % 16),
  valor_x-digito_x (n / 256 % 16),
  valor_x-digito_x (n / 16 % 16),
  valor_x-digito_x (n % 16),
)

pub numero_de-nome_boot : (n : ℕ) → n < 65536 → numero_de (nome_variavel (nome_boot n)) ≡ some n
unfolding numero_de nome_boot strip_prefix
numero_de-nome_boot n h =
    rw (strip_suffix-append (texto "Boot" ++ hexa4 n) sufixo) (numero_hexa-hexa4 n h)

valor_x-lt : (c d : ℕ) → valor_x c ≡ some d → d < 16
unfolding valor_x
valor_x-lt c d h = ground arith

-- Above what the digits can make of `n`.
acima : ℕ → Text → ℕ
acima n [] = n + 1
acima n (_ ∷ cs) = acima (n * 16 + 15) cs

acima_mono : (n m : ℕ) (cs : Text) → n ≤ m → acima n cs ≤ acima m cs
unfolding acima
acima_mono n m [] h = omega arith
acima_mono n m (c ∷ cs) h = acima_mono (n * 16 + 15) (m * 16 + 15) cs (omega arith)

valor_hexa-lt-acima : (n m : ℕ) (cs : Text) → valor_hexa n cs ≡ some m → m < acima n cs
unfolding valor_hexa acima
valor_hexa-lt-acima n m [] h = ground arith
valor_hexa-lt-acima n m (c ∷ cs) h = of_digit (λ k. valor_hexa-lt-acima k m cs) (valor_x c) refl h
  where
    of_digit :
        ((k : ℕ) → valor_hexa k cs ≡ some m → m < acima k cs)
        → (o : Option ℕ) → valor_x c ≡ o
        → (o >>= λ d. valor_hexa (n * 16 + d) cs) ≡ some m
        → m < acima (n * 16 + 15) cs
    of_digit ih none e q = cc
    of_digit ih (some d) e q = omega (
      arith,
      ih (n * 16 + d) q,
      acima_mono (n * 16 + d) (n * 16 + 15) cs (omega (arith, valor_x-lt c d e)),
    )

acima_four : (cs : Text) → length cs ≤ 4 → acima 0 cs ≤ 65536
unfolding acima
acima_four [] h = omega arith
acima_four (a ∷ []) h = omega arith
acima_four (a ∷ b ∷ []) h = omega arith
acima_four (a ∷ b ∷ c ∷ []) h = omega arith
acima_four (a ∷ b ∷ c ∷ d ∷ []) h = omega arith
acima_four (a ∷ b ∷ c ∷ d ∷ e ∷ cs) h = absurd (omega arith)

numero_hexa-lt : (cs : Text) (n : ℕ) → numero_hexa cs ≡ some n → n < 65536
unfolding numero_hexa
numero_hexa-lt [] n h = cc
numero_hexa-lt (c ∷ cs) n h = ground (
  arith,
  valor_hexa-lt-acima 0 n cs,
  valor_hexa-lt-acima 0 n (c ∷ cs),
  acima_four cs,
  acima_four (c ∷ cs),
)

-- A number of an entry fits sixteen bits.
pub numero_de-lt : (nome : Text) (n : ℕ) → numero_de nome ≡ some n → n < 65536
unfolding numero_de
numero_de-lt nome n h = of_base (strip_suffix sufixo nome) h
  where
    of_hexa : (o : Option Text) → (o >>= numero_hexa) ≡ some n → n < 65536
    of_hexa none q = cc
    of_hexa (some t) q = numero_hexa-lt t n q

    of_base :
        (o : Option Text)
        → (o >>= λ b. strip_prefix (texto "Boot") b >>= numero_hexa) ≡ some n
        → n < 65536
    of_base none q = cc
    of_base (some b) q = of_hexa (strip_prefix (texto "Boot") b) q

-- `BootOrder` names no entry.
pub numero_de-boot_order : numero_de (nome_variavel (texto "BootOrder")) ≡ none
unfolding numero_de strip_suffix strip_prefix numero_hexa equal
numero_de-boot_order = refl

pub nome_boot-inj :
    (m n : ℕ)
    → m < 65536
    → n < 65536
    → nome_variavel (nome_boot m) ≡ nome_variavel (nome_boot n)
    → m ≡ n
nome_boot-inj m n h k e = cc (numero_de-nome_boot m h, numero_de-nome_boot n k, ap numero_de e)

pub nome_boot-apart :
    (n : ℕ) → n < 65536 → nome_variavel (nome_boot n) ≢ nome_variavel (texto "BootOrder")
nome_boot-apart n h e = cc (numero_de-nome_boot n h, numero_de-boot_order, ap numero_de e)
