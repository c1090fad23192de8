-- ===== src/Text/Decimal.antt =====
-- The decimal digits of a number under `parse`.
use distropica.Prelude.Options.{◌>>=◌}
use distropica.Prelude.{
  ℕ, zero, suc, ◌+◌, ◌-◌, ◌*◌, ◌/◌, ◌%◌, ◌^◌, ◌<◌, ◌≡◌, refl, ◌∙◌, ap, Bool, true, false, ◌&&◌,
  some, List, [], ◌∷◌, ◌++◌, ltb, all, arith, Bool-cases, inl, inr,
}
use distropica.Text.Pieces.{digitos, to_string, ler_digitos, parse_u64}
use distropica.Text.Trim.{is_empty}
use distropica.Text.Utf16.{Text}
use distropica.Text.Utf8.{within}

pub all-append :
    {A : Type 0} (p : A → Bool) (xs ys : List A) → all p (xs ++ ys) ≡ (all p xs && all p ys)
all-append p [] ys = refl
all-append p (x ∷ xs) ys = elim (Bool-cases (p x)) [
  | inl h ↦ rw h (all-append p xs ys)
  | inr h ↦ rw h refl
]

abbrev pub digito : ℕ → Bool
digito c = within b'0' b'9' c

ler-append :
    (k : ℕ) (xs ys : Text) → ler_digitos k (xs ++ ys) ≡ (ler_digitos k xs >>= λ m. ler_digitos m ys)
unfolding ler_digitos
ler-append k [] ys = refl
ler-append k (c ∷ xs) ys = elim (Bool-cases (digito c)) [
  | inl h ↦ elim (Bool-cases (ltb (k * 10 + (c - b'0')) (2 ^ 64))) [
    | inl l ↦ rw (h, l) (ler-append (k * 10 + (c - b'0')) xs ys)
    | inr l ↦ rw (h, l) refl
  ]
  | inr h ↦ rw h refl
]

ler_digitos-digit :
    (k d n : ℕ) → d < 10 → n ≡ k * 10 + d → n < 2 ^ 64 → ler_digitos k ((b'0' + d) ∷ []) ≡ some n
unfolding ler_digitos
ler_digitos-digit k d n h e l = ground arith

ler_digitos-digitos :
    (fuel n : ℕ) → n < 10 ^ fuel → n < 2 ^ 64 → ler_digitos 0 (digitos fuel n) ≡ some n
unfolding digitos ler_digitos
ler_digitos-digitos zero n h l = ap some (omega arith)
ler_digitos-digitos (suc fuel) n h l = elim (Bool-cases (ltb n 10)) [
  | inl b ↦ rw b (ler_digitos-digit 0 n n (ground arith) (omega arith) l)
  | inr b ↦ rw b (
      ler-append 0 (digitos fuel (n / 10)) ((b'0' + n % 10) ∷ [])
      ∙ rw (ler_digitos-digitos fuel (n / 10) (omega arith) (omega arith))
          (ler_digitos-digit (n / 10) (n % 10) n (omega arith) (omega arith) l))
]

digitos-digito : (fuel n : ℕ) → all digito (digitos fuel n) ≡ true
unfolding digitos
digitos-digito zero n = refl
digitos-digito (suc fuel) n = elim (Bool-cases (ltb n 10)) [
  | inl b ↦ rw b (ground arith)
  | inr b ↦ rw b (
      all-append digito (digitos fuel (n / 10)) ((b'0' + n % 10) ∷ [])
      ∙ rw (digitos-digito fuel (n / 10)) (ground arith))
]

pub to_string-digito : (n : ℕ) → all digito (to_string n) ≡ true
unfolding to_string
to_string-digito n = digitos-digito 20 n

-- Of a text of digits the sign of `parse` is no part.
parse_u64-digito :
    (t : Text) → is_empty t ≡ false → all digito t ≡ true → parse_u64 t ≡ ler_digitos 0 t
unfolding parse_u64 is_empty
parse_u64-digito [] e h = cc (e)
parse_u64-digito (c ∷ []) e h = refl
parse_u64-digito (c ∷ d ∷ ds) e h = ground (arith, h)

digitos-is_empty : (fuel n : ℕ) → is_empty (digitos (suc fuel) n) ≡ false
unfolding digitos is_empty
digitos-is_empty fuel n = elim (Bool-cases (ltb n 10)) [
  | inl b ↦ rw b refl
  | inr b ↦ rw b (push-is_empty (digitos fuel (n / 10)) (b'0' + n % 10))
]
  where
    push-is_empty : (t : Text) (c : ℕ) → is_empty (t ++ c ∷ []) ≡ false
    push-is_empty [] c = refl
    push-is_empty (d ∷ t) c = refl

pub to_string-is_empty : (n : ℕ) → is_empty (to_string n) ≡ false
unfolding to_string
to_string-is_empty n = digitos-is_empty 19 n

pub parse_u64-to_string : (n : ℕ) → n < 2 ^ 64 → parse_u64 (to_string n) ≡ some n
unfolding to_string
parse_u64-to_string n h =
    parse_u64-digito (digitos 20 n) (digitos-is_empty 19 n) (digitos-digito 20 n)
    ∙ ler_digitos-digitos 20 n (omega arith) h
