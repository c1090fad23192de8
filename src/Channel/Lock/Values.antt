-- ===== src/Channel/Lock/Values.antt =====
-- The values of the lines of `lock_body` of minitrue/src/channel.rs: names, versions, paths, hashes,
-- counts and words.
use distropica.Attest.Body.{exige-eq}
use distropica.Channel.Catalog.{ou_traco}
use distropica.Channel.Index.Accepted.{confere-eq}
use distropica.Channel.Index.{hash_opcional}
use distropica.Channel.Lock.Fields.{letra, chave_ok, valor_ok}
use distropica.Channel.Lock.{chave}
use distropica.Channel.{
  Trust, oficial, corroborado, builder, trust_str, hexadecimal, lower_hex, de_caminho,
  artifact_path_ok, validate_artifact_path,
}
use distropica.Effects.{ok}
use distropica.Prelude.{
  ℕ, ◌≡◌, refl, sym, ◌∙◌, ap, Bool, true, false, Option, none, some, [], ◌∷◌, ◌++◌, ltb, ◌==◌,
  if◌then◌else◌, length, all, arith, Bool-cases, inl, inr, ambos, false-ne-true, Bytes, ◌+◌, ◌/◌,
  ◌%◌,
}
use distropica.Recipe.{
  validate_name, validate_version, primeiro_ok, minuscula_ou_digito, de_nome, alfanumerico,
  versao_ok, de_versao,
}
use distropica.Text.Decimal.{all-append, digito, to_string-digito, to_string-is_empty}
use distropica.Text.Pieces.{texto, to_string}
use distropica.Text.Printable.{grafico, all-weaken}
use distropica.Text.Trim.{is_empty}
use distropica.Text.Utf16.{Text}
use distropica.Text.Utf8.{utf8, utf8_of}

ponto-is_empty : (t r : Text) → is_empty (t ++ b'.' ∷ r) ≡ false
unfolding is_empty
ponto-is_empty [] r = refl
ponto-is_empty (c ∷ t) r = refl

digito-letra : (t : Text) → all digito t ≡ true → all letra t ≡ true
digito-letra t h = all-weaken digito letra (λ c d. ground (arith, d)) t h

pub chave-chave_ok :
    (tipo : Text) (index : ℕ) (campo : Text)
    → all letra tipo ≡ true
    → all letra campo ≡ true
    → chave_ok (chave tipo index campo) ≡ true
chave-chave_ok tipo index campo h g =
    rw
      (
        ponto-is_empty tipo (to_string index ++ b'.' ∷ campo),
        all-append letra tipo (b'.' ∷ (to_string index ++ b'.' ∷ campo)),
        h,
        all-append letra (to_string index) (b'.' ∷ campo),
        digito-letra (to_string index) (to_string-digito index),
        g,
      )
      refl

pub to_string-valor_ok : (n : ℕ) → valor_ok (to_string n) ≡ true
to_string-valor_ok n =
    rw
      (
        to_string-is_empty n,
        all-weaken digito grafico (λ c d. ground (arith, d)) (to_string n) (to_string-digito n),
      )
      refl

primeiro_ok-valor_ok : (n : Text) → primeiro_ok n ≡ true → valor_ok n ≡ true
unfolding is_empty
primeiro_ok-valor_ok [] h = cc (h)
primeiro_ok-valor_ok (c ∷ cs) h =
    rw
      (all-weaken de_nome grafico (λ d g. ground (arith, g)) cs
        (ambos (minuscula_ou_digito c) (all de_nome cs) h).1)
      (ground (arith, h))

pub validate_name-valor_ok : (n : Text) → validate_name n ≡ ok tt → valor_ok n ≡ true
unfolding validate_name
validate_name-valor_ok n h = primeiro_ok-valor_ok n (ground (arith, exige-eq _ h))

versao_ok-valor_ok : (v : Text) → versao_ok v ≡ true → valor_ok v ≡ true
unfolding is_empty
versao_ok-valor_ok [] h = cc (h)
versao_ok-valor_ok (c ∷ cs) h =
    rw
      (all-weaken de_versao grafico (λ d g. ground (arith, g)) cs
        (ambos (alfanumerico c) (all de_versao cs) h).1)
      (ground (arith, h))

pub validate_version-valor_ok : (v : Text) → validate_version v ≡ ok tt → valor_ok v ≡ true
unfolding validate_version
validate_version-valor_ok v h = versao_ok-valor_ok v (ground (arith, exige-eq _ h))

abbrev Primeiro : ℕ → Type 0
Primeiro c = (r : Bytes) → (q : ℕ) × (qs : Bytes) × (utf8_of c r ≡ q ∷ qs) × (ltb q 0x80 ≡ false)

-- The first byte of a character out of ASCII is out of ASCII.
fora_de_ascii : (c : ℕ) → ltb c 0x80 ≡ false → Primeiro c
unfolding utf8_of
fora_de_ascii c b r = elim (Bool-cases (ltb c 0x800)) [
  | inl d ↦ (0xc0 + c / 0x40, (0x80 + c % 0x40) ∷ r, rw (b, d) refl, ground arith)
  | inr d ↦ elim (Bool-cases (ltb c 0x10000)) [
    | inl e ↦ (
      0xe0 + c / 0x1000,
      (0x80 + c / 0x40 % 0x40) ∷ (0x80 + c % 0x40) ∷ r,
      rw (b, d, e) refl,
      ground arith,
    )
    | inr e ↦ (
      0xf0 + c / 0x40000,
      (0x80 + c / 0x1000 % 0x40) ∷ (0x80 + c / 0x40 % 0x40) ∷ (0x80 + c % 0x40) ∷ r,
      rw (b, d, e) refl,
      ground arith,
    )
  ]
]

-- Bytes of one kind within ASCII are the characters.
um_byte : (c : ℕ) (r : Bytes) → ltb c 0x80 ≡ true → utf8_of c r ≡ c ∷ r
unfolding utf8_of
um_byte c r b = rw b refl

all-utf8 :
    (p : ℕ → Bool)
    → ((b : ℕ) → p b ≡ true → ltb b 0x80 ≡ true)
    → (t : Text) → all p (utf8 t) ≡ true
    → all p t ≡ true
unfolding utf8
all-utf8 p f [] h = refl
all-utf8 p f (c ∷ t) h = elim (Bool-cases (ltb c 0x80)) [
  | inl b ↦
      let (x, y) = ambos (p c) (all p (utf8 t)) (ap (all p) (sym (um_byte c (utf8 t) b)) ∙ h) in
      rw (x, all-utf8 p f t y) refl
  | inr b ↦
      let (q, qs, e, n) = fora_de_ascii c b (utf8 t) in
      absurd (false-ne-true (sym n ∙ f q (ambos (p q) (all p qs) (ap (all p) (sym e) ∙ h)).0))
]

pub lower_hex-valor_ok : (v : Text) → lower_hex v ≡ true → valor_ok v ≡ true
unfolding lower_hex is_empty utf8
lower_hex-valor_ok v h =
    let (l, a) = ambos (length (utf8 v) == 64) (all hexadecimal (utf8 v)) h in
    rw
      (
        all-weaken hexadecimal grafico (λ c x. ground (arith, x)) v
            (all-utf8 hexadecimal (λ b x. ground (arith, x)) v a),
        cheio v l,
      )
      refl
  where
    cheio : (v : Text) → (length (utf8 v) == 64) ≡ true → is_empty v ≡ false
    cheio [] l = absurd (false-ne-true l)
    cheio (c ∷ v) l = refl

pub caminho-valor_ok : (v : Text) → validate_artifact_path v ≡ ok tt → valor_ok v ≡ true
unfolding validate_artifact_path artifact_path_ok
caminho-valor_ok v h =
    let a : all de_caminho (utf8 v) ≡ true = ground (arith, confere-eq _ h) in
    let n : is_empty v ≡ false = ground (arith, confere-eq _ h) in
    rw
      (
        all-weaken de_caminho grafico (λ c x. ground (arith, x)) v
            (all-utf8 de_caminho (λ b x. ground (arith, x)) v a),
        n,
      )
      refl

pub ou_traco-valor_ok : (o : Option Text) → hash_opcional o ≡ true → valor_ok (ou_traco o) ≡ true
unfolding is_empty
ou_traco-valor_ok none h = refl
ou_traco-valor_ok (some v) h = lower_hex-valor_ok v h

pub trust_str-valor_ok : (t : Trust) → valor_ok (trust_str t) ≡ true
unfolding is_empty
trust_str-valor_ok oficial = refl
trust_str-valor_ok corroborado = refl
trust_str-valor_ok builder = refl

pub sim_nao-valor_ok : (b : Bool) → valor_ok (if b then texto "yes" else texto "no") ≡ true
unfolding is_empty
sim_nao-valor_ok true = refl
sim_nao-valor_ok false = refl
