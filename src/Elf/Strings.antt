-- ===== src/Elf/Strings.antt =====
-- The strings of an object and the first line of a script are read back as they were written:
-- `cstr` and `parse_shebang` of minitrue/src/elf.rs.
use distropica.Effects.{ok}
use distropica.Elf.Ranges.{posicao_nul, max_string, com_texto, ate, cstr}
use distropica.Elf.Shebang.{primeira_linha, palavras, script_de, parse_shebang}
use distropica.Prelude.Options.{◌>>=◌}
use distropica.Prelude.{
  ℕ, zero, suc, ◌+◌, ◌<◌, ◌≡◌, refl, sym, ◌∙◌, ap, subst, append-nil, append_assoc, ==_iff,
  false-ne-true, ambos, nega, Bool, true, false, not, some, [], ◌∷◌, ◌++◌, ltb, ◌==◌, all, length,
  take, drop, Bytes, arith, take-append, drop-append, length-append, Bool-cases, inl, inr,
}
use distropica.Text.Pieces.{texto, strip_prefix, is_whitespace, sem_espaco}
use distropica.Text.Utf16.{Text, is_scalar, is_char, all-is_scalar_of_char}
use distropica.Text.Utf8.{utf8, utf8_of, from_utf8, from_utf8-utf8}

-- No character, or byte, is `b`.
abbrev pub sem : ℕ → Text → Bool
sem b t = all (λ c. not (c == b)) t

-- An ASCII byte is in the encoding of a text only where the text has it.
sem-utf8 : (b : ℕ) (t : Text) → ltb b 0x80 ≡ true → sem b t ≡ true → sem b (utf8 t) ≡ true
unfolding utf8 utf8_of
sem-utf8 b [] lt h = refl
sem-utf8 b (c ∷ cs) lt h = ground (arith, sem-utf8 b cs lt)

posicao_nul-append :
    (limite : ℕ) (bs rest : Bytes)
    → length bs < limite
    → sem 0 bs ≡ true
    → posicao_nul limite (bs ++ 0 ∷ rest) ≡ some (length bs)
unfolding posicao_nul
posicao_nul-append zero bs rest lt h = absurd (omega arith)
posicao_nul-append (suc limite) [] rest lt h = refl
posicao_nul-append (suc limite) (b ∷ bs) rest lt h =
    grind (arith, posicao_nul-append limite bs rest)

sem_nul : (t : Text) → all is_char t ≡ true → sem 0 t ≡ true
sem_nul [] h = refl
sem_nul (c ∷ cs) h = ground (arith, sem_nul cs)

ge : (a b : ℕ) → ltb (a + b) a ≡ false
ge a b = ground arith

cstr-some :
    (buf rest : Bytes) (at fim : ℕ) (t : Text)
    → ltb (length buf) at ≡ false
    → drop at buf ≡ rest
    → posicao_nul max_string rest ≡ some fim
    → from_utf8 (take fim rest) ≡ some t
    → cstr buf at ≡ ok t
unfolding cstr
cstr-some buf rest at fim t h d n u =
    rw h (ap (λ r. ate r (posicao_nul max_string r)) d ∙ ap (ate rest) n ∙ ap com_texto u)

-- A terminated string of a table is read back: a text without NUL of fewer than 4096 bytes, at its
-- place in the table.
pub cstr-utf8 :
    (before after : Bytes) (t : Text)
    → all is_char t ≡ true
    → length (utf8 t) < 4096
    → cstr (before ++ (utf8 t ++ 0 ∷ after)) (length before) ≡ ok t
cstr-utf8 before after t h lt =
    cstr-some _ (utf8 t ++ 0 ∷ after) (length before) (length (utf8 t)) t
      (rw (length-append before (utf8 t ++ 0 ∷ after))
        (ge (length before) (length (utf8 t ++ 0 ∷ after))))
      (drop-append (length before) before (utf8 t ++ 0 ∷ after) refl)
      (posicao_nul-append max_string (utf8 t) after lt (sem-utf8 0 t refl (sem_nul t h)))
      (rw (take-append (length (utf8 t)) (utf8 t) (0 ∷ after) refl)
        (from_utf8-utf8 t (all-is_scalar_of_char t h)))

primeira_linha-append :
    (bs rest : Bytes) → sem 0x0a bs ≡ true → primeira_linha (bs ++ 0x0a ∷ rest) ≡ bs
unfolding primeira_linha
primeira_linha-append [] rest h = refl
primeira_linha-append (b ∷ bs) rest h = grind (arith, primeira_linha-append bs rest)

palavras-append :
    (atual p cs : Text) → sem_espaco p ≡ true → palavras atual (p ++ cs) ≡ palavras (atual ++ p) cs
unfolding palavras
palavras-append atual [] cs h = rw (append-nil atual) refl
palavras-append atual (c ∷ p) cs h =
    let (hc, hp) = ambos _ _ h in
    rw (nega (is_whitespace c) hc) (
      palavras-append (atual ++ c ∷ []) p cs hp
      ∙ ap (λ t. palavras t cs) (append_assoc atual (c ∷ []) p))

duas_palavras :
    (p q : Text) (x y : ℕ)
    → sem_espaco (x ∷ p) ≡ true
    → sem_espaco (y ∷ q) ≡ true
    → palavras [] ((x ∷ p) ++ 0x20 ∷ y ∷ q) ≡ (x ∷ p) ∷ (y ∷ q) ∷ []
unfolding palavras
duas_palavras p q x y h g =
    palavras-append [] (x ∷ p) (0x20 ∷ y ∷ q) h
    ∙ ap (λ ps. (x ∷ p) ∷ ps)
        (ap (palavras []) (sym (append-nil (y ∷ q))) ∙ palavras-append [] (y ∷ q) [] g)

nao_e_linha : (c : ℕ) → not (is_whitespace c) ≡ true → not (c == 0x0a) ≡ true
nao_e_linha c h = elim (Bool-cases (c == 0x0a)) [
  | inl e ↦
      absurd (false-ne-true (subst (λ c. not (is_whitespace c) ≡ true) ((==_iff c 0x0a).0 e) h))
  | inr e ↦ rw e refl
]

sem_linha : (t : Text) → sem_espaco t ≡ true → sem 0x0a t ≡ true
sem_linha [] h = refl
sem_linha (c ∷ cs) h = let (hc, hcs) = ambos _ _ h in rw (nao_e_linha c hc, sem_linha cs hcs) refl

todos : (p : ℕ → Bool) (xs ys : Text) → all p xs ≡ true → all p ys ≡ true → all p (xs ++ ys) ≡ true
todos p [] ys h g = g
todos p (x ∷ xs) ys h g =
    let (hx, hxs) = ambos (p x) (all p xs) h in rw (hx, todos p xs ys hxs g) refl

linha_lem :
    (bs rest : Bytes) (t : Text)
    → sem 0x0a bs ≡ true
    → from_utf8 bs ≡ some t
    → parse_shebang (texto "#!" ++ (bs ++ 0x0a ∷ rest)) ≡ script_de (palavras [] t)
unfolding parse_shebang strip_prefix
linha_lem bs rest t h u =
    ap (λ l. from_utf8 l >>= λ t'. script_de (palavras [] t')) (primeira_linha-append bs rest h)
    ∙ ap (λ o. o >>= λ t'. script_de (palavras [] t')) u

-- A script whose first line is `#!`, an absolute interpreter, a space and one argument, both free
-- of white space, is read back as that interpreter and argument, whatever follows the line.
pub parse_shebang-utf8 :
    (i a : Text) (y : ℕ) (rest : Bytes)
    → all is_scalar i ≡ true
    → all is_scalar (y ∷ a) ≡ true
    → sem_espaco i ≡ true
    → sem_espaco (y ∷ a) ≡ true
    → parse_shebang (texto "#!" ++ (utf8 ((b'/' ∷ i) ++ 0x20 ∷ y ∷ a) ++ 0x0a ∷ rest))
      ≡ some (record { interpreter = b'/' ∷ i; argument = some (y ∷ a) })
unfolding script_de
parse_shebang-utf8 i a y rest hi ha wi wa =
    linha_lem (utf8 (primeira ++ 0x20 ∷ segunda)) rest (primeira ++ 0x20 ∷ segunda)
      (sem-utf8 0x0a (primeira ++ 0x20 ∷ segunda) refl (
        todos (λ c. not (c == 0x0a)) primeira (0x20 ∷ segunda) (sem_linha primeira wi)
          (sem_linha segunda wa)))
      (from_utf8-utf8 (primeira ++ 0x20 ∷ segunda)
        (todos is_scalar primeira (0x20 ∷ segunda) hi ha))
    ∙ ap script_de (duas_palavras i a b'/' y wi wa)
  where
    primeira : Text
    primeira = b'/' ∷ i

    segunda : Text
    segunda = y ∷ a
