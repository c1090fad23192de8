-- ===== src/Rotation/Progress.antt =====
-- With no failing call, `rotaciona` refuses only what it must and completes otherwise.
use distropica.Effects.{ok, err, ◌>>=◌}
use distropica.Prelude.{
  ℕ, ◌+◌, ◌^◌, ◌≤◌, ◌<◌, ◌≡◌, ◌≢◌, refl, true, some, [], ◌∷◌, if◌then◌else◌, equal, equal_iff,
  length, Bytes, arith,
}
use distropica.Rotation.{
  Rodando, anterior, ja_atual, rotacionou, trocou_atual, Nodo, ausente, arquivo, diretorio, Mundo,
  sem_espaco, eh_arquivo, eh_anterior, rotaciona_de, rotaciona, comprimento, tamanho, folga,
  ja_instalado, troca, rotaciona_atual, escreve_trocando, chamada, ignora, remove_temporario,
  cria_temporario, renomeia_temporario, remove_anterior, guarda_atual, medida,
}

abbrev pub SemDiretorio : Nodo → Type 0
SemDiretorio (diretorio n) = ⊥
SemDiretorio _ = Unit {0}

-- The bytes that the branch may use: the old reserve gives its own back unless it runs.
abbrev pub espaco : Rodando → ℕ → Nodo → ℕ
espaco anterior d a = d
espaco _ d a = d + comprimento a

-- An ESP with these names and this free space, where no call will fail.
abbrev pub sem_falhas : Nodo → Nodo → Nodo → ℕ → Mundo
sem_falhas c a t d = record {
  raiz = record { efi_atual = c; efi_anterior = a; temporario = t };
  livres = some d;
  falhas = [];
}

escreve_completa :
    (c a t : Nodo) (d : ℕ) (novo : Bytes)
    → SemDiretorio c
    → SemDiretorio t
    → escreve_trocando novo (sem_falhas c a t d) ≡ (ok tt, sem_falhas (arquivo novo) a ausente d)
unfolding escreve_trocando ◌>>=◌ chamada ignora remove_temporario cria_temporario
    renomeia_temporario
escreve_completa (arquivo b) a (arquivo x) d novo hc ht = refl
escreve_completa (arquivo b) a ausente d novo hc ht = refl
escreve_completa ausente a (arquivo x) d novo hc ht = refl
escreve_completa ausente a ausente d novo hc ht = refl
escreve_completa c a (diretorio n) d novo hc ht = absurd ht
escreve_completa (diretorio n) a t d novo hc ht = absurd hc

module _ (b : Bytes) (t : Nodo) (d : ℕ) (novo : Bytes) where
  troca_completa :
      (a : Nodo)
      → SemDiretorio t
      → length novo + folga ≤ d
      → troca d novo true (sem_falhas (arquivo b) a t d)
        ≡ (ok trocou_atual, sem_falhas (arquivo novo) a ausente d)
  unfolding troca ◌>>=◌
  troca_completa a ht e = ground (arith, escreve_completa (arquivo b) a t d novo tt ht)

  rotaciona_atual_completa :
      (a : Nodo)
      → SemDiretorio t
      → SemDiretorio a
      → length novo + folga ≤ d + comprimento a
      → d + comprimento a < 2 ^ 64
      → rotaciona_atual d (comprimento a) novo (sem_falhas (arquivo b) a t d)
        ≡ (ok rotacionou, sem_falhas (arquivo novo) (arquivo b) ausente d)
  unfolding rotaciona_atual ◌>>=◌ chamada remove_anterior guarda_atual comprimento
  rotaciona_atual_completa ausente ht ha e l =
      ground (arith, escreve_completa ausente (arquivo b) t d novo tt ht)
  rotaciona_atual_completa (arquivo x) ht ha e l =
      ground (arith, escreve_completa ausente (arquivo b) t d novo tt ht)
  rotaciona_atual_completa (diretorio n) ht ha e l = absurd ha

-- On an ESP with a current file, with no failing call and no directory at the names it writes,
-- and with room for the new bytes (counting the old reserve's where that goes), `rotaciona`
-- of a non-empty file completes: it does nothing if the current file already holds the bytes;
-- it replaces the current file if the machine runs from the reserve; otherwise the current file
-- becomes the reserve and the new bytes the current file.
pub rotaciona_completes :
    (b novo : Bytes) (a t : Nodo) (d : ℕ) (rodando : Rodando)
    → novo ≢ []
    → SemDiretorio a
    → SemDiretorio t
    → length novo + folga ≤ espaco rodando d a
    → d + comprimento a < 2 ^ 64
    → rotaciona novo rodando (sem_falhas (arquivo b) a t d) ≡ (
        if equal b novo
        then (ok ja_atual, sem_falhas (arquivo b) a t d)
        else if eh_anterior rodando
        then (ok trocou_atual, sem_falhas (arquivo novo) a ausente d)
        else (ok rotacionou, sem_falhas (arquivo novo) (arquivo b) ausente d))
unfolding rotaciona rotaciona_de ◌>>=◌ chamada medida tamanho equal ja_instalado eh_arquivo
    eh_anterior
rotaciona_completes b [] a t d rodando ne ha ht e l = absurd (ne refl)
rotaciona_completes b (x ∷ xs) a t d anterior ne ha ht e l =
    ground (arith, troca_completa b t d (x ∷ xs) a ht)
rotaciona_completes b (x ∷ xs) a t d rodando ne ha ht e l =
    ground (arith, rotaciona_atual_completa b t d (x ∷ xs) a ht ha)

-- Without that room it refuses, with the ESP as it was.
pub rotaciona_no_space :
    (b novo : Bytes) (a t : Nodo) (d : ℕ) (rodando : Rodando)
    → novo ≢ []
    → b ≢ novo
    → espaco rodando d a < length novo + folga
    → d + comprimento a < 2 ^ 64
    → rotaciona novo rodando (sem_falhas (arquivo b) a t d)
      ≡ (err sem_espaco, sem_falhas (arquivo b) a t d)
unfolding rotaciona rotaciona_de ◌>>=◌ chamada medida tamanho equal ja_instalado eh_arquivo
    eh_anterior troca rotaciona_atual
rotaciona_no_space b [] a t d rodando ne df e l = absurd (ne refl)
rotaciona_no_space b (x ∷ xs) a t d anterior ne df e l = ground (arith, equal_iff b (x ∷ xs))
rotaciona_no_space b (x ∷ xs) a t d rodando ne df e l = ground (arith, equal_iff b (x ∷ xs))
