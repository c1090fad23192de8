-- ===== src/Rotation/Branches.antt =====
-- What each branch of `rotaciona` leaves on the ESP, whichever call fails.
use distropica.Effects.Triple.{Triple}
use distropica.Effects.{pure, guard}
use distropica.Prelude.{
  ℕ, ◌≡◌, refl, ◌⊎◌, inl, inr, Bool, true, false, ◌&&◌, some, ltb, if◌then◌else◌, Bytes, arith,
}
use distropica.Rotation.Calls.{Na, Chamando, atomica_lem, neutra_lem, depois, afrouxa}
use distropica.Rotation.Write.{Antes, Trocado, Inteiro, escreve_trocando_lem}
use distropica.Rotation.{
  Rodando, atual, anterior, desconhecido, Acao, ja_atual, rotacionou, trocou_atual, Nodo, ausente,
  arquivo, Raiz, Erro, sem_espaco, atomica, escreve_trocando, remove_anterior, guarda_atual, troca,
  rotaciona_atual, eh_arquivo, eh_anterior,
}

guard_lem :
    (P R : Raiz → Type 0) (b : Bool) (e : Erro)
    → ((r : Raiz) → P r → R r)
    → Chamando P (guard b e) P R
guard_lem P R true e h m p = p
guard_lem P R false e h m p = h m.raiz p

-- The space is measured before the first write: both branches refuse with the ESP as it was.
pub troca_lem :
    (a c : Nodo) (novo : Bytes) (disponivel : ℕ) (existe : Bool)
    → Triple
        (Na (Antes a c))
        (troca disponivel novo existe)
        (λ acao m. Trocado a novo m.raiz × (acao ≡ (if existe then trocou_atual else rotacionou)))
        (λ _. Na (Inteiro a c novo))
unfolding troca
troca_lem a c novo disponivel existe =
    depois (Antes a c) (Antes a c) _ (Inteiro a c novo) _ _
      (guard_lem (Antes a c) (Inteiro a c novo) _ sem_espaco (λ r p. (p.0, inl p.1)))
      (depois (Antes a c) (Trocado a novo) _ (Inteiro a c novo) _ _ (escreve_trocando_lem a c novo)
        (λ m p. (p, refl)))

module _ (b novo : Bytes) where
  abbrev NoAtual : Raiz → Type 0
  NoAtual r = r.efi_atual ≡ arquivo b

  abbrev NaReserva : Raiz → Type 0
  NaReserva = Antes (arquivo b) ausente

  -- The file that runs is under one of the two names, and the current name holds it, nothing or
  -- all of the new bytes.
  abbrev pub Salvo : Raiz → Type 0
  Salvo r =
      (r.efi_atual ≡ arquivo b)
      ⊎ ((r.efi_anterior ≡ arquivo b) × ((r.efi_atual ≡ ausente) ⊎ (r.efi_atual ≡ arquivo novo)))

  remove_NoAtual : (r r' : Raiz) → NoAtual r → remove_anterior r ≡ some r' → NoAtual r'
  unfolding remove_anterior
  remove_NoAtual r r' p e = ground arith

  guarda_NaReserva : (r r' : Raiz) → NoAtual r → guarda_atual r ≡ some r' → NaReserva r'
  unfolding guarda_atual
  guarda_NaReserva r r' p e = ground arith

  talvez_remove :
      (x : Bool) → Chamando NoAtual (if x then atomica remove_anterior else pure tt) NoAtual Salvo
  talvez_remove true = atomica_lem NoAtual NoAtual Salvo remove_anterior remove_NoAtual (λ r. inl)
  talvez_remove false = λ m p. p

  pub rotaciona_atual_lem :
      (disponivel recuperavel : ℕ)
      → Triple
          (Na NoAtual)
          (rotaciona_atual disponivel recuperavel novo)
          (λ acao m. Trocado (arquivo b) novo m.raiz × (acao ≡ rotacionou))
          (λ _. Na Salvo)
  unfolding rotaciona_atual
  rotaciona_atual_lem disponivel recuperavel =
      depois NoAtual NoAtual _ Salvo _ _ (guard_lem NoAtual Salvo _ sem_espaco (λ r. inl)) (
        depois NoAtual NoAtual _ Salvo _ _ (talvez_remove (ltb 0 recuperavel)) (
          depois NoAtual NoAtual _ Salvo _ _ (neutra_lem NoAtual Salvo (λ r. inl)) (
            depois NoAtual NaReserva _ Salvo _ _
              (atomica_lem NoAtual NaReserva Salvo guarda_atual guarda_NaReserva (λ r. inl))
              (depois NaReserva NaReserva _ Salvo _ _ (neutra_lem NaReserva Salvo reserva) (
                depois NaReserva NaReserva _ Salvo _ _ (neutra_lem NaReserva Salvo reserva) (
                  depois NaReserva (Trocado (arquivo b) novo) _ Salvo _ _
                    (afrouxa NaReserva (λ _. Na (Trocado (arquivo b) novo))
                      (Inteiro (arquivo b) ausente novo) Salvo (escreve_trocando novo) (λ r. inr)
                      (escreve_trocando_lem (arquivo b) ausente novo))
                    (λ m p. (p, refl))))))))
    where
      reserva : (r : Raiz) → NaReserva r → Salvo r
      reserva r p = inr (p.0, inl p.1)

-- What is there after an error: the reserve is untouched and the current name is whole where the
-- current name was to be replaced, and `Salvo` where the current file runs.
abbrev pub Falho : Rodando → Nodo → Nodo → Bytes → Raiz → Type 0
Falho anterior c a novo = Inteiro a c novo
Falho atual (arquivo b) a novo = Salvo b novo
Falho atual c a novo = Inteiro a c novo
Falho desconhecido (arquivo b) a novo = Salvo b novo
Falho desconhecido c a novo = Inteiro a c novo

-- What a success leaves, for each action it reports.
abbrev pub Feito : Rodando → Nodo → Nodo → Bytes → Acao → Raiz → Type 0
Feito rodando c a novo ja_atual r =
    (r.efi_anterior ≡ a) × (r.efi_atual ≡ arquivo novo) × (c ≡ arquivo novo)
Feito rodando c a novo trocou_atual r =
    (r.efi_anterior ≡ a)
    × (r.efi_atual ≡ arquivo novo)
    × (rodando ≡ anterior)
    × (eh_arquivo c ≡ true)
Feito rodando c a novo rotacionou r =
    (r.efi_anterior ≡ (if eh_arquivo c then c else a))
    × (r.efi_atual ≡ arquivo novo)
    × ((eh_anterior rodando && eh_arquivo c) ≡ false)
