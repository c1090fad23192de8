-- ===== src/Rotation/Whole.antt =====
-- The branches of `rotaciona` put together: what each way to return leaves on the ESP.
use mathlib.Core.Path.{subst}
use distropica.Effects.Triple.{Ends, Triple, >>=-Triple, Triple-mono}
use distropica.Effects.{◌>>=◌, pure, gets, from_option}
use distropica.Prelude.{
  ℕ, ◌≡◌, refl, sym, ◌∙◌, ap, inl, Bool, true, false, not, ◌||◌, Option, none, some, if◌then◌else◌,
  equal_iff, Bytes, arith,
}
use distropica.Rotation.Branches.{Salvo, Falho, Feito, troca_lem, rotaciona_atual_lem}
use distropica.Rotation.Calls.{Na, depois, neutra_lem, medida_lem}
use distropica.Rotation.Write.{Antes, Trocado, Inteiro}
use distropica.Rotation.{
  Rodando, atual, anterior, desconhecido, Acao, ja_atual, rotacionou, trocou_atual, Nodo, ausente,
  arquivo, diretorio, Raiz, Mundo, io, M, ja_instalado, troca, rotaciona_atual, comprimento,
  tamanho, eh_arquivo, eh_anterior, rotaciona_de,
}

module _ (a : Nodo) (novo : Bytes) where
  pub Antes-Falho :
      (rodando : Rodando) (c : Nodo) (r : Raiz) → Antes a c r → Falho rodando c a novo r
  Antes-Falho anterior c r p = (p.0, inl p.1)
  Antes-Falho atual (arquivo b) r p = inl p.1
  Antes-Falho atual ausente r p = (p.0, inl p.1)
  Antes-Falho atual (diretorio n) r p = (p.0, inl p.1)
  Antes-Falho desconhecido (arquivo b) r p = inl p.1
  Antes-Falho desconhecido ausente r p = (p.0, inl p.1)
  Antes-Falho desconhecido (diretorio n) r p = (p.0, inl p.1)

  abbrev Instalado : Nodo → Bool → Mundo → Type 0
  Instalado c x m = Antes a c m.raiz × (x ≡ true → c ≡ arquivo novo)

  instalado_lem :
      (rodando : Rodando) (c : Nodo)
      → Triple
          (Na (Antes a c))
          (ja_instalado c novo)
          (Instalado c)
          (λ _. Na (Falho rodando c a novo))
  unfolding ja_instalado
  instalado_lem rodando (arquivo b) =
      depois (Antes a (arquivo b)) (Antes a (arquivo b)) _ (Falho rodando (arquivo b) a novo) _ _
        (neutra_lem (Antes a (arquivo b)) (Falho rodando (arquivo b) a novo)
          (Antes-Falho rodando (arquivo b)))
        (λ m p. (p, λ e. ap arquivo ((equal_iff b novo).0 e)))
  instalado_lem rodando ausente = λ m p. (p, λ e. cc)
  instalado_lem rodando (diretorio n) = λ m p. (p, λ e. cc)

  abbrev trocando : Rodando → Nodo → ℕ → M Acao
  trocando rodando c d =
      if eh_anterior rodando || not (eh_arquivo c)
      then troca d novo (eh_arquivo c)
      else tamanho a >>= λ recuperavel. rotaciona_atual d recuperavel novo

  abbrev Certo : Rodando → Nodo → M Acao → Type 0
  Certo rodando c m =
      Triple (Na (Antes a c)) m (λ acao s. Feito rodando c a novo acao s.raiz)
        (λ _. Na (Falho rodando c a novo))

  -- The action that `troca` reports is made good by what it leaves.
  Feito-troca :
      (rodando : Rodando) (c : Nodo) (r : Raiz)
      → (eh_anterior rodando || not (eh_arquivo c)) ≡ true
      → Trocado a novo r
      → Feito rodando c a novo (if eh_arquivo c then trocou_atual else rotacionou) r
  unfolding eh_arquivo eh_anterior
  Feito-troca anterior (arquivo b) r h p = (p.0, p.1, refl, refl)
  Feito-troca rodando ausente r h p = (p.0, p.1, ground arith)
  Feito-troca rodando (diretorio n) r h p = (p.0, p.1, ground arith)
  Feito-troca atual (arquivo b) r h p = cc
  Feito-troca desconhecido (arquivo b) r h p = cc

  Falho-troca :
      (rodando : Rodando) (c : Nodo) (r : Raiz)
      → (eh_anterior rodando || not (eh_arquivo c)) ≡ true
      → Inteiro a c novo r
      → Falho rodando c a novo r
  unfolding eh_arquivo eh_anterior
  Falho-troca anterior c r h p = p
  Falho-troca atual ausente r h p = p
  Falho-troca atual (diretorio n) r h p = p
  Falho-troca desconhecido ausente r h p = p
  Falho-troca desconhecido (diretorio n) r h p = p
  Falho-troca atual (arquivo b) r h p = cc
  Falho-troca desconhecido (arquivo b) r h p = cc

  Certo-troca :
      (rodando : Rodando) (c : Nodo) (d : ℕ)
      → (eh_anterior rodando || not (eh_arquivo c)) ≡ true
      → Certo rodando c (troca d novo (eh_arquivo c))
  Certo-troca rodando c d h =
      Triple-mono
        (λ acao m.
          Trocado a novo m.raiz × (acao ≡ (if eh_arquivo c then trocou_atual else rotacionou)))
        (λ acao m. Feito rodando c a novo acao m.raiz) (λ _. Na (Inteiro a c novo))
        (λ _. Na (Falho rodando c a novo)) (Na (Antes a c)) (troca d novo (eh_arquivo c))
        (λ acao m p.
          subst (λ x. Feito rodando c a novo x m.raiz) (sym p.1)
            (Feito-troca rodando c m.raiz h p.0))
        (λ _ m p. Falho-troca rodando c m.raiz h p) (troca_lem a c novo d (eh_arquivo c))

  Feito-rotacao :
      (rodando : Rodando) (b : Bytes) (r : Raiz)
      → eh_anterior rodando ≡ false
      → Trocado (arquivo b) novo r
      → Feito rodando (arquivo b) a novo rotacionou r
  unfolding eh_arquivo
  Feito-rotacao rodando b r h p = (p.0, p.1, ground arith)

  Falho-rotacao :
      (rodando : Rodando) (b : Bytes) (r : Raiz)
      → eh_anterior rodando ≡ false
      → Salvo b novo r
      → Falho rodando (arquivo b) a novo r
  unfolding eh_anterior
  Falho-rotacao anterior b r h p = cc
  Falho-rotacao atual b r h p = p
  Falho-rotacao desconhecido b r h p = p

  Certo-rotacao :
      (rodando : Rodando) (b : Bytes) (d recuperavel : ℕ)
      → eh_anterior rodando ≡ false
      → Certo rodando (arquivo b) (rotaciona_atual d recuperavel novo)
  Certo-rotacao rodando b d recuperavel h m p =
      Triple-mono (λ acao s. Trocado (arquivo b) novo s.raiz × (acao ≡ rotacionou))
        (λ acao s. Feito rodando (arquivo b) a novo acao s.raiz) (λ _. Na (Salvo b novo))
        (λ _. Na (Falho rodando (arquivo b) a novo)) (Na (Antes a (arquivo b)))
        (rotaciona_atual d recuperavel novo)
        (λ acao s q.
          subst (λ x. Feito rodando (arquivo b) a novo x s.raiz) (sym q.1)
            (Feito-rotacao rodando b s.raiz h q.0))
        (λ _ s q. Falho-rotacao rodando b s.raiz h q)
        (λ s q. rotaciona_atual_lem b novo d recuperavel s q.1) m p

  Certo-medindo :
      (rodando : Rodando) (b : Bytes) (d : ℕ)
      → eh_anterior rodando ≡ false
      → Certo rodando (arquivo b) (tamanho a >>= λ recuperavel. rotaciona_atual d recuperavel novo)
  unfolding tamanho
  Certo-medindo rodando b d h =
      medida_lem (Antes a (arquivo b)) (Falho rodando (arquivo b) a novo)
        (λ acao s. Feito rodando (arquivo b) a novo acao s.raiz) (comprimento a) 0
        (λ recuperavel. rotaciona_atual d recuperavel novo)
        (Certo-rotacao rodando b d (comprimento a) h) (Certo-rotacao rodando b d 0 h)

  Certo-trocando : (rodando : Rodando) (c : Nodo) (d : ℕ) → Certo rodando c (trocando rodando c d)
  unfolding eh_arquivo eh_anterior
  Certo-trocando anterior c d = Certo-troca anterior c d refl
  Certo-trocando atual (arquivo b) d = Certo-medindo atual b d refl
  Certo-trocando atual ausente d = Certo-troca atual ausente d refl
  Certo-trocando atual (diretorio n) d = Certo-troca atual (diretorio n) d refl
  Certo-trocando desconhecido (arquivo b) d = Certo-medindo desconhecido b d refl
  Certo-trocando desconhecido ausente d = Certo-troca desconhecido ausente d refl
  Certo-trocando desconhecido (diretorio n) d = Certo-troca desconhecido (diretorio n) d refl

  Certo-medido :
      (rodando : Rodando) (c : Nodo) (o : Option ℕ)
      → Certo rodando c (from_option io o >>= trocando rodando c)
  unfolding ◌>>=◌
  Certo-medido rodando c none m p = Antes-Falho rodando c m.raiz p
  Certo-medido rodando c (some d) m p = Certo-trocando rodando c d m p

  Certo-resto :
      (rodando : Rodando) (c : Nodo) (x : Bool) (m : Mundo)
      → Instalado c x m
      → Ends
          (λ acao s. Feito rodando c a novo acao s.raiz)
          (λ _. Na (Falho rodando c a novo))
          ((if x then pure ja_atual else from_option io m.livres >>= trocando rodando c) m)
  Certo-resto rodando c true m p = (p.0.0, p.0.1 ∙ p.1 refl, p.1 refl)
  Certo-resto rodando c false m p = Certo-medido rodando c m.livres m p.0

  Certo-lido :
      (rodando : Rodando) (c : Nodo)
      → Certo rodando c (
          ja_instalado c novo >>= λ igual. gets (λ m. m.livres) >>= λ medido.
          if igual then pure ja_atual else from_option io medido >>= trocando rodando c)
  Certo-lido rodando c =
      >>=-Triple (Na (Antes a c)) (Instalado c) (λ acao s. Feito rodando c a novo acao s.raiz)
        (λ _. Na (Falho rodando c a novo)) (ja_instalado c novo) _ (instalado_lem rodando c)
        (λ x m p. unfold ◌>>=◌ in Certo-resto rodando c x m p)

  -- With the metadata of the current name read.
  pub rotaciona_de_lem :
      (rodando : Rodando) (c t : Nodo)
      → Certo rodando c (
          rotaciona_de
            (record { efi_atual = c; efi_anterior = a; temporario = t })
            novo
            rodando
            (eh_arquivo c))
  unfolding rotaciona_de eh_arquivo ja_instalado
  rotaciona_de_lem rodando (arquivo b) t = Certo-lido rodando (arquivo b)
  rotaciona_de_lem rodando ausente t = Certo-lido rodando ausente
  rotaciona_de_lem rodando (diretorio n) t = Certo-lido rodando (diretorio n)

  troca_sem_atual :
      (rodando : Rodando) (c : Nodo) (o : Option ℕ)
      → Triple
          (Na (Antes a c))
          (from_option io o >>= λ d. troca d novo false)
          (λ acao m. Feito rodando ausente a novo acao m.raiz)
          (λ _. Na (Inteiro a c novo))
  unfolding ◌>>=◌ eh_arquivo
  troca_sem_atual rodando c none m p = (p.0, inl p.1)
  troca_sem_atual rodando c (some d) m p =
      Triple-mono (λ acao m. Trocado a novo m.raiz × (acao ≡ rotacionou))
        (λ acao m. Feito rodando ausente a novo acao m.raiz) (λ _. Na (Inteiro a c novo))
        (λ _. Na (Inteiro a c novo)) (Na (Antes a c)) (troca d novo false)
        (λ acao m p.
          subst (λ x. Feito rodando ausente a novo x m.raiz) (sym p.1) (p.0.0, p.0.1, ground arith))
        (λ _ m p. p) (troca_lem a c novo d false) m p

  -- With the metadata unread, the current name counts as absent and is replaced.
  pub rotaciona_de-sem_atual :
      (rodando : Rodando) (c t : Nodo)
      → Triple
          (Na (Antes a c))
          (rotaciona_de
            (record { efi_atual = c; efi_anterior = a; temporario = t })
            novo
            rodando
            false)
          (λ acao m. Feito rodando ausente a novo acao m.raiz)
          (λ _. Na (Inteiro a c novo))
  unfolding rotaciona_de eh_anterior ◌>>=◌
  rotaciona_de-sem_atual anterior c t m p = unfold ◌>>=◌ in troca_sem_atual anterior c m.livres m p
  rotaciona_de-sem_atual atual c t m p = unfold ◌>>=◌ in troca_sem_atual atual c m.livres m p
  rotaciona_de-sem_atual desconhecido c t m p =
      unfold ◌>>=◌ in troca_sem_atual desconhecido c m.livres m p
