-- ===== src/Arvore/Exchange.antt =====
-- The recipe tree is whole at every moment: `troca_atomica` and `recupera_troca_interrompida` of
-- minitrue/src/arvore.rs.
use distropica.Arvore.{
  Conteudo, ausente, arvore, restos, outro, Caminho, newspeak, novo, anterior, Disco, Erro,
  nao_removeu, nao_trocou, nao_renomeou, nao_sincronizou, Remocao, inteira, parcial, nenhuma,
  Falhas, le, poe, estado, diretorio_real_ou_ausente, removido, remove_dir_all,
  remove_diretorio_real_se_existe, chamada, exchange, rename, sync_all, ignora,
}
use distropica.Effects.Does.{Does, Does-bind, Does-escolhe, Does-entrega}
use distropica.Effects.Sealed.{escolhe, exige}
use distropica.Effects.{Outcome, ok, err, Exec, continue, ◌>>=◌}
use distropica.Prelude.{◌≡◌, refl, ◌∙◌, ap, Bool, true, false, ◌⊎◌, inl, inr}

module _ {A B : Type 0} (falhas : Falhas) {Q : Outcome Erro B → Disco A → Type 0}
    {s : Disco A} where
  pub Does-real :
      (p : Caminho) (k : Bool → Exec (Disco A) Erro B)
      → ((e : Erro) → Q (err e) s)
      → ((b : Bool) → estado (falhas.symlink_metadata p) (le p s) ≡ ok b → Does (k b) s Q)
      → Does (diretorio_real_ou_ausente falhas p >>= k) s Q
  unfolding diretorio_real_ou_ausente ◌>>=◌
  Does-real p k e d = record { holds = de (estado (falhas.symlink_metadata p) (le p s)) refl }
    where
      de :
          (o : Outcome Erro Bool)
          → estado (falhas.symlink_metadata p) (le p s) ≡ o
          → Q (continue o k s).0 (continue o k s).1
      de (ok b) h = (d b h).holds
      de (err x) h = e x

  pub Does-exige :
      (b : Bool) (x : Erro) (k : Unit {0} → Exec (Disco A) Erro B)
      → Q (err x) s
      → (b ≡ true → Does (k tt) s Q)
      → Does (exige b x >>= k) s Q
  unfolding exige ◌>>=◌
  Does-exige true x k e d = record { holds = (d refl).holds }
  Does-exige false x k e d = record { holds = e }

module _ {A : Type 0} (falhas : Falhas) where
  -- The three names after the removal of one of them.
  pub data Removido (p : Caminho) (s : Disco A) : Outcome Erro (Unit {0}) → Disco A → Type 0 where
    feito : Removido p s (ok tt) (poe p ausente s)
    ja_ausente : le p s ≡ ausente → Removido p s (ok tt) s
    comecado : (e : Erro) → Removido p s (err e) (poe p restos s)
    intacto : (e : Erro) → Removido p s (err e) s

  removido-Removido :
      (r : Remocao) (p : Caminho) (s : Disco A) → Removido p s (removido r p s).0 (removido r p s).1
  removido-Removido inteira p s = feito
  removido-Removido parcial p s = comecado nao_removeu
  removido-Removido nenhuma p s = intacto nao_removeu

  pub estado-false : (b : Bool) (c : Conteudo A) → estado b c ≡ ok false → c ≡ ausente
  estado-false true c h = cc
  estado-false false ausente h = refl
  estado-false false (arvore a) h = cc
  estado-false false restos h = cc
  estado-false false outro h = cc

  pub remove-Removido :
      (p : Caminho) (s : Disco A) → Does (remove_diretorio_real_se_existe falhas p) s (Removido p s)
  unfolding remove_diretorio_real_se_existe remove_dir_all
  remove-Removido p s =
      Does-real falhas p _ (λ e. intacto e)
        λ b h.
          Does-escolhe b _ _
            (λ _. record { holds = removido-Removido (falhas.remove_dir_all p) p s })
            λ g. Does-entrega tt (ja_ausente (estado-false _ _ (h ∙ ap ok g)))

  -- A publication of `w` over `c`.
  abbrev Publicada : Conteudo A → A → Conteudo A → Outcome Erro (Unit {0}) → Disco A → Type 0
  Publicada c w y (ok _) s = (s.atual ≡ arvore w) × (s.velha ≡ y)
  Publicada c w y (err _) s = s.atual ≡ c

  limpa :
      (r : Remocao) (c : Conteudo A) (w : A) (y n : Conteudo A)
      → Publicada c w y
          (ok tt)
          (removido r novo (record { atual = arvore w; nova = n; velha = y })).1
  limpa inteira c w y n = (refl, refl)
  limpa parcial c w y n = (refl, refl)
  limpa nenhuma c w y n = (refl, refl)

  exchange-Publicada :
      (c : Conteudo A) (w : A) (y : Conteudo A)
      → Does
          (exchange falhas >>= λ _. ignora (remove_dir_all falhas novo))
          (record { atual = c; nova = arvore w; velha = y })
          (Publicada c w y)
  unfolding exchange ignora remove_dir_all ◌>>=◌
  exchange-Publicada c w y = record { holds = de falhas.renameat2 }
    where
      de :
          (b : Bool)
          → let r =
              chamada b nao_trocou
                (record { atual = c; nova = arvore w; velha = y })
                (record { atual = arvore w; nova = c; velha = y }) in
            let t = continue r.0 (λ _. ignora (remove_dir_all falhas novo)) r.1 in
            Publicada c w y t.0 t.1
      de true = refl
      de false = limpa (falhas.remove_dir_all novo) c w y c

  rename-Publicada :
      (c : Conteudo A) (w : A) (y : Conteudo A)
      → Does
          (rename falhas novo newspeak)
          (record { atual = c; nova = arvore w; velha = y })
          (Publicada c w y)
  unfolding rename
  rename-Publicada c w y = record { holds = de falhas.rename }
    where
      de :
          (b : Bool)
          → let r =
              chamada b nao_renomeou
                (record { atual = c; nova = arvore w; velha = y })
                (record { atual = arvore w; nova = ausente; velha = y }) in
            Publicada c w y r.0 r.1
      de true = refl
      de false = (refl, refl)

  -- What an exchange of `w` for `c` may end in.
  abbrev pub Trocada : Conteudo A → A → Outcome Erro (Unit {0}) → Disco A → Type 0
  Trocada c w (ok _) s = (s.atual ≡ arvore w) × (s.velha ≡ ausente)
  Trocada c w (err _) s = (s.atual ≡ c) ⊎ (s.atual ≡ arvore w)

  sync_all-Trocada :
      (c : Conteudo A) (w : A) (s : Disco A)
      → s.atual ≡ arvore w
      → s.velha ≡ ausente
      → Does (sync_all falhas) s (Trocada c w)
  unfolding sync_all
  sync_all-Trocada c w s h g = record { holds = de falhas.sync_all }
    where
      de : (b : Bool) → let r = chamada b nao_sincronizou s s in Trocada c w r.0 r.1
      de true = inr h
      de false = (h, g)

  pub publica-Trocada :
      (havia : Bool) (c : Conteudo A) (w : A)
      → Does
          (escolhe havia
              (exchange falhas >>= λ _. ignora (remove_dir_all falhas novo))
              (rename falhas novo newspeak)
            >>= λ _. sync_all falhas)
          (record { atual = c; nova = arvore w; velha = ausente })
          (Trocada c w)
  publica-Trocada havia c w =
      Does-bind (Publicada c w ausente)
        (escolhe havia (exchange falhas >>= λ _. ignora (remove_dir_all falhas novo))
          (rename falhas novo newspeak))
        (λ _. sync_all falhas) _
        (Does-escolhe havia _ _ (λ _. exchange-Publicada c w ausente)
          (λ _. rename-Publicada c w ausente))
        (λ u s h. sync_all-Trocada c w s h.0 h.1) (λ e s h. inl h)

  pub removida :
      (havia : Bool) (c : Conteudo A) (w : A) (x : Conteudo A) (r : Outcome Erro (Unit {0}))
      (s : Disco A)
      → Removido anterior (record { atual = c; nova = arvore w; velha = x }) r s
      → (t : Unit {0} → Exec (Disco A) Erro (Unit {0}))
      → ((s : Disco A)
          → s ≡ record { atual = c; nova = arvore w; velha = ausente }
          → Does (t tt) s (Trocada c w))
      → Trocada c w (continue r t s).0 (continue r t s).1
  removida havia c w x _ _ feito t d = (d _ refl).holds
  removida havia c w x _ _ (ja_ausente h) t d = (d _ (cc (h))).holds
  removida havia c w x _ _ (comecado e) t d = inl refl
  removida havia c w x _ _ (intacto e) t d = inl refl
