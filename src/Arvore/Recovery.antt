-- ===== src/Arvore/Recovery.antt =====
-- An exchange of the recipe tree and the recovery after it: minitrue/src/arvore.rs.
use distropica.Arvore.Exchange.{
  Does-real, Does-exige, Removido, feito, ja_ausente, comecado, intacto, remove-Removido, Trocada,
  publica-Trocada, removida,
}
use distropica.Arvore.{
  Conteudo, ausente, arvore, restos, outro, newspeak, novo, anterior, Disco, Erro, nao_renomeou,
  inteira, Falhas, estado, chamada, diretorio_real_ou_ausente, remove_diretorio_real_se_existe,
  exchange, rename, sync_all, ignora, troca_atomica, remove_dir_all, recupera_troca_interrompida,
}
use distropica.Effects.Does.{Does, Does-bind, Does-escolhe, Does-entrega}
use distropica.Effects.Sealed.{entrega, escolhe, exige}
use distropica.Effects.{Outcome, ok, err, Exec, ◌>>=◌}
use distropica.Prelude.{
  ◌≡◌, refl, ◌∙◌, sym, subst, Bool, true, false, not, ◌&&◌, ◌⊎◌, inl, inr, false-ne-true, ◌≢◌,
}

module _ {A : Type 0} (falhas : Falhas) where
  -- From a whole new tree `w`, and whatever calls fail, `troca_atomica` leaves either what was
  -- under the current name or `w`, whole; after a success it is `w`, and nothing stands under the
  -- name of the former tree.
  pub troca_atomica-Trocada :
      (c x : Conteudo A) (w : A)
      → let r = troca_atomica falhas (record { atual = c; nova = arvore w; velha = x }) in
        Trocada falhas c w r.0 r.1
  unfolding troca_atomica
  troca_atomica-Trocada c x w = d.holds
    where
      inicio : Disco A
      inicio = record { atual = c; nova = arvore w; velha = x }

      resto : Bool → Unit {0} → Exec (Disco A) Erro (Unit {0})
      resto havia _ =
          escolhe havia (exchange falhas >>= λ _. ignora (remove_dir_all falhas novo))
            (rename falhas novo newspeak)
          >>= λ _. sync_all falhas

      remove :
          (havia : Bool)
          → Does
              (remove_diretorio_real_se_existe falhas anterior >>= resto havia)
              inicio
              (Trocada falhas c w)
      remove havia =
          Does-bind (Removido falhas anterior inicio)
            (remove_diretorio_real_se_existe falhas anterior) (resto havia) inicio
            (remove-Removido falhas anterior inicio)
            (λ u s h. record {
              holds = removida falhas havia c w x (ok u) s h (resto havia) λ s' e.
                  subst (λ y. Does (resto havia tt) y (Trocada falhas c w)) (sym e)
                    (publica-Trocada falhas havia c w);
            })
            (λ e s h. removida falhas havia c w x (err e) s h (resto havia) λ s' g.
              subst (λ y. Does (resto havia tt) y (Trocada falhas c w)) (sym g)
                (publica-Trocada falhas havia c w))

      d : Does (troca_atomica falhas) inicio (Trocada falhas c w)
      d =
          Does-real falhas novo _ (λ e. inl refl)
            λ existe _.
              Does-exige falhas existe _ _ (inl refl)
                λ _. Does-real falhas newspeak _ (λ e. inl refl) λ havia _. remove havia

  estado-arvore : (m : Bool) (a : A) (b : Bool) → estado m (arvore a) ≡ ok b → b ≡ true
  estado-arvore true a b h = cc
  estado-arvore false a b h = cc

  estado-ausente :
      (m : Bool) (c : Conteudo A) (b : Bool) → c ≡ ausente → estado m c ≡ ok b → b ≡ false
  estado-ausente true c b e h = cc
  estado-ausente false ausente b e h = cc
  estado-ausente false (arvore a) b e h = cc
  estado-ausente false restos b e h = cc
  estado-ausente false outro b e h = cc

  -- The tree `v` is whole under its name, or under that of the former tree while the name is free.
  abbrev pub Guardada : A → Disco A → Type 0
  Guardada v s = (s.atual ≡ arvore v) ⊎ ((s.atual ≡ ausente) × (s.velha ≡ arvore v))

  abbrev pub Recuperada : A → Outcome Erro (Unit {0}) → Disco A → Type 0
  Recuperada v (ok _) s = (s.atual ≡ arvore v) × (s.nova ≡ ausente)
  Recuperada v (err _) s = Guardada v s

  abbrev NoNome : A → Outcome Erro (Unit {0}) → Disco A → Type 0
  NoNome v (ok _) s = s.atual ≡ arvore v
  NoNome v (err _) s = Guardada v s

  rename-NoNome :
      (v : A) (s : Disco A)
      → s.atual ≡ ausente
      → s.velha ≡ arvore v
      → Does (rename falhas anterior newspeak) s (NoNome v)
  unfolding rename
  rename-NoNome v s a h = record { holds = de falhas.rename }
    where
      de :
          (b : Bool)
          → let r =
              chamada b nao_renomeou s
                (record { atual = s.velha; nova = s.nova; velha = ausente }) in
            NoNome v r.0 r.1
      de true = inr (a, h)
      de false = h

  move-NoNome :
      (v : A) (s : Disco A) (b b' : Bool)
      → Guardada v s
      → estado (falhas.symlink_metadata newspeak) s.atual ≡ ok b
      → estado (falhas.symlink_metadata anterior) s.velha ≡ ok b'
      → Does (escolhe (not b && b') (rename falhas anterior newspeak) (entrega tt)) s (NoNome v)
  move-NoNome v s b b' (inl a) h h' =
      Does-escolhe _ _ _
        (λ g. absurd (
          false-ne-true (
            nunca b b'
              (estado-arvore _ v b
                (subst (λ c. estado (falhas.symlink_metadata newspeak) c ≡ ok b) a h))
              g)))
        (λ _. Does-entrega tt a)
    where
      nunca : (b b' : Bool) → b ≡ true → (not b && b') ≡ true → false ≡ true
      nunca true b' e g = g
      nunca false b' e g = e
  move-NoNome v s b b' (inr (a, o)) h h' =
      Does-escolhe _ _ _ (λ _. rename-NoNome v s a o)
        λ g. absurd (
          false-ne-true (
            sempre b b' (estado-ausente _ s.atual b a h)
              (estado-arvore _ v b'
                (subst (λ c. estado (falhas.symlink_metadata anterior) c ≡ ok b') o h'))
              g))
    where
      sempre : (b b' : Bool) → b ≡ false → b' ≡ true → (not b && b') ≡ false → false ≡ true
      sempre true b' e e' g = sym e
      sempre false b' e e' g = sym g ∙ e'

  limpa-Recuperada :
      (v : A) (s : Disco A) (r : Outcome Erro (Unit {0})) (s' : Disco A)
      → s.atual ≡ arvore v
      → Removido falhas novo s r s'
      → Recuperada v r s'
  limpa-Recuperada v s _ _ a feito = (a, refl)
  limpa-Recuperada v s _ _ a (ja_ausente h) = (a, h)
  limpa-Recuperada v s _ _ a (comecado e) = inl a
  limpa-Recuperada v s _ _ a (intacto e) = inl a

  -- While `v` is whole under its name, or under the former tree's and the name is free, the
  -- recovery keeps that, whatever calls fail; after a success `v` is under its name, and nothing
  -- under the name of the new tree.
  pub recupera-Recuperada :
      (v : A) (s : Disco A)
      → Guardada v s
      → let r = recupera_troca_interrompida falhas s in Recuperada v r.0 r.1
  unfolding recupera_troca_interrompida
  recupera-Recuperada v s g = d.holds
    where
      d : Does (recupera_troca_interrompida falhas) s (Recuperada v)
      d =
          Does-real falhas newspeak _ (λ e. g)
            λ b h.
              Does-real falhas anterior _ (λ e. g)
                λ b' h'.
                  Does-bind (NoNome v)
                    (escolhe (not b && b') (rename falhas anterior newspeak) (entrega tt)) _ s
                    (move-NoNome v s b b' g h h')
                    (λ u s' a. record {
                      holds = limpa-Recuperada v s' _ _ a (remove-Removido falhas novo s').holds;
                    })
                    (λ e s' a. a)

-- After an exchange of the whole tree `v` for the whole tree `w` that ended anywhere, and a recovery
-- that ended anywhere, one of the two is whole under the name, or whole under the name of the former
-- tree while the name is free; after a recovery that succeeded it is under the name, and nothing is
-- left under the name of the new tree.
pub recupera-troca :
    (A : Type 0) (falhas falhas' : Falhas) (v w : A) (x : Conteudo A)
    → let s = (troca_atomica falhas (record { atual = arvore v; nova = arvore w; velha = x })).1 in
      let r = recupera_troca_interrompida falhas' s in
      Recuperada falhas' v r.0 r.1 ⊎ Recuperada falhas' w r.0 r.1
recupera-troca A falhas falhas' v w x = de _ _ (troca_atomica-Trocada falhas (arvore v) x w)
  where
    de :
        (o : Outcome Erro (Unit {0})) (s : Disco A)
        → Trocada falhas (arvore v) w o s
        → let r = recupera_troca_interrompida falhas' s in
          Recuperada falhas' v r.0 r.1 ⊎ Recuperada falhas' w r.0 r.1
    de (ok _) s (h, _) = inr (recupera-Recuperada falhas' w s (inl h))
    de (err _) s (inl h) = inl (recupera-Recuperada falhas' v s (inl h))
    de (err _) s (inr h) = inr (recupera-Recuperada falhas' w s (inl h))

-- A machine on which no call fails.
abbrev pub sem_falhas : Falhas
sem_falhas = record {
  symlink_metadata = λ _. false;
  remove_dir_all = λ _. inteira;
  renameat2 = false;
  rename = false;
  sync_all = false;
}

-- If no call fails and neither the current name nor that of the former tree is something else than a
-- directory, the exchange succeeds with the new tree under the name and nothing under the other two.
pub troca_atomica-completes :
    {A : Type 0} (c x : Conteudo A) (w : A)
    → c ≢ outro
    → x ≢ outro
    → troca_atomica sem_falhas (record { atual = c; nova = arvore w; velha = x })
      ≡ (ok tt, record { atual = arvore w; nova = ausente; velha = ausente })
unfolding troca_atomica diretorio_real_ou_ausente remove_diretorio_real_se_existe remove_dir_all
    exchange rename sync_all ignora ◌>>=◌ escolhe exige entrega
troca_atomica-completes outro x w h g = absurd (h refl)
troca_atomica-completes ausente outro w h g = absurd (g refl)
troca_atomica-completes ausente ausente w h g = refl
troca_atomica-completes ausente (arvore _) w h g = refl
troca_atomica-completes ausente restos w h g = refl
troca_atomica-completes (arvore _) outro w h g = absurd (g refl)
troca_atomica-completes (arvore _) ausente w h g = refl
troca_atomica-completes (arvore _) (arvore _) w h g = refl
troca_atomica-completes (arvore _) restos w h g = refl
troca_atomica-completes restos outro w h g = absurd (g refl)
troca_atomica-completes restos ausente w h g = refl
troca_atomica-completes restos (arvore _) w h g = refl
troca_atomica-completes restos restos w h g = refl
