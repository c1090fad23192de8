-- ===== src/Rotation/Safety.antt =====
-- The rule of boot_update.rs, that the EFI which runs is never erased, and what a caller of
-- `rotaciona` can rely on, for every sequence of failing calls. The rule has one gap in the source:
-- a current file whose metadata cannot be read counts as absent, and is replaced without becoming
-- the reserve.
use distropica.Effects.Triple.{Ends}
use distropica.Effects.{Outcome, ok, err, ◌>>=◌}
use distropica.Prelude.{
  ℕ, ◌≡◌, refl, ◌⊎◌, inl, Bool, true, false, ◌||◌, Option, none, some, List, [], ◌∷◌, if◌then◌else◌,
  equal, Bytes, arith,
}
use distropica.Rotation.Branches.{Falho, Feito}
use distropica.Rotation.Whole.{Antes-Falho, rotaciona_de_lem, rotaciona_de-sem_atual}
use distropica.Rotation.Write.{Antes, Inteiro}
use distropica.Rotation.{
  Rodando, anterior, Acao, ja_atual, rotacionou, trocou_atual, Nodo, ausente, arquivo, Raiz, Mundo,
  Erro, eh_arquivo, eh_anterior, rotaciona, rotaciona_de, medida_com, medida,
}

-- The file that the machine started from.
abbrev pub em_execucao : Rodando → Raiz → Nodo
em_execucao anterior r = r.efi_anterior
em_execucao _ r = r.efi_atual

-- These bytes are whole under one of the two names that the firmware tries.
abbrev pub Guardado : Bytes → Raiz → Type 0
Guardado b r = (r.efi_atual ≡ arquivo b) ⊎ (r.efi_anterior ≡ arquivo b)

-- The metadata of the current name can be read: the first call of `rotaciona` does not fail.
abbrev metadado_com : List (Option ℕ) → Bool
metadado_com (some _ ∷ _) = false
metadado_com _ = true

abbrev pub metadado : Mundo → Bool
metadado w = metadado_com w.falhas

-- The current file as `rotaciona` takes it to be, given whether its metadata was read.
abbrev visto : Bool → Nodo → Nodo
visto lido c = if lido then c else ausente

abbrev FalhoVisto : Bool → Rodando → Nodo → Nodo → Bytes → Raiz → Type 0
FalhoVisto true rodando c a novo = Falho rodando c a novo
FalhoVisto false rodando c a novo = Inteiro a c novo

abbrev Fim : Bool → Rodando → Raiz → Bytes → Outcome Erro Acao × Mundo → Type 0
Fim lido rodando r novo =
    Ends (λ acao s. Feito rodando (visto lido r.efi_atual) r.efi_anterior novo acao s.raiz)
      (λ _ s. FalhoVisto lido rodando r.efi_atual r.efi_anterior novo s.raiz)

module _ (c a t : Nodo) (novo : Bytes) (rodando : Rodando) where
  abbrev esp : Raiz
  esp = record { efi_atual = c; efi_anterior = a; temporario = t }

  fim_medido :
      (fs : List (Option ℕ)) (m : Mundo)
      → Antes a c m.raiz
      → Fim
          (metadado_com fs)
          rodando
          esp
          novo
          ((medida_com fs (eh_arquivo c) false >>= rotaciona_de esp novo rodando) m)
  unfolding ◌>>=◌
  fim_medido [] m p = rotaciona_de_lem a novo rodando c t m p
  fim_medido (none ∷ fs) m p = rotaciona_de_lem a novo rodando c t (record m { falhas = fs }) p
  fim_medido (some k ∷ fs) m p =
      rotaciona_de-sem_atual a novo rodando c t (record m { falhas = fs }) p

  fim_vazio : (lido : Bool) → FalhoVisto lido rodando c a novo esp
  fim_vazio true = Antes-Falho a novo rodando c esp (refl, refl)
  fim_vazio false = (refl, inl refl)

fim :
    (w : Mundo) (novo : Bytes) (rodando : Rodando)
    → Fim (metadado w) rodando w.raiz novo (rotaciona novo rodando w)
unfolding rotaciona ◌>>=◌ equal medida
fim w [] rodando =
    fim_vazio w.raiz.efi_atual w.raiz.efi_anterior w.raiz.temporario [] rodando (metadado w)
fim w (x ∷ xs) rodando =
    unfold ◌>>=◌ in
    fim_medido w.raiz.efi_atual w.raiz.efi_anterior w.raiz.temporario (x ∷ xs) rodando w.falhas w
      (refl, refl)

module _ (c a t : Nodo) (novo b : Bytes) where
  abbrev esp_de : Raiz
  esp_de = record { efi_atual = c; efi_anterior = a; temporario = t }

  Guardado-Fim :
      (lido : Bool) (rodando : Rodando) (r : Outcome Erro Acao × Mundo)
      → em_execucao rodando esp_de ≡ arquivo b
      → (eh_anterior rodando || lido) ≡ true
      → Fim lido rodando esp_de novo r
      → Guardado b r.1.raiz
  unfolding eh_arquivo eh_anterior
  Guardado-Fim true rodando (ok ja_atual, s) e l h = ground arith
  Guardado-Fim false rodando (ok ja_atual, s) e l h = ground arith
  Guardado-Fim true rodando (ok trocou_atual, s) e l h = ground arith
  Guardado-Fim false rodando (ok trocou_atual, s) e l h = ground arith
  Guardado-Fim true rodando (ok rotacionou, s) e l h = ground arith
  Guardado-Fim false rodando (ok rotacionou, s) e l h = ground arith
  Guardado-Fim true rodando (err x, s) e l h = ground arith
  Guardado-Fim false rodando (err x, s) e l h = ground arith

  inteiro-Fim :
      (lido : Bool) (rodando : Rodando) (r : Outcome Erro Acao × Mundo)
      → Fim lido rodando esp_de novo r
      → (r.1.raiz.efi_atual ≡ c)
        ⊎ (r.1.raiz.efi_atual ≡ ausente)
        ⊎ (r.1.raiz.efi_atual ≡ arquivo novo)
  unfolding eh_arquivo eh_anterior
  inteiro-Fim true rodando (ok ja_atual, s) h = ground arith
  inteiro-Fim false rodando (ok ja_atual, s) h = ground arith
  inteiro-Fim true rodando (ok trocou_atual, s) h = ground arith
  inteiro-Fim false rodando (ok trocou_atual, s) h = ground arith
  inteiro-Fim true rodando (ok rotacionou, s) h = ground arith
  inteiro-Fim false rodando (ok rotacionou, s) h = ground arith
  inteiro-Fim true rodando (err x, s) h = ground arith
  inteiro-Fim false rodando (err x, s) h = ground arith

-- If the file that the machine started from holds `b`, and either that is the reserve or the
-- call that reads the metadata of the current file does not fail, then after `rotaciona`, whether
-- it succeeded or stopped at any failing call, `b` is whole under one of the two names.
pub rotaciona_keeps_running :
    (w : Mundo) (novo b : Bytes) (rodando : Rodando)
    → em_execucao rodando w.raiz ≡ arquivo b
    → (eh_anterior rodando || metadado w) ≡ true
    → Guardado b (rotaciona novo rodando w).1.raiz
rotaciona_keeps_running w novo b rodando e l =
    Guardado-Fim w.raiz.efi_atual w.raiz.efi_anterior w.raiz.temporario novo b (metadado w) rodando
      (rotaciona novo rodando w) e l (fim w novo rodando)

-- Whatever call fails, the readings of metadata included, the name that the firmware reads holds
-- what it held, nothing, or all of the new bytes.
pub rotaciona_never_partial :
    (w : Mundo) (novo : Bytes) (rodando : Rodando)
    → let r = (rotaciona novo rodando w).1.raiz in
      (r.efi_atual ≡ w.raiz.efi_atual) ⊎ (r.efi_atual ≡ ausente) ⊎ (r.efi_atual ≡ arquivo novo)
rotaciona_never_partial w novo rodando =
    inteiro-Fim w.raiz.efi_atual w.raiz.efi_anterior w.raiz.temporario novo novo (metadado w)
      rodando (rotaciona novo rodando w) (fim w novo rodando)

-- A success leaves the new bytes as the current file, and the reserve as the reported action
-- says: as it was where the current file already held the new bytes, or where the machine ran
-- from the reserve and the current file was replaced; and otherwise the former current file, or
-- as it was where there was no current file. A current file whose metadata cannot be read counts
-- as none.
pub rotaciona_success :
    (w w' : Mundo) (novo : Bytes) (rodando : Rodando) (acao : Acao)
    → rotaciona novo rodando w ≡ (ok acao, w')
    → Feito rodando (visto (metadado w) w.raiz.efi_atual) w.raiz.efi_anterior novo acao w'.raiz
rotaciona_success w w' novo rodando acao e = rw e at (fim w novo rodando)
