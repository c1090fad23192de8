-- ===== src/Rotation/Write.antt =====
-- `escreve_trocando`: the current name holds what it held or all of the new bytes.
use distropica.Prelude.{◌≡◌, ◌⊎◌, inl, inr, some, Bytes, arith}
use distropica.Rotation.Calls.{Chamando, chamada_lem, atomica_lem, neutra_lem, depois, ignora_lem}
use distropica.Rotation.{
  Nodo, arquivo, Raiz, remove_temporario, cria_temporario, renomeia_temporario, escreve_trocando,
}

abbrev pub Trocado : Nodo → Bytes → Raiz → Type 0
Trocado a bytes r = (r.efi_anterior ≡ a) × (r.efi_atual ≡ arquivo bytes)

abbrev pub Antes : Nodo → Nodo → Raiz → Type 0
Antes a c r = (r.efi_anterior ≡ a) × (r.efi_atual ≡ c)

module _ (a c : Nodo) (bytes : Bytes) where
  abbrev Escrito : Raiz → Type 0
  Escrito r = (r.efi_anterior ≡ a) × (r.efi_atual ≡ c) × (r.temporario ≡ arquivo bytes)

  abbrev pub Inteiro : Raiz → Type 0
  Inteiro r = (r.efi_anterior ≡ a) × ((r.efi_atual ≡ c) ⊎ (r.efi_atual ≡ arquivo bytes))

  remove_Antes : (r r' : Raiz) → Antes a c r → remove_temporario r ≡ some r' → Antes a c r'
  unfolding remove_temporario
  remove_Antes r r' p e = ground arith

  cria_Antes : (r r' : Raiz) → Antes a c r → cria_temporario r ≡ some r' → Antes a c r'
  unfolding cria_temporario
  cria_Antes r r' p e = ground arith

  grava_Escrito :
      (r r' : Raiz)
      → Antes a c r
      → some (record r { temporario = arquivo bytes }) ≡ some r'
      → Escrito r'
  grava_Escrito r r' p e = ground arith

  renomeia_Trocado :
      (r r' : Raiz) → Escrito r → renomeia_temporario r ≡ some r' → Trocado a bytes r'
  unfolding renomeia_temporario
  renomeia_Trocado r r' p e = ground arith

  Antes-Inteiro : (r : Raiz) → Antes a c r → Inteiro r
  Antes-Inteiro r p = (p.0, inl p.1)

  Escrito-Inteiro : (r : Raiz) → Escrito r → Inteiro r
  Escrito-Inteiro r p = (p.0, inl p.1)

  Trocado-Inteiro : (r : Raiz) → Trocado a bytes r → Inteiro r
  Trocado-Inteiro r p = (p.0, inr p.1)

  -- Whichever call fails, the reserve is as it was and the current name is never a part of the
  -- new bytes; a success has replaced it.
  pub escreve_trocando_lem : Chamando (Antes a c) (escreve_trocando bytes) (Trocado a bytes) Inteiro
  unfolding escreve_trocando
  escreve_trocando_lem =
      depois (Antes a c) (Antes a c) _ Inteiro _ _ (neutra_lem (Antes a c) Inteiro Antes-Inteiro) (
        depois (Antes a c) (Antes a c) _ Inteiro _ _
          (ignora_lem (Antes a c) Inteiro _ (
            atomica_lem (Antes a c) (Antes a c) (Antes a c) remove_temporario remove_Antes
              (λ r p. p)))
          (depois (Antes a c) (Antes a c) _ Inteiro _ _
            (atomica_lem (Antes a c) (Antes a c) Inteiro cria_temporario cria_Antes Antes-Inteiro)
            (depois (Antes a c) Escrito _ Inteiro _ _
              (chamada_lem (Antes a c) Escrito Inteiro _ _ grava_Escrito Antes-Inteiro
                (λ k r p. Antes-Inteiro r p))
              (depois Escrito Escrito _ Inteiro _ _ (neutra_lem Escrito Inteiro Escrito-Inteiro) (
                depois Escrito (Trocado a bytes) _ Inteiro _ _
                  (atomica_lem Escrito (Trocado a bytes) Inteiro renomeia_temporario
                    renomeia_Trocado Escrito-Inteiro)
                  (neutra_lem (Trocado a bytes) Inteiro Trocado-Inteiro))))))
