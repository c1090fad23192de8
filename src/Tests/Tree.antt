-- ===== src/Tests/Tree.antt =====
-- An exchange of a recipe tree that stops in the middle, and its recovery.
use distropica.Arvore.Origem.{analisa_origem, documento, analisa_origem-documento}
use distropica.Arvore.Recovery.{
  Recuperada, troca_atomica-Trocada, recupera-Recuperada, recupera-troca, sem_falhas,
  troca_atomica-completes,
}
use distropica.Arvore.Exchange.{Trocada}
use distropica.Arvore.{
  ausente, arvore, restos, outro, parcial, Falhas, troca_atomica, recupera_troca_interrompida,
}
use distropica.Effects.{ok}
use distropica.Prelude.{ℕ, ◌≡◌, ◌≢◌, refl, ◌⊎◌, inr, true, ◌++◌}
use distropica.Text.Pieces.{texto}

-- The old tree cannot be removed whole, and the directory is not synchronised.
abbrev queda : Falhas
queda = record sem_falhas { remove_dir_all = λ _. parcial; sync_all = true }

troca_atomica-Trocada_example :
    let r =
      troca_atomica {A = ℕ} queda (record { atual = arvore 1; nova = arvore 2; velha = ausente }) in
    Trocada {A = ℕ} queda (arvore 1) 2 r.0 r.1
troca_atomica-Trocada_example = troca_atomica-Trocada queda (arvore 1) ausente 2

-- The state that the former algorithm left between its two renames.
recupera-Recuperada_example :
    let r =
      recupera_troca_interrompida {A = ℕ} sem_falhas
        (record { atual = ausente; nova = arvore 2; velha = arvore 1 }) in
    Recuperada {A = ℕ} sem_falhas 1 r.0 r.1
recupera-Recuperada_example =
    recupera-Recuperada sem_falhas 1 (record { atual = ausente; nova = arvore 2; velha = arvore 1 })
      (inr (refl, refl))

recupera-troca_example :
    let s =
      (troca_atomica {A = ℕ} queda
        (record { atual = arvore 1; nova = arvore 2; velha = restos })).1 in
    let r = recupera_troca_interrompida {A = ℕ} sem_falhas s in
    Recuperada sem_falhas 1 r.0 r.1 ⊎ Recuperada sem_falhas 2 r.0 r.1
recupera-troca_example = recupera-troca ℕ queda sem_falhas 1 2 restos

uma_arvore-ne-outro : (n : ℕ) → arvore n ≢ outro
uma_arvore-ne-outro n e = cc

troca_atomica-completes_example :
    troca_atomica {A = ℕ} sem_falhas
      (record { atual = arvore 1; nova = arvore 2; velha = arvore 0 })
    ≡ (ok tt, record { atual = arvore 2; nova = ausente; velha = ausente })
troca_atomica-completes_example =
    troca_atomica-completes (arvore 1) (arvore 0) 2 (uma_arvore-ne-outro 1) (uma_arvore-ne-outro 0)

analisa_origem-documento_example :
    analisa_origem (documento (texto "https://" ++ texto "distropica.org/newspeak") (texto "RWQ"))
    ≡ ok (record { url = texto "https://distropica.org/newspeak"; key = texto "RWQ" })
analisa_origem-documento_example =
    analisa_origem-documento (texto "distropica.org/newspeak") b'R' (texto "WQ") refl refl
