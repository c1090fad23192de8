-- ===== src/Tests/Boot.antt =====
-- The boot entries, the rotation of the EFI and the partition table, on small inputs.
use distropica.Effects.{ok, err, ◌>>=◌ as ◌>>>◌}
use distropica.Efi.Partition.Found.{IsReady, le_esp-write_layout}
use distropica.Efi.Partition.{le_esp}
use distropica.Efi.RoundTrip.{le_opcao-load_option}
use distropica.Efi.{Esp, load_option, le_opcao}
use distropica.Gpt.Layout.{IsSound, planeja-IsSound}
use distropica.Gpt.Regions.{Buffer}
use distropica.Gpt.{Plano, Disco, planeja, random_guid, reparte, write_layout}
use distropica.Prelude.Options.{◌>>=◌}
use distropica.Prelude.{
  ℕ, ◌+◌, ◌*◌, ◌/◌, ◌≡◌, refl, ◌⊎◌, Option, none, some, [], ◌∷◌, false, if◌then◌else◌, equal, Bytes,
  arith,
}
use distropica.Rotation.Branches.{Feito}
use distropica.Rotation.Progress.{sem_falhas, rotaciona_completes, rotaciona_no_space}
use distropica.Rotation.Safety.{
  Guardado, rotaciona_keeps_running, rotaciona_never_partial, rotaciona_success,
}
use distropica.Rotation.{
  atual, ja_atual, rotacionou, trocou_atual, ausente, arquivo, Raiz, Mundo, sem_espaco, rotaciona,
  eh_anterior, comprimento, rotaciona_de, medida, chamada, ignora, troca, escreve_trocando,
  remove_temporario, cria_temporario, renomeia_temporario, eh_arquivo,
}
use distropica.Text.Utf16.{Text, encode_utf16}

abbrev guid : Bytes
guid = 1 ∷ 2 ∷ 3 ∷ 4 ∷ 5 ∷ 6 ∷ 7 ∷ 8 ∷ 9 ∷ 10 ∷ 11 ∷ 12 ∷ 13 ∷ 14 ∷ 15 ∷ 16 ∷ []

abbrev esp : Esp
esp = record { numero = 1; primeiro_lba = 2048; setores = 131072; guid = guid }

-- A label with a character outside the basic plane.
abbrev rotulo : Text
rotulo = b'D' ∷ 0xf3 ∷ 0x1f427 ∷ []

abbrev carregador : Text
carregador = b'\\' ∷ b'E' ∷ b'F' ∷ b'I' ∷ []

le_opcao-load_option_example :
    (load_option rotulo esp carregador >>= le_opcao)
    ≡ some (record { rotulo = rotulo; guid = some guid; arquivo = some carregador })
unfolding encode_utf16
le_opcao-load_option_example =
    le_opcao-load_option rotulo esp carregador refl refl refl (omega arith)

abbrev velho : Bytes
velho = 1 ∷ 2 ∷ []

abbrev novo : Bytes
novo = 3 ∷ 4 ∷ 5 ∷ []

abbrev raiz : Raiz
raiz = record { efi_atual = arquivo velho; efi_anterior = arquivo (9 ∷ []); temporario = ausente }

-- The write of the new file fails after one byte.
abbrev interrompido : Mundo
interrompido = record {
  raiz = raiz;
  livres = some 2000000;
  falhas = none ∷ none ∷ none ∷ none ∷ none ∷ none ∷ none ∷ none ∷ none ∷ none ∷ none ∷ some 1 ∷ [];
}

rotaciona_keeps_running_example : Guardado velho (rotaciona novo atual interrompido).1.raiz
unfolding eh_anterior
rotaciona_keeps_running_example = rotaciona_keeps_running interrompido novo velho atual refl refl

rotaciona_never_partial_example :
    let r = (rotaciona novo atual interrompido).1.raiz in
    (r.efi_atual ≡ arquivo velho) ⊎ (r.efi_atual ≡ ausente) ⊎ (r.efi_atual ≡ arquivo novo)
rotaciona_never_partial_example = rotaciona_never_partial interrompido novo atual

abbrev rotacionado : Mundo
rotacionado = sem_falhas (arquivo novo) (arquivo velho) ausente 2000000

rotaciona_completes_example :
    rotaciona novo atual (sem_falhas (arquivo velho) ausente ausente 2000000) ≡ (
      if equal velho novo
      then (ok ja_atual, sem_falhas (arquivo velho) ausente ausente 2000000)
      else if eh_anterior atual
      then (ok trocou_atual, sem_falhas (arquivo novo) ausente ausente 2000000)
      else (ok rotacionou, rotacionado))
unfolding comprimento
rotaciona_completes_example =
    rotaciona_completes velho novo ausente ausente 2000000 atual (λ e. cc) tt tt (omega arith)
      (omega arith)

rotaciona_run :
    rotaciona novo atual (sem_falhas (arquivo velho) ausente ausente 2000000)
    ≡ (ok rotacionou, rotacionado)
unfolding equal eh_anterior
rotaciona_run = rotaciona_completes_example

rotaciona_success_example : Feito atual (arquivo velho) ausente novo rotacionou rotacionado.raiz
rotaciona_success_example =
    rotaciona_success (sem_falhas (arquivo velho) ausente ausente 2000000) rotacionado novo atual
      rotacionou rotaciona_run

rotaciona_no_space_example :
    rotaciona novo atual (sem_falhas (arquivo velho) ausente ausente 1000)
    ≡ (err sem_espaco, sem_falhas (arquivo velho) ausente ausente 1000)
unfolding comprimento
rotaciona_no_space_example =
    rotaciona_no_space velho novo ausente ausente 1000 atual (λ e. cc) (λ e. cc) (omega arith)
      (omega arith)

-- A disk of 1 GiB, an ESP of 64 MiB and a swap of 16 MiB.
abbrev plano : Plano
plano = record {
  total_sectors = 2097152;
  entries_sectors = 32;
  first_usable = 2048;
  last_usable = 2097118;
  layout = record {
    esp = record { first = 2048; last = 133119 };
    root = record { first = 133120; last = 2064350 };
    swap = some (record { first = 2064351; last = 2097118 });
  };
}

planeja_run : planeja 1073741824 64 16 512 ≡ ok plano
unfolding planeja reparte
planeja_run = refl

planeja-IsSound_example : IsSound 1073741824 512 64 plano
planeja-IsSound_example =
    planeja-IsSound 1073741824 64 16 512 refl (omega arith) (omega arith) planeja_run

abbrev bruto : Buffer
bruto i = i + 1

abbrev urandom : ℕ → Option Buffer
urandom k = some (λ _. 7)

abbrev pronto : IsReady urandom
pronto = record { bruto = λ k i. 7; leituras = λ k. refl; octetos = λ k i. omega arith }

abbrev crc : Bytes → ℕ
crc _ = 0

abbrev disco : Disco
disco = record { tamanho = 1073741824; bytes = λ _. 0; ilegivel = λ _. false; falhas = [] }

le_esp-write_layout_example :
    (d' : Disco) × (write_layout crc urandom 64 16 512 disco ≡ (ok plano.layout, d'))
    × (le_esp d' 1 512
        ≡ ok (record {
          numero = 1;
          primeiro_lba = 2048;
          setores = 64 * 1048576 / 512;
          guid = random_guid (λ _. 7);
        }))
le_esp-write_layout_example =
    le_esp-write_layout crc urandom pronto disco 64 16 512 refl (omega arith) (omega arith)
      (omega arith) planeja_run refl (λ _. refl)

-- The metadata of the current file, which runs, cannot be read: it is replaced, and the reserve
-- stays as it was.
rotaciona_sem_metadado :
    rotaciona novo atual (record { raiz = raiz; livres = some 2000000; falhas = some 0 ∷ [] })
    ≡ (ok rotacionou, sem_falhas (arquivo novo) (arquivo (9 ∷ [])) ausente 2000000)
unfolding rotaciona rotaciona_de medida chamada ignora troca escreve_trocando remove_temporario
    cria_temporario renomeia_temporario eh_arquivo eh_anterior equal ◌>>>◌
rotaciona_sem_metadado = refl
