-- ===== src/Efi/Partition.antt =====
-- Reading an ESP back from the GPT, `le_esp` of minipax/src/efi_boot.rs.
pub mod Installed
pub mod Found
use distropica.Efi.{Esp}
use distropica.Effects.Fallible.{◌>>=◌, ◌>>◌, context, bail_if}
use distropica.Effects.{Outcome, ok, err}
use distropica.Gpt.Regions.{Buffer, slice}
use distropica.Gpt.{Disco, type_esp, assinatura}
use distropica.Prelude.{
  ℕ, zero, suc, ◌+◌, ◌-◌, ◌*◌, ◌^◌, Bool, true, false, not, ◌||◌, Option, none, some, List, [], ◌∷◌,
  ltb, leb, ◌==◌, if◌then◌else◌, take, drop, equal, Bytes, from_le,
}

pub data Erro : Type 0 where
  numero_zero sem_gpt inexistente entrada_pequena estouro nao_esp extensao_invalida guid_zerado io :
      Erro

abbrev pub u32_em : Bytes → ℕ → ℕ
u32_em buffer at = from_le (take 4 (drop at buffer))

abbrev pub u64_em : Bytes → ℕ → ℕ
u64_em buffer at = from_le (take 8 (drop at buffer))

-- `seek(SeekFrom::Start(at))` and `read_exact` of `n` bytes. An offset at which the device cannot be
-- read stands for a failing seek as well.
unfoldable pub ler : Disco → ℕ → ℕ → Outcome Erro Bytes
ler d at n =
    if d.ilegivel at
    then err io
    else if leb (at + n) d.tamanho
    then ok (slice d.bytes at n)
    else err io

-- `checked_mul` and `checked_add`.
abbrev checked : ℕ → Option ℕ
checked n = if ltb n (2 ^ 64) then some n else none

-- `entries_lba.checked_mul(setor)` and the `checked_add` behind it.
unfoldable pub deslocamento_de : ℕ → ℕ → ℕ → ℕ → Outcome Erro ℕ
deslocamento_de entries_lba setor numero tamanho_entrada = do
  base ← context estouro (checked (entries_lba * setor))
  context estouro (checked (base + (numero - 1) * tamanho_entrada))

abbrev pub guid_zero : Bytes
guid_zero = 0 ∷ 0 ∷ 0 ∷ 0 ∷ 0 ∷ 0 ∷ 0 ∷ 0 ∷ 0 ∷ 0 ∷ 0 ∷ 0 ∷ 0 ∷ 0 ∷ 0 ∷ 0 ∷ []

-- The checks on the entry, and the `Esp` that it describes.
unfoldable pub esp_da_entrada : ℕ → Bytes → Outcome Erro Esp
esp_da_entrada numero entrada = do
  bail_if (not (equal (take 16 entrada) type_esp)) nao_esp
  let primeiro = u64_em entrada 32
  let ultimo = u64_em entrada 40
  bail_if (primeiro == 0 || ltb ultimo primeiro) extensao_invalida
  let guid = take 16 (drop 16 entrada)
  bail_if (equal guid guid_zero) guid_zerado
  ok (record {
    numero = numero;
    primeiro_lba = primeiro;
    setores = ultimo - primeiro + 1;
    guid = guid;
  })

unfoldable pub le_esp : Disco → ℕ → ℕ → Outcome Erro Esp
le_esp disco numero setor = do
  bail_if (numero == 0) numero_zero
  cabecalho ← ler disco setor setor
  bail_if (not (equal (take 8 cabecalho) assinatura)) sem_gpt
  let entries_lba = u64_em cabecalho 72
  let quantidade = u32_em cabecalho 80
  let tamanho_entrada = u32_em cabecalho 84
  bail_if (ltb quantidade numero) inexistente
  bail_if (ltb tamanho_entrada 128) entrada_pequena
  deslocamento ← deslocamento_de entries_lba setor numero tamanho_entrada
  entrada ← ler disco deslocamento tamanho_entrada
  esp_da_entrada numero entrada
