-- ===== src/Efi.antt =====
-- The UEFI boot entries of minipax/src/efi_boot.rs: device paths and load options as bytes. A
-- `Vec<u8>` is the list of its bytes; `none` of `device_path` and `load_option` is the panic of
-- their `expect`.
pub mod Nodes
pub mod RoundTrip
pub mod Partition
pub mod Registry
use mathlib.Core.Option
use distropica.Prelude.{
  ℕ, zero, suc, ◌+◌, ◌*◌, ◌≡◌, Bool, true, false, ◌&&◌, ◌||◌, Option, none, some, List, [], ◌∷◌,
  ◌++◌, ltb, leb, ◌==◌, if◌then◌else◌, length, get_or, take, drop, Bytes, to_le, from_le,
}
use distropica.Prelude.Options.{◌>>=◌}
use distropica.Text.Utf16.{Text, encode_utf16, from_utf16}

abbrev pub opcao_ativa : ℕ
opcao_ativa = 1

pub record Esp : Type 0 where
  pub numero : ℕ  -- u32
  pub primeiro_lba : ℕ  -- u64
  pub setores : ℕ  -- u64
  pub guid : Bytes  -- [u8; 16]

-- The loop that appends each UTF-16 unit in little-endian order.
unfoldable pub unit_bytes : List ℕ → Bytes
unit_bytes [] = []
unit_bytes (u ∷ us) = to_le 2 u ++ unit_bytes us

-- `u16::try_from(n).expect(…)`.
abbrev u16_of : ℕ → Option ℕ
u16_of n = if ltb n 0x10000 then some n else none

unfoldable pub hd_node : Esp → Bytes
hd_node esp =
    0x04
    ∷ 0x01
    ∷ (to_le 2 42
        ++ (to_le 4 esp.numero
            ++ (to_le 8 esp.primeiro_lba
                ++ (to_le 8 esp.setores ++ (esp.guid ++ 0x02 ∷ 0x02 ∷ [])))))

unfoldable pub file_node : ℕ → Bytes → Bytes
file_node tamanho caminho = 0x04 ∷ 0x04 ∷ (to_le 2 tamanho ++ caminho)

abbrev pub end_node : Bytes
end_node = 0x7f ∷ 0xff ∷ 4 ∷ 0 ∷ []

unfoldable pub device_path : Esp → Text → Option Bytes
device_path esp carregador = do
  let caminho = unit_bytes (encode_utf16 carregador) ++ to_le 2 0
  tamanho ← u16_of (4 + length caminho)
  some (hd_node esp ++ (file_node tamanho caminho ++ end_node))

unfoldable pub load_option : Text → Esp → Text → Option Bytes
load_option rotulo esp carregador = do
  caminho ← device_path esp carregador
  tamanho ← u16_of (length caminho)
  some (
      to_le 4 opcao_ativa
      ++ (to_le 2 tamanho ++ (unit_bytes (encode_utf16 rotulo) ++ (to_le 2 0 ++ caminho))))

-- The `while` loop of `rotulo_de`, on what is left from index `i`.
unfoldable pub ler_rotulo : List ℕ → Bytes → Option Text
ler_rotulo unidades (a ∷ b ∷ resto) =
    let unidade = from_le (a ∷ b ∷ []) in
    let seguinte = ler_rotulo (unidades ++ unidade ∷ []) resto in
    if unidade == 0 then from_utf16 unidades else seguinte
ler_rotulo unidades _ = none

unfoldable pub rotulo_de : Bytes → Option Text
rotulo_de opcao = if ltb (length opcao) 6 then none else ler_rotulo [] (drop 6 opcao)

pub record OpcaoLida : Type 0 where
  pub rotulo : Text
  pub guid : Option Bytes
  pub arquivo : Option Text

-- `chunks_exact(2)` as units, up to the first that is 0.
unfoldable pub unidades_do_arquivo : Bytes → List ℕ
unidades_do_arquivo (a ∷ b ∷ resto) =
    let unidade = from_le (a ∷ b ∷ []) in
    let seguintes = unidades_do_arquivo resto in if unidade == 0 then [] else unidade ∷ seguintes
unidades_do_arquivo _ = []

-- What one node adds to the GUID and the file read so far (the `match` but its `break`).
unfoldable pub ler_no : Bytes → Option Bytes → Option Text → Option (Option Bytes × Option Text)
ler_no no_ guid arquivo =
    let tipo = get_or no_ 0 0 in
    let subtipo = get_or no_ 1 0 in
    if tipo == 0x04 && subtipo == 0x01 && leb 42 (length no_)
    then some (some (take 16 (drop 24 no_)), arquivo)
    else if tipo == 0x04 && subtipo == 0x04
    then Option.map (λ a. (guid, some a)) (from_utf16 (unidades_do_arquivo (drop 4 no_)))
    else some (guid, arquivo)

-- The `while` loop over the nodes, on what is left from index `i`. Every node is at least four
-- bytes long, so the length of the path is fuel enough.
unfoldable pub ler_nos :
    ℕ → Bytes → Option Bytes → Option Text → Option (Option Bytes × Option Text)
ler_nos zero resto guid arquivo = some (guid, arquivo)
ler_nos (suc fuel) resto guid arquivo =
    let tamanho = from_le (take 2 (drop 2 resto)) in
    if ltb (length resto) 4
    then some (guid, arquivo)
    else if ltb tamanho 4 || ltb (length resto) tamanho
    then none
    else if get_or resto 0 0 == 0x7f && get_or resto 1 0 == 0xff
    then some (guid, arquivo)
    else elim (ler_no (take tamanho resto) guid arquivo) [
      | none ↦ none
      | some (guid', arquivo') ↦ ler_nos fuel (drop tamanho resto) guid' arquivo'
    ]

-- `opcao.get(inicio..inicio + tamanho)`; a slice is shorter than the address space, so the
-- checked addition does not overflow where the range fits.
unfoldable pub get_range : Bytes → ℕ → ℕ → Option Bytes
get_range opcao inicio tamanho =
    if leb (inicio + tamanho) (length opcao) then some (take tamanho (drop inicio opcao)) else none

unfoldable pub guarda_tamanho : Bytes → Option Bytes
guarda_tamanho opcao = if ltb (length opcao) 6 then none else some opcao

unfoldable pub le_opcao : Bytes → Option OpcaoLida
le_opcao bruta = do
  opcao ← guarda_tamanho bruta
  let tamanho_caminho = from_le (take 2 (drop 4 opcao))
  rotulo ← rotulo_de opcao
  let inicio = 6 + (length (encode_utf16 rotulo) + 1) * 2
  caminho ← get_range opcao inicio tamanho_caminho
  (guid, arquivo) ← ler_nos (length caminho) caminho none none
  some (record { rotulo = rotulo; guid = guid; arquivo = arquivo })
