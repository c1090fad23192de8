-- ===== src/Tests/Firmware.antt =====
-- Boot entries in the NVRAM, on a firmware that holds the entry of another system.
use distropica.Effects.{ok, ◌>>=◌}
use distropica.Efi.Registry.Again.{sem_falhas, registra_again}
use distropica.Efi.Registry.Names.{
  nome_variavel, nome_boot, hexa4, digito_x, numero_de, numero_hexa, valor_hexa, valor_x,
  strip_suffix,
}
use distropica.Efi.Registry.Numbers.{primeiro, livre, contem, ordena, insere}
use distropica.Efi.Registry.Registered.{Left, registra-Left}
use distropica.Efi.Registry.Search.{opcao_com_rotulo, opcao_com_rotulo-registra}
use distropica.Efi.Registry.Store.{Efivars, lookup, set}
use distropica.Efi.Registry.{
  Falhas, Registro, registra, escolhe, ocupados, listados, numeros, le_variavel, escreve_variavel,
  tem_rotulo, outros, ordem, ordem_bytes, boot_order,
}
use distropica.Efi.{
  Esp, load_option, device_path, hd_node, file_node, unit_bytes, rotulo_de, ler_rotulo,
}
use distropica.Prelude.{
  ◌≡◌, refl, [], ◌∷◌, some, true, false, Bytes, to_le, from_le, equal, ◌++◌, arith,
}
use distropica.Text.Pieces.{texto, strip_prefix}
use distropica.Text.Utf16.{Text, encode_utf16, from_utf16}

abbrev guid : Bytes
guid = 1 ∷ 2 ∷ 3 ∷ 4 ∷ 5 ∷ 6 ∷ 7 ∷ 8 ∷ 9 ∷ 10 ∷ 11 ∷ 12 ∷ 13 ∷ 14 ∷ 15 ∷ 16 ∷ []

abbrev esp : Esp
esp = record { numero = 1; primeiro_lba = 2048; setores = 131072; guid = guid }

abbrev rotulo : Text
rotulo = texto "D"

abbrev carregador : Text
carregador = texto "\\E"

-- The other system is entry 0, and the order has it and an entry 5 that is gone.
abbrev antes : Efivars
antes =
    (
      nome_variavel (texto "Boot0000"),
      7 ∷ 0 ∷ 0 ∷ 0 ∷ 1 ∷ 0 ∷ 0 ∷ 0 ∷ 0 ∷ 0 ∷ b'W' ∷ 0 ∷ 0 ∷ 0 ∷ [],
    )
    ∷ (nome_variavel boot_order, 7 ∷ 0 ∷ 0 ∷ 0 ∷ 0 ∷ 0 ∷ 5 ∷ 0 ∷ [])
    ∷ []

abbrev registro : Registro
registro = record { numero = 1; reaproveitada = false }

abbrev opcao : Bytes
opcao =
    1
    ∷ 0
    ∷ 0
    ∷ 0
    ∷ 56
    ∷ 0
    ∷ b'D'
    ∷ 0
    ∷ 0
    ∷ 0
    ∷ 4
    ∷ 1
    ∷ 42
    ∷ 0
    ∷ 1
    ∷ 0
    ∷ 0
    ∷ 0
    ∷ 0
    ∷ 8
    ∷ 0
    ∷ 0
    ∷ 0
    ∷ 0
    ∷ 0
    ∷ 0
    ∷ 0
    ∷ 0
    ∷ 2
    ∷ 0
    ∷ 0
    ∷ 0
    ∷ 0
    ∷ 0
    ∷ (guid ++ (2 ∷ 2 ∷ 4 ∷ 4 ∷ 10 ∷ 0 ∷ 0x5c ∷ 0 ∷ b'E' ∷ 0 ∷ 0 ∷ 0 ∷ 0x7f ∷ 0xff ∷ 4 ∷ 0 ∷ []))

abbrev agora : Efivars
agora =
    (
      nome_variavel (texto "Boot0000"),
      7 ∷ 0 ∷ 0 ∷ 0 ∷ 1 ∷ 0 ∷ 0 ∷ 0 ∷ 0 ∷ 0 ∷ b'W' ∷ 0 ∷ 0 ∷ 0 ∷ [],
    )
    ∷ (nome_variavel boot_order, 7 ∷ 0 ∷ 0 ∷ 0 ∷ 1 ∷ 0 ∷ 0 ∷ 0 ∷ 5 ∷ 0 ∷ [])
    ∷ (nome_variavel (texto "Boot0001"), 7 ∷ 0 ∷ 0 ∷ 0 ∷ opcao)
    ∷ []

registra_first : registra sem_falhas rotulo esp carregador antes ≡ (ok registro, agora)
unfolding registra ◌>>=◌ escolhe ocupados listados numeros le_variavel escreve_variavel tem_rotulo
    outros ordem ordem_bytes primeiro livre contem ordena insere lookup set nome_boot hexa4 digito_x
    numero_de numero_hexa valor_hexa valor_x strip_suffix strip_prefix equal load_option device_path
    hd_node file_node unit_bytes rotulo_de ler_rotulo encode_utf16 from_utf16 to_le from_le
registra_first = refl

registra-Left_example :
    Left sem_falhas rotulo antes esp carregador
      (registra sem_falhas rotulo esp carregador antes).0
      (registra sem_falhas rotulo esp carregador antes).1
unfolding lookup equal
registra-Left_example = registra-Left sem_falhas rotulo antes esp carregador refl

registra_again_example :
    registra sem_falhas rotulo esp carregador agora
    ≡ (ok (record { numero = 1; reaproveitada = true }), agora)
unfolding lookup equal
registra_again_example =
    registra_again rotulo esp carregador antes agora registro refl refl registra_first

opcao_com_rotulo-registra_example :
    opcao_com_rotulo sem_falhas agora rotulo
    ≡ some (some (record { rotulo = rotulo; guid = some guid; arquivo = some carregador }))
unfolding encode_utf16
opcao_com_rotulo-registra_example =
    opcao_com_rotulo-registra rotulo esp carregador antes agora registro refl refl refl
      (omega arith) registra_first

abbrev ordem_ilegivel : Falhas
ordem_ilegivel = record sem_falhas { le = equal (nome_variavel boot_order) }

-- BootOrder cannot be read: a success leaves no other system in it.
registra-ordem_ilegivel :
    lookup (nome_variavel boot_order) (registra ordem_ilegivel rotulo esp carregador antes).1
    ≡ some (7 ∷ 0 ∷ 0 ∷ 0 ∷ 1 ∷ 0 ∷ [])
unfolding registra ◌>>=◌ escolhe ocupados listados numeros le_variavel escreve_variavel tem_rotulo
    outros ordem ordem_bytes primeiro livre contem ordena insere lookup set nome_boot hexa4 digito_x
    numero_de numero_hexa valor_hexa valor_x strip_suffix strip_prefix equal load_option device_path
    hd_node file_node unit_bytes rotulo_de ler_rotulo encode_utf16 from_utf16 to_le from_le
registra-ordem_ilegivel = refl

abbrev entrada_pulada : Falhas
entrada_pulada = record sem_falhas { pula = equal (nome_variavel (nome_boot 0)) }

-- The directory entry of the other system's file cannot be read: its number is taken, and its
-- entry is written over.
registra-entrada_pulada :
    lookup (nome_variavel (nome_boot 0)) (registra entrada_pulada rotulo esp carregador antes).1
    ≡ some (7 ∷ 0 ∷ 0 ∷ 0 ∷ opcao)
unfolding registra ◌>>=◌ escolhe ocupados listados numeros le_variavel escreve_variavel tem_rotulo
    outros ordem ordem_bytes primeiro livre contem ordena insere lookup set nome_boot hexa4 digito_x
    numero_de numero_hexa valor_hexa valor_x strip_suffix strip_prefix equal load_option device_path
    hd_node file_node unit_bytes rotulo_de ler_rotulo encode_utf16 from_utf16 to_le from_le
registra-entrada_pulada = refl
