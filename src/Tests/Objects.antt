-- ===== src/Tests/Objects.antt =====
-- A small object and a script, and what minitrue/src/elf.rs finds in them.
use distropica.Effects.Sealed.{entrega, resultado, ou_erro, escolhe, exige}
use distropica.Effects.{Outcome, ok, ◌>>=◌}
use distropica.Elf.Bounded.{inspect-NaFaixa, length-inspect}
use distropica.Elf.Names.{exigidos, segunda_passada-needed, to_offset-bounds}
use distropica.Elf.Ranges.{
  Arquivo, Erro, Load, checked_add, read_range, posicao_nul, cstr, to_offset,
}
use distropica.Elf.Reads.{NaFaixa}
use distropica.Elf.Shebang.{parse_shebang}
use distropica.Elf.Strings.{cstr-utf8, parse_shebang-utf8}
use distropica.Elf.{
  Elf, elf, cabecalho, cabecalhos, entrada, primeira_passada, tabela, nomeia, segunda_passada,
  sem_tabelas, versoes, programa, parse_elf, read_head, starts_with, inspect,
}
use distropica.Prelude.{
  ℕ, ◌≤◌, ◌≡◌, refl, true, false, none, some, List, [], ◌∷◌, ◌++◌, length, map, Bytes, to_le,
  from_le, get_elem?, ◌+◌, ◌<◌, arith,
}
use distropica.Text.Pieces.{texto}
use distropica.Text.Utf16.{Text}
use distropica.Text.Utf8.{utf8, from_utf8, utf8_of, ler_utf8, passo}

abbrev cabecalho_elf : Bytes
cabecalho_elf =
    0x7f ∷ texto "ELF"
    ++ 2 ∷ 1 ∷ to_le 10 0
    ++ to_le 2 3
    ++ to_le 2 62
    ++ to_le 12 0
    ++ to_le 8 64
    ++ to_le 14 0
    ++ to_le 2 56
    ++ to_le 2 2
    ++ to_le 6 0

-- A PT_LOAD that maps the file at 0x1000, a PT_DYNAMIC at 176, and the names at 256.
abbrev biblioteca : Arquivo
biblioteca = record {
  conteudo =
      cabecalho_elf
      ++ to_le 4 1
      ++ to_le 12 0
      ++ to_le 8 0x1000
      ++ to_le 8 0
      ++ to_le 8 280
      ++ to_le 16 0
      ++ to_le 4 2
      ++ to_le 4 0
      ++ to_le 8 176
      ++ to_le 8 0
      ++ to_le 8 0
      ++ to_le 8 80
      ++ to_le 16 0
      ++ to_le 8 1
      ++ to_le 8 1
      ++ to_le 8 5
      ++ to_le 8 0x1100
      ++ to_le 8 10
      ++ to_le 8 24
      ++ to_le 8 14
      ++ to_le 8 11
      ++ to_le 16 0
      ++ 0 ∷ texto "libc.so.6"
      ++ 0 ∷ texto "libx.so.1"
      ++ to_le 4 0;
  inicio = some 256;
  falha = λ _ _. false;
}

abbrev objeto : Elf
objeto = record {
  class = 2;
  bytes = 1;
  etype = 3;
  machine = 62;
  detailed = true;
  interp = none;
  soname = some (texto "libx.so.1");
  needed = texto "libc.so.6" ∷ [];
  rpath = [];
  runpath = [];
  verneed = [];
  verdef = [];
}

inspect_test : (inspect biblioteca []).0 ≡ ok (elf objeto)
unfolding inspect parse_elf programa cabecalhos cabecalho read_range checked_add primeira_passada
    entrada segunda_passada nomeia tabela versoes cstr posicao_nul to_offset read_head starts_with
    ◌>>=◌ entrega resultado ou_erro escolhe exige from_le to_le from_utf8 ler_utf8 passo
inspect_test = refl

inspect-NaFaixa_example : NaFaixa biblioteca (inspect biblioteca []).1
inspect-NaFaixa_example = inspect-NaFaixa biblioteca

length-inspect_example : length (inspect biblioteca []).1 ≤ 16797698
length-inspect_example = length-inspect biblioteca

cstr-utf8_example :
    cstr ((0 ∷ []) ++ (utf8 (texto "libc.so.6") ++ 0 ∷ 0 ∷ [])) (length {A = ℕ} (0 ∷ []))
    ≡ ok (texto "libc.so.6")
cstr-utf8_example =
    cstr-utf8 (0 ∷ []) (0 ∷ []) (texto "libc.so.6") refl
      (unfold utf8 in unfold utf8_of in omega arith)

parse_shebang-utf8_example :
    parse_shebang (
      texto "#!"
      ++ (utf8 (texto "/usr/bin/env" ++ 0x20 ∷ texto "perl") ++ 0x0a ∷ texto "use strict"))
    ≡ some (record { interpreter = texto "/usr/bin/env"; argument = some (texto "perl") })
parse_shebang-utf8_example =
    parse_shebang-utf8 (texto "usr/bin/env") (texto "erl") b'p' (texto "use strict") refl refl refl
      refl

abbrev nomes_de_teste : Bytes
nomes_de_teste = 0 ∷ texto "libc.so.6" ++ 0 ∷ texto "libm.so.6" ++ 0 ∷ []

abbrev entradas_de_teste : List (ℕ × ℕ)
entradas_de_teste = (1, 1) ∷ (14, 1) ∷ (1, 11) ∷ []

abbrev vazio : Elf
vazio = record objeto { needed = []; soname = none }

segunda_passada-needed_example :
    map {B = Outcome Erro Text} ok (texto "libc.so.6" ∷ texto "libm.so.6" ∷ [])
    ≡ [] ++ exigidos nomes_de_teste entradas_de_teste
unfolding segunda_passada nomeia cstr ◌>>=◌ escolhe resultado posicao_nul from_utf8 ler_utf8 passo
    entrega
segunda_passada-needed_example =
    segunda_passada-needed nomes_de_teste entradas_de_teste vazio
      (record vazio {
        needed = texto "libc.so.6" ∷ texto "libm.so.6" ∷ [];
        soname = some (texto "libc.so.6");
      })
      sem_tabelas sem_tabelas [] [] refl

abbrev carga : Load
carga = record { vaddr = 0x1000; filesz = 280; offset = 512 }

to_offset-bounds_example :
    (i : ℕ) × (l : Load) × (get_elem? (carga ∷ []) i ≡ some l)
    × (0x1100 + l.offset ≡ 768 + l.vaddr)
    × (l.offset ≤ 768)
    × (768 < l.offset + l.filesz)
to_offset-bounds_example = to_offset-bounds (carga ∷ []) 0x1100 768 refl (unfold to_offset in refl)
