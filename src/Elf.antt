-- ===== src/Elf.antt =====
-- The static reading of objects, minitrue/src/elf.rs: what a file is, and what an ELF needs and
-- gives.
pub mod Ranges
pub mod Versions
pub mod Shebang
pub mod Reads
pub mod Bounded
pub mod Strings
pub mod Names
use distropica.Effects.Sealed.{entrega, resultado, ou_erro, escolhe, exige}
use distropica.Effects.{Exec, ◌>>=◌, ◌>>◌}
use distropica.Prelude.{
  ℕ, zero, suc, ◌+◌, ◌*◌, ◌/◌, min, Bool, true, false, not, ◌&&◌, ◌||◌, Option, none, some, List,
  [], ◌∷◌, ◌++◌, ltb, leb, ◌==◌, if◌then◌else◌, equal, length, take, drop, get_or, Bytes,
}
use distropica.Text.Pieces.{texto, split}
use distropica.Text.Utf16.{Text}
use Ranges.{
  Arquivo, tamanho, Erro, truncado, muitos_cabecalhos, cabecalho_curto, fora_de_faixa,
  muitas_entradas, sem_load, strtab_grande, Rastro, Load, checked_add, read_range, u16le, u32le,
  u64le, max_string, cstr, to_offset,
}
use Shebang.{Script, parse_shebang}
use Versions.{read_verneed, read_verdef}

pub record Elf : Type 0 where
  pub class : ℕ
  pub bytes : ℕ
  pub etype : ℕ
  pub machine : ℕ
  pub detailed : Bool
  pub interp : Option Text
  pub soname : Option Text
  pub needed : List Text
  pub rpath : List Text
  pub runpath : List Text
  pub verneed : List (Text × List Text)
  pub verdef : List Text

abbrev pub max_phnum : ℕ
max_phnum = 4096

abbrev pub max_dynamic : ℕ
max_dynamic = 65536

abbrev pub max_strtab : ℕ
max_strtab = 16 * 1024 * 1024

unfoldable pub nao_vazios : List Text → List Text
nao_vazios [] = []
nao_vazios ([] ∷ ps) = nao_vazios ps
nao_vazios ((c ∷ cs) ∷ ps) = (c ∷ cs) ∷ nao_vazios ps

unfoldable pub split_paths : Text → List Text
split_paths value = nao_vazios (split b':' value)

-- What the loop over the program headers gathers.
pub record Programa : Type 0 where
  pub loads : List Load
  pub dynamic : Option (ℕ × ℕ)
  pub interp : Option Text

abbrev pub interpretador : Arquivo → Bytes → Programa → Exec Rastro Erro Programa
interpretador file ph p = do
  raw ← read_range file (u64le ph 8) (min (u64le ph 32) max_string)
  nome ← resultado (cstr raw 0)
  entrega (record p { interp = some nome })

-- One program header, by its type.
unfoldable pub cabecalho : Arquivo → Bytes → Programa → Exec Rastro Erro Programa
cabecalho file ph p =
    let tipo = u32le ph 0 in
    escolhe (tipo == 1)
      (entrega (record p {
        loads =
            p.loads
            ++ record { vaddr = u64le ph 16; filesz = u64le ph 32; offset = u64le ph 8 } ∷ [];
      }))
      (escolhe (tipo == 2) (entrega (record p { dynamic = some (u64le ph 8, u64le ph 32) }))
        (escolhe (tipo == 3) (interpretador file ph p) (entrega p)))

-- The loop, with the headers that are left.
unfoldable pub cabecalhos : Arquivo → ℕ → ℕ → ℕ → ℕ → Programa → Exec Rastro Erro Programa
cabecalhos file phoff phentsize zero i p = entrega p
cabecalhos file phoff phentsize (suc left) i p = do
  at ← ou_erro fora_de_faixa (checked_add phoff (i * phentsize))
  ph ← read_range file at 56
  p' ← cabecalho file ph p
  cabecalhos file phoff phentsize left (i + 1) p'

-- What the first pass over PT_DYNAMIC gathers.
pub record Entradas : Type 0 where
  pub strtab_va : Option ℕ
  pub strsz : ℕ
  pub entries : List (ℕ × ℕ)

unfoldable pub entrada : ℕ → ℕ → Entradas → Entradas
entrada tag val e =
    if tag == 5
    then record e { strtab_va = some val }
    else if tag == 10
    then record e { strsz = val }
    else record e { entries = e.entries ++ (tag, val) ∷ [] }

-- `chunks_exact(16)`, up to DT_NULL; with the chunks that are left.
unfoldable pub primeira_passada : ℕ → Bytes → Entradas → Entradas
primeira_passada zero raw e = e
primeira_passada (suc left) raw e =
    let tag = u64le raw 0 in
    let resto = primeira_passada left (drop 16 raw) (entrada tag (u64le raw 8) e) in
    if tag == 0 then e else resto

-- The addresses and counts of the version tables.
pub record Tabelas : Type 0 where
  pub verneed : Option ℕ
  pub verneednum : ℕ
  pub verdef : Option ℕ
  pub verdefnum : ℕ

unfoldable pub tabela : ℕ → ℕ → Tabelas → Tabelas
tabela tag val t =
    if tag == 0x6ffffffe
    then record t { verneed = some val }
    else if tag == 0x6fffffff
    then record t { verneednum = val }
    else if tag == 0x6ffffffc
    then record t { verdef = some val }
    else if tag == 0x6ffffffd
    then record t { verdefnum = val }
    else t

-- One entry of the second pass.
unfoldable pub nomeia : Bytes → ℕ → ℕ → Elf × Tabelas → Exec Rastro Erro (Elf × Tabelas)
nomeia strtab tag val (elf, t) =
    let nome = resultado (cstr strtab val) in
    escolhe (tag == 1) (nome >>= λ n. entrega (record elf { needed = elf.needed ++ n ∷ [] }, t)) (
      escolhe (tag == 14) (nome >>= λ n. entrega (record elf { soname = some n }, t)) (
        escolhe (tag == 15) (nome >>= λ n. entrega (record elf { rpath = split_paths n }, t)) (
          escolhe (tag == 29) (nome >>= λ n. entrega (record elf { runpath = split_paths n }, t))
            (entrega (elf, tabela tag val t)))))

unfoldable pub segunda_passada :
    Bytes → List (ℕ × ℕ) → Elf × Tabelas → Exec Rastro Erro (Elf × Tabelas)
segunda_passada strtab [] r = entrega r
segunda_passada strtab ((tag, val) ∷ es) r = do
  r' ← nomeia strtab tag val r
  segunda_passada strtab es r'

abbrev pub sem_tabelas : Tabelas
sem_tabelas = record { verneed = none; verneednum = 0; verdef = none; verdefnum = 0 }

abbrev pub se_verneed : Arquivo → Bytes → List Load → Elf → ℕ → Option ℕ → Exec Rastro Erro Elf
se_verneed file strtab loads elf num none = entrega elf
se_verneed file strtab loads elf num (some va) =
    read_verneed file strtab loads va num >>= λ v. entrega (record elf { verneed = v })

abbrev pub se_verdef : Arquivo → Bytes → List Load → ℕ → Option ℕ → Elf → Exec Rastro Erro Elf
se_verdef file strtab loads num none elf = entrega elf
se_verdef file strtab loads num (some va) elf =
    read_verdef file strtab loads va num >>= λ v. entrega (record elf { verdef = v })

unfoldable pub versoes : Arquivo → Bytes → List Load → Elf × Tabelas → Exec Rastro Erro Elf
versoes file strtab loads (elf, t) =
    se_verneed file strtab loads elf t.verneednum t.verneed
    >>= se_verdef file strtab loads t.verdefnum t.verdef

abbrev pub sem_entradas : Entradas
sem_entradas = record { strtab_va = none; strsz = 0; entries = [] }

abbrev pub com_strtab : Arquivo → Elf → List Load → Entradas → Option ℕ → Exec Rastro Erro Elf
com_strtab file elf loads e none = entrega elf
com_strtab file elf loads e (some strtab_va) = do
  exige (leb e.strsz max_strtab) strtab_grande
  strtab_off ← ou_erro sem_load (to_offset loads strtab_va)
  strtab ← read_range file strtab_off e.strsz
  par ← segunda_passada strtab e.entries (elf, sem_tabelas)
  versoes file strtab loads par

abbrev pub dinamica : Arquivo → Elf → List Load → Option (ℕ × ℕ) → Exec Rastro Erro Elf
dinamica file elf loads none = entrega elf
dinamica file elf loads (some (dyn_off, dyn_size)) = do
  exige (leb (dyn_size / 16) max_dynamic) muitas_entradas
  raw ← read_range file dyn_off (min dyn_size (max_dynamic * 16))
  let e = primeira_passada (length raw / 16) raw sem_entradas
  com_strtab file elf loads e e.strtab_va

unfoldable pub programa : Arquivo → Bytes → Elf → Exec Rastro Erro Elf
programa file head elf = do
  exige (leb (u16le head 56) max_phnum) muitos_cabecalhos
  exige (leb 56 (u16le head 54)) cabecalho_curto
  p ←
      cabecalhos file (u64le head 32) (u16le head 54) (u16le head 56) 0
        (record { loads = []; dynamic = none; interp = none })
  dinamica file (record elf { interp = p.interp }) p.loads p.dynamic

-- An object of a class and byte order, with nothing read.
abbrev pub reconhecido : Bytes → Elf
reconhecido head = record {
  class = get_or head 4 0;
  bytes = get_or head 5 0;
  etype = 0;
  machine = 0;
  detailed = false;
  interp = none;
  soname = none;
  needed = [];
  rpath = [];
  runpath = [];
  verneed = [];
  verdef = [];
}

unfoldable pub parse_elf : Arquivo → Bytes → Exec Rastro Erro Elf
parse_elf file head = do
  exige (leb 64 (length head)) truncado
  let elf = reconhecido head
  let detalhado = record elf { etype = u16le head 16; machine = u16le head 18; detailed = true }
  escolhe (not (elf.class == 2) || not (elf.bytes == 1)) (entrega elf)
      (escolhe (u16le head 56 == 0) (entrega detalhado) (programa file head detalhado))

pub data Object : Type 0 where
  elf : Elf → Object
  script : Script → Object
  archive other : Object

abbrev pub shebang_buf : ℕ
shebang_buf = 256

abbrev cabeca : Arquivo → Option ℕ → Bytes
cabeca file none = []
cabeca file (some n) = take (min n (min (tamanho file) shebang_buf)) file.conteudo

unfoldable pub read_head : Arquivo → Bytes
read_head file = cabeca file file.inicio

unfoldable pub starts_with : Bytes → Bytes → Bool
starts_with [] bs = true
starts_with (p ∷ ps) [] = false
starts_with (p ∷ ps) (b ∷ bs) = p == b && starts_with ps bs

abbrev de_script : Option Script → Object
de_script none = other
de_script (some s) = script s

unfoldable pub inspect : Arquivo → Exec Rastro Erro Object
inspect file =
    let head = read_head file in
    escolhe (starts_with (0x7f ∷ texto "ELF") head) (parse_elf file head >>= λ e. entrega (elf e)) (
      escolhe (starts_with (texto "!<arch>" ++ 0x0a ∷ []) head) (entrega archive)
        (entrega (de_script (parse_shebang head))))

-- `Elf::is_static`.
unfoldable pub is_static : Elf → Bool
is_static e = elim e.needed [ [] ↦ elim e.interp [ none ↦ true | some _ ↦ false ] | _ ∷ _ ↦ false ]
