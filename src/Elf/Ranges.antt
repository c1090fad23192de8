-- ===== src/Elf/Ranges.antt =====
-- Reading ranges of a file and the words and strings in them: `read_range`, `cstr`, `u16le`,
-- `u32le`, `u64le` and `to_offset` of minitrue/src/elf.rs.
use distropica.Effects.{Outcome, ok, err, Exec}
use distropica.Prelude.Options.{◌>>=◌}
use distropica.Prelude.{
  ℕ, zero, suc, ◌+◌, ◌-◌, ◌%◌, ◌^◌, Bool, true, false, ◌&&◌, Option, none, some, List, [], ◌∷◌, ltb,
  leb, ◌==◌, if◌then◌else◌, length, take, drop, Bytes, from_le,
}
use distropica.Text.Utf16.{Text}
use distropica.Text.Utf8.{from_utf8}

-- A file: its bytes, how many of them the first read gives (`none` if it fails), and which of the
-- later reads fail.
pub record Arquivo : Type 0 where
  pub conteudo : Bytes
  pub inicio : Option ℕ
  pub falha : ℕ → ℕ → Bool

abbrev pub tamanho : Arquivo → ℕ
tamanho file = length file.conteudo

pub data Erro : Type 0 where
  truncado muitos_cabecalhos cabecalho_curto fora_de_faixa leitura muitas_entradas : Erro
  sem_load strtab_grande sem_nome sem_terminador nao_utf8 : Erro

-- The ranges that were read, the last one first: where, and how many bytes were allocated.
abbrev pub Rastro : Type 0
Rastro = List (ℕ × ℕ)

abbrev pub u64_mod : ℕ
u64_mod = 2 ^ 64

-- `checked_add` of two u64.
unfoldable pub checked_add : ℕ → ℕ → Option ℕ
checked_add a b = if ltb (a + b) u64_mod then some (a + b) else none

abbrev pub lido : Arquivo → ℕ → ℕ → Bool → Exec Rastro Erro Bytes
lido file at len true rastro = (err leitura, (at, len) ∷ rastro)
lido file at len false rastro = (ok (take len (drop at file.conteudo)), (at, len) ∷ rastro)

abbrev pub na_faixa : Arquivo → ℕ → ℕ → Option ℕ → Exec Rastro Erro Bytes
na_faixa file at len none = λ rastro. (err fora_de_faixa, rastro)
na_faixa file at len (some fim) =
    if ltb (tamanho file) fim
    then (λ rastro. (err fora_de_faixa, rastro))
    else lido file at len (file.falha at len)

unfoldable pub read_range : Arquivo → ℕ → ℕ → Exec Rastro Erro Bytes
read_range file at len = na_faixa file at len (checked_add at len)

abbrev pub u16le : Bytes → ℕ → ℕ
u16le b at = from_le (take 2 (drop at b))

abbrev pub u32le : Bytes → ℕ → ℕ
u32le b at = from_le (take 4 (drop at b))

abbrev pub u64le : Bytes → ℕ → ℕ
u64le b at = from_le (take 8 (drop at b))

abbrev pub max_string : ℕ
max_string = 4096

-- The first zero among the first `limite` bytes.
unfoldable pub posicao_nul : ℕ → Bytes → Option ℕ
posicao_nul zero bs = none
posicao_nul (suc limite) [] = none
posicao_nul (suc limite) (b ∷ bs) =
    let depois = posicao_nul limite bs >>= λ k. some (suc k) in if b == 0 then some 0 else depois

abbrev pub com_texto : Option Text → Outcome Erro Text
com_texto none = err nao_utf8
com_texto (some t) = ok t

abbrev pub ate : Bytes → Option ℕ → Outcome Erro Text
ate rest none = err sem_terminador
ate rest (some fim) = com_texto (from_utf8 (take fim rest))

unfoldable pub cstr : Bytes → ℕ → Outcome Erro Text
cstr buf at =
    if ltb (length buf) at
    then err sem_nome
    else ate (drop at buf) (posicao_nul max_string (drop at buf))

-- A PT_LOAD.
pub record Load : Type 0 where
  pub vaddr : ℕ  -- u64
  pub filesz : ℕ  -- u64
  pub offset : ℕ  -- u64

-- The sum is a `+` of u64: it wraps in a release build (and panics in a debug build).
unfoldable pub to_offset : List Load → ℕ → Option ℕ
to_offset [] va = none
to_offset (l ∷ loads) va =
    if leb l.vaddr va && ltb (va - l.vaddr) l.filesz
    then some ((l.offset + (va - l.vaddr)) % u64_mod)
    else to_offset loads va
