-- ===== src/Efi/Registry.antt =====
-- The entry in the firmware's NVRAM, `registra` of minipax/src/efi_boot.rs with `ocupados`,
-- `le_variavel` and `escreve_variavel`. The efivarfs directory is the list of its files. Which of
-- the calls fail is an input: `Falhas`.
pub mod Names
pub mod Numbers
pub mod Store
pub mod Entries
pub mod Order
pub mod Choice
pub mod Registered
pub mod Again
pub mod Search
use distropica.Effects.{Outcome, ok, err, Exec, ◌>>=◌, ◌>>◌, pure, gets, guard, from_option, raise}
use distropica.Efi.{Esp, load_option, rotulo_de}
use distropica.Prelude.{
  ℕ, zero, suc, ◌+◌, ◌*◌, ◌≡◌, Bool, true, false, not, ◌&&◌, Option, none, some, List, [], ◌∷◌,
  ◌++◌, ltb, ◌==◌, if◌then◌else◌, equal, take, drop, Bytes, to_le, from_le,
}
use distropica.Text.Pieces.{texto}
use distropica.Text.Utf16.{Text}
use Names.{nome_variavel, nome_boot, numero_de}
use Numbers.{ordena, contem, primeiro, livre}
use Store.{Efivars, lookup, set}

-- Which calls fail: the test that the directory is there, its listing, the reading of one entry of
-- the listing (which `flatten` then skips), the read of a file, what comes before the first write (clearing the immutable flag, opening), and the write itself,
-- which then leaves so many bytes.
pub record Falhas : Type 0 where
  pub ausente : Bool
  pub lista : Bool
  pub pula : Text → Bool
  pub le : Text → Bool
  pub abre : Text → Bool
  pub grava : Text → Option ℕ

pub data Erro : Type 0 where
  sem_efivars sem_lista panico sem_numero nao_abre nao_grava : Erro

abbrev pub atributos : ℕ
atributos = 7

unfoldable pub le_variavel : Falhas → Efivars → Text → Option Bytes
le_variavel falhas vars nome =
    if falhas.le (nome_variavel nome) then none else lookup (nome_variavel nome) vars

abbrev pub junta_numero : Option ℕ → List ℕ → List ℕ
junta_numero none ns = ns
junta_numero (some n) ns = n ∷ ns

-- The number of each file named Boot####, sorted.
unfoldable pub numeros : Efivars → List ℕ
numeros [] = []
numeros ((nome, _) ∷ vars) = junta_numero (numero_de nome) (numeros vars)

-- `read_dir(dir)?.flatten()`: the files whose directory entry could be read.
unfoldable pub listados : Falhas → Efivars → Efivars
listados falhas [] = []
listados falhas ((nome, dados) ∷ vars) =
    let resto = listados falhas vars in if falhas.pula nome then resto else (nome, dados) ∷ resto

unfoldable pub ocupados : Falhas → Efivars → List ℕ
ocupados falhas vars = ordena (numeros (listados falhas vars))

abbrev conteudo_de : Bytes → Bytes
conteudo_de dados = to_le 4 atributos ++ dados

abbrev escrito : Text → Bytes → Option ℕ → Exec Efivars Erro (Unit {0})
escrito nome conteudo none vars = (ok tt, set nome conteudo vars)
escrito nome conteudo (some k) vars = (err nao_grava, set nome (take k conteudo) vars)

unfoldable pub escreve_variavel : Falhas → Text → Bytes → Exec Efivars Erro (Unit {0})
escreve_variavel falhas nome dados vars =
    let caminho = nome_variavel nome in
    if falhas.abre caminho
    then (err nao_abre, vars)
    else escrito caminho (conteudo_de dados) (falhas.grava caminho) vars

pub record Registro : Type 0 where
  pub numero : ℕ  -- u16
  pub reaproveitada : Bool

-- `rotulo_de(nua).as_deref() == Some(rotulo)`, for the option behind the attributes.
abbrev mesmo_texto : Option Text → Text → Bool
mesmo_texto none rotulo = false
mesmo_texto (some t) rotulo = equal t rotulo

abbrev rotulado : Option Bytes → Text → Bool
rotulado none rotulo = false
rotulado (some atual) rotulo = mesmo_texto (rotulo_de (drop 4 atual)) rotulo

unfoldable pub tem_rotulo : Falhas → Efivars → Text → ℕ → Bool
tem_rotulo falhas vars rotulo numero = rotulado (le_variavel falhas vars (nome_boot numero)) rotulo

abbrev escolha : List ℕ → Option ℕ → Option Registro
escolha usados (some n) = some (record { numero = n; reaproveitada = true })
escolha usados none = elim (livre 0x10000 0 usados) [
  | none ↦ none
  | some n ↦ some (record { numero = n; reaproveitada = false })
]

-- The number to use: that of the first entry with the label, or the first that is free.
unfoldable pub escolhe : Falhas → Text → Efivars → Option Registro
escolhe falhas rotulo vars =
    let usados = ocupados falhas vars in
    escolha usados (primeiro (tem_rotulo falhas vars rotulo) usados)

-- `chunks_exact(2)`, without the numbers that are equal to `numero`.
unfoldable pub outros : ℕ → Bytes → List ℕ
outros numero (a ∷ b ∷ resto) =
    let existente = from_le (a ∷ b ∷ []) in
    let seguintes = outros numero resto in
    if existente == numero then seguintes else existente ∷ seguintes
outros numero _ = []

abbrev pub boot_order : Text
boot_order = texto "BootOrder"

abbrev corpo : Option Bytes → Bytes
corpo none = []
corpo (some atual) = drop 4 atual

unfoldable pub ordem : Falhas → ℕ → Efivars → List ℕ
ordem falhas numero vars = numero ∷ outros numero (corpo (le_variavel falhas vars boot_order))

unfoldable pub ordem_bytes : List ℕ → Bytes
ordem_bytes [] = []
ordem_bytes (n ∷ ns) = to_le 2 n ++ ordem_bytes ns

unfoldable pub registra : Falhas → Text → Esp → Text → Exec Efivars Erro Registro
registra falhas rotulo esp carregador = do
  guard (not falhas.ausente) sem_efivars
  opcao ← from_option panico (load_option rotulo esp carregador)
  guard (not falhas.lista) sem_lista
  escolhido ← gets (escolhe falhas rotulo)
  registro ← from_option sem_numero escolhido
  escreve_variavel falhas (nome_boot registro.numero) opcao
  ordem ← gets (ordem falhas registro.numero)
  escreve_variavel falhas boot_order (ordem_bytes ordem)
  pure registro
