-- ===== src/Rotation.antt =====
-- The rotation of the boot EFI on the ESP, `rotaciona` of minipax/src/boot_update.rs, with every
-- file-system call that can fail. The state is the mounted ESP (the three names the rotation
-- touches), the free space that `statvfs` reports, and the faults still to come: `none` lets the
-- next call succeed, `some k` makes it fail, a write after `k` bytes. With no fault left every
-- call succeeds that the names allow. A power cut between two calls leaves the state that a fault
-- of the second leaves.
pub mod Calls
pub mod Branches
pub mod Progress
pub mod Safety
pub mod Whole
pub mod Write
use distropica.Effects.{Outcome, ok, err, Exec, ◌>>=◌, ◌>>◌, pure, raise, gets, guard, from_option}
use distropica.Prelude.{
  ℕ, ◌+◌, ◌*◌, ◌%◌, ◌^◌, Bool, true, false, not, ◌&&◌, ◌||◌, Option, none, some, List, [], ◌∷◌, ltb,
  if◌then◌else◌, length, take, equal, Bytes,
}

pub data Rodando : Type 0 where
  atual anterior desconhecido : Rodando

pub data Acao : Type 0 where
  ja_atual rotacionou trocou_atual : Acao

-- A name on the FAT of the ESP: nothing, a regular file, or a directory with its reported size.
pub data Nodo : Type 0 where
  ausente : Nodo
  arquivo : Bytes → Nodo
  diretorio : ℕ → Nodo

pub record Raiz : Type 0 where
  pub efi_atual : Nodo  -- EFI/BOOT/BOOTX64.EFI
  pub efi_anterior : Nodo  -- EFI/distropica/anterior.efi
  pub temporario : Nodo  -- EFI/BOOT/.distropica-efi.novo

pub record Mundo : Type 0 where
  pub raiz : Raiz
  pub livres : Option ℕ
  pub falhas : List (Option ℕ)

pub data Erro : Type 0 where
  vazio : Erro
  sem_espaco : Erro
  io : Erro

abbrev pub M : Type 0 → Type 0
M A = Exec Mundo Erro A

-- The effect of a call that the file system accepts.
abbrev aceita : Option Raiz → Mundo → Outcome Erro (Unit {0}) × Mundo
aceita none m = (err io, m)
aceita (some r) m = (ok tt, record m { raiz = r })

-- One call: `efeito` where it succeeds, `parcial k` what a failure after `k` bytes leaves.
abbrev chamada_com : List (Option ℕ) → (Raiz → Option Raiz) → (ℕ → Raiz → Raiz) → M (Unit {0})
chamada_com [] efeito parcial m = aceita (efeito m.raiz) m
chamada_com (none ∷ fs) efeito parcial m = aceita (efeito m.raiz) (record m { falhas = fs })
chamada_com (some k ∷ fs) efeito parcial m =
    (err io, record m { raiz = parcial k m.raiz; falhas = fs })

unfoldable pub chamada : (Raiz → Option Raiz) → (ℕ → Raiz → Raiz) → M (Unit {0})
chamada efeito parcial m = chamada_com m.falhas efeito parcial m

-- A call whose failure changes nothing, and one that changes nothing at all (`create_dir_all` of
-- a directory the ESP layout has, `sync_all`, `sincroniza_dir`, and the opening and reading of a
-- file).
abbrev pub atomica : (Raiz → Option Raiz) → M (Unit {0})
atomica efeito = chamada efeito (λ _ r. r)

abbrev pub neutra : M (Unit {0})
neutra = atomica (λ r. some r)

-- `symlink_metadata(…).map(…).unwrap_or(padrao)`: a call that fails is taken for `padrao`.
abbrev medida_com : {A : Type 0} → List (Option ℕ) → A → A → M A
medida_com [] lido padrao m = (ok lido, m)
medida_com (none ∷ fs) lido padrao m = (ok lido, record m { falhas = fs })
medida_com (some k ∷ fs) lido padrao m = (ok padrao, record m { falhas = fs })

unfoldable pub medida : {A : Type 0} → A → A → M A
medida lido padrao m = medida_com m.falhas lido padrao m

-- `let _ = …`.
unfoldable pub ignora : M (Unit {0}) → M (Unit {0})
ignora m w = (ok tt, (m w).1)

unfoldable pub remove_temporario : Raiz → Option Raiz
remove_temporario r = elim r.temporario [
  | arquivo _ ↦ some (record r { temporario = ausente })
  | _ ↦ none
]

-- `create_new(true)` refuses a name that is there.
unfoldable pub cria_temporario : Raiz → Option Raiz
cria_temporario r = elim r.temporario [
  | ausente ↦ some (record r { temporario = arquivo [] })
  | _ ↦ none
]

unfoldable pub renomeia_temporario : Raiz → Option Raiz
renomeia_temporario r = elim r.efi_atual [
  | diretorio _ ↦ none
  | _ ↦ some (record r { efi_atual = r.temporario; temporario = ausente })
]

-- `escreve_trocando(&atual, bytes)`, the only destination the rotation gives it.
unfoldable pub escreve_trocando : Bytes → M (Unit {0})
escreve_trocando bytes = do
  neutra
  ignora (atomica remove_temporario)
  atomica cria_temporario
  chamada (λ r. some (record r { temporario = arquivo bytes }))
      (λ k r. record r { temporario = arquivo (take k bytes) })
  neutra
  atomica renomeia_temporario
  neutra

-- `m.len()`.
unfoldable pub comprimento : Nodo → ℕ
comprimento ausente = 0
comprimento (arquivo b) = length b
comprimento (diretorio n) = n

unfoldable pub tamanho : Nodo → M ℕ
tamanho nodo = medida (comprimento nodo) 0

abbrev pub folga : ℕ
folga = 1024 * 1024

unfoldable pub eh_arquivo : Nodo → Bool
eh_arquivo (arquivo _) = true
eh_arquivo _ = false

-- `atual_existe && fs::read(&atual)? == novo`: the file is read only where it is there.
unfoldable pub ja_instalado : Nodo → Bytes → M Bool
ja_instalado (arquivo b) novo = do neutra; pure (equal b novo)
ja_instalado _ novo = pure false

unfoldable pub remove_anterior : Raiz → Option Raiz
remove_anterior r = elim r.efi_anterior [
  | arquivo _ ↦ some (record r { efi_anterior = ausente })
  | _ ↦ none
]

unfoldable pub guarda_atual : Raiz → Option Raiz
guarda_atual r = elim r.efi_anterior [
  | diretorio _ ↦ none
  | _ ↦ some (record r { efi_anterior = r.efi_atual; efi_atual = ausente })
]

unfoldable pub eh_anterior : Rodando → Bool
eh_anterior anterior = true
eh_anterior _ = false

-- The machine runs from the reserve, or there is no current file: the current name is replaced.
unfoldable pub troca : ℕ → Bytes → Bool → M Acao
troca disponivel novo atual_existe = do
  guard (not (ltb disponivel (length novo + folga))) sem_espaco
  escreve_trocando novo
  pure (if atual_existe then trocou_atual else rotacionou)

-- The common case: the old reserve goes, the current file becomes the reserve.
unfoldable pub rotaciona_atual : ℕ → ℕ → Bytes → M Acao
rotaciona_atual disponivel recuperavel novo = do
  guard (not (ltb ((disponivel + recuperavel) % 2 ^ 64) (length novo + folga))) sem_espaco
  if ltb 0 recuperavel then atomica remove_anterior else pure tt
  neutra
  atomica guarda_atual
  neutra
  neutra
  escreve_trocando novo
  pure rotacionou

-- The body of `rotaciona` behind its first check, on the ESP as it finds it, with what the
-- metadata of the current name said.
unfoldable pub rotaciona_de : Raiz → Bytes → Rodando → Bool → M Acao
unfolding eh_anterior
rotaciona_de antes novo rodando atual_existe = do
  igual ← if atual_existe then ja_instalado antes.efi_atual novo else pure false
  medido ← gets (λ m. m.livres)
  let sem_troca = pure ja_atual
  let trocando = do
    disponivel ← from_option io medido
    if eh_anterior rodando || not atual_existe then troca disponivel novo atual_existe else do
      recuperavel ← tamanho antes.efi_anterior
      rotaciona_atual disponivel recuperavel novo
  if igual then sem_troca else trocando

unfoldable pub rotaciona : Bytes → Rodando → M Acao
rotaciona novo rodando = do
  guard (not (equal novo [])) vazio
  antes ← gets (λ m. m.raiz)
  atual_existe ← medida (eh_arquivo antes.efi_atual) false
  rotaciona_de antes novo rodando atual_existe
