-- ===== src/Elf/Versions.antt =====
-- The version tables: `read_verneed` and `read_verdef` of minitrue/src/elf.rs.
use distropica.Effects.Sealed.{entrega, resultado, ou_erro, escolhe}
use distropica.Effects.{Exec, ◌>>=◌}
use distropica.Elf.Ranges.{
  Arquivo, Erro, fora_de_faixa, sem_load, Rastro, Load, checked_add, read_range, u16le, u32le, cstr,
  to_offset,
}
use distropica.Prelude.{ℕ, zero, suc, ◌%◌, min, List, [], ◌∷◌, ◌++◌, ◌==◌, Bytes}
use distropica.Text.Utf16.{Text}

abbrev pub max_version_entries : ℕ
max_version_entries = 4096

module _ (file : Arquivo) (strtab : Bytes) where
  -- The loop over the `Vernaux`, with the rounds that are left.
  unfoldable pub vernaux : ℕ → ℕ → List Text → Exec Rastro Erro (List Text)
  vernaux zero aux_at versions = entrega versions
  vernaux (suc rounds) aux_at versions = do
    aux ← read_range file aux_at 16
    nome ← resultado (cstr strtab (u32le aux 8))
    let step = u32le aux 12
    let seguinte = ou_erro fora_de_faixa (checked_add aux_at step) >>= λ at.
        vernaux rounds at (versions ++ nome ∷ [])
    escolhe (step == 0) (entrega (versions ++ nome ∷ [])) seguinte

  unfoldable pub verneed_loop :
      ℕ → ℕ → List (Text × List Text) → Exec Rastro Erro (List (Text × List Text))
  verneed_loop zero at out = entrega out
  verneed_loop (suc rounds) at out = do
    vn ← read_range file at 16
    file_name ← resultado (cstr strtab (u32le vn 4))
    aux_at ← ou_erro fora_de_faixa (checked_add at (u32le vn 8))
    versions ← vernaux (min (u16le vn 2) max_version_entries) aux_at []
    let next_rel = u32le vn 12
    let seguinte = ou_erro fora_de_faixa (checked_add at next_rel) >>= λ at'.
        verneed_loop rounds at' (out ++ (file_name, versions) ∷ [])
    escolhe (next_rel == 0) (entrega (out ++ (file_name, versions) ∷ [])) seguinte

  unfoldable pub read_verneed : List Load → ℕ → ℕ → Exec Rastro Erro (List (Text × List Text))
  read_verneed loads va num = do
    at ← ou_erro sem_load (to_offset loads va)
    verneed_loop (min num max_version_entries) at []

  -- The name of an entry that is not the object's own.
  unfoldable pub verdaux : ℕ → ℕ → List Text → Exec Rastro Erro (List Text)
  verdaux at aux_rel out = do
    aux_at ← ou_erro fora_de_faixa (checked_add at aux_rel)
    aux ← read_range file aux_at 8
    nome ← resultado (cstr strtab (u32le aux 0))
    entrega (out ++ nome ∷ [])

  unfoldable pub verdef_loop : ℕ → ℕ → List Text → Exec Rastro Erro (List Text)
  verdef_loop zero at out = entrega out
  verdef_loop (suc rounds) at out = do
    vd ← read_range file at 20
    out' ← escolhe (u16le vd 2 % 2 == 0) (verdaux at (u32le vd 12) out) (entrega out)
    let next_rel = u32le vd 16
    let seguinte =
        ou_erro fora_de_faixa (checked_add at next_rel) >>= λ at'. verdef_loop rounds at' out'
    escolhe (next_rel == 0) (entrega out') seguinte

  unfoldable pub read_verdef : List Load → ℕ → ℕ → Exec Rastro Erro (List Text)
  read_verdef loads va num = do
    at ← ou_erro sem_load (to_offset loads va)
    verdef_loop (min num max_version_entries) at []
