-- ===== src/Arvore.antt =====
-- The exchange of the recipe tree, minitrue/src/arvore.rs: `troca_atomica`, and the recovery from
-- one that was interrupted.
pub mod Origem
pub mod Exchange
pub mod Recovery
use distropica.Effects.Sealed.{entrega, escolhe, exige}
use distropica.Effects.{Outcome, ok, err, Exec, ◌>>=◌}
use distropica.Prelude.{Bool, true, false, not, ◌&&◌}

-- What a name of the directory is: nothing, a whole tree, a directory that lost some of its files,
-- or something that is no directory.
pub data Conteudo (A : Type 0) : Type 0 where
  ausente : Conteudo A
  arvore : A → Conteudo A
  restos : Conteudo A
  outro : Conteudo A

pub data Caminho : Type 0 where
  newspeak novo anterior : Caminho

-- `newspeak`, `.newspeak.novo` and `.newspeak.anterior`.
pub record Disco (A : Type 0) : Type 0 where
  pub atual : Conteudo A
  pub nova : Conteudo A
  pub velha : Conteudo A

pub data Erro : Type 0 where
  sem_metadados nao_e_diretorio sumiu nao_removeu nao_trocou nao_renomeou nao_sincronizou : Erro

pub data Remocao : Type 0 where
  inteira parcial nenhuma : Remocao

-- The calls that fail.
pub record Falhas : Type 0 where
  pub symlink_metadata : Caminho → Bool
  pub remove_dir_all : Caminho → Remocao
  pub renameat2 : Bool
  pub rename : Bool
  pub sync_all : Bool

module _ {A : Type 0} where
  abbrev pub le : Caminho → Disco A → Conteudo A
  le newspeak s = s.atual
  le novo s = s.nova
  le anterior s = s.velha

  abbrev pub poe : Caminho → Conteudo A → Disco A → Disco A
  poe newspeak c s = record s { atual = c }
  poe novo c s = record s { nova = c }
  poe anterior c s = record s { velha = c }

  abbrev pub estado : Bool → Conteudo A → Outcome Erro Bool
  estado true c = err sem_metadados
  estado false ausente = ok false
  estado false (arvore _) = ok true
  estado false restos = ok true
  estado false outro = err nao_e_diretorio

  unfoldable pub diretorio_real_ou_ausente : Falhas → Caminho → Exec (Disco A) Erro Bool
  diretorio_real_ou_ausente falhas p s = (estado (falhas.symlink_metadata p) (le p s), s)

  -- A removal that fails may have begun.
  abbrev pub removido : Remocao → Caminho → Disco A → Outcome Erro (Unit {0}) × Disco A
  removido inteira p s = (ok tt, poe p ausente s)
  removido parcial p s = (err nao_removeu, poe p restos s)
  removido nenhuma p s = (err nao_removeu, s)

  unfoldable pub remove_dir_all : Falhas → Caminho → Exec (Disco A) Erro (Unit {0})
  remove_dir_all falhas p s = removido (falhas.remove_dir_all p) p s

  unfoldable pub remove_diretorio_real_se_existe : Falhas → Caminho → Exec (Disco A) Erro (Unit {0})
  remove_diretorio_real_se_existe falhas p = do
    existe ← diretorio_real_ou_ausente falhas p
    escolhe existe (remove_dir_all falhas p) (entrega tt)

  abbrev pub chamada : Bool → Erro → Disco A → Disco A → Outcome Erro (Unit {0}) × Disco A
  chamada true e s s' = (err e, s)
  chamada false e s s' = (ok tt, s')

  unfoldable pub exchange : Falhas → Exec (Disco A) Erro (Unit {0})
  exchange falhas s =
      chamada falhas.renameat2 nao_trocou s (record s { atual = s.nova; nova = s.atual })

  -- `rename` to a name that is not there.
  unfoldable pub rename : Falhas → Caminho → Caminho → Exec (Disco A) Erro (Unit {0})
  rename falhas de para s =
      chamada falhas.rename nao_renomeou s (poe de ausente (poe para (le de s) s))

  unfoldable pub sync_all : Falhas → Exec (Disco A) Erro (Unit {0})
  sync_all falhas s = chamada falhas.sync_all nao_sincronizou s s

  unfoldable pub ignora : Exec (Disco A) Erro (Unit {0}) → Exec (Disco A) Erro (Unit {0})
  ignora m s = (ok tt, (m s).1)

  unfoldable pub troca_atomica : Falhas → Exec (Disco A) Erro (Unit {0})
  troca_atomica falhas = do
    existe ← diretorio_real_ou_ausente falhas novo
    _ ← exige existe sumiu
    havia_atual ← diretorio_real_ou_ausente falhas newspeak
    _ ← remove_diretorio_real_se_existe falhas anterior
    _ ←
        escolhe havia_atual (exchange falhas >>= λ _. ignora (remove_dir_all falhas novo))
          (rename falhas novo newspeak)
    sync_all falhas

  unfoldable pub recupera_troca_interrompida : Falhas → Exec (Disco A) Erro (Unit {0})
  recupera_troca_interrompida falhas = do
    atual_existe ← diretorio_real_ou_ausente falhas newspeak
    anterior_existe ← diretorio_real_ou_ausente falhas anterior
    _ ← escolhe (not atual_existe && anterior_existe) (rename falhas anterior newspeak) (entrega tt)
    remove_diretorio_real_se_existe falhas novo
