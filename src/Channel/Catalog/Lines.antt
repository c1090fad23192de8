-- ===== src/Channel/Catalog/Lines.antt =====
-- The fields of the lines of `lock_body` of minitrue/src/channel.rs.
use distropica.Channel.Catalog.Loops.{Cada}
use distropica.Channel.Catalog.Read.{IsChannel, IsSelection}
use distropica.Channel.Catalog.Written.{campos_todos}
use distropica.Channel.Catalog.{Snapshot, Selection, campos_do_canal, campos_do_pacote}
use distropica.Channel.Lock.Fields.{letra, valor_ok, campo_ok}
use distropica.Channel.Lock.Values.{
  chave-chave_ok, to_string-valor_ok, validate_name-valor_ok, validate_version-valor_ok,
  lower_hex-valor_ok, caminho-valor_ok, ou_traco-valor_ok, trust_str-valor_ok, sim_nao-valor_ok,
}
use distropica.Channel.Lock.{Url, chave, parse_lock_count, contagem, max_lock_entries}
use distropica.Effects.{ok}
use distropica.Prelude.{
  ℕ, ◌+◌, ◌≡◌, refl, ◌∙◌, ap, true, false, Option, List, [], ◌∷◌, ltb, equal_iff, all, arith,
}
use distropica.Text.Decimal.{all-append, parse_u64-to_string}
use distropica.Text.Pieces.{texto, to_string}
use distropica.Text.Utf16.{Text}

-- Fields that can be written.
pub record Prontos (ps : List (Text × Text)) : Type 0 where
  pub prontos : all campo_ok ps ≡ true

nada : Prontos []
nada = record { prontos = refl }

campo_cons :
    {ps : List (Text × Text)} (tipo : Text) (index : ℕ) (campo v : Text)
    → all letra tipo ≡ true
    → all letra campo ≡ true
    → valor_ok v ≡ true
    → Prontos ps
    → Prontos ((chave tipo index campo, v) ∷ ps)
campo_cons tipo index campo v t c h g = record {
  prontos = rw (chave-chave_ok tipo index campo t c, h) g.prontos;
}

pub canal-campo_ok :
    (parse : Text → Option Url) (index : ℕ) (s : Snapshot)
    → IsChannel parse s
    → Prontos (campos_do_canal index s)
unfolding campos_do_canal
canal-campo_ok parse index s c =
    campo_cons (texto "CHANNEL") index (texto "NAME") _ refl refl (validate_name-valor_ok _ c.nome)
      (campo_cons (texto "CHANNEL") index (texto "URL") _ refl refl c.grafica (
        campo_cons (texto "CHANNEL") index (texto "KEY_SHA256") _ refl refl
          (lower_hex-valor_ok _ c.chave_sha256)
          (campo_cons (texto "CHANNEL") index (texto "INDEX_SHA256") _ refl refl
            (lower_hex-valor_ok _ c.indice_sha256)
            (campo_cons (texto "CHANNEL") index (texto "RELEASE_ROOT") _ refl refl
              (sim_nao-valor_ok s.release_root)
              (campo_cons (texto "CHANNEL") index (texto "TRUST") _ refl refl
                (trust_str-valor_ok s.config.trust) nada)))))

pub pacote-campo_ok :
    (busca : Text → Option Snapshot) (index : ℕ) (p : Selection)
    → IsSelection busca p
    → Prontos (campos_do_pacote index p)
unfolding campos_do_pacote
pacote-campo_ok busca index p i =
    campo_cons (texto "PACKAGE") index (texto "NAME") _ refl refl (validate_name-valor_ok _ i.nome)
      (campo_cons (texto "PACKAGE") index (texto "VERSION") _ refl refl
        (validate_version-valor_ok _ i.versao)
        (campo_cons (texto "PACKAGE") index (texto "RECIPE_FINGERPRINT") _ refl refl
          (lower_hex-valor_ok _ i.receita)
          (campo_cons (texto "PACKAGE") index (texto "CHANNEL") _ refl refl
            (validate_name-valor_ok _ i.nome_valido)
            (campo_cons (texto "PACKAGE") index (texto "PATH") _ refl refl
              (caminho-valor_ok _ i.caminho)
              (campo_cons (texto "PACKAGE") index (texto "SHA256") _ refl refl
                (lower_hex-valor_ok _ i.artefato)
                (campo_cons (texto "PACKAGE") index (texto "REPROCORR") _ refl refl
                  (ou_traco-valor_ok p.index_reprocorr i.reprocorr)
                  (campo_cons (texto "PACKAGE") index (texto "INDEX_FORMAT") _ refl refl
                    (to_string-valor_ok p.index_format)
                    (campo_cons (texto "PACKAGE") index (texto "PRODUCER_PLAN_LOCK_SHA256") _ refl
                      refl (ou_traco-valor_ok p.producer_plan_lock_sha256 i.plano)
                      (campo_cons (texto "PACKAGE") index (texto "TRUST") _ refl refl
                        (trust_str-valor_ok p.trust) nada)))))))))

pub todos-campo_ok :
    {A : Type 0} {P : A → Type 0} (campos : ℕ → A → List (Text × Text))
    → ((index : ℕ) (x : A) → P x → Prontos (campos index x))
    → (index : ℕ) (xs : List A) → Cada P xs
    → all campo_ok (campos_todos campos index xs) ≡ true
unfolding campos_todos
todos-campo_ok campos f index [] c = refl
todos-campo_ok campos f index (x ∷ xs) (p, c) =
    all-append campo_ok (campos index x) (campos_todos campos (index + 1) xs)
    ∙ rw ((f index x p).prontos) (todos-campo_ok campos f (index + 1) xs c)

pub parse_lock_count-to_string :
    (n : ℕ) → ltb max_lock_entries n ≡ false → parse_lock_count (to_string n) ≡ ok n
unfolding parse_lock_count
parse_lock_count-to_string n h =
    ap (contagem (to_string n)) (parse_u64-to_string n (ground arith))
    ∙ rw ((equal_iff (to_string n) (to_string n)).1 refl) (ground arith)
