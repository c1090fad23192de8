-- ===== src/Channel/Catalog/Read.antt =====
-- `le_canal` and `le_pacote` on the lines of `lock_body` (minitrue/src/channel.rs).
use distropica.Channel.Catalog.{Snapshot, Selection, campos_do_canal, campos_do_pacote, ou_traco}
use distropica.Channel.Index.{hash_opcional}
use distropica.Channel.Lock.Accepted.{DeFormato, lower_hex-vazio}
use distropica.Channel.Lock.Fields.{letra, valor_ok, linha_de, Runs-field}
use distropica.Channel.Lock.Values.{
  chave-chave_ok, to_string-valor_ok, validate_name-valor_ok, validate_version-valor_ok,
  lower_hex-valor_ok, caminho-valor_ok, ou_traco-valor_ok, trust_str-valor_ok, sim_nao-valor_ok,
}
use distropica.Channel.Lock.{
  Url, LockLines, field, exige_que, url_canonica, LockedChannel, LockedPackage, Mapa, get, ausente,
  chave, em_ordem, sim_nao, le_canal, vazio_ou_traco, menos_traco, formato_do_indice, le_produtor,
  fecha_com, do_canal, le_pacote,
}
use distropica.Channel.{
  Trust, oficial, corroborado, builder, trust_str, parse_trust, lower_hex, validate_artifact_path,
  confere,
}
use distropica.Effects.Runs.{Runs, Runs-bind, Runs-entrega, Runs-resultado, Runs-escolhe, Runs-same}
use distropica.Effects.{ok}
use distropica.Prelude.{
  ℕ, ◌≡◌, refl, sym, ◌∙◌, ap, inl, inr, Bool, true, false, ◌&&◌, ◌||◌, Option, none, some, List,
  ◌∷◌, ◌++◌, map, ◌==◌, if◌then◌else◌, equal, all, arith, Bool-cases, false-ne-true,
}
use distropica.Recipe.{validate_name, validate_version}
use distropica.Text.Pieces.{texto, to_string, digitos}
use distropica.Text.Trim.{is_empty}
use distropica.Text.Utf16.{Text}

abbrev pub trancado_canal : Snapshot → LockedChannel
trancado_canal s = record {
  index_sha256 = s.index_sha256;
  release_root = s.release_root;
  trust = s.config.trust;
}

abbrev pub trancado_pacote : Selection → LockedPackage
trancado_pacote p = record {
  name = p.name;
  version = p.version;
  recipe_fingerprint = p.recipe_fingerprint;
  channel = p.channel;
  path = p.path;
  artifact_sha256 = p.artifact_sha256;
  reprocorr = p.index_reprocorr;
  index_format = p.index_format;
  producer_plan_lock_sha256 = p.producer_plan_lock_sha256;
  trust = p.trust;
}

-- A channel with a valid name, an address that is its own canonical form, and hashes.
pub record IsChannel (parse : Text → Option Url) (s : Snapshot) : Type 0 where
  pub nome : validate_name s.config.name ≡ ok tt
  pub canonica : url_canonica s.config.url.as_str (parse s.config.url.as_str) ≡ true
  pub grafica : valor_ok s.config.url.as_str ≡ true
  pub chave_sha256 : lower_hex s.key_sha256 ≡ true
  pub indice_sha256 : lower_hex s.index_sha256 ≡ true

-- A selection with valid fields, that goes with the channel that it names.
pub record IsSelection (channels : Text → Option Snapshot) (p : Selection) : Type 0 where
  pub s : Snapshot
  pub canal : channels p.channel ≡ some s
  pub nome : validate_name p.name ≡ ok tt
  pub nome_valido : validate_name p.channel ≡ ok tt
  pub versao : validate_version p.version ≡ ok tt
  pub receita : lower_hex p.recipe_fingerprint ≡ true
  pub caminho : validate_artifact_path p.path ≡ ok tt
  pub artefato : lower_hex p.artifact_sha256 ≡ true
  pub reprocorr : hash_opcional p.index_reprocorr ≡ true
  pub plano : hash_opcional p.producer_plan_lock_sha256 ≡ true
  pub formato : DeFormato p.index_format
  pub indice : p.index_sha256 ≡ s.index_sha256
  pub raiz : p.release_root ≡ s.release_root
  pub fecha : fecha_com (ou_traco p.index_reprocorr) (trancado_pacote p) (trancado_canal s) ≡ true

parse_trust-trust_str : (t : Trust) → parse_trust (trust_str t) ≡ ok t
unfolding parse_trust equal
parse_trust-trust_str oficial = refl
parse_trust-trust_str corroborado = refl
parse_trust-trust_str builder = refl

sim_nao-eq : (b : Bool) → sim_nao (if b then texto "yes" else texto "no") ≡ ok b
unfolding equal
sim_nao-eq true = refl
sim_nao-eq false = refl

formato_do_indice-to_string : (f : ℕ) → DeFormato f → formato_do_indice (to_string f) ≡ ok f
unfolding equal to_string digitos
formato_do_indice-to_string f (inl e) = rw e refl
formato_do_indice-to_string f (inr (inl e)) = rw e refl
formato_do_indice-to_string f (inr (inr e)) = rw e refl

lower_hex-nao_vazio : (h : Text) → lower_hex h ≡ true → vazio_ou_traco h ≡ false
lower_hex-nao_vazio h l = elim (Bool-cases (vazio_ou_traco h)) [
  | inl v ↦ absurd (false-ne-true (sym (lower_hex-vazio h v) ∙ l))
  | inr n ↦ n
]

-- A hash that may be missing is written and read.
hash-lido :
    (o : Option Text)
    → hash_opcional o ≡ true
    → (if vazio_ou_traco (ou_traco o) then none else some (ou_traco o)) ≡ o
unfolding equal is_empty
hash-lido none h = refl
hash-lido (some v) h = rw (lower_hex-nao_vazio v h) refl

menos_traco-lido : (o : Option Text) → hash_opcional o ≡ true → menos_traco (ou_traco o) ≡ o
unfolding equal
menos_traco-lido none h = refl
menos_traco-lido (some v) h = ground (arith, lower_hex-nao_vazio v h)

traco-ou-hash :
    (o : Option Text)
    → hash_opcional o ≡ true
    → (equal (ou_traco o) (texto "-") || lower_hex (ou_traco o)) ≡ true
unfolding equal
traco-ou-hash none h = refl
traco-ou-hash (some v) h = ground (arith, h)

vazio-ou-hash :
    (o : Option Text)
    → hash_opcional o ≡ true
    → (vazio_ou_traco (ou_traco o) || lower_hex (ou_traco o)) ≡ true
unfolding equal is_empty
vazio-ou-hash none h = refl
vazio-ou-hash (some v) h = ground (arith, h)

confere-true : confere true ≡ ok tt
unfolding confere
confere-true = refl

module _ {s : LockLines} where
  pub Runs-exige : {b : Bool} → b ≡ true → Runs (exige_que b) s tt s
  Runs-exige h = Runs-resultado (ap confere h ∙ confere-true)

  Runs-campo :
      (tipo : Text) (index : ℕ) (campo v : Text) (e : Bool)
      → all letra tipo ≡ true
      → all letra campo ≡ true
      → valor_ok v ≡ true
      → Runs (field (chave tipo index campo) e) (linha_de (chave tipo index campo, v) ∷ s) v s
  Runs-campo tipo index campo v e h g o =
      Runs-field (chave tipo index campo) v e s (chave-chave_ok tipo index campo h g) o

  Runs-canal :
      (index : ℕ) (campo v : Text)
      → all letra campo ≡ true
      → valor_ok v ≡ true
      → Runs
          (field (chave (texto "CHANNEL") index campo) false)
          (linha_de (chave (texto "CHANNEL") index campo, v) ∷ s)
          v
          s
  Runs-canal index campo v g o = Runs-campo (texto "CHANNEL") index campo v false refl g o

  Runs-pacote :
      (index : ℕ) (campo v : Text)
      → all letra campo ≡ true
      → valor_ok v ≡ true
      → Runs
          (field (chave (texto "PACKAGE") index campo) false)
          (linha_de (chave (texto "PACKAGE") index campo, v) ∷ s)
          v
          s
  Runs-pacote index campo v g o = Runs-campo (texto "PACKAGE") index campo v false refl g o

dois : (a b : Bool) → a ≡ true → b ≡ true → (a && b) ≡ true
dois a b h g = rw (h, g) refl

pub le_canal-Runs :
    (parse : Text → Option Url) (previous : Option Text) (channels : Mapa LockedChannel) (index : ℕ)
    (s : Snapshot) (rest : List Text)
    → em_ordem previous s.config.name ≡ true
    → ausente (get s.config.name channels) ≡ true
    → IsChannel parse s
    → Runs
        (le_canal parse 4 previous channels index)
        (map linha_de (campos_do_canal index s) ++ rest)
        (s.config.name, trancado_canal s)
        rest
unfolding le_canal campos_do_canal
le_canal-Runs parse previous channels index s rest o a c =
    Runs-bind _ _ (Runs-canal index (texto "NAME") _ refl (validate_name-valor_ok _ c.nome)) (
      Runs-bind _ _ (Runs-resultado c.nome) (
        Runs-bind _ _ (Runs-exige o) (
          Runs-bind _ _ (Runs-canal index (texto "URL") _ refl c.grafica) (
            Runs-bind _ _ (Runs-exige c.canonica) (
              Runs-bind _ _
                (Runs-canal index (texto "KEY_SHA256") _ refl (lower_hex-valor_ok _ c.chave_sha256))
                (Runs-bind _ _
                  (Runs-canal index (texto "INDEX_SHA256") _ refl
                    (lower_hex-valor_ok _ c.indice_sha256))
                  (Runs-bind _ _ (Runs-exige (dois _ _ c.chave_sha256 c.indice_sha256)) (
                    Runs-bind _ _
                      (Runs-escolhe _ _ (
                        Runs-bind _ _
                          (Runs-canal index (texto "RELEASE_ROOT") _ refl
                            (sim_nao-valor_ok s.release_root))
                          (Runs-resultado (sim_nao-eq s.release_root))))
                      (Runs-bind _ _
                        (Runs-canal index (texto "TRUST") _ refl
                          (trust_str-valor_ok s.config.trust))
                        (Runs-bind _ _ (Runs-resultado (parse_trust-trust_str s.config.trust))
                          (Runs-bind _ _ (Runs-exige a) Runs-entrega)))))))))))

le_produtor-Runs :
    (index f : ℕ) (o : Option Text) (rest : List Text)
    → DeFormato f
    → hash_opcional o ≡ true
    → Runs
        (le_produtor 4 index)
        (linha_de (chave (texto "PACKAGE") index (texto "INDEX_FORMAT"), to_string f)
          ∷ linha_de (chave (texto "PACKAGE") index (texto "PRODUCER_PLAN_LOCK_SHA256"), ou_traco o)
          ∷ rest)
        (f, o)
        rest
unfolding le_produtor
le_produtor-Runs index f o rest d h = Runs-escolhe _ _ (
    Runs-bind _ _ (Runs-pacote index (texto "INDEX_FORMAT") _ refl (to_string-valor_ok f)) (
      Runs-bind _ _ (Runs-resultado (formato_do_indice-to_string f d)) (
        Runs-bind _ _
          (Runs-pacote index (texto "PRODUCER_PLAN_LOCK_SHA256") _ refl (ou_traco-valor_ok o h))
          (Runs-bind _ _ (Runs-exige (traco-ou-hash o h))
            (Runs-same _ refl (ap (λ p. (f, p)) (menos_traco-lido o h)) Runs-entrega)))))

-- The test of a package against its channel does not read the hash of the record.
fecha-reprocorr :
    (r : Text) (p q : LockedPackage) (c : LockedChannel)
    → p.trust ≡ q.trust
    → p.index_format ≡ q.index_format
    → p.producer_plan_lock_sha256 ≡ q.producer_plan_lock_sha256
    → fecha_com r p c ≡ fecha_com r q c
unfolding fecha_com
fecha-reprocorr r p q c t f o = rw (t, f, o) refl

abbrev com_reprocorr : Selection → Option Text → LockedPackage
com_reprocorr p r = record {
  name = p.name;
  version = p.version;
  recipe_fingerprint = p.recipe_fingerprint;
  channel = p.channel;
  path = p.path;
  artifact_sha256 = p.artifact_sha256;
  reprocorr = r;
  index_format = p.index_format;
  producer_plan_lock_sha256 = p.producer_plan_lock_sha256;
  trust = p.trust;
}

pub le_pacote-Runs :
    (previous : Option Text) (channels : Mapa LockedChannel) (packages : Mapa LockedPackage)
    (index : ℕ) (p : Selection) (acha : Text → Option Snapshot) (rest : List Text)
    → em_ordem previous p.name ≡ true
    → ausente (get p.name packages) ≡ true
    → (i : IsSelection acha p) → get p.channel channels ≡ some (trancado_canal i.s)
    → Runs
        (le_pacote 4 previous channels packages index)
        (map linha_de (campos_do_pacote index p) ++ rest)
        (p.name, trancado_pacote p)
        rest
unfolding le_pacote campos_do_pacote
le_pacote-Runs previous channels packages index p acha rest o a i g =
    Runs-bind _ _ (Runs-pacote index (texto "NAME") _ refl (validate_name-valor_ok _ i.nome)) (
      Runs-bind _ _ (Runs-resultado i.nome) (
        Runs-bind _ _ (Runs-exige o) (
          Runs-bind _ _
            (Runs-pacote index (texto "VERSION") _ refl (validate_version-valor_ok _ i.versao))
            (Runs-bind _ _ (Runs-resultado i.versao) (
              Runs-bind _ _
                (Runs-pacote index (texto "RECIPE_FINGERPRINT") _ refl
                  (lower_hex-valor_ok _ i.receita))
                (Runs-bind _ _ (Runs-exige i.receita) (
                  Runs-bind _ _
                    (Runs-pacote index (texto "CHANNEL") _ refl
                      (validate_name-valor_ok _ i.nome_valido))
                    (Runs-bind _ _ (Runs-resultado i.nome_valido) (
                      Runs-bind _ _
                        (Runs-pacote index (texto "PATH") _ refl (caminho-valor_ok _ i.caminho))
                        (Runs-bind _ _ (Runs-resultado i.caminho) (
                          Runs-bind _ _
                            (Runs-pacote index (texto "SHA256") _ refl
                              (lower_hex-valor_ok _ i.artefato))
                            (Runs-bind _ _ (Runs-exige i.artefato) (
                              Runs-bind _ _
                                (Runs-campo (texto "PACKAGE") index (texto "REPROCORR") _ (4 == 2)
                                  refl refl (ou_traco-valor_ok p.index_reprocorr i.reprocorr))
                                (Runs-bind _ _
                                  (Runs-exige (vazio-ou-hash p.index_reprocorr i.reprocorr))
                                  (Runs-bind _ _
                                    (le_produtor-Runs index p.index_format
                                      p.producer_plan_lock_sha256 _ i.formato i.plano)
                                    (Runs-bind _ _
                                      (Runs-pacote index (texto "TRUST") _ refl
                                        (trust_str-valor_ok p.trust))
                                      (Runs-bind _ _
                                        (Runs-resultado (parse_trust-trust_str p.trust))
                                        (Runs-bind _ _ (Runs-resultado (ap do_canal g)) (
                                          Runs-bind _ _
                                            (Runs-exige (
                                              fecha-reprocorr (ou_traco p.index_reprocorr)
                                                (com_reprocorr p _) (trancado_pacote p)
                                                (trancado_canal i.s) refl refl refl
                                              ∙ i.fecha))
                                            (Runs-bind _ _ (Runs-exige a) (
                                              Runs-same _ refl
                                                (ap (λ r. (p.name, com_reprocorr p r))
                                                  (hash-lido p.index_reprocorr i.reprocorr))
                                                Runs-entrega)))))))))))))))))))))
