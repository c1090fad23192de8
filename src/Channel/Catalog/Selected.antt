-- ===== src/Channel/Catalog/Selected.antt =====
-- `Catalog::select` of minitrue/src/channel.rs, and what a catalog holds between two choices.
use distropica.Channel.Catalog.Loops.{Cada}
use distropica.Channel.Catalog.Read.{IsChannel, IsSelection, trancado_canal, trancado_pacote}
use distropica.Channel.Catalog.RoundTrip.{IsCatalog, Cada-zip}
use distropica.Channel.Catalog.Sorted.{acha, tem_o_nome, distintos, distintos-push}
use distropica.Channel.Catalog.Used.{Cada-map}
use distropica.Channel.Catalog.{
  Snapshot, Selection, Catalog, Recipe, procura, hashes_divergem, selecionada, ou_traco, oferta,
  oferta_da_entrada, ou_segue, primeira_oferta, com_selecao, select, nome_do_canal, nome_do_pacote,
  valores,
}
use distropica.Channel.Index.Accepted.{confere-eq, com_hashes, Todas, Gives-if, Formato, IsIndex}
use distropica.Channel.Index.{IndexEntry, arquitetura, hash_opcional, valida_entrada}
use distropica.Channel.Lock.Accepted.{DeFormato}
use distropica.Channel.Lock.{Url, Mapa, get, presente, ausente, fecha_com}
use distropica.Channel.{
  Trust, oficial, corroborado, builder, mesma_trust, lower_hex, validate_artifact_path,
}
use distropica.Effects.Results.{Result, Gives, Gives-ok, Gives-bind}
use distropica.Effects.{ok, err}
use distropica.Prelude.{
  ℕ, ◌≡◌, refl, sym, ◌∙◌, ap, subst, inl, inr, Bool, true, false, not, ◌&&◌, ◌||◌, Option, none,
  some, List, [], ◌∷◌, ◌++◌, leb, if◌then◌else◌, equal, equal_iff, arith, Bool-cases, ambos, nega,
}
use distropica.Recipe.{validate_name, validate_version}
use distropica.Text.Utf16.{Text}

record IsEntry (e : IndexEntry) : Type 0 where
  pub nome : validate_name e.name ≡ ok tt
  pub versao : validate_version e.version ≡ ok tt
  pub receita : lower_hex e.recipe_fingerprint ≡ true
  pub caminho : validate_artifact_path e.path ≡ ok tt
  pub hash : lower_hex e.sha256 ≡ true
  pub reprocorr : hash_opcional e.reprocorr ≡ true
  pub plano : hash_opcional e.producer_plan_lock_sha256 ≡ true

valida_entrada-IsEntry : (e : IndexEntry) → Gives (valida_entrada e) λ _. IsEntry e
unfolding valida_entrada
valida_entrada-IsEntry e = Gives-bind _ _ λ u1 n. Gives-bind _ _ λ u2 v. Gives-bind _ _ λ u3 _.
    Gives-bind _ _ λ u4 f. Gives-bind _ _ λ u5 c. Gives-bind _ _ λ u6 h. Gives-bind _ _ λ u7 r.
      record {
        holds = λ u8 p. record {
          nome = n;
          versao = v;
          receita = confere-eq _ f;
          caminho = c;
          hash = confere-eq _ h;
          reprocorr = confere-eq _ r;
          plano = confere-eq _ p;
        };
      }

-- An entry of the index under an identity.
record IsFound (format : ℕ) (name version : Text) (e : IndexEntry) : Type 0 where
  pub valida : IsEntry e
  pub hashes : com_hashes format e ≡ true
  pub nome : e.name ≡ name
  pub versao : e.version ≡ version

procura-IsFound :
    (format : ℕ) (name version : Text) (es : List IndexEntry) (e : IndexEntry)
    → Todas format es
    → procura name version es ≡ some e
    → IsFound format name version e
unfolding procura
procura-IsFound format name version [] e t h = cc (h)
procura-IsFound format name version (d ∷ es) e (v, c, t) h =
    elim (Bool-cases (equal name d.name && (equal version d.version && equal arquitetura d.arch))) [
      | inl b ↦
          let (n, r) =
            ambos (equal name d.name) (equal version d.version && equal arquitetura d.arch) b in
          let (w, _) = ambos (equal version d.version) (equal arquitetura d.arch) r in
          subst (IsFound format name version) (cc (h, b)) (record {
            valida = (valida_entrada-IsEntry d).holds tt v;
            hashes = c;
            nome = sym ((equal_iff name d.name).0 n);
            versao = sym ((equal_iff version d.version).0 w);
          })
      | inr b ↦ procura-IsFound format name version es e t (ground (arith, h, b))
    ]

-- A channel whose index was accepted.
pub record IsLoaded (parse : Text → Option Url) (s : Snapshot) : Type 0 where
  pub canal : IsChannel parse s
  pub allow_legacy : Bool
  pub indice : IsIndex s.config.trust allow_legacy (s.index_format, s.release_root, s.entries)

mesma_trust_refl : (t : Trust) → mesma_trust t t ≡ true
mesma_trust_refl oficial = refl
mesma_trust_refl corroborado = refl
mesma_trust_refl builder = refl

lower_hex-ou_traco :
    (o : Option Text) → presente o ≡ true → hash_opcional o ≡ true → lower_hex (ou_traco o) ≡ true
lower_hex-ou_traco none p h = cc (p)
lower_hex-ou_traco (some v) p h = h

Formato-DeFormato : (t : Trust) (a : Bool) (f : ℕ) (root : Bool) → Formato t a f root → DeFormato f
Formato-DeFormato t a f root (inl e) = inl e
Formato-DeFormato t a f root (inr (e, _, _, _)) = inr e

-- An entry of an accepted index goes with its channel.
fecha-entrada :
    (p : Selection) (s : Snapshot) (a : Bool)
    → p.trust ≡ s.config.trust
    → p.index_format ≡ s.index_format
    → Formato s.config.trust a s.index_format s.release_root
    → (if leb 3 s.index_format
        then presente p.index_reprocorr && presente p.producer_plan_lock_sha256
        else ausente p.producer_plan_lock_sha256)
      ≡ true
    → hash_opcional p.index_reprocorr ≡ true
    → fecha_com (ou_traco p.index_reprocorr) (trancado_pacote p) (trancado_canal s) ≡ true
unfolding fecha_com
fecha-entrada p s a t f (inl e) c h =
    let (x, y) =
      ambos (presente p.index_reprocorr) (presente p.producer_plan_lock_sha256)
        (ground (arith, c, e)) in
    rw (t, mesma_trust_refl s.config.trust, f, e, lower_hex-ou_traco p.index_reprocorr x h, y)
      (elim (Bool-cases s.release_root) [ inl b ↦ rw b refl | inr b ↦ rw b refl ])
fecha-entrada p s a t f (inr (inl e, b, _, r)) c h =
    let (x, y) =
      ambos (presente p.index_reprocorr) (presente p.producer_plan_lock_sha256)
        (ground (arith, c, e)) in
    rw (t, mesma_trust_refl s.config.trust, f, e, lower_hex-ou_traco p.index_reprocorr x h, y, b, r)
      refl
fecha-entrada p s a t f (inr (inr e, b, _, r)) c h =
    let y : ausente p.producer_plan_lock_sha256 ≡ true = ground (arith, c, e) in
    rw (t, mesma_trust_refl s.config.trust, f, e, y, b, r) refl

module _ (parse : Text → Option Url) (join : Url → Text → Option Url)
    (busca : Text → Option Snapshot) (recipe : Recipe) where
  abbrev Escolhida : Option Selection → Type 0
  Escolhida none = Unit {0}
  Escolhida (some p) = (p.name ≡ recipe.name) × IsSelection busca p

  erro-Escolhida : (e : ℕ) → Gives (err e) Escolhida
  erro-Escolhida e = record { holds = λ o h. cc (h) }

  oferta-Escolhida :
      (allow_legacy : Bool) (fingerprint : Text) (s : Snapshot) (e : IndexEntry)
      → IsLoaded parse s
      → busca s.config.name ≡ some s
      → IsFound s.index_format recipe.name recipe.version e
      → Gives (oferta join allow_legacy recipe fingerprint s e) Escolhida
  unfolding oferta
  oferta-Escolhida allow_legacy fingerprint s e l b f =
      Gives-if (not (equal e.recipe_fingerprint fingerprint)) (erro-Escolhida 8) (
        Gives-if (hashes_divergem recipe.reprocorr e.reprocorr) (erro-Escolhida 8) (
          Gives-if (mesma_trust s.config.trust corroborado && ausente recipe.reprocorr)
            (Gives-ok none tt)
            (Gives-bind _ _ λ url _. Gives-bind _ _ λ plano _.
              Gives-ok (some (selecionada allow_legacy recipe s e url plano)) (
                refl,
                record {
                  s = s;
                  canal = b;
                  nome = subst (λ n. validate_name n ≡ ok tt) f.nome f.valida.nome;
                  nome_valido = l.canal.nome;
                  versao = subst (λ v. validate_version v ≡ ok tt) f.versao f.valida.versao;
                  receita = f.valida.receita;
                  caminho = f.valida.caminho;
                  artefato = f.valida.hash;
                  reprocorr = f.valida.reprocorr;
                  plano = f.valida.plano;
                  formato = Formato-DeFormato _ _ _ _ l.indice.formato;
                  indice = refl;
                  raiz = refl;
                  fecha =
                      fecha-entrada (selecionada allow_legacy recipe s e url plano) s l.allow_legacy
                        refl refl l.indice.formato f.hashes f.valida.reprocorr;
                },
              ))))

  oferta_da_entrada-Escolhida :
      (allow_legacy : Bool) (fingerprint : Text) (s : Snapshot) (o : Option IndexEntry)
      → procura recipe.name recipe.version s.entries ≡ o
      → IsLoaded parse s
      → busca s.config.name ≡ some s
      → Gives (oferta_da_entrada join allow_legacy recipe fingerprint s o) Escolhida
  oferta_da_entrada-Escolhida allow_legacy fingerprint s none h l b = Gives-ok none tt
  oferta_da_entrada-Escolhida allow_legacy fingerprint s (some e) h l b =
      oferta-Escolhida allow_legacy fingerprint s e l b
        (procura-IsFound s.index_format recipe.name recipe.version s.entries e l.indice.entradas h)

  ou_segue-Escolhida :
      (resto : Result (Option Selection)) (o : Option Selection)
      → Gives resto Escolhida
      → Escolhida o
      → Gives (ou_segue join resto o) Escolhida
  ou_segue-Escolhida resto none g e = g
  ou_segue-Escolhida resto (some p) g e = Gives-ok (some p) e

  primeira_oferta-Escolhida :
      (allow_legacy : Bool) (fingerprint : Text) (ss : List Snapshot)
      → Cada (λ s. IsLoaded parse s × (busca s.config.name ≡ some s)) ss
      → Gives (primeira_oferta join allow_legacy recipe fingerprint ss) Escolhida
  unfolding primeira_oferta
  primeira_oferta-Escolhida allow_legacy fingerprint [] c = Gives-ok none tt
  primeira_oferta-Escolhida allow_legacy fingerprint (s ∷ ss) ((l, b), c) = Gives-bind _ _ λ o h.
      ou_segue-Escolhida _ o (primeira_oferta-Escolhida allow_legacy fingerprint ss c)
        ((oferta_da_entrada-Escolhida allow_legacy fingerprint s _ refl l b).holds o h)

module _ {A : Type 0} (nome : A → Text) where
  -- Of different names each is found under its own.
  acha-proprio :
      (xs ys : List A)
      → ((y : A)
          → tem_o_nome nome (nome y) ys ≡ true
          → acha nome (nome y) xs ≡ acha nome (nome y) ys)
      → distintos nome ys ≡ true
      → Cada (λ y. acha nome (nome y) xs ≡ some y) ys
  unfolding acha
  acha-proprio xs [] f d = tt
  acha-proprio xs (y ∷ ys) f d =
      let (a, b) = ambos (not (tem_o_nome nome (nome y) ys)) (distintos nome ys) d in
      let e = (equal_iff (nome y) (nome y)).1 refl in
      (
        f y (rw e refl) ∙ rw e refl,
        acha-proprio xs ys
            (λ z c.
              f z (ou_contem (equal (nome z) (nome y)) c)
              ∙ rw (outro (nome z) (nome y) ys c (nega _ a)) refl)
            b,
      )
    where
      ou_contem : (a : Bool) {b : Bool} → b ≡ true → (a || b) ≡ true
      ou_contem true h = refl
      ou_contem false h = h

      outro :
          (m n : Text) (zs : List A)
          → tem_o_nome nome m zs ≡ true
          → tem_o_nome nome n zs ≡ false
          → equal m n ≡ false
      outro m n zs c d = ground (arith, equal_iff m n, c, d, ap (λ k. tem_o_nome nome k zs))

-- What is true of a catalog between two choices.
pub record IsReady (parse : Text → Option Url) (c : Catalog) : Type 0 where
  pub carregados : Cada (IsLoaded parse) c.snapshots
  pub nomes : distintos nome_do_canal c.snapshots ≡ true
  pub pacotes : Cada (IsSelection λ n. acha nome_do_canal n c.snapshots) (valores c.selections)
  pub unicos : distintos nome_do_pacote (valores c.selections) ≡ true
  pub chaves : Cada (λ (n, p). n ≡ p.name) c.selections

pub IsReady-IsCatalog :
    (parse : Text → Option Url) (c : Catalog)
    → IsReady parse c
    → IsCatalog parse c.snapshots (valores c.selections)
IsReady-IsCatalog parse c r = record {
  canais = Cada-map (λ s l. l.canal) c.snapshots r.carregados;
  nomes = r.nomes;
  pacotes = r.pacotes;
  unicos = r.unicos;
}

Cada-push :
    {A : Type 0} (P : A → Type 0) (xs : List A) (x : A) → Cada P xs → P x → Cada P (xs ++ x ∷ [])
Cada-push P [] x c p = (p, tt)
Cada-push P (y ∷ xs) x (q, c) p = (q, Cada-push P xs x c p)

valores-push :
    (m : Mapa Selection) (n : Text) (p : Selection)
    → valores (m ++ (n, p) ∷ []) ≡ valores m ++ p ∷ []
unfolding valores
valores-push [] n p = refl
valores-push ((k, q) ∷ m) n p = ap (λ ps. q ∷ ps) (valores-push m n p)

get-tem_o_nome :
    (m : Mapa Selection) (n : Text)
    → Cada (λ (k, p). k ≡ p.name) m
    → presente (get n m) ≡ false
    → tem_o_nome nome_do_pacote n (valores m) ≡ false
unfolding valores get
get-tem_o_nome [] n c h = refl
get-tem_o_nome ((k, p) ∷ m) n (e, c) h = elim (Bool-cases (equal n k)) [
  | inl b ↦ cc (h, b)
  | inr b ↦ rw (sym (ap (equal n) e), b) (get-tem_o_nome m n c (ground (arith, h, b)))
]

module _ (parse : Text → Option Url) (join : Url → Text → Option Url) (c : Catalog)
    (recipe : Recipe) where
  com_selecao-IsReady :
      (o : Result (Option Selection))
      → Gives o (Escolhida parse join (λ n. acha nome_do_canal n c.snapshots) recipe)
      → presente (get recipe.name c.selections) ≡ false
      → IsReady parse c
      → IsReady parse (com_selecao join c recipe.name o).1
  com_selecao-IsReady (ok none) g h r = r
  com_selecao-IsReady (err e) g h r = r
  com_selecao-IsReady (ok (some p)) g h r =
      let (n, i) = g.holds (some p) refl in
      record {
        carregados = r.carregados;
        nomes = r.nomes;
        pacotes =
            subst (Cada (IsSelection λ n. acha nome_do_canal n c.snapshots))
              (sym (valores-push c.selections recipe.name p)) (Cada-push _ _ p r.pacotes i);
        unicos =
            ap (distintos nome_do_pacote) (valores-push c.selections recipe.name p)
            ∙ distintos-push nome_do_pacote (valores c.selections) p r.unicos (
                ap (λ k. tem_o_nome nome_do_pacote k (valores c.selections)) n
                ∙ get-tem_o_nome c.selections recipe.name r.chaves h);
        chaves = Cada-push _ c.selections (recipe.name, p) r.chaves (sym n);
      }

  prontos_por_nome :
      IsReady parse c
      → Cada
          (λ s. IsLoaded parse s × (acha nome_do_canal s.config.name c.snapshots ≡ some s))
          c.snapshots
  prontos_por_nome r =
      Cada-zip _ _ c.snapshots r.carregados
        (acha-proprio nome_do_canal c.snapshots c.snapshots (λ y h. refl) r.nomes)

  -- Whatever `select` returns, what is true of the catalog stays so: its channels have accepted
  -- indices and different names, and the selections are of different packages, each kept under its
  -- package, and each goes with the channel that it names: its fields are valid, and its trust,
  -- its index and its release mark are those of the channel, by the rules of the lock.
  pub select-IsReady :
      (fingerprint : Text) → IsReady parse c → IsReady parse (select join recipe fingerprint c).1
  unfolding select
  select-IsReady fingerprint r = elim (Bool-cases (presente (get recipe.name c.selections))) [
    | inl h ↦ rw h r
    | inr h ↦ rw h (
        com_selecao-IsReady (primeira_oferta join c.allow_legacy recipe fingerprint c.snapshots)
          (primeira_oferta-Escolhida parse join _ recipe c.allow_legacy fingerprint c.snapshots
            (prontos_por_nome r))
          h r)
  ]
