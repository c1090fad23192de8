-- ===== src/Channel/Catalog/RoundTrip.antt =====
-- `parse_lock` on the text of `lock_body` (minitrue/src/channel.rs).
use distropica.Channel.Catalog.Lines.{
  canal-campo_ok, pacote-campo_ok, todos-campo_ok, parse_lock_count-to_string,
}
use distropica.Channel.Index.{arquitetura}
use distropica.Channel.Lock.{le_canais, le_pacotes}
use distropica.Channel.Catalog.Read.{Runs-exige}
use distropica.Channel.Catalog.Loops.{
  Cada, map-append, get-acha, canal_lido, pacote_lido, le_canais-Runs, le_pacotes-Runs, antes_de,
}
use distropica.Channel.Catalog.Read.{trancado_canal, IsChannel, IsSelection}
use distropica.Channel.Catalog.Sorted.{acha, distintos, crescente, sort-crescente, length-sort}
use distropica.Channel.Catalog.Used.{
  Cada-sort, Cada-map, todos-EmUso, acha-canais_de, canais_de-crescente, Cada-canais_de,
}
use distropica.Channel.Catalog.Written.{
  campos_todos, campos_do_lock, Escrito, corpo_do_lock-Escrito,
}
use distropica.Channel.Catalog.{
  Snapshot, Selection, fragmento, campos_do_canal, campos_do_pacote, nome_do_canal, nome_do_pacote,
  cabecalho_do_lock, contagem_de_pacotes, sort_by_name, canais_de, lock_body,
}
use distropica.Channel.Lock.Fields.{
  chave_ok, valor_ok, campo_ok, linha_de, Runs-field, lines-fragmento, has-fragmento,
  is_scalar-fragmento, ends_with_lf-fragmento,
}
use distropica.Channel.Lock.Values.{to_string-valor_ok}
use distropica.Channel.Lock.{
  Url, field, finish, ParsedLock, formato_do_lock, max_lock_entries, le_lock, parse_lock,
}
use distropica.Effects.Runs.{Runs, Runs-bind, Runs-entrega, Runs-resultado, Runs-same}
use distropica.Effects.{ok}
use distropica.Plan.Live.{ends_with_lf}
use distropica.Prelude.{
  ℕ, ◌≡◌, refl, ◌∙◌, ap, true, false, not, Option, none, List, [], ◌∷◌, ◌++◌, map, append-nil, ltb,
  ◌==◌, equal, length, all, arith,
}
use distropica.Text.Decimal.{all-append}
use distropica.Text.Pieces.{texto, to_string}
use distropica.Text.Trim.{is_empty}
use distropica.Text.Utf16.{Text}
use distropica.Text.Utf8.{utf8, from_utf8-utf8}

-- Channels of different names and selections of different packages, at least one.
pub record IsCatalog (parse : Text → Option Url) (snapshots : List Snapshot)
    (selections : List Selection) : Type 0 where
  pub canais : Cada (IsChannel parse) snapshots
  pub nomes : distintos nome_do_canal snapshots ≡ true
  pub pacotes : Cada (IsSelection λ n. acha nome_do_canal n snapshots) selections
  pub unicos : distintos nome_do_pacote selections ≡ true

-- What the reader gives: the channels in use and the packages, each in the order of the names.
abbrev pub trancado : List Snapshot → List Selection → ParsedLock
trancado snapshots selections = record {
  channels = map canal_lido (canais_de snapshots selections);
  packages = map pacote_lido (sort_by_name nome_do_pacote selections);
}

Runs-texto :
    {rest : List Text} (k v : Text)
    → chave_ok k ≡ true
    → valor_ok v ≡ true
    → Runs (field k false) (linha_de (k, v) ∷ rest) v rest
Runs-texto k v h g = Runs-field k v false _ h g

finish-Runs : Runs finish [] tt []
unfolding finish
finish-Runs = record { ends = refl }

formato_do_lock-4 : formato_do_lock (texto "4") ≡ ok 4
unfolding equal
formato_do_lock-4 = refl

arquitetura-igual : equal arquitetura (texto "x86_64") ≡ true
unfolding equal
arquitetura-igual = refl

-- The reader over the lines of channels and packages in their order.
le_lock-Runs :
    (parse : Text → Option Url) (cs : List Snapshot) (ps : List Selection)
    → (n : ℕ) → (n == 0) ≡ false
    → (k : ℕ) → (k == 0) ≡ false
    → ltb max_lock_entries n ≡ false
    → ltb max_lock_entries k ≡ false
    → ((rest : List Text)
        → Runs
            (le_canais parse 4 n none 0 [])
            (map linha_de (campos_todos campos_do_canal 0 cs) ++ rest)
            (map canal_lido cs)
            rest)
    → ((rest : List Text)
        → Runs
            (le_pacotes 4 k none (map canal_lido cs) 0 [])
            (map linha_de (campos_todos campos_do_pacote 0 ps) ++ rest)
            (map pacote_lido ps)
            rest)
    → Runs
        (le_lock parse)
        (map linha_de (cabecalho_do_lock n)
          ++ (map linha_de (campos_todos campos_do_canal 0 cs)
              ++ (map linha_de (contagem_de_pacotes k)
                  ++ (map linha_de (campos_todos campos_do_pacote 0 ps) ++ []))))
        (record { channels = map canal_lido cs; packages = map pacote_lido ps })
        []
unfolding le_lock is_empty
le_lock-Runs parse cs ps n zn k zk mn mk rc rp =
    Runs-bind _ _ (Runs-texto (texto "CHANNEL_LOCK_FORMAT") (texto "4") refl refl) (
      Runs-bind _ _ (Runs-resultado formato_do_lock-4) (
        Runs-bind _ _ (Runs-texto (texto "ARCH") arquitetura refl refl) (
          Runs-bind _ _ (Runs-exige arquitetura-igual) (
            Runs-bind _ _
              (Runs-texto (texto "CHANNEL_COUNT") (to_string n) refl (to_string-valor_ok n))
              (Runs-bind _ _ (Runs-resultado (parse_lock_count-to_string n mn)) (
                Runs-bind _ _ (Runs-exige (ap not zn)) (
                  Runs-bind _ _ (rc _) (
                    Runs-bind _ _
                      (Runs-texto (texto "PACKAGE_COUNT") (to_string k) refl (to_string-valor_ok k))
                      (Runs-bind _ _ (Runs-resultado (parse_lock_count-to_string k mk)) (
                        Runs-bind _ _ (Runs-exige (ap not zk))
                          (Runs-bind _ _ (rp _) (Runs-bind _ _ finish-Runs Runs-entrega))))))))))))

pub Cada-zip :
    {A : Type 0} (P Q : A → Type 0) (xs : List A) → Cada P xs → Cada Q xs → Cada (λ x. P x × Q x) xs
Cada-zip P Q [] c d = tt
Cada-zip P Q (x ∷ xs) (p, c) (q, d) = ((p, q), Cada-zip P Q xs c d)

-- A selection goes with its channel wherever the channel is found.
IsSelection-same :
    (busca busca' : Text → Option Snapshot) (p : Selection)
    → busca' p.channel ≡ busca p.channel
    → IsSelection busca p
    → IsSelection busca' p
IsSelection-same busca busca' p e i = record {
  s = i.s;
  canal = e ∙ i.canal;
  nome = i.nome;
  nome_valido = i.nome_valido;
  versao = i.versao;
  receita = i.receita;
  caminho = i.caminho;
  artefato = i.artefato;
  reprocorr = i.reprocorr;
  plano = i.plano;
  formato = i.formato;
  indice = i.indice;
  raiz = i.raiz;
  fecha = i.fecha;
}

-- Where there is a selection there is a channel.
tem_canal :
    (cs : List Snapshot) (ps : List Selection)
    → Cada (IsSelection λ n. acha nome_do_canal n cs) ps
    → (length ps == 0) ≡ false
    → (length cs == 0) ≡ false
unfolding acha
tem_canal cs [] c h = cc (h)
tem_canal [] (p ∷ ps) (i, c) h = cc (i.canal)
tem_canal (s ∷ cs) (p ∷ ps) c h = ground arith

linhas_do_lock :
    (cs : List Snapshot) (ps : List Selection)
    → map linha_de (campos_do_lock cs ps)
      ≡ map linha_de (cabecalho_do_lock (length cs))
        ++ (map linha_de (campos_todos campos_do_canal 0 cs)
            ++ (map linha_de (contagem_de_pacotes (length ps))
                ++ (map linha_de (campos_todos campos_do_pacote 0 ps) ++ [])))
linhas_do_lock cs ps =
    rw
      (
        map-append linha_de (campos_todos campos_do_canal 0 cs)
            (contagem_de_pacotes (length ps) ++ campos_todos campos_do_pacote 0 ps),
        append-nil (map linha_de (campos_todos campos_do_pacote 0 ps)),
      )
      refl

module _ (parse : Text → Option Url) (cs : List Snapshot) (ps : List Selection) where
  -- What the loops ask of the lists that they read.
  record IsOrdered : Type 0 where
    pub canais : Cada (IsChannel parse) cs
    pub nomes : crescente nome_do_canal cs ≡ true
    pub pacotes : Cada (IsSelection λ n. acha nome_do_canal n cs) ps
    pub unicos : crescente nome_do_pacote ps ≡ true
    pub algum : (length ps == 0) ≡ false

  antes_de-none :
      {A B : Type 0} (nome : A → Text) (f : A → B) (xs : List A) → antes_de nome f none xs ≡ true
  antes_de-none nome f xs = refl

  lido-lock :
      IsOrdered
      → ltb max_lock_entries (length cs) ≡ false
      → ltb max_lock_entries (length ps) ≡ false
      → Runs
          (le_lock parse)
          (map linha_de (campos_do_lock cs ps))
          (record { channels = map canal_lido cs; packages = map pacote_lido ps })
          []
  lido-lock o mc mp = Runs-same _ (linhas_do_lock cs ps) refl (
      le_lock-Runs parse cs ps (length cs) (tem_canal cs ps o.pacotes o.algum) (length ps) o.algum
        mc mp (λ rest. le_canais-Runs parse cs none 0 [] rest o.canais o.nomes refl refl)
        (λ rest.
          le_pacotes-Runs (map canal_lido cs) (λ n. acha nome_do_canal n cs)
            (λ n s h. get-acha nome_do_canal trancado_canal n cs s h) ps none 0 [] rest o.pacotes
            o.unicos refl refl))

  campos_do_lock-ok : IsOrdered → all campo_ok (campos_do_lock cs ps) ≡ true
  unfolding is_empty
  campos_do_lock-ok o =
      rw
        (
          to_string-valor_ok (length cs),
          all-append campo_ok (campos_todos campos_do_canal 0 cs)
              (contagem_de_pacotes (length ps) ++ campos_todos campos_do_pacote 0 ps),
          todos-campo_ok campos_do_canal (canal-campo_ok parse) 0 cs o.canais,
          to_string-valor_ok (length ps),
        )
        (todos-campo_ok campos_do_pacote (pacote-campo_ok λ n. acha nome_do_canal n cs) 0 ps
          o.pacotes)

  lf-lock : ends_with_lf (fragmento (campos_do_lock cs ps)) ≡ true
  lf-lock = ends_with_lf-fragmento _ _

  com_linhas-lido :
      (body : Text)
      → Escrito cs ps body
      → IsOrdered
      → parse_lock parse (utf8 body)
        ≡ ok (record { channels = map canal_lido cs; packages = map pacote_lido ps })
  unfolding parse_lock
  com_linhas-lido body e o =
      let k = campos_do_lock-ok o in
      rw
        (
          e.cabe,
          e.texto_todo,
          from_utf8-utf8 (fragmento (campos_do_lock cs ps))
              (is_scalar-fragmento (campos_do_lock cs ps) k),
          has-fragmento (campos_do_lock cs ps) k,
          lines-fragmento (campos_do_lock cs ps) k,
          lf-lock,
        )
        (ap (λ r. r.0) (lido-lock o e.canais e.pacotes).ends)

-- The lists that `lock_body` writes are in the order of the names.
em_ordem_de-IsOrdered :
    (parse : Text → Option Url) (snapshots : List Snapshot) (selections : List Selection)
    → IsCatalog parse snapshots selections
    → (length selections == 0) ≡ false
    → IsOrdered parse (canais_de snapshots selections) (sort_by_name nome_do_pacote selections)
em_ordem_de-IsOrdered parse snapshots selections c n = record {
  canais = Cada-canais_de snapshots selections c.nomes (IsChannel parse) c.canais;
  nomes = canais_de-crescente snapshots selections c.nomes;
  pacotes = Cada-sort _ nome_do_pacote selections (
      Cada-map
        (λ p (i, u).
          IsSelection-same _ _ p (acha-canais_de snapshots selections c.nomes p.channel u) i)
        selections (Cada-zip _ _ selections c.pacotes (todos-EmUso selections)));
  unicos = sort-crescente nome_do_pacote selections c.unicos;
  algum = ap (λ k. k == 0) (length-sort nome_do_pacote selections) ∙ n;
}

-- Of a catalog of channels with different names, and of at least one selection, for different
-- packages, that goes with its channel: if `lock_body` writes a lock, `parse_lock` reads it as the
-- channels in use and the selected packages, each in the order of the names.
pub parse_lock-lock_body :
    (parse : Text → Option Url) (snapshots : List Snapshot) (selections : List Selection)
    (body : Text)
    → IsCatalog parse snapshots selections
    → (length selections == 0) ≡ false
    → lock_body snapshots selections ≡ ok body
    → parse_lock parse (utf8 body) ≡ ok (trancado snapshots selections)
unfolding lock_body
parse_lock-lock_body parse snapshots selections body c n h =
    com_linhas-lido parse (canais_de snapshots selections) (sort_by_name nome_do_pacote selections)
      body ((corpo_do_lock-Escrito _ _).holds body h)
      (em_ordem_de-IsOrdered parse snapshots selections c n)
