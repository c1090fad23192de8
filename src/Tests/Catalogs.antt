-- ===== src/Tests/Catalogs.antt =====
-- A catalog of one channel, a choice from it, and the lock that it leaves.
use distropica.Text.Lines.{lines, linhas_de, sem_cr}
use distropica.Text.Trim.{has, trim_end, trim_start, is_empty}
use distropica.Recipe.{dois_pontos, validate_name, validate_version}
use distropica.Plan.Order.Names.{text_lt, contains}
use distropica.Effects.Results.{exige, ◌>>=◌ as ◌>>>◌}
use distropica.Plan.Live.{ends_with_slash, ends_with_lf}
use distropica.Channel.Catalog.Confirmed.{registro, verify_lock_provenance-finish}
use distropica.Channel.Catalog.RoundTrip.{trancado, parse_lock-lock_body}
use distropica.Channel.Catalog.Selected.{IsLoaded, IsReady, IsReady-IsCatalog, select-IsReady}
use distropica.Channel.Catalog.{
  Snapshot, Selection, Resolution, Catalog, Recipe, read_only, select, finish, lock_body, valores,
  primeira_oferta, procura, oferta, corpo_do_lock, canais_de, sort_by_name, usados, insere_por_nome,
  fragmento, escreve_todos, append_lock_fragment, campos_do_canal, campos_do_pacote, com_lock,
}
use distropica.Channel.Index.Accepted.{parse_index-IsIndex}
use distropica.Channel.Index.{
  parse_index, cabecalho_do_indice, le_entradas, le_entrada, dois_espacos, entrada_de,
  identidade_lt, ja_inserida, linha_canonica, valida_entrada,
}
use distropica.Channel.Lock.Provenance.{verify_lock_provenance}
use distropica.Channel.Lock.{Url, parse_lock, get}
use distropica.Channel.{
  oficial, algum_vazio, artifact_path_ok, componentes_normais, ends_with, lower_hex,
  validate_artifact_path, confere,
}
use distropica.Effects.{ok}
use distropica.Prelude.{
  ◌≡◌, refl, inr, subst, ap, true, false, Option, none, some, [], ◌∷◌, ◌++◌, Bytes, equal,
}
use distropica.Tests.Channels.{
  repete, hash, junta, com_espacos, caminho, da_entrada, indice, endereco, lock,
}
use distropica.Text.Pieces.{texto, split, to_string, digitos}
use distropica.Text.Utf16.{Text}
use distropica.Text.Utf8.{utf8, utf8_of, from_utf8, ler_utf8, passo}

abbrev pub pagina : Url
pagina = record {
  scheme = texto "https";
  has_host = true;
  username = [];
  password = none;
  query = none;
  fragment = none;
  path = texto "/";
  as_str = texto "https://c/";
}

abbrev canal : Snapshot
canal = record {
  config = record { name = texto "main"; url = pagina; key = texto "K"; trust = oficial };
  key_sha256 = hash b'1';
  index_sha256 = hash b'2';
  index = indice;
  signature = [];
  index_format = 4;
  release_root = true;
  entries = da_entrada (texto "a") ∷ da_entrada (texto "b") ∷ [];
}

abbrev catalogo : Catalog
catalogo = record {
  snapshots = canal ∷ [];
  selections = [];
  mode = read_only;
  allow_legacy = false;
}

abbrev receita : Recipe
receita = record { name = texto "a"; version = texto "1"; reprocorr = none }

abbrev com_caminho : Url → Text → Option Url
com_caminho url path = some (record url { as_str = url.as_str ++ path })

abbrev escolha : Selection
escolha = record {
  name = texto "a";
  version = texto "1";
  recipe_fingerprint = hash b'a';
  channel = texto "main";
  trust = oficial;
  index_sha256 = hash b'2';
  path = caminho;
  artifact_url = texto "https://c/" ++ caminho;
  artifact_sha256 = hash b'b';
  index_reprocorr = some (hash b'c');
  index_format = 4;
  release_root = true;
  producer_plan_lock_sha256 = some (hash b'd');
  producer_plan_url = some (texto "https://c/" ++ (texto "plans/" ++ (hash b'd' ++ texto ".lock")));
  legacy_development = false;
  lock_sha256 = [];
}

abbrev com_escolha : Catalog
com_escolha = record {
  snapshots = canal ∷ [];
  selections = (texto "a", escolha) ∷ [];
  mode = read_only;
  allow_legacy = false;
}

abbrev pub resumo : Bytes → Text
resumo bytes = hash b'9'

abbrev final_ : Selection
final_ = record escolha { lock_sha256 = hash b'9' }

abbrev resolucao : Resolution
resolucao = record {
  selections = (texto "a", final_) ∷ [];
  lock_body = some (utf8 lock);
  lock_sha256 = some (hash b'9');
  snapshots = canal ∷ [];
  mode = read_only;
}

canal-IsLoaded : IsLoaded endereco canal
unfolding parse_index com_espacos cabecalho_do_indice le_entradas le_entrada dois_espacos entrada_de
    identidade_lt ja_inserida linha_canonica valida_entrada ends_with_slash algum_vazio
    artifact_path_ok componentes_normais ends_with lower_hex validate_artifact_path confere exige
    ◌>>>◌ text_lt dois_pontos validate_name validate_version has trim_end trim_start is_empty equal
    utf8 utf8_of from_utf8 ler_utf8 passo ends_with_lf lines linhas_de sem_cr split junta repete
canal-IsLoaded = record {
  canal = record {
    nome = refl;
    canonica = refl;
    grafica = refl;
    chave_sha256 = refl;
    indice_sha256 = refl;
  };
  allow_legacy = false;
  indice = parse_index-IsIndex oficial false indice (4, true, canal.entries) refl;
}

catalogo-IsReady : IsReady endereco catalogo
unfolding valores
catalogo-IsReady = record {
  carregados = (canal-IsLoaded, tt);
  nomes = refl;
  pacotes = tt;
  unicos = refl;
  chaves = tt;
}

select-IsReady_example : IsReady endereco (select com_caminho receita (hash b'a') catalogo).1
select-IsReady_example =
    select-IsReady endereco com_caminho catalogo receita (hash b'a') catalogo-IsReady

escolhe-a : select com_caminho receita (hash b'a') catalogo ≡ (ok true, com_escolha)
unfolding select repete get primeira_oferta ◌>>>◌ procura equal oferta
escolhe-a = refl

com_escolha-IsReady : IsReady endereco com_escolha
com_escolha-IsReady =
    subst (IsReady endereco) (ap (λ r. r.1) escolhe-a)
      (select-IsReady endereco com_caminho catalogo receita (hash b'a') catalogo-IsReady)

parse_lock-lock_body_example :
    parse_lock endereco (utf8 lock) ≡ ok (trancado (canal ∷ []) (valores com_escolha.selections))
unfolding lock_body repete valores junta corpo_do_lock canais_de sort_by_name usados contains equal
    insere_por_nome utf8 fragmento utf8_of to_string digitos ◌>>>◌ escreve_todos
    append_lock_fragment campos_do_canal campos_do_pacote text_lt
parse_lock-lock_body_example =
    parse_lock-lock_body endereco (canal ∷ []) (valores com_escolha.selections) lock
      (IsReady-IsCatalog endereco com_escolha com_escolha-IsReady) refl refl

verify_lock_provenance-finish_example :
    (body : Bytes) × (resolucao.lock_body ≡ some body)
    × (verify_lock_provenance endereco body (registro final_ (some (hash b'c')) (hash b'c'))
        ≡ ok tt)
unfolding finish com_lock get lock_body repete valores junta corpo_do_lock canais_de sort_by_name
    usados contains equal insere_por_nome utf8 fragmento utf8_of to_string digitos ◌>>>◌
    escreve_todos append_lock_fragment campos_do_canal campos_do_pacote text_lt
verify_lock_provenance-finish_example =
    verify_lock_provenance-finish endereco resumo com_escolha resolucao (texto "a") (hash b'c')
      (some (hash b'c')) final_ com_escolha-IsReady refl refl (inr refl) (inr refl)
