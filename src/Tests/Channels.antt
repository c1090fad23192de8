-- ===== src/Tests/Channels.antt =====
-- An index and a lock of a channel, with a small reader of addresses in place of the url crate.
use distropica.Effects.Sealed.{entrega, escolhe, resultado}
use distropica.Text.Lines.{lines, linhas_de, sem_cr, split_once}
use distropica.Plan.Live.{ends_with_lf, ends_with_slash}
use distropica.Text.Trim.{has, trim_end, trim_start, is_empty, any_control}
use distropica.Recipe.{dois_pontos, validate_name, validate_version}
use distropica.Plan.Order.Names.{text_lt}
use distropica.Effects.Results.{exige, ◌>>=◌ as ◌>>>◌}
use distropica.Channel.Index.Accepted.{IsIndex, parse_index-IsIndex}
use distropica.Channel.Index.{
  IndexEntry, parse_index, cabecalho_do_indice, le_entradas, le_entrada, dois_espacos, entrada_de,
  identidade_lt, ja_inserida, linha_canonica, valida_entrada,
}
use distropica.Channel.Lock.Accepted.{IsLock, parse_lock-IsLock}
use distropica.Channel.Lock.Proven.{IsProven, verify_lock_provenance-IsProven}
use distropica.Channel.Lock.Provenance.{
  RecordedProvenance, verify_lock_provenance, mesma_proveniencia,
}
use distropica.Channel.Lock.{
  Url, ParsedLock, parse_lock, le_lock, field, le_campo, fecha_com, finish, get, le_canais,
  le_canal, le_pacote, le_pacotes, le_produtor, parse_lock_count,
}
use distropica.Channel.{
  oficial, algum_vazio, artifact_path_ok, componentes_normais, ends_with, lower_hex,
  validate_artifact_path, confere, parse_trust,
}
use distropica.Effects.{ok, ◌>>=◌}
use distropica.Prelude.{
  ℕ, suc, zero, ◌≡◌, refl, true, false, Option, none, some, List, [], ◌∷◌, ◌++◌, Bytes, equal,
}
use distropica.Text.Pieces.{texto, split, digitos, ler_digitos, parse_u64, to_string}
use distropica.Text.Utf16.{Text}
use distropica.Text.Utf8.{utf8, utf8_of, from_utf8, ler_utf8, passo}

unfoldable pub repete : ℕ → ℕ → Text
repete zero c = []
repete (suc n) c = c ∷ repete n c

abbrev pub hash : ℕ → Text
hash c = repete 64 c

unfoldable pub junta : List Text → Bytes
junta [] = []
junta (l ∷ ls) = utf8 l ++ 0x0a ∷ junta ls

unfoldable pub com_espacos : List Text → Text
com_espacos [] = []
com_espacos (p ∷ []) = p
com_espacos (p ∷ q ∷ ps) = p ++ 0x20 ∷ com_espacos (q ∷ ps)

abbrev pub caminho : Text
caminho = texto "p/a.tar.zst"

abbrev linha_de : Text → Text
linha_de name = com_espacos (
    name
    ∷ texto "1"
    ∷ texto "x86_64"
    ∷ hash b'a'
    ∷ caminho
    ∷ hash b'b'
    ∷ hash b'c'
    ∷ hash b'd'
    ∷ [])

abbrev pub da_entrada : Text → IndexEntry
da_entrada name = record {
  name = name;
  version = texto "1";
  arch = texto "x86_64";
  recipe_fingerprint = hash b'a';
  path = caminho;
  sha256 = hash b'b';
  reprocorr = some (hash b'c');
  producer_plan_lock_sha256 = some (hash b'd');
}

abbrev pub indice : Bytes
indice = junta (
    texto "CHANNEL_INDEX_FORMAT=4"
    ∷ texto "RELEASE_ROOT=yes"
    ∷ linha_de (texto "a")
    ∷ linha_de (texto "b")
    ∷ [])

parse_index-IsIndex_example :
    IsIndex oficial false (4, true, da_entrada (texto "a") ∷ da_entrada (texto "b") ∷ [])
unfolding parse_index com_espacos cabecalho_do_indice le_entradas le_entrada dois_espacos entrada_de
    identidade_lt ja_inserida linha_canonica valida_entrada algum_vazio artifact_path_ok
    componentes_normais ends_with lower_hex validate_artifact_path confere exige ◌>>>◌ text_lt
    dois_pontos validate_name validate_version has trim_end trim_start is_empty equal utf8 utf8_of
    from_utf8 ler_utf8 passo ends_with_lf lines linhas_de sem_cr split junta repete
parse_index-IsIndex_example =
    parse_index-IsIndex oficial false indice
      (4, true, da_entrada (texto "a") ∷ da_entrada (texto "b") ∷ []) refl

-- An address with a host, and nothing else.
abbrev pub endereco : Text → Option Url
endereco t = some (record {
  scheme = texto "https";
  has_host = true;
  username = [];
  password = none;
  query = none;
  fragment = none;
  path = texto "/";
  as_str = t;
})

abbrev pub lock : Bytes
lock = junta (
    texto "CHANNEL_LOCK_FORMAT=4"
    ∷ texto "ARCH=x86_64"
    ∷ texto "CHANNEL_COUNT=1"
    ∷ texto "CHANNEL.0.NAME=main"
    ∷ texto "CHANNEL.0.URL=https://c/"
    ∷ (texto "CHANNEL.0.KEY_SHA256=" ++ hash b'1')
    ∷ (texto "CHANNEL.0.INDEX_SHA256=" ++ hash b'2')
    ∷ texto "CHANNEL.0.RELEASE_ROOT=yes"
    ∷ texto "CHANNEL.0.TRUST=oficial"
    ∷ texto "PACKAGE_COUNT=1"
    ∷ texto "PACKAGE.0.NAME=a"
    ∷ texto "PACKAGE.0.VERSION=1"
    ∷ (texto "PACKAGE.0.RECIPE_FINGERPRINT=" ++ hash b'a')
    ∷ texto "PACKAGE.0.CHANNEL=main"
    ∷ (texto "PACKAGE.0.PATH=" ++ caminho)
    ∷ (texto "PACKAGE.0.SHA256=" ++ hash b'b')
    ∷ (texto "PACKAGE.0.REPROCORR=" ++ hash b'c')
    ∷ texto "PACKAGE.0.INDEX_FORMAT=4"
    ∷ (texto "PACKAGE.0.PRODUCER_PLAN_LOCK_SHA256=" ++ hash b'd')
    ∷ texto "PACKAGE.0.TRUST=oficial"
    ∷ [])

abbrev trancado : ParsedLock
trancado = record {
  channels =
      (texto "main", record { index_sha256 = hash b'2'; release_root = true; trust = oficial })
      ∷ [];
  packages =
      (
        texto "a",
        record {
          name = texto "a";
          version = texto "1";
          recipe_fingerprint = hash b'a';
          channel = texto "main";
          path = caminho;
          artifact_sha256 = hash b'b';
          reprocorr = some (hash b'c');
          index_format = 4;
          producer_plan_lock_sha256 = some (hash b'd');
          trust = oficial;
        },
      )
      ∷ [];
}

parse_lock-IsLock_example : IsLock trancado
unfolding parse_lock ◌>>=◌ le_lock field le_campo fecha_com finish get le_canais le_canal le_pacote
    le_pacotes le_produtor parse_lock_count parse_trust entrega escolhe resultado ends_with_slash
    split_once digitos ler_digitos parse_u64 to_string any_control algum_vazio artifact_path_ok
    componentes_normais ends_with lower_hex validate_artifact_path confere exige ◌>>>◌ text_lt
    dois_pontos validate_name validate_version has trim_end trim_start is_empty equal utf8 utf8_of
    from_utf8 ler_utf8 passo ends_with_lf lines linhas_de sem_cr split junta repete
parse_lock-IsLock_example = parse_lock-IsLock endereco lock trancado refl

abbrev registro : RecordedProvenance
registro = record {
  package_name = texto "a";
  version = texto "1";
  recipe_fingerprint = hash b'a';
  channel = texto "main";
  path = caminho;
  trust = texto "oficial";
  artifact_sha256 = hash b'b';
  index_sha256 = hash b'2';
  artifact_reprocorr = hash b'c';
  recipe_reprocorr = none;
  index_format = 4;
  release_root = true;
  producer_plan_lock_sha256 = some (hash b'd');
}

verify_lock_provenance-IsProven_example :
    (l : ParsedLock) × (parse_lock endereco lock ≡ ok l) × IsProven l registro
unfolding verify_lock_provenance mesma_proveniencia parse_lock ◌>>=◌ le_lock field le_campo
    fecha_com finish get le_canais le_canal le_pacote le_pacotes le_produtor parse_lock_count
    parse_trust entrega escolhe resultado ends_with_slash split_once digitos ler_digitos parse_u64
    to_string any_control algum_vazio artifact_path_ok componentes_normais ends_with lower_hex
    validate_artifact_path confere exige ◌>>>◌ text_lt dois_pontos validate_name validate_version
    has trim_end trim_start is_empty equal utf8 utf8_of from_utf8 ler_utf8 passo ends_with_lf lines
    linhas_de sem_cr split junta repete
verify_lock_provenance-IsProven_example =
    verify_lock_provenance-IsProven endereco lock registro refl
