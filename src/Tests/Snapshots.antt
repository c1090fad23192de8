-- ===== src/Tests/Snapshots.antt =====
-- A catalog of one channel, loaded without the network, with a small signature scheme in place of
-- minisign.
use distropica.Channel.Catalog.{Config, Snapshot, Catalog, read_only}
use distropica.Channel.Snapshots.{Minisign, Par}
use distropica.Channel.{oficial}
use distropica.Effects.Results.{Result, ◌>>=◌ as ◌>>>◌}
use distropica.Effects.{ok, err}
use distropica.Prelude.{true, false, Option, some, [], ◌∷◌, equal}
use distropica.Tests.Catalogs.{pagina}
use distropica.Tests.Channels.{hash, da_entrada, indice}
use distropica.Text.Pieces.{texto}
use distropica.Text.Utf16.{Text}

-- A signature is the key.
abbrev esquema_pequeno : Minisign Text Text
esquema_pequeno = record {
  signature_decode = λ t. some t;
  from_base64 = λ t. some t;
  verify = λ k index s. equal k s;
}

abbrev configuracao : Config
configuracao = record { name = texto "main"; url = pagina; key = texto "K"; trust = oficial }

abbrev em_cache : Config → Result (Option Par)
em_cache config = ok (some (indice, texto "K"))

abbrev sem_rede : Config → Result Par
sem_rede config = err 1

abbrev carregado : Snapshot
carregado = record {
  config = configuracao;
  key_sha256 = hash b'9';
  index_sha256 = hash b'9';
  index = indice;
  signature = texto "K";
  index_format = 4;
  release_root = true;
  entries = da_entrada (texto "a") ∷ da_entrada (texto "b") ∷ [];
}

abbrev pronto : Catalog
pronto = record {
  snapshots = carregado ∷ [];
  selections = [];
  mode = read_only;
  allow_legacy = false;
}
