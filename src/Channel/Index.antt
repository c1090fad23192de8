-- ===== src/Channel/Index.antt =====
-- The index of a channel: `parse_index`, `index_line` and `index_header_for` of
-- minitrue/src/channel.rs.
pub mod Accepted
use distropica.Channel.{Trust, is_builder, confere, lower_hex, validate_artifact_path}
use distropica.Effects.Results.{Result, ◌>>=◌}
use distropica.Effects.{Outcome, ok, err}
use distropica.Plan.Live.{ends_with_lf}
use distropica.Plan.Order.Names.{text_lt}
use distropica.Prelude.{
  ℕ, Bool, true, false, not, ◌&&◌, ◌||◌, Option, none, some, List, [], ◌∷◌, ◌++◌, leb, ◌==◌,
  if◌then◌else◌, equal, all, Bytes,
}
use distropica.Recipe.{validate_name, validate_version}
use distropica.Text.Lines.{lines}
use distropica.Text.Pieces.{texto, split}
use distropica.Text.Trim.{is_empty, trim, has}
use distropica.Text.Utf16.{Text}
use distropica.Text.Utf8.{utf8, from_utf8, within}

pub record IndexEntry : Type 0 where
  pub name : Text
  pub version : Text
  pub arch : Text
  pub recipe_fingerprint : Text
  pub path : Text
  pub sha256 : Text
  pub reprocorr : Option Text
  pub producer_plan_lock_sha256 : Option Text

abbrev sim_ou_nao : Text → Result Bool
sim_ou_nao release =
    if equal release (texto "RELEASE_ROOT=yes")
    then ok true
    else if equal release (texto "RELEASE_ROOT=no")
    then ok false
    else err 1

-- The lines behind the header, with the format and the release mark that it gives.
abbrev v4 : List Text → Result (ℕ × Bool × List Text)
v4 [] = err 1
v4 (release ∷ ls) = sim_ou_nao release >>= λ root. ok (4, root, ls)

unfoldable pub legado : ℕ → Trust → Bool → List Text → Result (ℕ × Bool × List Text)
legado format trust allow_legacy ls =
    confere (is_builder trust && allow_legacy) >>= λ _. ok (format, false, ls)

unfoldable pub cabecalho_do_indice : Trust → Bool → List Text → Result (ℕ × Bool × List Text)
cabecalho_do_indice trust allow_legacy [] = legado 2 trust allow_legacy []
cabecalho_do_indice trust allow_legacy (l ∷ ls) =
    if equal l (texto "CHANNEL_INDEX_FORMAT=4")
    then v4 ls
    else if equal l (texto "CHANNEL_INDEX_FORMAT=3")
    then legado 3 trust allow_legacy ls
    else legado 2 trust allow_legacy (l ∷ ls)

unfoldable pub dois_espacos : Text → Bool
dois_espacos [] = false
dois_espacos (c ∷ []) = false
dois_espacos (c ∷ d ∷ ds) = (c == 0x20 && d == 0x20) || dois_espacos (d ∷ ds)

abbrev comeca_com_cerquilha : Text → Bool
comeca_com_cerquilha [] = false
comeca_com_cerquilha (c ∷ _) = c == b'#'

unfoldable pub linha_canonica : Text → Bool
linha_canonica line =
    not (is_empty line)
    && not (comeca_com_cerquilha line)
    && equal (trim line) line
    && not (has 0x09 line)
    && not (dois_espacos line)

-- The fields of a line, by the arity of the format.
unfoldable pub entrada_de : ℕ → List Text → Result IndexEntry
entrada_de format (n ∷ v ∷ a ∷ f ∷ p ∷ s ∷ []) =
    if leb 3 format
    then err 1
    else ok (record {
      name = n;
      version = v;
      arch = a;
      recipe_fingerprint = f;
      path = p;
      sha256 = s;
      reprocorr = none;
      producer_plan_lock_sha256 = none;
    })
entrada_de format (n ∷ v ∷ a ∷ f ∷ p ∷ s ∷ r ∷ []) =
    if leb 3 format
    then err 1
    else ok (record {
      name = n;
      version = v;
      arch = a;
      recipe_fingerprint = f;
      path = p;
      sha256 = s;
      reprocorr = some r;
      producer_plan_lock_sha256 = none;
    })
entrada_de format (n ∷ v ∷ a ∷ f ∷ p ∷ s ∷ r ∷ q ∷ []) =
    if leb 3 format
    then ok (record {
      name = n;
      version = v;
      arch = a;
      recipe_fingerprint = f;
      path = p;
      sha256 = s;
      reprocorr = some r;
      producer_plan_lock_sha256 = some q;
    })
    else err 1
entrada_de format _ = err 1

abbrev de_arch : ℕ → Bool
de_arch b = within b'a' b'z' b || within b'0' b'9' b || b == b'_'

abbrev pub hash_opcional : Option Text → Bool
hash_opcional none = true
hash_opcional (some h) = lower_hex h

unfoldable pub valida_entrada : IndexEntry → Result (Unit {0})
valida_entrada e = do
  _ ← validate_name e.name
  _ ← validate_version e.version
  _ ← confere (not (is_empty e.arch) && all de_arch (utf8 e.arch))
  _ ← confere (lower_hex e.recipe_fingerprint)
  _ ← validate_artifact_path e.path
  _ ← confere (lower_hex e.sha256)
  _ ← confere (hash_opcional e.reprocorr)
  confere (hash_opcional e.producer_plan_lock_sha256)

abbrev pub mesma_identidade : IndexEntry → IndexEntry → Bool
mesma_identidade a b = equal a.name b.name && equal a.version b.version && equal a.arch b.arch

-- The order of the identities, which are triples of strings.
unfoldable pub identidade_lt : IndexEntry → IndexEntry → Bool
identidade_lt a b =
    text_lt a.name b.name
    || (equal a.name b.name
        && (text_lt a.version b.version || (equal a.version b.version && text_lt a.arch b.arch)))

-- Behind the entry of the line above, if there is one.
abbrev pub depois_da_anterior : Option IndexEntry → IndexEntry → Bool
depois_da_anterior none e = true
depois_da_anterior (some p) e = identidade_lt p e

-- The map of the entries: in the order in which they were inserted.
unfoldable pub ja_inserida : IndexEntry → List IndexEntry → Bool
ja_inserida e [] = false
ja_inserida e (d ∷ ds) = mesma_identidade e d || ja_inserida e ds

unfoldable pub le_entrada : ℕ → Text → Result IndexEntry
le_entrada format line = do
  _ ← confere (linha_canonica line)
  e ← entrada_de format (split 0x20 line)
  _ ← valida_entrada e
  ok e

unfoldable pub le_entradas :
    ℕ → Option IndexEntry → List IndexEntry → List Text → Result (List IndexEntry)
le_entradas format previous entries [] = ok entries
le_entradas format previous entries (line ∷ ls) = do
  e ← le_entrada format line
  _ ← confere (not (leb 3 format) || depois_da_anterior previous e)
  _ ← confere (not (ja_inserida e entries))
  le_entradas format (some e) (entries ++ e ∷ []) ls

abbrev pub de_texto : Option Text → Result Text
de_texto none = err 1
de_texto (some t) = ok t

unfoldable pub parse_index : Trust → Bool → Bytes → Result (ℕ × Bool × List IndexEntry)
parse_index trust allow_legacy bytes = do
  text ← de_texto (from_utf8 bytes)
  _ ← confere (is_empty text || ends_with_lf text)
  (format, root, ls) ← cabecalho_do_indice trust allow_legacy (lines text)
  entries ← le_entradas format none [] ls
  ok (format, root, entries)

abbrev pub arquitetura : Text
arquitetura = texto "x86_64"

-- The line of an entry, as the packer of a channel writes it.
unfoldable pub index_line : Text → Text → Text → Text → Text → Text → Text → Result Text
index_line name version recipe_fingerprint path sha256 reprocorr producer = do
  _ ← validate_name name
  _ ← validate_version version
  _ ← validate_artifact_path path
  _ ← confere (
      lower_hex recipe_fingerprint && lower_hex sha256 && lower_hex reprocorr && lower_hex producer)
  ok (
      name
      ++ 0x20
        ∷ (version
            ++ 0x20
              ∷ (arquitetura
                  ++ 0x20
                    ∷ (recipe_fingerprint
                        ++ 0x20
                          ∷ (path
                              ++ 0x20
                                ∷ (sha256
                                    ++ 0x20 ∷ (reprocorr ++ 0x20 ∷ (producer ++ 0x0a ∷ []))))))))

unfoldable pub index_header_for : Bool → Text
index_header_for release_root =
    texto "CHANNEL_INDEX_FORMAT=4"
    ++ 0x0a
      ∷ (texto "RELEASE_ROOT=" ++ (if release_root then texto "yes" else texto "no") ++ 0x0a ∷ [])
