-- ===== src/Arvore/Origem.antt =====
-- Where the tree comes from: `analisa_origem` of minitrue/src/arvore.rs.
use distropica.Attest.Fields.{Result, ◌>>=◌, lines, linhas_de, split_once}
use distropica.Attest.Lines.{lines-linha, trim-id, sem_espaco-has}
use distropica.Attest.{linha}
use distropica.Effects.{ok, err}
use distropica.Plan.Live.{has, is_empty, trim}
use distropica.Prelude.{
  ℕ, ◌≡◌, refl, ◌∙◌, ap, Bool, true, Option, none, some, List, [], ◌∷◌, ◌++◌, ◌==◌, if◌then◌else◌,
  equal,
}
use distropica.Text.Pieces.{texto, strip_prefix, sem_espaco, split}
use distropica.Text.Utf16.{Text}

pub record Origem : Type 0 where
  pub url : Text
  pub key : Text

-- What the lines so far assign.
pub record Lidas : Type 0 where
  pub url : Option Text
  pub key : Option Text

abbrev atribui : Option (Text × Text) → Lidas → Lidas
atribui none l = l
atribui (some (campo, v)) l =
    if equal campo (texto "URL")
    then record l { url = some (trim v) }
    else if equal campo (texto "KEY")
    then record l { key = some (trim v) }
    else l

abbrev comentario : Text → Bool
comentario [] = true
comentario (c ∷ _) = c == b'#'

-- One line, without the white space around it.
unfoldable pub le_linha : Text → Lidas → Lidas
le_linha linha l = if comentario linha then l else atribui (split_once b'=' linha) l

unfoldable pub le_linhas : List Text → Lidas → Lidas
le_linhas [] l = l
le_linhas (linha ∷ ls) l = le_linhas ls (le_linha (trim linha) l)

abbrev presente_ou_erro : Option Text → Result Text
presente_ou_erro none = err 6
presente_ou_erro (some []) = err 6
presente_ou_erro (some (c ∷ cs)) = ok (c ∷ cs)

abbrev com_https : Origem → Option Text → Result Origem
com_https o none = err 6
com_https o (some _) = ok o

unfoldable pub analisa_origem : Text → Result Origem
analisa_origem texto_lido =
    let l = le_linhas (lines texto_lido) (record { url = none; key = none }) in
    presente_ou_erro l.url >>= λ url. presente_ou_erro l.key >>= λ key.
    com_https (record { url = url; key = key }) (strip_prefix (texto "https://") url)

abbrev pub documento : Text → Text → Text
documento url key = linha (texto "URL") url (linha (texto "KEY") key [])

-- An origin that is written as its two lines is read back: an https URL and a key that is not
-- empty, both free of white space.
pub analisa_origem-documento :
    (u : Text) (k : ℕ) (ks : Text)
    → sem_espaco u ≡ true
    → sem_espaco (k ∷ ks) ≡ true
    → analisa_origem (documento (texto "https://" ++ u) (k ∷ ks))
      ≡ ok (record { url = texto "https://" ++ u; key = k ∷ ks })
unfolding analisa_origem ◌>>=◌ strip_prefix le_linhas le_linha lines linhas_de split split_once
    equal is_empty has
analisa_origem-documento u k ks hu hk =
    ap
      (λ l. presente_ou_erro l.url >>= λ url. presente_ou_erro l.key >>= λ key.
        com_https (record { url = url; key = key }) (strip_prefix (texto "https://") url))
      lidas
  where
    endereco : Text
    endereco = texto "https://" ++ u

    chave : Text
    chave = k ∷ ks

    linhas :
        lines (documento endereco chave)
        ≡ (texto "URL" ++ b'=' ∷ endereco) ∷ (texto "KEY" ++ b'=' ∷ chave) ∷ []
    linhas =
        lines-linha (texto "URL") endereco (linha (texto "KEY") chave []) refl refl
          (sem_espaco-has 0x0a endereco refl hu) (sem_espaco-has 0x0d endereco refl hu)
        ∙ ap (◌∷◌ (texto "URL" ++ b'=' ∷ endereco)) (
            lines-linha (texto "KEY") chave [] refl refl (sem_espaco-has 0x0a chave refl hk)
              (sem_espaco-has 0x0d chave refl hk))

    lidas :
        le_linhas (lines (documento endereco chave)) (record { url = none; key = none })
        ≡ record { url = some endereco; key = some chave }
    lidas =
        ap (λ ls. le_linhas ls (record { url = none; key = none })) linhas
        ∙ rw
            (
              trim-id (texto "URL" ++ b'=' ∷ endereco) hu,
              trim-id (texto "KEY" ++ b'=' ∷ chave) hk,
              trim-id endereco hu,
              trim-id chave hk,
            )
            refl
