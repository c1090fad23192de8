-- ===== src/Channel/Lock/Fields.antt =====
-- The lines `KEY=value` of a lock, as `lock_body` writes them and `LockLines::field` reads them
-- (minitrue/src/channel.rs).
use distropica.Channel.Catalog.{fragmento}
use distropica.Channel.Lock.{le_campo, field}
use distropica.Effects.Results.{Result}
use distropica.Effects.Runs.{Runs}
use distropica.Effects.{ok, err}
use distropica.Plan.Live.{ends_with_lf}
use distropica.Prelude.{
  ℕ, ◌≡◌, refl, sym, ◌∙◌, ap, Bool, true, false, not, ◌&&◌, ◌||◌, List, [], ◌∷◌, ◌++◌, map, ◌==◌,
  if◌then◌else◌, equal_iff, all, ambos, nega,
}
use distropica.Text.Decimal.{all-append}
use distropica.Text.Lines.{
  lines, linhas_de, linha, lines-linha, split_once-append, has-append, trim-id,
}
use distropica.Text.Pieces.{split}
use distropica.Text.Printable.{
  grafico, all-weaken, grafico-sem_espaco, grafico-is_scalar, grafico-any_control, all-has,
}
use distropica.Text.Trim.{is_empty, has, trim}
use distropica.Text.Utf16.{Text, is_scalar}

abbrev pub letra : ℕ → Bool
letra c = grafico c && not (c == b'=')

abbrev pub chave_ok : Text → Bool
chave_ok k = not (is_empty k) && all letra k

abbrev pub valor_ok : Text → Bool
valor_ok v = not (is_empty v) && all grafico v

abbrev pub campo_ok : Text × Text → Bool
campo_ok (k, v) = chave_ok k && valor_ok v

abbrev pub linha_de : Text × Text → Text
linha_de (k, v) = k ++ b'=' ∷ v

letra-grafico : (k : Text) → all letra k ≡ true → all grafico k ≡ true
letra-grafico k h = all-weaken letra grafico (λ c l. (ambos (grafico c) (not (c == b'=')) l).0) k h

linha-grafico :
    (k v : Text) → all letra k ≡ true → all grafico v ≡ true → all grafico (linha_de (k, v)) ≡ true
linha-grafico k v h g = all-append grafico k (b'=' ∷ v) ∙ rw (letra-grafico k h, g) refl

pub linha-is_empty : (k v : Text) → is_empty (linha_de (k, v)) ≡ false
unfolding is_empty
linha-is_empty [] v = refl
linha-is_empty (c ∷ k) v = refl

le_campo-lem :
    (k v : Text) (e : Bool)
    → chave_ok k ≡ true
    → valor_ok v ≡ true
    → le_campo k e (linha_de (k, v)) ≡ ok v
unfolding le_campo
le_campo-lem k v e hk hv =
    let (_, a) = ambos (not (is_empty k)) (all letra k) hk in
    let (n, b) = ambos (not (is_empty v)) (all grafico v) hv in
    let g = linha-grafico k v a b in
    rw
      (
        linha-is_empty k v,
        (equal_iff (trim (linha_de (k, v))) (linha_de (k, v))).1
            (trim-id (linha_de (k, v)) (grafico-sem_espaco (linha_de (k, v)) g)),
        grafico-any_control (linha_de (k, v)) g,
        split_once-append b'=' k v (all-has letra b'=' refl k a),
        (equal_iff k k).1 refl,
        nega _ n,
      )
      (se_ou e)
  where
    se_ou : (b : Bool) → if◌then◌else◌ {A = Result Text} (b || true) (ok v) (err 1) ≡ ok v
    se_ou true = refl
    se_ou false = refl

pub Runs-field :
    (k v : Text) (e : Bool) (rest : List Text)
    → chave_ok k ≡ true
    → valor_ok v ≡ true
    → Runs (field k e) (linha_de (k, v) ∷ rest) v rest
unfolding field
Runs-field k v e rest hk hv = record { ends = ap (λ r. (r, rest)) (le_campo-lem k v e hk hv) }

lines-nil : lines [] ≡ []
unfolding lines linhas_de split is_empty
lines-nil = refl

pub lines-fragmento :
    (ps : List (Text × Text)) → all campo_ok ps ≡ true → lines (fragmento ps) ≡ map linha_de ps
unfolding fragmento
lines-fragmento [] h = lines-nil
lines-fragmento ((k, v) ∷ ps) h =
    let (a, r) = ambos (campo_ok (k, v)) (all campo_ok ps) h in
    let (hk, hv) = ambos (chave_ok k) (valor_ok v) a in
    let (_, l) = ambos (not (is_empty k)) (all letra k) hk in
    let (_, g) = ambos (not (is_empty v)) (all grafico v) hv in
    lines-linha k v (fragmento ps) (all-has letra 0x0a refl k l) (all-has letra 0x0d refl k l)
      (all-has grafico 0x0a refl v g) (all-has grafico 0x0d refl v g)
    ∙ ap (λ ls. linha_de (k, v) ∷ ls) (lines-fragmento ps r)

-- What `parse_lock` asks of the whole text.
pub has-fragmento :
    (ps : List (Text × Text)) → all campo_ok ps ≡ true → has 0x0d (fragmento ps) ≡ false
unfolding fragmento has
has-fragmento [] h = refl
has-fragmento ((k, v) ∷ ps) h =
    let (a, r) = ambos (campo_ok (k, v)) (all campo_ok ps) h in
    let (hk, hv) = ambos (chave_ok k) (valor_ok v) a in
    let (_, l) = ambos (not (is_empty k)) (all letra k) hk in
    let (_, g) = ambos (not (is_empty v)) (all grafico v) hv in
    has-append 0x0d k (b'=' ∷ (v ++ 0x0a ∷ fragmento ps))
    ∙ rw
        (
          all-has letra 0x0d refl k l,
          has-append 0x0d v (0x0a ∷ fragmento ps),
          all-has grafico 0x0d refl v g,
        )
        (has-fragmento ps r)

pub is_scalar-fragmento :
    (ps : List (Text × Text)) → all campo_ok ps ≡ true → all is_scalar (fragmento ps) ≡ true
unfolding fragmento
is_scalar-fragmento [] h = refl
is_scalar-fragmento ((k, v) ∷ ps) h =
    let (a, r) = ambos (campo_ok (k, v)) (all campo_ok ps) h in
    let (hk, hv) = ambos (chave_ok k) (valor_ok v) a in
    let (_, l) = ambos (not (is_empty k)) (all letra k) hk in
    let (_, g) = ambos (not (is_empty v)) (all grafico v) hv in
    all-append is_scalar k (b'=' ∷ (v ++ 0x0a ∷ fragmento ps))
    ∙ rw
        (
          grafico-is_scalar k (letra-grafico k l),
          all-append is_scalar v (0x0a ∷ fragmento ps),
          grafico-is_scalar v g,
        )
        (is_scalar-fragmento ps r)

ends_with_lf-append :
    (x : Text) (c : ℕ) (y : Text) → ends_with_lf (x ++ c ∷ y) ≡ ends_with_lf (c ∷ y)
unfolding ends_with_lf
ends_with_lf-append [] c y = refl
ends_with_lf-append (b ∷ []) c y = refl
ends_with_lf-append (b ∷ d ∷ x) c y = ends_with_lf-append (d ∷ x) c y

ends_with_lf-linha : (k v r : Text) → ends_with_lf (linha k v r) ≡ ends_with_lf (0x0a ∷ r)
ends_with_lf-linha k v r =
    ends_with_lf-append k b'=' (v ++ 0x0a ∷ r) ∙ ends_with_lf-append (b'=' ∷ v) 0x0a r

lf-lf : ends_with_lf (0x0a ∷ []) ≡ true
unfolding ends_with_lf
lf-lf = refl

pub ends_with_lf-fragmento :
    (p : Text × Text) (ps : List (Text × Text)) → ends_with_lf (fragmento (p ∷ ps)) ≡ true
unfolding fragmento
ends_with_lf-fragmento (k, v) [] = ends_with_lf-linha k v [] ∙ lf-lf
ends_with_lf-fragmento (k, v) ((l, w) ∷ ps) =
    ends_with_lf-linha k v (fragmento ((l, w) ∷ ps))
    ∙ ends_with_lf-append (0x0a ∷ l) b'=' (w ++ 0x0a ∷ fragmento ps)
    ∙ sym (ends_with_lf-append l b'=' (w ++ 0x0a ∷ fragmento ps))
    ∙ ends_with_lf-fragmento (l, w) ps
