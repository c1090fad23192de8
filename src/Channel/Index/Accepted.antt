-- ===== src/Channel/Index/Accepted.antt =====
-- What an index holds that `parse_index` of minitrue/src/channel.rs accepts.
use distropica.Channel.Presence.{presente, ausente}
use distropica.Channel.Index.{
  IndexEntry, v4, legado, cabecalho_do_indice, entrada_de, valida_entrada, mesma_identidade,
  identidade_lt, depois_da_anterior, ja_inserida, le_entrada, le_entradas, parse_index,
}
use distropica.Channel.{Trust, is_builder, confere}
use distropica.Effects.Results.{Result, Gives, Gives-ok, Gives-bind}
use distropica.Effects.{ok}
use distropica.Prelude.{
  ℕ, ◌≡◌, refl, sym, subst, ◌⊎◌, inl, inr, Bool, true, false, not, ◌&&◌, ◌||◌, Option, none, some,
  List, [], ◌∷◌, ◌++◌, leb, if◌then◌else◌, equal, equal_iff, Bytes, arith, Bool-cases, ambos,
  nenhum, nega,
}
use distropica.Text.Pieces.{texto}
use distropica.Text.Utf16.{Text}

pub confere-eq : (b : Bool) {u : Unit {0}} → confere b ≡ ok u → b ≡ true
unfolding confere
confere-eq true h = refl
confere-eq false h = cc

-- Each entry is valid, and has a hash of the package and one of the plan that produced it where
-- the format asks for them; the oldest format has no plan.
abbrev pub com_hashes : ℕ → IndexEntry → Bool
com_hashes format e =
    if leb 3 format
    then presente e.reprocorr && presente e.producer_plan_lock_sha256
    else ausente e.producer_plan_lock_sha256

abbrev pub Todas : ℕ → List IndexEntry → Type 0
Todas format [] = Unit {0}
Todas format (e ∷ es) = (valida_entrada e ≡ ok tt) × (com_hashes format e ≡ true) × Todas format es

-- Each entry comes behind the one above.
unfoldable pub ascende : List IndexEntry → Bool
ascende [] = true
ascende (e ∷ []) = true
ascende (e ∷ d ∷ es) = identidade_lt e d && ascende (d ∷ es)

unfoldable pub sem_repetidas : List IndexEntry → Bool
sem_repetidas [] = true
sem_repetidas (e ∷ es) = not (ja_inserida e es) && sem_repetidas es

unfoldable ultima : List IndexEntry → Option IndexEntry
ultima [] = none
ultima (e ∷ []) = some e
ultima (e ∷ d ∷ es) = ultima (d ∷ es)

Todas-push :
    (format : ℕ) (es : List IndexEntry) (e : IndexEntry)
    → Todas format es
    → valida_entrada e ≡ ok tt
    → com_hashes format e ≡ true
    → Todas format (es ++ e ∷ [])
Todas-push format [] e h v c = (v, c, tt)
Todas-push format (d ∷ es) e (a, b, h) v c = (a, b, Todas-push format es e h v c)

ultima-push : (es : List IndexEntry) (e : IndexEntry) → ultima (es ++ e ∷ []) ≡ some e
unfolding ultima
ultima-push [] e = refl
ultima-push (d ∷ []) e = refl
ultima-push (d ∷ d' ∷ es) e = ultima-push (d' ∷ es) e

ascende-push :
    (es : List IndexEntry) (e : IndexEntry)
    → ascende es ≡ true
    → depois_da_anterior (ultima es) e ≡ true
    → ascende (es ++ e ∷ []) ≡ true
unfolding ascende ultima
ascende-push [] e a h = refl
ascende-push (d ∷ []) e a h = rw h refl
ascende-push (d ∷ d' ∷ es) e a h =
    let (x, y) = ambos (identidade_lt d d') (ascende (d' ∷ es)) a in
    rw (x, ascende-push (d' ∷ es) e y h) refl

mesma-sym : (a b : IndexEntry) → mesma_identidade a b ≡ mesma_identidade b a
mesma-sym a b = ground (
  arith,
  equal_iff a.name b.name,
  equal_iff b.name a.name,
  equal_iff a.version b.version,
  equal_iff b.version a.version,
  equal_iff a.arch b.arch,
  equal_iff b.arch a.arch,
)

ja_inserida-push :
    (e d : IndexEntry) (es : List IndexEntry)
    → ja_inserida e (es ++ d ∷ []) ≡ (ja_inserida e es || mesma_identidade e d)
unfolding ja_inserida
ja_inserida-push e d [] = elim (Bool-cases (mesma_identidade e d)) [
  | inl h ↦ rw h refl
  | inr h ↦ rw h refl
]
ja_inserida-push e d (c ∷ es) =
    rw (ja_inserida-push e d es)
      (ou_assoc (mesma_identidade e c) (ja_inserida e es) (mesma_identidade e d))
  where
    ou_assoc : (a b c : Bool) → (a || (b || c)) ≡ ((a || b) || c)
    ou_assoc true b c = refl
    ou_assoc false b c = refl

sem_repetidas-push :
    (es : List IndexEntry) (e : IndexEntry)
    → sem_repetidas es ≡ true
    → ja_inserida e es ≡ false
    → sem_repetidas (es ++ e ∷ []) ≡ true
unfolding sem_repetidas ja_inserida
sem_repetidas-push [] e s h = refl
sem_repetidas-push (d ∷ es) e s h =
    let (n, r) = ambos (not (ja_inserida d es)) (sem_repetidas es) s in
    let (m, i) = nenhum (mesma_identidade e d) (ja_inserida e es) h in
    rw
      (
        ja_inserida-push d e es,
        nega (ja_inserida d es) n,
        mesma-sym d e,
        m,
        sem_repetidas-push es e r i,
      )
      refl

-- The entries so far, with the one of the line above.
record Acumuladas (format : ℕ) (previous : Option IndexEntry) (es : List IndexEntry) : Type 0 where
  pub todas : Todas format es
  pub crescente : (not (leb 3 format) || ascende es) ≡ true
  pub anterior : ultima es ≡ previous
  pub unicas : sem_repetidas es ≡ true

entrada_de-hashes :
    (format : ℕ) (ps : List Text) → Gives (entrada_de format ps) λ e. com_hashes format e ≡ true
unfolding entrada_de
entrada_de-hashes format (n ∷ v ∷ a ∷ f ∷ p ∷ s ∷ []) = record { holds = λ e h. ground (arith, h) }
entrada_de-hashes format (n ∷ v ∷ a ∷ f ∷ p ∷ s ∷ r ∷ []) = record {
  holds = λ e h. ground (arith, h);
}
entrada_de-hashes format (n ∷ v ∷ a ∷ f ∷ p ∷ s ∷ r ∷ q ∷ []) = record {
  holds = λ e h. ground (arith, h);
}
entrada_de-hashes format (n ∷ v ∷ a ∷ f ∷ p ∷ s ∷ r ∷ q ∷ _ ∷ _) = record { holds = λ e h. cc (h) }
entrada_de-hashes format (n ∷ v ∷ a ∷ f ∷ p ∷ []) = record { holds = λ e h. cc (h) }
entrada_de-hashes format (n ∷ v ∷ a ∷ f ∷ []) = record { holds = λ e h. cc (h) }
entrada_de-hashes format (n ∷ v ∷ a ∷ []) = record { holds = λ e h. cc (h) }
entrada_de-hashes format (n ∷ v ∷ []) = record { holds = λ e h. cc (h) }
entrada_de-hashes format (n ∷ []) = record { holds = λ e h. cc (h) }
entrada_de-hashes format [] = record { holds = λ e h. cc (h) }

le_entrada-valid :
    (format : ℕ) (line : Text)
    → Gives (le_entrada format line) λ e. (valida_entrada e ≡ ok tt) × (com_hashes format e ≡ true)
unfolding le_entrada
le_entrada-valid format line = Gives-bind _ _ λ u _.
    Gives-bind _ _
      λ e p. Gives-bind _ _ λ u' v. Gives-ok e (v, (entrada_de-hashes format _).holds e p)

Acumuladas-push :
    (format : ℕ) (previous : Option IndexEntry) (es : List IndexEntry) (e : IndexEntry)
    → Acumuladas format previous es
    → (valida_entrada e ≡ ok tt) × (com_hashes format e ≡ true)
    → (not (leb 3 format) || depois_da_anterior previous e) ≡ true
    → ja_inserida e es ≡ false
    → Acumuladas format (some e) (es ++ e ∷ [])
Acumuladas-push format previous es e l (v, c) o n = record {
  todas = Todas-push format es e l.todas v c;
  crescente = por_formato (leb 3 format) l.crescente o;
  anterior = ultima-push es e;
  unicas = sem_repetidas-push es e l.unicas n;
}
  where
    por_formato :
        (b : Bool)
        → (not b || ascende es) ≡ true
        → (not b || depois_da_anterior previous e) ≡ true
        → (not b || ascende (es ++ e ∷ [])) ≡ true
    por_formato false a d = refl
    por_formato true a d =
        ascende-push es e a (subst (λ p. depois_da_anterior p e ≡ true) (sym l.anterior) d)

le_entradas-Acumuladas :
    (format : ℕ) (previous : Option IndexEntry) (es : List IndexEntry) (ls : List Text)
    → Acumuladas format previous es
    → Gives
        (le_entradas format previous es ls)
        λ es'. (p : Option IndexEntry) × Acumuladas format p es'
unfolding le_entradas
le_entradas-Acumuladas format previous es [] l = Gives-ok es (previous, l)
le_entradas-Acumuladas format previous es (line ∷ ls) l = Gives-bind _ _ λ e h.
    Gives-bind _ _ λ u o. Gives-bind _ _ λ u' n.
      le_entradas-Acumuladas format (some e) (es ++ e ∷ []) ls (
        Acumuladas-push format previous es e l ((le_entrada-valid format line).holds e h)
          (confere-eq _ o) (nega _ (confere-eq _ n)))

-- The current format, or a legacy one of a builder's channel that is no release.
abbrev pub Formato : Trust → Bool → ℕ → Bool → Type 0
Formato trust allow_legacy format root =
    (format ≡ 4)
    ⊎ (((format ≡ 3) ⊎ (format ≡ 2))
        × (is_builder trust ≡ true)
        × (allow_legacy ≡ true)
        × (root ≡ false))

legado-Formato :
    (trust : Trust) (allow_legacy : Bool) (format : ℕ) (ls : List Text)
    → (format ≡ 3) ⊎ (format ≡ 2)
    → Gives (legado format trust allow_legacy ls) λ (f, r, _). Formato trust allow_legacy f r
unfolding legado
legado-Formato trust allow_legacy format ls h = Gives-bind _ _ λ u c.
    let (b, a) = ambos (is_builder trust) allow_legacy (confere-eq _ c) in
    Gives-ok (format, false, ls) (inr (h, b, a, refl))

v4-Formato :
    (trust : Trust) (allow_legacy : Bool) (ls : List Text)
    → Gives (v4 ls) λ (f, r, _). Formato trust allow_legacy f r
v4-Formato trust allow_legacy [] = record { holds = λ a h. cc (h) }
v4-Formato trust allow_legacy (release ∷ ls) =
    Gives-bind _ _ λ root _. Gives-ok (4, root, ls) (inl refl)

pub Gives-if :
    {A : Type 0} {Q : A → Type 0} (b : Bool) {m m' : Result A}
    → Gives m Q
    → Gives m' Q
    → Gives (if b then m else m') Q
Gives-if true g g' = g
Gives-if false g g' = g'

cabecalho-Formato :
    (trust : Trust) (allow_legacy : Bool) (ls : List Text)
    → Gives (cabecalho_do_indice trust allow_legacy ls) λ (f, r, _). Formato trust allow_legacy f r
unfolding cabecalho_do_indice
cabecalho-Formato trust allow_legacy [] = legado-Formato trust allow_legacy 2 [] (inr refl)
cabecalho-Formato trust allow_legacy (l ∷ ls) =
    Gives-if (equal l (texto "CHANNEL_INDEX_FORMAT=4")) (v4-Formato trust allow_legacy ls) (
      Gives-if (equal l (texto "CHANNEL_INDEX_FORMAT=3"))
        (legado-Formato trust allow_legacy 3 ls (inl refl))
        (legado-Formato trust allow_legacy 2 (l ∷ ls) (inr refl)))

pub record IsIndex (trust : Trust) (allow_legacy : Bool) (r : ℕ × Bool × List IndexEntry)
    : Type 0 where
  pub formato : Formato trust allow_legacy r.0 r.1
  pub entradas : Todas r.0 r.2
  pub crescente : (not (leb 3 r.0) || ascende r.2) ≡ true
  pub unicas : sem_repetidas r.2 ≡ true

vazio : (format : ℕ) → Acumuladas format none []
unfolding ascende ultima sem_repetidas
vazio format = record {
  todas = tt;
  crescente = elim (leb 3 format) as (λ b. (not b || true) ≡ true) [ true ↦ refl | false ↦ refl ];
  anterior = refl;
  unicas = refl;
}

aceito :
    (trust : Trust) (allow_legacy : Bool) (bytes : Bytes)
    → Gives (parse_index trust allow_legacy bytes) (IsIndex trust allow_legacy)
unfolding parse_index
aceito trust allow_legacy bytes = Gives-bind _ _ λ text _. Gives-bind _ _ λ u _.
    Gives-bind _ _ λ (format, root, ls) c. Gives-bind _ _ λ es l.
      let (p, lidas) = (le_entradas-Acumuladas format none [] ls (vazio format)).holds es l in
      Gives-ok (format, root, es)
        (record {
          formato = (cabecalho-Formato trust allow_legacy _).holds (format, root, ls) c;
          entradas = lidas.todas;
          crescente = lidas.crescente;
          unicas = lidas.unicas;
        })

-- An index that is accepted has the current format, or a legacy one if the channel is a builder's,
-- legacy indices are allowed and it is no release; every entry is valid, with a reproduction hash
-- and the hash of its plan where the format is not the oldest; no identity stands twice, and in
-- these formats the identities ascend.
pub parse_index-IsIndex :
    (trust : Trust) (allow_legacy : Bool) (bytes : Bytes) (r : ℕ × Bool × List IndexEntry)
    → parse_index trust allow_legacy bytes ≡ ok r
    → IsIndex trust allow_legacy r
parse_index-IsIndex trust allow_legacy bytes r h = (aceito trust allow_legacy bytes).holds r h
