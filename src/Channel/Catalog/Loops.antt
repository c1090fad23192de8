-- ===== src/Channel/Catalog/Loops.antt =====
-- The loops of `parse_lock` over the channels and the packages that `lock_body` writes
-- (minitrue/src/channel.rs).
use distropica.Channel.Catalog.Read.{
  trancado_canal, trancado_pacote, IsChannel, IsSelection, le_canal-Runs, le_pacote-Runs,
}
use distropica.Channel.Catalog.Sorted.{acha, antes, crescente, text_lt-equal}
use distropica.Channel.Catalog.Written.{campos_todos}
use distropica.Channel.Catalog.{
  Snapshot, Selection, campos_do_canal, campos_do_pacote, nome_do_canal, nome_do_pacote,
}
use distropica.Channel.Lock.Fields.{linha_de}
use distropica.Channel.Lock.{
  Url, LockedChannel, LockedPackage, Mapa, get, ausente, em_ordem, le_canais, le_pacotes,
}
use distropica.Effects.Runs.{Runs, Runs-bind, Runs-entrega, Runs-same}
use distropica.Plan.Order.Names.{text_lt}
use distropica.Prelude.{
  ℕ, ◌+◌, ◌≡◌, refl, sym, ◌∙◌, ap, Bool, true, false, ◌&&◌, Option, none, some, List, [], ◌∷◌, ◌++◌,
  map, append_assoc, append-nil, equal, equal_iff, length, arith, Bool-cases, inl, inr, ambos,
}
use distropica.Text.Utf16.{Text}

module _ {A : Type 0} where
  abbrev pub Cada : (A → Type 0) → List A → Type 0
  Cada P [] = Unit {0}
  Cada P (x ∷ xs) = P x × Cada P xs

pub map-append :
    {A B : Type 0} (f : A → B) (xs ys : List A) → map f (xs ++ ys) ≡ map f xs ++ map f ys
map-append f [] ys = refl
map-append f (x ∷ xs) ys = ap (λ zs. f x ∷ zs) (map-append f xs ys)

module _ {A B : Type 0} (nome : A → Text) (f : A → B) where
  abbrev pub par : A → Text × B
  par x = (nome x, f x)

  pub get-acha :
      (n : Text) (xs : List A) (x : A) → acha nome n xs ≡ some x → get n (map par xs) ≡ some (f x)
  unfolding get acha
  get-acha n [] x h = cc (h)
  get-acha n (y ∷ ys) x h = elim (Bool-cases (equal n (nome y))) [
    | inl b ↦ rw b (ap some (ap f (cc (h, b))))
    | inr b ↦ rw b (get-acha n ys x (ground (arith, h, b)))
  ]

  -- All names so far stand before those that are left.
  abbrev pub abaixo : Mapa B → List A → Bool
  abaixo [] xs = true
  abaixo ((k, _) ∷ m) xs = antes nome k xs && abaixo m xs

  abbrev pub antes_de : Option Text → List A → Bool
  antes_de none xs = true
  antes_de (some p) xs = antes nome p xs

  pub antes_de-em_ordem :
      (previous : Option Text) (x : A) (xs : List A)
      → antes_de previous (x ∷ xs) ≡ true
      → em_ordem previous (nome x) ≡ true
  antes_de-em_ordem none x xs h = refl
  antes_de-em_ordem (some p) x xs h = (ambos (text_lt p (nome x)) (antes nome p xs) h).0

  pub abaixo-get :
      (m : Mapa B) (x : A) (xs : List A)
      → abaixo m (x ∷ xs) ≡ true
      → ausente (get (nome x) m) ≡ true
  unfolding get
  abaixo-get [] x xs h = refl
  abaixo-get ((k, b) ∷ m) x xs h =
      let (a, r) = ambos (antes nome k (x ∷ xs)) (abaixo m (x ∷ xs)) h in
      let d = text_lt-equal k (nome x) (ambos (text_lt k (nome x)) (antes nome k xs) a).0 in
      rw (outra k (nome x) d) (abaixo-get m x xs r)
    where
      outra : (a b : Text) → equal a b ≡ false → equal b a ≡ false
      outra a b h = ground (arith, h, equal_iff a b, equal_iff b a)

  pub abaixo-push :
      (m : Mapa B) (x : A) (xs : List A)
      → abaixo m (x ∷ xs) ≡ true
      → antes nome (nome x) xs ≡ true
      → abaixo (m ++ par x ∷ []) xs ≡ true
  abaixo-push [] x xs h a = rw a refl
  abaixo-push ((k, b) ∷ m) x xs h a =
      let (p, r) = ambos (antes nome k (x ∷ xs)) (abaixo m (x ∷ xs)) h in
      let (_, q) = ambos (text_lt k (nome x)) (antes nome k xs) p in
      rw (q, abaixo-push m x xs r a) refl

-- The lines of one and of those behind it.
linhas-split :
    {A : Type 0} (campos : ℕ → A → List (Text × Text)) (index : ℕ) (x : A) (xs : List A)
    (rest : List Text)
    → map linha_de (campos_todos campos index (x ∷ xs)) ++ rest
      ≡ map linha_de (campos index x) ++ (map linha_de (campos_todos campos (index + 1) xs) ++ rest)
unfolding campos_todos
linhas-split campos index x xs rest =
    ap (λ ls. ls ++ rest)
      (map-append linha_de (campos index x) (campos_todos campos (index + 1) xs))
    ∙ append_assoc (map linha_de (campos index x))
        (map linha_de (campos_todos campos (index + 1) xs)) rest

abbrev pub canal_lido : Snapshot → Text × LockedChannel
canal_lido s = par nome_do_canal trancado_canal s

abbrev pub pacote_lido : Selection → Text × LockedPackage
pacote_lido p = par nome_do_pacote trancado_pacote p

pub le_canais-Runs :
    (parse : Text → Option Url) (cs : List Snapshot) (previous : Option Text) (index : ℕ)
    (channels : Mapa LockedChannel) (rest : List Text)
    → Cada (IsChannel parse) cs
    → crescente nome_do_canal cs ≡ true
    → antes_de nome_do_canal trancado_canal previous cs ≡ true
    → abaixo nome_do_canal trancado_canal channels cs ≡ true
    → Runs
        (le_canais parse 4 (length cs) previous index channels)
        (map linha_de (campos_todos campos_do_canal index cs) ++ rest)
        (channels ++ map canal_lido cs)
        rest
unfolding le_canais campos_todos
le_canais-Runs parse [] previous index channels rest t c a b =
    Runs-same _ refl (sym (append-nil channels)) Runs-entrega
le_canais-Runs parse (s ∷ cs) previous index channels rest (p, t) c a b =
    let (d, e) = ambos (antes nome_do_canal s.config.name cs) (crescente nome_do_canal cs) c in
    Runs-same _ (linhas-split campos_do_canal index s cs rest)
      (append_assoc channels (canal_lido s ∷ []) (map canal_lido cs))
      (Runs-bind _ _
        (le_canal-Runs parse previous channels index s _
          (antes_de-em_ordem nome_do_canal trancado_canal previous s cs a)
          (abaixo-get nome_do_canal trancado_canal channels s cs b) p)
        (le_canais-Runs parse cs (some s.config.name) (index + 1) (channels ++ canal_lido s ∷ [])
          rest t e d (abaixo-push nome_do_canal trancado_canal channels s cs b d)))

pub le_pacotes-Runs :
    (channels : Mapa LockedChannel) (busca : Text → Option Snapshot)
    → ((n : Text) (s : Snapshot) → busca n ≡ some s → get n channels ≡ some (trancado_canal s))
    → (ps : List Selection) (previous : Option Text) (index : ℕ) (packages : Mapa LockedPackage)
      (rest : List Text)
    → Cada (IsSelection busca) ps
    → crescente nome_do_pacote ps ≡ true
    → antes_de nome_do_pacote trancado_pacote previous ps ≡ true
    → abaixo nome_do_pacote trancado_pacote packages ps ≡ true
    → Runs
        (le_pacotes 4 (length ps) previous channels index packages)
        (map linha_de (campos_todos campos_do_pacote index ps) ++ rest)
        (packages ++ map pacote_lido ps)
        rest
unfolding le_pacotes campos_todos
le_pacotes-Runs channels busca g [] previous index packages rest t c a b =
    Runs-same _ refl (sym (append-nil packages)) Runs-entrega
le_pacotes-Runs channels busca g (p ∷ ps) previous index packages rest (i, t) c a b =
    let (d, e) = ambos (antes nome_do_pacote p.name ps) (crescente nome_do_pacote ps) c in
    Runs-same _ (linhas-split campos_do_pacote index p ps rest)
      (append_assoc packages (pacote_lido p ∷ []) (map pacote_lido ps))
      (Runs-bind _ _
        (le_pacote-Runs previous channels packages index p busca _
          (antes_de-em_ordem nome_do_pacote trancado_pacote previous p ps a)
          (abaixo-get nome_do_pacote trancado_pacote packages p ps b) i (g p.channel i.s i.canal))
        (le_pacotes-Runs channels busca g ps (some p.name) (index + 1)
          (packages ++ pacote_lido p ∷ []) rest t e d
          (abaixo-push nome_do_pacote trancado_pacote packages p ps b d)))
