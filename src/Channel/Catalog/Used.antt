-- ===== src/Channel/Catalog/Used.antt =====
-- The channels that `lock_body` of minitrue/src/channel.rs names: those in use, by their names.
use distropica.Channel.Catalog.Loops.{Cada}
use distropica.Channel.Catalog.Sorted.{
  acha, tem_o_nome, distintos, crescente, acha-sort, sort-crescente,
}
use distropica.Channel.Catalog.{
  Snapshot, Selection, nome_do_canal, insere_por_nome, sort_by_name, usados, canais_de,
}
use distropica.Plan.Order.Names.{contains, text_lt}
use distropica.Prelude.{
  ◌≡◌, refl, ◌∙◌, ap, Bool, true, false, not, ◌||◌, List, [], ◌∷◌, map, if◌then◌else◌, equal,
  equal_iff, arith, Bool-cases, inl, inr, ambos, nenhum, nega,
}
use distropica.Text.Utf16.{Text}

Cada-if :
    {A : Type 0} (P : A → Type 0) (b : Bool) (xs ys : List A)
    → Cada P xs
    → Cada P ys
    → Cada P (if b then xs else ys)
Cada-if P true xs ys c d = c
Cada-if P false xs ys c d = d

module _ {A : Type 0} (P : A → Type 0) (nome : A → Text) where
  Cada-insere_por_nome :
      (x : A) (ys : List A) → P x → Cada P ys → Cada P (insere_por_nome nome x ys)
  unfolding insere_por_nome
  Cada-insere_por_nome x [] p c = (p, tt)
  Cada-insere_por_nome x (y ∷ ys) p (q, c) =
      Cada-if P (text_lt (nome y) (nome x)) (y ∷ insere_por_nome nome x ys) (x ∷ y ∷ ys)
        (q, Cada-insere_por_nome x ys p c) (p, (q, c))

  pub Cada-sort : (xs : List A) → Cada P xs → Cada P (sort_by_name nome xs)
  unfolding sort_by_name
  Cada-sort [] c = tt
  Cada-sort (x ∷ xs) (p, c) = Cada-insere_por_nome x (sort_by_name nome xs) p (Cada-sort xs c)

pub Cada-map :
    {A : Type 0} {P Q : A → Type 0} → ((x : A) → P x → Q x) → (xs : List A) → Cada P xs → Cada Q xs
Cada-map f [] c = tt
Cada-map f (x ∷ xs) (p, c) = (f x p, Cada-map f xs c)

module _ (used : List Text) where
  Cada-usados : (P : Snapshot → Type 0) (ss : List Snapshot) → Cada P ss → Cada P (usados used ss)
  unfolding usados
  Cada-usados P [] c = tt
  Cada-usados P (s ∷ ss) (p, c) =
      Cada-if P (contains s.config.name used) (s ∷ usados used ss) (usados used ss)
        (p, Cada-usados P ss c) (Cada-usados P ss c)

  tem_o_nome-usados :
      (n : Text) (ss : List Snapshot)
      → tem_o_nome nome_do_canal n ss ≡ false
      → tem_o_nome nome_do_canal n (usados used ss) ≡ false
  unfolding usados
  tem_o_nome-usados n [] h = refl
  tem_o_nome-usados n (s ∷ ss) h =
      let (a, b) = nenhum (equal n s.config.name) (tem_o_nome nome_do_canal n ss) h in
      elim (Bool-cases (contains s.config.name used)) [
        | inl u ↦ rw (u, a) (tem_o_nome-usados n ss b)
        | inr u ↦ rw u (tem_o_nome-usados n ss b)
      ]

  distintos-usados :
      (ss : List Snapshot)
      → distintos nome_do_canal ss ≡ true
      → distintos nome_do_canal (usados used ss) ≡ true
  unfolding usados
  distintos-usados [] h = refl
  distintos-usados (s ∷ ss) h =
      let (a, b) =
        ambos (not (tem_o_nome nome_do_canal s.config.name ss)) (distintos nome_do_canal ss) h in
      elim (Bool-cases (contains s.config.name used)) [
        | inl u ↦ rw (u, tem_o_nome-usados s.config.name ss (nega _ a)) (distintos-usados ss b)
        | inr u ↦ rw u (distintos-usados ss b)
      ]

  acha-usados :
      (n : Text) (ss : List Snapshot)
      → contains n used ≡ true
      → acha nome_do_canal n (usados used ss) ≡ acha nome_do_canal n ss
  unfolding usados acha
  acha-usados n [] h = refl
  acha-usados n (s ∷ ss) h = elim (Bool-cases (contains s.config.name used)) [
    | inl u ↦ rw (u, acha-usados n ss h) refl
    | inr u ↦ rw (u, acha-usados n ss h, outro n s.config.name h u) refl
  ]
    where
      outro : (a b : Text) → contains a used ≡ true → contains b used ≡ false → equal a b ≡ false
      outro a b h u = ground (arith, equal_iff a b, h, u, ap (λ x. contains x used))

-- The channel of each selection is in use.
abbrev pub EmUso : List Text → Selection → Type 0
EmUso used p = contains p.channel used ≡ true

ou_resto : (a : Bool) {b : Bool} → b ≡ true → (a || b) ≡ true
ou_resto true h = refl
ou_resto false h = h

pub todos-EmUso : (ps : List Selection) → Cada (EmUso (map (λ p. p.channel) ps)) ps
unfolding contains
todos-EmUso [] = tt
todos-EmUso (p ∷ ps) = (
  rw ((equal_iff p.channel p.channel).1 refl) refl,
  Cada-map (λ q h. ou_resto (equal q.channel p.channel) h) ps (todos-EmUso ps),
)

module _ (snapshots : List Snapshot) (selections : List Selection)
    (d : distintos nome_do_canal snapshots ≡ true) where
  abbrev em_uso : List Text
  em_uso = map (λ p. p.channel) selections

  pub acha-canais_de :
      (n : Text)
      → contains n em_uso ≡ true
      → acha nome_do_canal n (canais_de snapshots selections) ≡ acha nome_do_canal n snapshots
  unfolding canais_de
  acha-canais_de n h =
      acha-sort nome_do_canal n (usados em_uso snapshots) (distintos-usados em_uso snapshots d)
      ∙ acha-usados em_uso n snapshots h

  pub canais_de-crescente : crescente nome_do_canal (canais_de snapshots selections) ≡ true
  unfolding canais_de
  canais_de-crescente =
      sort-crescente nome_do_canal (usados em_uso snapshots) (distintos-usados em_uso snapshots d)

  pub Cada-canais_de :
      (P : Snapshot → Type 0) → Cada P snapshots → Cada P (canais_de snapshots selections)
  unfolding canais_de
  Cada-canais_de P c =
      Cada-sort P nome_do_canal (usados em_uso snapshots) (Cada-usados em_uso P snapshots c)
