-- ===== src/Channel/Catalog/Confirmed.antt =====
-- The lock of `Catalog::finish` under `verify_lock_provenance` (minitrue/src/channel.rs).
use distropica.Channel.Catalog.Loops.{Cada, get-acha}
use distropica.Channel.Catalog.Read.{IsSelection, trancado_canal, trancado_pacote}
use distropica.Channel.Catalog.RoundTrip.{parse_lock-lock_body}
use distropica.Channel.Catalog.Selected.{IsReady, IsReady-IsCatalog}
use distropica.Channel.Catalog.Sorted.{acha, acha-sort}
use distropica.Channel.Catalog.Used.{EmUso, todos-EmUso, acha-canais_de}
use distropica.Channel.Catalog.{
  Snapshot, Selection, Catalog, Resolution, nome_do_canal, nome_do_pacote, sort_by_name, canais_de,
  lock_body, valores, com_lock, sem_selecoes, finish,
}
use distropica.Channel.Index.Accepted.{Gives-if}
use distropica.Channel.Lock.Proven.{Concorda}
use distropica.Channel.Index.Accepted.{Gives-if}
use distropica.Channel.Lock.Provenance.{
  RecordedProvenance, iguais, mesmo, nao_diverge, mesma_proveniencia, verify_lock_provenance,
}
use distropica.Channel.Lock.{Url, Mapa, get}
use distropica.Channel.{trust_str, confere}
use distropica.Effects.Results.{◌>>=◌, Gives, Gives-ok, Gives-bind}
use distropica.Effects.{ok}
use distropica.Prelude.{
  ◌≡◌, refl, sym, ◌∙◌, ap, subst, ◌⊎◌, inl, inr, Bool, true, false, Option, none, some, List, [],
  ◌∷◌, map, ◌==◌, ==_iff, equal, equal_iff, length, arith, Bool-cases, Bytes,
}
use distropica.Text.Utf16.{Text}
use distropica.Text.Utf8.{utf8}

-- What an installation records of its selection, of the reproduction hash that its recipe pins, if
-- it pins one, and of the artifact that it installed.
abbrev pub registro : Selection → Option Text → Text → RecordedProvenance
registro p reprocorr artifact_reprocorr = record {
  package_name = p.name;
  version = p.version;
  recipe_fingerprint = p.recipe_fingerprint;
  channel = p.channel;
  path = p.path;
  trust = trust_str p.trust;
  artifact_sha256 = p.artifact_sha256;
  index_sha256 = p.index_sha256;
  artifact_reprocorr = artifact_reprocorr;
  recipe_reprocorr = reprocorr;
  index_format = p.index_format;
  release_root = p.release_root;
  producer_plan_lock_sha256 = p.producer_plan_lock_sha256;
}

igual : (t : Text) → equal t t ≡ true
igual t = (equal_iff t t).1 refl

mesmo_refl : (b : Bool) → mesmo b b ≡ true
mesmo_refl true = refl
mesmo_refl false = refl

iguais_refl : (o : Option Text) → iguais o o ≡ true
iguais_refl none = refl
iguais_refl (some t) = igual t

Concorda-nao_diverge : (o : Option Text) (t : Text) → Concorda o t → nao_diverge o t ≡ true
Concorda-nao_diverge o t (inl e) = rw e refl
Concorda-nao_diverge o t (inr e) = rw e (igual t)

mesma_proveniencia-registro :
    (p : Selection) (s : Snapshot) (pin : Option Text) (x : Text)
    → p.index_sha256 ≡ s.index_sha256
    → p.release_root ≡ s.release_root
    → mesma_proveniencia (trancado_pacote p) (trancado_canal s) (registro p pin x) ≡ true
unfolding mesma_proveniencia
mesma_proveniencia-registro p s pin x i r =
    rw
      (
        i,
        r,
        igual p.version,
        igual p.recipe_fingerprint,
        igual p.channel,
        igual p.path,
        igual (trust_str p.trust),
        igual p.artifact_sha256,
        igual s.index_sha256,
        mesmo_refl s.release_root,
        (==_iff p.index_format p.index_format).1 refl,
      )
      (iguais_refl p.producer_plan_lock_sha256)

Cada-acha :
    {A : Type 0} (P : A → Type 0) (nome : A → Text) (n : Text) (xs : List A) (x : A)
    → acha nome n xs ≡ some x
    → Cada P xs
    → P x
unfolding acha
Cada-acha P nome n [] x h c = absurd (nunca h)
  where
    nunca : none ≡ some x → ⊥
    nunca h = cc (h)
Cada-acha P nome n (y ∷ ys) x h (p, c) = elim (Bool-cases (equal n (nome y))) [
  | inl b ↦ subst P (cc (h, b)) p
  | inr b ↦ Cada-acha P nome n ys x (ground (arith, h, b)) c
]

nome-acha :
    (n : Text) (ps : List Selection) (p : Selection)
    → acha nome_do_pacote n ps ≡ some p
    → p.name ≡ n
unfolding acha
nome-acha n [] p h = cc (h)
nome-acha n (q ∷ ps) p h = elim (Bool-cases (equal n q.name)) [
  | inl b ↦ let e : p ≡ q = cc (h, b) in ap nome_do_pacote e ∙ sym ((equal_iff n q.name).0 b)
  | inr b ↦ nome-acha n ps p (ground (arith, h, b))
]

acha-cheia :
    (n : Text) (ps : List Selection) (p : Selection)
    → acha nome_do_pacote n ps ≡ some p
    → (length ps == 0) ≡ false
unfolding acha
acha-cheia n [] p h = cc (h)
acha-cheia n (q ∷ ps) p h = ground arith

-- A selection of the result is one of the catalog, with the hash of the lock.
get-com_lock :
    (hash n : Text) (m : Mapa Selection) (p : Selection)
    → get n (com_lock hash m) ≡ some p
    → (q : Selection) × (acha nome_do_pacote n (valores m) ≡ some q)
      × (p ≡ record q { lock_sha256 = hash })
unfolding get com_lock valores acha
get-com_lock hash n [] p h = absurd (nunca h)
  where
    nunca : none ≡ some p → ⊥
    nunca h = cc (h)
get-com_lock hash n ((k, q) ∷ m) p h = elim (Bool-cases (equal n q.name)) [
  | inl b ↦ (q, rw b refl, cc (h, b))
  | inr b ↦ let (r, e, f) = get-com_lock hash n m p (ground (arith, h, b)) in (r, rw b e, f)
]

-- What a success of `finish` is.
abbrev IsFinished : (Bytes → Text) → Catalog → Resolution → Type 0
IsFinished sha256 c r =
    (r.selections ≡ [])
    ⊎ ((body : Text) × (lock_body c.snapshots (valores c.selections) ≡ ok body)
        × (r.lock_body ≡ some (utf8 body))
        × (r.selections ≡ com_lock (sha256 (utf8 body)) c.selections))

finish-IsFinished :
    (sha256 : Bytes → Text) (c : Catalog) → Gives (finish sha256 c) (IsFinished sha256 c)
unfolding finish
finish-IsFinished sha256 c =
    Gives-if (sem_selecoes c.selections) (Gives-ok _ (inl refl))
      (Gives-bind _ _ λ body h. Gives-ok _ (inr (body, h, refl, refl)))

module _ (parse : Text → Option Url) (c : Catalog) (r : IsReady parse c) where
  -- The lock confirms a selection of the catalog.
  confirma :
      (body : Text) (n x : Text) (pin : Option Text) (p : Selection)
      → lock_body c.snapshots (valores c.selections) ≡ ok body
      → acha nome_do_pacote n (valores c.selections) ≡ some p
      → nao_diverge p.index_reprocorr x ≡ true
      → nao_diverge pin x ≡ true
      → verify_lock_provenance parse (utf8 body) (registro p pin x) ≡ ok tt
  unfolding verify_lock_provenance ◌>>=◌ confere
  confirma body n x pin p h a d f =
      let i =
        Cada-acha (IsSelection λ k. acha nome_do_canal k c.snapshots) nome_do_pacote n
          (valores c.selections) p a r.pacotes in
      let u =
        Cada-acha (EmUso (map (λ q. q.channel) (valores c.selections))) nome_do_pacote n
          (valores c.selections) p a (todos-EmUso (valores c.selections)) in
      let s = i.s in
      let ca =
        get-acha nome_do_canal trancado_canal p.channel
          (canais_de c.snapshots (valores c.selections)) s
          (acha-canais_de c.snapshots (valores c.selections) r.nomes p.channel u ∙ i.canal) in
      let pa =
        get-acha nome_do_pacote trancado_pacote p.name
          (sort_by_name nome_do_pacote (valores c.selections)) p
          (acha-sort nome_do_pacote p.name (valores c.selections) r.unicos
            ∙ ap (λ k. acha nome_do_pacote k (valores c.selections)) (nome-acha n _ p a)
            ∙ a) in
      rw
        (
          parse_lock-lock_body parse c.snapshots (valores c.selections) body
              (IsReady-IsCatalog parse c r) (acha-cheia n _ p a) h,
          pa,
          ca,
          mesma_proveniencia-registro p s pin x i.indice i.raiz,
          d,
        )
        (rw f refl)

abbrev index_reprocorr_de : Selection → Option Text
index_reprocorr_de p = p.index_reprocorr

-- If `finish` gives a resolution of a catalog that is ready, and the resolution has a selection for
-- a package, then it also has a lock, and with this lock `verify_lock_provenance` accepts the record
-- of that selection, for an artifact whose reproduction hash is that of the selection, if it has
-- one, and that which the recipe pins, if it pins one.
pub verify_lock_provenance-finish :
    (parse : Text → Option Url) (sha256 : Bytes → Text) (c : Catalog) (r : Resolution) (n x : Text)
    (pin : Option Text) (p : Selection)
    → IsReady parse c
    → finish sha256 c ≡ ok r
    → get n r.selections ≡ some p
    → Concorda p.index_reprocorr x
    → Concorda pin x
    → (body : Bytes) × (r.lock_body ≡ some body)
      × (verify_lock_provenance parse body (registro p pin x) ≡ ok tt)
unfolding get
verify_lock_provenance-finish parse sha256 c r n x pin p i h g d f =
    elim ((finish-IsFinished sha256 c).holds r h) [
      | inl e ↦ cc (g, ap (get n) e)
      | inr (body, l, b, m) ↦
          let (q, a, e) =
            get-com_lock (sha256 (utf8 body)) n c.selections p (ap (get n) (sym m) ∙ g) in
          let o =
            Concorda-nao_diverge q.index_reprocorr x
              (subst (λ (o : Option Text). Concorda o x) (ap index_reprocorr_de e) d) in
          (
            utf8 body,
            b,
            ap (λ s. verify_lock_provenance parse (utf8 body) (registro s pin x)) e
                ∙ confirma parse c i body n x pin q l a o (Concorda-nao_diverge pin x f),
          )
    ]
