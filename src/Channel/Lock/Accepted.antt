-- ===== src/Channel/Lock/Accepted.antt =====
-- What a lock holds that `parse_lock` of minitrue/src/channel.rs accepts.
use distropica.Channel.Index.Accepted.{confere-eq}
use distropica.Channel.Lock.Ordered.{ascendem, Todos, Lidos, Lidos-nil, Lidos-push}
use distropica.Channel.Lock.{
  Url, exige_que, em_ordem, LockedChannel, LockedPackage, Mapa, get, ParsedLock, ausente, presente,
  le_canal, le_canais, menos_traco, vazio_ou_traco, le_produtor, fecha_com, le_pacote, le_pacotes,
  le_lock, com_linhas, parse_lock, formato_do_indice, do_canal,
}
use distropica.Channel.{
  Trust, oficial, corroborado, builder, mesma_trust, lower_hex, validate_artifact_path,
}
use distropica.Effects.Yields.{
  Yields, Came, Yields-bind, Yields-entrega, Yields-escolhe, Came-resultado, Came-Yields,
}
use distropica.Effects.{ok}
use distropica.Prelude.{
  ℕ, zero, suc, ◌+◌, ◌≡◌, refl, ap, ◌⊎◌, inl, inr, Bool, true, false, not, ◌||◌, Option, none, some,
  [], ◌∷◌, ◌++◌, if◌then◌else◌, equal, equal_iff, Bytes, arith, Bool-cases, ambos,
}
use distropica.Recipe.{validate_name, validate_version}
use distropica.Plan.Live.{ends_with_lf}
use distropica.Text.Pieces.{texto}
use distropica.Text.Lines.{lines}
use distropica.Text.Trim.{is_empty, has}
use distropica.Text.Utf16.{Text}
use distropica.Text.Utf8.{utf8, utf8_of, from_utf8}

-- What the format of its index asks of a package of a channel.
abbrev pub Regra : LockedPackage → LockedChannel → Type 0
Regra p c =
    ((p.index_format ≡ 4)
      × (presente p.reprocorr ≡ true)
      × (presente p.producer_plan_lock_sha256 ≡ true))
    ⊎ ((p.index_format ≡ 3)
        × (presente p.reprocorr ≡ true)
        × (presente p.producer_plan_lock_sha256 ≡ true)
        × (p.trust ≡ builder)
        × (c.release_root ≡ false))
    ⊎ ((p.index_format ≡ 2)
        × (p.producer_plan_lock_sha256 ≡ none)
        × (p.trust ≡ builder)
        × (c.release_root ≡ false))

pub record IsClosed (channels : Mapa LockedChannel) (name : Text) (p : LockedPackage) : Type 0 where
  pub c : LockedChannel
  pub named : p.name ≡ name
  pub valid :
      (validate_name name ≡ ok tt)
      × (validate_version p.version ≡ ok tt)
      × (validate_artifact_path p.path ≡ ok tt)
  pub hashes : (lower_hex p.recipe_fingerprint ≡ true) × (lower_hex p.artifact_sha256 ≡ true)
  pub locked : get p.channel channels ≡ some c
  pub trusted : p.trust ≡ c.trust
  pub regra : Regra p c

mesma_trust-eq : (t u : Trust) → mesma_trust t u ≡ true → t ≡ u
mesma_trust-eq oficial oficial h = refl
mesma_trust-eq oficial corroborado h = cc
mesma_trust-eq oficial builder h = cc
mesma_trust-eq corroborado oficial h = cc
mesma_trust-eq corroborado corroborado h = refl
mesma_trust-eq corroborado builder h = cc
mesma_trust-eq builder oficial h = cc
mesma_trust-eq builder corroborado h = cc
mesma_trust-eq builder builder h = refl

pub do_canal-eq : (o : Option LockedChannel) (c : LockedChannel) → do_canal o ≡ ok c → o ≡ some c
do_canal-eq none c h = cc
do_canal-eq (some d) c h = cc (h)

abbrev pub DeFormato : ℕ → Type 0
DeFormato f = (f ≡ 4) ⊎ (f ≡ 3) ⊎ (f ≡ 2)

formato_do_indice-eq : (v : Text) (f : ℕ) → formato_do_indice v ≡ ok f → DeFormato f
formato_do_indice-eq v f h = elim (Bool-cases (equal v (texto "2"))) [
  | inl a ↦ inr (inr (ground (arith, h, a)))
  | inr a ↦ elim (Bool-cases (equal v (texto "3"))) [
    | inl b ↦ inr (inl (ground (arith, h, a, b)))
    | inr b ↦ inl (ground (arith, h, a, b))
  ]
]

le_produtor-Yields :
    (lock_format index : ℕ) → Yields (le_produtor lock_format index) λ (f, p). DeFormato f
unfolding le_produtor
le_produtor-Yields lock_format index =
    Yields-escolhe _ _ _
      (λ _. Yields-bind _ _ λ v _. Yields-bind _ _ λ f c. Yields-bind _ _ λ p _.
        Yields-bind _ _ λ u _.
          Yields-entrega (f, menos_traco p) (formato_do_indice-eq v f (Came-resultado _ f c)))
      (λ _. Yields-entrega (2, none) (inr (inr refl)))

texto_vazio : (v : Text) → is_empty v ≡ true → v ≡ []
unfolding is_empty
texto_vazio [] h = refl
texto_vazio (c ∷ v) h = cc (h)

-- A value for no hash is no hash.
pub lower_hex-vazio : (v : Text) → vazio_ou_traco v ≡ true → lower_hex v ≡ false
unfolding lower_hex utf8 utf8_of
lower_hex-vazio v h = elim (Bool-cases (is_empty v)) [
  | inl e ↦ ap lower_hex (texto_vazio v e)
  | inr n ↦ ap lower_hex ((equal_iff v (texto "-")).0 (ground (arith, h, n)))
]

lower_hex-presente :
    (v : Text) → lower_hex v ≡ true → presente (if vazio_ou_traco v then none else some v) ≡ true
lower_hex-presente v h = elim (Bool-cases (vazio_ou_traco v)) [
  | inl e ↦ cc (h, lower_hex-vazio v e)
  | inr n ↦ rw n refl
]

ausente-none : {A : Type 0} (o : Option A) → ausente o ≡ true → o ≡ none
ausente-none none h = refl
ausente-none (some a) h = cc (h)

-- The test of a package against its channel, for a format that is known.
fecha-Regra :
    (reprocorr : Text) (p : LockedPackage) (c : LockedChannel)
    → (lower_hex reprocorr ≡ true → presente p.reprocorr ≡ true)
    → DeFormato p.index_format
    → fecha_com reprocorr p c ≡ true
    → (p.trust ≡ c.trust) × Regra p c
unfolding fecha_com
fecha-Regra reprocorr p c g (inl e) h = (
  mesma_trust-eq p.trust c.trust (ground (arith, h)),
  inl (e, g (ground (arith, h, e)), ground (arith, h, e)),
)
fecha-Regra reprocorr p c g (inr (inl e)) h = (
  mesma_trust-eq p.trust c.trust (ground (arith, h)),
  inr (
      inl (
        e,
        g (ground (arith, h, e)),
        ground (arith, h, e),
        mesma_trust-eq p.trust builder (ground (arith, h, e)),
        ground (arith, h, e),
      )),
)
fecha-Regra reprocorr p c g (inr (inr e)) h = (
  mesma_trust-eq p.trust c.trust (ground (arith, h)),
  inr (
      inr (
        e,
        ausente-none p.producer_plan_lock_sha256 (ground (arith, h, e)),
        mesma_trust-eq p.trust builder (ground (arith, h, e)),
        ground (arith, h, e),
      )),
)

exigido : (b : Bool) (u : Unit {0}) → Came (exige_que b) u → b ≡ true
exigido b u h = confere-eq b (Came-resultado _ u h)

le_pacote-Yields :
    (lock_format : ℕ) (previous : Option Text) (channels : Mapa LockedChannel)
    (packages : Mapa LockedPackage) (index : ℕ)
    → Yields
        (le_pacote lock_format previous channels packages index)
        λ (n, p). (em_ordem previous n ≡ true) × IsClosed channels n p
unfolding le_pacote
le_pacote-Yields lock_format previous channels packages index = Yields-bind _ _ λ name _.
    Yields-bind _ _ λ u1 n. Yields-bind _ _ λ u2 o. Yields-bind _ _ λ version _.
      Yields-bind _ _ λ u3 v. Yields-bind _ _ λ fingerprint _. Yields-bind _ _ λ u4 hf.
        Yields-bind _ _ λ channel _. Yields-bind _ _ λ u5 _. Yields-bind _ _ λ path _.
          Yields-bind _ _ λ u6 c. Yields-bind _ _ λ sha256 _. Yields-bind _ _ λ u7 hs.
            Yields-bind _ _ λ reprocorr _. Yields-bind _ _ λ u8 _.
              Yields-bind _ _ λ (format, producer) f. Yields-bind _ _ λ trust_ _.
                Yields-bind _ _ λ trust _. Yields-bind _ _ λ locked l. Yields-bind _ _ λ u9 r.
                  Yields-bind _ _ λ u10 _.
                    let (t, regra) =
                      fecha-Regra reprocorr _ locked (lower_hex-presente reprocorr)
                        (Came-Yields _ _ (le_produtor-Yields lock_format index) f)
                        (exigido _ u9 r) in
                    Yields-entrega _ (
                      exigido _ u2 o,
                      record {
                        c = locked;
                        named = refl;
                        valid =
                            (Came-resultado _ u1 n, Came-resultado _ u3 v, Came-resultado _ u6 c);
                        hashes = (exigido _ u4 hf, exigido _ u7 hs);
                        locked = do_canal-eq _ locked (Came-resultado _ locked l);
                        trusted = t;
                        regra = regra;
                      },
                    )

-- A channel with a name and a hash of its index.
abbrev pub IsLocked : Text → LockedChannel → Type 0
IsLocked name c = (validate_name name ≡ ok tt) × (lower_hex c.index_sha256 ≡ true)

le_canal-Yields :
    (parse : Text → Option Url) (lock_format : ℕ) (previous : Option Text)
    (channels : Mapa LockedChannel) (index : ℕ)
    → Yields
        (le_canal parse lock_format previous channels index)
        λ (n, c). (em_ordem previous n ≡ true) × IsLocked n c
unfolding le_canal
le_canal-Yields parse lock_format previous channels index = Yields-bind _ _ λ name _.
    Yields-bind _ _ λ u1 n. Yields-bind _ _ λ u2 o. Yields-bind _ _ λ url _. Yields-bind _ _ λ u3 _.
      Yields-bind _ _ λ key_sha256 _. Yields-bind _ _ λ index_sha256 _. Yields-bind _ _ λ u4 h.
        Yields-bind _ _ λ root _. Yields-bind _ _ λ trust_ _. Yields-bind _ _ λ trust _.
          Yields-bind _ _ λ u5 _.
            Yields-entrega _
              (exigido _ u2 o, (Came-resultado _ u1 n, (ambos _ _ (exigido _ u4 h)).1))

le_canais-Yields :
    (parse : Text → Option Url) (lock_format left : ℕ) (previous : Option Text) (index : ℕ)
    (channels : Mapa LockedChannel)
    → Lidos IsLocked previous channels
    → Yields
        (le_canais parse lock_format left previous index channels)
        λ m. (p : Option Text) × Lidos IsLocked p m
unfolding le_canais
le_canais-Yields parse lock_format zero previous index channels l =
    Yields-entrega channels (previous, l)
le_canais-Yields parse lock_format (suc left) previous index channels l =
    Yields-bind _ _ λ (n, c) h.
      le_canais-Yields parse lock_format left (some n) (index + 1) (channels ++ (n, c) ∷ []) (
        Lidos-push IsLocked previous channels n c l
          (Came-Yields _ (n, c) (le_canal-Yields parse lock_format previous channels index) h))

le_pacotes-Yields :
    (lock_format left : ℕ) (previous : Option Text) (channels : Mapa LockedChannel) (index : ℕ)
    (packages : Mapa LockedPackage)
    → Lidos (IsClosed channels) previous packages
    → Yields
        (le_pacotes lock_format left previous channels index packages)
        λ m. (p : Option Text) × Lidos (IsClosed channels) p m
unfolding le_pacotes
le_pacotes-Yields lock_format zero previous channels index packages l =
    Yields-entrega packages (previous, l)
le_pacotes-Yields lock_format (suc left) previous channels index packages l =
    Yields-bind _ _ λ (n, p) h.
      le_pacotes-Yields lock_format left (some n) channels (index + 1) (packages ++ (n, p) ∷ []) (
        Lidos-push (IsClosed channels) previous packages n p l
          (Came-Yields _ (n, p) (le_pacote-Yields lock_format previous channels packages index) h))

pub record IsLock (l : ParsedLock) : Type 0 where
  pub canais : ascendem l.channels ≡ true
  pub pacotes : ascendem l.packages ≡ true
  pub trancados : Todos IsLocked l.channels
  pub fechados : Todos (IsClosed l.channels) l.packages

le_lock-Yields : (parse : Text → Option Url) → Yields (le_lock parse) IsLock
unfolding le_lock
le_lock-Yields parse = Yields-bind _ _ λ formato _. Yields-bind _ _ λ lock_format _.
    Yields-bind _ _ λ arch _. Yields-bind _ _ λ u1 _. Yields-bind _ _ λ canais _.
      Yields-bind _ _ λ n _. Yields-bind _ _ λ u2 _. Yields-bind _ _ λ channels c.
        Yields-bind _ _ λ pacotes _. Yields-bind _ _ λ k _. Yields-bind _ _ λ u3 _.
          Yields-bind _ _ λ packages p. Yields-bind _ _ λ u4 _.
            let (_, cs) =
              Came-Yields _ channels
                (le_canais-Yields parse lock_format n none 0 [] (Lidos-nil IsLocked)) c in
            let (_, ps) =
              Came-Yields _ packages
                (le_pacotes-Yields lock_format k none channels 0 [] (Lidos-nil (IsClosed channels)))
                p in
            Yields-entrega _ (record {
              canais = cs.crescente;
              pacotes = ps.crescente;
              trancados = cs.todos;
              fechados = ps.todos;
            })

com_linhas-IsLock :
    (parse : Text → Option Url) (o : Option Text) (l : ParsedLock)
    → com_linhas parse o ≡ ok l
    → IsLock l
com_linhas-IsLock parse none l h = cc (h)
com_linhas-IsLock parse (some text) l h =
    elim (Bool-cases (has 0x0d text || not (ends_with_lf text))) [
      | inl b ↦ cc (h, b)
      | inr b ↦ (le_lock-Yields parse).holds (lines text) l (ground (arith, h, b))
    ]

-- In a lock that is accepted the names of the channels ascend, and so do the names of the packages;
-- each channel has a valid name and a hash of its index; each package has a valid name, version,
-- path and hashes, names a channel of the lock and has the trust of that channel, and a package
-- of a legacy index is a builder's, in a channel that is no release, while one of the current
-- format has a reproduction hash and the hash of the plan that produced it.
pub parse_lock-IsLock :
    (parse : Text → Option Url) (bytes : Bytes) (l : ParsedLock)
    → parse_lock parse bytes ≡ ok l
    → IsLock l
unfolding parse_lock
parse_lock-IsLock parse bytes l h = com_linhas-IsLock parse (from_utf8 bytes) l (ground (arith, h))
