-- ===== src/Channel/Lock/Proven.antt =====
-- What `verify_lock_provenance` of minitrue/src/channel.rs confirms of a recorded installation.
use distropica.Channel.Index.Accepted.{confere-eq}
use distropica.Channel.Lock.Accepted.{Regra, IsClosed, do_canal-eq, parse_lock-IsLock}
use distropica.Channel.Lock.Ordered.{Todos-get}
use distropica.Channel.Lock.Provenance.{
  RecordedProvenance, iguais, mesmo, nao_diverge, do_pacote, mesma_proveniencia,
  verify_lock_provenance,
}
use distropica.Channel.Lock.{
  Url, LockedChannel, LockedPackage, get, ParsedLock, presente, parse_lock,
}
use distropica.Channel.{trust_str}
use distropica.Effects.Results.{Gives, Gives-bind}
use distropica.Effects.{ok}
use distropica.Prelude.{
  ◌≡◌, refl, sym, ◌∙◌, ap, subst, ◌⊎◌, inl, inr, Bool, true, false, Option, none, some, equal_iff,
  Bytes, arith,
}
use distropica.Text.Pieces.{texto}
use distropica.Text.Utf16.{Text}

-- What a record says of the index that its package came from.
abbrev pub DeIndice : RecordedProvenance → Type 0
DeIndice r =
    ((r.index_format ≡ 4) × (presente r.producer_plan_lock_sha256 ≡ true))
    ⊎ ((r.index_format ≡ 3)
        × (presente r.producer_plan_lock_sha256 ≡ true)
        × (r.trust ≡ texto "builder")
        × (r.release_root ≡ false))
    ⊎ ((r.index_format ≡ 2)
        × (r.producer_plan_lock_sha256 ≡ none)
        × (r.trust ≡ texto "builder")
        × (r.release_root ≡ false))

-- A hash that is asked for, if there is one, is the one that was found.
abbrev pub Concorda : Option Text → Text → Type 0
Concorda o found = (o ≡ none) ⊎ (o ≡ some found)

pub record IsProven (l : ParsedLock) (r : RecordedProvenance) : Type 0 where
  pub p : LockedPackage
  pub c : LockedChannel
  pub found : get r.package_name l.packages ≡ some p
  pub channel : get r.channel l.channels ≡ some c
  pub versao : (p.version ≡ r.version) × (p.recipe_fingerprint ≡ r.recipe_fingerprint)
  pub artefato : (p.path ≡ r.path) × (p.artifact_sha256 ≡ r.artifact_sha256)
  pub indice : (c.index_sha256 ≡ r.index_sha256) × (c.release_root ≡ r.release_root)
  pub reprocorr :
      Concorda p.reprocorr r.artifact_reprocorr × Concorda r.recipe_reprocorr r.artifact_reprocorr
  pub origem : DeIndice r

nao_diverge-Concorda :
    (o : Option Text) (found : Text) → nao_diverge o found ≡ true → Concorda o found
nao_diverge-Concorda none found h = inl refl
nao_diverge-Concorda (some expected) found h = inr (ap some ((equal_iff expected found).0 h))

iguais-eq : (a b : Option Text) → iguais a b ≡ true → a ≡ b
iguais-eq none none h = refl
iguais-eq none (some b) h = cc (h)
iguais-eq (some a) none h = cc (h)
iguais-eq (some a) (some b) h = ap some ((equal_iff a b).0 h)

mesmo-eq : (a b : Bool) → mesmo a b ≡ true → a ≡ b
mesmo-eq true true h = refl
mesmo-eq true false h = cc (h)
mesmo-eq false true h = cc (h)
mesmo-eq false false h = refl

do_pacote-eq : (o : Option LockedPackage) (p : LockedPackage) → do_pacote o ≡ ok p → o ≡ some p
do_pacote-eq none p h = cc (h)
do_pacote-eq (some q) p h = cc (h)

-- The fields that the test compares.
record Confere (p : LockedPackage) (c : LockedChannel) (r : RecordedProvenance) : Type 0 where
  pub version : p.version ≡ r.version
  pub fingerprint : p.recipe_fingerprint ≡ r.recipe_fingerprint
  pub channel : p.channel ≡ r.channel
  pub path : p.path ≡ r.path
  pub trust : trust_str p.trust ≡ r.trust
  pub artifact : p.artifact_sha256 ≡ r.artifact_sha256
  pub index : c.index_sha256 ≡ r.index_sha256
  pub root : c.release_root ≡ r.release_root
  pub format : p.index_format ≡ r.index_format
  pub producer : p.producer_plan_lock_sha256 ≡ r.producer_plan_lock_sha256

mesma_proveniencia-Confere :
    (p : LockedPackage) (c : LockedChannel) (r : RecordedProvenance)
    → mesma_proveniencia p c r ≡ true
    → Confere p c r
unfolding mesma_proveniencia
mesma_proveniencia-Confere p c r h = record {
  version = (equal_iff p.version r.version).0 (ground (arith, h));
  fingerprint = (equal_iff p.recipe_fingerprint r.recipe_fingerprint).0 (ground (arith, h));
  channel = (equal_iff p.channel r.channel).0 (ground (arith, h));
  path = (equal_iff p.path r.path).0 (ground (arith, h));
  trust = (equal_iff (trust_str p.trust) r.trust).0 (ground (arith, h));
  artifact = (equal_iff p.artifact_sha256 r.artifact_sha256).0 (ground (arith, h));
  index = (equal_iff c.index_sha256 r.index_sha256).0 (ground (arith, h));
  root = mesmo-eq c.release_root r.release_root (ground (arith, h));
  format = ground (arith, h);
  producer = iguais-eq p.producer_plan_lock_sha256 r.producer_plan_lock_sha256 (ground (arith, h));
}

origem_de :
    (p : LockedPackage) (c : LockedChannel) (r : RecordedProvenance)
    → Confere p c r
    → Regra p c
    → DeIndice r
origem_de p c r m (inl (f, _, q)) = inl (sym m.format ∙ f, ap presente (sym m.producer) ∙ q)
origem_de p c r m (inr (inl (f, _, q, t, b))) = inr (
    inl (
      sym m.format ∙ f,
      ap presente (sym m.producer) ∙ q,
      sym m.trust ∙ ap trust_str t,
      sym m.root ∙ b,
    ))
origem_de p c r m (inr (inr (f, q, t, b))) =
    inr (inr (sym m.format ∙ f, sym m.producer ∙ q, sym m.trust ∙ ap trust_str t, sym m.root ∙ b))

unico : (o : Option LockedChannel) (a b : LockedChannel) → o ≡ some a → o ≡ some b → a ≡ b
unico o a b h k = cc

confirmado :
    (parse : Text → Option Url) (bytes : Bytes) (r : RecordedProvenance)
    → Gives
        (verify_lock_provenance parse bytes r)
        λ _. (l : ParsedLock) × (parse_lock parse bytes ≡ ok l) × IsProven l r
unfolding verify_lock_provenance
confirmado parse bytes r = Gives-bind _ _ λ l hl. Gives-bind _ _ λ p hp. Gives-bind _ _ λ c hc.
    Gives-bind _ _ λ u1 m. Gives-bind _ _ λ u2 d. record {
      holds = λ u3 e.
          let found = do_pacote-eq _ p hp in
          let campos = mesma_proveniencia-Confere p c r (confere-eq _ m) in
          let closed =
            Todos-get (IsClosed l.channels) l.packages r.package_name p
              (parse_lock-IsLock parse bytes l hl).fechados found in
          (
            l,
            hl,
            record {
              p = p;
              c = c;
              found = found;
              channel = ap (λ k. get k l.channels) (sym campos.channel) ∙ do_canal-eq _ c hc;
              versao = (campos.version, campos.fingerprint);
              artefato = (campos.path, campos.artifact);
              indice = (campos.index, campos.root);
              reprocorr = (
                nao_diverge-Concorda _ _ (confere-eq _ d),
                nao_diverge-Concorda _ _ (confere-eq _ e),
              );
              origem = origem_de p c r campos (
                  subst (Regra p) (unico _ closed.c c closed.locked (do_canal-eq _ c hc))
                    closed.regra);
            },
          );
    }

-- A record that the lock of its operation confirms is of a package and a channel that this lock
-- holds, with the same version, recipe, path and hashes, and no reproduction hash of the lock or
-- of the recipe differs from that of the artifact; what it says of its index is in order: the
-- current format with the plan that produced it, or a legacy one of a builder's channel that is no
-- release.
pub verify_lock_provenance-IsProven :
    (parse : Text → Option Url) (bytes : Bytes) (r : RecordedProvenance)
    → verify_lock_provenance parse bytes r ≡ ok tt
    → (l : ParsedLock) × (parse_lock parse bytes ≡ ok l) × IsProven l r
verify_lock_provenance-IsProven parse bytes r h = (confirmado parse bytes r).holds tt h
