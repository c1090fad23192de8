-- ===== src/Attest/Verdicts.antt =====
-- The verdict against the votes, `corroboration_for` of minitrue/src/attest.rs.
use distropica.Attest.Names.{
  sem_repeticao, sem_repeticao-push, contains-sort, sem_repeticao-sort, length-sort,
  contem_nome-push, contem_nome-same,
}
use distropica.Attest.Fields.{Mapa}
use distropica.Attest.{
  Ed25519, ArtifactIdentity, Verdict, corroborated, divergence, insufficient, no_artifact, Contagem,
  contem_nome, conta, veredito, voto, conta_votos, corroboration_for, sort,
}
use distropica.Plan.Order.Names.{contains, contains-push, contains-same}
use distropica.Prelude.{
  ◌≤◌, ◌<◌, ◌≡◌, ◌≢◌, refl, sym, subst, ◌∙◌, Bool, true, false, not, ◌&&◌, ◌||◌, Option, none, some,
  List, [], ◌∷◌, leb, leb→le, if◌then◌else◌, equal, equal_iff, length, arith, Bytes,
}
use distropica.Text.Utf16.{Text}

abbrev Voto : Type 0
Voto = Option (Text × Text)

-- A vote of `n` for the artifact, and one for another.
unfoldable pub vota_por : Text → Text → Voto → Bool
vota_por artifact n none = false
vota_por artifact n (some (m, h)) = equal n m && equal h artifact

unfoldable pub vota_contra : Text → Text → Voto → Bool
vota_contra artifact n none = false
vota_contra artifact n (some (m, h)) = equal n m && not (equal h artifact)

unfoldable pub algum : (Voto → Bool) → List Voto → Bool
algum test [] = false
algum test (v ∷ vs) = test v || algum test vs

-- A pair of a name and a hash among the votes.
unfoldable pub votou : Text → Text → Voto → Bool
votou n h none = false
votou n h (some (m, g)) = equal n m && equal h g

module _ (artifact : Text) where
  unfoldable pub apura : List Voto → Contagem → Contagem
  apura [] c = c
  apura (v ∷ vs) c = apura vs (conta artifact v c)

  conta-agree :
      (n : Text) (v : Voto) (c : Contagem)
      → contains n (conta artifact v c).agree ≡ (contains n c.agree || vota_por artifact n v)
  unfolding conta vota_por
  conta-agree n none c = ground arith
  conta-agree n (some (m, h)) c =
      ground (arith, contains-push n m c.agree, contains-same n m c.agree, equal_iff n m)

  conta-diverge :
      (n : Text) (v : Voto) (c : Contagem)
      → contem_nome n (conta artifact v c).diverge
        ≡ (contem_nome n c.diverge || vota_contra artifact n v)
  unfolding conta vota_contra
  conta-diverge n none c = ground arith
  conta-diverge n (some (m, h)) c =
      ground
        (arith, contem_nome-push n m h c.diverge, contem_nome-same n m c.diverge, equal_iff n m)

  conta-sem_repeticao :
      (v : Voto) (c : Contagem)
      → sem_repeticao c.agree ≡ true
      → sem_repeticao (conta artifact v c).agree ≡ true
  unfolding conta
  conta-sem_repeticao none c h = h
  conta-sem_repeticao (some (m, g)) c h = ground (arith, sem_repeticao-push m c.agree)

  apura-agree :
      (n : Text) (vs : List Voto) (c : Contagem)
      → contains n (apura vs c).agree ≡ (contains n c.agree || algum (vota_por artifact n) vs)
  unfolding apura algum
  apura-agree n [] c = ground arith
  apura-agree n (v ∷ vs) c =
      ground (arith, apura-agree n vs (conta artifact v c), conta-agree n v c)

  apura-diverge :
      (n : Text) (vs : List Voto) (c : Contagem)
      → contem_nome n (apura vs c).diverge
        ≡ (contem_nome n c.diverge || algum (vota_contra artifact n) vs)
  unfolding apura algum
  apura-diverge n [] c = ground arith
  apura-diverge n (v ∷ vs) c =
      ground (arith, apura-diverge n vs (conta artifact v c), conta-diverge n v c)

  apura-sem_repeticao :
      (vs : List Voto) (c : Contagem)
      → sem_repeticao c.agree ≡ true
      → sem_repeticao (apura vs c).agree ≡ true
  unfolding apura
  apura-sem_repeticao [] c h = h
  apura-sem_repeticao (v ∷ vs) c h =
      apura-sem_repeticao vs (conta artifact v c) (conta-sem_repeticao v c h)

  -- What a verdict promises of the votes.
  abbrev pub IsVerdict : List Voto → Verdict → Type 0
  IsVerdict vs (corroborated ns) =
      ((n : Text) → algum (vota_contra artifact n) vs ≡ false)
      × ((n : Text) → contains n ns ≡ algum (vota_por artifact n) vs)
      × (sem_repeticao ns ≡ true)
      × (2 ≤ length ns)
  IsVerdict vs (divergence ds) =
      (ds ≢ []) × ((n : Text) → contem_nome n ds ≡ algum (vota_contra artifact n) vs)
  IsVerdict vs (insufficient k) =
      ((n : Text) → algum (vota_contra artifact n) vs ≡ false)
      × (k < 2)
      × ((ns : List Text) × (length ns ≡ k)
          × (sem_repeticao ns ≡ true)
          × ((n : Text) → contains n ns ≡ algum (vota_por artifact n) vs))
  IsVerdict vs no_artifact = true ≡ false

  veredito-IsVerdict :
      (vs : List Voto) (a : List Text) (d : List (Text × Text))
      → ((n : Text) → contains n a ≡ algum (vota_por artifact n) vs)
      → ((n : Text) → contem_nome n d ≡ algum (vota_contra artifact n) vs)
      → sem_repeticao a ≡ true
      → IsVerdict vs (veredito (record { agree = a; diverge = d }))
  unfolding veredito contem_nome
  veredito-IsVerdict vs a (x ∷ d) ha hd s = ((λ e. cc), hd)
  veredito-IsVerdict vs a [] ha hd s = de_dois (leb 2 (length a)) refl
    where
      de_dois :
          (b : Bool)
          → leb 2 (length a) ≡ b
          → IsVerdict vs (if b then corroborated (sort a) else insufficient (length a))
      de_dois true e = (
        (λ n. sym (hd n)),
        (λ n. contains-sort n a ∙ ha n),
        sem_repeticao-sort a ∙ s,
        omega (arith, length-sort a, leb→le _ _ e),
      )
      de_dois false e = ((λ n. sym (hd n)), ground (arith, e), (a, refl, s, ha))

module _ {Secret Key : Type 0} (ed : Ed25519 Secret Key) (pkg : Text)
    (identidade : ArtifactIdentity) (trusted : Mapa) where
  -- The votes of a directory, one for each file.
  unfoldable pub votos : List (Text × Bytes) → List Voto
  votos [] = []
  votos ((name, bytes) ∷ files) = voto ed pkg identidade trusted bytes ∷ votos files

  abbrev pub votos_de : Option (List (Text × Bytes)) → List Voto
  votos_de none = []
  votos_de (some files) = votos files

  conta_votos-apura :
      (files : List (Text × Bytes)) (c : Contagem)
      → conta_votos ed pkg identidade trusted files c
        ≡ apura identidade.artifact_hash (votos files) c
  unfolding conta_votos apura votos
  conta_votos-apura [] c = refl
  conta_votos-apura ((name, bytes) ∷ files) c = conta_votos-apura files _

  -- The verdict is right for the votes of the files: `corroborated` if no trusted builder attests
  -- another artifact and at least two do attest this one, with exactly their names, each once;
  -- `divergence` if one attests another, with exactly the names that do; and `insufficient` with
  -- the number of builders that attest this one, if that is below two and none attests another.
  pub corroboration_for-IsVerdict :
      (files : Option (List (Text × Bytes)))
      → IsVerdict identidade.artifact_hash
          (votos_de files)
          (corroboration_for ed files pkg identidade trusted)
  unfolding corroboration_for contains contem_nome sem_repeticao algum
  corroboration_for-IsVerdict none = ((λ n. refl), omega arith, ([], refl, refl, λ n. refl))
  corroboration_for-IsVerdict (some files) =
      subst (λ c. IsVerdict identidade.artifact_hash (votos files) (veredito c))
        (sym (conta_votos-apura files _))
        (veredito-IsVerdict identidade.artifact_hash (votos files) _ _
          (λ n. apura-agree identidade.artifact_hash n (votos files) _)
          (λ n. apura-diverge identidade.artifact_hash n (votos files) _)
          (apura-sem_repeticao identidade.artifact_hash (votos files) _ refl))
