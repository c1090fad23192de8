-- ===== src/Rotation/Calls.antt =====
-- What the calls of the rotation keep, whichever of them fails.
use mathlib.Core.Option.{some-injective}
use mathlib.Core.Path.{subst}
use distropica.Effects.Triple.{Ends, Triple, >>=-Triple, Triple-mono}
use distropica.Effects.{Outcome, ok, err, ◌>>=◌, ◌>>◌}
use distropica.Prelude.{ℕ, ◌≡◌, refl, Option, none, some, List, [], ◌∷◌}
use distropica.Rotation.{
  Raiz, Mundo, Erro, M, aceita, chamada_com, chamada, atomica, neutra, ignora, medida_com, medida,
}

-- A predicate on the ESP, as one on the state.
abbrev pub Na : (Raiz → Type 0) → Mundo → Type 0
Na P m = P m.raiz

abbrev pub Chamando : (Raiz → Type 0) → M (Unit {0}) → (Raiz → Type 0) → (Raiz → Type 0) → Type 0
Chamando P m Q R = Triple (Na P) m (λ _. Na Q) (λ _. Na R)

module _ (P Q R : Raiz → Type 0) (efeito : Raiz → Option Raiz) where
  aceita-Ends :
      (o : Option Raiz) (m : Mundo)
      → ((r : Raiz) → o ≡ some r → Q r)
      → R m.raiz
      → Ends (λ _. Na Q) (λ _. Na R) (aceita o m)
  aceita-Ends none m q r = r
  aceita-Ends (some x) m q r = q x refl

  chamada_com-Ends :
      (parcial : ℕ → Raiz → Raiz) (fs : List (Option ℕ)) (m : Mundo)
      → ((r : Raiz) → efeito m.raiz ≡ some r → Q r)
      → R m.raiz
      → ((k : ℕ) → R (parcial k m.raiz))
      → Ends (λ _. Na Q) (λ _. Na R) (chamada_com fs efeito parcial m)
  chamada_com-Ends parcial [] m q r k = aceita-Ends (efeito m.raiz) m q r
  chamada_com-Ends parcial (none ∷ fs) m q r k =
      aceita-Ends (efeito m.raiz) (record m { falhas = fs }) q r
  chamada_com-Ends parcial (some n ∷ fs) m q r k = k n

  -- A call ends in `Q` if its effect leads there, and a failure in `R` if doing nothing and
  -- doing a part of it lead there.
  pub chamada_lem :
      (parcial : ℕ → Raiz → Raiz)
      → ((r r' : Raiz) → P r → efeito r ≡ some r' → Q r')
      → ((r : Raiz) → P r → R r)
      → ((k : ℕ) (r : Raiz) → P r → R (parcial k r))
      → Chamando P (chamada efeito parcial) Q R
  unfolding chamada
  chamada_lem parcial q r k m p =
      chamada_com-Ends parcial m.falhas m (λ x e. q m.raiz x p e) (r m.raiz p) (λ n. k n m.raiz p)

  pub atomica_lem :
      ((r r' : Raiz) → P r → efeito r ≡ some r' → Q r')
      → ((r : Raiz) → P r → R r)
      → Chamando P (atomica efeito) Q R
  atomica_lem q r = chamada_lem (λ _ x. x) q r (λ _ x p. r x p)

pub neutra_lem : (P R : Raiz → Type 0) → ((r : Raiz) → P r → R r) → Chamando P neutra P R
neutra_lem P R r = atomica_lem P P R (λ x. some x) (λ x x' p e. subst P (some-injective x x' e) p) r

-- What follows a reading of metadata, whichever of its two answers it has.
module _ {A B : Type 0} (P R : Raiz → Type 0) (Q : B → Mundo → Type 0) (lido padrao : A) where
  medida_com-Ends :
      (f : A → M B) (fs : List (Option ℕ)) (m : Mundo)
      → Triple (Na P) (f lido) Q (λ _. Na R)
      → Triple (Na P) (f padrao) Q (λ _. Na R)
      → P m.raiz
      → Ends Q (λ _. Na R) ((medida_com fs lido padrao >>= f) m)
  unfolding ◌>>=◌
  medida_com-Ends f [] m h k p = h m p
  medida_com-Ends f (none ∷ fs) m h k p = h (record m { falhas = fs }) p
  medida_com-Ends f (some n ∷ fs) m h k p = k (record m { falhas = fs }) p

  pub medida_lem :
      (f : A → M B)
      → Triple (Na P) (f lido) Q (λ _. Na R)
      → Triple (Na P) (f padrao) Q (λ _. Na R)
      → Triple (Na P) (medida lido padrao >>= f) Q (λ _. Na R)
  unfolding medida ◌>>=◌
  medida_lem f h k m p = unfold ◌>>=◌ in medida_com-Ends f m.falhas m h k p

-- One call after another, with the failures of both in `R`.
pub depois :
    {A : Type 0} (P Q : Raiz → Type 0) (Q' : A → Mundo → Type 0) (R : Raiz → Type 0)
    (m : M (Unit {0})) (n : M A)
    → Chamando P m Q R
    → Triple (Na Q) n Q' (λ _. Na R)
    → Triple (Na P) (m >> n) Q' (λ _. Na R)
depois P Q Q' R m n h k = >>=-Triple (Na P) (λ _. Na Q) Q' (λ _. Na R) m (λ _. n) h (λ _. k)

ends_ignora :
    (R : Raiz → Type 0) (r : Outcome Erro (Unit {0}) × Mundo)
    → Ends (λ _. Na R) (λ _. Na R) r
    → R r.1.raiz
ends_ignora R (ok _, s) h = h
ends_ignora R (err _, s) h = h

pub ignora_lem :
    (P R : Raiz → Type 0) (m : M (Unit {0})) → Chamando P m P P → Chamando P (ignora m) P R
unfolding ignora
ignora_lem P R m h s p = ends_ignora P (m s) (h s p)

pub afrouxa :
    {A : Type 0} (P : Raiz → Type 0) (Q : A → Mundo → Type 0) (R R' : Raiz → Type 0) (m : M A)
    → ((r : Raiz) → R r → R' r)
    → Triple (Na P) m Q (λ _. Na R)
    → Triple (Na P) m Q (λ _. Na R')
afrouxa P Q R R' m x =
    Triple-mono Q Q (λ _. Na R) (λ _. Na R') (Na P) m (λ a s q. q) (λ _ s. x s.raiz)
