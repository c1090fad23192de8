-- ===== src/Effects/Runs.antt =====
-- A run that succeeds: from one state, with a value, in another; a rule for each way to begin.
use distropica.Effects.Sealed.{entrega, resultado, escolhe}
use distropica.Effects.{Outcome, ok, Exec, continue, ◌>>=◌}
use distropica.Prelude.{◌≡◌, refl, ap, ◌∙◌, true}

pub record Runs {S E A : Type 0} (m : Exec S E A) (s : S) (a : A) (s' : S) : Type 0 where
  pub ends : m s ≡ (ok a, s')

module _ {S E A B : Type 0} (m : Exec S E A) (k : A → Exec S E B) {s s' s'' : S} {a : A}
    {b : B} where
  pub Runs-bind : Runs m s a s' → Runs (k a) s' b s'' → Runs (m >>= k) s b s''
  unfolding ◌>>=◌
  Runs-bind r q = record { ends = ap (λ p. continue p.0 k p.1) r.ends ∙ q.ends }

module _ {S E A : Type 0} {s : S} where
  pub Runs-entrega : {a : A} → Runs {E = E} (entrega a) s a s
  unfolding entrega
  Runs-entrega = record { ends = refl }

  pub Runs-resultado : {o : Outcome E A} {a : A} → o ≡ ok a → Runs (resultado o) s a s
  unfolding resultado
  Runs-resultado h = record { ends = ap (λ o. (o, s)) h }

module _ {S E A : Type 0} {s s' : S} {a : A} where
  pub Runs-escolhe : (m m' : Exec S E A) → Runs m s a s' → Runs (escolhe true m m') s a s'
  unfolding escolhe
  Runs-escolhe m m' r = record { ends = r.ends }

  pub Runs-same : (m : Exec S E A) {t : S} {b : A} → s ≡ t → a ≡ b → Runs m t a s' → Runs m s b s'
  Runs-same m p q r = record { ends = ap m p ∙ r.ends ∙ ap (λ b. (ok b, s')) q }
