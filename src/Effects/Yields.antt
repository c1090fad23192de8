-- ===== src/Effects/Yields.antt =====
-- What the value of a run satisfies if it ends with one, from any state: a rule for each way to
-- begin.
use distropica.Effects.Sealed.{entrega, resultado, escolhe}
use distropica.Effects.{Outcome, ok, err, Exec, continue, ◌>>=◌}
use distropica.Prelude.{◌≡◌, refl, ap, subst, Bool, true, false}

pub record Yields {S E A : Type 0} (m : Exec S E A) (P : A → Type 0) : Type 0 where
  pub holds : (s : S) (a : A) → (m s).0 ≡ ok a → P a

-- A value that a run gave.
abbrev pub Came : {S E A : Type 0} → Exec S E A → A → Type 0
Came {S} m a = (s : S) × ((m s).0 ≡ ok a)

module _ {S E A B : Type 0} {P : B → Type 0} (m : Exec S E A) (k : A → Exec S E B) where
  fim_de :
      (s : S) (r : Outcome E A × S) (b : B)
      → m s ≡ r
      → ((a : A) → Came m a → Yields (k a) P)
      → (continue r.0 k r.1).0 ≡ ok b
      → P b
  fim_de s (ok a, s') b e f h = (f a (s, ap (λ r. r.0) e)).holds s' b h
  fim_de s (err x, s') b e f h = cc

  pub Yields-bind : ((a : A) → Came m a → Yields (k a) P) → Yields (m >>= k) P
  unfolding ◌>>=◌
  Yields-bind f = record { holds = λ s b h. fim_de s (m s) b refl f h }

module _ {S E A : Type 0} {P : A → Type 0} where
  pub Yields-entrega : (a : A) → P a → Yields {S = S} {E = E} (entrega a) P
  unfolding entrega
  Yields-entrega a p = record { holds = λ s b h. subst P (cc (h)) p }

  pub Yields-escolhe :
      (b : Bool) (m m' : Exec S E A)
      → (b ≡ true → Yields m P)
      → (b ≡ false → Yields m' P)
      → Yields (escolhe b m m') P
  unfolding escolhe
  Yields-escolhe true m m' f g = record { holds = (f refl).holds }
  Yields-escolhe false m m' f g = record { holds = (g refl).holds }

  pub Yields-any : (m : Exec S E A) → ((a : A) → P a) → Yields m P
  Yields-any m f = record { holds = λ s a h. f a }

module _ {S E A : Type 0} where
  pub Came-resultado : (o : Outcome E A) (a : A) → Came {S = S} (resultado o) a → o ≡ ok a
  unfolding resultado
  Came-resultado o a (s, h) = h

  pub Came-Yields : {P : A → Type 0} (m : Exec S E A) (a : A) → Yields m P → Came m a → P a
  Came-Yields m a y (s, h) = y.holds s a h
