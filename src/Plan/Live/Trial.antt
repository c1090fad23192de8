-- ===== src/Plan/Live/Trial.antt =====
-- The `?` operator on the results of the checks of the live documents, and the rules that say what
-- a result that they give satisfies.
use distropica.Prelude.{◌≡◌, refl, Option, none, some, subst}

module _ {A B : Type 0} where
  infixl 5 ◌>>=◌
  unfoldable pub ◌>>=◌ : Option A → (A → Option B) → Option B
  none >>= f = none
  some a >>= f = f a

-- Whatever a fallible computation gives satisfies `P`.
pub record Gives {A : Type 0} (o : Option A) (P : A → Type 0) : Type 0 where
  pub holds : (a : A) → o ≡ some a → P a

module _ {A : Type 0} {P : A → Type 0} where
  pub Gives-some : (a : A) → P a → Gives (some a) P
  Gives-some a p = record { holds = λ b e. subst P (cc) p }

  pub Gives-then :
      {B : Type 0} (o : Option B) {k : B → Option A}
      → ((b : B) → o ≡ some b → Gives (k b) P)
      → Gives (o >>= k) P
  unfolding ◌>>=◌
  Gives-then none f = record { holds = λ a e. cc }
  Gives-then (some b) f = f b refl
