-- ===== src/Effects/Results.antt =====
-- `anyhow::Result` of code that changes no state: an error is the code that the program ends with.
use distropica.Effects.{Outcome, ok, err}
use distropica.Prelude.{ℕ, ◌≡◌, refl, subst, Bool, true, false}

abbrev pub Result : Type 0 → Type 0
Result A = Outcome ℕ A

infixl 5 ◌>>=◌
unfoldable pub ◌>>=◌ : {A B : Type 0} → Result A → (A → Result B) → Result B
ok a >>= f = f a
err e >>= f = err e

unfoldable pub exige : Bool → Result (Unit {0})
exige true = ok tt
exige false = err 2

-- What a success of a chain satisfies.
pub record Gives {A : Type 0} (m : Result A) (Q : A → Type 0) : Type 0 where
  pub holds : (a : A) → m ≡ ok a → Q a

module _ {B : Type 0} {Q : B → Type 0} where
  pub Gives-ok : (b : B) → Q b → Gives (ok b) Q
  Gives-ok b q = record { holds = λ a h. subst Q (cc (h)) q }

  pub Gives-bind :
      {A : Type 0} (m : Result A) (k : A → Result B)
      → ((a : A) → m ≡ ok a → Gives (k a) Q)
      → Gives (m >>= k) Q
  unfolding ◌>>=◌
  Gives-bind (ok a) k g = record { holds = (g a refl).holds }
  Gives-bind (err e) k g = record { holds = λ a h. cc (h) }
