-- ===== src/Effects/Fallible.antt =====
-- `anyhow::Result` without a state: the `?` operator, `bail!` under a test, and `context` on an
-- `Option`.
use distropica.Effects.{Outcome, ok, err}
use distropica.Prelude.{Bool, true, false, Option, none, some}

module _ {E A B : Type 0} where
  infixl 5 ◌>>=◌
  abbrev pub ◌>>=◌ : Outcome E A → (A → Outcome E B) → Outcome E B
  ok a >>= f = f a
  err e >>= f = err e

module _ {E A : Type 0} where
  infixl 5 ◌>>◌
  abbrev pub ◌>>◌ : Outcome E (Unit {0}) → Outcome E A → Outcome E A
  ok _ >> n = n
  err e >> n = err e

  abbrev pub context : E → Option A → Outcome E A
  context e none = err e
  context e (some a) = ok a

module _ {E : Type 0} where
  -- `if b { bail!(e) }`.
  abbrev pub bail_if : Bool → E → Outcome E (Unit {0})
  bail_if true e = err e
  bail_if false e = ok tt
