-- ===== src/Effects/Sealed.antt =====
-- The operations on `Exec` for a model whose proofs follow the shape of the code: they compute only
-- where they are unfolded.
use distropica.Effects.{Outcome, ok, err, Exec}
use distropica.Prelude.{Bool, true, false, Option, none, some, if◌then◌else◌}

module _ {S E A : Type 0} where
  unfoldable pub entrega : A → Exec S E A
  entrega a s = (ok a, s)

  unfoldable pub resultado : Outcome E A → Exec S E A
  resultado o s = (o, s)

  unfoldable pub ou_erro : E → Option A → Exec S E A
  ou_erro e none s = (err e, s)
  ou_erro e (some a) s = (ok a, s)

  unfoldable pub escolhe : Bool → Exec S E A → Exec S E A → Exec S E A
  escolhe b m m' s = if b then m s else m' s

module _ {S E : Type 0} where
  unfoldable pub exige : Bool → E → Exec S E (Unit {0})
  exige true e s = (ok tt, s)
  exige false e s = (err e, s)
