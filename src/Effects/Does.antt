-- ===== src/Effects/Does.antt =====
-- What a run from a given state ends in, for functions that can fail: a rule for each way to begin.
use distropica.Effects.Sealed.{entrega, escolhe, resultado}
use distropica.Effects.{Outcome, ok, err, Exec, pure, gets, guard, from_option, continue, ◌>>=◌}
use distropica.Prelude.{◌≡◌, refl, Bool, true, false, Option, none, some}

pub record Does {S E A : Type 0} (m : Exec S E A) (s : S) (Q : Outcome E A → S → Type 0)
    : Type 0 where
  pub holds : Q (m s).0 (m s).1

module _ {S E A : Type 0} {Q : Outcome E A → S → Type 0} {s : S} where
  pub Does-pure : (a : A) → Q (ok a) s → Does (pure a) s Q
  Does-pure a q = record { holds = q }

  pub Does-gets :
      {B : Type 0} (g : S → B) (k : B → Exec S E A) → Does (k (g s)) s Q → Does (gets g >>= k) s Q
  unfolding ◌>>=◌
  Does-gets g k d = record { holds = d.holds }

  pub Does-guard :
      (b : Bool) (e : E) (k : Unit {0} → Exec S E A)
      → (b ≡ false → Q (err e) s)
      → (b ≡ true → Does (k tt) s Q)
      → Does (guard b e >>= k) s Q
  unfolding ◌>>=◌
  Does-guard true e k x d = record { holds = (d refl).holds }
  Does-guard false e k x d = record { holds = x refl }

  pub Does-from_option :
      {B : Type 0} (e : E) (o : Option B) (k : B → Exec S E A)
      → (o ≡ none → Q (err e) s)
      → ((b : B) → o ≡ some b → Does (k b) s Q)
      → Does (from_option e o >>= k) s Q
  unfolding ◌>>=◌
  Does-from_option e none k x d = record { holds = x refl }
  Does-from_option e (some b) k x d = record { holds = (d b refl).holds }

module _ {S E A B : Type 0} (Q : Outcome E A → S → Type 0) (k : B → Exec S E A) where
  -- What is left to show once the first part has ended.
  abbrev pub After : Outcome E B × S → Type 0
  After (ok b, s) = Does (k b) s Q
  After (err e, s) = Q (err e) s

  pub Does-then :
      (m : Exec S E B) (s : S) (r : Outcome E B × S) → m s ≡ r → After r → Does (m >>= k) s Q
  unfolding ◌>>=◌
  Does-then m s (ok b, s') e d = record { holds = rw e d.holds }
  Does-then m s (err x, s') e d = record { holds = rw e d }

-- The same from a rule for the first part.
module _ {S E A B : Type 0} {Q : Outcome E A → S → Type 0} where
  Does-after :
      (R : Outcome E B → S → Type 0) (k : B → Exec S E A) (r : Outcome E B × S)
      → R r.0 r.1
      → ((b : B) (s' : S) → R (ok b) s' → Does (k b) s' Q)
      → ((e : E) (s' : S) → R (err e) s' → Q (err e) s')
      → Q (continue r.0 k r.1).0 (continue r.0 k r.1).1
  Does-after R k (ok b, s') h f g = (f b s' h).holds
  Does-after R k (err e, s') h f g = g e s' h

  pub Does-bind :
      (R : Outcome E B → S → Type 0) (m : Exec S E B) (k : B → Exec S E A) (s : S)
      → Does m s R
      → ((b : B) (s' : S) → R (ok b) s' → Does (k b) s' Q)
      → ((e : E) (s' : S) → R (err e) s' → Q (err e) s')
      → Does (m >>= k) s Q
  unfolding ◌>>=◌
  Does-bind R m k s d f g = record { holds = Does-after R k (m s) d.holds f g }

module _ {S E A : Type 0} {Q : Outcome E A → S → Type 0} {s : S} where
  pub Does-entrega : (a : A) → Q (ok a) s → Does (entrega a) s Q
  unfolding entrega
  Does-entrega a q = record { holds = q }

  pub Does-escolhe :
      (b : Bool) (m m' : Exec S E A)
      → (b ≡ true → Does m s Q)
      → (b ≡ false → Does m' s Q)
      → Does (escolhe b m m') s Q
  unfolding escolhe
  Does-escolhe true m m' h h' = record { holds = (h refl).holds }
  Does-escolhe false m m' h h' = record { holds = (h' refl).holds }

  pub Does-resultado :
      {B : Type 0} (o : Outcome E B) (k : B → Exec S E A)
      → ((e : E) → o ≡ err e → Q (err e) s)
      → ((b : B) → o ≡ ok b → Does (k b) s Q)
      → Does (resultado o >>= k) s Q
  unfolding ◌>>=◌ resultado
  Does-resultado (ok b) k g d = record { holds = (d b refl).holds }
  Does-resultado (err e) k g d = record { holds = g e refl }
