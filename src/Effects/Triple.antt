-- ===== src/Effects/Triple.antt =====
-- What holds after a function that can fail: one postcondition for each way to return.
use distropica.Effects.{Outcome, ok, err, Exec, ◌>>=◌}
use distropica.Prelude.{◌≡◌, refl}

module _ {S E A : Type 0} where
  abbrev pub Ends : (A → S → Type 0) → (E → S → Type 0) → Outcome E A × S → Type 0
  Ends Q R (ok a, s) = Q a s
  Ends Q R (err e, s) = R e s

  -- From a state in `P`, a success ends in `Q` and a failure in `R`.
  abbrev pub Triple : (S → Type 0) → Exec S E A → (A → S → Type 0) → (E → S → Type 0) → Type 0
  Triple P m Q R = (s : S) → P s → Ends Q R (m s)

module _ {S E A B : Type 0} where
  Ends-bind :
      (Q : A → S → Type 0) (Q' : B → S → Type 0) (R : E → S → Type 0) (r : Outcome E A × S)
      (m : Exec S E A) (s : S) (f : A → Exec S E B)
      → m s ≡ r
      → Ends Q R r
      → ((a : A) → Triple (Q a) (f a) Q' R)
      → Ends Q' R ((m >>= f) s)
  unfolding ◌>>=◌
  Ends-bind Q Q' R (ok a, s') m s f e h k = rw e (k a s' h)
  Ends-bind Q Q' R (err x, s') m s f e h k = rw e h

  pub >>=-Triple :
      (P : S → Type 0) (Q : A → S → Type 0) (Q' : B → S → Type 0) (R : E → S → Type 0)
      (m : Exec S E A) (f : A → Exec S E B)
      → Triple P m Q R
      → ((a : A) → Triple (Q a) (f a) Q' R)
      → Triple P (m >>= f) Q' R
  >>=-Triple P Q Q' R m f h k s p = Ends-bind Q Q' R (m s) m s f refl (h s p) k

module _ {S E A : Type 0} (Q Q' : A → S → Type 0) (R R' : E → S → Type 0) where
  Ends-mono :
      ((a : A) (s : S) → Q a s → Q' a s)
      → ((e : E) (s : S) → R e s → R' e s)
      → (r : Outcome E A × S) → Ends Q R r
      → Ends Q' R' r
  Ends-mono q x (ok a, s) h = q a s h
  Ends-mono q x (err e, s) h = x e s h

  pub Triple-mono :
      (P : S → Type 0) (m : Exec S E A)
      → ((a : A) (s : S) → Q a s → Q' a s)
      → ((e : E) (s : S) → R e s → R' e s)
      → Triple P m Q R
      → Triple P m Q' R'
  Triple-mono P m q x h s p = Ends-mono q x (m s) (h s p)
