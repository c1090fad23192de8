-- ===== src/Plan/Order/Walk.antt =====
-- What one visit does to the list of packages handled so far: for any dependencies, and with fuel
-- for every package that is not yet on the stack.
use distropica.Plan.Order.Names.{contains}
use distropica.Prelude.{
  ℕ, ◌+◌, ◌<◌, ◌≤◌, ◌≡◌, sym, ◌⊎◌, true, false, List, [], ◌∷◌, ◌++◌, if◌then◌else◌, length,
  equal_iff, arith, append_assoc, append-nil, subst,
}
use distropica.Text.Utf16.{Text}

abbrev pub In : Text → List Text → Type 0
In n xs = contains n xs ≡ true

pub In-head : (n : Text) (xs : List Text) → In n (n ∷ xs)
unfolding contains
In-head n xs = ground (arith, equal_iff n n)

pub In-later : (n x : Text) (xs : List Text) → In n xs → In n (x ∷ xs)
unfolding contains
In-later n x xs i = ground (arith)

pub In-cases : (n x : Text) (xs : List Text) → In n (x ∷ xs) → (n ≡ x) ⊎ In n xs
unfolding contains
In-cases n x xs i = ground (arith, equal_iff n x)

-- The names of `universo` that are not on the stack.
pub fora : List Text → List Text → ℕ
fora [] stack = 0
fora (u ∷ us) stack = (if contains u stack then 0 else 1) + fora us stack

pub fora-le-length : (us stack : List Text) → fora us stack ≤ length us
unfolding fora
fora-le-length [] stack = omega arith
fora-le-length (u ∷ us) stack = ground (arith, fora-le-length us stack)

fora-push-le : (us stack : List Text) (n : Text) → fora us (n ∷ stack) ≤ fora us stack
unfolding fora contains
fora-push-le [] stack n = omega arith
fora-push-le (u ∷ us) stack n = ground (arith, fora-push-le us stack n)

-- A push takes one name away.
pub fora-push :
    (us stack : List Text) (n : Text)
    → In n us
    → contains n stack ≡ false
    → fora us (n ∷ stack) < fora us stack
unfolding fora contains
fora-push [] stack n i s = cc
fora-push (u ∷ us) stack n i s =
    ground (arith, fora-push us stack n, fora-push-le us stack n, equal_iff n u)

module _ (adjacency : Text → List Text) where
  -- `Reach n m`: by one dependency or more.
  pub data Reach : Text → Text → Type 0 where
    edge : {n d : Text} → In d (adjacency n) → Reach n d
    step : {n d m : Text} → In d (adjacency n) → Reach d m → Reach n m

  pub Reach-trans : {a b c : Text} → Reach a b → Reach b c → Reach a c
  Reach-trans (edge i) q = step i q
  Reach-trans (step i p) q = step i (Reach-trans p q)

  -- Each package once, and behind all that it depends on, in a list that stands behind `antes`.
  abbrev pub IsOrdered : List Text → List Text → Type 0
  IsOrdered antes [] = Unit {0}
  IsOrdered antes (n ∷ ns) =
      (contains n antes ≡ false)
      × ((d : Text) → In d (adjacency n) → In d antes)
      × IsOrdered (antes ++ n ∷ []) ns

  pub IsOrdered-append :
      (antes xs : List Text) (n : Text)
      → IsOrdered antes xs
      → contains n (antes ++ xs) ≡ false
      → ((d : Text) → In d (adjacency n) → In d (antes ++ xs))
      → IsOrdered antes (xs ++ n ∷ [])
  IsOrdered-append antes [] n o f g = (
    subst (λ l. contains n l ≡ false) (append-nil antes) f,
    λ d i. subst (In d) (append-nil antes) (g d i),
    tt,
  )
  IsOrdered-append antes (x ∷ xs) n (a, b, o) f g = (
    a,
    b,
    IsOrdered-append (antes ++ x ∷ []) xs n o
        (subst (λ l. contains n l ≡ false) (sym (append_assoc antes (x ∷ []) xs)) f)
        (λ d i. subst (In d) (sym (append_assoc antes (x ∷ []) xs)) (g d i)),
  )
