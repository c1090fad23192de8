-- ===== src/Plan/Order/Acyclic.antt =====
-- A list in the order of its dependencies has no cycle.
use distropica.Plan.Order.Names.{contains, contains-push}
use distropica.Plan.Order.Walk.{In, In-cases, Reach, edge, step, IsOrdered}
use distropica.Prelude.{◌≡◌, sym, ◌∙◌, inl, inr, true, false, List, [], ◌∷◌, ◌++◌, arith, subst}
use distropica.Text.Utf16.{Text}

module _ (adjacency : Text → List Text) where
  no_confusion : true ≡ false → ⊥
  no_confusion p = cc

  abbrev IsClosed : List Text → Type 0
  IsClosed xs = (n d : Text) → In n xs → In d (adjacency n) → In d xs

  IsClosed-Reach :
      (xs : List Text) → IsClosed xs → {n m : Text} → In n xs → Reach adjacency n m → In m xs
  IsClosed-Reach xs c {n} i (edge {d = d} j) = c n d i j
  IsClosed-Reach xs c {n} i (step {d = d} j r) = IsClosed-Reach xs c (c n d i j) r

  Reach-IsClosed :
      (xs : List Text) (n : Text)
      → IsClosed xs
      → ((d : Text) → In d (adjacency n) → In d xs)
      → {m : Text} → Reach adjacency n m
      → In m xs
  Reach-IsClosed xs n c g (edge {d = d} j) = g d j
  Reach-IsClosed xs n c g (step {d = d} j r) = IsClosed-Reach xs c (g d j) r

  IsClosed-push :
      (xs : List Text) (n : Text)
      → IsClosed xs
      → ((d : Text) → In d (adjacency n) → In d xs)
      → IsClosed (xs ++ n ∷ [])
  unfolding contains
  IsClosed-push xs n c g m d i j = elim (In-cases m n xs (sym (contains-push m n xs) ∙ i)) [
    | inl p ↦ ground (arith, contains-push d n xs, g d (subst (λ k. In d (adjacency k)) p j))
    | inr k ↦ ground (arith, contains-push d n xs, c m d k j)
  ]

  acyclic :
      (antes xs : List Text)
      → IsClosed antes
      → IsOrdered adjacency antes xs
      → (n : Text) → In n xs
      → Reach adjacency n n
      → ⊥
  unfolding contains
  acyclic antes [] c o n i r = cc
  acyclic antes (x ∷ xs) c (f, g, o) n i r = elim (In-cases n x xs i) [
    | inl p ↦
        no_confusion (sym (Reach-IsClosed antes x c g (subst (λ k. Reach adjacency k k) p r)) ∙ f)
    | inr j ↦ acyclic (antes ++ x ∷ []) xs (IsClosed-push antes x c g) o n j r
  ]

  pub IsOrdered-acyclic :
      (xs : List Text) → IsOrdered adjacency [] xs → (n : Text) → In n xs → ¬ Reach adjacency n n
  unfolding contains
  IsOrdered-acyclic xs o n i r = acyclic [] xs (λ m d j. cc) o n i r
