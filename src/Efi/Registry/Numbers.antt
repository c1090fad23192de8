-- ===== src/Efi/Registry/Numbers.antt =====
-- Numbers of entries: sorted lists of them, the first that passes a test, the first that is free.
use distropica.Prelude.{
  ℕ, zero, suc, ◌+◌, ◌<◌, ◌≤◌, ◌≡◌, refl, Bool, true, false, ◌||◌, Option, none, some, List, [],
  ◌∷◌, ◌++◌, leb, ◌==◌, if◌then◌else◌, arith, min, Bool-cases, inl, inr, leb→le,
}

unfoldable pub insere : ℕ → List ℕ → List ℕ
insere n [] = n ∷ []
insere n (x ∷ xs) = let resto = insere n xs in if leb n x then n ∷ x ∷ xs else x ∷ resto

-- `sort_unstable`.
unfoldable pub ordena : List ℕ → List ℕ
ordena [] = []
ordena (x ∷ xs) = insere x (ordena xs)

unfoldable pub contem : ℕ → List ℕ → Bool
contem n [] = false
contem n (x ∷ xs) = n == x || contem n xs

-- The first number of a list that passes a test.
unfoldable pub primeiro : (ℕ → Bool) → List ℕ → Option ℕ
primeiro test [] = none
primeiro test (x ∷ xs) = if test x then some x else primeiro test xs

-- `(n..).find(…)` over as many numbers as there is fuel.
unfoldable pub livre : ℕ → ℕ → List ℕ → Option ℕ
livre zero n usados = none
livre (suc fuel) n usados =
    let resto = livre fuel (n + 1) usados in if contem n usados then resto else some n

-- The least number that passes a test, and is in a list in any order.
abbrev pub menor : ℕ → Option ℕ → ℕ
menor x none = x
menor x (some y) = min x y

unfoldable pub minimo : (ℕ → Bool) → List ℕ → Option ℕ
minimo test [] = none
minimo test (x ∷ xs) = let resto = minimo test xs in if test x then some (menor x resto) else resto

abbrev NoneBelow : ℕ → List ℕ → Type 0
NoneBelow x [] = Unit {0}
NoneBelow x (y ∷ ys) = (x ≤ y) × NoneBelow x ys

abbrev IsSorted : List ℕ → Type 0
IsSorted [] = Unit {0}
IsSorted (x ∷ xs) = NoneBelow x xs × IsSorted xs

NoneBelow-insere : (x n : ℕ) (xs : List ℕ) → x ≤ n → NoneBelow x xs → NoneBelow x (insere n xs)
unfolding insere
NoneBelow-insere x n [] h b = (h, tt)
NoneBelow-insere x n (y ∷ ys) h b = elim (Bool-cases (leb n y)) [
  | inl e ↦ rw e (h, b)
  | inr e ↦ rw e (b.0, NoneBelow-insere x n ys h b.1)
]

NoneBelow-trans : (x y : ℕ) (xs : List ℕ) → x ≤ y → NoneBelow y xs → NoneBelow x xs
NoneBelow-trans x y [] h b = tt
NoneBelow-trans x y (z ∷ zs) h (a, b) = (omega arith, NoneBelow-trans x y zs h b)

insere-IsSorted : (n : ℕ) (xs : List ℕ) → IsSorted xs → IsSorted (insere n xs)
unfolding insere
insere-IsSorted n [] s = (tt, tt)
insere-IsSorted n (x ∷ xs) (b, s) = elim (Bool-cases (leb n x)) [
  | inl e ↦ rw e ((leb→le n x e, NoneBelow-trans n x xs (leb→le n x e) b), (b, s))
  | inr e ↦ rw e (NoneBelow-insere x n xs (ground arith) b, insere-IsSorted n xs s)
]

ordena-IsSorted : (xs : List ℕ) → IsSorted (ordena xs)
unfolding ordena
ordena-IsSorted [] = tt
ordena-IsSorted (x ∷ xs) = insere-IsSorted x (ordena xs) (ordena-IsSorted xs)

primeiro-NoneBelow :
    (test : ℕ → Bool) (x y : ℕ) (xs : List ℕ) → NoneBelow x xs → primeiro test xs ≡ some y → x ≤ y
unfolding primeiro
primeiro-NoneBelow test x y [] b h = cc
primeiro-NoneBelow test x y (z ∷ zs) (a, b) h = ground (arith, primeiro-NoneBelow test x y zs b)

menor-NoneBelow :
    (test : ℕ → Bool) (n : ℕ) (xs : List ℕ) → NoneBelow n xs → menor n (primeiro test xs) ≡ n
unfolding primeiro
menor-NoneBelow test n [] b = refl
menor-NoneBelow test n (x ∷ xs) (a, b) = ground (arith, menor-NoneBelow test n xs b)

primeiro-insere :
    (test : ℕ → Bool) (n : ℕ) (xs : List ℕ)
    → IsSorted xs
    → primeiro test (insere n xs)
      ≡ (if test n then some (menor n (primeiro test xs)) else primeiro test xs)
unfolding primeiro insere
primeiro-insere test n [] s = refl
primeiro-insere test n (x ∷ xs) (b, s) = elim (Bool-cases (leb n x)) [
  | inl e ↦ rw e (
      ground (
        arith,
        menor-NoneBelow test n (x ∷ xs) (leb→le n x e, NoneBelow-trans n x xs (leb→le n x e) b),
      ))
  | inr e ↦ rw e (ground (arith, primeiro-insere test n xs s))
]

-- The first of the sorted list is the least of the list.
pub primeiro-ordena : (test : ℕ → Bool) (xs : List ℕ) → primeiro test (ordena xs) ≡ minimo test xs
unfolding primeiro ordena minimo
primeiro-ordena test [] = refl
primeiro-ordena test (x ∷ xs) =
    ground (arith, primeiro-insere test x (ordena xs) (ordena-IsSorted xs), primeiro-ordena test xs)

-- A free number is in range and not in use.
pub livre_lem :
    (fuel n m : ℕ) (usados : List ℕ)
    → livre fuel n usados ≡ some m
    → (m < n + fuel) × (contem m usados ≡ false)
unfolding livre
livre_lem zero n m usados h = cc
livre_lem (suc fuel) n m usados h = ground (arith, livre_lem fuel (n + 1) m usados)

pub contem-insere : (n m : ℕ) (xs : List ℕ) → contem n (insere m xs) ≡ (n == m || contem n xs)
unfolding contem insere
contem-insere n m [] = refl
contem-insere n m (x ∷ xs) = ground (arith, contem-insere n m xs)

pub contem-ordena : (n : ℕ) (xs : List ℕ) → contem n (ordena xs) ≡ contem n xs
unfolding contem ordena
contem-ordena n [] = refl
contem-ordena n (x ∷ xs) = ground (arith, contem-insere n x (ordena xs), contem-ordena n xs)

-- A number found passes the test and is in the list.
pub minimo_lem :
    (test : ℕ → Bool) (xs : List ℕ) (n : ℕ)
    → minimo test xs ≡ some n
    → (test n ≡ true) × (contem n xs ≡ true)
unfolding minimo contem
minimo_lem test [] n h = cc
minimo_lem test (x ∷ xs) n h = of_rest (minimo test xs) (minimo_lem test xs) h
  where
    of_rest :
        (o : Option ℕ)
        → ((k : ℕ) → o ≡ some k → (test k ≡ true) × (contem k xs ≡ true))
        → (if test x then some (menor x o) else o) ≡ some n
        → (test n ≡ true) × ((n == x || contem n xs) ≡ true)
    of_rest none ih q = ground arith
    of_rest (some y) ih q = ground (arith, ih y refl)

-- None found means that none passes.
pub minimo-none :
    (test : ℕ → Bool) (xs : List ℕ) (n : ℕ)
    → minimo test xs ≡ none
    → contem n xs ≡ true
    → test n ≡ false
unfolding minimo contem
minimo-none test [] n h c = cc
minimo-none test (x ∷ xs) n h c = ground (arith, minimo-none test xs n)

-- Tests that agree on the list find the same.
pub minimo_ext :
    (test test' : ℕ → Bool) (xs : List ℕ)
    → ((n : ℕ) → contem n xs ≡ true → test n ≡ test' n)
    → minimo test xs ≡ minimo test' xs
unfolding minimo contem
minimo_ext test test' [] h = refl
minimo_ext test test' (x ∷ xs) h =
    ground (arith, h x, minimo_ext test test' xs (λ n c. h n (ground arith)))

-- A number behind a list in which none passes.
pub minimo_last :
    (test : ℕ → Bool) (xs : List ℕ) (n : ℕ)
    → minimo test xs ≡ none
    → test n ≡ true
    → minimo test (xs ++ n ∷ []) ≡ some n
unfolding minimo
minimo_last test [] n h t = ground arith
minimo_last test (x ∷ xs) n h t = ground (arith, minimo_last test xs n)

pub minimo-none_all :
    (test : ℕ → Bool) (xs : List ℕ)
    → ((n : ℕ) → contem n xs ≡ true → test n ≡ false)
    → minimo test xs ≡ none
unfolding minimo contem
minimo-none_all test [] h = refl
minimo-none_all test (x ∷ xs) h =
    ground (arith, h x, minimo-none_all test xs (λ n c. h n (ground arith)))
