-- ===== src/Plan/Order/Names.antt =====
-- Lists of package names: membership, and the sorted list without repetition that `sort` and
-- `dedup` leave.
use distropica.Prelude.{
  ◌≡◌, refl, ◌∙◌, ap, Bool, true, false, ◌||◌, List, [], ◌∷◌, ◌++◌, ltb, ◌==◌, if◌then◌else◌, equal,
  equal_iff, arith,
}
use distropica.Text.Utf16.{Text}

unfoldable pub contains : Text → List Text → Bool
contains n [] = false
contains n (x ∷ xs) = equal n x || contains n xs

-- The order of `String`: by the first difference. (UTF-8 keeps the order of the scalar values.)
unfoldable pub text_lt : Text → Text → Bool
text_lt _ [] = false
text_lt [] (y ∷ ys) = true
text_lt (x ∷ xs) (y ∷ ys) = if x == y then text_lt xs ys else ltb x y

unfoldable pub insere : Text → List Text → List Text
insere n [] = n ∷ []
insere n (x ∷ xs) =
    let resto = insere n xs in
    if equal n x then x ∷ xs else if text_lt n x then n ∷ x ∷ xs else x ∷ resto

-- `sort` and `dedup`.
unfoldable pub ordena : List Text → List Text
ordena [] = []
ordena (x ∷ xs) = insere x (ordena xs)

pub contains-append :
    (n : Text) (xs ys : List Text) → contains n (xs ++ ys) ≡ (contains n xs || contains n ys)
unfolding contains
contains-append n [] ys = refl
contains-append n (x ∷ xs) ys = ground (arith, contains-append n xs ys)

pub contains-insere :
    (n x : Text) (xs : List Text) → contains n (insere x xs) ≡ (equal n x || contains n xs)
unfolding contains insere
contains-insere n x [] = refl
contains-insere n x (y ∷ ys) =
    ground (arith, contains-insere n x ys, equal_iff x y, equal_iff n x, equal_iff n y)

pub contains-ordena : (n : Text) (xs : List Text) → contains n (ordena xs) ≡ contains n xs
unfolding ordena contains
contains-ordena n [] = refl
contains-ordena n (x ∷ xs) = contains-insere n x (ordena xs) ∙ rw (contains-ordena n xs)

pub contains-push :
    (n x : Text) (xs : List Text) → contains n (xs ++ x ∷ []) ≡ (equal n x || contains n xs)
unfolding contains
contains-push n x xs = ground (arith, contains-append n xs (x ∷ []))

pub contains-same : (n x : Text) (xs : List Text) → n ≡ x → contains n xs ≡ contains x xs
contains-same n x xs p = ap (λ m. contains m xs) p

pub contains-push-other :
    (n x : Text) (stack xs : List Text)
    → contains n stack ≡ true
    → contains x stack ≡ false
    → contains n (xs ++ x ∷ []) ≡ contains n xs
contains-push-other n x stack xs i o =
    ground (arith, contains-push n x xs, equal_iff n x, contains-same n x stack)
