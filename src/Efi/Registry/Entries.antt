-- ===== src/Efi/Registry/Entries.antt =====
-- The numbers in use, before and after a file is written.
use distropica.Efi.Registry.Names.{numero_de, numero_de-lt}
use distropica.Efi.Registry.Numbers.{contem}
use distropica.Efi.Registry.Store.{Efivars, lookup, set}
use distropica.Efi.Registry.{numeros, junta_numero}
use distropica.Prelude.{
  ℕ, ◌<◌, ◌≡◌, refl, sym, ap, true, Option, none, some, List, [], ◌∷◌, ◌++◌, equal, equal_iff,
  Bytes, arith, Bool-cases, inl, inr, append-nil,
}
use distropica.Text.Utf16.{Text}

abbrev pub ainda : Option Bytes → List ℕ → List ℕ
ainda none ns = ns
ainda (some _) ns = []

junta_numero-append :
    (o : Option ℕ) (xs ys zs : List ℕ) → xs ≡ ys ++ zs → junta_numero o xs ≡ junta_numero o ys ++ zs
junta_numero-append none xs ys zs h = h
junta_numero-append (some n) xs ys zs h = ap (◌∷◌ n) h

contem-junta_numero :
    (o : Option ℕ) (n : ℕ) (xs : List ℕ) → contem n xs ≡ true → contem n (junta_numero o xs) ≡ true
unfolding contem
contem-junta_numero none n xs h = h
contem-junta_numero (some m) n xs h = ground arith

-- A new file adds its number, if its name has one; a file that is there adds none.
pub numeros-set :
    (nome : Text) (v : Bytes) (vars : Efivars)
    → numeros (set nome v vars)
      ≡ numeros vars ++ ainda (lookup nome vars) (junta_numero (numero_de nome) [])
unfolding numeros lookup set
numeros-set nome v [] = refl
numeros-set nome v ((k, w) ∷ vars) = elim (Bool-cases (equal k nome)) [
  | inl e ↦ rw e (sym (append-nil _))
  | inr e ↦ rw e (junta_numero-append (numero_de k) _ _ _ (numeros-set nome v vars))
]

pub numeros-lookup :
    (nome : Text) (n : ℕ) (v : Bytes) (vars : Efivars)
    → lookup nome vars ≡ some v
    → numero_de nome ≡ some n
    → contem n (numeros vars) ≡ true
unfolding numeros lookup contem
numeros-lookup nome n v [] h e = cc
numeros-lookup nome n v ((k, w) ∷ vars) h e = elim (Bool-cases (equal k nome)) [
  | inl c ↦ rw ((equal_iff k nome).0 c, e) (ground (arith))
  | inr c ↦
      contem-junta_numero (numero_de k) n (numeros vars)
        (numeros-lookup nome n v vars (ground arith) e)
]

pub numeros-lt : (n : ℕ) (vars : Efivars) → contem n (numeros vars) ≡ true → n < 65536
unfolding numeros contem
numeros-lt n [] h = cc
numeros-lt n ((k, w) ∷ vars) h = of_number (numero_de k) refl (numeros-lt n vars) h
  where
    of_number :
        (o : Option ℕ)
        → numero_de k ≡ o
        → (contem n (numeros vars) ≡ true → n < 65536)
        → contem n (junta_numero o (numeros vars)) ≡ true
        → n < 65536
    of_number none e ih q = ih q
    of_number (some m) e ih q = ground (arith, ih, numero_de-lt k m e)
