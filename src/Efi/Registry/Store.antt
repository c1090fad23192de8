-- ===== src/Efi/Registry/Store.antt =====
-- The files of the efivarfs: their names and contents.
use distropica.Prelude.{
  ◌≡◌, refl, Option, none, some, List, [], ◌∷◌, if◌then◌else◌, equal, equal_iff, Bytes, arith, ◌≢◌,
}
use distropica.Text.Utf16.{Text}

abbrev pub Efivars : Type 0
Efivars = List (Text × Bytes)

unfoldable pub lookup : Text → Efivars → Option Bytes
lookup nome [] = none
lookup nome ((k, v) ∷ vars) = if equal k nome then some v else lookup nome vars

-- The file is replaced, or made.
unfoldable pub set : Text → Bytes → Efivars → Efivars
set nome v [] = (nome, v) ∷ []
set nome v ((k, w) ∷ vars) = if equal k nome then (k, v) ∷ vars else (k, w) ∷ set nome v vars

pub lookup-set :
    (nome outro : Text) (v : Bytes) (vars : Efivars)
    → lookup outro (set nome v vars) ≡ (if equal nome outro then some v else lookup outro vars)
unfolding lookup set
lookup-set nome outro v [] = refl
lookup-set nome outro v ((k, w) ∷ vars) =
    ground (
      arith,
      equal_iff k nome,
      equal_iff k outro,
      equal_iff nome outro,
      lookup-set nome outro v vars,
    )

-- Writing what a file holds changes nothing.
pub set_held :
    (nome : Text) (v : Bytes) (vars : Efivars) → lookup nome vars ≡ some v → set nome v vars ≡ vars
unfolding lookup set
set_held nome v [] h = cc
set_held nome v ((k, w) ∷ vars) h = ground (arith, set_held nome v vars)

pub lookup-set_other :
    (nome outro : Text) (v : Bytes) (vars : Efivars)
    → outro ≢ nome
    → lookup outro (set nome v vars) ≡ lookup outro vars
lookup-set_other nome outro v vars h =
    ground (arith, lookup-set nome outro v vars, equal_iff nome outro)

pub lookup-set_self :
    (nome : Text) (v : Bytes) (vars : Efivars) → lookup nome (set nome v vars) ≡ some v
lookup-set_self nome v vars = ground (arith, lookup-set nome nome v vars, equal_iff nome nome)
