-- ===== src/Text/Printable.antt =====
-- Texts of the printable characters of ASCII without the space: no white space and no control.
use distropica.Prelude.{
  ℕ, ◌≡◌, refl, Bool, true, false, not, List, [], ◌∷◌, ◌==◌, all, arith, ambos, ==_iff,
  false-ne-true, sym, ◌∙◌, ap,
}
use distropica.Text.Pieces.{is_whitespace, sem_espaco}
use distropica.Text.Trim.{has, any_control}
use distropica.Text.Utf16.{Text, is_scalar}
use distropica.Text.Utf8.{within}

abbrev pub grafico : ℕ → Bool
grafico c = within 0x21 0x7e c

pub all-weaken :
    {A : Type 0} (p q : A → Bool)
    → ((x : A) → p x ≡ true → q x ≡ true)
    → (xs : List A) → all p xs ≡ true
    → all q xs ≡ true
all-weaken p q f [] h = refl
all-weaken p q f (x ∷ xs) h =
    let (a, b) = ambos (p x) (all p xs) h in rw (f x a) (all-weaken p q f xs b)

pub grafico-sem_espaco : (t : Text) → all grafico t ≡ true → sem_espaco t ≡ true
grafico-sem_espaco t h =
    all-weaken grafico (λ c. not (is_whitespace c)) (λ c g. ground (arith, g)) t h

pub grafico-is_scalar : (t : Text) → all grafico t ≡ true → all is_scalar t ≡ true
grafico-is_scalar t h = all-weaken grafico is_scalar (λ c g. ground (arith, g)) t h

pub grafico-any_control : (t : Text) → all grafico t ≡ true → any_control t ≡ false
unfolding any_control
grafico-any_control [] h = refl
grafico-any_control (c ∷ t) h =
    let (a, b) = ambos (grafico c) (all grafico t) h in ground (arith, a, grafico-any_control t b)

-- A text of characters of one kind has none that is not of this kind.
pub all-has : (p : ℕ → Bool) (b : ℕ) → p b ≡ false → (t : Text) → all p t ≡ true → has b t ≡ false
unfolding has
all-has p b n [] h = refl
all-has p b n (c ∷ t) h =
    let (a, r) = ambos (p c) (all p t) h in rw (outro c (c == b) refl a, all-has p b n t r) refl
  where
    outro : (c : ℕ) (t : Bool) → (c == b) ≡ t → p c ≡ true → (c == b) ≡ false
    outro c false e a = e
    outro c true e a = absurd (false-ne-true (sym n ∙ ap p (sym ((==_iff c b).0 e)) ∙ a))
