-- ===== src/Attest/Names.antt =====
-- Lists of names without repetition, pushed to and sorted as `corroboration_for` of
-- minitrue/src/attest.rs does.
use distropica.Attest.{contem_nome, coloca, sort}
use distropica.Plan.Order.Names.{contains, contains-push}
use distropica.Prelude.{
  suc, ◌≡◌, refl, ◌∙◌, ap, Bool, true, false, not, ◌&&◌, ◌||◌, List, [], ◌∷◌, ◌++◌, equal,
  equal_iff, length, arith,
}
use distropica.Text.Utf16.{Text}

unfoldable pub sem_repeticao : List Text → Bool
sem_repeticao [] = true
sem_repeticao (n ∷ ns) = not (contains n ns) && sem_repeticao ns

equal-sym : (a b : Text) → equal a b ≡ equal b a
equal-sym a b = ground (arith, equal_iff a b, equal_iff b a)

pub sem_repeticao-push :
    (n : Text) (ns : List Text)
    → contains n ns ≡ false
    → sem_repeticao (ns ++ n ∷ []) ≡ sem_repeticao ns
unfolding sem_repeticao contains
sem_repeticao-push n [] h = refl
sem_repeticao-push n (m ∷ ns) h =
    ground (arith, contains-push m n ns, sem_repeticao-push n ns, equal-sym m n)

contains-coloca :
    (n m : Text) (ns : List Text) → contains n (coloca m ns) ≡ (equal n m || contains n ns)
unfolding contains coloca
contains-coloca n m [] = refl
contains-coloca n m (x ∷ ns) = ground (arith, contains-coloca n m ns)

pub contains-sort : (n : Text) (ns : List Text) → contains n (sort ns) ≡ contains n ns
unfolding contains sort
contains-sort n [] = refl
contains-sort n (x ∷ ns) = contains-coloca n x (sort ns) ∙ rw (contains-sort n ns) refl

sem_repeticao-coloca :
    (n : Text) (ns : List Text)
    → sem_repeticao (coloca n ns) ≡ (not (contains n ns) && sem_repeticao ns)
unfolding contains coloca sem_repeticao
sem_repeticao-coloca n [] = refl
sem_repeticao-coloca n (x ∷ ns) =
    ground (arith, sem_repeticao-coloca n ns, contains-coloca x n ns, equal-sym x n)

pub sem_repeticao-sort : (ns : List Text) → sem_repeticao (sort ns) ≡ sem_repeticao ns
unfolding sem_repeticao sort
sem_repeticao-sort [] = refl
sem_repeticao-sort (n ∷ ns) =
    sem_repeticao-coloca n (sort ns) ∙ rw (contains-sort n ns, sem_repeticao-sort ns) refl

length-coloca : (n : Text) (ns : List Text) → length (coloca n ns) ≡ suc (length ns)
unfolding coloca
length-coloca n [] = refl
length-coloca n (x ∷ ns) = ground (arith, length-coloca n ns)

pub length-sort : (ns : List Text) → length (sort ns) ≡ length ns
unfolding sort
length-sort [] = refl
length-sort (n ∷ ns) = length-coloca n (sort ns) ∙ ap suc (length-sort ns)

pub contem_nome-push :
    (n m h : Text) (ds : List (Text × Text))
    → contem_nome n (ds ++ (m, h) ∷ []) ≡ (contem_nome n ds || equal n m)
unfolding contem_nome
contem_nome-push n m h [] = ground arith
contem_nome-push n m h ((m', h') ∷ ds) = ground (arith, contem_nome-push n m h ds)

pub contem_nome-same :
    (n m : Text) (ds : List (Text × Text)) → n ≡ m → contem_nome n ds ≡ contem_nome m ds
contem_nome-same n m ds p = ap (λ x. contem_nome x ds) p
