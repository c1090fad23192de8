-- ===== src/Channel/Catalog/Sorted.antt =====
-- The sort by names of `lock_body` of minitrue/src/channel.rs, and the search by a name.
use distropica.Channel.Catalog.{insere_por_nome, sort_by_name}
use distropica.Plan.Order.Names.{text_lt}
use distropica.Prelude.{
  suc, ◌≡◌, refl, ◌∙◌, ap, Bool, true, false, not, ◌&&◌, ◌||◌, Option, none, some, List, [], ◌∷◌,
  ◌++◌, if◌then◌else◌, equal, equal_iff, length, all, arith, Bool-cases, inl, inr, ambos, nenhum,
  nega,
}
use distropica.Text.Utf16.{Text}

pub text_lt_trans : (a b c : Text) → text_lt a b ≡ true → text_lt b c ≡ true → text_lt a c ≡ true
unfolding text_lt
text_lt_trans a [] c h g = cc (h)
text_lt_trans a (y ∷ b) [] h g = cc (g)
text_lt_trans [] (y ∷ b) (z ∷ c) h g = refl
text_lt_trans (x ∷ a) (y ∷ b) (z ∷ c) h g = ground (arith, h, g, text_lt_trans a b c)

pub text_lt-total : (a b : Text) → text_lt a b ≡ false → equal a b ≡ false → text_lt b a ≡ true
unfolding text_lt equal
text_lt-total [] [] h e = cc (e)
text_lt-total [] (y ∷ b) h e = cc (h)
text_lt-total (x ∷ a) [] h e = refl
text_lt-total (x ∷ a) (y ∷ b) h e = ground (arith, h, e, text_lt-total a b)

pub text_lt-equal : (a b : Text) → text_lt a b ≡ true → equal a b ≡ false
unfolding text_lt equal
text_lt-equal a [] h = cc (h)
text_lt-equal [] (y ∷ b) h = refl
text_lt-equal (x ∷ a) (y ∷ b) h = ground (arith, h, text_lt-equal a b)

module _ {A : Type 0} (nome : A → Text) where
  -- The first of a name.
  unfoldable pub acha : Text → List A → Option A
  acha n [] = none
  acha n (x ∷ xs) = if equal n (nome x) then some x else acha n xs

  abbrev pub tem_o_nome : Text → List A → Bool
  tem_o_nome n [] = false
  tem_o_nome n (x ∷ xs) = equal n (nome x) || tem_o_nome n xs

  -- No name stands twice.
  abbrev pub distintos : List A → Bool
  distintos [] = true
  distintos (x ∷ xs) = not (tem_o_nome (nome x) xs) && distintos xs

  abbrev pub antes : Text → List A → Bool
  antes n xs = all (λ y. text_lt n (nome y)) xs

  abbrev pub crescente : List A → Bool
  crescente [] = true
  crescente (x ∷ xs) = antes (nome x) xs && crescente xs

  tem_o_nome-insere_por_nome :
      (n : Text) (x : A) (ys : List A)
      → tem_o_nome n (insere_por_nome nome x ys) ≡ (equal n (nome x) || tem_o_nome n ys)
  unfolding insere_por_nome
  tem_o_nome-insere_por_nome n x [] = refl
  tem_o_nome-insere_por_nome n x (y ∷ ys) = ground (arith, tem_o_nome-insere_por_nome n x ys)

  tem_o_nome-sort : (n : Text) (xs : List A) → tem_o_nome n (sort_by_name nome xs) ≡ tem_o_nome n xs
  unfolding sort_by_name
  tem_o_nome-sort n [] = refl
  tem_o_nome-sort n (x ∷ xs) =
      tem_o_nome-insere_por_nome n x (sort_by_name nome xs) ∙ rw (tem_o_nome-sort n xs) refl

  antes-insere_por_nome :
      (n : Text) (x : A) (ys : List A)
      → antes n (insere_por_nome nome x ys) ≡ (text_lt n (nome x) && antes n ys)
  unfolding insere_por_nome
  antes-insere_por_nome n x [] = refl
  antes-insere_por_nome n x (y ∷ ys) = ground (arith, antes-insere_por_nome n x ys)

  antes_trans :
      (m n : Text) (xs : List A) → text_lt m n ≡ true → antes n xs ≡ true → antes m xs ≡ true
  antes_trans m n [] h a = refl
  antes_trans m n (x ∷ xs) h a =
      let (p, q) = ambos (text_lt n (nome x)) (antes n xs) a in
      rw (text_lt_trans m n (nome x) h p, antes_trans m n xs h q) refl

  insere_por_nome-crescente :
      (x : A) (ys : List A)
      → tem_o_nome (nome x) ys ≡ false
      → crescente ys ≡ true
      → crescente (insere_por_nome nome x ys) ≡ true
  unfolding insere_por_nome
  insere_por_nome-crescente x [] n c = refl
  insere_por_nome-crescente x (y ∷ ys) n c =
      let (d, m) = nenhum (equal (nome x) (nome y)) (tem_o_nome (nome x) ys) n in
      let (a, r) = ambos (antes (nome y) ys) (crescente ys) c in
      elim (Bool-cases (text_lt (nome y) (nome x))) [
        | inl b ↦
            rw (b, antes-insere_por_nome (nome y) x ys, b, a) (insere_por_nome-crescente x ys m r)
        | inr b ↦
            let l =
              text_lt-total (nome y) (nome x) b
                (ground (arith, d, equal_iff (nome x) (nome y), equal_iff (nome y) (nome x))) in
            rw (b, l, antes_trans (nome x) (nome y) ys l a, a) r
      ]

  pub sort-crescente : (xs : List A) → distintos xs ≡ true → crescente (sort_by_name nome xs) ≡ true
  unfolding sort_by_name
  sort-crescente [] d = refl
  sort-crescente (x ∷ xs) d =
      let (n, r) = ambos (not (tem_o_nome (nome x) xs)) (distintos xs) d in
      insere_por_nome-crescente x (sort_by_name nome xs)
        (tem_o_nome-sort (nome x) xs ∙ nega (tem_o_nome (nome x) xs) n) (sort-crescente xs r)

  acha-insere_por_nome :
      (n : Text) (x : A) (ys : List A)
      → tem_o_nome (nome x) ys ≡ false
      → acha n (insere_por_nome nome x ys) ≡ (if equal n (nome x) then some x else acha n ys)
  unfolding acha insere_por_nome
  acha-insere_por_nome n x [] h = refl
  acha-insere_por_nome n x (y ∷ ys) h =
      let (d, m) = nenhum (equal (nome x) (nome y)) (tem_o_nome (nome x) ys) h in
      ground (
        arith,
        d,
        acha-insere_por_nome n x ys m,
        equal_iff n (nome x),
        equal_iff n (nome y),
        equal_iff (nome x) (nome y),
      )

  pub acha-sort :
      (n : Text) (xs : List A) → distintos xs ≡ true → acha n (sort_by_name nome xs) ≡ acha n xs
  unfolding sort_by_name acha
  acha-sort n [] d = refl
  acha-sort n (x ∷ xs) d =
      let (m, r) = ambos (not (tem_o_nome (nome x) xs)) (distintos xs) d in
      acha-insere_por_nome n x (sort_by_name nome xs)
        (tem_o_nome-sort (nome x) xs ∙ nega (tem_o_nome (nome x) xs) m)
      ∙ rw (acha-sort n xs r) refl

  length-insere_por_nome :
      (x : A) (ys : List A) → length (insere_por_nome nome x ys) ≡ suc (length ys)
  unfolding insere_por_nome
  length-insere_por_nome x [] = refl
  length-insere_por_nome x (y ∷ ys) = ground (arith, length-insere_por_nome x ys)

  pub length-sort : (xs : List A) → length (sort_by_name nome xs) ≡ length xs
  unfolding sort_by_name
  length-sort [] = refl
  length-sort (x ∷ xs) = length-insere_por_nome x (sort_by_name nome xs) ∙ ap suc (length-sort xs)

  tem_o_nome-push :
      (n : Text) (xs : List A) (x : A)
      → tem_o_nome n (xs ++ x ∷ []) ≡ (tem_o_nome n xs || equal n (nome x))
  tem_o_nome-push n [] x = elim (Bool-cases (equal n (nome x))) [
    | inl h ↦ rw h refl
    | inr h ↦ rw h refl
  ]
  tem_o_nome-push n (y ∷ xs) x = elim (Bool-cases (equal n (nome y))) [
    | inl h ↦ rw h refl
    | inr h ↦ rw h (tem_o_nome-push n xs x)
  ]

  pub distintos-push :
      (xs : List A) (x : A)
      → distintos xs ≡ true
      → tem_o_nome (nome x) xs ≡ false
      → distintos (xs ++ x ∷ []) ≡ true
  distintos-push [] x d c = refl
  distintos-push (y ∷ xs) x d c =
      let (a, b) = ambos (not (tem_o_nome (nome y) xs)) (distintos xs) d in
      let (e, m) = nenhum (equal (nome x) (nome y)) (tem_o_nome (nome x) xs) c in
      rw (tem_o_nome-push (nome y) xs x, nega _ a, outro e) (distintos-push xs x b m)
    where
      outro : equal (nome x) (nome y) ≡ false → equal (nome y) (nome x) ≡ false
      outro e = ground (arith, e, equal_iff (nome x) (nome y), equal_iff (nome y) (nome x))
