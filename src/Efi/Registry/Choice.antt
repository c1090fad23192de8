-- ===== src/Efi/Registry/Choice.antt =====
-- The number that `escolhe` of minipax/src/efi_boot.rs takes for the entry.
use distropica.Efi.Registry.Entries.{numeros-lt, numeros-lookup}
use distropica.Efi.Registry.Names.{nome_variavel, nome_boot, numero_de-nome_boot}
use distropica.Efi.Registry.Numbers.{
  contem, primeiro, livre, minimo, menor, primeiro-ordena, livre_lem, minimo_lem, minimo-none,
  contem-ordena,
}
use distropica.Efi.Registry.Store.{Efivars, lookup}
use distropica.Efi.Registry.{
  Falhas, le_variavel, numeros, ocupados, listados, Registro, tem_rotulo, rotulado, escolhe,
  escolha,
}
use distropica.Prelude.{
  false-ne-true, ℕ, ◌<◌, ◌≤◌, ◌≡◌, ◌⊎◌, inl, inr, refl, sym, ◌∙◌, Bool, true, false, Option, none,
  some, [], ◌∷◌, List, if◌then◌else◌, ◌==◌, ◌||◌, equal_iff, Bytes, arith, subst, Bool-cases,
  Option-cases,
}
use distropica.Text.Utf16.{Text}

-- The number found is the least that passes the test.
minimo_least :
    (test : ℕ → Bool) (xs : List ℕ) (m n : ℕ)
    → minimo test xs ≡ some m
    → contem n xs ≡ true
    → test n ≡ true
    → m ≤ n
unfolding minimo contem
minimo_least test [] m n h c t = cc
minimo_least test (x ∷ xs) m n h c t =
    of_rest (minimo test xs) (λ k e i. minimo_least test xs k n e i t)
      (λ e i. minimo-none test xs n e i) h c
  where
    of_rest :
        (o : Option ℕ)
        → ((k : ℕ) → o ≡ some k → contem n xs ≡ true → k ≤ n)
        → (o ≡ none → contem n xs ≡ true → test n ≡ false)
        → (if test x then some (menor x o) else o) ≡ some m
        → (n == x || contem n xs) ≡ true
        → m ≤ n
    of_rest none ih fails q i = ground (arith, fails refl)
    of_rest (some y) ih fails q i = ground (arith, ih y refl)

module _ (falhas : Falhas) (rotulo : Text) (vars : Efivars) where
  -- The choice of a number, among the files that the listing shows: that of an entry with the
  -- label, or a number that none has if there is none.
  pub record IsChoice (r : Registro) : Type 0 where
    pub bounded : r.numero < 65536
    pub first :
        r.reaproveitada ≡ true
        → minimo (tem_rotulo falhas vars rotulo) (numeros (listados falhas vars)) ≡ some r.numero
    pub reused : r.reaproveitada ≡ true → tem_rotulo falhas vars rotulo r.numero ≡ true
    pub fresh :
        r.reaproveitada ≡ false
        → (contem r.numero (numeros (listados falhas vars)) ≡ false)
          × ((n : ℕ)
              → contem n (numeros (listados falhas vars)) ≡ true
              → tem_rotulo falhas vars rotulo n ≡ false)

  pub escolhe-IsChoice : (r : Registro) → escolhe falhas rotulo vars ≡ some r → IsChoice r
  unfolding escolhe ocupados
  escolhe-IsChoice r h =
      of_first (primeiro (tem_rotulo falhas vars rotulo) (ocupados falhas vars))
        (sym (primeiro-ordena (tem_rotulo falhas vars rotulo) (numeros (listados falhas vars)))) h
    where
      of_free :
          (o : Option ℕ)
          → livre 0x10000 0 (ocupados falhas vars) ≡ o
          → minimo (tem_rotulo falhas vars rotulo) (numeros (listados falhas vars)) ≡ none
          → elim o [ none ↦ none | some n ↦ some (record { numero = n; reaproveitada = false }) ]
            ≡ some r
          → IsChoice r
      of_free none e m q = cc
      of_free (some n) e m q =
          subst IsChoice {x = record { numero = n; reaproveitada = false }} (cc) record {
            bounded = omega (arith, livre_lem 0x10000 0 n (ocupados falhas vars) e);
            first = λ u. cc;
            reused = λ u. cc;
            fresh = λ u. (
              sym (contem-ordena n (numeros (listados falhas vars)))
                  ∙ (livre_lem 0x10000 0 n (ocupados falhas vars) e).1,
              λ k c.
                  minimo-none (tem_rotulo falhas vars rotulo) (numeros (listados falhas vars)) k m
                    c,
            );
          }

      of_first :
          (o : Option ℕ)
          → minimo (tem_rotulo falhas vars rotulo) (numeros (listados falhas vars)) ≡ o
          → escolha (ocupados falhas vars) o ≡ some r
          → IsChoice r
      of_first none m q = of_free (livre 0x10000 0 (ocupados falhas vars)) refl m q
      of_first (some n) m q =
          subst IsChoice {x = record { numero = n; reaproveitada = true }} (cc) record {
            bounded =
                numeros-lt n (listados falhas vars)
                  (minimo_lem (tem_rotulo falhas vars rotulo) (numeros (listados falhas vars)) n
                    m).1;
            first = λ u. m;
            reused = λ u.
                (minimo_lem (tem_rotulo falhas vars rotulo) (numeros (listados falhas vars)) n m).0;
            fresh = λ u. cc;
          }

  lookup-listados :
      (nome : Text) (v : Bytes) (fs : Efivars)
      → lookup nome fs ≡ some v
      → falhas.pula nome ≡ false
      → lookup nome (listados falhas fs) ≡ some v
  unfolding lookup listados
  lookup-listados nome v [] h p = h
  lookup-listados nome v ((k, w) ∷ fs) h p =
      ground (arith, equal_iff k nome, lookup-listados nome v fs)

  -- A file with the name of a number is listed, unless its directory entry could not be read.
  listed :
      (n : ℕ) (v : Bytes)
      → n < 65536
      → lookup (nome_variavel (nome_boot n)) vars ≡ some v
      → falhas.pula (nome_variavel (nome_boot n)) ≡ false
      → contem n (numeros (listados falhas vars)) ≡ true
  listed n v h e p =
      numeros-lookup (nome_variavel (nome_boot n)) n v (listados falhas vars)
        (lookup-listados (nome_variavel (nome_boot n)) v vars e p) (numero_de-nome_boot n h)

  labelled_listed :
      (n : ℕ)
      → n < 65536
      → tem_rotulo falhas vars rotulo n ≡ true
      → falhas.pula (nome_variavel (nome_boot n)) ≡ false
      → contem n (numeros (listados falhas vars)) ≡ true
  unfolding tem_rotulo le_variavel
  labelled_listed n h t p = elim (Option-cases (lookup (nome_variavel (nome_boot n)) vars)) [
    | inl e ↦ absurd (false-ne-true (sym (sem_rotulo e) ∙ t))
    | inr (v, e) ↦ listed n v h e p
  ]
    where
      sem_rotulo :
          lookup (nome_variavel (nome_boot n)) vars ≡ none
          → rotulado (le_variavel falhas vars (nome_boot n)) rotulo ≡ false
      sem_rotulo e = ground arith

  -- The choice in terms of the files: under no number below that of an entry that is used again,
  -- and under none at all where a number is taken anew, is there an option with the label, and a
  -- number taken anew has no file; but for files whose directory entry could not be read.
  pub record IsFair (r : Registro) : Type 0 where
    pub unlabelled :
        (n : ℕ)
        → n < 65536
        → (r.reaproveitada ≡ true → n < r.numero)
        → (falhas.pula (nome_variavel (nome_boot n)) ≡ true)
          ⊎ (tem_rotulo falhas vars rotulo n ≡ false)
    pub free :
        r.reaproveitada ≡ false
        → (falhas.pula (nome_variavel (nome_boot r.numero)) ≡ true)
          ⊎ (lookup (nome_variavel (nome_boot r.numero)) vars ≡ none)

  module _ (r : Registro) (c : IsChoice r) where
    not_labelled :
        (n : ℕ)
        → n < 65536
        → (r.reaproveitada ≡ true → n < r.numero)
        → falhas.pula (nome_variavel (nome_boot n)) ≡ false
        → tem_rotulo falhas vars rotulo n ≡ true
        → ⊥
    not_labelled n h below p t = elim (Bool-cases r.reaproveitada) [
      | inl old ↦ omega (
        arith,
        below old,
        minimo_least (tem_rotulo falhas vars rotulo) (numeros (listados falhas vars)) r.numero n
            (c.first old) (labelled_listed n h t p) t,
      )
      | inr new ↦ false-ne-true (sym ((c.fresh new).1 n (labelled_listed n h t p)) ∙ t)
    ]

    pub IsChoice-IsFair : IsFair r
    IsChoice-IsFair = record {
      unlabelled = λ n h below. elim (Bool-cases (falhas.pula (nome_variavel (nome_boot n)))) [
        | inl p ↦ inl p
        | inr p ↦ elim (Bool-cases (tem_rotulo falhas vars rotulo n)) [
          | inl t ↦ absurd (not_labelled n h below p t)
          | inr t ↦ inr t
        ]
      ];
      free = λ new. elim (Bool-cases (falhas.pula (nome_variavel (nome_boot r.numero)))) [
        | inl p ↦ inl p
        | inr p ↦ elim (Option-cases (lookup (nome_variavel (nome_boot r.numero)) vars)) [
          | inl e ↦ inr e
          | inr (v, e) ↦
              absurd (false-ne-true (sym (c.fresh new).0 ∙ listed r.numero v c.bounded e p))
        ]
      ];
    }
