-- ===== src/Efi/Registry/Again.antt =====
-- Registering again: the entry is found by its label, and nothing changes.
use distropica.Effects.{ok, err, ◌>>=◌}
use distropica.Efi.Registry.Entries.{numeros-lt, numeros-lookup, numeros-set, ainda}
use distropica.Efi.Registry.Names.{
  nome_variavel, nome_boot, nome_boot-inj, nome_boot-apart, numero_de-nome_boot,
  numero_de-boot_order,
}
use distropica.Efi.Registry.Numbers.{
  contem, minimo, primeiro-ordena, minimo_ext, minimo_last, minimo-none_all,
}
use distropica.Efi.Registry.Order.{outros_small}
use distropica.Efi.Registry.Choice.{IsChoice, escolhe-IsChoice}
use distropica.Efi.Registry.Store.{
  Efivars, lookup, set, set_held, lookup-set_other, lookup-set_self,
}
use distropica.Efi.Registry.{
  Falhas, panico, sem_numero, le_variavel, numeros, junta_numero, ocupados, listados,
  escreve_variavel, Registro, tem_rotulo, rotulado, escolhe, outros, boot_order, ordem, ordem_bytes,
  registra, conteudo_de, corpo,
}
use distropica.Efi.RoundTrip.{rotulo_de-load_option}
use distropica.Efi.{Esp, load_option}
use distropica.Prelude.{
  false-ne-true, ℕ, ◌<◌, ◌≡◌, ◌≢◌, refl, sym, ◌∙◌, ap, true, false, not, Option, none, some, List,
  [], ◌∷◌, ◌++◌, equal_iff, Bytes, to_le, arith, inl, inr, subst, all, ltb, ◌==◌, Bool-cases,
  append-nil, Option-cases, from_le-to_le,
}
use native.Mathlib.Decide.{ℕ_discrete}
use distropica.Text.Utf16.{Text, is_char}
use distropica.Text.Utf8.{is_byte}

-- No call fails.
abbrev pub sem_falhas : Falhas
sem_falhas = record {
  ausente = false;
  lista = false;
  pula = λ _. false;
  le = λ _. false;
  abre = λ _. false;
  grava = λ _. none;
}

ainda-nil : (o : Option Bytes) → ainda o [] ≡ []
ainda-nil none = refl
ainda-nil (some _) = refl

-- The listing then shows every file.
pub listados-sem_falhas : (vars : Efivars) → listados sem_falhas vars ≡ vars
unfolding listados
listados-sem_falhas [] = refl
listados-sem_falhas (f ∷ vars) = ap (◌∷◌ f) (listados-sem_falhas vars)

-- What is read as an order, and written, is read as it was.
outros_without : (n : ℕ) (bs : Bytes) → all (λ x. not (x == n)) (outros n bs) ≡ true
unfolding outros
outros_without n [] = refl
outros_without n (a ∷ []) = refl
outros_without n (a ∷ b ∷ bs) = ground (arith, outros_without n bs)

-- What is written as an order is read as it was.
outros-ordem_bytes :
    (n : ℕ) (ns : List ℕ)
    → all (λ x. ltb x 65536) ns ≡ true
    → all (λ x. not (x == n)) ns ≡ true
    → outros n (ordem_bytes ns) ≡ ns
unfolding outros ordem_bytes to_le
outros-ordem_bytes n [] s w = refl
outros-ordem_bytes n (x ∷ xs) s w = ground (arith, from_le-to_le 2 x, outros-ordem_bytes n xs)

outros-ordem_head :
    (n : ℕ) (ns : List ℕ) → n < 65536 → outros n (ordem_bytes (n ∷ ns)) ≡ outros n (ordem_bytes ns)
unfolding outros ordem_bytes to_le
outros-ordem_head n ns h = ground (arith, from_le-to_le 2 n h)

module _ (rotulo : Text) (esp : Esp) (carregador : Text) (vars : Efivars) (r : Registro)
    (o : Bytes) where
  abbrev pub bn : Text
  bn = nome_variavel (nome_boot r.numero)

  abbrev pub bo : Text
  bo = nome_variavel boot_order

  abbrev pub com_entrada : Efivars
  com_entrada = set bn (conteudo_de o) vars

  abbrev pub depois : Efivars
  depois = set bo (conteudo_de (ordem_bytes (ordem sem_falhas r.numero com_entrada))) com_entrada

  -- A run with no failing call.
  pub registra_runs :
      load_option rotulo esp carregador ≡ some o
      → escolhe sem_falhas rotulo vars ≡ some r
      → registra sem_falhas rotulo esp carregador vars ≡ (ok r, depois)
  unfolding registra escreve_variavel ◌>>=◌
  registra_runs eo er = rw (eo, er)

  module _ (chars : all is_char rotulo ≡ true) (eo : load_option rotulo esp carregador ≡ some o)
      (c : IsChoice sem_falhas rotulo vars r) where
    first_here :
        r.reaproveitada ≡ true
        → minimo (tem_rotulo sem_falhas vars rotulo) (numeros vars) ≡ some r.numero
    first_here old = rw (listados-sem_falhas vars) at c.first old

    fresh_here :
        r.reaproveitada ≡ false
        → (contem r.numero (numeros vars) ≡ false)
          × ((n : ℕ) → contem n (numeros vars) ≡ true → tem_rotulo sem_falhas vars rotulo n ≡ false)
    fresh_here new = rw (listados-sem_falhas vars) at c.fresh new

    pub entry_read : lookup bn depois ≡ some (conteudo_de o)
    entry_read =
        lookup-set_other bo bn _ _ (nome_boot-apart r.numero c.bounded) ∙ lookup-set_self bn _ vars

    order_read : lookup bo com_entrada ≡ lookup bo vars
    order_read = lookup-set_other bn bo _ vars (λ e. nome_boot-apart r.numero c.bounded (sym e))

    labelled : tem_rotulo sem_falhas depois rotulo r.numero ≡ true
    unfolding tem_rotulo le_variavel to_le
    labelled =
        rw (entry_read, rotulo_de-load_option rotulo esp carregador o chars eo)
          ((equal_iff rotulo rotulo).1 refl)

    -- Another number has the label now if it had it before.
    as_before :
        (k : ℕ)
        → k < 65536
        → k ≢ r.numero
        → tem_rotulo sem_falhas depois rotulo k ≡ tem_rotulo sem_falhas vars rotulo k
    unfolding tem_rotulo le_variavel
    as_before k h d =
        ap (λ l. rotulado l rotulo)
          (lookup-set_other bo (nome_variavel (nome_boot k)) _ _ (nome_boot-apart k h)
            ∙ lookup-set_other bn (nome_variavel (nome_boot k)) _ vars
                (λ e. d (nome_boot-inj k r.numero h c.bounded e)))

    numbers_after : numeros depois ≡ numeros vars ++ ainda (lookup bn vars) (r.numero ∷ [])
    numbers_after =
        numeros-set bo _ com_entrada
        ∙ ap (λ l. numeros com_entrada ++ ainda (lookup bo com_entrada) (junta_numero l []))
            numero_de-boot_order
        ∙ ap (λ l. numeros com_entrada ++ l) (ainda-nil (lookup bo com_entrada))
        ∙ append-nil (numeros com_entrada)
        ∙ numeros-set bn _ vars
        ∙ ap (λ l. numeros vars ++ ainda (lookup bn vars) (junta_numero l []))
            (numero_de-nome_boot r.numero c.bounded)

    kept :
        r.reaproveitada ≡ true
        → numeros vars ++ ainda (lookup bn vars) (r.numero ∷ []) ≡ numeros vars
    unfolding tem_rotulo le_variavel
    kept old = elim (Option-cases (lookup bn vars)) [
      | inl e ↦ absurd (false-ne-true (sym (ap (λ l. rotulado l rotulo) e) ∙ c.reused old))
      | inr (w, e) ↦ rw e (append-nil (numeros vars))
    ]

    grown :
        r.reaproveitada ≡ false
        → numeros vars ++ ainda (lookup bn vars) (r.numero ∷ []) ≡ numeros vars ++ r.numero ∷ []
    grown new = elim (Option-cases (lookup bn vars)) [
      | inl e ↦ rw e
      | inr (w, e) ↦ absurd (
          false-ne-true (
            sym (fresh_here new).0
            ∙ numeros-lookup bn r.numero w vars e (numero_de-nome_boot r.numero c.bounded)))
    ]

    same :
        r.reaproveitada ≡ true
        → (k : ℕ) → contem k (numeros vars) ≡ true
        → tem_rotulo sem_falhas depois rotulo k ≡ tem_rotulo sem_falhas vars rotulo k
    same old k i = elim (ℕ_discrete k r.numero) [
      | yes e ↦ rw e (labelled ∙ sym (c.reused old))
      | no d ↦ as_before k (numeros-lt k vars i) d
    ]

    unlabelled :
        r.reaproveitada ≡ false
        → (k : ℕ) → contem k (numeros vars) ≡ true
        → tem_rotulo sem_falhas depois rotulo k ≡ false
    unlabelled new k i = elim (ℕ_discrete k r.numero) [
      | yes e ↦
          absurd (
            false-ne-true
              (sym (fresh_here new).0 ∙ subst (λ m. contem m (numeros vars) ≡ true) e i))
      | no d ↦ as_before k (numeros-lt k vars i) d ∙ (fresh_here new).1 k i
    ]

    pub found : minimo (tem_rotulo sem_falhas depois rotulo) (numeros depois) ≡ some r.numero
    found = elim (Bool-cases r.reaproveitada) [
      | inl old ↦
          ap (minimo _) (numbers_after ∙ kept old)
          ∙ minimo_ext _ _ (numeros vars) (same old)
          ∙ first_here old
      | inr new ↦
          ap (minimo _) (numbers_after ∙ grown new)
          ∙ minimo_last _ (numeros vars) r.numero
              (minimo-none_all _ (numeros vars) (unlabelled new)) labelled
    ]

    chosen :
        escolhe sem_falhas rotulo depois ≡ some (record { numero = r.numero; reaproveitada = true })
    unfolding escolhe ocupados
    chosen = rw (
      listados-sem_falhas depois,
      primeiro-ordena (tem_rotulo sem_falhas depois rotulo) (numeros depois) ∙ found,
    )

    order_again :
        all is_byte (corpo (lookup bo vars)) ≡ true
        → ordem sem_falhas r.numero depois ≡ ordem sem_falhas r.numero com_entrada
    unfolding ordem le_variavel to_le
    order_again b =
        let old = outros r.numero (corpo (lookup bo com_entrada)) in
        ap (λ l. r.numero ∷ outros r.numero (corpo l)) (lookup-set_self bo _ com_entrada)
        ∙ ap (◌∷◌ r.numero) (
            outros-ordem_head r.numero old c.bounded
            ∙ outros-ordem_bytes r.numero old
                (outros_small r.numero (corpo (lookup bo com_entrada)) (rw order_read b))
                (outros_without r.numero (corpo (lookup bo com_entrada))))

again :
    (rotulo : Text) (esp : Esp) (carregador : Text) (vars : Efivars) (r : Registro) (o : Bytes)
    → all is_char rotulo ≡ true
    → load_option rotulo esp carregador ≡ some o
    → IsChoice sem_falhas rotulo vars r
    → all is_byte (corpo (lookup (nome_variavel boot_order) vars)) ≡ true
    → registra sem_falhas rotulo esp carregador (depois rotulo esp carregador vars r o) ≡ (
      ok (record { numero = r.numero; reaproveitada = true }),
      depois rotulo esp carregador vars r o,
    )
again rotulo esp carregador vars r o chars eo c b =
    let d = depois rotulo esp carregador vars r o in
    let q : Registro = record { numero = r.numero; reaproveitada = true } in
    registra_runs rotulo esp carregador d q o eo (chosen rotulo esp carregador vars r o chars eo c)
    ∙ ap (λ s. (ok q, s))
        (ap
            (λ l.
              set (nome_variavel boot_order)
                (conteudo_de (ordem_bytes (ordem sem_falhas r.numero l))) l)
            (set_held (nome_variavel (nome_boot r.numero)) (conteudo_de o) d
              (entry_read rotulo esp carregador vars r o chars eo c))
          ∙ set_held (nome_variavel boot_order) _ d (
              lookup-set_self (nome_variavel boot_order) _ _
              ∙ ap (λ l. some (conteudo_de (ordem_bytes l)))
                  (sym (order_again rotulo esp carregador vars r o chars eo c b))))

module _ (rotulo : Text) (esp : Esp) (carregador : Text) (vars : Efivars) where
  registra_panics :
      load_option rotulo esp carregador ≡ none
      → registra sem_falhas rotulo esp carregador vars ≡ (err panico, vars)
  unfolding registra ◌>>=◌
  registra_panics e = rw e

  registra_full :
      (o : Bytes)
      → load_option rotulo esp carregador ≡ some o
      → escolhe sem_falhas rotulo vars ≡ none
      → registra sem_falhas rotulo esp carregador vars ≡ (err sem_numero, vars)
  unfolding registra ◌>>=◌
  registra_full o eo e = rw (eo, e)

  -- A success had an option to write and a number for it.
  pub registra_choice :
      (r : Registro) (vars' : Efivars)
      → registra sem_falhas rotulo esp carregador vars ≡ (ok r, vars')
      → (o : Bytes) × (load_option rotulo esp carregador ≡ some o)
        × (escolhe sem_falhas rotulo vars ≡ some r)
  registra_choice r vars' h = elim (Option-cases (load_option rotulo esp carregador)) [
    | inl e ↦ absurd (cc (registra_panics e))
    | inr (o, eo) ↦ elim (Option-cases (escolhe sem_falhas rotulo vars)) [
      | inl e ↦ absurd (cc (registra_full o eo e))
      | inr (q, eq) ↦ (o, eo, cc (registra_runs rotulo esp carregador vars q o eo eq))
    ]
  ]

-- If no call fails, the label has no NUL and BootOrder holds bytes, then registering the same entry
-- again reports the same number, as reused, and leaves every variable as the first time did.
pub registra_again :
    (rotulo : Text) (esp : Esp) (carregador : Text) (vars vars' : Efivars) (r : Registro)
    → all is_char rotulo ≡ true
    → all is_byte (corpo (lookup (nome_variavel boot_order) vars)) ≡ true
    → registra sem_falhas rotulo esp carregador vars ≡ (ok r, vars')
    → registra sem_falhas rotulo esp carregador vars'
      ≡ (ok (record { numero = r.numero; reaproveitada = true }), vars')
registra_again rotulo esp carregador vars vars' r chars b h =
    let (o, eo, er) = registra_choice rotulo esp carregador vars r vars' h in
    let c = escolhe-IsChoice sem_falhas rotulo vars r er in
    let e : vars' ≡ depois rotulo esp carregador vars r o =
      cc (registra_runs rotulo esp carregador vars r o eo er) in
    rw e (again rotulo esp carregador vars r o chars eo c b)
