-- ===== src/Efi/Registry/Search.antt =====
-- `opcao_com_rotulo` of minipax/src/efi_boot.rs, and that it finds what `registra` wrote.
use distropica.Effects.{ok}
use distropica.Efi.Registry.Again.{
  sem_falhas, listados-sem_falhas, depois, registra_choice, registra_runs, found, entry_read,
}
use distropica.Efi.Registry.Names.{nome_boot}
use distropica.Efi.Registry.Numbers.{primeiro, primeiro-ordena, ordena}
use distropica.Efi.Registry.Choice.{IsChoice, escolhe-IsChoice}
use distropica.Efi.Registry.Store.{Efivars}
use distropica.Efi.Registry.{
  Falhas, Registro, le_variavel, numeros, ocupados, registra, tem_rotulo, rotulado,
}
use distropica.Efi.RoundTrip.{le_opcao-load_option, IsShort}
use distropica.Efi.{
  Esp, OpcaoLida, load_option, rotulo_de, le_opcao, guarda_tamanho, get_range, ler_nos,
}
use distropica.Prelude.Options.{◌>>=◌, >>=-eq-some}
use distropica.Prelude.{
  false-ne-true, ℕ, ◌+◌, ◌*◌, ◌≡◌, refl, sym, ◌∙◌, ap, Bool, true, false, Option, none, some, List,
  [], ◌∷◌, if◌then◌else◌, equal, equal_iff, length, drop, Bytes, ltb, all, arith, Option-cases,
  Bool-cases, to_le, inl, inr,
}
use distropica.Text.Utf16.{Text, is_char, encode_utf16}

-- `bruta.get(4..).and_then(le_opcao)` of the variable of a number.
abbrev sem_atributos : Bytes → Option Bytes
sem_atributos bruta = if ltb (length bruta) 4 then none else some (drop 4 bruta)

unfoldable pub opcao_do_numero : Falhas → Efivars → ℕ → Option OpcaoLida
opcao_do_numero falhas vars numero = do
  bruta ← le_variavel falhas vars (nome_boot numero)
  opcao ← sem_atributos bruta
  le_opcao opcao

abbrev pub com_esse_rotulo : Option OpcaoLida → Text → Bool
com_esse_rotulo none rotulo = false
com_esse_rotulo (some lida) rotulo = equal lida.rotulo rotulo

-- The loop of `opcao_com_rotulo`.
unfoldable pub procura_rotulo : Falhas → Efivars → Text → List ℕ → Option OpcaoLida
procura_rotulo falhas vars rotulo [] = none
procura_rotulo falhas vars rotulo (n ∷ ns) =
    let lida = opcao_do_numero falhas vars n in
    if com_esse_rotulo lida rotulo then lida else procura_rotulo falhas vars rotulo ns

-- An error of the listing is `none` of the outer option.
unfoldable pub opcao_com_rotulo : Falhas → Efivars → Text → Option (Option OpcaoLida)
opcao_com_rotulo falhas vars rotulo =
    if falhas.lista then none else some (procura_rotulo falhas vars rotulo (ocupados falhas vars))

-- The option read has the label that `rotulo_de` reads.
rotulo-le_opcao :
    (o : Bytes) (lida : OpcaoLida) → le_opcao o ≡ some lida → rotulo_de o ≡ some lida.rotulo
unfolding le_opcao guarda_tamanho
rotulo-le_opcao o lida h =
    let (o', e, h1) = >>=-eq-some (guarda_tamanho o) _ h in
    let (t, e1, h2) = >>=-eq-some (rotulo_de o') _ h1 in
    let (caminho, e2, h3) =
      >>=-eq-some (get_range o' (6 + (length (encode_utf16 t) + 1) * 2) _) _ h2 in
    let (par, e3, h4) = >>=-eq-some (ler_nos (length caminho) caminho none none) _ h3 in
    ap rotulo_de {x = o} {y = o'} (ground arith) ∙ e1 ∙ ap some (cc h4)

labelled_too :
    (falhas : Falhas) (vars : Efivars) (rotulo : Text) (n : ℕ)
    → com_esse_rotulo (opcao_do_numero falhas vars n) rotulo ≡ true
    → tem_rotulo falhas vars rotulo n ≡ true
unfolding opcao_do_numero tem_rotulo
labelled_too falhas vars rotulo n h = elim (Option-cases (opcao_do_numero falhas vars n)) [
  | inl e ↦ absurd (false-ne-true (sym (ap (λ l. com_esse_rotulo l rotulo) e) ∙ h))
  | inr (lida, e) ↦ of_read lida e (sym (ap (λ l. com_esse_rotulo l rotulo) e) ∙ h)
]
  where
    of_read :
        (lida : OpcaoLida)
        → opcao_do_numero falhas vars n ≡ some lida
        → equal lida.rotulo rotulo ≡ true
        → rotulado (le_variavel falhas vars (nome_boot n)) rotulo ≡ true
    of_read lida e q =
        let (bruta, e1, h1) = >>=-eq-some (le_variavel falhas vars (nome_boot n)) _ e in
        let (o, e2, h2) = >>=-eq-some (sem_atributos bruta) _ h1 in
        rw (e1, ap rotulo_de {x = drop 4 bruta} {y = o} (ground arith), rotulo-le_opcao o lida h2) q

primeiro-procura_rotulo :
    (falhas : Falhas) (vars : Efivars) (rotulo : Text) (ns : List ℕ) (n : ℕ)
    → primeiro (tem_rotulo falhas vars rotulo) ns ≡ some n
    → com_esse_rotulo (opcao_do_numero falhas vars n) rotulo ≡ true
    → procura_rotulo falhas vars rotulo ns ≡ opcao_do_numero falhas vars n
unfolding primeiro procura_rotulo
primeiro-procura_rotulo falhas vars rotulo [] n h c = cc
primeiro-procura_rotulo falhas vars rotulo (x ∷ xs) n h c =
    elim (Bool-cases (tem_rotulo falhas vars rotulo x)) [
      | inl t ↦
          let e : x ≡ n = ground arith in
          let q : com_esse_rotulo (opcao_do_numero falhas vars x) rotulo ≡ true = rw e c in
          rw q (ap (opcao_do_numero falhas vars) e)
      | inr t ↦ ground (
        arith,
        labelled_too falhas vars rotulo x,
        primeiro-procura_rotulo falhas vars rotulo xs n,
      )
    ]

read_after :
    (rotulo : Text) (esp : Esp) (carregador : Text) (vars : Efivars) (r : Registro) (o : Bytes)
    → all is_char rotulo ≡ true
    → load_option rotulo esp carregador ≡ some o
    → IsChoice sem_falhas rotulo vars r
    → le_opcao o
      ≡ some (record { rotulo = rotulo; guid = some esp.guid; arquivo = some carregador })
    → opcao_do_numero sem_falhas (depois rotulo esp carregador vars r o) r.numero
      ≡ some (record { rotulo = rotulo; guid = some esp.guid; arquivo = some carregador })
unfolding opcao_do_numero le_variavel to_le
read_after rotulo esp carregador vars r o cr eo c l =
    rw (entry_read rotulo esp carregador vars r o cr eo c) (ground arith)

search_after :
    (rotulo : Text) (esp : Esp) (carregador : Text) (vars : Efivars) (r : Registro) (o : Bytes)
    → all is_char rotulo ≡ true
    → load_option rotulo esp carregador ≡ some o
    → IsChoice sem_falhas rotulo vars r
    → le_opcao o
      ≡ some (record { rotulo = rotulo; guid = some esp.guid; arquivo = some carregador })
    → opcao_com_rotulo sem_falhas (depois rotulo esp carregador vars r o) rotulo
      ≡ some (some (record { rotulo = rotulo; guid = some esp.guid; arquivo = some carregador }))
unfolding opcao_com_rotulo ocupados
search_after rotulo esp carregador vars r o cr eo c l =
    let d = depois rotulo esp carregador vars r o in
    let first =
      primeiro-ordena (tem_rotulo sem_falhas d rotulo) (numeros d)
      ∙ found rotulo esp carregador vars r o cr eo c in
    let q = read_after rotulo esp carregador vars r o cr eo c l in
    rw (listados-sem_falhas d) (
      ap some (
        primeiro-procura_rotulo sem_falhas d rotulo (ordena (numeros d)) r.numero first
          (ap (λ x. com_esse_rotulo x rotulo) q ∙ (equal_iff rotulo rotulo).1 refl)
        ∙ q))

-- If no call fails, the texts have no NUL, the GUID has 16 bytes and the loader's path fits, then
-- what `registra` registered is what `opcao_com_rotulo` finds: the label, the partition's GUID and
-- the loader.
pub opcao_com_rotulo-registra :
    (rotulo : Text) (esp : Esp) (carregador : Text) (vars vars' : Efivars) (r : Registro)
    → all is_char rotulo ≡ true
    → all is_char carregador ≡ true
    → length esp.guid ≡ 16
    → IsShort carregador
    → registra sem_falhas rotulo esp carregador vars ≡ (ok r, vars')
    → opcao_com_rotulo sem_falhas vars' rotulo
      ≡ some (some (record { rotulo = rotulo; guid = some esp.guid; arquivo = some carregador }))
opcao_com_rotulo-registra rotulo esp carregador vars vars' r cr cc_ g s h =
    let (o, eo, er) = registra_choice rotulo esp carregador vars r vars' h in
    let c = escolhe-IsChoice sem_falhas rotulo vars r er in
    let e : vars' ≡ depois rotulo esp carregador vars r o =
      cc (registra_runs rotulo esp carregador vars r o eo er) in
    rw e (
      search_after rotulo esp carregador vars r o cr eo c
        (ap (λ p. p >>= le_opcao) (sym eo) ∙ le_opcao-load_option rotulo esp carregador cr cc_ g s))
