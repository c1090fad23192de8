-- ===== src/Efi/Registry/Registered.antt =====
-- What `registra` of minipax/src/efi_boot.rs leaves in the efivarfs, whatever call fails.
use distropica.Effects.Does.{
  Does, After, Does-then, Does-pure, Does-gets, Does-guard, Does-from_option,
}
use distropica.Effects.{Outcome, ok, err, Exec, ◌>>=◌}
use distropica.Efi.Registry.Choice.{IsChoice, escolhe-IsChoice, IsFair, IsChoice-IsFair}
use distropica.Efi.Registry.Names.{nome_variavel, nome_boot, nome_boot-apart}
use distropica.Efi.Registry.Order.{numeros_lidos, demais, ordem_lida, numeros_lidos-ordem}
use distropica.Efi.Registry.Store.{Efivars, lookup, set, lookup-set_other, lookup-set_self}
use distropica.Efi.Registry.{
  Falhas, Erro, nao_abre, nao_grava, atributos, le_variavel, escreve_variavel, Registro, outros,
  boot_order, ordem, ordem_bytes, registra, conteudo_de, corpo, escrito,
}
use distropica.Efi.{Esp, load_option}
use distropica.Prelude.{
  ℕ, ◌<◌, ◌≡◌, ◌≢◌, ◌⊎◌, inl, inr, refl, sym, ◌∙◌, ap, Bool, true, false, Option, none, some, ◌∷◌,
  ◌++◌, if◌then◌else◌, Bytes, to_le, take, all,
}
use distropica.Text.Utf16.{Text}
use distropica.Text.Utf8.{is_byte}

-- One write of a variable: done, refused before it began, or stopped behind some bytes.
Does-escreve :
    {A : Type 0} {Q : Outcome Erro A → Efivars → Type 0} {s : Efivars} (falhas : Falhas)
    (nome : Text) (dados : Bytes) (k : Unit {0} → Exec Efivars Erro A)
    → Q (err nao_abre) s
    → ((bytes : Bytes) → Q (err nao_grava) (set (nome_variavel nome) bytes s))
    → Does (k tt) (set (nome_variavel nome) (conteudo_de dados) s) Q
    → Does (escreve_variavel falhas nome dados >>= k) s Q
unfolding escreve_variavel
Does-escreve {A} {Q} {s} falhas nome dados k x y d =
    Does-then Q k (escreve_variavel falhas nome dados) s
      (feito (falhas.abre (nome_variavel nome)) (falhas.grava (nome_variavel nome))) refl
      (of_open (falhas.abre (nome_variavel nome)) (falhas.grava (nome_variavel nome)))
  where
    feito : Bool → Option ℕ → Outcome Erro (Unit {0}) × Efivars
    feito b o =
        if b then (err nao_abre, s) else escrito (nome_variavel nome) (conteudo_de dados) o s

    of_open : (b : Bool) (o : Option ℕ) → After Q k (feito b o)
    of_open true o = x
    of_open false none = d
    of_open false (some n) = y (take n (conteudo_de dados))

module _ (falhas : Falhas) (rotulo : Text) (vars : Efivars) where
  module _ (esp : Esp) (carregador : Text) where
    -- What a success leaves: the entry, its number at the head of the order with the others behind
    -- it as they were read, and every other variable.
    pub record IsRegistered (r : Registro) (vars' : Efivars) : Type 0 where
      pub choice : IsChoice falhas rotulo vars r
      pub fair : IsFair falhas rotulo vars r
      pub entry :
          (o : Bytes) × (load_option rotulo esp carregador ≡ some o)
          × (lookup (nome_variavel (nome_boot r.numero)) vars' ≡ some (to_le 4 atributos ++ o))
      pub order :
          (dados : Bytes) × (lookup (nome_variavel boot_order) vars'
            ≡ some (to_le 4 atributos ++ dados))
          × (numeros_lidos dados ≡ r.numero ∷ demais r.numero (ordem_lida falhas vars))
      pub others :
          (nome : Text)
          → nome ≢ nome_variavel (nome_boot r.numero)
          → nome ≢ nome_variavel boot_order
          → lookup nome vars' ≡ lookup nome vars

    -- What an error behind the choice of a number leaves: every variable but the order and the entry
    -- of that number, and the order too unless a write stopped in the middle.
    pub record IsHalf (e : Erro) (vars' : Efivars) (r : Registro) : Type 0 where
      pub choice : IsChoice falhas rotulo vars r
      pub kept :
          (nome : Text)
          → nome ≢ nome_variavel (nome_boot r.numero)
          → nome ≢ nome_variavel boot_order
          → lookup nome vars' ≡ lookup nome vars
      pub order_kept :
          e ≢ nao_grava
          → lookup (nome_variavel boot_order) vars' ≡ lookup (nome_variavel boot_order) vars

    abbrev pub IsSpared : Erro → Efivars → Type 0
    IsSpared e vars' = (vars' ≡ vars) ⊎ ((r : Registro) × IsHalf e vars' r)

    abbrev pub Left : Outcome Erro Registro → Efivars → Type 0
    Left (ok r) vars' = IsRegistered r vars'
    Left (err e) vars' = IsSpared e vars'

    ordem-set :
        (n m : ℕ) (o : Bytes)
        → n < 65536
        → ordem falhas m (set (nome_variavel (nome_boot n)) o vars) ≡ ordem falhas m vars
    unfolding ordem le_variavel
    ordem-set n m o h =
        ap (λ l. m ∷ outros m (corpo (if falhas.le (nome_variavel boot_order) then none else l)))
          (lookup-set_other (nome_variavel (nome_boot n)) (nome_variavel boot_order) o vars
            (λ e. nome_boot-apart n h (sym e)))

    -- For any label, partition, loader and files, with bytes in BootOrder, and whatever calls fail,
    -- `registra` ends either as `IsRegistered` or, with an error, as `IsSpared`. A success has
    -- written the load option under a number below 65536: the least one, among the files that the
    -- listing showed, whose option could be read and has the label, or, if there is none, a number
    -- that none of these files has; the files that the listing did not show are those whose directory
    -- entry could not be read. It has left BootOrder as that number and behind it, in their order, the
    -- other numbers that BootOrder held, or none if BootOrder could not be read. It has left every
    -- other variable as it was. An error leaves every variable as it was, or every one but BootOrder and the entry
    -- of a number so chosen, and BootOrder too unless a write stopped in the middle.
    pub registra-Left :
        all is_byte (corpo (lookup (nome_variavel boot_order) vars)) ≡ true
        → Left
            (registra falhas rotulo esp carregador vars).0
            (registra falhas rotulo esp carregador vars).1
    unfolding registra
    registra-Left bytes_only = run.holds
      where
        run : Does (registra falhas rotulo esp carregador) vars Left
        run =
            Does-guard _ _ _ (λ _. inl refl)
              λ _.
                Does-from_option _ _ _ (λ _. inl refl)
                  λ opcao eo.
                    Does-guard _ _ _ (λ _. inl refl)
                      λ _. Does-gets _ _ (
                        Does-from_option _ _ _ (λ _. inl refl)
                          λ r er.
                            let c = escolhe-IsChoice falhas rotulo vars r er in
                            let bn = nome_variavel (nome_boot r.numero) in
                            let bo = nome_variavel boot_order in
                            Does-escreve falhas _ _ _ (inl refl)
                              (λ bytes. inr (
                                r,
                                record {
                                  choice = c;
                                  kept = λ nome a b. lookup-set_other bn nome bytes vars a;
                                  order_kept = λ n. absurd (n refl);
                                },
                              ))
                              (Does-gets _ _ (
                                Does-escreve falhas _ _ _
                                  (inr (
                                    r,
                                    record {
                                      choice = c;
                                      kept = λ nome a b. lookup-set_other bn nome _ vars a;
                                      order_kept = λ n.
                                          lookup-set_other bn bo _ vars
                                            (λ e. nome_boot-apart r.numero c.bounded (sym e));
                                    },
                                  ))
                                  (λ bytes. inr (
                                    r,
                                    record {
                                      choice = c;
                                      kept = λ nome a b.
                                          lookup-set_other bo nome bytes _ b
                                          ∙ lookup-set_other bn nome _ vars a;
                                      order_kept = λ n. absurd (n refl);
                                    },
                                  ))
                                  (Does-pure r (record {
                                    choice = c;
                                    fair = IsChoice-IsFair falhas rotulo vars r c;
                                    entry = (
                                      opcao,
                                      eo,
                                      lookup-set_other bo bn _ _
                                            (nome_boot-apart r.numero c.bounded)
                                          ∙ lookup-set_self bn _ vars,
                                    );
                                    order = (
                                      ordem_bytes (ordem falhas r.numero vars),
                                      lookup-set_self bo _ _
                                          ∙ ap (λ l. some (to_le 4 atributos ++ ordem_bytes l))
                                              (ordem-set r.numero r.numero _ c.bounded),
                                      numeros_lidos-ordem falhas r.numero vars c.bounded bytes_only,
                                    );
                                    others = λ nome a b.
                                        lookup-set_other bo nome _ _ b
                                        ∙ lookup-set_other bn nome _ vars a;
                                  })))))
