-- ===== src/Efi/Registry/Order.antt =====
-- The numbers that a BootOrder holds, for `registra` of minipax/src/efi_boot.rs.
use distropica.Efi.Registry.Names.{nome_variavel}
use distropica.Efi.Registry.Store.{Efivars, lookup}
use distropica.Efi.Registry.{Falhas, outros, boot_order, ordem, ordem_bytes, corpo, le_variavel}
use distropica.Prelude.{
  ℕ, ◌+◌, ◌*◌, ◌<◌, ◌≡◌, refl, ◌∙◌, ap, Bool, true, false, Option, none, List, [], ◌∷◌,
  if◌then◌else◌, ltb, ◌==◌, all, Bytes, to_le, from_le, arith,
}
use distropica.Text.Utf8.{is_byte}

-- The 16-bit numbers of a body, low byte first.
unfoldable pub numeros_lidos : Bytes → List ℕ
numeros_lidos (a ∷ b ∷ resto) = (a + 256 * b) ∷ numeros_lidos resto
numeros_lidos _ = []

-- A list without one number.
unfoldable pub demais : ℕ → List ℕ → List ℕ
demais n [] = []
demais n (x ∷ xs) = let resto = demais n xs in if x == n then resto else x ∷ resto

-- The order that the firmware had, and what `registra` can know of it.
abbrev pub ordem_anterior : Efivars → List ℕ
ordem_anterior vars = numeros_lidos (corpo (lookup (nome_variavel boot_order) vars))

abbrev pub ordem_lida : Falhas → Efivars → List ℕ
ordem_lida falhas vars = if falhas.le (nome_variavel boot_order) then [] else ordem_anterior vars

-- The numbers of an order as it is read.
pub outros_small :
    (n : ℕ) (bs : Bytes) → all is_byte bs ≡ true → all (λ x. ltb x 65536) (outros n bs) ≡ true
unfolding outros from_le
outros_small n [] h = refl
outros_small n (a ∷ []) h = refl
outros_small n (a ∷ b ∷ bs) h = ground (arith, outros_small n bs)

outros-demais : (n : ℕ) (bs : Bytes) → outros n bs ≡ demais n (numeros_lidos bs)
unfolding outros demais numeros_lidos from_le
outros-demais n [] = refl
outros-demais n (a ∷ []) = refl
outros-demais n (a ∷ b ∷ bs) = ground (arith, outros-demais n bs)

numeros_lidos-ordem_bytes :
    (ns : List ℕ) → all (λ x. ltb x 65536) ns ≡ true → numeros_lidos (ordem_bytes ns) ≡ ns
unfolding numeros_lidos ordem_bytes to_le
numeros_lidos-ordem_bytes [] h = refl
numeros_lidos-ordem_bytes (n ∷ ns) h = ground (arith, numeros_lidos-ordem_bytes ns)

numeros_relidos :
    (n : ℕ) (falha : Bool) (o : Option Bytes)
    → n < 65536
    → all is_byte (corpo o) ≡ true
    → numeros_lidos (ordem_bytes (n ∷ outros n (corpo (if falha then none else o))))
      ≡ n ∷ demais n (if falha then [] else numeros_lidos (corpo o))
unfolding outros demais
numeros_relidos n true o h b = numeros_lidos-ordem_bytes (n ∷ []) (ground arith)
numeros_relidos n false o h b =
    numeros_lidos-ordem_bytes (n ∷ outros n (corpo o)) (ground (arith, outros_small n (corpo o) b))
    ∙ ap (◌∷◌ n) (outros-demais n (corpo o))

-- The order that is written: the number, and the others as they were read.
pub numeros_lidos-ordem :
    (falhas : Falhas) (n : ℕ) (vars : Efivars)
    → n < 65536
    → all is_byte (corpo (lookup (nome_variavel boot_order) vars)) ≡ true
    → numeros_lidos (ordem_bytes (ordem falhas n vars)) ≡ n ∷ demais n (ordem_lida falhas vars)
unfolding ordem le_variavel
numeros_lidos-ordem falhas n vars h b =
    numeros_relidos n (falhas.le (nome_variavel boot_order))
      (lookup (nome_variavel boot_order) vars) h b
