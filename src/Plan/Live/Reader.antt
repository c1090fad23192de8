-- ===== src/Plan/Live/Reader.antt =====
-- The reader of lines that the parsers of the live documents share, `live_value` and the tests
-- between its calls, and the rules that say what an accepted document looks like.
use distropica.Prelude.{
  ◌≡◌, refl, sym, ◌∙◌, ap, Bool, true, false, Option, none, some, List, [], ◌∷◌, ◌++◌,
  if◌then◌else◌, equal, equal_iff, subst, append_assoc,
}
use distropica.Plan.Live.{is_empty, recusa_se}
use distropica.Text.Pieces.{strip_prefix, strip_prefix_lem}
use distropica.Text.Utf16.{Text}

abbrev pub Leitor : Type 0 → Type 0
Leitor A = List Text → Option (A × List Text)

module _ {A B : Type 0} where
  abbrev pub segue : Option (A × List Text) → (A → Leitor B) → Option (B × List Text)
  segue none k = none
  segue (some (a, ls)) k = k a ls

  infixl 5 ◌>>=◌ ◌>>◌
  unfoldable pub ◌>>=◌ : Leitor A → (A → Leitor B) → Leitor B
  ◌>>=◌ m k ls = segue (m ls) k

  abbrev pub ◌>>◌ : Leitor A → Leitor B → Leitor B
  m >> n = m >>= λ _. n

module _ {A : Type 0} where
  unfoldable pub pure : A → Leitor A
  pure a ls = some (a, ls)

  abbrev junta_resto : List Text → Option A → Option (A × List Text)
  junta_resto ls none = none
  junta_resto ls (some a) = some (a, ls)

  unfoldable pub valida : Option A → Leitor A
  valida o ls = junta_resto ls o

  abbrev resultado : Option (A × List Text) → Option A
  resultado none = none
  resultado (some (a, _)) = some a

  unfoldable pub corre : Leitor A → List Text → Option A
  corre m ls = resultado (m ls)

abbrev pub bail_if : Bool → Leitor (Unit {0})
bail_if b = valida (recusa_se b)

abbrev com_valor : Option Text → List Text → Option (Text × List Text)
com_valor none ls = none
com_valor (some []) ls = none
com_valor (some (c ∷ cs)) ls = some (c ∷ cs, ls)

abbrev pub campo : Text → Text → Text
campo key value = key ++ b'=' ∷ value

unfoldable pub live_value : Text → Leitor Text
live_value key [] = none
live_value key (l ∷ ls) = com_valor (strip_prefix (key ++ b'=' ∷ []) l) ls

-- `lines.get(index) == Some(line)`, and the next index.
unfoldable pub linha : Text → Leitor (Unit {0})
linha line [] = none
linha line (l ∷ ls) = if equal l line then some (tt, ls) else none

unfoldable pub qualquer_linha : Leitor Text
qualquer_linha [] = none
qualquer_linha (l ∷ ls) = some (l, ls)

-- `index != lines.len()` is refused.
unfoldable pub fim : Leitor (Unit {0})
fim [] = some (tt, [])
fim (_ ∷ _) = none

-- Whatever lines the reader accepts, its result and those lines satisfy `Q`.
pub record Accepts {A : Type 0} (m : Leitor A) (Q : A → List Text → Type 0) : Type 0 where
  pub holds : (ls : List Text) (a : A) (rest : List Text) → m ls ≡ some (a, rest) → Q a ls

module _ {A : Type 0} {Q : A → List Text → Type 0} where
  pub Accepts-pure : (a : A) → ((ls : List Text) → Q a ls) → Accepts (pure a) Q
  unfolding pure
  Accepts-pure a q = record { holds = λ ls b rest h. subst (λ c. Q c ls) (cc) (q ls) }

  pub Accepts-valor :
      (key : Text) {k : Text → Leitor A}
      → ((v : Text) → is_empty v ≡ false → Accepts (k v) (λ a ls. Q a (campo key v ∷ ls)))
      → Accepts (live_value key >>= k) Q
  unfolding ◌>>=◌ live_value is_empty
  Accepts-valor key {k} f = record { holds = reads }
    where
      reads :
          (ls : List Text) (a : A) (rest : List Text)
          → (live_value key >>= k) ls ≡ some (a, rest)
          → Q a ls
      reads [] a rest h = cc
      reads (l ∷ ls) a rest h = of_option (strip_prefix (key ++ b'=' ∷ []) l) refl ls a rest h
        where
          of_option :
              (o : Option Text)
              → strip_prefix (key ++ b'=' ∷ []) l ≡ o
              → (ls : List Text) (a : A) (rest : List Text)
              → segue (com_valor o ls) k ≡ some (a, rest)
              → Q a (l ∷ ls)
          of_option none e ls a rest h = cc
          of_option (some []) e ls a rest h = cc
          of_option (some (c ∷ cs)) e ls a rest h =
              subst (λ m. Q a (m ∷ ls))
                (sym (
                  strip_prefix_lem (key ++ b'=' ∷ []) l (c ∷ cs) e
                  ∙ append_assoc key (b'=' ∷ []) (c ∷ cs)))
                ((f (c ∷ cs) refl).holds ls a rest h)

  pub Accepts-linha :
      (line : Text) {m : Leitor A}
      → Accepts m (λ a ls. Q a (line ∷ ls))
      → Accepts (linha line >> m) Q
  unfolding ◌>>=◌ linha
  Accepts-linha line {m} f = record { holds = reads }
    where
      reads :
          (ls : List Text) (a : A) (rest : List Text)
          → (linha line >> m) ls ≡ some (a, rest)
          → Q a ls
      reads [] a rest h = cc
      reads (l ∷ ls) a rest h = of_bool (equal l line) refl h
        where
          of_bool :
              (b : Bool)
              → equal l line ≡ b
              → segue (if b then some (tt, ls) else none) (λ _. m) ≡ some (a, rest)
              → Q a (l ∷ ls)
          of_bool false e h = cc
          of_bool true e h =
              subst (λ x. Q a (x ∷ ls)) (sym ((equal_iff l line).0 e)) (f.holds ls a rest h)

  pub Accepts-qualquer :
      {k : Text → Leitor A}
      → ((l : Text) → Accepts (k l) (λ a ls. Q a (l ∷ ls)))
      → Accepts (qualquer_linha >>= k) Q
  unfolding ◌>>=◌ qualquer_linha
  Accepts-qualquer {k} f = record { holds = reads }
    where
      reads :
          (ls : List Text) (a : A) (rest : List Text)
          → (qualquer_linha >>= k) ls ≡ some (a, rest)
          → Q a ls
      reads [] a rest h = cc
      reads (l ∷ ls) a rest h = (f l).holds ls a rest h

  pub Accepts-fim : {m : Leitor A} → Accepts m (λ a ls. ls ≡ [] → Q a ls) → Accepts (fim >> m) Q
  unfolding ◌>>=◌ fim
  Accepts-fim {m} f = record { holds = reads }
    where
      reads : (ls : List Text) (a : A) (rest : List Text) → (fim >> m) ls ≡ some (a, rest) → Q a ls
      reads [] a rest h = f.holds [] a rest h refl
      reads (l ∷ ls) a rest h = cc

  pub Accepts-valida :
      {B : Type 0} {o : Option B} {k : B → Leitor A}
      → ((b : B) → o ≡ some b → Accepts (k b) Q)
      → Accepts (valida o >>= k) Q
  unfolding ◌>>=◌ valida
  Accepts-valida {B} {o = none} {k} f = record { holds = λ ls a rest h. cc }
  Accepts-valida {B} {o = some b} {k} f = record {
    holds = λ ls a rest h. (f b refl).holds ls a rest h;
  }

  pub Accepts-bail :
      {b : Bool} {m : Leitor A} → (b ≡ false → Accepts m Q) → Accepts (bail_if b >> m) Q
  unfolding ◌>>=◌ valida
  Accepts-bail {b = true} {m} f = record { holds = λ ls a rest h. cc }
  Accepts-bail {b = false} {m} f = record { holds = λ ls a rest h. (f refl).holds ls a rest h }

  pub Accepts-then :
      {B C : Type 0} (m : Leitor B) (n : B → Leitor C) (k : C → Leitor A)
      → Accepts (m >>= λ b. n b >>= k) Q
      → Accepts ((m >>= n) >>= k) Q
  unfolding ◌>>=◌
  Accepts-then {B} {C} m n k f = record {
    holds = λ ls a rest h. f.holds ls a rest (sym (segue_then (m ls)) ∙ h);
  }
    where
      segue_then :
          (o : Option (B × List Text)) → segue (segue o n) k ≡ segue o (λ b ls. segue (n b ls) k)
      segue_then none = refl
      segue_then (some (b, ls)) = refl

  pub Accepts-given :
      {B : Type 0} (b : B) (k : B → Leitor A) → Accepts (k b) Q → Accepts (pure b >>= k) Q
  unfolding ◌>>=◌ pure
  Accepts-given {B} b k f = record { holds = λ ls a rest h. f.holds ls a rest h }

  of_result :
      {m : Leitor A}
      → Accepts m Q
      → (ls : List Text) (a : A) (o : Option (A × List Text)) → m ls ≡ o
      → resultado o ≡ some a
      → Q a ls
  of_result f ls a none e h = cc
  of_result f ls a (some (b, rest)) e h =
      f.holds ls a rest (e ∙ ap (λ x. some (x, rest)) {x = b} {y = a} (cc))

  pub corre-Accepts :
      {m : Leitor A} → Accepts m Q → (ls : List Text) (a : A) → corre m ls ≡ some a → Q a ls
  unfolding corre
  corre-Accepts {m} f ls a h = of_result f ls a (m ls) refl h
