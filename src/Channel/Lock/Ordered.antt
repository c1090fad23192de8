-- ===== src/Channel/Lock/Ordered.antt =====
-- The order in which a loop of `parse_lock` of minitrue/src/channel.rs reads the names of a map.
use distropica.Channel.Lock.{Mapa, get, em_ordem}
use distropica.Plan.Order.Names.{text_lt}
use distropica.Prelude.{
  ◌≡◌, refl, sym, subst, Bool, true, ◌&&◌, Option, none, some, [], ◌∷◌, ◌++◌, ambos, Bool-cases,
  equal, equal_iff, inl, inr, arith,
}
use distropica.Text.Utf16.{Text}

-- The names of a map ascend.
unfoldable pub ascendem : {A : Type 0} → Mapa A → Bool
ascendem [] = true
ascendem ((n, a) ∷ []) = true
ascendem ((n, a) ∷ (m, b) ∷ r) = text_lt n m && ascendem ((m, b) ∷ r)

module _ {A : Type 0} where
  unfoldable pub ultimo : Mapa A → Option Text
  ultimo [] = none
  ultimo ((n, a) ∷ []) = some n
  ultimo ((n, a) ∷ x ∷ r) = ultimo (x ∷ r)

  ultimo-push : (m : Mapa A) (n : Text) (a : A) → ultimo (m ++ (n, a) ∷ []) ≡ some n
  unfolding ultimo
  ultimo-push [] n a = refl
  ultimo-push (x ∷ []) n a = refl
  ultimo-push (x ∷ y ∷ m) n a = ultimo-push (y ∷ m) n a

  ascendem-push :
      (m : Mapa A) (n : Text) (a : A)
      → ascendem m ≡ true
      → em_ordem (ultimo m) n ≡ true
      → ascendem (m ++ (n, a) ∷ []) ≡ true
  unfolding ascendem ultimo
  ascendem-push [] n a h o = refl
  ascendem-push ((k, x) ∷ []) n a h o = rw o refl
  ascendem-push ((k, x) ∷ (l, y) ∷ m) n a h o =
      let (p, q) = ambos (text_lt k l) (ascendem ((l, y) ∷ m)) h in
      rw (p, ascendem-push ((l, y) ∷ m) n a q o) refl

module _ {A : Type 0} (P : Text → A → Type 0) where
  abbrev pub Todos : Mapa A → Type 0
  Todos [] = Unit {0}
  Todos ((n, a) ∷ m) = P n a × Todos m

  Todos-push : (m : Mapa A) (n : Text) (a : A) → Todos m → P n a → Todos (m ++ (n, a) ∷ [])
  Todos-push [] n a t p = (p, tt)
  Todos-push ((k, x) ∷ m) n a (q, t) p = (q, Todos-push m n a t p)

  -- What a loop has read so far.
  pub record Lidos (previous : Option Text) (m : Mapa A) : Type 0 where
    pub todos : Todos m
    pub crescente : ascendem m ≡ true
    pub anterior : ultimo m ≡ previous

  pub Lidos-nil : Lidos none []
  unfolding ascendem ultimo
  Lidos-nil = record { todos = tt; crescente = refl; anterior = refl }

  pub Lidos-push :
      (previous : Option Text) (m : Mapa A) (n : Text) (a : A)
      → Lidos previous m
      → (em_ordem previous n ≡ true) × P n a
      → Lidos (some n) (m ++ (n, a) ∷ [])
  Lidos-push previous m n a l (o, p) = record {
    todos = Todos-push m n a l.todos p;
    crescente =
        ascendem-push m n a l.crescente (subst (λ q. em_ordem q n ≡ true) (sym l.anterior) o);
    anterior = ultimo-push m n a;
  }

  -- What a map says of the name that it is asked for.
  pub Todos-get : (m : Mapa A) (k : Text) (a : A) → Todos m → get k m ≡ some a → P k a
  unfolding get
  Todos-get [] k a t h = cc (h)
  Todos-get ((n, x) ∷ m) k a (q, t) h = elim (Bool-cases (equal k n)) [
    | inl b ↦ subst (P k) (cc (h, b)) (subst (λ z. P z x) (sym ((equal_iff k n).0 b)) q)
    | inr b ↦ Todos-get m k a t (ground (arith, h, b))
  ]
