-- ===== src/Channel/Catalog/Written.antt =====
-- The lines of `lock_body` of minitrue/src/channel.rs and their length.
use distropica.Channel.Catalog.{
  Snapshot, Selection, fragmento, campos_do_canal, campos_do_pacote, append_lock_fragment,
  escreve_todos, cabecalho_do_lock, contagem_de_pacotes, corpo_do_lock,
}
use distropica.Channel.Lock.{max_lock_bytes, max_lock_entries}
use distropica.Effects.Results.{◌>>=◌, Gives, Gives-ok, Gives-bind}
use distropica.Prelude.{
  ℕ, ◌+◌, ◌^◌, ◌≡◌, refl, sym, ◌∙◌, ap, subst, false, ◌||◌, List, [], ◌∷◌, ◌++◌, append_assoc,
  append-nil, ltb, leb, length, length-append, arith, Bool-cases, inl, inr, nenhum, Bytes,
}
use distropica.Text.Lines.{linha}
use distropica.Text.Utf16.{Text}
use distropica.Text.Utf8.{utf8, utf8_of}

utf8_of-append : (c : ℕ) (x y : Bytes) → utf8_of c (x ++ y) ≡ utf8_of c x ++ y
unfolding utf8_of
utf8_of-append c x y = ground arith

utf8-append : (a b : Text) → utf8 (a ++ b) ≡ utf8 a ++ utf8 b
unfolding utf8
utf8-append [] b = refl
utf8-append (c ∷ a) b = ap (utf8_of c) (utf8-append a b) ∙ utf8_of-append c (utf8 a) (utf8 b)

linha-append : (k v r s : Text) → linha k v r ++ s ≡ linha k v (r ++ s)
linha-append k v r s =
    append_assoc k (b'=' ∷ (v ++ 0x0a ∷ r)) s
    ∙ ap (λ t. k ++ b'=' ∷ t) (append_assoc v (0x0a ∷ r) s)

pub fragmento-append :
    (ps qs : List (Text × Text)) → fragmento (ps ++ qs) ≡ fragmento ps ++ fragmento qs
unfolding fragmento
fragmento-append [] qs = refl
fragmento-append ((k, v) ∷ ps) qs =
    ap (linha k v) (fragmento-append ps qs) ∙ sym (linha-append k v (fragmento ps) (fragmento qs))

-- The limit of the reader.
abbrev pub Cabe : Text → Type 0
Cabe t = ltb max_lock_bytes (length (utf8 t)) ≡ false

length-utf8-append : (a b : Text) → length (utf8 (a ++ b)) ≡ length (utf8 a) + length (utf8 b)
length-utf8-append a b = ap length (utf8-append a b) ∙ length-append (utf8 a) (utf8 b)

append-Cabe : (body f : Text) → Gives (append_lock_fragment body f) λ b. (b ≡ body ++ f) × Cabe b
unfolding append_lock_fragment
append-Cabe body f = record {
  holds = λ b h.
      let n = length (utf8 body) + length (utf8 f) in
      elim (Bool-cases (leb (2 ^ 64) n || ltb max_lock_bytes n)) [
        | inl t ↦ cc (h, t)
        | inr t ↦
            let e : b ≡ body ++ f = ground (arith, h, t) in
            (
              e,
              subst Cabe (sym e)
                  (ap (ltb max_lock_bytes) (length-utf8-append body f) ∙ (nenhum _ _ t).1),
            )
      ];
}

module _ {A : Type 0} (campos : ℕ → A → List (Text × Text)) where
  unfoldable pub campos_todos : ℕ → List A → List (Text × Text)
  campos_todos index [] = []
  campos_todos index (x ∷ xs) = campos index x ++ campos_todos (index + 1) xs

  escreve_todos-Cabe :
      (index : ℕ) (body : Text) (xs : List A)
      → Cabe body
      → Gives
          (escreve_todos campos index body xs)
          λ b. (b ≡ body ++ fragmento (campos_todos index xs)) × Cabe b
  unfolding escreve_todos campos_todos fragmento
  escreve_todos-Cabe index body [] c = Gives-ok body (sym (append-nil body), c)
  escreve_todos-Cabe index body (x ∷ xs) c = Gives-bind _ _ λ b h.
      let (e, d) = (append-Cabe body (fragmento (campos index x))).holds b h in
      record {
        holds = λ b' h'.
            let (e', d') = (escreve_todos-Cabe (index + 1) b xs d).holds b' h' in
            (
              e'
                  ∙ ap (λ t. t ++ fragmento (campos_todos (index + 1) xs)) e
                  ∙ append_assoc body (fragmento (campos index x))
                      (fragmento (campos_todos (index + 1) xs))
                  ∙ ap (λ t. body ++ t)
                      (sym (fragmento-append (campos index x) (campos_todos (index + 1) xs))),
              d',
            );
      }

abbrev pub campos_do_lock : List Snapshot → List Selection → List (Text × Text)
campos_do_lock cs ps =
    cabecalho_do_lock (length cs)
    ++ (campos_todos campos_do_canal 0 cs
        ++ (contagem_de_pacotes (length ps) ++ campos_todos campos_do_pacote 0 ps))

-- The fields of the lock, within the limits of the reader.
pub record Escrito (cs : List Snapshot) (ps : List Selection) (body : Text) : Type 0 where
  pub texto_todo : body ≡ fragmento (campos_do_lock cs ps)
  pub cabe : Cabe body
  pub canais : ltb max_lock_entries (length cs) ≡ false
  pub pacotes : ltb max_lock_entries (length ps) ≡ false

-- Four pieces, one after the other.
quatro :
    (hs cs ks ps : List (Text × Text)) (x y z : Text)
    → x ≡ fragmento hs ++ fragmento cs
    → y ≡ x ++ fragmento ks
    → z ≡ y ++ fragmento ps
    → z ≡ fragmento (hs ++ (cs ++ (ks ++ ps)))
quatro hs cs ks ps x y z p q r =
    rw
      (
        r,
        q,
        p,
        fragmento-append hs (cs ++ (ks ++ ps)),
        fragmento-append cs (ks ++ ps),
        fragmento-append ks ps,
      )
      (append_assoc (fragmento hs ++ fragmento cs) (fragmento ks) (fragmento ps)
        ∙ append_assoc (fragmento hs) (fragmento cs) (fragmento ks ++ fragmento ps))

depois_do_cabecalho :
    (cs : List Snapshot) (ps : List Selection)
    → Cabe (fragmento (cabecalho_do_lock (length cs)))
    → Gives
        (escreve_todos campos_do_canal 0 (fragmento (cabecalho_do_lock (length cs))) cs >>= λ body.
          append_lock_fragment body (fragmento (contagem_de_pacotes (length ps))) >>= λ body'.
          escreve_todos campos_do_pacote 0 body' ps)
        λ b. (b ≡ fragmento (campos_do_lock cs ps)) × Cabe b
depois_do_cabecalho cs ps u = Gives-bind _ _ λ x hx.
    let (p, cx) = (escreve_todos-Cabe campos_do_canal 0 _ cs u).holds x hx in
    Gives-bind _ _ λ y hy.
      let (q, cy) = (append-Cabe x _).holds y hy in
      record {
        holds = λ z hz.
            let (r, cz) = (escreve_todos-Cabe campos_do_pacote 0 y ps cy).holds z hz in
            (
              quatro (cabecalho_do_lock (length cs)) (campos_todos campos_do_canal 0 cs)
                  (contagem_de_pacotes (length ps)) (campos_todos campos_do_pacote 0 ps) x y z p q
                  r,
              cz,
            );
      }

pub corpo_do_lock-Escrito :
    (cs : List Snapshot) (ps : List Selection) → Gives (corpo_do_lock cs ps) (Escrito cs ps)
unfolding corpo_do_lock
corpo_do_lock-Escrito cs ps =
    elim (Bool-cases (ltb max_lock_entries (length cs) || ltb max_lock_entries (length ps))) [
      | inl t ↦ record { holds = λ b h. cc (h, t) }
      | inr t ↦
          elim (Bool-cases
            (ltb max_lock_bytes (length (utf8 (fragmento (cabecalho_do_lock (length cs))))))) [
              | inl u ↦ record { holds = λ b h. cc (h, t, u) }
              | inr u ↦ record {
                holds = λ b h.
                    let (e, c) = (depois_do_cabecalho cs ps u).holds b (ground (arith, h, t, u)) in
                    let (k, l) = nenhum _ _ t in
                    record { texto_todo = e; cabe = c; canais = k; pacotes = l };
              }
            ]
    ]
