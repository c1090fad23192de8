-- ===== src/Plan/Order/Visit.antt =====
-- `visit` of the walk over the material edges: what a visit does, by induction on its fuel.
use distropica.Effects.Fallible.{◌>>=◌}
use distropica.Effects.{Outcome, ok, err}
use distropica.Plan.Order.Names.{contains, contains-same, contains-push, contains-push-other}
use distropica.Plan.Order.Walk.{
  In, In-head, In-later, In-cases, fora, fora-push, Reach, Reach-trans, edge, step, IsOrdered,
  IsOrdered-append,
}
use distropica.Plan.Order.{Erro, ciclo, sem_combustivel, Visita, visit_all, visit, conclui}
use distropica.Prelude.{
  ℕ, zero, suc, ◌<◌, ◌≡◌, refl, sym, ◌∙◌, ap, ◌⊎◌, inl, inr, Bool, true, false, ◌||◌, List, [], ◌∷◌,
  if◌then◌else◌, equal, equal_iff, arith, subst,
}
use distropica.Text.Utf16.{Text}

module _ (adjacency : Text → List Text) where
  -- What is handled is in order, and `seen` holds the names of `out`.
  pub record Walked (st : Visita) : Type 0 where
    pub ordered : IsOrdered adjacency [] st.out
    pub same : (n : Text) → contains n st.seen ≡ contains n st.out

  abbrev pub From : Text → Text → Type 0
  From name n = (n ≡ name) ⊎ Reach adjacency name n

  -- From `st` to `st'`: `names` are handled, nothing of the stack is, and only what is in `R`.
  pub record Visited (R : Text → Type 0) (names stack : List Text) (st st' : Visita) : Type 0 where
    pub walked : Walked st'
    pub grows : (n : Text) → In n st.out → In n st'.out
    pub kept : (n : Text) → In n stack → contains n st'.out ≡ contains n st.out
    pub hit : (n : Text) → In n names → In n st'.out
    pub reached : (n : Text) → In n st'.out → In n st.out ⊎ R n

  abbrev pub IsCyclic : Erro → Type 0
  IsCyclic ciclo = (c : Text) × Reach adjacency c c
  IsCyclic sem_combustivel = ⊥

  abbrev pub Post : (Text → Type 0) → List Text → List Text → Visita → Outcome Erro Visita → Type 0
  Post R names stack st (ok st') = Visited R names stack st st'
  Post R names stack st (err e) = IsCyclic e

  module _ (R : Text → Type 0) (stack : List Text) where
    none-Visited : (st : Visita) → Walked st → Visited R [] stack st st
    unfolding contains
    none-Visited st w = record {
      walked = w;
      grows = λ n i. i;
      kept = λ n i. refl;
      hit = λ n i. cc;
      reached = λ n i. inl i;
    }

    both-Visited :
        (d : Text) (ds : List Text) (st st1 st2 : Visita)
        → Visited R (d ∷ []) stack st st1
        → Visited R ds stack st1 st2
        → Visited R (d ∷ ds) stack st st2
    both-Visited d ds st st1 st2 v w = record {
      walked = w.walked;
      grows = λ n i. w.grows n (v.grows n i);
      kept = λ n i. w.kept n i ∙ v.kept n i;
      hit = λ n i. elim (In-cases n d ds i) [
        | inl p ↦ w.grows n (v.hit n (subst (λ m. In n (m ∷ [])) p (In-head n [])))
        | inr j ↦ w.hit n j
      ];
      reached = λ n i. elim (w.reached n i) [ inl j ↦ v.reached n j | inr r ↦ inr r ];
    }

    both-Post :
        (d : Text) (ds : List Text) (st st1 : Visita)
        → Visited R (d ∷ []) stack st st1
        → (o : Outcome Erro Visita) → Post R ds stack st1 o
        → Post R (d ∷ ds) stack st o
    both-Post d ds st st1 v (ok st2) w = both-Visited d ds st st1 st2 v w
    both-Post d ds st st1 v (err e) w = w

    then-Post :
        (d : Text) (ds : List Text) (st : Visita) (k : Visita → Outcome Erro Visita)
        → ((st1 : Visita) → Walked st1 → Post R ds stack st1 (k st1))
        → (o : Outcome Erro Visita) → Post R (d ∷ []) stack st o
        → Post R (d ∷ ds) stack st (o >>= k)
    then-Post d ds st k rest (err e) v = v
    then-Post d ds st k rest (ok st1) v = both-Post d ds st st1 v (k st1) (rest st1 v.walked)

    pub visit_all-Post :
        (visita : Text → Visita → Outcome Erro Visita) (ds : List Text)
        → ((d : Text)
            → In d ds
            → (st : Visita) → Walked st
            → Post R (d ∷ []) stack st (visita d st))
        → (st : Visita) → Walked st
        → Post R ds stack st (visit_all visita ds st)
    unfolding visit_all
    visit_all-Post visita [] h st w = none-Visited st w
    visit_all-Post visita (d ∷ ds) h st w =
        then-Post d ds st (visit_all visita ds)
          (visit_all-Post visita ds (λ e i. h e (In-later e d ds i))) (visita d st)
          (h d (In-head d ds) st w)

  -- The step of `visit`: all dependencies are handled, with `name` on the stack; then `name` is.
  conclui-Visited :
      (name : Text) (stack : List Text) (st st' : Visita)
      → contains name st.seen ≡ false
      → contains name stack ≡ false
      → Walked st
      → Visited (Reach adjacency name) (adjacency name) (name ∷ stack) st st'
      → Visited (From name) (name ∷ []) stack st (conclui name st')
  unfolding contains
  conclui-Visited name stack st st' s k w v =
      let fresh : contains name st'.out ≡ false =
        v.kept name (In-head name stack) ∙ sym (w.same name) ∙ s in
      record {
        walked = record {
          ordered = IsOrdered-append adjacency [] st'.out name v.walked.ordered fresh v.hit;
          same = λ n.
              ap (λ b. equal n name || b) (v.walked.same n) ∙ sym (contains-push n name st'.out);
        };
        grows = λ n i. ground (arith, v.grows n i, contains-push n name st'.out);
        kept = λ n i.
            contains-push-other n name stack st'.out i k ∙ v.kept n (In-later n name stack i);
        hit = λ n i. ground (arith, contains-push n name st'.out);
        reached =
            λ n i. arrives n (In-cases n name st'.out (sym (contains-push n name st'.out) ∙ i));
      }
    where
      arrives : (n : Text) → (n ≡ name) ⊎ In n st'.out → In n st.out ⊎ From name n
      arrives n (inl p) = inr (inl p)
      arrives n (inr i) = elim (v.reached n i) [ inl j ↦ inl j | inr r ↦ inr (inr r) ]

  -- The tests of `visit`, for what the dependencies give.
  tests-Post :
      (name : Text) (stack : List Text) (st : Visita) (o : Outcome Erro Visita) (b c : Bool)
      → contains name st.seen ≡ b
      → contains name stack ≡ c
      → ((m : Text) → In m stack → Reach adjacency m name)
      → Walked st
      → (c ≡ false → Post (Reach adjacency name) (adjacency name) (name ∷ stack) st o)
      → Post
          (From name)
          (name ∷ [])
          stack
          st
          (if b then ok st else if c then err ciclo else o >>= λ st'. ok (conclui name st'))
  unfolding contains
  tests-Post name stack st o true c p q ch w h = record {
    walked = w;
    grows = λ n i. i;
    kept = λ n i. refl;
    hit = λ n i. ground (arith, equal_iff n name, w.same name, p, contains-same n name st.out);
    reached = λ n i. inl i;
  }
  tests-Post name stack st o false true p q ch w h = (name, ch name q)
  tests-Post name stack st (ok st') false false p q ch w h =
      conclui-Visited name stack st st' p q w (h refl)
  tests-Post name stack st (err e) false false p q ch w h = h refl

  deeper :
      (name d : Text) (stack : List Text)
      → In d (adjacency name)
      → ((m : Text) → In m stack → Reach adjacency m name)
      → (m : Text) → In m (name ∷ stack)
      → Reach adjacency m d
  deeper name d stack i ch m j = elim (In-cases m name stack j) [
    | inl p ↦ subst (λ k. Reach adjacency k d) (sym p) (edge i)
    | inr k ↦ Reach-trans adjacency (ch m k) (edge i)
  ]

  wider :
      (name d : Text) (names stack : List Text) (st : Visita) (o : Outcome Erro Visita)
      → In d (adjacency name)
      → Post (From d) names stack st o
      → Post (Reach adjacency name) names stack st o
  wider name d names stack st (err e) i v = v
  wider name d names stack st (ok st') i v = record {
    walked = v.walked;
    grows = v.grows;
    kept = v.kept;
    hit = v.hit;
    reached = λ n j. arrives n (v.reached n j);
  }
    where
      arrives : (n : Text) → In n st.out ⊎ From d n → In n st.out ⊎ Reach adjacency name n
      arrives n (inl j) = inl j
      arrives n (inr (inl p)) = inr (edge (subst (λ k. In k (adjacency name)) (sym p) i))
      arrives n (inr (inr r)) = inr (step i r)

  pub visit-Post :
      (U : List Text)
      → ((n d : Text) → In d (adjacency n) → In d U)
      → (fuel : ℕ) (name : Text) (stack : List Text) (st : Visita) → In name U
      → fora U stack < fuel
      → ((m : Text) → In m stack → Reach adjacency m name)
      → Walked st
      → Post (From name) (name ∷ []) stack st (visit adjacency fuel name stack st)
  unfolding visit
  visit-Post U c zero name stack st i f ch w = omega arith
  visit-Post U c (suc fuel) name stack st i f ch w =
      tests-Post name stack st
        (visit_all (λ d. visit adjacency fuel d (name ∷ stack)) (adjacency name) st)
        (contains name st.seen) (contains name stack) refl refl ch w
        (λ q.
          visit_all-Post (Reach adjacency name) (name ∷ stack)
            (λ d. visit adjacency fuel d (name ∷ stack)) (adjacency name)
            (λ d j st1 w1.
              wider name d (d ∷ []) (name ∷ stack) st1 (visit adjacency fuel d (name ∷ stack) st1) j
                (visit-Post U c fuel d (name ∷ stack) st1 (c name d j)
                  (omega (arith, fora-push U stack name i q)) (deeper name d stack j ch) w1))
            st w)
