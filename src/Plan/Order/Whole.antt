-- ===== src/Plan/Order/Whole.antt =====
-- `material_order` of minitrue/src/plan.rs as a whole: the loop over the material nodes, with the
-- fuel it is given.
use distropica.Effects.Fallible.{◌>>=◌}
use distropica.Effects.{Outcome, ok, err}
use distropica.Plan.Order.Acyclic.{IsOrdered-acyclic}
use distropica.Plan.Order.Edges.{dependencias-depende, depende-destinos}
use distropica.Plan.Order.Names.{contains, contains-append}
use distropica.Plan.Order.Visit.{Walked, From, Post, IsCyclic, visit-Post, visit_all-Post}
use distropica.Plan.Order.Walk.{In, fora-le-length, Reach, IsOrdered}
use distropica.Plan.Order.{
  Erro, Visita, PlanEdge, PlanNode, arestas_materiais, dependencias, visit_all, visit, materiais,
  destinos, vazia, material_order,
}
use distropica.Prelude.{suc, refl, inl, inr, List, [], ◌∷◌, ◌++◌, length, arith}
use distropica.Text.Utf16.{Text}

abbrev pub adyacencia : List PlanEdge → Text → List Text
adyacencia edges = dependencias (arestas_materiais edges [])

-- What an order of the material packages is: each once, behind its dependencies, no cycle, every
-- material node in it, and nothing that no material node reaches.
pub record IsMaterialOrder (nodes : List PlanNode) (edges : List PlanEdge) (out : List Text)
    : Type 0 where
  pub ordered : IsOrdered (adyacencia edges) [] out
  pub acyclic : (n : Text) → In n out → ¬ Reach (adyacencia edges) n n
  pub hit : (n : Text) → In n (materiais nodes) → In n out
  pub reached :
      (n : Text) → In n out → (r : Text) × In r (materiais nodes) × From (adyacencia edges) r n

abbrev pub Ordering : List PlanNode → List PlanEdge → Outcome Erro (List Text) → Type 0
Ordering nodes edges (ok out) = IsMaterialOrder nodes edges out
Ordering nodes edges (err e) = IsCyclic (adyacencia edges) e

universo-closed :
    (nodes : List PlanNode) (edges : List PlanEdge) (n d : Text)
    → In d (adyacencia edges n)
    → In d (materiais nodes ++ destinos edges)
universo-closed nodes edges n d i = ground (
  arith,
  contains-append d (materiais nodes) (destinos edges),
  dependencias-depende edges n d,
  depende-destinos edges n d,
)

module _ (nodes : List PlanNode) (edges : List PlanEdge) where
  abbrev Root : Text → Type 0
  Root n = (r : Text) × In r (materiais nodes) × From (adyacencia edges) r n

  vazia-Walked : Walked (adyacencia edges) vazia
  unfolding contains
  vazia-Walked = record { ordered = tt; same = λ n. refl }

  From-Root :
      (r : Text) (names : List Text) (st : Visita) (o : Outcome Erro Visita)
      → In r (materiais nodes)
      → Post (adyacencia edges) (From (adyacencia edges) r) names [] st o
      → Post (adyacencia edges) Root names [] st o
  From-Root r names st (err e) i v = v
  From-Root r names st (ok st') i v = record {
    walked = v.walked;
    grows = v.grows;
    kept = v.kept;
    hit = v.hit;
    reached = λ n j. elim (v.reached n j) [ inl k ↦ inl k | inr f ↦ inr (r, i, f) ];
  }

  ends :
      (o : Outcome Erro Visita)
      → Post (adyacencia edges) Root (materiais nodes) [] vazia o
      → Ordering nodes edges (o >>= λ st. ok st.out)
  unfolding contains
  ends (err e) v = v
  ends (ok st) v = record {
    ordered = v.walked.ordered;
    acyclic = IsOrdered-acyclic (adyacencia edges) st.out v.walked.ordered;
    hit = v.hit;
    reached = λ n i. elim (v.reached n i) [ inl j ↦ cc | inr r ↦ r ];
  }

-- For all nodes and edges, `material_order` either gives an order of the material packages, in
-- which each stands once and behind its dependencies, without a cycle, with every material node
-- and only what material nodes reach; or it fails with `ciclo` and some package reaches itself.
-- It never runs out of fuel.
pub material_order-Ordering :
    (nodes : List PlanNode) (edges : List PlanEdge)
    → Ordering nodes edges (material_order nodes edges)
unfolding material_order contains
material_order-Ordering nodes edges =
    let adj = adyacencia edges in
    let universo = materiais nodes ++ destinos edges in
    let fuel = suc (length universo) in
    ends nodes edges (visit_all (λ name. visit adj fuel name []) (materiais nodes) vazia) (
      visit_all-Post adj (Root nodes edges) [] (λ name. visit adj fuel name []) (materiais nodes)
        (λ r i st w. From-Root nodes edges r (r ∷ []) st (visit adj fuel r [] st) i (
          visit-Post adj universo (universo-closed nodes edges) fuel r [] st
            (ground (arith, contains-append r (materiais nodes) (destinos edges)))
            (omega (arith, fora-le-length universo [])) (λ m j. cc) w))
        vazia (vazia-Walked nodes edges))
