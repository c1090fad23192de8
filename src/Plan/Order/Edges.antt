-- ===== src/Plan/Order/Edges.antt =====
-- The dependencies that `material_order` of minitrue/src/plan.rs reads off the edges: for each
-- package the targets of its material edges.
use distropica.Plan.Order.Names.{contains, contains-append, contains-ordena, ordena, insere}
use distropica.Plan.Order.{
  PlanEdge, is_material, empurra, arestas_materiais, dependencias, destinos,
}
use distropica.Prelude.{
  ◌≡◌, refl, Bool, true, false, ◌&&◌, ◌||◌, List, [], ◌∷◌, ◌++◌, equal, equal_iff, arith,
}
use distropica.Text.Utf16.{Text}

-- A material edge from `n` to `d`.
unfoldable pub depende : List PlanEdge → Text → Text → Bool
depende [] n d = false
depende (e ∷ es) n d =
    (is_material e.materiality && equal e.from n && equal d e.to) || depende es n d

dependencias-empurra :
    (from to : Text) (m : List (Text × List Text)) (n d : Text)
    → contains d (dependencias (empurra from to m) n)
      ≡ ((equal from n && equal d to) || contains d (dependencias m n))
unfolding empurra dependencias ordena contains insere
dependencias-empurra from to [] n d = ground (arith)
dependencias-empurra from to ((k, ds) ∷ m) n d = ground (
  arith,
  dependencias-empurra from to m n d,
  equal_iff k from,
  equal_iff k n,
  equal_iff from n,
  contains-ordena d ds,
  contains-ordena d (ds ++ to ∷ []),
  contains-append d ds (to ∷ []),
)

dependencias-arestas_materiais :
    (es : List PlanEdge) (m : List (Text × List Text)) (n d : Text)
    → contains d (dependencias (arestas_materiais es m) n)
      ≡ (depende es n d || contains d (dependencias m n))
unfolding arestas_materiais depende
dependencias-arestas_materiais [] m n d = refl
dependencias-arestas_materiais (e ∷ es) m n d = ground (
  arith,
  dependencias-arestas_materiais es m n d,
  dependencias-arestas_materiais es (empurra e.from e.to m) n d,
  dependencias-empurra e.from e.to m n d,
)

-- For all edges, the dependencies that the walk reads for `n` are exactly the targets of its
-- material edges.
pub dependencias-depende :
    (es : List PlanEdge) (n d : Text)
    → contains d (dependencias (arestas_materiais es []) n) ≡ depende es n d
unfolding dependencias contains
dependencias-depende es n d = ground (arith, dependencias-arestas_materiais es [] n d)

pub depende-destinos :
    (es : List PlanEdge) (n d : Text) → depende es n d ≡ true → contains d (destinos es) ≡ true
unfolding depende destinos contains
depende-destinos [] n d h = h
depende-destinos (e ∷ es) n d h = ground (arith, depende-destinos es n d)
