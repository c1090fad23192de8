-- ===== src/Tests/Documents.antt =====
-- The fields and the graph of a PLAN_LOCK, on small inputs.
use distropica.Plan.Codec.RoundTrip.{decode-iff-encode}
use distropica.Plan.Codec.{encode, decode, any_control}
use distropica.Effects.{ok}
use distropica.Plan.Order.Edges.{depende, dependencias-depende}
use distropica.Plan.Order.Names.{contains, ordena, insere, text_lt}
use distropica.Plan.Order.Whole.{Ordering, material_order-Ordering}
use distropica.Plan.Order.{
  Materiality, EdgeKind, Kind, PlanAction, PlanNode, PlanEdge, arestas_materiais, dependencias,
  material_order, visit, visit_all, materiais, destinos, empurra, is_material,
}
use distropica.Prelude.{equal, List, ◌≡◌, refl, ◌↔◌, false, some, [], ◌∷◌}
use distropica.Text.Utf16.{Text}

-- "é a" and its encoding.
abbrev campo : Text
campo = 0xe9 ∷ b' ' ∷ b'a' ∷ []

abbrev campo_codificado : Text
campo_codificado = b'%' ∷ b'C' ∷ b'3' ∷ b'%' ∷ b'A' ∷ b'9' ∷ b'%' ∷ b'2' ∷ b'0' ∷ b'a' ∷ []

decode-iff-encode_example :
    (decode campo_codificado ≡ some campo)
    ↔ ((encode campo ≡ campo_codificado) × (any_control campo ≡ false))
decode-iff-encode_example = decode-iff-encode campo_codificado campo refl

-- Packages "a", "b" and "c"; "a" needs "b" and "c", "b" needs "c", and "c" names "a" without need.
abbrev a : Text
a = b'a' ∷ []

abbrev b : Text
b = b'b' ∷ []

abbrev c : Text
c = b'c' ∷ []

abbrev no_ : Text → Materiality → PlanNode
no_ n m = record {
  name = n;
  version = b'1' ∷ [];
  kind = Kind.source;
  world = [];
  action = PlanAction.source;
  origin = b'-' ∷ [];
  fingerprint = b'f' ∷ [];
  materiality = m;
  payload_sha256 = b'-' ∷ [];
  license = b'-' ∷ [];
}

abbrev aresta : Text → Text → Materiality → PlanEdge
aresta n d m = record {
  from = n;
  kind = EdgeKind.build;
  to = d;
  expected_fingerprint = b'f' ∷ [];
  materiality = m;
}

abbrev nos : List PlanNode
nos =
    no_ a Materiality.runtime ∷ no_ b Materiality.cache_only ∷ no_ c Materiality.identity_only ∷ []

abbrev arestas : List PlanEdge
arestas =
    aresta a c Materiality.runtime
    ∷ aresta a b Materiality.runtime
    ∷ aresta b c Materiality.cache_only
    ∷ aresta c a Materiality.identity_only
    ∷ []

dependencias-depende_example :
    contains b (dependencias (arestas_materiais arestas []) a) ≡ depende arestas a b
dependencias-depende_example = dependencias-depende arestas a b

material_order-Ordering_example : Ordering nos arestas (material_order nos arestas)
material_order-Ordering_example = material_order-Ordering nos arestas

material_order_test : material_order nos arestas ≡ ok (c ∷ b ∷ a ∷ [])
unfolding material_order equal visit_all visit materiais destinos arestas_materiais empurra
    dependencias contains is_material ordena insere text_lt
material_order_test = refl
