-- ===== src/Plan/Order.antt =====
-- The order in which material packages are handled, `material_order` of minitrue/src/plan.rs: a
-- depth-first walk of the material edges. A `HashSet` is a list, and the recursion of `visit`
-- takes fuel, one unit for each package on the stack; the number of packages is enough.
pub mod Names
pub mod Visit
pub mod Whole
pub mod Edges
pub mod Acyclic
pub mod Walk
use distropica.Effects.Fallible.{◌>>=◌}
use distropica.Effects.{Outcome, ok, err}
use distropica.Prelude.{
  ℕ, zero, suc, Bool, true, false, List, [], ◌∷◌, ◌++◌, if◌then◌else◌, length, equal,
}
use distropica.Text.Utf16.{Text}
use Names.{contains, insere, ordena}

pub data Materiality : Type 0 where
  runtime cache_only identity_only : Materiality

unfoldable pub is_material : Materiality → Bool
is_material identity_only = false
is_material _ = true

unfoldable pub merge : Materiality → Materiality → Materiality
merge runtime _ = runtime
merge _ runtime = runtime
merge cache_only _ = cache_only
merge _ cache_only = cache_only
merge _ _ = identity_only

pub data EdgeKind : Type 0 where
  runtime aggregation build toolchain runner : EdgeKind

pub record PlanEdge : Type 0 where
  pub from : Text
  pub kind : EdgeKind
  pub to : Text
  pub expected_fingerprint : Text
  pub materiality : Materiality

-- `Kind` of recipe.rs.
pub data Kind : Type 0 where
  binary source meta : Kind

pub data PlanAction : Type 0 where
  keep meta vendor channel source : PlanAction

pub record PlanNode : Type 0 where
  pub name : Text
  pub version : Text
  pub kind : Kind
  pub world : Text
  pub action : PlanAction
  pub origin : Text
  pub fingerprint : Text
  pub materiality : Materiality
  pub payload_sha256 : Text
  pub license : Text

pub data Erro : Type 0 where
  ciclo : Erro
  sem_combustivel : Erro

pub record Visita : Type 0 where
  pub seen : List Text
  pub out : List Text

-- `adjacency.entry(from).or_default().push(to)`.
unfoldable pub empurra : Text → Text → List (Text × List Text) → List (Text × List Text)
empurra from to [] = (from, to ∷ []) ∷ []
empurra from to ((k, ds) ∷ m) =
    if equal k from then (k, ds ++ to ∷ []) ∷ m else (k, ds) ∷ empurra from to m

unfoldable pub arestas_materiais : List PlanEdge → List (Text × List Text) → List (Text × List Text)
arestas_materiais [] m = m
arestas_materiais (e ∷ es) m =
    arestas_materiais es (if is_material e.materiality then empurra e.from e.to m else m)

-- `adjacency.get(name)`; the dependencies of each package are sorted and distinct.
unfoldable pub dependencias : List (Text × List Text) → Text → List Text
dependencias [] name = []
dependencias ((k, ds) ∷ m) name = if equal k name then ordena ds else dependencias m name

-- The loop over the dependencies, for a way to visit one.
unfoldable pub visit_all :
    (Text → Visita → Outcome Erro Visita) → List Text → Visita → Outcome Erro Visita
visit_all visita [] st = ok st
visit_all visita (d ∷ ds) st = visita d st >>= visit_all visita ds

abbrev pub conclui : Text → Visita → Visita
conclui name st = record { seen = name ∷ st.seen; out = st.out ++ name ∷ [] }

unfoldable pub visit : (Text → List Text) → ℕ → Text → List Text → Visita → Outcome Erro Visita
visit adjacency zero name stack st = err sem_combustivel
visit adjacency (suc fuel) name stack st =
    if contains name st.seen
    then ok st
    else if contains name stack
    then err ciclo
    else visit_all (λ d. visit adjacency fuel d (name ∷ stack)) (adjacency name) st >>= λ st'.
        ok (conclui name st')

unfoldable pub materiais : List PlanNode → List Text
materiais [] = []
materiais (n ∷ ns) = if is_material n.materiality then n.name ∷ materiais ns else materiais ns

unfoldable pub destinos : List PlanEdge → List Text
destinos [] = []
destinos (e ∷ es) = e.to ∷ destinos es

abbrev pub vazia : Visita
vazia = record { seen = []; out = [] }

-- The nodes come in the order of their names, as a `BTreeMap` gives them.
unfoldable pub material_order : List PlanNode → List PlanEdge → Outcome Erro (List Text)
material_order nodes edges =
    let fuel = suc (length (materiais nodes ++ destinos edges)) in
    visit_all (λ name. visit (dependencias (arestas_materiais edges [])) fuel name [])
      (materiais nodes) vazia
    >>= λ st. ok st.out
