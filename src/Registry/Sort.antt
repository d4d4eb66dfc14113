-- ===== src/Registry/Sort.antt =====
-- Registry.topologicalSort (internal/registry/registry.go): Kahn's algorithm.
-- `deps` gives the dependencies of each plugin. Each `range` over a map has a number of its own.
pub mod Degree
pub mod Loop
pub mod Order
use subnetree.Prelude.{
  ℕ, zero, suc, ◌+◌, ◌-◌, String, Bool, not, List, [], ◌∷◌, ◌++◌, ◌==◌, nat_eq, string_eq, ltb,
  if◌then◌else◌, contains, length, keep, Result, ok, err, MapRange, update,
}

pub record Graph : Type 0 where
  pub in_degree : String → ℕ
  pub dependents : String → List String

abbrev pub no_edges : Graph
no_edges = record { in_degree = λ x. 0; dependents = λ x. [] }

-- The inner loop over the dependencies of the plugin `name`.
unfoldable pub add_edges : List String → String → List String → Graph → Graph
add_edges active name [] g = g
add_edges active name (dep ∷ deps) g = add_edges active name deps (
    if contains active dep
    then record {
      in_degree = update g.in_degree name (g.in_degree name + 1);
      dependents = update g.dependents dep (g.dependents dep ++ name ∷ []);
    }
    else g)

unfoldable pub build_graph : List String → (String → List String) → List String → Graph → Graph
unfolding add_edges
build_graph active deps [] g = g
build_graph active deps (name ∷ names) g =
    build_graph active deps names (add_edges active name (deps name) g)

-- The loop over the dependents of a plugin that was placed. A degree that falls to 0 joins the
-- queue; one that is 0 already would turn negative in the source, and stays 0 here: neither joins.
unfoldable pub release : List String → List String → (String → ℕ) → List String × (String → ℕ)
release [] queue in_degree = (queue, in_degree)
release (d ∷ ds) queue in_degree =
    release ds (if in_degree d == 1 then queue ++ d ∷ [] else queue)
      (update in_degree d (in_degree d - 1))

pub record Sorting : Type 0 where
  pub queue : List String
  pub order : List String
  pub in_degree : String → ℕ

-- `for len(queue) > 0`, with fuel.
unfoldable pub drain :
    (String → List String) → ℕ → List String → List String → (String → ℕ) → Sorting
unfolding release
drain dependents zero queue order in_degree = record {
  queue = queue;
  order = order;
  in_degree = in_degree;
}
drain dependents (suc fuel) [] order in_degree = record {
  queue = [];
  order = order;
  in_degree = in_degree;
}
drain dependents (suc fuel) (name ∷ queue) order in_degree =
    let (queue', in_degree') = release (dependents name) queue in_degree in
    drain dependents fuel queue' (order ++ name ∷ []) in_degree'

module _ (range : MapRange) (deps : String → List String) where
  abbrev pub active_of : List String → List String → List String
  active_of names disabled = keep (λ n. not (contains disabled n)) (range.visit 2 names)

  abbrev pub graph_of : List String → Graph
  graph_of active = build_graph active deps (range.visit 3 active) no_edges

  -- The whole loop, from the plugins with no dependency. One round for each plugin is enough fuel.
  abbrev pub sorting_of : List String → Sorting
  sorting_of active =
      drain (graph_of active).dependents (length active)
        (keep (λ n. (graph_of active).in_degree n == 0) (range.visit 4 active)) []
        (graph_of active).in_degree

  -- The start order of the active plugins, or the plugins that a cycle blocks.
  unfoldable pub topological_sort : List String → List String → Result (List String) (List String)
  unfolding build_graph drain
  topological_sort names disabled =
      let active = active_of names disabled in
      let s = sorting_of active in
      if length s.order == length active
      then ok s.order
      else err (keep (λ n. ltb 0 (s.in_degree n)) (range.visit 5 active))
