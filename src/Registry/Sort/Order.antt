-- ===== src/Registry/Sort/Order.antt =====
-- What Registry.topologicalSort promises: a start order in which dependencies come first, and an
-- error for cyclic dependencies only.
use subnetree.Prelude.{
  ℕ, zero, suc, ◌+◌, ◌*◌, ◌≡◌, ◌≤◌, ◌<◌, refl, String, true, false, not, ◌&&◌, List, [], ◌==◌,
  nat_eq, string_eq, Bool-cases, inl, inr, ltb, if◌then◌else◌, contains, contains-count, count,
  count-keep, keep, length, length-lt_of_counts, length_of_counts, arith, ap, sym, ◌∙◌, subst, ◌≢◌,
  ok, err, MapRange,
}
use subnetree.Registry.Sort.{Sorting, no_edges, active_of, graph_of, sorting_of, topological_sort}
use subnetree.Registry.Sort.Degree.{unmet, unmet_pos, build_graph-in_degree, build_graph-dependents}
use subnetree.Registry.Sort.Loop.{DepsFirst, Drained, drain-Drained}

-- A rank that falls along every dependency between active plugins: there is no cycle.
abbrev pub IsRanked : List String → (String → List String) → (String → ℕ) → Type 0
IsRanked active deps rank =
    (x d : String)
    → contains active x ≡ true
    → contains (deps x) d ≡ true
    → contains active d ≡ true
    → rank d < rank x

module _ (range : MapRange) (deps : String → List String) (names disabled : List String)
    (once : (x : String) → count x names ≤ 1) where
  active : List String
  active = active_of range deps names disabled

  -- The plugins that are registered and not disabled take part.
  pub count-active :
      (x : String)
      → count x (active_of range deps names disabled)
        ≡ (if contains disabled x then 0 else count x names)
  unfolding active
  count-active x = ground (
    arith,
    count-keep (λ n. not (contains disabled n)) x (range.visit 2 names),
    range.visit_count 2 names x,
  )

  active_once : (x : String) → count x active ≤ 1
  unfolding active
  active_once x = ground (arith, count-active x, once x)

  in_degree :
      (x : String)
      → (graph_of range deps active).in_degree x ≡ count x active * unmet active [] (deps x)
  in_degree x = omega (
    arith,
    build_graph-in_degree active deps (range.visit 3 active) no_edges x,
    ap (λ n. n * unmet active [] (deps x)) (range.visit_count 3 active x),
  )

  dependents :
      (x e : String)
      → count x ((graph_of range deps active).dependents e)
        ≡ count x active * (if contains active e then count e (deps x) else 0)
  dependents x e = omega (
    arith,
    build_graph-dependents active deps (range.visit 3 active) no_edges x e,
    ap (λ n. n * (if contains active e then count e (deps x) else 0))
        (range.visit_count 3 active x),
  )

  sorted : Sorting
  sorted = sorting_of range deps active

  sorted-Drained :
      Drained active deps (graph_of range deps active).dependents active_once dependents sorted
  unfolding sorted
  sorted-Drained =
      drain-Drained active deps _ active_once dependents (length active) _ [] _ (omega arith)
        (record { degree = degree; placed = placed }) tt
    where
      degree :
          (x : String)
          → contains active x ≡ true
          → (graph_of range deps active).in_degree x ≡ unmet active [] (deps x)
      degree x a = grind (arith, in_degree x, contains-count x active, active_once x)

      placed :
          (x : String)
          → count x []
              + count x
                  (keep (λ n. (graph_of range deps active).in_degree n == 0) (range.visit 4 active))
            ≡ (if contains active x && ((graph_of range deps active).in_degree x == 0)
                then 1
                else 0)
      placed x = ground (
        arith,
        count-keep (λ n. (graph_of range deps active).in_degree n == 0) x (range.visit 4 active),
        range.visit_count 4 active x,
        contains-count x active,
        active_once x,
      )

  -- At the end a plugin is placed once if no dependency of it is unmet, and else not at all.
  count-sorted :
      (x : String)
      → count x sorted.order
        ≡ (if contains active x && (unmet active sorted.order (deps x) == 0) then 1 else 0)
  count-sorted x = ground (
    arith,
    sorted-Drained.inv.placed x,
    sorted-Drained.inv.degree x,
    ap (count x) sorted-Drained.empty,
  )

  -- The plugins that the error names: active, with an unmet dependency.
  cycled : List String
  cycled = keep (λ n. ltb 0 (sorted.in_degree n)) (range.visit 5 active)

  contains-cycled :
      (x : String)
      → contains cycled x ≡ contains active x && ltb 0 (unmet active sorted.order (deps x))
  unfolding cycled
  contains-cycled x = ground (
    arith,
    contains-count x (keep (λ n. ltb 0 (sorted.in_degree n)) (range.visit 5 active)),
    count-keep (λ n. ltb 0 (sorted.in_degree n)) x (range.visit 5 active),
    range.visit_count 5 active x,
    contains-count x active,
    sorted-Drained.inv.degree x,
  )

  topological_sort_lem :
      topological_sort range deps names disabled
      ≡ (if length sorted.order == length active then ok sorted.order else err cycled)
  unfolding topological_sort sorted active cycled
  topological_sort_lem = refl

  count-sorted-le : (x : String) → count x sorted.order ≤ count x active
  count-sorted-le x = ground (arith, count-sorted x, contains-count x active)

  all_placed :
      length sorted.order ≡ length active → (x : String) → count x sorted.order ≡ count x active
  all_placed h x = elim (Bool-cases (ltb (count x sorted.order) (count x active))) [
    | inl lt ↦
        absurd
          (omega (arith, length-lt_of_counts sorted.order active x count-sorted-le (ground arith)))
    | inr ge ↦ ground (arith, count-sorted-le x)
  ]

  -- For distinct names: in a start order every plugin that is registered and not disabled stands once, no other
  -- stands in it, and all active dependencies of a plugin stand before it.
  pub topological_sort-ok :
      (order : List String)
      → topological_sort range deps names disabled ≡ ok order
      → ((x : String) → count x order ≡ (if contains disabled x then 0 else count x names))
        × DepsFirst (active_of range deps names disabled) deps [] order
  unfolding active
  topological_sort-ok order h = elim (Bool-cases (length sorted.order == length active)) [
    | inl full ↦
        let e : sorted.order ≡ order = cc (topological_sort_lem, full) in
        (
          λ x. ground (arith, all_placed (ground arith) x, count-active x, ap (count x) e),
          subst (DepsFirst active deps []) e sorted-Drained.first,
        )
    | inr part ↦ absurd (ground (arith, topological_sort_lem))
  ]

  none_cycled : ((x : String) → contains cycled x ≡ false) → length sorted.order ≡ length active
  none_cycled h = length_of_counts sorted.order active λ x.
      ground (arith, h x, contains-cycled x, count-sorted x, contains-count x active, active_once x)

  cycled_blocked :
      (x : String)
      → contains cycled x ≡ true
      → (contains active x ≡ true)
        × (d : String) × (contains (deps x) d ≡ true)
        × (contains cycled d ≡ true)
  cycled_blocked x c =
      let (d, m, a, z) =
        unmet_pos active sorted.order (deps x) (ground (arith, contains-cycled x)) in
      (ground (arith, contains-cycled x), d, m, ground (arith, contains-cycled d, count-sorted d))

  -- For distinct names: the error names at least one plugin, and each plugin that it names is active and depends on
  -- another that it names: there is a cycle among them.
  pub topological_sort-err :
      (blocked : List String)
      → topological_sort range deps names disabled ≡ err blocked
      → (blocked ≢ [])
        × ((x : String)
            → contains blocked x ≡ true
            → (contains (active_of range deps names disabled) x ≡ true)
              × (d : String) × (contains (deps x) d ≡ true)
              × (contains blocked d ≡ true))
  unfolding active
  topological_sort-err blocked h = elim (Bool-cases (length sorted.order == length active)) [
    | inl full ↦ absurd (ground (arith, topological_sort_lem))
    | inr part ↦
        let e : cycled ≡ blocked = cc (topological_sort_lem, part) in
        (
          λ z. absurd (
              ground (
                arith,
                none_cycled (λ x. cc (ap (λ l. contains l x) e, ap (λ l. contains l x) z)),
              )),
          λ x c.
              let (a, d, m, cd) = cycled_blocked x (ap (λ l. contains l x) e ∙ c) in
              (a, d, m, sym (ap (λ l. contains l d) e) ∙ cd),
        )
  ]

  not_cycled :
      (rank : String → ℕ)
      → IsRanked active deps rank
      → (n : ℕ) (x : String) → rank x < n
      → contains cycled x ≡ false
  not_cycled rank ranked zero x h = elim h [ ]
  not_cycled rank ranked (suc n) x h = elim (Bool-cases (contains cycled x)) [
    | inr no_cycle ↦ no_cycle
    | inl c ↦
        let (a, d, m, cd) = cycled_blocked x c in
        let (ad, _, _, _) = cycled_blocked d cd in
        absurd (ground (arith, not_cycled rank ranked n d (omega (arith, ranked x d a m ad))))
  ]

  -- For distinct names: if a rank falls along every dependency between active plugins, there is a
  -- start order.
  pub topological_sort_acyclic :
      (rank : String → ℕ)
      → IsRanked (active_of range deps names disabled) deps rank
      → (order : List String) × (topological_sort range deps names disabled ≡ ok order)
  unfolding active
  topological_sort_acyclic rank ranked =
      (sorted.order, ground (arith, topological_sort_lem, none_cycled every))
    where
      every : (x : String) → contains cycled x ≡ false
      every x = not_cycled rank ranked (suc (rank x)) x (omega arith)
