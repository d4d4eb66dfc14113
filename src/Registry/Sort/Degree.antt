-- ===== src/Registry/Sort/Degree.antt =====
-- What building the graph and releasing the dependents of a plugin do to degrees and queue.
use subnetree.Prelude.{
  ℕ, ◌+◌, ◌-◌, ◌*◌, ◌≡◌, ◌<◌, String, true, ◌&&◌, inl, inr, List, [], ◌∷◌, ◌++◌, ◌==◌, nat_eq,
  string_eq, Bool-cases, ltb, leb, if◌then◌else◌, contains, count, count-append, arith, update,
}
use subnetree.Registry.Sort.{Graph, add_edges, build_graph, release}

-- How many entries of `deps` are active and not placed yet.
abbrev pub unmet : List String → List String → List String → ℕ
unmet active order [] = 0
unmet active order (d ∷ ds) =
    (if contains active d && (count d order == 0) then 1 else 0) + unmet active order ds

pub add_edges-in_degree :
    (active : List String) (name x : String) (deps : List String) (g : Graph)
    → (add_edges active name deps g).in_degree x
      ≡ g.in_degree x + (if name == x then unmet active [] deps else 0)
unfolding add_edges
add_edges-in_degree active name x [] g = ground arith
add_edges-in_degree active name x (d ∷ ds) g =
    let g' : Graph =
      (if contains active d
        then record {
          in_degree = update g.in_degree name (g.in_degree name + 1);
          dependents = update g.dependents d (g.dependents d ++ name ∷ []);
        }
        else g) in
    ground (arith, add_edges-in_degree active name x ds g', string_eq.same_iff name x)

pub release-in_degree :
    (ds queue : List String) (deg : String → ℕ) (x : String)
    → (release ds queue deg).1 x ≡ deg x - count x ds
unfolding release
release-in_degree [] queue deg x = omega arith
release-in_degree (d ∷ ds) queue deg x = ground (
  arith,
  release-in_degree ds (if deg d == 1 then queue ++ d ∷ [] else queue) (update deg d (deg d - 1)) x,
  string_eq.same_iff d x,
)

-- A name joins the queue once, if its degree falls to 0.
pub count-release :
    (ds queue : List String) (deg : String → ℕ) (x : String)
    → count x (release ds queue deg).0
      ≡ count x queue + (if ltb 0 (deg x) && leb (deg x) (count x ds) then 1 else 0)
unfolding release
count-release [] queue deg x = ground arith
count-release (d ∷ ds) queue deg x = ground (
  arith,
  count-release ds (if deg d == 1 then queue ++ d ∷ [] else queue) (update deg d (deg d - 1)) x,
  string_eq.same_iff d x,
  count-append x queue (d ∷ []),
)

pub add_edges-dependents :
    (active : List String) (name x e : String) (deps : List String) (g : Graph)
    → count x ((add_edges active name deps g).dependents e)
      ≡ count x (g.dependents e)
        + (if name == x then (if contains active e then count e deps else 0) else 0)
unfolding add_edges
add_edges-dependents active name x e [] g = ground arith
add_edges-dependents active name x e (d ∷ ds) g =
    let g' : Graph =
      (if contains active d
        then record {
          in_degree = update g.in_degree name (g.in_degree name + 1);
          dependents = update g.dependents d (g.dependents d ++ name ∷ []);
        }
        else g) in
    ground (
      arith,
      add_edges-dependents active name x e ds g',
      string_eq.same_iff d e,
      count-append x (g.dependents d) (name ∷ []),
    )

pub build_graph-in_degree :
    (active : List String) (deps : String → List String) (names : List String) (g : Graph)
    (x : String)
    → (build_graph active deps names g).in_degree x
      ≡ g.in_degree x + count x names * unmet active [] (deps x)
unfolding build_graph
build_graph-in_degree active deps [] g x = omega arith
build_graph-in_degree active deps (n ∷ ns) g x = grind (
  arith,
  build_graph-in_degree active deps ns (add_edges active n (deps n) g) x,
  add_edges-in_degree active n x (deps n) g,
  string_eq.same_iff n x,
)

pub build_graph-dependents :
    (active : List String) (deps : String → List String) (names : List String) (g : Graph)
    (x e : String)
    → count x ((build_graph active deps names g).dependents e)
      ≡ count x (g.dependents e)
        + count x names * (if contains active e then count e (deps x) else 0)
unfolding build_graph
build_graph-dependents active deps [] g x e = omega arith
build_graph-dependents active deps (n ∷ ns) g x e = grind (
  arith,
  build_graph-dependents active deps ns (add_edges active n (deps n) g) x e,
  add_edges-dependents active n x e (deps n) g,
  string_eq.same_iff n x,
)

-- Placing `n` meets as many entries as name it.
pub unmet_snoc :
    (active order deps : List String) (n : String)
    → contains active n ≡ true
    → count n order ≡ 0
    → unmet active (order ++ n ∷ []) deps + count n deps ≡ unmet active order deps
unmet_snoc active order [] n a h = omega arith
unmet_snoc active order (d ∷ ds) n a h = ground (
  arith,
  unmet_snoc active order ds n a h,
  count-append d order (n ∷ []),
  string_eq.same_iff n d,
  string_eq.same_iff d n,
)

-- With no unmet entry, every active dependency is placed; with one, some is not.
pub unmet_zero :
    (active order deps : List String) (d : String)
    → unmet active order deps ≡ 0
    → contains deps d ≡ true
    → contains active d ≡ true
    → 0 < count d order
unmet_zero active order [] d h m a = cc
unmet_zero active order (x ∷ xs) d h m a =
    ground (arith, unmet_zero active order xs d, string_eq.same_iff x d)

pub unmet_pos :
    (active order deps : List String)
    → 0 < unmet active order deps
    → (d : String) × (contains deps d ≡ true) × (contains active d ≡ true) × (count d order ≡ 0)
unmet_pos active order [] h = absurd (omega arith)
unmet_pos active order (x ∷ xs) h = elim (Bool-cases (contains active x && (count x order == 0))) [
  | inl t ↦ (x, ground (arith, string_eq.same_iff x x), ground arith, ground arith)
  | inr f ↦ let (d, m, a, z) = unmet_pos active order xs (ground arith) in (d, ground arith, a, z)
]
