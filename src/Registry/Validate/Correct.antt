-- ===== src/Registry/Validate/Correct.antt =====
-- What Registry.Validate promises, on success and on each error.
use subnetree.Prelude.{
  ℕ, zero, suc, ◌∷◌, contains_self, ◌≤◌, ◌≡◌, ◌≢◌, ◌↔◌, refl, String, true, false, List, [], Option,
  none, some, string_eq, contains, count, contains-count, ◌<◌, subst, arith, ◌⊎◌, inl, inr, ok, err,
  Result, Option-cases, Bool-cases, if◌then◌else◌, MapRange,
}
use subnetree.Registry.Types.{PluginInfo, Registry, Error, names_of, info_of, dependencies_of}
use subnetree.Registry.Sort.{topological_sort, active_of}
use subnetree.Registry.Sort.Loop.{DepsBefore, DepsFirst-DepsBefore}
use subnetree.Registry.Sort.Order.{count-active, topological_sort-ok, topological_sort-err}
use subnetree.Registry.Validate.{Pass, resolve, validate}
use subnetree.Registry.Validate.Broken.{Broken, Blames, SoundPass, resolve_sound}
use subnetree.Registry.Validate.Resolve.{Broken-disabled, first_disabled-none, resolve-Resolved}

-- A cycle among active plugins: each of the named plugins needs another of them.
abbrev pub IsCycle : (String → List String) → List String → Type 0
IsCycle deps blocked =
    (blocked ≢ [])
    × ((x : String)
        → contains blocked x ≡ true
        → (d : String) × (contains (deps x) d ≡ true) × (contains blocked d ≡ true))

module _ (deps : String → List String) (rank : String → ℕ)
    (ranked : (x d : String) → contains (deps x) d ≡ true → rank d < rank x) where
  outside :
      (blocked : List String)
      → IsCycle deps blocked
      → (n : ℕ) (x : String) → rank x < n
      → contains blocked x ≡ false
  outside blocked c zero x h = elim h [ ]
  outside blocked c (suc n) x h = elim (Bool-cases (contains blocked x)) [
    | inr out ↦ out
    | inl here ↦
        let (d, m, cd) = c.1 x here in
        absurd (cc (outside blocked c n d (omega (arith, ranked x d m)), cd))
  ]

  -- Where the dependencies can be ranked there is no cycle.
  ranked-not-IsCycle : (blocked : List String) → IsCycle deps blocked → ⊥
  ranked-not-IsCycle [] c = c.0 refl
  ranked-not-IsCycle (x ∷ xs) c =
      cc (outside (x ∷ xs) c (suc (rank x)) x (omega arith), contains_self x xs)

module _ (range : MapRange) (r : Registry) (fresh : r.disabled ≡ [])
    (once : (x : String) → count x (names_of r.plugins) ≤ 1) where
  names : List String
  names = names_of r.plugins

  info : String → PluginInfo
  info = info_of r.plugins

  pass : Pass
  pass = resolve names info range (record { disabled = r.disabled; changed = false })

  pass_sound : SoundPass names info pass
  unfolding pass
  pass_sound = resolve_sound names info range _ (record { sound = λ x h. absurd (cc); blames = tt })

  sorted : Result (List String) (List String)
  sorted = topological_sort range (dependencies_of r.plugins) names pass.0.disabled

  -- The two stages of Validate.
  data Cases : Registry × Option Error → Type 0 where
    rejected :
        (e : Error) → pass.1 ≡ some e → Cases (record r { disabled = pass.0.disabled }, some e)
    cyclic :
        (blocked : List String)
        → pass.1 ≡ none
        → sorted ≡ err blocked
        → Cases (record r { disabled = pass.0.disabled }, some (Error.dependency_cycle blocked))
    accepted :
        (order : List String)
        → pass.1 ≡ none
        → sorted ≡ ok order
        → Cases (record r { disabled = pass.0.disabled; order = order }, none)

  sorted_cases :
      (s : Result (List String) (List String))
      → ((order : List String) × (s ≡ ok order)) ⊎ ((blocked : List String) × (s ≡ err blocked))
  sorted_cases (ok order) = inl (order, refl)
  sorted_cases (err blocked) = inr (blocked, refl)

  validate-Cases : Cases (validate range r)
  unfolding validate pass names info sorted
  validate-Cases = elim (Option-cases pass.1) [
    | inr (e, h) ↦ rw (h, validate) (rejected e h)
    | inl h ↦ elim (sorted_cases sorted) [
      | inl (order, q) ↦ rw (h, q, validate) (accepted order h q)
      | inr (blocked, q) ↦ rw (h, q, validate) (cyclic blocked h q)
    ]
  ]

  -- What holds of the registry when Validate succeeds.
  pub record IsResolved (q : Registry) : Type 0 where
    pub exact :
        (x : String)
        → (contains q.disabled x ≡ true) ↔ Broken (names_of r.plugins) (info_of r.plugins) x
    pub required_active :
        (x : String) → (info_of r.plugins x).required ≡ true → contains q.disabled x ≡ false
    pub each_once :
        (x : String)
        → count x q.order ≡ (if contains q.disabled x then 0 else count x (names_of r.plugins))
    pub deps_first : DepsBefore (dependencies_of r.plugins) [] q.order

  -- In a registry that passed the checks the active plugins need active plugins only.
  needs_active :
      (x d : String)
      → pass.1 ≡ none
      → 0 < count x names
      → contains pass.0.disabled x ≡ false
      → contains (info x).dependencies d ≡ true
      → contains (active_of range (dependencies_of r.plugins) names pass.0.disabled) d ≡ true
  unfolding pass names
  needs_active x d h n on m =
      let ready = resolve-Resolved names info range _ h in
      let here : contains names x ≡ true = ground (arith, contains-count x names) in
      elim (ready.supplied x d here m) [
        | inr off ↦ absurd (cc)
        | inl there ↦ ground (
          arith,
          first_disabled-none names info range pass.0.disabled (info x).dependencies d
              (ready.closed x here on) m,
          contains-count d names,
          contains-count d (active_of range (dependencies_of r.plugins) names pass.0.disabled),
          count-active range (dependencies_of r.plugins) names pass.0.disabled once d,
        )
      ]

  Cases-IsResolved : (o : Registry × Option Error) → Cases o → o.1 ≡ none → IsResolved o.0
  unfolding names info sorted pass
  Cases-IsResolved _ (rejected e h) n = absurd (cc)
  Cases-IsResolved _ (cyclic blocked h s) n = absurd (cc)
  Cases-IsResolved _ (accepted order h s) n =
      let (each, first) =
        topological_sort-ok range (dependencies_of r.plugins) names pass.0.disabled once order s in
      record {
        exact = λ x. (
          λ off. (pass_sound.sound x off).0,
          Broken-disabled names info range _ (resolve-Resolved names info range _ h) x,
        );
        required_active = λ x req. elim (Bool-cases (contains pass.0.disabled x)) [
          | inr on ↦ on
          | inl off ↦ absurd (cc ((pass_sound.sound x off).1, req))
        ];
        each_once = each;
        deps_first = DepsFirst-DepsBefore _ _ [] order first λ x d c m.
            needs_active x d h (ground (arith, each x, contains-count x order))
              (ground (arith, each x, contains-count x order)) m;
      }

  -- On a registry with distinct names and nothing disabled yet: when Validate succeeds, exactly the plugins that cannot start are disabled, none of them is
  -- required, the start order holds every other plugin once, and the dependencies of a plugin stand
  -- before it.
  pub validate-IsResolved : (validate range r).1 ≡ none → IsResolved (validate range r).0
  validate-IsResolved = Cases-IsResolved (validate range r) validate-Cases

  -- On a registry with distinct names and nothing disabled yet: an error of Validate means that some
  -- required plugin cannot start, or it names plugins that depend on each other in a cycle.
  pub validate-err :
      (e : Error)
      → (validate range r).1 ≡ some e
      → ((x : String) × Broken (names_of r.plugins) (info_of r.plugins) x
          × ((info_of r.plugins x).required ≡ true))
        ⊎ ((blocked : List String) × (e ≡ Error.dependency_cycle blocked)
            × IsCycle (dependencies_of r.plugins) blocked)
  unfolding names info sorted
  validate-err e h = of_cases (validate range r) validate-Cases h
    where
      of_cases :
          (o : Registry × Option Error)
          → Cases o
          → o.1 ≡ some e
          → ((x : String) × Broken (names_of r.plugins) (info_of r.plugins) x
              × ((info_of r.plugins x).required ≡ true))
            ⊎ ((blocked : List String) × (e ≡ Error.dependency_cycle blocked)
                × IsCycle (dependencies_of r.plugins) blocked)
      of_cases _ (rejected e' p) q = inl (subst (Blames names info) p pass_sound.blames)
      of_cases _ (cyclic blocked p s) q =
          let (some_blocked, each) =
            topological_sort-err range (dependencies_of r.plugins) names pass.0.disabled once
              blocked s in
          inr (blocked, cc, (some_blocked, λ x c. let (_, d, m, cd) = each x c in (d, m, cd)))
      of_cases _ (accepted order p s) q = absurd (cc)

  -- On a registry with distinct names and nothing disabled yet: Validate succeeds when no required
  -- plugin is broken and a rank of the names falls along every dependency.
  pub validate_total :
      (rank : String → ℕ)
      → ((x : String)
          → Broken (names_of r.plugins) (info_of r.plugins) x
          → (info_of r.plugins x).required ≡ false)
      → ((x d : String) → contains (dependencies_of r.plugins x) d ≡ true → rank d < rank x)
      → (validate range r).1 ≡ none
  validate_total rank optional ranked = elim (Option-cases (validate range r).1) [
    | inl n ↦ n
    | inr (e, h) ↦ elim (validate-err e h) [
      | inl (x, b, req) ↦ absurd (cc (optional x b, req))
      | inr (blocked, _, (some_blocked, each)) ↦
          absurd (ranked-not-IsCycle _ rank ranked blocked (some_blocked, each))
    ]
  ]
