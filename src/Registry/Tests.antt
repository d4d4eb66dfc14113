-- ===== src/Registry/Tests.antt =====
-- A small server: the credential store and the scanner are required, the monitor needs the scanner,
-- and a contributed plugin needs one that nobody registered.
use subnetree.Prelude.{
  ℕ, Bool-cases, ◌<◌, ◌≤◌, ◌≡◌, ◌≢◌, refl, String, Bool, true, false, List, [], ◌∷◌, none, some,
  contains, count, string_eq, arith, ◌⊎◌, inl, inr, if◌then◌else◌, ok, err, pos, in_order, ◌==◌,
}
use subnetree.Registry.Types.{
  Plugin, Registry, Error, returned, new, names_of, info_of, dependencies_of,
}
use subnetree.Registry.Sort.{topological_sort, active_of}
use subnetree.Registry.Sort.Loop.{DepsFirst}
use subnetree.Registry.Sort.Order.{
  topological_sort-ok, topological_sort-err, topological_sort_acyclic,
}
use subnetree.Registry.Validate.{register, validate}
use subnetree.Registry.Validate.Broken.{Broken}
use subnetree.Registry.Validate.Correct.{
  IsResolved, IsCycle, validate-IsResolved, validate-err, validate_total,
}
use subnetree.Registry.Register.{IsWellFormed, new-IsWellFormed, register-IsWellFormed}
use subnetree.Registry.Lifecycle.{init_all, start_all, stop_all, active_names}
use subnetree.Registry.Lifecycle.Boot.{boot_required}

abbrev plugin : String → List String → Bool → Plugin
plugin name deps required = record {
  info = record {
    name = name;
    version = "1.0.0";
    dependencies = deps;
    required = required;
    roles = [];
    api_version = pos 1;
  };
  init = returned;
  start = returned;
  stop = returned;
  validate_config = none;
  subscriptions = none;
  routes = none;
}

abbrev vault : Plugin
vault = plugin "vault" [] true

abbrev recon : Plugin
recon = plugin "recon" ("vault" ∷ []) true

abbrev pulse : Plugin
pulse = plugin "pulse" ("recon" ∷ "vault" ∷ []) false

abbrev extra : Plugin
extra = plugin "extra" ("missing" ∷ []) false

server : Registry
unfolding register
server = (register (register (register (register new pulse).0 extra).0 recon).0 vault).0

server-IsWellFormed : IsWellFormed server
unfolding server
server-IsWellFormed = register-IsWellFormed _ vault (
    register-IsWellFormed _ recon
      (register-IsWellFormed _ extra (register-IsWellFormed _ pulse new-IsWellFormed)))

-- What the tests compute with.
program : Unit {0}
unfolding server topological_sort validate init_all start_all stop_all
program = tt

order_server : (validate in_order server).0.order ≡ "vault" ∷ "recon" ∷ "pulse" ∷ []
unfolding program
order_server = refl

disabled_server : (validate in_order server).0.disabled ≡ "extra" ∷ []
unfolding program
disabled_server = refl

abbrev ring : String → List String
ring x = if "a" == x then "b" ∷ [] else if "b" == x then "a" ∷ [] else []

once_abc : (x : String) → count x ("a" ∷ "b" ∷ "c" ∷ []) ≤ 1
once_abc x = ground (
  arith,
  string_eq.same_iff "a" x,
  string_eq.same_iff "b" x,
  string_eq.same_iff "c" x,
  string_eq.same_iff "a" "b",
  string_eq.same_iff "a" "c",
  string_eq.same_iff "b" "c",
)

topological_sort-ring :
    topological_sort in_order ring ("a" ∷ "b" ∷ "c" ∷ []) [] ≡ err ("a" ∷ "b" ∷ [])
unfolding program
topological_sort-ring = refl

abbrev chain : String → List String
chain x = if "a" == x then "b" ∷ [] else if "b" == x then "c" ∷ [] else []

abbrev chain_rank : String → ℕ
chain_rank x = if "a" == x then 2 else if "b" == x then 1 else 0

topological_sort-chain :
    topological_sort in_order chain ("a" ∷ "b" ∷ "c" ∷ []) [] ≡ ok ("c" ∷ "b" ∷ "a" ∷ [])
unfolding program
topological_sort-chain = refl

topological_sort-ok_example :
    ((x : String)
      → count x ("c" ∷ "b" ∷ "a" ∷ [])
        ≡ (if contains [] x then 0 else count x ("a" ∷ "b" ∷ "c" ∷ [])))
    × DepsFirst (active_of in_order chain ("a" ∷ "b" ∷ "c" ∷ []) []) chain [] ("c" ∷ "b" ∷ "a" ∷ [])
topological_sort-ok_example =
    topological_sort-ok in_order chain ("a" ∷ "b" ∷ "c" ∷ []) [] once_abc ("c" ∷ "b" ∷ "a" ∷ [])
      topological_sort-chain

topological_sort-err_example :
    (◌≢◌ {A = List String} ("a" ∷ "b" ∷ []) [])
    × ((x : String)
        → contains ("a" ∷ "b" ∷ []) x ≡ true
        → (contains (active_of in_order ring ("a" ∷ "b" ∷ "c" ∷ []) []) x ≡ true)
          × (d : String) × (contains (ring x) d ≡ true)
          × (contains ("a" ∷ "b" ∷ []) d ≡ true))
topological_sort-err_example =
    topological_sort-err in_order ring ("a" ∷ "b" ∷ "c" ∷ []) [] once_abc ("a" ∷ "b" ∷ [])
      topological_sort-ring

chain-IsRanked : (x d : String) → contains (chain x) d ≡ true → chain_rank d < chain_rank x
chain-IsRanked x d h = ground (
  arith,
  string_eq.same_iff "a" x,
  string_eq.same_iff "b" x,
  string_eq.same_iff "a" d,
  string_eq.same_iff "b" d,
  string_eq.same_iff "c" d,
  string_eq.same_iff "a" "b",
  string_eq.same_iff "a" "c",
  string_eq.same_iff "b" "c",
)

topological_sort_acyclic_example :
    (order : List String) × (topological_sort in_order chain ("a" ∷ "b" ∷ "c" ∷ []) [] ≡ ok order)
topological_sort_acyclic_example =
    topological_sort_acyclic in_order chain ("a" ∷ "b" ∷ "c" ∷ []) [] once_abc chain_rank
      (λ x d _ m _. chain-IsRanked x d m)

validated : (validate in_order server).1 ≡ none
unfolding program
validated = refl

server-IsResolved :
    IsResolved in_order server server-IsWellFormed.fresh server-IsWellFormed.once
      (validate in_order server).0
server-IsResolved =
    validate-IsResolved in_order server server-IsWellFormed.fresh server-IsWellFormed.once validated

validate-IsResolved_example :
    IsResolved in_order server server-IsWellFormed.fresh server-IsWellFormed.once
      (validate in_order server).0
validate-IsResolved_example =
    validate-IsResolved in_order server server-IsWellFormed.fresh server-IsWellFormed.once validated

alone : Registry
unfolding register
alone = (register new recon).0

alone-IsWellFormed : IsWellFormed alone
unfolding alone
alone-IsWellFormed = register-IsWellFormed new recon new-IsWellFormed

validate-alone : (validate in_order alone).1 ≡ some (Error.missing_dependency "recon" "vault")
unfolding program alone
validate-alone = refl

validate-err_example :
    ((x : String) × Broken (names_of alone.plugins) (info_of alone.plugins) x
      × ((info_of alone.plugins x).required ≡ true))
    ⊎ ((blocked : List String) × (Error.missing_dependency "recon" "vault"
          ≡ Error.dependency_cycle blocked)
        × IsCycle (dependencies_of alone.plugins) blocked)
validate-err_example =
    validate-err in_order alone alone-IsWellFormed.fresh alone-IsWellFormed.once
      (Error.missing_dependency "recon" "vault") validate-alone

optional-Broken :
    (x : String)
    → Broken (names_of server.plugins) (info_of server.plugins) x
    → (info_of server.plugins x).required ≡ false
unfolding server
optional-Broken x b = elim (Bool-cases (info_of server.plugins x).required) [
  | inr o ↦ o
  | inl req ↦ cc (server-IsResolved.required_active x req, (server-IsResolved.exact x).1 b)
]

server_rank : String → ℕ
server_rank x =
    if "pulse" == x then 2 else if "recon" == x then 1 else if "extra" == x then 1 else 0

server-IsRanked :
    (x d : String)
    → contains (dependencies_of server.plugins x) d ≡ true
    → server_rank d < server_rank x
unfolding server server_rank
server-IsRanked x d h = ground (
  arith,
  string_eq.same_iff "pulse" x,
  string_eq.same_iff "recon" x,
  string_eq.same_iff "extra" x,
  string_eq.same_iff "vault" x,
  string_eq.same_iff "pulse" d,
  string_eq.same_iff "recon" d,
  string_eq.same_iff "extra" d,
  string_eq.same_iff "vault" d,
  string_eq.same_iff "missing" d,
  string_eq.same_iff "pulse" "recon",
  string_eq.same_iff "pulse" "vault",
  string_eq.same_iff "pulse" "missing",
  string_eq.same_iff "recon" "missing",
  string_eq.same_iff "recon" "vault",
  string_eq.same_iff "extra" "missing",
  string_eq.same_iff "extra" "vault",
  string_eq.same_iff "extra" "recon",
  string_eq.same_iff "extra" "pulse",
)

validate_total_example : (validate in_order server).1 ≡ none
validate_total_example =
    validate_total in_order server server-IsWellFormed.fresh server-IsWellFormed.once server_rank
      optional-Broken server-IsRanked

boot_required_example :
    contains (active_names (start_all (init_all (validate in_order server).0).0).0) "vault" ≡ true
unfolding program
boot_required_example =
    boot_required in_order server "vault" server-IsWellFormed.fresh server-IsWellFormed.once refl
      refl refl refl refl
