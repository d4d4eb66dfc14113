-- ===== src/Registry/Lifecycle/Boot.antt =====
-- Booting: Validate, InitAll and StartAll in turn, as cmd/subnetree/main.go calls them.
use subnetree.Prelude.{
  ◌≤◌, ◌≡◌, refl, ◌∙◌, ap, String, true, false, not, List, [], ◌∷◌, none, string_eq, contains,
  contains-count, count, count-keep, arith, MapRange,
}
use subnetree.Registry.Types.{Plugin, Registry, names_of, info_of}
use subnetree.Registry.Validate.{validate}
use subnetree.Registry.Validate.Correct.{validate-IsResolved}
use subnetree.Registry.Lifecycle.{
  Progress, init_one, start_one, run_each, init_all, start_all, active_names,
}

-- A loop body that never disables a required plugin without an error.
abbrev Spares : List Plugin → (String → List String → Progress) → Type 0
Spares plugins body =
    (n : String) (disabled : List String) (x : String)
    → (info_of plugins x).required ≡ true
    → contains disabled x ≡ false
    → (body n disabled).error ≡ none
    → contains (body n disabled).disabled x ≡ false

init_one-Spares : (plugins : List Plugin) → Spares plugins (init_one plugins)
unfolding init_one
init_one-Spares plugins n disabled x req on e = ground (arith, string_eq.same_iff n x)

start_one-Spares : (plugins : List Plugin) → Spares plugins (start_one plugins)
unfolding start_one
start_one-Spares plugins n disabled x req on e = ground (arith, string_eq.same_iff n x)

run_each-Spares :
    (plugins : List Plugin) (body : String → List String → Progress)
    → Spares plugins body
    → (names disabled : List String) (x : String) → (info_of plugins x).required ≡ true
    → contains disabled x ≡ false
    → (run_each body names disabled).error ≡ none
    → contains (run_each body names disabled).disabled x ≡ false
unfolding run_each
run_each-Spares plugins body spares [] disabled x req on e = on
run_each-Spares plugins body spares (n ∷ ns) disabled x req on e = ground (
  arith,
  spares n disabled x req on,
  run_each-Spares plugins body spares ns (body n disabled).disabled x req,
)

init_all-order :
    (r : Registry) → ((init_all r).0.order ≡ r.order) × ((init_all r).0.plugins ≡ r.plugins)
unfolding init_all
init_all-order r = (refl, refl)

start_all-order : (r : Registry) → ((start_all r).0.order ≡ r.order)
unfolding start_all
start_all-order r = refl

init_all-Spares :
    (r : Registry) (x : String)
    → (info_of r.plugins x).required ≡ true
    → contains r.disabled x ≡ false
    → (init_all r).2 ≡ none
    → contains (init_all r).0.disabled x ≡ false
unfolding init_all
init_all-Spares r x =
    run_each-Spares r.plugins (init_one r.plugins) (init_one-Spares r.plugins) r.order r.disabled x

start_all-Spares :
    (r : Registry) (x : String)
    → (info_of r.plugins x).required ≡ true
    → contains r.disabled x ≡ false
    → (start_all r).2 ≡ none
    → contains (start_all r).0.disabled x ≡ false
unfolding start_all
start_all-Spares r x =
    run_each-Spares r.plugins (start_one r.plugins) (start_one-Spares r.plugins) r.order r.disabled
      x

validate-plugins : (range : MapRange) (r : Registry) → (validate range r).0.plugins ≡ r.plugins
unfolding validate
validate-plugins range r = ground arith

-- On a registry with distinct names and nothing disabled yet: if Validate, InitAll and StartAll all succeed, every required plugin is active: it has its place
-- in the start order and is not disabled.
pub boot_required :
    (range : MapRange) (r : Registry) (x : String)
    → r.disabled ≡ []
    → ((y : String) → count y (names_of r.plugins) ≤ 1)
    → contains (names_of r.plugins) x ≡ true
    → (info_of r.plugins x).required ≡ true
    → (validate range r).1 ≡ none
    → (init_all (validate range r).0).2 ≡ none
    → (start_all (init_all (validate range r).0).0).2 ≡ none
    → contains (active_names (start_all (init_all (validate range r).0).0).0) x ≡ true
boot_required range r x fresh once here req v i s =
    let q = (validate range r).0 in
    let q' = (init_all q).0 in
    let ok_q = validate-IsResolved range r fresh once v in
    let same : (info_of q.plugins x).required ≡ true =
      ap (λ ps. (info_of ps x).required) (validate-plugins range r) ∙ req in
    let same' : (info_of q'.plugins x).required ≡ true =
      ap (λ ps. (info_of ps x).required) (init_all-order q).1 ∙ same in
    let on = ok_q.required_active x req in
    let on' = start_all-Spares q' x same' (init_all-Spares q x same on i) s in
    let order : (start_all q').0.order ≡ q.order = start_all-order q' ∙ (init_all-order q).0 in
    ground (
      arith,
      ok_q.each_once x,
      contains-count x (names_of r.plugins),
      contains-count x (active_names (start_all q').0),
      count-keep (λ n. not (contains (start_all q').0.disabled n)) x (start_all q').0.order,
      ap (count x) order,
    )
