-- ===== src/Registry/Validate.antt =====
-- Registry.Register and Registry.Validate (internal/registry/registry.go).
pub mod Pass
pub mod Broken
pub mod Cascade
pub mod Resolve
pub mod Correct
use subnetree.Prelude.{
  ℕ, zero, suc, ◌+◌, String, Bool, true, false, List, [], ◌∷◌, ◌++◌, Option, none, some, ◌==◌,
  string_eq, if◌then◌else◌, contains, length, ℤ, pos, ltb_ℤ, Result, ok, err, MapRange,
}
use subnetree.Registry.Types.{
  PluginInfo, Plugin, Registry, Error, name_of, names_of, lookup, info_of, dependencies_of,
}
use subnetree.Registry.Sort.{topological_sort}

unfoldable pub register : Registry → Plugin → Registry × Option Error
register r p =
    if name_of p == "" then (r, some Error.empty_name) else elim (lookup (name_of p) r.plugins) [
      | some _ ↦ (r, some (Error.already_registered (name_of p)))
      | none ↦ (record r { plugins = r.plugins ++ p ∷ [] }, none)
    ]

abbrev pub api_version_min : ℤ
api_version_min = pos 1

abbrev pub api_version_current : ℤ
api_version_current = pos 1

unfoldable pub check_api_version : String → ℤ → Option Error
check_api_version name version =
    if ltb_ℤ version api_version_min
    then some (Error.api_too_old name version)
    else if ltb_ℤ api_version_current version
    then some (Error.api_too_new name version)
    else none

-- What the loops of Validate change: the disabled names, and the flag of the cascade.
pub record Marks : Type 0 where
  pub disabled : List String
  pub changed : Bool

-- An early return keeps the marks that were made.
abbrev pub Pass : Type 0
Pass = Marks × Option Error

abbrev pub and_then : Pass → (Marks → Pass) → Pass
and_then (m, none) f = f m
and_then (m, some e) f = (m, some e)

unfoldable pub for_each : (String → Marks → Pass) → List String → Marks → Pass
for_each body [] m = (m, none)
for_each body (x ∷ xs) m = and_then (body x m) (for_each body xs)

abbrev pub disable : String → Marks → Marks
disable x m = record m { disabled = x ∷ m.disabled }

module _ (names : List String) (info : String → PluginInfo) where
  unfoldable pub api_body : String → Marks → Pass
  api_body x m = elim (check_api_version x (info x).api_version) [
    | none ↦ (m, none)
    | some e ↦ if (info x).required then (m, some e) else (disable x m, none)
  ]

  -- The first dependency of `x` that is not registered or is disabled, as the error it causes.
  unfoldable pub bad_dependency : String → List String → List String → Option Error
  bad_dependency x disabled [] = none
  bad_dependency x disabled (dep ∷ deps) =
      if contains names dep
      then (if contains disabled dep
          then some (Error.disabled_dependency x dep)
          else bad_dependency x disabled deps)
      else some (Error.missing_dependency x dep)

  unfoldable pub dependency_body : String → Marks → Pass
  unfolding bad_dependency
  dependency_body x m =
      if contains m.disabled x
      then (m, none)
      else elim (bad_dependency x m.disabled (info x).dependencies) [
        | none ↦ (m, none)
        | some e ↦ if (info x).required then (m, some e) else (disable x m, none)
      ]

  unfoldable pub first_disabled : List String → List String → Option String
  first_disabled disabled [] = none
  first_disabled disabled (dep ∷ deps) =
      if contains disabled dep then some dep else first_disabled disabled deps

  unfoldable pub cascade_body : String → Marks → Pass
  unfolding first_disabled
  cascade_body x m =
      if contains m.disabled x
      then (m, none)
      else elim (first_disabled m.disabled (info x).dependencies) [
        | none ↦ (m, none)
        | some dep ↦
            if (info x).required
            then (m, some (Error.cannot_start x dep))
            else (record { disabled = x ∷ m.disabled; changed = true }, none)
      ]

  -- `for changed`, with fuel; `k` numbers the rounds. Each round that changes something disables a
  -- plugin, so one round more than there are plugins is enough.
  unfoldable pub cascade : MapRange → ℕ → ℕ → Marks → Pass
  unfolding for_each cascade_body
  cascade range zero k m = (m, none)
  cascade range (suc fuel) k m =
      and_then (for_each cascade_body (range.visit k names) (record m { changed = false }))
        λ m'. elim m'.changed [ true ↦ cascade range fuel (k + 1) m' | false ↦ (m', none) ]

  -- The three checks in front of the sort.
  unfoldable pub resolve : MapRange → Marks → Pass
  unfolding for_each api_body dependency_body cascade
  resolve range m =
      and_then
        (and_then (for_each api_body (range.visit 0 names) m)
          (for_each dependency_body (range.visit 1 names)))
        (cascade range (suc (length names)) 6)

unfoldable pub validate : MapRange → Registry → Registry × Option Error
unfolding resolve topological_sort check_api_version
validate range r =
    let names = names_of r.plugins in
    let marks : Marks = record { disabled = r.disabled; changed = false } in
    let (m, e) = resolve names (info_of r.plugins) range marks in
    elim e [
      | some e ↦ (record r { disabled = m.disabled }, some e)
      | none ↦ elim (topological_sort range (dependencies_of r.plugins) names m.disabled) [
        | err blocked ↦ (record r { disabled = m.disabled }, some (Error.dependency_cycle blocked))
        | ok order ↦ (record r { disabled = m.disabled; order = order }, none)
      ]
    ]
