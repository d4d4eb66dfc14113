-- ===== src/Registry/Lifecycle.antt =====
-- Registry.InitAll, StartAll, StopAll and the queries (internal/registry/registry.go).
-- The calls that the registry makes on plugins and on the event bus are a list of events. The loops
-- run under a read lock, and the `disabled` flags that they write are state here.
pub mod Calls
pub mod Boot
use subnetree.Prelude.{
  String, Bool, true, false, not, ◌&&◌, List, [], ◌∷◌, ◌++◌, map, reverse, Option, none, some, ◌==◌,
  string_eq, if◌then◌else◌, contains, keep,
}
use subnetree.Registry.Types.{
  PluginInfo, Plugin, Registry, Error, Outcome, returned, failed, panicked, lookup, info_of,
}

pub data Event : Type 0 where
  init start stop : String → Event
  subscribe : String → String → Event

-- A loop's effects: the flags, the calls that were made, and an early return with an error.
pub record Progress : Type 0 where
  pub disabled : List String
  pub events : List Event
  pub error : Option Error

-- A call on a nil plugin panics inside the function that recovers.
abbrev pub init_outcome : Option Plugin → Outcome
init_outcome none = panicked "nil plugin"
init_outcome (some p) = p.init

abbrev pub start_outcome : Option Plugin → Outcome
start_outcome none = panicked "nil plugin"
start_outcome (some p) = p.start

abbrev pub config_error : Option Plugin → Option String
config_error none = none
config_error (some p) = elim p.validate_config [ none ↦ none | some e ↦ e ]

abbrev pub topics : Option Plugin → List String
topics none = []
topics (some p) = elim p.subscriptions [ none ↦ [] | some ts ↦ ts ]

-- The body of InitAll's loop after Init returned: ValidateConfig, then the subscriptions, which a
-- plugin gets even where its configuration was just refused.
unfoldable pub configure : List Plugin → String → List String → Progress
configure plugins name disabled =
    let subscribed : List Event =
      Event.init name ∷ map (Event.subscribe name) (topics (lookup name plugins)) in
    elim (config_error (lookup name plugins)) [
      | none ↦ record { disabled = disabled; events = subscribed; error = none }
      | some _ ↦
          if (info_of plugins name).required
          then record {
            disabled = disabled;
            events = Event.init name ∷ [];
            error = some (Error.config_failed name);
          }
          else record { disabled = name ∷ disabled; events = subscribed; error = none }
    ]

unfoldable pub init_one : List Plugin → String → List String → Progress
unfolding configure
init_one plugins name disabled = elim (init_outcome (lookup name plugins)) [
  | returned ↦ configure plugins name disabled
  | _ ↦
      if (info_of plugins name).required
      then record {
        disabled = disabled;
        events = Event.init name ∷ [];
        error = some (Error.init_failed name);
      }
      else record { disabled = name ∷ disabled; events = Event.init name ∷ []; error = none }
]

-- The body of StartAll's loop.
unfoldable pub start_one : List Plugin → String → List String → Progress
start_one plugins name disabled =
    if contains disabled name
    then record { disabled = disabled; events = []; error = none }
    else elim (start_outcome (lookup name plugins)) [
      | returned ↦ record { disabled = disabled; events = Event.start name ∷ []; error = none }
      | _ ↦
          if (info_of plugins name).required
          then record {
            disabled = disabled;
            events = Event.start name ∷ [];
            error = some (Error.start_failed name);
          }
          else record { disabled = name ∷ disabled; events = Event.start name ∷ []; error = none }
    ]

-- A loop over the start order that an error ends.
abbrev pub continue : Progress → (List String → Progress) → Progress
continue p rest = elim p.error [
  | some e ↦ p
  | none ↦
      let q = rest p.disabled in
      record { disabled = q.disabled; events = p.events ++ q.events; error = q.error }
]

unfoldable pub run_each : (String → List String → Progress) → List String → List String → Progress
run_each body [] disabled = record { disabled = disabled; events = []; error = none }
run_each body (name ∷ names) disabled = continue (body name disabled) (run_each body names)

unfoldable pub init_all : Registry → Registry × List Event × Option Error
unfolding run_each init_one
init_all r =
    let p = run_each (init_one r.plugins) r.order r.disabled in
    (record r { disabled = p.disabled }, p.events, p.error)

unfoldable pub start_all : Registry → Registry × List Event × Option Error
unfolding run_each start_one
start_all r =
    let p = run_each (start_one r.plugins) r.order r.disabled in
    (record r { disabled = p.disabled }, p.events, p.error)

-- What Stop answers is only logged.
stop_each : List String → List String → List Event
stop_each disabled [] = []
stop_each disabled (name ∷ names) =
    if contains disabled name
    then stop_each disabled names
    else Event.stop name ∷ stop_each disabled names

unfoldable pub stop_all : Registry → List Event
unfolding stop_each
stop_all r = stop_each r.disabled (reverse r.order)

unfoldable pub get : Registry → String → Option Plugin
get r name = elim (lookup name r.plugins) [
  | none ↦ none
  | some p ↦ if contains r.disabled name then none else some p
]

abbrev pub active_names : Registry → List String
active_names r = keep (λ n. not (contains r.disabled n)) r.order

unfoldable pub all : Registry → List (Option Plugin)
all r = map (λ n. lookup n r.plugins) (active_names r)

unfoldable pub resolve_by_role : Registry → String → List (Option Plugin)
resolve_by_role r role =
    map (λ n. lookup n r.plugins)
      (keep (λ n. contains (info_of r.plugins n).roles role) (active_names r))

abbrev pub routes_of : Option Plugin → List String
routes_of none = []
routes_of (some p) = elim p.routes [ none ↦ [] | some rs ↦ rs ]

-- Keyed by plugin, in the start order; a plugin with no route has no entry.
unfoldable pub all_routes : Registry → List (String × List String)
all_routes r =
    map (λ n. (n, routes_of (lookup n r.plugins)))
      (keep (λ n. has_route (routes_of (lookup n r.plugins))) (active_names r))
  where
    has_route : List String → Bool
    has_route [] = false
    has_route (x ∷ xs) = true

unfoldable pub is_disabled : Registry → String → Bool
is_disabled r name = contains r.disabled name
