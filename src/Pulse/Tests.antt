-- ===== src/Pulse/Tests.antt =====
-- An alerter with the threshold 2, and the theorems at it.
use subnetree.Prelude.{
  ℕ, ◌<◌, ◌↔◌, ◌+◌, ◌≡◌, refl, String, true, false, List, [], ◌∷◌, ◌++◌, ◌⊎◌, none, some, arith,
  length, ◌==◌, string_eq, if◌then◌else◌,
}
use subnetree.Pulse.Store.{has_id, is_suppressed}
use subnetree.Pulse.Maintenance.{
  Time, MaintWindow, IsClock, is_device_in_maintenance_window, Silenced,
  is_device_in_maintenance_window-Silenced,
}
use subnetree.Pulse.Alerter.{Check, CheckResult, Config, State, process_result}
use subnetree.Pulse.Alerter.Active.{
  active_count, alert_ids, no_faults, IsConsistent, process_result-IsConsistent,
}
use subnetree.Pulse.Alerter.Synced.{IsSynced, process_result-IsSynced}
use subnetree.Pulse.Alerter.Severity.{AreWarnings, process_result-AreWarnings}

abbrev cfg : Config
cfg = record {
  threshold = 2;
  has_bus = true;
  correlation = some 1000;
  dependencies = ("web", "router") ∷ [];
  parent_of = λ device. some "router";
}

abbrev web : Check
web = record { id = "web"; device_id = "server" }

abbrev down : CheckResult
down = record { success = false; error_message = "timeout" }

abbrev up : CheckResult
up = record { success = true; error_message = "" }

abbrev fresh : State
fresh = record { failures = λ c. 0; alerts = []; events = [] }

abbrev once_down : State
once_down = process_result cfg no_faults 10 web down fresh

abbrev twice_down : State
twice_down = process_result cfg no_faults 20 web down once_down

-- One alert at the second failure, and none after a success.
alerts_twice : length twice_down.alerts ≡ 1
unfolding process_result
alerts_twice = refl

alerts_up : active_count "web" (process_result cfg no_faults 30 web up twice_down).alerts ≡ 0
unfolding process_result
alerts_up = refl

fresh-IsConsistent : IsConsistent fresh
fresh-IsConsistent = record { named = tt; once = λ c. ground arith }

fresh-IsSynced : IsSynced cfg fresh
fresh-IsSynced c = ground arith

once_down-IsConsistent : IsConsistent once_down
once_down-IsConsistent =
    (process_result-IsConsistent cfg no_faults 10 web down fresh fresh-IsConsistent).0

once_down-IsSynced : IsSynced cfg once_down
unfolding has_id
once_down-IsSynced =
    (process_result-IsSynced cfg no_faults 10 web down fresh refl (omega arith) refl
      fresh-IsConsistent fresh-IsSynced).0

once_down-AreWarnings : AreWarnings once_down.alerts
once_down-AreWarnings =
    (process_result-AreWarnings cfg no_faults 10 web down fresh (omega arith) fresh-IsSynced tt).0

process_result-IsConsistent_example :
    IsConsistent twice_down
    × ((alert_ids twice_down.alerts ≡ alert_ids once_down.alerts)
        ⊎ (down.success ≡ false)
          × (alert_ids twice_down.alerts ≡ alert_ids once_down.alerts ++ ("web", 20) ∷ []))
process_result-IsConsistent_example =
    process_result-IsConsistent cfg no_faults 20 web down once_down once_down-IsConsistent

process_result-IsSynced_example :
    IsSynced cfg twice_down
    × ((c : String)
        → twice_down.failures c
          ≡ (if "web" == c then once_down.failures c + 1 else once_down.failures c))
unfolding process_result
process_result-IsSynced_example =
    process_result-IsSynced cfg no_faults 20 web down once_down refl (omega arith) refl
      once_down-IsConsistent once_down-IsSynced

process_result-AreWarnings_example :
    AreWarnings twice_down.alerts
    × ((deps : List (String × String)) (c : String) → is_suppressed deps c twice_down.alerts ≡ none)
process_result-AreWarnings_example =
    process_result-AreWarnings cfg no_faults 20 web down once_down (omega arith) once_down-IsSynced
      once_down-AreWarnings

abbrev clock : ℕ → ℕ → Time
clock h m = record { instant = 0; weekday = 6; day = 1; hour = h; minute = m; second = 0 }

clock-IsClock : (h m : ℕ) → h < 24 → m < 60 → IsClock (clock h m)
clock-IsClock h m a b = record { hour = a; minute = b; second = omega arith }

abbrev nightly : MaintWindow
nightly = record {
  start_time = clock 22 0;
  end_time = clock 2 0;
  recurrence = "daily";
  device_ids = "server" ∷ [];
  enabled = true;
}

silenced : is_device_in_maintenance_window (clock 1 0) "server" (nightly ∷ []) ≡ true
unfolding is_device_in_maintenance_window
silenced = refl

is_device_in_maintenance_window-Silenced_example :
    (is_device_in_maintenance_window (clock 1 0) "server" (nightly ∷ []) ≡ true)
    ↔ Silenced (clock 1 0) "server" (nightly ∷ [])
is_device_in_maintenance_window-Silenced_example =
    is_device_in_maintenance_window-Silenced (clock 1 0)
      (clock-IsClock 1 0 (omega arith) (omega arith)) "server" (nightly ∷ [])
      (
        (
          clock-IsClock 22 0 (omega arith) (omega arith),
          clock-IsClock 2 0 (omega arith) (omega arith),
        ),
        tt,
      )
