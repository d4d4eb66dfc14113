-- ===== src/Pulse/Alerter.antt =====
-- internal/pulse/alerter.go and correlation.go. A threshold below 0 acts as 0 does. The lock makes
-- each ProcessResult one step, at the time `now`.
pub mod Active
pub mod Synced
pub mod Severity
use subnetree.Prelude.{
  ℕ, ◌+◌, ◌*◌, String, Bool, true, false, not, ◌&&◌, List, [], ◌∷◌, ◌++◌, Option, none, some, ◌==◌,
  nat_eq, string_eq, ltb, leb, if◌then◌else◌, update,
}
use subnetree.Pulse.Store.{
  Alert, Message, get_active_alert, resolve_alert, insert_alert, is_suppressed,
  get_parent_active_alerts,
}

pub record Check : Type 0 where
  pub id : String
  pub device_id : String

-- A check's result; an empty message is none.
pub record CheckResult : Type 0 where
  pub success : Bool
  pub error_message : String

pub data Event : Type 0 where
  triggered resolved suppressed : Alert → Event

-- The alerter's settings, and the tables that it only reads.
pub record Config : Type 0 where
  pub threshold : ℕ
  pub has_bus : Bool
  pub correlation : Option ℕ
  pub dependencies : List (String × String)
  pub parent_of : String → Option String

-- Which queries of a step fail.
pub record Faults : Type 0 where
  pub get : Bool
  pub resolve : Bool
  pub suppression : Bool
  pub parents : Bool
  pub insert : Bool

pub record State : Type 0 where
  pub failures : String → ℕ
  pub alerts : List Alert
  pub events : List Event

abbrev pub publish : Config → Event → List Event → List Event
publish cfg e events = if cfg.has_bus then events ++ e ∷ [] else events

-- CorrelationEngine.Check: the parent device, where it suppresses the alert.
unfoldable pub correlation_check : Config → ℕ → String → ℕ → List Alert → Option String
unfolding get_parent_active_alerts
correlation_check cfg window device now alerts =
    let (found, parent) = get_parent_active_alerts cfg.parent_of device window now alerts in
    elim found [ [] ↦ none | a ∷ more ↦ some parent ]

unfoldable pub handle_success : Config → Faults → ℕ → Check → State → State
unfolding get_active_alert resolve_alert
handle_success cfg faults now check st =
    let cleared : State = record st { failures = update st.failures check.id 0 } in
    if faults.get then cleared else elim (get_active_alert check.id st.alerts) [
      | none ↦ cleared
      | some a ↦ if faults.resolve then cleared else record cleared {
        alerts = resolve_alert a.id now st.alerts;
        events = publish cfg (Event.resolved (record a { resolved_at = some now })) st.events;
      }
    ]

-- The device whose failure suppresses a new alert of the check: a dependency first, then the parent.
unfoldable pub suppressor : Config → Faults → ℕ → Check → List Alert → Option String
unfolding is_suppressed correlation_check
suppressor cfg faults now check alerts =
    let by_parent : Option String = elim cfg.correlation [
      | none ↦ none
      | some window ↦
          if check.device_id == ""
          then none
          else if faults.parents
          then none
          else correlation_check cfg window check.device_id now alerts
    ] in
    if faults.suppression
    then by_parent
    else elim (is_suppressed cfg.dependencies check.id alerts) [
      | some device ↦ some device
      | none ↦ by_parent
    ]

unfoldable pub severity_of : Config → ℕ → String
severity_of cfg count = if leb (cfg.threshold * 2) count then "critical" else "warning"

-- The alert that a failure number `count` of the check makes.
unfoldable pub alert_for : Config → Faults → ℕ → Check → CheckResult → ℕ → List Alert → Alert
unfolding suppressor severity_of
alert_for cfg faults now check result count alerts = record {
  id = (check.id, now);
  check_id = check.id;
  device_id = check.device_id;
  severity = severity_of cfg count;
  message =
      if result.error_message == ""
      then Message.failed_times check.id count
      else Message.reported result.error_message;
  triggered_at = now;
  resolved_at = none;
  consecutive_failures = count;
  suppressed_by = suppressor cfg faults now check alerts;
}

abbrev pub announcement : Alert → Event
announcement a = elim a.suppressed_by [ none ↦ Event.triggered a | some _ ↦ Event.suppressed a ]

unfoldable pub handle_failure : Config → Faults → ℕ → Check → CheckResult → State → State
unfolding get_active_alert insert_alert alert_for
handle_failure cfg faults now check result st =
    let count = st.failures check.id + 1 in
    let counted : State = record st { failures = update st.failures check.id count } in
    if ltb count cfg.threshold
    then counted
    else if faults.get
    then counted
    else elim (get_active_alert check.id st.alerts) [
      | some _ ↦ counted
      | none ↦
          let a = alert_for cfg faults now check result count st.alerts in
          if faults.insert then counted else elim (insert_alert a st.alerts) [
            | none ↦ counted
            | some alerts ↦ record counted {
              alerts = alerts;
              events = publish cfg (announcement a) st.events;
            }
          ]
    ]

unfoldable pub process_result : Config → Faults → ℕ → Check → CheckResult → State → State
unfolding handle_success handle_failure
process_result cfg faults now check result st =
    if result.success
    then handle_success cfg faults now check st
    else handle_failure cfg faults now check result st
