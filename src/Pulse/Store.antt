-- ===== src/Pulse/Store.antt =====
-- The alert queries of internal/pulse/store.go, as functions on the rows of the table in the order of
-- insertion. Whether a query fails is an argument of its callers. A time is its milliseconds.
use subnetree.Prelude.{
  ℕ, ◌+◌, String, Bool, true, false, ◌&&◌, ◌||◌, List, [], ◌∷◌, ◌++◌, Option, none, some, ◌==◌,
  nat_eq, string_eq, leb, if◌then◌else◌, keep,
}

-- "check %s failed %d consecutive times", or the error message of the check.
pub data Message : Type 0 where
  failed_times : String → ℕ → Message
  reported : String → Message

-- An alert's ID is made of its check's and the time.
pub record Alert : Type 0 where
  pub id : String × ℕ
  pub check_id : String
  pub device_id : String
  pub severity : String
  pub message : Message
  pub triggered_at : ℕ
  pub resolved_at : Option ℕ
  pub consecutive_failures : ℕ
  pub suppressed_by : Option String

abbrev pub is_active : Alert → Bool
is_active a = elim a.resolved_at [ none ↦ true | some _ ↦ false ]

abbrev pub same_id : String × ℕ → String × ℕ → Bool
same_id (c, t) (c', t') = c == c' && t == t'

unfoldable pub get_active_alert : String → List Alert → Option Alert
get_active_alert check [] = none
get_active_alert check (a ∷ alerts) =
    if a.check_id == check && is_active a then some a else get_active_alert check alerts

unfoldable pub resolve_alert : String × ℕ → ℕ → List Alert → List Alert
resolve_alert id now [] = []
resolve_alert id now (a ∷ alerts) =
    (if same_id a.id id then record a { resolved_at = some now } else a)
    ∷ resolve_alert id now alerts

unfoldable pub has_id : String × ℕ → List Alert → Bool
has_id id [] = false
has_id id (a ∷ alerts) = same_id a.id id || has_id id alerts

-- The ID is the primary key.
unfoldable pub insert_alert : Alert → List Alert → Option (List Alert)
unfolding has_id
insert_alert a alerts = if has_id a.id alerts then none else some (alerts ++ a ∷ [])

-- Some row of the join: an active critical alert on the device.
unfoldable pub has_critical : String → List Alert → Bool
has_critical device [] = false
has_critical device (a ∷ alerts) =
    (a.device_id == device && is_active a && a.severity == "critical") || has_critical device alerts

-- The dependencies are the rows (check, device) of their table.
unfoldable pub is_suppressed : List (String × String) → String → List Alert → Option String
unfolding has_critical
is_suppressed [] check alerts = none
is_suppressed (dep ∷ deps) check alerts =
    if dep.0 == check && has_critical dep.1 alerts
    then some dep.1
    else is_suppressed deps check alerts

-- The active alerts of a device that were triggered within the window before now.
unfoldable pub recent_alerts : String → ℕ → ℕ → List Alert → List Alert
recent_alerts device window now alerts =
    keep (λ a. a.device_id == device && is_active a && leb now (a.triggered_at + window)) alerts

-- The parent is the one in the table of the devices, where it is not empty.
unfoldable pub get_parent_active_alerts :
    (String → Option String) → String → ℕ → ℕ → List Alert → List Alert × String
unfolding recent_alerts
get_parent_active_alerts parent_of device window now alerts = elim (parent_of device) [
  | none ↦ ([], "")
  | some parent ↦
      if parent == "" then ([], "") else (recent_alerts parent window now alerts, parent)
]
