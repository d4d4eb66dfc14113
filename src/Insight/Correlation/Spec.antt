-- ===== src/Insight/Correlation/Spec.antt =====
-- What is promised of `Correlate` in internal/insight/correlation/correlator.go.
use subnetree.Prelude.{
  ℕ, ◌+◌, ◌≤◌, ◌<◌, String, ◌≡◌, ◌⊎◌, ◌↔◌, ◌≢◌, List, length, keep, contains, string_eq, ℤ, pos,
  ◌≤ℤ◌,
}
use mathlib.Core.List.{Memᴰ}
use subnetree.Insight.Correlation.{Alert, Group, TopologyEdge, min_duration}
use subnetree.Insight.Correlation.Window.{gap}
use subnetree.Insight.Correlation.Joins.{Joined}
use subnetree.Insight.Correlation.Start.{HasEdge}
use subnetree.Insight.Correlation.Build.{IsGroup}

module _ (alerts : List Alert) (topology : List TopologyEdge) (window : ℤ) where
  -- Two devices have alerts no farther apart than the window, and are one device or neighbours.
  pub record Linked (d e : String) : Type 0 where
    pub a : Alert
    pub b : Alert
    pub has_a : Memᴰ a alerts
    pub has_b : Memᴰ b alerts
    pub of_d : a.device_id ≡ d
    pub of_e : b.device_id ≡ e
    pub close : pos (gap a.timestamp b.timestamp) ≤ℤ window
    pub near : (d ≡ e) ⊎ HasEdge topology d e

  -- The groups are the classes, of two devices or more, of the least equivalence relation that holds
  -- the links.
  pub record IsCorrelation (groups : List Group) : Type 0 where
    pub classes :
        (g : Group) (a : Alert)
        → Memᴰ g groups
        → Memᴰ a g.alerts
        → Memᴰ a alerts
          × ((b : Alert)
              → Memᴰ b g.alerts ↔ (Memᴰ b alerts × Joined Linked a.device_id b.device_id))
    pub found :
        (a b : Alert)
        → Memᴰ a alerts
        → Memᴰ b alerts
        → a.device_id ≢ b.device_id
        → Joined Linked a.device_id b.device_id
        → (g : Group) × Memᴰ g groups × Memᴰ a g.alerts
    pub once : (d : String) → length (keep (λ (g : Group). contains g.device_ids d) groups) ≤ 1
    pub sound : (g : Group) → Memᴰ g groups → IsGroup g.alerts g

-- What is asked of the alerts: each names a device, and they lie within 292 years.
pub record AreRegular (alerts : List Alert) : Type 0 where
  pub base : ℕ
  pub named : (a : Alert) → Memᴰ a alerts → a.device_id ≢ ""
  pub since : (a : Alert) → Memᴰ a alerts → base ≤ a.timestamp
  pub until : (a : Alert) → Memᴰ a alerts → a.timestamp < base + min_duration
