-- ===== src/Insight/Tests.antt =====
-- Three alerts of which two belong together, and the theorems at them.
use subnetree.Prelude.{
  ◌+◌, ◌≤◌, ◌<◌, ◌≡◌, ◌≢◌, ◌↔◌, ◌⊎◌, refl, inl, inr, List, [], ◌∷◌, true, some, in_order, pos, ◌≤ℤ◌,
  arith,
}
use text.Mathlib.TextEquality.{eq_iff}
use mathlib.Core.List.{Memᴰ}
use mathlib.Core.List.Memᴰ
use subnetree.Insight.Correlation.{
  Alert, TopologyEdge, Group, correlate, join_all, join_with, join_pair, linked, union, find,
  link_roots, init_parents, adjacency, add_link, collect, add_alert, build, make_group, device_set,
  earliest, within, sub_time, abs_duration, min_duration, pairs,
}
use subnetree.Insight.Correlation.Window.{gap, IsWindow, within_iff}
use subnetree.Insight.Correlation.Spec.{AreRegular, IsCorrelation}
use subnetree.Insight.Correlation.Correct.{correlate-IsCorrelation}

abbrev router_down : Alert
router_down = record { device_id = "router"; metric = "ping"; timestamp = 10 }

abbrev switch_down : Alert
switch_down = record { device_id = "switch"; metric = "ping"; timestamp = 12 }

abbrev disk_full : Alert
disk_full = record { device_id = "nas"; metric = "disk"; timestamp = 13 }

abbrev three : List Alert
three = switch_down ∷ router_down ∷ disk_full ∷ []

abbrev uplink : List TopologyEdge
uplink = record { source_id = "router"; target_id = "switch" } ∷ []

grouped :
    correlate in_order three uplink (pos 5)
    ≡ some (
        record {
          device_ids = "router" ∷ "switch" ∷ [];
          alerts = switch_down ∷ router_down ∷ [];
          root_cause = "router";
        }
        ∷ [])
unfolding correlate join_all join_with join_pair linked union find link_roots init_parents adjacency
    add_link collect add_alert build make_group device_set earliest within sub_time abs_duration
    min_duration pairs
grouped = refl

five-IsWindow : IsWindow (pos 5)
unfolding min_duration
five-IsWindow = record { above = omega arith; below = omega arith }

three-cases :
    (P : Alert → Type 0)
    → P switch_down
    → P router_down
    → P disk_full
    → (a : Alert) → Memᴰ a three
    → P a
three-cases P s r d a m = elim (Memᴰ.cases_cons m) [
  | inl p ↦ rw p s
  | inr m' ↦ elim (Memᴰ.cases_cons m') [
    | inl p ↦ rw p r
    | inr m'' ↦ rw (Memᴰ.eq_of_singleton m'') d
  ]
]

three-AreRegular : AreRegular three
unfolding min_duration
three-AreRegular = record {
  base = 0;
  named =
      three-cases (λ a. a.device_id ≢ "") (λ e. ground (arith, (eq_iff "switch" "").1 e))
        (λ e. ground (arith, (eq_iff "router" "").1 e))
        (λ e. ground (arith, (eq_iff "nas" "").1 e));
  since = λ a m. omega arith;
  until =
      three-cases (λ a. a.timestamp < 0 + min_duration) (omega arith) (omega arith) (omega arith);
}

correlate-IsCorrelation_example :
    (groups : List Group) × (correlate in_order three uplink (pos 5) ≡ some groups)
    × IsCorrelation three uplink (pos 5) groups
correlate-IsCorrelation_example =
    correlate-IsCorrelation three uplink (pos 5) five-IsWindow three-AreRegular in_order

within_iff_example :
    (within (pos 5) 10 12 ≡ true) ↔ ((pos (gap 10 12) ≤ℤ pos 5) ⊎ (10 + min_duration ≤ 12))
within_iff_example = within_iff (pos 5) 10 12 five-IsWindow
