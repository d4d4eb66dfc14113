-- ===== src/Insight/Correlation/Groups.antt =====
-- The groups that `Correlate` of internal/insight/correlation/correlator.go collects from the roots,
-- and the devices and the root cause of a group.
use subnetree.Prelude.{
  ℕ, ◌≤◌, ◌<◌, String, Bool-cases, ◌≡◌, refl, sym, Option, some, inl, inr, ◌≢◌, List, [], ◌∷◌, ◌++◌,
  map, append-nil, append_assoc, keep, count, contains, contains-count, ◌==◌, ==_cases, string_eq,
  if◌then◌else◌, ltb, arith,
}
use text.Mathlib.TextEquality.{eq_iff}
use mathlib.Core.List.{Memᴰ}
use mathlib.Core.List.Memᴰ
use subnetree.Insight.Correlation.{
  Alert, Parents, Groups, add_alert, collect, alerts_of, roots, device_set, earliest,
}
use subnetree.Insight.Correlation.Forest.{IsForest, find-Found}

alerts_of-add_alert :
    (r q : String) (a : Alert) (gs : Groups)
    → alerts_of r (add_alert q a gs) ≡ alerts_of r gs ++ (if q == r then a ∷ [] else [])
unfolding add_alert
alerts_of-add_alert r q a [] = ground arith
alerts_of-add_alert r q a ((p, xs) ∷ gs) = elim (==_cases p q) [
  | inl (e, same) ↦ rw (e, same) (ground (arith, append-nil xs, append-nil (alerts_of r gs)))
  | inr (e, differ) ↦ rw e (
      ground
        (arith, alerts_of-add_alert r q a gs, eq_iff p q, eq_iff q r, eq_iff p r, append-nil xs))
]

count-add_alert :
    (r q : String) (a : Alert) (gs : Groups)
    → count r (roots (add_alert q a gs)) ≡ (
        if q == r
        then (if ltb 0 (count r (roots gs)) then count r (roots gs) else 1)
        else count r (roots gs))
unfolding add_alert
count-add_alert r q a [] = ground arith
count-add_alert r q a ((p, xs) ∷ gs) =
    ground (arith, count-add_alert r q a gs, eq_iff p q, eq_iff q r, eq_iff p r)

-- A group stands under its root.
pub roots-alerts_of : (r : String) (gs : Groups) → alerts_of r gs ≢ [] → 0 < count r (roots gs)
roots-alerts_of r [] h = absurd (h refl)
roots-alerts_of r ((q, xs) ∷ gs) h = ground (arith, roots-alerts_of r gs)

abbrev pub class : (String → String) → String → List Alert → List Alert
class rep r alerts = keep (λ (a : Alert). rep a.device_id == r) alerts

pub record Collected (rep : String → String) (alerts : List Alert) (start : Groups)
    (result : Option Groups) : Type 0 where
  pub groups : Groups
  pub runs : result ≡ some groups
  pub classes : (r : String) → alerts_of r groups ≡ alerts_of r start ++ class rep r alerts
  pub distinct : (r : String) → count r (roots groups) ≤ 1

pub collect-Collected :
    (fuel : ℕ) (alerts : List Alert) (parent : Parents) (rep : String → String) (depth : String → ℕ)
    (gs : Groups)
    → IsForest parent rep depth
    → ((x : String) → depth x < fuel)
    → ((r : String) → count r (roots gs) ≤ 1)
    → Collected rep alerts gs (collect fuel alerts parent gs)
unfolding collect
collect-Collected fuel [] parent rep depth gs forest h d = record {
  groups = gs;
  runs = refl;
  classes = λ r. sym (append-nil (alerts_of r gs));
  distinct = d;
}
collect-Collected fuel (a ∷ xs) parent rep depth gs forest h d =
    let f = find-Found fuel a.device_id parent rep depth forest (h a.device_id) in
    let root = rep a.device_id in
    let rest =
      collect-Collected fuel xs f.next rep depth (add_alert root a gs) f.forest h
        (λ r. ground (arith, count-add_alert r root a gs, d r)) in
    record {
      groups = rest.groups;
      runs = rw f.runs rest.runs;
      classes = λ r. ground (
        arith,
        rest.classes r,
        alerts_of-add_alert r root a gs,
        append_assoc (alerts_of r gs) (a ∷ []) (class rep r xs),
        append-nil (alerts_of r gs),
      );
      distinct = rest.distinct;
    }

abbrev pub devices_of : List Alert → List String
devices_of = map (λ (a : Alert). a.device_id)

pub count-device_set :
    (d : String) (xs : List Alert) (ds : List String)
    → count d (device_set xs ds)
      ≡ (if ltb 0 (count d ds) then count d ds else if contains (devices_of xs) d then 1 else 0)
unfolding device_set
count-device_set d [] ds = ground arith
count-device_set d (a ∷ xs) ds = ground (
  arith,
  contains-count a.device_id ds,
  eq_iff a.device_id d,
  count-device_set d xs (if contains ds a.device_id then ds else a.device_id ∷ ds),
)

-- The first alert among the earliest.
pub earliest-le :
    (best : Alert) (xs : List Alert) (b : Alert)
    → Memᴰ b (best ∷ xs)
    → (earliest best xs).timestamp ≤ b.timestamp
unfolding earliest
earliest-le best [] b m = elim (Memᴰ.cases_cons m) [
  | inl p ↦ rw p (omega arith)
  | inr m' ↦ absurd (Memᴰ.not-nil m')
]
earliest-le best (a ∷ xs) b m =
    let c = if ltb a.timestamp best.timestamp then a else best in
    let first = earliest-le c xs c (Memᴰ.head refl) in
    elim (Memᴰ.cases_cons m) [
      | inl p ↦ rw p (ground (arith, first))
      | inr m' ↦ elim (Memᴰ.cases_cons m') [
        | inl p ↦ rw p (ground (arith, first))
        | inr m'' ↦ earliest-le c xs b (Memᴰ.tail m'')
      ]
    ]

pub earliest-mem : (best : Alert) (xs : List Alert) → Memᴰ (earliest best xs) (best ∷ xs)
unfolding earliest
earliest-mem best [] = Memᴰ.head refl
earliest-mem best (a ∷ xs) = elim (Bool-cases (ltb a.timestamp best.timestamp)) [
  | inl sooner ↦ rw sooner (Memᴰ.tail (earliest-mem a xs))
  | inr later ↦ rw later (elim (Memᴰ.cases_cons (earliest-mem best xs)) [
    | inl p ↦ Memᴰ.head p
    | inr m ↦ Memᴰ.tail (Memᴰ.tail m)
  ])
]
