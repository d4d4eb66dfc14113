-- ===== src/Insight/Correlation/Build.antt =====
-- The loop that makes the result of `Correlate` in internal/insight/correlation/correlator.go.
use subnetree.Prelude.{
  ℕ, suc, ◌≤◌, ◌<◌, String, true, Bool-cases, Option-cases, ◌≡◌, refl, ap, ◌∙◌, some, inl, inr, ◌≢◌,
  List, [], ◌∷◌, length, keep, count, contains, contains-count, length-le_of_counts,
  length_of_counts, ==_cases, string_eq, if◌then◌else◌, arith, MapRange,
}
use text.Mathlib.TextEquality.{eq_iff}
use mathlib.Core.List.{Memᴰ}
use mathlib.Core.List.Memᴰ
use subnetree.Insight.Correlation.{
  Alert, Group, Groups, alerts_of, device_set, earliest, make_group, build,
}
use subnetree.Insight.Correlation.Groups.{
  class, devices_of, count-device_set, earliest-le, earliest-mem,
}

-- What is promised of a group made of the alerts `xs`: it lists each of their devices once, two at
-- least, and its root cause is the device of an earliest alert.
pub record IsGroup (xs : List Alert) (g : Group) : Type 0 where
  pub alerts : g.alerts ≡ xs
  pub devices : (d : String) → count d g.device_ids ≡ (if contains (devices_of xs) d then 1 else 0)
  pub several : 2 ≤ length g.device_ids
  pub cause :
      (a : Alert) × Memᴰ a xs
      × (a.device_id ≡ g.root_cause)
      × ((b : Alert) → Memᴰ b xs → a.timestamp ≤ b.timestamp)

module _ (order : MapRange) where
  make_group-IsGroup :
      (n : ℕ) (xs : List Alert) (g : Group) → make_group order n xs ≡ some g → IsGroup xs g
  unfolding make_group
  make_group-IsGroup n [] g h = cc
  make_group-IsGroup n (a ∷ xs) g h =
      let ds = device_set (a ∷ xs) [] in
      let many : 2 ≤ length ds = ground arith in
      let e : record {
        device_ids = order.visit (suc n) ds;
        alerts = a ∷ xs;
        root_cause = (earliest a xs).device_id;
      }
          ≡ g =
        ground arith in
      rw (← e) (record {
        alerts = refl;
        devices = λ d. order.visit_count (suc n) ds d ∙ count-device_set d (a ∷ xs) [];
        several =
            omega
              (arith, length_of_counts (order.visit (suc n) ds) ds (order.visit_count (suc n) ds));
        cause = (earliest a xs, earliest-mem a xs, refl, earliest-le a xs);
      })

  -- Alerts of two devices make a group.
  pub make_group-some :
      (xs : List Alert) (d e : String)
      → contains (devices_of xs) d ≡ true
      → contains (devices_of xs) e ≡ true
      → d ≢ e
      → (n : ℕ) → (g : Group) × (make_group order n xs ≡ some g)
  unfolding make_group
  make_group-some [] d e hd he ne n = cc
  make_group-some (a ∷ xs) d e hd he ne n =
      let ds = device_set (a ∷ xs) [] in
      let many : 2 ≤ length ds =
        length-le_of_counts (d ∷ e ∷ []) ds (λ c.
          ground (arith, eq_iff d c, eq_iff e c, eq_iff d e, count-device_set c (a ∷ xs) [])) in
      (
        record {
          device_ids = order.visit (suc n) ds;
          alerts = a ∷ xs;
          root_cause = (earliest a xs).device_id;
        },
        ground arith,
      )

  module _ (gs : Groups) where
    pub build-mem :
        (n : ℕ) (rs : List String) (g : Group)
        → Memᴰ g (build order n gs rs)
        → (r : String) × IsGroup (alerts_of r gs) g
    unfolding build
    build-mem n [] g m = absurd (Memᴰ.not-nil m)
    build-mem n (r ∷ rs) g m = elim (Option-cases (make_group order n (alerts_of r gs))) [
      | inl skipped ↦ build-mem (suc n) rs g (rw (skipped, build) at m)
      | inr (h, made) ↦ elim (Memᴰ.cases_cons (rw (made, build) at m)) [
        | inl p ↦ (r, make_group-IsGroup n (alerts_of r gs) g (rw p made))
        | inr m' ↦ build-mem (suc n) rs g m'
      ]
    ]

    pub build-reaches :
        (n : ℕ) (rs : List String) (r : String)
        → 0 < count r rs
        → ((n : ℕ) → (g : Group) × (make_group order n (alerts_of r gs) ≡ some g))
        → (g : Group) × Memᴰ g (build order n gs rs) × IsGroup (alerts_of r gs) g
    unfolding build
    build-reaches n [] r h made = absurd (omega arith)
    build-reaches n (q ∷ rs) r h made = elim (==_cases q r) [
      | inl (e, p) ↦
          let (g, m) = made n in
          (g, rw (p, m, build) (Memᴰ.head refl), make_group-IsGroup n (alerts_of r gs) g m)
      | inr (e, p) ↦
          let (g, m, i) = build-reaches (suc n) rs r (ground (arith, h, e)) made in
          elim (Option-cases (make_group order n (alerts_of q gs))) [
            | inl skipped ↦ (g, rw (skipped, build) m, i)
            | inr (other, kept) ↦ (g, rw (kept, build) (Memᴰ.tail m), i)
          ]
    ]

    module _ (rep : String → String) (all : List Alert)
        (classes : (r : String) → alerts_of r gs ≡ class rep r all) (d : String) where
      pub class-rep :
          (r : String) (xs : List Alert)
          → contains (devices_of (class rep r xs)) d ≡ true
          → rep d ≡ r
      class-rep r [] h = cc
      class-rep r (a ∷ xs) h = elim (Bool-cases (contains (devices_of (class rep r xs)) d)) [
        | inl later ↦ class-rep r xs later
        | inr first ↦ ground (
          arith,
          h,
          first,
          eq_iff (rep a.device_id) r,
          eq_iff a.device_id d,
          λ (p : a.device_id ≡ d). ap rep p,
        )
      ]

      build-head :
          (r : String) (g : Group)
          → IsGroup (alerts_of r gs) g
          → contains g.device_ids d ≡ true
          → rep d ≡ r
      build-head r g i h =
          class-rep r all
            (rw (← classes r) (ground (arith, i.devices d, contains-count d g.device_ids)))

      -- A device stands in the group of its root only.
      pub build-once :
          (n : ℕ) (rs : List String)
          → length (keep (λ (g : Group). contains g.device_ids d) (build order n gs rs))
            ≤ count (rep d) rs
      unfolding build
      build-once n [] = omega arith
      build-once n (r ∷ rs) = elim (Option-cases (make_group order n (alerts_of r gs))) [
        | inl skipped ↦ rw (skipped, build) (ground (arith, build-once (suc n) rs))
        | inr (g, made) ↦
            rw (made, build)
              (ground (
                arith,
                build-once (suc n) rs,
                eq_iff r (rep d),
                build-head r g (make_group-IsGroup n (alerts_of r gs) g made),
              ))
      ]
