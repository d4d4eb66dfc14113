-- ===== src/Insight/Correlation/Correct.antt =====
-- What `Correlate` of internal/insight/correlation/correlator.go answers.
use subnetree.Prelude.{
  suc, String, Bool-cases, ◌≡◌, refl, ap, subst, some, inl, inr, List, [], length, ◌==◌, string_eq,
  ltb, arith, MapRange, ℤ,
}
use mathlib.Core.List.Memᴰ
use subnetree.Insight.Correlation.{
  Alert, Group, TopologyEdge, no_links, adjacency, init_parents, join_all, pairs, roots, build,
  correlate,
}
use subnetree.Insight.Correlation.Window.{IsWindow}
use subnetree.Insight.Correlation.Joins.{Joined, Joins, Partition}
use subnetree.Insight.Correlation.Pairs.{join_all-Joins}
use subnetree.Insight.Correlation.Start.{
  init_parents-IsInitial, init_parents-set, empty-IsInitial, IsInitial-IsForest,
}
use subnetree.Insight.Correlation.Groups.{collect-Collected}
use subnetree.Insight.Correlation.Members.{single-same}
use subnetree.Insight.Correlation.Spec.{Linked, IsCorrelation, AreRegular}
use subnetree.Insight.Correlation.Decided.{Decides, linked-Linked, build-IsCorrelation}

module _ (alerts : List Alert) (topology : List TopologyEdge) (window : ℤ) (wide : IsWindow window)
    (regular : AreRegular alerts) where
  abbrev R : String → String → Type 0
  R = Linked alerts topology window

  -- The parents before the first union.
  first-parents :
      Partition R
        (λ x. init_parents alerts (λ y. "") x == "")
        0
        (init_parents alerts (λ y. ""))
        (λ x. x)
  first-parents = record {
    depth = λ x. 0;
    forest =
        IsInitial-IsForest (init_parents alerts (λ y. ""))
          (init_parents-IsInitial alerts (λ y. "") empty-IsInitial);
    shallow = λ x. omega arith;
    domain = λ x. refl;
    sound = λ x y e. subst (λ (z : String). Joined R x z) e Joined.same;
  }

  all-Joins :
      Joins R
        (λ x. init_parents alerts (λ y. "") x == "")
        (pairs alerts)
        (λ x. x)
        (join_all
          (suc (pairs alerts))
          (adjacency topology no_links)
          window
          alerts
          (init_parents alerts (λ y. "")))
        (Decides alerts topology window wide regular)
  all-Joins =
      join_all-Joins R (λ x. init_parents alerts (λ y. "") x == "") (suc (pairs alerts))
        (adjacency topology no_links) window alerts 0 (pairs alerts) (init_parents alerts (λ y. ""))
        (λ x. x) first-parents (omega arith) (omega arith)
        (λ a b m n. (
          init_parents-set alerts (λ y. "") regular.named b.device_id (inr (b, n, refl)),
          linked-Linked alerts topology window wide regular a b m n,
        ))

  -- Correlate returns, and its groups are right: an alert of a group is one of the alerts, with it
  -- are in the group the alerts whose devices the links join to its device and no others, each two
  -- alerts of different devices that the links join are in a group, no device is in two groups, and a
  -- group lists each of its devices once, two or more, with the device of an earliest alert as the
  -- root cause. A link is two alerts no farther apart than the window, of one device or of two that
  -- the topology connects. This holds if the alerts name their devices and lie within 292 years, and
  -- the window is an int64 but not the greatest one.
  pub correlate-IsCorrelation :
      (order : MapRange)
      → (groups : List Group) × (correlate order alerts topology window ≡ some groups)
        × IsCorrelation alerts topology window groups
  unfolding correlate
  correlate-IsCorrelation order = elim (Bool-cases (ltb (length alerts) 2)) [
    | inl few ↦ (
      [],
      rw few,
      record {
        classes = λ g a m n. absurd (Memᴰ.not-nil m);
        found = λ a b m n differ joined. absurd (
            differ
              (ap (λ (r : Alert). r.device_id) (single-same a b alerts (ground (arith, few)) m n)));
        once = λ d. omega arith;
        sound = λ g m. absurd (Memᴰ.not-nil m);
      },
    )
    | inr many ↦
        let s = all-Joins in
        let c =
          collect-Collected (suc (pairs alerts)) alerts s.next s.rep' s.partition.depth []
            s.partition.forest (λ x. omega (arith, s.partition.shallow x)) (λ r. omega arith) in
        (
          build order 0 c.groups (order.visit 0 (roots c.groups)),
          rw (many, s.runs, c.runs) refl,
          build-IsCorrelation alerts topology window wide regular order s.rep' s.holds
              s.partition.sound c.groups c.classes c.distinct,
        )
  ]
