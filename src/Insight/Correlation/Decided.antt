-- ===== src/Insight/Correlation/Decided.antt =====
-- The links as the inner loop of `Correlate` in internal/insight/correlation/correlator.go tests
-- them, and the groups once the roots are known.
use subnetree.Prelude.{
  ◌≤◌, String, true, Bool-cases, ◌≡◌, refl, sym, ap, ◌∙◌, subst, ◌⊎◌, inl, inr, ◌↔◌, ◌≢◌, List, [],
  count, ◌==◌, string_eq, ◌||◌, arith, MapRange, ℤ,
}
use text.Mathlib.TextEquality.{eq_iff}
use mathlib.Core.List.{Memᴰ}
use mathlib.Core.List.Memᴰ
use subnetree.Insight.Correlation.{
  Alert, Group, TopologyEdge, Groups, no_links, adjacency, linked, alerts_of, roots, build,
}
use subnetree.Insight.Correlation.Window.{IsWindow, within_iff}
use subnetree.Insight.Correlation.Joins.{Joined, Joined-agree}
use subnetree.Insight.Correlation.Pairs.{Before}
use subnetree.Insight.Correlation.Start.{HasEdge, adjacency_iff}
use subnetree.Insight.Correlation.Groups.{class, roots-alerts_of}
use subnetree.Insight.Correlation.Members.{Memᴰ-keep_iff, contains-devices_of, Before-cases}
use subnetree.Insight.Correlation.Build.{
  IsGroup, make_group-some, build-mem, build-reaches, build-once,
}
use subnetree.Insight.Correlation.Spec.{Linked, IsCorrelation, AreRegular}

module _ (alerts : List Alert) (topology : List TopologyEdge) (window : ℤ) (wide : IsWindow window)
    (regular : AreRegular alerts) where
  abbrev pub R : String → String → Type 0
  R = Linked alerts topology window

  Linked-flip : (d e : String) → R d e → R e d
  Linked-flip d e l = record {
    a = l.b;
    b = l.a;
    has_a = l.has_b;
    has_b = l.has_a;
    of_d = l.of_e;
    of_e = l.of_d;
    close = ground (arith, l.close);
    near = elim l.near [
      | inl p ↦ inl (sym p)
      | inr (edge, m, ends) ↦ inr (edge, m, elim ends [ inl u ↦ inr u | inr v ↦ inl v ])
    ];
  }

  -- The test of the inner loop, for two alerts of the list.
  pub linked-Linked :
      (a b : Alert)
      → Memᴰ a alerts
      → Memᴰ b alerts
      → linked (adjacency topology no_links) window a b ≡ true
      → R a.device_id b.device_id
  unfolding linked
  linked-Linked a b m n h =
      let near : (a.device_id == b.device_id || adjacency topology no_links a.device_id b.device_id)
          ≡ true =
        ground (arith, h) in
      record {
        a = a;
        b = b;
        has_a = m;
        has_b = n;
        of_d = refl;
        of_e = refl;
        close = elim ((within_iff window a.timestamp b.timestamp wide).0 (ground (arith, h))) [
          | inl c ↦ c
          | inr far ↦ absurd (omega (arith, far, regular.since a m, regular.until b n))
        ];
        near = elim (Bool-cases (a.device_id == b.device_id)) [
          | inl p ↦ inl ((eq_iff a.device_id b.device_id).0 p)
          | inr f ↦
              elim ((adjacency_iff topology no_links a.device_id b.device_id).0
                (ground (arith, near, f))) [ inl none_yet ↦ cc | inr edge ↦ inr edge ]
        ];
      }

  Linked-linked :
      (d e : String) (l : R d e) → linked (adjacency topology no_links) window l.a l.b ≡ true
  unfolding linked
  Linked-linked d e l =
      let x = l.a.device_id in
      let y = l.b.device_id in
      let w = (within_iff window l.a.timestamp l.b.timestamp wide).1 (inl l.close) in
      let near : (x ≡ y) ⊎ HasEdge topology x y =
        subst (λ (z : String). (z ≡ y) ⊎ HasEdge topology z y) (sym l.of_d)
          (subst (λ (z : String). (d ≡ z) ⊎ HasEdge topology d z) (sym l.of_e) l.near) in
      elim near [
        | inl p ↦ rw w (ground (arith, (eq_iff x y).1 p))
        | inr edge ↦ rw w (ground (arith, (adjacency_iff topology no_links x y).1 (inr edge)))
      ]

  abbrev pub Decides : (String → String) → Type 0
  Decides rep =
      (a b : Alert)
      → Before a b alerts
      → linked (adjacency topology no_links) window a b ≡ true
      → rep a.device_id ≡ rep b.device_id

  Decides-agree : (rep : String → String) → Decides rep → (d e : String) → R d e → rep d ≡ rep e
  unfolding Linked-flip
  Decides-agree rep agrees d e l =
      let p : rep l.a.device_id ≡ rep l.b.device_id =
        elim (Before-cases l.a l.b alerts l.has_a l.has_b) [
          | inl same ↦ ap (λ (r : Alert). rep r.device_id) same
          | inr s ↦ elim s [
            | inl first ↦ agrees l.a l.b first (Linked-linked d e l)
            | inr later ↦ sym (agrees l.b l.a later (Linked-linked e d (Linked-flip d e l)))
          ]
        ] in
      ap rep (sym l.of_d) ∙ p ∙ ap rep l.of_e

  -- The groups made from a table whose classes are those of a function of the devices.
  module _ (order : MapRange) (rep : String → String) (agrees : Decides rep)
      (sound : (x y : String) → rep x ≡ rep y → Joined R x y) (gs : Groups)
      (classes : (r : String) → alerts_of r gs ≡ class rep r alerts)
      (distinct : (r : String) → count r (roots gs) ≤ 1) where
    abbrev pub result : List Group
    result = build order 0 gs (order.visit 0 (roots gs))

    class_iff :
        (r : String) (b : Alert)
        → Memᴰ b (class rep r alerts) ↔ (Memᴰ b alerts × ((rep b.device_id == r) ≡ true))
    class_iff r b = Memᴰ-keep_iff (λ (a : Alert). rep a.device_id == r) b alerts

    build-classes :
        (g : Group) (a : Alert)
        → Memᴰ g result
        → Memᴰ a g.alerts
        → Memᴰ a alerts
          × ((b : Alert) → Memᴰ b g.alerts ↔ (Memᴰ b alerts × Joined R a.device_id b.device_id))
    build-classes g a m n =
        let (r, i) = build-mem order gs 0 (order.visit 0 (roots gs)) g m in
        let whole : g.alerts ≡ class rep r alerts = i.alerts ∙ classes r in
        let in_a = (class_iff r a).0 (rw whole at n) in
        let rep_a : rep a.device_id ≡ r = (eq_iff (rep a.device_id) r).0 in_a.1 in
        (
          in_a.0,
          λ b. (
            λ has.
                let in_b = (class_iff r b).0 (rw whole at has) in
                (
                  in_b.0,
                  sound a.device_id b.device_id
                      (rep_a ∙ sym ((eq_iff (rep b.device_id) r).0 in_b.1)),
                ),
            λ has.
                let same = Joined-agree rep (Decides-agree rep agrees) has.1 in
                rw whole
                  ((class_iff r b).1 (has.0, (eq_iff (rep b.device_id) r).1 (sym same ∙ rep_a))),
          ),
        )

    build-found :
        (a b : Alert)
        → Memᴰ a alerts
        → Memᴰ b alerts
        → a.device_id ≢ b.device_id
        → Joined R a.device_id b.device_id
        → (g : Group) × Memᴰ g result × Memᴰ a g.alerts
    build-found a b m n differ joined =
        let r = rep a.device_id in
        let same : rep a.device_id ≡ rep b.device_id =
          Joined-agree rep (Decides-agree rep agrees) joined in
        let in_a : Memᴰ a (alerts_of r gs) =
          rw (classes r) ((class_iff r a).1 (m, (eq_iff r r).1 refl)) in
        let in_b : Memᴰ b (alerts_of r gs) =
          rw (classes r) ((class_iff r b).1 (n, (eq_iff (rep b.device_id) r).1 (sym same))) in
        let full : alerts_of r gs ≢ [] =
          λ e. Memᴰ.not-nil (subst (λ (l : List Alert). Memᴰ a l) e in_a) in
        let (g, has, i) =
          build-reaches order gs 0 (order.visit 0 (roots gs)) r
            (omega (arith, order.visit_count 0 (roots gs) r, roots-alerts_of r gs full))
            (make_group-some order (alerts_of r gs) a.device_id b.device_id
              (contains-devices_of a (alerts_of r gs) in_a)
              (contains-devices_of b (alerts_of r gs) in_b) differ) in
        (g, has, rw i.alerts in_a)

    pub build-IsCorrelation : IsCorrelation alerts topology window result
    build-IsCorrelation = record {
      classes = build-classes;
      found = build-found;
      once = λ d. omega (
        arith,
        build-once order gs rep alerts classes d 0 (order.visit 0 (roots gs)),
        order.visit_count 0 (roots gs) (rep d),
        distinct (rep d),
      );
      sound = λ g m.
          let (r, i) = build-mem order gs 0 (order.visit 0 (roots gs)) g m in
          subst (λ (xs : List Alert). IsGroup xs g) (sym i.alerts) i;
    }
