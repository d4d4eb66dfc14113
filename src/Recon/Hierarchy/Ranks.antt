-- ===== src/Recon/Hierarchy/Ranks.antt =====
-- A rank that falls from a device to its parent.
use subnetree.Prelude.{
  ℕ, ◌≤◌, ◌<◌, ◌≡◌, sym, ap, ◌∙◌, subst, String, Bool, true, false, not, ◌&&◌, ◌||◌, List, [], ◌∷◌,
  none, some, ◌==◌, nat_eq, string_eq, ltb, if◌then◌else◌, arith, Bool-cases, Option-cases, inl,
  inr,
}
use subnetree.Recon.Hierarchy.{
  DeviceType, router, firewall, switch, access_point, other, is_gateway, is_switch, is_router,
  Device, Assignments, device_by_id, set_layer, set_parent, upstream, nearest,
}

abbrev pub rank_of : DeviceType → ℕ → ℕ
rank_of router l = 1
rank_of firewall l = 1
rank_of switch l = if l == 2 then 2 else 3
rank_of access_point l = 4
rank_of other l = 5

-- The root is lowest, and what is no device highest.
unfoldable pub rank : List Device → String → (String → ℕ) → String → ℕ
rank ds root layer id =
    if id == root
    then 0
    else elim (device_by_id ds id) [ none ↦ 6 | some d ↦ rank_of d.device_type (layer id) ]

abbrev pub is_gateway_id : List Device → String → Bool
is_gateway_id ds id = elim (device_by_id ds id) [ none ↦ false | some d ↦ is_gateway d.device_type ]

-- Each parent ranks lower, a distribution switch has a parent, and the first layer is for gateways.
pub record IsFalling (ds : List Device) (root : String) (m : Assignments) : Type 0 where
  pub falls :
      (id : String)
      → ((m.parent id == "") || ltb (rank ds root m.layer (m.parent id)) (rank ds root m.layer id))
        ≡ true
  pub linked : (id : String) → (not (m.layer id == 2) || not (m.parent id == "")) ≡ true
  pub gates : (id : String) → (not (m.layer id == 1) || is_gateway_id ds id) ≡ true

module _ (ds : List Device) (root : String) where
  pub rank_root : (layer : String → ℕ) → rank ds root layer root ≡ 0
  unfolding rank
  rank_root layer = ground (arith, string_eq.same_iff root root)

  pub rank_pos :
      (layer : String → ℕ) (id : String) → (id == root) ≡ false → 1 ≤ rank ds root layer id
  unfolding rank
  rank_pos layer id h = ground (arith, h)

  pub IsFalling-set_parent :
      (m : Assignments) (id p : String)
      → IsFalling ds root m
      → (p == "") ≡ false
      → rank ds root m.layer p < rank ds root m.layer id
      → IsFalling ds root (set_parent id p m)
  IsFalling-set_parent m id p f some_parent lower = record {
    falls = λ x. elim (Bool-cases (id == x)) [
      | inl t ↦
          let same : id ≡ x = ground (arith, t, string_eq.same_iff id x) in
          let lower' : rank ds root m.layer p < rank ds root m.layer x =
            subst (λ y. rank ds root m.layer p < rank ds root m.layer y) same lower in
          rw t (ground (arith, lower'))
      | inr n ↦ rw n (f.falls x)
    ];
    linked = λ x. ground (arith, f.linked x, some_parent);
    gates = f.gates;
  }

  -- Only the test for a distribution switch reads the layer.
  pub rank-set_layer :
      (m : Assignments) (id : String) (n : ℕ)
      → (n == 2) ≡ false
      → (m.layer id == 2) ≡ false
      → (x : String) → rank ds root (set_layer id n m).layer x ≡ rank ds root m.layer x
  unfolding rank
  rank-set_layer m id n a b x = elim (Bool-cases (id == x)) [
    | inl t ↦
        let same : id ≡ x = ground (arith, t, string_eq.same_iff id x) in
        let b' : (m.layer x == 2) ≡ false = subst (λ y. (m.layer y == 2) ≡ false) same b in
        ground (arith, t, a, b')
    | inr f ↦ ground (arith, f)
  ]

  -- The layer of a device that is no switch is not read.
  pub rank-set_layer_other :
      (m : Assignments) (id : String) (n : ℕ) (d : Device)
      → device_by_id ds id ≡ some d
      → is_switch d.device_type ≡ false
      → (x : String) → rank ds root (set_layer id n m).layer x ≡ rank ds root m.layer x
  unfolding rank
  rank-set_layer_other m id n d known no_switch x = elim (Bool-cases (id == x)) [
    | inl t ↦
        let same : id ≡ x = ground (arith, t, string_eq.same_iff id x) in
        let known' : device_by_id ds x ≡ some d =
          subst (λ y. device_by_id ds y ≡ some d) same known in
        ground (arith, t, known', no_switch)
    | inr f ↦ ground (arith, f)
  ]

  pub IsFalling-set_layer :
      (m : Assignments) (id : String) (n : ℕ)
      → IsFalling ds root m
      → (n == 2) ≡ false
      → (n == 1) ≡ false
      → ((x : String) → rank ds root (set_layer id n m).layer x ≡ rank ds root m.layer x)
      → IsFalling ds root (set_layer id n m)
  IsFalling-set_layer m id n f a b same = record {
    falls = λ x. rw (same x, same (m.parent x)) (f.falls x);
    linked = λ x. ground (arith, f.linked x, a);
    gates = λ x. ground (arith, f.gates x, b);
  }

  module _ (unnamed : device_by_id ds "" ≡ none) where
    -- A device has a name.
    pub named : (id : String) (d : Device) → device_by_id ds id ≡ some d → (id == "") ≡ false
    named id d h = elim (Bool-cases (id == "")) [
      | inl t ↦
          let same : id ≡ "" = ground (arith, t, string_eq.same_iff id "") in
          absurd (cc (sym h ∙ ap (device_by_id ds) same ∙ unnamed))
      | inr f ↦ f
    ]

    switch_rank :
        (m : Assignments) (id : String) (d : Device)
        → device_by_id ds id ≡ some d
        → (is_switch d.device_type && m.layer id == 2) ≡ true
        → rank ds root m.layer id ≤ 2
    unfolding rank
    switch_rank m id d e t = ground (arith, e, t)

    near_rank :
        (m : Assignments) (id : String) (d : Device)
        → device_by_id ds id ≡ some d
        → (is_switch d.device_type || is_router d.device_type) ≡ true
        → rank ds root m.layer id ≤ 3
    unfolding rank
    near_rank m id d e t = ground (arith, e, t)

    pub upstream-rank :
        (m : Assignments) (ids : List String) (s : String)
        → upstream ds m ids ≡ some s
        → (rank ds root m.layer s ≤ 2) × ((s == "") ≡ false)
    upstream-rank m [] s h = absurd (cc h)
    upstream-rank m (id ∷ ids) s h = elim (Option-cases (device_by_id ds id)) [
      | inl n ↦ upstream-rank m ids s (ground (arith, h, n))
      | inr (d, e) ↦ elim (Bool-cases (is_switch d.device_type && m.layer id == 2)) [
        | inl t ↦
            let same : id ≡ s = ground (arith, h, e, t) in
            let low : rank ds root m.layer id ≤ 2 = switch_rank m id d e t in
            subst (λ y. (rank ds root m.layer y ≤ 2) × ((y == "") ≡ false)) same (low, named id d e)
        | inr f ↦ upstream-rank m ids s (ground (arith, h, e, f))
      ]
    ]

    pub nearest-rank :
        (m : Assignments) (ids : List String) (s : String)
        → nearest ds ids ≡ some s
        → (rank ds root m.layer s ≤ 3) × ((s == "") ≡ false)
    nearest-rank m [] s h = absurd (cc h)
    nearest-rank m (id ∷ ids) s h = elim (Option-cases (device_by_id ds id)) [
      | inl n ↦ nearest-rank m ids s (ground (arith, h, n))
      | inr (d, e) ↦ elim (Bool-cases (is_switch d.device_type || is_router d.device_type)) [
        | inl t ↦
            let same : id ≡ s = ground (arith, h, e, t) in
            let low : rank ds root m.layer id ≤ 3 = near_rank m id d e t in
            subst (λ y. (rank ds root m.layer y ≤ 3) × ((y == "") ≡ false)) same (low, named id d e)
        | inr f ↦ nearest-rank m ids s (ground (arith, h, e, f))
      ]
    ]
