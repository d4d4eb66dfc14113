-- ===== src/Recon/Hierarchy/Early.antt =====
-- Steps 1 and 2: only the root is a parent yet.
use subnetree.Prelude.{
  ℕ, ◌≡◌, refl, subst, String, true, false, not, ◌&&◌, ◌||◌, List, some, ◌==◌, nat_eq, string_eq,
  arith, Bool-cases, inl, inr,
}
use subnetree.Recon.Hierarchy.{
  is_gateway, is_firewall, is_switch, Device, TopologyLink, Assignments, device_by_id, set_layer,
  set_parent, is_distribution, gateway_body, firewall_body, switch_body,
}
use subnetree.Recon.Hierarchy.Ranks.{is_gateway_id, IsFalling, rank_root, rank_pos}

pub record IsEarly (ds : List Device) (root : String) (m : Assignments) : Type 0 where
  pub rooted :
      (id : String) → ((m.parent id == "") || ((m.parent id == root) && not (id == root))) ≡ true
  pub linked : (id : String) → (not (m.layer id == 2) || not (m.parent id == "")) ≡ true
  pub gates : (id : String) → (not (m.layer id == 1) || is_gateway_id ds id) ≡ true

module _ (ds : List Device) (root : String) where
  pub IsEarly-IsFalling : (m : Assignments) → IsEarly ds root m → IsFalling ds root m
  IsEarly-IsFalling m e = record {
    falls = λ x. elim (Bool-cases (m.parent x == "")) [
      | inl t ↦ ground (arith, t)
      | inr n ↦
          let test : (m.parent x == root) ≡ true = ground (arith, n, e.rooted x) in
          let parent : m.parent x ≡ root =
            ground (arith, test, string_eq.same_iff (m.parent x) root) in
          let child : (x == root) ≡ false = ground (arith, n, e.rooted x) in
          rw (parent, rank_root ds root m.layer) (ground (arith, rank_pos ds root m.layer x child))
    ];
    linked = e.linked;
    gates = e.gates;
  }

  IsEarly-set_layer :
      (m : Assignments) (id : String) (n : ℕ)
      → IsEarly ds root m
      → (n == 2) ≡ false
      → (not (n == 1) || is_gateway_id ds id) ≡ true
      → IsEarly ds root (set_layer id n m)
  IsEarly-set_layer m id n e a b = record {
    rooted = e.rooted;
    linked = λ x. ground (arith, e.linked x, a);
    gates = λ x. elim (Bool-cases (id == x)) [
      | inl t ↦
          let same : id ≡ x = ground (arith, t, string_eq.same_iff id x) in
          let b' : (not (n == 1) || is_gateway_id ds x) ≡ true =
            subst (λ y. (not (n == 1) || is_gateway_id ds y) ≡ true) same b in
          rw t b'
      | inr f ↦ rw f (e.gates x)
    ];
  }

  module _ (nonroot : (root == "") ≡ false) where
    IsEarly-set_parent :
        (m : Assignments) (id : String)
        → IsEarly ds root m
        → (id == root) ≡ false
        → IsEarly ds root (set_parent id root m)
    IsEarly-set_parent m id e n = record {
      rooted = λ x. elim (Bool-cases (id == x)) [
        | inl t ↦
            let same : id ≡ x = ground (arith, t, string_eq.same_iff id x) in
            let n' : (x == root) ≡ false = subst (λ y. (y == root) ≡ false) same n in
            rw t (ground (arith, n', string_eq.same_iff root root))
        | inr f ↦ rw f (e.rooted x)
      ];
      linked = λ x. ground (arith, e.linked x, nonroot);
      gates = e.gates;
    }

    pub gateway_body-IsEarly :
        (d : Device) (m : Assignments)
        → device_by_id ds d.id ≡ some d
        → IsEarly ds root m
        → IsEarly ds root (gateway_body d m)
    unfolding gateway_body
    gateway_body-IsEarly d m known e = elim (Bool-cases (is_gateway d.device_type)) [
      | inl t ↦ rw t (IsEarly-set_layer m d.id 1 e refl (ground (arith, known, t)))
      | inr f ↦ rw f e
    ]

    pub firewall_body-IsEarly :
        (d : Device) (m : Assignments)
        → device_by_id ds d.id ≡ some d
        → IsEarly ds root m
        → IsEarly ds root (firewall_body root d m)
    unfolding firewall_body
    firewall_body-IsEarly d m known e =
        elim (Bool-cases (is_firewall d.device_type && not (d.id == root))) [
          | inl t ↦ rw t (IsEarly-set_parent m d.id e (ground (arith, t)))
          | inr f ↦ rw f e
        ]

    module _ (links : List TopologyLink) (gate : is_gateway_id ds root ≡ true) where
      pub apart :
          (d : Device)
          → device_by_id ds d.id ≡ some d
          → is_gateway d.device_type ≡ false
          → (d.id == root) ≡ false
      apart d known no_gate = elim (Bool-cases (d.id == root)) [
        | inl t ↦
            let same : d.id ≡ root = ground (arith, t, string_eq.same_iff d.id root) in
            let known' : device_by_id ds root ≡ some d =
              subst (λ y. device_by_id ds y ≡ some d) same known in
            ground (arith, known', gate, no_gate)
        | inr f ↦ f
      ]

      distribution-IsEarly :
          (d : Device) (m : Assignments)
          → (d.id == root) ≡ false
          → IsEarly ds root m
          → IsEarly ds root (set_parent d.id root (set_layer d.id 2 m))
      distribution-IsEarly d m n e = record {
        rooted = (IsEarly-set_parent m d.id e n).rooted;
        linked = λ x. ground (arith, e.linked x, nonroot);
        gates = λ x. ground (arith, e.gates x);
      }

      pub switch_body-IsEarly :
          (d : Device) (m : Assignments)
          → device_by_id ds d.id ≡ some d
          → IsEarly ds root m
          → IsEarly ds root (switch_body links root d m)
      unfolding switch_body
      switch_body-IsEarly d m known e = elim (Bool-cases (is_switch d.device_type)) [
        | inr f ↦ rw f e
        | inl t ↦ elim (Bool-cases (is_distribution links root d)) [
          | inl u ↦ rw (t, u) (distribution-IsEarly d m (apart d known (ground (arith, t))) e)
          | inr v ↦ rw (t, v) (IsEarly-set_layer m d.id 3 e refl refl)
        ]
      ]

-- A switch has layer 2 or 3.
abbrev pub IsLayered : Device → Assignments → Type 0
IsLayered d m = (not (is_switch d.device_type) || (m.layer d.id == 2 || m.layer d.id == 3)) ≡ true

module _ (links : List TopologyLink) (root : String) where
  pub switch_body-stays :
      (d e : Device) (m : Assignments) → IsLayered d m → IsLayered d (switch_body links root e m)
  unfolding switch_body
  switch_body-stays d e m r = ground (arith, r)

  pub switch_body-reaches :
      (d : Device) (m : Assignments) → IsLayered d (switch_body links root d m)
  unfolding switch_body
  switch_body-reaches d m = ground (arith, string_eq.same_iff d.id d.id)
