-- ===== src/Recon/Hierarchy/Late.antt =====
-- Steps 3 to 6: each parent that is set ranks lower than its device.
use subnetree.Prelude.{
  ℕ, ◌≤◌, ◌<◌, ◌≡◌, refl, ◌∙◌, subst, String, true, false, not, ◌&&◌, ◌||◌, List, none, some, ◌==◌,
  nat_eq, string_eq, ltb, if◌then◌else◌, arith, Bool-cases, Option-cases, inl, inr,
}
use subnetree.Recon.Hierarchy.{
  is_gateway, is_switch, is_access_point, Device, TopologyLink, Assignments, device_by_id,
  links_from_source, links_to_target, set_layer, or_root, upstream, or_upstream, nearest,
  access_body, access_point_body, endpoint_body, rest_body,
}
use subnetree.Recon.Hierarchy.Ranks.{
  rank, rank_of, is_gateway_id, IsFalling, rank_root, rank_pos, IsFalling-set_parent,
  rank-set_layer, rank-set_layer_other, IsFalling-set_layer, upstream-rank, nearest-rank,
}
use subnetree.Recon.Hierarchy.Early.{apart}

-- No parent, or one below a bound.
abbrev IsBelow : List Device → String → Assignments → ℕ → String → Type 0
IsBelow ds root m k p = (p == "" || ltb (rank ds root m.layer p) k) ≡ true

module _ (ds : List Device) (links : List TopologyLink) (root : String)
    (nonroot : (root == "") ≡ false) (gate : is_gateway_id ds root ≡ true)
    (unnamed : device_by_id ds "" ≡ none) where
  or_upstream-IsBelow :
      (m : Assignments) (k : ℕ) (ids : List String) (p : String)
      → 3 ≤ k
      → IsBelow ds root m k p
      → IsBelow ds root m k (or_upstream ds m ids p)
  or_upstream-IsBelow m k ids p large h = elim (Option-cases (upstream ds m ids)) [
    | inl n ↦ rw (or_upstream, n) h
    | inr (s, e) ↦
        let (low, some_s) = upstream-rank ds root unnamed m ids s e in
        rw (or_upstream, e) (ground (arith, low, large))
  ]

  or_root-IsBelow :
      (m : Assignments) (k : ℕ) (p : String)
      → 1 ≤ k
      → IsBelow ds root m k p
      → (rank ds root m.layer (or_root links root p) < k) × ((or_root links root p == "") ≡ false)
  or_root-IsBelow m k p large h = elim (Bool-cases (p == "")) [
    | inl t ↦ rw (t, nonroot) (rw (rank_root ds root m.layer) large, nonroot)
    | inr f ↦ rw f (ground (arith, h, f), f)
  ]

  -- The rank of a device that is not the root.
  own_rank :
      (m : Assignments) (d : Device)
      → device_by_id ds d.id ≡ some d
      → is_gateway d.device_type ≡ false
      → rank ds root m.layer d.id ≡ rank_of d.device_type (m.layer d.id)
  unfolding rank
  own_rank m d known no_gate =
      let n = apart ds root nonroot links gate d known no_gate in ground (arith, n, known)

  pub access_body-IsFalling :
      (d : Device) (m : Assignments)
      → device_by_id ds d.id ≡ some d
      → IsFalling ds root m
      → IsFalling ds root (access_body links root ds d m)
  unfolding access_body
  access_body-IsFalling d m known f =
      elim (Bool-cases (is_switch d.device_type && m.layer d.id == 3)) [
        | inr v ↦ rw v f
        | inl t ↦
            let own : rank ds root m.layer d.id ≡ 3 =
              own_rank m d known (ground (arith, t)) ∙ ground (arith, t) in
            let old : IsBelow ds root m 3 (m.parent d.id) =
              subst (λ k. IsBelow ds root m k (m.parent d.id)) own (f.falls d.id) in
            let source = or_upstream ds m (links_from_source links d.id) (m.parent d.id) in
            let one : IsBelow ds root m 3 source =
              or_upstream-IsBelow m 3 (links_from_source links d.id) (m.parent d.id) (omega arith)
                old in
            let target =
              if source == ""
              then or_upstream ds m (links_to_target links d.id) source
              else source in
            let two : IsBelow ds root m 3 target = elim (Bool-cases (source == "")) [
              | inl u ↦
                  rw u
                    (or_upstream-IsBelow m 3 (links_to_target links d.id) source (omega arith) one)
              | inr w ↦ rw w one
            ] in
            let (low, some_parent) = or_root-IsBelow m 3 target (omega arith) two in
            rw t (
              IsFalling-set_parent ds root m d.id (or_root links root target) f some_parent
                (rw own low))
      ]

  pub access_point_body-IsFalling :
      (d : Device) (m : Assignments)
      → device_by_id ds d.id ≡ some d
      → IsFalling ds root m
      → IsFalling ds root (access_point_body links root ds d m)
  unfolding access_point_body
  access_point_body-IsFalling d m known f = elim (Bool-cases (is_access_point d.device_type)) [
    | inr v ↦ rw v f
    | inl t ↦
        let m' = set_layer d.id 3 m in
        let f' : IsFalling ds root m' =
          IsFalling-set_layer ds root m d.id 3 f refl refl
            (rank-set_layer_other ds root m d.id 3 d known (ground (arith, t))) in
        let own : rank ds root m'.layer d.id ≡ 4 =
          own_rank m' d known (ground (arith, t)) ∙ ground (arith, t) in
        let old : IsBelow ds root m' 4 (m.parent d.id) =
          subst (λ k. IsBelow ds root m' k (m.parent d.id)) own (f'.falls d.id) in
        let near : String = elim (nearest ds (links_to_target links d.id)) [
          | none ↦ m.parent d.id
          | some id ↦ id
        ] in
        let below : IsBelow ds root m' 4 near =
          elim (Option-cases (nearest ds (links_to_target links d.id))) [
            | inl n ↦ rw n old
            | inr (s, e) ↦
                let (low, some_s) =
                  nearest-rank ds root unnamed m' (links_to_target links d.id) s e in
                rw e (ground (arith, low, some_s))
          ] in
        let (low, some_parent) = or_root-IsBelow m' 4 near (omega arith) below in
        rw t (
          IsFalling-set_parent ds root m' d.id (or_root links root near) f' some_parent
            (rw own low))
  ]

  pub endpoint_body-IsFalling :
      (d : Device) (m : Assignments) → IsFalling ds root m → IsFalling ds root (endpoint_body d m)
  unfolding endpoint_body
  endpoint_body-IsFalling d m f = elim (Bool-cases (m.layer d.id == 0)) [
    | inr v ↦ rw v f
    | inl t ↦ rw t (
        IsFalling-set_layer ds root m d.id 4 f refl refl
          (rank-set_layer ds root m d.id 4 refl (ground (arith, t))))
  ]

  pub rest_body-IsFalling :
      (d : Device) (m : Assignments) → IsFalling ds root m → IsFalling ds root (rest_body root d m)
  unfolding rest_body
  rest_body-IsFalling d m f = elim (Bool-cases (not (m.parent d.id == "") || m.layer d.id == 1)) [
    | inl v ↦ rw v f
    | inr t ↦ elim (Bool-cases (d.id == root)) [
      | inl u ↦ rw (t, nonroot, u) f
      | inr n ↦
          rw (t, nonroot, n)
            (IsFalling-set_parent ds root m d.id root f nonroot
              (rw (rank_root ds root m.layer) (rank_pos ds root m.layer d.id n)))
    ]
  ]
