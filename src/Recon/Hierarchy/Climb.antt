-- ===== src/Recon/Hierarchy/Climb.antt =====
-- From a device up through its parents.
use subnetree.Prelude.{
  ℕ, zero, suc, ◌≤◌, ◌<◌, ◌≡◌, refl, sym, subst, String, true, false, not, ◌||◌, List, none, some,
  ◌==◌, nat_eq, string_eq, if◌then◌else◌, arith, Bool-cases, Option-cases, inl, inr, MapRange,
}
use subnetree.Recon.Hierarchy.{
  Device, TopologyLink, Assignments, device_by_id, first_router_id, each_switch, fdb_sources, infer,
}
use subnetree.Recon.Hierarchy.Loops.{AreKnown}
use subnetree.Recon.Hierarchy.Ranks.{rank, is_gateway_id, IsFalling}
use subnetree.Recon.Hierarchy.Fdb.{is_wired, device_by_id-id}
use subnetree.Recon.Hierarchy.Forest.{
  IsForest, start, classified, joined, placed, result-IsForest, first_router_id-is_gateway_id,
}

-- The device at the top of the parents, after so many steps at most.
abbrev pub climb : ℕ → (String → String) → String → String
climb zero parent id = id
climb (suc n) parent id =
    let above = climb n parent (parent id) in if parent id == "" then id else above

module _ (ds : List Device) (root : String) (m : Assignments) (f : IsFalling ds root m) where
  climb_top :
      (n : ℕ) (id : String)
      → rank ds root m.layer id ≤ n
      → (m.parent (climb n m.parent id) == "") ≡ true
  climb_top zero id low = ground (arith, low, f.falls id)
  climb_top (suc n) id low = elim (Bool-cases (m.parent id == "")) [
    | inl t ↦ rw t t
    | inr v ↦ rw v (climb_top n (m.parent id) (ground (arith, low, v, f.falls id)))
  ]

  climb_low :
      (n : ℕ) (id : String) → rank ds root m.layer (climb n m.parent id) ≤ rank ds root m.layer id
  climb_low zero id = omega arith
  climb_low (suc n) id = elim (Bool-cases (m.parent id == "")) [
    | inl t ↦ rw t (omega arith)
    | inr v ↦
        let below = climb_low n (m.parent id) in
        let step : rank ds root m.layer (m.parent id) < rank ds root m.layer id =
          ground (arith, v, f.falls id) in
        rw v (omega (arith, below, step))
  ]

  device_rank : (d : Device) → device_by_id ds d.id ≡ some d → rank ds root m.layer d.id ≤ 5
  unfolding rank
  device_rank d k = ground (arith, k)

module _ (ds : List Device) (links : List TopologyLink) (root : String)
    (gate : is_gateway_id ds root ≡ true) (m : Assignments) (f : IsForest ds links root m) where
  -- A device at the top is a gateway.
  top_gateway :
      (t : String)
      → rank ds root m.layer t ≤ 5
      → (m.parent t == "") ≡ true
      → is_gateway_id ds t ≡ true
  unfolding rank
  top_gateway t low bare = elim (Bool-cases (t == root)) [
    | inl r ↦
        let same : t ≡ root = ground (arith, r, string_eq.same_iff t root) in
        subst (λ x. is_gateway_id ds x ≡ true) (sym same) gate
    | inr far ↦ elim (Option-cases (device_by_id ds t)) [
      | inl n ↦ absurd (ground (arith, low, far, n))
      | inr (d, e) ↦
          let same : d.id ≡ t = device_by_id-id ds t d e in
          let known : device_by_id ds d.id ≡ some d =
            subst (λ x. device_by_id ds x ≡ some d) (sym same) e in
          let place : ((not (m.parent t == "") || m.layer t == 1) || t == root) ≡ true =
            subst (λ x. ((not (m.parent x == "") || m.layer x == 1) || x == root) ≡ true) same
              (f.placed_all d known) in
          ground (arith, place, bare, far, f.falling.gates t)
    ]
  ]

  climb_end :
      (n : ℕ) (id : String)
      → rank ds root m.layer id ≤ n
      → rank ds root m.layer id ≤ 5
      → (is_gateway_id ds (climb n m.parent id) ≡ true)
        × ((m.parent (climb n m.parent id) == "") ≡ true)
  climb_end n id low five =
      let bare = climb_top ds root m f.falling n id low in
      let under = climb_low ds root m f.falling n id in
      (top_gateway (climb n m.parent id) (omega (arith, under, five)) bare, bare)

module _ (range : MapRange) (ds : List Device) (links : List TopologyLink) where
  infer_lem :
      (first_router_id ds == "") ≡ false
      → infer range ds links
        ≡ placed ds links (first_router_id ds) (
            each_switch ds links (range.visit 0 (fdb_sources links)) (
              joined ds links
                (first_router_id ds)
                (classified ds links (first_router_id ds) start)))
  unfolding infer
  infer_lem h = rw (infer, h) refl

  module _ (known : AreKnown ds ds) (unnamed : device_by_id ds "" ≡ none)
      (gated : (first_router_id ds == "") ≡ false) (wired : is_wired ds links ≡ true) where
    infer-IsForest : IsForest ds links (first_router_id ds) (infer range ds links)
    infer-IsForest = rw (infer_lem gated) (
        result-IsForest ds links (first_router_id ds) known gated
          (first_router_id-is_gateway_id ds known gated) unnamed wired
          (range.visit 0 (fdb_sources links)))

    -- In a network with a gateway, no parents go round: from any device, five steps to the parent at most
    -- lead to a gateway that has no parent. IDs are unique and not empty, and the sources of links from
    -- forwarding tables are routers, firewalls, switches or access points.
    pub infer-climb :
        (d : Device)
        → device_by_id ds d.id ≡ some d
        → (is_gateway_id ds (climb 5 (infer range ds links).parent d.id) ≡ true)
          × (((infer range ds links).parent (climb 5 (infer range ds links).parent d.id) == "")
              ≡ true)
    infer-climb d k =
        climb_end ds links (first_router_id ds) (first_router_id-is_gateway_id ds known gated)
          (infer range ds links) infer-IsForest 5 d.id
          (device_rank ds (first_router_id ds) (infer range ds links) infer-IsForest.falling d k)
          (device_rank ds (first_router_id ds) (infer range ds links) infer-IsForest.falling d k)
