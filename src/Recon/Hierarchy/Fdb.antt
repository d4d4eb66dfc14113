-- ===== src/Recon/Hierarchy/Fdb.antt =====
-- Step 5: the forwarding tables give parents to endpoints only.
use subnetree.Prelude.{
  ℕ, ◌≤◌, ◌<◌, ◌≡◌, refl, sym, subst, String, Bool, true, false, not, ◌&&◌, ◌||◌, List, [], ◌∷◌,
  none, some, ◌==◌, nat_eq, string_eq, arith, Bool-cases, Option-cases, inl, inr,
}
use subnetree.Recon.Hierarchy.{
  DeviceType, other, is_gateway, is_switch, is_access_point, Device, TopologyLink, Assignments,
  device_by_id, links_from_source, fdb_links, fdb_body, each_target, each_switch,
}
use subnetree.Recon.Hierarchy.Ranks.{rank, is_gateway_id, IsFalling, IsFalling-set_parent, named}
use subnetree.Recon.Hierarchy.Early.{apart}
use subnetree.Recon.Hierarchy.Hung.{IsHung, hung_stays}

abbrev pub is_infrastructure : DeviceType → Bool
is_infrastructure other = false
is_infrastructure _ = true

abbrev pub is_infrastructure_id : List Device → String → Bool
is_infrastructure_id ds id = elim (device_by_id ds id) [
  | none ↦ false
  | some d ↦ is_infrastructure d.device_type
]

-- Forwarding tables are those of routers, firewalls, switches and access points.
abbrev pub is_wired : List Device → List TopologyLink → Bool
is_wired ds [] = true
is_wired ds (l ∷ ls) =
    (not (l.link_type == "fdb") || is_infrastructure_id ds l.source_device_id) && is_wired ds ls

wired_source :
    (ds : List Device) (links : List TopologyLink) (s t : String) (ts : List String)
    → is_wired ds links ≡ true
    → links_from_source (fdb_links links) s ≡ t ∷ ts
    → is_infrastructure_id ds s ≡ true
wired_source ds [] s t ts w h = absurd (cc h)
wired_source ds (l ∷ ls) s t ts w h = elim (Bool-cases (l.link_type == "fdb")) [
  | inr f ↦ wired_source ds ls s t ts (ground (arith, w)) (ground (arith, h, f))
  | inl y ↦ elim (Bool-cases (l.source_device_id == s)) [
    | inr n ↦ wired_source ds ls s t ts (ground (arith, w)) (ground (arith, h, y, n))
    | inl u ↦
        let same : l.source_device_id ≡ s =
          ground (arith, u, string_eq.same_iff l.source_device_id s) in
        subst (λ x. is_infrastructure_id ds x ≡ true) same (ground (arith, w, y))
  ]
]

pub device_by_id-id :
    (all : List Device) (id : String) (d : Device) → device_by_id all id ≡ some d → d.id ≡ id
device_by_id-id [] id d h = absurd (cc h)
device_by_id-id (e ∷ es) id d h =
    let rest = device_by_id-id es id d in ground (arith, h, rest, string_eq.same_iff e.id id)

pub record IsReady (ds : List Device) (root : String) (m : Assignments) : Type 0 where
  pub falling : IsFalling ds root m
  pub hung : (d : Device) → device_by_id ds d.id ≡ some d → IsHung d m

module _ (ds : List Device) (links : List TopologyLink) (root : String)
    (nonroot : (root == "") ≡ false) (gate : is_gateway_id ds root ≡ true)
    (unnamed : device_by_id ds "" ≡ none) where
  infrastructure_rank :
      (layer : String → ℕ) (s : String)
      → is_infrastructure_id ds s ≡ true
      → rank ds root layer s ≤ 4
  unfolding rank
  infrastructure_rank layer s h = elim (Option-cases (device_by_id ds s)) [
    | inl n ↦ absurd (ground (arith, h, n))
    | inr (d, e) ↦ ground (arith, h, e)
  ]

  infrastructure_named : (s : String) → is_infrastructure_id ds s ≡ true → (s == "") ≡ false
  infrastructure_named s h = elim (Option-cases (device_by_id ds s)) [
    | inl n ↦ absurd (ground (arith, h, n))
    | inr (d, e) ↦ named ds root unnamed s d e
  ]

  endpoint_rank :
      (layer : String → ℕ) (t : String) (d : Device)
      → device_by_id ds t ≡ some d
      → is_infrastructure d.device_type ≡ false
      → rank ds root layer t ≡ 5
  unfolding rank
  endpoint_rank layer t d known end =
      let same : d.id ≡ t = device_by_id-id ds t d known in
      let known' : device_by_id ds d.id ≡ some d =
        subst (λ x. device_by_id ds x ≡ some d) (sym same) known in
      let far : (t == root) ≡ false =
        subst (λ x. (x == root) ≡ false) same
          (apart ds root nonroot links gate d known' (ground (arith, end))) in
      ground (arith, far, known, end)

  fdb_body-IsReady :
      (s t : String) (m : Assignments)
      → is_infrastructure_id ds s ≡ true
      → IsReady ds root m
      → IsReady ds root (fdb_body ds s t m)
  unfolding fdb_body
  fdb_body-IsReady s t m wired r = elim (Option-cases (device_by_id ds t)) [
    | inl n ↦ rw (fdb_body, n) r
    | inr (d, e) ↦ elim (Bool-cases (is_gateway d.device_type || not (m.parent t == ""))) [
      | inl u ↦ rw (fdb_body, e, u) r
      | inr v ↦
          let same : d.id ≡ t = device_by_id-id ds t d e in
          let known : device_by_id ds d.id ≡ some d =
            subst (λ x. device_by_id ds x ≡ some d) (sym same) e in
          let bare : (m.parent d.id == "") ≡ true =
            subst (λ x. (m.parent x == "") ≡ true) (sym same) (ground (arith, v)) in
          let end : is_infrastructure d.device_type ≡ false =
            ground (arith, v, bare, r.hung d known) in
          let some_s = infrastructure_named s wired in
          let lower : rank ds root m.layer s < rank ds root m.layer t =
            rw (endpoint_rank m.layer t d e end)
              (ground (arith, infrastructure_rank m.layer s wired)) in
          rw (fdb_body, e, v)
            record {
              falling = IsFalling-set_parent ds root m t s r.falling some_s lower;
              hung = λ x k.
                  hung_stays (not (is_switch x.device_type || is_access_point x.device_type)) t s
                    x.id m some_s (r.hung x k);
            }
    ]
  ]

  each_target-IsReady :
      (s : String) (ts : List String) (m : Assignments)
      → is_infrastructure_id ds s ≡ true
      → IsReady ds root m
      → IsReady ds root (each_target ds s ts m)
  unfolding each_target
  each_target-IsReady s [] m wired r = r
  each_target-IsReady s (t ∷ ts) m wired r =
      each_target-IsReady s ts (fdb_body ds s t m) wired (fdb_body-IsReady s t m wired r)

  module _ (wired : is_wired ds links ≡ true) where
    targets-IsReady :
        (s : String) (ts : List String) (m : Assignments)
        → links_from_source (fdb_links links) s ≡ ts
        → IsReady ds root m
        → IsReady ds root (each_target ds s ts m)
    unfolding each_target
    targets-IsReady s [] m e r = r
    targets-IsReady s (t ∷ ts) m e r =
        each_target-IsReady s (t ∷ ts) m (wired_source ds links s t ts wired e) r

    pub each_switch-IsReady :
        (ss : List String) (m : Assignments)
        → IsReady ds root m
        → IsReady ds root (each_switch ds links ss m)
    unfolding each_switch
    each_switch-IsReady [] m r = r
    each_switch-IsReady (s ∷ ss) m r =
        each_switch-IsReady ss (each_target ds s (links_from_source (fdb_links links) s) m)
          (targets-IsReady s (links_from_source (fdb_links links) s) m refl r)
