-- ===== src/Recon/Hierarchy/Forest.antt =====
-- The assignments as a whole: every device hangs below a gateway.
use subnetree.Prelude.{
  ◌≡◌, refl, sym, ap, ◌∙◌, subst, String, true, false, not, ◌&&◌, ◌||◌, List, [], ◌∷◌, none, some,
  ◌==◌, nat_eq, string_eq, if◌then◌else◌, arith, Option-cases, inl, inr,
}
use subnetree.Recon.Hierarchy.{
  Device, TopologyLink, Assignments, device_by_id, each, is_gateway, is_switch, router_id,
  gateway_id, first_router_id, gateway_body, firewall_body, switch_body, access_body,
  access_point_body, each_switch, endpoint_body, rest_body,
}
use subnetree.Recon.Hierarchy.Loops.{AreKnown, ForAll, each-keeps, each-reaches}
use subnetree.Recon.Hierarchy.Ranks.{is_gateway_id, IsFalling}
use subnetree.Recon.Hierarchy.Early.{
  IsEarly, IsEarly-IsFalling, gateway_body-IsEarly, firewall_body-IsEarly, switch_body-IsEarly,
  IsLayered, switch_body-stays, switch_body-reaches,
}
use subnetree.Recon.Hierarchy.Late.{
  access_body-IsFalling, access_point_body-IsFalling, endpoint_body-IsFalling, rest_body-IsFalling,
}
use subnetree.Recon.Hierarchy.Hung.{
  IsHungSwitch, IsHung, access_body-stays, access_body-layer, access_body-reaches,
  access_point_body-stays_switch, access_point_body-stays, access_point_body-reaches,
}
use subnetree.Recon.Hierarchy.Fdb.{is_wired, IsReady, each_switch-IsReady}

ForAll-known :
    (P : Device → Type 0) (ds : List Device) (id : String) (d : Device)
    → device_by_id ds id ≡ some d
    → ForAll P ds
    → P d
ForAll-known P [] id d h all = absurd (cc h)
ForAll-known P (e ∷ es) id d h (a, later) = elim (Option-cases (device_by_id es id)) [
  | inr (x, k) ↦
      let same : x ≡ d = ground (arith, h, k) in ForAll-known P es id d (k ∙ ap some same) later
  | inl n ↦ let same : e ≡ d = ground (arith, h, n) in subst P same a
]

ForAll-map :
    (P Q : Device → Type 0) (ds : List Device)
    → ((d : Device) → P d → Q d)
    → ForAll P ds
    → ForAll Q ds
ForAll-map P Q [] f h = tt
ForAll-map P Q (d ∷ ds) f (h, hs) = (f d h, ForAll-map P Q ds f hs)

-- The root is a gateway.
router_id-is_gateway_id :
    (all ds : List Device)
    → AreKnown all ds
    → (router_id ds == "" || is_gateway_id all (router_id ds)) ≡ true
router_id-is_gateway_id all [] known = refl
router_id-is_gateway_id all (d ∷ ds) (k, ks) =
    let rest = router_id-is_gateway_id all ds ks in ground (arith, k, rest)

gateway_id-is_gateway_id :
    (all ds : List Device) (g : String)
    → AreKnown all ds
    → (g == "" || is_gateway_id all g) ≡ true
    → (gateway_id ds g == "" || is_gateway_id all (gateway_id ds g)) ≡ true
gateway_id-is_gateway_id all [] g known h = h
gateway_id-is_gateway_id all (d ∷ ds) g (k, ks) h =
    gateway_id-is_gateway_id all ds (if is_gateway d.device_type && g == "" then d.id else g) ks
      (ground (arith, k, h))

pub first_router_id-is_gateway_id :
    (ds : List Device)
    → AreKnown ds ds
    → (first_router_id ds == "") ≡ false
    → is_gateway_id ds (first_router_id ds) ≡ true
unfolding first_router_id
first_router_id-is_gateway_id ds known h =
    let routers = router_id-is_gateway_id ds ds known in
    let gateways = gateway_id-is_gateway_id ds ds "" known refl in
    ground (arith, h, routers, gateways)

abbrev pub start : Assignments
start = record { layer = λ id. 0; parent = λ id. "" }

module _ (ds : List Device) (links : List TopologyLink) (root : String) where
  -- Steps 1 and 2, 3 and 4, and 6.
  abbrev pub classified : Assignments → Assignments
  classified m =
      each (switch_body links root) ds (each (firewall_body root) ds (each gateway_body ds m))

  abbrev pub joined : Assignments → Assignments
  joined m = each (access_point_body links root ds) ds (each (access_body links root ds) ds m)

  abbrev pub placed : Assignments → Assignments
  placed m = each (rest_body root) ds (each endpoint_body ds m)

  -- A device without a parent is the root or has the layer of gateways.
  abbrev pub IsPlaced : Device → Assignments → Type 0
  IsPlaced d m = ((not (m.parent d.id == "") || m.layer d.id == 1) || d.id == root) ≡ true

-- What holds of the result.
pub record IsForest (ds : List Device) (links : List TopologyLink) (root : String) (m : Assignments)
    : Type 0 where
  pub falling : IsFalling ds root m
  pub placed_all : (d : Device) → device_by_id ds d.id ≡ some d → IsPlaced ds links root d m

module _ (ds : List Device) (links : List TopologyLink) (root : String) (known : AreKnown ds ds)
    (nonroot : (root == "") ≡ false) (gate : is_gateway_id ds root ≡ true)
    (unnamed : device_by_id ds "" ≡ none) (wired : is_wired ds links ≡ true) where
  classified-IsEarly :
      (m : Assignments) → IsEarly ds root m → IsEarly ds root (classified ds links root m)
  classified-IsEarly m e =
      let one =
        each-keeps ds gateway_body (IsEarly ds root) (gateway_body-IsEarly ds root nonroot) ds m
          known e in
      let two =
        each-keeps ds (firewall_body root) (IsEarly ds root) (firewall_body-IsEarly ds root nonroot)
          ds (each gateway_body ds m) known one in
      each-keeps ds (switch_body links root) (IsEarly ds root)
        (switch_body-IsEarly ds root nonroot links gate) ds
        (each (firewall_body root) ds (each gateway_body ds m)) known two

  classified-IsLayered :
      (m : Assignments) → ForAll (λ d. IsLayered d (classified ds links root m)) ds
  classified-IsLayered m =
      each-reaches ds (switch_body links root) (λ _. Unit) (λ d m' k h. tt) IsLayered
        (λ d e m' k h. switch_body-stays links root d e m')
        (λ d m' k h. switch_body-reaches links root d m') ds
        (each (firewall_body root) ds (each gateway_body ds m)) known tt

  record IsClassified (m : Assignments) : Type 0 where
    falling : IsFalling ds root m
    layered : ForAll (λ d. IsLayered d m) ds

  access_body-IsClassified :
      (d : Device) (m : Assignments)
      → device_by_id ds d.id ≡ some d
      → IsClassified m
      → IsClassified (access_body links root ds d m)
  access_body-IsClassified d m k c = record {
    falling = access_body-IsFalling ds links root nonroot gate unnamed d m k c.falling;
    layered =
        subst
          (λ layer.
            ForAll
              (λ x. (not (is_switch x.device_type) || (layer x.id == 2 || layer x.id == 3)) ≡ true)
              ds)
          (sym (access_body-layer links root ds nonroot d m)) c.layered;
  }

  record IsSwitched (m : Assignments) : Type 0 where
    falling : IsFalling ds root m
    switches : ForAll (λ d. IsHungSwitch d m) ds

  access_point_body-IsSwitched :
      (d : Device) (m : Assignments)
      → device_by_id ds d.id ≡ some d
      → IsSwitched m
      → IsSwitched (access_point_body links root ds d m)
  access_point_body-IsSwitched d m k c = record {
    falling = access_point_body-IsFalling ds links root nonroot gate unnamed d m k c.falling;
    switches =
        ForAll-map (λ x. IsHungSwitch x m)
          (λ x. IsHungSwitch x (access_point_body links root ds d m)) ds
          (λ x. access_point_body-stays_switch links root ds nonroot x d m) c.switches;
  }

  joined-IsReady : (m : Assignments) → IsClassified m → IsReady ds root (joined ds links root m)
  joined-IsReady m c =
      let access = each (access_body links root ds) ds m in
      let c' =
        each-keeps ds (access_body links root ds) IsClassified access_body-IsClassified ds m known
          c in
      let switches =
        each-reaches ds (access_body links root ds) IsClassified access_body-IsClassified
          IsHungSwitch (λ d e m' k h. access_body-stays links root ds nonroot d e m')
          (λ d m' k h.
            access_body-reaches links root ds nonroot d m' h.falling
              (ForAll-known (λ x. IsLayered x m') ds d.id d k h.layered))
          ds m known c in
      let start : IsSwitched access = record { falling = c'.falling; switches = switches } in
      let end =
        each-keeps ds (access_point_body links root ds) IsSwitched access_point_body-IsSwitched ds
          access known start in
      let points =
        each-reaches ds (access_point_body links root ds) IsSwitched access_point_body-IsSwitched
          IsHung (λ d e m' k h. access_point_body-stays links root ds nonroot d e m')
          (λ d m' k h.
            access_point_body-reaches links root ds nonroot d m'
              (ForAll-known (λ x. IsHungSwitch x m') ds d.id d k h.switches))
          ds access known start in
      record {
        falling = end.falling;
        hung = λ d k. ForAll-known (λ x. IsHung x (joined ds links root m)) ds d.id d k points;
      }

  rest_body-stays :
      (d e : Device) (m : Assignments)
      → IsPlaced ds links root d m
      → IsPlaced ds links root d (rest_body root e m)
  unfolding rest_body
  rest_body-stays d e m h = ground (arith, h, nonroot)

  rest_body-reaches : (d : Device) (m : Assignments) → IsPlaced ds links root d (rest_body root d m)
  unfolding rest_body
  rest_body-reaches d m = ground (arith, nonroot, string_eq.same_iff d.id d.id)

  placed-IsFalling :
      (m : Assignments) → IsFalling ds root m → IsFalling ds root (placed ds links root m)
  placed-IsFalling m f =
      let ends =
        each-keeps ds endpoint_body (IsFalling ds root)
          (λ d m' k. endpoint_body-IsFalling ds links root nonroot gate unnamed d m') ds m known
          f in
      each-keeps ds (rest_body root) (IsFalling ds root)
        (λ d m' k. rest_body-IsFalling ds links root nonroot gate unnamed d m') ds
        (each endpoint_body ds m) known ends

  placed-IsPlaced :
      (m : Assignments) → ForAll (λ d. IsPlaced ds links root d (placed ds links root m)) ds
  placed-IsPlaced m =
      each-reaches ds (rest_body root) (λ _. Unit) (λ d m' k h. tt) (IsPlaced ds links root)
        (λ d e m' k h. rest_body-stays d e m') (λ d m' k h. rest_body-reaches d m') ds
        (each endpoint_body ds m) known tt

  start-IsEarly : IsEarly ds root start
  start-IsEarly = record { rooted = λ id. refl; linked = λ id. refl; gates = λ id. refl }

  pub result-IsForest :
      (ss : List String)
      → IsForest ds links root (
          placed ds links root
            (each_switch ds links ss (joined ds links root (classified ds links root start))))
  result-IsForest ss =
      let early = classified-IsEarly start start-IsEarly in
      let ready = joined-IsReady (classified ds links root start) record {
        falling = IsEarly-IsFalling ds root (classified ds links root start) early;
        layered = classified-IsLayered start;
      } in
      let fdb =
        each_switch-IsReady ds links root nonroot gate unnamed wired ss
          (joined ds links root (classified ds links root start)) ready in
      record {
        falling =
            placed-IsFalling
              (each_switch ds links ss (joined ds links root (classified ds links root start)))
              fdb.falling;
        placed_all = λ d k.
            ForAll-known
              (λ x. IsPlaced ds links root x (
                placed ds links root (
                  each_switch ds links ss (joined ds links root (classified ds links root start)))))
              ds d.id d k
              (placed-IsPlaced
                (each_switch ds links ss (joined ds links root (classified ds links root start))));
      }
