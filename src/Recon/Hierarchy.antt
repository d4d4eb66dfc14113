-- ===== src/Recon/Hierarchy.antt =====
-- internal/recon/hierarchy.go: InferHierarchyFromData. The map of assignments is two functions of the ID;
-- the empty text is "no parent".
pub mod Loops
pub mod Ranks
pub mod Early
pub mod Late
pub mod Hung
pub mod Fdb
pub mod Forest
pub mod Climb
use subnetree.Prelude.{
  ℕ, String, Bool, true, false, not, ◌&&◌, ◌||◌, List, [], ◌∷◌, map, Option, none, some, ◌==◌,
  nat_eq, string_eq, if◌then◌else◌, update, MapRange, keep,
}

-- The types that the inference tells apart.
pub data DeviceType : Type 0 where
  router firewall switch access_point other : DeviceType

pub record Device : Type 0 where
  pub id : String
  pub device_type : DeviceType

pub record TopologyLink : Type 0 where
  pub source_device_id : String
  pub target_device_id : String
  pub link_type : String

pub record HierarchyAssignment : Type 0 where
  pub device_id : String
  pub parent_device_id : String
  pub network_layer : ℕ

pub record Assignments : Type 0 where
  pub layer : String → ℕ
  pub parent : String → String

abbrev pub is_gateway : DeviceType → Bool
is_gateway router = true
is_gateway firewall = true
is_gateway _ = false

abbrev pub is_router : DeviceType → Bool
is_router router = true
is_router _ = false

abbrev pub is_firewall : DeviceType → Bool
is_firewall firewall = true
is_firewall _ = false

abbrev pub is_switch : DeviceType → Bool
is_switch switch = true
is_switch _ = false

abbrev pub is_access_point : DeviceType → Bool
is_access_point access_point = true
is_access_point _ = false

-- A later device with the same ID replaces an earlier one.
abbrev pub device_by_id : List Device → String → Option Device
device_by_id [] id = none
device_by_id (d ∷ ds) id = elim (device_by_id ds id) [
  | some e ↦ some e
  | none ↦ if d.id == id then some d else none
]

abbrev pub links_from_source : List TopologyLink → String → List String
links_from_source [] id = []
links_from_source (l ∷ ls) id =
    if l.source_device_id == id
    then l.target_device_id ∷ links_from_source ls id
    else links_from_source ls id

abbrev pub links_to_target : List TopologyLink → String → List String
links_to_target [] id = []
links_to_target (l ∷ ls) id =
    if l.target_device_id == id
    then l.source_device_id ∷ links_to_target ls id
    else links_to_target ls id

abbrev pub fdb_links : List TopologyLink → List TopologyLink
fdb_links ls = keep (λ l. l.link_type == "fdb") ls

abbrev pub contains : String → List String → Bool
contains x [] = false
contains x (y ∷ ys) = (y == x) || contains x ys

-- A loop over the devices.
unfoldable pub each : (Device → Assignments → Assignments) → List Device → Assignments → Assignments
each body [] m = m
each body (d ∷ ds) m = each body ds (body d m)

abbrev pub set_layer : String → ℕ → Assignments → Assignments
set_layer id n m = record m { layer = update m.layer id n }

abbrev pub set_parent : String → String → Assignments → Assignments
set_parent id p m = record m { parent = update m.parent id p }

-- The first gateway whose ID is not empty.
abbrev pub gateway_id : List Device → String → String
gateway_id [] g = g
gateway_id (d ∷ ds) g = gateway_id ds (if is_gateway d.device_type && g == "" then d.id else g)

abbrev pub router_id : List Device → String
router_id [] = ""
router_id (d ∷ ds) = if is_router d.device_type then d.id else router_id ds

unfoldable pub first_router_id : List Device → String
first_router_id ds = if router_id ds == "" then gateway_id ds "" else router_id ds

-- Step 1.
unfoldable pub gateway_body : Device → Assignments → Assignments
gateway_body d m = if is_gateway d.device_type then set_layer d.id 1 m else m

unfoldable pub firewall_body : String → Device → Assignments → Assignments
firewall_body root d m =
    if is_firewall d.device_type && not (d.id == root) then set_parent d.id root m else m

module _ (devices : List Device) where
  -- The first neighbour that is a distribution switch.
  abbrev pub upstream : Assignments → List String → Option String
  upstream m [] = none
  upstream m (id ∷ ids) = elim (device_by_id devices id) [
    | none ↦ upstream m ids
    | some d ↦ if is_switch d.device_type && m.layer id == 2 then some id else upstream m ids
  ]

  abbrev pub or_upstream : Assignments → List String → String → String
  or_upstream m ids p = elim (upstream m ids) [ none ↦ p | some id ↦ id ]

  -- The first neighbour that is a switch or a router.
  abbrev pub nearest : List String → Option String
  nearest [] = none
  nearest (id ∷ ids) = elim (device_by_id devices id) [
    | none ↦ nearest ids
    | some d ↦ if is_switch d.device_type || is_router d.device_type then some id else nearest ids
  ]

module _ (links : List TopologyLink) (root : String) where
  abbrev pub is_distribution : Device → Bool
  is_distribution d =
      not (root == "")
      && (contains root (links_from_source links d.id)
          || contains root (links_to_target links d.id))

  -- Step 2.
  unfoldable pub switch_body : Device → Assignments → Assignments
  switch_body d m =
      if not (is_switch d.device_type)
      then m
      else if is_distribution d
      then set_parent d.id root (set_layer d.id 2 m)
      else set_layer d.id 3 m

  -- The gateway is the parent of last resort.
  abbrev pub or_root : String → String
  or_root p = if p == "" && not (root == "") then root else p

  module _ (devices : List Device) where
    -- The upstream switch of the links from a device, or else of the links to it.
    abbrev pub upstream_parent : Device → Assignments → String
    upstream_parent d m =
        let source = or_upstream devices m (links_from_source links d.id) (m.parent d.id) in
        if source == "" then or_upstream devices m (links_to_target links d.id) source else source

    -- Step 3.
    unfoldable pub access_body : Device → Assignments → Assignments
    access_body d m =
        if not (is_switch d.device_type && m.layer d.id == 3)
        then m
        else set_parent d.id (or_root (upstream_parent d m)) m

    abbrev pub nearest_parent : Device → Assignments → String
    nearest_parent d m = elim (nearest devices (links_to_target links d.id)) [
      | none ↦ m.parent d.id
      | some id ↦ id
    ]

    -- Step 4.
    unfoldable pub access_point_body : Device → Assignments → Assignments
    access_point_body d m =
        if not (is_access_point d.device_type)
        then m
        else set_parent d.id (or_root (nearest_parent d m)) (set_layer d.id 3 m)

-- Step 5, for one switch and one of its targets.
unfoldable pub fdb_body : List Device → String → String → Assignments → Assignments
fdb_body devices switch_id target m = elim (device_by_id devices target) [
  | none ↦ m
  | some d ↦
      if is_gateway d.device_type || not (m.parent target == "")
      then m
      else set_parent target switch_id m
]

unfoldable pub each_target : List Device → String → List String → Assignments → Assignments
unfolding fdb_body
each_target devices switch_id [] m = m
each_target devices switch_id (t ∷ ts) m =
    each_target devices switch_id ts (fdb_body devices switch_id t m)

unfoldable pub each_switch :
    List Device → List TopologyLink → List String → Assignments → Assignments
unfolding each_target
each_switch devices links [] m = m
each_switch devices links (s ∷ ss) m =
    each_switch devices links ss (each_target devices s (links_from_source (fdb_links links) s) m)

-- Step 6.
unfoldable pub endpoint_body : Device → Assignments → Assignments
endpoint_body d m = if m.layer d.id == 0 then set_layer d.id 4 m else m

unfoldable pub rest_body : String → Device → Assignments → Assignments
rest_body root d m =
    if not (m.parent d.id == "") || m.layer d.id == 1
    then m
    else if not (root == "") && not (d.id == root)
    then set_parent d.id root m
    else m

-- The keys of a map, each once.
abbrev pub distinct : List String → List String
distinct [] = []
distinct (x ∷ xs) = if contains x xs then distinct xs else x ∷ distinct xs

abbrev pub fdb_sources : List TopologyLink → List String
fdb_sources links = distinct (map (λ l. l.source_device_id) (fdb_links links))

unfoldable pub infer : MapRange → List Device → List TopologyLink → Assignments
unfolding each first_router_id gateway_body firewall_body switch_body access_body access_point_body
    each_switch endpoint_body rest_body
infer range ds links =
    let root = first_router_id ds in
    let start : Assignments = record { layer = λ id. 0; parent = λ id. "" } in
    let gateways = each gateway_body ds start in
    let firewalls = if root == "" then gateways else each (firewall_body root) ds gateways in
    let switches = each (switch_body links root) ds firewalls in
    let access = each (access_body links root ds) ds switches in
    let points = each (access_point_body links root ds) ds access in
    let fdb = each_switch ds links (range.visit 0 (fdb_sources links)) points in
    let endpoints = each endpoint_body ds fdb in each (rest_body root) ds endpoints

unfoldable pub infer_hierarchy_from_data :
    MapRange → List Device → List TopologyLink → List HierarchyAssignment
unfolding infer
infer_hierarchy_from_data range ds links =
    let m = infer range ds links in
    map
      (λ id. record { device_id = id; parent_device_id = m.parent id; network_layer = m.layer id })
      (range.visit 1 (distinct (map (λ d. d.id) ds)))
