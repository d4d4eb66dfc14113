-- ===== src/Recon/Tests.antt =====
-- A web server that moves, and quiet hours over midnight, with a parser that knows two times, and the theorems at them.
use subnetree.Prelude.{
  ◌≤◌, count, nat_eq, map, in_order, ℕ, ◌<◌, ◌≡◌, refl, String, true, List, [], ◌∷◌, Option, none,
  some, ◌==◌, string_eq, if◌then◌else◌, arith,
}
use subnetree.Recon.Hierarchy.{
  Device, TopologyLink, router, switch, access_point, other, first_router_id, infer,
}
use subnetree.Recon.Hierarchy.Ranks.{is_gateway_id}
use subnetree.Recon.Hierarchy.Climb.{climb, infer-climb}
use mathlib.Core.List.{Memᴰ}
use subnetree.Recon.Movement.{
  ServiceMovement, Scan, PortRange, lookup_service_name, add_device, add_ports, port_to_device_set,
  missing, movement_of, port_movements, each_port, detect_service_movements,
}
use subnetree.Recon.Movement.Moved.{Moved, Lists, ports_moved}
use subnetree.Recon.Movement.Moves.{detect_service_movements_lem}
use subnetree.Recon.Schedule.{Clock, TimeParser, ScheduleConfig, is_quiet_hours, tick}

abbrev at : ℕ → ℕ → Clock
at h m = record { hour = h; minute = m }

abbrev two_times : String → Option Clock
two_times s = if s == "23:00" then some (at 23 0) else if s == "06:00" then some (at 6 0) else none

two_times_bounds : (s : String) (c : Clock) → two_times s ≡ some c → (c.hour < 24) × (c.minute < 60)
two_times_bounds s c h = ground (arith, h)

abbrev parser : TimeParser
parser = record { parse = two_times; parse_bounds = two_times_bounds }

quiet_at_one : is_quiet_hours parser (at 1 30) "23:00" "06:00" ≡ true
unfolding is_quiet_hours
quiet_at_one = refl

abbrev cfg : ScheduleConfig
cfg = record { subnet = "10.0.0.0/24"; quiet_start = "23:00"; quiet_end = "06:00" }

abbrev none_running : List String
none_running = []

started : tick parser (λ s. true) cfg (at 12 0) "scheduled-1" true [] ≡ "scheduled-1" ∷ []
unfolding tick
started = refl

-- A router, two switches in a row, an access point on the second one, and a machine behind it.
abbrev network : List Device
network =
    record { id = "pc"; device_type = other }
    ∷ record { id = "ap"; device_type = access_point }
    ∷ record { id = "s2"; device_type = switch }
    ∷ record { id = "s1"; device_type = switch }
    ∷ record { id = "gw"; device_type = router }
    ∷ []

abbrev cable : String → String → String → TopologyLink
cable from to kind = record { source_device_id = from; target_device_id = to; link_type = kind }

abbrev cables : List TopologyLink
cables =
    cable "s1" "gw" "lldp"
    ∷ cable "s2" "s1" "lldp"
    ∷ cable "s2" "ap" "fdb"
    ∷ cable "ap" "pc" "fdb"
    ∷ cable "gw" "s1" "fdb"
    ∷ []

network-parents :
    map (infer in_order network cables).parent ("pc" ∷ "ap" ∷ "s2" ∷ "s1" ∷ "gw" ∷ [])
    ≡ "ap" ∷ "s2" ∷ "s1" ∷ "gw" ∷ "" ∷ []
unfolding infer
network-parents = refl

infer-climb_example :
    (is_gateway_id network (climb 5 (infer in_order network cables).parent "pc") ≡ true)
    × (((infer in_order network cables).parent (climb 5 (infer in_order network cables).parent "pc")
          == "")
        ≡ true)
infer-climb_example =
    infer-climb in_order network cables (refl, (refl, (refl, (refl, (refl, tt))))) refl
      (unfold first_router_id in refl) refl (record { id = "pc"; device_type = other }) refl

-- Without a gateway, two switches that have learned each other's address are each other's parents.
abbrev switches : List Device
switches =
    record { id = "s1"; device_type = switch } ∷ record { id = "s2"; device_type = switch } ∷ []

switches-parents :
    map
      (infer in_order switches (cable "s1" "s2" "fdb" ∷ cable "s2" "s1" "fdb" ∷ [])).parent
      ("s1" ∷ "s2" ∷ [])
    ≡ "s2" ∷ "s1" ∷ []
unfolding infer
switches-parents = refl

abbrev port_order : PortRange
port_order = record { visit_ports = λ ports. ports; visit_ports_count = λ ports p. refl }

abbrev monday : Scan
monday = ("alpha", 80 ∷ 443 ∷ []) ∷ ("beta", 22 ∷ []) ∷ []

abbrev tuesday : Scan
tuesday = ("beta", 22 ∷ 80 ∷ []) ∷ ("alpha", 443 ∷ []) ∷ []

web_moved : detect_service_movements in_order port_order monday tuesday ≡ (
    record {
      port = 80;
      protocol = "tcp";
      service_name = "http";
      from_device = "alpha";
      to_device = "beta";
    }
    ∷ [])
unfolding detect_service_movements each_port port_movements movement_of missing port_to_device_set
    add_ports add_device lookup_service_name
web_moved = refl

detect_service_movements_lem_example :
    ((m : ServiceMovement)
      → Memᴰ m (detect_service_movements in_order port_order monday tuesday)
      → Moved monday tuesday m.port m.from_device m.to_device
        × (m.service_name ≡ lookup_service_name m.port))
    × ((p : ℕ) (a b : String)
        → Moved monday tuesday p a b
        → Lists (detect_service_movements in_order port_order monday tuesday) p a b)
    × ((p : ℕ)
        → count p (ports_moved (detect_service_movements in_order port_order monday tuesday)) ≤ 1)
detect_service_movements_lem_example =
    detect_service_movements_lem in_order monday tuesday port_order
