-- ===== src/Recon/Movement.antt =====
-- internal/recon/service_movement.go: services that move between devices. A scan is the list of the
-- entries of its map, in the order in which `range` visits them; the maps that the code builds are
-- lists of their keys and values in the order of insertion. The IDs and the times of the movements
-- are left out.
pub mod Sets
pub mod Lists
pub mod Moved
pub mod Moves
use subnetree.Prelude.{
  ℕ, String, Bool, true, false, not, List, [], ◌∷◌, ◌++◌, ◌==◌, string_eq, nat_eq, if◌then◌else◌,
  contains, keep, MapRange, count, ◌≡◌,
}

pub record ServiceMovement : Type 0 where
  pub port : ℕ
  pub protocol : String
  pub service_name : String
  pub from_device : String
  pub to_device : String

abbrev pub well_known_services : List (ℕ × String)
well_known_services =
    (20, "ftp-data")
    ∷ (21, "ftp")
    ∷ (22, "ssh")
    ∷ (25, "smtp")
    ∷ (53, "dns")
    ∷ (67, "dhcp")
    ∷ (68, "dhcp-client")
    ∷ (80, "http")
    ∷ (110, "pop3")
    ∷ (123, "ntp")
    ∷ (143, "imap")
    ∷ (161, "snmp")
    ∷ (162, "snmp-trap")
    ∷ (443, "https")
    ∷ (445, "smb")
    ∷ (993, "imaps")
    ∷ (995, "pop3s")
    ∷ (3306, "mysql")
    ∷ (3389, "rdp")
    ∷ (5432, "postgres")
    ∷ (5900, "vnc")
    ∷ (6379, "redis")
    ∷ (8080, "http-alt")
    ∷ (8443, "https-alt")
    ∷ (9090, "prometheus")
    ∷ []

pub name_in : List (ℕ × String) → ℕ → String
name_in [] port = ""
name_in ((p, name) ∷ names) port = if p == port then name else name_in names port

unfoldable pub lookup_service_name : ℕ → String
unfolding name_in
lookup_service_name = name_in well_known_services

abbrev pub Scan : Type 0
Scan = List (String × List ℕ)

abbrev pub DeviceSets : Type 0
DeviceSets = List (ℕ × List String)

unfoldable pub add_device : ℕ → String → DeviceSets → DeviceSets
add_device port d [] = (port, d ∷ []) ∷ []
add_device port d ((p, ds) ∷ sets) =
    if p == port
    then (p, if contains ds d then ds else d ∷ ds) ∷ sets
    else (p, ds) ∷ add_device port d sets

unfoldable pub add_ports : String → List ℕ → DeviceSets → DeviceSets
add_ports d [] sets = sets
add_ports d (port ∷ ports) sets = add_ports d ports (add_device port d sets)

unfoldable pub port_to_device_set : Scan → DeviceSets → DeviceSets
port_to_device_set [] sets = sets
port_to_device_set ((d, ports) ∷ scan) sets = port_to_device_set scan (add_ports d ports sets)

abbrev pub set_of : ℕ → DeviceSets → List String
set_of port [] = []
set_of port ((p, ds) ∷ sets) = if p == port then ds else set_of port sets

abbrev pub ports_of : DeviceSets → List ℕ
ports_of [] = []
ports_of ((p, ds) ∷ sets) = p ∷ ports_of sets

-- The order of the `range` over the ports.
pub record PortRange : Type 0 where
  pub visit_ports : List ℕ → List ℕ
  pub visit_ports_count : (ports : List ℕ) (p : ℕ) → count p (visit_ports ports) ≡ count p ports

-- The keys of one set that are not in another.
unfoldable pub missing : List String → List String → List String
missing other ds = keep (λ d. not (contains other d)) ds

-- The movement of a port whose removed and added devices are these, if there is one.
unfoldable pub movement_of : ℕ → List String → List String → List ServiceMovement
unfolding lookup_service_name
movement_of port [] added = []
movement_of port (a ∷ []) [] = []
movement_of port (a ∷ []) (b ∷ []) =
    record {
      port = port;
      protocol = "tcp";
      service_name = lookup_service_name port;
      from_device = a;
      to_device = b;
    }
    ∷ []
movement_of port (a ∷ []) (b ∷ c ∷ added) = []
movement_of port (a ∷ b ∷ removed) added = []

module _ (order : MapRange) where
  unfoldable pub port_movements : DeviceSets → DeviceSets → ℕ → List ServiceMovement
  port_movements prev curr port =
      let prev_set = set_of port prev in
      let curr_set = set_of port curr in
      movement_of port (missing curr_set (order.visit 0 prev_set))
        (missing prev_set (order.visit 1 curr_set))

  unfoldable pub each_port : DeviceSets → DeviceSets → List ℕ → List ServiceMovement
  each_port prev curr [] = []
  each_port prev curr (p ∷ ports) = port_movements prev curr p ++ each_port prev curr ports

  unfoldable pub detect_service_movements : PortRange → Scan → Scan → List ServiceMovement
  detect_service_movements range previous current =
      let prev = port_to_device_set previous [] in
      let curr = port_to_device_set current [] in
      each_port prev curr (range.visit_ports (ports_of prev))
