-- ===== src/Recon/Movement/Sets.antt =====
-- The sets of devices that portToDeviceSet of internal/recon/service_movement.go builds.
use subnetree.Prelude.{
  ℕ, ◌≤◌, ◌<◌, String, Bool, true, false, ◌&&◌, ◌||◌, ◌≡◌, List, [], ◌∷◌, ◌==◌, string_eq, nat_eq,
  same_nat_iff, if◌then◌else◌, ltb, contains, contains-count, count, arith,
}
use text.Mathlib.TextEquality.{eq_iff}
use subnetree.Recon.Movement.{
  Scan, DeviceSets, set_of, ports_of, add_device, add_ports, port_to_device_set,
}

-- In a scan the device has the port open.
abbrev pub runs : Scan → String → ℕ → Bool
runs [] d p = false
runs ((e, ports) ∷ scan) d p = (e == d && contains ports p) || runs scan d p

set_of-add_device :
    (p q : ℕ) (d e : String) (sets : DeviceSets)
    → contains (set_of p (add_device q e sets)) d
      ≡ (contains (set_of p sets) d || (q == p && e == d))
unfolding add_device
set_of-add_device p q d e [] = ground (arith, same_nat_iff q p)
set_of-add_device p q d e ((r, ds) ∷ sets) = ground (
  arith,
  set_of-add_device p q d e sets,
  same_nat_iff r q,
  same_nat_iff q p,
  same_nat_iff r p,
  eq_iff e d,
  contains-count e ds,
  contains-count d ds,
)

set_of-add_ports :
    (p : ℕ) (d e : String) (ports : List ℕ) (sets : DeviceSets)
    → contains (set_of p (add_ports e ports sets)) d
      ≡ (contains (set_of p sets) d || (e == d && contains ports p))
unfolding add_ports
set_of-add_ports p d e [] sets = ground arith
set_of-add_ports p d e (q ∷ ports) sets =
    ground
      (arith, set_of-add_ports p d e ports (add_device q e sets), set_of-add_device p q d e sets)

set_of-scan :
    (p : ℕ) (d : String) (scan : Scan) (sets : DeviceSets)
    → contains (set_of p (port_to_device_set scan sets)) d
      ≡ (contains (set_of p sets) d || runs scan d p)
unfolding port_to_device_set
set_of-scan p d [] sets = ground arith
set_of-scan p d ((e, ports) ∷ scan) sets =
    ground (arith, set_of-scan p d scan (add_ports e ports sets), set_of-add_ports p d e ports sets)

-- Each set lists a device once, and each port has one set.
pub record AreSets (sets : DeviceSets) : Type 0 where
  pub devices : (p : ℕ) (d : String) → count d (set_of p sets) ≤ 1
  pub ports : (p : ℕ) → count p (ports_of sets) ≤ 1

count-add_device :
    (p q : ℕ) (d e : String) (sets : DeviceSets)
    → count d (set_of p (add_device q e sets)) ≡ (
        if q == p && e == d
        then (if ltb 0 (count d (set_of p sets)) then count d (set_of p sets) else 1)
        else count d (set_of p sets))
unfolding add_device
count-add_device p q d e [] = ground (arith, same_nat_iff q p)
count-add_device p q d e ((r, ds) ∷ sets) = ground (
  arith,
  count-add_device p q d e sets,
  same_nat_iff r q,
  same_nat_iff q p,
  same_nat_iff r p,
  eq_iff e d,
  contains-count e ds,
  contains-count d ds,
)

ports_of-add_device :
    (p q : ℕ) (e : String) (sets : DeviceSets)
    → count p (ports_of (add_device q e sets)) ≡ (
        if q == p
        then (if ltb 0 (count p (ports_of sets)) then count p (ports_of sets) else 1)
        else count p (ports_of sets))
unfolding add_device
ports_of-add_device p q e [] = ground arith
ports_of-add_device p q e ((r, ds) ∷ sets) =
    ground
      (arith, ports_of-add_device p q e sets, same_nat_iff r q, same_nat_iff q p, same_nat_iff r p)

add_ports-AreSets :
    (e : String) (ports : List ℕ) (sets : DeviceSets)
    → AreSets sets
    → AreSets (add_ports e ports sets)
unfolding add_ports
add_ports-AreSets e [] sets s = s
add_ports-AreSets e (q ∷ ports) sets s = add_ports-AreSets e ports (add_device q e sets) (record {
  devices = λ p d. ground (arith, count-add_device p q d e sets, s.devices p d);
  ports = λ p. ground (arith, ports_of-add_device p q e sets, s.ports p);
})

scan-AreSets :
    (scan : Scan) (sets : DeviceSets) → AreSets sets → AreSets (port_to_device_set scan sets)
unfolding port_to_device_set
scan-AreSets [] sets s = s
scan-AreSets ((e, ports) ∷ scan) sets s =
    scan-AreSets scan (add_ports e ports sets) (add_ports-AreSets e ports sets s)

pub scanned-AreSets : (scan : Scan) → AreSets (port_to_device_set scan [])
scanned-AreSets scan =
    scan-AreSets scan [] (record { devices = λ p d. omega arith; ports = λ p. omega arith })

pub contains-scanned :
    (p : ℕ) (d : String) (scan : Scan)
    → contains (set_of p (port_to_device_set scan [])) d ≡ runs scan d p
contains-scanned p d scan = ground (arith, set_of-scan p d scan [])

-- A device in the set counts once.
pub count-scanned :
    (p : ℕ) (d : String) (scan : Scan)
    → count d (set_of p (port_to_device_set scan [])) ≡ (if runs scan d p then 1 else 0)
count-scanned p d scan =
    let set = set_of p (port_to_device_set scan []) in
    ground
      (arith, contains-count d set, contains-scanned p d scan, (scanned-AreSets scan).devices p d)

-- A port that some device has is a key.
pub ports_of-set_of :
    (p : ℕ) (d : String) (sets : DeviceSets)
    → contains (set_of p sets) d ≡ true
    → 0 < count p (ports_of sets)
ports_of-set_of p d [] h = cc
ports_of-set_of p d ((r, ds) ∷ sets) h = ground (arith, h, ports_of-set_of p d sets)
