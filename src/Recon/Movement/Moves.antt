-- ===== src/Recon/Movement/Moves.antt =====
-- The movements that detectServiceMovements of internal/recon/service_movement.go finds.
use subnetree.Prelude.{
  ℕ, ◌≤◌, ◌<◌, String, ◌≡◌, sym, ◌∙◌, ap, subst, inl, inr, List, [], ◌∷◌, ==_cases, string_eq,
  nat_eq, count, count-append, MapRange, arith,
}
use mathlib.Core.List.{Memᴰ, map-append}
use mathlib.Core.List.Memᴰ
use subnetree.Recon.Movement.{
  ServiceMovement, Scan, PortRange, ports_of, movement_of, port_movements, each_port,
  detect_service_movements, lookup_service_name,
}
use subnetree.Recon.Movement.Sets.{scanned-AreSets, contains-scanned, ports_of-set_of}
use subnetree.Recon.Movement.Moved.{
  Moved, Lists, movement_of-mem, movement_of-single, ports_moved, movement_of-count, prev, curr,
  removed_of, added_of, Moved-removed, Moved-added, single-Moved,
}

module _ (order : MapRange) (previous current : Scan) where
  port_movements-Moved :
      (p : ℕ) (m : ServiceMovement)
      → Memᴰ m (port_movements order (prev order previous current) (curr order previous current) p)
      → Moved previous current m.port m.from_device m.to_device
        × (m.service_name ≡ lookup_service_name m.port)
  unfolding port_movements
  port_movements-Moved p m h =
      let (r, a, e, n) =
        movement_of-mem p (removed_of order previous current p) (added_of order previous current p)
          m h in
      (
        subst (λ (q : ℕ). Moved previous current q m.from_device m.to_device) (sym e)
            (single-Moved order previous current p m.from_device m.to_device r a),
        n ∙ ap lookup_service_name (sym e),
      )

  each_port-Moved :
      (ports : List ℕ) (m : ServiceMovement)
      → Memᴰ m (each_port order (prev order previous current) (curr order previous current) ports)
      → Moved previous current m.port m.from_device m.to_device
        × (m.service_name ≡ lookup_service_name m.port)
  unfolding each_port
  each_port-Moved [] m h = absurd (Memᴰ.not-nil h)
  each_port-Moved (p ∷ ports) m h =
      elim (Memᴰ.append_cases
        (port_movements order (prev order previous current) (curr order previous current) p) h) [
          | inl here ↦ port_movements-Moved p m here
          | inr later ↦ each_port-Moved ports m later
        ]

  port_movements-Lists :
      (p : ℕ) (a b : String)
      → Moved previous current p a b
      → Lists
          (port_movements order (prev order previous current) (curr order previous current) p)
          p
          a
          b
  unfolding port_movements
  port_movements-Lists p a b m =
      rw (Moved-removed order previous current p a b m, Moved-added order previous current p a b m)
        (movement_of-single p a b)

  each_port-Lists :
      (ports : List ℕ) (p : ℕ) (a b : String)
      → 0 < count p ports
      → Moved previous current p a b
      → Lists
          (each_port order (prev order previous current) (curr order previous current) ports)
          p
          a
          b
  unfolding each_port
  each_port-Lists [] p a b h m = absurd (omega arith)
  each_port-Lists (q ∷ ports) p a b h m = elim (==_cases q p) [
    | inl (e, same) ↦
        let (x, has, e1, e2, e3) = port_movements-Lists p a b m in
        (
          x,
          rw same (
              Memᴰ.append_left
                (each_port order (prev order previous current) (curr order previous current) ports)
                has),
          e1,
          e2,
          e3,
        )
    | inr (e, differ) ↦
        let (x, has, e1, e2, e3) = each_port-Lists ports p a b (ground (arith, e, h)) m in
        (
          x,
          Memᴰ.append_right
              (port_movements order (prev order previous current) (curr order previous current) q)
              has,
          e1,
          e2,
          e3,
        )
  ]

  count-each_port :
      (ports : List ℕ) (q : ℕ)
      → count q (
          ports_moved
            (each_port order (prev order previous current) (curr order previous current) ports))
        ≤ count q ports
  unfolding each_port port_movements
  count-each_port [] q = omega arith
  count-each_port (p ∷ ports) q =
      let here =
        movement_of p (removed_of order previous current p) (added_of order previous current p) in
      let later =
        each_port order (prev order previous current) (curr order previous current) ports in
      omega (
        arith,
        movement_of-count p q (removed_of order previous current p)
            (added_of order previous current p),
        count-each_port ports q,
        ap (count q) (map-append (λ (m : ServiceMovement). m.port) here later),
        count-append q (ports_moved here) (ports_moved later),
      )

  -- detectServiceMovements finds exactly the movements: each one that it lists is of a port that one
  -- device has lost and another has gained while all others have kept theirs as they were, and has the
  -- name of the port; each such move is listed; and no port is listed twice.
  pub detect_service_movements_lem :
      (range : PortRange)
      → ((m : ServiceMovement)
          → Memᴰ m (detect_service_movements order range previous current)
          → Moved previous current m.port m.from_device m.to_device
            × (m.service_name ≡ lookup_service_name m.port))
        × ((p : ℕ) (a b : String)
            → Moved previous current p a b
            → Lists (detect_service_movements order range previous current) p a b)
        × ((p : ℕ)
            → count p (ports_moved (detect_service_movements order range previous current)) ≤ 1)
  unfolding detect_service_movements
  detect_service_movements_lem range = (
    each_port-Moved (range.visit_ports (ports_of (prev order previous current))),
    λ p a b m.
        each_port-Lists (range.visit_ports (ports_of (prev order previous current))) p a b
          (omega (
            arith,
            range.visit_ports_count (ports_of (prev order previous current)) p,
            ports_of-set_of p a (prev order previous current)
                (contains-scanned p a previous ∙ m.had),
          ))
          m,
    λ p. omega (
      arith,
      count-each_port (range.visit_ports (ports_of (prev order previous current))) p,
      range.visit_ports_count (ports_of (prev order previous current)) p,
      (scanned-AreSets previous).ports p,
    ),
  )
