-- ===== src/Recon/Movement/Moved.antt =====
-- A port that moved, and the lists of detectServiceMovements in
-- internal/recon/service_movement.go for it.
use subnetree.Prelude.{
  ℕ, ◌≤◌, String, true, false, ◌≡◌, ◌≢◌, ◌⊎◌, refl, ap, inl, inr, List, [], ◌∷◌, map, ◌==◌,
  ==_cases, string_eq, nat_eq, if◌then◌else◌, count, MapRange, arith,
}
use mathlib.Core.List.{Memᴰ}
use mathlib.Core.List.Memᴰ
use subnetree.Recon.Movement.{
  ServiceMovement, Scan, DeviceSets, set_of, port_to_device_set, missing, movement_of,
  lookup_service_name,
}
use subnetree.Recon.Movement.Sets.{runs}
use subnetree.Recon.Movement.Lists.{lost, count-missing, single-holds, single_only, single_lem}

-- Between the scans the port went from device `a` to device `b`, and nowhere else.
pub record Moved (previous current : Scan) (p : ℕ) (a b : String) : Type 0 where
  pub had : runs previous a p ≡ true
  pub gone : runs current a p ≡ false
  pub lacked : runs previous b p ≡ false
  pub has : runs current b p ≡ true
  pub others : (d : String) → d ≢ a → d ≢ b → runs previous d p ≡ runs current d p

-- The list has a movement of the port between the devices.
abbrev pub Lists : List ServiceMovement → ℕ → String → String → Type 0
Lists ms p a b =
    (m : ServiceMovement) × Memᴰ m ms × (m.port ≡ p) × (m.from_device ≡ a) × (m.to_device ≡ b)

pub movement_of-mem :
    (p : ℕ) (removed added : List String) (m : ServiceMovement)
    → Memᴰ m (movement_of p removed added)
    → (removed ≡ m.from_device ∷ [])
      × (added ≡ m.to_device ∷ [])
      × (m.port ≡ p)
      × (m.service_name ≡ lookup_service_name p)
unfolding movement_of
movement_of-mem p [] added m h = absurd (Memᴰ.not-nil h)
movement_of-mem p (a ∷ []) [] m h = absurd (Memᴰ.not-nil h)
movement_of-mem p (a ∷ []) (b ∷ []) m h = rw (Memᴰ.eq_of_singleton h) (refl, refl, refl, refl)
movement_of-mem p (a ∷ []) (b ∷ c ∷ added) m h = absurd (Memᴰ.not-nil h)
movement_of-mem p (a ∷ b ∷ removed) added m h = absurd (Memᴰ.not-nil h)

pub movement_of-single :
    (p : ℕ) (a b : String)
    → (m : ServiceMovement) × Memᴰ m (movement_of p (a ∷ []) (b ∷ []))
      × (m.port ≡ p)
      × (m.from_device ≡ a)
      × (m.to_device ≡ b)
unfolding movement_of
movement_of-single p a b = (_, Memᴰ.head refl, refl, refl, refl)

abbrev pub ports_moved : List ServiceMovement → List ℕ
ports_moved = map (λ (m : ServiceMovement). m.port)

pub movement_of-count :
    (p q : ℕ) (removed added : List String)
    → count q (ports_moved (movement_of p removed added)) ≤ (if p == q then 1 else 0)
unfolding movement_of
movement_of-count p q [] added = ground arith
movement_of-count p q (a ∷ []) [] = ground arith
movement_of-count p q (a ∷ []) (b ∷ []) = ground arith
movement_of-count p q (a ∷ []) (b ∷ c ∷ added) = ground arith
movement_of-count p q (a ∷ b ∷ removed) added = ground arith

module _ (order : MapRange) (previous current : Scan) where
  abbrev pub prev : DeviceSets
  prev = port_to_device_set previous []

  abbrev pub curr : DeviceSets
  curr = port_to_device_set current []

  abbrev pub removed_of : ℕ → List String
  removed_of p = missing (set_of p curr) (order.visit 0 (set_of p prev))

  abbrev pub added_of : ℕ → List String
  added_of p = missing (set_of p prev) (order.visit 1 (set_of p curr))

  Moved-or_same :
      (p : ℕ) (a b d : String)
      → Moved previous current p a b
      → ((runs previous d p ≡ runs current d p) ⊎ ((d ≡ a) ⊎ (d ≡ b)))
  Moved-or_same p a b d m = elim (==_cases d a) [
    | inl (e, q) ↦ inr (inl q)
    | inr (e, q) ↦ elim (==_cases d b) [
      | inl (e', r) ↦ inr (inr r)
      | inr (e', r) ↦ inl (m.others d q r)
    ]
  ]

  pub Moved-removed : (p : ℕ) (a b : String) → Moved previous current p a b → removed_of p ≡ a ∷ []
  Moved-removed p a b m =
      single_lem (lost previous current p) (removed_of p) (count-missing order 0 p previous current)
        a (ground (arith, m.had, m.gone))
        (λ d h. elim (Moved-or_same p a b d m) [
          | inl same ↦ ground (arith, same, h)
          | inr s ↦ elim s [
            | inl q ↦ q
            | inr q ↦ ground (arith, h, m.lacked, ap (λ (e : String). runs previous e p) q)
          ]
        ])

  pub Moved-added : (p : ℕ) (a b : String) → Moved previous current p a b → added_of p ≡ b ∷ []
  Moved-added p a b m =
      single_lem (lost current previous p) (added_of p) (count-missing order 1 p current previous) b
        (ground (arith, m.lacked, m.has))
        (λ d h. elim (Moved-or_same p a b d m) [
          | inl same ↦ ground (arith, same, h)
          | inr s ↦ elim s [
            | inl q ↦ ground (arith, h, m.gone, ap (λ (e : String). runs current e p) q)
            | inr q ↦ q
          ]
        ])

  pub single-Moved :
      (p : ℕ) (a b : String)
      → removed_of p ≡ a ∷ []
      → added_of p ≡ b ∷ []
      → Moved previous current p a b
  single-Moved p a b e e' =
      let f =
        single-holds (lost previous current p) (removed_of p)
          (count-missing order 0 p previous current) a e in
      let g =
        single-holds (lost current previous p) (added_of p)
          (count-missing order 1 p current previous) b e' in
      record {
        had = ground (arith, f);
        gone = ground (arith, f);
        lacked = ground (arith, g);
        has = ground (arith, g);
        others = λ d na nb. ground (
          arith,
          single_only (lost previous current p) (removed_of p)
              (count-missing order 0 p previous current) a e d,
          single_only (lost current previous p) (added_of p)
              (count-missing order 1 p current previous) b e' d,
        );
      }
