-- ===== src/Recon/Movement/Lists.antt =====
-- The lists of removed and of added devices in detectServiceMovements of
-- internal/recon/service_movement.go.
use subnetree.Prelude.{
  ℕ, String, Bool, true, not, ◌&&◌, ◌≡◌, ap, List, [], ◌∷◌, string_eq, if◌then◌else◌, contains,
  count, count-keep, length, length_of_counts, MapRange, arith,
}
use text.Mathlib.TextEquality.{eq_iff}
use subnetree.Recon.Movement.{Scan, set_of, port_to_device_set, missing}
use subnetree.Recon.Movement.Sets.{runs, contains-scanned, count-scanned}

-- The device has the port in one scan and not in another.
abbrev pub lost : Scan → Scan → ℕ → String → Bool
lost scan other p d = runs scan d p && not (runs other d p)

pub count-missing :
    (order : MapRange) (n p : ℕ) (scan other : Scan) (d : String)
    → count d (
        missing
          (set_of p (port_to_device_set other []))
          (order.visit n (set_of p (port_to_device_set scan []))))
      ≡ (if lost scan other p d then 1 else 0)
unfolding missing
count-missing order n p scan other d =
    let set = set_of p (port_to_device_set scan []) in
    let others = set_of p (port_to_device_set other []) in
    ground (
      arith,
      count-keep (λ (e : String). not (contains others e)) d (order.visit n set),
      order.visit_count n set d,
      count-scanned p d scan,
      contains-scanned p d other,
    )

module _ (f : String → Bool) (xs : List String)
    (counts : (d : String) → count d xs ≡ (if f d then 1 else 0)) (a : String) where
  pub single-holds : xs ≡ a ∷ [] → f a ≡ true
  single-holds e = ground (arith, counts a, ap (λ (l : List String). count a l) e, eq_iff a a)

  pub single_only : xs ≡ a ∷ [] → (d : String) → f d ≡ true → d ≡ a
  single_only e d h = ground (arith, counts d, ap (λ (l : List String). count d l) e, eq_iff a d)

  one-is : (ys : List String) → length ys ≡ 1 → count a ys ≡ 1 → ys ≡ a ∷ []
  one-is [] l c = cc
  one-is (y ∷ []) l c = ground (arith, eq_iff y a)
  one-is (y ∷ z ∷ ys) l c = absurd (omega arith)

  pub single_lem : f a ≡ true → ((d : String) → f d ≡ true → d ≡ a) → xs ≡ a ∷ []
  single_lem h only =
      one-is xs
        (length_of_counts xs (a ∷ []) (λ d. ground (arith, counts d, h, only d, eq_iff a d)))
        (ground (arith, counts a))
