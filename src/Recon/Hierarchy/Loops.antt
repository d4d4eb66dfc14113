-- ===== src/Recon/Hierarchy/Loops.antt =====
-- What the loops of the inference keep, and what they reach for each device.
use subnetree.Prelude.{List, [], ◌∷◌, some, ◌≡◌}
use subnetree.Recon.Hierarchy.{Device, Assignments, device_by_id, each}

-- Every device of a list is the one that the whole list has for its ID.
abbrev pub AreKnown : List Device → List Device → Type 0
AreKnown all [] = Unit
AreKnown all (d ∷ ds) = (device_by_id all d.id ≡ some d) × AreKnown all ds

abbrev pub ForAll : (Device → Type 0) → List Device → Type 0
ForAll P [] = Unit
ForAll P (d ∷ ds) = P d × ForAll P ds

module _ (all : List Device) (body : Device → Assignments → Assignments) where
  pub each-keeps :
      (P : Assignments → Type 0)
      → ((d : Device) (m : Assignments) → device_by_id all d.id ≡ some d → P m → P (body d m))
      → (ds : List Device) (m : Assignments) → AreKnown all ds
      → P m
      → P (each body ds m)
  unfolding each
  each-keeps P step [] m known h = h
  each-keeps P step (d ∷ ds) m (k, ks) h = each-keeps P step ds (body d m) ks (step d m k h)

  module _ (P : Assignments → Type 0)
      (step : (d : Device) (m : Assignments) → device_by_id all d.id ≡ some d → P m → P (body d m))
      (R : Device → Assignments → Type 0) where
    pub each-keeps_for :
        ((d e : Device) (m : Assignments)
          → device_by_id all e.id ≡ some e
          → P m
          → R d m
          → R d (body e m))
        → (d : Device) (ds : List Device) (m : Assignments) → AreKnown all ds
        → P m
        → R d m
        → R d (each body ds m)
    unfolding each
    each-keeps_for stay d [] m known h r = r
    each-keeps_for stay d (e ∷ ds) m (k, ks) h r =
        each-keeps_for stay d ds (body e m) ks (step e m k h) (stay d e m k h r)

    pub each-reaches :
        ((d e : Device) (m : Assignments)
          → device_by_id all e.id ≡ some e
          → P m
          → R d m
          → R d (body e m))
        → ((d : Device) (m : Assignments) → device_by_id all d.id ≡ some d → P m → R d (body d m))
        → (ds : List Device) (m : Assignments) → AreKnown all ds
        → P m
        → ForAll (λ d. R d (each body ds m)) ds
    unfolding each
    each-reaches stay reach [] m known h = tt
    each-reaches stay reach (d ∷ ds) m (k, ks) h = (
      each-keeps_for stay d ds (body d m) ks (step d m k h) (reach d m k h),
      each-reaches stay reach ds (body d m) ks (step d m k h),
    )

    -- What holds of each device of another list stays.
    pub each-keeps_all :
        ((d e : Device) (m : Assignments)
          → device_by_id all e.id ≡ some e
          → P m
          → R d m
          → R d (body e m))
        → (cs ds : List Device) (m : Assignments) → AreKnown all ds
        → P m
        → ForAll (λ d. R d m) cs
        → ForAll (λ d. R d (each body ds m)) cs
    each-keeps_all stay [] ds m known h r = tt
    each-keeps_all stay (c ∷ cs) ds m known h (r, rs) =
        (each-keeps_for stay c ds m known h r, each-keeps_all stay cs ds m known h rs)
