-- ===== src/Recon/Hierarchy/Hung.antt =====
-- Switches and access points have parents when step 5 begins, so that it only moves other devices.
use subnetree.Prelude.{
  ◌≡◌, refl, String, Bool, true, false, not, ◌&&◌, ◌||◌, List, ◌==◌, nat_eq, string_eq, arith,
  Bool-cases, inl, inr,
}
use subnetree.Recon.Hierarchy.{
  is_switch, is_access_point, Device, TopologyLink, Assignments, set_layer, set_parent, or_root,
  upstream_parent, nearest_parent, access_body, access_point_body,
}
use subnetree.Recon.Hierarchy.Ranks.{IsFalling}
use subnetree.Recon.Hierarchy.Early.{IsLayered}

abbrev pub IsHungSwitch : Device → Assignments → Type 0
IsHungSwitch d m = (not (is_switch d.device_type) || not (m.parent d.id == "")) ≡ true

abbrev pub IsHung : Device → Assignments → Type 0
IsHung d m =
    (not (is_switch d.device_type || is_access_point d.device_type) || not (m.parent d.id == ""))
    ≡ true

-- A parent that is set is not lost.
pub hung_stays :
    (c : Bool) (id p x : String) (m : Assignments)
    → (p == "") ≡ false
    → (c || not (m.parent x == "")) ≡ true
    → (c || not ((set_parent id p m).parent x == "")) ≡ true
hung_stays c id p x m some_parent h = ground (arith, some_parent, h)

hung_own :
    (c : Bool) (id p : String) (m : Assignments)
    → (p == "") ≡ false
    → (c || not ((set_parent id p m).parent id == "")) ≡ true
hung_own c id p m some_parent = ground (arith, some_parent, string_eq.same_iff id id)

module _ (links : List TopologyLink) (root : String) (ds : List Device)
    (nonroot : (root == "") ≡ false) where
  or_root_some : (p : String) → (or_root links root p == "") ≡ false
  or_root_some p = ground (arith, nonroot)

  pub access_body-stays :
      (d e : Device) (m : Assignments)
      → IsHungSwitch d m
      → IsHungSwitch d (access_body links root ds e m)
  unfolding access_body
  access_body-stays d e m r = elim (Bool-cases (is_switch e.device_type && m.layer e.id == 3)) [
    | inr f ↦ rw f r
    | inl t ↦ rw t (
        hung_stays (not (is_switch d.device_type)) e.id
          (or_root links root (upstream_parent links root ds e m)) d.id m
          (or_root_some (upstream_parent links root ds e m)) r)
  ]

  pub access_body-layer :
      (e : Device) (m : Assignments) → (access_body links root ds e m).layer ≡ m.layer
  unfolding access_body
  access_body-layer e m = elim (Bool-cases (is_switch e.device_type && m.layer e.id == 3)) [
    | inl t ↦ rw t refl
    | inr f ↦ rw f refl
  ]

  pub access_body-reaches :
      (d : Device) (m : Assignments)
      → IsFalling ds root m
      → IsLayered d m
      → IsHungSwitch d (access_body links root ds d m)
  unfolding access_body
  access_body-reaches d m f r = elim (Bool-cases (is_switch d.device_type && m.layer d.id == 3)) [
    | inl t ↦ rw t (
        hung_own (not (is_switch d.device_type)) d.id
          (or_root links root (upstream_parent links root ds d m)) m
          (or_root_some (upstream_parent links root ds d m)))
    | inr v ↦ rw v (ground (arith, v, r, f.linked d.id))
  ]

  pub access_point_body-stays_switch :
      (d e : Device) (m : Assignments)
      → IsHungSwitch d m
      → IsHungSwitch d (access_point_body links root ds e m)
  unfolding access_point_body
  access_point_body-stays_switch d e m r = elim (Bool-cases (is_access_point e.device_type)) [
    | inr f ↦ rw f r
    | inl t ↦ rw t (
        hung_stays (not (is_switch d.device_type)) e.id
          (or_root links root (nearest_parent links root ds e m)) d.id (set_layer e.id 3 m)
          (or_root_some (nearest_parent links root ds e m)) r)
  ]

  pub access_point_body-stays :
      (d e : Device) (m : Assignments) → IsHung d m → IsHung d (access_point_body links root ds e m)
  unfolding access_point_body
  access_point_body-stays d e m r = elim (Bool-cases (is_access_point e.device_type)) [
    | inr f ↦ rw f r
    | inl t ↦ rw t (
        hung_stays (not (is_switch d.device_type || is_access_point d.device_type)) e.id
          (or_root links root (nearest_parent links root ds e m)) d.id (set_layer e.id 3 m)
          (or_root_some (nearest_parent links root ds e m)) r)
  ]

  pub access_point_body-reaches :
      (d : Device) (m : Assignments)
      → IsHungSwitch d m
      → IsHung d (access_point_body links root ds d m)
  unfolding access_point_body
  access_point_body-reaches d m r = elim (Bool-cases (is_access_point d.device_type)) [
    | inr f ↦ rw f (ground (arith, f, r))
    | inl t ↦ rw t (
        hung_own (not (is_switch d.device_type || true)) d.id
          (or_root links root (nearest_parent links root ds d m)) (set_layer d.id 3 m)
          (or_root_some (nearest_parent links root ds d m)))
  ]
