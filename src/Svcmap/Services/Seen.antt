-- ===== src/Svcmap/Services/Seen.antt =====
-- What the table says of the services of a device behind CorrelateDevice of
-- internal/svcmap/correlator.go.
use subnetree.Prelude.{
  ℕ, ◌+◌, ◌-◌, ◌*◌, ◌<◌, String, Bool, false, Bool-cases, ◌≡◌, refl, sym, ap, subst, ◌∙◌, inl, inr,
  List, [], ◌∷◌, length, Option, some, string_eq, arith,
}
use text.Mathlib.TextEquality.{eq_iff}
use mathlib.Core.List.{Memᴰ}
use mathlib.Core.List.Memᴰ
use subnetree.Svcmap.Services.{
  Service, ScoutService, AppInfo, Ending, returned, failed, panicked, Rows, is_stale,
  mark_stale_services, upsert_scout_service, upsert_app_service, upsert_all, or_empty, stale_cutoff,
  mark_stale, correlate_apps, correlate_device,
}

-- The row is what was saved, but for the time when it was first seen.
abbrev IsSaved : Service → Option Service → Type 0
IsSaved s found = (t : ℕ) × (found ≡ some (record s { first_seen = t }))

fresh-unknown :
    (device : String) (cutoff : ℕ) (s : Service)
    → is_stale device cutoff s ≡ false
    → s.device_id ≡ device
    → s.last_seen < cutoff
    → s.status ≡ "unknown"
unfolding is_stale
fresh-unknown device cutoff s h own old =
    ground (arith, h, own, old, eq_iff s.device_id device, eq_iff s.status "unknown")

mark_stale-unknown :
    (device : String) (cutoff : ℕ) (rows : Rows) (s : Service)
    → Memᴰ s (mark_stale_services device cutoff rows)
    → s.device_id ≡ device
    → s.last_seen < cutoff
    → s.status ≡ "unknown"
unfolding mark_stale_services
mark_stale-unknown device cutoff [] s m own old = absurd (Memᴰ.not-nil m)
mark_stale-unknown device cutoff (x ∷ rows) s m own old = elim (Memᴰ.cases_cons m) [
  | inl p ↦ elim (Bool-cases (is_stale device cutoff x)) [
    | inl stale ↦
        let q : s ≡ record x { status = "unknown" } = p ∙ rw stale refl in
        ap (λ (y : Service). y.status) q
    | inr fresh ↦
        let q : s ≡ x = p ∙ rw fresh refl in
        fresh-unknown device cutoff s
          (subst (λ (y : Service). is_stale device cutoff y ≡ false) (sym q) fresh) own old
  ]
  | inr m' ↦ mark_stale-unknown device cutoff rows s m' own old
]

-- A call that returned has gone on behind each loop.
returned-inv :
    (o : Ending) (after : Rows × Ending) (rows rows' : Rows)
    → (elim o [ returned ↦ after | failed ↦ (rows, failed) | panicked ↦ (rows, panicked) ])
      ≡ (rows', returned)
    → after ≡ (rows', returned)
returned-inv returned after rows rows' h = h
returned-inv failed after rows rows' h = cc
returned-inv panicked after rows rows' h = cc

module _ (fails : ℕ → Bool) (device : String) (now : ℕ) where
  mark_stale-rows :
      (n : ℕ) (rows rows' : Rows)
      → mark_stale fails device now n rows ≡ (rows', returned)
      → mark_stale_services device (now - stale_cutoff) rows ≡ rows'
  unfolding mark_stale
  mark_stale-rows n rows rows' h = elim (Bool-cases (fails n)) [
    | inl f ↦ cc (rw (mark_stale, f) at h)
    | inr g ↦ cc (rw (mark_stale, g) at h)
  ]

  correlate_apps-unknown :
      (n : ℕ) (apps : List AppInfo) (rows rows' : Rows) (s : Service)
      → correlate_apps fails device now n apps rows ≡ (rows', returned)
      → Memᴰ s rows'
      → s.device_id ≡ device
      → s.last_seen < now - stale_cutoff
      → s.status ≡ "unknown"
  unfolding correlate_apps
  correlate_apps-unknown n apps rows rows' s h m own old =
      let done = upsert_all (upsert_app_service fails device now) n apps rows in
      let e = mark_stale-rows (n + 2 * length apps) done.0 rows' (
        returned-inv done.1 (mark_stale fails device now (n + 2 * length apps) done.0) done.0 rows'
          h) in
      mark_stale-unknown device (now - stale_cutoff) done.0 s
        (subst (λ (l : Rows). Memᴰ s l) (sym e) m) own old

  -- A service of the device that CorrelateDevice has not seen for five minutes has the status unknown
  -- once CorrelateDevice has returned without an error.
  pub correlate_device-unknown :
      (scouts : Option (List ScoutService)) (apps : Option (List AppInfo)) (rows rows' : Rows)
      (s : Service)
      → correlate_device fails device now scouts apps rows ≡ (rows', returned)
      → Memᴰ s rows'
      → s.device_id ≡ device
      → s.last_seen < now - stale_cutoff
      → s.status ≡ "unknown"
  unfolding correlate_device
  correlate_device-unknown scouts apps rows rows' s h m own old =
      let done = upsert_all (upsert_scout_service fails device now) 0 (or_empty scouts) rows in
      let n = 2 * length (or_empty scouts) in
      correlate_apps-unknown n (or_empty apps) done.0 rows' s
        (returned-inv done.1 (correlate_apps fails device now n (or_empty apps) done.0) done.0 rows'
          h)
        m own old
