-- ===== src/Pulse/Maintenance.antt =====
-- internal/pulse/maint_window.go: the maintenance windows that silence a device. A time is what
-- package time answers about it: its instant, weekday, day of the month and clock.
use subnetree.Prelude.{
  ℕ, ◌+◌, ◌*◌, ◌≤◌, ◌<◌, ◌≡◌, ◌↔◌, refl, String, Bool, true, false, not, ◌&&◌, ◌||◌, List, [], ◌∷◌,
  ◌==◌, nat_eq, string_eq, contains, leb, if◌then◌else◌, later, arith, Bool-cases, inl, inr,
}

pub record Time : Type 0 where
  pub instant : ℕ
  pub weekday : ℕ
  pub day : ℕ
  pub hour : ℕ
  pub minute : ℕ
  pub second : ℕ

pub record MaintWindow : Type 0 where
  pub start_time : Time
  pub end_time : Time
  pub recurrence : String
  pub device_ids : List String
  pub enabled : Bool

abbrev pub time_of_day_seconds : Time → ℕ
time_of_day_seconds t = t.hour * 3600 + t.minute * 60 + t.second

unfoldable pub is_time_of_day_in_range : Time → Time → Time → Bool
is_time_of_day_in_range t start stop =
    let at = time_of_day_seconds t in
    let from = time_of_day_seconds start in
    let to = time_of_day_seconds stop in
    if leb from to then leb from at && leb at to else leb from at || leb at to

unfoldable pub is_time_in_window : Time → Time → Time → String → Bool
unfolding is_time_of_day_in_range
is_time_in_window t start stop recurrence =
    if recurrence == "once"
    then leb start.instant t.instant && leb t.instant stop.instant
    else if recurrence == "daily"
    then is_time_of_day_in_range t start stop
    else if recurrence == "weekly"
    then t.weekday == start.weekday && is_time_of_day_in_range t start stop
    else if recurrence == "monthly"
    then t.day == start.day && is_time_of_day_in_range t start stop
    else false

-- The windows are those that the query lists.
unfoldable pub is_device_in_maintenance_window : Time → String → List MaintWindow → Bool
unfolding is_time_in_window
is_device_in_maintenance_window now device [] = false
is_device_in_maintenance_window now device (w ∷ ws) =
    let rest = is_device_in_maintenance_window now device ws in
    if not w.enabled
    then rest
    else if not (contains w.device_ids device)
    then rest
    else if is_time_in_window now w.start_time w.end_time w.recurrence
    then true
    else rest

pub record IsClock (t : Time) : Type 0 where
  pub hour : t.hour < 24
  pub minute : t.minute < 60
  pub second : t.second < 60

-- The clock, walking on from the start, shows the time no later than the end.
abbrev pub Between : Time → Time → Time → Type 0
Between t start stop =
    later 86400 (time_of_day_seconds start) (time_of_day_seconds t)
    ≤ later 86400 (time_of_day_seconds start) (time_of_day_seconds stop)

-- This holds over midnight as well.
is_time_of_day_in_range-Between :
    (t start stop : Time)
    → IsClock t
    → IsClock start
    → IsClock stop
    → (is_time_of_day_in_range t start stop ≡ true) ↔ Between t start stop
unfolding is_time_of_day_in_range
is_time_of_day_in_range-Between t start stop a b c =
    ground
      (arith, a.hour, a.minute, a.second, b.hour, b.minute, b.second, c.hour, c.minute, c.second)

-- When a window of each recurrence is open.
pub data IsOpen (now : Time) (w : MaintWindow) : Type 0 where
  once :
      w.recurrence ≡ "once"
      → w.start_time.instant ≤ now.instant
      → now.instant ≤ w.end_time.instant
      → IsOpen now w
  daily : w.recurrence ≡ "daily" → Between now w.start_time w.end_time → IsOpen now w
  weekly :
      w.recurrence ≡ "weekly"
      → now.weekday ≡ w.start_time.weekday
      → Between now w.start_time w.end_time
      → IsOpen now w
  monthly :
      w.recurrence ≡ "monthly"
      → now.day ≡ w.start_time.day
      → Between now w.start_time w.end_time
      → IsOpen now w

-- The clocks of the windows are valid.
abbrev pub AreClocks : List MaintWindow → Type 0
AreClocks [] = Unit
AreClocks (w ∷ ws) = (IsClock w.start_time × IsClock w.end_time) × AreClocks ws

-- `Silenced now device ws`: some enabled window that lists the device is open.
pub data Silenced (now : Time) (device : String) : List MaintWindow → Type 0 where
  here :
      {w : MaintWindow} {ws : List MaintWindow}
      → w.enabled ≡ true
      → contains w.device_ids device ≡ true
      → IsOpen now w
      → Silenced now device (w ∷ ws)
  there :
      {w : MaintWindow} {ws : List MaintWindow}
      → Silenced now device ws
      → Silenced now device (w ∷ ws)

abbrev is_open : Time → MaintWindow → Bool
is_open now w = is_time_in_window now w.start_time w.end_time w.recurrence

module _ (now : Time) (clock : IsClock now) where
  IsOpen-is_open :
      (w : MaintWindow)
      → IsClock w.start_time
      → IsClock w.end_time
      → IsOpen now w
      → is_open now w ≡ true
  unfolding is_time_in_window
  IsOpen-is_open w c d (once e from to) = rw e (ground (arith, from, to))
  IsOpen-is_open w c d (daily e between) =
      rw e ((is_time_of_day_in_range-Between now w.start_time w.end_time clock c d).1 between)
  IsOpen-is_open w c d (weekly e day between) =
      let range =
        (is_time_of_day_in_range-Between now w.start_time w.end_time clock c d).1 between in
      rw e (ground (arith, day, range))
  IsOpen-is_open w c d (monthly e day between) =
      let range =
        (is_time_of_day_in_range-Between now w.start_time w.end_time clock c d).1 between in
      rw e (ground (arith, day, range))

  is_open-IsOpen :
      (w : MaintWindow)
      → IsClock w.start_time
      → IsClock w.end_time
      → is_open now w ≡ true
      → IsOpen now w
  unfolding is_time_in_window
  is_open-IsOpen w c d h =
      let r = w.recurrence in
      let between = (is_time_of_day_in_range-Between now w.start_time w.end_time clock c d).0 in
      elim (Bool-cases (r == "once")) [
        | inl a ↦
            once ((string_eq.same_iff r "once").0 a) (ground (arith, a, h)) (ground (arith, a, h))
        | inr a ↦ elim (Bool-cases (r == "daily")) [
          | inl b ↦ daily ((string_eq.same_iff r "daily").0 b) (between (ground (arith, a, b, h)))
          | inr b ↦ elim (Bool-cases (r == "weekly")) [
            | inl k ↦
                weekly ((string_eq.same_iff r "weekly").0 k) (ground (arith, a, b, k, h))
                  (between (ground (arith, a, b, k, h)))
            | inr k ↦ elim (Bool-cases (r == "monthly")) [
              | inl m ↦
                  monthly ((string_eq.same_iff r "monthly").0 m) (ground (arith, a, b, k, m, h))
                    (between (ground (arith, a, b, k, m, h)))
              | inr m ↦ absurd (ground (arith, a, b, k, m, h))
            ]
          ]
        ]
      ]

  maintenance-Silenced :
      (device : String) (ws : List MaintWindow)
      → AreClocks ws
      → is_device_in_maintenance_window now device ws ≡ true
      → Silenced now device ws
  unfolding is_device_in_maintenance_window
  maintenance-Silenced device [] cs h = absurd (cc h)
  maintenance-Silenced device (w ∷ ws) ((c, d), cs) h =
      let rest = maintenance-Silenced device ws cs in
      elim (Bool-cases (w.enabled && (contains w.device_ids device && is_open now w))) [
        | inl t ↦
            here (ground (arith, t)) (ground (arith, t)) (is_open-IsOpen w c d (ground (arith, t)))
        | inr f ↦ there (rest (ground (arith, h, f)))
      ]

  still :
      (e m o rest : Bool)
      → rest ≡ true
      → (if not e then rest else if not m then rest else if o then true else rest) ≡ true
  still e m o rest h = ground (arith, h)

  Silenced-maintenance :
      (device : String) (ws : List MaintWindow)
      → Silenced now device ws
      → AreClocks ws
      → is_device_in_maintenance_window now device ws ≡ true
  unfolding is_device_in_maintenance_window
  Silenced-maintenance device _ (here {w = w} {ws = ws} a b o) ((c, d), cs) =
      let opened = IsOpen-is_open w c d o in rw (a, b, opened) refl
  Silenced-maintenance device _ (there {w = w} {ws = ws} h) (_, cs) =
      still w.enabled (contains w.device_ids device) (is_open now w) _
        (Silenced-maintenance device ws h cs)

  -- For valid clocks, a device is in maintenance exactly if some enabled window that lists it is open:
  -- a window for once from its first to its last instant, the others while the clock walks from the
  -- start to the end, over midnight as well: a daily one on each day, a weekly one on the weekday and
  -- a monthly one on the day of the month of its start. A window of another recurrence is never open.
  pub is_device_in_maintenance_window-Silenced :
      (device : String) (ws : List MaintWindow)
      → AreClocks ws
      → (is_device_in_maintenance_window now device ws ≡ true) ↔ Silenced now device ws
  is_device_in_maintenance_window-Silenced device ws cs =
      (maintenance-Silenced device ws cs, λ h. Silenced-maintenance device ws h cs)
