-- ===== src/Recon/Schedule.antt =====
-- internal/recon/scheduler.go: when a scheduled scan runs. time.Parse and net.ParseCIDR are parameters.
use subnetree.Prelude.{
  ℕ, ◌+◌, ◌*◌, ◌<◌, ◌≡◌, ◌≢◌, ◌↔◌, String, Bool, true, false, ◌&&◌, ◌||◌, List, [], ◌∷◌, Option,
  none, some, ◌==◌, string_eq, leb, ltb, if◌then◌else◌, later, arith, Option-cases, inl, inr,
}

-- An hour and a minute.
pub record Clock : Type 0 where
  pub hour : ℕ
  pub minute : ℕ

abbrev pub minute_of_day : Clock → ℕ
minute_of_day c = c.hour * 60 + c.minute

-- time.Parse with the layout "15:04" delivers an hour below 24 and a minute below 60.
pub record TimeParser : Type 0 where
  pub parse : String → Option Clock
  pub parse_bounds : (s : String) (c : Clock) → parse s ≡ some c → (c.hour < 24) × (c.minute < 60)

pub record ScheduleConfig : Type 0 where
  pub subnet : String
  pub quiet_start : String
  pub quiet_end : String

module _ (parser : TimeParser) where
  abbrev pub parse_hhmm : String → Option ℕ
  parse_hhmm s = elim (parser.parse s) [ none ↦ none | some c ↦ some (minute_of_day c) ]

  abbrev pub in_range : ℕ → ℕ → ℕ → Bool
  in_range now start stop =
      if leb start stop then leb start now && ltb now stop else leb start now || ltb now stop

  unfoldable pub is_quiet_hours : Clock → String → String → Bool
  is_quiet_hours now start stop =
      if start == "" || stop == "" then false else elim (parse_hhmm start) [
        | none ↦ false
        | some from ↦ elim (parse_hhmm stop) [
          | none ↦ false
          | some to ↦ in_range (minute_of_day now) from to
        ]
      ]

  -- A tick starts a scan, by its ID, or does nothing. `running` are the active scans; the creation of
  -- the record may fail. A scan that started is removed from them when it ends.
  unfoldable pub tick :
      (String → Bool) → ScheduleConfig → Clock → String → Bool → List String → List String
  unfolding is_quiet_hours
  tick valid_cidr cfg now scan_id created running =
      if is_quiet_hours now cfg.quiet_start cfg.quiet_end then running else elim running [
        | r ∷ more ↦ r ∷ more
        | [] ↦ if valid_cidr cfg.subnet && created then scan_id ∷ [] else []
      ]

  parse_hhmm-lt : (s : String) (m : ℕ) → parse_hhmm s ≡ some m → m < 1440
  parse_hhmm-lt s m h = elim (Option-cases (parser.parse s)) [
    | inl n ↦ absurd (ground (arith, h, n))
    | inr (c, e) ↦ ground (arith, h, e, parser.parse_bounds s c e)
  ]

  -- With two valid bounds, the hours are quiet exactly if the clock, walking on from the start of the
  -- window, shows the present time before it shows the end. This holds over midnight as well.
  pub is_quiet_hours-later :
      (now : Clock) (start stop : String) (from to : ℕ)
      → start ≢ ""
      → stop ≢ ""
      → parse_hhmm start ≡ some from
      → parse_hhmm stop ≡ some to
      → now.hour < 24
      → now.minute < 60
      → (is_quiet_hours now start stop ≡ true)
        ↔ (later 1440 from (minute_of_day now) < later 1440 from to)
  unfolding is_quiet_hours
  is_quiet_hours-later now start stop from to s t f g hour minute =
      let a = parse_hhmm-lt start from f in
      let b = parse_hhmm-lt stop to g in
      ground (arith, f, g, a, b, string_eq.same_iff start "", string_eq.same_iff stop "")

  -- At most one scheduled scan runs at a time, and none starts in the quiet hours.
  pub tick-running :
      (valid_cidr : String → Bool) (cfg : ScheduleConfig) (now : Clock) (scan_id : String)
      (created : Bool) (running : List String)
      → (tick valid_cidr cfg now scan_id created running ≢ running)
      → (running ≡ [])
        × (is_quiet_hours now cfg.quiet_start cfg.quiet_end ≡ false)
        × (valid_cidr cfg.subnet ≡ true)
        × (tick valid_cidr cfg now scan_id created running ≡ scan_id ∷ [])
  unfolding tick
  tick-running valid_cidr cfg now scan_id created [] h = ground (arith, h)
  tick-running valid_cidr cfg now scan_id created (r ∷ more) h = absurd (ground (arith, h))
