-- ===== src/Svcmap/Services.antt =====
-- internal/svcmap/correlator.go: the services that a device reports, and the statements of
-- internal/svcmap/store.go that it uses. A statement fails or not by its number in the call, and an
-- error changes nothing. The shares of the processor, which are floats, and the memory are left out.
-- The reports of the agent and of the applications are arguments, `none` where they cannot be read.
pub mod Seen
use Prim.Native.String.{◌++◌}
use subnetree.Prelude.{
  ℕ, zero, suc, ◌+◌, ◌-◌, ◌*◌, String, Bool, true, false, not, ◌&&◌, List, [], ◌∷◌, length, Option,
  none, some, ◌==◌, string_eq, ltb, if◌then◌else◌,
}

pub record Service : Type 0 where
  pub id : String
  pub name : String
  pub display_name : String
  pub service_type : String
  pub device_id : String
  pub application_id : String
  pub status : String
  pub desired_state : String
  pub ports : List String
  pub first_seen : ℕ
  pub last_seen : ℕ

pub record ScoutService : Type 0 where
  pub name : String
  pub display_name : String
  pub status : String
  pub start_type : String
  pub ports : List String

pub record AppInfo : Type 0 where
  pub id : String
  pub name : String
  pub container_name : String
  pub status : String

-- A call returns, returns an error, or panics at an index out of range.
pub data Ending : Type 0 where
  returned failed panicked : Ending

abbrev pub Rows : Type 0
Rows = List Service

unfoldable pub find_by_device_and_name : String → String → Rows → Option Service
find_by_device_and_name device name [] = none
find_by_device_and_name device name (s ∷ rows) =
    if s.device_id == device && s.name == name
    then some s
    else find_by_device_and_name device name rows

unfoldable pub upsert_service : Service → Rows → Rows
upsert_service s [] = s ∷ []
upsert_service s (r ∷ rows) =
    if r.id == s.id
    then record s { first_seen = r.first_seen } ∷ rows
    else r ∷ upsert_service s rows

unfoldable pub is_stale : String → ℕ → Service → Bool
is_stale device cutoff s =
    s.device_id == device && (ltb s.last_seen cutoff && not (s.status == "unknown"))

unfoldable pub mark_stale_services : String → ℕ → Rows → Rows
unfolding is_stale
mark_stale_services device cutoff [] = []
mark_stale_services device cutoff (s ∷ rows) =
    (if is_stale device cutoff s then record s { status = "unknown" } else s)
    ∷ mark_stale_services device cutoff rows

unfoldable pub infer_service_type : String → String
infer_service_type start_type =
    if start_type == "auto"
    then "windows-service"
    else if start_type == "manual"
    then "windows-service"
    else if start_type == "disabled"
    then "windows-service"
    else "application"

unfoldable pub map_scout_status : String → String
map_scout_status status =
    if status == "running"
    then "running"
    else if status == "stopped"
    then "stopped"
    else if status == "failed"
    then "failed"
    else "unknown"

unfoldable pub map_app_status : String → String
map_app_status status =
    if status == "running"
    then "running"
    else if status == "exited"
    then "stopped"
    else if status == "stopped"
    then "stopped"
    else "unknown"

-- The first characters of a text, if it has so many. The ID of a device is ASCII.
unfoldable pub prefix : ℕ → String → Option String
prefix zero s = some ""
prefix (suc n) String.[] = none
prefix (suc n) (String.◌∷◌ c s) = elim (prefix n s) [ none ↦ none | some p ↦ some (String.◌∷◌ c p) ]

unfoldable pub service_id : String → String → String
service_id short name = "svc-" ++ (short ++ ("-" ++ name))

unfoldable pub scout_update : ScoutService → ℕ → Service → Service
scout_update scout now s = record s {
  display_name = scout.display_name;
  service_type = infer_service_type scout.start_type;
  status = map_scout_status scout.status;
  ports = scout.ports;
  last_seen = now;
}

unfoldable pub scout_row : String → String → ScoutService → ℕ → Service
scout_row short device scout now = record {
  id = service_id short scout.name;
  name = scout.name;
  display_name = scout.display_name;
  service_type = infer_service_type scout.start_type;
  device_id = device;
  application_id = "";
  status = map_scout_status scout.status;
  desired_state = "monitoring-only";
  ports = scout.ports;
  first_seen = now;
  last_seen = now;
}

unfoldable pub app_name : AppInfo → String
app_name app = if app.container_name == "" then app.name else app.container_name

unfoldable pub app_update : AppInfo → ℕ → Service → Service
app_update app now s = record s {
  application_id = app.id;
  status = map_app_status app.status;
  last_seen = now;
}

unfoldable pub app_row : String → String → AppInfo → ℕ → Service
app_row short device app now = record {
  id = service_id short (app_name app);
  name = app_name app;
  display_name = app.name;
  service_type = "docker-container";
  device_id = device;
  application_id = app.id;
  status = map_app_status app.status;
  desired_state = "monitoring-only";
  ports = [];
  first_seen = now;
  last_seen = now;
}

-- The loops of CorrelateDevice: an error or a panic ends them.
unfoldable pub upsert_all {ℓ} :
    {A : Type ℓ} → (ℕ → A → Rows → Rows × Ending) → ℕ → List A → Rows → Rows × Ending
upsert_all upsert n [] rows = (rows, returned)
upsert_all upsert n (x ∷ xs) rows =
    let (rows', outcome) = upsert n x rows in
    elim outcome [
      | returned ↦ upsert_all upsert (n + 2) xs rows'
      | failed ↦ (rows', failed)
      | panicked ↦ (rows', panicked)
    ]

-- What was reported, if it could be read.
unfoldable pub or_empty {ℓ} : {A : Type ℓ} → Option (List A) → List A
or_empty none = []
or_empty (some xs) = xs

-- staleCutoff is five minutes; times are nanoseconds.
unfoldable pub stale_cutoff : ℕ
stale_cutoff = 300000000000

module _ (fails : ℕ → Bool) (device : String) (now : ℕ) where
  -- UpsertService as the statement of this number.
  unfoldable pub save : ℕ → Service → Rows → Rows × Ending
  save n s rows = if fails n then (rows, failed) else (upsert_service s rows, returned)

  -- upsertScoutService and upsertAppService: an update of the row that is found, or a new row for the
  -- first characters of the device's ID.
  unfoldable pub upsert_found :
      ℕ → String → (Service → Service) → (String → Service) → Rows → Rows × Ending
  upsert_found n name edit fresh rows =
      if fails n then (rows, failed) else elim (find_by_device_and_name device name rows) [
        | some s ↦ save (suc n) (edit s) rows
        | none ↦ elim (prefix 8 device) [
          | none ↦ (rows, panicked)
          | some short ↦ save (suc n) (fresh short) rows
        ]
      ]

  unfoldable pub upsert_scout_service : ℕ → ScoutService → Rows → Rows × Ending
  upsert_scout_service n scout =
      upsert_found n scout.name (scout_update scout now) (λ short. scout_row short device scout now)

  unfoldable pub upsert_app_service : ℕ → AppInfo → Rows → Rows × Ending
  upsert_app_service n app =
      upsert_found n (app_name app) (app_update app now) (λ short. app_row short device app now)

  unfoldable pub mark_stale : ℕ → Rows → Rows × Ending
  unfolding stale_cutoff
  mark_stale n rows =
      if fails n
      then (rows, failed)
      else (mark_stale_services device (now - stale_cutoff) rows, returned)

  unfoldable pub correlate_apps : ℕ → List AppInfo → Rows → Rows × Ending
  correlate_apps n apps rows =
      let (rows', outcome) = upsert_all upsert_app_service n apps rows in
      elim outcome [
        | returned ↦ mark_stale (n + 2 * length apps) rows'
        | failed ↦ (rows', failed)
        | panicked ↦ (rows', panicked)
      ]

  -- CorrelateDevice, with the reports of the agent and of the applications.
  unfoldable pub correlate_device :
      Option (List ScoutService) → Option (List AppInfo) → Rows → Rows × Ending
  unfolding or_empty
  correlate_device scouts apps rows =
      let (rows', outcome) = upsert_all upsert_scout_service 0 (or_empty scouts) rows in
      elim outcome [
        | returned ↦ correlate_apps (2 * length (or_empty scouts)) (or_empty apps) rows'
        | failed ↦ (rows', failed)
        | panicked ↦ (rows', panicked)
      ]
