-- ===== src/Svcmap/Tests.antt =====
-- Two devices whose IDs begin alike and that both run a service of one name, and the theorem at one.
use subnetree.Prelude.{ℕ, Bool, false, ◌≡◌, refl, [], ◌∷◌, none}
use subnetree.Svcmap.Services.{
  ScoutService, panicked, Rows, find_by_device_and_name, upsert_service, scout_row, prefix,
  service_id, save, upsert_found, upsert_scout_service,
}

abbrev works : ℕ → Bool
works n = false

abbrev nginx : ScoutService
nginx = record {
  name = "nginx";
  display_name = "Web";
  status = "running";
  start_type = "auto";
  ports = "80" ∷ [];
}

abbrev first : Rows
first = (upsert_scout_service works "abcdefgh-1" 10 0 nginx []).0

-- The service of the second device takes the row of the first.
taken :
    find_by_device_and_name "abcdefgh-1" "nginx"
      (upsert_scout_service works "abcdefgh-2" 20 0 nginx first).0
    ≡ none
unfolding upsert_scout_service upsert_found find_by_device_and_name prefix save upsert_service
    scout_row service_id
taken = refl

short_id : (upsert_scout_service works "abc" 10 0 nginx []).1 ≡ panicked
unfolding upsert_scout_service upsert_found find_by_device_and_name prefix
short_id = refl
