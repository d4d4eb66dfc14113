-- ===== src/Gateway/Tests.antt =====
-- Two sessions at a limit of one, and the theorems at them.
use subnetree.Prelude.{◌≤◌, ◌<◌, ◌≡◌, refl, String, false, [], ◌∷◌, string_eq, arith}
use subnetree.Gateway.Sessions.{
  Session, SessionManager, new_session_manager, session_count, create, store,
}
use subnetree.Gateway.Sessions.Table.{entries}
use subnetree.Gateway.Sessions.Races.{
  Running, counting, passed, begin, pass, put, Reachable, start, next,
}
use subnetree.Gateway.Sessions.Races.Limit.{Reachable-session_count}

abbrev ssh : Session
ssh = record { id = "ssh"; device_id = "nas"; user_id = "ann"; expires_at = 100 }

abbrev web : Session
web = record { id = "web"; device_id = "router"; user_id = "bob"; expires_at = 50 }

abbrev small : SessionManager
small = new_session_manager 1

abbrev both : SessionManager
both = record { sessions = ssh ∷ web ∷ []; max_sessions = 2 }

both_once : (id : String) → entries id both.sessions ≤ 1
both_once id = ground (
  arith,
  string_eq.same_iff "ssh" id,
  string_eq.same_iff "web" id,
  string_eq.same_iff "ssh" "web",
)

-- One caller after the other: the second is refused.
refused : (create web (create ssh small).0).1 ≡ false
unfolding create
refused = refl

abbrev overfull : Running
overfull = record {
  manager = record { sessions = store ssh (store web []); max_sessions = 1 };
  calls = [];
}

-- Two callers at once: both pass the test before either stores.
overfull-Reachable : Reachable 1 2 overfull
overfull-Reachable =
    next
      (next
        (next
          (next (next (next start (begin web (omega arith))) (begin ssh (omega arith)))
            (pass web 0 0 (counting ssh 0 ∷ []) [] (omega arith) (omega arith)))
          (pass ssh 0 0 [] (passed web ∷ []) (omega arith) (omega arith)))
        (put web (passed ssh ∷ []) []))
      (put ssh [] [])

overfull-session_count : session_count overfull.manager ≡ 2
unfolding store
overfull-session_count = refl

Reachable-session_count_example : session_count overfull.manager < 3
Reachable-session_count_example =
    Reachable-session_count 1 2 overfull (omega arith) overfull-Reachable
