-- ===== src/Gateway/Sessions.antt =====
-- internal/gateway/sessions.go. The sync.Map is a list with one session for each ID; a limit below 0
-- acts as 0 does. A time is a number. Each method on its own is here; Sessions/Races has the steps
-- that Create makes while others run.
pub mod Table
pub mod Races
use subnetree.Prelude.{
  ℕ, String, Bool, true, false, not, List, [], ◌∷◌, Option, none, some, ◌==◌, string_eq, leb, ltb,
  if◌then◌else◌, keep, length,
}

pub record Session : Type 0 where
  pub id : String
  pub device_id : String
  pub user_id : String
  pub expires_at : ℕ

pub record SessionManager : Type 0 where
  pub sessions : List Session
  pub max_sessions : ℕ

abbrev pub new_session_manager : ℕ → SessionManager
new_session_manager limit = record { sessions = []; max_sessions = limit }

-- sync.Map's Store: the key's value is replaced, or the key is new.
unfoldable pub store : Session → List Session → List Session
store s [] = s ∷ []
store s (t ∷ ts) = if t.id == s.id then s ∷ ts else t ∷ store s ts

unfoldable pub load : String → List Session → Option Session
load id [] = none
load id (s ∷ ss) = if s.id == id then some s else load id ss

abbrev pub session_count : SessionManager → ℕ
session_count sm = length sm.sessions

unfoldable pub create : Session → SessionManager → SessionManager × Bool
unfolding store
create s sm =
    if leb sm.max_sessions (session_count sm)
    then (sm, false)
    else (record sm { sessions = store s sm.sessions }, true)

abbrev pub get_session : String → SessionManager → Option Session
get_session id sm = load id sm.sessions

abbrev pub list_sessions : SessionManager → List Session
list_sessions sm = sm.sessions

-- Whether the session was there is the second component.
unfoldable pub delete : String → SessionManager → SessionManager × Bool
unfolding load
delete id sm = (
  record sm { sessions = keep (λ s. not (s.id == id)) sm.sessions },
  elim (load id sm.sessions) [ none ↦ false | some _ ↦ true ],
)

-- `now.After(s.ExpiresAt)`.
abbrev pub is_expired : ℕ → Session → Bool
is_expired now s = ltb s.expires_at now

unfoldable pub close_expired : ℕ → SessionManager → SessionManager × List Session
close_expired now sm = (
  record sm { sessions = keep (λ s. not (is_expired now s)) sm.sessions },
  keep (is_expired now) sm.sessions,
)
