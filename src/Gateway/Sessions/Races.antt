-- ===== src/Gateway/Sessions/Races.antt =====
-- internal/gateway/sessions.go: Create counts the sessions by a Range over the sync.Map and stores in a
-- later step, and nothing holds a lock in between. A Range is no snapshot: it visits a key that is there
-- from its beginning to its end, and may visit or miss a key that is stored or deleted meanwhile. New
-- sessions stand behind the older ones, so the ones that are there since a call began to count are the
-- first ones of the table, and the call keeps their number. CloseExpired is a Range whose only effect is
-- one deletion by key after the other, each of them a step `drop`.
pub mod Calls
pub mod Limit
use subnetree.Prelude.{
  ℕ, zero, suc, ◌+◌, ◌≤◌, ◌<◌, String, List, [], ◌∷◌, ◌++◌, map, ◌==◌, string_eq, length,
  if◌then◌else◌,
}
use subnetree.Gateway.Sessions.{
  Session, SessionManager, new_session_manager, store, session_count, delete,
}

-- A call of Create: it counts, with so many sessions that are there since it began; or it has passed the
-- test and has not stored yet.
pub data Call : Type 0 where
  counting : Session → ℕ → Call
  passed : Session → Call

-- The table, and the calls of Create that are under way, those that began last first.
pub record Running : Type 0 where
  pub manager : SessionManager
  pub calls : List Call

-- How many of the first `n` sessions stay when an ID is deleted.
abbrev pub staying : String → ℕ → List Session → ℕ
staying id zero ss = 0
staying id (suc n) [] = 0
staying id (suc n) (s ∷ ss) = let rest = staying id n ss in if s.id == id then rest else rest + 1

abbrev pub after_delete : String → List Session → Call → Call
after_delete id ss (counting s n) = counting s (staying id n ss)
after_delete id ss (passed s) = passed s

-- One step of some goroutine, where at most `callers` calls of Create are under way.
pub data Step (callers : ℕ) : Running → Running → Type 0 where
  begin :
      {r : Running} (s : Session)
      → length r.calls < callers
      → Step callers r (record r { calls = counting s (session_count r.manager) ∷ r.calls })
  pass :
      {sm : SessionManager} (s : Session) (n count : ℕ) (before behind : List Call)
      → n ≤ count
      → count < sm.max_sessions
      → Step callers
          (record { manager = sm; calls = before ++ (counting s n ∷ behind) })
          (record { manager = sm; calls = before ++ (passed s ∷ behind) })
  refuse :
      {sm : SessionManager} (s : Session) (n count : ℕ) (before behind : List Call)
      → n ≤ count
      → sm.max_sessions ≤ count
      → Step callers
          (record { manager = sm; calls = before ++ (counting s n ∷ behind) })
          (record { manager = sm; calls = before ++ behind })
  put :
      {sm : SessionManager} (s : Session) (before behind : List Call)
      → Step callers
          (record { manager = sm; calls = before ++ (passed s ∷ behind) })
          (record {
            manager = record sm { sessions = store s sm.sessions };
            calls = before ++ behind;
          })
  drop :
      {r : Running} (id : String)
      → Step callers r (record {
        manager = (delete id r.manager).0;
        calls = map (after_delete id r.manager.sessions) r.calls;
      })

pub data Reachable (limit callers : ℕ) : Running → Type 0 where
  start : Reachable limit callers (record { manager = new_session_manager limit; calls = [] })
  next :
      {r r' : Running} → Reachable limit callers r → Step callers r r' → Reachable limit callers r'
