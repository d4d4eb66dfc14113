-- ===== src/Gateway/Sessions/Table.antt =====
-- The table of sessions as its callers see it.
use subnetree.Prelude.{
  ℕ, ◌+◌, ◌≤◌, ◌≡◌, refl, ◌∙◌, String, Bool, not, List, [], ◌∷◌, Option, none, some, ◌==◌,
  string_eq, leb, ltb, if◌then◌else◌, keep, length, arith,
}
use subnetree.Gateway.Sessions.{
  Session, SessionManager, store, load, session_count, create, get_session, delete, is_expired,
  close_expired,
}

-- How many entries have an ID.
abbrev pub entries : String → List Session → ℕ
entries id [] = 0
entries id (s ∷ ss) = (if s.id == id then 1 else 0) + entries id ss

load-store :
    (id : String) (s : Session) (ss : List Session)
    → load id (store s ss) ≡ (if s.id == id then some s else load id ss)
unfolding load store
load-store id s [] = refl
load-store id s (t ∷ ts) = ground (
  arith,
  load-store id s ts,
  string_eq.same_iff t.id s.id,
  string_eq.same_iff t.id id,
  string_eq.same_iff s.id id,
)

pub length-store-le : (s : Session) (ss : List Session) → length (store s ss) ≤ length ss + 1
unfolding store
length-store-le s [] = omega arith
length-store-le s (t ∷ ts) = ground (arith, length-store-le s ts)

-- Create refuses exactly when the table has reached its limit and then changes nothing. Otherwise the
-- session is found under its ID and all others as before. The limit is kept.
pub create-get_session :
    (s : Session) (sm : SessionManager) (id : String)
    → ((create s sm).1 ≡ ltb (session_count sm) sm.max_sessions)
      × (get_session id (create s sm).0 ≡ (
          if (create s sm).1
          then (if s.id == id then some s else get_session id sm)
          else get_session id sm))
      × (session_count sm ≤ sm.max_sessions → session_count (create s sm).0 ≤ sm.max_sessions)
unfolding create
create-get_session s sm id = (
  ground arith,
  ground (arith, load-store id s sm.sessions),
  λ h. ground (arith, h, length-store-le s sm.sessions),
)

-- Whatever else is kept, the sessions of one ID are out.
load-keep-other :
    (gone id : String) (ss : List Session)
    → load id (keep (λ s. not (s.id == gone)) ss) ≡ (if gone == id then none else load id ss)
unfolding load
load-keep-other gone id [] = ground arith
load-keep-other gone id (s ∷ ss) = ground (
  arith,
  load-keep-other gone id ss,
  string_eq.same_iff s.id gone,
  string_eq.same_iff gone id,
  string_eq.same_iff s.id id,
)

load-keep-absent :
    (test : Session → Bool) (id : String) (ss : List Session)
    → entries id ss ≡ 0
    → load id (keep test ss) ≡ none
unfolding load
load-keep-absent test id [] h = refl
load-keep-absent test id (s ∷ ss) h = ground (arith, h, load-keep-absent test id ss)

load-keep :
    (test : Session → Bool) (id : String) (ss : List Session)
    → entries id ss ≤ 1
    → load id (keep test ss)
      ≡ elim (load id ss) [ none ↦ none | some s ↦ if test s then some s else none ]
unfolding load
load-keep test id [] h = refl
load-keep test id (s ∷ ss) h = ground (arith, h, load-keep test id ss, load-keep-absent test id ss)

entries-store :
    (id : String) (s : Session) (ss : List Session)
    → entries id (store s ss)
      ≡ (if s.id == id then (if leb 1 (entries id ss) then entries id ss else 1) else entries id ss)
unfolding store
entries-store id s [] = ground arith
entries-store id s (t ∷ ts) = ground (
  arith,
  entries-store id s ts,
  string_eq.same_iff t.id s.id,
  string_eq.same_iff t.id id,
  string_eq.same_iff s.id id,
)

entries-keep-le :
    (test : Session → Bool) (id : String) (ss : List Session)
    → entries id (keep test ss) ≤ entries id ss
entries-keep-le test id [] = omega arith
entries-keep-le test id (s ∷ ss) = ground (arith, entries-keep-le test id ss)

-- Create, Delete and CloseExpired keep one session for each ID.
pub create-entries :
    (now : ℕ) (s : Session) (gone id : String) (sm : SessionManager)
    → entries id sm.sessions ≤ 1
    → (entries id (create s sm).0.sessions ≤ 1)
      × (entries id (delete gone sm).0.sessions ≤ 1)
      × (entries id (close_expired now sm).0.sessions ≤ 1)
unfolding create delete close_expired
create-entries now s gone id sm h = (
  ground (arith, h, entries-store id s sm.sessions),
  omega (arith, h, entries-keep-le (λ s. not (s.id == gone)) id sm.sessions),
  omega (arith, h, entries-keep-le (λ s. not (is_expired now s)) id sm.sessions),
)

-- Where every ID stands once: CloseExpired returns every expired session and leaves all others to be found as before. Delete
-- makes its ID absent, leaves all others, and says whether there was a session.
pub close_expired-get_session :
    (now : ℕ) (gone id : String) (sm : SessionManager)
    → ((other : String) → entries other sm.sessions ≤ 1)
    → (get_session id (close_expired now sm).0 ≡ elim (get_session id sm) [
      | none ↦ none
      | some s ↦ if ltb s.expires_at now then none else some s
    ])
      × (session_count (close_expired now sm).0 + length (close_expired now sm).1
          ≡ session_count sm)
      × (get_session id (delete gone sm).0 ≡ (if gone == id then none else get_session id sm))
unfolding close_expired delete
close_expired-get_session now gone id sm once = (
  load-keep (λ s. not (is_expired now s)) id sm.sessions (once id) ∙ cases (get_session id sm),
  split sm.sessions,
  load-keep-other gone id sm.sessions,
)
  where
    cases :
        (o : Option Session)
        → elim o [ none ↦ none | some s ↦ if not (is_expired now s) then some s else none ]
          ≡ elim o [ none ↦ none | some s ↦ if ltb s.expires_at now then none else some s ]
    cases none = refl
    cases (some s) = ground arith

    split :
        (ss : List Session)
        → length (keep (λ s. not (is_expired now s)) ss) + length (keep (is_expired now) ss)
          ≡ length ss
    split [] = refl
    split (s ∷ ss) = ground (arith, split ss)
