-- ===== src/Dispatch/Uses.antt =====
-- The uses of enrollment tokens (internal/dispatch/store.go) while calls of enrollAgent
-- (internal/dispatch/grpc.go) run side by side: a token is validated, the agent is stored and the
-- token is consumed in three statements, and nothing holds a lock in between.
pub mod Rows
pub mod Limit
use subnetree.Prelude.{
  ℕ, suc, ◌+◌, ◌≤◌, ◌<◌, String, Bool, Bool-cases, Option-cases, ◌≡◌, refl, sym, ap, subst, ◌∙◌,
  inl, inr, none, some, ◌==◌, string_eq, ==_cases, List, [], ◌∷◌, ◌++◌, length, count, count-append,
  Result, ok, err, if◌then◌else◌, ◌||◌, arith,
}
use text.Mathlib.TextEquality.{eq_iff}
use subnetree.Dispatch.Store.{
  Agent, EnrollmentToken, Store, World, DispatchError, upsert_agent, token_row, has_token_id,
  create_enrollment_token, check_token, validate_enrollment_token, update_token, used,
  consume_enrollment_token,
}

-- The tables; the tokens of the calls that have passed the validation, and of those that have stored
-- their agent and have not consumed the token yet; and how many agents each token has brought.
pub record Running : Type 0 where
  pub store : Store
  pub passed : List String
  pub created : List String
  pub enrolled : String → ℕ

-- One statement of some call, where at most `callers` calls are under way. No statement that consumes
-- a token fails: CheckIn would go on as if it had not.
pub data Step (callers : ℕ) : Running → Running → Type 0 where
  pass :
      {r : Running} (w : World) (h : String) (t : EnrollmentToken)
      → validate_enrollment_token w h r.store ≡ ok t
      → length r.passed + length r.created < callers
      → Step callers r (record r { passed = h ∷ r.passed })
  give_up :
      {st : Store} {created : List String} {enrolled : String → ℕ} (h : String)
      (before behind : List String)
      → Step callers
          (record {
            store = st;
            passed = before ++ (h ∷ behind);
            created = created;
            enrolled = enrolled;
          })
          (record { store = st; passed = before ++ behind; created = created; enrolled = enrolled })
  create :
      {st : Store} {created : List String} {enrolled : String → ℕ} (w : World) (a : Agent)
      (st' : Store) (h : String) (before behind : List String)
      → upsert_agent w a st ≡ ok st'
      → Step callers
          (record {
            store = st;
            passed = before ++ (h ∷ behind);
            created = created;
            enrolled = enrolled;
          })
          (record {
            store = st';
            passed = before ++ behind;
            created = h ∷ created;
            enrolled = λ g. if h == g then suc (enrolled g) else enrolled g;
          })
  consume :
      {st : Store} {passed : List String} {enrolled : String → ℕ} (w : World) (id : String)
      (st' : Store) (h : String) (before behind : List String)
      → consume_enrollment_token w h id st ≡ ok st'
      → Step callers
          (record {
            store = st;
            passed = passed;
            created = before ++ (h ∷ behind);
            enrolled = enrolled;
          })
          (record { store = st'; passed = passed; created = before ++ behind; enrolled = enrolled })
  issue :
      {r : Running} (fails : Bool) (t : EnrollmentToken) (st' : Store)
      → t.use_count ≡ 0
      → 0 < t.max_uses
      → create_enrollment_token fails t r.store ≡ ok st'
      → Step callers r (record r { store = st' })
  change_agents :
      {r : Running} (rows : List Agent)
      → Step callers r (record r { store = record { agents = rows; tokens = r.store.tokens } })

pub data Reachable (callers : ℕ) : Running → Type 0 where
  start : Reachable callers (record {
    store = record { agents = []; tokens = [] };
    passed = [];
    created = [];
    enrolled = λ h. 0;
  })
  next : {r r' : Running} → Reachable callers r → Step callers r r' → Reachable callers r'
