-- ===== src/Dispatch/Store.antt =====
-- internal/dispatch/store.go: the tables of agents and of enrollment tokens. A statement takes the
-- tables and gives new ones or an error, and an error changes nothing. What the world decides in a
-- call of CheckIn is a record World: the readings of the clock, the statements that fail, and the
-- values of the generators. The columns id and token_hash are unique.
use subnetree.Prelude.{
  ℕ, String, Bool, false, ◌||◌, not, List, [], ◌∷◌, Option, none, some, ◌==◌, string_eq, leb, ltb,
  suc, if◌then◌else◌, Result, ok, err, keep,
}

pub record Agent : Type 0 where
  pub id : String
  pub hostname : String
  pub platform : String
  pub agent_version : String
  pub proto_version : ℕ
  pub device_id : String
  pub status : String
  pub last_check_in : Option ℕ
  pub enrolled_at : ℕ
  pub cert_serial : String
  pub cert_expires : Option ℕ
  pub config_json : String

-- The handler that creates tokens sees to it that max_uses is positive.
pub record EnrollmentToken : Type 0 where
  pub id : String
  pub token_hash : String
  pub description : String
  pub created_at : ℕ
  pub expires_at : Option ℕ
  pub used_at : Option ℕ
  pub agent_id : String
  pub max_uses : ℕ
  pub use_count : ℕ

pub record Store : Type 0 where
  pub agents : List Agent
  pub tokens : List EnrollmentToken

pub data DispatchError : Type 0 where
  statement_failed agent_not_found token_not_found token_expired : DispatchError
  token_exhausted csr_rejected agent_id_required certificate_mismatch : DispatchError

-- `clock 0` is read by ValidateEnrollmentToken, `clock 1` for the new agent, `clock 2` by
-- ConsumeEnrollmentToken and `clock 3` by UpdateCheckIn.
pub record World : Type 0 where
  pub clock : ℕ → ℕ
  pub uuid : String
  pub serial : ℕ
  pub read_fails : Bool
  pub upsert_fails : Bool
  pub consume_fails : Bool
  pub cert_fails : Bool
  pub check_in_fails : Bool

unfoldable pub upsert : Agent → List Agent → List Agent
upsert a [] = a ∷ []
upsert a (b ∷ bs) =
    if b.id == a.id then record a { enrolled_at = b.enrolled_at } ∷ bs else b ∷ upsert a bs

unfoldable pub upsert_agent : World → Agent → Store → Result DispatchError Store
upsert_agent w a st =
    if w.upsert_fails then err statement_failed else ok (record st { agents = upsert a st.agents })

abbrev pub agent_row : String → List Agent → Option Agent
agent_row id [] = none
agent_row id (a ∷ rows) = if a.id == id then some a else agent_row id rows

-- What GetAgent answers when its statement does not fail.
unfoldable pub get_agent : String → Store → Option Agent
get_agent id st = agent_row id st.agents

-- An UPDATE of the rows with an ID.
unfoldable pub update_row : String → (Agent → Agent) → List Agent → List Agent
update_row id edit [] = []
update_row id edit (a ∷ rows) = (if a.id == id then edit a else a) ∷ update_row id edit rows

-- The statement, and the test of RowsAffected.
unfoldable pub update_agent : Bool → String → (Agent → Agent) → Store → Result DispatchError Store
update_agent fails id edit st =
    if fails then err statement_failed else elim (agent_row id st.agents) [
      | none ↦ err agent_not_found
      | some a ↦ ok (record st { agents = update_row id edit st.agents })
    ]

unfoldable pub checked_in : ℕ → String → String → String → ℕ → Agent → Agent
checked_in now hostname platform version proto a = record a {
  hostname = hostname;
  platform = platform;
  agent_version = version;
  proto_version = proto;
  status = "connected";
  last_check_in = some now;
}

unfoldable pub update_check_in :
    World → String → String → String → String → ℕ → Store → Result DispatchError Store
update_check_in w id hostname platform version proto =
    update_agent w.check_in_fails id (checked_in (w.clock 3) hostname platform version proto)

unfoldable pub certified : String → ℕ → Agent → Agent
certified serial expires a = record a { cert_serial = serial; cert_expires = some expires }

unfoldable pub update_agent_cert : World → String → String → ℕ → Store → Result DispatchError Store
update_agent_cert w id serial expires = update_agent w.cert_fails id (certified serial expires)

unfoldable pub delete_agent : Bool → String → Store → Result DispatchError Store
delete_agent fails id st = if fails then err statement_failed else elim (agent_row id st.agents) [
  | none ↦ err agent_not_found
  | some a ↦ ok (record st { agents = keep (λ (b : Agent). not (b.id == id)) st.agents })
]

abbrev pub token_row : String → List EnrollmentToken → Option EnrollmentToken
token_row hash [] = none
token_row hash (t ∷ rows) = if t.token_hash == hash then some t else token_row hash rows

unfoldable pub has_token_id : String → List EnrollmentToken → Bool
has_token_id id [] = false
has_token_id id (t ∷ rows) = t.id == id || has_token_id id rows

unfoldable pub create_enrollment_token : Bool → EnrollmentToken → Store → Result DispatchError Store
create_enrollment_token fails t st =
    if fails || has_token_id t.id st.tokens
    then err statement_failed
    else elim (token_row t.token_hash st.tokens) [
      | none ↦ ok (record st { tokens = t ∷ st.tokens })
      | some other ↦ err statement_failed
    ]

unfoldable pub is_expired : ℕ → EnrollmentToken → Bool
is_expired now t = elim t.expires_at [ none ↦ false | some at ↦ ltb at now ]

unfoldable pub check_token : ℕ → EnrollmentToken → Result DispatchError EnrollmentToken
check_token now t =
    if is_expired now t
    then err token_expired
    else if leb t.max_uses t.use_count
    then err token_exhausted
    else ok t

unfoldable pub validate_enrollment_token :
    World → String → Store → Result DispatchError EnrollmentToken
validate_enrollment_token w hash st =
    if w.read_fails then err statement_failed else elim (token_row hash st.tokens) [
      | none ↦ err token_not_found
      | some t ↦ check_token (w.clock 0) t
    ]

unfoldable pub used : ℕ → String → EnrollmentToken → EnrollmentToken
used now agent_id t = record t {
  use_count = suc t.use_count;
  used_at = some now;
  agent_id = agent_id;
}

unfoldable pub update_token :
    String → (EnrollmentToken → EnrollmentToken) → List EnrollmentToken → List EnrollmentToken
update_token hash edit [] = []
update_token hash edit (t ∷ rows) =
    (if t.token_hash == hash then edit t else t) ∷ update_token hash edit rows

unfoldable pub consume_enrollment_token :
    World → String → String → Store → Result DispatchError Store
consume_enrollment_token w hash agent_id st =
    if w.consume_fails then err statement_failed else elim (token_row hash st.tokens) [
      | none ↦ err token_not_found
      | some t ↦ ok (record st { tokens = update_token hash (used (w.clock 2) agent_id) st.tokens })
    ]
