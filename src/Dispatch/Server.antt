-- ===== src/Dispatch/Server.antt =====
-- internal/dispatch/grpc.go: a call of CheckIn and its answer, the state, and what the server is given.
-- Package semver, the certificate authority, SHA-256 and strings.SplitN are parameters; the metrics
-- that an agent sends are floats that only the payload of the event repeats, and are left out.
use subnetree.Prelude.{
  ℕ, String, Bool, List, [], ◌∷◌, Option, string_eq, nat_eq, if◌then◌else◌, Result, ok, err,
}
use subnetree.Dispatch.Store.{Store, DispatchError}

pub record Signed : Type 0 where
  pub cert_der : List ℕ
  pub serial : String
  pub expires_at : ℕ

-- The certificate authority: SignCSR at a random serial number, and its own certificate.
pub record Authority : Type 0 where
  pub sign_csr : ℕ → List ℕ → String → Option Signed
  pub ca_cert_der : List ℕ

pub record Server : Type 0 where
  pub authority : Option Authority
  pub has_bus : Bool
  pub version : String
  pub hash_token : String → String
  pub is_valid_semver : String → Bool
  pub is_older : String → String → Bool
  pub split_at_slash : String → List String

pub record CheckInRequest : Type 0 where
  pub agent_id : String
  pub enroll_token : String
  pub hostname : String
  pub platform : String
  pub agent_version : String
  pub proto_version : ℕ
  pub certificate_request : List ℕ

pub data VersionStatus : Type 0 where
  version_ok version_deprecated version_rejected version_update_available : VersionStatus

pub record Certificates : Type 0 where
  pub signed_certificate : List ℕ
  pub ca_certificate : List ℕ

pub record CheckInResponse : Type 0 where
  pub acknowledged : Bool
  pub version_status : VersionStatus
  pub assigned_agent_id : String
  pub certificates : Certificates
  pub update_url : String

pub data Event : Type 0 where
  agent_enrolled : (agent_id hostname : String) → Event
  agent_check_in : (agent_id hostname platform : String) → Event

-- The tables, and what was published.
pub record State : Type 0 where
  pub store : Store
  pub events : List Event

abbrev pub no_certificates : Certificates
no_certificates = record { signed_certificate = []; ca_certificate = [] }

unfoldable pub publish : Server → Event → State → State
publish server e st = if server.has_bus then record st { events = e ∷ st.events } else st

-- A statement whose error is only logged.
abbrev pub or_logged : State → Result DispatchError Store → State
or_logged st (ok store) = record st { store = store }
or_logged st (err e) = st
