-- ===== src/Dispatch/Tests.antt =====
-- A server with one token, an agent that enrolls with it and checks in, and the theorems at them.
use subnetree.Prelude.{
  ◌+◌, ◌<◌, String, true, false, ◌≡◌, ◌≢◌, refl, inr, none, some, [], ◌∷◌, Result, ok, err, ltb,
  if◌then◌else◌, ◌==◌, string_eq, pos, arith,
}
use text.Mathlib.TextEquality.{eq_iff}
use subnetree.Dispatch.Store.{
  Agent, EnrollmentToken, Store, World, DispatchError, token_not_found, token_expired, get_agent,
  upsert, upsert_agent, update_row, update_agent, checked_in, certified, update_check_in,
  update_agent_cert, has_token_id, create_enrollment_token, is_expired, check_token,
  validate_enrollment_token, used, update_token, consume_enrollment_token,
}
use subnetree.Dispatch.Server.{
  Server, Authority, CheckInRequest, CheckInResponse, State, VersionStatus, publish,
}
use subnetree.Dispatch.Versions.{
  check_proto_version, current_proto_version, is_rejected, check_agent_version, normalize_semver,
  merge_status, update_url,
}
use subnetree.Dispatch.Enrollment.{sign, certificates_of, new_agent, enroll_row, enroll_agent}
use subnetree.Dispatch.CheckIn.{
  mismatch, renew, respond, proceed, after_enrollment, identify, check_in,
}
use subnetree.Dispatch.CheckIn.Failures.{check_in-err}
use subnetree.Dispatch.CheckIn.Issued.{AreIssued, concerned}
use subnetree.Dispatch.CheckIn.Names.{check_in-AreIssued, check_in-sign_csr}
use subnetree.Dispatch.CheckIn.Enrolled.{check_in-check_in}
use subnetree.Dispatch.Tokens.{
  EnrollTokenRequest, EnrollTokenResponse, create_token, validate-create_token,
}
use subnetree.Dispatch.Uses.{Running, Reachable, start, next, issue, pass, create}
use subnetree.Dispatch.Uses.Limit.{Reachable-enrolled}

abbrev signer : Authority
signer = record {
  sign_csr = λ n csr id. some (record { cert_der = n ∷ csr; serial = "s1"; expires_at = 900 });
  ca_cert_der = 8 ∷ [];
}

abbrev server : Server
server = record {
  authority = some signer;
  has_bus = true;
  version = "1.2.0";
  hash_token = λ s. s;
  is_valid_semver = λ v. true;
  is_older = λ a b. false;
  split_at_slash = λ s. s ∷ [];
}

abbrev calm : World
calm = record {
  clock = λ n. 100 + n;
  uuid = "agent1";
  serial = 7;
  read_fails = false;
  upsert_fails = false;
  consume_fails = false;
  cert_fails = false;
  check_in_fails = false;
}

abbrev invitation : EnrollmentToken
invitation = record {
  id = "t1";
  token_hash = "secret";
  description = "";
  created_at = 50;
  expires_at = some 500;
  used_at = none;
  agent_id = "";
  max_uses = 1;
  use_count = 0;
}

abbrev invited : State
invited = record { store = record { agents = []; tokens = invitation ∷ [] }; events = [] }

abbrev nobody : State
nobody = record { store = record { agents = []; tokens = [] }; events = [] }

abbrev enrolling : CheckInRequest
enrolling = record {
  agent_id = "";
  enroll_token = "secret";
  hostname = "nas";
  platform = "linux/arm64";
  agent_version = "1.2.0";
  proto_version = 1;
  certificate_request = 5 ∷ [];
}

abbrev checking : CheckInRequest
checking = record enrolling { agent_id = "agent1"; enroll_token = "" }

abbrev answered : State × Result DispatchError CheckInResponse
answered = check_in server calm none enrolling invited

abbrev greeting : CheckInResponse
greeting = record {
  acknowledged = true;
  version_status = VersionStatus.version_ok;
  assigned_agent_id = "agent1";
  certificates = record { signed_certificate = 7 ∷ 5 ∷ []; ca_certificate = 8 ∷ [] };
  update_url = "";
}

greeted : check_in server calm none enrolling invited ≡ (answered.0, ok greeting)
unfolding check_in identify after_enrollment proceed respond renew mismatch enroll_agent enroll_row
    new_agent sign certificates_of check_proto_version current_proto_version is_rejected
    check_agent_version normalize_semver merge_status update_url publish validate_enrollment_token
    check_token is_expired consume_enrollment_token update_token used upsert_agent upsert
    update_check_in update_agent update_row checked_in update_agent_cert certified
greeted = refl

abbrev refusal : State × Result DispatchError CheckInResponse
refusal = check_in server calm none enrolling nobody

refused : check_in server calm none enrolling nobody ≡ (refusal.0, err token_not_found)
unfolding check_in identify after_enrollment proceed respond renew mismatch enroll_agent enroll_row
    new_agent sign certificates_of check_proto_version current_proto_version is_rejected
    check_agent_version normalize_semver merge_status update_url publish validate_enrollment_token
    check_token is_expired consume_enrollment_token update_token used upsert_agent upsert
    update_check_in update_agent update_row checked_in update_agent_cert certified
refused = refl

agent1-ne-empty : ◌≢◌ {A = String} "agent1" ""
agent1-ne-empty e = ground (arith, (eq_iff "agent1" "").1 e)

version_1 : is_rejected (check_proto_version 1) ≡ false
unfolding is_rejected check_proto_version current_proto_version
version_1 = refl

check_in-err_example : nobody ≡ refusal.0
check_in-err_example =
    check_in-err server calm none enrolling nobody refusal.0 token_not_found agent1-ne-empty refused

check_in-AreIssued_example :
    AreIssued server calm enrolling (concerned enrolling greeting) greeting.certificates
    × ((name : String) → none ≡ some name → greeting.assigned_agent_id ≡ "" → name ≡ "")
check_in-AreIssued_example =
    check_in-AreIssued server calm none enrolling invited answered.0 greeting agent1-ne-empty
      greeted refl

check_in-sign_csr_example :
    (st' : State) × (r : CheckInResponse) × (check_in server calm none checking nobody
      ≡ (st', ok r))
    × (r.certificates.signed_certificate ≡ 7 ∷ 5 ∷ [])
check_in-sign_csr_example =
    check_in-sign_csr server calm none checking nobody signer
      (record { cert_der = 7 ∷ 5 ∷ []; serial = "s1"; expires_at = 900 }) 5 [] refl agent1-ne-empty
      version_1 refl refl refl

check_in-check_in_example :
    (st'' : State) × (r' : CheckInResponse) × (a : Agent) × (check_in server calm
        (some "agent1")
        checking
        answered.0
      ≡ (st'', ok r'))
    × (r'.acknowledged ≡ true)
    × (get_agent "agent1" st''.store ≡ some a)
    × (a.hostname ≡ "nas")
    × (a.platform ≡ "linux/arm64")
    × (a.status ≡ "connected")
    × (a.last_check_in ≡ some 103)
check_in-check_in_example =
    check_in-check_in server calm calm none (some "agent1") enrolling checking invited answered.0
      greeting greeted agent1-ne-empty refl version_1 (inr refl) refl

abbrev offer : EnrollTokenRequest
offer = record { description = ""; max_uses = pos 0; expires_in = "" }

abbrev receipt : EnrollTokenResponse
receipt = record { id = "t1"; token = "secret"; expires_at = 500; max_uses = 1 }

issued :
    create_token (λ s. s) (λ s. none) (pos 450) 50 "secret" "t1" false offer nobody.store
    ≡ ok (invited.store, receipt)
unfolding create_token create_enrollment_token has_token_id
issued = refl

validate-create_token_example :
    (t : EnrollmentToken) × (validate_enrollment_token calm "secret" invited.store
      ≡ (if ltb 500 100 then err token_expired else ok t))
    × (t.use_count ≡ 0)
    × (t.max_uses ≡ 1)
    × (0 < 1)
validate-create_token_example =
    validate-create_token (λ s. s) (λ s. none) (pos 450) 50 "secret" "t1" false offer nobody.store
      invited.store receipt calm issued refl

abbrev row : Agent
row = record {
  id = "agent1";
  hostname = "nas";
  platform = "linux/arm64";
  agent_version = "1.2.0";
  proto_version = 1;
  device_id = "";
  status = "connected";
  last_check_in = some 101;
  enrolled_at = 101;
  cert_serial = "";
  cert_expires = none;
  config_json = "{}";
}

abbrev filled : Store
filled = record { agents = row ∷ []; tokens = invitation ∷ [] }

abbrev after_enrolling : Running
after_enrolling = record {
  store = filled;
  passed = [];
  created = "secret" ∷ [];
  enrolled = λ g. if "secret" == g then 1 else 0;
}

offered : create_enrollment_token false invitation nobody.store ≡ ok invited.store
unfolding create_enrollment_token has_token_id
offered = refl

valid : validate_enrollment_token calm "secret" invited.store ≡ ok invitation
unfolding validate_enrollment_token check_token is_expired
valid = refl

stored : upsert_agent calm row invited.store ≡ ok filled
unfolding upsert_agent upsert
stored = refl

reached : Reachable 1 after_enrolling
reached =
    next
      (next (next start (issue false invitation invited.store refl (omega arith) offered))
        (pass calm "secret" invitation valid (omega arith)))
      (create calm row filled "secret" [] [] stored)

Reachable-enrolled_example : after_enrolling.enrolled "secret" < 1 + 1
Reachable-enrolled_example = Reachable-enrolled 1 after_enrolling "secret" invitation reached refl
