-- ===== src/Dispatch/CheckIn.antt =====
-- internal/dispatch/grpc.go: CheckIn.
pub mod Failures
pub mod Issued
pub mod Names
pub mod Rows
pub mod Enrolled
use subnetree.Prelude.{
  ℕ, ◌-◌, String, Bool, true, false, not, ◌&&◌, ◌||◌, List, [], ◌∷◌, Option, none, some, ◌==◌,
  string_eq, nat_eq, ltb, if◌then◌else◌, Result, ok, err,
}
use subnetree.Dispatch.Store.{
  Agent, Store, World, DispatchError, csr_rejected, agent_id_required, certificate_mismatch,
  upsert_agent, update_check_in, update_agent_cert, validate_enrollment_token,
  consume_enrollment_token,
}
use subnetree.Dispatch.Server.{
  Signed, Authority, Server, CheckInRequest, VersionStatus, version_ok, version_deprecated,
  version_rejected, version_update_available, Certificates, CheckInResponse, Event, agent_enrolled,
  agent_check_in, State, no_certificates, publish, or_logged,
}
use subnetree.Dispatch.Versions.{
  check_proto_version, check_agent_version, merge_status, update_url, is_rejected,
}
use subnetree.Dispatch.Enrollment.{sign, certificates_of, enroll_agent}

-- Step 2b: the name in the client's certificate, where it has one.
unfoldable pub mismatch : Option String → String → String → Bool
mismatch none assigned id = false
mismatch (some name) assigned id = assigned == "" && not (name == id)

-- What step 3 gives: certificates, and the state behind UpdateAgentCert.
unfoldable pub renew :
    Server → World → CheckInRequest → String → String → Certificates → State → State × Certificates
renew server w req id assigned certs st =
    if not (assigned == "") then (st, certs) else elim (sign server w req.certificate_request id) [
      | err e ↦ (st, certs)
      | ok signed ↦ elim signed [
        | none ↦ (st, certs)
        | some s ↦ (
          or_logged st (update_agent_cert w id s.serial s.expires_at st.store),
          certificates_of server (some s),
        )
      ]
    ]

unfoldable pub respond :
    Server → CheckInRequest → VersionStatus → String → Certificates → CheckInResponse
respond server req status assigned certs =
    let agent_status = check_agent_version server req.agent_version in
    record {
      acknowledged = true;
      version_status = merge_status status agent_status;
      assigned_agent_id = assigned;
      certificates = certs;
      update_url = update_url server agent_status req.platform;
    }

-- CheckIn from step 2b on.
unfoldable pub proceed :
    Server
    → World
    → Option String
    → CheckInRequest
    → VersionStatus
    → String
    → String
    → Certificates
    → State
    → State × Result DispatchError CheckInResponse
proceed server w client req status id assigned certs st =
    if mismatch client assigned id
    then (st, err certificate_mismatch)
    else let (renewed, certs') = renew server w req id assigned certs st in
      let seen = or_logged renewed (
        update_check_in w id req.hostname req.platform req.agent_version req.proto_version
          renewed.store) in
      (
        publish server (agent_check_in id req.hostname req.platform) seen,
        ok (respond server req status assigned certs'),
      )

-- What follows an enrollment.
unfoldable pub after_enrollment :
    Server
    → World
    → Option String
    → CheckInRequest
    → VersionStatus
    → State × Result DispatchError Certificates
    → State × Result DispatchError CheckInResponse
after_enrollment server w client req status (st, err e) = (st, err e)
after_enrollment server w client req status (st, ok certs) =
    proceed server w client req status w.uuid w.uuid certs st

-- Step 2 and what follows.
unfoldable pub identify :
    Server
    → World
    → Option String
    → CheckInRequest
    → VersionStatus
    → State
    → State × Result DispatchError CheckInResponse
identify server w client req status st =
    if req.agent_id == "" && not (req.enroll_token == "")
    then after_enrollment server w client req status (enroll_agent server w req st)
    else if req.agent_id == ""
    then (st, err agent_id_required)
    else proceed server w client req status req.agent_id "" no_certificates st

abbrev pub rejection : CheckInResponse
rejection = record {
  acknowledged = false;
  version_status = version_rejected;
  assigned_agent_id = "";
  certificates = no_certificates;
  update_url = "";
}

unfoldable pub check_in :
    Server
    → World
    → Option String
    → CheckInRequest
    → State
    → State × Result DispatchError CheckInResponse
check_in server w client req st =
    let status = check_proto_version req.proto_version in
    if is_rejected status then (st, ok rejection) else identify server w client req status st
