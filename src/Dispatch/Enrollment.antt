-- ===== src/Dispatch/Enrollment.antt =====
-- internal/dispatch/grpc.go: enrollAgent.
use subnetree.Prelude.{
  ℕ, String, List, [], ◌∷◌, Option, none, some, string_eq, nat_eq, Result, ok, err,
}
use subnetree.Dispatch.Store.{
  Agent, World, DispatchError, csr_rejected, upsert_agent, validate_enrollment_token,
  consume_enrollment_token,
}
use subnetree.Dispatch.Server.{
  Signed, Server, CheckInRequest, Certificates, agent_enrolled, State, no_certificates, publish,
  or_logged,
}

-- SignCSR, if a request was sent and the server has an authority.
unfoldable pub sign : Server → World → List ℕ → String → Result DispatchError (Option Signed)
sign server w [] id = ok none
sign server w (b ∷ csr) id = elim server.authority [
  | none ↦ ok none
  | some a ↦ elim (a.sign_csr w.serial (b ∷ csr) id) [
    | none ↦ err csr_rejected
    | some s ↦ ok (some s)
  ]
]

unfoldable pub certificates_of : Server → Option Signed → Certificates
certificates_of server none = no_certificates
certificates_of server (some s) = record {
  signed_certificate = s.cert_der;
  ca_certificate = elim server.authority [ none ↦ [] | some a ↦ a.ca_cert_der ];
}

unfoldable pub new_agent : World → CheckInRequest → Option Signed → Agent
new_agent w req signed = record {
  id = w.uuid;
  hostname = req.hostname;
  platform = req.platform;
  agent_version = req.agent_version;
  proto_version = req.proto_version;
  device_id = "";
  status = "connected";
  last_check_in = some (w.clock 1);
  enrolled_at = w.clock 1;
  cert_serial = elim signed [ none ↦ "" | some s ↦ s.serial ];
  cert_expires = elim signed [ none ↦ none | some s ↦ some s.expires_at ];
  config_json = "{}";
}

-- enrollAgent from UpsertAgent on.
unfoldable pub enroll_row :
    Server
    → World
    → CheckInRequest
    → Option Signed
    → State
    → State × Result DispatchError Certificates
enroll_row server w req signed st = elim (upsert_agent w (new_agent w req signed) st.store) [
  | err e ↦ (st, err e)
  | ok rows ↦
      let created = record st { store = rows } in
      let consumed =
        or_logged created
          (consume_enrollment_token w (server.hash_token req.enroll_token) w.uuid rows) in
      (
        publish server (agent_enrolled w.uuid req.hostname) consumed,
        ok (certificates_of server signed),
      )
]

unfoldable pub enroll_agent :
    Server → World → CheckInRequest → State → State × Result DispatchError Certificates
enroll_agent server w req st =
    elim (validate_enrollment_token w (server.hash_token req.enroll_token) st.store) [
      | err e ↦ (st, err e)
      | ok t ↦ elim (sign server w req.certificate_request w.uuid) [
        | err e ↦ (st, err e)
        | ok signed ↦ enroll_row server w req signed st
      ]
    ]
