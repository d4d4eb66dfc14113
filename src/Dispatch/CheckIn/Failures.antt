-- ===== src/Dispatch/CheckIn/Failures.antt =====
-- A call of CheckIn in internal/dispatch/grpc.go that fails.
use subnetree.Prelude.{
  String, true, false, Bool-cases, Result-cases, ◌≡◌, ◌≢◌, refl, inl, inr, Option, ◌==◌, string_eq,
  Result, ok, err, arith,
}
use text.Mathlib.TextEquality.{eq_iff}
use subnetree.Dispatch.Store.{World, DispatchError, validate_enrollment_token, upsert_agent}
use subnetree.Dispatch.Server.{
  Server, CheckInRequest, Certificates, State, VersionStatus, Signed, no_certificates,
}
use subnetree.Dispatch.Versions.{check_proto_version, is_rejected}
use subnetree.Dispatch.Enrollment.{sign, new_agent, enroll_row, enroll_agent}
use subnetree.Dispatch.CheckIn.{mismatch, proceed, after_enrollment, identify, check_in}

module _ (server : Server) (w : World) (client : Option String) (req : CheckInRequest) where
  enroll_row-err :
      (signed : Option Signed) (st st' : State) (e : DispatchError)
      → enroll_row server w req signed st ≡ (st', err e)
      → st ≡ st'
  unfolding enroll_row
  enroll_row-err signed st st' e h =
      elim (Result-cases (upsert_agent w (new_agent w req signed) st.store)) [
        | inl (rows, p) ↦ cc (rw (p, enroll_row) at h)
        | inr (e', p) ↦ cc (rw (p, enroll_row) at h)
      ]

  enroll_agent-err :
      (st st' : State) (e : DispatchError) → enroll_agent server w req st ≡ (st', err e) → st ≡ st'
  unfolding enroll_agent
  enroll_agent-err st st' e h =
      elim (Result-cases
        (validate_enrollment_token w (server.hash_token req.enroll_token) st.store)) [
          | inl (t, p) ↦ elim (Result-cases (sign server w req.certificate_request w.uuid)) [
            | inl (signed, q) ↦ enroll_row-err signed st st' e (rw (enroll_agent, p, q) at h)
            | inr (e', q) ↦ cc (rw (enroll_agent, p, q) at h)
          ]
          | inr (e', p) ↦ cc (rw (enroll_agent, p) at h)
        ]

  proceed-err :
      (status : VersionStatus) (id assigned : String) (certs : Certificates) (st st' : State)
      (e : DispatchError)
      → proceed server w client req status id assigned certs st ≡ (st', err e)
      → (st ≡ st') × (mismatch client assigned id ≡ true)
  unfolding proceed
  proceed-err status id assigned certs st st' e h =
      elim (Bool-cases (mismatch client assigned id)) [
        | inl differ ↦ (cc (rw (proceed, differ) at h), differ)
        | inr same ↦ cc (rw (proceed, same) at h)
      ]

  -- A client that was just given an ID is not asked for its name.
  pub mismatch-assigned :
      (assigned id : String) → assigned ≢ "" → mismatch client assigned id ≡ false
  unfolding mismatch
  mismatch-assigned assigned id h = ground (arith, eq_iff assigned "")

  after_enrollment-err :
      (status : VersionStatus) (st st' : State) (e : DispatchError)
      (result : State × Result DispatchError Certificates)
      → w.uuid ≢ ""
      → ((st' : State) (e : DispatchError) → result ≡ (st', err e) → st ≡ st')
      → after_enrollment server w client req status result ≡ (st', err e)
      → st ≡ st'
  unfolding after_enrollment
  after_enrollment-err status st st' e (s, err e') named unchanged h = cc (unchanged s e' refl)
  after_enrollment-err status st st' e (s, ok certs) named unchanged h =
      let (same, differ) = proceed-err status w.uuid w.uuid certs s st' e h in
      cc (mismatch-assigned w.uuid w.uuid named)

  identify-err :
      (status : VersionStatus) (st st' : State) (e : DispatchError)
      → w.uuid ≢ ""
      → identify server w client req status st ≡ (st', err e)
      → st ≡ st'
  unfolding identify
  identify-err status st st' e named h = elim (Bool-cases (req.agent_id == "")) [
    | inl new ↦ elim (Bool-cases (req.enroll_token == "")) [
      | inl bare ↦ cc (rw (identify, new, bare) at h)
      | inr token ↦
          after_enrollment-err status st st' e (enroll_agent server w req st) named
            (enroll_agent-err st) (rw (identify, new, token) at h)
    ]
    | inr known ↦
        (proceed-err status req.agent_id "" no_certificates st st' e (rw (identify, known) at h)).0
  ]

  -- A call of CheckIn that returns an error has changed no row and published nothing, if the
  -- generator of IDs gives one that is not empty.
  pub check_in-err :
      (st st' : State) (e : DispatchError)
      → w.uuid ≢ ""
      → check_in server w client req st ≡ (st', err e)
      → st ≡ st'
  unfolding check_in
  check_in-err st st' e named h =
      elim (Bool-cases (is_rejected (check_proto_version req.proto_version))) [
        | inl old ↦ cc (rw (check_in, old) at h)
        | inr fine ↦
            identify-err (check_proto_version req.proto_version) st st' e named
              (rw (check_in, fine) at h)
      ]
