-- ===== src/Dispatch/CheckIn/Enrolled.antt =====
-- An agent that CheckIn of internal/dispatch/grpc.go enrolled, and its next check-in.
use subnetree.Prelude.{
  String, true, false, Bool-cases, Result-cases, Option-cases, ◌≡◌, ◌≢◌, refl, sym, ap, subst, inl,
  inr, ◌⊎◌, Option, none, some, ◌==◌, string_eq, Result, ok, err, arith,
}
use text.Mathlib.TextEquality.{eq_iff}
use subnetree.Dispatch.Store.{
  Agent, Store, World, DispatchError, get_agent, upsert, upsert_agent, checked_in,
  validate_enrollment_token, consume_enrollment_token, token_row,
}
use subnetree.Dispatch.Server.{
  Server, CheckInRequest, CheckInResponse, Certificates, State, VersionStatus, Signed,
  no_certificates, or_logged, publish, agent_enrolled,
}
use subnetree.Dispatch.Versions.{check_proto_version, is_rejected}
use subnetree.Dispatch.Enrollment.{sign, new_agent, enroll_row, enroll_agent}
use subnetree.Dispatch.CheckIn.{mismatch, after_enrollment, identify, check_in, rejection}
use subnetree.Dispatch.CheckIn.Issued.{proceed-IsAnswered}
use subnetree.Dispatch.CheckIn.Rows.{
  IsKnown, upsert-IsKnown, publish-agents, renew-IsKnown, seen, proceed-row, proceed-IsKnown,
}

module _ (server : Server) (w : World) (client : Option String) (req : CheckInRequest) where
  upsert_agent-IsKnown :
      (a : Agent) (st rows : Store) → upsert_agent w a st ≡ ok rows → IsKnown a.id rows.agents
  unfolding upsert_agent
  upsert_agent-IsKnown a st rows h = elim (Bool-cases w.upsert_fails) [
    | inl failed ↦ cc (rw (upsert_agent, failed) at h)
    | inr fine ↦
        let e : record st { agents = upsert a st.agents } ≡ rows =
          cc (rw (upsert_agent, fine) at h) in
        subst (λ (s : Store). IsKnown a.id s.agents) e (upsert-IsKnown a st.agents)
  ]

  consume-agents :
      (hash id : String) (st : State)
      → (or_logged st (consume_enrollment_token w hash id st.store)).store.agents ≡ st.store.agents
  unfolding consume_enrollment_token
  consume-agents hash id st = elim (Bool-cases w.consume_fails) [
    | inl failed ↦ rw failed refl
    | inr fine ↦ elim (Option-cases (token_row hash st.store.tokens)) [
      | inl n ↦ rw (fine, n) refl
      | inr (t, p) ↦ rw (fine, p) refl
    ]
  ]

  enroll_row-IsKnown :
      (signed : Option Signed) (st st' : State) (certs : Certificates)
      → enroll_row server w req signed st ≡ (st', ok certs)
      → IsKnown w.uuid st'.store.agents
  unfolding enroll_row new_agent
  enroll_row-IsKnown signed st st' certs h =
      elim (Result-cases (upsert_agent w (new_agent w req signed) st.store)) [
        | inl (rows, p) ↦
            let hash = server.hash_token req.enroll_token in
            let created : State = record st { store = rows } in
            let consumed = or_logged created (consume_enrollment_token w hash w.uuid rows) in
            let event = agent_enrolled w.uuid req.hostname in
            let e : publish server event consumed ≡ st' = cc (rw (p, enroll_row) at h) in
            let known = upsert_agent-IsKnown (new_agent w req signed) st.store rows p in
            rw
              (
                ← e,
                publish-agents server w client req event consumed,
                consume-agents hash w.uuid created,
              )
              known
        | inr (e', p) ↦ cc (rw (p, enroll_row) at h)
      ]

  enroll_agent-IsKnown :
      (st st' : State) (certs : Certificates)
      → enroll_agent server w req st ≡ (st', ok certs)
      → IsKnown w.uuid st'.store.agents
  unfolding enroll_agent
  enroll_agent-IsKnown st st' certs h =
      elim (Result-cases
        (validate_enrollment_token w (server.hash_token req.enroll_token) st.store)) [
          | inl (t, p) ↦ elim (Result-cases (sign server w req.certificate_request w.uuid)) [
            | inl (signed, q) ↦
                enroll_row-IsKnown signed st st' certs (rw (enroll_agent, p, q) at h)
            | inr (e', q) ↦ cc (rw (enroll_agent, p, q) at h)
          ]
          | inr (e', p) ↦ cc (rw (enroll_agent, p) at h)
        ]

  after_enrollment-IsKnown :
      (status : VersionStatus) (st' : State) (r : CheckInResponse)
      (result : State × Result DispatchError Certificates)
      → ((st' : State) (certs : Certificates)
          → result ≡ (st', ok certs)
          → IsKnown w.uuid st'.store.agents)
      → after_enrollment server w client req status result ≡ (st', ok r)
      → IsKnown w.uuid st'.store.agents × (r.assigned_agent_id ≡ w.uuid)
  unfolding after_enrollment
  after_enrollment-IsKnown status st' r (s, err e') known h = cc
  after_enrollment-IsKnown status st' r (s, ok certs) known h =
      proceed-IsKnown server w client req status w.uuid w.uuid certs s st' r (known s certs refl) h

  -- An ID that CheckIn assigned is a row.
  check_in-IsKnown :
      (st st' : State) (r : CheckInResponse)
      → check_in server w client req st ≡ (st', ok r)
      → r.assigned_agent_id ≢ ""
      → IsKnown r.assigned_agent_id st'.store.agents
  unfolding check_in identify
  check_in-IsKnown st st' r h given =
      let status = check_proto_version req.proto_version in
      elim (Bool-cases (is_rejected status)) [
        | inl old ↦
            let e : rejection ≡ r = cc (rw (check_in, old) at h) in
            absurd (given (sym (ap (λ (x : CheckInResponse). x.assigned_agent_id) e)))
        | inr fine ↦ elim (Bool-cases (req.agent_id == "")) [
          | inl new ↦ elim (Bool-cases (req.enroll_token == "")) [
            | inl bare ↦ cc (rw (check_in, fine, identify, new, bare) at h)
            | inr token ↦
                let (known, p) =
                  after_enrollment-IsKnown status st' r (enroll_agent server w req st)
                    (enroll_agent-IsKnown st) (rw (check_in, fine, identify, new, token) at h) in
                rw p known
          ]
          | inr known ↦
              let a =
                proceed-IsAnswered server w client req status req.agent_id "" no_certificates st st'
                  r (inl refl) (rw (check_in, fine, identify, known) at h) in
              absurd (given a.gives)
        ]
      ]

-- An agent that CheckIn enrolled is known to the next call: a call with the assigned ID, of an accepted
-- version and from a client without a certificate or with one of that ID, is acknowledged, and the
-- row of the agent then has the host name and the platform of that call, the status connected and the
-- time of that call as its last check-in, if the statement that records the check-in does not fail.
pub check_in-check_in :
    (server : Server) (w w' : World) (client client' : Option String) (req req' : CheckInRequest)
    (st st' : State) (r : CheckInResponse)
    → check_in server w client req st ≡ (st', ok r)
    → r.assigned_agent_id ≢ ""
    → req'.agent_id ≡ r.assigned_agent_id
    → is_rejected (check_proto_version req'.proto_version) ≡ false
    → (client' ≡ none) ⊎ (client' ≡ some r.assigned_agent_id)
    → w'.check_in_fails ≡ false
    → (st'' : State) × (r' : CheckInResponse) × (a : Agent) × (check_in server w' client' req' st'
        ≡ (st'', ok r'))
      × (r'.acknowledged ≡ true)
      × (get_agent req'.agent_id st''.store ≡ some a)
      × (a.hostname ≡ req'.hostname)
      × (a.platform ≡ req'.platform)
      × (a.status ≡ "connected")
      × (a.last_check_in ≡ some (w'.clock 3))
unfolding check_in identify get_agent checked_in mismatch
check_in-check_in server w w' client client' req req' st st' r h given id fine allowed works =
    let known = check_in-IsKnown server w client req st st' r h given in
    let status = check_proto_version req'.proto_version in
    let (b, row) =
      renew-IsKnown server w' client' req' req'.agent_id "" no_certificates st'
        (subst (λ (i : String). IsKnown i st'.store.agents) (sym id) known) in
    let some_id : (req'.agent_id == "") ≡ false = ground (arith, id, eq_iff req'.agent_id "") in
    let same : mismatch client' "" req'.agent_id ≡ false = elim allowed [
      | inl p ↦ rw p refl
      | inr p ↦ rw p (ground (arith, id, eq_iff r.assigned_agent_id req'.agent_id))
    ] in
    let (st'', r', e, found, acknowledged) =
      proceed-row server w' client' req' status req'.agent_id "" no_certificates st' b same works
        row in
    (
      st'',
      r',
      seen server w' client' req' b,
      rw (fine, identify, some_id) e,
      acknowledged,
      found,
      refl,
      refl,
      refl,
      refl,
    )
