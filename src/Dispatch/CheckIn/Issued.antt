-- ===== src/Dispatch/CheckIn/Issued.antt =====
-- The certificates in the answers of CheckIn in internal/dispatch/grpc.go.
use subnetree.Prelude.{
  ℕ, String, true, false, Bool-cases, Result-cases, Option-cases, ◌≡◌, refl, ◌∙◌, inl, inr, ◌⊎◌,
  Option, none, some, ◌==◌, string_eq, ==_cases, List, [], ◌∷◌, ok, if◌then◌else◌,
}
use subnetree.Dispatch.Store.{World, validate_enrollment_token, upsert_agent}
use subnetree.Dispatch.Server.{
  Server, Authority, CheckInRequest, CheckInResponse, Certificates, State, VersionStatus, Signed,
  no_certificates,
}
use subnetree.Dispatch.Enrollment.{sign, certificates_of, new_agent, enroll_row, enroll_agent}
use subnetree.Dispatch.CheckIn.{mismatch, renew, respond, proceed}

-- The authority of the server signed the request of this call for `id`.
pub record IsSigned (server : Server) (w : World) (req : CheckInRequest) (id : String)
    (certs : Certificates) : Type 0 where
  pub authority : Authority
  pub signed : Signed
  pub present : server.authority ≡ some authority
  pub by_it : authority.sign_csr w.serial req.certificate_request id ≡ some signed
  pub der : certs.signed_certificate ≡ signed.cert_der
  pub ca : certs.ca_certificate ≡ authority.ca_cert_der

-- The agent that a call is about.
abbrev pub concerned : CheckInRequest → CheckInResponse → String
concerned req r = if r.assigned_agent_id == "" then req.agent_id else r.assigned_agent_id

abbrev pub AreIssued : Server → World → CheckInRequest → String → Certificates → Type 0
AreIssued server w req id certs = (certs ≡ no_certificates) ⊎ IsSigned server w req id certs

module _ (server : Server) (w : World) (client : Option String) (req : CheckInRequest) where
  sign-some :
      (csr : List ℕ) (id : String) (s : Signed)
      → sign server w csr id ≡ ok (some s)
      → (a : Authority) × (server.authority ≡ some a) × (a.sign_csr w.serial csr id ≡ some s)
  unfolding sign
  sign-some [] id s h = cc
  sign-some (b ∷ csr) id s h = elim (Option-cases server.authority) [
    | inl n ↦ cc (rw (n, sign) at h)
    | inr (a, p) ↦ elim (Option-cases (a.sign_csr w.serial (b ∷ csr) id)) [
      | inl n ↦ cc (rw (p, n, sign) at h)
      | inr (s', q) ↦ (a, p, q ∙ cc (rw (p, q, sign) at h))
    ]
  ]

  certificates_of-AreIssued :
      (id : String) (signed : Option Signed)
      → sign server w req.certificate_request id ≡ ok signed
      → AreIssued server w req id (certificates_of server signed)
  unfolding certificates_of
  certificates_of-AreIssued id none h = inl refl
  certificates_of-AreIssued id (some s) h =
      let (a, p, q) = sign-some req.certificate_request id s h in
      inr (record { authority = a; signed = s; present = p; by_it = q; der = refl; ca = rw p })

  renew-AreIssued :
      (id assigned : String) (certs : Certificates) (st : State)
      → AreIssued server w req id certs
      → AreIssued server w req id (renew server w req id assigned certs st).1
  unfolding renew
  renew-AreIssued id assigned certs st issued = elim (==_cases assigned "") [
    | inl (e, p) ↦ elim (Result-cases (sign server w req.certificate_request id)) [
      | inl (signed, q) ↦ renewed signed q e
      | inr (e', q) ↦ rw (renew, e, q) issued
    ]
    | inr (e, p) ↦ rw (renew, e) issued
  ]
    where
      renewed :
          (signed : Option Signed)
          → sign server w req.certificate_request id ≡ ok signed
          → (assigned == "") ≡ true
          → AreIssued server w req id (renew server w req id assigned certs st).1
      renewed none q e = rw (renew, e, q) issued
      renewed (some s) q e = rw (renew, e, q) (certificates_of-AreIssued id (some s) q)

  -- What a call that is answered says: for whom its certificates are, and whose name its client has.
  pub record IsAnswered (id assigned : String) (r : CheckInResponse) : Type 0 where
    pub gives : r.assigned_agent_id ≡ assigned
    pub issues : AreIssued server w req id r.certificates
    pub matches : mismatch client assigned id ≡ false

  pub proceed-IsAnswered :
      (status : VersionStatus) (id assigned : String) (certs : Certificates) (st st' : State)
      (r : CheckInResponse)
      → AreIssued server w req id certs
      → proceed server w client req status id assigned certs st ≡ (st', ok r)
      → IsAnswered id assigned r
  unfolding proceed respond
  proceed-IsAnswered status id assigned certs st st' r issued h =
      elim (Bool-cases (mismatch client assigned id)) [
        | inl differ ↦ cc (rw (proceed, differ) at h)
        | inr same ↦
            let (st1, certs') = renew server w req id assigned certs st in
            let e : respond server req status assigned certs' ≡ r = cc (rw (proceed, same) at h) in
            rw (← e) (record {
              gives = refl;
              issues = renew-AreIssued id assigned certs st issued;
              matches = same;
            })
      ]

  enroll_row-AreIssued :
      (signed : Option Signed) (st st' : State) (certs : Certificates)
      → sign server w req.certificate_request w.uuid ≡ ok signed
      → enroll_row server w req signed st ≡ (st', ok certs)
      → AreIssued server w req w.uuid certs
  unfolding enroll_row
  enroll_row-AreIssued signed st st' certs q h =
      elim (Result-cases (upsert_agent w (new_agent w req signed) st.store)) [
        | inl (rows, p) ↦
            let e : certificates_of server signed ≡ certs = cc (rw (p, enroll_row) at h) in
            rw (← e) (certificates_of-AreIssued w.uuid signed q)
        | inr (e', p) ↦ cc (rw (p, enroll_row) at h)
      ]

  pub enroll_agent-AreIssued :
      (st st' : State) (certs : Certificates)
      → enroll_agent server w req st ≡ (st', ok certs)
      → AreIssued server w req w.uuid certs
  unfolding enroll_agent
  enroll_agent-AreIssued st st' certs h =
      elim (Result-cases
        (validate_enrollment_token w (server.hash_token req.enroll_token) st.store)) [
          | inl (t, p) ↦ elim (Result-cases (sign server w req.certificate_request w.uuid)) [
            | inl (signed, q) ↦
                enroll_row-AreIssued signed st st' certs q (rw (enroll_agent, p, q) at h)
            | inr (e', q) ↦ cc (rw (enroll_agent, p, q) at h)
          ]
          | inr (e', p) ↦ cc (rw (enroll_agent, p) at h)
        ]
