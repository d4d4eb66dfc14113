-- ===== src/Dispatch/CheckIn/Names.antt =====
-- For whom CheckIn in internal/dispatch/grpc.go issues certificates.
use subnetree.Prelude.{
  ℕ, String, true, false, Bool-cases, ◌≡◌, ◌≢◌, refl, sym, subst, ap, ◌∙◌, inl, inr, Option, none,
  some, ◌==◌, string_eq, List, ◌∷◌, Result, ok, err, arith,
}
use text.Mathlib.TextEquality.{eq_iff}
use subnetree.Dispatch.Store.{World, DispatchError}
use subnetree.Dispatch.Server.{
  Server, Authority, CheckInRequest, CheckInResponse, Certificates, State, VersionStatus, Signed,
  no_certificates,
}
use subnetree.Dispatch.Versions.{check_proto_version, is_rejected}
use subnetree.Dispatch.Enrollment.{sign, certificates_of, enroll_agent}
use subnetree.Dispatch.CheckIn.{
  mismatch, renew, respond, proceed, after_enrollment, identify, check_in, rejection,
}
use subnetree.Dispatch.CheckIn.Issued.{
  concerned, AreIssued, IsAnswered, proceed-IsAnswered, enroll_agent-AreIssued,
}

module _ (server : Server) (w : World) (client : Option String) (req : CheckInRequest) where
  after_enrollment-IsAnswered :
      (status : VersionStatus) (st' : State) (r : CheckInResponse)
      (result : State × Result DispatchError Certificates)
      → ((st' : State) (certs : Certificates)
          → result ≡ (st', ok certs)
          → AreIssued server w req w.uuid certs)
      → after_enrollment server w client req status result ≡ (st', ok r)
      → IsAnswered server w client req w.uuid w.uuid r
  unfolding after_enrollment
  after_enrollment-IsAnswered status st' r (s, err e') issued h = cc
  after_enrollment-IsAnswered status st' r (s, ok certs) issued h =
      proceed-IsAnswered server w client req status w.uuid w.uuid certs s st' r
        (issued s certs refl) h

  own-name : (name id : String) → mismatch (some name) "" id ≡ false → name ≡ id
  unfolding mismatch
  own-name name id h = ground (arith, h, eq_iff name id)

  -- A call that CheckIn answers and acknowledges issues no certificate, or the one that the authority
  -- signed for the agent of the call: the ID that the call assigned, or the ID in the request if it
  -- assigned none. In the second case a client with a certificate has the name of that ID. This holds
  -- if the generator of IDs gives one that is not empty.
  pub check_in-AreIssued :
      (st st' : State) (r : CheckInResponse)
      → w.uuid ≢ ""
      → check_in server w client req st ≡ (st', ok r)
      → r.acknowledged ≡ true
      → AreIssued server w req (concerned req r) r.certificates
        × ((name : String) → client ≡ some name → r.assigned_agent_id ≡ "" → name ≡ req.agent_id)
  unfolding check_in identify
  check_in-AreIssued st st' r named h acknowledged =
      elim (Bool-cases (is_rejected (check_proto_version req.proto_version))) [
        | inl old ↦
            let e : rejection ≡ r = cc (rw (check_in, old) at h) in
            ground (arith, ap (λ (x : CheckInResponse). x.acknowledged) e)
        | inr fine ↦ elim (Bool-cases (req.agent_id == "")) [
          | inl new ↦ elim (Bool-cases (req.enroll_token == "")) [
            | inl bare ↦ cc (rw (check_in, fine, identify, new, bare) at h)
            | inr token ↦
                let a =
                  after_enrollment-IsAnswered (check_proto_version req.proto_version) st' r
                    (enroll_agent server w req st) (enroll_agent-AreIssued server w client req st)
                    (rw (check_in, fine, identify, new, token) at h) in
                let c : concerned req r ≡ w.uuid = ground (
                  arith,
                  a.gives,
                  eq_iff r.assigned_agent_id "",
                  ap (λ (x : String). x == "") a.gives,
                  eq_iff w.uuid "",
                ) in
                (
                  subst (λ (id : String). AreIssued server w req id r.certificates) (sym c)
                      a.issues,
                  λ name has none_given. absurd (named (sym a.gives ∙ none_given)),
                )
          ]
          | inr known ↦
              let a =
                proceed-IsAnswered server w client req (check_proto_version req.proto_version)
                  req.agent_id "" no_certificates st st' r (inl refl)
                  (rw (check_in, fine, identify, known) at h) in
              let c : concerned req r ≡ req.agent_id =
                ground (arith, a.gives, eq_iff r.assigned_agent_id "") in
              (
                subst (λ (id : String). AreIssued server w req id r.certificates) (sym c) a.issues,
                λ name has none_given. own-name name req.agent_id (
                    subst (λ (c : Option String). mismatch c "" req.agent_id ≡ false) has
                      a.matches),
              )
        ]
      ]

  pub proceed-ok :
      (status : VersionStatus) (id assigned : String) (certs : Certificates) (st : State)
      → mismatch client assigned id ≡ false
      → (st' : State) × (proceed server w client req status id assigned certs st ≡ (
        st',
        ok (respond server req status assigned (renew server w req id assigned certs st).1),
      ))
  unfolding proceed
  proceed-ok status id assigned certs st same =
      ((proceed server w client req status id assigned certs st).0, rw (proceed, same) refl)

  -- CheckIn gives a client without a certificate the certificate of any agent whose ID it sends: the
  -- tables are not asked, and the client need not have enrolled. This is so for each accepted
  -- protocol version and each request that the authority signs.
  pub check_in-sign_csr :
      (st : State) (a : Authority) (s : Signed) (b : ℕ) (csr : List ℕ)
      → client ≡ none
      → req.agent_id ≢ ""
      → is_rejected (check_proto_version req.proto_version) ≡ false
      → req.certificate_request ≡ b ∷ csr
      → server.authority ≡ some a
      → a.sign_csr w.serial (b ∷ csr) req.agent_id ≡ some s
      → (st' : State) × (r : CheckInResponse) × (check_in server w client req st ≡ (st', ok r))
        × (r.certificates.signed_certificate ≡ s.cert_der)
  unfolding check_in identify sign renew mismatch respond certificates_of
  check_in-sign_csr st a s b csr anonymous named fine sent has signs =
      let status = check_proto_version req.proto_version in
      let known : (req.agent_id == "") ≡ false = ground (arith, eq_iff req.agent_id "") in
      let signed : sign server w req.certificate_request req.agent_id ≡ ok (some s) =
        rw (sent, sign, has, signs) refl in
      let renewed : (renew server w req req.agent_id "" no_certificates st).1
          ≡ certificates_of server (some s) =
        rw (renew, signed) refl in
      let (st', e) =
        proceed-ok status req.agent_id "" no_certificates st (rw (anonymous, mismatch) refl) in
      (
        st',
        respond server req status "" (renew server w req req.agent_id "" no_certificates st).1,
        rw (fine, identify, known) e,
        rw (respond, renewed, certificates_of) refl,
      )
