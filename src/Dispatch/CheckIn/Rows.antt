-- ===== src/Dispatch/CheckIn/Rows.antt =====
-- The row of an agent in CheckIn of internal/dispatch/grpc.go.
use subnetree.Prelude.{
  String, Bool, true, false, Bool-cases, Result-cases, ◌≡◌, refl, ap, inl, inr, Option, none, some,
  ◌==◌, string_eq, ==_cases, List, [], ◌∷◌, ok, arith,
}
use text.Mathlib.TextEquality.{eq_iff}
use subnetree.Dispatch.Store.{
  Agent, Store, World, agent_row, upsert, update_row, update_agent, update_check_in, checked_in,
  update_agent_cert, certified,
}
use subnetree.Dispatch.Server.{
  Server, CheckInRequest, CheckInResponse, Certificates, State, VersionStatus, Signed, or_logged,
  publish, Event, agent_check_in,
}
use subnetree.Dispatch.Enrollment.{sign}
use subnetree.Dispatch.CheckIn.{mismatch, renew, respond, proceed}

abbrev pub IsKnown : String → List Agent → Type 0
IsKnown id rows = (a : Agent) × (agent_row id rows ≡ some a)

pub upsert-IsKnown : (a : Agent) (rows : List Agent) → IsKnown a.id (upsert a rows)
unfolding upsert
upsert-IsKnown a [] = (a, ground (arith, eq_iff a.id a.id))
upsert-IsKnown a (b ∷ rows) = elim (==_cases b.id a.id) [
  | inl (e, p) ↦ (record a { enrolled_at = b.enrolled_at }, rw e (ground (arith, eq_iff a.id a.id)))
  | inr (e, p) ↦ let (c, q) = upsert-IsKnown a rows in (c, rw e (rw e q))
]

agent_row-update_row :
    (id : String) (edit : Agent → Agent) (rows : List Agent) (a : Agent)
    → ((b : Agent) → (edit b).id ≡ b.id)
    → agent_row id rows ≡ some a
    → agent_row id (update_row id edit rows) ≡ some (edit a)
unfolding update_row
agent_row-update_row id edit [] a same h = cc
agent_row-update_row id edit (b ∷ rows) a same h = elim (==_cases b.id id) [
  | inl (e, p) ↦ ground (arith, e, h, same b, eq_iff (edit b).id id, p, ap edit)
  | inr (e, p) ↦ ground (arith, e, h, agent_row-update_row id edit rows a same)
]

update_agent-row :
    (fails : Bool) (id : String) (edit : Agent → Agent) (st : Store) (a : Agent)
    → ((b : Agent) → (edit b).id ≡ b.id)
    → fails ≡ false
    → agent_row id st.agents ≡ some a
    → (st' : Store) × (update_agent fails id edit st ≡ ok st')
      × (agent_row id st'.agents ≡ some (edit a))
unfolding update_agent
update_agent-row fails id edit st a same works h = (
  record st { agents = update_row id edit st.agents },
  rw (works, h) refl,
  agent_row-update_row id edit st.agents a same h,
)

or_logged-IsKnown :
    (fails : Bool) (id : String) (edit : Agent → Agent) (st : State)
    → ((b : Agent) → (edit b).id ≡ b.id)
    → IsKnown id st.store.agents
    → IsKnown id (or_logged st (update_agent fails id edit st.store)).store.agents
or_logged-IsKnown true id edit st same known = unfold update_agent in known
or_logged-IsKnown false id edit st same (a, h) =
    let (st', e, row) = update_agent-row false id edit st.store a same refl h in rw e (edit a, row)

module _ (server : Server) (w : World) (client : Option String) (req : CheckInRequest) where
  pub publish-agents : (e : Event) (st : State) → (publish server e st).store ≡ st.store
  unfolding publish
  publish-agents e st = ground arith

  pub renew-IsKnown :
      (id assigned : String) (certs : Certificates) (st : State)
      → IsKnown id st.store.agents
      → IsKnown id (renew server w req id assigned certs st).0.store.agents
  unfolding renew update_agent_cert
  renew-IsKnown id assigned certs st known = elim (Bool-cases (assigned == "")) [
    | inl e ↦ elim (Result-cases (sign server w req.certificate_request id)) [
      | inl (signed, q) ↦ renewed signed q e
      | inr (e', q) ↦ rw (renew, e, q) known
    ]
    | inr e ↦ rw (renew, e) known
  ]
    where
      renewed :
          (signed : Option Signed)
          → sign server w req.certificate_request id ≡ ok signed
          → (assigned == "") ≡ true
          → IsKnown id (renew server w req id assigned certs st).0.store.agents
      renewed none q e = rw (renew, e, q) known
      renewed (some s) q e =
          rw (renew, e, q)
            (or_logged-IsKnown w.cert_fails id (certified s.serial s.expires_at) st
              (λ b. unfold certified in refl) known)

  abbrev pub seen : Agent → Agent
  seen = checked_in (w.clock 3) req.hostname req.platform req.agent_version req.proto_version

  abbrev pub behind : String → String → Certificates → State → State
  behind id assigned certs st = (renew server w req id assigned certs st).0

  -- The row behind a check-in.
  pub proceed-row :
      (status : VersionStatus) (id assigned : String) (certs : Certificates) (st : State)
      (a : Agent)
      → mismatch client assigned id ≡ false
      → w.check_in_fails ≡ false
      → agent_row id (behind id assigned certs st).store.agents ≡ some a
      → (st' : State) × (r : CheckInResponse) × (proceed server w client req status id assigned
            certs st
          ≡ (st', ok r))
        × (agent_row id st'.store.agents ≡ some (seen a))
        × (r.acknowledged ≡ true)
  unfolding proceed update_check_in respond
  proceed-row status id assigned certs st a same works h =
      let mid = behind id assigned certs st in
      let (store, e, row) =
        update_agent-row w.check_in_fails id seen mid.store a (λ b. unfold checked_in in refl) works
          h in
      let event = agent_check_in id req.hostname req.platform in
      (
        publish server event (record mid { store = store }),
        respond server req status assigned (renew server w req id assigned certs st).1,
        rw (proceed, same, e) refl,
        rw (publish-agents event (record mid { store = store })) row,
        refl,
      )

  pub proceed-IsKnown :
      (status : VersionStatus) (id assigned : String) (certs : Certificates) (st st' : State)
      (r : CheckInResponse)
      → IsKnown id st.store.agents
      → proceed server w client req status id assigned certs st ≡ (st', ok r)
      → IsKnown id st'.store.agents × (r.assigned_agent_id ≡ assigned)
  unfolding proceed update_check_in respond
  proceed-IsKnown status id assigned certs st st' r known h =
      elim (Bool-cases (mismatch client assigned id)) [
        | inl differ ↦ cc (rw (proceed, differ) at h)
        | inr same ↦
            let mid = behind id assigned certs st in
            let event = agent_check_in id req.hostname req.platform in
            let kept =
              or_logged-IsKnown w.check_in_fails id seen mid (λ b. unfold checked_in in refl)
                (renew-IsKnown id assigned certs st known) in
            let now = or_logged mid (update_agent w.check_in_fails id seen mid.store) in
            let p : publish server event now ≡ st' = cc (rw (proceed, same) at h) in
            let q : respond server req status assigned (renew server w req id assigned certs st).1
                ≡ r =
              cc (rw (proceed, same) at h) in
            (rw (← p, publish-agents event now) kept, rw (← q) refl)
      ]
