-- ===== src/Dispatch/Tokens.antt =====
-- handleCreateEnrollmentToken of internal/dispatch/handlers.go behind the decoding of its request, and
-- the validation of the token that it makes. time.ParseDuration and SHA-256 are parameters, and so
-- are the values of the generators and the time of the call.
use subnetree.Prelude.{
  ℕ, zero, suc, ◌+◌, ◌-◌, ◌<◌, String, Bool, false, Bool-cases, Result-cases, Option-cases, ◌≡◌,
  refl, subst, ◌∙◌, inl, inr, Option, none, some, ◌∷◌, ◌==◌, string_eq, ltb, ◌||◌, if◌then◌else◌,
  Result, ok, err, ℤ, pos, negsuc, arith,
}
use text.Mathlib.TextEquality.{eq_iff}
use subnetree.Dispatch.Store.{
  EnrollmentToken, Store, World, token_expired, create_enrollment_token, has_token_id, token_row,
  is_expired, check_token, validate_enrollment_token,
}

pub record EnrollTokenRequest : Type 0 where
  pub description : String
  pub max_uses : ℤ
  pub expires_in : String

pub record EnrollTokenResponse : Type 0 where
  pub id : String
  pub token : String
  pub expires_at : ℕ
  pub max_uses : ℕ

pub data HandlerError : Type 0 where
  invalid_duration creation_failed : HandlerError

-- time.Time.Add: a time before the origin is not reached.
add_duration : ℕ → ℤ → ℕ
add_duration now (pos d) = now + d
add_duration now (negsuc d) = now - suc d

-- A limit that is not positive is one use.
max_uses_of : ℤ → ℕ
max_uses_of (pos zero) = 1
max_uses_of (pos (suc n)) = suc n
max_uses_of (negsuc n) = 1

max_uses_of-pos : (n : ℤ) → 0 < max_uses_of n
unfolding max_uses_of
max_uses_of-pos (pos zero) = omega arith
max_uses_of-pos (pos (suc n)) = omega arith
max_uses_of-pos (negsuc n) = omega arith

module _ (hash_token : String → String) (parse_duration : String → Option ℤ)
    (default_expiry : ℤ) where
  expiry : EnrollTokenRequest → Option ℤ
  expiry req = if req.expires_in == "" then some default_expiry else parse_duration req.expires_in

  new_token : ℕ → String → String → EnrollTokenRequest → ℤ → EnrollmentToken
  new_token now raw id req d = record {
    id = id;
    token_hash = hash_token raw;
    description = req.description;
    created_at = now;
    expires_at = some (add_duration now d);
    used_at = none;
    agent_id = "";
    max_uses = max_uses_of req.max_uses;
    use_count = 0;
  }

  answer_of : ℕ → String → String → EnrollTokenRequest → ℤ → Store → Store × EnrollTokenResponse
  answer_of now raw id req d st = (
    st,
    record {
      id = id;
      token = raw;
      expires_at = add_duration now d;
      max_uses = max_uses_of req.max_uses;
    },
  )

  unfoldable pub create_token :
      ℕ
      → String
      → String
      → Bool
      → EnrollTokenRequest
      → Store
      → Result HandlerError (Store × EnrollTokenResponse)
  unfolding expiry new_token answer_of add_duration max_uses_of
  create_token now raw id fails req st = elim (expiry req) [
    | none ↦ err invalid_duration
    | some d ↦
        let t = new_token now raw id req d in
        elim (create_enrollment_token fails t st) [
          | err e ↦ err creation_failed
          | ok st' ↦ ok (answer_of now raw id req d st')
        ]
  ]

  create-token_row :
      (fails : Bool) (t : EnrollmentToken) (st st' : Store)
      → create_enrollment_token fails t st ≡ ok st'
      → token_row t.token_hash st'.tokens ≡ some t
  unfolding create_enrollment_token
  create-token_row fails t st st' e = elim (Bool-cases (fails || has_token_id t.id st.tokens)) [
    | inl failed ↦ cc (rw (create_enrollment_token, failed) at e)
    | inr fine ↦ elim (Option-cases (token_row t.token_hash st.tokens)) [
      | inl n ↦
          let q : record st { tokens = t ∷ st.tokens } ≡ st' =
            cc (rw (create_enrollment_token, fine, n) at e) in
          rw (← q) (ground (arith, eq_iff t.token_hash t.token_hash))
      | inr (u, p) ↦ cc (rw (create_enrollment_token, fine, p) at e)
    ]
  ]

  validate-row :
      (w : World) (hash : String) (st : Store) (t : EnrollmentToken)
      → w.read_fails ≡ false
      → token_row hash st.tokens ≡ some t
      → validate_enrollment_token w hash st ≡ check_token (w.clock 0) t
  unfolding validate_enrollment_token
  validate-row w hash st t works row = ground (arith, works, row)

  check_token-new_token :
      (time now : ℕ) (raw id : String) (req : EnrollTokenRequest) (d : ℤ)
      → check_token time (new_token now raw id req d) ≡ (
          if ltb (add_duration now d) time
          then err token_expired
          else ok (new_token now raw id req d))
  unfolding check_token is_expired new_token
  check_token-new_token time now raw id req d = ground (arith, max_uses_of-pos req.max_uses)

  made :
      (now : ℕ) (raw id : String) (req : EnrollTokenRequest) (d : ℤ) (s st' : Store)
      (answer : EnrollTokenResponse) (w : World)
      → answer_of now raw id req d s ≡ (st', answer)
      → w.read_fails ≡ false
      → token_row (hash_token raw) s.tokens ≡ some (new_token now raw id req d)
      → (t : EnrollmentToken) × (validate_enrollment_token w (hash_token answer.token) st'
          ≡ (if ltb answer.expires_at (w.clock 0) then err token_expired else ok t))
        × (t.use_count ≡ 0)
        × (t.max_uses ≡ answer.max_uses)
        × (0 < answer.max_uses)
  unfolding answer_of new_token
  made now raw id req d s st' answer w e works row =
      let t = new_token now raw id req d in
      subst
        (λ (x : Store × EnrollTokenResponse).
          (t : EnrollmentToken) × (validate_enrollment_token w (hash_token x.1.token) x.0
            ≡ (if ltb x.1.expires_at (w.clock 0) then err token_expired else ok t))
          × (t.use_count ≡ 0)
          × (t.max_uses ≡ x.1.max_uses)
          × (0 < x.1.max_uses))
        e
        (
          t,
          validate-row w (hash_token raw) s t works row
              ∙ check_token-new_token (w.clock 0) now raw id req d,
          refl,
          refl,
          max_uses_of-pos req.max_uses,
        )

  -- A token that the handler answers is valid for CheckIn up to the time that the answer names, with no
  -- use counted and the limit that the answer names, which is positive; after that time it is expired.
  -- This is for a look-up that does not fail.
  pub validate-create_token :
      (now : ℕ) (raw id : String) (fails : Bool) (req : EnrollTokenRequest) (st st' : Store)
      (answer : EnrollTokenResponse) (w : World)
      → create_token now raw id fails req st ≡ ok (st', answer)
      → w.read_fails ≡ false
      → (t : EnrollmentToken) × (validate_enrollment_token w (hash_token answer.token) st'
          ≡ (if ltb answer.expires_at (w.clock 0) then err token_expired else ok t))
        × (t.use_count ≡ 0)
        × (t.max_uses ≡ answer.max_uses)
        × (0 < answer.max_uses)
  unfolding create_token new_token
  validate-create_token now raw id fails req st st' answer w h works =
      elim (Option-cases (expiry req)) [
        | inl n ↦ cc (rw (create_token, n) at h)
        | inr (d, p) ↦
            let t = new_token now raw id req d in
            elim (Result-cases (create_enrollment_token fails t st)) [
              | inl (s, q) ↦
                  let e : answer_of now raw id req d s ≡ (st', answer) =
                    cc (rw (create_token, p, q) at h) in
                  let row = create-token_row fails t st s q in
                  made now raw id req d s st' answer w e works row
              | inr (x, q) ↦ cc (rw (create_token, p, q) at h)
            ]
      ]
