-- ===== src/Dispatch/Uses/Rows.antt =====
-- What the statements of internal/dispatch/store.go do to the row of a token.
use subnetree.Prelude.{
  ℕ, ◌<◌, String, Bool, Bool-cases, Option-cases, ◌≡◌, refl, sym, ap, inl, inr, none, some, ◌==◌,
  string_eq, List, [], ◌∷◌, Result, ok, err, if◌then◌else◌, ◌||◌, arith,
}
use text.Mathlib.TextEquality.{eq_iff}
use subnetree.Dispatch.Store.{
  Agent, EnrollmentToken, Store, World, DispatchError, upsert_agent, token_row, has_token_id,
  create_enrollment_token, check_token, validate_enrollment_token, update_token, used,
  consume_enrollment_token,
}

pub token_row-update_token :
    (g h : String) (now : ℕ) (id : String) (rows : List EnrollmentToken)
    → token_row g (update_token h (used now id) rows) ≡ (
        if h == g
        then elim (token_row g rows) [ none ↦ none | some t ↦ some (used now id t) ]
        else token_row g rows)
unfolding update_token used
token_row-update_token g h now id [] = ground arith
token_row-update_token g h now id (t ∷ rows) = ground (
  arith,
  token_row-update_token g h now id rows,
  eq_iff t.token_hash h,
  eq_iff h g,
  eq_iff t.token_hash g,
)

pub validate-ok :
    (w : World) (h : String) (st : Store) (t : EnrollmentToken)
    → validate_enrollment_token w h st ≡ ok t
    → (token_row h st.tokens ≡ some t) × (t.use_count < t.max_uses)
unfolding validate_enrollment_token check_token
validate-ok w h st t e = elim (Bool-cases w.read_fails) [
  | inl failed ↦ cc (rw (validate_enrollment_token, failed) at e)
  | inr fine ↦ elim (Option-cases (token_row h st.tokens)) [
    | inl n ↦ cc (rw (validate_enrollment_token, fine, n) at e)
    | inr (u, p) ↦
        let q : check_token (w.clock 0) u ≡ ok t = rw (validate_enrollment_token, fine, p) at e in
        ground (arith, p, q)
  ]
]

pub upsert_agent-tokens :
    (w : World) (a : Agent) (st st' : Store) → upsert_agent w a st ≡ ok st' → st'.tokens ≡ st.tokens
unfolding upsert_agent
upsert_agent-tokens w a st st' e = elim (Bool-cases w.upsert_fails) [
  | inl failed ↦ cc (rw (upsert_agent, failed) at e)
  | inr fine ↦
      sym (ap (λ (r : Result DispatchError Store). tokens_of r) (rw (upsert_agent, fine) at e))
]
  where
    tokens_of : Result DispatchError Store → List EnrollmentToken
    tokens_of (ok s) = s.tokens
    tokens_of (err x) = []

pub consume-row :
    (w : World) (h id : String) (st st' : Store) (g : String)
    → consume_enrollment_token w h id st ≡ ok st'
    → token_row g st'.tokens ≡ (
        if h == g
        then elim (token_row g st.tokens) [ none ↦ none | some t ↦ some (used (w.clock 2) id t) ]
        else token_row g st.tokens)
unfolding consume_enrollment_token
consume-row w h id st st' g e = elim (Bool-cases w.consume_fails) [
  | inl failed ↦ cc (rw (consume_enrollment_token, failed) at e)
  | inr fine ↦ elim (Option-cases (token_row h st.tokens)) [
    | inl n ↦ cc (rw (consume_enrollment_token, fine, n) at e)
    | inr (t, p) ↦
        let q : record st { tokens = update_token h (used (w.clock 2) id) st.tokens } ≡ st' =
          cc (rw (consume_enrollment_token, fine, p) at e) in
        rw (← q) (token_row-update_token g h (w.clock 2) id st.tokens)
  ]
]

pub create-row :
    (fails : Bool) (t : EnrollmentToken) (st st' : Store) (g : String)
    → create_enrollment_token fails t st ≡ ok st'
    → (token_row t.token_hash st.tokens ≡ none)
      × (token_row g st'.tokens ≡ (if t.token_hash == g then some t else token_row g st.tokens))
unfolding create_enrollment_token
create-row fails t st st' g e = elim (Bool-cases (fails || has_token_id t.id st.tokens)) [
  | inl failed ↦ cc (rw (create_enrollment_token, failed) at e)
  | inr fine ↦ elim (Option-cases (token_row t.token_hash st.tokens)) [
    | inl n ↦
        let q : record st { tokens = t ∷ st.tokens } ≡ st' =
          cc (rw (create_enrollment_token, fine, n) at e) in
        (n, rw (← q) refl)
    | inr (u, p) ↦ cc (rw (create_enrollment_token, fine, p) at e)
  ]
]
