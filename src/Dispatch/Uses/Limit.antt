-- ===== src/Dispatch/Uses/Limit.antt =====
-- How many agents a token brings: enrollAgent of internal/dispatch/grpc.go.
use subnetree.Prelude.{
  ℕ, ◌+◌, ◌≤◌, ◌<◌, String, Option-cases, ◌≡◌, refl, sym, ap, subst, ◌∙◌, inl, inr, none, some,
  string_eq, ==_cases, List, [], ◌∷◌, length, count, count-append, ok, arith,
}
use subnetree.Dispatch.Store.{EnrollmentToken, World, token_row, validate_enrollment_token, used}
use subnetree.Dispatch.Uses.{
  Running, Step, Reachable, pass, give_up, create, consume, issue, change_agents, start, next,
}
use subnetree.Dispatch.Uses.Rows.{validate-ok, upsert_agent-tokens, consume-row, create-row}

-- What is known of one token.
record Within (callers : ℕ) (r : Running) (h : String) : Type 0 where
  unknown :
      token_row h r.store.tokens ≡ none
      → (r.enrolled h ≡ 0) × (count h r.passed ≡ 0) × (count h r.created ≡ 0)
  counted :
      (t : EnrollmentToken)
      → token_row h r.store.tokens ≡ some t
      → (r.enrolled h ≡ t.use_count + count h r.created)
        × (t.use_count + count h r.created + count h r.passed < t.max_uses + callers)

count-le-length : (h : String) (xs : List String) → count h xs ≤ length xs
count-le-length h [] = omega arith
count-le-length h (x ∷ xs) = ground (arith, count-le-length h xs)

module _ (callers : ℕ) where
  pass-Within :
      (r : Running) (w : World) (h : String) (t : EnrollmentToken) (g : String)
      → validate_enrollment_token w h r.store ≡ ok t
      → length r.passed + length r.created < callers
      → Within callers r g
      → Within callers (record r { passed = h ∷ r.passed }) g
  pass-Within r w h t g valid free old =
      let (row, below) = validate-ok w h r.store t valid in
      elim (==_cases h g) [
        | inl (e, p) ↦ record {
          unknown =
              λ n. ground (arith, n, row, p, ap (λ (k : String). token_row k r.store.tokens) p);
          counted = λ u q. ground (
            arith,
            e,
            old.counted u q,
            below,
            free,
            row,
            q,
            ap (λ (k : String). token_row k r.store.tokens) p,
            count-le-length g r.passed,
            count-le-length g r.created,
          );
        }
        | inr (e, p) ↦ record {
          unknown = λ n. ground (arith, e, old.unknown n);
          counted = λ u q. ground (arith, e, old.counted u q);
        }
      ]

  Step-Within :
      {r r' : Running} (g : String) → Step callers r r' → Within callers r g → Within callers r' g
  unfolding used
  Step-Within g (pass {r = r} w h t valid free) old = pass-Within r w h t g valid free old
  Step-Within g (give_up {created = created} h before behind) old = record {
    unknown = λ n.
        ground
          (arith, old.unknown n, count-append g before (h ∷ behind), count-append g before behind);
    counted = λ t q.
        ground (
          arith,
          old.counted t q,
          count-append g before (h ∷ behind),
          count-append g before behind,
        );
  }
  Step-Within g (create {st = st} w a st' h before behind e) old =
      let same = ap (token_row g) (upsert_agent-tokens w a st st' e) in
      record {
        unknown = λ n. ground (
          arith,
          old.unknown (sym same ∙ n),
          count-append g before (h ∷ behind),
          count-append g before behind,
        );
        counted = λ t q. ground (
          arith,
          old.counted t (sym same ∙ q),
          count-append g before (h ∷ behind),
          count-append g before behind,
        );
      }
  Step-Within g (consume {st = st} w id st' h before behind e) old =
      let row = consume-row w h id st st' g e in
      elim (Option-cases (token_row g st.tokens)) [
        | inl n ↦ record {
          unknown = λ n'. ground (
            arith,
            old.unknown n,
            count-append g before (h ∷ behind),
            count-append g before behind,
          );
          counted = λ t q. ground (arith, row, n, q);
        }
        | inr (t, p) ↦ record {
          unknown = λ n'. ground (arith, row, p, n');
          counted = λ u q. elim (==_cases h g) [
            | inl (eq, same) ↦ ground (
              arith,
              row,
              p,
              q,
              eq,
              old.counted t p,
              count-append g before (h ∷ behind),
              count-append g before behind,
            )
            | inr (eq, differ) ↦ ground (
              arith,
              row,
              p,
              q,
              eq,
              old.counted t p,
              count-append g before (h ∷ behind),
              count-append g before behind,
            )
          ];
        }
      ]
  Step-Within g (issue {r = r} fails t st' fresh positive e) old =
      let (n, row) = create-row fails t r.store st' g e in
      elim (==_cases t.token_hash g) [
        | inl (eq, p) ↦
            let none_yet =
              old.unknown (subst (λ (k : String). token_row k r.store.tokens ≡ none) p n) in
            record {
              unknown = λ n'. ground (arith, row, eq, n');
              counted = λ u q. ground (arith, row, eq, q, none_yet, fresh, positive);
            }
        | inr (eq, p) ↦ record {
          unknown = λ n'. ground (arith, row, eq, n', old.unknown);
          counted = λ u q. ground (arith, row, eq, q, old.counted u);
        }
      ]
  Step-Within g (change_agents rows) old = record { unknown = old.unknown; counted = old.counted }

  Reachable-Within : {r : Running} (g : String) → Reachable callers r → Within callers r g
  Reachable-Within g start = record { unknown = λ n. (refl, refl, refl); counted = λ t q. cc }
  Reachable-Within g (next h s) = Step-Within g s (Reachable-Within g h)

  -- However the calls of enrollAgent interleave, as long as no statement that consumes a token fails:
  -- a token brings fewer agents than its limit and the number of calls that may run at once together,
  -- so it stays within its limit if one call runs at a time.
  pub Reachable-enrolled :
      (r : Running) (h : String) (t : EnrollmentToken)
      → Reachable callers r
      → token_row h r.store.tokens ≡ some t
      → r.enrolled h < t.max_uses + callers
  Reachable-enrolled r h t reached row = omega (arith, (Reachable-Within h reached).counted t row)
