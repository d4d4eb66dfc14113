-- ===== src/Pulse/Alerter/Active.antt =====
-- A check has at most one active alert.
use subnetree.Prelude.{
  ℕ, ◌+◌, ◌≤◌, ◌<◌, ◌≡◌, ◌⊎◌, subst, refl, ap, sym, String, true, false, ◌&&◌, ◌||◌, List, [], ◌∷◌,
  ◌++◌, none, some, ◌==◌, nat_eq, string_eq, ltb, if◌then◌else◌, Bool-cases, Option-cases, inl, inr,
  arith, map, ◌∙◌,
}
use subnetree.Pulse.Store.{
  Alert, is_active, same_id, get_active_alert, resolve_alert, has_id, insert_alert,
}
use subnetree.Pulse.Alerter.{
  Check, CheckResult, Config, Faults, State, handle_success, handle_failure, process_result,
  alert_for,
}

-- How many alerts of a check are active.
abbrev pub active_count : String → List Alert → ℕ
active_count check [] = 0
active_count check (a ∷ alerts) =
    (if a.check_id == check && is_active a then 1 else 0) + active_count check alerts

-- Every alert carries the ID that the alerter makes.
abbrev pub IsNamed : List Alert → Type 0
IsNamed [] = Unit
IsNamed (a ∷ alerts) = (a.id.0 ≡ a.check_id) × IsNamed alerts

active_count-append :
    (check : String) (xs ys : List Alert)
    → active_count check (xs ++ ys) ≡ active_count check xs + active_count check ys
active_count-append check [] ys = omega arith
active_count-append check (a ∷ xs) ys = ground (arith, active_count-append check xs ys)

pub IsNamed-append : (xs ys : List Alert) → IsNamed xs → IsNamed ys → IsNamed (xs ++ ys)
IsNamed-append [] ys v w = w
IsNamed-append (a ∷ xs) ys (e, v) w = (e, IsNamed-append xs ys v w)

pub IsNamed-resolve_alert :
    (id : String × ℕ) (now : ℕ) (alerts : List Alert)
    → IsNamed alerts
    → IsNamed (resolve_alert id now alerts)
unfolding resolve_alert
IsNamed-resolve_alert id now [] v = v
IsNamed-resolve_alert id now (a ∷ alerts) (e, v) =
    (ground (arith, e), IsNamed-resolve_alert id now alerts v)

pub get_active_alert-none :
    (check : String) (alerts : List Alert)
    → get_active_alert check alerts ≡ none
    → active_count check alerts ≡ 0
unfolding get_active_alert
get_active_alert-none check [] h = refl
get_active_alert-none check (a ∷ alerts) h = ground (arith, get_active_alert-none check alerts)

abbrev pub alert_ids : List Alert → List (String × ℕ)
alert_ids alerts = map (λ a. a.id) alerts

-- Resolving an alert rewrites no ID.
alert_ids-resolve_alert :
    (id : String × ℕ) (now : ℕ) (alerts : List Alert)
    → alert_ids (resolve_alert id now alerts) ≡ alert_ids alerts
unfolding resolve_alert
alert_ids-resolve_alert id now [] = refl
alert_ids-resolve_alert id now (a ∷ alerts) =
    let rest = alert_ids-resolve_alert id now alerts in ground (arith, rest)

alert_ids-append : (xs ys : List Alert) → alert_ids (xs ++ ys) ≡ alert_ids xs ++ alert_ids ys
alert_ids-append [] ys = refl
alert_ids-append (a ∷ xs) ys = ap (λ ids. a.id ∷ ids) (alert_ids-append xs ys)

-- The alert that is found is active, so there is one.
pub get_active_alert-some :
    (check : String) (alerts : List Alert) (a : Alert)
    → IsNamed alerts
    → get_active_alert check alerts ≡ some a
    → (0 < active_count check alerts) × (a.id.0 ≡ check)
unfolding get_active_alert
get_active_alert-some check [] a v h = absurd (cc h)
get_active_alert-some check (b ∷ alerts) a (e, v) h =
    elim (Bool-cases (b.check_id == check && is_active b)) [
      | inl t ↦ (ground (arith, t), ground (arith, t, h, e, string_eq.same_iff b.check_id check))
      | inr f ↦ (
        ground (arith, f, h, get_active_alert-some check alerts a v),
        ground (arith, f, h, get_active_alert-some check alerts a v),
      )
    ]

active_count-resolve_alert-le :
    (check : String) (id : String × ℕ) (now : ℕ) (alerts : List Alert)
    → active_count check (resolve_alert id now alerts) ≤ active_count check alerts
unfolding resolve_alert
active_count-resolve_alert-le check id now [] = omega arith
active_count-resolve_alert-le check id now (a ∷ alerts) =
    ground (arith, active_count-resolve_alert-le check id now alerts)

same_id_refl : (id : String × ℕ) → same_id id id ≡ true
same_id_refl (c, t) = ground (arith, string_eq.same_iff c c, nat_eq.same_iff t t)

-- Resolving the alert that was found takes one off its check's count.
pub active_count-resolve_alert :
    (check : String) (now : ℕ) (alerts : List Alert) (a : Alert)
    → get_active_alert check alerts ≡ some a
    → active_count check (resolve_alert a.id now alerts) < active_count check alerts
unfolding get_active_alert resolve_alert
active_count-resolve_alert check now [] a h = absurd (cc h)
active_count-resolve_alert check now (b ∷ alerts) a h =
    elim (Bool-cases (b.check_id == check && is_active b)) [
      | inl t ↦
          ground
            (arith, t, h, same_id_refl b.id, active_count-resolve_alert-le check a.id now alerts)
      | inr f ↦ ground (arith, f, h, active_count-resolve_alert check now alerts a)
    ]

-- No other check's alert has the ID.
pub active_count-resolve_alert-other :
    (check : String) (id : String × ℕ) (now : ℕ) (alerts : List Alert)
    → IsNamed alerts
    → (id.0 == check) ≡ false
    → active_count check (resolve_alert id now alerts) ≡ active_count check alerts
unfolding resolve_alert
active_count-resolve_alert-other check id now [] v h = refl
active_count-resolve_alert-other check id now (a ∷ alerts) (e, v) h = ground (
  arith,
  active_count-resolve_alert-other check id now alerts v h,
  e,
  string_eq.same_iff a.id.0 id.0,
  string_eq.same_iff a.check_id check,
  string_eq.same_iff id.0 check,
)

pub record IsConsistent (st : State) : Type 0 where
  pub named : IsNamed st.alerts
  pub once : (check : String) → active_count check st.alerts ≤ 1

abbrev pub no_faults : Faults
no_faults = record {
  get = false;
  resolve = false;
  suppression = false;
  parents = false;
  insert = false;
}

module _ (cfg : Config) (faults : Faults) (now : ℕ) (check : Check) where
  -- A success leaves the alerts alone or resolves the active alert of the check.
  pub success-alerts :
      (st : State)
      → ((handle_success cfg faults now check st).alerts ≡ st.alerts)
          × (faults ≡ no_faults → get_active_alert check.id st.alerts ≡ none)
        ⊎ (a : Alert) × (get_active_alert check.id st.alerts ≡ some a)
          × ((handle_success cfg faults now check st).alerts ≡ resolve_alert a.id now st.alerts)
  unfolding handle_success
  success-alerts st = elim (Option-cases (get_active_alert check.id st.alerts)) [
    | inl n ↦ inl (ground (arith, n), λ e. n)
    | inr (a, s) ↦ elim (Bool-cases (faults.get || faults.resolve)) [
      | inl t ↦
          inl
            (ground (arith, s, t), λ e. ground (arith, t, ap (λ f. f.get) e, ap (λ f. f.resolve) e))
      | inr f ↦ inr (a, s, ground (arith, s, f))
    ]
  ]

  -- A failure leaves the alerts alone or adds one, for a check that has no active alert.
  pub failure-alerts :
      (result : CheckResult) (st : State)
      → ((handle_failure cfg faults now check result st).alerts ≡ st.alerts)
          × (faults ≡ no_faults
              → has_id (check.id, now) st.alerts ≡ false
              → cfg.threshold ≤ st.failures check.id + 1
              → (a : Alert) × (get_active_alert check.id st.alerts ≡ some a))
        ⊎ (get_active_alert check.id st.alerts ≡ none)
          × (cfg.threshold ≤ st.failures check.id + 1)
          × ((handle_failure cfg faults now check result st).alerts
              ≡ st.alerts
                ++ alert_for cfg faults now check result (st.failures check.id + 1) st.alerts ∷ [])
  unfolding handle_failure insert_alert alert_for
  failure-alerts result st = elim (Option-cases (get_active_alert check.id st.alerts)) [
    | inr (a, s) ↦ inl (ground (arith, s), λ e h t. (a, s))
    | inl n ↦
        elim (Bool-cases (
          ltb (st.failures check.id + 1) cfg.threshold
          || (faults.get || (faults.insert || has_id (check.id, now) st.alerts)))) [
            | inl t ↦ inl (
              ground (arith, n, t),
              λ e h u. absurd (ground (arith, t, ap (λ f. f.get) e, ap (λ f. f.insert) e)),
            )
            | inr f ↦ inr (n, ground (arith, f), ground (arith, n, f))
          ]
  ]

  added-IsNamed :
      (result : CheckResult) (count : ℕ) (alerts : List Alert)
      → IsNamed (alert_for cfg faults now check result count alerts ∷ [])
  unfolding alert_for
  added-IsNamed result count alerts = (refl, tt)

  pub active_count-added :
      (result : CheckResult) (count : ℕ) (alerts : List Alert) (c : String)
      → active_count c (alerts ++ alert_for cfg faults now check result count alerts ∷ [])
        ≡ (if check.id == c then 1 else 0) + active_count c alerts
  unfolding alert_for
  active_count-added result count alerts c = ground (
    arith,
    active_count-append c alerts (alert_for cfg faults now check result count alerts ∷ []),
  )

  success-IsConsistent :
      (st : State) → IsConsistent st → IsConsistent (handle_success cfg faults now check st)
  success-IsConsistent st v = elim (success-alerts st) [
    | inl (e, _) ↦ record {
      named = subst IsNamed (sym e) v.named;
      once = λ c. ground (arith, ap (active_count c) e, v.once c);
    }
    | inr (a, g, e) ↦ record {
      named = subst IsNamed (sym e) (IsNamed-resolve_alert a.id now st.alerts v.named);
      once = λ c. ground (
        arith,
        ap (active_count c) e,
        v.once c,
        active_count-resolve_alert-le c a.id now st.alerts,
      );
    }
  ]

  failure-IsConsistent :
      (result : CheckResult) (st : State)
      → IsConsistent st
      → IsConsistent (handle_failure cfg faults now check result st)
  failure-IsConsistent result st v = elim (failure-alerts result st) [
    | inl (e, _) ↦ record {
      named = subst IsNamed (sym e) v.named;
      once = λ c. ground (arith, ap (active_count c) e, v.once c);
    }
    | inr (n, h, e) ↦
        let count = st.failures check.id + 1 in
        record {
          named =
              subst IsNamed (sym e)
                (IsNamed-append st.alerts _ v.named (added-IsNamed result count st.alerts));
          once = λ c. ground (
            arith,
            ap (active_count c) e,
            v.once c,
            active_count-added result count st.alerts c,
            get_active_alert-none check.id st.alerts n,
            string_eq.same_iff check.id c,
          );
        }
  ]

  success-alert_ids :
      (st : State) → alert_ids (handle_success cfg faults now check st).alerts ≡ alert_ids st.alerts
  success-alert_ids st = elim (success-alerts st) [
    | inl (e, _) ↦ ap alert_ids e
    | inr (a, _, e) ↦ ap alert_ids e ∙ alert_ids-resolve_alert a.id now st.alerts
  ]

  failure-alert_ids :
      (result : CheckResult) (st : State)
      → (alert_ids (handle_failure cfg faults now check result st).alerts ≡ alert_ids st.alerts)
        ⊎ (alert_ids (handle_failure cfg faults now check result st).alerts
            ≡ alert_ids st.alerts ++ (check.id, now) ∷ [])
  unfolding alert_for
  failure-alert_ids result st = elim (failure-alerts result st) [
    | inl (e, _) ↦ inl (ap alert_ids e)
    | inr (_, _, e) ↦ inr (ap alert_ids e ∙ alert_ids-append st.alerts _)
  ]

  -- Whatever fails, a check never has two active alerts. A success leaves the list of the alerts' IDs
  -- as it is; a failure leaves it too or adds the ID of the check and the time behind it.
  pub process_result-IsConsistent :
      (result : CheckResult) (st : State)
      → IsConsistent st
      → IsConsistent (process_result cfg faults now check result st)
        × ((alert_ids (process_result cfg faults now check result st).alerts ≡ alert_ids st.alerts)
            ⊎ (result.success ≡ false)
              × (alert_ids (process_result cfg faults now check result st).alerts
                  ≡ alert_ids st.alerts ++ (check.id, now) ∷ []))
  unfolding process_result
  process_result-IsConsistent result st v = elim (Bool-cases result.success) [
    | inl t ↦ rw t (success-IsConsistent st v, inl (success-alert_ids st))
    | inr f ↦ rw f (
      failure-IsConsistent result st v,
      elim (failure-alert_ids result st) [ inl e ↦ inl e | inr e ↦ inr (refl, e) ],
    )
  ]
