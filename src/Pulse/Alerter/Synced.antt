-- ===== src/Pulse/Alerter/Synced.antt =====
-- While no query fails, a check has an active alert exactly as long as its failures reach the
-- threshold.
use subnetree.Prelude.{
  ℕ, ◌+◌, ◌≤◌, ◌<◌, ◌≡◌, ◌↔◌, ap, String, false, ◌==◌, nat_eq, string_eq, leb, if◌then◌else◌,
  Bool-cases, inl, inr, arith,
}
use subnetree.Pulse.Store.{has_id}
use subnetree.Pulse.Alerter.{
  Check, CheckResult, Config, Faults, State, handle_success, handle_failure, process_result,
}
use subnetree.Pulse.Alerter.Active.{
  active_count, no_faults, IsConsistent, get_active_alert-none, get_active_alert-some,
  active_count-resolve_alert, active_count-resolve_alert-other, success-alerts, failure-alerts,
  active_count-added,
}

-- A check has an active alert exactly if its consecutive failures reach the threshold.
abbrev pub IsSynced : Config → State → Type 0
IsSynced cfg st =
    (check : String) → (cfg.threshold ≤ st.failures check) ↔ (0 < active_count check st.alerts)

module _ (cfg : Config) (faults : Faults) (now : ℕ) (check : Check) where
  success-failures :
      (st : State) (c : String)
      → (handle_success cfg faults now check st).failures c
        ≡ (if check.id == c then 0 else st.failures c)
  unfolding handle_success
  success-failures st c = ground arith

  failure-failures :
      (result : CheckResult) (st : State) (c : String)
      → (handle_failure cfg faults now check result st).failures c
        ≡ (if check.id == c then st.failures check.id + 1 else st.failures c)
  unfolding handle_failure
  failure-failures result st c = ground arith

  success-IsSynced :
      (st : State)
      → faults ≡ no_faults
      → 0 < cfg.threshold
      → IsConsistent st
      → IsSynced cfg st
      → IsSynced cfg (handle_success cfg faults now check st)
  success-IsSynced st none_failed pos v w c = elim (success-alerts cfg faults now check st) [
    | inl (e, n) ↦ ground (
      arith,
      ap (active_count c) e,
      success-failures st c,
      w c,
      get_active_alert-none check.id st.alerts (n none_failed),
      string_eq.same_iff check.id c,
    )
    | inr (a, g, e) ↦
        let (_, named) = get_active_alert-some check.id st.alerts a v.named g in
        elim (Bool-cases (check.id == c)) [
          | inl t ↦ ground (
            arith,
            t,
            string_eq.same_iff check.id c,
            ap (active_count check.id) e,
            success-failures st c,
            v.once check.id,
            active_count-resolve_alert check.id now st.alerts a g,
          )
          | inr f ↦ ground (
            arith,
            f,
            ap (active_count c) e,
            success-failures st c,
            w c,
            active_count-resolve_alert-other c a.id now st.alerts v.named (rw named f),
          )
        ]
  ]

  failure-IsSynced :
      (result : CheckResult) (st : State)
      → faults ≡ no_faults
      → has_id (check.id, now) st.alerts ≡ false
      → IsConsistent st
      → IsSynced cfg st
      → IsSynced cfg (handle_failure cfg faults now check result st)
  failure-IsSynced result st none_failed fresh v w c =
      elim (failure-alerts cfg faults now check result st) [
        | inl (e, full) ↦ elim (Bool-cases (leb cfg.threshold (st.failures check.id + 1))) [
          | inl t ↦
              let (a, g) = full none_failed fresh (ground (arith, t)) in
              ground (
                arith,
                t,
                ap (active_count c) e,
                failure-failures result st c,
                w c,
                get_active_alert-some check.id st.alerts a v.named g,
                string_eq.same_iff check.id c,
              )
          | inr f ↦ ground (
            arith,
            f,
            ap (active_count c) e,
            failure-failures result st c,
            w c,
            string_eq.same_iff check.id c,
          )
        ]
        | inr (n, h, e) ↦ ground (
          arith,
          ap (active_count c) e,
          failure-failures result st c,
          w c,
          active_count-added cfg faults now check result (st.failures check.id + 1) st.alerts c,
          string_eq.same_iff check.id c,
        )
      ]

  -- If no query fails, the new alert's ID is free and the threshold is positive, a check keeps having
  -- an active alert exactly as long as its consecutive failures reach the threshold, and the failures
  -- are counted from the last success.
  pub process_result-IsSynced :
      (result : CheckResult) (st : State)
      → faults ≡ no_faults
      → 0 < cfg.threshold
      → has_id (check.id, now) st.alerts ≡ false
      → IsConsistent st
      → IsSynced cfg st
      → IsSynced cfg (process_result cfg faults now check result st)
        × ((c : String)
            → (process_result cfg faults now check result st).failures c ≡ (
                if check.id == c
                then (if result.success then 0 else st.failures c + 1)
                else st.failures c))
  unfolding process_result
  process_result-IsSynced result st none_failed pos fresh v w = elim (Bool-cases result.success) [
    | inl t ↦ rw t (success-IsSynced st none_failed pos v w, success-failures st)
    | inr f ↦ rw f (
      failure-IsSynced result st none_failed fresh v w,
      λ c. ground (arith, failure-failures result st c, string_eq.same_iff check.id c),
    )
  ]
