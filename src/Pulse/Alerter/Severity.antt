-- ===== src/Pulse/Alerter/Severity.antt =====
-- How severe the alerts get.
use subnetree.Prelude.{
  ℕ, ◌+◌, ◌*◌, ◌<◌, ◌≡◌, refl, sym, subst, String, false, List, [], ◌∷◌, ◌++◌, none, nat_eq,
  string_eq, Bool-cases, inl, inr, arith,
}
use subnetree.Pulse.Store.{Alert, has_critical, is_suppressed, resolve_alert}
use subnetree.Pulse.Alerter.{
  Check, CheckResult, Config, Faults, State, handle_success, handle_failure, process_result,
  alert_for, severity_of,
}
use subnetree.Pulse.Alerter.Active.{get_active_alert-none, success-alerts, failure-alerts}
use subnetree.Pulse.Alerter.Synced.{IsSynced}

abbrev pub AreWarnings : List Alert → Type 0
AreWarnings [] = Unit
AreWarnings (a ∷ alerts) = (a.severity ≡ "warning") × AreWarnings alerts

AreWarnings-append : (xs ys : List Alert) → AreWarnings xs → AreWarnings ys → AreWarnings (xs ++ ys)
AreWarnings-append [] ys v w = w
AreWarnings-append (a ∷ xs) ys (e, v) w = (e, AreWarnings-append xs ys v w)

AreWarnings-resolve_alert :
    (id : String × ℕ) (now : ℕ) (alerts : List Alert)
    → AreWarnings alerts
    → AreWarnings (resolve_alert id now alerts)
unfolding resolve_alert
AreWarnings-resolve_alert id now [] v = v
AreWarnings-resolve_alert id now (a ∷ alerts) (e, v) =
    (ground (arith, e), AreWarnings-resolve_alert id now alerts v)

has_critical-AreWarnings :
    (device : String) (alerts : List Alert)
    → AreWarnings alerts
    → has_critical device alerts ≡ false
unfolding has_critical
has_critical-AreWarnings device [] v = refl
has_critical-AreWarnings device (a ∷ alerts) (e, v) =
    rw e (ground (arith, has_critical-AreWarnings device alerts v))

is_suppressed-AreWarnings :
    (deps : List (String × String)) (check : String) (alerts : List Alert)
    → AreWarnings alerts
    → is_suppressed deps check alerts ≡ none
unfolding is_suppressed
is_suppressed-AreWarnings [] check alerts v = refl
is_suppressed-AreWarnings (d ∷ deps) check alerts v =
    ground
      (arith, has_critical-AreWarnings d.1 alerts v, is_suppressed-AreWarnings deps check alerts v)

module _ (cfg : Config) (faults : Faults) (now : ℕ) (check : Check) where
  added-AreWarnings :
      (result : CheckResult) (count : ℕ) (alerts : List Alert)
      → count < cfg.threshold * 2
      → AreWarnings (alert_for cfg faults now check result count alerts ∷ [])
  unfolding alert_for severity_of
  added-AreWarnings result count alerts h = (ground (arith, h), tt)

  failure-AreWarnings :
      (result : CheckResult) (st : State)
      → 0 < cfg.threshold
      → IsSynced cfg st
      → AreWarnings st.alerts
      → AreWarnings (handle_failure cfg faults now check result st).alerts
  failure-AreWarnings result st pos w v = elim (failure-alerts cfg faults now check result st) [
    | inl (e, _) ↦ subst AreWarnings (sym e) v
    | inr (n, h, e) ↦ subst AreWarnings (sym e) (
        AreWarnings-append st.alerts _ v (
          added-AreWarnings result (st.failures check.id + 1) st.alerts
            (ground (arith, w check.id, get_active_alert-none check.id st.alerts n))))
  ]

  success-AreWarnings :
      (st : State)
      → AreWarnings st.alerts
      → AreWarnings (handle_success cfg faults now check st).alerts
  success-AreWarnings st v = elim (success-alerts cfg faults now check st) [
    | inl (e, _) ↦ subst AreWarnings (sym e) v
    | inr (a, g, e) ↦ subst AreWarnings (sym e) (AreWarnings-resolve_alert a.id now st.alerts v)
  ]

  -- With a positive threshold, and while active alerts and failure counts agree, an alert that a
  -- result raises is only ever a warning. So no alert gets critical, and no dependency on a device
  -- suppresses anything.
  pub process_result-AreWarnings :
      (result : CheckResult) (st : State)
      → 0 < cfg.threshold
      → IsSynced cfg st
      → AreWarnings st.alerts
      → AreWarnings (process_result cfg faults now check result st).alerts
        × ((deps : List (String × String)) (c : String)
            → is_suppressed deps c (process_result cfg faults now check result st).alerts ≡ none)
  unfolding process_result
  process_result-AreWarnings result st pos w v =
      let kept : AreWarnings (process_result cfg faults now check result st).alerts =
        elim (Bool-cases result.success) [
          | inl t ↦ rw t (success-AreWarnings st v)
          | inr f ↦ rw f (failure-AreWarnings result st pos w v)
        ] in
      (kept, λ deps c. is_suppressed-AreWarnings deps c _ kept)
