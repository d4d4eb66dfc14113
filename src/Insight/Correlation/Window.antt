-- ===== src/Insight/Correlation/Window.antt =====
-- The test of the time window, with the overflow of int64 durations: `absDuration` and `Time.Sub` of
-- internal/insight/correlation/correlator.go.
use subnetree.Prelude.{
  ℕ, suc, ◌+◌, ◌-◌, ◌≤◌, ◌<◌, ◌≡◌, ◌↔◌, ◌⊎◌, inl, inr, true, not, ◌||◌, leb, Bool-cases, ℤ, pos,
  pos_part, neg_part, ◌≤ℤ◌, ltb_ℤ, arith, same_nat_iff,
}
use subnetree.Insight.Correlation.{min_duration, within}

-- How far two times are apart.
abbrev pub gap : ℕ → ℕ → ℕ
gap t u = (t - u) + (u - t)

pub 0-lt-min_duration : 0 < min_duration
unfolding min_duration
0-lt-min_duration = omega arith

-- A window is an int64 that is not the greatest one.
pub record IsWindow (window : ℤ) : Type 0 where
  pub above : suc (pos_part window) < min_duration
  pub below : neg_part window ≤ min_duration

module _ (window : ℤ) (t u : ℕ) where
  within-eq :
      IsWindow window
      → within window t u ≡ (leb (t + min_duration) u || not (ltb_ℤ window (pos (gap t u))))
  unfolding within
  within-eq h = ground (
    arith,
    0-lt-min_duration,
    h.above,
    h.below,
    same_nat_iff (suc (u - t - 1)) min_duration,
    same_nat_iff (suc (min_duration - 1)) min_duration,
  )

  -- For a window that is an int64 but not the greatest one: two alerts pass the test of the window
  -- exactly when their times are no farther apart than the window, or the second is 2^63 nanoseconds
  -- (292 years) or more after the first.
  pub within_iff :
      IsWindow window
      → (within window t u ≡ true) ↔ ((pos (gap t u) ≤ℤ window) ⊎ (t + min_duration ≤ u))
  within_iff h = (
    λ w. elim (Bool-cases (leb (t + min_duration) u)) [
      | inl far ↦ inr (ground arith)
      | inr near ↦ inl (ground (arith, within-eq h))
    ],
    λ s. elim s [ inl near ↦ ground (arith, within-eq h) | inr far ↦ ground (arith, within-eq h) ],
  )
