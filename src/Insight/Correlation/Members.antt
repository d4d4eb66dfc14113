-- ===== src/Insight/Correlation/Members.antt =====
-- Alerts in lists, for the proofs about internal/insight/correlation/correlator.go.
use subnetree.Prelude.{
  ◌<◌, length, Bool, true, Bool-cases, ◌≡◌, sym, ap, ◌∙◌, ◌⊎◌, inl, inr, ◌↔◌, List, [], ◌∷◌, keep,
  contains, string_eq, arith,
}
use text.Mathlib.TextEquality.{eq_iff}
use mathlib.Core.List.{Memᴰ}
use mathlib.Core.List.Memᴰ
use subnetree.Insight.Correlation.{Alert}
use subnetree.Insight.Correlation.Pairs.{Before}
use subnetree.Insight.Correlation.Groups.{devices_of}

pub Memᴰ-keep_iff :
    (test : Alert → Bool) (b : Alert) (xs : List Alert)
    → Memᴰ b (keep test xs) ↔ (Memᴰ b xs × (test b ≡ true))
Memᴰ-keep_iff test b [] = (λ m. absurd (Memᴰ.not-nil m), λ h. absurd (Memᴰ.not-nil h.0))
Memᴰ-keep_iff test b (x ∷ xs) = elim (Bool-cases (test x)) [
  | inl t ↦ rw t (
    λ m. elim (Memᴰ.cases_cons m) [
      | inl p ↦ (Memᴰ.head p, ap test p ∙ t)
      | inr m' ↦ (Memᴰ.tail ((Memᴰ-keep_iff test b xs).0 m').0, ((Memᴰ-keep_iff test b xs).0 m').1)
    ],
    λ h. elim (Memᴰ.cases_cons h.0) [
      | inl p ↦ Memᴰ.head p
      | inr m' ↦ Memᴰ.tail ((Memᴰ-keep_iff test b xs).1 (m', h.1))
    ],
  )
  | inr f ↦ rw f (
    λ m. let r = (Memᴰ-keep_iff test b xs).0 m in (Memᴰ.tail r.0, r.1),
    λ h. elim (Memᴰ.cases_cons h.0) [
      | inl p ↦ ground (arith, f, h.1, ap test p)
      | inr m' ↦ (Memᴰ-keep_iff test b xs).1 (m', h.1)
    ],
  )
]

pub contains-devices_of :
    (a : Alert) (xs : List Alert) → Memᴰ a xs → contains (devices_of xs) a.device_id ≡ true
contains-devices_of a [] m = absurd (Memᴰ.not-nil m)
contains-devices_of a (x ∷ xs) m = elim (Memᴰ.cases_cons m) [
  | inl p ↦ ground (arith, ap (λ (r : Alert). r.device_id) p, eq_iff x.device_id a.device_id)
  | inr m' ↦ ground (arith, contains-devices_of a xs m')
]

pub Before-cases :
    (a b : Alert) (xs : List Alert)
    → Memᴰ a xs
    → Memᴰ b xs
    → (a ≡ b) ⊎ (Before a b xs ⊎ Before b a xs)
Before-cases a b [] m n = absurd (Memᴰ.not-nil m)
Before-cases a b (x ∷ xs) m n = elim (Memᴰ.cases_cons m) [
  | inl p ↦ elim (Memᴰ.cases_cons n) [ inl q ↦ inl (p ∙ sym q) | inr n' ↦ inr (inl (inl (p, n'))) ]
  | inr m' ↦ elim (Memᴰ.cases_cons n) [
    | inl q ↦ inr (inr (inl (q, m')))
    | inr n' ↦ elim (Before-cases a b xs m' n') [
      | inl p ↦ inl p
      | inr s ↦ elim s [ inl u ↦ inr (inl (inr u)) | inr v ↦ inr (inr (inr v)) ]
    ]
  ]
]

pub single-same : (a b : Alert) (xs : List Alert) → length xs < 2 → Memᴰ a xs → Memᴰ b xs → a ≡ b
single-same a b [] h m n = absurd (Memᴰ.not-nil m)
single-same a b (x ∷ []) h m n = Memᴰ.eq_of_singleton m ∙ sym (Memᴰ.eq_of_singleton n)
single-same a b (x ∷ y ∷ ys) h m n = absurd (omega arith)
