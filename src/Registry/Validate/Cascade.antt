-- ===== src/Registry/Validate/Cascade.antt =====
-- The cascade of Validate: its rounds end, and then no active plugin needs a disabled one.
use subnetree.Prelude.{
  ℕ, zero, suc, ◌+◌, ◌≤◌, ◌<◌, ◌≡◌, refl, sym, ◌∙◌, ap, subst, String, Bool, true, false, not, List,
  [], ◌∷◌, none, some, string_eq, contains, contains-count, count-keep, keep, length,
  length-lt_of_counts, arith, inl, inr, Option-cases, Bool-cases, if◌then◌else◌, MapRange,
  contains_self, ==_cases,
}
use subnetree.Registry.Types.{PluginInfo, Error}
use subnetree.Registry.Validate.{
  Marks, Pass, and_then, for_each, first_disabled, cascade_body, cascade,
}
use subnetree.Registry.Validate.Pass.{for_each_ind}
use subnetree.Registry.Validate.Broken.{visited}

module _ (names : List String) (info : String → PluginInfo) where
  abbrev remaining : List String → ℕ
  remaining disabled = length (keep (λ n. not (contains disabled n)) names)

  remaining-disable :
      (x : String) (disabled : List String)
      → contains names x ≡ true
      → contains disabled x ≡ false
      → remaining (x ∷ disabled) < remaining disabled
  remaining-disable x disabled r on =
      length-lt_of_counts _ _ x
        (λ a. ground (
          arith,
          count-keep (λ n. not (contains (x ∷ disabled) n)) a names,
          count-keep (λ n. not (contains disabled n)) a names,
        ))
        (ground (
          arith,
          count-keep (λ n. not (contains (x ∷ disabled) n)) x names,
          count-keep (λ n. not (contains disabled n)) x names,
          contains_self x disabled,
          contains-count x names,
        ))

  -- A round of the loop leaves the marks alone, reports an error, or disables one more plugin.
  data Round (x : String) (m : Marks) : Pass → Type 0 where
    skips : first_disabled names info m.disabled (info x).dependencies ≡ none → Round x m (m, none)
    was_off : contains m.disabled x ≡ true → Round x m (m, none)
    stops : (e : Error) → Round x m (m, some e)
    marks :
        contains m.disabled x ≡ false
        → Round x m (record { disabled = x ∷ m.disabled; changed = true }, none)

  cascade_body-Round : (x : String) (m : Marks) → Round x m (cascade_body names info x m)
  unfolding cascade_body
  cascade_body-Round x m = elim (Bool-cases (contains m.disabled x)) [
    | inl off ↦ rw off (was_off off)
    | inr on ↦
        rw on (elim (Option-cases (first_disabled names info m.disabled (info x).dependencies)) [
          | inl e ↦ rw (e, cascade_body) (skips e)
          | inr (d, e) ↦
              rw (e, cascade_body)
                (elim (Bool-cases (info x).required) [
                  | inl r ↦ rw r (stops _)
                  | inr o ↦ rw o (marks on)
                ])
        ])
  ]

  -- A changed flag is paid for by a plugin that is disabled now.
  abbrev Paid : ℕ → Pass → Type 0
  Paid n o = remaining o.0.disabled + (if o.0.changed then 1 else 0) ≤ n

  Round-Paid :
      (n : ℕ) (x : String) (m : Marks) (o : Pass)
      → contains names x ≡ true
      → Round x m o
      → Paid n (m, none)
      → Paid n o
  Round-Paid n x m _ r (skips e) h = h
  Round-Paid n x m _ r (was_off e) h = h
  Round-Paid n x m _ r (stops e) h = h
  Round-Paid n x m _ r (marks on) h = omega (arith, remaining-disable x m.disabled r on)

  changed-Round :
      (x : String) (m : Marks) (o : Pass) → Round x m o → m.changed ≡ true → o.0.changed ≡ true
  changed-Round x m _ (skips e) h = h
  changed-Round x m _ (was_off e) h = h
  changed-Round x m _ (stops e) h = h
  changed-Round x m _ (marks on) h = refl

  -- No active plugin needs a disabled one.
  abbrev pub IsClosed : List String → Type 0
  IsClosed disabled =
      (x : String)
      → contains names x ≡ true
      → contains disabled x ≡ false
      → first_disabled names info disabled (info x).dependencies ≡ none

  sticky :
      (ys : List String) (m : Marks)
      → m.changed ≡ true
      → (for_each (cascade_body names info) ys m).0.changed ≡ true
  sticky ys m h =
      for_each_ind (λ o. o.0.changed ≡ true) (cascade_body names info) ys
        (λ x m' _ c. changed-Round x m' _ (cascade_body-Round x m') c) m h

  abbrev ClosedFor : List String → Marks → Pass → Type 0
  ClosedFor ys m o =
      (o.0 ≡ m)
      × ((x : String)
          → contains ys x ≡ true
          → contains m.disabled x ≡ false
          → first_disabled names info m.disabled (info x).dependencies ≡ none)

  unchanged_step :
      (y : String) (ys : List String) (m : Marks) (rest : Marks → Pass) (o : Pass)
      → Round y m o
      → ((m' : Marks) → m'.changed ≡ true → (rest m').0.changed ≡ true)
      → ((rest m).1 ≡ none → (rest m).0.changed ≡ false → ClosedFor ys m (rest m))
      → (and_then o rest).1 ≡ none
      → (and_then o rest).0.changed ≡ false
      → ClosedFor (y ∷ ys) m (and_then o rest)
  unchanged_step y ys m rest _ (stops e) stick ih n c = absurd (cc)
  unchanged_step y ys m rest _ (marks on) stick ih n c =
      absurd (cc (stick (record { disabled = y ∷ m.disabled; changed = true }) refl))
  unchanged_step y ys m rest _ (skips e) stick ih n c = (
    (ih n c).0,
    λ x h on. elim (==_cases y x) [
      | inl (t, p) ↦
          subst (λ z. first_disabled names info m.disabled (info z).dependencies ≡ none) p e
      | inr (t, p) ↦ (ih n c).1 x (ground arith) on
    ],
  )
  unchanged_step y ys m rest _ (was_off e) stick ih n c = (
    (ih n c).0,
    λ x h on. elim (==_cases y x) [
      | inl (t, p) ↦ absurd (cc (ap (contains m.disabled) p))
      | inr (t, p) ↦ (ih n c).1 x (ground arith) on
    ],
  )

  -- A pass that changes nothing has found the marks closed.
  unchanged :
      (ys : List String) (m : Marks)
      → (for_each (cascade_body names info) ys m).1 ≡ none
      → (for_each (cascade_body names info) ys m).0.changed ≡ false
      → ClosedFor ys m (for_each (cascade_body names info) ys m)
  unfolding for_each
  unchanged [] m e c = (refl, λ x h. absurd (cc))
  unchanged (y ∷ ys) m e c =
      unchanged_step y ys m (for_each (cascade_body names info) ys) (cascade_body names info y m)
        (cascade_body-Round y m) (sticky ys) (unchanged ys m) e c

  -- With more fuel than active plugins the loop ends by its test, with the marks closed.
  module _ (range : MapRange) where
    abbrev Ends : Pass → Type 0
    Ends o = o.1 ≡ none → IsClosed o.0.disabled

    cascade_step :
        (ys : List String) (m : Marks) (again : Marks → Pass) (o : Pass)
        → Paid (remaining m.disabled) o
        → ((x : String) → contains ys x ≡ contains names x)
        → (o.1 ≡ none → o.0.changed ≡ false → ClosedFor ys (record m { changed = false }) o)
        → (remaining o.0.disabled < remaining m.disabled → Ends (again o.0))
        → Ends (and_then o λ m'. elim m'.changed [ true ↦ again m' | false ↦ (m', none) ])
    cascade_step ys m again (m', some e) paid same still more = λ h. absurd (cc)
    cascade_step ys m again (m', none) paid same still more = elim (Bool-cases m'.changed) [
      | inl t ↦ subst next (sym t) (more (ground arith))
      | inr f ↦ subst next (sym f) λ _ x r on.
          let (unmoved, closed) = still refl f in
          subst (λ d. first_disabled names info d (info x).dependencies ≡ none)
            (ap (λ (z : Marks). z.disabled) (sym unmoved))
            (closed x (same x ∙ r) (cc (ap (λ (z : Marks). contains z.disabled x) unmoved)))
    ]
      where
        next : Bool → Type 0
        next b = Ends (elim b [ true ↦ again m' | false ↦ (m', none) ])

    pub cascade-IsClosed :
        (fuel k : ℕ) (m : Marks)
        → remaining m.disabled < fuel
        → (cascade names info range fuel k m).1 ≡ none
        → IsClosed (cascade names info range fuel k m).0.disabled
    unfolding cascade
    cascade-IsClosed zero k m h = absurd (omega arith)
    cascade-IsClosed (suc fuel) k m h =
        cascade_step (range.visit k names) m (cascade names info range fuel (k + 1))
          (for_each (cascade_body names info) (range.visit k names) (record m { changed = false }))
          (for_each_ind (Paid (remaining m.disabled)) (cascade_body names info)
            (range.visit k names)
            (λ x m' c.
              Round-Paid (remaining m.disabled) x m' _ (sym (visited names info range k x) ∙ c)
                (cascade_body-Round x m'))
            (record m { changed = false }) (omega arith))
          (visited names info range k)
          (unchanged (range.visit k names) (record m { changed = false }))
          (λ less. cascade-IsClosed fuel (k + 1) _ (omega arith))
