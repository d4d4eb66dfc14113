-- ===== src/Registry/Validate/Broken.antt =====
-- Which plugins cannot start, as an inductive relation, and that Validate's loops disable only such.
use subnetree.Prelude.{
  ◌≡◌, ◌≢◌, refl, String, true, false, List, [], ◌∷◌, Option, none, some, string_eq, contains,
  arith, inl, inr, sym, ◌∙◌, ℕ, zero, suc, ◌+◌, ==_cases, contains_self, contains_tail,
  contains-count, length, MapRange, Option-cases, Bool-cases, if◌then◌else◌,
}
use subnetree.Registry.Types.{PluginInfo, Error}
use subnetree.Registry.Validate.{
  Marks, Pass, for_each, check_api_version, api_body, bad_dependency, dependency_body,
  first_disabled, cascade_body, and_then, cascade, resolve,
}
use subnetree.Registry.Validate.Pass.{for_each_ind, and_then_ind}

-- A plugin cannot start if its API version is not supported, if it needs a plugin that is not
-- registered, or if it needs one that cannot start.
pub data Broken (names : List String) (info : String → PluginInfo) : String → Type 0 where
  incompatible :
      {x : String}
      → contains names x ≡ true
      → check_api_version x (info x).api_version ≢ none
      → Broken names info x
  unregistered :
      {x : String} (d : String)
      → contains names x ≡ true
      → contains (info x).dependencies d ≡ true
      → contains names d ≡ false
      → Broken names info x
  dependent :
      {x : String} (d : String)
      → contains names x ≡ true
      → contains (info x).dependencies d ≡ true
      → Broken names info d
      → Broken names info x

module _ (names : List String) (info : String → PluginInfo) where
  -- The disabled plugins are broken and optional; an error blames a required broken plugin.
  abbrev pub Blames : Option Error → Type 0
  Blames none = Unit
  Blames (some e) = (x : String) × Broken names info x × ((info x).required ≡ true)

  abbrev pub IsSound : List String → Type 0
  IsSound disabled =
      (x : String) → contains disabled x ≡ true → Broken names info x × ((info x).required ≡ false)

  pub record SoundPass (p : Pass) : Type 0 where
    pub sound : IsSound p.0.disabled
    pub blames : Blames p.1

  -- The common shape of the bodies: a broken plugin stops the loop if it is required, and is
  -- disabled if it is optional.
  fails_sound :
      (x : String) (m m' : Marks) (e : Error)
      → SoundPass (m, none)
      → m'.disabled ≡ x ∷ m.disabled
      → Broken names info x
      → SoundPass (if (info x).required then (m, some e) else (m', none))
  fails_sound x m m' e s g b = elim (Bool-cases (info x).required) [
    | inl r ↦ rw r (record { sound = s.sound; blames = (x, b, r) })
    | inr o ↦ rw o (record { sound = λ y c. added o y (cc (g)); blames = tt })
  ]
    where
      added :
          (info x).required ≡ false
          → (y : String) → contains (x ∷ m.disabled) y ≡ true
          → Broken names info y × ((info y).required ≡ false)
      added o y c = elim (==_cases x y) [
        | inl (h, p) ↦ rw (← p) (b, o)
        | inr (h, p) ↦ s.sound y (ground arith)
      ]

  api_body_sound :
      (x : String) (m : Marks)
      → contains names x ≡ true
      → SoundPass (m, none)
      → SoundPass (api_body names info x m)
  unfolding api_body
  api_body_sound x m r s = elim (Option-cases (check_api_version x (info x).api_version)) [
    | inl e ↦ rw (e, api_body) s
    | inr (er, e) ↦ rw (e, api_body) (fails_sound x m _ er s refl (incompatible r (λ z. cc (e, z))))
  ]

  -- A reported dependency is not registered, or is disabled.
  bad_dependency-Broken :
      (x : String) (disabled deps : List String) (e : Error)
      → contains names x ≡ true
      → ((d : String) → contains deps d ≡ true → contains (info x).dependencies d ≡ true)
      → IsSound disabled
      → bad_dependency names info x disabled deps ≡ some e
      → Broken names info x
  unfolding bad_dependency
  bad_dependency-Broken x disabled [] e r sub s h = absurd (cc)
  bad_dependency-Broken x disabled (d ∷ ds) e r sub s h = elim (Bool-cases (contains names d)) [
    | inr absent ↦ unregistered d r (sub d (contains_self d ds)) absent
    | inl there ↦ elim (Bool-cases (contains disabled d)) [
      | inl off ↦ dependent d r (sub d (contains_self d ds)) (s d off).0
      | inr on ↦
          bad_dependency-Broken x disabled ds e r (λ y c. sub y (contains_tail y d ds c)) s
            (ground arith)
    ]
  ]

  dependency_body_sound :
      (x : String) (m : Marks)
      → contains names x ≡ true
      → SoundPass (m, none)
      → SoundPass (dependency_body names info x m)
  unfolding dependency_body
  dependency_body_sound x m r s = elim (Bool-cases (contains m.disabled x)) [
    | inl off ↦ rw off s
    | inr on ↦
        rw on (elim (Option-cases (bad_dependency names info x m.disabled (info x).dependencies)) [
          | inl e ↦ rw (e, dependency_body) s
          | inr (er, e) ↦
              rw (e, dependency_body)
                (fails_sound x m _ er s refl (
                  bad_dependency-Broken x m.disabled (info x).dependencies er r (λ d c. c) s.sound
                    e))
        ])
  ]

  pub first_disabled-eq_some :
      (disabled deps : List String) (d : String)
      → first_disabled names info disabled deps ≡ some d
      → (contains deps d ≡ true) × (contains disabled d ≡ true)
  unfolding first_disabled
  first_disabled-eq_some disabled [] d h = absurd (cc)
  first_disabled-eq_some disabled (x ∷ xs) d h =
      ground (arith, first_disabled-eq_some disabled xs d, string_eq.same_iff x d)

  cascade_body_sound :
      (x : String) (m : Marks)
      → contains names x ≡ true
      → SoundPass (m, none)
      → SoundPass (cascade_body names info x m)
  unfolding cascade_body
  cascade_body_sound x m r s = elim (Bool-cases (contains m.disabled x)) [
    | inl off ↦ rw off s
    | inr on ↦
        rw on (elim (Option-cases (first_disabled names info m.disabled (info x).dependencies)) [
          | inl e ↦ rw (e, cascade_body) s
          | inr (d, e) ↦
              let (c, off) = first_disabled-eq_some m.disabled (info x).dependencies d e in
              rw (e, cascade_body) (fails_sound x m _ _ s refl (dependent d r c (s.sound d off).0))
        ])
  ]

  for_each_sound :
      (body : String → Marks → Pass) (visited : List String)
      → ((x : String) → contains visited x ≡ contains names x)
      → ((x : String) (m : Marks)
          → contains names x ≡ true
          → SoundPass (m, none)
          → SoundPass (body x m))
      → (m : Marks) → SoundPass (m, none)
      → SoundPass (for_each body visited m)
  for_each_sound body visited same step m s =
      for_each_ind SoundPass body visited (λ x m' c. step x m' (sym (same x) ∙ c)) m s

  and_then_sound :
      (o : Pass) (rest : Marks → Pass)
      → SoundPass o
      → ((m : Marks) → SoundPass (m, none) → SoundPass (rest m))
      → SoundPass (and_then o rest)
  and_then_sound o rest s h = and_then_ind SoundPass rest o s h

  module _ (range : MapRange) where
    pub visited : (k : ℕ) (x : String) → contains (range.visit k names) x ≡ contains names x
    visited k x = ground (
      arith,
      contains-count x names,
      contains-count x (range.visit k names),
      range.visit_count k names x,
    )

    cascade_sound :
        (fuel k : ℕ) (m : Marks)
        → SoundPass (m, none)
        → SoundPass (cascade names info range fuel k m)
    unfolding cascade
    cascade_sound zero k m s = s
    cascade_sound (suc fuel) k m s =
        and_then_sound _ _
          (for_each_sound (cascade_body names info) (range.visit k names) (visited k)
            cascade_body_sound _ (record { sound = s.sound; blames = tt }))
          λ m' s'. again m' (cascade_sound fuel (k + 1) m' s') s'
      where
        again :
            (m' : Marks)
            → SoundPass (cascade names info range fuel (k + 1) m')
            → SoundPass (m', none)
            → SoundPass (elim m'.changed [
              | true ↦ cascade names info range fuel (k + 1) m'
              | false ↦ (m', none)
            ])
        again m' c s' = elim (Bool-cases m'.changed) [ inl t ↦ rw t c | inr f ↦ rw f s' ]

    pub resolve_sound : (m : Marks) → SoundPass (m, none) → SoundPass (resolve names info range m)
    unfolding resolve
    resolve_sound m s =
        and_then_sound _ _
          (and_then_sound _ _
            (for_each_sound (api_body names info) _ (visited 0) api_body_sound m s)
            (for_each_sound (dependency_body names info) _ (visited 1) dependency_body_sound))
          (cascade_sound (suc (length names)) 6)
