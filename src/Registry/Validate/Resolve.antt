-- ===== src/Registry/Validate/Resolve.antt =====
-- Where the three checks of Registry.Validate pass, every broken plugin is disabled.
use subnetree.Prelude.{
  ℕ, zero, suc, ◌+◌, ◌≡◌, refl, sym, ◌∙◌, ap, subst, String, true, false, not, List, [], ◌∷◌, none,
  some, string_eq, contains, length, length-keep-le, arith, ◌⊎◌, inl, inr, Option-cases, Bool-cases,
  MapRange, contains_self,
}
use subnetree.Registry.Types.{PluginInfo}
use subnetree.Registry.Validate.{
  Marks, Pass, and_then, for_each, check_api_version, api_body, bad_dependency, dependency_body,
  first_disabled, cascade_body, cascade, resolve,
}
use subnetree.Registry.Validate.Pass.{for_each_ind, for_each_all, and_then_ind}
use subnetree.Registry.Validate.Broken.{Broken, incompatible, unregistered, dependent, visited}
use subnetree.Registry.Validate.Cascade.{IsClosed, cascade-IsClosed}

module _ (names : List String) (info : String → PluginInfo) (range : MapRange) where
  -- No pass enables a plugin again.
  record Keeps (x : String) (o : Pass) : Type 0 where
    off : contains o.0.disabled x ≡ true

  api_body-Keeps :
      (x y : String) (m : Marks) → Keeps x (m, none) → Keeps x (api_body names info y m)
  unfolding api_body
  api_body-Keeps x y m h = record { off = ground (arith, h.off) }

  dependency_body-Keeps :
      (x y : String) (m : Marks) → Keeps x (m, none) → Keeps x (dependency_body names info y m)
  unfolding dependency_body
  dependency_body-Keeps x y m h = record { off = ground (arith, h.off) }

  cascade_body-Keeps :
      (x y : String) (m : Marks) → Keeps x (m, none) → Keeps x (cascade_body names info y m)
  unfolding cascade_body
  cascade_body-Keeps x y m h = record { off = ground (arith, h.off) }

  cascade-Keeps :
      (x : String) (fuel k : ℕ) (m : Marks)
      → Keeps x (m, none)
      → Keeps x (cascade names info range fuel k m)
  unfolding cascade
  cascade-Keeps x zero k m h = h
  cascade-Keeps x (suc fuel) k m h =
      and_then_ind (Keeps x) _ _
        (for_each_ind (Keeps x) (cascade_body names info) (range.visit k names)
          (λ y m' _. cascade_body-Keeps x y m') (record m { changed = false })
          (record { off = h.off }))
        λ m' h'. again m' h' (cascade-Keeps x fuel (k + 1) m' h')
    where
      again :
          (m' : Marks)
          → Keeps x (m', none)
          → Keeps x (cascade names info range fuel (k + 1) m')
          → Keeps x (elim m'.changed [
            | true ↦ cascade names info range fuel (k + 1) m'
            | false ↦ (m', none)
          ])
      again m' h' c = elim (Bool-cases m'.changed) [ inl t ↦ rw t c | inr f ↦ rw f h' ]

  -- What the first two loops establish of each plugin.
  abbrev Supported : String → Marks → Type 0
  Supported x m = (check_api_version x (info x).api_version ≡ none) ⊎ (contains m.disabled x ≡ true)

  abbrev Supplied : String → Marks → Type 0
  Supplied x m =
      ((d : String) → contains (info x).dependencies d ≡ true → contains names d ≡ true)
      ⊎ (contains m.disabled x ≡ true)

  api_body-Supported :
      (x : String) (m : Marks)
      → (api_body names info x m).1 ≡ none
      → Supported x (api_body names info x m).0
  unfolding api_body
  api_body-Supported x m h = ground (arith, contains_self x m.disabled)

  bad_dependency-none :
      (x : String) (disabled deps : List String) (d : String)
      → bad_dependency names info x disabled deps ≡ none
      → contains deps d ≡ true
      → contains names d ≡ true
  unfolding bad_dependency
  bad_dependency-none x disabled [] d h c = absurd (cc)
  bad_dependency-none x disabled (y ∷ ys) d h c =
      ground (arith, bad_dependency-none x disabled ys d, string_eq.same_iff y d)

  dependency_body-Supplied :
      (x : String) (m : Marks)
      → (dependency_body names info x m).1 ≡ none
      → Supplied x (dependency_body names info x m).0
  unfolding dependency_body
  dependency_body-Supplied x m h = elim (Bool-cases (contains m.disabled x)) [
    | inl off ↦ inr (rw off off)
    | inr on ↦ elim (Option-cases (bad_dependency names info x m.disabled (info x).dependencies)) [
      | inl e ↦ inl (λ d c. bad_dependency-none x m.disabled (info x).dependencies d e c)
      | inr (er, e) ↦ inr (ground (arith, contains_self x m.disabled))
    ]
  ]

  kept :
      {body : String → Marks → Pass}
      → ((x y : String) (m : Marks) → Keeps x (m, none) → Keeps x (body y m))
      → {A : Type 0} (x y : String) (m : Marks) → A ⊎ (contains m.disabled x ≡ true)
      → A ⊎ (contains (body y m).0.disabled x ≡ true)
  kept keeps x y m (inl a) = inl a
  kept keeps x y m (inr h) = inr (keeps x y m (record { off = h })).off

  -- Where all loops pass, the marks are as the loops promise.
  pub record Resolved (disabled : List String) : Type 0 where
    pub supported :
        (x : String)
        → contains names x ≡ true
        → (check_api_version x (info x).api_version ≡ none) ⊎ (contains disabled x ≡ true)
    pub supplied :
        (x d : String)
        → contains names x ≡ true
        → contains (info x).dependencies d ≡ true
        → (contains names d ≡ true) ⊎ (contains disabled x ≡ true)
    pub closed : IsClosed names info disabled

  pub first_disabled-none :
      (disabled deps : List String) (d : String)
      → first_disabled names info disabled deps ≡ none
      → contains deps d ≡ true
      → contains disabled d ≡ false
  unfolding first_disabled
  first_disabled-none disabled [] d h c = absurd (cc)
  first_disabled-none disabled (y ∷ ys) d h c =
      ground (arith, first_disabled-none disabled ys d, string_eq.same_iff y d)

  -- Then every broken plugin is disabled.
  pub Broken-disabled :
      (disabled : List String)
      → Resolved disabled
      → (x : String) → Broken names info x
      → contains disabled x ≡ true
  Broken-disabled disabled r x (incompatible n bad) = elim (r.supported x n) [
    | inl good ↦ absurd (bad good)
    | inr off ↦ off
  ]
  Broken-disabled disabled r x (unregistered d n c absent) = elim (r.supplied x d n c) [
    | inl there ↦ absurd (cc)
    | inr off ↦ off
  ]
  Broken-disabled disabled r x (dependent d n c b) =
      let off = Broken-disabled disabled r d b in
      elim (Bool-cases (contains disabled x)) [
        | inl t ↦ t
        | inr on ↦
            absurd
              (cc (first_disabled-none disabled (info x).dependencies d (r.closed x n on) c, off))
      ]

  and_then-eq-none :
      (o : Pass) (rest : Marks → Pass)
      → (and_then o rest).1 ≡ none
      → (o.1 ≡ none) × (and_then o rest ≡ rest o.0)
  and_then-eq-none (m, none) rest h = (refl, refl)
  and_then-eq-none (m, some e) rest h = absurd (cc)

  module _ (m : Marks) where
    abbrev api_pass : Pass
    api_pass = for_each (api_body names info) (range.visit 0 names) m

    abbrev both_passes : Pass
    both_passes = and_then api_pass (for_each (dependency_body names info) (range.visit 1 names))

    Supported-after :
        (x : String) → contains names x ≡ true → both_passes.1 ≡ none → Supported x both_passes.0
    Supported-after x n h =
        let (e, q) = and_then-eq-none api_pass _ h in
        subst (λ (o : Pass). Supported x o.0) (sym q)
          (for_each_ind (λ o. Supported x o.0) (dependency_body names info) (range.visit 1 names)
            (λ y m' _. kept dependency_body-Keeps x y m') api_pass.0
            (for_each_all Supported (api_body names info) api_body-Supported
              (λ y z m' s. kept api_body-Keeps y z m' s) (range.visit 0 names) m e x
              (inl (visited names info range 0 x ∙ n))))

    Supplied-after :
        (x : String) → contains names x ≡ true → both_passes.1 ≡ none → Supplied x both_passes.0
    Supplied-after x n h =
        let (e, q) = and_then-eq-none api_pass _ h in
        subst (λ (o : Pass). Supplied x o.0) (sym q)
          (for_each_all Supplied (dependency_body names info) dependency_body-Supplied
            (λ y z m' s. kept dependency_body-Keeps y z m' s) (range.visit 1 names) api_pass.0
            (ap (λ (o : Pass). o.1) (sym q) ∙ h) x (inl (visited names info range 1 x ∙ n)))

    pub resolve-Resolved :
        (resolve names info range m).1 ≡ none → Resolved (resolve names info range m).0.disabled
    unfolding resolve
    resolve-Resolved h =
        subst (λ (o : Pass). Resolved o.0.disabled) (sym q)
          (record {
            supported =
                λ x n. elim (Supported-after x n e) [ inl a ↦ inl a | inr b ↦ inr (still x b) ];
            supplied = λ x d n c. elim (Supplied-after x n e) [
              | inl a ↦ inl (a d c)
              | inr b ↦ inr (still x b)
            ];
            closed =
                cascade-IsClosed names info range (suc (length names)) 6 both_passes.0
                  (omega
                    (arith, length-keep-le (λ n. not (contains both_passes.0.disabled n)) names))
                  (ap (λ (o : Pass). o.1) (sym q) ∙ h);
          })
      where
        rest : Marks → Pass
        rest = cascade names info range (suc (length names)) 6

        e : both_passes.1 ≡ none
        e = (and_then-eq-none both_passes rest h).0

        q : and_then both_passes rest ≡ rest both_passes.0
        q = (and_then-eq-none both_passes rest h).1

        still :
            (x : String)
            → contains both_passes.0.disabled x ≡ true
            → contains (rest both_passes.0).0.disabled x ≡ true
        still x b = (cascade-Keeps x (suc (length names)) 6 both_passes.0 (record { off = b })).off
