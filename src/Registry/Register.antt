-- ===== src/Registry/Register.antt =====
-- Registry.Register: what a registry may hold, and the look-ups behind it.
use subnetree.Prelude.{
  ◌≤◌, ◌≡◌, ◌≢◌, ◌↔◌, refl, ap, String, true, false, List, [], ◌∷◌, ◌++◌, none, some, ◌==◌,
  string_eq, if◌then◌else◌, contains, contains-count, count, count-append, arith,
}
use subnetree.Registry.Types.{Plugin, Registry, new, name_of, names_of, lookup}
use subnetree.Registry.Validate.{register}

-- Before Validate: every plugin has a name of its own, and nothing is disabled or ordered.
pub record IsWellFormed (r : Registry) : Type 0 where
  pub once : (x : String) → count x (names_of r.plugins) ≤ 1
  pub named : contains (names_of r.plugins) "" ≡ false
  pub fresh : r.disabled ≡ []
  pub unordered : r.order ≡ []

pub new-IsWellFormed : IsWellFormed new
new-IsWellFormed = record { once = λ x. omega arith; named = refl; fresh = refl; unordered = refl }

names_of-append : (xs ys : List Plugin) → names_of (xs ++ ys) ≡ names_of xs ++ names_of ys
names_of-append [] ys = refl
names_of-append (x ∷ xs) ys = ap (λ l. name_of x ∷ l) (names_of-append xs ys)

-- A look-up finds a plugin exactly under a name that is registered.
pub contains-lookup :
    (x : String) (ps : List Plugin)
    → contains (names_of ps) x ≡ elim (lookup x ps) [ none ↦ false | some _ ↦ true ]
contains-lookup x [] = refl
contains-lookup x (p ∷ ps) = ground (arith, contains-lookup x ps)

lookup-append :
    (x : String) (ps qs : List Plugin)
    → lookup x (ps ++ qs) ≡ elim (lookup x ps) [ none ↦ lookup x qs | some p ↦ some p ]
lookup-append x [] qs = refl
lookup-append x (p ∷ ps) qs = ground (arith, lookup-append x ps qs)

-- Register keeps a registry well-formed, its names distinct and not empty, whether it accepts the
-- plugin or not.
pub register-IsWellFormed :
    (r : Registry) (p : Plugin) → IsWellFormed r → IsWellFormed (register r p).0
unfolding register
register-IsWellFormed r p v = record {
  once = λ x. ground (
    arith,
    v.once x,
    names_of-append r.plugins (p ∷ []),
    count-append x (names_of r.plugins) (name_of p ∷ []),
    contains-lookup (name_of p) r.plugins,
    contains-count x (names_of r.plugins),
    string_eq.same_iff (name_of p) x,
  );
  named = ground (
    arith,
    v.named,
    names_of-append r.plugins (p ∷ []),
    count-append "" (names_of r.plugins) (name_of p ∷ []),
    contains-count "" (names_of r.plugins),
    contains-count "" (names_of r.plugins ++ name_of p ∷ []),
  );
  fresh = ground (arith, v.fresh);
  unordered = ground (arith, v.unordered);
}

-- Register accepts a plugin exactly if its name is not empty and not taken. Then it is found under
-- its name and all else as before; a refused plugin changes nothing.
pub register-lookup :
    (r : Registry) (p : Plugin)
    → (((register r p).1 ≡ none)
        ↔ ((name_of p ≢ "") × (contains (names_of r.plugins) (name_of p) ≡ false)))
      × ((register r p).1 ≢ none → (register r p).0 ≡ r)
      × ((x : String)
          → (register r p).1 ≡ none
          → lookup x (register r p).0.plugins
            ≡ (if name_of p == x then some p else lookup x r.plugins))
unfolding register
register-lookup r p = (
  (
    λ h. (
      λ e. ground (arith, string_eq.same_iff (name_of p) ""),
      ground (arith, contains-lookup (name_of p) r.plugins),
    ),
    λ h.
        ground (
          arith,
          h.0,
          h.1,
          contains-lookup (name_of p) r.plugins,
          string_eq.same_iff (name_of p) "",
        ),
  ),
  λ h. ground arith,
  λ x h. ground (
    arith,
    lookup-append x r.plugins (p ∷ []),
    contains-lookup (name_of p) r.plugins,
    contains-lookup x r.plugins,
    string_eq.same_iff (name_of p) x,
  ),
)
