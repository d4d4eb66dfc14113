-- ===== src/Insight/Correlation/Forest.antt =====
-- The parents as a forest, and what `find` and `union` do to it: `find` and `union` of
-- internal/insight/correlation/correlator.go. The root of each device and a number that falls on the
-- way to it are ghosts: the code does not keep them.
use subnetree.Prelude.{
  ℕ, zero, suc, ◌<◌, String, true, false, Bool-cases, ◌≡◌, refl, some, ◌==◌, string_eq,
  if◌then◌else◌, ◌≢◌, ap, sym, ◌∙◌, inl, inr, update, arith, ==_cases,
}
use text.Mathlib.TextEquality.{eq_iff}
use subnetree.Insight.Correlation.{Parents, climbs, find}

pub record IsForest (parent : Parents) (rep : String → String) (depth : String → ℕ) : Type 0 where
  pub empty : parent "" ≡ ""
  pub climb :
      (x : String)
      → climbs parent x ≡ true
      → (depth (parent x) < depth x) × (rep (parent x) ≡ rep x)
  pub top : (x : String) → climbs parent x ≡ false → (rep x ≡ x) × (depth x ≡ 0)
  pub kept : (x : String) → (parent x == "") ≡ false → (parent (parent x) == "") ≡ false

abbrev pub SameDomain : Parents → Parents → Type 0
SameDomain parent next = (x : String) → (next x == "") ≡ (parent x == "")

module _ (parent : Parents) (rep : String → String) (depth : String → ℕ)
    (forest : IsForest parent rep depth) (x : String) where
  abbrev above : String
  above = parent (parent x)

  above-facts :
      climbs parent x ≡ true
      → (depth above < depth x) × (rep above ≡ rep x) × ((above == "") ≡ false) × (above ≢ x)
  above-facts h =
      let kept : (above == "") ≡ false = forest.kept x (ground arith) in
      elim (Bool-cases (climbs parent (parent x))) [
        | inl more ↦
            let a = forest.climb x h in
            let b = forest.climb (parent x) more in (omega arith, cc, kept, λ e. ground arith)
        | inr last ↦
            let a = forest.climb x h in
            let e : above ≡ parent x = ground (arith, eq_iff above (parent x)) in
            (rw e a.0, ap rep e ∙ a.1, kept, λ p. ground (arith, a.0, ap depth (sym e ∙ p)))
      ]

  halve-kept :
      climbs parent x ≡ true
      → (y : String) → (update parent x above y == "") ≡ false
      → (update parent x above (update parent x above y) == "") ≡ false
  halve-kept h y k =
      let facts = above-facts h in
      elim (==_cases x y) [
        | inl (e, p) ↦
            rw e (ground (arith, facts.2, facts.3, forest.kept (parent x), eq_iff x above))
        | inr (e, p) ↦ rw e (ground (arith, facts.2, forest.kept y, eq_iff x (parent y)))
      ]

  halve-IsForest : climbs parent x ≡ true → IsForest (update parent x above) rep depth
  halve-IsForest h =
      let facts = above-facts h in
      record {
        empty = ground (arith, forest.empty, eq_iff x "");
        climb = λ y more. ground (arith, facts.0, facts.1, forest.climb y, eq_iff x y);
        top = λ y last. ground (arith, facts.2, facts.3, forest.top y, eq_iff x y, eq_iff above x);
        kept = halve-kept h;
      }

  halve-SameDomain : climbs parent x ≡ true → SameDomain parent (update parent x above)
  halve-SameDomain h y = ground (arith, (above-facts h).2, eq_iff x y)

-- What `find` answers, and what it leaves of the parents.
pub record Found (fuel : ℕ) (x : String) (parent : Parents) (rep : String → String)
    (depth : String → ℕ) : Type 0 where
  pub next : Parents
  pub runs : find fuel x parent ≡ some (rep x, next)
  pub forest : IsForest next rep depth
  pub domain : SameDomain parent next
  pub root : climbs next (rep x) ≡ false

pub find-Found :
    (fuel : ℕ) (x : String) (parent : Parents) (rep : String → String) (depth : String → ℕ)
    → IsForest parent rep depth
    → depth x < fuel
    → Found fuel x parent rep depth
unfolding find
find-Found zero x parent rep depth forest h = absurd (omega arith)
find-Found (suc fuel) x parent rep depth forest h = elim (Bool-cases (climbs parent x)) [
  | inl more ↦
      let y = parent (parent x) in
      let facts = above-facts parent rep depth forest x more in
      let found =
        find-Found fuel y (update parent x y) rep depth
          (halve-IsForest parent rep depth forest x more) (omega arith) in
      record {
        next = found.next;
        runs = rw (more, ← facts.1) found.runs;
        forest = found.forest;
        domain = λ z. found.domain z ∙ halve-SameDomain parent rep depth forest x more z;
        root = rw (← facts.1) found.root;
      }
  | inr last ↦ record {
    next = parent;
    runs = ground (arith, forest.top x last);
    forest = forest;
    domain = λ z. refl;
    root = rw (forest.top x last).0 last;
  }
]

-- The root of a device that has a parent has one.
pub rep-kept :
    (fuel : ℕ) (x : String) {parent : Parents} {rep : String → String} {depth : String → ℕ}
    → IsForest parent rep depth
    → depth x < fuel
    → (parent x == "") ≡ false
    → (parent (rep x) == "") ≡ false
rep-kept zero x forest h k = absurd (omega arith)
rep-kept (suc fuel) x {parent} forest h k = elim (Bool-cases (climbs parent x)) [
  | inl more ↦
      let a = forest.climb x more in
      rw (← a.1) (rep-kept fuel (parent x) forest (omega arith) (forest.kept x k))
  | inr last ↦ rw (forest.top x last).0 k
]

pub set-ne-empty :
    (x : String) {parent : Parents} {rep : String → String} {depth : String → ℕ}
    → IsForest parent rep depth
    → (parent x == "") ≡ false
    → (x == "") ≡ false
set-ne-empty x {parent} forest h = elim (==_cases x "") [
  | inl (e, p) ↦ ground (arith, forest.empty, ap parent p, eq_iff (parent x) "")
  | inr (e, p) ↦ e
]

-- The ghosts after the tree of `ra` was hung below `rb`.
abbrev pub hung_below : (String → String) → String → String → String → String
hung_below rep ra rb x = if rep x == ra then rb else rep x

abbrev pub deepen : (String → String) → String → (String → ℕ) → String → ℕ
deepen rep ra depth x = if rep x == ra then suc (depth x) else depth x

module _ (parent : Parents) (rep : String → String) (depth : String → ℕ)
    (forest : IsForest parent rep depth) (ra rb : String) (differ : (ra == rb) ≡ false)
    (left : climbs parent ra ≡ false) (right : climbs parent rb ≡ false)
    (left_set : (parent ra == "") ≡ false) (right_set : (parent rb == "") ≡ false) where
  abbrev pub linked_parents : Parents
  linked_parents = update parent ra rb

  link-climb :
      (x : String)
      → climbs linked_parents x ≡ true
      → (deepen rep ra depth (linked_parents x) < deepen rep ra depth x)
        × (hung_below rep ra rb (linked_parents x) ≡ hung_below rep ra rb x)
  link-climb x h = elim (==_cases ra x) [
    | inl (e, p) ↦ ground (
      arith,
      e,
      ap rep p,
      ap depth p,
      forest.top ra left,
      forest.top rb right,
      eq_iff ra rb,
      eq_iff (rep x) ra,
      eq_iff (rep rb) ra,
    )
    | inr (e, p) ↦ ground (arith, e, forest.climb x)
  ]

  link-kept :
      (x : String)
      → (linked_parents x == "") ≡ false
      → (linked_parents (linked_parents x) == "") ≡ false
  link-kept x h = ground (arith, forest.kept x, set-ne-empty rb forest right_set)

  pub link-IsForest : IsForest linked_parents (hung_below rep ra rb) (deepen rep ra depth)
  link-IsForest = record {
    empty = ground (arith, forest.empty, set-ne-empty ra forest left_set);
    climb = link-climb;
    top = λ x h. ground (
      arith,
      h,
      forest.top x,
      differ,
      set-ne-empty rb forest right_set,
      eq_iff (rep x) ra,
      eq_iff ra x,
      eq_iff ra rb,
      eq_iff rb x,
      eq_iff x ra,
    );
    kept = link-kept;
  }
