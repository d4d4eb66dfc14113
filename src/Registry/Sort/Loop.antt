-- ===== src/Registry/Sort/Loop.antt =====
-- The loop of Kahn's algorithm: its invariant, and that one round for each plugin drains the queue.
use subnetree.Prelude.{
  ℕ, zero, suc, ◌+◌, ◌*◌, ◌≡◌, ◌≤◌, ◌<◌, refl, String, true, ◌&&◌, List, [], ◌∷◌, ◌++◌, ◌==◌,
  nat_eq, string_eq, if◌then◌else◌, contains, contains-count, count, count-append, contains_self,
  contains_tail, length, length-append, length-le_of_counts, append-nil, append_assoc, arith,
}
use subnetree.Registry.Sort.{Sorting, release, drain}
use subnetree.Registry.Sort.Degree.{unmet, unmet_snoc, unmet_zero, release-in_degree, count-release}

-- Every active dependency of a plugin stands before it: in `before` or earlier in the list.
abbrev pub DepsFirst : List String → (String → List String) → List String → List String → Type 0
DepsFirst active deps before [] = Unit
DepsFirst active deps before (x ∷ xs) =
    ((d : String) → contains (deps x) d ≡ true → contains active d ≡ true → 0 < count d before)
    × DepsFirst active deps (before ++ x ∷ []) xs

-- Every dependency of a plugin stands before it.
abbrev pub DepsBefore : (String → List String) → List String → List String → Type 0
DepsBefore deps before [] = Unit
DepsBefore deps before (x ∷ xs) =
    ((d : String) → contains (deps x) d ≡ true → 0 < count d before)
    × DepsBefore deps (before ++ x ∷ []) xs

pub DepsFirst-DepsBefore :
    (active : List String) (deps : String → List String) (before xs : List String)
    → DepsFirst active deps before xs
    → ((x d : String)
        → contains xs x ≡ true
        → contains (deps x) d ≡ true
        → contains active d ≡ true)
    → DepsBefore deps before xs
DepsFirst-DepsBefore active deps before [] f a = tt
DepsFirst-DepsBefore active deps before (x ∷ xs) f a = (
  λ d m. f.0 d m (a x d (contains_self x xs) m),
  DepsFirst-DepsBefore active deps (before ++ x ∷ []) xs f.1
      (λ y d c. a y d (contains_tail y x xs c)),
)

DepsFirst-snoc :
    (active : List String) (deps : String → List String) (before xs : List String) (n : String)
    → DepsFirst active deps before xs
    → ((d : String)
        → contains (deps n) d ≡ true
        → contains active d ≡ true
        → 0 < count d (before ++ xs))
    → DepsFirst active deps before (xs ++ n ∷ [])
DepsFirst-snoc active deps before [] n f h = (λ d m a. rw append-nil at (h d m a), tt)
DepsFirst-snoc active deps before (x ∷ xs) n f h = (
  f.0,
  DepsFirst-snoc active deps (before ++ x ∷ []) xs n f.1
      λ d m a. rw (append_assoc before (x ∷ []) xs) (h d m a),
)

module _ (active : List String) (deps dependents : String → List String)
    (once : (x : String) → count x active ≤ 1)
    (edges : (x e : String)
      → count x (dependents e)
        ≡ count x active * (if contains active e then count e (deps x) else 0)) where
  pub record Inv (queue order : List String) (deg : String → ℕ) : Type 0 where
    pub degree : (x : String) → contains active x ≡ true → deg x ≡ unmet active order (deps x)
    pub placed :
        (x : String)
        → count x order + count x queue ≡ (if contains active x && (deg x == 0) then 1 else 0)

  module _ (name : String) (queue order : List String) (deg : String → ℕ)
      (inv : Inv (name ∷ queue) order deg) where
    abbrev next : List String × (String → ℕ)
    next = release (dependents name) queue deg

    -- The plugin at the head of the queue is active, not placed, and has no unmet dependency.
    head_ready :
        (contains active name ≡ true)
        × (count name order ≡ 0)
        × (unmet active order (deps name) ≡ 0)
    head_ready = (
      ground (arith, inv.placed name, string_eq.same_iff name name),
      ground (arith, inv.placed name, string_eq.same_iff name name),
      ground (arith, inv.placed name, inv.degree name, string_eq.same_iff name name),
    )

    step-degree :
        (x : String)
        → contains active x ≡ true
        → next.1 x ≡ unmet active (order ++ name ∷ []) (deps x)
    step-degree x a = grind (
      arith,
      release-in_degree (dependents name) queue deg x,
      inv.degree x a,
      edges x name,
      once x,
      contains-count x active,
      unmet_snoc active order (deps x) name head_ready.0 head_ready.1,
      head_ready.0,
    )

    step-placed :
        (x : String)
        → count x (order ++ name ∷ []) + count x next.0
          ≡ (if contains active x && (next.1 x == 0) then 1 else 0)
    step-placed x = grind (
      arith,
      release-in_degree (dependents name) queue deg x,
      count-release (dependents name) queue deg x,
      count-append x order (name ∷ []),
      inv.placed x,
      edges x name,
      once x,
      contains-count x active,
    )

    step-Inv : Inv next.0 (order ++ name ∷ []) next.1
    step-Inv = record { degree = step-degree; placed = step-placed }

  -- What the loop leaves behind.
  pub record Drained (s : Sorting) : Type 0 where
    pub empty : s.queue ≡ []
    pub inv : Inv s.queue s.order s.in_degree
    pub first : DepsFirst active deps [] s.order

  room :
      (queue order : List String) (deg : String → ℕ)
      → Inv queue order deg
      → length order + length queue ≤ length active
  room queue order deg inv = omega (
    arith,
    length-append order queue,
    length-le_of_counts (order ++ queue) active
        λ x. ground (arith, count-append x order queue, inv.placed x, contains-count x active),
  )

  -- One round for each active plugin is enough fuel.
  pub drain-Drained :
      (fuel : ℕ) (queue order : List String) (deg : String → ℕ)
      → length active ≤ fuel + length order
      → Inv queue order deg
      → DepsFirst active deps [] order
      → Drained (drain dependents fuel queue order deg)
  unfolding drain
  drain-Drained zero [] order deg h inv f = record { empty = refl; inv = inv; first = f }
  drain-Drained zero (x ∷ q) order deg h inv f = absurd (omega (arith, room (x ∷ q) order deg inv))
  drain-Drained (suc fuel) [] order deg h inv f = record { empty = refl; inv = inv; first = f }
  drain-Drained (suc fuel) (x ∷ q) order deg h inv f =
      drain-Drained fuel (next x q order deg inv).0 (order ++ x ∷ []) (next x q order deg inv).1
        (omega (arith, length-append order (x ∷ []))) (step-Inv x q order deg inv)
        (DepsFirst-snoc active deps [] order x f
          (λ d m a. unmet_zero active order (deps x) d (head_ready x q order deg inv).2 m a))
