-- ===== src/Insight/Correlation.antt =====
-- internal/insight/correlation/correlator.go: alerts that belong together. Times are nanoseconds
-- from some origin; a duration is an int64, and both the difference of two times and the absolute
-- value of a duration are computed as Go does. A map of strings is a function that gives the zero
-- value for an absent key, the map of groups a list of its keys and values in the order of
-- insertion, and the order of a `range` over a map is a parameter. `find` takes fuel, and `none`
-- means that it ran out.
pub mod Window
pub mod Forest
pub mod Joins
pub mod Pairs
pub mod Start
pub mod Groups
pub mod Build
pub mod Members
pub mod Spec
pub mod Decided
pub mod Correct
use subnetree.Prelude.{
  ℕ, zero, suc, ◌+◌, ◌-◌, ◌^◌, String, Bool, true, false, not, ◌&&◌, ◌||◌, Option, none, some, List,
  [], ◌∷◌, ◌++◌, map, length, ◌==◌, string_eq, nat_eq, if◌then◌else◌, ltb, leb, contains, update,
  MapRange, ℤ, pos, negsuc, ltb_ℤ,
}

pub record Alert : Type 0 where
  pub device_id : String
  pub metric : String
  pub timestamp : ℕ

pub record TopologyEdge : Type 0 where
  pub source_id : String
  pub target_id : String

pub record Group : Type 0 where
  pub device_ids : List String
  pub alerts : List Alert
  pub root_cause : String

-- -min_duration is the least int64.
unfoldable pub min_duration : ℕ
min_duration = 2 ^ 63

-- Time.Sub: a difference out of range is the least or the greatest duration.
unfoldable pub sub_time : ℕ → ℕ → ℤ
sub_time t u =
    if leb u t
    then (if ltb (t - u) min_duration then pos (t - u) else pos (min_duration - 1))
    else (if ltb (u - t) min_duration then negsuc (u - t - 1) else negsuc (min_duration - 1))

-- The negation of the least duration is that duration again.
unfoldable pub abs_duration : ℤ → ℤ
abs_duration (pos n) = pos n
abs_duration (negsuc n) = if suc n == min_duration then negsuc n else pos (suc n)

unfoldable pub within : ℤ → ℕ → ℕ → Bool
unfolding abs_duration sub_time
within window t u = not (ltb_ℤ window (abs_duration (sub_time t u)))

abbrev pub Links : Type 0
Links = String → String → Bool

unfoldable pub add_link : String → String → Links → Links
add_link s t adj = update adj s (update (adj s) t true)

unfoldable pub adjacency : List TopologyEdge → Links → Links
unfolding add_link
adjacency [] adj = adj
adjacency (e ∷ es) adj =
    adjacency es (add_link e.target_id e.source_id (add_link e.source_id e.target_id adj))

abbrev pub no_links : Links
no_links s t = false

abbrev pub Parents : Type 0
Parents = String → String

-- The condition of the loop in `find`.
abbrev pub climbs : Parents → String → Bool
climbs parent x = not (parent x == "") && not (parent x == x)

infixl 5 ◌>>=◌
abbrev pub ◌>>=◌ {ℓ κ} : {A : Type ℓ} {B : Type κ} → Option A → (A → Option B) → Option B
none >>= f = none
some a >>= f = f a

-- The root of `x`, and the parents with the path to it halved.
unfoldable pub find : ℕ → String → Parents → Option (String × Parents)
find zero x parent = none
find (suc fuel) x parent =
    let climb = find fuel (parent (parent x)) (update parent x (parent (parent x))) in
    if climbs parent x then climb else some (x, parent)

unfoldable pub link_roots : String → String → Parents → Parents
link_roots ra rb parent = if ra == rb then parent else update parent ra rb

unfoldable pub union : ℕ → String → String → Parents → Option Parents
union fuel a b parent = do
  left ← find fuel a parent
  right ← find fuel b left.1
  some (link_roots left.0 right.0 right.1)

unfoldable pub init_parents : List Alert → Parents → Parents
init_parents [] parent = parent
init_parents (a ∷ xs) parent =
    init_parents xs
      (if parent a.device_id == "" then update parent a.device_id a.device_id else parent)

-- The two tests of the inner loop.
unfoldable pub linked : Links → ℤ → Alert → Alert → Bool
linked adj window a b =
    within window a.timestamp b.timestamp
    && (a.device_id == b.device_id || adj a.device_id b.device_id)

unfoldable pub join_pair : ℕ → Links → ℤ → Alert → Alert → Parents → Option Parents
join_pair fuel adj window a b parent =
    if linked adj window a b then union fuel a.device_id b.device_id parent else some parent

unfoldable pub join_with : ℕ → Links → ℤ → Alert → List Alert → Parents → Option Parents
join_with fuel adj window a [] parent = some parent
join_with fuel adj window a (b ∷ bs) parent = do
  next ← join_pair fuel adj window a b parent
  join_with fuel adj window a bs next

unfoldable pub join_all : ℕ → Links → ℤ → List Alert → Parents → Option Parents
join_all fuel adj window [] parent = some parent
join_all fuel adj window (a ∷ xs) parent = do
  next ← join_with fuel adj window a xs parent
  join_all fuel adj window xs next

abbrev pub Groups : Type 0
Groups = List (String × List Alert)

unfoldable pub add_alert : String → Alert → Groups → Groups
add_alert root a [] = (root, a ∷ []) ∷ []
add_alert root a ((r, xs) ∷ gs) =
    if r == root then (r, xs ++ a ∷ []) ∷ gs else (r, xs) ∷ add_alert root a gs

unfoldable pub collect : ℕ → List Alert → Parents → Groups → Option Groups
collect fuel [] parent gs = some gs
collect fuel (a ∷ xs) parent gs = do
  found ← find fuel a.device_id parent
  collect fuel xs found.1 (add_alert found.0 a gs)

abbrev pub alerts_of : String → Groups → List Alert
alerts_of r [] = []
alerts_of r ((q, xs) ∷ gs) = if q == r then xs else alerts_of r gs

abbrev pub roots : Groups → List String
roots [] = []
roots ((r, xs) ∷ gs) = r ∷ roots gs

-- The keys of `deviceSet`.
unfoldable pub device_set : List Alert → List String → List String
device_set [] ds = ds
device_set (a ∷ xs) ds = device_set xs (if contains ds a.device_id then ds else a.device_id ∷ ds)

unfoldable pub earliest : Alert → List Alert → Alert
earliest best [] = best
earliest best (a ∷ xs) = earliest (if ltb a.timestamp best.timestamp then a else best) xs

-- How many pairs of alerts the loops compare.
unfoldable pub pairs : List Alert → ℕ
pairs [] = 0
pairs (a ∷ xs) = length xs + pairs xs

module _ (order : MapRange) where
  -- The body of the loop over the groups, for the n-th of them.
  unfoldable pub make_group : ℕ → List Alert → Option Group
  make_group n [] = none
  make_group n (a ∷ xs) =
      let devices = device_set (a ∷ xs) [] in
      if ltb (length devices) 2
      then none
      else some (record {
        device_ids = order.visit (suc n) devices;
        alerts = a ∷ xs;
        root_cause = (earliest a xs).device_id;
      })

  unfoldable pub build : ℕ → Groups → List String → List Group
  build n gs [] = []
  build n gs (r ∷ rs) =
      let rest = build (suc n) gs rs in
      elim (make_group n (alerts_of r gs)) [ none ↦ rest | some g ↦ g ∷ rest ]

  unfoldable pub correlate : List Alert → List TopologyEdge → ℤ → Option (List Group)
  correlate alerts topology window = if ltb (length alerts) 2 then some [] else do
    let fuel = suc (pairs alerts)
    parent ←
        join_all fuel (adjacency topology no_links) window alerts (init_parents alerts (λ x. ""))
    gs ← collect fuel alerts parent []
    some (build 0 gs (order.visit 0 (roots gs)))
