-- ===== src/Prelude/Go.antt =====
-- What Go's run time decides: the order in which `range` visits the keys of a map. Also the results
-- of fallible functions, and maps with a default value.
use Prim.Native.Nat.{ℕ}
use Prim.Native.String.{String}
use mathlib.Core.Path.{◌≡◌, refl}
use mathlib.Core.Logic.{◌⊎◌, inl, inr}
use mathlib.Core.List.{List}
use subnetree.Prelude.Tests.{if◌then◌else◌}
use subnetree.Prelude.Equality.{◌==◌, string_eq}
use subnetree.Prelude.Count.{count}

pub data Result {ℓ κ} (E : Type ℓ) (A : Type κ) : Type (ℓ ⊔ κ) where
  ok : A → Result E A
  err : E → Result E A

pub Result-cases {ℓ κ} :
    {E : Type ℓ} {A : Type κ} (r : Result E A) → ((a : A) × (r ≡ ok a)) ⊎ ((e : E) × (r ≡ err e))
Result-cases (ok a) = inl (a, refl)
Result-cases (err e) = inr (e, refl)

-- The n-th `range` loop over a map visits its keys in some order, each key once.
pub record MapRange : Type 0 where
  pub visit : ℕ → List String → List String
  pub visit_count :
      (n : ℕ) (keys : List String) (k : String) → count k (visit n keys) ≡ count k keys

-- The order of insertion is one such order.
abbrev pub in_order : MapRange
in_order = record { visit = λ n keys. keys; visit_count = λ n keys k. refl }

-- `m[k] = v` on a map that gives a zero value for an absent key.
abbrev pub update {ℓ} : {A : Type ℓ} → (String → A) → String → A → String → A
update m k v x = if k == x then v else m x
