-- ===== src/Prelude/Count.antt =====
-- How often an element stands in a list: the lists of names are compared by these numbers.
use Prim.Native.Nat.{ℕ, suc, ◌+◌, ◌-◌, ◌≤◌, ◌<◌}
use mathlib.Core.Path.{◌≡◌, refl}
use mathlib.Core.Logic.{inl, inr}
use mathlib.Core.Bool.{Bool, true, false, ◌||◌}
use mathlib.Core.List.{List, [], ◌∷◌, ◌++◌}
use native.Mathlib.Omega.{arith}
use subnetree.Prelude.Tests.{if◌then◌else◌, ltb}
use subnetree.Prelude.Lists.{length, keep}
use subnetree.Prelude.Equality.{Eq, ◌==◌, ==_cases}

module _ {ℓ} {A : Type ℓ} ⦃e : Eq A⦄ where
  -- `list` has `a`: a loop with `break`, or a look-up in a set.
  abbrev pub contains : List A → A → Bool
  contains [] a = false
  contains (x ∷ xs) a = x == a || contains xs a

  abbrev pub count : A → List A → ℕ
  count a [] = 0
  count a (x ∷ xs) = (if x == a then 1 else 0) + count a xs

  abbrev pub erase : A → List A → List A
  erase a [] = []
  erase a (x ∷ xs) = if x == a then xs else x ∷ erase a xs

  pub count-append : (a : A) (xs ys : List A) → count a (xs ++ ys) ≡ count a xs + count a ys
  count-append a [] ys = omega arith
  count-append a (x ∷ xs) ys = omega (arith, count-append a xs ys)

  pub contains-count : (a : A) (xs : List A) → contains xs a ≡ ltb 0 (count a xs)
  contains-count a [] = refl
  contains-count a (x ∷ xs) = ground (arith, contains-count a xs)

  pub count-erase :
      (a b : A) (xs : List A) → count b (erase a xs) ≡ count b xs - (if a == b then 1 else 0)
  count-erase a b [] = omega arith
  count-erase a b (x ∷ xs) =
      ground (arith, count-erase a b xs, e.same_iff a b, e.same_iff x a, e.same_iff x b)

  pub length-erase : (a : A) (xs : List A) → 0 < count a xs → suc (length (erase a xs)) ≡ length xs
  length-erase a [] h = omega arith
  length-erase a (x ∷ xs) h = ground (arith, length-erase a xs)

  pub count-keep :
      (test : A → Bool) (a : A) (xs : List A)
      → count a (keep test xs) ≡ (if test a then count a xs else 0)
  count-keep test a [] = ground arith
  count-keep test a (x ∷ xs) = elim (==_cases x a) [
    | inl (h, p) ↦ ground (arith, count-keep test a xs)
    | inr (h, p) ↦ ground (arith, count-keep test a xs)
  ]

  -- A list whose elements all stand as often in another is no longer than that one.
  pub length-le_of_counts :
      (xs ys : List A) → ((a : A) → count a xs ≤ count a ys) → length xs ≤ length ys
  length-le_of_counts [] ys h = omega arith
  length-le_of_counts (x ∷ xs) ys h = omega (
    arith,
    length-erase x ys (ground (arith, h x, e.same_iff x x)),
    length-le_of_counts xs (erase x ys) (λ a. ground (arith, h a, count-erase x a ys)),
  )

  pub length-lt_of_counts :
      (xs ys : List A) (b : A)
      → ((a : A) → count a xs ≤ count a ys)
      → count b xs < count b ys
      → length xs < length ys
  length-lt_of_counts xs ys b h lt =
      length-le_of_counts (b ∷ xs) ys (λ a. ground (arith, h a, e.same_iff b a))

  pub length_of_counts :
      (xs ys : List A) → ((a : A) → count a xs ≡ count a ys) → length xs ≡ length ys
  length_of_counts xs ys h = omega (
    arith,
    length-le_of_counts xs ys (λ a. omega (arith, h a)),
    length-le_of_counts ys xs (λ a. omega (arith, h a)),
  )

  pub contains_self : (a : A) (xs : List A) → contains (a ∷ xs) a ≡ true
  contains_self a xs = ground (arith, e.same_iff a a)

  pub contains_tail : (a b : A) (xs : List A) → contains xs a ≡ true → contains (b ∷ xs) a ≡ true
  contains_tail a b xs h = ground (arith, e.same_iff b a)
