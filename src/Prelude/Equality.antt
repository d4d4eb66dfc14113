-- ===== src/Prelude/Equality.antt =====
-- Go's `==` on strings and numbers: one operator for every type that has a Boolean equality.
use Prim.Native.Nat.{ℕ, compare, Ordering}
use Prim.Native.String.{String}
use mathlib.Core.Path.{◌≡◌, refl}
use mathlib.Core.Logic.{◌↔◌, ◌⊎◌, inl, inr, ◌≢◌}
use mathlib.Core.Bool.{Bool, true, false, ◌&&◌}
use mathlib.Core.List.{List, [], ◌∷◌}
use native.Mathlib.Omega.{arith}
use text.Mathlib.Text.{◌==◌ as same_string}
use text.Mathlib.TextEquality.{eq_iff}
use subnetree.Prelude.Tests.{Bool-cases}

abbrev pub same_nat : ℕ → ℕ → Bool
same_nat a b = elim (compare a b) [ Ordering.eq ↦ true | _ ↦ false ]

pub same_nat_iff : (a b : ℕ) → (same_nat a b ≡ true) ↔ (a ≡ b)
same_nat_iff a b = ground arith

-- Texts are compared byte by byte.
abbrev pub same_bytes : List ℕ → List ℕ → Bool
same_bytes [] [] = true
same_bytes [] (y ∷ ys) = false
same_bytes (x ∷ xs) [] = false
same_bytes (x ∷ xs) (y ∷ ys) = same_nat x y && same_bytes xs ys

pub same_bytes_iff : (a b : List ℕ) → (same_bytes a b ≡ true) ↔ (a ≡ b)
same_bytes_iff [] [] = ground arith
same_bytes_iff [] (y ∷ ys) = ground arith
same_bytes_iff (x ∷ xs) [] = ground arith
same_bytes_iff (x ∷ xs) (y ∷ ys) = ground (arith, same_bytes_iff xs ys, same_nat_iff x y)

-- A type whose values the program compares, with what a comparison answers.
pub record Eq {ℓ} (A : Type ℓ) : Type ℓ where
  pub same : (left right : A) → Bool
  pub same_iff : (left right : A) → (same left right ≡ true) ↔ (left ≡ right)

instance abbrev pub bytes_eq : Eq (List ℕ)
bytes_eq = record { same = same_bytes; same_iff = same_bytes_iff }

instance abbrev pub nat_eq : Eq ℕ
nat_eq = record { same = same_nat; same_iff = same_nat_iff }

instance abbrev pub string_eq : Eq String
string_eq = record { same = same_string; same_iff = eq_iff }

infix 50 ◌==◌
abbrev pub ◌==◌ {ℓ} : {A : Type ℓ} ⦃eq : Eq A⦄ → (left right : A) → Bool
◌==◌ ⦃eq⦄ left right = eq.same left right

module _ {ℓ} {A : Type ℓ} ⦃e : Eq A⦄ where
  pub ==_refl : (a : A) → (a == a) ≡ true
  ==_refl a = (e.same_iff a a).1 refl

  pub ==_cases : (a b : A) → ((a == b) ≡ true) × (a ≡ b) ⊎ ((a == b) ≡ false) × (a ≢ b)
  ==_cases a b = elim (Bool-cases (a == b)) [
    | inl h ↦ inl (h, (e.same_iff a b).0 h)
    | inr h ↦ inr (h, λ p. ground (arith, (e.same_iff a b).1 p))
  ]
