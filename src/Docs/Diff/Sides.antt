-- ===== src/Docs/Diff/Sides.antt =====
-- The texts that a diff speaks of.
use subnetree.Prelude.{ℕ, ◌+◌, ◌≡◌, refl, List, [], ◌∷◌, ◌++◌, arith}
use subnetree.Docs.Diff.{DiffLine, context, add, remove}

module _ {A : Type 0} where
  -- What the diff says of each text: its lines with their numbers.
  abbrev pub old_side : List (DiffLine A) → List (ℕ × A)
  old_side [] = []
  old_side (l ∷ ls) = elim l.kind [
    | context ↦ (l.old_line_no, l.content) ∷ old_side ls
    | add ↦ old_side ls
    | remove ↦ (l.old_line_no, l.content) ∷ old_side ls
  ]

  abbrev pub new_side : List (DiffLine A) → List (ℕ × A)
  new_side [] = []
  new_side (l ∷ ls) = elim l.kind [
    | context ↦ (l.new_line_no, l.content) ∷ new_side ls
    | add ↦ (l.new_line_no, l.content) ∷ new_side ls
    | remove ↦ new_side ls
  ]

  abbrev pub kept : List (DiffLine A) → List A
  kept [] = []
  kept (l ∷ ls) = elim l.kind [ context ↦ l.content ∷ kept ls | add ↦ kept ls | remove ↦ kept ls ]

  -- The lines of a text, numbered behind `n`.
  abbrev pub numbered : ℕ → List A → List (ℕ × A)
  numbered n [] = []
  numbered n (x ∷ xs) = (n + 1, x) ∷ numbered (n + 1) xs

  pub old_side-append :
      (xs ys : List (DiffLine A)) → old_side (xs ++ ys) ≡ old_side xs ++ old_side ys
  old_side-append [] ys = refl
  old_side-append (x ∷ xs) ys = ground (arith, old_side-append xs ys)

  pub new_side-append :
      (xs ys : List (DiffLine A)) → new_side (xs ++ ys) ≡ new_side xs ++ new_side ys
  new_side-append [] ys = refl
  new_side-append (x ∷ xs) ys = ground (arith, new_side-append xs ys)

  pub kept-append : (xs ys : List (DiffLine A)) → kept (xs ++ ys) ≡ kept xs ++ kept ys
  kept-append [] ys = refl
  kept-append (x ∷ xs) ys = ground (arith, kept-append xs ys)
