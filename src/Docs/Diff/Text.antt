-- ===== src/Docs/Diff/Text.antt =====
-- ComputeDiff of texts: nothing of either text is lost, the line breaks included.
use subnetree.Prelude.{
  ℕ, ◌+◌, ◌≡◌, refl, ap, ◌∙◌, List, [], ◌∷◌, ◌++◌, append_assoc, some, ◌==◌, nat_eq, bytes_eq,
  Bool-cases, ==_cases, inl, inr,
}
use subnetree.Docs.Diff.{newline, split_from, split_lines, DiffLine, compute_diff}
use subnetree.Docs.Diff.Lines.{diff_lines-Sides}
use subnetree.Docs.Diff.Sides.{old_side, new_side, numbered}

-- Lines joined by line breaks.
abbrev join_rest : List (List ℕ) → List ℕ
join_rest [] = []
join_rest (l ∷ ls) = newline ∷ (l ++ join_rest ls)

abbrev pub join_lines : List (List ℕ) → List ℕ
join_lines [] = []
join_lines (l ∷ ls) = l ++ join_rest ls

split_from_nonempty :
    (line cs : List ℕ) → join_rest (split_from line cs) ≡ newline ∷ join_lines (split_from line cs)
unfolding split_from
split_from_nonempty line [] = refl
split_from_nonempty line (c ∷ cs) = elim (Bool-cases (c == newline)) [
  | inl h ↦ rw h refl
  | inr h ↦ rw h (split_from_nonempty (line ++ c ∷ []) cs)
]

join_lines-split_from : (line cs : List ℕ) → join_lines (split_from line cs) ≡ line ++ cs
unfolding split_from
join_lines-split_from line [] = refl
join_lines-split_from line (c ∷ cs) =
    let again = join_lines-split_from [] cs in
    let longer = join_lines-split_from (line ++ c ∷ []) cs in
    let first = split_from_nonempty [] cs in
    elim (==_cases c newline) [
      | inl (h, p) ↦ rw h (ap (λ r. line ++ r) (cc (first, again, p)))
      | inr (h, p) ↦ rw h (longer ∙ append_assoc line (c ∷ []) cs)
    ]

-- Joining the lines of a text gives the text back.
pub join_lines-split_lines : (text : List ℕ) → join_lines (split_lines text) ≡ text
unfolding split_lines
join_lines-split_lines [] = refl
join_lines-split_lines (c ∷ cs) = join_lines-split_from [] (c ∷ cs)

abbrev pub contents : List (ℕ × List ℕ) → List (List ℕ)
contents [] = []
contents (l ∷ ls) = l.1 ∷ contents ls

contents-numbered : (n : ℕ) (xs : List (List ℕ)) → contents (numbered n xs) ≡ xs
contents-numbered n [] = refl
contents-numbered n (x ∷ xs) = ap (λ r. x ∷ r) (contents-numbered (n + 1) xs)

-- ComputeDiff always returns a diff. Its context and removed lines, joined, are the old text, and
-- its context and added lines, joined, are the new text.
pub compute_diff-texts :
    (old updated : List ℕ)
    → (ls : List (DiffLine (List ℕ))) × (compute_diff old updated ≡ some ls)
      × (join_lines (contents (old_side ls)) ≡ old)
      × (join_lines (contents (new_side ls)) ≡ updated)
unfolding compute_diff
compute_diff-texts old updated =
    let (ls, m, a, b, c) = diff_lines-Sides (split_lines old) (split_lines updated) in
    (
      ls,
      m,
      ap (λ l. join_lines (contents l)) a
          ∙ ap join_lines (contents-numbered 0 (split_lines old))
          ∙ join_lines-split_lines old,
      ap (λ l. join_lines (contents l)) b
          ∙ ap join_lines (contents-numbered 0 (split_lines updated))
          ∙ join_lines-split_lines updated,
    )
