-- ===== src/Docs/Diff/Lines.antt =====
-- What ComputeDiff emits: both texts can be read off the diff, with their line numbers.
use subnetree.Prelude.{
  ℕ, ◌+◌, ◌≡◌, refl, ◌∙◌, ap, ap₂, List, [], ◌∷◌, ◌++◌, append-nil, some, Eq, ==_cases, arith, inl,
  inr,
}
use subnetree.Docs.Diff.{
  context, DiffLine, removals_until, additions_until, removals, additions, merge, diff_lines,
  compute_lcs,
}
use subnetree.Docs.Diff.Subsequence.{Within, skip, take}
use subnetree.Docs.Diff.Table.{compute_lcs-Within}
use subnetree.Docs.Diff.Sides.{
  old_side, new_side, kept, numbered, old_side-append, new_side-append, kept-append,
}

module _ {A : Type 0} ⦃e : Eq A⦄ where
  abbrev Sides : List (DiffLine A) → List (ℕ × A) → List (ℕ × A) → List A → Type 0
  Sides ls old new common = (old_side ls ≡ old) × (new_side ls ≡ new) × (kept ls ≡ common)

  removals-Sides : (n : ℕ) (ys : List A) → Sides (removals n ys) (numbered n ys) [] []
  unfolding removals
  removals-Sides n [] = (refl, refl, refl)
  removals-Sides n (y ∷ ys) = let (a, b, c) = removals-Sides (n + 1) ys in (cc a, b, c)

  additions-Sides : (n : ℕ) (ys : List A) → Sides (additions n ys) [] (numbered n ys) []
  unfolding additions
  additions-Sides n [] = (refl, refl, refl)
  additions-Sides n (y ∷ ys) = let (a, b, c) = additions-Sides (n + 1) ys in (a, cc b, c)

  -- A loop up to the common line `x` finds it, with the rest of the subsequence behind it.
  record Found (side other : List (DiffLine A) → List (ℕ × A)) (x : A) (n : ℕ) (xs ys : List A)
      (o : List (DiffLine A) × ℕ × List A) : Type 0 where
    rest : List A
    found : o.2 ≡ x ∷ rest
    within : Within xs rest
    split : side o.0 ++ (o.1 + 1, x) ∷ numbered (o.1 + 1) rest ≡ numbered n ys
    none_other : other o.0 ≡ []
    none_kept : kept o.0 ≡ []

  Within-tail : {x : A} {xs ys : List A} → Within (x ∷ xs) ys → Within xs ys
  Within-tail (skip y v) = skip y (Within-tail v)
  Within-tail (take x v) = skip x v

  Within-tails : {x y : A} {xs ys : List A} → Within (x ∷ xs) (y ∷ ys) → Within xs ys
  Within-tails (skip y v) = Within-tail v
  Within-tails (take x v) = v

  Within-behind :
      {x y : A} {xs ys : List A} → Within (x ∷ xs) (y ∷ ys) → ¬ (y ≡ x) → Within (x ∷ xs) ys
  Within-behind (skip y v) h = v
  Within-behind (take x v) h = absurd (h refl)

  not-Within-nil : {x : A} {xs : List A} → ¬ Within (x ∷ xs) []
  not-Within-nil v = go v refl
    where
      go : {x : A} {xs ys : List A} → Within (x ∷ xs) ys → ¬ (ys ≡ [])
      go (skip y v) h = cc
      go (take x v) h = cc

  removals_until-Found :
      (x : A) (xs : List A) (n : ℕ) (ys : List A)
      → Within (x ∷ xs) ys
      → Found old_side new_side x n xs ys (removals_until x n ys)
  unfolding removals_until
  removals_until-Found x xs n [] v = absurd (not-Within-nil v)
  removals_until-Found x xs n (y ∷ ys) v =
      let again = removals_until-Found x xs (n + 1) ys in
      elim (==_cases y x) [
        | inl (h, p) ↦ rw h (record {
          rest = ys;
          found = cc;
          within = Within-tails v;
          split = cc;
          none_other = refl;
          none_kept = refl;
        })
        | inr (h, p) ↦
            let f = again (Within-behind v p) in
            rw h (record {
              rest = f.rest;
              found = f.found;
              within = f.within;
              split = cc (f.split);
              none_other = f.none_other;
              none_kept = f.none_kept;
            })
      ]

  additions_until-Found :
      (x : A) (xs : List A) (n : ℕ) (ys : List A)
      → Within (x ∷ xs) ys
      → Found new_side old_side x n xs ys (additions_until x n ys)
  unfolding additions_until
  additions_until-Found x xs n [] v = absurd (not-Within-nil v)
  additions_until-Found x xs n (y ∷ ys) v =
      let again = additions_until-Found x xs (n + 1) ys in
      elim (==_cases y x) [
        | inl (h, p) ↦ rw h (record {
          rest = ys;
          found = cc;
          within = Within-tails v;
          split = cc;
          none_other = refl;
          none_kept = refl;
        })
        | inr (h, p) ↦
            let f = again (Within-behind v p) in
            rw h (record {
              rest = f.rest;
              found = f.found;
              within = f.within;
              split = cc (f.split);
              none_other = f.none_other;
              none_kept = f.none_kept;
            })
      ]

  -- One round of the main loop.
  round-Sides :
      (x : A) (rs as' ls : List (DiffLine A)) (oi' ni' oi ni : ℕ)
      (xs old updated orest nrest : List A)
      → old_side rs ++ (oi' + 1, x) ∷ numbered (oi' + 1) orest ≡ numbered oi old
      → new_side rs ≡ []
      → kept rs ≡ []
      → new_side as' ++ (ni' + 1, x) ∷ numbered (ni' + 1) nrest ≡ numbered ni updated
      → old_side as' ≡ []
      → kept as' ≡ []
      → Sides ls (numbered (oi' + 1) orest) (numbered (ni' + 1) nrest) xs
      → Sides
          (rs
            ++ (as'
                ++ (record {
                  kind = context;
                  content = x;
                  old_line_no = oi' + 1;
                  new_line_no = ni' + 1;
                }
                    ∷ ls)))
          (numbered oi old)
          (numbered ni updated)
          (x ∷ xs)
  round-Sides x rs as' ls oi' ni' oi ni xs old updated orest nrest s n k s' n' k' (a, b, c) =
      let l : DiffLine A = record {
        kind = context;
        content = x;
        old_line_no = oi' + 1;
        new_line_no = ni' + 1;
      } in
      (
        old_side-append rs (as' ++ (l ∷ ls))
            ∙ ap (λ z. old_side rs ++ z)
                (old_side-append as' (l ∷ ls) ∙ ap₂ (λ y z. y ++ ((oi' + 1, x) ∷ z)) n' a)
            ∙ s,
        new_side-append rs (as' ++ (l ∷ ls))
            ∙ ap₂ (λ y z. y ++ z) n
                (new_side-append as' (l ∷ ls) ∙ ap (λ z. new_side as' ++ ((ni' + 1, x) ∷ z)) b)
            ∙ s',
        kept-append rs (as' ++ (l ∷ ls))
            ∙ ap₂ (λ y z. y ++ z) k (kept-append as' (l ∷ ls) ∙ ap₂ (λ y z. y ++ (x ∷ z)) k' c),
      )

  -- For a common subsequence the loop meets no index out of range, and the diff has both sides.
  merge-Sides :
      (xs : List A) (oi ni : ℕ) (old updated : List A)
      → Within xs old
      → Within xs updated
      → (ls : List (DiffLine A)) × (merge xs oi ni old updated ≡ some ls)
        × Sides ls (numbered oi old) (numbered ni updated) xs
  unfolding merge
  merge-Sides [] oi ni old updated v w =
      let (a, b, c) = removals-Sides oi old in
      let (a', b', c') = additions-Sides ni updated in
      let rs = removals oi old in
      let as' = additions ni updated in
      (
        rs ++ as',
        refl,
        (
          cc (old_side-append rs as', a, a', append-nil (numbered oi old)),
          cc (new_side-append rs as', b, b'),
          cc (kept-append rs as', c, c'),
        ),
      )
  merge-Sides (x ∷ xs) oi ni old updated v w =
      let f = removals_until-Found x xs oi old v in
      let g = additions_until-Found x xs ni updated w in
      let rs = (removals_until x oi old).0 in
      let oi' = (removals_until x oi old).1 in
      let as' = (additions_until x ni updated).0 in
      let ni' = (additions_until x ni updated).1 in
      let (ls, m, (a, b, c)) = merge-Sides xs (oi' + 1) (ni' + 1) f.rest g.rest f.within g.within in
      let l : DiffLine A = record {
        kind = context;
        content = x;
        old_line_no = oi' + 1;
        new_line_no = ni' + 1;
      } in
      (
        rs ++ (as' ++ (l ∷ ls)),
        ground (arith, f.found, g.found, m),
        round-Sides x rs as' ls oi' ni' oi ni xs old updated f.rest g.rest f.split f.none_other
            f.none_kept g.split g.none_other g.none_kept (a, b, c),
      )

  -- ComputeDiff of lines never reads out of range. The context and removed lines of its result are
  -- the lines of the old text, numbered from 1, the context and added lines are those of the new
  -- text, and the context lines are the subsequence that computeLCS found.
  pub diff_lines-Sides :
      (old updated : List A)
      → (ls : List (DiffLine A)) × (diff_lines old updated ≡ some ls)
        × (old_side ls ≡ numbered 0 old)
        × (new_side ls ≡ numbered 0 updated)
        × (kept ls ≡ compute_lcs old updated)
  unfolding diff_lines
  diff_lines-Sides old updated =
      let (v, w) = compute_lcs-Within old updated in
      let (ls, m, (a, b, c)) = merge-Sides (compute_lcs old updated) 0 0 old updated v w in
      (ls, m, a, b, c)
