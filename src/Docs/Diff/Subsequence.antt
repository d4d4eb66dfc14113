-- ===== src/Docs/Diff/Subsequence.antt =====
-- Subsequences, and the length of a longest common one by the textbook recursion.
use subnetree.Prelude.{
  ℕ, ◌+◌, ◌≤◌, ◌≡◌, refl, sym, subst, List, [], ◌∷◌, ◌++◌, reverse, reverse-cons, append-nil, Eq,
  ◌==◌, ==_cases, Bool-cases, leb, if◌then◌else◌, length, arith, inl, inr,
}

-- `Within xs ys`: the lines `xs` stand in `ys` in this order.
pub data Within {A : Type 0} : List A → List A → Type 0 where
  nil : Within [] []
  skip : {xs ys : List A} (y : A) → Within xs ys → Within xs (y ∷ ys)
  take : {xs ys : List A} (x : A) → Within xs ys → Within (x ∷ xs) (x ∷ ys)

module _ {A : Type 0} where
  pub nil-Within : (ys : List A) → Within [] ys
  nil-Within [] = nil
  nil-Within (y ∷ ys) = skip y (nil-Within ys)

  Within-append :
      {xs ys zs ws : List A} → Within xs ys → Within zs ws → Within (xs ++ zs) (ys ++ ws)
  Within-append nil w = w
  Within-append (skip y v) w = skip y (Within-append v w)
  Within-append (take x v) w = take x (Within-append v w)

  pub Within-reverse : {xs ys : List A} → Within xs ys → Within (reverse xs) (reverse ys)
  Within-reverse nil = nil
  Within-reverse (skip {xs = xs} {ys = ys} y v) =
      subst (Within (reverse xs)) (sym (reverse-cons y ys)) (
        subst (λ l. Within l (reverse ys ++ y ∷ [])) (append-nil (reverse xs))
          (Within-append (Within-reverse v) (skip y nil)))
  Within-reverse (take {xs = xs} {ys = ys} x v) =
      subst (λ l. Within l (reverse (x ∷ ys))) (sym (reverse-cons x xs))
        (subst (Within (reverse xs ++ x ∷ [])) (sym (reverse-cons x ys))
          (Within-append (Within-reverse v) (take x nil)))

abbrev pub longer : ℕ → ℕ → ℕ
longer up left = if leb left up then up else left

module _ {A : Type 0} ⦃e : Eq A⦄ where
  unfoldable pub lcs_length : List A → List A → ℕ
  lcs_length [] ys = 0
  lcs_length (x ∷ xs) [] = 0
  lcs_length (x ∷ xs) (y ∷ ys) =
      let both = lcs_length xs ys + 1 in
      let other = longer (lcs_length xs (y ∷ ys)) (lcs_length (x ∷ xs) ys) in
      if x == y then both else other

  -- A longest common subsequence by the same recursion.
  unfoldable pub lcs : List A → List A → List A
  lcs [] ys = []
  lcs (x ∷ xs) [] = []
  lcs (x ∷ xs) (y ∷ ys) =
      let both = x ∷ lcs xs ys in
      let up = lcs xs (y ∷ ys) in
      let left = lcs (x ∷ xs) ys in
      let other = if leb (lcs_length (x ∷ xs) ys) (lcs_length xs (y ∷ ys)) then up else left in
      if x == y then both else other

  pub length-lcs : (xs ys : List A) → length (lcs xs ys) ≡ lcs_length xs ys
  unfolding lcs lcs_length
  length-lcs [] ys = refl
  length-lcs (x ∷ xs) [] = refl
  length-lcs (x ∷ xs) (y ∷ ys) =
      ground (arith, length-lcs xs ys, length-lcs xs (y ∷ ys), length-lcs (x ∷ xs) ys)

  pub lcs-Within_left : (xs ys : List A) → Within (lcs xs ys) xs
  unfolding lcs
  lcs-Within_left [] ys = nil
  lcs-Within_left (x ∷ xs) [] = nil-Within (x ∷ xs)
  lcs-Within_left (x ∷ xs) (y ∷ ys) = elim (==_cases x y) [
    | inl (h, p) ↦ rw h (take x (lcs-Within_left xs ys))
    | inr (h, p) ↦ rw h (elim (Bool-cases (leb (lcs_length (x ∷ xs) ys) (lcs_length xs (y ∷ ys)))) [
      | inl up ↦ rw up (skip x (lcs-Within_left xs (y ∷ ys)))
      | inr left ↦ rw left (lcs-Within_left (x ∷ xs) ys)
    ])
  ]

  pub lcs-Within_right : (xs ys : List A) → Within (lcs xs ys) ys
  unfolding lcs
  lcs-Within_right [] ys = nil-Within ys
  lcs-Within_right (x ∷ xs) [] = nil
  lcs-Within_right (x ∷ xs) (y ∷ ys) = elim (==_cases x y) [
    | inl (h, p) ↦ rw h (rw p (take y (lcs-Within_right xs ys)))
    | inr (h, p) ↦ rw h (elim (Bool-cases (leb (lcs_length (x ∷ xs) ys) (lcs_length xs (y ∷ ys)))) [
      | inl up ↦ rw up (lcs-Within_right xs (y ∷ ys))
      | inr left ↦ rw left (skip y (lcs-Within_right (x ∷ xs) ys))
    ])
  ]

  lcs_length_symm : (xs ys : List A) → lcs_length xs ys ≡ lcs_length ys xs
  unfolding lcs_length
  lcs_length_symm [] [] = refl
  lcs_length_symm [] (y ∷ ys) = refl
  lcs_length_symm (x ∷ xs) [] = refl
  lcs_length_symm (x ∷ xs) (y ∷ ys) = ground (
    arith,
    lcs_length_symm xs ys,
    lcs_length_symm xs (y ∷ ys),
    lcs_length_symm (x ∷ xs) ys,
    e.same_iff x y,
    e.same_iff y x,
  )

  lcs_length-cons :
      (x : A) (xs : List A)
      → ((y : A) (ys : List A) → lcs_length xs (y ∷ ys) ≤ lcs_length xs ys + 1)
      → (ys : List A) → lcs_length xs ys ≤ lcs_length (x ∷ xs) ys
  unfolding lcs_length
  lcs_length-cons x [] tail [] = omega arith
  lcs_length-cons x (z ∷ xs) tail [] = omega arith
  lcs_length-cons x xs tail (y ∷ ys) = ground (arith, tail y ys)

  -- One line more makes a longest common subsequence longer by one at most.
  lcs_length-tail :
      (xs : List A) (y : A) (ys : List A) → lcs_length xs (y ∷ ys) ≤ lcs_length xs ys + 1
  unfolding lcs_length
  lcs_length-tail [] y ys = omega arith
  lcs_length-tail (x ∷ xs) y ys =
      ground (arith, lcs_length-tail xs y ys, lcs_length-cons x xs (lcs_length-tail xs) ys)

  -- No common subsequence is longer.
  pub length-le-lcs_length :
      {zs xs ys : List A} → Within zs xs → Within zs ys → length zs ≤ lcs_length xs ys
  unfolding lcs_length
  length-le-lcs_length nil w = omega arith
  length-le-lcs_length (skip x v) nil = omega arith
  length-le-lcs_length (skip {ys = xs} x v) (skip {ys = ys} y w) =
      ground (arith, length-le-lcs_length v w, length-le-lcs_length v (skip y w))
  length-le-lcs_length (skip {ys = xs} x v) (take {ys = ys} y w) =
      ground (arith, length-le-lcs_length v (take y w), lcs_length-tail xs y ys)
  length-le-lcs_length (take {ys = xs} x v) (skip {ys = ys} y w) = ground (
    arith,
    length-le-lcs_length (take x v) w,
    lcs_length-tail ys x xs,
    lcs_length_symm ys (x ∷ xs),
    lcs_length_symm ys xs,
  )
  length-le-lcs_length (take {ys = xs} x v) (take {ys = ys} y w) =
      ground (arith, length-le-lcs_length v w, e.same_iff x x)
