-- ===== src/Docs/Diff/Table.antt =====
-- The table of computeLCS holds the lengths of the longest common subsequences of all prefixes, and
-- the walk back through it reads off a longest one.
use mathlib.Core.List.{reverse_aux}
use subnetree.Prelude.{
  ℕ, zero, suc, ◌≤◌, ◌<◌, ◌≡◌, refl, ◌∙◌, ap, List, [], ◌∷◌, ◌++◌, reverse, reverse-cons,
  reverse-reverse, subst, length-reverse, ap₂, append_assoc, append-nil, some, Eq, length,
  get_elem?, get_or, arith,
}
use subnetree.Docs.Diff.{fill_row, fill_table, zeros, lcs_table, entry, backtrack, compute_lcs}
use subnetree.Docs.Diff.Subsequence.{
  Within, Within-reverse, lcs_length, lcs, length-lcs, lcs-Within_left, lcs-Within_right,
  length-le-lcs_length,
}

module _ {A : Type 0} where
  -- The first `i` elements, last first, in front of `acc`.
  abbrev take_rev : ℕ → List A → List A → List A
  take_rev zero xs acc = acc
  take_rev (suc i) [] acc = acc
  take_rev (suc i) (x ∷ xs) acc = take_rev i xs (x ∷ acc)

  take_rev-suc :
      (i : ℕ) (xs acc : List A)
      → i < length xs
      → (x : A) × (get_elem? xs i ≡ some x) × (take_rev (suc i) xs acc ≡ x ∷ take_rev i xs acc)
  take_rev-suc i [] acc h = absurd (omega arith)
  take_rev-suc zero (x ∷ xs) acc h = (x, refl, refl)
  take_rev-suc (suc i) (x ∷ xs) acc h = take_rev-suc i xs (x ∷ acc) (omega arith)

  take_rev-length : (xs acc : List A) → take_rev (length xs) xs acc ≡ reverse_aux xs acc
  take_rev-length [] acc = refl
  take_rev-length (x ∷ xs) acc = take_rev-length xs (x ∷ acc)

module _ {A : Type 0} ⦃e : Eq A⦄ where
  -- A row of the table, for the prefix `done` of the first text, both texts reversed.
  abbrev rest_of : List A → List A → List A → List ℕ
  rest_of done acc [] = []
  rest_of done acc (y ∷ ys) = lcs_length done (y ∷ acc) ∷ rest_of done (y ∷ acc) ys

  abbrev row_of : List A → List A → List A → List ℕ
  row_of done acc ys = lcs_length done acc ∷ rest_of done acc ys

  fill_row-rest_of :
      (x : A) (done acc ys : List A)
      → fill_row x ys (row_of done acc ys) (lcs_length (x ∷ done) acc) ≡ rest_of (x ∷ done) acc ys
  unfolding fill_row lcs_length
  fill_row-rest_of x done acc [] = refl
  fill_row-rest_of x done acc (y ∷ ys) =
      ap (λ l. lcs_length (x ∷ done) (y ∷ acc) ∷ l) (fill_row-rest_of x done (y ∷ acc) ys)

  get_or-row_of :
      (done acc ys : List A) (j : ℕ)
      → j ≤ length ys
      → get_or (row_of done acc ys) j 0 ≡ lcs_length done (take_rev j ys acc)
  get_or-row_of done acc ys zero h = refl
  get_or-row_of done acc [] (suc j) h = absurd (omega arith)
  get_or-row_of done acc (y ∷ ys) (suc j) h = get_or-row_of done (y ∷ acc) ys j (omega arith)

  next_row :
      (x : A) (done ys : List A) → 0 ∷ fill_row x ys (row_of done [] ys) 0 ≡ row_of (x ∷ done) [] ys
  unfolding lcs_length
  next_row x done ys = ap (λ l. 0 ∷ l) (fill_row-rest_of x done [] ys)

  get_or-fill_table :
      (xs ys done : List A) (i : ℕ)
      → i ≤ length xs
      → get_or (fill_table xs ys (row_of done [] ys)) i [] ≡ row_of (take_rev i xs done) [] ys
  unfolding fill_table
  get_or-fill_table [] ys done zero h = refl
  get_or-fill_table [] ys done (suc i) h = absurd (omega arith)
  get_or-fill_table (x ∷ xs) ys done zero h = refl
  get_or-fill_table (x ∷ xs) ys done (suc i) h =
      ap (λ r. get_or (fill_table xs ys r) i []) (next_row x done ys)
      ∙ get_or-fill_table xs ys (x ∷ done) i (omega arith)

  zeros-row_of : (ys acc : List A) → zeros ys ≡ row_of [] acc ys
  unfolding zeros lcs_length
  zeros-row_of [] acc = refl
  zeros-row_of (y ∷ ys) acc = ap (λ l. 0 ∷ l) (zeros-row_of ys (y ∷ acc))

  -- Entry (i, j) belongs to the first i lines of the one text and the first j of the other.
  pub entry-lcs_table :
      (xs ys : List A) (i j : ℕ)
      → i ≤ length xs
      → j ≤ length ys
      → entry (lcs_table xs ys) i j ≡ lcs_length (take_rev i xs []) (take_rev j ys [])
  unfolding lcs_table
  entry-lcs_table xs ys i j hi hj =
      ap (λ r. get_or (get_or (fill_table xs ys r) i []) j 0) (zeros-row_of ys [])
      ∙ ap (λ r. get_or r j 0) (get_or-fill_table xs ys [] i hi)
      ∙ get_or-row_of (take_rev i xs []) [] ys j hj

  reverse-cons-append : (x : A) (w acc : List A) → reverse (x ∷ w) ++ acc ≡ reverse w ++ x ∷ acc
  reverse-cons-append x w acc =
      ap (λ l. l ++ acc) (reverse-cons x w) ∙ append_assoc (reverse w) (x ∷ []) acc

  -- One step of the walk, from what it does at the three neighbours.
  backtrack_step :
      (xs ys : List A) (table : List (List ℕ)) (i j : ℕ) (acc : List A) (x y : A) (ra rb : List A)
      → get_elem? xs i ≡ some x
      → get_elem? ys j ≡ some y
      → backtrack xs ys table i j (x ∷ acc) ≡ reverse (lcs ra rb) ++ x ∷ acc
      → backtrack xs ys table i (suc j) acc ≡ reverse (lcs ra (y ∷ rb)) ++ acc
      → backtrack xs ys table (suc i) j acc ≡ reverse (lcs (x ∷ ra) rb) ++ acc
      → entry table i (suc j) ≡ lcs_length ra (y ∷ rb)
      → entry table (suc i) j ≡ lcs_length (x ∷ ra) rb
      → backtrack xs ys table (suc i) (suc j) acc ≡ reverse (lcs (x ∷ ra) (y ∷ rb)) ++ acc
  unfolding backtrack lcs
  backtrack_step xs ys table i j acc x y ra rb gx gy both up left eu el =
      ground (arith, reverse-cons-append x (lcs ra rb) acc)

  -- The walk back from entry (i, j) puts a longest common subsequence of the prefixes in front.
  backtrack-lcs :
      (xs ys : List A) (i j : ℕ) (acc : List A)
      → i ≤ length xs
      → j ≤ length ys
      → backtrack xs ys (lcs_table xs ys) i j acc
        ≡ reverse (lcs (take_rev i xs []) (take_rev j ys [])) ++ acc
  unfolding backtrack lcs
  backtrack-lcs xs ys zero j acc hi hj = refl
  backtrack-lcs xs ys (suc i) zero acc hi hj = let (x, gx, tx) = take_rev-suc i xs [] hi in rw tx
  backtrack-lcs xs ys (suc i) (suc j) acc hi hj =
      let (x, gx, tx) = take_rev-suc i xs [] hi in
      let (y, gy, ty) = take_rev-suc j ys [] hj in
      let ra = take_rev i xs [] in
      let rb = take_rev j ys [] in
      rw (tx, ty)
        (backtrack_step xs ys (lcs_table xs ys) i j acc x y ra rb gx gy
          (backtrack-lcs xs ys i j (x ∷ acc) (omega arith) (omega arith))
          (backtrack-lcs xs ys i (suc j) acc (omega arith) hj
            ∙ ap (λ r. reverse (lcs ra r) ++ acc) ty)
          (backtrack-lcs xs ys (suc i) j acc hi (omega arith)
            ∙ ap (λ r. reverse (lcs r rb) ++ acc) tx)
          (entry-lcs_table xs ys i (suc j) (omega arith) hj ∙ ap (lcs_length ra) ty)
          (entry-lcs_table xs ys (suc i) j hi (omega arith) ∙ ap (λ r. lcs_length r rb) tx))

  compute_lcs_lem : (xs ys : List A) → compute_lcs xs ys ≡ reverse (lcs (reverse xs) (reverse ys))
  unfolding compute_lcs
  compute_lcs_lem xs ys =
      backtrack-lcs xs ys (length xs) (length ys) [] (omega arith) (omega arith)
      ∙ append-nil _
      ∙ ap₂ (λ a b. reverse (lcs a b)) (take_rev-length xs []) (take_rev-length ys [])

  -- The result of computeLCS stands in both texts, line by line in order.
  pub compute_lcs-Within :
      (xs ys : List A) → Within (compute_lcs xs ys) xs × Within (compute_lcs xs ys) ys
  compute_lcs-Within xs ys = rw (compute_lcs_lem xs ys) (
    subst (Within _) (reverse-reverse xs)
        (Within-reverse (lcs-Within_left (reverse xs) (reverse ys))),
    subst (Within _) (reverse-reverse ys)
        (Within-reverse (lcs-Within_right (reverse xs) (reverse ys))),
  )

  -- No common subsequence of the two texts is longer than the result of computeLCS.
  pub compute_lcs-longest :
      (xs ys zs : List A) → Within zs xs → Within zs ys → length zs ≤ length (compute_lcs xs ys)
  compute_lcs-longest xs ys zs v w = omega (
    arith,
    length-le-lcs_length (Within-reverse v) (Within-reverse w),
    ap length (compute_lcs_lem xs ys),
    length-lcs (reverse xs) (reverse ys),
    length-reverse (lcs (reverse xs) (reverse ys)),
    length-reverse zs,
  )
