-- ===== src/Docs/Diff.antt =====
-- internal/docs/diff.go: the longest common subsequence of two documents, and the diff from it.
-- A text is its bytes; lines are of any type with an equality.
pub mod Subsequence
pub mod Table
pub mod Sides
pub mod Lines
pub mod Text
use subnetree.Prelude.{
  ℕ, zero, suc, ◌+◌, ◌-◌, String, Bool, true, false, List, [], ◌∷◌, ◌++◌, Option, none, some, Eq,
  ◌==◌, nat_eq, bytes_eq, leb, if◌then◌else◌, length, get_elem?, get_or,
}

-- strings.Split(s, "\n") for a text that is not empty, from the line that is being read.
abbrev newline : ℕ
newline = 10

unfoldable pub split_from : List ℕ → List ℕ → List (List ℕ)
split_from line [] = line ∷ []
split_from line (c ∷ cs) =
    if c == newline then line ∷ split_from [] cs else split_from (line ++ c ∷ []) cs

unfoldable pub split_lines : List ℕ → List (List ℕ)
unfolding split_from
split_lines [] = []
split_lines (c ∷ cs) = split_from [] (c ∷ cs)

abbrev pub entry : List (List ℕ) → ℕ → ℕ → ℕ
entry table i j = get_or (get_or table i []) j 0

module _ {A : Type 0} ⦃e : Eq A⦄ where
  -- The entries 1 to n of a row of the table, from the row above and the entry to the left.
  unfoldable pub fill_row : A → List A → List ℕ → ℕ → List ℕ
  fill_row x [] above left = []
  fill_row x (y ∷ ys) above left =
      let here =
        if x == y
        then get_or above 0 0 + 1
        else if leb left (get_or above 1 0)
        then get_or above 1 0
        else left in
      here ∷ fill_row x ys (tail above) here
    where
      tail : List ℕ → List ℕ
      tail [] = []
      tail (z ∷ zs) = zs

  -- The rows from the one given down, a row for each line of the first text.
  unfoldable pub fill_table : List A → List A → List ℕ → List (List ℕ)
  unfolding fill_row
  fill_table [] ys row = row ∷ []
  fill_table (x ∷ xs) ys row = row ∷ fill_table xs ys (0 ∷ fill_row x ys row 0)

  zeros : List A → List ℕ
  zeros [] = 0 ∷ []
  zeros (y ∷ ys) = 0 ∷ zeros ys

  unfoldable pub lcs_table : List A → List A → List (List ℕ)
  unfolding fill_table zeros
  lcs_table xs ys = fill_table xs ys (zeros ys)

  -- The loop back through the table. The source fills its result from the end; `acc` is the part
  -- that is filled. Out of bounds, which does not happen, nothing is taken.
  unfoldable pub backtrack : List A → List A → List (List ℕ) → ℕ → ℕ → List A → List A
  backtrack xs ys table zero j acc = acc
  backtrack xs ys table (suc i) zero acc = acc
  backtrack xs ys table (suc i) (suc j) acc =
      let up = backtrack xs ys table i (suc j) acc in
      let left = backtrack xs ys table (suc i) j acc in
      let other = if leb (entry table (suc i) j) (entry table i (suc j)) then up else left in
      elim (get_elem? xs i) [
        | none ↦ acc
        | some x ↦ elim (get_elem? ys j) [
          | none ↦ acc
          | some y ↦
              let both = backtrack xs ys table i j (x ∷ acc) in if x == y then both else other
        ]
      ]

  unfoldable pub compute_lcs : List A → List A → List A
  unfolding lcs_table backtrack
  compute_lcs xs ys = backtrack xs ys (lcs_table xs ys) (length xs) (length ys) []

pub data DiffLineType : Type 0 where
  context add remove : DiffLineType

-- A line number that a line does not have is 0, as in Go's zero value.
pub record DiffLine (A : Type 0) : Type 0 where
  pub kind : DiffLineType
  pub content : A
  pub old_line_no : ℕ
  pub new_line_no : ℕ

module _ {A : Type 0} ⦃e : Eq A⦄ where
  abbrev pub removed : ℕ → A → DiffLine A
  removed n x = record { kind = remove; content = x; old_line_no = n; new_line_no = 0 }

  abbrev pub added : ℕ → A → DiffLine A
  added n x = record { kind = add; content = x; old_line_no = 0; new_line_no = n }

  -- The loops over the lines up to the next common line `x`. They return the lines that they emit,
  -- the counter, and what is left of the text.
  unfoldable pub removals_until : A → ℕ → List A → List (DiffLine A) × ℕ × List A
  removals_until x oi [] = ([], oi, [])
  removals_until x oi (y ∷ ys) =
      let (rs, oi', rest) = removals_until x (oi + 1) ys in
      if y == x then ([], oi, y ∷ ys) else (removed (oi + 1) y ∷ rs, oi', rest)

  unfoldable pub additions_until : A → ℕ → List A → List (DiffLine A) × ℕ × List A
  additions_until x ni [] = ([], ni, [])
  additions_until x ni (y ∷ ys) =
      let (rs, ni', rest) = additions_until x (ni + 1) ys in
      if y == x then ([], ni, y ∷ ys) else (added (ni + 1) y ∷ rs, ni', rest)

  -- The remaining lines.
  unfoldable pub removals : ℕ → List A → List (DiffLine A)
  removals oi [] = []
  removals oi (y ∷ ys) = removed (oi + 1) y ∷ removals (oi + 1) ys

  unfoldable pub additions : ℕ → List A → List (DiffLine A)
  additions ni [] = []
  additions ni (y ∷ ys) = added (ni + 1) y ∷ additions (ni + 1) ys

  abbrev pub drop_one : List A → List A
  drop_one [] = []
  drop_one (y ∷ ys) = ys

  -- The main loop over the common lines. `none` is the panic of `oldLines[oi-1]` out of range.
  unfoldable pub merge : List A → ℕ → ℕ → List A → List A → Option (List (DiffLine A))
  unfolding removals_until additions_until removals additions
  merge [] oi ni old updated = some (removals oi old ++ additions ni updated)
  merge (x ∷ xs) oi ni old updated =
      let (rs, oi', old') = removals_until x oi old in
      let (as', ni', updated') = additions_until x ni updated in
      elim old' [
        | [] ↦ none
        | y ∷ ys ↦ elim (merge xs (oi' + 1) (ni' + 1) ys (drop_one updated')) [
          | none ↦ none
          | some ls ↦ some (
              rs
              ++ (as'
                  ++ (record {
                    kind = context;
                    content = y;
                    old_line_no = oi' + 1;
                    new_line_no = ni' + 1;
                  }
                      ∷ ls)))
        ]
      ]

  unfoldable pub diff_lines : List A → List A → Option (List (DiffLine A))
  unfolding compute_lcs merge
  diff_lines old updated = merge (compute_lcs old updated) 0 0 old updated

-- ComputeDiff of two texts.
unfoldable pub compute_diff : List ℕ → List ℕ → Option (List (DiffLine (List ℕ)))
unfolding split_lines diff_lines
compute_diff old updated = diff_lines (split_lines old) (split_lines updated)
