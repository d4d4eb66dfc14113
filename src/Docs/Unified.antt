-- ===== src/Docs/Unified.antt =====
-- internal/docs/diff.go, FormatUnifiedDiff: the hunks of a diff. An item is a line of the text, a header or
-- a line of the diff. The number of context lines is an int, which may be negative, and the sums with
-- it wrap around at 64 bits.
pub mod Counts
pub mod Kept
use subnetree.Prelude.{
  ℕ, zero, suc, ◌+◌, ◌-◌, ◌%◌, ◌^◌, ℤ, pos, negsuc, Bool, true, false, not, ◌&&◌, ◌||◌, List, [],
  ◌∷◌, map, ◌==◌, nat_eq, leb, ltb, if◌then◌else◌, length,
}
use subnetree.Docs.Diff.{DiffLineType, context, add, remove, DiffLine}

pub data Item (A : Type 0) : Type 0 where
  header : ℕ → ℕ → ℕ → ℕ → Item A
  body : DiffLine A → Item A

abbrev pub is_change : DiffLineType → Bool
is_change context = false
is_change _ = true

-- The loop over j from lo to hi.
abbrev pub mark_from : ℕ → ℕ → ℕ → List Bool → List Bool
mark_from j lo hi [] = []
mark_from j lo hi (b ∷ bs) = (b || (leb lo j && leb j hi)) ∷ mark_from (j + 1) lo hi bs

-- An int as a word of 64 bits, and back.
abbrev pub to_word : ℤ → ℕ
to_word (pos n) = n % 2 ^ 64
to_word (negsuc n) = 2 ^ 64 - 1 - n % 2 ^ 64

abbrev pub of_word : ℕ → ℤ
of_word x = if ltb x (2 ^ 63) then pos x else negsuc (2 ^ 64 - 1 - x)

unfoldable pub add_int : ℤ → ℤ → ℤ
add_int a b = of_word ((to_word a + to_word b) % 2 ^ 64)

unfoldable pub sub_int : ℤ → ℤ → ℤ
sub_int a b = of_word ((to_word a + 2 ^ 64 - to_word b) % 2 ^ 64)

-- `lo`, at least 0.
abbrev pub lower : ℤ → ℕ
lower (pos lo) = lo
lower (negsuc _) = 0

-- From `lo` to `hi`, at most the last line; a negative `hi` ends the loop before its first step.
abbrev pub mark_to : ℕ → ℕ → ℤ → List Bool → List Bool
mark_to n lo (pos hi) mask = mark_from 0 lo (if leb n hi then n - 1 else hi) mask
mark_to n lo (negsuc _) mask = mask

abbrev pub or_one : ℕ → ℕ
or_one n = if n == 0 then 1 else n

module _ {A : Type 0} where
  -- The lines within reach of a change, from position i.
  unfoldable pub include_from : ℕ → ℤ → ℕ → List (DiffLine A) → List Bool → List Bool
  unfolding add_int sub_int
  include_from n context_lines i [] mask = mask
  include_from n context_lines i (l ∷ ls) mask =
      let lo = lower (sub_int (pos i) context_lines) in
      let hi = add_int (pos i) context_lines in
      include_from n context_lines (i + 1) ls
        (if is_change l.kind then mark_to n lo hi mask else mask)

  unfoldable pub included : ℤ → List (DiffLine A) → List Bool
  unfolding include_from
  included context_lines ls = include_from (length ls) context_lines 0 ls (map (λ l. false) ls)

  abbrev pub any_change : List (DiffLine A) → Bool
  any_change [] = false
  any_change (l ∷ ls) = is_change l.kind || any_change ls

  -- A mask that is too short includes no more lines.
  abbrev pub masked : List (DiffLine A) → List Bool → List (DiffLine A × Bool)
  masked [] mask = []
  masked (l ∷ ls) [] = (l, false) ∷ masked ls []
  masked (l ∷ ls) (b ∷ bs) = (l, b) ∷ masked ls bs

  abbrev pub find_new_start : List (DiffLine A × Bool) → ℕ
  find_new_start [] = 1
  find_new_start (l ∷ ls) = if ltb 0 l.0.new_line_no then l.0.new_line_no else find_new_start ls

  abbrev pub find_old_start : List (DiffLine A × Bool) → ℕ
  find_old_start [] = 1
  find_old_start (l ∷ ls) = if ltb 0 l.0.old_line_no then l.0.old_line_no else find_old_start ls

  abbrev pub old_start : List (DiffLine A × Bool) → ℕ
  old_start [] = 0
  old_start (l ∷ ls) = elim l.0.kind [
    | context ↦ l.0.old_line_no
    | remove ↦ l.0.old_line_no
    | add ↦ find_old_start (l ∷ ls)
  ]

  abbrev pub new_start : List (DiffLine A × Bool) → ℕ
  new_start [] = 0
  new_start (l ∷ ls) = elim l.0.kind [
    | context ↦ l.0.new_line_no
    | remove ↦ find_new_start (l ∷ ls)
    | add ↦ l.0.new_line_no
  ]

  -- The lines of a hunk, as far as they are included.
  abbrev pub old_count : List (DiffLine A × Bool) → ℕ
  old_count [] = 0
  old_count (l ∷ ls) =
      let rest = old_count ls in
      if not l.1 then 0 else elim l.0.kind [ context ↦ rest + 1 | remove ↦ rest + 1 | add ↦ rest ]

  abbrev pub new_count : List (DiffLine A × Bool) → ℕ
  new_count [] = 0
  new_count (l ∷ ls) =
      let rest = new_count ls in
      if not l.1 then 0 else elim l.0.kind [ context ↦ rest + 1 | remove ↦ rest | add ↦ rest + 1 ]

  abbrev pub hunk_range : List (DiffLine A × Bool) → Item A
  hunk_range ls =
      header (or_one (old_start ls)) (old_count ls) (or_one (new_start ls)) (new_count ls)

  -- The main loop, with inHunk.
  unfoldable pub emit : Bool → List (DiffLine A × Bool) → List (Item A)
  emit in_hunk [] = []
  emit in_hunk (l ∷ ls) = elim l.1 [
    | false ↦ emit false ls
    | true ↦ elim in_hunk [
      | true ↦ body l.0 ∷ emit true ls
      | false ↦ hunk_range (l ∷ ls) ∷ body l.0 ∷ emit true ls
    ]
  ]

  unfoldable pub format_unified_diff : List (DiffLine A) → ℤ → List (Item A)
  unfolding emit included
  format_unified_diff lines context_lines =
      if any_change lines then emit false (masked lines (included context_lines lines)) else []
