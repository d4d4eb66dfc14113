-- ===== src/Docs/Tests.antt =====
-- Runs of the diff, and the theorems at two short documents.
use subnetree.Prelude.{
  ℕ, ◌+◌, ◌-◌, ◌^◌, pos, negsuc, true, ◌≤◌, ◌≡◌, refl, List, [], ◌∷◌, nat_eq, some, length,
  bytes_eq, arith,
}
use subnetree.Docs.Diff.{compute_lcs, compute_diff, DiffLine, DiffLineType, context, add, remove}
use subnetree.Docs.Unified.{header, body, format_unified_diff}
use subnetree.Docs.Unified.Counts.{is_counted}
use subnetree.Docs.Unified.Kept.{bodies, changes, format_unified_diff-changes}
use subnetree.Docs.Diff.Subsequence.{Within, nil, skip, take}
use subnetree.Docs.Diff.Table.{compute_lcs-longest}
use subnetree.Docs.Diff.Sides.{old_side, new_side}
use subnetree.Docs.Diff.Text.{compute_diff-texts, join_lines, contents}

abbrev before : List ℕ
before = 1 ∷ 2 ∷ 3 ∷ 4 ∷ []

abbrev after : List ℕ
after = 2 ∷ 5 ∷ 4 ∷ []

lcs_run : compute_lcs before after ≡ 2 ∷ 4 ∷ []
unfolding compute_lcs
lcs_run = refl

two-Within : Within (2 ∷ []) before
two-Within = skip 1 (take 2 (skip 3 (skip 4 nil)))

two-Within-after : Within (2 ∷ []) after
two-Within-after = take 2 (skip 5 (skip 4 nil))

compute_lcs-longest_example : 1 ≤ length (compute_lcs before after)
compute_lcs-longest_example = compute_lcs-longest before after (2 ∷ []) two-Within two-Within-after

-- "a\nb" and "b".
compute_diff-texts_example :
    (ls : List (DiffLine (List ℕ))) × (compute_diff (97 ∷ 10 ∷ 98 ∷ []) (98 ∷ []) ≡ some ls)
    × (join_lines (contents (old_side ls)) ≡ 97 ∷ 10 ∷ 98 ∷ [])
    × (join_lines (contents (new_side ls)) ≡ 98 ∷ [])
compute_diff-texts_example = compute_diff-texts (97 ∷ 10 ∷ 98 ∷ []) (98 ∷ [])

abbrev line : DiffLineType → ℕ → ℕ → DiffLine ℕ
line kind old new = record {
  kind = kind;
  content = old + new;
  old_line_no = old;
  new_line_no = new;
}

-- A removal and, three lines further on, an addition.
abbrev edits : List (DiffLine ℕ)
edits =
    line remove 1 0
    ∷ line context 2 1
    ∷ line context 3 2
    ∷ line context 4 3
    ∷ line context 5 4
    ∷ line add 0 5
    ∷ []

edits-hunks :
    format_unified_diff edits (pos 1)
    ≡ header 1 2 1 1
      ∷ body (line remove 1 0)
      ∷ body (line context 2 1)
      ∷ header 5 1 4 2
      ∷ body (line context 5 4)
      ∷ body (line add 0 5)
      ∷ []
unfolding format_unified_diff
edits-hunks = refl

-- Without context lines, what is added at the end after five old lines is said to stand at line 1.
edits-bare :
    format_unified_diff edits (pos 0)
    ≡ header 1 1 1 0 ∷ body (line remove 1 0) ∷ header 1 0 5 1 ∷ body (line add 0 5) ∷ []
unfolding format_unified_diff
edits-bare = refl

-- With the greatest int, the sum wraps around behind the first line, and the change is lost.
edits_wrap : format_unified_diff (line context 1 1 ∷ line add 0 2 ∷ []) (pos (2 ^ 63 - 1)) ≡ []
unfolding format_unified_diff
edits_wrap = refl

edits_negative : format_unified_diff edits (negsuc 0) ≡ []
unfolding format_unified_diff
edits_negative = refl

format_unified_diff-changes_example :
    (changes (bodies (format_unified_diff edits (pos 1))) ≡ changes edits)
    × (is_counted 0 0 (format_unified_diff edits (pos 1)) ≡ true)
format_unified_diff-changes_example = format_unified_diff-changes edits 1 (omega arith)
