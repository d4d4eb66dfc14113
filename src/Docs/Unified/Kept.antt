-- ===== src/Docs/Unified/Kept.antt =====
-- No change is lost, and every header is right.
use subnetree.Prelude.{
  ℕ, zero, suc, ◌+◌, ◌-◌, ◌%◌, ◌^◌, ℤ, pos, negsuc, ◌≤◌, ◌<◌, ◌≡◌, refl, sym, ap, subst, ◌∙◌, Bool,
  true, false, List, [], ◌∷◌, map, some, nat_eq, leb, if◌then◌else◌, arith, Bool-cases, inl, inr,
  length, get_or, get_elem?, keep,
}
use subnetree.Docs.Diff.{DiffLine}
use subnetree.Docs.Unified.{
  Item, header, body, is_change, mark_from, mark_to, lower, add_int, sub_int, include_from,
  included, any_change, masked, emit, format_unified_diff,
}
use subnetree.Docs.Unified.Counts.{is_counted, emit_counted}

mark_from-length : (k lo hi : ℕ) (mask : List Bool) → length (mark_from k lo hi mask) ≡ length mask
mark_from-length k lo hi [] = refl
mark_from-length k lo hi (b ∷ bs) = ap suc (mark_from-length (k + 1) lo hi bs)

mark_from-stays :
    (k lo hi : ℕ) (mask : List Bool) (j : ℕ)
    → get_or mask j false ≡ true
    → get_or (mark_from k lo hi mask) j false ≡ true
mark_from-stays k lo hi [] j h = h
mark_from-stays k lo hi (b ∷ bs) zero h = ground (arith, h)
mark_from-stays k lo hi (b ∷ bs) (suc j) h = mark_from-stays (k + 1) lo hi bs j h

mark_from-reaches :
    (k lo hi : ℕ) (mask : List Bool) (j : ℕ)
    → j < length mask
    → lo ≤ k + j
    → k + j ≤ hi
    → get_or (mark_from k lo hi mask) j false ≡ true
mark_from-reaches k lo hi [] j short low high = absurd (omega (arith, short))
mark_from-reaches k lo hi (b ∷ bs) zero short low high = ground (arith, low, high)
mark_from-reaches k lo hi (b ∷ bs) (suc j) short low high =
    mark_from-reaches (k + 1) lo hi bs j (omega (arith, short)) (omega (arith, low))
      (omega (arith, high))

mark_to-length :
    (n lo : ℕ) (hi : ℤ) (mask : List Bool) → length (mark_to n lo hi mask) ≡ length mask
mark_to-length n lo (pos hi) mask = mark_from-length 0 lo (if leb n hi then n - 1 else hi) mask
mark_to-length n lo (negsuc hi) mask = refl

mark_to-stays :
    (n lo : ℕ) (hi : ℤ) (mask : List Bool) (j : ℕ)
    → get_or mask j false ≡ true
    → get_or (mark_to n lo hi mask) j false ≡ true
mark_to-stays n lo (pos hi) mask j h =
    mark_from-stays 0 lo (if leb n hi then n - 1 else hi) mask j h
mark_to-stays n lo (negsuc hi) mask j h = h

add_int-pos : (i c : ℕ) → i + c < 2 ^ 63 → add_int (pos i) (pos c) ≡ pos (i + c)
unfolding add_int
add_int-pos i c small =
    let fits : (i % 2 ^ 64 + c % 2 ^ 64) % 2 ^ 64 ≡ i + c = omega (arith, small) in
    ground (arith, small, fits)

lower-sub_int : (i c : ℕ) → i + c < 2 ^ 63 → lower (sub_int (pos i) (pos c)) ≡ i - c
unfolding sub_int
lower-sub_int i c small = elim (Bool-cases (leb c i)) [
  | inl t ↦
      let fits : (i % 2 ^ 64 + 2 ^ 64 - c % 2 ^ 64) % 2 ^ 64 ≡ i - c = ground (arith, small, t) in
      rw fits (ground (arith, small))
  | inr f ↦
      let fits : (i % 2 ^ 64 + 2 ^ 64 - c % 2 ^ 64) % 2 ^ 64 ≡ i + 2 ^ 64 - c =
        ground (arith, small, f) in
      rw fits (ground (arith, small, f))
]

-- A change marks itself, where the sum with its position is an int.
mark_to-reaches :
    (n c i : ℕ) (mask : List Bool)
    → i < n
    → n + c ≤ 2 ^ 63
    → length mask ≡ n
    → get_or (mark_to n (lower (sub_int (pos i) (pos c))) (add_int (pos i) (pos c)) mask) i false
      ≡ true
mark_to-reaches n c i mask below small long =
    rw
      (
        add_int-pos i c (omega (arith, below, small)),
        lower-sub_int i c (omega (arith, below, small)),
      )
      (mark_from-reaches 0 (i - c) (if leb n (i + c) then n - 1 else i + c) mask i
        (omega (arith, below, long)) (omega arith) (ground (arith, below)))

module _ {A : Type 0} where
  include_from-stays :
      (n : ℕ) (c : ℤ) (i : ℕ) (ls : List (DiffLine A)) (mask : List Bool) (j : ℕ)
      → get_or mask j false ≡ true
      → get_or (include_from n c i ls mask) j false ≡ true
  unfolding include_from
  include_from-stays n c i [] mask j h = h
  include_from-stays n c i (l ∷ ls) mask j h =
      let lo = lower (sub_int (pos i) c) in
      let hi = add_int (pos i) c in
      let marked = mark_to-stays n lo hi mask j h in
      include_from-stays n c (i + 1) ls (if is_change l.kind then mark_to n lo hi mask else mask) j
        (ground (arith, h, marked))

  include_from-reaches :
      (n c i : ℕ) (ls : List (DiffLine A)) (mask : List Bool) (k : ℕ) (l : DiffLine A)
      → get_elem? ls k ≡ some l
      → is_change l.kind ≡ true
      → i + length ls ≤ n
      → n + c ≤ 2 ^ 63
      → length mask ≡ n
      → get_or (include_from n (pos c) i ls mask) (i + k) false ≡ true
  unfolding include_from
  include_from-reaches n c i [] mask k l e t short small long = absurd (cc e)
  include_from-reaches n c i (x ∷ ls) mask zero l e t short small long =
      let lo = lower (sub_int (pos i) (pos c)) in
      let hi = add_int (pos i) (pos c) in
      let same : x ≡ l = ground (arith, e) in
      let test : is_change x.kind ≡ true = ap (λ y. is_change y.kind) same ∙ t in
      let place : i ≡ i + 0 = omega arith in
      let marked : get_or (mark_to n lo hi mask) (i + 0) false ≡ true =
        subst (λ j. get_or (mark_to n lo hi mask) j false ≡ true) place
          (mark_to-reaches n c i mask (omega (arith, short)) small long) in
      include_from-stays n (pos c) (i + 1) ls
        (if is_change x.kind then mark_to n lo hi mask else mask) (i + 0) (rw test marked)
  include_from-reaches n c i (x ∷ ls) mask (suc k) l e t short small long =
      let lo = lower (sub_int (pos i) (pos c)) in
      let hi = add_int (pos i) (pos c) in
      let next = if is_change x.kind then mark_to n lo hi mask else mask in
      let long' : length next ≡ n = ground (arith, long, mark_to-length n lo hi mask) in
      let rest =
        include_from-reaches n c (i + 1) ls next k l e t (omega (arith, short)) small long' in
      let place : (i + 1) + k ≡ i + suc k = omega arith in
      subst (λ j. get_or (include_from n (pos c) (i + 1) ls next) j false ≡ true) place rest

  -- The lines of the diff in a text, and the changes among lines.
  abbrev pub bodies : List (Item A) → List (DiffLine A)
  bodies [] = []
  bodies (header os oc ns nc ∷ rest) = bodies rest
  bodies (body l ∷ rest) = l ∷ bodies rest

  abbrev pub changes : List (DiffLine A) → List (DiffLine A)
  changes ls = keep (λ l. is_change l.kind) ls

  abbrev kept_lines : List (DiffLine A × Bool) → List (DiffLine A)
  kept_lines [] = []
  kept_lines (l ∷ ls) = let rest = kept_lines ls in if l.1 then l.0 ∷ rest else rest

  bodies-emit :
      (in_hunk : Bool) (ls : List (DiffLine A × Bool)) → bodies (emit in_hunk ls) ≡ kept_lines ls
  unfolding emit
  bodies-emit in_hunk [] = refl
  bodies-emit in_hunk ((l, false) ∷ ls) = bodies-emit false ls
  bodies-emit true ((l, true) ∷ ls) = ap (λ r. l ∷ r) (bodies-emit true ls)
  bodies-emit false ((l, true) ∷ ls) = ap (λ r. l ∷ r) (bodies-emit true ls)

  changes-kept_lines :
      (ls : List (DiffLine A)) (mask : List Bool)
      → ((k : ℕ) (l : DiffLine A)
          → get_elem? ls k ≡ some l
          → is_change l.kind ≡ true
          → get_or mask k false ≡ true)
      → changes (kept_lines (masked ls mask)) ≡ changes ls
  changes-kept_lines [] mask h = refl
  changes-kept_lines (l ∷ ls) [] h =
      let rest = changes-kept_lines ls [] (λ k x e t. h (suc k) x e t) in
      ground (arith, rest, h 0 l refl)
  changes-kept_lines (l ∷ ls) (b ∷ bs) h =
      let rest = changes-kept_lines ls bs (λ k x e t. h (suc k) x e t) in
      ground (arith, rest, h 0 l refl)

  length_falses : (ls : List (DiffLine A)) → length (map (λ l. false) ls) ≡ length ls
  length_falses [] = refl
  length_falses (l ∷ ls) = ap suc (length_falses ls)

  no_changes : (ls : List (DiffLine A)) → any_change ls ≡ false → changes ls ≡ []
  no_changes [] h = refl
  no_changes (l ∷ ls) h = let rest = no_changes ls in ground (arith, h, rest)

  -- Where the lines and the context lines are at most 2 ^ 63 together, the added and the removed lines of
  -- a unified diff are those of the diff, in order; and each header counts the old and the new lines of
  -- its hunk rightly. The number of context lines is not negative.
  pub format_unified_diff-changes :
      (lines : List (DiffLine A)) (context_lines : ℕ)
      → length lines + context_lines ≤ 2 ^ 63
      → (changes (bodies (format_unified_diff lines (pos context_lines))) ≡ changes lines)
        × (is_counted 0 0 (format_unified_diff lines (pos context_lines)) ≡ true)
  unfolding format_unified_diff included
  format_unified_diff-changes lines context_lines small = elim (Bool-cases (any_change lines)) [
    | inr none_changed ↦ rw none_changed (sym (no_changes lines none_changed), refl)
    | inl some_changed ↦
        let mask = included (pos context_lines) lines in
        let shown = masked lines mask in
        let marked : (k : ℕ) (l : DiffLine A)
            → get_elem? lines k ≡ some l
            → is_change l.kind ≡ true
            → get_or mask k false ≡ true =
          λ k l e t.
            let same : 0 + k ≡ k = omega arith in
            subst (λ j. get_or mask j false ≡ true) same
              (include_from-reaches (length lines) context_lines 0 lines (map (λ x. false) lines) k
                l e t (omega arith) small (length_falses lines)) in
        rw some_changed (
          ap changes (bodies-emit false shown) ∙ changes-kept_lines lines mask marked,
          (emit_counted shown).1,
        )
  ]
