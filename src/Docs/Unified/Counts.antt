-- ===== src/Docs/Unified/Counts.antt =====
-- A reader that trusts the numbers in the headers.
use subnetree.Prelude.{
  ℕ, ◌+◌, ◌-◌, ◌≡◌, refl, Bool, true, false, not, ◌&&◌, List, [], ◌∷◌, ◌==◌, nat_eq, arith,
}
use subnetree.Docs.Diff.{context, add, remove, DiffLine}
use subnetree.Docs.Unified.{Item, header, body, old_count, new_count, emit}

module _ {A : Type 0} where
  -- Every header is followed by as many old and new lines as it says, and comes where the lines of the one
  -- before it are used up.
  abbrev pub is_counted : ℕ → ℕ → List (Item A) → Bool
  is_counted o n [] = o == 0 && n == 0
  is_counted o n (header os oc ns nc ∷ rest) =
      let next = is_counted oc nc rest in (o == 0 && n == 0) && next
  is_counted o n (body l ∷ rest) = elim l.kind [
    | context ↦ (not (o == 0) && not (n == 0)) && is_counted (o - 1) (n - 1) rest
    | remove ↦ not (o == 0) && is_counted (o - 1) n rest
    | add ↦ not (n == 0) && is_counted o (n - 1) rest
  ]

  -- A line takes its part of the counts.
  body_counted :
      (l : DiffLine A) (o n : ℕ) (rest : List (Item A))
      → is_counted o n rest ≡ true
      → is_counted
          (elim l.kind [ context ↦ o + 1 | remove ↦ o + 1 | add ↦ o ])
          (elim l.kind [ context ↦ n + 1 | remove ↦ n | add ↦ n + 1 ])
          (body l ∷ rest)
        ≡ true
  body_counted l o n rest h =
      let once : (k : ℕ) → (k + 1) - 1 ≡ k = λ k. omega arith in
      let some : (k : ℕ) → (k + 1 == 0) ≡ false = λ k. ground arith in
      elim l.kind
        as (λ k.
          is_counted (elim k [ context ↦ o + 1 | remove ↦ o + 1 | add ↦ o ])
            (elim k [ context ↦ n + 1 | remove ↦ n | add ↦ n + 1 ])
            (body (record l { kind = k }) ∷ rest)
          ≡ true) [
            | context ↦ rw (some o, some n, once o, once n) h
            | remove ↦ rw (some o, once o) h
            | add ↦ rw (some n, once n) h
          ]

  -- In a hunk with its own counts, and between two hunks.
  pub emit_counted :
      (ls : List (DiffLine A × Bool))
      → (is_counted (old_count ls) (new_count ls) (emit true ls) ≡ true)
        × (is_counted 0 0 (emit false ls) ≡ true)
  unfolding emit
  emit_counted [] = (refl, refl)
  emit_counted ((l, false) ∷ ls) = let (inside, between) = emit_counted ls in (between, between)
  emit_counted ((l, true) ∷ ls) =
      let (inside, between) = emit_counted ls in
      let line = body_counted l (old_count ls) (new_count ls) (emit true ls) inside in (line, line)
