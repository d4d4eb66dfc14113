-- ===== src/Registry/Validate/Pass.antt =====
-- Rules for a range loop that can return early, and for the bodies of Validate's loops.
use subnetree.Prelude.{
  ◌≡◌, refl, String, true, List, [], ◌∷◌, none, some, string_eq, contains, arith, subst,
  contains_self, contains_tail, ◌⊎◌, inl, inr, ==_cases,
}
use subnetree.Registry.Validate.{Marks, Pass, and_then, for_each}

pub and_then_ind {ℓ} :
    (P : Pass → Type ℓ) (rest : Marks → Pass) (o : Pass)
    → P o
    → ((m : Marks) → P (m, none) → P (rest m))
    → P (and_then o rest)
and_then_ind P rest (m, none) p h = h m p
and_then_ind P rest (m, some e) p h = p

-- A property of the marks and of the error, kept by each round, holds at the end.
pub for_each_ind {ℓ} :
    (P : Pass → Type ℓ) (body : String → Marks → Pass) (names : List String)
    → ((x : String) (m : Marks) → contains names x ≡ true → P (m, none) → P (body x m))
    → (m : Marks) → P (m, none)
    → P (for_each body names m)
unfolding for_each
for_each_ind P body [] step m h = h
for_each_ind P body (x ∷ xs) step m h =
    and_then_ind P (for_each body xs) (body x m) (step x m (contains_self x xs) h)
      (for_each_ind P body xs (λ y m' c. step y m' (contains_tail y x xs c)))

and_then_none {ℓ} :
    (C : String → Marks → Type ℓ) (x : String) (rest : Marks → Pass) (o : Pass) {S : Marks → Type ℓ}
    → (and_then o rest).1 ≡ none
    → (o.1 ≡ none → S o.0)
    → ((m : Marks) → (rest m).1 ≡ none → S m → C x (rest m).0)
    → C x (and_then o rest).0
and_then_none C x rest (m, none) e s h = h m e (s refl)
and_then_none C x rest (m, some _) e s h = absurd (cc)

-- What a round without error establishes, and later rounds keep, holds at the end of every name.
pub for_each_all {ℓ} :
    (C : String → Marks → Type ℓ) (body : String → Marks → Pass)
    → ((x : String) (m : Marks) → (body x m).1 ≡ none → C x (body x m).0)
    → ((x y : String) (m : Marks) → C x m → C x (body y m).0)
    → (names : List String) (m : Marks) → (for_each body names m).1 ≡ none
    → (x : String) → (contains names x ≡ true) ⊎ C x m
    → C x (for_each body names m).0
unfolding for_each
for_each_all C body after kept [] m e x (inl h) = cc
for_each_all C body after kept [] m e x (inr c) = c
for_each_all C body after kept (y ∷ ys) m e x h =
    and_then_none C x (for_each body ys) (body y m) {S = λ m'. (contains ys x ≡ true) ⊎ C x m'} e
      (λ r. reached r h) (λ m' e' s. for_each_all C body after kept ys m' e' x s)
  where
    reached :
        (body y m).1 ≡ none
        → (contains (y ∷ ys) x ≡ true) ⊎ C x m
        → (contains ys x ≡ true) ⊎ C x (body y m).0
    reached r (inr c) = inr (kept x y m c)
    reached r (inl c) = elim (==_cases y x) [
      | inl (h, p) ↦ inr (subst (λ z. C z (body y m).0) p (after y m r))
      | inr (h, p) ↦ inl (ground arith)
    ]
