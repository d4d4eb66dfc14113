-- ===== src/Event/Slices/Reads.antt =====
-- What the slices hold is what the lists of the subscriptions hold: a removal shifts out the first entry with
-- the identifier, an append adds one behind, and a copy has the same entries.
use subnetree.Prelude.{
  ℕ, zero, suc, ◌+◌, ◌-◌, ◌≤◌, ◌<◌, ◌≡◌, refl, ap, ap₂, sym, ◌∙◌, subst, true, false, [], ◌∷◌, ◌++◌,
  none, some, ◌==◌, nat_eq, if◌then◌else◌, ltb, arith, Bool-cases, Option-cases, inl, inr,
}
use subnetree.Event.Bus
use subnetree.Event.Bus.{HandlerEntry}
use subnetree.Event.Slices.{
  Slice, Heap, read_from, read, shift, set_at, position, remove_entry, append_entry,
}

nat_eq_refl : (n : ℕ) → (n == n) ≡ true
nat_eq_refl n = ground (arith, nat_eq.same_iff n n)

module _ {H : Type 0} where
  -- Two arrays that agree on the cells read.
  read_from-agree :
      (f g : ℕ → HandlerEntry H) (k n : ℕ)
      → ((j : ℕ) → k ≤ j → j < k + n → f j ≡ g j)
      → read_from f k n ≡ read_from g k n
  unfolding read_from
  read_from-agree f g k zero h = refl
  read_from-agree f g k (suc n) h =
      ap₂ (λ x xs. x ∷ xs) (h k (omega arith) (omega arith))
        (read_from-agree f g (k + 1) n (λ j a b. h j (omega (arith, a)) (omega (arith, b))))

  read_from-shifted :
      (f g : ℕ → HandlerEntry H) (k n : ℕ)
      → ((j : ℕ) → k ≤ j → j < k + n → f j ≡ g (j + 1))
      → read_from f k n ≡ read_from g (k + 1) n
  unfolding read_from
  read_from-shifted f g k zero h = refl
  read_from-shifted f g k (suc n) h =
      ap₂ (λ x xs. x ∷ xs) (h k (omega arith) (omega arith))
        (read_from-shifted f g (k + 1) n (λ j a b. h j (omega (arith, a)) (omega (arith, b))))

  position-ge : (id : ℕ) (f : ℕ → HandlerEntry H) (k n i : ℕ) → position id f k n ≡ some i → k ≤ i
  unfolding position
  position-ge id f k zero i h = absurd (cc h)
  position-ge id f k (suc n) i h =
      let rest = position-ge id f (k + 1) n i in ground (arith, h, rest)

  -- Without the identifier nothing is removed.
  read_from-absent :
      (id : ℕ) (f : ℕ → HandlerEntry H) (k n : ℕ)
      → position id f k n ≡ none
      → Bus.remove_entry id (read_from f k n) ≡ read_from f k n
  unfolding position read_from Bus.remove_entry
  read_from-absent id f k zero h = refl
  read_from-absent id f k (suc n) h =
      let rest = read_from-absent id f (k + 1) n in ground (arith, h, rest)

  -- With it, one entry goes.
  read_from-removed :
      (id : ℕ) (f : ℕ → HandlerEntry H) (k n i : ℕ)
      → position id f k (suc n) ≡ some i
      → read_from (shift i (k + suc n) f) k n ≡ Bus.remove_entry id (read_from f k (suc n))
  unfolding position read_from Bus.remove_entry
  read_from-removed id f k zero i h = elim (Bool-cases ((f k).id == id)) [
    | inl t ↦ rw t refl
    | inr e ↦ absurd (ground (arith, h, e))
  ]
  read_from-removed id f k (suc n) i h =
      let rest = read_from-removed id f (k + 1) n i in
      let size : (k + 1) + suc n ≡ k + suc (suc n) = omega arith in
      elim (Bool-cases ((f k).id == id)) [
        | inl t ↦
            let here : k ≡ i = ground (arith, h, t) in
            rw t (
              read_from-shifted (shift i (k + suc (suc n)) f) f k (suc n)
                (λ j a b. ground (arith, here, a, b)))
        | inr e ↦
            let later : position id f (k + 1) (suc n) ≡ some i = ground (arith, h, e) in
            let past = position-ge id f (k + 1) (suc n) i later in
            rw e (
              ap₂ (λ x xs. x ∷ xs) (ground (arith, past))
                (subst
                  (λ m.
                    read_from (shift i m f) (k + 1) n
                    ≡ Bus.remove_entry id (read_from f (k + 1) (suc n)))
                  size (rest later)))
      ]

  read_from-set_at :
      (f : ℕ → HandlerEntry H) (e : HandlerEntry H) (k n : ℕ)
      → read_from (set_at f (k + n) e) k (suc n) ≡ read_from f k n ++ e ∷ []
  unfolding read_from
  read_from-set_at f e k zero = ground (arith, nat_eq.same_iff (k + 0) k)
  read_from-set_at f e k (suc n) =
      let here : (k + suc n == k) ≡ false = ground (arith, nat_eq.same_iff (k + suc n) k) in
      let place : (k + 1) + n ≡ k + suc n = omega arith in
      rw here (
        ap (λ xs. f k ∷ xs)
          (subst (λ m. read_from (set_at f m e) (k + 1) (suc n) ≡ read_from f (k + 1) n ++ e ∷ [])
            place (read_from-set_at f e (k + 1) n)))

  remove_entry-read_at :
      (id a n : ℕ) (heap : Heap H)
      → read
          (remove_entry id (record { address = a; size = n }) heap).0
          (remove_entry id (record { address = a; size = n }) heap).1
        ≡ Bus.remove_entry id (read heap (record { address = a; size = n }))
  unfolding remove_entry position read_from Bus.remove_entry
  remove_entry-read_at id a zero heap = refl
  remove_entry-read_at id a (suc n) heap =
      let cells = heap.cells a in
      elim (Option-cases (position id cells 0 (suc n))) [
        | inl absent ↦ rw (remove_entry, absent) (sym (read_from-absent id cells 0 (suc n) absent))
        | inr (i, e) ↦
            let size : 0 + suc n ≡ suc n = omega arith in
            let removed : read_from (shift i (suc n) cells) 0 n
                ≡ Bus.remove_entry id (read_from cells 0 (suc n)) =
              subst
                (λ m.
                  read_from (shift i m cells) 0 n ≡ Bus.remove_entry id (read_from cells 0 (suc n)))
                size (read_from-removed id cells 0 n i e) in
            let one_less : suc n - 1 ≡ n = omega arith in
            rw (remove_entry, e, nat_eq_refl a, one_less) removed
      ]

  -- The shift in the array is the removal from the list.
  pub remove_entry-read :
      (id : ℕ) (s : Slice) (heap : Heap H)
      → read (remove_entry id s heap).0 (remove_entry id s heap).1
        ≡ Bus.remove_entry id (read heap s)
  remove_entry-read id s heap = remove_entry-read_at id s.address s.size heap

  -- An append into the array or a larger one is an append to the list.
  pub append_entry-read :
      (blank : HandlerEntry H) (spare : ℕ → ℕ) (e : HandlerEntry H) (s : Slice) (heap : Heap H)
      → read (append_entry blank spare e s heap).0 (append_entry blank spare e s heap).1
        ≡ read heap s ++ e ∷ []
  unfolding append_entry
  append_entry-read blank spare e s heap =
      let old = heap.cells s.address in
      let grown : ℕ → HandlerEntry H =
        λ k. if ltb k s.size then old k else if k == s.size then e else blank in
      let size : suc s.size ≡ s.size + 1 = omega arith in
      let place : 0 + s.size ≡ s.size = omega arith in
      let added : read_from (set_at old s.size e) 0 (s.size + 1)
          ≡ read_from old 0 s.size ++ e ∷ [] =
        subst (λ n. read_from (set_at old s.size e) 0 n ≡ read_from old 0 s.size ++ e ∷ []) size
          (subst (λ m. read_from (set_at old m e) 0 (suc s.size) ≡ read_from old 0 s.size ++ e ∷ [])
            place (read_from-set_at old e 0 s.size)) in
      elim (Bool-cases (ltb s.size (heap.capacity s.address))) [
        | inl t ↦ rw (t, nat_eq_refl s.address) added
        | inr f ↦
            rw (f, nat_eq_refl heap.fresh)
              (read_from-agree grown (set_at old s.size e) 0 (s.size + 1)
                  (λ j a b. ground (arith, b, nat_eq.same_iff j s.size, nat_eq.same_iff s.size j))
                ∙ added)
      ]
