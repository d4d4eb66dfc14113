-- ===== src/Event/Slices/Changes.antt =====
-- What a method does to one slice leaves the others alone: two slices share an array at most before their first
-- entry.
use subnetree.Prelude.{
  ℕ, zero, suc, ◌≤◌, ◌<◌, ◌≡◌, refl, ap, sym, true, false, some, ◌==◌, nat_eq, string_eq, ltb,
  arith, Bool-cases, Option-cases, ==_cases, inl, inr,
}
use subnetree.Event.Bus.{HandlerEntry}
use subnetree.Event.Slices.{Slice, Heap, read, position, remove_entry, append_entry}

module _ {H : Type 0} where
  abbrev pub IsSound : Heap H → Slice → Type 0
  IsSound heap s = (s.address < heap.fresh) × (s.size ≤ heap.capacity s.address)

-- The array at 0 has no cells.
abbrev pub IsApart : Slice → Slice → Type 0
IsApart u s = u.address ≡ s.address → s.address ≡ 0

pub IsApart_flip : (u s : Slice) → IsApart u s → IsApart s u
IsApart_flip u s w e = omega (arith, e, w (sym e))

-- What a method does to the heap on the way from one slice to its next value leaves the others alone.
pub record Changes {H : Type 0} (heap : Heap H) (s : Slice) (r : Heap H × Slice) : Type 0 where
  pub no_cells : r.0.capacity 0 ≡ 0
  pub own : IsSound r.0 r.1
  pub others :
      (u : Slice)
      → IsSound heap u
      → IsApart u s
      → (read r.0 u ≡ read heap u) × IsSound r.0 u × IsApart u r.1

pub fresh_other : (a n : ℕ) → a < n → (n == a) ≡ false
fresh_other a n h = ground (arith, h, nat_eq.same_iff n a)

module _ {H : Type 0} where
  position-some : (id : ℕ) (f : ℕ → HandlerEntry H) (k n i : ℕ) → position id f k n ≡ some i → 0 < n
  unfolding position
  position-some id f k zero i h = absurd (cc h)
  position-some id f k (suc n) i h = omega arith

  -- A slice that an array with cells carries is apart from all others.
  elsewhere :
      (heap : Heap H) (u s : Slice)
      → heap.capacity 0 ≡ 0
      → 0 < heap.capacity s.address
      → IsApart u s
      → (s.address == u.address) ≡ false
  elsewhere heap u s none_there room w = elim (==_cases s.address u.address) [
    | inl (t, e) ↦ absurd (omega (arith, room, none_there, ap heap.capacity (w (sym e))))
    | inr (f, e) ↦ f
  ]

  pub remove_entry-Changes :
      (id : ℕ) (s : Slice) (heap : Heap H)
      → heap.capacity 0 ≡ 0
      → IsSound heap s
      → Changes heap s (remove_entry id s heap)
  unfolding remove_entry
  remove_entry-Changes id s heap z (low, fits) =
      elim (Option-cases (position id (heap.cells s.address) 0 s.size)) [
        | inl n ↦
            rw (remove_entry, n)
              (record { no_cells = z; own = (low, fits); others = λ u v w. (refl, v, w) })
        | inr (i, e) ↦
            let some_there = position-some id (heap.cells s.address) 0 s.size i e in
            rw (remove_entry, e)
              (record {
                no_cells = z;
                own = (low, omega (arith, fits));
                others = λ u v w.
                    let other = elsewhere heap u s z (omega (arith, fits, some_there)) w in
                    (rw other refl, v, w);
              })
      ]

  pub append_entry-Changes :
      (blank : HandlerEntry H) (spare : ℕ → ℕ) (e : HandlerEntry H) (s : Slice) (heap : Heap H)
      → heap.capacity 0 ≡ 0
      → IsSound heap s
      → Changes heap s (append_entry blank spare e s heap)
  unfolding append_entry
  append_entry-Changes blank spare e s heap z (low, fits) =
      elim (Bool-cases (ltb s.size (heap.capacity s.address))) [
        | inl t ↦
            let room : s.size < heap.capacity s.address = ground (arith, t) in
            rw t (record {
              no_cells = z;
              own = (low, omega (arith, room));
              others = λ u v w.
                  let other = elsewhere heap u s z (omega (arith, room)) w in (rw other refl, v, w);
            })
        | inr f ↦
            let first = fresh_other 0 heap.fresh (omega (arith, low)) in
            let here : (heap.fresh == heap.fresh) ≡ true =
              ground (arith, nat_eq.same_iff heap.fresh heap.fresh) in
            rw f (record {
              no_cells = rw first z;
              own = (omega arith, rw here (omega arith));
              others = λ u v w.
                  let other = fresh_other u.address heap.fresh v.0 in
                  (
                    rw other refl,
                    (omega (arith, v.0), rw other v.1),
                    λ at. absurd (omega (arith, at, v.0)),
                  );
            })
      ]
