-- ===== src/Event/Slices/Allocated.antt =====
-- The arrays of the bus are allocated, whatever steps it makes.
use subnetree.Prelude.{
  ℕ, ◌<◌, ◌≤◌, String, List, [], ◌∷◌, nat_eq, string_eq, ltb, update, arith, Bool-cases,
  Option-cases, inl, inr,
}
use subnetree.Event.Bus.{HandlerEntry}
use subnetree.Event.Slices.{
  Slice, Heap, Bus, Step, add, add_all, cut, cut_all, copy_out, position, remove_entry, copy_slice,
  copy_both, unsubscribe, unsubscribe_all, append_entry, subscribe, subscribe_all, perform,
  perform_all,
}

-- The arrays of the bus are allocated.
pub record IsAllocated {H : Type 0} (b : Bus H) : Type 0 where
  pub topics : (topic : String) → (b.handlers topic).address < b.heap.fresh
  pub all : b.all_subs.address < b.heap.fresh

-- What a method does to the heap on the way to a slice only allocates, and so is the slice.
record Allocates {H : Type 0} (heap : Heap H) (r : Heap H × Slice) : Type 0 where
  pub more : heap.fresh ≤ r.0.fresh
  pub inside : r.1.address < r.0.fresh

module _ {H : Type 0} where
  remove_entry-Allocates :
      (id : ℕ) (s : Slice) (heap : Heap H)
      → s.address < heap.fresh
      → Allocates heap (remove_entry id s heap)
  unfolding remove_entry
  remove_entry-Allocates id s heap low =
      elim (Option-cases (position id (heap.cells s.address) 0 s.size)) [
        | inl n ↦ rw (remove_entry, n) (record { more = omega arith; inside = low })
        | inr (i, e) ↦ rw (remove_entry, e) (record { more = omega arith; inside = low })
      ]

  topic_room :
      (topic : String) (r : Heap H × Slice) (next : ℕ) (b : Bus H)
      → Allocates b.heap r
      → IsAllocated b
      → IsAllocated
          (record b { heap = r.0; handlers = update b.handlers topic r.1; next_id = next })
  topic_room topic r next b s h = record {
    topics = λ other. ground (arith, s.more, s.inside, h.topics other);
    all = omega (arith, s.more, h.all);
  }

  all_room :
      (r : Heap H × Slice) (next : ℕ) (b : Bus H)
      → Allocates b.heap r
      → IsAllocated b
      → IsAllocated (record b { heap = r.0; all_subs = r.1; next_id = next })
  all_room r next b s h = record {
    topics = λ topic. omega (arith, s.more, h.topics topic);
    all = s.inside;
  }

module _ {H : Type 0} (blank : HandlerEntry H) (spare : ℕ → ℕ) where
  append_entry-Allocates :
      (e : HandlerEntry H) (s : Slice) (heap : Heap H)
      → s.address < heap.fresh
      → Allocates heap (append_entry blank spare e s heap)
  unfolding append_entry
  append_entry-Allocates e s heap low = elim (Bool-cases (ltb s.size (heap.capacity s.address))) [
    | inl t ↦ rw t (record { more = omega arith; inside = low })
    | inr f ↦ rw f (record { more = omega arith; inside = omega arith })
  ]

  perform-IsAllocated :
      (s : Step H) (b : Bus H) → IsAllocated b → IsAllocated (perform blank spare s b)
  unfolding perform subscribe subscribe_all unsubscribe unsubscribe_all copy_both copy_slice
  perform-IsAllocated (add topic x) b h =
      topic_room topic _ _ b (append_entry-Allocates _ (b.handlers topic) b.heap (h.topics topic)) h
  perform-IsAllocated (add_all x) b h =
      all_room _ _ b (append_entry-Allocates _ b.all_subs b.heap h.all) h
  perform-IsAllocated (cut topic id) b h =
      topic_room topic _ b.next_id b
        (remove_entry-Allocates id (b.handlers topic) b.heap (h.topics topic)) h
  perform-IsAllocated (cut_all id) b h =
      all_room _ b.next_id b (remove_entry-Allocates id b.all_subs b.heap h.all) h
  perform-IsAllocated (copy_out topic) b h = record {
    topics = λ other. omega (arith, h.topics other);
    all = omega (arith, h.all);
  }

  pub perform_all-IsAllocated :
      (steps : List (Step H)) (b : Bus H)
      → IsAllocated b
      → IsAllocated (perform_all blank spare steps b)
  unfolding perform_all
  perform_all-IsAllocated [] b h = h
  perform_all-IsAllocated (s ∷ steps) b h =
      perform_all-IsAllocated steps (perform blank spare s b) (perform-IsAllocated s b h)
