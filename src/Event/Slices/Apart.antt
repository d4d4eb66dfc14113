-- ===== src/Event/Slices/Apart.antt =====
-- No step of the bus writes to an array that no slice of the bus is at.
use subnetree.Prelude.{
  ℕ, zero, suc, ◌+◌, ◌<◌, ◌≡◌, refl, ap, ap₂, ◌∙◌, String, false, List, [], ◌∷◌, ◌==◌, nat_eq,
  string_eq, ltb, update, arith, Bool-cases, Option-cases, inl, inr,
}
use subnetree.Event.Bus.{HandlerEntry, handlers_of}
use subnetree.Event.Slices.{
  Slice, Heap, Bus, Step, add, add_all, cut, cut_all, copy_out, read_from, position, remove_entry,
  copy_slice, copy_both, unsubscribe, unsubscribe_all, append_entry, subscribe, subscribe_all,
  perform, perform_all, call_each,
}

-- What a method does to the heap on the way to a slice leaves the array at `a` alone.
record Spares {H : Type 0} (a : ℕ) (heap : Heap H) (r : Heap H × Slice) : Type 0 where
  pub below : a < r.0.fresh
  apart : (r.1.address == a) ≡ false
  pub same : r.0.cells a ≡ heap.cells a

-- No slice of the bus is at the array `a`, whose cells are `c`.
pub record Holds {H : Type 0} (a : ℕ) (c : ℕ → HandlerEntry H) (b : Bus H) : Type 0 where
  pub below : a < b.heap.fresh
  pub topics : (topic : String) → ((b.handlers topic).address == a) ≡ false
  pub all : (b.all_subs.address == a) ≡ false
  pub same : b.heap.cells a ≡ c

module _ {H : Type 0} (a : ℕ) where
  remove_entry-Spares :
      (id : ℕ) (s : Slice) (heap : Heap H)
      → a < heap.fresh
      → (s.address == a) ≡ false
      → Spares a heap (remove_entry id s heap)
  unfolding remove_entry
  remove_entry-Spares id s heap low d =
      elim (Option-cases (position id (heap.cells s.address) 0 s.size)) [
        | inl n ↦ rw (remove_entry, n) (record { below = low; apart = d; same = refl })
        | inr (i, e) ↦ rw (remove_entry, e) (record { below = low; apart = d; same = rw d refl })
      ]

  copy_slice-Spares :
      (s : Slice) (heap : Heap H) → a < heap.fresh → Spares a heap (copy_slice s heap)
  unfolding copy_slice
  copy_slice-Spares s heap low =
      let other : (heap.fresh == a) ≡ false = ground (arith, low, nat_eq.same_iff heap.fresh a) in
      record { below = omega (arith, low); apart = other; same = rw other refl }

  append_entry-Spares :
      (blank : HandlerEntry H) (spare : ℕ → ℕ) (e : HandlerEntry H) (s : Slice) (heap : Heap H)
      → a < heap.fresh
      → (s.address == a) ≡ false
      → Spares a heap (append_entry blank spare e s heap)
  unfolding append_entry
  append_entry-Spares blank spare e s heap low d =
      let other : (heap.fresh == a) ≡ false = ground (arith, low, nat_eq.same_iff heap.fresh a) in
      elim (Bool-cases (ltb s.size (heap.capacity s.address))) [
        | inl t ↦ rw t (record { below = low; apart = d; same = rw d refl })
        | inr f ↦ rw f (record { below = omega (arith, low); apart = other; same = rw other refl })
      ]

  -- A new slice for a topic.
  topic_changed :
      (c : ℕ → HandlerEntry H) (topic : String) (r : Heap H × Slice) (next : ℕ) (b : Bus H)
      → Spares a b.heap r
      → Holds a c b
      → Holds a c (record b { heap = r.0; handlers = update b.handlers topic r.1; next_id = next })
  topic_changed c topic r next b s h = record {
    below = s.below;
    topics = λ other. ground (arith, s.apart, h.topics other);
    all = h.all;
    same = s.same ∙ h.same;
  }

  all_changed :
      (c : ℕ → HandlerEntry H) (r : Heap H × Slice) (next : ℕ) (b : Bus H)
      → Spares a b.heap r
      → Holds a c b
      → Holds a c (record b { heap = r.0; all_subs = r.1; next_id = next })
  all_changed c r next b s h = record {
    below = s.below;
    topics = h.topics;
    all = s.apart;
    same = s.same ∙ h.same;
  }

  copy_both-Holds :
      (c : ℕ → HandlerEntry H) (topic : String) (b : Bus H)
      → Holds a c b
      → Holds a c (copy_both topic b).0
  unfolding copy_both
  copy_both-Holds c topic b h =
      let first = copy_slice-Spares (b.handlers topic) b.heap h.below in
      let heap = (copy_slice (b.handlers topic) b.heap).0 in
      let second = copy_slice-Spares b.all_subs heap first.below in
      record {
        below = second.below;
        topics = h.topics;
        all = h.all;
        same = second.same ∙ first.same ∙ h.same;
      }

module _ {H : Type 0} (blank : HandlerEntry H) (spare : ℕ → ℕ) (a : ℕ) where
  -- No step writes to an array that no slice of the bus is at.
  perform-Holds :
      (c : ℕ → HandlerEntry H) (s : Step H) (b : Bus H)
      → Holds a c b
      → Holds a c (perform blank spare s b)
  unfolding perform subscribe subscribe_all unsubscribe unsubscribe_all
  perform-Holds c (add topic x) b h =
      topic_changed a c topic _ _ b
        (append_entry-Spares a blank spare _ (b.handlers topic) b.heap h.below (h.topics topic)) h
  perform-Holds c (add_all x) b h =
      all_changed a c _ _ b (append_entry-Spares a blank spare _ b.all_subs b.heap h.below h.all) h
  perform-Holds c (cut topic id) b h =
      topic_changed a c topic _ b.next_id b
        (remove_entry-Spares a id (b.handlers topic) b.heap h.below (h.topics topic)) h
  perform-Holds c (cut_all id) b h =
      all_changed a c _ b.next_id b (remove_entry-Spares a id b.all_subs b.heap h.below h.all) h
  perform-Holds c (copy_out topic) b h = copy_both-Holds a c topic b h

  perform_all-Holds :
      (c : ℕ → HandlerEntry H) (steps : List (Step H)) (b : Bus H)
      → Holds a c b
      → Holds a c (perform_all blank spare steps b)
  unfolding perform_all
  perform_all-Holds c [] b h = h
  perform_all-Holds c (s ∷ steps) b h =
      perform_all-Holds c steps (perform blank spare s b) (perform-Holds c s b h)

  pub call_each-Holds :
      (act : H → Bus H → List (Step H)) (c : ℕ → HandlerEntry H) (l k n : ℕ) (b : Bus H)
      → Holds a c b
      → Holds a c (call_each blank spare act l k n b).0
  unfolding call_each
  call_each-Holds act c l k zero b h = h
  call_each-Holds act c l k (suc n) b h =
      let steps = act (b.heap.cells l k).handler b in
      call_each-Holds act c l (k + 1) n (perform_all blank spare steps b)
        (perform_all-Holds c steps b h)

  -- The loop over the array calls the handlers that it held at the start.
  pub call_each-handlers_of :
      (act : H → Bus H → List (Step H)) (c : ℕ → HandlerEntry H) (k n : ℕ) (b : Bus H)
      → Holds a c b
      → (call_each blank spare act a k n b).1 ≡ handlers_of (read_from c k n)
  unfolding call_each read_from
  call_each-handlers_of act c k zero b h = refl
  call_each-handlers_of act c k (suc n) b h =
      let steps = act (b.heap.cells a k).handler b in
      let rest =
        call_each-handlers_of act c (k + 1) n (perform_all blank spare steps b)
          (perform_all-Holds c steps b h) in
      ap₂ (λ x xs. x ∷ xs) (ap (λ f. (f k).handler) h.same) rest
