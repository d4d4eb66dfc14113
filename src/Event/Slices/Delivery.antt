-- ===== src/Event/Slices/Delivery.antt =====
-- Whom an event reaches.
use subnetree.Prelude.{
  ℕ, ◌+◌, ◌≡◌, refl, ap₂, ◌∙◌, String, true, false, List, ◌++◌, ◌==◌, nat_eq, string_eq, arith,
}
use subnetree.Event.Bus.{HandlerEntry, handlers_of, audience, new_bus as no_subscriptions}
use subnetree.Event.Slices.Listed.{list_steps, history-Shows}
use subnetree.Event.Slices.{
  Bus, Step, new_bus, read, copy_slice, copy_both, perform_all, call_each, publish,
}
use subnetree.Event.Slices.Apart.{Holds, call_each-Holds, call_each-handlers_of}
use subnetree.Event.Slices.Allocated.{IsAllocated, perform_all-IsAllocated}

module _ {H : Type 0} (blank : HandlerEntry H) (spare : ℕ → ℕ) where
  -- The handlers that the slices hold.
  abbrev held : String → Bus H → List H
  held topic b =
      handlers_of (read b.heap (b.handlers topic)) ++ handlers_of (read b.heap b.all_subs)

  -- The copies are apart from the slices of the bus and from each other.
  copied :
      (topic : String) (b : Bus H)
      → IsAllocated b
      → Holds b.heap.fresh (b.heap.cells (b.handlers topic).address) (copy_both topic b).0
        × Holds (b.heap.fresh + 1) (b.heap.cells b.all_subs.address) (copy_both topic b).0
  unfolding copy_both copy_slice
  copied topic b h =
      let fresh = b.heap.fresh in
      let first : (fresh == fresh) ≡ true = ground (arith, nat_eq.same_iff fresh fresh) in
      let second : (fresh + 1 == fresh + 1) ≡ true =
        ground (arith, nat_eq.same_iff (fresh + 1) (fresh + 1)) in
      let up : (fresh + 1 == fresh) ≡ false = ground (arith, nat_eq.same_iff (fresh + 1) fresh) in
      let up' : (fresh == fresh + 1) ≡ false = ground (arith, nat_eq.same_iff fresh (fresh + 1)) in
      let old : (fresh == b.all_subs.address) ≡ false =
        ground (arith, h.all, nat_eq.same_iff fresh b.all_subs.address) in
      (
        record {
          below = omega arith;
          topics = λ other.
              ground (arith, h.topics other, nat_eq.same_iff (b.handlers other).address fresh);
          all = ground (arith, h.all, nat_eq.same_iff b.all_subs.address fresh);
          same = rw (up, first) refl;
        },
        record {
          below = omega arith;
          topics = λ other.
              ground
                (arith, h.topics other, nat_eq.same_iff (b.handlers other).address (fresh + 1));
          all = ground (arith, h.all, nat_eq.same_iff b.all_subs.address (fresh + 1));
          same = rw (second, old) refl;
        },
      )

  publish_calls :
      (act : H → Bus H → List (Step H)) (topic : String) (b : Bus H)
      → IsAllocated b
      → (publish blank spare act topic b).1 ≡ held topic b
  unfolding publish copy_both copy_slice
  publish_calls act topic b h =
      let (first, second) = copied topic b h in
      let after =
        (call_each blank spare act b.heap.fresh 0 (b.handlers topic).size
          (copy_both topic b).0).0 in
      ap₂ (λ x y. x ++ y)
        (call_each-handlers_of blank spare b.heap.fresh act
          (b.heap.cells (b.handlers topic).address) 0 (b.handlers topic).size (copy_both topic b).0
          first)
        (call_each-handlers_of blank spare (b.heap.fresh + 1) act (b.heap.cells b.all_subs.address)
          0 b.all_subs.size after
          (call_each-Holds blank spare (b.heap.fresh + 1) act (b.heap.cells b.all_subs.address)
            b.heap.fresh 0 (b.handlers topic).size (copy_both topic b).0 second))

  -- On a bus with any history, Publish calls the handlers that are subscribed when it begins, each once and
  -- in the order of subscription, those of the topic first, whatever steps of the bus happen while a
  -- handler runs: removals that shift the entries of an array in place, subscriptions that fill it up
  -- and other publications included.
  pub publish-audience :
      (act : H → Bus H → List (Step H)) (topic : String) (history : List (Step H))
      → (publish blank spare act topic (perform_all blank spare history (new_bus blank spare))).1
        ≡ audience topic (list_steps history no_subscriptions)
  publish-audience act topic history =
      let shown = history-Shows blank spare history in
      publish_calls act topic (perform_all blank spare history (new_bus blank spare)) (
        perform_all-IsAllocated blank spare history (new_bus blank spare)
          (record { topics = λ other. omega arith; all = omega arith }))
      ∙ ap₂ (λ x y. handlers_of x ++ handlers_of y) (shown.topic_lists topic) shown.all_list
