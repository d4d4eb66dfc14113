-- ===== src/Event/Tests.antt =====
-- A bus with three subscriptions, whose handlers subscribe and unsubscribe, and the theorems at it.
use subnetree.Prelude.{
  ℕ, ◌≡◌, refl, String, false, List, [], ◌∷◌, ◌==◌, nat_eq, string_eq, if◌then◌else◌, arith,
}
use subnetree.Event.Bus.{Bus, new_bus, subscribe, unsubscribe, HandlerEntry, audience}
use subnetree.Event.Slices
use subnetree.Event.Slices.{Step, add, add_all, cut, publish, perform_all}
use subnetree.Event.Slices.Listed.{list_steps}
use subnetree.Event.Slices.Delivery.{publish-audience}
use subnetree.Event.Bus.Subscriptions.{ids, IsValid, subscribe-IsValid, unsubscribe-handlers}

new_bus-IsValid : IsValid {H = ℕ} new_bus
new_bus-IsValid = record {
  topics = λ topic i. (ground arith, λ h. refl);
  all = λ i. (ground arith, λ h. refl);
}

abbrev one : Bus ℕ
one = (subscribe "found" 11 new_bus).0

abbrev both : Bus ℕ
both = (subscribe "found" 12 one).0

one-IsValid : IsValid one
one-IsValid = (subscribe-IsValid "found" 11 0 new_bus (omega arith) new_bus-IsValid).0

both-IsValid : IsValid both
unfolding subscribe
both-IsValid = (subscribe-IsValid "found" 12 0 one (omega arith) one-IsValid).0

-- The first handler takes itself out of the bus, which shifts the second to its place, and then fills the
-- cell behind.
abbrev meddle : ℕ → Slices.Bus ℕ → List (Step ℕ)
meddle h b = if h == 11 then cut "found" 0 ∷ add "found" 14 ∷ [] else []

abbrev history : List (Step ℕ)
history = add "found" 11 ∷ add "found" 12 ∷ add_all 13 ∷ []

abbrev blank : HandlerEntry ℕ
blank = record { id = 0; handler = 0 }

abbrev busy : Slices.Bus ℕ
busy = perform_all blank (λ n. n) history (Slices.new_bus blank (λ n. n))

still_called : (publish blank (λ n. n) meddle "found" busy).1 ≡ 11 ∷ 12 ∷ 13 ∷ []
unfolding publish perform_all Slices.read_from
still_called = refl

abbrev gone_after : List (HandlerEntry ℕ)
gone_after =
    let after = (publish blank (λ n. n) meddle "found" busy).0 in
    Slices.read after.heap (after.handlers "found")

ids-gone_after : ids gone_after ≡ 1 ∷ 3 ∷ []
unfolding publish perform_all Slices.read_from
ids-gone_after = refl

publish-audience_example :
    (publish blank (λ n. n) meddle "found" busy).1 ≡ audience "found" (list_steps history new_bus)
publish-audience_example = publish-audience blank (λ n. n) meddle "found" history

unsubscribe-handlers_example :
    ((unsubscribe "found" 0 both).handlers "found" ≡ record { id = 1; handler = 12 } ∷ [])
    × ((other : String)
        → ("found" == other) ≡ false
        → (unsubscribe "found" 0 both).handlers other ≡ both.handlers other)
    × ((unsubscribe "found" 0 both).all_subs ≡ both.all_subs)
unfolding subscribe
unsubscribe-handlers_example =
    unsubscribe-handlers "found" (record { id = 0; handler = 11 }) []
      (record { id = 1; handler = 12 } ∷ []) both both-IsValid refl
