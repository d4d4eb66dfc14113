-- ===== src/Event/Bus.antt =====
-- internal/event/bus.go: the subscriptions. A handler is a value of the type `H`, and a slice of entries
-- is the list of what it holds; Slices has the arrays behind them, and Publish.
pub mod Subscriptions
use subnetree.Prelude.{
  ℕ, ◌+◌, ◌%◌, ◌^◌, String, Bool, List, [], ◌∷◌, ◌++◌, ◌==◌, nat_eq, string_eq, if◌then◌else◌,
  update,
}

pub record HandlerEntry (H : Type 0) : Type 0 where
  pub id : ℕ
  pub handler : H

pub record Bus (H : Type 0) : Type 0 where
  pub handlers : String → List (HandlerEntry H)
  pub all_subs : List (HandlerEntry H)
  pub next_id : ℕ

-- `b.nextID++` on a uint64.
abbrev pub following : ℕ → ℕ
following id = (id + 1) % 2 ^ 64

module _ {H : Type 0} where
  abbrev pub new_bus : Bus H
  new_bus = record { handlers = λ topic. []; all_subs = []; next_id = 0 }

  -- The identifier is what the returned function closes over.
  unfoldable pub subscribe : String → H → Bus H → Bus H × ℕ
  subscribe topic h b = (
    record b {
      handlers =
          update b.handlers topic (b.handlers topic ++ record { id = b.next_id; handler = h } ∷ []);
      next_id = following b.next_id;
    },
    b.next_id,
  )

  unfoldable pub subscribe_all : H → Bus H → Bus H × ℕ
  subscribe_all h b = (
    record b {
      all_subs = b.all_subs ++ record { id = b.next_id; handler = h } ∷ [];
      next_id = following b.next_id;
    },
    b.next_id,
  )

  -- The loop of both returned functions: the first entry with the identifier is cut out.
  unfoldable pub remove_entry : ℕ → List (HandlerEntry H) → List (HandlerEntry H)
  remove_entry id [] = []
  remove_entry id (e ∷ es) = if e.id == id then es else e ∷ remove_entry id es

  unfoldable pub unsubscribe : String → ℕ → Bus H → Bus H
  unfolding remove_entry
  unsubscribe topic id b = record b {
    handlers = update b.handlers topic (remove_entry id (b.handlers topic));
  }

  unfoldable pub unsubscribe_all : ℕ → Bus H → Bus H
  unfolding remove_entry
  unsubscribe_all id b = record b { all_subs = remove_entry id b.all_subs }

  abbrev pub handlers_of : List (HandlerEntry H) → List H
  handlers_of [] = []
  handlers_of (e ∷ es) = e.handler ∷ handlers_of es

  -- The handlers that an event of a topic has to reach.
  abbrev pub audience : String → Bus H → List H
  audience topic b = handlers_of (b.handlers topic) ++ handlers_of b.all_subs
