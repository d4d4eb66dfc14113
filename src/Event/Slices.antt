-- ===== src/Event/Slices.antt =====
-- internal/event/bus.go, on slices and their arrays, where Publish copies what the other methods shift in
-- place. A slice is the address of an array and a length; every slice of the bus begins where its array
-- does. A handler is a value of the type `H`. What it does while it runs is a sequence of steps of the
-- bus: its own calls, those of the handlers that it publishes to and those of other goroutines, which
-- the bus lets in between two calls. A panic of a handler is recovered and logged, so it is one more
-- way to return.
pub mod Apart
pub mod Allocated
pub mod Reads
pub mod Changes
pub mod Listed
pub mod Delivery
use subnetree.Prelude.{
  ℕ, zero, suc, ◌+◌, ◌-◌, String, Bool, ◌&&◌, List, [], ◌∷◌, ◌++◌, Option, none, some, ◌==◌, nat_eq,
  string_eq, if◌then◌else◌, leb, ltb, update,
}
use subnetree.Event.Bus.{HandlerEntry, following}

abbrev pub set_at {ℓ} : {A : Type ℓ} → (ℕ → A) → ℕ → A → ℕ → A
set_at f k v x = if k == x then v else f x

pub record Slice : Type 0 where
  pub address : ℕ
  pub size : ℕ

-- The cells of each array, its capacity, and the address of the next array.
pub record Heap (H : Type 0) : Type 0 where
  pub cells : ℕ → ℕ → HandlerEntry H
  pub capacity : ℕ → ℕ
  pub fresh : ℕ

pub record Bus (H : Type 0) : Type 0 where
  pub heap : Heap H
  pub handlers : String → Slice
  pub all_subs : Slice
  pub next_id : ℕ

-- A step of the bus; `copy_out` makes the copies of a Publish.
pub data Step (H : Type 0) : Type 0 where
  add : String → H → Step H
  add_all : H → Step H
  cut : String → ℕ → Step H
  cut_all : ℕ → Step H
  copy_out : String → Step H

module _ {H : Type 0} where
  -- The entries of a slice from a position on.
  unfoldable pub read_from : (ℕ → HandlerEntry H) → ℕ → ℕ → List (HandlerEntry H)
  read_from cells k zero = []
  read_from cells k (suc n) = cells k ∷ read_from cells (k + 1) n

  abbrev pub read : Heap H → Slice → List (HandlerEntry H)
  read heap s = read_from (heap.cells s.address) 0 s.size

  abbrev pub set_cells : ℕ → (ℕ → HandlerEntry H) → Heap H → Heap H
  set_cells a cells heap = record heap { cells = set_at heap.cells a cells }

  abbrev pub make_array : ℕ → (ℕ → HandlerEntry H) → Heap H → Heap H
  make_array capacity cells heap = record {
    cells = set_at heap.cells heap.fresh cells;
    capacity = set_at heap.capacity heap.fresh capacity;
    fresh = heap.fresh + 1;
  }

  -- Where the first entry with the identifier is, among `n` from position `k` on.
  unfoldable pub position : ℕ → (ℕ → HandlerEntry H) → ℕ → ℕ → Option ℕ
  position id cells k zero = none
  position id cells k (suc n) =
      let rest = position id cells (k + 1) n in if (cells k).id == id then some k else rest

  -- `append(entries[:i], entries[i+1:]...)`, which has room: the entries behind move down in the array.
  abbrev pub shift : ℕ → ℕ → (ℕ → HandlerEntry H) → ℕ → HandlerEntry H
  shift i size cells j = if leb i j && ltb (j + 1) size then cells (j + 1) else cells j

  unfoldable pub remove_entry : ℕ → Slice → Heap H → Heap H × Slice
  unfolding position
  remove_entry id s heap = elim (position id (heap.cells s.address) 0 s.size) [
    | none ↦ (heap, s)
    | some i ↦ (
      set_cells s.address (shift i s.size (heap.cells s.address)) heap,
      record s { size = s.size - 1 },
    )
  ]

  -- `make` and `copy`. The cells behind the capacity do not matter.
  unfoldable pub copy_slice : Slice → Heap H → Heap H × Slice
  copy_slice s heap = (
    make_array s.size (heap.cells s.address) heap,
    record { address = heap.fresh; size = s.size },
  )

  -- The copies that Publish makes under the lock, of the topic's slice and of the slice for all topics.
  unfoldable pub copy_both : String → Bus H → Bus H × Slice × Slice
  unfolding copy_slice
  copy_both topic b =
      let (heap, topic_handlers) = copy_slice (b.handlers topic) b.heap in
      let (heap', all_handlers) = copy_slice b.all_subs heap in
      (record b { heap = heap' }, topic_handlers, all_handlers)

  unfoldable pub unsubscribe : String → ℕ → Bus H → Bus H
  unfolding remove_entry
  unsubscribe topic id b =
      let (heap, s) = remove_entry id (b.handlers topic) b.heap in
      record b { heap = heap; handlers = update b.handlers topic s }

  unfoldable pub unsubscribe_all : ℕ → Bus H → Bus H
  unfolding remove_entry
  unsubscribe_all id b =
      let (heap, s) = remove_entry id b.all_subs b.heap in record b { heap = heap; all_subs = s }

-- The zero value of an entry, and how much room the runtime leaves in an array that grows.
module _ {H : Type 0} (blank : HandlerEntry H) (spare : ℕ → ℕ) where
  abbrev pub new_bus : Bus H
  new_bus = record {
    heap = record { cells = λ a k. blank; capacity = λ a. 0; fresh = 1 };
    handlers = λ topic. record { address = 0; size = 0 };
    all_subs = record { address = 0; size = 0 };
    next_id = 0;
  }

  -- Go's append of one entry: into the array where it has room, or else into a new array.
  unfoldable pub append_entry : HandlerEntry H → Slice → Heap H → Heap H × Slice
  append_entry e s heap =
      let old = heap.cells s.address in
      if ltb s.size (heap.capacity s.address)
      then (set_cells s.address (set_at old s.size e) heap, record s { size = s.size + 1 })
      else (
        make_array (s.size + 1 + spare s.size)
            (λ k. if ltb k s.size then old k else if k == s.size then e else blank) heap,
        record { address = heap.fresh; size = s.size + 1 },
      )

  unfoldable pub subscribe : String → H → Bus H → Bus H × ℕ
  unfolding append_entry
  subscribe topic h b =
      let (heap, s) =
        append_entry (record { id = b.next_id; handler = h }) (b.handlers topic) b.heap in
      (
        record b {
          heap = heap;
          handlers = update b.handlers topic s;
          next_id = following b.next_id;
        },
        b.next_id,
      )

  unfoldable pub subscribe_all : H → Bus H → Bus H × ℕ
  unfolding append_entry
  subscribe_all h b =
      let (heap, s) = append_entry (record { id = b.next_id; handler = h }) b.all_subs b.heap in
      (record b { heap = heap; all_subs = s; next_id = following b.next_id }, b.next_id)

  unfoldable pub perform : Step H → Bus H → Bus H
  unfolding subscribe subscribe_all unsubscribe unsubscribe_all copy_both
  perform (add topic h) b = (subscribe topic h b).0
  perform (add_all h) b = (subscribe_all h b).0
  perform (cut topic id) b = unsubscribe topic id b
  perform (cut_all id) b = unsubscribe_all id b
  perform (copy_out topic) b = (copy_both topic b).0

  unfoldable pub perform_all : List (Step H) → Bus H → Bus H
  unfolding perform
  perform_all [] b = b
  perform_all (s ∷ steps) b = perform_all steps (perform s b)

  -- One loop of Publish, with the calls that it makes: each entry is read when its turn comes.
  unfoldable pub call_each : (H → Bus H → List (Step H)) → ℕ → ℕ → ℕ → Bus H → Bus H × List H
  unfolding perform_all
  call_each act a k zero b = (b, [])
  call_each act a k (suc n) b =
      let h = (b.heap.cells a k).handler in
      let (b', calls) = call_each act a (k + 1) n (perform_all (act h b) b) in (b', h ∷ calls)

  unfoldable pub publish : (H → Bus H → List (Step H)) → String → Bus H → Bus H × List H
  unfolding call_each copy_both
  publish act topic b =
      let (copied, topic_handlers, all_handlers) = copy_both topic b in
      let (b', calls) = call_each act topic_handlers.address 0 topic_handlers.size copied in
      let (b'', calls') = call_each act all_handlers.address 0 all_handlers.size b' in
      (b'', calls ++ calls')
