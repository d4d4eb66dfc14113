-- ===== src/Event/Slices/Listed.antt =====
-- The slices of the bus hold the lists of the subscriptions, whatever steps the bus makes.
use subnetree.Prelude.{
  ℕ, ◌≡◌, refl, ap, sym, ◌∙◌, String, false, List, [], ◌∷◌, ◌++◌, ◌==◌, nat_eq, string_eq, update,
  arith, ==_cases, inl, inr,
}
use subnetree.Event.Bus
use subnetree.Event.Slices
use subnetree.Event.Bus.{HandlerEntry}
use subnetree.Event.Slices.{
  Slice, Heap, Step, add, add_all, cut, cut_all, copy_out, read, set_at, set_cells, make_array,
  position, remove_entry, copy_slice, copy_both, append_entry, perform, perform_all,
}
use subnetree.Event.Slices.Reads.{remove_entry-read, append_entry-read}
use subnetree.Event.Slices.Changes.{
  IsSound, IsApart, IsApart_flip, Changes, fresh_other, remove_entry-Changes, append_entry-Changes,
}

-- The slices of the bus are sound and apart, and hold the lists.
pub record Shows {H : Type 0} (a : Bus.Bus H) (b : Slices.Bus H) : Type 0 where
  no_cells : b.heap.capacity 0 ≡ 0
  next_id : b.next_id ≡ a.next_id
  topics : (t : String) → IsSound b.heap (b.handlers t)
  all : IsSound b.heap b.all_subs
  pairs : (t t' : String) → (t == t') ≡ false → IsApart (b.handlers t) (b.handlers t')
  to_all : (t : String) → IsApart (b.handlers t) b.all_subs
  pub topic_lists : (t : String) → read b.heap (b.handlers t) ≡ a.handlers t
  pub all_list : read b.heap b.all_subs ≡ a.all_subs

module _ {H : Type 0} where
  topic_shown :
      (topic : String) (r : Heap H × Slice) (next : ℕ) (es : List (HandlerEntry H)) (a : Bus.Bus H)
      (b : Slices.Bus H)
      → Changes b.heap (b.handlers topic) r
      → read r.0 r.1 ≡ es
      → Shows a b
      → Shows
          (record a { handlers = update a.handlers topic es; next_id = next })
          (record b { heap = r.0; handlers = update b.handlers topic r.1; next_id = next })
  topic_shown topic r next es a b c e h = record {
    no_cells = c.no_cells;
    next_id = refl;
    topics =
        λ t. elim (==_cases topic t) [ inl (y, p) ↦ rw y c.own | inr (n, p) ↦ rw n (same t n).1 ];
    all = kept_all.1;
    pairs = λ t t' d. elim (==_cases topic t) [
      | inl (y, p) ↦ elim (==_cases topic t') [
        | inl (y', p') ↦ absurd (ground (arith, d, string_eq.same_iff t t', sym p ∙ p'))
        | inr (n', p') ↦ rw (y, n') (IsApart_flip (b.handlers t') r.1 (same t' n').2)
      ]
      | inr (n, p) ↦ elim (==_cases topic t') [
        | inl (y', p') ↦ rw (n, y') (same t n).2
        | inr (n', p') ↦ rw (n, n') (h.pairs t t' d)
      ]
    ];
    to_all = λ t. elim (==_cases topic t) [
      | inl (y, p) ↦ rw y (IsApart_flip b.all_subs r.1 kept_all.2)
      | inr (n, p) ↦ rw n (h.to_all t)
    ];
    topic_lists = λ t. elim (==_cases topic t) [
      | inl (y, p) ↦ rw y e
      | inr (n, p) ↦ rw n ((same t n).0 ∙ h.topic_lists t)
    ];
    all_list = kept_all.0 ∙ h.all_list;
  }
    where
      same :
          (t : String)
          → (topic == t) ≡ false
          → (read r.0 (b.handlers t) ≡ read b.heap (b.handlers t))
            × IsSound r.0 (b.handlers t)
            × IsApart (b.handlers t) r.1
      same t n =
          c.others (b.handlers t) (h.topics t)
            (IsApart_flip (b.handlers topic) (b.handlers t) (h.pairs topic t n))

      kept_all :
          (read r.0 b.all_subs ≡ read b.heap b.all_subs)
          × IsSound r.0 b.all_subs
          × IsApart b.all_subs r.1
      kept_all =
          c.others b.all_subs h.all (IsApart_flip (b.handlers topic) b.all_subs (h.to_all topic))

  all_shown :
      (r : Heap H × Slice) (next : ℕ) (es : List (HandlerEntry H)) (a : Bus.Bus H)
      (b : Slices.Bus H)
      → Changes b.heap b.all_subs r
      → read r.0 r.1 ≡ es
      → Shows a b
      → Shows
          (record a { all_subs = es; next_id = next })
          (record b { heap = r.0; all_subs = r.1; next_id = next })
  all_shown r next es a b c e h = record {
    no_cells = c.no_cells;
    next_id = refl;
    topics = λ t. (same t).1;
    all = c.own;
    pairs = h.pairs;
    to_all = λ t. (same t).2;
    topic_lists = λ t. (same t).0 ∙ h.topic_lists t;
    all_list = e;
  }
    where
      same :
          (t : String)
          → (read r.0 (b.handlers t) ≡ read b.heap (b.handlers t))
            × IsSound r.0 (b.handlers t)
            × IsApart (b.handlers t) r.1
      same t = c.others (b.handlers t) (h.topics t) (h.to_all t)

  -- A new array leaves the slices alone.
  heap_shown :
      (capacity : ℕ) (cells : ℕ → HandlerEntry H) (a : Bus.Bus H) (b : Slices.Bus H)
      → Shows a b
      → Shows a (record b { heap = make_array capacity cells b.heap })
  heap_shown capacity cells a b h = record {
    no_cells = rw (fresh_other 0 b.heap.fresh (omega (arith, h.all.0))) h.no_cells;
    next_id = h.next_id;
    topics = λ t. (same (b.handlers t) (h.topics t)).1;
    all = (same b.all_subs h.all).1;
    pairs = h.pairs;
    to_all = h.to_all;
    topic_lists = λ t. (same (b.handlers t) (h.topics t)).0 ∙ h.topic_lists t;
    all_list = (same b.all_subs h.all).0 ∙ h.all_list;
  }
    where
      same :
          (u : Slice)
          → IsSound b.heap u
          → (read (make_array capacity cells b.heap) u ≡ read b.heap u)
            × IsSound (make_array capacity cells b.heap) u
      same u v =
          let other = fresh_other u.address b.heap.fresh v.0 in
          (rw other refl, (omega (arith, v.0), rw other v.1))

-- The steps on lists. A copy changes none.
abbrev pub list_step : {H : Type 0} → Step H → Bus.Bus H → Bus.Bus H
list_step (add topic h) a = (Bus.subscribe topic h a).0
list_step (add_all h) a = (Bus.subscribe_all h a).0
list_step (cut topic id) a = Bus.unsubscribe topic id a
list_step (cut_all id) a = Bus.unsubscribe_all id a
list_step (copy_out topic) a = a

abbrev pub list_steps : {H : Type 0} → List (Step H) → Bus.Bus H → Bus.Bus H
list_steps [] a = a
list_steps (s ∷ steps) a = list_steps steps (list_step s a)

module _ {H : Type 0} (blank : HandlerEntry H) (spare : ℕ → ℕ) where
  perform-Shows :
      (s : Step H) (a : Bus.Bus H) (b : Slices.Bus H)
      → Shows a b
      → Shows (list_step s a) (perform blank spare s b)
  unfolding perform Slices.subscribe Slices.subscribe_all Slices.unsubscribe Slices.unsubscribe_all
      copy_both copy_slice Bus.subscribe Bus.subscribe_all Bus.unsubscribe Bus.unsubscribe_all
  perform-Shows (add topic x) a b h =
      let e : HandlerEntry H = record { id = b.next_id; handler = x } in
      let entry : HandlerEntry H = record { id = a.next_id; handler = x } in
      let same : e ≡ entry = ap (λ n. record { id = n; handler = x }) h.next_id in
      rw (sym h.next_id) (
        topic_shown topic _ _ _ a b
          (append_entry-Changes blank spare e (b.handlers topic) b.heap h.no_cells (h.topics topic))
          (append_entry-read blank spare e (b.handlers topic) b.heap
            ∙ ap (λ es. es ++ e ∷ []) (h.topic_lists topic))
          h)
  perform-Shows (add_all x) a b h =
      let e : HandlerEntry H = record { id = b.next_id; handler = x } in
      rw (sym h.next_id) (
        all_shown _ _ _ a b (append_entry-Changes blank spare e b.all_subs b.heap h.no_cells h.all)
          (append_entry-read blank spare e b.all_subs b.heap ∙ ap (λ es. es ++ e ∷ []) h.all_list)
          h)
  perform-Shows (cut topic id) a b h = rw (sym h.next_id) (
      topic_shown topic _ b.next_id _ a b
        (remove_entry-Changes id (b.handlers topic) b.heap h.no_cells (h.topics topic))
        (remove_entry-read id (b.handlers topic) b.heap
          ∙ ap (Bus.remove_entry id) (h.topic_lists topic))
        h)
  perform-Shows (cut_all id) a b h = rw (sym h.next_id) (
      all_shown _ b.next_id _ a b (remove_entry-Changes id b.all_subs b.heap h.no_cells h.all)
        (remove_entry-read id b.all_subs b.heap ∙ ap (Bus.remove_entry id) h.all_list) h)
  perform-Shows (copy_out topic) a b h =
      let first =
        heap_shown (b.handlers topic).size (b.heap.cells (b.handlers topic).address) a b h in
      let heap = (copy_slice (b.handlers topic) b.heap).0 in
      heap_shown b.all_subs.size (heap.cells b.all_subs.address) a (record b { heap = heap }) first

  perform_all-Shows :
      (steps : List (Step H)) (a : Bus.Bus H) (b : Slices.Bus H)
      → Shows a b
      → Shows (list_steps steps a) (perform_all blank spare steps b)
  unfolding perform_all
  perform_all-Shows [] a b h = h
  perform_all-Shows (s ∷ steps) a b h =
      perform_all-Shows steps (list_step s a) (perform blank spare s b) (perform-Shows s a b h)

  -- From the new bus on, the slices hold what the lists hold.
  pub history-Shows :
      (history : List (Step H))
      → Shows
          (list_steps history Bus.new_bus)
          (perform_all blank spare history (Slices.new_bus blank spare))
  unfolding Slices.read_from
  history-Shows history =
      perform_all-Shows history Bus.new_bus (Slices.new_bus blank spare) (record {
        no_cells = refl;
        next_id = refl;
        topics = λ t. (omega arith, omega arith);
        all = (omega arith, omega arith);
        pairs = λ t t' d e. refl;
        to_all = λ t e. refl;
        topic_lists = λ t. refl;
        all_list = refl;
      })
