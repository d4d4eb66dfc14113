-- ===== src/Event/Bus/Subscriptions.antt =====
-- The functions that Subscribe and SubscribeAll return.
use subnetree.Prelude.{
  ℕ, ◌+◌, ◌^◌, ◌≤◌, ◌<◌, ◌≡◌, refl, ap, ◌∙◌, String, List, [], ◌∷◌, ◌++◌, append-nil, ◌==◌, nat_eq,
  string_eq, update, count, count-append, arith, ==_cases, ==_refl, inl, inr, false,
}
use subnetree.Event.Bus.{
  Bus, HandlerEntry, following, subscribe, subscribe_all, remove_entry, unsubscribe,
  unsubscribe_all, handlers_of, audience,
}

following_suc : (n : ℕ) → n + 1 < 2 ^ 64 → following n ≡ n + 1
following_suc n h = omega arith

module _ {H : Type 0} where
  abbrev pub ids : List (HandlerEntry H) → List ℕ
  ids [] = []
  ids (e ∷ es) = e.id ∷ ids es

  abbrev IsFresh : ℕ → List (HandlerEntry H) → Type 0
  IsFresh next es = (i : ℕ) → (count i (ids es) ≤ 1) × (next ≤ i → count i (ids es) ≡ 0)

  -- An identifier stands once in a list of entries, and the identifiers to come in none.
  pub record IsValid (b : Bus H) : Type 0 where
    pub topics : (topic : String) → IsFresh b.next_id (b.handlers topic)
    pub all : IsFresh b.next_id b.all_subs

  ids-append : (xs ys : List (HandlerEntry H)) → ids (xs ++ ys) ≡ ids xs ++ ids ys
  ids-append [] ys = refl
  ids-append (x ∷ xs) ys = ap (λ l. x.id ∷ l) (ids-append xs ys)

  IsFresh-append :
      (n : ℕ) (h : H) (es : List (HandlerEntry H))
      → IsFresh n es
      → IsFresh (n + 1) (es ++ record { id = n; handler = h } ∷ [])
  IsFresh-append n h es v i =
      let parts = ap (count i) (ids-append es (record { id = n; handler = h } ∷ [])) in
      (
        ground (arith, v i, parts, count-append i (ids es) (n ∷ [])),
        ground (arith, v i, parts, count-append i (ids es) (n ∷ [])),
      )

  IsFresh-suc : (n : ℕ) (es : List (HandlerEntry H)) → IsFresh n es → IsFresh (n + 1) es
  IsFresh-suc n es v i = (ground (arith, v i), ground (arith, v i))

  count-remove_entry :
      (i id : ℕ) (es : List (HandlerEntry H))
      → count i (ids (remove_entry id es)) ≤ count i (ids es)
  unfolding remove_entry
  count-remove_entry i id [] = omega arith
  count-remove_entry i id (e ∷ es) = ground (arith, count-remove_entry i id es)

  IsFresh-remove_entry :
      (n id : ℕ) (es : List (HandlerEntry H)) → IsFresh n es → IsFresh n (remove_entry id es)
  IsFresh-remove_entry n id es v i = (
    ground (arith, v i, count-remove_entry i id es),
    ground (arith, v i, count-remove_entry i id es),
  )

  -- Every operation keeps identifiers unique, as long as the 64-bit counter does not wrap.
  pub subscribe-IsValid :
      (topic : String) (h : H) (id : ℕ) (b : Bus H)
      → b.next_id + 1 < 2 ^ 64
      → IsValid b
      → IsValid (subscribe topic h b).0
        × IsValid (subscribe_all h b).0
        × IsValid (unsubscribe topic id b)
        × IsValid (unsubscribe_all id b)
  unfolding subscribe subscribe_all unsubscribe unsubscribe_all
  subscribe-IsValid topic h id b small v = (
    rw (following_suc b.next_id small)
        (record { topics = λ other. appended other; all = IsFresh-suc b.next_id b.all_subs v.all }),
    rw (following_suc b.next_id small) (record {
      topics = λ other. IsFresh-suc b.next_id (b.handlers other) (v.topics other);
      all = IsFresh-append b.next_id h b.all_subs v.all;
    }),
    record { topics = λ other. removed other; all = v.all },
    record { topics = v.topics; all = IsFresh-remove_entry b.next_id id b.all_subs v.all },
  )
    where
      appended :
          (other : String)
          → IsFresh (b.next_id + 1) (
              update b.handlers topic
                (b.handlers topic ++ record { id = b.next_id; handler = h } ∷ [])
                other)
      appended other = elim (==_cases topic other) [
        | inl (e, p) ↦ rw e (IsFresh-append b.next_id h (b.handlers topic) (v.topics topic))
        | inr (e, p) ↦ rw e (IsFresh-suc b.next_id (b.handlers other) (v.topics other))
      ]

      removed :
          (other : String)
          → IsFresh b.next_id (update b.handlers topic (remove_entry id (b.handlers topic)) other)
      removed other = elim (==_cases topic other) [
        | inl (e, p) ↦ rw e (IsFresh-remove_entry b.next_id id (b.handlers topic) (v.topics topic))
        | inr (e, p) ↦ rw e (v.topics other)
      ]

  remove_entry-append :
      (e : HandlerEntry H) (xs ys : List (HandlerEntry H))
      → count e.id (ids (xs ++ (e ∷ ys))) ≤ 1
      → remove_entry e.id (xs ++ (e ∷ ys)) ≡ xs ++ ys
  unfolding remove_entry
  remove_entry-append e [] ys h = ground (arith, nat_eq.same_iff e.id e.id)
  remove_entry-append e (x ∷ xs) ys h = ground (
    arith,
    remove_entry-append e xs ys,
    ap (count e.id) (ids-append xs (e ∷ ys)),
    count-append e.id (ids xs) (e.id ∷ ids ys),
  )

  -- On a valid bus, the function that a subscription returned takes out that subscription's entry and no other,
  -- whoever subscribed before and since, and leaves the other topics alone.
  pub unsubscribe-handlers :
      (topic : String) (e : HandlerEntry H) (xs ys : List (HandlerEntry H)) (b : Bus H)
      → IsValid b
      → b.handlers topic ≡ xs ++ (e ∷ ys)
      → ((unsubscribe topic e.id b).handlers topic ≡ xs ++ ys)
        × ((other : String)
            → (topic == other) ≡ false
            → (unsubscribe topic e.id b).handlers other ≡ b.handlers other)
        × ((unsubscribe topic e.id b).all_subs ≡ b.all_subs)
  unfolding unsubscribe
  unsubscribe-handlers topic e xs ys b v at =
      let once = (v.topics topic e.id).0 in
      (
        rw (==_refl topic, at) (remove_entry-append e xs ys (ground (arith, once, at))),
        λ other h. rw h refl,
        refl,
      )

  -- On a valid bus whose counter does not wrap, subscribing to a topic and unsubscribing again leaves
  -- every topic's audience as it was.
  pub unsubscribe-subscribe :
      (topic other : String) (h : H) (b : Bus H)
      → b.next_id + 1 < 2 ^ 64
      → IsValid b
      → audience other (unsubscribe topic (subscribe topic h b).1 (subscribe topic h b).0)
        ≡ audience other b
  unfolding subscribe unsubscribe
  unsubscribe-subscribe topic other h b small v =
      let e : HandlerEntry H = record { id = b.next_id; handler = h } in
      let es = b.handlers topic in
      let once = (IsFresh-append b.next_id h es (v.topics topic) b.next_id).0 in
      let back : remove_entry e.id (es ++ e ∷ []) ≡ es =
        remove_entry-append e es [] once ∙ append-nil es in
      ap (λ l. l ++ handlers_of b.all_subs)
        (elim (==_cases topic other) [
          | inl (q, p) ↦ rw (q, ==_refl topic) (ap handlers_of (back ∙ ap b.handlers p))
          | inr (q, p) ↦ rw q refl
        ])
