-- ===== src/Ws/Hub/Panics.antt =====
-- Steps of all goroutines in any order: the lock makes each call of the hub one step.
use subnetree.Prelude.{
  ℕ, ◌+◌, ◌≡◌, refl, sym, ap, ◌∙◌, subst, true, false, not, ◌&&◌, ◌||◌, List, [], ◌∷◌, ◌++◌, length,
  length-append, contains, contains-count, count, keep, ◌==◌, nat_eq, leb, ltb, arith, Bool-cases,
  inl, inr,
}
use subnetree.Ws.Hub.{
  buffer_size, Hub, new_hub, set_channel, register, unregister, send, broadcast, take_message,
}

-- The hub, and how many clients have been allocated.
pub record Serving (M : Type 0) : Type 0 where
  pub hub : Hub M
  pub next : ℕ

pub data Step {M : Type 0} : Serving M → Serving M → Type 0 where
  connect : {s : Serving M} → Step s (record { hub = register s.next s.hub; next = s.next + 1 })
  disconnect : {s : Serving M} (c : ℕ) → Step s (record s { hub = unregister c s.hub })
  publish :
      {s : Serving M} (msg : M) (order : List ℕ)
      → ((c : ℕ) → count c order ≡ count c s.hub.clients)
      → Step s (record s { hub = broadcast msg order s.hub })
  pump : {s : Serving M} (c : ℕ) → Step s (record s { hub = take_message c s.hub })

pub data Reachable {M : Type 0} : Serving M → Type 0 where
  start : Reachable (record { hub = new_hub; next = 0 })
  after : {s s' : Serving M} → Reachable s → Step s s' → Reachable s'

-- Channels of clients and of those to come are open, clients have been allocated, and no buffer is too
-- long.
pub record IsSafe {M : Type 0} (next : ℕ) (h : Hub M) : Type 0 where
  pub calm : h.panicked ≡ false
  pub opened : (c : ℕ) → (not (contains h.clients c) || not (h.channel c).closed) ≡ true
  pub fresh : (c : ℕ) → (ltb c next || not (h.channel c).closed) ≡ true
  pub known : (c : ℕ) → (not (contains h.clients c) || ltb c next) ≡ true
  pub bounded : (c : ℕ) → leb (length (h.channel c).buffer) buffer_size ≡ true

contains-keep :
    (x c : ℕ) (xs : List ℕ)
    → contains (keep (λ y. not (y == c)) xs) x ≡ (contains xs x && not (x == c))
contains-keep x c [] = refl
contains-keep x c (y ∷ ys) =
    let rest = contains-keep x c ys in
    ground (arith, rest, nat_eq.same_iff y x, nat_eq.same_iff y c, nat_eq.same_iff x c)

module _ {M : Type 0} (next : ℕ) where
  -- A channel that stays open, with a buffer that fits.
  set_channel-IsSafe :
      (c : ℕ) (buffer : List M) (h : Hub M)
      → leb (length buffer) buffer_size ≡ true
      → IsSafe next h
      → IsSafe next (set_channel c (record { buffer = buffer; closed = false }) h)
  set_channel-IsSafe c buffer h fits s = record {
    calm = s.calm;
    opened = λ x. ground (arith, s.opened x);
    fresh = λ x. ground (arith, s.fresh x);
    known = s.known;
    bounded = λ x. ground (arith, s.bounded x, fits);
  }

  send-IsSafe :
      (msg : M) (c : ℕ) (h : Hub M)
      → contains h.clients c ≡ true
      → IsSafe next h
      → IsSafe next (send msg c h)
  unfolding send
  send-IsSafe msg c h member s =
      let live : (h.channel c).closed ≡ false = ground (arith, s.opened c, member) in
      elim (Bool-cases (ltb (length (h.channel c).buffer) buffer_size)) [
        | inl t ↦
            rw (live, t)
              (set_channel-IsSafe c ((h.channel c).buffer ++ msg ∷ []) h
                (ground (arith, t, length-append (h.channel c).buffer (msg ∷ []))) s)
        | inr f ↦ rw (live, f) s
      ]

  send-clients : (msg : M) (c : ℕ) (h : Hub M) → (send msg c h).clients ≡ h.clients
  unfolding send
  send-clients msg c h = ground arith

  broadcast-IsSafe :
      (msg : M) (order : List ℕ) (h : Hub M)
      → ((c : ℕ) → contains order c ≡ true → contains h.clients c ≡ true)
      → IsSafe next h
      → IsSafe next (broadcast msg order h)
  unfolding broadcast
  broadcast-IsSafe msg [] h members s = s
  broadcast-IsSafe msg (c ∷ cs) h members s =
      let member : contains h.clients c ≡ true = members c (ground (arith, nat_eq.same_iff c c)) in
      broadcast-IsSafe msg cs (send msg c h)
        (λ x e.
          subst (λ xs. contains xs x ≡ true) (sym (send-clients msg c h))
            (members x (ground (arith, e))))
        (send-IsSafe msg c h member s)

  unregister-IsSafe : (c : ℕ) (h : Hub M) → IsSafe next h → IsSafe next (unregister c h)
  unfolding unregister
  unregister-IsSafe c h s = elim (Bool-cases (contains h.clients c)) [
    | inr f ↦ rw f s
    | inl t ↦
        let live : (h.channel c).closed ≡ false = ground (arith, s.opened c, t) in
        rw (t, live)
          record {
            calm = s.calm;
            opened = λ x.
                let gone = contains-keep x c h.clients in
                ground (arith, s.opened x, gone, nat_eq.same_iff c x);
            fresh = λ x. ground (arith, s.fresh x, s.known c, t, nat_eq.same_iff c x);
            known = λ x. let gone = contains-keep x c h.clients in ground (arith, s.known x, gone);
            bounded = λ x. ground (arith, s.bounded x, s.bounded c, nat_eq.same_iff c x);
          }
  ]

  taken-IsSafe :
      (c : ℕ) (h : Hub M) (b : List M)
      → (h.channel c).buffer ≡ b
      → IsSafe next h
      → IsSafe next (take_message c h)
  unfolding take_message
  taken-IsSafe c h [] e s = rw (take_message, e) s
  taken-IsSafe c h (m ∷ ms) e s =
      let fits : leb (length ms) buffer_size ≡ true = ground (arith, s.bounded c, e) in
      rw (take_message, e)
        record {
          calm = s.calm;
          opened = λ x. ground (arith, s.opened x, nat_eq.same_iff c x);
          fresh = λ x. ground (arith, s.fresh x, nat_eq.same_iff c x);
          known = s.known;
          bounded = λ x. ground (arith, s.bounded x, fits);
        }

  register-IsSafe : (h : Hub M) → IsSafe next h → IsSafe (next + 1) (register next h)
  unfolding register
  register-IsSafe h s = record {
    calm = s.calm;
    opened = λ x. ground (arith, s.opened x, s.fresh x, nat_eq.same_iff next x);
    fresh = λ x. ground (arith, s.fresh x);
    known = λ x. ground (arith, s.known x, nat_eq.same_iff next x);
    bounded = s.bounded;
  }

Step-IsSafe :
    {M : Type 0} {s s' : Serving M} → Step s s' → IsSafe s.next s.hub → IsSafe s'.next s'.hub
Step-IsSafe (connect {s = s}) safe = register-IsSafe s.next s.hub safe
Step-IsSafe (disconnect {s = s} c) safe = unregister-IsSafe s.next c s.hub safe
Step-IsSafe (publish {s = s} msg order once) safe =
    broadcast-IsSafe s.next msg order s.hub
      (λ c e.
        contains-count c s.hub.clients
        ∙ ap (ltb 0) (sym (once c))
        ∙ sym (contains-count c order)
        ∙ e)
      safe
Step-IsSafe (pump {s = s} c) safe = taken-IsSafe s.next c s.hub (s.hub.channel c).buffer refl safe

-- However connections, disconnections, broadcasts and writes follow each other, nothing is sent on a
-- closed channel and none is closed twice, the channel of every client of the hub is open, and no channel
-- holds more than 256 messages. A broadcast visits each client once, in any order.
pub Reachable-IsSafe : {M : Type 0} {s : Serving M} → Reachable s → IsSafe s.next s.hub
Reachable-IsSafe start = record {
  calm = refl;
  opened = λ c. refl;
  fresh = λ c. ground arith;
  known = λ c. refl;
  bounded = λ c. refl;
}
Reachable-IsSafe (after h step) = Step-IsSafe step (Reachable-IsSafe h)
