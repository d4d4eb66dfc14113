-- ===== src/Ws/Hub/Delivery.antt =====
-- Whom a broadcast reaches.
use subnetree.Prelude.{
  ℕ, ◌≤◌, ◌≡◌, refl, sym, ap, ◌∙◌, subst, true, false, List, [], ◌∷◌, ◌++◌, length, contains,
  contains-count, count, ◌==◌, nat_eq, ltb, if◌then◌else◌, arith, Bool-cases, inl, inr,
}
use subnetree.Ws.Hub.{buffer_size, Hub, send, broadcast}
use subnetree.Ws.Hub.Panics.{IsSafe}

-- A buffer after a send.
abbrev pub offered : {M : Type 0} → M → List M → List M
offered msg buffer = if ltb (length buffer) buffer_size then buffer ++ msg ∷ [] else buffer

module _ {M : Type 0} (msg : M) where
  send-buffer :
      (d c : ℕ) (h : Hub M)
      → (h.channel d).closed ≡ false
      → ((send msg d h).channel c).buffer
        ≡ (if d == c then offered msg (h.channel c).buffer else (h.channel c).buffer)
  unfolding send
  send-buffer d c h live = elim (Bool-cases (d == c)) [
    | inl t ↦
        let same : d ≡ c = ground (arith, t, nat_eq.same_iff d c) in
        let buffers : (h.channel d).buffer ≡ (h.channel c).buffer =
          ap (λ x. (h.channel x).buffer) same in
        ground (arith, live, t, buffers)
    | inr f ↦ ground (arith, live, f)
  ]

  send-closed :
      (d c : ℕ) (h : Hub M)
      → (h.channel d).closed ≡ false
      → (h.channel c).closed ≡ false
      → ((send msg d h).channel c).closed ≡ false
  unfolding send
  send-closed d c h live quiet = ground (arith, live, quiet)

  loop-buffer :
      (order : List ℕ) (c : ℕ) (h : Hub M)
      → ((x : ℕ) → contains order x ≡ true → (h.channel x).closed ≡ false)
      → count c order ≤ 1
      → ((broadcast msg order h).channel c).buffer
        ≡ (if contains order c then offered msg (h.channel c).buffer else (h.channel c).buffer)
  unfolding broadcast
  loop-buffer [] c h live once = refl
  loop-buffer (d ∷ ds) c h live once =
      let open_d : (h.channel d).closed ≡ false = live d (ground (arith, nat_eq.same_iff d d)) in
      let rest =
        loop-buffer ds c (send msg d h)
          (λ x e. send-closed d x h open_d (live x (ground (arith, e)))) (ground (arith, once)) in
      let here = send-buffer d c h open_d in
      elim (Bool-cases (d == c)) [
        | inl t ↦
            let gone : contains ds c ≡ false = contains-count c ds ∙ ground (arith, once, t) in
            ground (arith, rest, here, t, gone)
        | inr f ↦ ground (arith, rest, here, f)
      ]

  -- After a broadcast, the buffer of each client ends with the message if it had room, and is unchanged if
  -- it was full; the buffers of all others are unchanged. The hub is in a state that it can reach, and each
  -- client is visited once.
  pub broadcast-buffer :
      (next : ℕ) (order : List ℕ) (c : ℕ) (h : Hub M)
      → IsSafe next h
      → ((x : ℕ) → count x order ≡ count x h.clients)
      → count c h.clients ≤ 1
      → ((broadcast msg order h).channel c).buffer
        ≡ (if contains h.clients c then offered msg (h.channel c).buffer else (h.channel c).buffer)
  broadcast-buffer next order c h s visits once =
      let same : (x : ℕ) → contains order x ≡ contains h.clients x =
        λ x. contains-count x order ∙ ap (ltb 0) (visits x) ∙ sym (contains-count x h.clients) in
      subst
        (λ b.
          ((broadcast msg order h).channel c).buffer
          ≡ (if b then offered msg (h.channel c).buffer else (h.channel c).buffer))
        (same c)
        (loop-buffer order c h (λ x e. ground (arith, s.opened x, same x, e))
          (subst (λ k. k ≤ 1) (sym (visits c)) once))
