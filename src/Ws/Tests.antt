-- ===== src/Ws/Tests.antt =====
-- One browser that connects, is sent a number, and leaves; and the theorems at it.
use subnetree.Prelude.{ℕ, ◌≡◌, refl, [], ◌∷◌, nat_eq, count}
use subnetree.Ws.Hub.{Hub, new_hub, register, unregister, broadcast}
use subnetree.Ws.Hub.Panics.{start, after, connect, disconnect, publish, IsSafe, Reachable-IsSafe}

abbrev idle : Hub ℕ
idle = new_hub

abbrev connected : Hub ℕ
connected = register 0 idle

connected-count : (c : ℕ) → count c (0 ∷ []) ≡ count c connected.clients
unfolding register
connected-count c = refl

Reachable-IsSafe_example : IsSafe 1 (unregister 0 (broadcast 7 (0 ∷ []) connected))
Reachable-IsSafe_example =
    Reachable-IsSafe
      (after (after (after start connect) (publish 7 (0 ∷ []) connected-count)) (disconnect 0))

delivered : ((broadcast 7 (0 ∷ []) connected).channel 0).buffer ≡ 7 ∷ []
unfolding broadcast register
delivered = refl
