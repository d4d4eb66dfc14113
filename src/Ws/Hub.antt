-- ===== src/Ws/Hub.antt =====
-- internal/ws/hub.go. A client is the number of its allocation; its channel is a buffer with a mark for
-- closed. A send on a closed channel and a second close are a panic, as in Go.
pub mod Panics
pub mod Delivery
use subnetree.Prelude.{
  ℕ, ◌+◌, Bool, true, false, not, List, [], ◌∷◌, ◌++◌, length, contains, keep, ◌==◌, nat_eq, ltb,
  if◌then◌else◌,
}

-- The size of a send buffer, from internal/ws/handler.go.
abbrev pub buffer_size : ℕ
buffer_size = 256

pub record Channel (M : Type 0) : Type 0 where
  pub buffer : List M
  pub closed : Bool

-- The hub and the channels of all clients so far.
pub record Hub (M : Type 0) : Type 0 where
  pub clients : List ℕ
  pub channel : ℕ → Channel M
  pub panicked : Bool

module _ {M : Type 0} where
  abbrev pub set_channel : ℕ → Channel M → Hub M → Hub M
  set_channel c ch h = record h { channel = λ x. if c == x then ch else h.channel x }

  abbrev pub new_hub : Hub M
  new_hub = record {
    clients = [];
    channel = λ x. record { buffer = []; closed = false };
    panicked = false;
  }

  unfoldable pub register : ℕ → Hub M → Hub M
  register c h = record h { clients = if contains h.clients c then h.clients else c ∷ h.clients }

  abbrev pub close : ℕ → Hub M → Hub M
  close c h =
      if (h.channel c).closed
      then record h { panicked = true }
      else set_channel c (record { buffer = (h.channel c).buffer; closed = true }) h

  unfoldable pub unregister : ℕ → Hub M → Hub M
  unregister c h =
      if contains h.clients c
      then close c (record h { clients = keep (λ x. not (x == c)) h.clients })
      else h

  -- A send that does not wait: a full buffer drops the message.
  unfoldable pub send : M → ℕ → Hub M → Hub M
  send msg c h =
      if (h.channel c).closed
      then record h { panicked = true }
      else if ltb (length (h.channel c).buffer) buffer_size
      then set_channel c (record { buffer = (h.channel c).buffer ++ msg ∷ []; closed = false }) h
      else h

  -- The clients in the order of the range over the map.
  unfoldable pub broadcast : M → List ℕ → Hub M → Hub M
  unfolding send
  broadcast msg [] h = h
  broadcast msg (c ∷ cs) h = broadcast msg cs (send msg c h)

  unfoldable pub client_count : Hub M → ℕ
  client_count h = length h.clients

  -- One turn of writePump: it takes the oldest message.
  unfoldable pub take_message : ℕ → Hub M → Hub M
  take_message c h = elim (h.channel c).buffer [
    | [] ↦ h
    | m ∷ ms ↦ set_channel c (record { buffer = ms; closed = (h.channel c).closed }) h
  ]
