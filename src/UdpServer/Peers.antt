-- ===== src/UdpServer/Peers.antt =====
-- The connections of internal/server/transport/udp.go, which are local clients or tunnel connections: a
-- table of them by address, and the channel in which new ones wait. A pointer to a connection is its
-- number in the store, and the table, a map of Go, is a function.
use ttest.Prelude.{
  ℕ, ◌+◌, Bool, true, false, List, [], ◌∷◌, ◌++◌, Option, none, some, ltb, ◌==◌, if◌then◌else◌,
  length, Bytes, text_eq,
}

-- What has become of a connection: it waits in its channel, `handleLoop` holds it, `udpCopy` runs for it
-- and the connection with that number on the other side, `handleLoop` has let go of it, it is closed.
pub data Stage : Type 0 where
  queued held forgotten finished : Stage
  copying : ℕ → Stage

-- LocalUDPConn and TunnelUDPConn
pub record UdpPeer : Type 0 where
  pub addr : Bytes
  pub time_created : ℕ
  pub payload : List Bytes
  pub closed : Bool  -- the payload channel
  pub stage : Stage
  pub written : List Bytes  -- the datagrams written to `addr`
  pub copied : Bool  -- `udpLocalCopy` or `udpTunnelCopy` has returned
  pub pinged : Bool  -- `keepAlive` runs for it, a tunnel connection

pub record Peers : Type 0 where
  pub active : Bytes → Option ℕ
  pub store : ℕ → UdpPeer
  pub next : ℕ
  pub waiting : List ℕ  -- `tunnelChannel` or `udpChan`
  pub panicked : Bool

abbrev pub set_peer : ℕ → UdpPeer → (ℕ → UdpPeer) → ℕ → UdpPeer
set_peer i u f j = if j == i then u else f j

abbrev pub insert : Bytes → ℕ → (Bytes → Option ℕ) → Bytes → Option ℕ
insert key i m k = if text_eq key k then some i else m k

abbrev pub delete : Bytes → (Bytes → Option ℕ) → Bytes → Option ℕ
delete key m k = if text_eq key k then none else m k

abbrev pub payload_capacity : ℕ
payload_capacity = 100000

-- A send on a closed channel panics; a full one drops the datagram.
abbrev pub deliver : ℕ → Bytes → Peers → Peers
deliver i buf p =
    if (p.store i).closed
    then record p { panicked = true }
    else if ltb (length (p.store i).payload) payload_capacity
    then record p {
      store =
          set_peer i (record (p.store i) { payload = (p.store i).payload ++ (buf ∷ []) }) p.store;
    }
    else p

abbrev pub new_peer : Bytes → ℕ → List Bytes → UdpPeer
new_peer key now payload = record {
  addr = key;
  time_created = now;
  payload = payload;
  closed = false;
  stage = queued;
  written = [];
  copied = false;
  pinged = true;
}

-- A new connection is entered into the table, and taken out again and closed if the channel is full.
abbrev pub open_peer : ℕ → Bytes → ℕ → List Bytes → Peers → Peers
open_peer channel_size key now payload p =
    if ltb (length p.waiting) channel_size
    then record p {
      active = insert key p.next p.active;
      store = set_peer p.next (new_peer key now payload) p.store;
      next = p.next + 1;
      waiting = p.waiting ++ (p.next ∷ []);
    }
    else record p {
      active = delete key (insert key p.next p.active);
      store =
          set_peer p.next
            (record (new_peer key now []) { closed = true; stage = finished; pinged = false })
            p.store;
      next = p.next + 1;
    }

-- `close(payload)` and `delete` at the end of `udpCopy`.
abbrev pub finish_peer : ℕ → Peers → Peers
finish_peer i p = if (p.store i).closed then record p { panicked = true } else record p {
  store = set_peer i (record (p.store i) { closed = true; stage = finished }) p.store;
  active = delete (p.store i).addr p.active;
}

abbrev pub change_peer : ℕ → UdpPeer → Peers → Peers
change_peer i u p = record p { store = set_peer i u p.store }

unfoldable pub no_peers : Peers
no_peers = record {
  active = λ k. none;
  store = λ i. record (new_peer [] 0 []) { stage = finished; pinged = false };
  next = 0;
  waiting = [];
  panicked = false;
}
