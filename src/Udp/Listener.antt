-- ===== src/Udp/Listener.antt =====
-- `udpListener`, `handleUDPLoop` and `UDPConnectionHandler` of internal/server/transport/accept_udp.go:
-- the table of active connections. A pointer to a connection is its number in the store. What happens
-- under the mutex is one step; the goroutine that reads datagrams gives up the mutex before it sends on
-- `udpChan`, on the payload channel and on `reqNewConnChan`, and each of these is a step of its own.
use ttest.Prelude.{
  ℕ, ◌+◌, ◌-◌, Bool, true, false, List, [], ◌∷◌, ◌++◌, Option, none, some, ltb, ◌==◌, if◌then◌else◌,
  length, drop, Bytes, text_eq,
}
use ttest.Wire.Conn.{Conn, Outcome}
use ttest.Wire.Signals.{sg_udp}
use ttest.Wire.Binary.{send_binary_transport_string}

-- What has become of a connection: its entry alone exists, it waits in `udpChan`, the loop has
-- taken it and waits for a tunnel connection, a handler runs for it, or the handler has ended.
pub data Phase : Type 0 where
  created queued held running finished : Phase

abbrev pub is_running : Phase → Bool
is_running running = true
is_running _ = false

abbrev pub is_held : Phase → Bool
is_held held = true
is_held _ = false

pub record UdpLocal : Type 0 where
  pub client_addr : Bytes
  pub payload : List Bytes
  pub is_congested : Bool
  pub closed : Bool  -- the payload channel
  pub phase : Phase

-- Where the goroutine that reads datagrams is: at `ReadFromUDP`, or after it has stored a new connection,
-- with the datagram that it still has to send.
pub data Reading : Type 0 where
  at_read : Reading
  stored : ℕ → Bytes → Reading  -- before the send on `udpChan`
  placed : ℕ → Bytes → Reading  -- before the send on the payload channel
  asking : Reading  -- before the send on `reqNewConnChan`

pub record Listener : Type 0 where
  pub active : List (Bytes × ℕ)
  pub conns : ℕ → UdpLocal
  pub next : ℕ
  pub udp_chan : List ℕ
  pub requests : ℕ  -- in `reqNewConnChan`
  pub reading : Reading
  pub panicked : Bool

abbrev pub update : ℕ → UdpLocal → (ℕ → UdpLocal) → ℕ → UdpLocal
update i u f j = if j == i then u else f j

unfoldable pub lookup : Bytes → List (Bytes × ℕ) → Option ℕ
lookup key [] = none
lookup key ((k, i) ∷ m) = if text_eq k key then some i else lookup key m

unfoldable pub delete : Bytes → List (Bytes × ℕ) → List (Bytes × ℕ)
delete key [] = []
delete key ((k, i) ∷ m) = let rest = delete key m in if text_eq k key then rest else (k, i) ∷ rest

pub data UdpEvent : Type 0 where
  packet : Bytes → Bytes → UdpEvent  -- a datagram, with the client's address
  resumed : UdpEvent  -- the reading goroutine makes its next send
  picked : UdpEvent  -- the loop takes a connection from `udpChan`
  handed : ℕ → UdpEvent  -- it has a tunnel connection for it, and starts the handler
  taken : ℕ → UdpEvent  -- the handler takes a payload
  congested : ℕ → UdpEvent  -- the handler finds a packet late
  ended : ℕ → UdpEvent  -- the handler ends
  requested : UdpEvent  -- the control channel takes a request

abbrev pub payload_capacity : ℕ
payload_capacity = 100000

-- A send on a closed channel panics; a full one drops the datagram.
abbrev pub deliver : ℕ → Bytes → Listener → Listener
deliver i buf t =
    if (t.conns i).closed
    then record t { panicked = true }
    else if ltb (length (t.conns i).payload) payload_capacity
    then record t {
      conns = update i (record (t.conns i) { payload = (t.conns i).payload ++ (buf ∷ []) }) t.conns;
    }
    else t

abbrev pub fresh : Bytes → List Bytes → Phase → UdpLocal
fresh key payload phase = record {
  client_addr = key;
  payload = payload;
  is_congested = false;
  closed = false;
  phase = phase;
}

-- The entry is stored.
abbrev pub open_new : Bytes → Bytes → Listener → Listener
open_new key buf t = record t {
  active = (key, t.next) ∷ delete key t.active;
  conns = update t.next (fresh key [] created) t.conns;
  next = t.next + 1;
  reading = stored t.next buf;
}

-- The send on `udpChan`. If that is full, the datagram is dropped, and the entry stays.
abbrev pub place : ℕ → ℕ → Bytes → Listener → Listener
place channel_size i buf t =
    if ltb (length t.udp_chan) channel_size
    then record t {
      udp_chan = t.udp_chan ++ (i ∷ []);
      conns = update i (record (t.conns i) { phase = queued }) t.conns;
      reading = placed i buf;
    }
    else record t { reading = at_read }

-- The first datagram. Nothing else sends on the payload channel before, so it has room.
abbrev pub pay : ℕ → Bytes → Listener → Listener
pay i buf t = if (t.conns i).closed then record t { panicked = true } else record t {
  conns = update i (record (t.conns i) { payload = (t.conns i).payload ++ (buf ∷ []) }) t.conns;
  reading = asking;
}

abbrev pub resume : ℕ → Reading → Listener → Listener
resume channel_size at_read t = t
resume channel_size (stored i buf) t = place channel_size i buf t
resume channel_size (placed i buf) t = pay i buf t
resume channel_size asking t = record t {
  requests = if ltb t.requests channel_size then t.requests + 1 else t.requests;
  reading = at_read;
}

abbrev pub on_packet : Bytes → Bytes → Option ℕ → Listener → Listener
on_packet key buf none t = open_new key buf t
on_packet key buf (some i) t =
    if (t.conns i).is_congested then open_new key buf t else deliver i buf t

-- A datagram is read by a goroutine that is not busy with an earlier one.
abbrev pub when_reading : Reading → Bytes → Bytes → Listener → Listener
when_reading at_read key buf t = on_packet key buf (lookup key t.active) t
when_reading _ key buf t = t

-- The address that the loop sends over a tunnel connection before it hands that over.
unfoldable pub send_target : Bytes → Conn → Outcome (Unit {0})
send_target remote_addr = send_binary_transport_string remote_addr sg_udp

-- The loop takes a connection, and then waits for a tunnel connection to hand it to. It holds one
-- connection at a time; nothing below depends on that, so an event list may let it hold several.
abbrev pub pick : List ℕ → Listener → Listener
pick [] t = t
pick (i ∷ is) t = record t {
  udp_chan = is;
  conns = update i (record (t.conns i) { phase = held }) t.conns;
}

-- The end of the handler; closing a closed channel panics.
abbrev pub end_handler : ℕ → Listener → Listener
end_handler i t = if (t.conns i).closed then record t { panicked = true } else record t {
  conns = update i (record (t.conns i) { closed = true; phase = finished }) t.conns;
  active = if (t.conns i).is_congested then t.active else delete (t.conns i).client_addr t.active;
}

module _ (channel_size : ℕ) where
  unfoldable pub udp_step : UdpEvent → Listener → Listener
  udp_step (packet key buf) t = when_reading t.reading key buf t
  udp_step resumed t = resume channel_size t.reading t
  udp_step picked t = pick t.udp_chan t
  udp_step (handed i) t =
      if is_held (t.conns i).phase
      then record t { conns = update i (record (t.conns i) { phase = running }) t.conns }
      else t
  udp_step (taken i) t =
      if is_running (t.conns i).phase
      then record t {
        conns = update i (record (t.conns i) { payload = drop 1 (t.conns i).payload }) t.conns;
      }
      else t
  udp_step (congested i) t =
      if is_running (t.conns i).phase
      then record t { conns = update i (record (t.conns i) { is_congested = true }) t.conns }
      else t
  udp_step (ended i) t = if is_running (t.conns i).phase then end_handler i t else t
  udp_step requested t = record t { requests = t.requests - 1 }

  unfoldable pub udp_run : List UdpEvent → Listener → Listener
  udp_run [] t = t
  udp_run (e ∷ es) t = udp_run es (udp_step e t)

-- The store holds no connection below `next`.
unfoldable pub listener_start : Listener
listener_start = record {
  active = [];
  conns = λ i. fresh [] [] created;
  next = 0;
  udp_chan = [];
  requests = 0;
  reading = at_read;
  panicked = false;
}
