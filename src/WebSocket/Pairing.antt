-- ===== src/WebSocket/Pairing.antt =====
-- `acceptLocalConn`, `handleLoop` and `keepAlive` of internal/server/transport/ws.go: local connections
-- wait in `localChannel`, tunnel connections in `tunnelChannel`, and each loop holds one local connection
-- until a tunnel connection has got its address. A step is what a goroutine does between two points where
-- it may wait; a place in a list names an element. The listeners give TCP connections only.
use ttest.Prelude.{
  ℕ, zero, suc, ◌+◌, ◌-◌, Bool, true, false, List, [], ◌∷◌, ◌++◌, Option, none, some, ltb,
  if◌then◌else◌, length, Bytes,
}
use ttest.Wire.Signals.{sg_ping}
use ttest.Mux.Sessions.{LocalConn}

-- TunnelChannel, with a number in place of the connection. The channel `ping` and the mutex belong to the
-- time before it is taken.
pub record WsTunnel : Type 0 where
  pub id : ℕ
  pub messages : List Bytes  -- written to it
  pub pinged : Bool  -- `keepAlive` runs

pub record WsPairing : Type 0 where
  pub local_channel : List LocalConn
  pub tunnel_channel : List WsTunnel
  pub holding : List LocalConn  -- what the loops have
  pub served : List (LocalConn × WsTunnel)  -- given to WSConnectionHandler
  pub requests : ℕ
  pub closed_locals : List LocalConn
  pub closed_tunnels : List ℕ
  pub next_id : ℕ

pub data WsEvent : Type 0 where
  local_accepted : Bytes → ℕ → WsEvent  -- with the address of the listener and the time
  tunnel_accepted : ℕ → WsEvent  -- from the HTTP handler
  local_picked : WsEvent  -- <-s.localChannel of a loop
  held_checked : ℕ → ℕ → WsEvent  -- the test of the age of a connection that is held
  tunnel_picked : ℕ → Bool → WsEvent  -- <-s.tunnelChannel for one, with the result of WriteMessage
  heartbeat : ℕ → Bool → WsEvent  -- the ticker for a tunnel connection that waits
  request_taken : WsEvent

abbrev pub split_at : {A : Type 0} → ℕ → List A → Option (A × List A)
split_at n [] = none
split_at zero (x ∷ xs) = some (x, xs)
split_at (suc n) (x ∷ xs) = elim (split_at n xs) [ none ↦ none | some (y, ys) ↦ some (y, x ∷ ys) ]

abbrev pub ping_at : ℕ → Bool → List WsTunnel → List WsTunnel
ping_at n ok [] = []
ping_at (suc n) ok (t ∷ ts) = t ∷ ping_at n ok ts
ping_at zero false (t ∷ ts) = record t { pinged = false } ∷ ts
ping_at zero true (t ∷ ts) =
    (if t.pinged then record t { messages = t.messages ++ ((sg_ping ∷ []) ∷ []) } else t) ∷ ts

-- A ping that fails closes the connection, which stays in the channel.
abbrev pub failed_at : ℕ → Bool → List WsTunnel → List ℕ
failed_at n ok [] = []
failed_at (suc n) ok (t ∷ ts) = failed_at n ok ts
failed_at zero true (t ∷ ts) = []
failed_at zero false (t ∷ ts) = if t.pinged then t.id ∷ [] else []

module _ (channel_size handlers : ℕ) where
  abbrev pub accept_ws_local : LocalConn → WsPairing → WsPairing
  accept_ws_local c s =
      if ltb (length s.local_channel) channel_size
      then record s {
        local_channel = s.local_channel ++ (c ∷ []);
        requests = if ltb s.requests channel_size then s.requests + 1 else s.requests;
        next_id = s.next_id + 1;
      }
      else record s { closed_locals = c ∷ s.closed_locals; next_id = s.next_id + 1 }

  abbrev pub accept_ws_tunnel : WsTunnel → WsPairing → WsPairing
  accept_ws_tunnel t s =
      if ltb (length s.tunnel_channel) channel_size
      then record s { tunnel_channel = s.tunnel_channel ++ (t ∷ []) }
      else record s { closed_tunnels = t.id ∷ s.closed_tunnels }

  abbrev pub pick_ws_local : List LocalConn → WsPairing → WsPairing
  pick_ws_local [] s = s
  pick_ws_local (c ∷ cs) s =
      if ltb (length s.holding) handlers
      then record s { local_channel = cs; holding = c ∷ s.holding }
      else s

  abbrev pub check_held : ℕ → Option (LocalConn × List LocalConn) → WsPairing → WsPairing
  check_held now none s = s
  check_held now (some (c, rest)) s =
      if ltb (c.time_created + 3000) now
      then record s { holding = rest; closed_locals = c ∷ s.closed_locals }
      else s

  -- After a failed write the loop keeps the local connection.
  abbrev pub pair_up :
      Bool → Option (LocalConn × List LocalConn) → List WsTunnel → WsPairing → WsPairing
  pair_up ok none ts s = s
  pair_up ok (some _) [] s = s
  pair_up false (some _) (t ∷ ts) s = record s {
    tunnel_channel = ts;
    closed_tunnels = t.id ∷ s.closed_tunnels;
  }
  pair_up true (some (c, rest)) (t ∷ ts) s = record s {
    tunnel_channel = ts;
    holding = rest;
    served =
        (c, record t { messages = t.messages ++ (c.remote_addr ∷ []); pinged = false }) ∷ s.served;
  }

  unfoldable pub ws_step : WsEvent → WsPairing → WsPairing
  ws_step (local_accepted addr now) s =
      accept_ws_local (record { id = s.next_id; remote_addr = addr; time_created = now }) s
  ws_step (tunnel_accepted id) s =
      accept_ws_tunnel (record { id = id; messages = []; pinged = true }) s
  ws_step local_picked s = pick_ws_local s.local_channel s
  ws_step (held_checked n now) s = check_held now (split_at n s.holding) s
  ws_step (tunnel_picked n ok) s = pair_up ok (split_at n s.holding) s.tunnel_channel s
  ws_step (heartbeat n ok) s = record s {
    tunnel_channel = ping_at n ok s.tunnel_channel;
    closed_tunnels = failed_at n ok s.tunnel_channel ++ s.closed_tunnels;
  }
  ws_step request_taken s = record s { requests = s.requests - 1 }

  unfoldable pub ws_run : List WsEvent → WsPairing → WsPairing
  ws_run [] s = s
  ws_run (e ∷ es) s = ws_run es (ws_step e s)

unfoldable pub ws_start : WsPairing
ws_start = record {
  local_channel = [];
  tunnel_channel = [];
  holding = [];
  served = [];
  requests = 0;
  closed_locals = [];
  closed_tunnels = [];
  next_id = 0;
}
