-- ===== src/UdpServer/Server.antt =====
-- `acceptTunnelConn`, `localListener`, `handleLoop`, `udpCopy`, `udpLocalCopy`, `udpTunnelCopy` and
-- `keepAlive` of internal/server/transport/udp.go, with one local listener. What happens between two
-- points where a goroutine may wait is one step. A datagram of an event is what `ReadFromUDP` leaves in
-- the buffer of 16 KB. Whether a write succeeds is an argument.
use ttest.Prelude.{
  ℕ, ◌+◌, ◌-◌, Bool, true, false, ◌&&◌, List, [], ◌∷◌, ◌++◌, Option, none, some, ltb, if◌then◌else◌,
  length, Bytes, text_eq,
}
use ttest.Wire.Signals.{sg_ping}
use ttest.UdpServer.Peers.{
  Stage, held, copying, forgotten, Peers, deliver, open_peer, finish_peer, change_peer, no_peers,
}

pub record UdpServer : Type 0 where
  pub locals : Peers
  pub tunnels : Peers
  pub holding : Option ℕ  -- the local connection that `handleLoop` has
  pub requests : ℕ  -- the signals in `reqNewConnChan`

pub data UdpServerEvent : Type 0 where
  tunnel_packet : Bytes → Bytes → ℕ → UdpServerEvent  -- a datagram, with its sender and the time
  local_packet : Bytes → Bytes → ℕ → UdpServerEvent
  local_picked : ℕ → UdpServerEvent  -- <-udpChan, at a time
  tunnel_picked : Bool → UdpServerEvent  -- <-s.tunnelChannel, with the result of WriteTo
  local_copied : ℕ → Bool → UdpServerEvent  -- a payload of a local connection, to the tunnel
  tunnel_copied : ℕ → Bool → UdpServerEvent  -- a payload of a tunnel connection, to the client
  local_idle : ℕ → UdpServerEvent  -- 60 seconds without a payload
  tunnel_idle : ℕ → UdpServerEvent
  copy_ended : ℕ → UdpServerEvent  -- both directions have returned, for a local connection
  heartbeat : ℕ → Bool → UdpServerEvent  -- the ticker of `keepAlive`
  request_taken : UdpServerEvent

module _ (channel_size : ℕ) (token remote_addr : Bytes) where
  abbrev pub accept_tunnel_packet : Bytes → Bytes → ℕ → Option ℕ → Peers → Peers
  accept_tunnel_packet key buf now (some i) p = deliver i buf p
  accept_tunnel_packet key buf now none p =
      if text_eq buf token then open_peer channel_size key now [] p else p

  -- A new local connection asks for a tunnel connection.
  abbrev pub accept_local_packet : Bytes → Bytes → ℕ → Option ℕ → UdpServer → UdpServer
  accept_local_packet key buf now (some i) s = record s { locals = deliver i buf s.locals }
  accept_local_packet key buf now none s = record s {
    locals = open_peer channel_size key now (buf ∷ []) s.locals;
    requests =
        if ltb (length s.locals.waiting) channel_size
        then (if ltb s.requests channel_size then s.requests + 1 else s.requests)
        else s.requests;
  }

  -- A connection that is too old is skipped, and stays in the table.
  abbrev pub pick_local : ℕ → Option ℕ → List ℕ → UdpServer → UdpServer
  pick_local now (some i) _ s = s
  pick_local now none [] s = s
  pick_local now none (i ∷ is) s =
      if ltb ((s.locals.store i).time_created + 3000) now
      then record s {
        locals =
            change_peer i (record (s.locals.store i) { stage = forgotten })
              (record s.locals { waiting = is });
      }
      else record s {
        locals =
            change_peer i (record (s.locals.store i) { stage = held })
              (record s.locals { waiting = is });
        holding = some i;
      }

  -- If the address cannot be written, `handleLoop` waits for another tunnel connection.
  abbrev pub pick_tunnel : Bool → Option ℕ → List ℕ → UdpServer → UdpServer
  pick_tunnel ok none _ s = s
  pick_tunnel ok (some i) [] s = s
  pick_tunnel false (some i) (j ∷ js) s = record s {
    tunnels =
        change_peer j (record (s.tunnels.store j) { stage = forgotten; pinged = false })
          (record s.tunnels { waiting = js });
  }
  pick_tunnel true (some i) (j ∷ js) s = record s {
    tunnels =
        change_peer j
          (record (s.tunnels.store j) {
            stage = copying i;
            pinged = false;
            written = (s.tunnels.store j).written ++ (remote_addr ∷ []);
          })
          (record s.tunnels { waiting = js });
    locals = change_peer i (record (s.locals.store i) { stage = copying j }) s.locals;
    holding = none;
  }

  -- One round of udpLocalCopy and of udpTunnelCopy: from the connection `i` of `from` to `j` of `to`.
  -- Nothing is written for an empty datagram.
  abbrev pub took : ℕ → Bool → List Bytes → Peers → Peers
  took i ok [] from = from
  took i ok ([] ∷ ds) from = change_peer i (record (from.store i) { payload = ds }) from
  took i ok ((b ∷ bs) ∷ ds) from =
      change_peer i (record (from.store i) { payload = ds; copied = if ok then false else true })
        from

  abbrev pub wrote : ℕ → Bool → List Bytes → Peers → Peers
  wrote j ok [] to = to
  wrote j ok ([] ∷ ds) to = to
  wrote j false ((b ∷ bs) ∷ ds) to = to
  wrote j true ((b ∷ bs) ∷ ds) to =
      change_peer j (record (to.store j) { written = (to.store j).written ++ ((b ∷ bs) ∷ []) }) to

  abbrev pub copy_local : ℕ → Bool → Bool → Stage → UdpServer → UdpServer
  copy_local i ok false (copying j) s = record s {
    locals = took i ok (s.locals.store i).payload s.locals;
    tunnels = wrote j ok (s.locals.store i).payload s.tunnels;
  }
  copy_local i ok _ _ s = s

  abbrev pub copy_tunnel : ℕ → Bool → Bool → Stage → UdpServer → UdpServer
  copy_tunnel j ok false (copying i) s = record s {
    tunnels = took j ok (s.tunnels.store j).payload s.tunnels;
    locals = wrote i ok (s.tunnels.store j).payload s.locals;
  }
  copy_tunnel j ok _ _ s = s

  abbrev pub idle_peer : ℕ → Stage → Peers → Peers
  idle_peer i (copying _) p = change_peer i (record (p.store i) { copied = true }) p
  idle_peer i _ p = p

  abbrev pub end_copy : ℕ → Stage → UdpServer → UdpServer
  end_copy i (copying j) s =
      if (s.locals.store i).copied && (s.tunnels.store j).copied
      then record s { locals = finish_peer i s.locals; tunnels = finish_peer j s.tunnels }
      else s
  end_copy i _ s = s

  -- A failed write ends `keepAlive`.
  abbrev pub ping_peer : ℕ → Bool → Bool → Peers → Peers
  ping_peer j ok false p = p
  ping_peer j false true p = change_peer j (record (p.store j) { pinged = false }) p
  ping_peer j true true p =
      change_peer j (record (p.store j) { written = (p.store j).written ++ ((sg_ping ∷ []) ∷ []) })
        p

  unfoldable pub udp_server_step : UdpServerEvent → UdpServer → UdpServer
  udp_server_step (tunnel_packet key buf now) s = record s {
    tunnels = accept_tunnel_packet key buf now (s.tunnels.active key) s.tunnels;
  }
  udp_server_step (local_packet key buf now) s =
      accept_local_packet key buf now (s.locals.active key) s
  udp_server_step (local_picked now) s = pick_local now s.holding s.locals.waiting s
  udp_server_step (tunnel_picked ok) s = pick_tunnel ok s.holding s.tunnels.waiting s
  udp_server_step (local_copied i ok) s =
      copy_local i ok (s.locals.store i).copied (s.locals.store i).stage s
  udp_server_step (tunnel_copied j ok) s =
      copy_tunnel j ok (s.tunnels.store j).copied (s.tunnels.store j).stage s
  udp_server_step (local_idle i) s = record s {
    locals = idle_peer i (s.locals.store i).stage s.locals;
  }
  udp_server_step (tunnel_idle j) s = record s {
    tunnels = idle_peer j (s.tunnels.store j).stage s.tunnels;
  }
  udp_server_step (copy_ended i) s = end_copy i (s.locals.store i).stage s
  udp_server_step (heartbeat j ok) s = record s {
    tunnels = ping_peer j ok (s.tunnels.store j).pinged s.tunnels;
  }
  udp_server_step request_taken s = record s { requests = s.requests - 1 }

  unfoldable pub udp_server_run : List UdpServerEvent → UdpServer → UdpServer
  udp_server_run [] s = s
  udp_server_run (e ∷ es) s = udp_server_run es (udp_server_step e s)

unfoldable pub udp_server_start : UdpServer
udp_server_start = record { locals = no_peers; tunnels = no_peers; holding = none; requests = 0 }
