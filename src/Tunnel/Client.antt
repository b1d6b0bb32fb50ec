-- ===== src/Tunnel/Client.antt =====
-- `tunnelDialer`, `handleSession` and `localDialer` of internal/client/transport/{tcp,tcpmux,ws,wsmux}.go:
-- what becomes of a tunnel connection, and how the counter `poolConnections` changes. What the dials
-- give is a parameter, `local addr i` the attempt with the number `i` at a service of the client.
use ttest.Prelude.{ℕ, List, [], ◌∷◌, Option, none, some, ◌==◌, if◌then◌else◌, Bytes, text_eq}
use ttest.Prelude.Int.{ℤ}
use ttest.Wire.Conn.{Conn, Outcome, done, fail}
use ttest.Wire.Signals.{sg_ping, sg_tcp, sg_udp}
use ttest.Wire.Binary.{receive_binary_transport_string}
use ttest.Pool.Maintainer.{PoolEvent, dialed, claimed}
use ttest.Tunnel.Dialers.{tcp_dialer, web_socket_dialer, resolve_remote_addr}

pub data Served (L : Type 0) (T : Type 0) : Type 0 where
  not_dialed : Served L T
  hung_up : T → Served L T  -- the tunnel connection is closed
  tcp_served : T → L → ℤ → Served L T  -- `TCPConnectionHandler` or `WSConnectionHandler`, with the port
  udp_served : T → Bytes → ℤ → Served L T  -- `UDPDialer`, with the address and the port
  left_open : T → Served L T  -- the function returns, and nothing closes the connection

-- The end of a goroutine `tunnelDialer`, and the changes of the counter until then.
pub record Dialing (L : Type 0) (T : Type 0) : Type 0 where
  pub end : Served L T
  pub counted : List PoolEvent

module _ {L : Type 0} {T : Type 0} where
  abbrev pub by_local : T → ℤ → Option L → Served L T
  by_local t port none = hung_up t
  by_local t port (some l) = tcp_served t l port

  -- `localDialer` makes one attempt.
  unfoldable pub local_dialer : (Bytes → ℕ → Option L) → T → Bytes → ℤ → Served L T
  local_dialer local t addr port = let d = tcp_dialer (local addr) 1 in by_local t port d.conn

module _ {L : Type 0} (local : Bytes → ℕ → Option L) where
  -- tcp.go
  abbrev pub by_transport : Conn → ℕ → Bytes → ℤ → Served L Conn
  by_transport c transport addr port =
      if transport == sg_tcp
      then local_dialer local c addr port
      else if transport == sg_udp
      then udp_served c addr port
      else hung_up c

  abbrev pub resolved : Conn → ℕ → Option (ℤ × Bytes) → Served L Conn
  resolved c transport none = hung_up c
  resolved c transport (some (port, addr)) = by_transport c transport addr port

  abbrev pub on_address : Outcome (Bytes × ℕ) → Served L Conn
  on_address (fail e c) = hung_up c
  on_address (done (remote, transport) c) = resolved c transport (resolve_remote_addr remote)

  abbrev pub tcp_dialed : Option Conn → Dialing L Conn
  tcp_dialed none = record { end = not_dialed; counted = [] }
  tcp_dialed (some c) = record {
    end = on_address (receive_binary_transport_string c);
    counted = dialed ∷ claimed ∷ [];
  }

  unfoldable pub tcp_tunnel_dialer : (ℕ → Option Conn) → Dialing L Conn
  tcp_tunnel_dialer tunnel = let d = tcp_dialer tunnel 3 in tcp_dialed d.conn

  -- ws.go: what the select of the loop and `ReadMessage` give.
  pub data WsRead : Type 0 where
    ws_message : Bytes → WsRead
    ws_failed ws_cancelled : WsRead

  abbrev pub ws_resolved : {T : Type 0} → T → Option (ℤ × Bytes) → Served L T
  ws_resolved t none = hung_up t
  ws_resolved t (some (port, addr)) = local_dialer local t addr port

  -- The connection waits for more while the list is empty.
  unfoldable pub ws_reads : {T : Type 0} → T → List WsRead → Option (Dialing L T)
  ws_reads t [] = none
  ws_reads t (ws_cancelled ∷ _) = some (record { end = left_open t; counted = dialed ∷ [] })
  ws_reads t (ws_failed ∷ _) = some (record { end = hung_up t; counted = dialed ∷ claimed ∷ [] })
  ws_reads t (ws_message m ∷ rs) =
      let rest = ws_reads t rs in
      if text_eq m (sg_ping ∷ [])
      then rest
      else some
          (record { end = ws_resolved t (resolve_remote_addr m); counted = dialed ∷ claimed ∷ [] })

  abbrev pub ws_dialed : {T : Type 0} → List WsRead → Option T → Option (Dialing L T)
  ws_dialed reads none = some (record { end = not_dialed; counted = [] })
  ws_dialed reads (some t) = ws_reads t reads

  unfoldable pub ws_tunnel_dialer :
      {T : Type 0} → (ℕ → Option T) → List WsRead → Option (Dialing L T)
  ws_tunnel_dialer tunnel reads = let d = web_socket_dialer tunnel 3 in ws_dialed reads d.conn
