-- ===== src/WebSocket/Tests.antt =====
-- A client that asks for a tunnel connection, and a few bytes that go through it.
use ttest.Prelude.{
  map, ℕ, none, ◌≡◌, ◌+◌, refl, true, false, List, [], ◌∷◌, ◌++◌, Option, some, Bytes, codes, drop,
  length, text_eq, arith, inr, if◌then◌else◌, joined,
}
use ttest.GoText.Decimal.{itoa}
use ttest.Wire.Conn.{Conn, net_conn, eof}
use ttest.Wire.Signals.{sg_ping}
use ttest.Mux.Sessions.{LocalConn}
use ttest.Pool.Maintainer.{dialed, claimed}
use ttest.Tunnel.Dialers.{resolve_remote_addr}
use ttest.Tunnel.Client.{ws_message, ws_reads, ws_resolved}
use ttest.WebSocket.Pairing.{
  WsTunnel, WsEvent, local_accepted, tunnel_accepted, local_picked, held_checked, tunnel_picked,
  heartbeat, ws_step, ws_run, ws_start,
}
use ttest.WebSocket.Paired.{served_at, ws_run-ws_reads}
use ttest.WebSocket.Request.{WsRequest, bearer, tunnel_path, with_user, attempt_dial_web_socket}
use ttest.WebSocket.Listener.{WsListener, on_request}
use ttest.WebSocket.Upgrade.{granted, attempt_dial-on_request}
use ttest.WebSocket.Copy.{
  ToTcp, ToWebSocket, transfer_web_socket_to_tcp, transfer_tcp_to_web_socket,
}
use ttest.WebSocket.Delivery.{reports, web_socket-round_trip}

abbrev split_host_port : Bytes → Option (Bytes × Bytes)
split_host_port addr = some (addr, codes "443")

abbrev join_host_port : Bytes → Bytes → Bytes
join_host_port host port = host ++ (b':' ∷ port)

abbrev host : Bytes
host = codes "h:1"

abbrev mode : Bytes
mode = codes "ws"

abbrev token : Bytes
token = codes "t"

abbrev asked : WsRequest
asked = record {
  url = codes "ws://" ++ (host ++ with_user tunnel_path 7);
  authorization = bearer token;
  user_id = itoa 7;
  net_addr = host;
  skip_verify = false;
}

host-asked :
    attempt_dial_web_socket split_host_port join_host_port host [] tunnel_path token mode 7
    ≡ some asked
unfolding attempt_dial_web_socket text_eq
host-asked = refl

abbrev listener : WsListener
listener = record {
  control_channel = some 0;
  tunnel_channel = [];
  closed = [];
  unauthorized = 0;
  restarts = 0;
  handlers = 4;
  listening = true;
}

-- The path of this URL.
abbrev sent_path : Bytes → Bytes
sent_path u = drop (length (codes "ws://") + length host) u

sent_path-asked : sent_path asked.url ≡ with_user tunnel_path 7
unfolding text_eq
sent_path-asked = refl

attempt_dial-on_request_example :
    on_request 8 4 token true true 1 asked.authorization (sent_path asked.url) listener ≡ (
      if text_eq token token
      then granted 8 4 true 1 tunnel_path listener
      else record listener { unauthorized = listener.unauthorized + 1 })
attempt_dial-on_request_example =
    attempt_dial-on_request split_host_port join_host_port (λ v. v) sent_path host [] tunnel_path
      token mode 7 asked 8 4 token true 1 listener host-asked (inr refl) refl sent_path-asked

abbrev wire : Conn
wire = record { kind = net_conn; inbox = []; fault = eof; sent = []; room = 100; closed = false }

abbrev bufs : List Bytes
bufs = (1 ∷ 2 ∷ []) ∷ (3 ∷ []) ∷ []

abbrev sender : ToWebSocket
sender = record { messages = []; left = 5; reported = []; closed = false }

abbrev received : ToTcp
received =
    transfer_web_socket_to_tcp true (transfer_tcp_to_web_socket false bufs sender).messages
      (record { tcp = wire; reported = []; ws_closed = false })

web_socket-round_trip_example :
    (received.tcp.sent ≡ [] ++ joined bufs) × (received.reported ≡ [] ++ reports true bufs)
web_socket-round_trip_example =
    web_socket-round_trip false true bufs 5 wire [] (omega arith) refl (omega arith)

abbrev no_local : Bytes → ℕ → Option ℕ
no_local addr i = none

abbrev tunnel : ℕ
tunnel = 5

abbrev pairing : List WsEvent
pairing =
    tunnel_accepted 5
    ∷ heartbeat 0 true
    ∷ local_accepted (codes "80") 10
    ∷ local_picked
    ∷ held_checked 0 20
    ∷ tunnel_picked 0 true
    ∷ []

abbrev paired_conn : LocalConn
paired_conn = record { id = 0; remote_addr = codes "80"; time_created = 10 }

abbrev paired_tunnel : WsTunnel
paired_tunnel = record { id = 5; messages = (2 ∷ []) ∷ codes "80" ∷ []; pinged = false }

pairing-served :
    served_at (ws_run 8 4 pairing ws_start).served 0 ≡ some (paired_conn, paired_tunnel)
unfolding ws_run ws_step ws_start
pairing-served = refl

no_ping : text_eq (codes "80") (sg_ping ∷ []) ≡ false
unfolding text_eq
no_ping = refl

ws_run-ws_reads_example :
    ws_reads no_local tunnel (map ws_message paired_tunnel.messages)
    ≡ some (record {
      end = ws_resolved no_local tunnel (resolve_remote_addr (codes "80"));
      counted = dialed ∷ claimed ∷ [];
    })
ws_run-ws_reads_example =
    ws_run-ws_reads no_local tunnel 8 4 pairing 0 paired_conn paired_tunnel pairing-served no_ping
