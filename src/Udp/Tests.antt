-- ===== src/Udp/Tests.antt =====
-- Three datagrams, one of them empty, in each direction.
use ttest.Prelude.{ℕ, ◌≡◌, refl, List, [], ◌∷◌, ◌++◌, map, Bytes, true, false, arith}
use ttest.Wire.Conn.{Conn, net_conn, eof}
use ttest.Udp.Frames.{
  UdpConn, Receiver, Sending, datagram, udp_to_tcp, tcp_to_udp, client_udp_to_tcp,
  server_tcp_to_udp,
}
use ttest.Udp.Delivery.{not_empty, tcp_to_udp-udp_to_tcp}
use ttest.Udp.Stamped.{Stamped, arrival}
use ttest.Prelude.{◌≤◌}
use ttest.Prelude.{none, some, text_eq, length}
use ttest.Udp.Listener.{
  UdpEvent, Listener, packet, resumed, picked, handed, congested, ended, at_read, lookup, delete,
  udp_run, udp_step, listener_start, created,
}
use ttest.Udp.Table.{AllPrompt, udp_run-calm}
use ttest.Udp.Refused.{udp_run-refused}
use ttest.Udp.Termination.{tcp_to_udp-ends}

abbrev wire : Conn
wire = record { kind = net_conn; inbox = []; fault = eof; sent = []; room = 100; closed = false }

abbrev sending : Sending
sending = record { tcp = wire; reported = []; ended = false }

abbrev socket : UdpConn
socket = record { datagrams = []; left = 9 }

abbrev receiving : Bytes → Receiver
receiving bytes = record {
  tcp = record wire { inbox = bytes };
  udp = socket;
  reported = [];
  congested = false;
  ended = false;
}

abbrev datagrams : List Bytes
datagrams = (1 ∷ 2 ∷ []) ∷ [] ∷ (3 ∷ []) ∷ []

abbrev sent : Bytes
sent = (udp_to_tcp true (map datagram datagrams) sending).tcp.sent

tcp_to_udp-udp_to_tcp_example :
    ((tcp_to_udp false (receiving sent)).udp.datagrams ≡ [] ++ not_empty datagrams)
    × ((tcp_to_udp false (receiving sent)).ended ≡ true)
tcp_to_udp-udp_to_tcp_example =
    tcp_to_udp-udp_to_tcp true false datagrams sending (receiving sent)
      (omega arith, (omega arith, (omega arith, tt))) refl refl (omega arith) refl refl
      (omega arith)

-- Read by the client at these milliseconds.
abbrev stamped : List Stamped
stamped = (600010, 1 ∷ 2 ∷ []) ∷ (600020, []) ∷ (600030, 3 ∷ []) ∷ []

abbrev now : ℕ → ℕ
now i = 600200

abbrev stamped_sent : Bytes
stamped_sent = (client_udp_to_tcp true (map arrival stamped) sending).tcp.sent

tcp_to_udp-ends_example :
    ((tcp_to_udp true (receiving (0 ∷ 9 ∷ 1 ∷ []))).ended ≡ true)
    × ((server_tcp_to_udp true true 50 now (receiving (0 ∷ 9 ∷ 1 ∷ []))).ended ≡ true)
tcp_to_udp-ends_example = tcp_to_udp-ends true true 50 now (receiving (0 ∷ 9 ∷ 1 ∷ []))

abbrev first_packet : List UdpEvent
first_packet = packet (1 ∷ []) (7 ∷ []) ∷ resumed ∷ resumed ∷ resumed ∷ []

first_packet-full :
    ((udp_run 1 first_packet listener_start).reading ≡ at_read)
    × (lookup (2 ∷ []) (udp_run 1 first_packet listener_start).active ≡ none)
    × ((udp_run 1 first_packet listener_start).next ≡ 1)
    × (1 ≤ length (udp_run 1 first_packet listener_start).udp_chan)
unfolding lookup delete udp_run udp_step listener_start text_eq
first_packet-full = (refl, refl, refl, omega arith)

abbrev refused_state : Listener
refused_state =
    udp_run 1 (packet (2 ∷ []) (8 ∷ []) ∷ resumed ∷ []) (udp_run 1 first_packet listener_start)

abbrev later : List UdpEvent
later = picked ∷ handed 0 ∷ packet (2 ∷ []) (9 ∷ []) ∷ []

udp_run-refused_example :
    (lookup (2 ∷ []) refused_state.active ≡ some (udp_run 1 first_packet listener_start).next)
    × ((refused_state.conns (udp_run 1 first_packet listener_start).next).payload ≡ [])
    × (refused_state.reading ≡ at_read)
    × (((udp_run 1 later refused_state).conns (udp_run 1 first_packet listener_start).next).phase
        ≡ created)
udp_run-refused_example =
    udp_run-refused 1 first_packet later (2 ∷ []) (8 ∷ []) first_packet-full.0 first_packet-full.1
      first_packet-full.3

abbrev crowd : List UdpEvent
crowd =
    packet (1 ∷ []) (7 ∷ [])
    ∷ resumed
    ∷ picked
    ∷ resumed
    ∷ handed 0
    ∷ congested 0
    ∷ resumed
    ∷ packet (1 ∷ []) (8 ∷ [])
    ∷ ended 0
    ∷ resumed
    ∷ []

crowd-AllPrompt : AllPrompt 1 crowd listener_start
unfolding lookup delete udp_step listener_start text_eq
crowd-AllPrompt = (tt, (tt, (tt, (tt, (tt, (tt, (tt, (tt, ((λ h. h), (tt, tt))))))))))

udp_run-calm_example : (udp_run 1 crowd listener_start).panicked ≡ false
udp_run-calm_example = udp_run-calm 1 crowd crowd-AllPrompt

-- A handler that ends before the first datagram is sent.
hasty-panicked :
    (udp_run 1
      (packet (1 ∷ []) (7 ∷ []) ∷ resumed ∷ picked ∷ handed 0 ∷ ended 0 ∷ resumed ∷ [])
      listener_start).panicked
    ≡ true
unfolding lookup delete udp_run udp_step listener_start text_eq
hasty-panicked = refl
