-- ===== src/Handshake/Tests.antt =====
-- Handshakes between small peers.
use ttest.Prelude.{
  ◌≡◌, refl, [], ◌∷◌, ◌++◌, some, All, length, Bytes, codes, arith, false, true, ap, text_eq,
}
use ttest.Wire.Conn.{Conn, net_conn, eof, read_full, write}
use ttest.Wire.Binary.{receive_binary_transport_string, send_binary_transport_string, uint16}
use ttest.Wire.RoundTrip.{IsUsable}
use ttest.Handshake.Server.{
  Peer, accepted, dropped, tcp_round, handshake_loop, tcp_channel_handshake, answer, judge,
}
use ttest.Handshake.Client.{established, again, tcp_dial}
use ttest.Handshake.Accept.{
  Presents, IsTurnedAway, hello, tcp_round-accepted, tcp_round-IsTurnedAway,
}
use ttest.Handshake.Pairing.{
  IsFresh, receiving, client_hello, handshake_succeeds, handshake_fails,
  tcp_channel_handshake-closed,
}

abbrev wire : Conn
wire = record { kind = net_conn; inbox = []; fault = eof; sent = []; room = 100; closed = false }

abbrev peer : Peer
peer = record { conn = wire; refuses_deadline = false; deadline = false; is_tcp = true }

abbrev token : Bytes
token = codes "ab"

abbrev other_token : Bytes
other_token = codes "a"

wire-IsUsable : IsUsable wire
wire-IsUsable = (λ e. cc, refl)

peer-IsFresh : IsFresh token peer
peer-IsFresh = (wire-IsUsable, refl, refl, omega arith)

peer-IsFresh_other : IsFresh other_token peer
peer-IsFresh_other = (wire-IsUsable, refl, refl, omega arith)

handshake_succeeds_example :
    (q e : Peer) × (tcp_round token (receiving peer (client_hello token peer)) ≡ accepted q)
    × (tcp_dial token (some (receiving peer q.conn.sent)) ≡ established e)
handshake_succeeds_example =
    handshake_succeeds token peer peer peer-IsFresh peer-IsFresh (omega arith)

handshake_fails_example :
    (q e : Peer) × (tcp_round other_token (receiving peer (client_hello token peer)) ≡ dropped q)
    × (q.conn.closed ≡ true)
    × (tcp_dial token (some (receiving peer q.conn.sent)) ≡ again (some e) true)
    × (e.conn.closed ≡ true)
handshake_fails_example =
    handshake_fails token other_token peer peer (λ e. omega (arith, ap length e)) peer-IsFresh
      peer-IsFresh_other (omega arith)

-- A peer whose first message is the token, with one byte behind it.
abbrev greeting : Peer
greeting = receiving peer (0 ∷ 2 ∷ 1 ∷ 97 ∷ 98 ∷ 9 ∷ [])

abbrev greeted : Peer
greeted = record peer {
  conn = record wire { inbox = 9 ∷ []; sent = 0 ∷ 2 ∷ 1 ∷ 97 ∷ 98 ∷ []; room = 95 };
}

greeting-accepted : tcp_round token greeting ≡ accepted greeted
unfolding tcp_round judge answer receive_binary_transport_string read_full text_eq
    send_binary_transport_string write
greeting-accepted = refl

tcp_round-accepted_example :
    Presents token greeting.conn (9 ∷ [])
    × (greeted.conn.sent ≡ [] ++ hello token)
    × (false ≡ false)
tcp_round-accepted_example =
    tcp_round-accepted token greeting greeted (ground arith) greeting-accepted

tcp_round-IsTurnedAway_example : IsTurnedAway greeting (tcp_round other_token greeting)
tcp_round-IsTurnedAway_example =
    tcp_round-IsTurnedAway other_token greeting (ground arith) λ rest e. omega (arith, ap uint16 e)

silent-found :
    (handshake_loop (tcp_round token) (peer ∷ greeting ∷ [])).control_channel ≡ some greeted
unfolding handshake_loop tcp_round judge answer receive_binary_transport_string read_full text_eq
    send_binary_transport_string write
silent-found = refl

tcp_channel_handshake-closed_example :
    All (λ q. q.conn.closed ≡ true) (tcp_channel_handshake token (peer ∷ greeting ∷ [])).rejected
tcp_channel_handshake-closed_example = tcp_channel_handshake-closed token (peer ∷ greeting ∷ [])
