-- ===== src/Handshake/Server.antt =====
-- `channelHandshake` of internal/server/transport/{tcp,tcpmux,udp,quic}.go. A channel of waiting
-- connections is the list of those that will arrive; at its end the context is cancelled.
use ttest.Prelude.{
  ℕ, Bool, true, false, List, [], ◌∷◌, Option, none, some, ◌==◌, if◌then◌else◌, Bytes, text_eq,
}
use ttest.Wire.Conn.{Conn, Outcome, done, fail, Error, close}
use ttest.Wire.Signals.{sg_chan}
use ttest.Wire.Binary.{
  go_values, receive_binary_transport_string, send_binary_transport_string, receive_binary_string,
  send_binary_string,
}

-- A connection with what the handshake does to it beside reading and writing.
pub record Peer : Type 0 where
  pub conn : Conn
  pub refuses_deadline : Bool  -- `SetReadDeadline` fails
  pub deadline : Bool  -- a read deadline is set
  pub is_tcp : Bool  -- the assertion `conn.(*net.TCPConn)` holds

pub data Round : Type 0 where
  accepted dropped : Peer → Round

abbrev pub drop_peer : Peer → Conn → Round
drop_peer p c = dropped (record p { conn = close c })

abbrev pub sent_token : Peer → Outcome (Unit {0}) → Round
sent_token p (done _ c) = accepted (record p { conn = c })
sent_token p (fail e c) = drop_peer p c

-- The token is checked and sent back, with the read deadline removed.
unfoldable pub answer : Bytes → Peer → Bytes → Round
answer token p msg =
    if text_eq msg token
    then sent_token p (send_binary_transport_string token sg_chan p.conn)
    else drop_peer p p.conn

abbrev pub after_error : Bytes → Peer → Bytes → Option Error → Round
after_error token p msg (some e) = drop_peer p p.conn
after_error token p msg none = answer token (record p { deadline = false }) msg

-- The signal is tested before the error, which comes with the signal 0.
unfoldable pub judge : Bytes → Peer → Bytes × ℕ × Option Error × Conn → Round
judge token p (msg, transport, err, c) =
    if transport == sg_chan
    then after_error token (record p { conn = c }) msg err
    else drop_peer p c

-- tcp.go and udp.go: one connection
unfoldable pub tcp_round : Bytes → Peer → Round
tcp_round token p =
    if p.refuses_deadline
    then drop_peer p p.conn
    else judge token (record p { deadline = true })
        (go_values (receive_binary_transport_string p.conn))

abbrev pub require_tcp : Round → Round
require_tcp (accepted p) = if p.is_tcp then accepted p else drop_peer p p.conn
require_tcp (dropped p) = dropped p

-- tcpmux.go: as in tcp.go, and the connection must be one of TCP
unfoldable pub tcpmux_round : Bytes → Peer → Round
tcpmux_round token p = require_tcp (tcp_round token p)

pub record Handshake : Type 0 where
  pub control_channel : Option Peer
  pub rejected : List Peer
  pub waiting : List Peer

abbrev pub after_round : Round → List Peer → Handshake → Handshake
after_round (accepted p) ps rest = record { control_channel = some p; rejected = []; waiting = ps }
after_round (dropped p) ps rest = record rest { rejected = p ∷ rest.rejected }

-- The loop: the first connection that passes becomes the control channel.
unfoldable pub handshake_loop : (Peer → Round) → List Peer → Handshake
handshake_loop round [] = record { control_channel = none; rejected = []; waiting = [] }
handshake_loop round (p ∷ ps) = after_round (round p) ps (handshake_loop round ps)

unfoldable pub tcp_channel_handshake : Bytes → List Peer → Handshake
tcp_channel_handshake token = handshake_loop (tcp_round token)

unfoldable pub tcpmux_channel_handshake : Bytes → List Peer → Handshake
tcpmux_channel_handshake token = handshake_loop (tcpmux_round token)

unfoldable pub udp_channel_handshake : Bytes → List Peer → Handshake
udp_channel_handshake token = handshake_loop (tcp_round token)

-- quic.go: a QUIC connection offers a stream, or none; the handshake is on the stream, without a
-- signal byte. The stream is closed in any case.
pub data QuicRound : Type 0 where
  quic_accepted quic_refused : Option Peer → QuicRound

abbrev pub quic_sent : Peer → Outcome (Unit {0}) → QuicRound
quic_sent p (done _ c) = quic_accepted (some (record p { conn = close c }))
quic_sent p (fail e c) = quic_refused (some (record p { conn = close c }))

abbrev pub quic_answer : Bytes → Peer → Outcome Bytes → QuicRound
quic_answer token p (fail e c) = quic_refused (some (record p { conn = close c; deadline = true }))
quic_answer token p (done msg c) =
    if text_eq msg token
    then quic_sent (record p { deadline = false }) (send_binary_string token c)
    else quic_refused (some (record p { conn = close c; deadline = false }))

unfoldable pub quic_channel_handshake : Bytes → Option Peer → QuicRound
quic_channel_handshake token none = quic_refused none
quic_channel_handshake token (some p) =
    if p.refuses_deadline
    then quic_refused (some (record p { conn = close p.conn }))
    else quic_answer token p (receive_binary_string p.conn)
