-- ===== src/Handshake/Client.antt =====
-- `channelDialer` of internal/client/transport/{tcp,tcpmux,udp,quic}.go: one round of the loop. The
-- dialer's result is an argument: the connection, or none.
use ttest.Prelude.{ℕ, Bool, true, false, Option, none, some, if◌then◌else◌, Bytes, text_eq}
use ttest.Wire.Conn.{Conn, Outcome, done, fail, close}
use ttest.Wire.Signals.{sg_chan}
use ttest.Wire.Binary.{
  receive_binary_transport_string, send_binary_transport_string, receive_binary_string,
  send_binary_string,
}
use ttest.Handshake.Server.{Peer}

-- `established` ends the loop; `again` goes on, after the retry interval if its flag says so.
pub data Dial : Type 0 where
  established : Peer → Dial
  again : Option Peer → Bool → Dial

abbrev pub hang_up : Peer → Conn → Bool → Dial
hang_up p c slept = again (some (record p { conn = close c })) slept

abbrev pub check_reply : Bytes → Peer → Outcome (Bytes × ℕ) → Dial
check_reply token p (fail e c) = hang_up p c true
check_reply token p (done (msg, _) c) =
    if text_eq msg token
    then established (record p { conn = c; deadline = false })
    else hang_up (record p { deadline = false }) c true

-- tcp.go ignores the result of `SetReadDeadline` and always removes the deadline.
abbrev pub tcp_reply : Bytes → Peer → Outcome (Unit {0}) → Dial
tcp_reply token p (fail e c) = hang_up p c false
tcp_reply token p (done _ c) =
    check_reply token (record p { deadline = false }) (receive_binary_transport_string c)

unfoldable pub tcp_dial : Bytes → Option Peer → Dial
tcp_dial token none = again none true
tcp_dial token (some p) = tcp_reply token p (send_binary_transport_string token sg_chan p.conn)

-- tcpmux.go and udp.go
abbrev pub tcpmux_reply : Bytes → Peer → Outcome (Unit {0}) → Dial
tcpmux_reply token p (fail e c) = hang_up p c false
tcpmux_reply token p (done _ c) =
    if p.refuses_deadline
    then hang_up p c false
    else check_reply token (record p { deadline = true }) (receive_binary_transport_string c)

unfoldable pub tcpmux_dial : Bytes → Option Peer → Dial
tcpmux_dial token none = again none true
tcpmux_dial token (some p) =
    tcpmux_reply token p (send_binary_transport_string token sg_chan p.conn)

unfoldable pub udp_dial : Bytes → Option Peer → Dial
udp_dial token none = again none true
udp_dial token (some p) = tcpmux_reply token p (send_binary_transport_string token sg_chan p.conn)

-- quic.go: the stream of a QUIC connection that was dialled; a wrong token is retried at once.
abbrev pub quic_check_reply : Bytes → Peer → Outcome Bytes → Dial
quic_check_reply token p (fail e c) = hang_up (record p { deadline = true }) c true
quic_check_reply token p (done msg c) =
    if text_eq msg token
    then established (record p { conn = close c; deadline = false })
    else hang_up (record p { deadline = false }) c false

abbrev pub quic_reply : Bytes → Peer → Outcome (Unit {0}) → Dial
quic_reply token p (fail e c) = hang_up p c false
quic_reply token p (done _ c) =
    if p.refuses_deadline
    then hang_up p c false
    else quic_check_reply token p (receive_binary_string c)

-- What `quicDialer` and `OpenStreamSync` gave.
pub data QuicDialed : Type 0 where
  no_connection no_stream : QuicDialed
  opened : Peer → QuicDialed

unfoldable pub quic_dial : Bytes → QuicDialed → Dial
quic_dial token no_connection = again none true
quic_dial token no_stream = again none false
quic_dial token (opened p) = quic_reply token p (send_binary_string token p.conn)
