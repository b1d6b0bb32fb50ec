-- ===== src/Control/Trace.antt =====
-- What the servers' handlers write on the control channel.
use ttest.Prelude.{
  ℕ, suc, ◌-◌, ◌≤◌, ◌≡◌, refl, ◌∙◌, ap, Bool, true, false, not, List, [], ◌∷◌, ◌++◌, arith, ◌==◌,
  length, append_assoc,
}
use ttest.Wire.Conn.{Conn, write}
use ttest.Wire.Signals.{sg_hb, sg_closed, sg_rtt}
use ttest.Wire.Binary.{send_binary_byte}
use ttest.Wire.RoundTrip.{IsUsable}
use ttest.Control.Server.{
  Event, ServerControl, Sender, send_signal, emitted, emit, reader_runs, reader_failed, run,
  OnMessage, tcp_on_message, tcpmux_on_message, ws_on_message, udp_on_message, tcp_server_handler,
  udp_server_handler, tcpmux_server_handler, ws_server_handler,
}
use ttest.Control.Loop.{Reliable, signals, FollowsEnds, from_reading}

pub le_down : {n m : ℕ} → suc n ≤ m → n ≤ m
le_down h = omega arith

pub conn_sends :
    (n b : ℕ) (c : Conn)
    → IsUsable c × (suc n ≤ c.room)
    → (d : Conn) × (send_signal b c ≡ (true, d))
      × (d.sent ≡ c.sent ++ (b ∷ []))
      × (IsUsable d × (n ≤ d.room))
unfolding send_signal send_binary_byte write
conn_sends n b c h = (
  record c { sent = c.sent ++ (b ∷ []); room = c.room - 1 },
  ground arith,
  refl,
  (h.0, omega arith),
)

-- A TCP connection that is open and has room.
abbrev pub conn_reliable : Reliable send_signal
conn_reliable = record {
  log = λ c. c.sent;
  Ready = λ n c. IsUsable c × (n ≤ c.room);
  sends = conn_sends;
  fewer = λ n c h. (h.0, le_down h.1);
}

abbrev pub tcp_ends : ℕ → Bool
tcp_ends b = b == sg_closed

abbrev pub ws_ends : ℕ → Bool
ws_ends b = not (b == sg_hb)

tcp_follows : FollowsEnds {C = Conn} tcp_ends false tcp_on_message
unfolding tcp_on_message
tcp_follows b at s h = ground arith

udp_follows : FollowsEnds {C = Conn} tcp_ends false udp_on_message
unfolding udp_on_message
udp_follows b at s h = ground arith

tcpmux_follows : FollowsEnds {C = Conn} tcp_ends true tcpmux_on_message
unfolding tcpmux_on_message
tcpmux_follows b at s h = ground arith

ws_follows : {C : Type 0} → FollowsEnds {C = C} ws_ends false ws_on_message
unfolding ws_on_message
ws_follows b at s h = ground arith

-- A handler at its start: the loop and the reader run, and the connection takes `n` bytes.
abbrev pub IsStarting : ℕ → ServerControl Conn → Type 0
IsStarting n s =
    (s.stopped ≡ false) × (s.reader ≡ reader_runs) × IsUsable s.conn × (n ≤ s.conn.room)

-- The RTT signal that the handlers of tcp.go and udp.go send before their loop.
measured :
    (om : OnMessage Conn) (ends : ℕ → Bool) (es : List Event) (s : ServerControl Conn)
    → FollowsEnds ends false om
    → IsStarting (suc (length es)) s
    → (run send_signal om reader_failed es (emit send_signal sg_rtt s)).conn.sent
      ≡ s.conn.sent ++ (sg_rtt ∷ signals ends false reader_runs es)
measured om ends es s follows h =
    let (d, sent, l, r) = conn_sends (length es) sg_rtt s.conn (h.2, h.3) in
    let s' : ServerControl Conn = record s { conn = d } in
    let first : emit send_signal sg_rtt s ≡ s' = unfold emit in ap (emitted s) sent in
    ap (λ (t : ServerControl Conn). (run send_signal om reader_failed es t).conn.sent) first
    ∙ from_reading send_signal conn_reliable om ends false follows es s' reader_runs h.0 h.1 r
    ∙ ap (λ x. x ++ signals ends false reader_runs es) l
    ∙ append_assoc s.conn.sent (sg_rtt ∷ []) _

-- What the TCP server has written after any events, if the channel is open with room for one byte
-- per event and one more: the RTT signal, then a request signal for each request and a heartbeat
-- for each tick, in the order of the events, up to a close signal from the client or to the
-- cancellation, which is announced by a close signal.
pub tcp_server_handler-sent :
    (at : ℕ) (es : List Event) (s : ServerControl Conn)
    → IsStarting (suc (length es)) s
    → (tcp_server_handler at es s).conn.sent
      ≡ s.conn.sent ++ (sg_rtt ∷ signals tcp_ends false reader_runs es)
unfolding tcp_server_handler
tcp_server_handler-sent at es s h =
    measured tcp_on_message tcp_ends es (record s { rtt_sent_at = at }) tcp_follows h

-- The UDP server writes the same.
pub udp_server_handler-sent :
    (at : ℕ) (es : List Event) (s : ServerControl Conn)
    → IsStarting (suc (length es)) s
    → (udp_server_handler at es s).conn.sent
      ≡ s.conn.sent ++ (sg_rtt ∷ signals tcp_ends false reader_runs es)
unfolding udp_server_handler
udp_server_handler-sent at es s h =
    measured udp_on_message tcp_ends es (record s { rtt_sent_at = at }) udp_follows h

-- What the TCPMux server has written after any events, if the channel is open with room for one
-- byte per event: what the TCP server writes without the RTT signal. Its reader takes one byte
-- only: a close signal from the client ends the loop if it is that byte, and later ones have no
-- effect.
tcpmux_server_handler-sent :
    (es : List Event) (s : ServerControl Conn)
    → IsStarting (length es) s
    → (tcpmux_server_handler es s).conn.sent ≡ s.conn.sent ++ signals tcp_ends true reader_runs es
unfolding tcpmux_server_handler
tcpmux_server_handler-sent es s h =
    from_reading send_signal conn_reliable tcpmux_on_message tcp_ends true tcpmux_follows es s
      reader_runs h.0 h.1 (h.2, h.3)

-- Over a websocket that takes a message for each event, the server writes the same signals as over
-- TCP, without the RTT signal, but any message other than a heartbeat ends the loop.
ws_server_handler-log :
    {C : Type 0} (write_message : Sender C) (rel : Reliable write_message) (es : List Event)
    (s : ServerControl C)
    → s.stopped ≡ false
    → s.reader ≡ reader_runs
    → rel.Ready (length es) s.conn
    → rel.log (ws_server_handler write_message es s).conn
      ≡ rel.log s.conn ++ signals ws_ends false reader_runs es
unfolding ws_server_handler
ws_server_handler-log write_message rel es s h k r =
    from_reading write_message rel ws_on_message ws_ends false ws_follows es s reader_runs h k r
