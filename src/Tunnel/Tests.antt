-- ===== src/Tunnel/Tests.antt =====
-- A client with one service, whose host answers the third attempt.
use ttest.Prelude.{
  ℕ, ◌≡◌, refl, true, false, Option, none, some, [], ◌∷◌, ◌++◌, List, Bytes, codes, arith, inl,
  if◌then◌else◌, ltb,
}
use ttest.Prelude.Int.{pos}
use ttest.GoText.Decimal.{itoa, length-itoa}
use ttest.Wire.Conn.{Conn, net_conn, eof}
use ttest.Wire.RoundTrip.{IsUsable}
use ttest.Ports.Parse.{Listen, ok, parse_mapping, colon_port}
use ttest.Pool.Maintainer.{Pool, factors, dialed, claimed, pool_run}
use ttest.Udp.Frames.{UdpConn}
use ttest.Tunnel.Dialers.{tcp_dialer, dial_loop, web_socket_dialer}
use ttest.Tunnel.Backoff.{pauses_from, tcp_dialer-found}
use ttest.Tunnel.Client.{udp_served, tcp_tunnel_dialer}
use ttest.Tunnel.Streams.{
  SessionEvent, stream_accepted, accept_failed, tcpmux_tunnel_dialer, wsmux_tunnel_dialer,
  session_loop,
}
use ttest.Tunnel.Udp.{
  timed_out, UdpDialing, no_answer, handle_tunnel_conn, udp_tunnel_dialer, await_address,
}
use ttest.Tunnel.Balance.{tunnel_dialers-balanced}
use ttest.Tunnel.Delivery.{with_address, tunnel_dialer-entry}

abbrev third_try : ℕ → Option ℕ
third_try i = if ltb i 2 then none else some i

tcp_dialer-found_example :
    (tcp_dialer third_try 3 ≡ record { conn = some 2; sleeps = pauses_from 0 2 })
    × (web_socket_dialer third_try 3 ≡ tcp_dialer third_try 3)
tcp_dialer-found_example =
    tcp_dialer-found third_try 3 2 2 (inl (omega arith)) (λ j l. ground arith) refl

abbrev wire : Conn
wire = record { kind = net_conn; inbox = []; fault = eof; sent = []; room = 100; closed = false }

wire-IsUsable : IsUsable wire
wire-IsUsable = (λ e. cc, refl)

-- Every address has the service 7.
abbrev local : Bytes → ℕ → Option ℕ
local addr i = some 7

tunnel_dialer-entry_example :
    (listener : Listen) × (parse_mapping (itoa 80) ≡ ok (listener ∷ []))
    × (listener.local_addr ≡ colon_port 80)
    × (tcp_tunnel_dialer local
          (λ _. some (with_address local wire wire (1 ∷ []) listener.remote_addr))
        ≡ record {
          end =
              udp_served (record wire { inbox = 1 ∷ [] }) (codes "127.0.0.1:" ++ itoa 80) (pos 80);
          counted = dialed ∷ claimed ∷ [];
        })
tunnel_dialer-entry_example =
    tunnel_dialer-entry local wire wire (1 ∷ []) 80 wire-IsUsable wire-IsUsable refl (omega arith)
      (omega arith) (omega (arith, length-itoa 80))

abbrev pool : Pool ℕ
pool = record {
  control = record {
    conn = 0;
    restarts = 0;
    stopped = false;
    reading = true;
    load_connections = 0;
    control_flow = 0;
    dials = 0;
  };
  pool_connections = 5;
  conn_pool_size = 2;
  new_size = 5;
  sum = 0;
  blocked = false;
  ended = false;
}

abbrev streams : List SessionEvent
streams = stream_accepted wire ∷ accept_failed ∷ []

abbrev resolve : Bytes → Option ℕ
resolve addr = some 1

abbrev socket : ℕ → Option UdpConn
socket a = some (record { datagrams = []; left = 9 })

abbrev mux_tunnel : ℕ → Option ℕ
mux_tunnel i = some i

tcpmux_returned : (tcpmux_tunnel_dialer local mux_tunnel true streams).returned ≡ true
unfolding tcpmux_tunnel_dialer tcp_dialer dial_loop session_loop
tcpmux_returned = refl

wsmux_returned : (wsmux_tunnel_dialer local mux_tunnel true streams).returned ≡ true
unfolding wsmux_tunnel_dialer web_socket_dialer dial_loop session_loop
wsmux_returned = refl

abbrev no_reply : UdpDialing
no_reply = record { end = no_answer; counted = dialed ∷ claimed ∷ [] }

udp_no_reply :
    udp_tunnel_dialer resolve socket (codes "host:1") true (timed_out ∷ []) ≡ some no_reply
unfolding udp_tunnel_dialer handle_tunnel_conn await_address
udp_no_reply = refl

tunnel_dialers-balanced_example :
    (pool_run (factors false) (tcp_tunnel_dialer local (λ _. some wire)).counted pool ≡ pool)
    × (pool_run (factors false) (tcpmux_tunnel_dialer local mux_tunnel true streams).counted pool
        ≡ pool)
    × (pool_run (factors false) (wsmux_tunnel_dialer local mux_tunnel true streams).counted pool
        ≡ pool)
    × (pool_run (factors false) no_reply.counted pool ≡ pool)
tunnel_dialers-balanced_example =
    tunnel_dialers-balanced (factors false) pool (omega arith) local (λ _. some wire) mux_tunnel
      true streams resolve socket (codes "host:1") true (timed_out ∷ []) no_reply tcpmux_returned
      wsmux_returned udp_no_reply
