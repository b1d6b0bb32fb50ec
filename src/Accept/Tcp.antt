-- ===== src/Accept/Tcp.antt =====
-- `acceptLocalConn`, `handleLoop` and `handleConnection` of internal/server/transport/tcp.go, with
-- `acceptTunnelConn`: the channels of the TCP server and what is taken from them.
use ttest.Prelude.{ℕ, ◌+◌, ◌-◌, Bool, List, [], ◌∷◌, ◌++◌, some, ltb, if◌then◌else◌, length, Bytes}
use ttest.Wire.Conn.{Conn, Outcome, done, fail, write, close}
use ttest.Mux.Sessions.{LocalConn}
use ttest.Accept.Tunnels.{Arrival, Tunnels, accept_tunnel}

pub record TcpServer : Type 0 where
  pub tunnels : Tunnels
  pub local_channel : List LocalConn
  pub refused : List LocalConn  -- closed on arrival
  pub requests : ℕ  -- the signals in `reqNewConnChan`
  pub next_id : ℕ
  pub handled : List Conn  -- tunnel connections after handleConnection

pub data TcpEvent : Type 0 where
  tunnel_arrived : Arrival → TcpEvent
  local_arrived : Bytes → ℕ → Bool → TcpEvent  -- the listener's address, the time, whether it is TCP
  tunnel_taken : List Bytes → TcpEvent  -- <-s.tunnelChannel, and what its reads will give
  request_taken : TcpEvent
  control_set : Bytes → TcpEvent  -- the control channel is established

abbrev pub written_back : (Conn → Conn) → Outcome (Unit {0}) → Conn
written_back next (done _ c) = next c
written_back next (fail e c) = close c

-- Each read of at most 4096 bytes is written back, until a read or a write fails.
unfoldable pub handle_connection : List Bytes → Conn → Conn
handle_connection [] c = close c
handle_connection (buf ∷ bufs) c = written_back (handle_connection bufs) (write buf c)

abbrev pub add_request : ℕ → TcpServer → TcpServer
add_request channel_size s = record s {
  requests = if ltb s.requests channel_size then s.requests + 1 else s.requests;
}

abbrev pub accept_tcp_local : ℕ → LocalConn → Bool → TcpServer → TcpServer
accept_tcp_local channel_size c is_tcp s =
    if is_tcp
    then (if ltb (length s.local_channel) channel_size
        then add_request channel_size (record s { local_channel = s.local_channel ++ (c ∷ []) })
        else record s { refused = c ∷ s.refused })
    else record s { refused = c ∷ s.refused }

abbrev pub take_tunnel : List Bytes → List Conn → TcpServer → TcpServer
take_tunnel bufs [] s = s
take_tunnel bufs (c ∷ cs) s = record s {
  tunnels = record s.tunnels { tunnel_channel = cs };
  handled = handle_connection bufs c ∷ s.handled;
}

module _ (channel_size : ℕ) where
  unfoldable pub tcp_step : TcpEvent → TcpServer → TcpServer
  tcp_step (tunnel_arrived a) s = record s { tunnels = accept_tunnel channel_size a s.tunnels }
  tcp_step (local_arrived addr now is_tcp) s =
      accept_tcp_local channel_size
        (record { id = s.next_id; remote_addr = addr; time_created = now }) is_tcp
        (record s { next_id = s.next_id + 1 })
  tcp_step (tunnel_taken bufs) s = take_tunnel bufs s.tunnels.tunnel_channel s
  tcp_step request_taken s = record s { requests = s.requests - 1 }
  tcp_step (control_set ip) s = record s { tunnels = record s.tunnels { control_ip = some ip } }

  unfoldable pub tcp_run : List TcpEvent → TcpServer → TcpServer
  tcp_run [] s = s
  tcp_run (e ∷ es) s = tcp_run es (tcp_step e s)
