-- ===== src/Accept/Tunnels.antt =====
-- `acceptTunnelConn` of internal/server/transport/{tcp,tcpmux}.go: which tunnel connections the server
-- takes. Socket options are left out.
use ttest.Prelude.{
  ℕ, Bool, true, List, [], ◌∷◌, ◌++◌, Option, none, some, ltb, if◌then◌else◌, length, Bytes,
  text_eq,
}
use ttest.Wire.Conn.{Conn}

-- What `Accept` gives: whether it is a `net.TCPConn`, and the address of the other side.
pub record Arrival : Type 0 where
  pub is_tcp : Bool
  pub ip : Bytes
  pub conn : Conn

pub record Tunnels : Type 0 where
  pub control_ip : Option Bytes  -- of the control channel, if there is one
  pub tunnel_channel : List Conn
  pub discarded : List Conn  -- closed

abbrev pub discard : Arrival → Tunnels → Tunnels
discard a t = record t { discarded = a.conn ∷ t.discarded }

-- The test with the address of the control channel.
abbrev pub is_expected : Option Bytes → Bytes → Bool
is_expected none ip = true
is_expected (some control) ip = text_eq control ip

abbrev pub offer_tunnel : ℕ → Arrival → Tunnels → Tunnels
offer_tunnel channel_size a t =
    if ltb (length t.tunnel_channel) channel_size
    then record t { tunnel_channel = t.tunnel_channel ++ (a.conn ∷ []) }
    else discard a t

-- tcp.go
unfoldable pub accept_tunnel : ℕ → Arrival → Tunnels → Tunnels
accept_tunnel channel_size a t =
    if a.is_tcp
    then (if is_expected t.control_ip a.ip then offer_tunnel channel_size a t else discard a t)
    else discard a t

-- tcpmux.go: without a control channel the connection is offered to `channelHandshake`, which takes it
-- if it waits for one. Otherwise it becomes a session, if `smux.Client` makes one.
pub record MuxTunnels : Type 0 where
  pub tunnels : Tunnels
  pub handshakes : List Conn  -- those given to the handshake

abbrev pub offer_handshake : Bool → Arrival → MuxTunnels → MuxTunnels
offer_handshake waits a m =
    if waits
    then record m { handshakes = a.conn ∷ m.handshakes }
    else record m { tunnels = discard a m.tunnels }

abbrev pub offer_session : ℕ → Bool → Arrival → MuxTunnels → MuxTunnels
offer_session channel_size makes_session a m =
    if makes_session
    then record m { tunnels = offer_tunnel channel_size a m.tunnels }
    else record m { tunnels = discard a m.tunnels }

abbrev pub by_control : ℕ → Bool → Bool → Arrival → Option Bytes → MuxTunnels → MuxTunnels
by_control channel_size waits makes_session a none m = offer_handshake waits a m
by_control channel_size waits makes_session a (some control) m =
    if text_eq control a.ip
    then offer_session channel_size makes_session a m
    else record m { tunnels = discard a m.tunnels }

unfoldable pub accept_mux_tunnel : ℕ → Bool → Bool → Arrival → MuxTunnels → MuxTunnels
accept_mux_tunnel channel_size waits makes_session a m =
    if a.is_tcp
    then by_control channel_size waits makes_session a m.tunnels.control_ip m
    else record m { tunnels = discard a m.tunnels }
