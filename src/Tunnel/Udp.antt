-- ===== src/Tunnel/Udp.antt =====
-- `tunnelDialer`, `handleTunnelConn`, `localDialer` and `udpCopy` of internal/client/transport/udp.go.
-- What `DialUDP` and `ResolveUDPAddr` give are arguments; a socket writes a whole datagram or reports an
-- error. When the context is cancelled, `tunnelDialer` closes the tunnel's socket: the read under way fails.
use ttest.Prelude.{
  ℕ, ◌*◌, Bool, true, false, List, [], ◌∷◌, ◌++◌, Option, none, some, if◌then◌else◌, length, take,
  Bytes, text_eq,
}
use ttest.Prelude.Int.{ℤ}
use ttest.Wire.Signals.{sg_ping}
use ttest.Pool.Maintainer.{PoolEvent, dialed, claimed}
use ttest.Udp.Frames.{UdpConn, forward}
use ttest.Tunnel.Dialers.{resolve_remote_addr}

-- What `ReadFromUDP` gives.
pub data UdpRead : Type 0 where
  received : Bytes → UdpRead
  timed_out read_failed : UdpRead

-- One direction of the copy: the socket written to.
pub record UdpCopy : Type 0 where
  pub dst : UdpConn
  pub reported : List (ℤ × ℕ)  -- the calls of `AddOrUpdatePort`
  pub returned : Bool

abbrev pub copy_buffer : ℕ
copy_buffer = 16 * 1024

abbrev pub after_copy : Bool → ℤ → ℕ → Bool × UdpConn → (UdpCopy → UdpCopy) → UdpCopy → UdpCopy
after_copy sniffer port n (true, u) next s = next (record s {
  dst = u;
  reported = if sniffer then s.reported ++ ((port, n) ∷ []) else s.reported;
})
after_copy sniffer port n (false, u) next s = record s { dst = u; returned = true }

-- The copy waits for more while the list is empty.
unfoldable pub udp_copy : Bool → ℤ → List UdpRead → UdpCopy → UdpCopy
udp_copy sniffer port [] s = s
udp_copy sniffer port (timed_out ∷ _) s = record s { returned = true }
udp_copy sniffer port (read_failed ∷ _) s = record s { returned = true }
udp_copy sniffer port (received buf ∷ rs) s =
    let buf' = take copy_buffer buf in
    after_copy sniffer port (length buf') (forward buf' s.dst) (udp_copy sniffer port rs) s

abbrev pub address_buffer : ℕ
address_buffer = 47

pub data UdpServed : Type 0 where
  no_tunnel token_unsent no_answer unresolved unknown_host : UdpServed
  copying : UdpConn → ℤ → UdpServed  -- both copies run, with the socket of the service
  nil_socket : ℤ → UdpServed  -- the function goes on without a socket of the service

pub record UdpDialing : Type 0 where
  pub end : UdpServed
  pub counted : List PoolEvent

-- `localDialer` goes on after a failed `DialUDP`; what it then does is not followed.
module _ {A : Type 0} (resolve_udp_addr : Bytes → Option A) (dial_udp : A → Option UdpConn) where
  abbrev pub with_socket : ℤ → Option UdpConn → UdpServed
  with_socket port none = nil_socket port
  with_socket port (some u) = copying u port

  abbrev pub udp_dial_host : ℤ → Option A → UdpServed
  udp_dial_host port none = unknown_host
  udp_dial_host port (some a) = with_socket port (dial_udp a)

  abbrev pub udp_local_dialer : Option (ℤ × Bytes) → UdpServed
  udp_local_dialer none = unresolved
  udp_local_dialer (some (port, addr)) = udp_dial_host port (resolve_udp_addr addr)

  abbrev pub answered : UdpServed → Option UdpDialing
  answered e = some (record { end = e; counted = dialed ∷ claimed ∷ [] })

  -- The connection waits for more while the list is empty.
  unfoldable pub await_address : List UdpRead → Option UdpDialing
  await_address [] = none
  await_address (timed_out ∷ _) = answered no_answer
  await_address (read_failed ∷ _) = answered no_answer
  await_address (received m ∷ rs) =
      let rest = await_address rs in
      if text_eq (take address_buffer m) (sg_ping ∷ [])
      then rest
      else answered (udp_local_dialer (resolve_remote_addr (take address_buffer m)))

  -- Whether the token was written is an argument.
  unfoldable pub handle_tunnel_conn : Bool → List UdpRead → Option UdpDialing
  handle_tunnel_conn false reads = some (record { end = token_unsent; counted = [] })
  handle_tunnel_conn true reads = await_address reads

  abbrev pub tunnel_socket : Bool → List UdpRead → Option UdpConn → Option UdpDialing
  tunnel_socket sent reads none = some (record { end = no_tunnel; counted = [] })
  tunnel_socket sent reads (some u) = handle_tunnel_conn sent reads

  abbrev pub tunnel_resolved : Bool → List UdpRead → Option A → Option UdpDialing
  tunnel_resolved sent reads none = some (record { end = no_tunnel; counted = [] })
  tunnel_resolved sent reads (some a) = tunnel_socket sent reads (dial_udp a)

  unfoldable pub udp_tunnel_dialer : Bytes → Bool → List UdpRead → Option UdpDialing
  udp_tunnel_dialer remote_addr sent reads =
      tunnel_resolved sent reads (resolve_udp_addr remote_addr)
