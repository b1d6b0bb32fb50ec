-- ===== src/Tunnel/Delivery.antt =====
-- The server's entry of `ports`, the address that it sends over the tunnel connection of a UDP client,
-- and the TCP client that hands this to `UDPDialer`: Ports, Udp, Wire and Tunnel together.
use ttest.Prelude.{
  ℕ, ◌+◌, ◌≤◌, ◌<◌, ◌≡◌, refl, ◌∙◌, [], ◌∷◌, ◌++◌, Option, some, Bytes, codes, length, arith, leb,
  ◌&&◌, if_true,
}
use ttest.Prelude.Int.{ℤ, pos}
use ttest.GoText.Decimal.{itoa, length-itoa}
use ttest.Wire.Conn.{Conn, conn_after}
use ttest.Wire.Signals.{sg_udp}
use ttest.Udp.Listener.{send_target}
use ttest.Wire.Binary.{receive_binary_transport_string}
use ttest.Wire.RoundTrip.{IsUsable, receive-send}
use ttest.Ports.Parse.{Listen, ok, parse_mapping, colon_port}
use ttest.Ports.Single.{parse_mapping-port}
use ttest.Pool.Maintainer.{dialed, claimed}
use ttest.Tunnel.Dialers.{tcp_dialer, dial_loop, resolve_remote_addr}
use ttest.Tunnel.Address.{resolve-itoa}
use ttest.Tunnel.Client.{udp_served, tcp_tunnel_dialer, on_address}

module _ {L : Type 0} (local : Bytes → ℕ → Option L) (s r : Conn) (rest : Bytes) where
  -- The client's connection once the server's `handleUDPLoop` has sent `addr`.
  abbrev pub with_address : Bytes → Conn
  with_address addr = record r { inbox = (conn_after (send_target addr s)).sent ++ rest }

  tcp_tunnel-Conn :
      (c : Conn)
      → tcp_tunnel_dialer local (λ _. some c) ≡ record {
        end = on_address local (receive_binary_transport_string c);
        counted = dialed ∷ claimed ∷ [];
      }
  unfolding tcp_tunnel_dialer tcp_dialer dial_loop
  tcp_tunnel-Conn c = refl

  dial_sent :
      (sent addr : Bytes) (port : ℤ)
      → IsUsable s
      → IsUsable r
      → s.sent ≡ []
      → length sent + 3 ≤ s.room
      → length sent < 65536
      → resolve_remote_addr sent ≡ some (port, addr)
      → tcp_tunnel_dialer local (λ _. some (with_address sent)) ≡ record {
        end = udp_served (record r { inbox = rest }) addr port;
        counted = dialed ∷ claimed ∷ [];
      }
  unfolding send_target
  dial_sent sent addr port us ur e h b a =
      rw (tcp_tunnel-Conn (with_address sent), receive-send sent rest sg_udp s r us ur h e b, a)
        refl

  -- An entry of `ports` that is one port of 1 to 65535 is accepted, and for each listener that it starts,
  -- the address that the listener's UDP clients are announced with makes the TCP client give the tunnel
  -- connection to `UDPDialer` for that port of its own machine: the traffic is counted under that port, the
  -- bytes that follow the address are left for the copy, and the pool counts the tunnel connection in and
  -- out. Both ends of the tunnel connection are open, and it takes the address.
  pub tunnel_dialer-entry :
      (port : ℕ)
      → IsUsable s
      → IsUsable r
      → s.sent ≡ []
      → 1 ≤ port
      → port ≤ 65535
      → length (itoa port) + 3 ≤ s.room
      → (listener : Listen) × (parse_mapping (itoa port) ≡ ok (listener ∷ []))
        × (listener.local_addr ≡ colon_port port)
        × (tcp_tunnel_dialer local (λ _. some (with_address listener.remote_addr)) ≡ record {
          end = udp_served (record r { inbox = rest }) (codes "127.0.0.1:" ++ itoa port) (pos port);
          counted = dialed ∷ claimed ∷ [];
        })
  tunnel_dialer-entry port us ur e low high h = (
    record { local_addr = colon_port port; remote_addr = itoa port },
    parse_mapping-port port (omega arith)
        ∙ if_true {b = leb 1 port && leb port 65535} _ _ (ground arith),
    refl,
    dial_sent (itoa port) (codes "127.0.0.1:" ++ itoa port) (pos port) us ur e h
        (omega (arith, length-itoa port)) (resolve-itoa port (omega arith)),
  )
