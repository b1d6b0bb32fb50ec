-- ===== src/Tunnel/Balance.antt =====
-- The counter `poolConnections` over the life of a tunnel connection of the client.
use ttest.Prelude.{
  ℕ, ◌+◌, ◌%◌, ◌^◌, ◌<◌, ◌≡◌, refl, ap, ◌-◌, Bool, true, false, List, [], ◌∷◌, Option, none, some,
  arith, Bytes,
}
use ttest.Pool.Maintainer.{PoolEvent, dialed, claimed, Factors, Pool, pool_step, pool_run}
use ttest.Wire.Conn.{Conn}
use ttest.Tunnel.Client.{tcp_tunnel_dialer, tcp_dialed}
use ttest.Tunnel.Streams.{
  SessionEvent, stream_accepted, accept_failed, session_cancelled, session_loop, session_dialed,
  tcpmux_tunnel_dialer, wsmux_tunnel_dialer,
}
use ttest.Udp.Frames.{UdpConn}
use ttest.Tunnel.Udp.{
  UdpRead, received, timed_out, read_failed, UdpDialing, await_address, handle_tunnel_conn,
  tunnel_socket, tunnel_resolved, udp_tunnel_dialer,
}

back_again : (n : ℕ) → n < 2 ^ 32 → ((n + 1) % 2 ^ 32 + (2 ^ 32 - 1)) % 2 ^ 32 ≡ n
back_again n h = omega arith

module _ {C : Type 0} (f : Factors) (p : Pool C) (bits : p.pool_connections < 2 ^ 32) where
  -- The changes leave the pool of the client as it was.
  abbrev IsBalanced : List PoolEvent → Type 0
  IsBalanced es = pool_run f es p ≡ p

  nothing-IsBalanced : IsBalanced []
  unfolding pool_run
  nothing-IsBalanced = refl

  both-IsBalanced : IsBalanced (dialed ∷ claimed ∷ [])
  unfolding pool_run pool_step
  both-IsBalanced = ap (λ n. record p { pool_connections = n }) (back_again p.pool_connections bits)

  module _ {L : Type 0} (local : Bytes → ℕ → Option L) where
    tcp_dialed-IsBalanced : (o : Option Conn) → IsBalanced (tcp_dialed local o).counted
    tcp_dialed-IsBalanced none = nothing-IsBalanced
    tcp_dialed-IsBalanced (some c) = both-IsBalanced

    session_loop-IsBalanced :
        (es : List SessionEvent)
        → (session_loop local es).returned ≡ true
        → IsBalanced (session_loop local es).counted
    unfolding session_loop
    session_loop-IsBalanced [] h = cc
    session_loop-IsBalanced (accept_failed ∷ es) h = both-IsBalanced
    session_loop-IsBalanced (session_cancelled ∷ es) h = both-IsBalanced
    session_loop-IsBalanced (stream_accepted c ∷ es) h = session_loop-IsBalanced es h

    session_dialed-IsBalanced :
        {T : Type 0} (mux : Bool) (es : List SessionEvent) (o : Option T)
        → (session_dialed local mux es o).returned ≡ true
        → IsBalanced (session_dialed local mux es o).counted
    session_dialed-IsBalanced mux es none h = nothing-IsBalanced
    session_dialed-IsBalanced true es (some t) h = session_loop-IsBalanced es h
    session_dialed-IsBalanced false es (some t) h = both-IsBalanced

    await_address-IsBalanced :
        {A : Type 0} (resolve : Bytes → Option A) (dial : A → Option UdpConn) (reads : List UdpRead)
        (d : UdpDialing)
        → await_address resolve dial reads ≡ some d
        → IsBalanced d.counted
    unfolding await_address
    await_address-IsBalanced resolve dial [] d h = cc
    await_address-IsBalanced resolve dial (timed_out ∷ rs) d h = ground (arith, both-IsBalanced)
    await_address-IsBalanced resolve dial (read_failed ∷ rs) d h = ground (arith, both-IsBalanced)
    await_address-IsBalanced resolve dial (received m ∷ rs) d h =
        ground (arith, both-IsBalanced, await_address-IsBalanced resolve dial rs d)

    handle_tunnel_conn-IsBalanced :
        {A : Type 0} (resolve : Bytes → Option A) (dial : A → Option UdpConn) (sent : Bool)
        (reads : List UdpRead) (d : UdpDialing)
        → handle_tunnel_conn resolve dial sent reads ≡ some d
        → IsBalanced d.counted
    unfolding handle_tunnel_conn
    handle_tunnel_conn-IsBalanced resolve dial true reads d h =
        await_address-IsBalanced resolve dial reads d h
    handle_tunnel_conn-IsBalanced resolve dial false reads d h = ground (arith, nothing-IsBalanced)

    tunnel_socket-IsBalanced :
        {A : Type 0} (resolve : Bytes → Option A) (dial : A → Option UdpConn) (sent : Bool)
        (reads : List UdpRead) (o : Option UdpConn) (d : UdpDialing)
        → tunnel_socket resolve dial sent reads o ≡ some d
        → IsBalanced d.counted
    tunnel_socket-IsBalanced resolve dial sent reads none d h = ground (arith, nothing-IsBalanced)
    tunnel_socket-IsBalanced resolve dial sent reads (some u) d h =
        handle_tunnel_conn-IsBalanced resolve dial sent reads d h

    tunnel_resolved-IsBalanced :
        {A : Type 0} (resolve : Bytes → Option A) (dial : A → Option UdpConn) (sent : Bool)
        (reads : List UdpRead) (o : Option A) (d : UdpDialing)
        → tunnel_resolved resolve dial sent reads o ≡ some d
        → IsBalanced d.counted
    tunnel_resolved-IsBalanced resolve dial sent reads none d h = ground (arith, nothing-IsBalanced)
    tunnel_resolved-IsBalanced resolve dial sent reads (some a) d h =
        tunnel_socket-IsBalanced resolve dial sent reads (dial a) d h

    -- A goroutine `tunnelDialer` of the transports TCP, TCPMux, WSMux and UDP leaves the counter
    -- `poolConnections` as it was once the handling of its tunnel connection has returned or has come to
    -- the copy of data, whether or not the tunnel's address resolves, the dial succeeds, the server
    -- sends an address, the address is one and the service answers. The counter is any number of 32 bits,
    -- so the statement holds through the wrap-around.
    pub tunnel_dialers-balanced :
        {T A : Type 0} (tcp_tunnel : ℕ → Option Conn) (mux_tunnel : ℕ → Option T) (mux : Bool)
        (es : List SessionEvent) (resolve : Bytes → Option A) (dial : A → Option UdpConn)
        (remote_addr : Bytes) (token_sent : Bool) (reads : List UdpRead) (d : UdpDialing)
        → (tcpmux_tunnel_dialer local mux_tunnel mux es).returned ≡ true
        → (wsmux_tunnel_dialer local mux_tunnel mux es).returned ≡ true
        → udp_tunnel_dialer resolve dial remote_addr token_sent reads ≡ some d
        → (pool_run f (tcp_tunnel_dialer local tcp_tunnel).counted p ≡ p)
          × (pool_run f (tcpmux_tunnel_dialer local mux_tunnel mux es).counted p ≡ p)
          × (pool_run f (wsmux_tunnel_dialer local mux_tunnel mux es).counted p ≡ p)
          × (pool_run f d.counted p ≡ p)
    unfolding tcp_tunnel_dialer tcpmux_tunnel_dialer wsmux_tunnel_dialer udp_tunnel_dialer
    tunnel_dialers-balanced tcp_tunnel mux_tunnel mux es resolve dial remote_addr sent reads d h k
          u =
        (
          tcp_dialed-IsBalanced _,
          session_dialed-IsBalanced mux es _ h,
          session_dialed-IsBalanced mux es _ k,
          tunnel_resolved-IsBalanced resolve dial sent reads (resolve remote_addr) d u,
        )
