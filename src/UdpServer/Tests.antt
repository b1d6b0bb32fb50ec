-- ===== src/UdpServer/Tests.antt =====
-- A client, a tunnel connection, and a tunnel connection that comes too late.
use ttest.Prelude.{
  ◌≡◌, ◌<◌, ◌+◌, refl, true, List, [], ◌∷◌, none, some, Bytes, codes, text_eq, arith,
}
use ttest.UdpServer.Peers.{forgotten, no_peers}
use ttest.UdpServer.Server.{
  UdpServer, UdpServerEvent, tunnel_packet, local_packet, local_picked, tunnel_picked, local_copied,
  tunnel_copied, heartbeat, local_idle, tunnel_idle, copy_ended, udp_server_step, udp_server_run,
  udp_server_start,
}
use ttest.UdpServer.Stale.{udp_server_run-stale}

abbrev token : Bytes
token = codes "token"

abbrev remote : Bytes
remote = codes "53"

abbrev client : Bytes
client = codes "10.0.0.2:4000"

abbrev tunnel : Bytes
tunnel = codes "10.0.0.1:5000"

abbrev events : List UdpServerEvent
events =
    tunnel_packet tunnel token 10
    ∷ heartbeat 0 true
    ∷ local_packet client (1 ∷ 2 ∷ []) 20
    ∷ local_picked 30
    ∷ tunnel_picked true
    ∷ local_copied 0 true
    ∷ tunnel_packet tunnel (3 ∷ []) 40
    ∷ tunnel_copied 0 true
    ∷ local_idle 0
    ∷ tunnel_idle 0
    ∷ copy_ended 0
    ∷ []

-- The tunnel connection gets a ping, the address and the datagram.
events-written :
    ((udp_server_run 8 token remote events udp_server_start).tunnels.store 0).written
    ≡ (2 ∷ []) ∷ remote ∷ (1 ∷ 2 ∷ []) ∷ []
unfolding udp_server_run udp_server_step udp_server_start no_peers text_eq
events-written = refl

abbrev early : List UdpServerEvent
early = local_packet client (1 ∷ []) 100 ∷ []

early-holding : (udp_server_run 8 token remote early udp_server_start).holding ≡ none
unfolding udp_server_run udp_server_step udp_server_start no_peers
early-holding = refl

early-waiting : (udp_server_run 8 token remote early udp_server_start).locals.waiting ≡ 0 ∷ []
unfolding udp_server_run udp_server_step udp_server_start no_peers
early-waiting = refl

early-late :
    ((udp_server_run 8 token remote early udp_server_start).locals.store 0).time_created + 3000
    < 4000
unfolding udp_server_run udp_server_step udp_server_start no_peers
early-late = omega arith

abbrev stale_state : UdpServer
stale_state = udp_server_run 8 token remote early udp_server_start

abbrev later_state : UdpServer
later_state =
    udp_server_run 8 token remote events
      (udp_server_step 8 token remote (local_picked 4000) stale_state)

udp_server_run-stale_example :
    (later_state.locals.active (stale_state.locals.store 0).addr ≡ some 0)
    × ((later_state.locals.store 0).stage ≡ forgotten)
udp_server_run-stale_example =
    udp_server_run-stale 8 token remote early events 4000 0 [] early-holding early-waiting
      early-late
