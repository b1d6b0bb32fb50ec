-- ===== src/UdpServer/Steps.antt =====
-- Every step of the UDP server keeps the invariant, so no payload channel is misused.
use ttest.Prelude.{ℕ, refl, List, [], ◌∷◌, Bytes}
use ttest.UdpServer.Peers.{no_peers}
use ttest.UdpServer.Server.{
  UdpServer, UdpServerEvent, tunnel_packet, local_packet, local_picked, tunnel_picked, local_copied,
  tunnel_copied, local_idle, tunnel_idle, copy_ended, heartbeat, request_taken, udp_server_step,
  udp_server_run, udp_server_start,
}
use ttest.UdpServer.Entries.{no_peers-IsSound}
use ttest.UdpServer.Linked.{same-SameStages, IsLinked, same-IsLinked}
use ttest.UdpServer.Traffic.{
  idle_peer-Next, ping_peer-Next, accept_tunnel_packet-Next, accept_local_packet-IsLinked,
  copy_local-IsLinked, copy_tunnel-IsLinked,
}
use ttest.UdpServer.Matching.{pick_local-IsLinked, pick_tunnel-IsLinked, end_copy-IsLinked}

module _ (channel_size : ℕ) (token remote_addr : Bytes) where
  pub step-IsLinked :
      (e : UdpServerEvent) (s : UdpServer)
      → IsLinked s
      → IsLinked (udp_server_step channel_size token remote_addr e s)
  unfolding udp_server_step
  step-IsLinked (tunnel_packet key buf now) s k =
      let (q, g) =
        accept_tunnel_packet-Next channel_size token remote_addr key buf now (s.tunnels.active key)
          s.tunnels refl k.tunnels_sound in
      same-IsLinked s _ k.locals_sound q (same-SameStages s.locals) g refl k
  step-IsLinked (local_packet key buf now) s k =
      accept_local_packet-IsLinked channel_size token remote_addr key buf now (s.locals.active key)
        s refl k
  step-IsLinked (local_picked now) s k =
      pick_local-IsLinked channel_size token remote_addr now s.holding s.locals.waiting s refl refl
        k
  step-IsLinked (tunnel_picked ok) s k =
      pick_tunnel-IsLinked channel_size token remote_addr ok s.holding s.tunnels.waiting s refl refl
        k
  step-IsLinked (local_copied i ok) s k =
      copy_local-IsLinked channel_size token remote_addr i ok (s.locals.store i).copied
        (s.locals.store i).stage s k
  step-IsLinked (tunnel_copied j ok) s k =
      copy_tunnel-IsLinked channel_size token remote_addr j ok (s.tunnels.store j).copied
        (s.tunnels.store j).stage s k
  step-IsLinked (local_idle i) s k =
      let (q, g) =
        idle_peer-Next channel_size token remote_addr i (s.locals.store i).stage s.locals
          k.locals_sound in
      same-IsLinked s _ q k.tunnels_sound g (same-SameStages s.tunnels) refl k
  step-IsLinked (tunnel_idle j) s k =
      let (q, g) =
        idle_peer-Next channel_size token remote_addr j (s.tunnels.store j).stage s.tunnels
          k.tunnels_sound in
      same-IsLinked s _ k.locals_sound q (same-SameStages s.locals) g refl k
  step-IsLinked (copy_ended i) s k =
      end_copy-IsLinked channel_size token remote_addr i (s.locals.store i).stage s refl k
  step-IsLinked (heartbeat j ok) s k =
      let (q, g) =
        ping_peer-Next channel_size token remote_addr j ok (s.tunnels.store j).pinged s.tunnels
          k.tunnels_sound in
      same-IsLinked s _ k.locals_sound q (same-SameStages s.locals) g refl k
  step-IsLinked request_taken s k =
      same-IsLinked s _ k.locals_sound k.tunnels_sound (same-SameStages s.locals)
        (same-SameStages s.tunnels) refl k

  pub run-IsLinked :
      (es : List UdpServerEvent) (s : UdpServer)
      → IsLinked s
      → IsLinked (udp_server_run channel_size token remote_addr es s)
  unfolding udp_server_run
  run-IsLinked [] s k = k
  run-IsLinked (e ∷ es) s k = run-IsLinked es _ (step-IsLinked e s k)

  pub start-IsLinked : IsLinked udp_server_start
  unfolding udp_server_start no_peers
  start-IsLinked = record {
    locals_sound = unfold no_peers in no_peers-IsSound;
    tunnels_sound = unfold no_peers in no_peers-IsSound;
    linked = λ i j c. cc;
    holds = λ i c. cc;
  }
