-- ===== src/UdpServer/Stale.antt =====
-- What becomes of a local client whose first datagram has waited too long.
use ttest.Prelude.{
  lt→ltb, ℕ, ◌+◌, ◌<◌, ◌≡◌, ◌≢◌, refl, sym, ap, subst, ◌∙◌, Bool, true, false, ◌&&◌, List, [], ◌∷◌,
  Option, none, some, ltb, Bytes, arith, if_true, if_either,
}
use ttest.UdpServer.Peers.{
  Stage, queued, held, copying, forgotten, finished, UdpPeer, Peers, finish_peer, change_peer,
}
use ttest.UdpServer.Server.{
  UdpServer, UdpServerEvent, tunnel_packet, local_packet, local_picked, tunnel_picked, local_copied,
  tunnel_copied, local_idle, tunnel_idle, copy_ended, heartbeat, request_taken, accept_local_packet,
  pick_local, pick_tunnel, copy_local, copy_tunnel, end_copy, udp_server_step, udp_server_run,
  udp_server_start,
}
use ttest.UdpServer.Invariant.{is_live, set_other, set_same}
use ttest.UdpServer.Linked.{SameStages, deliver-SameStages, open_peer-SameStages, IsLinked}
use ttest.UdpServer.Traffic.{took-Next, wrote-Next, idle_peer-Next}
use ttest.UdpServer.Matching.{head_queued}
use ttest.UdpServer.Steps.{step-IsLinked, run-IsLinked, start-IsLinked}

-- The connection has been let go of, under the address `key`.
abbrev pub IsForgotten : Bytes → ℕ → Peers → Type 0
IsForgotten key i p = ((p.store i).stage ≡ forgotten) × ((p.store i).addr ≡ key)

same-IsForgotten :
    (key : Bytes) (i : ℕ) (p q : Peers) → SameStages p q → IsForgotten key i p → IsForgotten key i q
same-IsForgotten key i p q s f = let (g, a) = s.kept i (ap is_live f.0) in (g ∙ f.0, a ∙ f.1)

-- A change of a connection at another stage.
other-IsForgotten :
    (key : Bytes) (i j : ℕ) (u : UdpPeer) (p : Peers)
    → (p.store j).stage ≢ forgotten
    → IsForgotten key i p
    → IsForgotten key i (change_peer j u p)
other-IsForgotten key i j u p n f =
    subst (λ v. (v.stage ≡ forgotten) × (v.addr ≡ key))
      (sym (set_other j i u p.store (λ r. n (ap (λ k. (p.store k).stage) (sym r) ∙ f.0)))) f

module _ (channel_size : ℕ) (token remote_addr : Bytes) (key : Bytes) (i : ℕ) where
  abbrev Gone : UdpServer → Type 0
  Gone s = IsForgotten key i s.locals

  accept_local_packet-Gone :
      (k buf : Bytes) (now : ℕ) (o : Option ℕ) (s : UdpServer)
      → IsLinked s
      → Gone s
      → Gone (accept_local_packet channel_size token remote_addr k buf now o s)
  accept_local_packet-Gone k buf now (some j) s l g =
      same-IsForgotten key i s.locals _ (deliver-SameStages j buf s.locals) g
  accept_local_packet-Gone k buf now none s l g =
      same-IsForgotten key i s.locals _
        (open_peer-SameStages channel_size k now (buf ∷ []) s.locals l.locals_sound) g

  pick_local-Gone :
      (now : ℕ) (h : Option ℕ) (w : List ℕ) (s : UdpServer)
      → s.locals.waiting ≡ w
      → IsLinked s
      → Gone s
      → Gone (pick_local channel_size token remote_addr now h w s)
  pick_local-Gone now (some j) w s e l g = g
  pick_local-Gone now none [] s e l g = g
  pick_local-Gone now none (j ∷ js) s e l g =
      let q = head_queued channel_size token remote_addr j js s.locals e l.locals_sound in
      let d : (s.locals.store j).stage ≢ forgotten = λ c. ground (arith, c, q) in
      if_either Gone (ltb ((s.locals.store j).time_created + 3000) now) _ _
        (λ late. other-IsForgotten key i j _ s.locals d g)
        (λ fresh. other-IsForgotten key i j _ s.locals d g)

  pick_tunnel-Gone :
      (ok : Bool) (h : Option ℕ) (w : List ℕ) (s : UdpServer)
      → s.holding ≡ h
      → IsLinked s
      → Gone s
      → Gone (pick_tunnel channel_size token remote_addr ok h w s)
  pick_tunnel-Gone ok none w s e l g = g
  pick_tunnel-Gone ok (some j) [] s e l g = g
  pick_tunnel-Gone false (some j) (m ∷ ms) s e l g = g
  pick_tunnel-Gone true (some j) (m ∷ ms) s e l g =
      other-IsForgotten key i j _ s.locals (λ c. ground (arith, c, l.holds j e)) g

  copy_local-Gone :
      (j : ℕ) (ok copied : Bool) (st : Stage) (s : UdpServer)
      → IsLinked s
      → Gone s
      → Gone (copy_local channel_size token remote_addr j ok copied st s)
  copy_local-Gone j ok true st s l g = g
  copy_local-Gone j ok false queued s l g = g
  copy_local-Gone j ok false held s l g = g
  copy_local-Gone j ok false forgotten s l g = g
  copy_local-Gone j ok false finished s l g = g
  copy_local-Gone j ok false (copying m) s l g =
      same-IsForgotten key i s.locals _
        ((took-Next channel_size token remote_addr j ok (s.locals.store j).payload s.locals
          l.locals_sound).1)
        g

  copy_tunnel-Gone :
      (j : ℕ) (ok copied : Bool) (st : Stage) (s : UdpServer)
      → IsLinked s
      → Gone s
      → Gone (copy_tunnel channel_size token remote_addr j ok copied st s)
  copy_tunnel-Gone j ok true st s l g = g
  copy_tunnel-Gone j ok false queued s l g = g
  copy_tunnel-Gone j ok false held s l g = g
  copy_tunnel-Gone j ok false forgotten s l g = g
  copy_tunnel-Gone j ok false finished s l g = g
  copy_tunnel-Gone j ok false (copying m) s l g =
      same-IsForgotten key i s.locals _
        ((wrote-Next channel_size token remote_addr m ok (s.tunnels.store j).payload s.locals
          l.locals_sound).1)
        g

  finish_peer-IsForgotten :
      (j m : ℕ) (p : Peers)
      → (p.store j).stage ≡ copying m
      → IsForgotten key i p
      → IsForgotten key i (finish_peer j p)
  finish_peer-IsForgotten j m p e f =
      if_either (IsForgotten key i) (p.store j).closed _ _ (λ closed. f)
        (λ open_. other-IsForgotten key i j _ p (λ c. ground (arith, c, e)) f)

  end_copy-Gone :
      (j : ℕ) (st : Stage) (s : UdpServer)
      → (s.locals.store j).stage ≡ st
      → Gone s
      → Gone (end_copy channel_size token remote_addr j st s)
  end_copy-Gone j queued s e g = g
  end_copy-Gone j held s e g = g
  end_copy-Gone j forgotten s e g = g
  end_copy-Gone j finished s e g = g
  end_copy-Gone j (copying m) s e g =
      if_either Gone ((s.locals.store j).copied && (s.tunnels.store m).copied) _ _
        (λ both. finish_peer-IsForgotten j m s.locals e g) (λ not_both. g)

  step-Gone :
      (e : UdpServerEvent) (s : UdpServer)
      → IsLinked s
      → Gone s
      → Gone (udp_server_step channel_size token remote_addr e s)
  unfolding udp_server_step
  step-Gone (tunnel_packet k buf now) s l g = g
  step-Gone (local_packet k buf now) s l g =
      accept_local_packet-Gone k buf now (s.locals.active k) s l g
  step-Gone (local_picked now) s l g = pick_local-Gone now s.holding s.locals.waiting s refl l g
  step-Gone (tunnel_picked ok) s l g = pick_tunnel-Gone ok s.holding s.tunnels.waiting s refl l g
  step-Gone (local_copied j ok) s l g =
      copy_local-Gone j ok (s.locals.store j).copied (s.locals.store j).stage s l g
  step-Gone (tunnel_copied j ok) s l g =
      copy_tunnel-Gone j ok (s.tunnels.store j).copied (s.tunnels.store j).stage s l g
  step-Gone (local_idle j) s l g =
      same-IsForgotten key i s.locals _
        ((idle_peer-Next channel_size token remote_addr j (s.locals.store j).stage s.locals
          l.locals_sound).1)
        g
  step-Gone (tunnel_idle j) s l g = g
  step-Gone (copy_ended j) s l g = end_copy-Gone j (s.locals.store j).stage s refl g
  step-Gone (heartbeat j ok) s l g = g
  step-Gone request_taken s l g = g

  run-Gone :
      (es : List UdpServerEvent) (s : UdpServer)
      → IsLinked s
      → Gone s
      → Gone (udp_server_run channel_size token remote_addr es s)
  unfolding udp_server_run
  run-Gone [] s l g = g
  run-Gone (e ∷ es) s l g =
      run-Gone es _ (step-IsLinked channel_size token remote_addr e s l) (step-Gone e s l g)

stale-IsForgotten :
    (channel_size now i : ℕ) (token remote_addr : Bytes) (is : List ℕ) (s : UdpServer)
    → (s.locals.store i).time_created + 3000 < now
    → let t = pick_local channel_size token remote_addr now none (i ∷ is) s in
      IsForgotten (s.locals.store i).addr i t.locals
stale-IsForgotten channel_size now i token remote_addr is s late =
    let u : UdpPeer = record (s.locals.store i) { stage = forgotten } in
    subst (λ (t : UdpServer). IsForgotten (s.locals.store i).addr i t.locals)
      (sym (if_true {b = ltb ((s.locals.store i).time_created + 3000) now} _ _ (lt→ltb _ _ late)))
      (subst (λ v. (v.stage ≡ forgotten) × (v.addr ≡ (s.locals.store i).addr))
        (sym (set_same i u s.locals.store)) (refl, refl))

-- A local client whose first datagram has waited more than 3 seconds for a tunnel connection when the loop
-- comes to it is let go of, but stays in the table of active connections: whatever happens afterwards, its
-- further datagrams are taken for that connection, for which no copy ever runs.
pub udp_server_run-stale :
    (channel_size : ℕ) (token remote_addr : Bytes) (before after : List UdpServerEvent) (now i : ℕ)
    (is : List ℕ)
    → (udp_server_run channel_size token remote_addr before udp_server_start).holding ≡ none
    → (udp_server_run channel_size token remote_addr before udp_server_start).locals.waiting
      ≡ i ∷ is
    → ((udp_server_run channel_size token remote_addr before udp_server_start).locals.store
          i).time_created
        + 3000
      < now
    → let s = udp_server_run channel_size token remote_addr before udp_server_start in
      let t =
        udp_server_run channel_size token remote_addr after
          (udp_server_step channel_size token remote_addr (local_picked now) s) in
      (t.locals.active (s.locals.store i).addr ≡ some i) × ((t.locals.store i).stage ≡ forgotten)
unfolding udp_server_step
udp_server_run-stale channel_size token remote_addr before after now i is none_held first late =
    let s = udp_server_run channel_size token remote_addr before udp_server_start in
    let l =
      run-IsLinked channel_size token remote_addr before udp_server_start
        (start-IsLinked channel_size token remote_addr) in
    let s' = udp_server_step channel_size token remote_addr (local_picked now) s in
    let key = (s.locals.store i).addr in
    let g' =
      subst
        (λ h.
          IsForgotten key i
            (pick_local channel_size token remote_addr now h s.locals.waiting s).locals)
        (sym none_held)
        (subst
          (λ w. IsForgotten key i (pick_local channel_size token remote_addr now none w s).locals)
          (sym first) (stale-IsForgotten channel_size now i token remote_addr is s late)) in
    let l' = step-IsLinked channel_size token remote_addr (local_picked now) s l in
    let g = run-Gone channel_size token remote_addr key i after s' l' g' in
    let k = run-IsLinked channel_size token remote_addr after s' l' in
    let q = k.locals_sound in
    let t = udp_server_run channel_size token remote_addr after s' in
    (ap t.locals.active (sym g.1) ∙ q.present i (ap is_live g.0), g.0)
