-- ===== src/UdpServer/Traffic.antt =====
-- The steps that begin and end no copy: arrivals, forwarded datagrams, silence and pings.
use ttest.Prelude.{
  ℕ, ◌≡◌, refl, Bool, true, false, List, [], ◌∷◌, Option, none, some, Bytes, text_eq, if_either,
}
use ttest.UdpServer.Peers.{
  Stage, queued, held, copying, forgotten, finished, UdpPeer, Peers, deliver, change_peer,
}
use ttest.UdpServer.Server.{
  UdpServer, accept_tunnel_packet, accept_local_packet, took, wrote, copy_local, copy_tunnel,
  idle_peer, ping_peer,
}
use ttest.UdpServer.Invariant.{IsSound, touch-IsSound, deliver-IsSound}
use ttest.UdpServer.Entries.{open_peer-IsSound}
use ttest.UdpServer.Linked.{
  SameStages, same-SameStages, touch-SameStages, deliver-SameStages, open_peer-SameStages, IsLinked,
  same-IsLinked,
}

-- Sound, and with the same stages.
abbrev pub Next : Peers → Peers → Type 0
Next p q = IsSound q × SameStages p q

pub touch-Next :
    (i : ℕ) (u : UdpPeer) (p : Peers)
    → u.addr ≡ (p.store i).addr
    → u.closed ≡ (p.store i).closed
    → u.stage ≡ (p.store i).stage
    → IsSound p
    → Next p (change_peer i u p)
touch-Next i u p a c g s = (touch-IsSound i u p a c g s, touch-SameStages i u p g a)

pub deliver-Next :
    (key : Bytes) (i : ℕ) (buf : Bytes) (p : Peers)
    → p.active key ≡ some i
    → IsSound p
    → Next p (deliver i buf p)
deliver-Next key i buf p e s =
    let f = s.known key i e in (deliver-IsSound i buf p f.1 s, deliver-SameStages i buf p)

module _ (channel_size : ℕ) (token remote_addr : Bytes) where
  pub took-Next :
      (i : ℕ) (ok : Bool) (ds : List Bytes) (p : Peers)
      → IsSound p
      → Next p (took channel_size token remote_addr i ok ds p)
  took-Next i ok [] p s = (s, same-SameStages p)
  took-Next i ok ([] ∷ ds) p s = touch-Next i _ p refl refl refl s
  took-Next i ok ((b ∷ bs) ∷ ds) p s = touch-Next i _ p refl refl refl s

  pub wrote-Next :
      (i : ℕ) (ok : Bool) (ds : List Bytes) (p : Peers)
      → IsSound p
      → Next p (wrote channel_size token remote_addr i ok ds p)
  wrote-Next i ok [] p s = (s, same-SameStages p)
  wrote-Next i ok ([] ∷ ds) p s = (s, same-SameStages p)
  wrote-Next i false ((b ∷ bs) ∷ ds) p s = (s, same-SameStages p)
  wrote-Next i true ((b ∷ bs) ∷ ds) p s = touch-Next i _ p refl refl refl s

  pub idle_peer-Next :
      (i : ℕ) (g : Stage) (p : Peers)
      → IsSound p
      → Next p (idle_peer channel_size token remote_addr i g p)
  idle_peer-Next i queued p s = (s, same-SameStages p)
  idle_peer-Next i held p s = (s, same-SameStages p)
  idle_peer-Next i forgotten p s = (s, same-SameStages p)
  idle_peer-Next i finished p s = (s, same-SameStages p)
  idle_peer-Next i (copying j) p s = touch-Next i _ p refl refl refl s

  pub ping_peer-Next :
      (j : ℕ) (ok pinged : Bool) (p : Peers)
      → IsSound p
      → Next p (ping_peer channel_size token remote_addr j ok pinged p)
  ping_peer-Next j ok false p s = (s, same-SameStages p)
  ping_peer-Next j false true p s = touch-Next j _ p refl refl refl s
  ping_peer-Next j true true p s = touch-Next j _ p refl refl refl s

  pub accept_tunnel_packet-Next :
      (key buf : Bytes) (now : ℕ) (o : Option ℕ) (p : Peers)
      → p.active key ≡ o
      → IsSound p
      → Next p (accept_tunnel_packet channel_size token remote_addr key buf now o p)
  accept_tunnel_packet-Next key buf now (some i) p e s = deliver-Next key i buf p e s
  accept_tunnel_packet-Next key buf now none p e s =
      if_either (Next p) (text_eq buf token) _ _
        (λ y. (
          open_peer-IsSound channel_size key now [] p e s,
          open_peer-SameStages channel_size key now [] p s,
        ))
        (λ n. (s, same-SameStages p))

  pub accept_local_packet-IsLinked :
      (key buf : Bytes) (now : ℕ) (o : Option ℕ) (s : UdpServer)
      → s.locals.active key ≡ o
      → IsLinked s
      → IsLinked (accept_local_packet channel_size token remote_addr key buf now o s)
  accept_local_packet-IsLinked key buf now (some i) s e k =
      let (q, same) = deliver-Next key i buf s.locals e k.locals_sound in
      same-IsLinked s _ q k.tunnels_sound same (same-SameStages s.tunnels) refl k
  accept_local_packet-IsLinked key buf now none s e k =
      same-IsLinked s _
        (open_peer-IsSound channel_size key now (buf ∷ []) s.locals e k.locals_sound)
        k.tunnels_sound
        (open_peer-SameStages channel_size key now (buf ∷ []) s.locals k.locals_sound)
        (same-SameStages s.tunnels) refl k

  pub copy_local-IsLinked :
      (i : ℕ) (ok copied : Bool) (g : Stage) (s : UdpServer)
      → IsLinked s
      → IsLinked (copy_local channel_size token remote_addr i ok copied g s)
  copy_local-IsLinked i ok true g s k = k
  copy_local-IsLinked i ok false queued s k = k
  copy_local-IsLinked i ok false held s k = k
  copy_local-IsLinked i ok false forgotten s k = k
  copy_local-IsLinked i ok false finished s k = k
  copy_local-IsLinked i ok false (copying j) s k =
      let (a, b) = took-Next i ok (s.locals.store i).payload s.locals k.locals_sound in
      let (c, d) = wrote-Next j ok (s.locals.store i).payload s.tunnels k.tunnels_sound in
      same-IsLinked s _ a c b d refl k

  pub copy_tunnel-IsLinked :
      (j : ℕ) (ok copied : Bool) (g : Stage) (s : UdpServer)
      → IsLinked s
      → IsLinked (copy_tunnel channel_size token remote_addr j ok copied g s)
  copy_tunnel-IsLinked j ok true g s k = k
  copy_tunnel-IsLinked j ok false queued s k = k
  copy_tunnel-IsLinked j ok false held s k = k
  copy_tunnel-IsLinked j ok false forgotten s k = k
  copy_tunnel-IsLinked j ok false finished s k = k
  copy_tunnel-IsLinked j ok false (copying i) s k =
      let (c, d) = took-Next j ok (s.tunnels.store j).payload s.tunnels k.tunnels_sound in
      let (a, b) = wrote-Next i ok (s.tunnels.store j).payload s.locals k.locals_sound in
      same-IsLinked s _ a c b d refl k
