-- ===== src/UdpServer/Matching.antt =====
-- The steps of `handleLoop` and the end of `udpCopy`.
use ttest.Prelude.{
  ℕ, ◌+◌, ◌<◌, ◌≡◌, refl, sym, ap, subst, ◌∙◌, Bool, true, false, ◌&&◌, List, [], ◌∷◌, ◌++◌, Option,
  none, some, ltb, Bytes, arith, All, if_false, if_either,
}
use mathlib.Core.Option.{some-injective, none-ne-some}
use ttest.UdpServer.Peers.{
  Stage, queued, held, copying, forgotten, finished, UdpPeer, Peers, set_peer, delete, finish_peer,
}
use ttest.UdpServer.Server.{UdpServer, pick_local, pick_tunnel, end_copy}
use ttest.UdpServer.Invariant.{
  is_live, IsSound, set_either, set_other, set_same, restage-IsSound, take-IsSound,
}
use ttest.UdpServer.Entries.{finish_peer-IsSound}
use ttest.UdpServer.Linked.{IsLinked}

module _ (channel_size : ℕ) (token remote_addr : Bytes) where
  -- A local connection leaves its channel, to be held or forgotten.
  pub pick_local-IsLinked :
      (now : ℕ) (h : Option ℕ) (w : List ℕ) (s : UdpServer)
      → s.holding ≡ h
      → s.locals.waiting ≡ w
      → IsLinked s
      → IsLinked (pick_local channel_size token remote_addr now h w s)
  pick_local-IsLinked now (some i) w s e f k = k
  pick_local-IsLinked now none [] s e f k = k
  pick_local-IsLinked now none (i ∷ is) s e f k =
      if_either IsLinked (ltb ((s.locals.store i).time_created + 3000) now) _ _
        (λ late. record {
          locals_sound = take-IsSound i is _ s.locals f refl refl refl k.locals_sound;
          tunnels_sound = k.tunnels_sound;
          linked = λ m j.
              set_either (λ n v. v.stage ≡ copying j → (s.tunnels.store j).stage ≡ copying n) i m _
                s.locals.store (λ r c. absurd (ground (arith, c))) (λ d. k.linked m j);
          holds = λ m c. absurd (none-ne-some m (sym e ∙ c));
        })
        (λ fresh. record {
          locals_sound = take-IsSound i is _ s.locals f refl refl refl k.locals_sound;
          tunnels_sound = k.tunnels_sound;
          linked = λ m j.
              set_either (λ n v. v.stage ≡ copying j → (s.tunnels.store j).stage ≡ copying n) i m _
                s.locals.store (λ r c. absurd (ground (arith, c))) (λ d. k.linked m j);
          holds = λ m c.
              subst
                (λ n.
                  (set_peer i (record (s.locals.store i) { stage = held }) s.locals.store n).stage
                  ≡ held)
                (some-injective _ _ c)
                (ap (λ (v : UdpPeer). v.stage) (set_same i _ s.locals.store));
        })

  pub head_queued :
      (j : ℕ) (js : List ℕ) (p : Peers)
      → p.waiting ≡ j ∷ js
      → IsSound p
      → (p.store j).stage ≡ queued
  head_queued j js p f s =
      let q : All (λ i. (i < p.next) × ((p.store i).stage ≡ queued)) (j ∷ js) =
        subst (All (λ i. (i < p.next) × ((p.store i).stage ≡ queued))) f s.all_queued in
      q.0.1

  pub copying-inj : (i j : ℕ) → copying i ≡ copying j → i ≡ j
  copying-inj i j h = ground arith

  -- A connection at another stage than `copying` is not the other side of a copy.
  pub not_linked :
      (s : UdpServer) (m j : ℕ) (g : Stage)
      → IsLinked s
      → (s.locals.store m).stage ≡ copying j
      → (s.tunnels.store j).stage ≡ g
      → g ≡ copying m
  not_linked s m j g k c q = sym q ∙ k.linked m j c

  -- A tunnel connection leaves its channel, and its copy begins if the address could be written.
  pub pick_tunnel-IsLinked :
      (ok : Bool) (h : Option ℕ) (w : List ℕ) (s : UdpServer)
      → s.holding ≡ h
      → s.tunnels.waiting ≡ w
      → IsLinked s
      → IsLinked (pick_tunnel channel_size token remote_addr ok h w s)
  pick_tunnel-IsLinked ok none w s e f k = k
  pick_tunnel-IsLinked ok (some i) [] s e f k = k
  pick_tunnel-IsLinked false (some i) (j ∷ js) s e f k =
      let q = head_queued j js s.tunnels f k.tunnels_sound in
      record {
        locals_sound = k.locals_sound;
        tunnels_sound = take-IsSound j js _ s.tunnels f refl refl refl k.tunnels_sound;
        linked = λ m n c.
            set_either (λ v u. (s.locals.store m).stage ≡ copying v → u.stage ≡ copying m) j n _
              s.tunnels.store (λ r d. absurd (ground (arith, not_linked s m j queued k d q)))
              (λ d. k.linked m n) c;
        holds = k.holds;
      }
  pick_tunnel-IsLinked true (some i) (j ∷ js) s e f k =
      let q = head_queued j js s.tunnels f k.tunnels_sound in
      let g = k.holds i e in
      let u : UdpPeer = record (s.tunnels.store j) {
        stage = copying i;
        pinged = false;
        written = (s.tunnels.store j).written ++ (remote_addr ∷ []);
      } in
      record {
        locals_sound =
            restage-IsSound i _ s.locals refl refl (sym (ap is_live g))
              (λ c. absurd (ground (arith, g, c))) k.locals_sound;
        tunnels_sound = take-IsSound j js _ s.tunnels f refl refl refl k.tunnels_sound;
        linked = λ m n.
            set_either
              (λ v t. t.stage ≡ copying n → (set_peer j u s.tunnels.store n).stage ≡ copying v) i m
              _ s.locals.store
              (λ r c.
                subst (λ v. (set_peer j u s.tunnels.store v).stage ≡ copying i) (copying-inj j n c)
                  (ap (λ (v : UdpPeer). v.stage) (set_same j u s.tunnels.store)))
              (λ d c.
                ap (λ (v : UdpPeer). v.stage)
                  (set_other j n u s.tunnels.store (λ r. absurd (
                    ground (
                      arith,
                      not_linked s m j queued k
                          (subst (λ v. (s.locals.store m).stage ≡ copying v) r c) q,
                    ))))
                ∙ k.linked m n c);
        holds = λ m c. absurd (none-ne-some m c);
      }

  abbrev pub closed_peer : ℕ → Peers → Peers
  closed_peer i p = record p {
    store = set_peer i (record (p.store i) { closed = true; stage = finished }) p.store;
    active = delete (p.store i).addr p.active;
  }

  pub finish_peer-closed :
      (i j : ℕ) (p : Peers)
      → (p.store i).stage ≡ copying j
      → IsSound p
      → finish_peer i p ≡ closed_peer i p
  finish_peer-closed i j p g s =
      let f = s.known (p.store i).addr i (s.present i (ap is_live g)) in if_false _ _ f.1

  -- Both connections of a copy are closed.
  pub end_copy-IsLinked :
      (i : ℕ) (g : Stage) (s : UdpServer)
      → (s.locals.store i).stage ≡ g
      → IsLinked s
      → IsLinked (end_copy channel_size token remote_addr i g s)
  end_copy-IsLinked i queued s e k = k
  end_copy-IsLinked i held s e k = k
  end_copy-IsLinked i forgotten s e k = k
  end_copy-IsLinked i finished s e k = k
  end_copy-IsLinked i (copying j) s e k =
      if_either IsLinked ((s.locals.store i).copied && (s.tunnels.store j).copied) _ _
        (λ both.
          let t = k.linked i j e in
          let u : UdpPeer = record (s.tunnels.store j) { closed = true; stage = finished } in
          let a = finish_peer-closed i j s.locals e k.locals_sound in
          let b = finish_peer-closed j i s.tunnels t k.tunnels_sound in
          let l = subst IsSound a (finish_peer-IsSound i j s.locals e k.locals_sound) in
          let r = subst IsSound b (finish_peer-IsSound j i s.tunnels t k.tunnels_sound) in
          subst (λ p. IsLinked (record s { locals = p; tunnels = finish_peer j s.tunnels })) (sym a)
            (subst (λ p. IsLinked (record s { locals = closed_peer i s.locals; tunnels = p }))
              (sym b)
              (record {
                locals_sound = l;
                tunnels_sound = r;
                linked = λ m n.
                    set_either
                      (λ v w.
                        w.stage ≡ copying n → (set_peer j u s.tunnels.store n).stage ≡ copying v)
                      i m _ s.locals.store (λ r c. absurd (ground (arith, c)))
                      (λ d c.
                        ap (λ (v : UdpPeer). v.stage)
                          (set_other j n u s.tunnels.store (λ r. absurd (
                            d (
                              copying-inj m i (
                                sym (
                                  k.linked m j
                                    (subst (λ v. (s.locals.store m).stage ≡ copying v) r c))
                                ∙ t)))))
                        ∙ k.linked m n c);
                holds = λ m c.
                    ap (λ (v : UdpPeer). v.stage)
                      (set_other i m _ s.locals.store (λ r.
                        absurd
                          (ground (arith, k.holds m c, e, ap (λ v. (s.locals.store v).stage) r))))
                    ∙ k.holds m c;
              })))
        (λ not_both. k)
