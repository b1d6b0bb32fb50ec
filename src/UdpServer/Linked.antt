-- ===== src/UdpServer/Linked.antt =====
-- The two sides of the server together: `udpCopy` runs for a local and a tunnel connection that belong
-- to each other only.
use ttest.Prelude.{
  ℕ, ◌≡◌, refl, sym, ap, subst, ◌∙◌, true, List, some, ltb, length, Bytes, arith, if_either,
}
use ttest.UdpServer.Peers.{held, copying, UdpPeer, Peers, set_peer, deliver, open_peer, change_peer}
use ttest.UdpServer.Server.{UdpServer}
use ttest.UdpServer.Invariant.{is_live, IsSound, set_either, set_other, new_number}

-- Each live connection keeps its stage and its address, and no copy begins.
pub record SameStages (p q : Peers) : Type 0 where
  pub kept :
      (i : ℕ)
      → is_live (p.store i).stage ≡ true
      → ((q.store i).stage ≡ (p.store i).stage) × ((q.store i).addr ≡ (p.store i).addr)
  pub none_begun : (i j : ℕ) → (q.store i).stage ≡ copying j → (p.store i).stage ≡ copying j

pub same-SameStages : (p : Peers) → SameStages p p
same-SameStages p = record { kept = λ i l. (refl, refl); none_begun = λ i j h. h }

pub touch-SameStages :
    (i : ℕ) (u : UdpPeer) (p : Peers)
    → u.stage ≡ (p.store i).stage
    → u.addr ≡ (p.store i).addr
    → SameStages p (change_peer i u p)
touch-SameStages i u p e a = record {
  kept = λ j l.
      set_either (λ m v. (v.stage ≡ (p.store m).stage) × (v.addr ≡ (p.store m).addr)) i j u p.store
        (λ r. (e, a)) (λ d. (refl, refl));
  none_begun = λ j k.
      set_either (λ m v. v.stage ≡ copying k → (p.store m).stage ≡ copying k) i j u p.store
        (λ r h. sym e ∙ h) (λ d h. h);
}

pub deliver-SameStages : (i : ℕ) (buf : Bytes) (p : Peers) → SameStages p (deliver i buf p)
deliver-SameStages i buf p =
    if_either (SameStages p) (p.store i).closed _ _
      (λ closed. record { kept = λ j l. (refl, refl); none_begun = λ j k h. h })
      (λ open_.
        if_either (SameStages p) (ltb (length (p.store i).payload) 100000) _ _
          (λ room. touch-SameStages i _ p refl refl) (λ full. same-SameStages p))

-- A new number is that of no live connection.
new-kept :
    (u : UdpPeer) (p : Peers) (j : ℕ)
    → IsSound p
    → is_live (p.store j).stage ≡ true
    → ((set_peer p.next u p.store j).stage ≡ (p.store j).stage)
      × ((set_peer p.next u p.store j).addr ≡ (p.store j).addr)
new-kept u p j s l =
    subst (λ v. (v.stage ≡ (p.store j).stage) × (v.addr ≡ (p.store j).addr))
      (sym (set_other p.next j u p.store (λ r. absurd (omega (arith, r, new_number p j s l)))))
      (refl, refl)

pub open_peer-SameStages :
    (channel_size : ℕ) (key : Bytes) (now : ℕ) (payload : List Bytes) (p : Peers)
    → IsSound p
    → SameStages p (open_peer channel_size key now payload p)
open_peer-SameStages channel_size key now payload p s =
    if_either (SameStages p) (ltb (length p.waiting) channel_size) _ _
      (λ room. record {
        kept = λ j l. new-kept _ p j s l;
        none_begun = λ j k.
            set_either (λ m v. v.stage ≡ copying k → (p.store m).stage ≡ copying k) p.next j _
              p.store (λ r h. absurd (ground (arith, h))) (λ d h. h);
      })
      (λ full. record {
        kept = λ j l. new-kept _ p j s l;
        none_begun = λ j k.
            set_either (λ m v. v.stage ≡ copying k → (p.store m).stage ≡ copying k) p.next j _
              p.store (λ r h. absurd (ground (arith, h))) (λ d h. h);
      })

pub record IsLinked (s : UdpServer) : Type 0 where
  pub locals_sound : IsSound s.locals
  pub tunnels_sound : IsSound s.tunnels
  pub linked :
      (i j : ℕ) → (s.locals.store i).stage ≡ copying j → (s.tunnels.store j).stage ≡ copying i
  pub holds : (i : ℕ) → s.holding ≡ some i → (s.locals.store i).stage ≡ held

-- A step that begins and ends no copy.
pub same-IsLinked :
    (s t : UdpServer)
    → IsSound t.locals
    → IsSound t.tunnels
    → SameStages s.locals t.locals
    → SameStages s.tunnels t.tunnels
    → t.holding ≡ s.holding
    → IsLinked s
    → IsLinked t
same-IsLinked s t l r a b h k = record {
  locals_sound = l;
  tunnels_sound = r;
  linked = λ i j c. let d = k.linked i j (a.none_begun i j c) in (b.kept j (ap is_live d)).0 ∙ d;
  holds = λ i e. let d = k.holds i (sym h ∙ e) in (a.kept i (ap is_live d)).0 ∙ d;
}
