-- ===== src/UdpServer/Invariant.antt =====
-- What holds of the connections of one side, and how it stands a change.
use ttest.Prelude.{
  ℕ, ◌<◌, ◌≡◌, ◌≢◌, refl, sym, ap, subst, ◌∙◌, Bool, true, false, List, ◌∷◌, none, some, ltb, ◌==◌,
  length, Bytes, text_eq, text_eq→eq, All, arith, Bool-cases, inl, inr, ==_iff, ==_refl, if_true,
  if_false, if_either,
}
use mathlib.Core.Option.{some-injective}
use ttest.Udp.Invariant.{All-map, All-both, Increasing}
use ttest.UdpServer.Peers.{Stage, queued, finished, UdpPeer, Peers, set_peer, deliver, change_peer}

abbrev pub is_live : Stage → Bool
is_live finished = false
is_live _ = true

-- What is known of the connection with the number `i` that the table gives for `k`.
abbrev pub Found : ℕ → Bytes → ℕ → UdpPeer → Type 0
Found n k i v = (i < n) × (v.closed ≡ false) × (v.addr ≡ k) × (is_live v.stage ≡ true)

-- Exactly the connections that are not closed by their end stand in the table, each under its address.
pub record IsSound (p : Peers) : Type 0 where
  pub known :
      (k : Bytes) (i : ℕ)
      → p.active k ≡ some i
      → (i < p.next)
        × ((p.store i).closed ≡ false)
        × ((p.store i).addr ≡ k)
        × (is_live (p.store i).stage ≡ true)
  pub present : (i : ℕ) → is_live (p.store i).stage ≡ true → p.active (p.store i).addr ≡ some i
  pub all_queued : All (λ i. (i < p.next) × ((p.store i).stage ≡ queued)) p.waiting
  pub ordered : Increasing p.waiting
  pub calm : p.panicked ≡ false

pub set_same : (i : ℕ) (u : UdpPeer) (f : ℕ → UdpPeer) → set_peer i u f i ≡ u
set_same i u f = if_true _ _ (==_refl i)

pub set_other : (i j : ℕ) (u : UdpPeer) (f : ℕ → UdpPeer) → j ≢ i → set_peer i u f j ≡ f j
set_other i j u f d = if_false {b = j == i} _ _ (ground arith)

-- What holds of the changed connection and of the others.
pub set_either :
    (P : ℕ → UdpPeer → Type 0) (i j : ℕ) (u : UdpPeer) (f : ℕ → UdpPeer)
    → (j ≡ i → P i u)
    → (j ≢ i → P j (f j))
    → P j (set_peer i u f j)
set_either P i j u f a b = elim (Bool-cases (j == i)) [
  | inl y ↦
      let e = (==_iff j i).0 y in
      subst (P j) (sym (if_true _ _ y)) (subst (λ k. P k u) (sym e) (a e))
  | inr n ↦ subst (P j) (sym (if_false _ _ n)) (b (λ e. absurd (ground arith)))
]

-- A change that leaves the address and the channel, and a live connection live.
pub change-IsSound :
    (i : ℕ) (u : UdpPeer) (w : List ℕ) (p : Peers)
    → u.addr ≡ (p.store i).addr
    → u.closed ≡ (p.store i).closed
    → is_live u.stage ≡ is_live (p.store i).stage
    → All (λ j. (j < p.next) × ((set_peer i u p.store j).stage ≡ queued)) w
    → Increasing w
    → IsSound p
    → IsSound (change_peer i u (record p { waiting = w }))
change-IsSound i u w p a c l q o s = record {
  known = λ k j h.
      set_either (Found p.next k) i j u p.store
        (λ r.
          let (b', n', e', v') = subst (λ m. Found p.next k m (p.store m)) r (s.known k j h) in
          (b', c ∙ n', a ∙ e', l ∙ v'))
        (λ d. s.known k j h);
  present = λ j.
      set_either (λ m v. is_live v.stage ≡ true → p.active v.addr ≡ some m) i j u p.store
        (λ r h. ap p.active a ∙ s.present i (sym l ∙ h)) (λ d. s.present j);
  all_queued = q;
  ordered = o;
  calm = s.calm;
}

-- A change that does not touch the stage keeps the channel too.
pub touch-IsSound :
    (i : ℕ) (u : UdpPeer) (p : Peers)
    → u.addr ≡ (p.store i).addr
    → u.closed ≡ (p.store i).closed
    → u.stage ≡ (p.store i).stage
    → IsSound p
    → IsSound (change_peer i u p)
touch-IsSound i u p a c g s =
    change-IsSound i u p.waiting p a c (ap is_live g)
      (All-map
        (λ j h. (
          h.0,
          set_either (λ m v. (p.store m).stage ≡ queued → v.stage ≡ queued) i j u p.store
              (λ r k. g ∙ k) (λ d k. k) h.1,
        ))
        p.waiting s.all_queued)
      s.ordered s

-- A connection that is not queued changes its stage.
pub restage-IsSound :
    (i : ℕ) (u : UdpPeer) (p : Peers)
    → u.addr ≡ (p.store i).addr
    → u.closed ≡ (p.store i).closed
    → is_live u.stage ≡ is_live (p.store i).stage
    → (p.store i).stage ≢ queued
    → IsSound p
    → IsSound (change_peer i u p)
restage-IsSound i u p a c l n s =
    change-IsSound i u p.waiting p a c l
      (All-map
        (λ j h. (
          h.0,
          set_either (λ m v. (p.store m).stage ≡ queued → v.stage ≡ queued) i j u p.store
              (λ r k. absurd (n k)) (λ d k. k) h.1,
        ))
        p.waiting s.all_queued)
      s.ordered s

-- The first connection of the channel is taken.
pub take-IsSound :
    (i : ℕ) (is : List ℕ) (u : UdpPeer) (p : Peers)
    → p.waiting ≡ i ∷ is
    → u.addr ≡ (p.store i).addr
    → u.closed ≡ (p.store i).closed
    → is_live u.stage ≡ true
    → IsSound p
    → IsSound (change_peer i u (record p { waiting = is }))
take-IsSound i is u p e a c l s =
    let q : All (λ j. (j < p.next) × ((p.store j).stage ≡ queued)) (i ∷ is) =
      subst (All (λ j. (j < p.next) × ((p.store j).stage ≡ queued))) e s.all_queued in
    let o : Increasing (i ∷ is) = subst Increasing e s.ordered in
    change-IsSound i u is p a c (l ∙ sym (ap is_live q.0.1))
      (All-both
        (λ j b h. (
          h.0,
          subst (λ v. v.stage ≡ queued)
              (sym (set_other i j u p.store (λ r. absurd (omega (arith, b, r))))) h.1,
        ))
        is o.0 q.1)
      o.1 s

pub deliver-IsSound :
    (i : ℕ) (buf : Bytes) (p : Peers)
    → (p.store i).closed ≡ false
    → IsSound p
    → IsSound (deliver i buf p)
deliver-IsSound i buf p c s = subst IsSound (sym (if_false _ _ c)) (
    if_either IsSound (ltb (length (p.store i).payload) 100000) _ _
      (λ room. touch-IsSound i _ p refl refl refl s) (λ full. s))

-- The number of a new connection is that of no live one.
pub new_number : (p : Peers) (j : ℕ) → IsSound p → is_live (p.store j).stage ≡ true → j < p.next
new_number p j s l = (s.known (p.store j).addr j (s.present j l)).0

-- While no connection has the address, no live one does.
pub new_address :
    (p : Peers) (key : Bytes) (j : ℕ)
    → IsSound p
    → p.active key ≡ none
    → is_live (p.store j).stage ≡ true
    → text_eq key (p.store j).addr ≡ false
new_address p key j s n l = elim (Bool-cases (text_eq key (p.store j).addr)) [
  | inl y ↦
      absurd (ground (arith, s.present j l, n, ap p.active (text_eq→eq key (p.store j).addr y)))
  | inr z ↦ z
]

-- No two live connections have one address.
pub other_address :
    (p : Peers) (i j : ℕ)
    → IsSound p
    → is_live (p.store i).stage ≡ true
    → is_live (p.store j).stage ≡ true
    → j ≢ i
    → text_eq (p.store i).addr (p.store j).addr ≡ false
other_address p i j s l m d = elim (Bool-cases (text_eq (p.store i).addr (p.store j).addr)) [
  | inl y ↦ absurd (
      d (
        some-injective _ _ (
          sym (s.present j m)
          ∙ (ap p.active (sym (text_eq→eq (p.store i).addr (p.store j).addr y)) ∙ s.present i l))))
  | inr z ↦ z
]
