-- ===== src/UdpServer/Entries.antt =====
-- New connections and the end of a copy, for the connections of one side.
use ttest.Prelude.{
  ℕ, ◌+◌, ◌≡◌, refl, sym, ap, subst, ◌∙◌, true, false, List, [], ◌∷◌, ◌++◌, none, some, ltb, length,
  Bytes, text_eq, text_eq_refl, text_eq→eq, All-append, arith, Bool-cases, inl, inr, if_true,
  if_false, if_either,
}
use mathlib.Core.Option.{some-injective, none-ne-some}
use ttest.Udp.Invariant.{All-map, Increasing-snoc}
use ttest.UdpServer.Peers.{
  queued, copying, finished, UdpPeer, Peers, set_peer, insert, delete, new_peer, open_peer,
  finish_peer, no_peers,
}
use ttest.UdpServer.Invariant.{
  is_live, Found, IsSound, other_address, set_same, set_other, set_either, new_address,
}

older-Found :
    (key : Bytes) (u : UdpPeer) (p : Peers)
    → IsSound p
    → (k : Bytes) (j : ℕ) → p.active k ≡ some j
    → Found (p.next + 1) k j (set_peer p.next u p.store j)
older-Found key u p s k j h =
    let f = s.known k j h in
    subst (Found (p.next + 1) k j)
      (sym (set_other p.next j u p.store (λ r. absurd (omega (arith, r, f.0)))))
      (omega (arith, f.0), f.1, f.2, f.3)

-- The new connection is entered.
entered-IsSound :
    (key : Bytes) (u : UdpPeer) (p : Peers)
    → u.addr ≡ key
    → u.closed ≡ false
    → u.stage ≡ queued
    → p.active key ≡ none
    → IsSound p
    → IsSound (record p {
      active = insert key p.next p.active;
      store = set_peer p.next u p.store;
      next = p.next + 1;
      waiting = p.waiting ++ (p.next ∷ []);
    })
entered-IsSound key u p a c q n s = record {
  known = λ k j h. elim (Bool-cases (text_eq key k)) [
    | inl y ↦
        subst (λ m. Found (p.next + 1) k m (set_peer p.next u p.store m))
          (some-injective _ _ (sym (if_true _ _ y) ∙ h))
          (subst (Found (p.next + 1) k p.next) (sym (set_same p.next u p.store))
            (omega arith, c, a ∙ text_eq→eq key k y, ap is_live q))
    | inr z ↦ older-Found key u p s k j (sym (if_false _ _ z) ∙ h)
  ];
  present = λ j.
      set_either (λ m v. is_live v.stage ≡ true → insert key p.next p.active v.addr ≡ some m) p.next
        j u p.store
        (λ r l. if_true _ _ (subst (λ k. text_eq key k ≡ true) (sym a) (text_eq_refl key)))
        (λ d l. if_false _ _ (new_address p key j s n l) ∙ s.present j l);
  all_queued =
      All-append _ p.waiting (p.next ∷ [])
        (All-map
          (λ j h. (
            omega (arith, h.0),
            subst (λ v. v.stage ≡ queued)
                (sym (set_other p.next j u p.store (λ r. absurd (omega (arith, r, h.0))))) h.1,
          ))
          p.waiting s.all_queued)
        ((omega arith, subst (λ v. v.stage ≡ queued) (sym (set_same p.next u p.store)) q), tt);
  ordered =
      Increasing-snoc p.waiting p.next (All-map (λ j h. h.0) p.waiting s.all_queued) s.ordered;
  calm = s.calm;
}

-- The new connection is entered, taken out and closed.
turned_away-IsSound :
    (key : Bytes) (u : UdpPeer) (p : Peers)
    → u.stage ≡ finished
    → p.active key ≡ none
    → IsSound p
    → IsSound (record p {
      active = delete key (insert key p.next p.active);
      store = set_peer p.next u p.store;
      next = p.next + 1;
    })
turned_away-IsSound key u p f n s = record {
  known = λ k j h. elim (Bool-cases (text_eq key k)) [
    | inl y ↦ absurd (none-ne-some _ (sym (if_true _ _ y) ∙ h))
    | inr z ↦ older-Found key u p s k j (sym (if_false _ _ z) ∙ (sym (if_false _ _ z) ∙ h))
  ];
  present = λ j.
      set_either
        (λ m v. is_live v.stage ≡ true → delete key (insert key p.next p.active) v.addr ≡ some m)
        p.next j u p.store (λ r l. absurd (ground (arith, f, l)))
        (λ d l.
          if_false _ _ (new_address p key j s n l)
          ∙ (if_false _ _ (new_address p key j s n l) ∙ s.present j l));
  all_queued =
      All-map
        (λ j h. (
          omega (arith, h.0),
          subst (λ v. v.stage ≡ queued)
              (sym (set_other p.next j u p.store (λ r. absurd (omega (arith, r, h.0))))) h.1,
        ))
        p.waiting s.all_queued;
  ordered = s.ordered;
  calm = s.calm;
}

pub open_peer-IsSound :
    (channel_size : ℕ) (key : Bytes) (now : ℕ) (payload : List Bytes) (p : Peers)
    → p.active key ≡ none
    → IsSound p
    → IsSound (open_peer channel_size key now payload p)
open_peer-IsSound channel_size key now payload p n s =
    if_either IsSound (ltb (length p.waiting) channel_size) _ _
      (λ room. entered-IsSound key (new_peer key now payload) p refl refl refl n s)
      (λ full. turned_away-IsSound key _ p refl n s)

-- The end of a copy: the connection was open, so nothing panics.
pub finish_peer-IsSound :
    (i j : ℕ) (p : Peers) → (p.store i).stage ≡ copying j → IsSound p → IsSound (finish_peer i p)
finish_peer-IsSound i j p g s =
    let l : is_live (p.store i).stage ≡ true = ap is_live g in
    let (b, c, e, v) = s.known (p.store i).addr i (s.present i l) in
    subst IsSound (sym (if_false _ _ c)) (record {
      known = λ k m h. elim (Bool-cases (text_eq (p.store i).addr k)) [
        | inl y ↦ absurd (none-ne-some _ (sym (if_true _ _ y) ∙ h))
        | inr z ↦
            let h' : p.active k ≡ some m = sym (if_false _ _ z) ∙ h in
            subst (Found p.next k m)
              (sym (
                set_other i m _ p.store (λ r. ground (
                  arith,
                  z,
                  text_eq_refl (p.store i).addr,
                  ap (λ w. (p.store w).addr) r,
                  (s.known k m h').2,
                ))))
              (s.known k m h')
      ];
      present = λ m.
          set_either
            (λ w v. is_live v.stage ≡ true → delete (p.store i).addr p.active v.addr ≡ some w) i m _
            p.store (λ r l'. absurd (ground (arith, l')))
            (λ d l'. if_false _ _ (other_address p i m s l l' d) ∙ s.present m l');
      all_queued =
          All-map
            (λ m h. (
              h.0,
              subst (λ v. v.stage ≡ queued)
                  (sym (
                    set_other i m _ p.store
                      (λ r. absurd (ground (arith, h.1, g, ap (λ w. (p.store w).stage) r)))))
                  h.1,
            ))
            p.waiting s.all_queued;
      ordered = s.ordered;
      calm = s.calm;
    })

pub no_peers-IsSound : IsSound no_peers
unfolding no_peers
no_peers-IsSound = record {
  known = λ k i h. absurd (none-ne-some _ h);
  present = λ i h. cc;
  all_queued = tt;
  ordered = tt;
  calm = refl;
}
