-- ===== src/Udp/Refused.antt =====
-- What becomes of a connection that a full `udpChan` has refused.
use ttest.Prelude.{
  ℕ, ◌≤◌, ◌<◌, ◌≡◌, ◌≢◌, refl, sym, ap, subst, ◌∙◌, true, false, List, [], ◌∷◌, Option, none, some,
  ltb, ◌==◌, if◌then◌else◌, length, Bytes, text_eq_refl, All, All-append, arith, Bool-cases, inl,
  inr, ==_iff, ==_refl, if_true, if_false,
}
use ttest.Udp.Listener.{
  created, is_running, UdpLocal, Listener, Reading, at_read, stored, placed, asking, update, lookup,
  UdpEvent, packet, resumed, picked, handed, is_held, taken, congested, ended, requested, deliver,
  open_new, resume, on_packet, when_reading, pick, end_handler, udp_step, udp_run, listener_start,
}
use ttest.Udp.Stored.{IsStored, run-IsStored, start-IsStored}

-- The reading goroutine is not about to queue the connection.
abbrev pub NotStored : ℕ → Reading → Type 0
NotStored j (stored i buf) = i ≢ j
NotStored j _ = Unit

-- The connection exists, no handler has been started for it, and it is not on its way to one.
pub record NoHandler (j : ℕ) (t : Listener) : Type 0 where
  pub known : j < t.next
  pub alone : (t.conns j).phase ≡ created
  pub unqueued : All (λ i. i ≢ j) t.udp_chan
  pub unstored : NotStored j t.reading

update-phase :
    (i j : ℕ) (u : UdpLocal) (f : ℕ → UdpLocal)
    → ((j ≡ i) → u.phase ≡ (f i).phase)
    → (f j).phase ≡ created
    → (update i u f j).phase ≡ created
update-phase i j u f h c = elim (Bool-cases (j == i)) [
  | inl y ↦ let e = (==_iff j i).0 y in rw y (h e ∙ (ap (λ k. (f k).phase) (sym e) ∙ c))
  | inr n ↦ rw n c
]

-- A running connection has a handler.
not_running :
    (i j : ℕ) (f : ℕ → UdpLocal) → is_running (f i).phase ≡ true → (f j).phase ≡ created → j ≡ i → ⊥
not_running i j f r c e = ground (arith, ap (λ k. (f k).phase) e)

-- A change of one connection that leaves the phase of the refused one.
touched :
    (i j : ℕ) (u : UdpLocal) (t : Listener)
    → ((j ≡ i) → u.phase ≡ (t.conns i).phase)
    → NoHandler j t
    → NoHandler j (record t { conns = update i u t.conns })
touched i j u t h n = record {
  known = n.known;
  alone = update-phase i j u t.conns h n.alone;
  unqueued = n.unqueued;
  unstored = n.unstored;
}

panic-NoHandler :
    (j : ℕ) (t : Listener) → NoHandler j t → NoHandler j (record t { panicked = true })
panic-NoHandler j t n = record {
  known = n.known;
  alone = n.alone;
  unqueued = n.unqueued;
  unstored = n.unstored;
}

open_new-NoHandler :
    (j : ℕ) (key buf : Bytes) (t : Listener) → NoHandler j t → NoHandler j (open_new key buf t)
open_new-NoHandler j key buf t n = record {
  known = omega (arith, n.known);
  alone = update-phase t.next j _ t.conns (λ e. absurd (omega (arith, e, n.known))) n.alone;
  unqueued = n.unqueued;
  unstored = λ e. omega (arith, e, n.known);
}

deliver-NoHandler :
    (i j : ℕ) (buf : Bytes) (t : Listener) → NoHandler j t → NoHandler j (deliver i buf t)
deliver-NoHandler i j buf t n = elim (Bool-cases (t.conns i).closed) [
  | inl y ↦ subst (NoHandler j) (sym (if_true _ _ y)) (panic-NoHandler j t n)
  | inr z ↦ elim (Bool-cases (ltb (length (t.conns i).payload) 100000)) [
    | inl y ↦
        subst (NoHandler j) (sym (if_false _ _ z ∙ if_true _ _ y)) (touched i j _ t (λ e. refl) n)
    | inr w ↦ subst (NoHandler j) (sym (if_false _ _ z ∙ if_false _ _ w)) n
  ]
]

packet-NoHandler :
    (j : ℕ) (key buf : Bytes) (o : Option ℕ) (t : Listener)
    → NoHandler j t
    → NoHandler j (on_packet key buf o t)
packet-NoHandler j key buf none t n = open_new-NoHandler j key buf t n
packet-NoHandler j key buf (some i) t n = elim (Bool-cases (t.conns i).is_congested) [
  | inl y ↦ subst (NoHandler j) (sym (if_true _ _ y)) (open_new-NoHandler j key buf t n)
  | inr z ↦ subst (NoHandler j) (sym (if_false _ _ z)) (deliver-NoHandler i j buf t n)
]

reading-NoHandler :
    (j : ℕ) (r : Reading) (key buf : Bytes) (t : Listener)
    → NoHandler j t
    → NoHandler j (when_reading r key buf t)
reading-NoHandler j at_read key buf t n = packet-NoHandler j key buf (lookup key t.active) t n
reading-NoHandler j (stored i b) key buf t n = n
reading-NoHandler j (placed i b) key buf t n = n
reading-NoHandler j asking key buf t n = n

resume-NoHandler :
    (channel_size j : ℕ) (r : Reading) (t : Listener)
    → NotStored j r
    → NoHandler j t
    → NoHandler j (resume channel_size r t)
resume-NoHandler channel_size j at_read t r n = n
resume-NoHandler channel_size j (stored i buf) t r n =
    elim (Bool-cases (ltb (length t.udp_chan) channel_size)) [
      | inl y ↦ subst (NoHandler j) (sym (if_true _ _ y)) (record {
        known = n.known;
        alone = update-phase i j _ t.conns (λ e. absurd (r (sym e))) n.alone;
        unqueued = All-append (λ k. k ≢ j) t.udp_chan (i ∷ []) n.unqueued (r, tt);
        unstored = tt;
      })
      | inr z ↦
          subst (NoHandler j) (sym (if_false _ _ z))
            (record { known = n.known; alone = n.alone; unqueued = n.unqueued; unstored = tt })
    ]
resume-NoHandler channel_size j (placed i buf) t r n = elim (Bool-cases (t.conns i).closed) [
  | inl y ↦ subst (NoHandler j) (sym (if_true _ _ y)) (panic-NoHandler j t n)
  | inr z ↦ subst (NoHandler j) (sym (if_false _ _ z)) (record {
    known = n.known;
    alone = update-phase i j _ t.conns (λ e. refl) n.alone;
    unqueued = n.unqueued;
    unstored = tt;
  })
]
resume-NoHandler channel_size j asking t r n = record {
  known = n.known;
  alone = n.alone;
  unqueued = n.unqueued;
  unstored = tt;
}

pick-NoHandler :
    (j : ℕ) (is : List ℕ) (t : Listener) → t.udp_chan ≡ is → NoHandler j t → NoHandler j (pick is t)
pick-NoHandler j [] t e n = n
pick-NoHandler j (i ∷ is) t e n =
    let w : All (λ k. k ≢ j) (i ∷ is) = subst (All (λ k. k ≢ j)) e n.unqueued in
    record {
      known = n.known;
      alone = update-phase i j _ t.conns (λ q. absurd (w.0 (sym q))) n.alone;
      unqueued = w.1;
      unstored = n.unstored;
    }

end_handler-NoHandler :
    (i j : ℕ) (t : Listener)
    → is_running (t.conns i).phase ≡ true
    → NoHandler j t
    → NoHandler j (end_handler i t)
end_handler-NoHandler i j t r n = elim (Bool-cases (t.conns i).closed) [
  | inl y ↦ subst (NoHandler j) (sym (if_true _ _ y)) (panic-NoHandler j t n)
  | inr z ↦ subst (NoHandler j) (sym (if_false _ _ z)) (record {
    known = n.known;
    alone = update-phase i j _ t.conns (λ e. absurd (not_running i j t.conns r n.alone e)) n.alone;
    unqueued = n.unqueued;
    unstored = n.unstored;
  })
]

-- A step that does something for a running connection only.
when_running :
    (i j : ℕ) (t t' : Listener)
    → (is_running (t.conns i).phase ≡ true → NoHandler j t')
    → NoHandler j t
    → NoHandler j (if is_running (t.conns i).phase then t' else t)
when_running i j t t' h n = elim (Bool-cases (is_running (t.conns i).phase)) [
  | inl y ↦ subst (NoHandler j) (sym (if_true _ _ y)) (h y)
  | inr z ↦ subst (NoHandler j) (sym (if_false _ _ z)) n
]

not_ltb : {a b : ℕ} → b ≤ a → ltb a b ≡ false
not_ltb h = ground arith

step-NoHandler :
    (channel_size j : ℕ) (e : UdpEvent) (t : Listener)
    → NoHandler j t
    → NoHandler j (udp_step channel_size e t)
unfolding udp_step
step-NoHandler channel_size j (packet key buf) t n = reading-NoHandler j t.reading key buf t n
step-NoHandler channel_size j resumed t n = resume-NoHandler channel_size j t.reading t n.unstored n
step-NoHandler channel_size j picked t n = pick-NoHandler j t.udp_chan t refl n
step-NoHandler channel_size j (handed i) t n = elim (Bool-cases (is_held (t.conns i).phase)) [
  | inl y ↦
      subst (NoHandler j) (sym (if_true _ _ y)) (
        touched i j _ t (λ e. absurd (ground (arith, y, n.alone, ap (λ k. (t.conns k).phase) e))) n)
  | inr z ↦ subst (NoHandler j) (sym (if_false _ _ z)) n
]
step-NoHandler channel_size j (taken i) t n =
    when_running i j t _ (λ r. touched i j _ t (λ e. refl) n) n
step-NoHandler channel_size j (congested i) t n =
    when_running i j t _ (λ r. touched i j _ t (λ e. refl) n) n
step-NoHandler channel_size j (ended i) t n =
    when_running i j t _ (λ r. end_handler-NoHandler i j t r n) n
step-NoHandler channel_size j requested t n = record {
  known = n.known;
  alone = n.alone;
  unqueued = n.unqueued;
  unstored = n.unstored;
}

run-NoHandler :
    (channel_size j : ℕ) (es : List UdpEvent) (t : Listener)
    → NoHandler j t
    → NoHandler j (udp_run channel_size es t)
unfolding udp_run
run-NoHandler channel_size j [] t n = n
run-NoHandler channel_size j (e ∷ es) t n =
    run-NoHandler channel_size j es (udp_step channel_size e t)
      (step-NoHandler channel_size j e t n)

-- The state after the datagram of a new client has found `udpChan` full.
abbrev pub refused : Bytes → Bytes → Listener → Listener
refused key buf t = record (open_new key buf t) { reading = at_read }

refused_lem :
    (channel_size : ℕ) (key buf : Bytes) (t : Listener)
    → t.reading ≡ at_read
    → lookup key t.active ≡ none
    → channel_size ≤ length t.udp_chan
    → udp_run channel_size (packet key buf ∷ resumed ∷ []) t ≡ refused key buf t
unfolding udp_run udp_step
refused_lem channel_size key buf t r e l = rw (r, e) (if_false _ _ (not_ltb l))

avoids : (n : ℕ) (xs : List ℕ) → All (λ i. i < n) xs → All (λ i. i ≢ n) xs
avoids n [] h = tt
avoids n (x ∷ xs) h = ((λ e. omega (arith, e, h.0)), avoids n xs h.1)

refused-NoHandler :
    (key buf : Bytes) (t : Listener) → IsStored t → NoHandler t.next (refused key buf t)
refused-NoHandler key buf t s = record {
  known = omega arith;
  alone = ap (λ (u : UdpLocal). u.phase) (if_true _ _ (==_refl t.next));
  unqueued = avoids t.next t.udp_chan s.queue;
  unstored = tt;
}

-- A new client whose first datagram finds `udpChan` full, at the send that comes next after the
-- connection is stored, is left in the table with an empty payload channel: its datagram is dropped, and
-- the goroutine reads on. Its connection is never given to a handler, whatever happens later.
pub udp_run-refused :
    (channel_size : ℕ) (before after : List UdpEvent) (key buf : Bytes)
    → (udp_run channel_size before listener_start).reading ≡ at_read
    → lookup key (udp_run channel_size before listener_start).active ≡ none
    → channel_size ≤ length (udp_run channel_size before listener_start).udp_chan
    → let t = udp_run channel_size before listener_start in
      let t' = udp_run channel_size (packet key buf ∷ resumed ∷ []) t in
      (lookup key t'.active ≡ some t.next)
      × ((t'.conns t.next).payload ≡ [])
      × (t'.reading ≡ at_read)
      × (((udp_run channel_size after t').conns t.next).phase ≡ created)
udp_run-refused channel_size before after key buf r e l =
    let t = udp_run channel_size before listener_start in
    let s = run-IsStored channel_size before listener_start start-IsStored in
    rw (refused_lem channel_size key buf t r e l) (
      unfold lookup in if_true _ _ (text_eq_refl key),
      ap (λ (u : UdpLocal). u.payload) (if_true _ _ (==_refl t.next)),
      refl,
      (run-NoHandler channel_size t.next after (refused key buf t)
          (refused-NoHandler key buf t s)).alone,
    )
