-- ===== src/Udp/Stored.antt =====
-- The connections in `udpChan` are in the store.
use ttest.Prelude.{
  ℕ, ◌+◌, ◌<◌, ◌≡◌, refl, sym, subst, ◌∙◌, Bool, List, [], ◌∷◌, Option, none, some, ltb,
  if◌then◌else◌, length, Bytes, All, All-append, arith, Bool-cases, inl, inr, if_true, if_false,
}
use ttest.Udp.Listener.{
  is_running, Listener, Reading, at_read, stored, placed, asking, lookup, UdpEvent, packet, resumed,
  picked, handed, is_held, taken, congested, ended, requested, deliver, open_new, resume, on_packet,
  when_reading, pick, end_handler, udp_step, udp_run, listener_start,
}

-- The connection that the reading goroutine is about to queue is in the store.
abbrev pub Pending : ℕ → Reading → Type 0
Pending n (stored i buf) = i < n
Pending n _ = Unit

-- So is every connection in `udpChan`.
pub record IsStored (t : Listener) : Type 0 where
  pub queue : All (λ i. i < t.next) t.udp_chan
  pub pending : Pending t.next t.reading

weaken : (n : ℕ) (xs : List ℕ) → All (λ i. i < n) xs → All (λ i. i < n + 1) xs
weaken n [] h = tt
weaken n (x ∷ xs) h = (omega (arith, h.0), weaken n xs h.1)

Pending-weaken : (n : ℕ) (r : Reading) → Pending n r → Pending (n + 1) r
Pending-weaken n at_read h = tt
Pending-weaken n (stored i buf) h = omega (arith, h)
Pending-weaken n (placed i buf) h = tt
Pending-weaken n asking h = tt

-- A state with the same queue and numbers.
kept :
    (t t' : Listener)
    → t'.next ≡ t.next
    → t'.udp_chan ≡ t.udp_chan
    → Pending t.next t'.reading
    → IsStored t
    → IsStored t'
kept t t' n c r s = record { queue = rw (n, c) s.queue; pending = rw n r }

open_new-IsStored : (key buf : Bytes) (t : Listener) → IsStored t → IsStored (open_new key buf t)
open_new-IsStored key buf t s = record {
  queue = weaken t.next t.udp_chan s.queue;
  pending = omega arith;
}

deliver-IsStored : (i : ℕ) (buf : Bytes) (t : Listener) → IsStored t → IsStored (deliver i buf t)
deliver-IsStored i buf t s = elim (Bool-cases (t.conns i).closed) [
  | inl y ↦ subst IsStored (sym (if_true _ _ y)) (kept t _ refl refl s.pending s)
  | inr z ↦ elim (Bool-cases (ltb (length (t.conns i).payload) 100000)) [
    | inl y ↦ subst IsStored (sym (if_false _ _ z ∙ if_true _ _ y)) (kept t _ refl refl s.pending s)
    | inr w ↦ subst IsStored (sym (if_false _ _ z ∙ if_false _ _ w)) s
  ]
]

packet-IsStored :
    (key buf : Bytes) (o : Option ℕ) (t : Listener) → IsStored t → IsStored (on_packet key buf o t)
packet-IsStored key buf none t s = open_new-IsStored key buf t s
packet-IsStored key buf (some i) t s = elim (Bool-cases (t.conns i).is_congested) [
  | inl y ↦ subst IsStored (sym (if_true _ _ y)) (open_new-IsStored key buf t s)
  | inr z ↦ subst IsStored (sym (if_false _ _ z)) (deliver-IsStored i buf t s)
]

reading-IsStored :
    (r : Reading) (key buf : Bytes) (t : Listener)
    → IsStored t
    → IsStored (when_reading r key buf t)
reading-IsStored at_read key buf t s = packet-IsStored key buf (lookup key t.active) t s
reading-IsStored (stored i b) key buf t s = s
reading-IsStored (placed i b) key buf t s = s
reading-IsStored asking key buf t s = s

resume-IsStored :
    (channel_size : ℕ) (r : Reading) (t : Listener)
    → Pending t.next r
    → IsStored t
    → IsStored (resume channel_size r t)
resume-IsStored channel_size at_read t p s = s
resume-IsStored channel_size (stored i buf) t p s =
    elim (Bool-cases (ltb (length t.udp_chan) channel_size)) [
      | inl y ↦ subst IsStored (sym (if_true _ _ y)) (record {
        queue = All-append (λ k. k < t.next) t.udp_chan (i ∷ []) s.queue (p, tt);
        pending = tt;
      })
      | inr z ↦ subst IsStored (sym (if_false _ _ z)) (kept t _ refl refl tt s)
    ]
resume-IsStored channel_size (placed i buf) t p s = elim (Bool-cases (t.conns i).closed) [
  | inl y ↦ subst IsStored (sym (if_true _ _ y)) (kept t _ refl refl s.pending s)
  | inr z ↦ subst IsStored (sym (if_false _ _ z)) (kept t _ refl refl tt s)
]
resume-IsStored channel_size asking t p s = kept t _ refl refl tt s

pick-IsStored : (is : List ℕ) (t : Listener) → t.udp_chan ≡ is → IsStored t → IsStored (pick is t)
pick-IsStored [] t e s = s
pick-IsStored (i ∷ is) t e s =
    let w : All (λ k. k < t.next) (i ∷ is) = subst (All (λ k. k < t.next)) e s.queue in
    record { queue = w.1; pending = s.pending }

-- A step that happens or not.
either_way :
    (b : Bool) (t' t : Listener) → IsStored t' → IsStored t → IsStored (if b then t' else t)
either_way b t' t s' s = elim (Bool-cases b) [
  | inl y ↦ subst IsStored (sym (if_true _ _ y)) s'
  | inr z ↦ subst IsStored (sym (if_false _ _ z)) s
]

step-IsStored :
    (channel_size : ℕ) (e : UdpEvent) (t : Listener)
    → IsStored t
    → IsStored (udp_step channel_size e t)
unfolding udp_step
step-IsStored channel_size (packet key buf) t s = reading-IsStored t.reading key buf t s
step-IsStored channel_size resumed t s = resume-IsStored channel_size t.reading t s.pending s
step-IsStored channel_size picked t s = pick-IsStored t.udp_chan t refl s
step-IsStored channel_size (handed i) t s =
    either_way (is_held (t.conns i).phase) _ t (kept t _ refl refl s.pending s) s
step-IsStored channel_size (taken i) t s =
    either_way (is_running (t.conns i).phase) _ t (kept t _ refl refl s.pending s) s
step-IsStored channel_size (congested i) t s =
    either_way (is_running (t.conns i).phase) _ t (kept t _ refl refl s.pending s) s
step-IsStored channel_size (ended i) t s =
    either_way (is_running (t.conns i).phase) (end_handler i t) t
      (either_way (t.conns i).closed _ _ (kept t _ refl refl s.pending s)
        (kept t _ refl refl s.pending s))
      s
step-IsStored channel_size requested t s = kept t _ refl refl s.pending s

pub run-IsStored :
    (channel_size : ℕ) (es : List UdpEvent) (t : Listener)
    → IsStored t
    → IsStored (udp_run channel_size es t)
unfolding udp_run
run-IsStored channel_size [] t s = s
run-IsStored channel_size (e ∷ es) t s =
    run-IsStored channel_size es (udp_step channel_size e t) (step-IsStored channel_size e t s)

pub start-IsStored : IsStored listener_start
unfolding listener_start
start-IsStored = record { queue = tt; pending = tt }
