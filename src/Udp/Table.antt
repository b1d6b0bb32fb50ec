-- ===== src/Udp/Table.antt =====
-- The payload channels are used and closed safely, unless a handler is faster than the goroutine that
-- reads datagrams.
use ttest.Prelude.{
  ℕ, ◌≡◌, refl, sym, ap, subst, ◌∙◌, true, false, ◌&&◌, List, [], ◌∷◌, Option, none, some,
  if◌then◌else◌, Bytes, All, arith, Bool-cases, inl, inr, if_true, if_false,
}
use ttest.Udp.Listener.{
  finished, Reading, at_read, stored, placed, asking, resumed, when_reading, is_running, Listener,
  update, lookup, delete, UdpEvent, packet, picked, handed, is_held, running, taken, congested,
  ended, requested, on_packet, pick, end_handler, udp_step, udp_run, listener_start,
}
use ttest.Udp.Invariant.{
  started_of, started_held, All-both, All-map, Entry, Entry-ended, Entry-other, Entry-touch,
  Increasing, IsSafe, Settled, Settled-update, Settled-tail, not_stored, not_first, IsPlacedAt,
  Waits, Waits-other, Waits-touch, delete-All, lookup-All, or_itself, running-update,
}
use ttest.Udp.Sending.{touch-IsSafe, deliver-IsSafe, open_new-IsSafe, resume-IsSafe}

pick-IsSafe : (is : List ℕ) (t : Listener) → t.udp_chan ≡ is → IsSafe t → IsSafe (pick is t)
pick-IsSafe [] t e s = s
pick-IsSafe (i ∷ is) t e s =
    let w : All (Waits t.conns t.next) (i ∷ is) = subst (All (Waits t.conns t.next)) e s.waiting in
    let o : Increasing (i ∷ is) = subst Increasing e s.ordered in
    let h : Settled t.conns t.next (i ∷ is) t.reading =
      subst (λ q. Settled t.conns t.next q t.reading) e s.settled in
    record {
      settled =
          Settled-update i _ t.conns t.next is t.reading
            (λ a. absurd (not_first i is t.conns t.next t.reading h a)) (λ a. refl) (λ a. refl)
            (Settled-tail i is t.conns t.next t.reading h);
      entries =
          All-map
            (λ x. Entry-touch i _ t.conns t.next x refl refl (or_itself (t.conns i).is_congested))
            t.active s.entries;
      waiting =
          All-both (λ j h k. Waits-other i _ t.conns t.next j (λ q. absurd (omega (arith, h, q))) k)
            is o.0 w.1;
      ordered = o.1;
      open_running = running-update i _ t.conns w.0.2 s.open_running;
      calm = s.calm;
    }

-- A held connection gets its handler.
start_handler-IsSafe :
    (i : ℕ) (t : Listener)
    → is_held (t.conns i).phase ≡ true
    → IsSafe t
    → IsSafe (record t { conns = update i (record (t.conns i) { phase = running }) t.conns })
start_handler-IsSafe i t r s =
    let b = started_held (t.conns i).phase r in
    record {
      settled =
          Settled-update i _ t.conns t.next t.udp_chan t.reading
            (λ a. absurd (not_stored i t.conns t.next t.udp_chan t.reading b s.settled a))
            (λ a. refl) (λ a. refl) s.settled;
      entries =
          All-map
            (λ x. Entry-touch i _ t.conns t.next x refl refl (or_itself (t.conns i).is_congested))
            t.active s.entries;
      waiting = All-map (λ j. Waits-touch i _ t.conns t.next j b) t.udp_chan s.waiting;
      ordered = s.ordered;
      open_running =
          running-update i _ t.conns (ap (λ q. q && (t.conns i).closed) (sym b) ∙ s.open_running i)
            s.open_running;
      calm = s.calm;
    }

ended_entries :
    (i : ℕ) (t : Listener)
    → IsSafe t
    → All
        (Entry (update i (record (t.conns i) { closed = true; phase = finished }) t.conns) t.next)
        (if (t.conns i).is_congested then t.active else delete (t.conns i).client_addr t.active)
ended_entries i t s = elim (Bool-cases (t.conns i).is_congested) [
  | inl y ↦
      subst (All _) (sym (if_true _ _ y))
        (All-map (λ x. Entry-ended i t.conns t.next x y) t.active s.entries)
  | inr n ↦ subst (All _) (sym (if_false _ _ n)) (
      All-map
        (λ x h.
          Entry-other i _ t.conns t.next x
            (λ e. h.1 (sym h.0.1 ∙ ap (λ k. (t.conns k).client_addr) e)) h.0)
        (delete (t.conns i).client_addr t.active)
        (delete-All (Entry t.conns t.next) (t.conns i).client_addr t.active s.entries))
]

end_handler-IsSafe :
    (i : ℕ) (t : Listener)
    → is_running (t.conns i).phase ≡ true
    → (IsPlacedAt i t.reading → ⊥)
    → IsSafe t
    → IsSafe (end_handler i t)
end_handler-IsSafe i t r l s =
    let c : (t.conns i).closed ≡ false = ground (arith, s.open_running i) in
    let stored_not =
      not_stored i t.conns t.next t.udp_chan t.reading (started_of (t.conns i).phase r) s.settled in
    subst IsSafe (sym (if_false _ _ c)) (record {
      settled =
          Settled-update i _ t.conns t.next t.udp_chan t.reading (λ a. absurd (stored_not a))
            (λ a. absurd (stored_not a)) (λ a. absurd (l a)) s.settled;
      entries = ended_entries i t s;
      waiting =
          All-map (λ j. Waits-touch i _ t.conns t.next j (started_of (t.conns i).phase r))
            t.udp_chan s.waiting;
      ordered = s.ordered;
      open_running = running-update i _ t.conns refl s.open_running;
      calm = s.calm;
    })

packet-IsSafe :
    (key buf : Bytes) (o : Option ℕ) (t : Listener)
    → lookup key t.active ≡ o
    → IsSafe t
    → IsSafe (on_packet key buf o t)
packet-IsSafe key buf none t e s = open_new-IsSafe key buf t s
packet-IsSafe key buf (some i) t e s = elim (Bool-cases (t.conns i).is_congested) [
  | inl y ↦ subst IsSafe (sym (if_true _ _ y)) (open_new-IsSafe key buf t s)
  | inr n ↦
      let found = lookup-All (Entry t.conns t.next) key t.active i s.entries e in
      subst IsSafe (sym (if_false _ _ n)) (deliver-IsSafe i buf t (ground (arith, found.1.2)) s)
]

reading-IsSafe :
    (r : Reading) (key buf : Bytes) (t : Listener) → IsSafe t → IsSafe (when_reading r key buf t)
reading-IsSafe at_read key buf t s = packet-IsSafe key buf (lookup key t.active) t refl s
reading-IsSafe (stored i b) key buf t s = s
reading-IsSafe (placed i b) key buf t s = s
reading-IsSafe asking key buf t s = s

-- A handler does not end between the sends of its connection and of its first datagram.
abbrev pub IsPrompt : UdpEvent → Listener → Type 0
IsPrompt (ended i) t = IsPlacedAt i t.reading → ⊥
IsPrompt _ t = Unit

step-IsSafe :
    (channel_size : ℕ) (e : UdpEvent) (t : Listener)
    → IsPrompt e t
    → IsSafe t
    → IsSafe (udp_step channel_size e t)
unfolding udp_step
step-IsSafe channel_size (packet key buf) t l s = reading-IsSafe t.reading key buf t s
step-IsSafe channel_size resumed t l s = resume-IsSafe channel_size t.reading t s.settled s
step-IsSafe channel_size (handed i) t l s = elim (Bool-cases (is_held (t.conns i).phase)) [
  | inl y ↦ subst IsSafe (sym (if_true _ _ y)) (start_handler-IsSafe i t y s)
  | inr n ↦ subst IsSafe (sym (if_false _ _ n)) s
]
step-IsSafe channel_size picked t l s = pick-IsSafe t.udp_chan t refl s
step-IsSafe channel_size (taken i) t l s = elim (Bool-cases (is_running (t.conns i).phase)) [
  | inl y ↦
      subst IsSafe (sym (if_true _ _ y))
        (touch-IsSafe i _ t refl refl refl (or_itself (t.conns i).is_congested) s)
  | inr n ↦ subst IsSafe (sym (if_false _ _ n)) s
]
step-IsSafe channel_size (congested i) t l s = elim (Bool-cases (is_running (t.conns i).phase)) [
  | inl y ↦ subst IsSafe (sym (if_true _ _ y)) (touch-IsSafe i _ t refl refl refl (ground arith) s)
  | inr n ↦ subst IsSafe (sym (if_false _ _ n)) s
]
step-IsSafe channel_size (ended i) t l s = elim (Bool-cases (is_running (t.conns i).phase)) [
  | inl y ↦ subst IsSafe (sym (if_true _ _ y)) (end_handler-IsSafe i t y l s)
  | inr n ↦ subst IsSafe (sym (if_false _ _ n)) s
]
step-IsSafe channel_size requested t l s = record {
  settled = s.settled;
  entries = s.entries;
  waiting = s.waiting;
  ordered = s.ordered;
  open_running = s.open_running;
  calm = s.calm;
}

-- No handler of the run is faster than the goroutine that reads datagrams.
abbrev pub AllPrompt : ℕ → List UdpEvent → Listener → Type 0
AllPrompt channel_size [] t = Unit
AllPrompt channel_size (e ∷ es) t =
    IsPrompt e t × AllPrompt channel_size es (udp_step channel_size e t)

run-IsSafe :
    (channel_size : ℕ) (es : List UdpEvent) (t : Listener)
    → AllPrompt channel_size es t
    → IsSafe t
    → IsSafe (udp_run channel_size es t)
unfolding udp_run
run-IsSafe channel_size [] t l s = s
run-IsSafe channel_size (e ∷ es) t l s =
    run-IsSafe channel_size es (udp_step channel_size e t) l.1 (step-IsSafe channel_size e t l.0 s)

start-IsSafe : IsSafe listener_start
unfolding listener_start
start-IsSafe = record {
  settled = tt;
  entries = tt;
  waiting = tt;
  ordered = tt;
  open_running = λ i. refl;
  calm = refl;
}

-- In whatever order datagrams arrive and are stored, queued and sent on, and handlers start, take
-- payloads, find congestion and end: no datagram is sent to a payload channel that is closed, and no
-- payload channel is closed twice, which would end the process with a panic. The one thing that must not
-- happen is that a handler ends after its connection has been put into `udpChan` and before the goroutine
-- that put it there has sent the first datagram, which it does outside the mutex.
pub udp_run-calm :
    (channel_size : ℕ) (es : List UdpEvent)
    → AllPrompt channel_size es listener_start
    → (udp_run channel_size es listener_start).panicked ≡ false
udp_run-calm channel_size es l = (run-IsSafe channel_size es listener_start l start-IsSafe).calm
