-- ===== src/Udp/Sending.antt =====
-- What the goroutine that reads datagrams does keeps the invariant of the table.
use ttest.Prelude.{
  ℕ, ◌≡◌, refl, sym, ap, subst, ◌∙◌, true, false, not, ◌&&◌, ◌||◌, [], ◌∷◌, ◌++◌, ltb, length,
  Bytes, All-append, arith, Bool-cases, inl, inr, ==_refl, if_true, if_false,
}
use ttest.Udp.Listener.{
  created, queued, Reading, at_read, stored, placed, asking, place, pay, resume, UdpLocal, Listener,
  update, deliver, fresh, open_new,
}
use ttest.Udp.Invariant.{
  is_started, All-both, All-map, Entry-touch, Increasing-snoc, IsSafe, Settled, Settled-update,
  Waits-other, Waits-same, new_entries, new_waiting, or_itself, running-update,
}

-- A change of a connection that runs or waits, in its payload or by a mark of congestion.
pub touch-IsSafe :
    (i : ℕ) (u : UdpLocal) (t : Listener)
    → u.client_addr ≡ (t.conns i).client_addr
    → u.closed ≡ (t.conns i).closed
    → u.phase ≡ (t.conns i).phase
    → not (t.conns i).is_congested || u.is_congested ≡ true
    → IsSafe t
    → IsSafe (record t { conns = update i u t.conns })
touch-IsSafe i u t a c p g s = record {
  settled =
      Settled-update i u t.conns t.next t.udp_chan t.reading (λ e. p) (λ e. c) (λ e. c) s.settled;
  entries = All-map (λ x. Entry-touch i u t.conns t.next x a c g) t.active s.entries;
  waiting = All-map (λ j h. Waits-same i u t.conns t.next j c p h) t.udp_chan s.waiting;
  ordered = s.ordered;
  open_running =
      running-update i u t.conns
        (ap (λ q. is_started q && u.closed) p
          ∙ (ap (λ q. is_started (t.conns i).phase && q) c ∙ s.open_running i))
        s.open_running;
  calm = s.calm;
}

pub deliver-IsSafe :
    (i : ℕ) (buf : Bytes) (t : Listener)
    → (t.conns i).closed ≡ false
    → IsSafe t
    → IsSafe (deliver i buf t)
deliver-IsSafe i buf t c s = elim (Bool-cases (ltb (length (t.conns i).payload) 100000)) [
  | inl y ↦
      subst IsSafe (sym (if_false _ _ c ∙ if_true _ _ y))
        (touch-IsSafe i _ t refl refl refl (or_itself (t.conns i).is_congested) s)
  | inr n ↦ subst IsSafe (sym (if_false _ _ c ∙ if_false _ _ n)) s
]

pub open_new-IsSafe : (key buf : Bytes) (t : Listener) → IsSafe t → IsSafe (open_new key buf t)
open_new-IsSafe key buf t s = record {
  settled = (
    omega arith,
    ap (λ (u : UdpLocal). u.phase) (if_true _ _ (==_refl t.next)),
    ap (λ (u : UdpLocal). u.closed) (if_true _ _ (==_refl t.next)),
    All-map (λ j h. h.0) t.udp_chan s.waiting,
  );
  entries = ((ground (arith, ==_refl t.next)), new_entries key (fresh key [] created) t s);
  waiting = new_waiting (fresh key [] created) t s;
  ordered = s.ordered;
  open_running = running-update t.next _ t.conns refl s.open_running;
  calm = s.calm;
}

place-IsSafe :
    (channel_size i : ℕ) (buf : Bytes) (t : Listener)
    → Settled t.conns t.next t.udp_chan (stored i buf)
    → IsSafe t
    → IsSafe (place channel_size i buf t)
place-IsSafe channel_size i buf t h s = elim (Bool-cases (ltb (length t.udp_chan) channel_size)) [
  | inl y ↦
      let u : UdpLocal = record (t.conns i) { phase = queued } in
      let mine : update i u t.conns i ≡ u = if_true _ _ (==_refl i) in
      subst IsSafe (sym (if_true _ _ y)) (record {
        settled = ap (λ (v : UdpLocal). v.closed) mine ∙ h.2;
        entries =
            All-map
              (λ x. Entry-touch i u t.conns t.next x refl refl (or_itself (t.conns i).is_congested))
              t.active s.entries;
        waiting =
            All-append _ t.udp_chan (i ∷ [])
              (All-both
                (λ j l w. Waits-other i u t.conns t.next j (λ q. absurd (omega (arith, l, q))) w)
                t.udp_chan h.3 s.waiting)
              (
                (
                  h.0,
                  ap (λ (v : UdpLocal). v.phase) mine,
                  ap (λ (v : UdpLocal). v.closed) mine ∙ h.2,
                ),
                tt,
              );
        ordered = Increasing-snoc t.udp_chan i h.3 s.ordered;
        open_running = running-update i u t.conns refl s.open_running;
        calm = s.calm;
      })
  | inr n ↦ subst IsSafe (sym (if_false _ _ n)) (record {
    settled = tt;
    entries = s.entries;
    waiting = s.waiting;
    ordered = s.ordered;
    open_running = s.open_running;
    calm = s.calm;
  })
]

pay-IsSafe :
    (i : ℕ) (buf : Bytes) (t : Listener)
    → (t.conns i).closed ≡ false
    → IsSafe t
    → IsSafe (pay i buf t)
pay-IsSafe i buf t c s =
    let s' =
      touch-IsSafe i (record (t.conns i) { payload = (t.conns i).payload ++ (buf ∷ []) }) t refl
        refl refl (or_itself (t.conns i).is_congested) s in
    subst IsSafe (sym (if_false _ _ c)) (record {
      settled = tt;
      entries = s'.entries;
      waiting = s'.waiting;
      ordered = s'.ordered;
      open_running = s'.open_running;
      calm = s'.calm;
    })

pub resume-IsSafe :
    (channel_size : ℕ) (r : Reading) (t : Listener)
    → Settled t.conns t.next t.udp_chan r
    → IsSafe t
    → IsSafe (resume channel_size r t)
resume-IsSafe channel_size at_read t h s = s
resume-IsSafe channel_size (stored i buf) t h s = place-IsSafe channel_size i buf t h s
resume-IsSafe channel_size (placed i buf) t h s = pay-IsSafe i buf t h s
resume-IsSafe channel_size asking t h s = record {
  settled = tt;
  entries = s.entries;
  waiting = s.waiting;
  ordered = s.ordered;
  open_running = s.open_running;
  calm = s.calm;
}
