-- ===== src/Mux/Lost.antt =====
-- The slots of `counter` that the server's sessions lose when an address cannot be sent.
use ttest.Prelude.{
  ℕ, zero, suc, ◌+◌, ◌<◌, ◌≤◌, ◌≡◌, refl, ap, ◌∙◌, subst, sym, Bool, true, false, List, [], ◌∷◌,
  ◌++◌, Option, none, some, ltb, length, Bytes, arith, Option-cases, inl, inr, if_either,
}
use mathlib.Core.Option.{some-injective}
use ttest.Mux.Sessions.{
  LocalConn, Phase, serving, putting_back, giving_up, returned, Session, Mux, Attempt, open_failed,
  send_failed, sent, MuxEvent, local_accepted, session_arrived, conn_taken, put_back, stream_ended,
  session_cancelled, request_taken, mux_step, mux_run, mux_start, fresh_session, slots, session_at,
  with_session, remove_nth, accept_local, attempt, take_conn, on_taken, on_put_back,
  on_stream_ended, on_cancelled, on_session,
}

abbrev in_loop : Phase → Bool
in_loop serving = true
in_loop (putting_back c) = false
in_loop (giving_up c) = false
in_loop returned = true

-- `n` times the session 0 takes a connection, cannot send its address, and puts it back.
abbrev pub failures : ℕ → ℕ → List MuxEvent
failures now zero = []
failures now (suc n) = conn_taken 0 now send_failed ∷ put_back 0 ∷ failures now n

module _ (channel_size mux_con : ℕ) where
  -- All the slots of the session are lost.
  pub record IsStuck (s : Session) : Type 0 where
    pub no_streams : s.active ≡ []
    pub all_lost : s.lost_slots ≡ mux_con
    pub holds_none : in_loop s.phase ≡ true

  abbrev pub StuckAt : List Session → ℕ → Type 0
  StuckAt [] i = true ≡ false
  StuckAt (s ∷ ss) zero = IsStuck s
  StuckAt (s ∷ ss) (suc i) = StuckAt ss i

  with_session-StuckAt :
      (ss : List Session) (i j : ℕ) (s t : Session)
      → session_at ss j ≡ some s
      → (IsStuck s → IsStuck t)
      → StuckAt ss i
      → StuckAt (with_session ss j t) i
  with_session-StuckAt [] i j s t at f h = h
  with_session-StuckAt (u ∷ ss) zero zero s t at f h = f (subst IsStuck (some-injective _ _ at) h)
  with_session-StuckAt (u ∷ ss) zero (suc j) s t at f h = h
  with_session-StuckAt (u ∷ ss) (suc i) zero s t at f h = h
  with_session-StuckAt (u ∷ ss) (suc i) (suc j) s t at f h = with_session-StuckAt ss i j s t at f h

  append-StuckAt :
      (ss : List Session) (t : Session) (i : ℕ) → StuckAt ss i → StuckAt (ss ++ (t ∷ [])) i
  append-StuckAt [] t i h = cc
  append-StuckAt (s ∷ ss) t zero h = h
  append-StuckAt (s ∷ ss) t (suc i) h = append-StuckAt ss t i h

  module _ (i : ℕ) where
    abbrev IsStuckMux : Mux → Type 0
    IsStuckMux m = StuckAt m.sessions i

    accept_local-IsStuckMux :
        (c : LocalConn) (m : Mux)
        → IsStuckMux m
        → IsStuckMux (accept_local channel_size mux_con c m)
    accept_local-IsStuckMux c m h =
        if_either IsStuckMux (ltb (length m.local_channel) channel_size) _ _ (λ room. h) (λ full. h)

    -- With a free slot the session is not stuck.
    attempt-IsStuckMux :
        (j : ℕ) (s : Session) (c : LocalConn) (cs : List LocalConn) (a : Attempt) (m : Mux)
        → slots s < mux_con
        → session_at m.sessions j ≡ some s
        → IsStuckMux m
        → IsStuckMux (attempt channel_size mux_con j s c a (record m { local_channel = cs }))
    attempt-IsStuckMux j s c cs open_failed m l at h =
        with_session-StuckAt m.sessions i j s _ at (λ k. absurd (omega (arith, k.all_lost))) h
    attempt-IsStuckMux j s c cs send_failed m l at h =
        with_session-StuckAt m.sessions i j s _ at (λ k. absurd (omega (arith, k.all_lost))) h
    attempt-IsStuckMux j s c cs sent m l at h =
        with_session-StuckAt m.sessions i j s _ at (λ k. absurd (omega (arith, k.all_lost))) h

    take_conn-IsStuckMux :
        (j now : ℕ) (a : Attempt) (s : Session) (q : List LocalConn) (m : Mux)
        → slots s < mux_con
        → session_at m.sessions j ≡ some s
        → IsStuckMux m
        → IsStuckMux (take_conn channel_size mux_con j now a s q m)
    take_conn-IsStuckMux j now a s [] m l at h = h
    take_conn-IsStuckMux j now a s (c ∷ cs) m l at h =
        if_either IsStuckMux (ltb (c.time_created + 3000) now) _ _ (λ late. h)
          (λ fresh. attempt-IsStuckMux j s c cs a m l at h)

    on_taken-IsStuckMux :
        (j now : ℕ) (a : Attempt) (s : Session) (ph : Phase) (m : Mux)
        → session_at m.sessions j ≡ some s
        → IsStuckMux m
        → IsStuckMux (on_taken channel_size mux_con j now a s ph m)
    on_taken-IsStuckMux j now a s serving m at h =
        if_either IsStuckMux (ltb (slots s) mux_con) _ _
          (λ free. take_conn-IsStuckMux j now a s m.local_channel m (ground arith) at h)
          (λ none_left. h)
    on_taken-IsStuckMux j now a s (putting_back c) m at h = h
    on_taken-IsStuckMux j now a s (giving_up c) m at h = h
    on_taken-IsStuckMux j now a s returned m at h = h

    on_put_back-IsStuckMux :
        (j : ℕ) (s : Session) (ph : Phase) (m : Mux)
        → s.phase ≡ ph
        → session_at m.sessions j ≡ some s
        → IsStuckMux m
        → IsStuckMux (on_put_back channel_size mux_con j s ph m)
    on_put_back-IsStuckMux j s serving m p at h = h
    on_put_back-IsStuckMux j s returned m p at h = h
    on_put_back-IsStuckMux j s (putting_back c) m p at h =
        with_session-StuckAt m.sessions i j s _ at (λ k. absurd (ground (arith, k.holds_none))) h
    on_put_back-IsStuckMux j s (giving_up c) m p at h =
        with_session-StuckAt m.sessions i j s _ at (λ k. absurd (ground (arith, k.holds_none))) h

    on_stream_ended-IsStuckMux :
        (j n : ℕ) (s : Session) (m : Mux)
        → session_at m.sessions j ≡ some s
        → IsStuckMux m
        → IsStuckMux (on_stream_ended channel_size mux_con j s (remove_nth n s.active) m)
    on_stream_ended-IsStuckMux j n s m at h = elim (Option-cases (remove_nth n s.active)) [
      | inl e ↦ rw e h
      | inr (r, e) ↦ rw e (
          with_session-StuckAt m.sessions i j s _ at
            (λ k. absurd (none_removed n s r k.no_streams e)) h)
    ]
      where
        none_removed :
            (n : ℕ) (s : Session) (r : LocalConn × List LocalConn)
            → s.active ≡ []
            → remove_nth n s.active ≡ some r
            → ⊥
        none_removed n s r a e = ground arith

    on_cancelled-IsStuckMux :
        (j : ℕ) (s : Session) (ph : Phase) (m : Mux)
        → session_at m.sessions j ≡ some s
        → IsStuckMux m
        → IsStuckMux (on_cancelled channel_size mux_con j s ph m)
    on_cancelled-IsStuckMux j s serving m at h =
        if_either IsStuckMux (ltb (slots s) mux_con) _ _
          (λ free.
            with_session-StuckAt m.sessions i j s (record s { phase = returned }) at
              (λ k. record { no_streams = k.no_streams; all_lost = k.all_lost; holds_none = refl })
              h)
          (λ full. h)
    on_cancelled-IsStuckMux j s (putting_back c) m at h = h
    on_cancelled-IsStuckMux j s (giving_up c) m at h = h
    on_cancelled-IsStuckMux j s returned m at h = h

    on_session-IsStuckMux :
        (f : Session → Mux → Mux) (o : Option Session) (m : Mux)
        → ((s : Session) → o ≡ some s → IsStuckMux (f s m))
        → IsStuckMux m
        → IsStuckMux (on_session channel_size mux_con f o m)
    on_session-IsStuckMux f none m k h = h
    on_session-IsStuckMux f (some s) m k h = k s refl

    step-IsStuckMux :
        (e : MuxEvent) (m : Mux) → IsStuckMux m → IsStuckMux (mux_step channel_size mux_con e m)
    unfolding mux_step
    step-IsStuckMux (local_accepted addr now) m h = accept_local-IsStuckMux _ m h
    step-IsStuckMux session_arrived m h = append-StuckAt m.sessions fresh_session i h
    step-IsStuckMux (conn_taken j now a) m h =
        on_session-IsStuckMux _ (session_at m.sessions j) m
          (λ s at. on_taken-IsStuckMux j now a s s.phase m at h) h
    step-IsStuckMux (put_back j) m h =
        if_either IsStuckMux (ltb (length m.local_channel) channel_size) _ _
          (λ room.
            on_session-IsStuckMux _ (session_at m.sessions j) m
              (λ s at. on_put_back-IsStuckMux j s s.phase m refl at h) h)
          (λ full. h)
    step-IsStuckMux (stream_ended j n) m h =
        on_session-IsStuckMux _ (session_at m.sessions j) m
          (λ s at. on_stream_ended-IsStuckMux j n s m at h) h
    step-IsStuckMux (session_cancelled j) m h =
        on_session-IsStuckMux _ (session_at m.sessions j) m
          (λ s at. on_cancelled-IsStuckMux j s s.phase m at h) h
    step-IsStuckMux request_taken m h = h

    run-IsStuckMux :
        (es : List MuxEvent) (m : Mux)
        → IsStuckMux m
        → IsStuckMux (mux_run channel_size mux_con es m)
    unfolding mux_run
    run-IsStuckMux [] m h = h
    run-IsStuckMux (e ∷ es) m h = run-IsStuckMux es _ (step-IsStuckMux e m h)

  abbrev with_lost : Mux → LocalConn → ℕ → Mux
  with_lost m c lost = record m {
    local_channel = c ∷ [];
    sessions = record { active = []; lost_slots = lost; phase = serving } ∷ [];
  }

  one_failure :
      (m : Mux) (c : LocalConn) (now lost : ℕ)
      → 1 ≤ channel_size
      → now ≤ c.time_created + 3000
      → lost < mux_con
      → mux_step channel_size mux_con
          (put_back 0)
          (mux_step channel_size mux_con (conn_taken 0 now send_failed) (with_lost m c lost))
        ≡ with_lost m c (lost + 1)
  unfolding mux_step
  one_failure m c now lost room young free = ground arith

  all_failures :
      (m : Mux) (c : LocalConn) (now n lost : ℕ) (es : List MuxEvent)
      → 1 ≤ channel_size
      → now ≤ c.time_created + 3000
      → lost + n ≤ mux_con
      → mux_run channel_size mux_con (failures now n ++ es) (with_lost m c lost)
        ≡ mux_run channel_size mux_con es (with_lost m c (lost + n))
  unfolding mux_run
  all_failures m c now zero lost es room young fits =
      ap (λ k. mux_run channel_size mux_con es (with_lost m c k)) (omega arith)
  all_failures m c now (suc n) lost es room young fits =
      ap (λ k. mux_run channel_size mux_con (failures now n ++ es) k)
        (one_failure m c now lost room young (omega arith))
      ∙ all_failures m c now n (lost + 1) es room young (omega arith)
      ∙ ap (λ k. mux_run channel_size mux_con es (with_lost m c k)) (omega arith)

  abbrev first_conn : Bytes → ℕ → LocalConn
  first_conn addr t = record { id = 0; remote_addr = addr; time_created = t }

  abbrev one_of_each : Bytes → ℕ → Mux
  one_of_each addr t =
      mux_step channel_size mux_con (local_accepted addr t)
        (mux_step channel_size mux_con session_arrived mux_start)

  one_of_each-with_lost :
      (addr : Bytes) (t : ℕ)
      → 1 ≤ channel_size
      → one_of_each addr t ≡ with_lost (one_of_each addr t) (first_conn addr t) 0
  unfolding mux_step mux_start
  one_of_each-with_lost addr t room = ground arith

  -- A server with one session and one local connection, where the channel has room for one, and where
  -- nothing happens but that the session fails `MuxCon` times in a row to send that connection's address,
  -- at one time within 3 seconds of its arrival, has a stuck session: whatever happens after that, it
  -- serves no connection, and all its slots remain taken.
  pub send_failures-StuckAt :
      (addr : Bytes) (t now : ℕ) (es : List MuxEvent)
      → 1 ≤ channel_size
      → now ≤ t + 3000
      → let m =
          mux_run channel_size mux_con
            (session_arrived ∷ local_accepted addr t ∷ (failures now mux_con ++ es))
            mux_start in
        StuckAt m.sessions 0
  unfolding mux_run
  send_failures-StuckAt addr t now es room young =
      subst (IsStuckMux 0)
        (sym (
          ap (mux_run channel_size mux_con (failures now mux_con ++ es))
            (one_of_each-with_lost addr t room)
          ∙ all_failures (one_of_each addr t) (first_conn addr t) now mux_con 0 es room young
              (omega arith)))
        (run-IsStuckMux 0 es _
          (record { no_streams = refl; all_lost = omega arith; holds_none = refl }))
