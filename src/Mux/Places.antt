-- ===== src/Mux/Places.antt =====
-- Where the local connections of the server are: each in one place, and the counter of streams with it.
use ttest.Prelude.{
  ℕ, zero, suc, ◌+◌, ◌≡◌, refl, List, [], ◌∷◌, ◌++◌, Option, none, some, ltb, length, Bytes, arith,
  Option-cases, inl, inr, if_either,
}
use ttest.Mux.Sessions.{
  LocalConn, Phase, serving, putting_back, giving_up, returned, Session, Mux, Attempt, open_failed,
  send_failed, sent, MuxEvent, local_accepted, session_arrived, conn_taken, put_back, stream_ended,
  session_cancelled, request_taken, mux_step, mux_run, fresh_session, slots, session_at,
  with_session, remove_nth, accept_local, attempt, take_conn, on_taken, on_put_back,
  on_stream_ended, on_cancelled, on_session,
}

-- The sum of what `w` gives for the connections of a list, of a session, of all sessions.
module _ (w : ℕ → ℕ) where
  abbrev pub weight : List LocalConn → ℕ
  weight [] = 0
  weight (c ∷ cs) = w c.id + weight cs

  abbrev pub held : Phase → ℕ
  held serving = 0
  held (putting_back c) = w c.id
  held (giving_up c) = w c.id
  held returned = 0

  abbrev pub session_weight : Session → ℕ
  session_weight s = weight s.active + held s.phase

  abbrev pub sessions_weight : List Session → ℕ
  sessions_weight [] = 0
  sessions_weight (s ∷ ss) = session_weight s + sessions_weight ss

  -- The connections that the server still has to do with.
  abbrev pub live : Mux → ℕ
  live m = weight m.local_channel + sessions_weight m.sessions

  abbrev pub all_places : Mux → ℕ
  all_places m = live m + (weight m.ended + weight m.refused)

  abbrev pub below : ℕ → ℕ
  below zero = 0
  below (suc n) = w n + below n

  weight-append : (cs ds : List LocalConn) → weight (cs ++ ds) ≡ weight cs + weight ds
  weight-append [] ds = omega arith
  weight-append (c ∷ cs) ds = omega (arith, weight-append cs ds)

  sessions_weight-append :
      (ss : List Session) (t : Session)
      → sessions_weight (ss ++ (t ∷ [])) ≡ sessions_weight ss + session_weight t
  sessions_weight-append [] t = omega arith
  sessions_weight-append (s ∷ ss) t = omega (arith, sessions_weight-append ss t)

  pub sessions_weight-with_session :
      (ss : List Session) (i : ℕ) (s t : Session)
      → session_at ss i ≡ some s
      → sessions_weight (with_session ss i t) + session_weight s
        ≡ sessions_weight ss + session_weight t
  sessions_weight-with_session [] i s t h = cc
  sessions_weight-with_session (u ∷ ss) zero s t h = ground arith
  sessions_weight-with_session (u ∷ ss) (suc i) s t h =
      omega (arith, sessions_weight-with_session ss i s t h)

  pub weight-remove_nth :
      (n : ℕ) (cs ds : List LocalConn) (c : LocalConn)
      → remove_nth n cs ≡ some (c, ds)
      → weight cs ≡ w c.id + weight ds
  weight-remove_nth n [] ds c h = cc
  weight-remove_nth zero (b ∷ cs) ds c h = ground arith
  weight-remove_nth (suc n) (b ∷ cs) ds c h = elim (Option-cases (remove_nth n cs)) [
    | inl e ↦ ground arith
    | inr (r, e) ↦ ground (arith, weight-remove_nth n cs r.1 r.0 e)
  ]

  -- Every connection that was accepted is in one place.
  abbrev pub AllPlaced : Mux → Type 0
  AllPlaced m = all_places m ≡ below m.next_id

  module _ (channel_size mux_con : ℕ) where
    accept_local-AllPlaced :
        (addr : Bytes) (now : ℕ) (m : Mux)
        → AllPlaced m
        → AllPlaced (
            accept_local channel_size mux_con
              (record { id = m.next_id; remote_addr = addr; time_created = now })
              m)
    accept_local-AllPlaced addr now m h =
        if_either AllPlaced (ltb (length m.local_channel) channel_size) _ _
          (λ room. omega (
            arith,
            weight-append m.local_channel
                (record { id = m.next_id; remote_addr = addr; time_created = now } ∷ []),
          ))
          (λ full. omega arith)

    attempt-AllPlaced :
        (i : ℕ) (s : Session) (c : LocalConn) (cs : List LocalConn) (a : Attempt) (m : Mux)
        → s.phase ≡ serving
        → session_at m.sessions i ≡ some s
        → m.local_channel ≡ c ∷ cs
        → AllPlaced m
        → AllPlaced (attempt channel_size mux_con i s c a (record m { local_channel = cs }))
    attempt-AllPlaced i s c cs open_failed m p at q h =
        ground
          (arith, sessions_weight-with_session m.sessions i s (record s { phase = giving_up c }) at)
    attempt-AllPlaced i s c cs send_failed m p at q h = ground (
      arith,
      sessions_weight-with_session m.sessions i s (record s { phase = putting_back c }) at,
    )
    attempt-AllPlaced i s c cs sent m p at q h =
        ground (
          arith,
          sessions_weight-with_session m.sessions i s (record s { active = c ∷ s.active }) at,
        )

    take_conn-AllPlaced :
        (i now : ℕ) (s : Session) (q : List LocalConn) (a : Attempt) (m : Mux)
        → s.phase ≡ serving
        → session_at m.sessions i ≡ some s
        → m.local_channel ≡ q
        → AllPlaced m
        → AllPlaced (take_conn channel_size mux_con i now a s q m)
    take_conn-AllPlaced i now s [] a m p at e h = h
    take_conn-AllPlaced i now s (c ∷ cs) a m p at e h =
        if_either AllPlaced (ltb (c.time_created + 3000) now) _ _ (λ late. ground arith)
          (λ fresh. attempt-AllPlaced i s c cs a m p at e h)

    on_taken-AllPlaced :
        (i now : ℕ) (s : Session) (ph : Phase) (a : Attempt) (m : Mux)
        → s.phase ≡ ph
        → session_at m.sessions i ≡ some s
        → AllPlaced m
        → AllPlaced (on_taken channel_size mux_con i now a s ph m)
    on_taken-AllPlaced i now s serving a m p at h =
        if_either AllPlaced (ltb (slots s) mux_con) _ _
          (λ free. take_conn-AllPlaced i now s m.local_channel a m p at refl h) (λ none_left. h)
    on_taken-AllPlaced i now s (putting_back c) a m p at h = h
    on_taken-AllPlaced i now s (giving_up c) a m p at h = h
    on_taken-AllPlaced i now s returned a m p at h = h

    on_put_back-AllPlaced :
        (i : ℕ) (s : Session) (ph : Phase) (m : Mux)
        → s.phase ≡ ph
        → session_at m.sessions i ≡ some s
        → AllPlaced m
        → AllPlaced (on_put_back channel_size mux_con i s ph m)
    on_put_back-AllPlaced i s serving m p at h = h
    on_put_back-AllPlaced i s returned m p at h = h
    on_put_back-AllPlaced i s (putting_back c) m p at h = ground (
      arith,
      weight-append m.local_channel (c ∷ []),
      sessions_weight-with_session m.sessions i s
          (record s { lost_slots = s.lost_slots + 1; phase = serving }) at,
    )
    on_put_back-AllPlaced i s (giving_up c) m p at h = ground (
      arith,
      weight-append m.local_channel (c ∷ []),
      sessions_weight-with_session m.sessions i s (record s { phase = returned }) at,
    )

    on_stream_ended-AllPlaced :
        (i n : ℕ) (s : Session) (m : Mux)
        → session_at m.sessions i ≡ some s
        → AllPlaced m
        → AllPlaced (on_stream_ended channel_size mux_con i s (remove_nth n s.active) m)
    on_stream_ended-AllPlaced i n s m at h = elim (Option-cases (remove_nth n s.active)) [
      | inl e ↦ rw e h
      | inr ((c, rest), e) ↦ rw e (
          ground (
            arith,
            weight-remove_nth n s.active rest c e,
            sessions_weight-with_session m.sessions i s (record s { active = rest }) at,
          ))
    ]

    on_cancelled-AllPlaced :
        (i : ℕ) (s : Session) (ph : Phase) (m : Mux)
        → s.phase ≡ ph
        → session_at m.sessions i ≡ some s
        → AllPlaced m
        → AllPlaced (on_cancelled channel_size mux_con i s ph m)
    on_cancelled-AllPlaced i s serving m p at h =
        ground
          (arith, sessions_weight-with_session m.sessions i s (record s { phase = returned }) at)
    on_cancelled-AllPlaced i s (putting_back c) m p at h = h
    on_cancelled-AllPlaced i s (giving_up c) m p at h = h
    on_cancelled-AllPlaced i s returned m p at h = h

    on_session-AllPlaced :
        (f : Session → Mux → Mux) (o : Option Session) (m : Mux)
        → ((s : Session) → o ≡ some s → AllPlaced (f s m))
        → AllPlaced m
        → AllPlaced (on_session channel_size mux_con f o m)
    on_session-AllPlaced f none m k h = h
    on_session-AllPlaced f (some s) m k h = k s refl

    pub step-AllPlaced :
        (e : MuxEvent) (m : Mux) → AllPlaced m → AllPlaced (mux_step channel_size mux_con e m)
    unfolding mux_step
    step-AllPlaced (local_accepted addr now) m h = accept_local-AllPlaced addr now m h
    step-AllPlaced session_arrived m h =
        omega (arith, sessions_weight-append m.sessions fresh_session)
    step-AllPlaced (conn_taken i now a) m h =
        on_session-AllPlaced _ (session_at m.sessions i) m
          (λ s at. on_taken-AllPlaced i now s s.phase a m refl at h) h
    step-AllPlaced (put_back i) m h =
        if_either AllPlaced (ltb (length m.local_channel) channel_size) _ _
          (λ room.
            on_session-AllPlaced _ (session_at m.sessions i) m
              (λ s at. on_put_back-AllPlaced i s s.phase m refl at h) h)
          (λ full. h)
    step-AllPlaced (stream_ended i n) m h =
        on_session-AllPlaced _ (session_at m.sessions i) m
          (λ s at. on_stream_ended-AllPlaced i n s m at h) h
    step-AllPlaced (session_cancelled i) m h =
        on_session-AllPlaced _ (session_at m.sessions i) m
          (λ s at. on_cancelled-AllPlaced i s s.phase m refl at h) h
    step-AllPlaced request_taken m h = h

    pub run-AllPlaced :
        (es : List MuxEvent) (m : Mux) → AllPlaced m → AllPlaced (mux_run channel_size mux_con es m)
    unfolding mux_run
    run-AllPlaced [] m h = h
    run-AllPlaced (e ∷ es) m h = run-AllPlaced es _ (step-AllPlaced e m h)
