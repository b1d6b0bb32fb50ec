-- ===== src/Mux/Counts.antt =====
-- The counter of streams of the server, and the numbers of its local connections.
use ttest.Prelude.{
  ℕ, zero, suc, ◌+◌, ◌≤◌, ◌≡◌, refl, ◌∙◌, List, [], ◌∷◌, Option, none, some, ltb, ◌==◌,
  if◌then◌else◌, length, arith, Option-cases, inl, inr, if_either,
}
use ttest.Mux.Sessions.{
  LocalConn, Phase, serving, putting_back, giving_up, returned, Session, Mux, Attempt, open_failed,
  send_failed, sent, MuxEvent, local_accepted, session_arrived, conn_taken, put_back, stream_ended,
  session_cancelled, request_taken, mux_step, mux_run, mux_start, slots, session_at, remove_nth,
  attempt, take_conn, on_taken, on_put_back, on_stream_ended, on_cancelled, on_session,
}
use ttest.Mux.Places.{
  weight, session_weight, sessions_weight, live, all_places, below, AllPlaced, run-AllPlaced,
  step-AllPlaced, weight-remove_nth,
}

abbrev one : ℕ → ℕ
one _ = 1

abbrev pub live_conns : Mux → ℕ
live_conns m = live one m

below-one : (n : ℕ) → below one n ≡ n
below-one zero = refl
below-one (suc n) = omega (arith, below-one n)

weight-one : (cs : List LocalConn) → weight one cs ≡ length cs
weight-one [] = refl
weight-one (c ∷ cs) = omega (arith, weight-one cs)

session_weight_le :
    (ss : List Session) (i : ℕ) (s : Session)
    → session_at ss i ≡ some s
    → session_weight one s ≤ sessions_weight one ss
session_weight_le [] i s h = cc
session_weight_le (t ∷ ss) zero s h = ground arith
session_weight_le (t ∷ ss) (suc i) s h = omega (arith, session_weight_le ss i s h)

-- What is not counted as a stream has been closed.
abbrev ClosedRest : Mux → Type 0
ClosedRest m = m.stream_counter + (weight one m.ended + weight one m.refused) ≡ m.next_id

stream_counter-live : (m : Mux) → AllPlaced one m → ClosedRest m → m.stream_counter ≡ live_conns m
stream_counter-live m h k = omega (arith, below-one m.next_id)

abbrev is : ℕ → ℕ → ℕ
is k i = if i == k then 1 else 0

below-is : (k n : ℕ) → below (is k) n ≡ (if ltb k n then 1 else 0)
below-is k zero = ground arith
below-is k (suc n) = ground (arith, below-is k n)

-- How often the connection with the number `k` occurs: in the local channel, in a session, in the
-- hands of a session that puts it back, among those that were closed.
abbrev pub occurrences : ℕ → Mux → ℕ
occurrences k m = all_places (is k) m

module _ (channel_size mux_con : ℕ) where
  attempt-ClosedRest :
      (i : ℕ) (s : Session) (c : LocalConn) (cs : List LocalConn) (a : Attempt) (m : Mux)
      → ClosedRest m
      → ClosedRest (attempt channel_size mux_con i s c a (record m { local_channel = cs }))
  attempt-ClosedRest i s c cs open_failed m k = k
  attempt-ClosedRest i s c cs send_failed m k = k
  attempt-ClosedRest i s c cs sent m k = k

  take_conn-ClosedRest :
      (i now : ℕ) (a : Attempt) (s : Session) (q : List LocalConn) (m : Mux)
      → m.local_channel ≡ q
      → AllPlaced one m
      → ClosedRest m
      → ClosedRest (take_conn channel_size mux_con i now a s q m)
  take_conn-ClosedRest i now a s [] m e h k = k
  take_conn-ClosedRest i now a s (c ∷ cs) m e h k =
      if_either ClosedRest (ltb (c.time_created + 3000) now) _ _
        (λ late. ground (arith, stream_counter-live m h k))
        (λ fresh. attempt-ClosedRest i s c cs a m k)

  on_taken-ClosedRest :
      (i now : ℕ) (a : Attempt) (s : Session) (ph : Phase) (m : Mux)
      → AllPlaced one m
      → ClosedRest m
      → ClosedRest (on_taken channel_size mux_con i now a s ph m)
  on_taken-ClosedRest i now a s serving m h k =
      if_either ClosedRest (ltb (slots s) mux_con) _ _
        (λ free. take_conn-ClosedRest i now a s m.local_channel m refl h k) (λ none_left. k)
  on_taken-ClosedRest i now a s (putting_back c) m h k = k
  on_taken-ClosedRest i now a s (giving_up c) m h k = k
  on_taken-ClosedRest i now a s returned m h k = k

  on_put_back-ClosedRest :
      (i : ℕ) (s : Session) (ph : Phase) (m : Mux)
      → ClosedRest m
      → ClosedRest (on_put_back channel_size mux_con i s ph m)
  on_put_back-ClosedRest i s serving m k = k
  on_put_back-ClosedRest i s (putting_back c) m k = k
  on_put_back-ClosedRest i s (giving_up c) m k = k
  on_put_back-ClosedRest i s returned m k = k

  on_cancelled-ClosedRest :
      (i : ℕ) (s : Session) (ph : Phase) (m : Mux)
      → ClosedRest m
      → ClosedRest (on_cancelled channel_size mux_con i s ph m)
  on_cancelled-ClosedRest i s serving m k =
      if_either ClosedRest (ltb (slots s) mux_con) _ _ (λ free. k) (λ full. k)
  on_cancelled-ClosedRest i s (putting_back c) m k = k
  on_cancelled-ClosedRest i s (giving_up c) m k = k
  on_cancelled-ClosedRest i s returned m k = k

  on_stream_ended-ClosedRest :
      (i n : ℕ) (s : Session) (m : Mux)
      → session_at m.sessions i ≡ some s
      → AllPlaced one m
      → ClosedRest m
      → ClosedRest (on_stream_ended channel_size mux_con i s (remove_nth n s.active) m)
  on_stream_ended-ClosedRest i n s m at h k = elim (Option-cases (remove_nth n s.active)) [
    | inl e ↦ rw e k
    | inr ((c, rest), e) ↦ rw e (
        omega (
          arith,
          weight-remove_nth one n s.active rest c e,
          stream_counter-live m h k,
          session_weight_le m.sessions i s at,
        ))
  ]

  on_session-ClosedRest :
      (f : Session → Mux → Mux) (o : Option Session) (m : Mux)
      → ((s : Session) → o ≡ some s → ClosedRest (f s m))
      → ClosedRest m
      → ClosedRest (on_session channel_size mux_con f o m)
  on_session-ClosedRest f none m k h = h
  on_session-ClosedRest f (some s) m k h = k s refl

  step-ClosedRest :
      (e : MuxEvent) (m : Mux)
      → AllPlaced one m
      → ClosedRest m
      → ClosedRest (mux_step channel_size mux_con e m)
  unfolding mux_step
  step-ClosedRest (local_accepted addr now) m h k =
      if_either ClosedRest (ltb (length m.local_channel) channel_size) _ _ (λ room. omega arith)
        (λ full. omega arith)
  step-ClosedRest session_arrived m h k = k
  step-ClosedRest (conn_taken i now a) m h k =
      on_session-ClosedRest _ (session_at m.sessions i) m
        (λ s at. on_taken-ClosedRest i now a s s.phase m h k) k
  step-ClosedRest (put_back i) m h k =
      if_either ClosedRest (ltb (length m.local_channel) channel_size) _ _
        (λ room.
          on_session-ClosedRest _ (session_at m.sessions i) m
            (λ s at. on_put_back-ClosedRest i s s.phase m k) k)
        (λ full. k)
  step-ClosedRest (stream_ended i n) m h k =
      on_session-ClosedRest _ (session_at m.sessions i) m
        (λ s at. on_stream_ended-ClosedRest i n s m at h k) k
  step-ClosedRest (session_cancelled i) m h k =
      on_session-ClosedRest _ (session_at m.sessions i) m
        (λ s at. on_cancelled-ClosedRest i s s.phase m k) k
  step-ClosedRest request_taken m h k = k

  run-ClosedRest :
      (es : List MuxEvent) (m : Mux)
      → AllPlaced one m
      → ClosedRest m
      → ClosedRest (mux_run channel_size mux_con es m)
  unfolding mux_run
  run-ClosedRest [] m h k = k
  run-ClosedRest (e ∷ es) m h k =
      run-ClosedRest es _ (step-AllPlaced one channel_size mux_con e m h) (step-ClosedRest e m h k)

  -- After any run from the start, each connection that the server has accepted is in exactly one place,
  -- no other is anywhere, and the counter of streams is the number of connections that are not closed.
  pub mux_run-placed :
      (es : List MuxEvent) (k : ℕ)
      → let m = mux_run channel_size mux_con es mux_start in
        (occurrences k m ≡ (if ltb k m.next_id then 1 else 0)) × (m.stream_counter ≡ live_conns m)
  unfolding mux_start
  mux_run-placed es k =
      let m = mux_run channel_size mux_con es mux_start in
      (
        run-AllPlaced (is k) channel_size mux_con es mux_start refl ∙ below-is k m.next_id,
        stream_counter-live m (run-AllPlaced one channel_size mux_con es mux_start refl)
            (run-ClosedRest es mux_start refl refl),
      )
