-- ===== src/Mux/Bounds.antt =====
-- The limits of the server's sessions: `MuxCon` and the capacities of its channels.
use ttest.Prelude.{
  ℕ, zero, suc, ◌+◌, ◌<◌, ◌≤◌, ◌≡◌, refl, subst, sym, List, [], ◌∷◌, ◌++◌, Option, none, some, ltb,
  length, arith, Option-cases, inl, inr, if_either, All, All-append, length-append,
}
use ttest.Mux.Sessions.{
  LocalConn, Phase, serving, putting_back, giving_up, returned, Session, Mux, Attempt, open_failed,
  send_failed, sent, MuxEvent, local_accepted, session_arrived, conn_taken, put_back, stream_ended,
  session_cancelled, request_taken, mux_step, mux_run, mux_start, fresh_session, slots, session_at,
  with_session, set_session, remove_nth, requests_after, accept_local, attempt, take_conn, on_taken,
  on_put_back, on_stream_ended, on_cancelled, on_session,
}

-- The slots of `counter` that are in use.
abbrev waiting : Phase → ℕ
waiting serving = 0
waiting (putting_back c) = 1
waiting (giving_up c) = 1
waiting returned = 0

abbrev session_or : Session → Option Session → Session
session_or t none = t
session_or t (some s) = s

All-session_at :
    (P : Session → Type 0) (ss : List Session) (i : ℕ) (s : Session)
    → session_at ss i ≡ some s
    → All P ss
    → P s
All-session_at P [] i s h a = cc
All-session_at P (t ∷ ss) zero s h a = subst (λ o. P (session_or t o)) h a.0
All-session_at P (t ∷ ss) (suc i) s h a = All-session_at P ss i s h a.1

All-with_session :
    (P : Session → Type 0) (ss : List Session) (i : ℕ) (t : Session)
    → P t
    → All P ss
    → All P (with_session ss i t)
All-with_session P [] i t p a = tt
All-with_session P (s ∷ ss) zero t p a = (p, a.1)
All-with_session P (s ∷ ss) (suc i) t p a = (a.0, All-with_session P ss i t p a.1)

length-remove_nth :
    (n : ℕ) (cs ds : List LocalConn) (c : LocalConn)
    → remove_nth n cs ≡ some (c, ds)
    → length cs ≡ suc (length ds)
length-remove_nth n [] ds c h = cc
length-remove_nth zero (b ∷ cs) ds c h = ground arith
length-remove_nth (suc n) (b ∷ cs) ds c h = elim (Option-cases (remove_nth n cs)) [
  | inl e ↦ ground arith
  | inr (r, e) ↦ ground (arith, length-remove_nth n cs r.1 r.0 e)
]

module _ (channel_size mux_con : ℕ) where
  abbrev pub FitsCounter : Session → Type 0
  FitsCounter s = slots s + waiting s.phase ≤ mux_con

  pub record IsBounded (m : Mux) : Type 0 where
    pub sessions_fit : All FitsCounter m.sessions
    pub few_waiting : length m.local_channel ≤ channel_size
    pub few_requests : m.requests ≤ channel_size

  requests_after_le :
      (n : ℕ) → n ≤ channel_size → requests_after channel_size mux_con n ≤ channel_size
  requests_after_le n h = ground arith

  -- A step that changes one session and keeps the channels within their capacities.
  set_session-IsBounded :
      (i : ℕ) (s t : Session) (m m' : Mux)
      → IsBounded m
      → session_at m.sessions i ≡ some s
      → (FitsCounter s → FitsCounter t)
      → m'.sessions ≡ m.sessions
      → length m'.local_channel ≤ channel_size
      → m'.requests ≤ channel_size
      → IsBounded (set_session i t m')
  set_session-IsBounded i s t m m' b at f e q r = record {
    sessions_fit =
        All-with_session FitsCounter m'.sessions i t
          (f (All-session_at FitsCounter m.sessions i s at b.sessions_fit))
          (subst (All FitsCounter) (sym e) b.sessions_fit);
    few_waiting = q;
    few_requests = r;
  }

  accept_local-IsBounded :
      (c : LocalConn) (m : Mux) → IsBounded m → IsBounded (accept_local channel_size mux_con c m)
  accept_local-IsBounded c m b =
      if_either IsBounded (ltb (length m.local_channel) channel_size) _ _
        (λ room. record {
          sessions_fit = b.sessions_fit;
          few_waiting = ground (arith, length-append m.local_channel (c ∷ []));
          few_requests = ground (arith, b.few_requests);
        })
        (λ full. record {
          sessions_fit = b.sessions_fit;
          few_waiting = b.few_waiting;
          few_requests = b.few_requests;
        })

  attempt-IsBounded :
      (i : ℕ) (s : Session) (c : LocalConn) (cs : List LocalConn) (a : Attempt) (m : Mux)
      → s.phase ≡ serving
      → slots s < mux_con
      → session_at m.sessions i ≡ some s
      → m.local_channel ≡ c ∷ cs
      → IsBounded m
      → IsBounded (attempt channel_size mux_con i s c a (record m { local_channel = cs }))
  attempt-IsBounded i s c cs open_failed m p l at q b =
      set_session-IsBounded i s _ m _ b at (λ h. omega arith) refl (ground (arith, b.few_waiting))
        b.few_requests
  attempt-IsBounded i s c cs send_failed m p l at q b =
      set_session-IsBounded i s _ m _ b at (λ h. omega arith) refl (ground (arith, b.few_waiting))
        b.few_requests
  attempt-IsBounded i s c cs sent m p l at q b =
      set_session-IsBounded i s _ m _ b at (λ h. ground arith) refl (ground (arith, b.few_waiting))
        b.few_requests

  take_conn-IsBounded :
      (i now : ℕ) (a : Attempt) (s : Session) (q : List LocalConn) (m : Mux)
      → s.phase ≡ serving
      → slots s < mux_con
      → session_at m.sessions i ≡ some s
      → m.local_channel ≡ q
      → IsBounded m
      → IsBounded (take_conn channel_size mux_con i now a s q m)
  take_conn-IsBounded i now a s [] m p l at e b = b
  take_conn-IsBounded i now a s (c ∷ cs) m p l at e b =
      if_either IsBounded (ltb (c.time_created + 3000) now) _ _
        (λ late. record {
          sessions_fit = b.sessions_fit;
          few_waiting = ground (arith, b.few_waiting);
          few_requests = b.few_requests;
        })
        (λ fresh. attempt-IsBounded i s c cs a m p l at e b)

  on_taken-IsBounded :
      (i now : ℕ) (a : Attempt) (s : Session) (ph : Phase) (m : Mux)
      → s.phase ≡ ph
      → session_at m.sessions i ≡ some s
      → IsBounded m
      → IsBounded (on_taken channel_size mux_con i now a s ph m)
  on_taken-IsBounded i now a s serving m p at b =
      if_either IsBounded (ltb (slots s) mux_con) _ _
        (λ free. take_conn-IsBounded i now a s m.local_channel m p (ground arith) at refl b)
        (λ none_left. b)
  on_taken-IsBounded i now a s (putting_back c) m p at b = b
  on_taken-IsBounded i now a s (giving_up c) m p at b = b
  on_taken-IsBounded i now a s returned m p at b = b

  on_put_back-IsBounded :
      (i : ℕ) (s : Session) (ph : Phase) (m : Mux)
      → s.phase ≡ ph
      → session_at m.sessions i ≡ some s
      → length m.local_channel < channel_size
      → IsBounded m
      → IsBounded (on_put_back channel_size mux_con i s ph m)
  on_put_back-IsBounded i s serving m p at room b = b
  on_put_back-IsBounded i s returned m p at room b = b
  on_put_back-IsBounded i s (putting_back c) m p at room b =
      set_session-IsBounded i s _ m _ b at (λ h. ground arith) refl
        (omega (arith, length-append m.local_channel (c ∷ []))) b.few_requests
  on_put_back-IsBounded i s (giving_up c) m p at room b =
      set_session-IsBounded i s _ m
        (record m {
          local_channel = m.local_channel ++ (c ∷ []);
          requests = requests_after channel_size mux_con m.requests;
        })
        b at (λ h. ground arith) refl (omega (arith, length-append m.local_channel (c ∷ [])))
        (requests_after_le m.requests b.few_requests)

  on_stream_ended-IsBounded :
      (i n : ℕ) (s : Session) (m : Mux)
      → session_at m.sessions i ≡ some s
      → IsBounded m
      → IsBounded (on_stream_ended channel_size mux_con i s (remove_nth n s.active) m)
  on_stream_ended-IsBounded i n s m at b = elim (Option-cases (remove_nth n s.active)) [
    | inl e ↦ rw e b
    | inr ((c, rest), e) ↦ rw e (
        set_session-IsBounded i s (record s { active = rest }) m _ b at
          (λ h. omega (arith, length-remove_nth n s.active rest c e)) refl b.few_waiting
          b.few_requests)
  ]

  on_cancelled-IsBounded :
      (i : ℕ) (s : Session) (ph : Phase) (m : Mux)
      → s.phase ≡ ph
      → session_at m.sessions i ≡ some s
      → IsBounded m
      → IsBounded (on_cancelled channel_size mux_con i s ph m)
  on_cancelled-IsBounded i s serving m p at b =
      if_either IsBounded (ltb (slots s) mux_con) _ _
        (λ free.
          set_session-IsBounded i s (record s { phase = returned }) m m b at (λ h. ground arith)
            refl b.few_waiting b.few_requests)
        (λ full. b)
  on_cancelled-IsBounded i s (putting_back c) m p at b = b
  on_cancelled-IsBounded i s (giving_up c) m p at b = b
  on_cancelled-IsBounded i s returned m p at b = b

  on_session-IsBounded :
      (f : Session → Mux → Mux) (o : Option Session) (m : Mux)
      → ((s : Session) → o ≡ some s → IsBounded (f s m))
      → IsBounded m
      → IsBounded (on_session channel_size mux_con f o m)
  on_session-IsBounded f none m k h = h
  on_session-IsBounded f (some s) m k h = k s refl

  step-IsBounded :
      (e : MuxEvent) (m : Mux) → IsBounded m → IsBounded (mux_step channel_size mux_con e m)
  unfolding mux_step
  step-IsBounded (local_accepted addr now) m b = accept_local-IsBounded _ m b
  step-IsBounded session_arrived m b = record {
    sessions_fit =
        All-append FitsCounter m.sessions (fresh_session ∷ []) b.sessions_fit (omega arith, tt);
    few_waiting = b.few_waiting;
    few_requests = b.few_requests;
  }
  step-IsBounded (conn_taken i now a) m b =
      on_session-IsBounded _ (session_at m.sessions i) m
        (λ s at. on_taken-IsBounded i now a s s.phase m refl at b) b
  step-IsBounded (put_back i) m b =
      if_either IsBounded (ltb (length m.local_channel) channel_size) _ _
        (λ room.
          on_session-IsBounded _ (session_at m.sessions i) m
            (λ s at. on_put_back-IsBounded i s s.phase m refl at (ground arith) b) b)
        (λ full. b)
  step-IsBounded (stream_ended i n) m b =
      on_session-IsBounded _ (session_at m.sessions i) m
        (λ s at. on_stream_ended-IsBounded i n s m at b) b
  step-IsBounded (session_cancelled i) m b =
      on_session-IsBounded _ (session_at m.sessions i) m
        (λ s at. on_cancelled-IsBounded i s s.phase m refl at b) b
  step-IsBounded request_taken m b = record {
    sessions_fit = b.sessions_fit;
    few_waiting = b.few_waiting;
    few_requests = omega (arith, b.few_requests);
  }

  run-IsBounded :
      (es : List MuxEvent) (m : Mux) → IsBounded m → IsBounded (mux_run channel_size mux_con es m)
  unfolding mux_run
  run-IsBounded [] m b = b
  run-IsBounded (e ∷ es) m b = run-IsBounded es _ (step-IsBounded e m b)

  -- After any run from the start, no session exchanges the data of more than `MuxCon` connections, and
  -- neither the channel of local connections nor that of the requests holds more than `ChannelSize`
  -- elements.
  pub mux_run-IsBounded :
      (es : List MuxEvent) → IsBounded (mux_run channel_size mux_con es mux_start)
  unfolding mux_start
  mux_run-IsBounded es =
      run-IsBounded es mux_start
        (record { sessions_fit = tt; few_waiting = omega arith; few_requests = omega arith })
