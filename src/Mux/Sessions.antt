-- ===== src/Mux/Sessions.antt =====
-- `acceptLocalConn`, `handleLoop`, `handleSession` and `handleSessionError` of
-- internal/server/transport/{tcpmux,wsmux}.go, which are the same but for log lines and socket options:
-- local connections wait in `localChannel`, and each session takes as many of them as its channel
-- `counter` has room for. A step is what a goroutine does between two points where it may wait. A
-- session takes its slot of `counter` before it waits for a connection; the slot is counted here once
-- the connection is there. The counters stay below 2 ^ 31. The test that
-- a connection is one of TCP is left out, since the listeners are TCP listeners.
use ttest.Prelude.{
  ℕ, zero, suc, ◌+◌, ◌-◌, ◌*◌, List, [], ◌∷◌, ◌++◌, Option, none, some, ltb, leb, if◌then◌else◌,
  length, Bytes,
}

-- LocalTCPConn, with a number in place of the connection
pub record LocalConn : Type 0 where
  pub id : ℕ
  pub remote_addr : Bytes
  pub time_created : ℕ

-- Where the goroutine of a session stands.
pub data Phase : Type 0 where
  serving : Phase  -- in the loop
  putting_back : LocalConn → Phase  -- in the send to `localChannel` after a failed SendBinaryString
  giving_up : LocalConn → Phase  -- in the send of handleSessionError
  returned : Phase

pub record Session : Type 0 where
  pub active : List LocalConn  -- those whose data is exchanged
  pub lost_slots : ℕ  -- slots of `counter` that no goroutine gives back
  pub phase : Phase

pub record Mux : Type 0 where
  pub local_channel : List LocalConn
  pub requests : ℕ  -- the signals in `reqNewConnChan`
  pub stream_counter : ℕ
  pub session_counter : ℕ
  pub sessions : List Session
  pub ended : List LocalConn  -- closed: too old, or after the exchange of data
  pub refused : List LocalConn  -- closed on arrival, as the channel was full
  pub next_id : ℕ

-- What `OpenStream` and `SendBinaryString` do for a connection.
pub data Attempt : Type 0 where
  open_failed send_failed sent : Attempt

-- A number names a session by its place in the list.
pub data MuxEvent : Type 0 where
  local_accepted : Bytes → ℕ → MuxEvent  -- with the address of the listener and the time
  session_arrived : MuxEvent  -- <-s.tunnelChannel
  conn_taken : ℕ → ℕ → Attempt → MuxEvent  -- <-s.localChannel of a session, at a time
  put_back : ℕ → MuxEvent  -- the send to `localChannel` goes through
  stream_ended : ℕ → ℕ → MuxEvent  -- TCPConnectionHandler returns, for a place in `active`
  session_cancelled : ℕ → MuxEvent  -- <-s.ctx.Done() of a session
  request_taken : MuxEvent  -- <-s.reqNewConnChan of the channel handler

abbrev pub fresh_session : Session
fresh_session = record { active = []; lost_slots = 0; phase = serving }

abbrev pub slots : Session → ℕ
slots s = length s.active + s.lost_slots

abbrev pub session_at : List Session → ℕ → Option Session
session_at [] i = none
session_at (s ∷ ss) zero = some s
session_at (s ∷ ss) (suc i) = session_at ss i

abbrev pub with_session : List Session → ℕ → Session → List Session
with_session [] i t = []
with_session (s ∷ ss) zero t = t ∷ ss
with_session (s ∷ ss) (suc i) t = s ∷ with_session ss i t

abbrev pub set_session : ℕ → Session → Mux → Mux
set_session i s m = record m { sessions = with_session m.sessions i s }

abbrev pub remove_nth : ℕ → List LocalConn → Option (LocalConn × List LocalConn)
remove_nth n [] = none
remove_nth zero (c ∷ cs) = some (c, cs)
remove_nth (suc n) (c ∷ cs) = elim (remove_nth n cs) [
  | none ↦ none
  | some (d, ds) ↦ some (d, c ∷ ds)
]

-- `ChannelSize` and `MuxCon` of the configuration
module _ (channel_size mux_con : ℕ) where
  abbrev pub requests_after : ℕ → ℕ
  requests_after requests = if ltb requests channel_size then requests + 1 else requests

  abbrev pub request_conn : Mux → Mux
  request_conn m = record m { requests = requests_after m.requests }

  abbrev pub request_if_busy : Mux → Mux
  request_if_busy m = record m {
    requests =
        if leb (m.session_counter * mux_con) m.stream_counter
        then requests_after m.requests
        else m.requests;
  }

  abbrev pub accept_local : LocalConn → Mux → Mux
  accept_local c m =
      if ltb (length m.local_channel) channel_size
      then request_if_busy (record m {
        local_channel = m.local_channel ++ (c ∷ []);
        stream_counter = m.stream_counter + 1;
        next_id = suc m.next_id;
      })
      else record m { refused = c ∷ m.refused; next_id = suc m.next_id }

  -- A session that has taken a connection which is not too old.
  abbrev pub attempt : ℕ → Session → LocalConn → Attempt → Mux → Mux
  attempt i s c open_failed m =
      set_session i (record s { phase = giving_up c })
        (record m { session_counter = m.session_counter - 1 })
  attempt i s c send_failed m = set_session i (record s { phase = putting_back c }) m
  attempt i s c sent m = set_session i (record s { active = c ∷ s.active }) m

  abbrev pub take_conn : ℕ → ℕ → Attempt → Session → List LocalConn → Mux → Mux
  take_conn i now a s [] m = m
  take_conn i now a s (c ∷ cs) m =
      if ltb (c.time_created + 3000) now
      then record m {
        local_channel = cs;
        ended = c ∷ m.ended;
        stream_counter = m.stream_counter - 1;
      }
      else attempt i s c a (record m { local_channel = cs })

  abbrev pub on_taken : ℕ → ℕ → Attempt → Session → Phase → Mux → Mux
  on_taken i now a s serving m =
      if ltb (slots s) mux_con then take_conn i now a s m.local_channel m else m
  on_taken i now a s _ m = m

  -- The loop goes on with a new slot; `handleSessionError` asks for a new session.
  abbrev pub on_put_back : ℕ → Session → Phase → Mux → Mux
  on_put_back i s (putting_back c) m =
      set_session i (record s { lost_slots = s.lost_slots + 1; phase = serving })
        (record m { local_channel = m.local_channel ++ (c ∷ []) })
  on_put_back i s (giving_up c) m = request_conn (
      set_session i (record s { phase = returned })
        (record m { local_channel = m.local_channel ++ (c ∷ []) }))
  on_put_back i s _ m = m

  abbrev pub on_stream_ended : ℕ → Session → Option (LocalConn × List LocalConn) → Mux → Mux
  on_stream_ended i s none m = m
  on_stream_ended i s (some (c, rest)) m =
      set_session i (record s { active = rest })
        (record m { ended = c ∷ m.ended; stream_counter = m.stream_counter - 1 })

  -- A session without a free slot waits at its counter and does not see the cancellation.
  abbrev pub on_cancelled : ℕ → Session → Phase → Mux → Mux
  on_cancelled i s serving m =
      if ltb (slots s) mux_con then set_session i (record s { phase = returned }) m else m
  on_cancelled i s _ m = m

  abbrev pub on_session : (Session → Mux → Mux) → Option Session → Mux → Mux
  on_session f none m = m
  on_session f (some s) m = f s m

  unfoldable pub mux_step : MuxEvent → Mux → Mux
  mux_step (local_accepted addr now) m =
      accept_local (record { id = m.next_id; remote_addr = addr; time_created = now }) m
  mux_step session_arrived m = record m {
    sessions = m.sessions ++ (fresh_session ∷ []);
    session_counter = m.session_counter + 1;
  }
  mux_step (conn_taken i now a) m =
      on_session (λ s. on_taken i now a s s.phase) (session_at m.sessions i) m
  mux_step (put_back i) m =
      if ltb (length m.local_channel) channel_size
      then on_session (λ s. on_put_back i s s.phase) (session_at m.sessions i) m
      else m
  mux_step (stream_ended i n) m =
      on_session (λ s. on_stream_ended i s (remove_nth n s.active)) (session_at m.sessions i) m
  mux_step (session_cancelled i) m =
      on_session (λ s. on_cancelled i s s.phase) (session_at m.sessions i) m
  mux_step request_taken m = record m { requests = m.requests - 1 }

  unfoldable pub mux_run : List MuxEvent → Mux → Mux
  mux_run [] m = m
  mux_run (e ∷ es) m = mux_run es (mux_step e m)

unfoldable pub mux_start : Mux
mux_start = record {
  local_channel = [];
  requests = 0;
  stream_counter = 0;
  session_counter = 0;
  sessions = [];
  ended = [];
  refused = [];
  next_id = 0;
}
