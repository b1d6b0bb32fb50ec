-- ===== src/Mux/Tests.antt =====
-- Two local connections and one session.
use ttest.Prelude.{◌≡◌, ltb, if◌then◌else◌, [], ◌∷◌, ◌++◌, List, codes, arith}
use ttest.Mux.Sessions.{
  MuxEvent, local_accepted, session_arrived, conn_taken, put_back, stream_ended, request_taken,
  sent, send_failed, mux_run, mux_start,
}
use ttest.Mux.Counts.{occurrences, live_conns, mux_run-placed}
use ttest.Mux.Bounds.{IsBounded, mux_run-IsBounded}
use ttest.Mux.Lost.{StuckAt, failures, send_failures-StuckAt}

abbrev events : List MuxEvent
events =
    session_arrived
    ∷ local_accepted (codes "80") 100
    ∷ conn_taken 0 200 sent
    ∷ local_accepted (codes "81") 300
    ∷ conn_taken 0 400 send_failed
    ∷ put_back 0
    ∷ stream_ended 0 0
    ∷ request_taken
    ∷ []

mux_run-placed_example :
    (occurrences 0 (mux_run 2 4 events mux_start)
      ≡ (if ltb 0 (mux_run 2 4 events mux_start).next_id then 1 else 0))
    × ((mux_run 2 4 events mux_start).stream_counter ≡ live_conns (mux_run 2 4 events mux_start))
mux_run-placed_example = mux_run-placed 2 4 events 0

mux_run-IsBounded_example : IsBounded 2 4 (mux_run 2 4 events mux_start)
mux_run-IsBounded_example = mux_run-IsBounded 2 4 events

send_failures-StuckAt_example :
    StuckAt 1 2
      (mux_run 1 2
        (session_arrived ∷ local_accepted (codes "80") 100 ∷ (failures 200 2 ++ events))
        mux_start).sessions
      0
send_failures-StuckAt_example =
    send_failures-StuckAt 1 2 (codes "80") 100 200 events (omega arith) (omega arith)
