-- ===== src/Pool/Tests.antt =====
-- A client with a pool of two connections.
use ttest.Prelude.{ℕ, ◌≡◌, refl, List, [], ◌∷◌, ◌++◌, arith, false, true, ◌+◌, ◌-◌, ◌≤◌}
use ttest.Control.Client.{ClientControl}
use ttest.Pool.Maintainer.{
  PoolEvent, chan_signal, dialed, load_tick, Pool, factors, pool_run, pool_maintainer,
}
use ttest.Pool.Balance.{chan_signals, pending, pool_maintainer-balanced}
use ttest.Pool.Periods.{IsReady, IsIdle, period, periods, pool_run-idle}

-- The control channel plays no part here.
abbrev control : ClientControl ℕ
control = record {
  conn = 0;
  restarts = 0;
  stopped = false;
  reading = true;
  load_connections = 0;
  control_flow = 0;
  dials = 0;
}

abbrev events : List PoolEvent
events = dialed ∷ chan_signal ∷ period ++ (chan_signal ∷ load_tick ∷ [])

pool_maintainer-balanced_example :
    ((pool_maintainer false 2 events control).control.dials
      ≡ chan_signals events
        + ((pool_maintainer false 2 events control).new_size
            + pending (pool_maintainer false 2 events control)))
    × ((pool_maintainer false 2 events control).conn_pool_size
        ≤ (pool_maintainer false 2 events control).new_size)
    × ((pool_maintainer false 2 events control).control.control_flow ≤ 100)
pool_maintainer-balanced_example = pool_maintainer-balanced false 2 events control refl refl

-- Five connections where two are wanted.
abbrev large : Pool ℕ
large = record {
  control = control;
  pool_connections = 5;
  conn_pool_size = 2;
  new_size = 5;
  sum = 0;
  blocked = false;
  ended = false;
}

large-IsReady : IsReady large
large-IsReady = record {
  running = refl;
  free = refl;
  no_sum = refl;
  few = omega arith;
  no_load_overflow = omega arith;
}

large-IsIdle : IsIdle large
large-IsIdle = record {
  ready = large-IsReady;
  no_load = refl;
  stocked = omega arith;
  not_below = omega arith;
}

pool_run-idle_example : (pool_run (factors false) (periods 2) large).new_size ≡ 2 + ((5 - 2) - 2)
pool_run-idle_example = pool_run-idle false 2 large large-IsIdle (omega arith)
