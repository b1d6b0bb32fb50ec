-- ===== src/Pool/Maintainer.antt =====
-- `poolMaintainer` of internal/client/transport/{tcp,tcpmux,ws,wsmux,udp}.go, which are the same but
-- for log lines and the stagger of the first dials in tcp.go, together with what it shares with
-- `channelHandler` and `tunnelDialer` of the same files: the counters and the channel `controlFlow`.
-- An `int32` is the bit pattern of its value. `ConnPoolSize` is positive (Config.Validity).
use ttest.Prelude.{
  ℕ, ◌+◌, ◌-◌, ◌*◌, ◌/◌, ◌%◌, ◌^◌, Bool, true, false, ◌&&◌, List, [], ◌∷◌, ltb, if◌then◌else◌,
}
use ttest.Control.Client.{ClientControl, on_chan}

-- a, b, x, and four times y
pub record Factors : Type 0 where
  pub a : ℕ
  pub b : ℕ
  pub x : ℕ
  pub y_quarters : ℕ

abbrev pub factors : Bool → Factors
factors true = record { a = 1; b = 2; x = 0; y_quarters = 3 }
factors false = record { a = 4; b = 5; x = 3; y_quarters = 16 }

-- `(int(n) + 9) / 10`, which may be negative, plus `offset`. Go's division cuts towards zero.
abbrev pub offset : ℕ
offset = 2 ^ 32

unfoldable pub per_second : ℕ → ℕ
per_second n = if ltb n (2 ^ 31) then offset + (n + 9) / 10 else offset - (2 ^ 32 - n - 9) / 10

-- (load + a) > pool * b, with the offsets of both
unfoldable pub grows : Factors → ℕ → ℕ → Bool
grows f load pool = ltb (pool * f.b + offset) (load + f.a + offset * f.b)

-- float64(load+x) < float64(pool)*y. The values are below 2 ^ 31, so the float64s are exact.
unfoldable pub shrinks : Factors → ℕ → ℕ → Bool
shrinks f load pool =
    ltb (4 * (load + f.x) + offset * f.y_quarters) (pool * f.y_quarters + 4 * offset)

pub data PoolEvent : Type 0 where
  chan_signal : PoolEvent  -- the handler received SG_Chan
  dialed : PoolEvent  -- a `tunnelDialer` has its connection
  claimed : PoolEvent  -- and has the answer of the server, or an error
  pool_tick : PoolEvent  -- <-tickerPool.C
  load_tick : PoolEvent  -- <-tickerLoad.C
  pool_cancelled : PoolEvent  -- <-c.ctx.Done()

pub record Pool (C : Type 0) : Type 0 where
  pub control : ClientControl C
  pub pool_connections : ℕ
  pub conn_pool_size : ℕ
  pub new_size : ℕ
  pub sum : ℕ
  pub blocked : Bool  -- in the send to `controlFlow`
  pub ended : Bool

abbrev pub control_capacity : ℕ
control_capacity = 100

module _ {C : Type 0} where
  abbrev pub grow : Pool C → Pool C
  grow p = record p {
    new_size = p.new_size + 1;
    control = record p.control { dials = p.control.dials + 1 };
  }

  -- A full channel makes the send wait.
  abbrev pub send_flow : Pool C → Pool C
  send_flow p =
      if ltb p.control.control_flow control_capacity
      then record p { control = record p.control { control_flow = p.control.control_flow + 1 } }
      else record p { blocked = true }

  abbrev pub reset_counts : Pool C → Pool C
  reset_counts p = record p { sum = 0; control = record p.control { load_connections = 0 } }

  abbrev pub adjust : Factors → ℕ → ℕ → Pool C → Pool C
  adjust f load pool p =
      if grows f load pool
      then grow p
      else if shrinks f load pool && ltb p.conn_pool_size p.new_size
      then send_flow (record p { new_size = p.new_size - 1 })
      else p

  abbrev pub on_load_tick : Factors → Pool C → Pool C
  on_load_tick f p =
      adjust f (per_second p.control.load_connections) (per_second p.sum) (reset_counts p)

  -- The handler takes a signal of a full channel, and the waiting send goes through.
  abbrev pub on_chan_signal : Pool C → Pool C
  on_chan_signal p =
      if p.blocked
      then record p {
        control = record (on_chan p.control) { control_flow = p.control.control_flow };
        blocked = false;
      }
      else record p { control = on_chan p.control }

  -- While the maintainer waits in a send, ticks are lost and cancellation is not seen.
  module _ (f : Factors) where
    unfoldable pub pool_step : PoolEvent → Pool C → Pool C
    pool_step chan_signal p = on_chan_signal p
    pool_step dialed p = record p { pool_connections = (p.pool_connections + 1) % 2 ^ 32 }
    pool_step claimed p = record p {
      pool_connections = (p.pool_connections + (2 ^ 32 - 1)) % 2 ^ 32;
    }
    pool_step pool_tick p =
        if p.ended
        then p
        else if p.blocked
        then p
        else record p { sum = (p.sum + p.pool_connections) % 2 ^ 32 }
    pool_step load_tick p = if p.ended then p else if p.blocked then p else on_load_tick f p
    pool_step pool_cancelled p = if p.blocked then p else record p { ended = true }

    unfoldable pub pool_run : List PoolEvent → Pool C → Pool C
    pool_run [] p = p
    pool_run (e ∷ es) p = pool_run es (pool_step e p)

  -- The first dials are `ConnPoolSize` goroutines.
  unfoldable pub pool_start : ℕ → ClientControl C → Pool C
  pool_start size c = record {
    control = record c { dials = c.dials + size };
    pool_connections = 0;
    conn_pool_size = size;
    new_size = size;
    sum = 0;
    blocked = false;
    ended = false;
  }

  unfoldable pub pool_maintainer : Bool → ℕ → List PoolEvent → ClientControl C → Pool C
  pool_maintainer aggressive_pool size es c =
      pool_run (factors aggressive_pool) es (pool_start size c)

unfoldable pub tcpmux_pool_maintainer :
    {C : Type 0} → Bool → ℕ → List PoolEvent → ClientControl C → Pool C
tcpmux_pool_maintainer = pool_maintainer

unfoldable pub ws_pool_maintainer :
    {C : Type 0} → Bool → ℕ → List PoolEvent → ClientControl C → Pool C
ws_pool_maintainer = pool_maintainer

unfoldable pub wsmux_pool_maintainer :
    {C : Type 0} → Bool → ℕ → List PoolEvent → ClientControl C → Pool C
wsmux_pool_maintainer = pool_maintainer

unfoldable pub udp_pool_maintainer :
    {C : Type 0} → Bool → ℕ → List PoolEvent → ClientControl C → Pool C
udp_pool_maintainer = pool_maintainer
