-- ===== src/Pool/Balance.antt =====
-- Every dial of a tunnel connection is accounted for.
use ttest.Prelude.{subst, ℕ, suc, ◌+◌, ◌≤◌, ◌≡◌, Bool, true, List, [], ◌∷◌, arith, if◌then◌else◌}
use ttest.Control.Client.{ClientControl}
use ttest.Pool.Maintainer.{
  Factors, factors, Pool, PoolEvent, chan_signal, dialed, claimed, pool_tick, load_tick,
  pool_cancelled, pool_step, pool_run, pool_start, pool_maintainer,
}

abbrev pub chan_signals : List PoolEvent → ℕ
chan_signals [] = 0
chan_signals (chan_signal ∷ es) = suc (chan_signals es)
chan_signals (dialed ∷ es) = chan_signals es
chan_signals (claimed ∷ es) = chan_signals es
chan_signals (pool_tick ∷ es) = chan_signals es
chan_signals (load_tick ∷ es) = chan_signals es
chan_signals (pool_cancelled ∷ es) = chan_signals es

-- The signals to shrink that no request has taken yet.
abbrev pub pending : {C : Type 0} → Pool C → ℕ
pending p = p.control.control_flow + (if p.blocked then 1 else 0)

-- `n` requests have been heard.
pub record IsBalanced {C : Type 0} (n : ℕ) (p : Pool C) : Type 0 where
  pub dials_split : p.control.dials ≡ n + (p.new_size + pending p)
  pub not_below : p.conn_pool_size ≤ p.new_size
  pub in_capacity : p.control.control_flow ≤ 100
  pub blocked_full : p.blocked ≡ true → p.control.control_flow ≡ 100

module _ {C : Type 0} where
  chan-IsBalanced :
      (f : Factors) (n : ℕ) (p : Pool C)
      → IsBalanced n p
      → IsBalanced (suc n) (pool_step f chan_signal p)
  unfolding pool_step
  chan-IsBalanced f n p b = ground arith

  load-IsBalanced :
      (f : Factors) (n : ℕ) (p : Pool C) → IsBalanced n p → IsBalanced n (pool_step f load_tick p)
  unfolding pool_step
  load-IsBalanced f n p b = ground arith

  pool_tick-IsBalanced :
      (f : Factors) (n : ℕ) (p : Pool C) → IsBalanced n p → IsBalanced n (pool_step f pool_tick p)
  unfolding pool_step
  pool_tick-IsBalanced f n p b = ground arith

  run-IsBalanced :
      (f : Factors) (n : ℕ) (es : List PoolEvent) (p : Pool C)
      → IsBalanced n p
      → IsBalanced (n + chan_signals es) (pool_run f es p)
  unfolding pool_run pool_step
  run-IsBalanced f n [] p b = ground arith
  run-IsBalanced f n (chan_signal ∷ es) p b =
      subst (λ k. IsBalanced k (pool_run f es (pool_step f chan_signal p))) (omega arith)
        (run-IsBalanced f (suc n) es (pool_step f chan_signal p) (chan-IsBalanced f n p b))
  run-IsBalanced f n (dialed ∷ es) p b = run-IsBalanced f n es (pool_step f dialed p) (ground arith)
  run-IsBalanced f n (claimed ∷ es) p b =
      run-IsBalanced f n es (pool_step f claimed p) (ground arith)
  run-IsBalanced f n (pool_tick ∷ es) p b =
      run-IsBalanced f n es (pool_step f pool_tick p) (pool_tick-IsBalanced f n p b)
  run-IsBalanced f n (load_tick ∷ es) p b =
      run-IsBalanced f n es (pool_step f load_tick p) (load-IsBalanced f n p b)
  run-IsBalanced f n (pool_cancelled ∷ es) p b =
      run-IsBalanced f n es (pool_step f pool_cancelled p) (ground arith)

  -- Whatever the requests, the tunnel connections and the two tickers do from a start without dials
  -- and waiting signals on: every dial of a tunnel connection is one for a request, one of the
  -- pool's present size, or matched by a signal to shrink that no request has taken yet. The size
  -- never falls below `ConnPoolSize`, and at most 100 signals wait in the channel.
  pub pool_maintainer-balanced :
      (aggressive_pool : Bool) (size : ℕ) (es : List PoolEvent) (c : ClientControl C)
      → c.dials ≡ 0
      → c.control_flow ≡ 0
      → let p = pool_maintainer aggressive_pool size es c in
        (p.control.dials ≡ chan_signals es + (p.new_size + pending p))
        × (p.conn_pool_size ≤ p.new_size)
        × (p.control.control_flow ≤ 100)
  unfolding pool_maintainer pool_start
  pool_maintainer-balanced aggressive_pool size es c d h =
      let b = run-IsBalanced (factors aggressive_pool) 0 es (pool_start size c) (ground arith) in
      (omega (arith, b.dials_split), b.not_below, b.in_capacity)
