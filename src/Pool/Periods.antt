-- ===== src/Pool/Periods.antt =====
-- What the maintainer decides over ten seconds in which the pool keeps its number of connections.
use ttest.Prelude.{
  ℕ, zero, suc, ◌+◌, ◌-◌, ◌*◌, ◌/◌, ◌^◌, ◌≤◌, ◌<◌, ◌≡◌, refl, Bool, true, false, ◌&&◌, List, [],
  ◌∷◌, ◌++◌, arith, ltb, if◌then◌else◌, ap, ◌∙◌, sym, subst,
}
use ttest.Pool.Maintainer.{
  Factors, factors, Pool, PoolEvent, pool_tick, load_tick, pool_step, pool_run, grows, shrinks,
  per_second,
}

-- The average is rounded up, and ten equal samples give the sample back.
per_second_exact : (n : ℕ) → n < 2 ^ 31 → per_second n ≡ 2 ^ 32 + (n + 9) / 10
unfolding per_second
per_second_exact n h = ground arith

per_second_ten : (n : ℕ) → 10 * n < 2 ^ 31 → per_second (10 * n) ≡ 2 ^ 32 + n
unfolding per_second
per_second_ten n h = ground arith

abbrev pub ticks : ℕ → List PoolEvent
ticks zero = []
ticks (suc n) = pool_tick ∷ ticks n

-- Ten seconds of the two tickers.
abbrev pub period : List PoolEvent
period = ticks 10 ++ (load_tick ∷ [])

abbrev pub periods : ℕ → List PoolEvent
periods zero = []
periods (suc k) = period ++ periods k

-- The maintainer is in its select, at the start of a period, and the counts are in range.
pub record IsReady {C : Type 0} (p : Pool C) : Type 0 where
  pub running : p.ended ≡ false
  pub free : p.blocked ≡ false
  pub no_sum : p.sum ≡ 0
  pub few : 10 * p.pool_connections < 2 ^ 31
  pub no_load_overflow : p.control.load_connections < 2 ^ 31

suc_times : (n k : ℕ) → suc n * k ≡ k + n * k
suc_times n k = grind arith

module _ {C : Type 0} where
  tick-sum :
      (f : Factors) (p : Pool C)
      → p.ended ≡ false
      → p.blocked ≡ false
      → p.sum + p.pool_connections < 2 ^ 31
      → pool_step f pool_tick p ≡ record p { sum = p.sum + p.pool_connections }
  unfolding pool_step
  tick-sum f p e b h = ground arith

  ticks-sum :
      (f : Factors) (n : ℕ) (es : List PoolEvent) (p : Pool C)
      → p.ended ≡ false
      → p.blocked ≡ false
      → p.sum + n * p.pool_connections < 2 ^ 31
      → pool_run f (ticks n ++ es) p
        ≡ pool_run f es (record p { sum = p.sum + n * p.pool_connections })
  unfolding pool_run
  ticks-sum f zero es p e b h = ap (λ k. pool_run f es (record p { sum = k })) (omega arith)
  ticks-sum f (suc n) es p e b h =
      ap (pool_run f (ticks n ++ es))
        (tick-sum f p e b (omega (arith, suc_times n p.pool_connections)))
      ∙ (ticks-sum f n es (record p { sum = p.sum + p.pool_connections }) e b
            (omega (arith, suc_times n p.pool_connections))
          ∙ ap (λ k. pool_run f es (record p { sum = k }))
              (omega (arith, suc_times n p.pool_connections)))

-- Ten seconds with `n` requests before them and `k` connections in the pool all the time.
abbrev pub should_grow : Factors → ℕ → ℕ → Bool
should_grow f n k = ltb (k * f.b) ((n + 9) / 10 + f.a)

abbrev pub should_shrink : Factors → ℕ → ℕ → Bool
should_shrink f n k = ltb (4 * ((n + 9) / 10 + f.x)) (k * f.y_quarters)

abbrev pub size_after : Factors → ℕ → ℕ → ℕ → ℕ → ℕ
size_after f n k base size =
    if should_grow f n k
    then size + 1
    else if should_shrink f n k && ltb base size
    then size - 1
    else size

grows_exact :
    (aggressive : Bool) (l k : ℕ)
    → grows (factors aggressive) (2 ^ 32 + l) (2 ^ 32 + k)
      ≡ ltb (k * (factors aggressive).b) (l + (factors aggressive).a)
unfolding grows
grows_exact true l k = ground arith
grows_exact false l k = ground arith

shrinks_exact :
    (aggressive : Bool) (l k : ℕ)
    → shrinks (factors aggressive) (2 ^ 32 + l) (2 ^ 32 + k)
      ≡ ltb (4 * (l + (factors aggressive).x)) (k * (factors aggressive).y_quarters)
unfolding shrinks
shrinks_exact true l k = ground arith
shrinks_exact false l k = ground arith

module _ {C : Type 0} where
  period-load :
      (f : Factors) (p : Pool C)
      → IsReady p
      → pool_run f period p ≡ pool_step f load_tick (record p { sum = 10 * p.pool_connections })
  unfolding pool_run
  period-load f p r =
      ticks-sum f 10 (load_tick ∷ []) p r.running r.free (omega (arith, r.no_sum, r.few))
      ∙ ap (λ k. pool_step f load_tick (record p { sum = k })) (omega (arith, r.no_sum))

  load-new_size :
      (aggressive : Bool) (p : Pool C)
      → IsReady p
      → (pool_step
          (factors aggressive)
          load_tick
          (record p { sum = 10 * p.pool_connections })).new_size
        ≡ size_after
            (factors aggressive)
            p.control.load_connections
            p.pool_connections
            p.conn_pool_size
            p.new_size
  unfolding pool_step
  load-new_size aggressive p r = ground (
    arith,
    r,
    per_second_exact p.control.load_connections r.no_load_overflow,
    per_second_ten p.pool_connections r.few,
    grows_exact aggressive ((p.control.load_connections + 9) / 10) p.pool_connections,
    shrinks_exact aggressive ((p.control.load_connections + 9) / 10) p.pool_connections,
  )

  -- Over ten seconds in which the pool keeps its number k of connections, with n requests counted
  -- before, no int32 overflow and the maintainer in its select: the size grows by one if b·k <
  -- ⌈n/10⌉ + a, else it shrinks by one if ⌈n/10⌉ + x < y·k and it is above `ConnPoolSize`, else it
  -- stays.
  period-new_size :
      (aggressive : Bool) (p : Pool C)
      → IsReady p
      → (pool_run (factors aggressive) period p).new_size
        ≡ size_after
            (factors aggressive)
            p.control.load_connections
            p.pool_connections
            p.conn_pool_size
            p.new_size
  period-new_size aggressive p r =
      ap (λ q. q.new_size) (period-load (factors aggressive) p r) ∙ load-new_size aggressive p r

  -- Nobody asks for connections, and the pool has some.
  pub record IsIdle (p : Pool C) : Type 0 where
    pub ready : IsReady p
    pub no_load : p.control.load_connections ≡ 0
    pub stocked : 1 ≤ p.pool_connections
    pub not_below : p.conn_pool_size ≤ p.new_size

  pub record OnePeriod (p q : Pool C) : Type 0 where
    pub idle : IsIdle q
    pub same_base : q.conn_pool_size ≡ p.conn_pool_size
    pub one_less : q.new_size - q.conn_pool_size ≡ (p.new_size - p.conn_pool_size) - 1
    pub flow : q.control.control_flow ≤ p.control.control_flow + 1

  load-OnePeriod :
      (aggressive : Bool) (p : Pool C)
      → IsIdle p
      → p.control.control_flow < 100
      → OnePeriod p
          (pool_step (factors aggressive) load_tick (record p { sum = 10 * p.pool_connections }))
  unfolding pool_step
  load-OnePeriod true p i h = ground (
    arith,
    i,
    per_second_exact p.control.load_connections i.ready.no_load_overflow,
    per_second_ten p.pool_connections i.ready.few,
    grows_exact true 0 p.pool_connections,
    shrinks_exact true 0 p.pool_connections,
  )
  load-OnePeriod false p i h = ground (
    arith,
    i,
    per_second_exact p.control.load_connections i.ready.no_load_overflow,
    per_second_ten p.pool_connections i.ready.few,
    grows_exact false 0 p.pool_connections,
    shrinks_exact false 0 p.pool_connections,
  )

  run-append :
      (f : Factors) (es fs : List PoolEvent) (p : Pool C)
      → pool_run f (es ++ fs) p ≡ pool_run f fs (pool_run f es p)
  unfolding pool_run
  run-append f [] fs p = refl
  run-append f (e ∷ es) fs p = run-append f es fs (pool_step f e p)

  period-OnePeriod :
      (aggressive : Bool) (p : Pool C)
      → IsIdle p
      → p.control.control_flow < 100
      → OnePeriod p (pool_run (factors aggressive) period p)
  period-OnePeriod aggressive p i h =
      subst (OnePeriod p) (sym (period-load (factors aggressive) p i.ready))
        (load-OnePeriod aggressive p i h)

  pool_run-none : (f : Factors) (p : Pool C) → pool_run f [] p ≡ p
  unfolding pool_run
  pool_run-none f p = refl

  -- A client that gets no requests and keeps connections in its pool, in the normal or the
  -- aggressive mode, lowers the size of its pool by one every ten seconds until it is back at
  -- `ConnPoolSize`, as long as the signals find room in the channel.
  pub pool_run-idle :
      (aggressive : Bool) (k : ℕ) (p : Pool C)
      → IsIdle p
      → p.control.control_flow + k ≤ 100
      → (pool_run (factors aggressive) (periods k) p).new_size
        ≡ p.conn_pool_size + ((p.new_size - p.conn_pool_size) - k)
  pool_run-idle aggressive zero p i h =
      ap (λ q. q.new_size) (pool_run-none (factors aggressive) p) ∙ omega (arith, i.not_below)
  pool_run-idle aggressive (suc k) p i h =
      let o = period-OnePeriod aggressive p i (omega arith) in
      ap (λ q. q.new_size) (run-append (factors aggressive) period (periods k) p)
      ∙ (pool_run-idle aggressive k (pool_run (factors aggressive) period p) o.idle
            (omega (arith, o.flow, h))
          ∙ omega (arith, o.one_less, o.same_base))
