-- ===== src/Launch/Orphan.antt =====
-- Two reloads of main.go that overlap.
use ttest.Prelude.{
  ℕ, ◌+◌, ◌≤◌, ◌<◌, ◌≡◌, refl, sym, Bool, false, ◌||◌, List, [], ◌∷◌, ◌==◌, arith, ltb, Bool-cases,
  inl, inr, if_true, if_false, subst,
}
use ttest.Launch.Reload.{
  MainPhase, waiting, reloading, leaving, exited, WatcherPhase, watching, changing, returned,
  Process, MainEvent, hang_up, terminate, main_wakes, watched, stat_failed, ctx_done, watcher_wakes,
  on_hang_up, on_terminate, on_main_wakes, on_watched, on_stat_failed, on_ctx_done,
  on_watcher_wakes, has_exited, live_step, main_step, main_run, main_start,
}

-- What holds of the contexts, and is kept by `cancel` and by a new context, is kept by the program.
module _ (K : ℕ → ℕ → (ℕ → Bool) → Type 0)
    (keeps_cancel : (c n : ℕ) (f : ℕ → Bool) → K c n f → K c n (λ i. i == c || f i))
    (keeps_renew : (c n : ℕ) (f : ℕ → Bool) → K c n f → K n (n + 1) f) where
  abbrev Keeps : Process → Type 0
  Keeps p = K p.current p.contexts p.cancelled

  cancel-Keeps :
      (p : Process) → Keeps p → K p.current p.contexts (λ i. i == p.current || p.cancelled i)
  cancel-Keeps p k = keeps_cancel p.current p.contexts p.cancelled k

  renew-Keeps : (p : Process) → Keeps p → K p.contexts (p.contexts + 1) p.cancelled
  renew-Keeps p k = keeps_renew p.current p.contexts p.cancelled k

  on_hang_up-Keeps : (m : MainPhase) (p : Process) → Keeps p → Keeps (on_hang_up m p)
  on_hang_up-Keeps waiting p k = cancel-Keeps p k
  on_hang_up-Keeps reloading p k = k
  on_hang_up-Keeps leaving p k = k
  on_hang_up-Keeps exited p k = k

  on_terminate-Keeps : (m : MainPhase) (p : Process) → Keeps p → Keeps (on_terminate m p)
  on_terminate-Keeps waiting p k = cancel-Keeps p k
  on_terminate-Keeps reloading p k = k
  on_terminate-Keeps leaving p k = k
  on_terminate-Keeps exited p k = k

  on_main_wakes-Keeps : (m : MainPhase) (p : Process) → Keeps p → Keeps (on_main_wakes m p)
  on_main_wakes-Keeps waiting p k = k
  on_main_wakes-Keeps reloading p k = renew-Keeps p k
  on_main_wakes-Keeps leaving p k = k
  on_main_wakes-Keeps exited p k = k

  on_watched-Keeps : (t : ℕ) (w : WatcherPhase) (p : Process) → Keeps p → Keeps (on_watched t w p)
  on_watched-Keeps t (watching g) p k = elim (Bool-cases (ltb p.last_mod_time t)) [
    | inl y ↦ subst Keeps (sym (if_true _ _ y)) (cancel-Keeps p k)
    | inr z ↦ subst Keeps (sym (if_false _ _ z)) k
  ]
  on_watched-Keeps t (changing m) p k = k
  on_watched-Keeps t returned p k = k

  on_stat_failed-Keeps : (w : WatcherPhase) (p : Process) → Keeps p → Keeps (on_stat_failed w p)
  on_stat_failed-Keeps (watching g) p k = k
  on_stat_failed-Keeps (changing m) p k = k
  on_stat_failed-Keeps returned p k = k

  on_ctx_done-Keeps : (w : WatcherPhase) (p : Process) → Keeps p → Keeps (on_ctx_done w p)
  on_ctx_done-Keeps (watching g) p k = elim (Bool-cases (p.cancelled g)) [
    | inl y ↦ subst Keeps (sym (if_true _ _ y)) k
    | inr z ↦ subst Keeps (sym (if_false _ _ z)) k
  ]
  on_ctx_done-Keeps (changing m) p k = k
  on_ctx_done-Keeps returned p k = k

  on_watcher_wakes-Keeps : (w : WatcherPhase) (p : Process) → Keeps p → Keeps (on_watcher_wakes w p)
  on_watcher_wakes-Keeps (watching g) p k = k
  on_watcher_wakes-Keeps (changing m) p k = renew-Keeps p k
  on_watcher_wakes-Keeps returned p k = k

  live_step-Keeps : (e : MainEvent) (p : Process) → Keeps p → Keeps (live_step e p)
  live_step-Keeps hang_up p k = on_hang_up-Keeps p.main p k
  live_step-Keeps terminate p k = on_terminate-Keeps p.main p k
  live_step-Keeps main_wakes p k = on_main_wakes-Keeps p.main p k
  live_step-Keeps (watched t) p k = on_watched-Keeps t p.watcher p k
  live_step-Keeps stat_failed p k = on_stat_failed-Keeps p.watcher p k
  live_step-Keeps ctx_done p k = on_ctx_done-Keeps p.watcher p k
  live_step-Keeps watcher_wakes p k = on_watcher_wakes-Keeps p.watcher p k

  run-Keeps : (es : List MainEvent) (p : Process) → Keeps p → Keeps (main_run es p)
  unfolding main_run main_step
  run-Keeps [] p k = k
  run-Keeps (e ∷ es) p k = elim (Bool-cases (has_exited p.main)) [
    | inl y ↦ run-Keeps es (main_step e p) (subst Keeps (sym (if_true _ _ y)) k)
    | inr z ↦
        run-Keeps es (main_step e p) (subst Keeps (sym (if_false _ _ z)) (live_step-Keeps e p k))
  ]

-- The context in use has been created, and none is cancelled before it is created.
abbrev IsFresh : ℕ → ℕ → (ℕ → Bool) → Type 0
IsFresh c n f = (c < n) × ((i : ℕ) → n ≤ i → f i ≡ false)

-- A context that is not cancelled, and is no longer the one in use.
abbrev IsOrphan : ℕ → ℕ → ℕ → (ℕ → Bool) → Type 0
IsOrphan o c n f = (o < c) × (c < n) × (f o ≡ false)

differs : {o c : ℕ} → o < c → (o == c) ≡ false
differs h = ground arith

run-IsFresh :
    (es : List MainEvent) (p : Process)
    → IsFresh p.current p.contexts p.cancelled
    → IsFresh (main_run es p).current (main_run es p).contexts (main_run es p).cancelled
run-IsFresh es p h =
    run-Keeps IsFresh (λ c n f k. (k.0, λ i l. rw (differs' i c n k.0 l, k.1 i l) refl))
      (λ c n f k. (omega arith, λ i l. k.1 i (omega (arith, l)))) es p h
  where
    differs' : (i c n : ℕ) → c < n → n ≤ i → (i == c) ≡ false
    differs' i c n k l = ground arith

run-IsOrphan :
    (o : ℕ) (es : List MainEvent) (p : Process)
    → IsOrphan o p.current p.contexts p.cancelled
    → (main_run es p).cancelled o ≡ false
run-IsOrphan o es p h =
    (run-Keeps (IsOrphan o) (λ c n f k. (k.0, k.1, rw (differs k.0, k.2) refl))
      (λ c n f k. (omega (arith, k.0, k.1), omega arith, k.2)) es p h).2

-- A change of the configuration file that is found while both goroutines wait, and a SIGHUP in the second
-- that the watcher then sleeps.
abbrev pub overlap : ℕ → List MainEvent
overlap mod_time = watched mod_time ∷ hang_up ∷ watcher_wakes ∷ main_wakes ∷ []

abbrev pub overlapped : ℕ → Process → Process
overlapped mod_time p = record p {
  current = p.contexts + 1;
  contexts = p.contexts + 1 + 1;
  cancelled = λ i. i == p.current || (i == p.current || p.cancelled i);
  watcher = watching p.contexts;
  last_mod_time = mod_time;
}

overlap_lem :
    (mod_time g : ℕ) (p : Process)
    → p.main ≡ waiting
    → p.watcher ≡ watching g
    → p.last_mod_time < mod_time
    → main_run (overlap mod_time) p ≡ overlapped mod_time p
unfolding main_run main_step
overlap_lem mod_time g p m w l = ground arith

-- A SIGHUP comes in the second that the watcher sleeps after it has found a change of the configuration
-- file; both goroutines waited before, and nothing else happens until the watcher and then `main` have
-- woken. Then each of the two has started a run, the context in use is that of `main`, and the one that
-- the watcher has started its run with is never cancelled, whatever signals and changes follow.
pub main_run-orphan :
    (start_time mod_time g : ℕ) (before after : List MainEvent)
    → (main_run before (main_start start_time)).main ≡ waiting
    → (main_run before (main_start start_time)).watcher ≡ watching g
    → (main_run before (main_start start_time)).last_mod_time < mod_time
    → let p = main_run before (main_start start_time) in
      let q = main_run (overlap mod_time) p in
      (q.contexts ≡ p.contexts + 2)
      × (q.current ≡ p.contexts + 1)
      × ((main_run after q).cancelled p.contexts ≡ false)
main_run-orphan start_time mod_time g before after m w l =
    let p = main_run before (main_start start_time) in
    let fresh =
      run-IsFresh before (main_start start_time)
        (unfold main_start in (omega arith, λ i k. refl)) in
    rw (overlap_lem mod_time g p m w l) (
      omega arith,
      refl,
      run-IsOrphan p.contexts after (overlapped mod_time p) (
        omega arith,
        omega arith,
        rw (not_current p.contexts p.current fresh.0, fresh.1 p.contexts (omega arith)) refl,
      ),
    )
  where
    not_current : (n c : ℕ) → c < n → (n == c) ≡ false
    not_current n c h = ground arith
