-- ===== src/Launch/Reload.antt =====
-- `main` and `watchConfigAndReload` of main.go: the signals and the file that reload the program, as steps
-- of two goroutines that share the context and its `cancel`. A context is its number, in the order of
-- creation, and a run of `cmd.Run` is started with each. The second that a goroutine sleeps lies between
-- two of its steps.
use ttest.Prelude.{ℕ, ◌+◌, Bool, true, false, ◌||◌, List, [], ◌∷◌, ◌==◌, ltb, if◌then◌else◌}

-- The goroutine of `main`, and that of `watchConfigAndReload`.
pub data MainPhase : Type 0 where
  waiting : MainPhase  -- for a signal
  reloading : MainPhase  -- it sleeps, before a new context
  leaving : MainPhase  -- it sleeps, before os.Exit
  exited : MainPhase

pub data WatcherPhase : Type 0 where
  watching : ℕ → WatcherPhase  -- in the select, on this context
  changing : ℕ → WatcherPhase  -- it sleeps, with the new time of the file
  returned : WatcherPhase

pub record Process : Type 0 where
  pub current : ℕ  -- the context in the variable `ctx`
  pub contexts : ℕ  -- those created, each with a run
  pub cancelled : ℕ → Bool
  pub main : MainPhase
  pub watcher : WatcherPhase
  pub last_mod_time : ℕ

pub data MainEvent : Type 0 where
  hang_up : MainEvent  -- SIGHUP
  terminate : MainEvent  -- another signal
  main_wakes : MainEvent
  watched : ℕ → MainEvent  -- the ticker, with the time that `os.Stat` gives
  stat_failed : MainEvent  -- the ticker, with an error
  ctx_done : MainEvent  -- <-ctx.Done()
  watcher_wakes : MainEvent

abbrev pub cancel : Process → Process
cancel p = record p { cancelled = λ i. i == p.current || p.cancelled i }

-- A new context, and a run with it.
abbrev pub renew : Process → Process
renew p = record p { current = p.contexts; contexts = p.contexts + 1 }

abbrev pub on_hang_up : MainPhase → Process → Process
on_hang_up waiting p = record (cancel p) { main = reloading }
on_hang_up _ p = p

abbrev pub on_terminate : MainPhase → Process → Process
on_terminate waiting p = record (cancel p) { main = leaving }
on_terminate _ p = p

abbrev pub on_main_wakes : MainPhase → Process → Process
on_main_wakes reloading p = record (renew p) { main = waiting }
on_main_wakes leaving p = record p { main = exited }
on_main_wakes _ p = p

abbrev pub on_watched : ℕ → WatcherPhase → Process → Process
on_watched mod_time (watching g) p =
    if ltb p.last_mod_time mod_time
    then record (cancel p) { watcher = changing mod_time }
    else record p { watcher = watching p.current }
on_watched mod_time _ p = p

abbrev pub on_stat_failed : WatcherPhase → Process → Process
on_stat_failed (watching g) p = record p { watcher = watching p.current }
on_stat_failed _ p = p

abbrev pub on_ctx_done : WatcherPhase → Process → Process
on_ctx_done (watching g) p = if p.cancelled g then record p { watcher = returned } else p
on_ctx_done _ p = p

abbrev pub on_watcher_wakes : WatcherPhase → Process → Process
on_watcher_wakes (changing mod_time) p = record (renew p) {
  watcher = watching p.contexts;
  last_mod_time = mod_time;
}
on_watcher_wakes _ p = p

abbrev pub has_exited : MainPhase → Bool
has_exited exited = true
has_exited _ = false

abbrev pub live_step : MainEvent → Process → Process
live_step hang_up p = on_hang_up p.main p
live_step terminate p = on_terminate p.main p
live_step main_wakes p = on_main_wakes p.main p
live_step (watched mod_time) p = on_watched mod_time p.watcher p
live_step stat_failed p = on_stat_failed p.watcher p
live_step ctx_done p = on_ctx_done p.watcher p
live_step watcher_wakes p = on_watcher_wakes p.watcher p

unfoldable pub main_step : MainEvent → Process → Process
main_step e p = if has_exited p.main then p else live_step e p

unfoldable pub main_run : List MainEvent → Process → Process
main_run [] p = p
main_run (e ∷ es) p = main_run es (main_step e p)

-- The state once `main` has started the run and the watcher; the file has `mod_time`.
unfoldable pub main_start : ℕ → Process
main_start mod_time = record {
  current = 0;
  contexts = 1;
  cancelled = λ i. false;
  main = waiting;
  watcher = watching 0;
  last_mod_time = mod_time;
}
