-- ===== src/Launch/Tests.antt =====
-- A server from a sparse configuration, and a process with one change of its file.
use ttest.Prelude.{◌≡◌, ◌<◌, refl, true, false, [], ◌∷◌, List, some, arith, inl, ◌+◌, text_eq}
use ttest.Config.Samples.{sparse, parses_level, info-parses}
use ttest.Launch.Run.{run}
use ttest.Launch.Ready.{IsReady, HasDurations, is_known, chosen_transport, run-IsReady}
use ttest.Launch.Reload.{
  MainEvent, Process, waiting, watching, hang_up, main_wakes, watched, watcher_wakes, stat_failed,
  ctx_done, terminate, main_run, main_step, main_start,
}
use ttest.Launch.Orphan.{overlap, main_run-orphan}

sparse-HasDurations : HasDurations sparse
sparse-HasDurations = record {
  server_keepalive = omega arith;
  server_heartbeat = omega arith;
  client_keepalive = omega arith;
  client_retry_interval = omega arith;
  client_dial_timeout = omega arith;
}

tcp-is_known : is_known (chosen_transport sparse.server.bind_addr sparse) ≡ true
unfolding text_eq
tcp-is_known = refl

run-IsReady_example : IsReady (run parses_level (some sparse))
run-IsReady_example =
    run-IsReady parses_level info-parses sparse (inl (λ e. cc)) tcp-is_known sparse-HasDurations

abbrev changes : List MainEvent
changes = watched 5 ∷ watcher_wakes ∷ stat_failed ∷ []

abbrev later : List MainEvent
later = hang_up ∷ main_wakes ∷ ctx_done ∷ terminate ∷ []

abbrev started : Process
started = main_run changes (main_start 3)

changes_lem :
    (started.main ≡ waiting) × (started.watcher ≡ watching 1) × (started.last_mod_time < 9)
unfolding main_run main_step main_start
changes_lem = (refl, refl, omega arith)

main_run-orphan_example :
    ((main_run (overlap 9) started).contexts ≡ started.contexts + 2)
    × ((main_run (overlap 9) started).current ≡ started.contexts + 1)
    × ((main_run later (main_run (overlap 9) started)).cancelled started.contexts ≡ false)
main_run-orphan_example =
    main_run-orphan 3 9 1 changes later changes_lem.0 changes_lem.1 changes_lem.2
