-- ===== src/Worker/Examples.antt =====
-- Runs of the slot worker, and the theorems at concrete inputs.
use tradetrack_mt5_server.Prelude.{
  ℕ, ◌≡◌, true, false, none, some, [], ◌∷◌, ok, raise, Error, arith, refl,
}
use tradetrack_mt5_server.Prelude.Actions.{◌>>=◌, pure, throw, reads, writes, finally, choose}
use tradetrack_mt5_server.Throttle.{seconds}
use tradetrack_mt5_server.Worker.{
  Process, Job, job, failure, collection, Poll, Exit, ChildRun, Outside, SlotWorker, collected, ask,
  attempt, clock, find, with_lock, prepare_inventory, refresh_config, maintain, inspect,
  report_slot, use_report,
}
use tradetrack_mt5_server.Worker.Child.{
  settle_heart, ping, turn_after, child_turn, parsed, read_output, watch, rescue, watch_from,
  run_spawned, run_child,
}
use tradetrack_mt5_server.Worker.Jobs.{
  wall, fail, quarantine, finish, run_leased, run_claimed, claim, check_catalogue, check_process,
  run_locked, run_job, once,
}
use tradetrack_mt5_server.Worker.Watchdog.{IsPaced, run_child-IsPaced, AreCut, run_child_deadline}
use tradetrack_mt5_server.Worker.Fenced.{Sound}
use tradetrack_mt5_server.Worker.Fenced.Once.{once-Sound}

abbrev poll : ℕ → Poll
poll t = record { now = t; answer = some (ok tt); ping_now = t; pinged_at = t }

abbrev deals : Exit
deals = record {
  reader = ok tt;
  oversized = false;
  failed = false;
  output = ok (some (collection 2 1));
}

abbrev crash : Exit
crash = record deals { failed = true }

abbrev quick : ChildRun
quick = record {
  spawned = ok tt;
  written = ok 0;
  ping_clock = 0;
  polls = poll 100 ∷ poll 20000 ∷ poll 20100 ∷ poll 40100 ∷ [];
  exit = deals;
}

run_child_collects : run_child (seconds 125) quick ≡ (ok (collection 2 1), 40100 ∷ 20000 ∷ [])
unfolding run_child run_spawned watch_from watch child_turn settle_heart turn_after ping read_output
    parsed rescue
run_child_collects = refl

run_child_late : run_child (seconds 20) quick ≡ (ok (failure "CHILD_TIMEOUT"), [])
unfolding run_child run_spawned watch_from watch child_turn settle_heart turn_after ping read_output
    parsed rescue
run_child_late = refl

abbrev lease : Job
lease = record { generation = "g"; id = "j"; lease_until = seconds 300 }

abbrev terminal : Process
terminal = (7, "T")

abbrev world : Outside
world = record {
  clock = λ log. seconds 10;
  wall = λ log. seconds 100;
  connect = λ log. ok none;
  report_slot =
      λ log b. ok (record { status = "STARTING"; error_code = none; catalog_hash = some "h" });
  session = λ log. record { generation = "g"; process_identity = "T" };
  lock = λ log. ok tt;
  find_process = λ log. ok (some terminal);
  process_identity = λ log pid. some "T";
  catalogue_fingerprint = λ log. ok "h";
  stop_fenced_terminal = λ log i. ok tt;
  start_terminal = λ log. ok true;
  claim = λ log. ok (job lease);
  credentials = λ log id. ok tt;
  child = λ log. quick;
  fail = λ log code. ok tt;
  complete = λ log id. ok tt;
}

abbrev fresh : SlotWorker
fresh = record {
  log = [];
  inspected_at = none;
  catalog_hash = none;
  restart_identity = none;
  offline_restart_after = 0;
  config_refreshed_at = 0;
}

once_collects : (once world true fresh).0 ≡ ok (collected 2 1)
unfolding once prepare_inventory refresh_config maintain inspect report_slot use_report clock find
    with_lock ask attempt wall finish run_leased run_claimed claim check_catalogue check_process
    run_locked run_job run_child run_spawned watch_from watch child_turn settle_heart turn_after
    ping read_output parsed rescue ◌>>=◌ pure reads writes finally choose
once_collects = refl

-- The child fails: the terminal is quarantined.
abbrev crashing : Outside
crashing = record world { child = λ log. record quick { exit = crash } }

once_quarantines :
    ((once crashing true fresh).0 ≡ raise (Error.agent_error "TERMINAL_QUARANTINED"))
    × ((once crashing true fresh).1.restart_identity ≡ some "T")
unfolding once prepare_inventory refresh_config maintain inspect report_slot use_report clock find
    with_lock ask attempt wall finish fail quarantine run_leased run_claimed claim check_catalogue
    check_process run_locked run_job run_child run_spawned watch_from watch child_turn settle_heart
    turn_after ping read_output parsed rescue ◌>>=◌ pure throw reads writes finally choose
once_quarantines = (refl, refl)

once-Sound_example : Sound (once world true fresh).1.log
once-Sound_example = once-Sound world true fresh tt

run_child-IsPaced_example : IsPaced (run_child (seconds 125) quick).1
run_child-IsPaced_example =
    run_child-IsPaced (seconds 125) quick
      (ground arith, (ground arith, (ground arith, (ground arith, tt))))

run_child_deadline_example :
    AreCut
      (run_child (seconds 20) (record quick { polls = poll 100 ∷ poll 20000 ∷ poll 20100 ∷ [] }))
      (run_child (seconds 20) (record quick { polls = poll 100 ∷ poll 20000 ∷ []; exit = crash }))
run_child_deadline_example =
    run_child_deadline (seconds 20) quick 0 (poll 100 ∷ []) (poll 20100 ∷ []) (poll 20000) crash
      refl refl (ground arith)
