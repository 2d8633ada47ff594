-- ===== src/Recovery/Examples.antt =====
-- A quarantined terminal is stopped and launched again, and the theorem on the recovery at this run.
use tradetrack_mt5_server.Prelude.{
  ◌≡◌, Bool, true, false, none, some, [], ◌∷◌, ok, refl, lookup, insert, if◌then◌else◌,
}
use tradetrack_mt5_server.Prelude.Actions.{◌>>=◌, pure, throw, finally, catch, choose}
use tradetrack_mt5_server.RestartBudget.{reserve_restart}
use tradetrack_mt5_server.Recovery.{
  Signature, terminated, Log, Outside, World, ask, attempt, with_lock, locked, unlocked,
  config_read, found, clock_read, reserved, opened, timed, identified, handle_closed, marker_read,
  marker_written, launched,
}
use tradetrack_mt5_server.Recovery.Updates.{find}
use tradetrack_mt5_server.Recovery.Terminals.{restarted, recover_quarantined, wall_time}
use tradetrack_mt5_server.Recovery.Sound.{Sound}
use tradetrack_mt5_server.Recovery.Sound.Starts.{recover_quarantined-Sound}

abbrev is_stopped : Log → Bool
is_stopped [] = false
is_stopped (terminated p pid i b ∷ log) = true
is_stopped (_ ∷ log) = is_stopped log

-- The process runs until it is stopped; everything else succeeds.
abbrev outside : Outside
outside = record {
  lock = λ log p. ok tt;
  find_process = λ log p. ok (if is_stopped log then none else some (7, "7:1"));
  process_identity = λ log pid p. some "7:1";
  quarantine_identity = λ log slot. ok (some "7:1");
  budget_available = λ log. true;
  open_process = λ log pid. true;
  process_times = λ log pid. some "7:1";
  terminate = λ log pid. true;
  any_visible = λ log pid. false;
  fingerprint = λ log p. ok [];
  monotonic = λ log. 0;
  nanoseconds = λ log. 0;
  wall = λ log. 1000;
  hold_files = λ log s. true;
  destination_is_free = λ log p. true;
  make_folder = λ log p. ok tt;
  move = λ log p. ok tt;
  exists = λ log p. ok false;
  read_marker = λ log. ok none;
  write_marker = λ log t. ok tt;
  launch = λ log p. ok tt;
  main_windows = λ log pid. 1;
  visible_dialogs = λ log pid. 0;
  defer_live_update = λ log pid. ok tt;
}

abbrev start : World
start = record { log = []; attempts = []; observations = []; blocked = []; orphans = [] }

abbrev same : Signature → Signature
same s = s

-- The transcript of the run, newest first.
abbrev transcript : Log
transcript =
    unlocked "mt5"
    ∷ unlocked "mt5"
    ∷ launched "mt5" (ok tt)
    ∷ marker_written 1000 (ok tt)
    ∷ marker_read (ok none)
    ∷ clock_read 1000
    ∷ found "mt5" (ok none)
    ∷ locked "mt5" (ok tt)
    ∷ handle_closed 7
    ∷ terminated "mt5" 7 "7:1" true
    ∷ identified 7 "mt5" (some "7:1")
    ∷ timed 7 (some "7:1")
    ∷ opened 7 true
    ∷ reserved "mt5" "7:1" (ok tt)
    ∷ clock_read 1000
    ∷ found "mt5" (ok (some (7, "7:1")))
    ∷ config_read "demo" (ok (some "7:1"))
    ∷ found "mt5" (ok (some (7, "7:1")))
    ∷ config_read "demo" (ok (some "7:1"))
    ∷ locked "mt5" (ok tt)
    ∷ []

recovers : (recover_quarantined outside same "mt5" "demo" [] start).0 ≡ ok restarted
unfolding recover_quarantined with_lock ask attempt find reserve_restart ◌>>=◌ pure throw finally
    catch choose lookup insert wall_time
recovers = refl

recovers_transcript : (recover_quarantined outside same "mt5" "demo" [] start).1.log ≡ transcript
unfolding recover_quarantined with_lock ask attempt find reserve_restart ◌>>=◌ pure throw finally
    catch choose lookup insert wall_time
recovers_transcript = refl

recover_quarantined-Sound_example :
    Sound "demo" "mt5" [] (recover_quarantined outside same "mt5" "demo" [] start).1.log
recover_quarantined-Sound_example = recover_quarantined-Sound outside same "demo" "mt5" [] start tt
