-- ===== src/Worker/Fenced/Once.antt =====
-- Every path through `once` keeps a transcript sound.
use tradetrack_mt5_server.Prelude.{
  ◌≡◌, String, Bool, true, false, Option, none, some, ◌∷◌, text_key, Result, sym, subst,
}
use tradetrack_mt5_server.Prelude.Actions.{writes, Keeps, bind-Keeps, finally-Keeps, keeps_rules}
use tradetrack_mt5_server.Worker.{
  Process, Entry, connected, stopped, Log, Outside, SlotWorker, Act, ask, attempt, clock, find,
  start, report_slot, refresh_config, replace_fenced, restart_found, restart_fenced,
  restart_offline, use_report, inspect, maintain, Report, with_lock, prepare_inventory,
}
use tradetrack_mt5_server.Worker.Jobs.{run_job, once}
use tradetrack_mt5_server.Worker.Fenced.{Sound, IsSound, run_job-Reaches}

module _ (o : Outside) where
  ask-Sound :
      {A : Type 0} (answer : Log → A) (note : A → Entry)
      → ((a : A) (log : Log) → Sound log → Sound (note a ∷ log))
      → Keeps IsSound (ask answer note)
  unfolding ask
  ask-Sound answer note k = record { at = λ w s. k (answer w.log) w.log s }

  attempt-Sound :
      {A : Type 0} (answer : Log → Result A) (note : Result A → Entry)
      → ((r : Result A) (log : Log) → Sound log → Sound (note r ∷ log))
      → Keeps IsSound (attempt answer note)
  unfolding attempt
  attempt-Sound answer note k = record { at = λ w s. k (answer w.log) w.log s }

  writes-Sound :
      (f : SlotWorker → SlotWorker)
      → ((w : SlotWorker) → (f w).log ≡ w.log)
      → Keeps IsSound (writes f)
  unfolding writes
  writes-Sound f same = record { at = λ w s. subst Sound (sym (same w)) s }

  clock-Sound : Keeps IsSound (clock o)
  unfolding clock
  clock-Sound = ask-Sound _ _ (λ t log s. s)

  find-Sound : Keeps IsSound (find o)
  unfolding find
  find-Sound = attempt-Sound _ _ (λ t log s. s)

  start-Sound : Keeps IsSound (start o)
  unfolding start
  start-Sound = attempt-Sound _ _ (λ t log s. s)

  report-Sound : (b : Bool) → Keeps IsSound (report_slot o b)
  unfolding report_slot
  report-Sound b = attempt-Sound _ _ (λ t log s. s)

  connect-Sound : Keeps IsSound (attempt (λ log. o.connect log) (λ r. connected r))
  connect-Sound = attempt-Sound _ _ (λ t log s. s)

  stop-Sound :
      (i : String)
      → Keeps IsSound (attempt (λ log. o.stop_fenced_terminal log i) (λ r. stopped i r))
  stop-Sound i = attempt-Sound _ _ (λ t log s. s)

  lock-Sound : {A : Type 0} (body : Act A) → Keeps IsSound body → Keeps IsSound (with_lock o body)
  unfolding with_lock
  lock-Sound body keeps =
      bind-Keeps _ _ (attempt-Sound _ _ (λ r log s. s)) (λ u. finally-Keeps body _ keeps (λ w s. s))

  ruleset worker_rules = (
    keeps_rules, writes-Sound, clock-Sound, find-Sound, start-Sound, report-Sound, connect-Sound,
    stop-Sound, lock-Sound,
  )

  refresh-Sound : Keeps IsSound (refresh_config o)
  unfolding refresh_config
  refresh-Sound = search worker_rules depth 24

  replace-Sound : (gone is_other : Bool) → Keeps IsSound (replace_fenced o gone is_other)
  unfolding replace_fenced
  replace-Sound gone is_other = search worker_rules depth 24

  restart_found-Sound : (i : String) (p : Option Process) → Keeps IsSound (restart_found o i p)
  unfolding restart_found
  restart_found-Sound i none = replace-Sound true false
  restart_found-Sound i (some p) = search (worker_rules, replace-Sound) depth 24

  restart-Sound : (i : String) → Keeps IsSound (restart_fenced o i)
  unfolding restart_fenced
  restart-Sound i = search (worker_rules, restart_found-Sound) depth 24

  offline-Sound : Keeps IsSound (restart_offline o)
  unfolding restart_offline
  offline-Sound = search worker_rules depth 24

  report_used-Sound : (r : Report) → Keeps IsSound (use_report o r)
  unfolding use_report
  report_used-Sound r = search worker_rules depth 24

  inspect-Sound : Keeps IsSound (inspect o)
  unfolding inspect
  inspect-Sound = search (worker_rules, offline-Sound, report_used-Sound) depth 30

  maintain-Sound : Keeps IsSound (maintain o)
  unfolding maintain
  maintain-Sound = search (worker_rules, inspect-Sound) depth 24

  prepare-Sound : Keeps IsSound (prepare_inventory o)
  unfolding prepare_inventory
  prepare-Sound = search (worker_rules, refresh-Sound, restart-Sound, maintain-Sound) depth 24

  job-Sound : Keeps IsSound (run_job o)
  job-Sound = record { at = λ w s. (run_job-Reaches o w.log s).reach w }

  once-Keeps : (allow_ui : Bool) → Keeps IsSound (once o allow_ui)
  unfolding once
  once-Keeps true = search (worker_rules, prepare-Sound, job-Sound) depth 24
  once-Keeps false = search (worker_rules, job-Sound) depth 24

  -- Whatever the API, Windows, the agent and the child do: `once` adds to a transcript only children
  -- that run under the lock on the found process, for a claimed job of the worker's generation, for
  -- at most 125 seconds and to an end 35 seconds before the lease's; only `/complete` calls for the
  -- job whose child collected, once the process at the path was seen to be the same again; and only
  -- `/fail` calls for the job whose child failed, with the child's code, or for one whose child
  -- collected while the process at the path was looked at again, with TERMINAL_CHANGED.
  pub once-Sound :
      (allow_ui : Bool) (w : SlotWorker) → Sound w.log → Sound (once o allow_ui w).1.log
  once-Sound allow_ui = (once-Keeps allow_ui).at
