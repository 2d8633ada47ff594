-- ===== src/Worker.antt =====
-- app/collector/worker.py, `SlotWorker`: one slot's maintenance and jobs. As in the recovery, the
-- outside answers by the transcript before a call; the transcript is newest first. The agent's
-- `connect` and `report_slot` and the recovery's `start_terminal` and `stop_fenced_terminal` are
-- calls here. Clock readings and `timeout`s are milliseconds.
pub mod Child
pub mod Watchdog
pub mod Jobs
pub mod Fenced
mod Examples
use tradetrack_mt5_server.Prelude.{
  ℕ, ◌+◌, ◌-◌, String, Bool, true, false, not, ◌&&◌, ◌||◌, Option, none, some, List, [], ◌∷◌, ltb,
  leb, if◌then◌else◌, ◌==◌, text_key, Result, ok, raise, Error, ◌≡◌,
}
use tradetrack_mt5_server.Prelude.Actions.{
  Action, ◌>>=◌, ◌>>◌, pure, throw, reads, writes, finally, choose, Keeps,
}
use tradetrack_mt5_server.Throttle.{seconds}

abbrev pub Process : Type 0
Process = ℕ × String

-- A job of the API, by the fields that the code reads: its generation, its id, and its end.
pub record Job : Type 0 where
  pub generation : String
  pub id : String
  pub lease_until : ℕ

pub data Claim : Type 0 where
  no_job malformed : Claim
  job : Job → Claim

-- The child's answer: an error code, or a collection with its counts.
pub data ChildResult : Type 0 where
  failure : (code : String) → ChildResult
  collection : (deals positions : ℕ) → ChildResult

pub record Report : Type 0 where
  pub status : String
  pub error_code : Option String
  pub catalog_hash : Option String

pub data Entry : Type 0 where
  clock_read : (time : ℕ) → Entry
  connected : (answer : Result (Option String)) → Entry
  reported : (answer : Result Report) → Entry
  locked : (answer : Result (Unit {0})) → Entry
  unlocked : Entry
  found : (answer : Result (Option Process)) → Entry
  identified : (pid : ℕ) (answer : Option String) → Entry
  fingerprinted : (answer : Result String) → Entry
  stopped : (identity : String) (answer : Result (Unit {0})) → Entry
  started : (answer : Result Bool) → Entry
  claimed : (generation : String) (answer : Result Claim) → Entry
  credentials_read : (job : String) (answer : Result (Unit {0})) → Entry
  wall_read : (time : ℕ) → Entry
  child_ran : (process : Process) (timeout : ℕ) (answer : Result ChildResult) → Entry
  failed : (job code : String) (answer : Result (Unit {0})) → Entry
  completed : (job : String) (answer : Result (Unit {0})) → Entry

abbrev pub Log : Type 0
Log = List Entry

-- The agent's session of the slot.
pub record Session : Type 0 where
  pub generation : String
  pub process_identity : String

-- One turn of `run_child`'s loop, which found the child alive: the clock at the deadline's test,
-- the answer of the running heartbeat if there is one by now, the clock at the test for the next
-- heartbeat, and the clock after its start.
pub record Poll : Type 0 where
  pub now : ℕ
  pub answer : Option (Result (Unit {0}))
  pub ping_now : ℕ
  pub pinged_at : ℕ

-- How a child ends by itself: what the reader's `result` does, whether the output was too long,
-- whether the exit code is not zero, and what the output parses to, `none` if it is no object.
pub record Exit : Type 0 where
  pub reader : Result (Unit {0})
  pub oversized : Bool
  pub failed : Bool
  pub output : Result (Option ChildResult)

-- A child: its start, the clock after its input was written or what the write raised, the clock at
-- the first heartbeat's time, and then the turns that find it alive, as many as there are until it
-- ends by itself.
pub record ChildRun : Type 0 where
  pub spawned : Result (Unit {0})
  pub written : Result ℕ
  pub ping_clock : ℕ
  pub polls : List Poll
  pub exit : Exit

pub record Outside : Type 0 where
  pub clock : Log → ℕ
  pub wall : Log → ℕ
  pub connect : Log → Result (Option String)
  pub report_slot : Log → Bool → Result Report
  pub session : Log → Session
  pub lock : Log → Result (Unit {0})
  pub find_process : Log → Result (Option Process)
  pub process_identity : Log → ℕ → Option String
  pub catalogue_fingerprint : Log → Result String
  pub stop_fenced_terminal : Log → String → Result (Unit {0})
  pub start_terminal : Log → Result Bool
  pub claim : Log → Result Claim
  pub credentials : Log → String → Result (Unit {0})
  pub child : Log → ChildRun
  pub fail : Log → String → Result (Unit {0})
  pub complete : Log → String → Result (Unit {0})

-- `inspected_at` is missing where the source has a zero, which every read tests for or, being long
-- ago, treats like one.
pub record SlotWorker : Type 0 where
  pub log : Log
  pub inspected_at : Option ℕ
  pub catalog_hash : Option String
  pub restart_identity : Option String
  pub offline_restart_after : ℕ
  pub config_refreshed_at : ℕ

pub data Outcome : Type 0 where
  update_pending restarting idle maintenance_required catalogue_changed : Outcome
  offline : (error_code : Option String) (retry_after : ℕ) → Outcome
  job_failed : (error_code : String) → Outcome
  collected : (deals positions : ℕ) → Outcome

abbrev pub Act : Type 0 → Type 0
Act A = Action SlotWorker A

module _ {A : Type 0} where
  unfoldable pub ask : (Log → A) → (A → Entry) → Act A
  ask answer note w = (ok (answer w.log), record w { log = note (answer w.log) ∷ w.log })

  unfoldable pub attempt : (Log → Result A) → (Result A → Entry) → Act A
  attempt answer note w = (answer w.log, record w { log = note (answer w.log) ∷ w.log })

abbrev pub agent : String → Error
agent code = Error.agent_error code

abbrev pub is_some : {A : Type 0} → Option A → Bool
is_some none = false
is_some (some a) = true

abbrev pub is_text : Option String → String → Bool
is_text none t = false
is_text (some s) t = s == t

-- `quarantineIdentity`: an empty text counts as none.
abbrev pub truthy : Option String → Option String
truthy none = none
truthy (some s) = if s == "" then none else some s

-- Whether `now - then >= wait`; a missing time is long ago.
abbrev pub is_due : ℕ → Option ℕ → ℕ → Bool
is_due now none wait = true
is_due now (some t) wait = leb (t + wait) now

abbrev pub forget_inspection : SlotWorker → SlotWorker
forget_inspection w = record w { inspected_at = none }

module _ (o : Outside) where
  unfoldable pub clock : Act ℕ
  clock = ask (λ log. o.clock log) (λ t. clock_read t)

  unfoldable pub find : Act (Option Process)
  find = attempt (λ log. o.find_process log) (λ r. found r)

  unfoldable pub with_lock : {A : Type 0} → Act A → Act A
  with_lock body =
      attempt (λ log. o.lock log) (λ r. locked r)
      >> finally body (λ w. record w { log = unlocked ∷ w.log })

  unfoldable pub start : Act Bool
  start = attempt (λ log. o.start_terminal log) (λ r. started r)

  -- `self.inventory.connect()`, and the quarantine that it reads.
  unfoldable pub connect : Act (Unit {0})
  connect = attempt (λ log. o.connect log) (λ r. connected r) >>= λ quarantine.
      writes (λ w. record w { restart_identity = truthy quarantine })

  unfoldable pub report_slot : Bool → Act Report
  report_slot inspect_ui = attempt (λ log. o.report_slot log inspect_ui) (λ r. reported r)

  -- The first block of `prepare_inventory`: a fence may have come up since `connect`.
  unfoldable pub refresh_config : Act (Unit {0})
  unfolding clock connect
  refresh_config = reads (λ w. is_some w.restart_identity) >>= λ fenced.
      if fenced
      then pure tt
      else clock >>= λ now. reads (λ w. leb (w.config_refreshed_at + seconds 60) now) >>= λ due.
          if not due
          then pure tt
          else attempt (λ log. o.connect log) (λ r. connected r) >>= λ quarantine. clock >>= λ at.
              writes
                (λ w. record w { config_refreshed_at = at; restart_identity = truthy quarantine })

  -- Below the lock, once the process is looked up and stopped if it is the fenced one: `gone` tells
  -- whether no process is left.
  unfoldable pub replace_fenced : Bool → Bool → Act Outcome
  unfolding start report_slot
  replace_fenced gone is_other =
      if gone
      then (start >>= λ launched.
          if launched then writes forget_inspection >> pure restarting else pure update_pending)
      else if is_other
      then report_slot false
        >> writes (λ w. record w { restart_identity = none; inspected_at = none })
        >> pure restarting
      else writes forget_inspection >> pure restarting

  unfoldable pub restart_found : String → Option Process → Act Outcome
  unfolding replace_fenced
  restart_found identity none = replace_fenced true false
  restart_found identity (some process) =
      if process.1 == identity
      then attempt (λ log. o.stop_fenced_terminal log identity) (λ r. stopped identity r)
        >> replace_fenced true false
      else replace_fenced false true

  unfoldable pub restart_fenced : String → Act Outcome
  unfolding find restart_found
  restart_fenced identity = with_lock (find >>= λ process. restart_found identity process)

  abbrev pub is_offline : Report → Bool
  is_offline r = r.status == "OFFLINE"

  abbrev pub is_ui_error : Option String → Bool
  is_ui_error code =
      is_text code "TERMINAL_UI_BUSY"
      || is_text code "UI_DIALOG_UNAVAILABLE"
      || is_text code "UI_CLEANUP_FAILED"
      || is_text code "UI_TIMEOUT"

  -- Only a missing terminal is launched, at most once a minute.
  unfoldable pub restart_offline : Act (Unit {0})
  unfolding find clock start
  restart_offline = with_lock (
      find >>= λ process.
      if is_some process
      then pure tt
      else clock >>= λ now.
          writes (λ w. record w { offline_restart_after = now + seconds 60 }) >> start >> pure tt)

  -- `none` is the `None` of `prepare_inventory`: a job may follow.
  unfoldable pub use_report : Report → Act (Option Outcome)
  unfolding clock
  use_report report =
      if not (report.status == "STARTING")
      then writes forget_inspection
        >> pure (some (offline report.error_code (if is_ui_error report.error_code then 30 else 0)))
      else clock >>= λ now.
          writes (λ w. record w { catalog_hash = report.catalog_hash; inspected_at = some now })
          >> pure none

  unfoldable pub inspect : Act (Option Outcome)
  unfolding clock report_slot restart_offline use_report
  inspect = report_slot true >>= λ report.
      if not (is_offline report)
      then use_report report
      else clock >>= λ now. reads (λ w. leb w.offline_restart_after now) >>= λ due.
          if due
          then restart_offline >> writes forget_inspection >> pure (some restarting)
          else use_report report

  unfoldable pub maintain : Act (Option Outcome)
  unfolding clock inspect
  maintain = clock >>= λ now. reads (λ w. is_due now w.inspected_at (seconds 90)) >>= λ due.
      if due then inspect else pure none

  unfoldable pub prepare_inventory : Act (Option Outcome)
  unfolding refresh_config restart_fenced maintain
  prepare_inventory = refresh_config >> reads (λ w. w.restart_identity) >>= λ fenced.
      choose fenced maintain
        (λ identity. restart_fenced identity >>= λ outcome. pure (some outcome))
