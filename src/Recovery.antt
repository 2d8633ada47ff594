-- ===== src/Recovery.antt =====
-- The recovery of terminals (app/collector/server_preparation.py, update_recovery.py and
-- quarantine_recovery.py). Each call of Windows, of the file system or of the API is noted in a
-- transcript, newest first, with its answer. What it answers is a function of the transcript before
-- it, so an environment may change between any two calls. Paths are the resolved ones, as texts.
pub mod Updates
pub mod Terminals
pub mod Sound
mod Examples
use tradetrack_mt5_server.Prelude.{ℕ, String, Bool, Option, List, ◌∷◌, Result, ok}
use tradetrack_mt5_server.Prelude.Actions.{Action, Keeps, ◌>>◌, ◌>>=◌, finally}
use tradetrack_mt5_server.RestartBudget.{Attempts}

-- A file of an update with its size and its time of change in nanoseconds.
pub record Stamp : Type 0 where
  pub path : String
  pub size : ℕ
  pub mtime : ℕ

abbrev pub Signature : Type 0
Signature = List Stamp

-- A process by its number and its identity, which has the time of its creation.
abbrev pub Process : Type 0
Process = ℕ × String

pub data Entry : Type 0 where
  locked : (path : String) (answer : Result (Unit {0})) → Entry
  unlocked : (path : String) → Entry
  found : (path : String) (answer : Result (Option Process)) → Entry
  identified : (pid : ℕ) (path : String) (answer : Option String) → Entry
  config_read : (slot : String) (answer : Result (Option String)) → Entry
  reserved : (path identity : String) (answer : Result (Unit {0})) → Entry
  opened : (pid : ℕ) (answer : Bool) → Entry
  timed : (pid : ℕ) (answer : Option String) → Entry
  terminated : (path : String) (pid : ℕ) (identity : String) (answer : Bool) → Entry
  handle_closed : (pid : ℕ) → Entry
  windows_listed : (pid : ℕ) (any_visible : Bool) → Entry
  fingerprinted : (folder : String) (answer : Result Signature) → Entry
  clock_read : (time : ℕ) → Entry
  files_held : (answer : Bool) → Entry
  files_released : Entry
  folder_tested : (answer : Bool) → Entry
  folder_made : (answer : Result (Unit {0})) → Entry
  moved : (path : String) (answer : Result (Unit {0})) → Entry
  file_tested : (path : String) (answer : Result Bool) → Entry
  marker_read : (answer : Result (Option ℕ)) → Entry
  marker_written : (time : ℕ) (answer : Result (Unit {0})) → Entry
  launched : (path : String) (answer : Result (Unit {0})) → Entry
  close_posted : (pid : ℕ) → Entry
  dialogs_seen : (pid : ℕ) (mains dialogs : ℕ) → Entry
  update_deferred : (pid : ℕ) (answer : Result (Unit {0})) → Entry

abbrev pub Log : Type 0
Log = List Entry

-- What the outside answers. `monotonic` and `wall` are clocks in milliseconds; `nanoseconds` is the
-- wall clock beside the stamps of files.
pub record Outside : Type 0 where
  pub lock : Log → String → Result (Unit {0})
  pub find_process : Log → String → Result (Option Process)
  pub process_identity : Log → ℕ → String → Option String
  pub quarantine_identity : Log → String → Result (Option String)
  pub budget_available : Log → Bool
  pub open_process : Log → ℕ → Bool
  pub process_times : Log → ℕ → Option String
  pub terminate : Log → ℕ → Bool
  pub any_visible : Log → ℕ → Bool
  pub fingerprint : Log → String → Result Signature
  pub monotonic : Log → ℕ
  pub nanoseconds : Log → ℕ
  pub wall : Log → ℕ
  pub hold_files : Log → Signature → Bool
  pub destination_is_free : Log → String → Bool
  pub make_folder : Log → String → Result (Unit {0})
  pub move : Log → String → Result (Unit {0})
  pub exists : Log → String → Result Bool
  pub read_marker : Log → Result (Option ℕ)
  pub write_marker : Log → ℕ → Result (Unit {0})
  pub launch : Log → String → Result (Unit {0})
  pub main_windows : Log → ℕ → ℕ
  pub visible_dialogs : Log → ℕ → ℕ
  pub defer_live_update : Log → ℕ → Result (Unit {0})

-- The transcript, the durable restart budget, and the module's three dictionaries.
pub record World : Type 0 where
  pub log : Log
  pub attempts : Attempts
  pub observations : List (String × ((String × Signature) × ℕ))
  pub blocked : List (String × (Signature × ℕ))
  pub orphans : List (String × (Signature × ℕ))

module _ {A : Type 0} where
  -- A call that answers, and one that may raise.
  unfoldable pub ask : (Log → A) → (A → Entry) → Action World A
  ask answer note w = (ok (answer w.log), record w { log = note (answer w.log) ∷ w.log })

  unfoldable pub attempt : (Log → Result A) → (Result A → Entry) → Action World A
  attempt answer note w = (answer w.log, record w { log = note (answer w.log) ∷ w.log })

abbrev pub note : Entry → World → World
note e w = record w { log = e ∷ w.log }

-- A property of the transcript alone.
abbrev pub OfLog : (Log → Type 0) → World → Type 0
OfLog P w = P w.log

module _ {A : Type 0} {P : Log → Type 0} where
  pub ask-Keeps :
      (answer : Log → A) (entry : A → Entry)
      → ((a : A) (log : Log) → P log → P (entry a ∷ log))
      → Keeps (OfLog P) (ask answer entry)
  unfolding ask
  ask-Keeps answer entry h = record { at = λ w p. h (answer w.log) w.log p }

  pub attempt-Keeps :
      (answer : Log → Result A) (entry : Result A → Entry)
      → ((r : Result A) (log : Log) → P log → P (entry r ∷ log))
      → Keeps (OfLog P) (attempt answer entry)
  unfolding attempt
  attempt-Keeps answer entry h = record { at = λ w p. h (answer w.log) w.log p }

-- `with native.inventory_lock(path)`.
unfoldable pub with_lock : {A : Type 0} → Outside → String → Action World A → Action World A
with_lock o path body =
    attempt (λ log. o.lock log path) (λ r. locked path r) >> finally body (note (unlocked path))
