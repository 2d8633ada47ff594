-- ===== src/Inventory/Reports.antt =====
-- `collect_inventory` and its cache of the servers that a login dialog has shown. The outside answers
-- by the transcript of the calls before, newest first; an entry has the key of the executable's path.
-- Clock readings are milliseconds.
pub mod Evidence
mod Checks
pub mod Justified
use tradetrack_mt5_server.Prelude.{
  ℕ, ◌+◌, String, Bool, true, false, not, ◌&&◌, ◌||◌, Option, none, some, List, [], ◌∷◌, ltb, leb,
  nat_beq, if◌then◌else◌, ◌==◌, text_key, lookup, insert, remove, Result, ok, raise, Error,
}
use tradetrack_mt5_server.Prelude.Actions.{
  Action, ◌>>=◌, ◌>>◌, pure, throw, reads, writes, catch, choose,
}
use tradetrack_mt5_server.Throttle.{seconds}
use tradetrack_mt5_server.Inventory.Caption.{verified_builds, in_builds}
use tradetrack_mt5_server.Inventory.Processes.{Process, inventory, same_identity}

pub data Status : Type 0 where
  offline starting error : Status

pub record Snapshot : Type 0 where
  pub status : Status
  pub process : Option Process
  pub catalog_hash : Option String
  pub server_names : List String
  pub is_inspected : Bool
  pub error_code : Option String

-- A row of `_catalogue_cache`.
pub record Cached : Type 0 where
  pub identity : String
  pub hash : String
  pub build : ℕ
  pub names : List String
  pub verified_at : ℕ

pub data Entry : Type 0 where
  validated : (answer : Result (Unit {0})) → Entry
  found : (answer : Result (Option Process)) → Entry
  build_read : (answer : Option ℕ) → Entry
  identified : (pid : ℕ) (answer : Option String) → Entry
  fingerprinted : (answer : Result String) → Entry
  clock_read : (time : ℕ) → Entry
  listed : (key : String) (process : Process) (answer : Result (List String)) → Entry

abbrev pub Log : Type 0
Log = List Entry

pub record Outside : Type 0 where
  pub validate : Log → Result (Unit {0})
  pub find_process : Log → Result (Option Process)
  pub terminal_build : Log → Option ℕ
  pub process_identity : Log → ℕ → Option String
  pub fingerprint : Log → Result String
  pub clock : Log → ℕ
  pub visible_servers : Log → Process → Result (List String)

pub record World : Type 0 where
  pub log : Log
  pub cache : List (String × Cached)

abbrev pub Act : Type 0 → Type 0
Act A = Action World A

module _ {A : Type 0} where
  unfoldable pub ask : (Log → A) → (A → Entry) → Act A
  ask answer note w = (ok (answer w.log), record w { log = note (answer w.log) ∷ w.log })

  unfoldable pub attempt : (Log → Result A) → (Result A → Entry) → Act A
  attempt answer note w = (answer w.log, record w { log = note (answer w.log) ∷ w.log })

abbrev pub refresh_time : ℕ
refresh_time = seconds 300

abbrev pub is_recent : ℕ → Cached → Bool
is_recent now c = leb c.verified_at now && ltb now (c.verified_at + refresh_time)

-- The same process, catalogue and build, before the clock is asked.
abbrev pub is_same : String → String → ℕ → Cached → Bool
is_same identity hash build c = c.identity == identity && c.hash == hash && nat_beq c.build build

abbrev pub offline_snapshot : Snapshot
offline_snapshot = record {
  status = offline;
  process = none;
  catalog_hash = none;
  server_names = [];
  is_inspected = false;
  error_code = none;
}

abbrev pub error_snapshot : Process → String → Snapshot
error_snapshot p code = record {
  status = error;
  process = some p;
  catalog_hash = none;
  server_names = [];
  is_inspected = false;
  error_code = some code;
}

abbrev pub starting_snapshot : Process → String → List String → Bool → Snapshot
starting_snapshot p hash names inspect_ui = record {
  status = starting;
  process = some p;
  catalog_hash = some hash;
  server_names = names;
  is_inspected = inspect_ui;
  error_code = none;
}

abbrev pub build_code : Option ℕ → String
build_code none = "TERMINAL_BUILD_UNAVAILABLE"
build_code (some b) = "TERMINAL_BUILD_UNSUPPORTED"

-- The build if it is a verified one.
unfoldable pub supported : Option ℕ → Option ℕ
unfolding in_builds
supported none = none
supported (some b) = if in_builds b verified_builds then some b else none

module _ (o : Outside) (key : String) where
  unfoldable pub identify : ℕ → Act (Option String)
  identify pid = ask (λ log. o.process_identity log pid) (λ i. identified pid i)

  unfoldable pub clock : Act ℕ
  clock = ask (λ log. o.clock log) (λ t. clock_read t)

  unfoldable pub fingerprint : Act String
  fingerprint = attempt (λ log. o.fingerprint log) (λ r. fingerprinted r)

  unfoldable pub forget : Act (Unit {0})
  forget = writes (λ w. record w { cache = remove key w.cache })

  -- A failed report keeps the process, if that is still the same.
  unfoldable pub report_error : Process → String → Act Snapshot
  unfolding identify
  report_error p code = identify p.0 >>= λ i.
      if same_identity i p.1
      then pure (error_snapshot p code)
      else throw (inventory "TERMINAL_CHANGED")

  -- The last checks, and the new row where the servers were read.
  unfoldable pub conclude : Process → ℕ → String → Bool → Bool → List String → String → Act Snapshot
  unfolding identify clock forget
  conclude p build hash inspect_ui fresh names hash_again =
      if not (hash_again == hash)
      then forget >> throw (inventory "TERMINAL_CHANGED")
      else identify p.0 >>= λ i.
          if not (same_identity i p.1)
          then forget >> throw (inventory "TERMINAL_CHANGED")
          else if fresh
          then (clock >>= λ now.
              writes (λ w. record w {
                cache =
                    insert key
                      (record {
                        identity = p.1;
                        hash = hash;
                        build = build;
                        names = names;
                        verified_at = now;
                      })
                      w.cache;
              })
              >> pure (starting_snapshot p hash names inspect_ui))
          else pure (starting_snapshot p hash names inspect_ui)

  unfoldable pub check_again : Process → ℕ → String → Bool → Bool → List String → Act Snapshot
  unfolding fingerprint conclude
  check_again p build hash inspect_ui fresh names =
      fingerprint >>= λ hash_again. conclude p build hash inspect_ui fresh names hash_again

  -- `except InventoryError` around the reading of the dialog.
  unfoldable pub after_dialog : Process → ℕ → String → Result (List String) → Act Snapshot
  unfolding check_again forget report_error
  after_dialog p build hash (ok names) = check_again p build hash true true names
  after_dialog p build hash (raise (Error.inventory_error code)) = forget >> report_error p code
  after_dialog p build hash (raise e) = throw e

  unfoldable pub read_dialog : Process → ℕ → String → Act Snapshot
  unfolding after_dialog
  read_dialog p build hash = ask (λ log. o.visible_servers log p) (λ r. listed key p r) >>= λ r.
      after_dialog p build hash r

  unfoldable pub use_cached : Process → ℕ → String → Cached → ℕ → Act Snapshot
  unfolding check_again read_dialog
  use_cached p build hash c now =
      if is_recent now c
      then check_again p build hash true false c.names
      else read_dialog p build hash

  unfoldable pub look_up : Process → ℕ → String → Option Cached → Act Snapshot
  unfolding clock read_dialog use_cached
  look_up p build hash none = read_dialog p build hash
  look_up p build hash (some c) =
      if is_same p.1 hash build c
      then (clock >>= λ now. use_cached p build hash c now)
      else read_dialog p build hash

  unfoldable pub collect_servers : Process → ℕ → Bool → String → Act Snapshot
  unfolding check_again look_up
  collect_servers p build inspect_ui hash =
      if inspect_ui
      then (reads (λ w. lookup key w.cache) >>= λ cached. look_up p build hash cached)
      else check_again p build hash false false []

  unfoldable pub collect_build : Process → Bool → Option ℕ → Option ℕ → Act Snapshot
  unfolding fingerprint collect_servers report_error
  collect_build p inspect_ui read none = report_error p (build_code read)
  collect_build p inspect_ui read (some build) =
      fingerprint >>= λ hash. collect_servers p build inspect_ui hash

  unfoldable pub collect_process : Bool → Option Process → Act Snapshot
  unfolding collect_build supported
  collect_process inspect_ui none = pure offline_snapshot
  collect_process inspect_ui (some p) =
      ask (λ log. o.terminal_build log) (λ b. build_read b) >>= λ build.
      collect_build p inspect_ui build (supported build)

  unfoldable pub collect_inventory : Bool → Act Snapshot
  unfolding collect_process
  collect_inventory inspect_ui =
      attempt (λ log. o.validate log) (λ r. validated r)
      >> (attempt (λ log. o.find_process log) (λ r. found r) >>= λ process.
          collect_process inspect_ui process)
