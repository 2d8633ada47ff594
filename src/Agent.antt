-- ===== src/Agent.antt =====
-- app/collector/node_agent.py, `InventoryAgent`: the slots' sessions with the API. The outside answers
-- by the transcript of the calls before, which is newest first.
pub mod Config
pub mod File
pub mod Protocol
mod Examples
use tradetrack_mt5_server.Prelude.{
  ℕ, ◌+◌, String, Bool, true, false, not, ◌&&◌, ◌||◌, Option, none, some, List, [], ◌∷◌, map,
  length, ltb, leb, nat_beq, if◌then◌else◌, ◌==◌, text_key, lookup, insert, Result, ok, raise,
  Error,
}
use tradetrack_mt5_server.Prelude.Actions.{Action, ◌>>=◌, ◌>>◌, pure, throw, reads, writes, choose}
use tradetrack_mt5_server.Catalogues.{same_text}
use tradetrack_mt5_server.Agent.Config.{
  SlotConfig, RemoteSlot, RemoteConfig, read_config, matches_config,
}

pub data Status : Type 0 where
  starting offline error : Status

pub record Snapshot : Type 0 where
  pub status : Status
  pub process_identity : Option String
  pub catalog_hash : Option String
  pub server_names : List String
  pub is_inspected : Bool
  pub error_code : Option String

pub record Session : Type 0 where
  pub generation : String
  pub sequence : ℕ
  pub process_identity : Option String

pub record Report : Type 0 where
  pub slot_id : String
  pub status : Status
  pub server_count : ℕ
  pub error_code : Option String

pub data Entry : Type 0 where
  configured : (answer : Result RemoteConfig) → Entry
  collected : (slot : String) (answer : Result Snapshot) → Entry
  build_read : (answer : Option ℕ) → Entry
  generated : (generation : String) → Entry
  registered :
      (slot generation : String) (expected identity : Option String) (answer : Result (Unit {0}))
      → Entry
  reported : (slot generation : String) (sequence : ℕ) (answer : Result (Unit {0})) → Entry

abbrev pub Log : Type 0
Log = List Entry

pub record Outside : Type 0 where
  pub config : Log → Result RemoteConfig
  pub collect_inventory : Log → SlotConfig → Bool → Result Snapshot
  pub file_build : Log → String → Option ℕ
  pub uuid : Log → String
  pub register : Log → String → Result (Unit {0})
  pub report : Log → String → Result (Unit {0})

pub record InventoryAgent : Type 0 where
  pub log : Log
  pub sessions : List (String × Session)
  pub remote_slots : List (String × RemoteSlot)
  pub last_snapshots : List (String × Snapshot)
  pub accepted_builds : Option (List ℕ)

abbrev pub Act : Type 0 → Type 0
Act A = Action InventoryAgent A

module _ {A : Type 0} where
  unfoldable pub ask : (Log → A) → (A → Entry) → Act A
  ask answer note a = (ok (answer a.log), record a { log = note (answer a.log) ∷ a.log })

  unfoldable pub attempt : (Log → Result A) → (Result A → Entry) → Act A
  attempt answer note a = (answer a.log, record a { log = note (answer a.log) ∷ a.log })

abbrev pub agent : String → Error
agent code = Error.agent_error code

-- A failed inventory is a snapshot too.
abbrev pub failed_snapshot : Option String → Snapshot
failed_snapshot code = record {
  status = error;
  process_identity = none;
  catalog_hash = none;
  server_names = [];
  is_inspected = false;
  error_code = code;
}

unfoldable pub inventory_snapshot : Result Snapshot → Result Snapshot
inventory_snapshot (ok s) = ok s
inventory_snapshot (raise (Error.inventory_error code)) = ok (failed_snapshot (some code))
inventory_snapshot (raise e) = raise e

abbrev pub is_starting : Status → Bool
is_starting starting = true
is_starting _ = false

unfoldable pub in_builds : ℕ → List ℕ → Bool
in_builds b [] = false
in_builds b (c ∷ builds) = nat_beq b c || in_builds b builds

unfoldable pub is_accepted : Option ℕ → List ℕ → Bool
unfolding in_builds
is_accepted none builds = false
is_accepted (some b) builds = in_builds b builds

abbrev pub unsupported : Snapshot → Snapshot
unsupported s = record s {
  status = error;
  error_code = some "API_TERMINAL_BUILD_UNSUPPORTED";
  server_names = [];
  is_inspected = false;
  catalog_hash = none;
}

-- Whether the session is of another process, or there is none.
abbrev pub is_new_process : Option Session → Option String → Bool
is_new_process none identity = true
is_new_process (some s) identity = not (same_text s.process_identity identity)

abbrev pub put_session : String → Session → InventoryAgent → InventoryAgent
put_session id s a = record a { sessions = insert id s a.sessions }

module _ (o : Outside) (resolve : String → String) (node_id : String)
    (slots : List SlotConfig) where
  unfoldable pub use_config : Option (List ℕ × List (String × RemoteSlot)) → Act (Unit {0})
  unfolding matches_config
  use_config none = throw (agent "API_CONFIG_INVALID")
  use_config (some (builds, rows)) =
      writes (λ a. record a { accepted_builds = some builds; remote_slots = rows })
      >> (if matches_config resolve slots rows
          then pure tt
          else throw (agent "SLOT_CONFIG_MISMATCH"))

  unfoldable pub connect : Act (Unit {0})
  unfolding read_config use_config
  connect =
      attempt (λ log. o.config log) (λ r. configured r) >>= λ c. use_config (read_config node_id c)

  -- The snapshot, blocked where the API does not accept the terminal's build.
  unfoldable pub check_build : SlotConfig → Snapshot → Option (List ℕ) → Act Snapshot
  unfolding is_accepted
  check_build slot s none = pure s
  check_build slot s (some builds) =
      if is_starting s.status
      then (ask (λ log. o.file_build log slot.executable_path) (λ b. build_read b) >>= λ build.
          pure (if is_accepted build builds then s else unsupported s))
      else pure s

  unfoldable pub take_snapshot : SlotConfig → Bool → Act Snapshot
  unfolding inventory_snapshot check_build
  take_snapshot slot inspect_ui =
      attempt (λ log. inventory_snapshot (o.collect_inventory log slot inspect_ui))
        (λ r. collected slot.id r)
      >>= λ s. (reads (λ a. a.accepted_builds) >>= λ builds. check_build slot s builds)

  -- The new session, once the API has registered it.
  unfoldable pub register : String → Snapshot → Option String → String → Act (Unit {0})
  register id s expected generation =
      attempt (λ log. o.register log id)
        (λ r. registered id generation expected s.process_identity r)
      >> writes (
          put_session id (record {
            generation = generation;
            sequence = 0;
            process_identity = s.process_identity;
          }))

  unfoldable pub open_session :
      String → Snapshot → Option Session → Option RemoteSlot → Act (Unit {0})
  unfolding register
  open_session id s none none =
      ask (λ log. o.uuid log) (λ g. generated g) >>= λ g. throw Error.other
  open_session id s none (some remote) =
      ask (λ log. o.uuid log) (λ g. generated g) >>= λ g. register id s remote.generation g
  open_session id s (some session) remote =
      ask (λ log. o.uuid log) (λ g. generated g) >>= λ g. register id s (some session.generation) g

  unfoldable pub ensure_session : String → Snapshot → Act (Unit {0})
  unfolding open_session
  ensure_session id s = reads (λ a. lookup id a.sessions) >>= λ current.
      if is_new_process current s.process_identity
      then (reads (λ a. lookup id a.remote_slots) >>= λ remote. open_session id s current remote)
      else pure tt

  -- The sequence number counts a report also where the API refuses it.
  unfoldable pub send_report : String → Option Session → Act (Unit {0})
  send_report id none = throw Error.other
  send_report id (some s) =
      writes (put_session id (record s { sequence = s.sequence + 1 }))
      >> attempt (λ log. o.report log id) (λ r. reported id s.generation (s.sequence + 1) r)

  unfoldable pub report_slot : SlotConfig → Bool → Act Report
  unfolding take_snapshot ensure_session send_report
  report_slot slot inspect_ui = take_snapshot slot inspect_ui >>= λ s.
      ensure_session slot.id s
      >> (reads (λ a. lookup slot.id a.sessions) >>= λ current. send_report slot.id current)
      >> writes (λ a. record a { last_snapshots = insert slot.id s a.last_snapshots })
      >> pure (record {
        slot_id = slot.id;
        status = s.status;
        server_count = length s.server_names;
        error_code = s.error_code;
      })
