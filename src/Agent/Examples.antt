-- ===== src/Agent/Examples.antt =====
-- Runs of the agent, and the theorem at one.
use tradetrack_mt5_server.Prelude.{
  ◌≡◌, ◌↔◌, true, none, some, [], ◌∷◌, text_key, lookup, insert, ok, raise, Error, refl,
}
use tradetrack_mt5_server.Prelude.Actions.{◌>>=◌, pure, reads, writes}
use tradetrack_mt5_server.Catalogues.{is_subset, in_names}
use tradetrack_mt5_server.Agent.Config.{
  SlotConfig, absent, accepted, by_id, read_config, matches_config, positive_builds, all_same,
  ids_of,
}
use tradetrack_mt5_server.Agent.{
  starting, Outside, InventoryAgent, ask, attempt, use_config, connect, inventory_snapshot,
  is_accepted, in_builds, check_build, take_snapshot, register, open_session, ensure_session,
  send_report, report_slot,
}
use tradetrack_mt5_server.Agent.File.{
  NodeConfig, Content, texts_of, is_id, all_id_chars, add_named, add_slot, add_slots, check_slots,
  check_config, load_config,
}
use tradetrack_mt5_server.Agent.File.Accepted.{config_text, IsAccepted, load_config_iff}
use tradetrack_mt5_server.Agent.Protocol.{replay, remotes, Refines, report_slot-Refines}

abbrev slot : SlotConfig
slot = record { id = "demo-01"; executable_path = "a/terminal64.exe"; data_path = "a" }

abbrev world : Outside
world = record {
  config = λ log. ok (record {
    node_id = "node";
    slots = some (
        some (record {
          id = "demo-01";
          executable_path = some "a/terminal64.exe";
          data_path = some "a";
          generation = none;
          quarantine_identity = none;
        })
        ∷ []);
    builds = absent;
  });
  collect_inventory = λ log s inspect. ok (record {
    status = starting;
    process_identity = some "7:1";
    catalog_hash = some "h";
    server_names = "A" ∷ "B" ∷ [];
    is_inspected = inspect;
    error_code = none;
  });
  file_build = λ log path. some 6230;
  uuid = λ log. "g1";
  register = λ log id. ok tt;
  report = λ log id. ok tt;
}

abbrev fresh : InventoryAgent
fresh = record {
  log = [];
  sessions = [];
  remote_slots = [];
  last_snapshots = [];
  accepted_builds = none;
}

abbrev connected : InventoryAgent
connected = (connect world (λ p. p) "node" (slot ∷ []) fresh).1

-- The second report of the first session.
report_twice :
    lookup "demo-01"
      (report_slot world
        (λ p. p)
        "node"
        (slot ∷ [])
        slot
        true
        (report_slot world (λ p. p) "node" (slot ∷ []) slot true connected).1).1.sessions
    ≡ some (record { generation = "g1"; sequence = 2; process_identity = some "7:1" })
unfolding connect read_config accepted positive_builds by_id use_config matches_config all_same
    ids_of is_subset in_names report_slot take_snapshot inventory_snapshot check_build is_accepted
    in_builds ensure_session open_session register send_report ask attempt lookup insert ◌>>=◌ pure
    reads writes
report_twice = refl

fresh-Refines : Refines "node" fresh
unfolding lookup replay remotes
fresh-Refines = record { sessions = λ id. refl; remote_slots = refl; conforms = tt }

report_slot-Refines_example :
    Refines "node" (report_slot world (λ p. p) "node" (slot ∷ []) slot true connected).1
    × Refines "node" (connect world (λ p. p) "node" (slot ∷ []) connected).1
report_slot-Refines_example =
    report_slot-Refines world (λ p. p) "node" (slot ∷ []) slot true connected
      (report_slot-Refines world (λ p. p) "node" (slot ∷ []) slot true fresh fresh-Refines).1

-- A file of two slots.
abbrev second : SlotConfig
second = record { id = "demo-02"; executable_path = "b/terminal64.exe"; data_path = "b" }

abbrev node_config : NodeConfig
node_config = record { api_base_url = "https://api"; node_id = "node"; slots = slot ∷ second ∷ [] }

abbrev file : Content
file = ok (200, ok (some (config_text node_config)))

load_file : load_config (λ p. true) (λ p. ok p) file ≡ ok node_config
unfolding load_config check_config check_slots add_slots add_slot add_named texts_of is_id
    all_id_chars in_names
load_file = refl

load_twice :
    load_config (λ p. true) (λ p. ok "same") file ≡ raise (Error.agent_error "DUPLICATE_SLOT")
unfolding load_config check_config check_slots add_slots add_slot add_named texts_of is_id
    all_id_chars in_names
load_twice = refl

load_config_iff_example :
    (load_config (λ p. true) (λ p. ok p) file ≡ ok node_config)
    ↔ IsAccepted (λ p. true) (λ p. ok p) file node_config
load_config_iff_example = load_config_iff (λ p. true) (λ p. ok p) file node_config
