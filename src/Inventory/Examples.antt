-- ===== src/Inventory/Examples.antt =====
-- Runs of the inventory, and the theorems at concrete inputs.
use tradetrack_mt5_server.Prelude.{
  ℕ, ◌≡◌, ◌↔◌, String, true, false, Option, none, some, [], ◌∷◌, All, nat_beq, if◌then◌else◌,
  text_key, lookup, insert, remove, ok, raise, Error, refl,
}
use tradetrack_mt5_server.Prelude.Actions.{◌>>=◌, pure, throw, reads, writes}
use tradetrack_mt5_server.Prelude.Int.{pos}
use tradetrack_mt5_server.Catalogues.{in_names}
use tradetrack_mt5_server.Normalization.Sorting.{sorted, put}
use tradetrack_mt5_server.Inventory.Servers.{
  Combo, read_servers, checked_size, read_names, read_name, buffer_value, set_of,
}
use tradetrack_mt5_server.Inventory.Servers.Listed.{IsListed, read_servers-IsListed}
use tradetrack_mt5_server.Inventory.Caption.{
  in_builds, after_prefix, has_newline, then_matches, is_mode, is_plain, is_body,
  read_only_caption_matches, IsCaption, read_only_caption_matches_iff,
}
use tradetrack_mt5_server.Inventory.Processes.{Process, find_process, IsOnly, find_process_iff}
use tradetrack_mt5_server.Inventory.Reports.{
  Outside, World, starting_snapshot, supported, ask, attempt, identify, clock, fingerprint,
  conclude, check_again, after_dialog, read_dialog, use_cached, look_up, collect_servers,
  collect_build, collect_process, collect_inventory,
}
use tradetrack_mt5_server.Inventory.Reports.Evidence.{Evidenced, IsJustified}
use tradetrack_mt5_server.Inventory.Reports.Justified.{collect_inventory-IsJustified}

caption_run :
    read_only_caption_matches "7 - S: Demo Account - Read Only - Netting - Co" "7" "S" (some 6231)
    ≡ true
unfolding read_only_caption_matches in_builds after_prefix has_newline then_matches is_mode is_plain
    is_body
caption_run = refl

caption_of_old_build :
    read_only_caption_matches "7 - S: Read Only - Netting - Co" "7" "S" (some 6230) ≡ false
unfolding read_only_caption_matches in_builds after_prefix has_newline then_matches is_mode is_plain
    is_body
caption_of_old_build = refl

read_only_caption_matches_iff_example :
    (read_only_caption_matches "7 - S: Read Only - Hedge - Co" "7" "S" (some 6230) ≡ true)
    ↔ IsCaption "7 - S: Read Only - Hedge - Co" "7" "S" 6230
read_only_caption_matches_iff_example =
    read_only_caption_matches_iff "7 - S: Read Only - Hedge - Co" "7" "S" 6230

-- Of the processes, the second is the terminal.
abbrev table : ℕ → Option String
table pid = if nat_beq pid 12 then some "12:1" else none

find_process_iff_example :
    ((find_process table (some (4 ∷ 12 ∷ [])) ≡ ok (some (12, "12:1")))
      ↔ IsOnly table (4 ∷ 12 ∷ []) (12, "12:1"))
    × ((find_process table (some (4 ∷ 12 ∷ [])) ≡ ok none)
        ↔ All (λ q. table q ≡ none) (4 ∷ 12 ∷ []))
find_process_iff_example = find_process_iff table (4 ∷ 12 ∷ []) (12, "12:1")

abbrev terminal : Process
terminal = (12, "12:1")

abbrev world : Outside
world = record {
  validate = λ log. ok tt;
  find_process = λ log. ok (some terminal);
  terminal_build = λ log. some 6230;
  process_identity = λ log pid. some "12:1";
  fingerprint = λ log. ok "h";
  clock = λ log. 5000;
  visible_servers = λ log p. ok ("A" ∷ []);
}

abbrev fresh : World
fresh = record { log = []; cache = [] }

-- The second report takes the names of the first one.
abbrev silent : Outside
silent = record world { visible_servers = λ log p. raise (Error.inventory_error "UI_TIMEOUT") }

cached_report :
    (collect_inventory silent "t" true (collect_inventory world "t" true fresh).1).0
    ≡ ok (starting_snapshot terminal "h" ("A" ∷ []) true)
unfolding collect_inventory collect_process collect_build supported in_builds collect_servers
    look_up use_cached read_dialog after_dialog check_again conclude fingerprint clock identify ask
    attempt lookup insert remove ◌>>=◌ pure throw reads writes
cached_report = refl

fresh-Evidenced : Evidenced fresh
unfolding lookup
fresh-Evidenced = record { row = λ k c h. cc }

collect_inventory-IsJustified_example :
    Evidenced (collect_inventory world "t" true fresh).1
    × IsJustified "t"
        (collect_inventory world "t" true fresh).0
        (collect_inventory world "t" true fresh).1.log
collect_inventory-IsJustified_example =
    collect_inventory-IsJustified world "t" true fresh fresh-Evidenced

-- Two names in the box.
abbrev combo : Combo
combo = record {
  before = some "12:1";
  count = ok (pos 2);
  start = 100;
  turns = λ i. record {
    clock = 200;
    length = ok (pos 1);
    copied = ok (pos 1);
    buffer = if nat_beq i 0 then "B" else "A";
  };
  again = ok (pos 2);
  after = some "12:1";
}

read_servers-IsListed_example : IsListed "12:1" combo ("A" ∷ "B" ∷ [])
read_servers-IsListed_example = read_servers-IsListed "12:1" combo ("A" ∷ "B" ∷ []) (
    unfold read_servers checked_size read_names read_name buffer_value set_of in_names sorted put in
    refl)
