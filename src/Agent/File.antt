-- ===== src/Agent/File.antt =====
-- `load_config`: the configuration file of a node, from what `json.loads` makes of it. `is_absolute`
-- stands for `Path.is_absolute`, and `key` for the resolved path's text, casefolded.
mod Loop
pub mod Accepted
use tradetrack_mt5_server.Prelude.{
  ℕ, ◌≡◌, String, Bool, true, false, not, ◌&&◌, ◌||◌, Option, none, some, List, [], ◌∷◌, length,
  ltb, leb, nat_beq, if◌then◌else◌, Result, ok, raise, Error, ◌>>=◌, ◌>>◌,
}
use Prim.Native.Char.{Char, code}
use Prim.Native.String.{count, [], ◌∷◌}
use tradetrack_mt5_server.Catalogues.{in_names}
use tradetrack_mt5_server.Agent.{agent}
use tradetrack_mt5_server.Agent.Config.{SlotConfig}

-- An object with the three keys of a slot; a value is missing where it is no text.
pub record FileSlot : Type 0 where
  pub id : Option String
  pub executable_path : Option String
  pub data_path : Option String

-- An object with the three keys of the configuration. `slots` is missing where it is no list, and has
-- `none` for what is no object with a slot's keys.
pub record FileConfig : Type 0 where
  pub api_base_url : Option String
  pub node_id : Option String
  pub slots : Option (List (Option FileSlot))

pub record NodeConfig : Type 0 where
  pub api_base_url : String
  pub node_id : String
  pub slots : List SlotConfig

-- What opening and reading the file gives: how many bytes were read, 65537 at most, and what
-- `json.loads` answers, `none` for anything but an object with the three keys. `Error.os_error`
-- stands for what the `except` clause names.
abbrev pub Content : Type 0
Content = Result (ℕ × Result (Option FileConfig))

abbrev pub is_id_char : Char → Bool
is_id_char c =
    (leb 65 (code c) && leb (code c) 90)
    || (leb 97 (code c) && leb (code c) 122)
    || (leb 48 (code c) && leb (code c) 57)
    || nat_beq (code c) 95
    || nat_beq (code c) 45

unfoldable pub all_id_chars : String → Bool
all_id_chars [] = true
all_id_chars (c ∷ s) = is_id_char c && all_id_chars s

-- The pattern `[A-Za-z0-9_-]{1,64}`.
unfoldable pub is_id : String → Bool
unfolding all_id_chars
is_id s = leb 1 (count s) && leb (count s) 64 && all_id_chars s

-- The slot of an object whose values are texts.
unfoldable pub texts_of : Option String → Option String → Option String → Option SlotConfig
texts_of (some id) (some executable) (some data_path) =
    some (record { id = id; executable_path = executable; data_path = data_path })
texts_of _ _ _ = none

abbrev pub texts : FileSlot → Option SlotConfig
texts s = texts_of s.id s.executable_path s.data_path

-- The three sets of the loop.
pub record Seen : Type 0 where
  pub ids : List String
  pub executables : List String
  pub data_paths : List String

abbrev pub see_slot : Seen → String → String → String → Seen
see_slot seen id executable data_path = record {
  ids = id ∷ seen.ids;
  executables = executable ∷ seen.executables;
  data_paths = data_path ∷ seen.data_paths;
}

abbrev pub is_seen : Seen → String → String → String → Bool
is_seen seen id executable data_path =
    in_names id seen.ids
    || in_names executable seen.executables
    || in_names data_path seen.data_paths

module _ (is_absolute : String → Bool) (key : String → Result String) where
  abbrev pub add_keyed : Seen → SlotConfig → String → String → Result (SlotConfig × Seen)
  add_keyed seen c executable data_path =
      if is_seen seen c.id executable data_path
      then raise (agent "DUPLICATE_SLOT")
      else ok (c, see_slot seen c.id executable data_path)

  unfoldable pub add_named : Seen → Option SlotConfig → Result (SlotConfig × Seen)
  unfolding is_id in_names
  add_named seen none = raise (agent "INVALID_SLOT_CONFIG")
  add_named seen (some c) =
      if not (is_id c.id)
      then raise (agent "INVALID_SLOT_CONFIG")
      else if not (is_absolute c.executable_path) || not (is_absolute c.data_path)
      then raise (agent "INVALID_SLOT_PATH")
      else (key c.executable_path >>= λ executable.
          key c.data_path >>= λ data_path. add_keyed seen c executable data_path)

  -- One turn of the loop.
  unfoldable pub add_slot : Seen → Option FileSlot → Result (SlotConfig × Seen)
  unfolding add_named texts_of
  add_slot seen none = raise (agent "INVALID_SLOT_CONFIG")
  add_slot seen (some s) = add_named seen (texts s)

  unfoldable pub add_slots : Seen → List (Option FileSlot) → Result (List SlotConfig)
  unfolding add_slot
  add_slots seen [] = ok []
  add_slots seen (s ∷ slots) =
      add_slot seen s >>= λ (c, seen'). add_slots seen' slots >>= λ rest. ok (c ∷ rest)

  abbrev pub nothing_seen : Seen
  nothing_seen = record { ids = []; executables = []; data_paths = [] }

  abbrev pub invalid : {A : Type 0} → Result A
  invalid = raise (agent "INVALID_NODE_CONFIG")

  unfoldable pub check_slots : String → String → Option (List (Option FileSlot)) → Result NodeConfig
  unfolding add_slots
  check_slots url node none = invalid
  check_slots url node (some slots) =
      if not (leb 1 (length slots) && leb (length slots) 16)
      then invalid
      else (add_slots nothing_seen slots >>= λ cs.
          ok (record { api_base_url = url; node_id = node; slots = cs }))

  unfoldable pub check_config : Option FileConfig → Result NodeConfig
  unfolding check_slots
  check_config none = invalid
  check_config (some c) = elim c.api_base_url [
    | none ↦ invalid
    | some url ↦ elim c.node_id [ none ↦ invalid | some node ↦ check_slots url node c.slots ]
  ]

  abbrev pub check_content : ℕ × Result (Option FileConfig) → Result NodeConfig
  check_content (size, parsed) =
      if ltb 65536 size then raise (agent "CONFIG_LIMIT") else (parsed >>= λ c. check_config c)

  -- `except (OSError, ValueError, TypeError)`.
  abbrev pub caught : Result NodeConfig → Result NodeConfig
  caught (raise Error.os_error) = invalid
  caught r = r

  unfoldable pub load_config : Content → Result NodeConfig
  unfolding check_config
  load_config content = caught (content >>= λ c. check_content c)
