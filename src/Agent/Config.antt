-- ===== src/Agent/Config.antt =====
-- The configuration of a node: its file (`load_config`), and the API's answer to `/config` that
-- `connect` compares it with. `resolve` stands for `Path.resolve`.
use tradetrack_mt5_server.Prelude.{
  ℕ, String, Bool, true, false, not, ◌&&◌, Option, none, some, List, [], ◌∷◌, map, length, ltb, leb,
  nat_beq, if◌then◌else◌, ◌==◌, text_key, lookup, insert,
}
use tradetrack_mt5_server.Catalogues.{is_subset}

pub record SlotConfig : Type 0 where
  pub id : String
  pub executable_path : String
  pub data_path : String

-- A slot of the API's answer whose id is a text; a path is missing where it is no text.
pub record RemoteSlot : Type 0 where
  pub id : String
  pub executable_path : Option String
  pub data_path : Option String
  pub generation : Option String
  pub quarantine_identity : Option String

-- `terminalBuilds`: not there, no list, or a list, with `none` for what is no integer or below zero.
pub data Builds : Type 0 where
  absent malformed : Builds
  listed : List (Option ℕ) → Builds

-- The answer to `/config`. `slots` is missing where it is no list, and has `none` for what is no
-- object with a text for its id.
pub record RemoteConfig : Type 0 where
  pub node_id : String
  pub slots : Option (List (Option RemoteSlot))
  pub builds : Builds

-- What builds an answer accepts: the six of the older API where it has none, and `none` where the
-- answer is refused.
abbrev pub legacy_builds : List ℕ
legacy_builds = 6182 ∷ 6190 ∷ 6193 ∷ 6204 ∷ 6230 ∷ 6231 ∷ []

unfoldable pub positive_builds : List (Option ℕ) → Option (List ℕ)
positive_builds [] = some []
positive_builds (none ∷ builds) = none
positive_builds (some b ∷ builds) = elim (positive_builds builds) [
  | none ↦ none
  | some rest ↦ if nat_beq b 0 then none else some (b ∷ rest)
]

unfoldable pub accepted : Builds → Option (List ℕ)
unfolding positive_builds
accepted absent = some legacy_builds
accepted malformed = none
accepted (listed builds) =
    if ltb 0 (length builds) && leb (length builds) 64 then positive_builds builds else none

-- The dictionary of the well-formed slots by their ids.
unfoldable pub by_id :
    List (Option RemoteSlot) → List (String × RemoteSlot) → List (String × RemoteSlot)
by_id [] rows = rows
by_id (none ∷ slots) rows = by_id slots rows
by_id (some s ∷ slots) rows = by_id slots (insert s.id s rows)

-- What `connect` keeps of an answer before it compares the slots: the builds and the slots, or
-- `none` where it is refused.
unfoldable pub read_config : String → RemoteConfig → Option (List ℕ × List (String × RemoteSlot))
unfolding accepted by_id
read_config node_id c = if not (c.node_id == node_id) then none else elim c.slots [
  | none ↦ none
  | some slots ↦ elim (accepted c.builds) [
    | none ↦ none
    | some builds ↦ some (builds, by_id slots [])
  ]
]

abbrev pub same_path : (String → String) → Option String → String → Bool
same_path resolve none path = false
same_path resolve (some other) path = resolve other == resolve path

abbrev pub same_slot : (String → String) → SlotConfig → Option RemoteSlot → Bool
same_slot resolve slot none = false
same_slot resolve slot (some other) =
    same_path resolve other.executable_path slot.executable_path
    && same_path resolve other.data_path slot.data_path

unfoldable pub all_same : (String → String) → List SlotConfig → List (String × RemoteSlot) → Bool
all_same resolve [] rows = true
all_same resolve (slot ∷ slots) rows =
    same_slot resolve slot (lookup slot.id rows) && all_same resolve slots rows

unfoldable pub ids_of : List (String × RemoteSlot) → List String
ids_of [] = []
ids_of (row ∷ rows) = row.0 ∷ ids_of rows

-- The remote slots are those of the configuration, with its paths.
unfoldable pub matches_config :
    (String → String) → List SlotConfig → List (String × RemoteSlot) → Bool
unfolding all_same ids_of is_subset
matches_config resolve slots rows =
    let ids = map (λ s. s.id) slots in
    is_subset ids (ids_of rows) && is_subset (ids_of rows) ids && all_same resolve slots rows
