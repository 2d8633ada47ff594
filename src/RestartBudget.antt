-- ===== src/RestartBudget.antt =====
-- app/collector/restart_budget.py: the durable restart throttle that all slots share.
-- The sqlite table `attempts` is its rows by slot key; the key is the casefolded resolved path.
-- A failing sqlite or file call rolls the transaction back and raises, so whether the store
-- answers is a Boolean of the call.
pub mod Gates
pub mod Spacing
mod Examples
use tradetrack_mt5_server.Prelude.{
  ℕ, ◌+◌, ◌≤◌, max, String, Bool, true, false, not, ◌||◌, Option, none, some, List, [], ◌∷◌, ltb,
  if◌then◌else◌, ◌==◌, text_key, lookup, insert, Result, ok, raise, Error, ◌≡◌,
}
use tradetrack_mt5_server.Throttle.{seconds}

pub record Attempt : Type 0 where
  pub identity : String
  pub at : ℕ

abbrev pub Attempts : Type 0
Attempts = List (String × Attempt)

abbrev pub later : ℕ → Option ℕ → Option ℕ
later t none = some t
later t (some u) = some (max t u)

-- `SELECT MAX(at) FROM attempts`, null on an empty table.
unfoldable pub latest : Attempts → Option ℕ
latest [] = none
latest ((k, a) ∷ rows) = later a.at (latest rows)

-- `now - then < wait`, with no clock that goes backwards excluded.
abbrev pub is_within : ℕ → Option ℕ → ℕ → Bool
is_within now none wait = false
is_within now (some t) wait = ltb now (t + wait)

abbrev pub at_of : Option Attempt → Option ℕ
at_of none = none
at_of (some a) = some a.at

abbrev pub has_identity : Option Attempt → String → Bool
has_identity none identity = false
has_identity (some a) identity = a.identity == identity

-- The transaction on a table that can be read.
unfoldable pub reserve_in : Attempts → String → String → ℕ → Attempts × Result (Unit {0})
unfolding latest
reserve_in db key identity now =
    let previous = lookup key db in
    if has_identity previous identity
    then (db, ok tt)
    else if is_within now (latest db) (seconds 120) || is_within now (at_of previous) (seconds 900)
    then (db, raise (Error.inventory_error "RECOVERY_COOLDOWN"))
    else (insert key (record { identity = identity; at = now }) db, ok tt)

unfoldable pub reserve_restart :
    Bool → Attempts → String → String → ℕ → Attempts × Result (Unit {0})
unfolding reserve_in
reserve_restart available db key identity now =
    if available
    then reserve_in db key identity now
    else (db, raise (Error.inventory_error "RECOVERY_BUDGET_UNAVAILABLE"))
