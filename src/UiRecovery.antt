-- ===== src/UiRecovery.antt =====
-- app/collector/ui_recovery.py: when a terminal whose user interface stays unhealthy is fenced.
-- Clock readings are milliseconds. A slot report is the part of the API's JSON object that the code
-- reads; `heartbeat` is `lastHeartbeat` as `datetime.fromisoformat` reads it, and is missing where
-- that raises.
pub mod Streaks
pub mod Cooldowns
pub mod Fence
mod Examples
use tradetrack_mt5_server.Prelude.{
  ℕ, suc, ◌+◌, String, Bool, true, false, not, ◌&&◌, ◌||◌, Option, none, some, List, [], ◌∷◌, ltb,
  leb, if◌then◌else◌, ◌==◌, text_key, lookup, insert, remove, Result, ok, raise, Error, ◌≡◌,
}
use tradetrack_mt5_server.Throttle.{seconds}

pub record SlotReport : Type 0 where
  pub id : String
  pub status : Option String
  pub inventory_error_code : Option String
  pub process_identity : Option String
  pub generation : Option String
  pub quarantine_identity : Option String
  pub heartbeat : Option ℕ

-- `value == text` of a field that may be missing.
abbrev pub is_text : Option String → String → Bool
is_text none t = false
is_text (some s) t = s == t

-- `bool(value)` of a field that holds a text or nothing.
abbrev pub is_truthy : Option String → Bool
is_truthy none = false
is_truthy (some s) = not (s == "")

abbrev pub is_same : Option String → Option String → Bool
is_same none none = true
is_same (some s) (some t) = s == t
is_same _ _ = false

-- `value in UI_ERRORS`.
unfoldable pub in_ui_errors : Option String → Bool
in_ui_errors code =
    is_text code "TERMINAL_UI_BUSY"
    || is_text code "UI_DIALOG_UNAVAILABLE"
    || is_text code "UI_CLEANUP_FAILED"
    || is_text code "UI_TIMEOUT"

-- `0 <= now - heartbeat <= 120`.
abbrev pub is_fresh : Option ℕ → ℕ → Bool
is_fresh none now = false
is_fresh (some t) now = leb t now && leb now (t + seconds 120)

-- The `valid` of `observe`.
unfoldable pub is_unhealthy : SlotReport → ℕ → Bool
unfolding in_ui_errors
is_unhealthy slot now =
    is_text slot.status "ERROR"
    && in_ui_errors slot.inventory_error_code
    && is_truthy slot.process_identity
    && is_truthy slot.generation
    && not (is_truthy slot.quarantine_identity)
    && is_fresh slot.heartbeat now

pub record Observation : Type 0 where
  pub process_identity : Option String
  pub generation : Option String
  pub first_at : ℕ
  pub last_at : ℕ
  pub seen : ℕ

abbrev pub Observations : Type 0
Observations = List (String × Observation)

-- The previous observation is of another process, or more than two minutes old.
abbrev pub is_broken : SlotReport → ℕ → Observation → Bool
is_broken slot now o =
    not (is_same o.process_identity slot.process_identity && is_same o.generation slot.generation)
    || ltb (o.last_at + seconds 120) now

unfoldable pub restarted : SlotReport → ℕ → Observation
restarted slot now = record {
  process_identity = slot.process_identity;
  generation = slot.generation;
  first_at = now;
  last_at = now;
  seen = 1;
}

unfoldable pub continued : SlotReport → ℕ → Observation → Observation
continued slot now o = record {
  process_identity = slot.process_identity;
  generation = slot.generation;
  first_at = o.first_at;
  last_at = now;
  seen = suc o.seen;
}

-- The part of `observe` below the `valid` test, by the slot's previous observation.
unfoldable pub observe_next : SlotReport → ℕ → Option Observation → Observation × Bool
unfolding restarted continued
observe_next slot now none = (restarted slot now, false)
observe_next slot now (some o) =
    if is_broken slot now o
    then (restarted slot now, false)
    else (continued slot now o, leb (o.first_at + seconds 120) now && leb 3 (suc o.seen))

unfoldable pub observe : Observations → SlotReport → ℕ → Observations × Bool
unfolding is_unhealthy observe_next
observe obs slot now =
    let next = observe_next slot now (lookup slot.id obs) in
    if is_unhealthy slot now
    then (insert slot.id next.0 obs, next.1)
    else (remove slot.id obs, false)
