-- ===== src/Telemetry.antt =====
-- app/collector/telemetry.py, `reserve_event` and `report`: which failures become events. Times are
-- milliseconds. A failing store fails before its transaction changes anything. What the SDK does
-- with an event is outside, as is the text that explains a code.
mod Quota
mod Examples
use tradetrack_mt5_server.Prelude.{
  ℕ, ◌+◌, ◌≤◌, ◌<◌, String, Bool, true, false, not, ◌&&◌, ◌||◌, Option, none, some, List, [], ◌∷◌,
  length, ltb, leb, nat_beq, if◌then◌else◌, ◌==◌, text_key, lookup, insert,
}
use tradetrack_mt5_server.Throttle.{seconds}
use tradetrack_mt5_server.Gateway.Login.{starts_with}
use Prim.Native.String.{◌++◌, count, [], ◌∷◌}
use Prim.Native.Char.{Char, code}

abbrev pub reminder : ℕ
reminder = seconds 21600

abbrev pub week : ℕ
week = seconds 604800

-- The table of the store, `_seen`, and `_pending` by code and slot: first time, last time, count.
pub record Telemetry : Type 0 where
  pub sent : List (String × ℕ)
  pub seen : List (String × ℕ)
  pub pending : List ((String × String) × (ℕ × ℕ × ℕ))

-- Whether the `INSERT` with its `ON CONFLICT … WHERE` changes the row.
abbrev pub is_due : ℕ → Option ℕ → Bool
is_due now none = true
is_due now (some t) = leb (t + reminder) now || ltb (now + seconds 60) t

-- `DELETE … WHERE at < now - 7 days`.
unfoldable pub keep_week : ℕ → List (String × ℕ) → List (String × ℕ)
keep_week now [] = []
keep_week now (row ∷ rows) =
    let rest = keep_week now rows in if ltb (row.1 + week) now then rest else row ∷ rest

abbrev pub see : String → Option ℕ → List (String × ℕ) → List (String × ℕ)
see c none seen = seen
see c (some t) seen = insert c t seen

abbrev pub upsert : String → ℕ → List (String × ℕ) → List (String × ℕ)
upsert c now sent = if is_due now (lookup c sent) then insert c now sent else sent

-- The transaction of the store.
unfoldable pub reserve_stored : String → ℕ → Telemetry → Telemetry × Bool
unfolding keep_week
reserve_stored c now s =
    let rows = keep_week now (upsert c now s.sent) in
    (record s { sent = rows; seen = see c (lookup c rows) s.seen }, is_due now (lookup c s.sent))

abbrev pub is_recent : ℕ → Option ℕ → Bool
is_recent now none = false
is_recent now (some t) = leb t now && ltb now (t + reminder)

abbrev pub drop_first : {A : Type 0} → List A → List A
drop_first [] = []
drop_first (x ∷ xs) = xs

-- `_seen` of the process, with 256 codes at most.
unfoldable pub reserve_seen : String → ℕ → Telemetry → Telemetry × Bool
reserve_seen c now s = if is_recent now (lookup c s.seen) then (s, false) else (
  record s { seen = insert c now (if leb 256 (length s.seen) then drop_first s.seen else s.seen) },
  true,
)

-- `stored` tells whether there is a store and it works.
unfoldable pub reserve_event : Bool → String → ℕ → Telemetry → Telemetry × Bool
unfolding reserve_stored reserve_seen
reserve_event stored c now s = if stored then reserve_stored c now s else reserve_seen c now s

unfoldable pub in_texts : String → List String → Bool
in_texts s [] = false
in_texts s (t ∷ texts) = s == t || in_texts s texts

unfoldable pub safe_slot : Option String → String
unfolding in_texts
safe_slot none = "controller"
safe_slot (some s) =
    if in_texts s (
      "demo-01" ∷ "demo-02" ∷ "demo-03" ∷ "demo-04" ∷ "demo-05" ∷ "demo-06" ∷ "demo-07" ∷ "demo-08"
      ∷ "demo-09" ∷ "demo-10" ∷ "demo-11" ∷ "demo-12" ∷ "demo-13" ∷ "demo-14" ∷ "demo-15"
      ∷ "demo-16" ∷ [])
    then s
    else "controller"

unfoldable pub is_local : String → Bool
unfolding in_texts
is_local c = in_texts c (
    "SLOT_BUSY" ∷ "SERVER_PREPARING" ∷ "RECOVERY_COOLDOWN" ∷ "AUTH_FAILED" ∷ "INVALID_PASSWORD"
    ∷ "INVESTOR_UNVERIFIED" ∷ "TRADING_ENABLED" ∷ "SERVER_NOT_FOUND"
    ∷ "SERVER_NOT_FOUND_PREPARATION" ∷ [])

unfoldable pub is_recovered : String → Bool
unfolding in_texts
is_recovered state =
    in_texts state ("collected" ∷ "idle" ∷ "restarted" ∷ "CATALOGUE_SYNC_PENDING_VERIFICATION" ∷ [])

unfoldable pub is_transient : String → Bool
unfolding in_texts starts_with
is_transient c =
    starts_with c "DISCOVERY_UI_BUSY_"
    || in_texts c (
        "TERMINAL_CHANGED" ∷ "CATALOGUE_CHANGED" ∷ "TERMINAL_QUARANTINED" ∷ "UI_DIALOG_UNAVAILABLE"
        ∷ "UI_CLEANUP_FAILED" ∷ "TERMINAL_UI_BUSY" ∷ "TERMINAL_STOP_TIMEOUT" ∷ "API_HTTP_409"
        ∷ "NETWORK_UNAVAILABLE" ∷ [])

unfoldable pub forget_slot :
    String → List ((String × String) × (ℕ × ℕ × ℕ)) → List ((String × String) × (ℕ × ℕ × ℕ))
forget_slot slot [] = []
forget_slot slot (row ∷ rows) =
    let rest = forget_slot slot rows in if row.0.1 == slot then rest else row ∷ rest

unfoldable pub pending_at :
    String → String → List ((String × String) × (ℕ × ℕ × ℕ)) → Option (ℕ × ℕ × ℕ)
pending_at c slot [] = none
pending_at c slot (row ∷ rows) =
    let rest = pending_at c slot rows in
    if row.0.0 == c && row.0.1 == slot then some row.1 else rest

unfoldable pub put_pending :
    String
    → String
    → ℕ × ℕ × ℕ
    → List ((String × String) × (ℕ × ℕ × ℕ))
    → List ((String × String) × (ℕ × ℕ × ℕ))
put_pending c slot p [] = ((c, slot), p) ∷ []
put_pending c slot p (row ∷ rows) =
    let rest = put_pending c slot p rows in
    if row.0.0 == c && row.0.1 == slot then (row.0, p) ∷ rows else row ∷ rest

-- The next streak of a transient code: it starts again after five minutes of silence.
unfoldable pub next_pending : ℕ → Option (ℕ × ℕ × ℕ) → ℕ × ℕ × ℕ
next_pending now none = (now, now, 1)
next_pending now (some (first, last, n)) =
    if ltb (last + seconds 300) now then (now, now, 1) else (first, now, n + 1)

abbrev pub is_missing : {A : Type 0} → Option A → Bool
is_missing none = true
is_missing (some a) = false

unfoldable pub count_pending : String → String → ℕ → Telemetry → Telemetry × (ℕ × ℕ × ℕ)
unfolding pending_at put_pending next_pending
count_pending c slot now s =
    let old = pending_at c slot s.pending in
    let p = next_pending now old in
    let rows =
      if leb 256 (length s.pending) && is_missing old then drop_first s.pending else s.pending in
    (record s { pending = put_pending c slot p rows }, p)

pub record Event : Type 0 where
  pub error_code : String
  pub slot : String
  pub operation : Option String
  pub api_reason : Option String

-- `reason in CRITICAL_API_REASONS`.
unfoldable pub is_critical : Option String → Bool
is_critical none = false
is_critical (some r) = r == "ACCOUNT_IDENTITY_MISMATCH" || r == "RESULT_CONFLICT"

abbrev pub event_key : String → Option String → String
event_key c none = c
event_key c (some r) = if is_critical (some r) then c ++ (":" ++ r) else c

-- A result as `report` reads it; the operation and the reason are those that `api_fields` lets by.
pub record Report : Type 0 where
  pub slot_id : Option String
  pub error_code : Option String
  pub state : Option String
  pub operation : Option String
  pub api_reason : Option String

abbrev pub send : Report → String → Telemetry × Bool → Telemetry × Option Event
send r c (s, granted) =
    if granted
    then (
      s,
      some (record {
        error_code = c;
        slot = safe_slot r.slot_id;
        operation = r.operation;
        api_reason = r.api_reason;
      }),
    )
    else (s, none)

-- A transient code is held back until it was seen three times and for three minutes.
unfoldable pub report_code : Bool → Report → String → ℕ → ℕ → Telemetry → Telemetry × Option Event
unfolding reserve_event safe_slot is_transient is_critical count_pending
report_code stored r c now wall s =
    if not (is_critical r.api_reason) && is_transient c
    then (let (s', (first, last, n)) = count_pending c (safe_slot r.slot_id) now s in
        if ltb n 3 || ltb now (first + seconds 180)
        then (s', none)
        else send r c (reserve_event stored (event_key c r.api_reason) wall s'))
    else send r c (reserve_event stored (event_key c r.api_reason) wall s)

abbrev pub is_capital : Char → Bool
is_capital c = leb 65 (code c) && leb (code c) 90

abbrev pub is_code_char : Char → Bool
is_code_char c = is_capital c || (leb 48 (code c) && leb (code c) 57) || nat_beq (code c) 95

abbrev pub all_code_chars : String → Bool
all_code_chars [] = true
all_code_chars (c ∷ s) = is_code_char c && all_code_chars s

-- The pattern `[A-Z][A-Z0-9_]{0,63}`.
unfoldable pub is_code : String → Bool
is_code [] = false
is_code (c ∷ s) = is_capital c && all_code_chars s && leb (count s) 63

abbrev pub is_recovered_state : Option String → Bool
is_recovered_state none = false
is_recovered_state (some state) = is_recovered state

abbrev pub report_healthy : Report → Telemetry → Telemetry
report_healthy r s =
    if is_recovered_state r.state
    then record s { pending = forget_slot (safe_slot r.slot_id) s.pending }
    else s

abbrev pub report_named :
    Bool → Bool → Report → String → ℕ → ℕ → Telemetry → Telemetry × Option Event
report_named sdk stored r c now wall s =
    if c == ""
    then (report_healthy r s, none)
    else if not sdk
    then (s, none)
    else if is_local (if is_code c then c else "WORKER_FAILED")
    then (s, none)
    else report_code stored r (if is_code c then c else "WORKER_FAILED") now wall s

-- From `result['errorCode']` on. `sdk` tells whether `initialize` set the SDK; the two clocks are `time.monotonic` and `time.time`.
unfoldable pub report_error :
    Bool → Bool → Report → Option String → ℕ → ℕ → Telemetry → Telemetry × Option Event
unfolding report_code is_code is_local is_recovered forget_slot
report_error sdk stored r none now wall s = (report_healthy r s, none)
report_error sdk stored r (some c) now wall s = report_named sdk stored r c now wall s

unfoldable pub report : Bool → Bool → Report → ℕ → ℕ → Telemetry → Telemetry × Option Event
unfolding report_error
report sdk stored r now wall s = report_error sdk stored r r.error_code now wall s
