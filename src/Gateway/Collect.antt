-- ===== src/Gateway/Collect.antt =====
-- app/collector/gateway.py, `collect`: one collection, from the checks of the request to the shutdown.
-- What MetaTrader, Windows, the files and the clocks answer depends on the transcript of the calls
-- before, newest first. The samples of the clock pass by here; the lists of turns that `settle` and
-- `login_failure` take are an answer each, and an exception of no class of the collector if they run
-- out.
mod Steps
mod Reads
mod Examples
pub mod Complete
use tradetrack_mt5_server.Prelude.{
  ℕ, ◌+◌, ◌-◌, String, Bool, true, false, not, ◌&&◌, ◌||◌, Option, none, some, List, [], ◌∷◌,
  length, ltb, leb, nat_beq, if◌then◌else◌, ◌==◌, text_key, Result, ok, raise, Error,
}
use tradetrack_mt5_server.Prelude.Int.{ℤ, pos, negsuc}
use tradetrack_mt5_server.Prelude.Actions.{
  Action, ◌>>=◌, ◌>>◌, pure, throw, reads, writes, catch, finally, choose,
}
use tradetrack_mt5_server.Contracts.{
  HistoryWindow, Moment, make_window, mt5_bounds, start_ms, end_ms, floor_second,
}
use tradetrack_mt5_server.History.{plan_recent_history, plan_history_before}
use tradetrack_mt5_server.Normalization.{
  Native, RawDeal, RawPosition, RawAccountSnapshot, normalize_account,
}
use tradetrack_mt5_server.Normalization.Deals.{Records, missing, no_batch, rows_of, normalize_deals}
use tradetrack_mt5_server.Normalization.Positions.{normalize_positions}
use tradetrack_mt5_server.Gateway.Identity.{
  Account, Expected, Sighting, Gate, collection, is_text, identity, settle,
}
use tradetrack_mt5_server.Gateway.Window.{
  Request, is_none, is_login, is_adaptive_recent, plan_window,
}
use tradetrack_mt5_server.Gateway.Shrink.{Total, checked_count, shrink, max_rounds}
use tradetrack_mt5_server.Gateway.Login.{
  Code, auth_failed, connection_failed, terminal_ipc_unavailable, network_unavailable, Reading,
  login_failure,
}
use Prim.Native.Char.{Char}

pub data Entry : Type 0 where
  validated : (answer : Result (Unit {0})) → Entry
  found : (answer : Result (Option String)) → Entry
  baseline_read : (answer : Bool) → Entry
  initialized logged_in : (answer : Bool) → Entry
  login_failed : (answer : Option (Result Code)) → Entry
  settled : (answer : Option (Result Account)) → Entry
  now_read : Moment → Entry
  narrowed : (answer : Result HistoryWindow) → Entry
  deals_read : (bounds : ℕ × ℕ) (answer : Records) → Entry
  counted : (bounds : ℕ × ℕ) (answer : Option ℤ) → Entry
  sampled recorded : (answer : Result (Unit {0})) → Entry
  checked : (answer : Result Account) → Entry
  positions_read : (answer : Records) → Entry
  shut : Entry

abbrev pub Log : Type 0
Log = List Entry

-- `has_totals` tells whether the native library can count; `from_ms` is `datetime.fromtimestamp` of
-- milliseconds divided by 1000, and `row_of` the dictionary of an account's three values.
pub record Outside : Type 0 where
  pub validate : Log → Result (Unit {0})
  pub process_identity : Log → Result (Option String)
  pub journal : Log → Bool
  pub initialize : Log → Bool
  pub login : Log → Bool
  pub last_error : Log → Option ℤ
  pub login_turns : Log → ℕ × List (Reading × ℕ)
  pub caption_turns : Log → ℕ × List (Sighting × ℕ)
  pub now : Log → Moment
  pub has_totals : Bool
  pub from_ms : ℤ → Result Moment
  pub totals : Log → Total
  pub total : Log → ℕ × ℕ → Option ℤ
  pub deals : Log → ℕ × ℕ → Records
  pub sample : Log → Result (Unit {0})
  pub record_clock : Log → Result (Unit {0})
  pub sighting : Log → Sighting
  pub positions : Log → Records
  pub row_of : Account → Native
  pub str : ℤ → String
  pub strip : String → String
  pub is_space : Char → Bool
  pub is_invisible : Char → Bool

pub record State : Type 0 where
  pub log : Log
  pub gate : Gate
  pub has_password : Bool

-- The part of the result that is no constant and no copy of the request.
pub record Batch : Type 0 where
  pub is_investor_verified : Bool
  pub build : Option ℕ
  pub account : RawAccountSnapshot
  pub window : HistoryWindow
  pub older_empty : Option Bool
  pub recent_floor_ms : Option ℕ
  pub deals : List RawDeal
  pub positions : List RawPosition

abbrev pub Act : Type 0 → Type 0
Act A = Action State A

module _ {A : Type 0} where
  unfoldable pub ask : (Log → A) → (A → Entry) → Act A
  ask answer note s = (ok (answer s.log), record s { log = note (answer s.log) ∷ s.log })

  unfoldable pub attempt : (Log → Result A) → (Result A → Entry) → Act A
  attempt answer note s = (answer s.log, record s { log = note (answer s.log) ∷ s.log })

  -- A result that is computed, or raised.
  unfoldable pub yields : Result A → Act A
  yields r s = (r, s)

abbrev pub code_text : Code → String
code_text auth_failed = "AUTH_FAILED"
code_text connection_failed = "CONNECTION_FAILED"
code_text terminal_ipc_unavailable = "TERMINAL_IPC_UNAVAILABLE"
code_text network_unavailable = "NETWORK_UNAVAILABLE"

abbrev pub failure : Option (Result Code) → Error
failure none = Error.other
failure (some (raise e)) = e
failure (some (ok c)) = collection (code_text c)

abbrev pub settled_account : Option (Result Account) → Result Account
settled_account none = raise Error.other
settled_account (some r) = r

-- `len`, once the records are known to be a list.
abbrev pub count_rows : Records → ℕ
count_rows (rows_of rows) = length rows
count_rows _ = 0

abbrev pub is_missing : Records → Bool
is_missing missing = true
is_missing _ = false

-- The three codes of a `DataError` that leave the gateway.
abbrev pub data_code : String → String
data_code code =
    if code == "HISTORY_UNAVAILABLE" || code == "POSITIONS_UNAVAILABLE" || code == "BATCH_TOO_LARGE"
    then code
    else "INVALID_NATIVE_DATA"

-- The `except` clauses.
unfoldable pub mapped : Error → Error
mapped (Error.data_error code field) = collection (data_code code)
mapped (Error.inventory_error code) = collection "TERMINAL_CHANGED"
mapped Error.os_error = collection "JOURNAL_UNAVAILABLE"
mapped e = e

-- The `finally` clause.
abbrev pub clean_up : State → State
clean_up s = record s { has_password = false; log = shut ∷ s.log }

module _ (o : Outside) (r : Request) where
  unfoldable pub check_identity : Act Account
  check_identity s =
      let (g, answer) = identity r.expected s.gate (o.sighting s.log) in
      (answer, record s { gate = g; log = checked answer ∷ s.log })

  unfoldable pub check_process : Act (Unit {0})
  check_process = attempt (λ log. o.process_identity log) (λ a. found a) >>= λ i.
      if is_text i r.expected.process_identity
      then pure tt
      else throw (collection "TERMINAL_CHANGED")

  -- Both native calls of the login, each with `login_failure` where it fails.
  unfoldable pub fail_login : Bool → Act (Unit {0})
  fail_login has_baseline =
      ask
        (λ log.
          login_failure o.strip r.login r.expected.server (o.last_error log) has_baseline
            (o.login_turns log).0 (o.login_turns log).1)
        (λ a. login_failed a)
      >>= λ a. throw (failure a)

  unfoldable pub log_in : Act (Unit {0})
  unfolding fail_login
  log_in = ask (λ log. o.journal log) (λ a. baseline_read a) >>= λ has_baseline.
      (ask (λ log. o.initialize log) (λ a. initialized a) >>= λ a.
      if a then pure tt else fail_login has_baseline)
      >> (ask (λ log. o.login log) (λ a. logged_in a) >>= λ a.
          if a then pure tt else fail_login has_baseline)
      >> writes (λ s. record s { has_password = false })

  -- The wait for the caption. The deadline is ten seconds after the first clock reading.
  unfoldable pub settle_caption : Act Account
  settle_caption s =
      let (start, turns) = o.caption_turns s.log in
      let (g, answer) = settle r.expected (start + 10000) turns s.gate in
      (settled_account answer, record s { gate = g; log = settled answer ∷ s.log })

  unfoldable pub count : ℕ × ℕ → Act ℕ
  count bounds =
      ask (λ log. o.total log bounds) (λ n. counted bounds n) >>= λ n. yields (checked_count n)

  unfoldable pub narrow : HistoryWindow → Act HistoryWindow
  narrow window =
      if o.has_totals && (not (is_none r.before_ms) || is_adaptive_recent o.has_totals o.from_ms r)
      then attempt (λ log. shrink (o.totals log) max_rounds window) (λ w. narrowed w)
      else pure window

  unfoldable pub read_deals : HistoryWindow → Act Records
  read_deals window = yields (mt5_bounds window) >>= λ bounds.
      ask (λ log. o.deals log bounds) (λ a. deals_read bounds a)

  -- The first read and the two samples of the clock, each with the gate after it.
  unfoldable pub warm_up : HistoryWindow → Act (Unit {0})
  unfolding read_deals check_identity
  warm_up window = read_deals window >>= λ first.
      (if is_missing first then throw (collection "HISTORY_UNAVAILABLE") else pure tt)
      >> yields (normalize_deals o.str window first 5000)
      >> attempt (λ log. o.sample log) (λ a. sampled a)
      >> check_identity
      >> attempt (λ log. o.sample log) (λ a. sampled a)
      >> check_identity
      >> attempt (λ log. o.record_clock log) (λ a. recorded a)

  -- `count` of the window, where the native library can count.
  unfoldable pub count_window : HistoryWindow → Act (Option ℕ)
  unfolding count
  count_window window =
      if o.has_totals
      then (yields (mt5_bounds window) >>= λ bounds. count bounds >>= λ n. pure (some n))
      else pure none

  abbrev pub is_count : Option ℕ → ℕ → Bool
  is_count none n = true
  is_count (some m) n = nat_beq n m

  abbrev pub same_count : Option ℕ → Option ℕ → Bool
  same_count none none = true
  same_count (some m) (some n) = nat_beq m n
  same_count _ _ = false

  -- The later count is not asked for where the first differs.
  unfoldable pub check_count : HistoryWindow → Option ℕ → Records → Act (Unit {0})
  unfolding count_window
  check_count window expected final =
      if is_count expected (count_rows final)
      then (count_window window >>= λ again.
          if same_count expected again then pure tt else throw (collection "HISTORY_UNAVAILABLE"))
      else throw (collection "HISTORY_UNAVAILABLE")

  -- The second read, between two counts.
  unfoldable pub read_final : HistoryWindow → Act (List RawDeal)
  unfolding count_window read_deals check_count
  read_final window = count_window window >>= λ expected. read_deals window >>= λ final.
      yields (normalize_deals o.str window final 5000) >>= λ deals.
      check_count window expected final >> pure deals

  -- `older_empty`, where the native library can count.
  unfoldable pub look_older : HistoryWindow → Act (Option Bool)
  unfolding count
  look_older window =
      if o.has_totals
      then (count (0, floor_second window.start) >>= λ n.
          if nat_beq n 0
          then (count (0, floor_second window.start) >>= λ m. pure (some (nat_beq m 0)))
          else pure (some false))
      else pure none

  unfoldable pub read_positions : Act (List RawPosition)
  read_positions = ask (λ log. o.positions log) (λ a. positions_read a) >>= λ a.
      yields (normalize_positions o.str a 5000)

  abbrev pub is_investor : Gate → Bool
  is_investor g =
      not r.expected.consented && not (elim g.trading_mode [ none ↦ false | some b ↦ b ])

  abbrev pub batch_of :
      HistoryWindow
      → ℕ
      → Option Bool
      → List RawDeal
      → List RawPosition
      → RawAccountSnapshot
      → Gate
      → Batch
  batch_of window floor older deals positions account g = record {
    is_investor_verified = is_investor g;
    build = g.verified_build;
    account = account;
    window = window;
    older_empty = older;
    recent_floor_ms = if is_adaptive_recent o.has_totals o.from_ms r then some floor else none;
    deals = deals;
    positions = positions;
  }

  unfoldable pub make_batch :
      HistoryWindow
      → ℕ
      → Option Bool
      → List RawDeal
      → List RawPosition
      → RawAccountSnapshot
      → Act Batch
  make_batch window floor older deals positions account =
      if ltb 5000 (length deals + length positions)
      then throw (collection "BATCH_TOO_LARGE")
      else (reads (λ s. s.gate) >>= λ g.
          pure (batch_of window floor older deals positions account g))

  -- From the narrowed window on.
  unfoldable pub collect_window : HistoryWindow → ℕ → Act Batch
  unfolding warm_up read_final look_older check_identity read_positions make_batch
  collect_window window floor =
      warm_up window
      >> (read_final window >>= λ deals. look_older window >>= λ older.
          check_identity
          >> (read_positions >>= λ positions. check_identity >>= λ a.
              yields (normalize_account o.str o.is_space o.is_invisible (o.row_of a)) >>= λ account.
              make_batch window floor older deals positions account))

  -- The `try` block.
  unfoldable pub collect_open : Act Batch
  unfolding check_process log_in settle_caption plan_window narrow collect_window
  collect_open =
      check_process
      >> log_in
      >> settle_caption
      >> (ask (λ log. o.now log) (λ now. now_read now) >>= λ now.
          yields (plan_window o.has_totals o.from_ms r now) >>= λ planned.
          narrow planned >>= λ window. collect_window window (start_ms planned))

  unfoldable pub guarded : Act Batch
  unfolding collect_open mapped
  guarded = finally (catch collect_open (λ e. throw (mapped e))) clean_up

  -- The request is checked before the `try`.
  unfoldable pub collect : Act Batch
  unfolding guarded is_login
  collect =
      if not (is_login r.login)
      then throw (collection "INVALID_NATIVE_DATA")
      else (attempt (λ log. o.validate log) (λ a. validated a) >> guarded)
