-- ===== src/Gateway/Collect/Examples.antt =====
-- A collection of an account without trades, and the theorem at it.
use tradetrack_mt5_server.Prelude.{
  ◌≡◌, ◌==◌, values, text_key, String, Bool, true, false, none, some, [], ◌∷◌, if◌then◌else◌,
  Result, ok, raise, refl,
}
use tradetrack_mt5_server.Prelude.Int.{pos, ◌+ℤ◌, ◌-ℤ◌}
use tradetrack_mt5_server.Prelude.Actions.{◌>>=◌, pure, throw, reads, writes, catch, finally}
use tradetrack_mt5_server.Contracts.{
  zoned, mt5_bounds, make_window, endpoint, check_duration, start_ms, end_ms, epoch_ms,
}
use tradetrack_mt5_server.Normalization.{
  Value, integer, text, mapping, normalize_account, record_of, currency_of, number_field, number_of,
}
use tradetrack_mt5_server.Normalization.Deals.{rows_of, normalize_deals, batch, collect_deals}
use tradetrack_mt5_server.Gateway.Identity.{Expected, Sighting, identity, settle, is_drifted}
use tradetrack_mt5_server.Gateway.Window.{Request, is_login, all_digits, plan_window, choose_window}
use tradetrack_mt5_server.Gateway.Collect.{
  Outside, State, Batch, ask, attempt, yields, collect, guarded, collect_open, check_process,
  log_in, settle_caption, narrow, collect_window, warm_up, read_deals, check_identity, read_final,
  count_window, count, check_count, look_older, read_positions, make_batch,
}
use tradetrack_mt5_server.Normalization.Positions.{normalize_positions, collect_positions}
use tradetrack_mt5_server.History.{plan_recent_history, recent_window, add_time, sub_time}
use tradetrack_mt5_server.Normalization.Sorting.{sorted}
use tradetrack_mt5_server.Gateway.Shrink.{shrink, checked_count}
use tradetrack_mt5_server.Gateway.Collect.Complete.{Ends, collect-Ends}

abbrev expected : Expected
expected = record {
  process_identity = "10:1";
  login = 7;
  server = "Demo";
  path = "C:/mt5";
  data_path = "C:/data";
  consented = false;
}

abbrev sighting : Sighting
sighting = record {
  process_identity = ok (some "10:1");
  account = some (record {
    login = 7;
    server = "Demo";
    trade_allowed = false;
    balance = "10";
    equity = "10";
    currency = "EUR";
  });
  terminal = some (record {
    path = "C:/mt5";
    data_path = "C:/data";
    connected = true;
    tradeapi_disabled = true;
    build = 6230;
  });
  read_only_session = ok true;
}

abbrev account_value : String → Value
account_value key =
    if key == "currency"
    then text "EUR"
    else if key == "balance"
    then integer (pos 10)
    else integer (pos 10)

abbrev world : Outside
world = record {
  validate = λ log. ok tt;
  process_identity = λ log. ok (some "10:1");
  journal = λ log. true;
  initialize = λ log. true;
  login = λ log. true;
  last_error = λ log. none;
  login_turns = λ log. (0, []);
  caption_turns = λ log. (0, (sighting, 50) ∷ []);
  now = λ log. zoned (some (pos 1760000000000000));
  has_totals = true;
  from_ms = λ ms. ok (zoned (some ms));
  totals = λ log rounds bounds. some (pos 0);
  total = λ log bounds. some (pos 0);
  deals = λ log bounds. rows_of [];
  sample = λ log. ok tt;
  record_clock = λ log. ok tt;
  sighting = λ log. sighting;
  positions = λ log. rows_of [];
  row_of = λ account. mapping account_value;
  str = λ n. "10";
  strip = λ s. s;
  is_space = λ c. false;
  is_invisible = λ c. false;
}

abbrev request : Request
request = record {
  login = "7";
  expected = expected;
  before_ms = none;
  is_adaptive = true;
  recent_before = none;
  recent_floor = none;
}

abbrev start : State
start = record {
  log = [];
  gate = record { verified_build = none; trading_mode = none };
  has_password = true;
}

collect-Ends_example : Ends world request (collect world request start)
collect-Ends_example = collect-Ends world request start (unfold is_login all_digits in refl) refl

abbrev is_ok : Result Batch → Bool
is_ok (ok b) = true
is_ok (raise e) = false

completes : is_ok (collect world request start).0 ≡ true
unfolding collect guarded collect_open check_process log_in settle_caption settle identity
    is_drifted plan_window choose_window plan_recent_history recent_window narrow shrink
    checked_count mt5_bounds collect_window warm_up read_deals check_identity read_final
    count_window count check_count normalize_deals batch collect_deals look_older read_positions
    normalize_positions collect_positions normalize_account record_of currency_of number_field
    number_of make_batch ask attempt yields ◌>>=◌ pure throw reads writes catch finally is_login
    all_digits make_window endpoint check_duration add_time sub_time ◌+ℤ◌ ◌-ℤ◌ start_ms end_ms
    epoch_ms sorted values
completes = refl
