-- ===== src/Telemetry/Examples.antt =====
-- Runs of the telemetry, and the theorem at one.
use tradetrack_mt5_server.Prelude.{
  List, ℕ, String, ◌≡◌, true, false, none, some, [], ◌∷◌, lookup, insert, arith, refl,
}
use tradetrack_mt5_server.Gateway.Login.{starts_with}
use tradetrack_mt5_server.Telemetry.{
  Telemetry, Report, keep_week, reserve_stored, reserve_event, in_texts, safe_slot, is_local,
  is_transient, is_critical, report_code, is_code, report_error, report,
}
use tradetrack_mt5_server.Telemetry.Quota.{after_calls, reserve_event_again}

abbrev empty : Telemetry
empty = record { sent = []; seen = []; pending = [] }

abbrev failed_child : Report
failed_child = record {
  slot_id = some "demo-02";
  error_code = some "CHILD_TIMEOUT";
  state = some "failed";
  operation = none;
  api_reason = none;
}

report_run :
    (report true true failed_child 1000 5000 empty).1
    ≡ some (record {
      error_code = "CHILD_TIMEOUT";
      slot = "demo-02";
      operation = none;
      api_reason = none;
    })
unfolding report report_error report_code is_code is_local in_texts is_transient starts_with
    is_critical safe_slot reserve_event reserve_stored keep_week lookup insert
report_run = refl

first_event : (reserve_event true "CHILD_TIMEOUT" 5000 empty).1 ≡ true
unfolding reserve_event reserve_stored keep_week lookup insert
first_event = refl

-- Another code, and the same one again, before the store fails.
abbrev between : List (String × ℕ)
between = ("UI_TIMEOUT", 6000) ∷ ("CHILD_TIMEOUT", 7000) ∷ []

reserve_event_again_example :
    (reserve_event false "CHILD_TIMEOUT" 9000
      (after_calls between (reserve_event true "CHILD_TIMEOUT" 5000 empty).0)).1
    ≡ false
reserve_event_again_example =
    reserve_event_again false "CHILD_TIMEOUT" 5000 9000 between empty first_event
      ((ground arith, ground arith), ((ground arith, ground arith), tt)) (ground arith)
      (ground arith)
