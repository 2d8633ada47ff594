-- ===== src/History.antt =====
-- app/collector/history.py: which native window a collection asks for, the recent one or the next
-- older page of a backfill.
pub mod Plans
pub mod Backfill
mod Examples
use tradetrack_mt5_server.Prelude.{
  ℕ, suc, ◌+◌, ◌-◌, ◌*◌, ◌/◌, ◌%◌, String, Bool, Option, none, some, ltb, leb, if◌then◌else◌,
  Result, ok, raise, Error, ◌>>=◌, not, ◌&&◌, max,
}
use tradetrack_mt5_server.Prelude.Int.{ℤ, pos, negsuc, ◌+ℤ◌, ◌-ℤ◌, ltb_ℤ}
use tradetrack_mt5_server.Contracts.{
  second, day, max_datetime, Moment, zoned, naive, not_a_datetime, HistoryWindow, make_window,
  floor_second,
}

-- `timestamp_basis` and `utc_cursor_advance_allowed` are fixed by their types, and left out.
pub record RecentHistoryPlan : Type 0 where
  pub observed_at_utc : ℕ
  pub native_window : HistoryWindow

-- 0001-01-01, the smallest datetime.
abbrev pub min_datetime : ℤ
min_datetime = negsuc 62135596799999999

-- Arithmetic with a time difference overflows outside the years 1 to 9999.
unfoldable pub add_time : ℤ → ℕ → Result ℤ
unfolding ◌+ℤ◌
add_time t d = if ltb_ℤ (pos max_datetime) (t +ℤ pos d) then raise Error.other else ok (t +ℤ pos d)

unfoldable pub sub_time : ℤ → ℕ → Result ℤ
unfolding ◌-ℤ◌
sub_time t d = if ltb_ℤ (t -ℤ pos d) min_datetime then raise Error.other else ok (t -ℤ pos d)

-- `replace(microsecond=0)`, also before the epoch.
abbrev pub whole_second : ℤ → ℤ
whole_second (pos n) = pos (floor_second n)
whole_second (negsuc n) = negsuc (n / second * second + second - 1)

abbrev pub nonneg : ℤ → ℕ
nonneg (pos n) = n
nonneg (negsuc n) = 0

-- `except (ValueError, OverflowError)`; a `DataError` is a `ValueError`.
abbrev pub as_observation_error : {A : Type 0} → Result A → Result A
as_observation_error (ok a) = ok a
as_observation_error (raise e) = raise (Error.data_error "INVALID_OBSERVATION_TIME" "")

-- The `try` block. An accepted window ends after the epoch, and so does the observed time.
unfoldable pub recent_window : ℤ → Result RecentHistoryPlan
recent_window t = do
  let observed = whole_second t
  lo ← sub_time observed (30 * day)
  hi ← add_time observed (1 * day)
  w ← make_window (zoned (some lo)) (zoned (some hi))
  ok (record { observed_at_utc = nonneg observed; native_window = w })

unfoldable pub plan_recent_history : Moment → Result RecentHistoryPlan
unfolding recent_window
plan_recent_history (zoned (some t)) = as_observation_error (recent_window t)
plan_recent_history _ = raise (Error.data_error "INVALID_OBSERVATION_TIME" "")

-- 2100-01-01 in milliseconds.
abbrev pub max_before : ℕ
max_before = 4102444800000

-- `before_ms` is no integer, or an integer.
unfoldable pub plan_history_before : Option ℤ → Result HistoryWindow
unfolding make_window
plan_history_before (some (pos before_ms)) =
    if ltb 0 before_ms && ltb before_ms max_before
    then (let end : ℕ = before_ms * 1000 in
        make_window (zoned (some (pos (end - 31 * day)))) (zoned (some (pos end))))
    else raise (Error.data_error "INVALID_WINDOW" "")
plan_history_before _ = raise (Error.data_error "INVALID_WINDOW" "")
