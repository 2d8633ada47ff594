-- ===== src/Contracts.antt =====
-- app/collector/contracts.py: the collection window. A datetime is its count of microseconds since
-- the epoch in UTC, a signed number; `Moment` is what a caller may pass for one.
pub mod Window
use tradetrack_mt5_server.Prelude.{
  ℕ, ◌+◌, ◌-◌, ◌*◌, ◌/◌, ◌%◌, ◌≤◌, ◌<◌, String, Bool, true, false, not, ◌&&◌, Option, none, some,
  ltb, leb, nat_beq, if◌then◌else◌, Result, ok, raise, Error, ◌>>=◌, ◌≡◌,
}
use tradetrack_mt5_server.Prelude.Int.{ℤ, pos, negsuc}

abbrev pub second : ℕ
second = 1000000

abbrev pub day : ℕ
day = 86400000000

-- 9999-12-31T23:59:59.999999, the largest datetime.
abbrev pub max_datetime : ℕ
max_datetime = 253402300799999999

abbrev pub max_window : ℕ
max_window = 31 * day

abbrev pub max_records : ℕ
max_records = 50000

-- A value that is no datetime, one with no offset, or one with an offset: its UTC time, which is
-- missing where `astimezone` overflows.
pub data Moment : Type 0 where
  not_a_datetime naive : Moment
  zoned : Option ℤ → Moment

pub record HistoryWindow : Type 0 where
  pub start : ℕ
  pub end : ℕ

-- `_epoch_ms`, by the days, seconds and microseconds of the difference to the epoch.
unfoldable pub epoch_ms : ℕ → ℕ
epoch_ms t = ((t / day) * 86400 + (t % day) / second) * 1000 + (t % second) / 1000

unfoldable pub start_ms : HistoryWindow → ℕ
unfolding epoch_ms
start_ms w = epoch_ms w.start

unfoldable pub end_ms : HistoryWindow → ℕ
unfolding epoch_ms
end_ms w = epoch_ms w.end

-- One turn of the loop over the two fields in `__post_init__`.
unfoldable pub endpoint : Moment → String → Result ℕ
endpoint not_a_datetime field = raise (Error.data_error "INVALID_WINDOW" field)
endpoint naive field = raise (Error.data_error "INVALID_WINDOW" field)
endpoint (zoned none) field = raise (Error.data_error "INVALID_WINDOW" field)
endpoint (zoned (some (negsuc n))) field = raise (Error.data_error "INVALID_WINDOW" field)
endpoint (zoned (some (pos t))) field =
    if not (nat_beq ((t % second) % 1000) 0)
    then raise (Error.data_error "INVALID_WINDOW" field)
    else ok t

-- The last check of `__post_init__`.
unfoldable pub check_duration : ℕ → ℕ → Result HistoryWindow
check_duration s e =
    if ltb s e && leb e (s + max_window)
    then ok (record { start = s; end = e })
    else raise (Error.data_error "INVALID_WINDOW" "duration")

unfoldable pub make_window : Moment → Moment → Result HistoryWindow
unfolding endpoint check_duration
make_window a b = do s ← endpoint a "start"; e ← endpoint b "end"; check_duration s e

-- `value.replace(microsecond=0)`.
abbrev pub floor_second : ℕ → ℕ
floor_second t = t - t % second

unfoldable pub mt5_bounds : HistoryWindow → Result (ℕ × ℕ)
mt5_bounds w =
    let lo = floor_second w.start in
    let hi = floor_second w.end in
    if nat_beq (w.end % second) 0
    then ok (lo, hi)
    else if leb (hi + second) max_datetime
    then ok (lo, hi + second)
    else raise (Error.data_error "INVALID_WINDOW" "end")
