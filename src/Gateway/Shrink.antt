-- ===== src/Gateway/Shrink.antt =====
-- app/collector/gateway.py, the loop of `collect` that narrows a window until the terminal counts at
-- most 4000 deals in it. What `history_deals_total` answers is an argument: no integer, or an
-- integer, for each round (told by the rounds left) and each pair of query bounds.
pub mod Progress
pub mod Success
mod Examples
use tradetrack_mt5_server.Prelude.{
  ℕ, zero, suc, ◌+◌, ◌-◌, ◌*◌, ◌/◌, Bool, true, false, Option, none, some, leb, if◌then◌else◌,
  Result, ok, raise, Error, ◌>>=◌,
}
use tradetrack_mt5_server.Prelude.Int.{ℤ, pos, negsuc}
use tradetrack_mt5_server.Contracts.{
  HistoryWindow, zoned, make_window, mt5_bounds, start_ms, end_ms,
}

abbrev pub Total : Type 0
Total = ℕ → ℕ × ℕ → Option ℤ

-- `count`, below the native call.
unfoldable pub checked_count : Option ℤ → Result ℕ
checked_count (some (pos n)) = ok n
checked_count _ = raise (Error.collection_error "HISTORY_UNAVAILABLE")

unfoldable pub midpoint_ms : HistoryWindow → ℕ
unfolding start_ms end_ms
midpoint_ms w = (start_ms w + end_ms w) / 2000 * 1000

-- The window from the midpoint on. `fromtimestamp` is exact at whole seconds.
unfoldable pub upper_half : HistoryWindow → Result HistoryWindow
upper_half w = make_window (zoned (some (pos (midpoint_ms w * 1000)))) (zoned (some (pos w.end)))

abbrev pub too_large : Error
too_large = Error.collection_error "BATCH_TOO_LARGE"

-- The `for` loop over the rounds left; with none left its `else` raises.
unfoldable pub shrink : Total → ℕ → HistoryWindow → Result HistoryWindow
shrink total zero w = raise too_large
shrink total (suc rounds) w = do
  bounds ← mt5_bounds w
  n ← checked_count (total rounds bounds)
  let rest = upper_half w >>= λ w'. shrink total rounds w'
  if leb n 4000 then ok w else if leb (end_ms w - start_ms w) 1000 then raise too_large else rest

abbrev pub max_rounds : ℕ
max_rounds = 32
