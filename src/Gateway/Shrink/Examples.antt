-- ===== src/Gateway/Shrink/Examples.antt =====
-- The narrowing loop at concrete inputs.
use tradetrack_mt5_server.Prelude.{◌≡◌, ◌<◌, ◌-◌, ◌/◌, some, refl, ok, arith}
use tradetrack_mt5_server.Prelude.Int.{pos}
use tradetrack_mt5_server.Contracts.{HistoryWindow, make_window, mt5_bounds, start_ms, end_ms}
use tradetrack_mt5_server.Contracts.Window.{IsWindow}
use tradetrack_mt5_server.Gateway.Shrink.{
  Total, shrink, max_rounds, upper_half, checked_count, midpoint_ms,
}
use tradetrack_mt5_server.Gateway.Shrink.Success.{
  IsNarrowed, IsCountable, shrink-IsNarrowed, shrink-ok, upper_half_widens,
}

-- A terminal with one deal every 100 ms.
steady : Total
steady round (lo, hi) = some (pos ((hi - lo) / 100000))

-- One hour from the epoch on.
abbrev hour : HistoryWindow
hour = record { start = 0; end = 3600000000 }

abbrev narrowed : HistoryWindow
narrowed = record { start = 3375000000; end = 3600000000 }

hour-IsWindow : IsWindow hour
hour-IsWindow = omega arith

hour_narrows : shrink steady max_rounds hour ≡ ok narrowed
unfolding shrink steady mt5_bounds checked_count upper_half make_window start_ms end_ms midpoint_ms
hour_narrows = refl

shrink-IsNarrowed_example : IsNarrowed steady max_rounds hour narrowed
shrink-IsNarrowed_example =
    shrink-IsNarrowed steady max_rounds hour narrowed hour-IsWindow hour_narrows

-- A terminal that never counts more than 4000 deals.
quiet : Total
quiet round bounds = some (pos 12)

quiet-IsCountable : IsCountable quiet hour.end
unfolding quiet
quiet-IsCountable = record {
  replies = λ round bounds. (12, refl);
  sparse = λ w round bounds n same short asked answered. ground arith;
}

shrink-ok_example : (w' : HistoryWindow) × (shrink quiet max_rounds hour ≡ ok w')
shrink-ok_example = shrink-ok quiet hour hour-IsWindow (omega arith) quiet-IsCountable

abbrev odd : HistoryWindow
odd = record { start = 300000; end = 1400000 }

odd-IsWindow : IsWindow odd
odd-IsWindow = omega arith

upper_half_widens_example : (w' : HistoryWindow) × (upper_half odd ≡ ok w') × (w'.start < odd.start)
unfolding start_ms end_ms
upper_half_widens_example =
    upper_half_widens odd odd-IsWindow (omega arith) (omega arith) (omega arith)
