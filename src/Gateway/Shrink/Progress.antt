-- ===== src/Gateway/Shrink/Progress.antt =====
-- One round of the loop, and what the loop keeps.
use tradetrack_mt5_server.Prelude.{◌+◌, ◌-◌, ◌*◌, ◌≤◌, ◌<◌, ◌≡◌, ok, arith}
use tradetrack_mt5_server.Contracts.{floor_second, HistoryWindow, start_ms, end_ms}
use tradetrack_mt5_server.Contracts.Window.{IsWindow, make_window_complete, epoch_ms-exact}
use tradetrack_mt5_server.Gateway.Shrink.{midpoint_ms, upper_half}

-- The upper part of a window.
abbrev pub upper : HistoryWindow → HistoryWindow
upper w = record { start = midpoint_ms w * 1000; end = w.end }

pub upper-IsWindow :
    (w : HistoryWindow) → IsWindow w → 1000 < end_ms w - start_ms w → IsWindow (upper w)
unfolding midpoint_ms
upper-IsWindow w v h = omega (arith, epoch_ms-exact w.start, epoch_ms-exact w.end)

pub upper_half_ok :
    (w : HistoryWindow) → IsWindow w → 1000 < end_ms w - start_ms w → upper_half w ≡ ok (upper w)
unfolding upper_half
upper_half_ok w v h = make_window_complete (upper w) (upper-IsWindow w v h)

-- The new start is no earlier than the second in which the old one lies.
pub upper_start : (w : HistoryWindow) → IsWindow w → floor_second w.start ≤ (upper w).start
unfolding midpoint_ms
upper_start w v = omega (arith, epoch_ms-exact w.start, epoch_ms-exact w.end)

-- A round halves what the window has above two seconds.
pub upper_length :
    (w : HistoryWindow)
    → IsWindow w
    → 2 * (end_ms (upper w) - start_ms (upper w)) ≤ end_ms w - start_ms w + 2000
unfolding midpoint_ms start_ms end_ms
upper_length w v =
    omega
      (arith, epoch_ms-exact w.start, epoch_ms-exact w.end, epoch_ms-exact (midpoint_ms w * 1000))
