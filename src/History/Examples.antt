-- ===== src/History/Examples.antt =====
-- The history plans at concrete inputs.
use tradetrack_mt5_server.Prelude.{ℕ, ◌≡◌, ◌↔◌, ◌≤◌, ◌<◌, ◌-◌, ◌+◌, ◌*◌, some, refl, ok, arith}
use tradetrack_mt5_server.Prelude.Int.{pos}
use tradetrack_mt5_server.Contracts.{
  HistoryWindow, Moment, zoned, make_window, mt5_bounds, start_ms, end_ms,
}
use tradetrack_mt5_server.Contracts.Window.{
  IsWindow, Covers, make_window_iff, mt5_bounds-Covers, window_ms_exact,
}
use tradetrack_mt5_server.History.{
  plan_recent_history, recent_window, add_time, sub_time, plan_history_before, RecentHistoryPlan,
}
use tradetrack_mt5_server.History.Plans.{
  plan_history_before-ok, plan_recent_history-ok_iff, plan_recent_history-IsRecentPlan,
  IsObservable, IsRecentPlan,
}
use tradetrack_mt5_server.History.Backfill.{Pages, backfill_complete}

-- Half a second into the epoch, for ten milliseconds.
abbrev brief : HistoryWindow
brief = record { start = 500000; end = 510000 }

brief_bounds : mt5_bounds brief ≡ ok (0, 1000000)
unfolding mt5_bounds
brief_bounds = refl

make_window_iff_example :
    (make_window (zoned (some (pos 500000))) (zoned (some (pos 510000))) ≡ ok brief) ↔ (
      (zoned (some (pos 500000)) ≡ zoned (some (pos brief.start)))
      × (zoned (some (pos 510000)) ≡ zoned (some (pos brief.end)))
      × IsWindow brief)
make_window_iff_example =
    make_window_iff (zoned (some (pos 500000))) (zoned (some (pos 510000))) brief

brief-IsWindow : IsWindow brief
brief-IsWindow = omega arith

mt5_bounds-Covers_run : (lo hi : ℕ) × (mt5_bounds brief ≡ ok (lo, hi)) × Covers brief lo hi
mt5_bounds-Covers_run = mt5_bounds-Covers brief brief-IsWindow (omega arith)

window_ms_exact_example :
    (start_ms brief * 1000 ≡ brief.start)
    × (end_ms brief * 1000 ≡ brief.end)
    × (start_ms brief < end_ms brief)
    × (end_ms brief ≤ start_ms brief + 2678400000)
window_ms_exact_example = window_ms_exact brief brief-IsWindow

-- 2026-01-01 in milliseconds.
abbrev new_year : ℕ
new_year = 1767225600000

plan_history_before-ok_example :
    (w : HistoryWindow) × (plan_history_before (some (pos new_year)) ≡ ok w)
    × IsWindow w
    × (end_ms w ≡ new_year)
    × (start_ms w ≡ new_year - 2678400000)
plan_history_before-ok_example = plan_history_before-ok new_year (omega arith) (omega arith)

abbrev observed : Moment
observed = zoned (some (pos 1767225600500000))

plan_recent_history-ok_iff_run :
    ((p : RecentHistoryPlan) × (plan_recent_history observed ≡ ok p)) ↔ IsObservable observed
plan_recent_history-ok_iff_run = plan_recent_history-ok_iff observed

abbrev plan : RecentHistoryPlan
plan = record {
  observed_at_utc = 1767225600000000;
  native_window = record { start = 1764633600000000; end = 1767312000000000 };
}

planned : plan_recent_history observed ≡ ok plan
unfolding plan_recent_history recent_window sub_time add_time make_window
planned = refl

plan_recent_history-IsRecentPlan_example : IsRecentPlan 1767225600500000 plan
plan_recent_history-IsRecentPlan_example =
    plan_recent_history-IsRecentPlan 1767225600500000 plan planned

backfill_complete_example : (n : ℕ) × (n ≤ 660) × Pages new_year n
backfill_complete_example = backfill_complete 660 new_year (omega arith) (omega arith)
