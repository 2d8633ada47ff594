-- ===== src/History/Backfill.antt =====
-- A backfill: each page's start is the cursor of the next older page.
use tradetrack_mt5_server.Prelude.{ℕ, zero, suc, ◌*◌, ◌≤◌, ◌<◌, ◌≡◌, some, ok, arith}
use tradetrack_mt5_server.Prelude.Int.{pos}
use tradetrack_mt5_server.Contracts.{HistoryWindow, start_ms, end_ms}
use tradetrack_mt5_server.History.{plan_history_before, max_before}
use tradetrack_mt5_server.History.Plans.{plan_history_before-ok}

-- The pages from a cursor back to the epoch, newest first, in milliseconds.
pub data Pages : ℕ → ℕ → Type 0 where
  done : Pages 0 0
  page :
      {before n : ℕ} (w : HistoryWindow)
      → plan_history_before (some (pos before)) ≡ ok w
      → end_ms w ≡ before
      → Pages (start_ms w) n
      → Pages before (suc n)

-- From any cursor up to the year 2100, following each page's start as the next cursor reaches the
-- epoch in at most one page for each begun 31 days: no cursor is refused, each page ends exactly
-- where the page before it starts, and so the pages leave no gap.
pub backfill_complete :
    (fuel before : ℕ)
    → before < max_before
    → before ≤ fuel * 2678400000
    → (n : ℕ) × (n ≤ fuel) × Pages before n
backfill_complete fuel zero h k = (0, omega arith, done)
backfill_complete zero (suc b) h k = absurd (omega arith)
backfill_complete (suc fuel) (suc b) h k =
    let (w, planned, _, ends, starts) = plan_history_before-ok (suc b) (omega arith) h in
    let (n, few, rest) = backfill_complete fuel (start_ms w) (omega arith) (omega arith) in
    (suc n, omega arith, page w planned ends rest)
