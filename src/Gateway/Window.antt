-- ===== src/Gateway/Window.antt =====
-- app/collector/gateway.py, `collect`: which window of the history a request asks for, before it is
-- narrowed. `has_totals` tells whether the native library can count, and `from_ms` is
-- `datetime.fromtimestamp` of milliseconds divided by 1000.
use tradetrack_mt5_server.Prelude.{
  String, Bool, leb, true, false, not, ◌&&◌, Option, none, some, if◌then◌else◌, Result, ok, raise,
  ◌>>=◌,
}
use tradetrack_mt5_server.Prelude.Int.{ℤ}
use tradetrack_mt5_server.Contracts.{HistoryWindow, Moment, make_window}
use tradetrack_mt5_server.History.{plan_recent_history, plan_history_before}
use tradetrack_mt5_server.Gateway.Identity.{Expected, collection}
use Prim.Native.Char.{Char, code}
use Prim.Native.String.{count, [], ◌∷◌}

-- Of the request: the login, a text; what `identity` compares with, and the options. A
-- missing option is `none`, one that is no integer `some none`.
pub record Request : Type 0 where
  pub login : String
  pub expected : Expected
  pub before_ms : Option (Option ℤ)
  pub is_adaptive : Bool
  pub recent_before : Option (Option ℤ)
  pub recent_floor : Option ℤ

abbrev pub is_none : {A : Type 0} → Option A → Bool
is_none none = true
is_none (some a) = false

abbrev pub is_digit : Char → Bool
is_digit c = leb 48 (code c) && leb (code c) 57

unfoldable pub all_digits : String → Bool
all_digits [] = true
all_digits (c ∷ s) = is_digit c && all_digits s

-- The pattern `[1-9][0-9]{0,18}`.
unfoldable pub is_login : String → Bool
unfolding all_digits
is_login [] = false
is_login (c ∷ s) = leb 49 (code c) && leb (code c) 57 && all_digits s && leb (count s) 18

module _ (has_totals : Bool) (from_ms : ℤ → Result Moment) (r : Request) where
  -- `adaptive_recent`.
  abbrev pub is_adaptive_recent : Bool
  is_adaptive_recent = r.is_adaptive && has_totals && is_none r.before_ms

  abbrev pub first_window : HistoryWindow → Option (Option ℤ) → Result HistoryWindow
  first_window recent none = ok recent
  first_window recent (some before_ms) = plan_history_before before_ms

  unfoldable pub cursor_window : Option ℤ → Option ℤ → Result HistoryWindow
  cursor_window (some floor) (some before) =
      from_ms floor >>= λ a. from_ms before >>= λ b. make_window a b
  cursor_window _ _ = raise (collection "INVALID_NATIVE_DATA")

  unfoldable pub choose_window : HistoryWindow → Option (Option ℤ) → Result HistoryWindow
  unfolding cursor_window
  choose_window window none = ok window
  choose_window window (some before) =
      if not is_adaptive_recent
      then raise (collection "INVALID_NATIVE_DATA")
      else cursor_window r.recent_floor before

  -- From `plan` to the window before it is narrowed.
  unfoldable pub plan_window : Moment → Result HistoryWindow
  unfolding choose_window
  plan_window now = plan_recent_history now >>= λ plan.
      first_window plan.native_window r.before_ms >>= λ window. choose_window window r.recent_before
