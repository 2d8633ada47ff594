-- ===== src/History/Plans.antt =====
-- When the plans exist, and what they ask for.
use tradetrack_mt5_server.Prelude.{
  ℕ, ◌+◌, ◌-◌, ◌*◌, ◌≤◌, ◌<◌, ◌≡◌, ◌↔◌, none, some, Result, ok, raise, arith, refl, >>=-eq-ok,
  lt→ltb, ◌∙◌, ap, subst,
}
use tradetrack_mt5_server.Prelude.Int.{ℤ, pos, negsuc}
use tradetrack_mt5_server.Contracts.{
  day, max_datetime, Moment, zoned, naive, not_a_datetime, HistoryWindow, make_window, floor_second,
  start_ms, end_ms,
}
use tradetrack_mt5_server.Contracts.Window.{
  IsWindow, make_window_complete, make_window_sound, epoch_ms-exact,
}
use tradetrack_mt5_server.History.{
  RecentHistoryPlan, plan_recent_history, recent_window, plan_history_before, max_before, add_time,
  sub_time, whole_second, as_observation_error,
}

-- The page that ends at `before_ms`.
abbrev pub page : ℕ → HistoryWindow
page before_ms = record { start = before_ms * 1000 - 31 * day; end = before_ms * 1000 }

page-IsWindow : (before_ms : ℕ) → 0 < before_ms → IsWindow (page before_ms)
page-IsWindow b h = record {
  start_aligned = omega arith;
  end_aligned = omega arith;
  nonempty = omega arith;
  short = omega arith;
}

-- A backfill cursor from 1 ms after the epoch up to the year 2100 always gives a window: it ends
-- exactly at the cursor and starts 31 days before it, or at the epoch if that is nearer.
pub plan_history_before-ok :
    (before_ms : ℕ)
    → 0 < before_ms
    → before_ms < max_before
    → (w : HistoryWindow) × (plan_history_before (some (pos before_ms)) ≡ ok w)
      × IsWindow w
      × (end_ms w ≡ before_ms)
      × (start_ms w ≡ before_ms - 2678400000)
unfolding plan_history_before start_ms end_ms
plan_history_before-ok b h k = (
  page b,
  rw (lt→ltb 0 b h, lt→ltb b max_before k) (make_window_complete (page b) (page-IsWindow b h)),
  page-IsWindow b h,
  omega (arith, epoch_ms-exact (b * 1000)),
  omega (arith, epoch_ms-exact (b * 1000 - 31 * day)),
)

recent : ℕ → RecentHistoryPlan
recent observed = record {
  observed_at_utc = observed;
  native_window = record { start = observed - 30 * day; end = observed + day };
}

sub_time_ok : (n d : ℕ) → d ≤ n → sub_time (pos n) d ≡ ok (pos (n - d))
unfolding sub_time
sub_time_ok n d h = ground arith

add_time_ok : (n d : ℕ) → n + d ≤ max_datetime → add_time (pos n) d ≡ ok (pos (n + d))
unfolding add_time
add_time_ok n d h = ground arith

sub_time_pos : (t : ℤ) (n d : ℕ) → sub_time t d ≡ ok (pos n) → t ≡ pos (n + d)
unfolding sub_time
sub_time_pos (pos m) n d h = ground arith
sub_time_pos (negsuc m) n d h = absurd (ground arith)

add_time_pos : (m n d : ℕ) → add_time (pos m) d ≡ ok (pos n) → (n ≡ m + d) × (n ≤ max_datetime)
unfolding add_time
add_time_pos m n d h = ground arith

recent-IsWindow :
    (t : ℕ) → 30 * day ≤ floor_second t → IsWindow (recent (floor_second t)).native_window
unfolding recent
recent-IsWindow t h = omega arith

recent_window_ok :
    (t : ℕ)
    → 30 * day ≤ floor_second t
    → floor_second t + day ≤ max_datetime
    → recent_window (pos t) ≡ ok (recent (floor_second t))
unfolding recent_window recent
recent_window_ok t h k =
    rw (sub_time_ok (floor_second t) (30 * day) h, add_time_ok (floor_second t) day k)
      (rw (make_window_complete (recent (floor_second t)).native_window (recent-IsWindow t h)))

whole_second_pos :
    (t : ℤ) (n : ℕ) → whole_second t ≡ pos n → (u : ℕ) × (t ≡ pos u) × (floor_second u ≡ n)
whole_second_pos (pos u) n h = (u, refl, ground arith)
whole_second_pos (negsuc u) n h = absurd (ground arith)

recent_bounds :
    (t : ℤ) (a b : ℕ)
    → sub_time (whole_second t) (30 * day) ≡ ok (pos a)
    → add_time (whole_second t) (1 * day) ≡ ok (pos b)
    → (u : ℕ) × (t ≡ pos u) × (30 * day ≤ floor_second u) × (floor_second u + day ≤ max_datetime)
recent_bounds t a b ha hb =
    let back = sub_time_pos (whole_second t) a (30 * day) ha in
    let (u, is_u, floor) = whole_second_pos t (a + 30 * day) back in
    let (_, below) = add_time_pos (a + 30 * day) b (1 * day) (rw back at hb) in
    (u, is_u, omega arith, omega (arith, add_time_pos (a + 30 * day) b (1 * day) (rw back at hb)))

pos_of : (x : ℤ) (n : ℕ) → zoned (some x) ≡ zoned (some (pos n)) → x ≡ pos n
pos_of x n h = cc

-- The success of the `try` block, step by step.
recent_window_sound :
    (t : ℤ) (p : RecentHistoryPlan)
    → recent_window t ≡ ok p
    → (u : ℕ) × (t ≡ pos u) × (30 * day ≤ floor_second u) × (floor_second u + day ≤ max_datetime)
unfolding recent_window
recent_window_sound t p h =
    let (lo, hlo, h1) = >>=-eq-ok (sub_time (whole_second t) (30 * day)) _ h in
    let (hi, hhi, h2) = >>=-eq-ok (add_time (whole_second t) (1 * day)) _ h1 in
    let (w, hw, h3) = >>=-eq-ok (make_window (zoned (some lo)) (zoned (some hi))) _ h2 in
    let (es, ee, v) = make_window_sound (zoned (some lo)) (zoned (some hi)) w hw in
    recent_bounds t w.start w.end (hlo ∙ ap ok (pos_of lo w.start es))
      (hhi ∙ ap ok (pos_of hi w.end ee))

-- The plan of an observed time.
pub record IsRecentPlan (u : ℕ) (p : RecentHistoryPlan) : Type 0 where
  pub observed : p.observed_at_utc ≡ floor_second u
  pub starts : p.native_window.start + 30 * day ≡ floor_second u
  pub ends : p.native_window.end ≡ floor_second u + day
  pub valid : IsWindow p.native_window

recent-IsRecentPlan : (u : ℕ) → 30 * day ≤ floor_second u → IsRecentPlan u (recent (floor_second u))
unfolding recent
recent-IsRecentPlan u h = record {
  observed = refl;
  starts = omega arith;
  ends = refl;
  valid = unfold recent in recent-IsWindow u h;
}

caught_ok :
    (r : Result RecentHistoryPlan) (p : RecentHistoryPlan)
    → as_observation_error r ≡ ok p
    → r ≡ ok p
caught_ok (ok q) p h = h
caught_ok (raise e) p h = cc

-- Where a plan exists.
abbrev pub IsObservable : Moment → Type 0
IsObservable m =
    (u : ℕ) × (m ≡ zoned (some (pos u)))
    × (30 * day ≤ floor_second u)
    × (floor_second u + day ≤ max_datetime)

plan_sound : (m : Moment) (p : RecentHistoryPlan) → plan_recent_history m ≡ ok p → IsObservable m
unfolding plan_recent_history
plan_sound not_a_datetime p h = cc
plan_sound naive p h = cc
plan_sound (zoned none) p h = cc
plan_sound (zoned (some t)) p h =
    let (u, is_u, early, late) = recent_window_sound t p (caught_ok (recent_window t) p h) in
    (u, rw is_u, early, late)

plan_complete :
    (u : ℕ)
    → 30 * day ≤ floor_second u
    → floor_second u + day ≤ max_datetime
    → plan_recent_history (zoned (some (pos u))) ≡ ok (recent (floor_second u))
unfolding plan_recent_history
plan_complete u h k = rw (recent_window_ok u h k)

-- An observed time gets a plan exactly if it is an aware datetime, and without its microseconds at
-- least 30 days after the epoch and at least a day before the end of year 9999.
pub plan_recent_history-ok_iff :
    (m : Moment) → ((p : RecentHistoryPlan) × (plan_recent_history m ≡ ok p)) ↔ IsObservable m
plan_recent_history-ok_iff m = (
  λ (p, h). plan_sound m p h,
  λ (u, is_u, early, late). (recent (floor_second u), rw is_u (plan_complete u early late)),
)

unique_ok : (r : Result RecentHistoryPlan) (p q : RecentHistoryPlan) → r ≡ ok p → r ≡ ok q → q ≡ p
unique_ok r p q h k = cc

-- A plan observes the time without its microseconds; its window is valid, runs from 30 days before
-- that to one day after it, and so is exactly 31 days long.
pub plan_recent_history-IsRecentPlan :
    (u : ℕ) (p : RecentHistoryPlan)
    → plan_recent_history (zoned (some (pos u))) ≡ ok p
    → IsRecentPlan u p
plan_recent_history-IsRecentPlan u p h =
    let (v, is_v, early, late) = plan_sound (zoned (some (pos u))) p h in
    let same : u ≡ v = cc in
    let early' = rw (← same) at early in
    let late' = rw (← same) at late in
    subst (IsRecentPlan u)
      (unique_ok (plan_recent_history (zoned (some (pos u)))) p (recent (floor_second u)) h
        (plan_complete u early' late'))
      (recent-IsRecentPlan u early')
