-- ===== src/UiRecovery/Examples.antt =====
-- Runs of the UI recovery, and its theorems at concrete inputs.
use tradetrack_mt5_server.Prelude.{
  ℕ, inl, inr, String, ◌≡◌, ◌≤◌, ◌+◌, true, false, List, [], ◌∷◌, Option, some, none, refl, ok,
  insert, lookup, remove,
}
use tradetrack_mt5_server.Throttle.{seconds, grants, IsSpaced}
use tradetrack_mt5_server.UiRecovery.{SlotReport, observe}
use tradetrack_mt5_server.UiRecovery.Streaks.{Event, table, Streak, observe-Streak}
use tradetrack_mt5_server.UiRecovery.Cooldowns.{
  missing, unreadable, Call, attempt, reserve, ui_throttle, reserve-IsSpaced,
  unreadable_never_grants,
}
use tradetrack_mt5_server.UiRecovery.Fence.{
  World, IsAsked, fence_ui_failure, IsVerified, fence_ui_failure-IsVerified, fence_ui_failure-true,
}

abbrev sick : String → ℕ → SlotReport
sick id heartbeat = record {
  id = id;
  status = some "ERROR";
  inventory_error_code = some "UI_TIMEOUT";
  process_identity = some "10:1";
  generation = some "g";
  quarantine_identity = none;
  heartbeat = some heartbeat;
}

-- Three observations of one slot 80 seconds apart, another slot in between; latest first.
abbrev seen : List Event
seen =
    (sick "demo-02" 160000, 161000)
    ∷ (sick "demo-01" 160000, 160500)
    ∷ (sick "demo-01" 80000, 80500)
    ∷ []

third_fires : (observe (table seen) (sick "demo-01" 240000) 240500).1 ≡ true
unfolding table observe lookup insert remove
third_fires = refl

second_waits :
    (observe (table ((sick "demo-01" 80000, 80500) ∷ [])) (sick "demo-01" 240000) 200500).1 ≡ false
unfolding table observe lookup insert remove
second_waits = refl

observe-Streak_example :
    (first n : ℕ) × Streak "demo-01"
      (some "10:1")
      (some "g")
      first
      240500
      n
      ((sick "demo-01" 240000, 240500) ∷ seen)
    × (first + seconds 120 ≤ 240500)
    × (3 ≤ n)
observe-Streak_example = observe-Streak (sick "demo-01" 240000) 240500 seen third_fires

abbrev call : String → ℕ → Call
call slot_id now = record { writable = true; slot_id = slot_id; now = now }

abbrev calls : List Call
calls = call "demo-01" 1000000 ∷ call "demo-02" 1000000 ∷ call "demo-02" 1120000 ∷ []

calls_granted : grants ui_throttle missing calls ≡ ("demo-01", 1000000) ∷ ("demo-02", 1120000) ∷ []
unfolding grants attempt reserve lookup insert
calls_granted = refl

reserve-IsSpaced_run : IsSpaced (grants ui_throttle missing calls)
reserve-IsSpaced_run = reserve-IsSpaced missing calls

unreadable_never_grants_example : grants ui_throttle unreadable calls ≡ []
unreadable_never_grants_example = unreadable_never_grants calls

abbrev world : World
world = record {
  lock = ok tt;
  connect = ok (sick "demo-01" 240000);
  find = ok (some (10, "10:1"));
  prepare = ok tt;
}

fence_ui_failure-IsVerified_example :
    (current : SlotReport) × IsVerified world (sick "demo-01" 240000) current (some "g")
fence_ui_failure-IsVerified_example =
    fence_ui_failure-IsVerified world (sick "demo-01" 240000) (some "g")
      (unfold fence_ui_failure in inr (inr (inr (inl refl))))

fence_ui_failure-true_example :
    (g : Option String) × IsAsked g (fence_ui_failure world (sick "demo-01" 240000)).calls
    × (world.prepare ≡ ok tt)
fence_ui_failure-true_example =
    fence_ui_failure-true world (sick "demo-01" 240000) (unfold fence_ui_failure in refl)
