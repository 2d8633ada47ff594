-- ===== src/RestartBudget/Examples.antt =====
-- Runs of the restart budget, and its theorems at concrete inputs.
use tradetrack_mt5_server.Prelude.{
  ℕ, String, ◌≡◌, ◌↔◌, ◌≤◌, ◌⊎◌, true, false, List, [], ◌∷◌, refl, ok, Error, insert, lookup,
  text_key,
}
use tradetrack_mt5_server.Throttle.{seconds, grants, IsSpaced}
use tradetrack_mt5_server.RestartBudget.{Attempts, reserve_restart, latest, at_of, has_identity}
use tradetrack_mt5_server.RestartBudget.Gates.{Call, attempt, after}
use tradetrack_mt5_server.RestartBudget.Spacing.{
  restart_throttle, reserve_restart-IsSpaced, reserve_restart-ok_iff, reserve_restart_again,
  reserve_restart_raised,
}

abbrev call : String → String → ℕ → Call
call key identity now = record { available = true; key = key; identity = identity; now = now }

-- Two slots within two minutes, the first slot again too early, and then late enough.
abbrev calls : List Call
calls =
    call "demo-01" "10:1" 1000000
    ∷ call "demo-02" "20:1" 1060000
    ∷ call "demo-02" "20:1" 1120000
    ∷ call "demo-01" "11:2" 1600000
    ∷ call "demo-01" "11:2" 1900000
    ∷ []

calls_granted :
    grants restart_throttle [] calls
    ≡ ("demo-01", 1000000) ∷ ("demo-02", 1120000) ∷ ("demo-01", 1900000) ∷ []
unfolding grants attempt reserve_restart lookup insert
calls_granted = refl

reserve_restart-IsSpaced_example : IsSpaced (grants restart_throttle [] calls)
reserve_restart-IsSpaced_example = reserve_restart-IsSpaced [] calls

abbrev one_row : Attempts
one_row = ("demo-01", record { identity = "10:1"; at = 1000000 }) ∷ []

reserve_restart-ok_iff_run : ((reserve_restart true one_row "demo-02" "20:1" 1060000).1 ≡ ok tt) ↔ (
    (true ≡ true)
    × ((has_identity (lookup "demo-02" one_row) "20:1" ≡ true)
        ⊎ ((after (latest one_row) (seconds 120) ≤ 1060000)
            × (after (at_of (lookup "demo-02" one_row)) (seconds 900) ≤ 1060000))))
reserve_restart-ok_iff_run = reserve_restart-ok_iff true one_row "demo-02" "20:1" 1060000

reserve_restart_again_run : reserve_restart true one_row "demo-01" "10:1" 1000005 ≡ (one_row, ok tt)
reserve_restart_again_run =
    reserve_restart_again [] one_row "demo-01" "10:1" 1000000 1000005
      (unfold reserve_restart lookup insert in refl)

reserve_restart_raised_example :
    (reserve_restart false one_row "demo-02" "20:1" 1060000).0 ≡ one_row
reserve_restart_raised_example =
    reserve_restart_raised false one_row "demo-02" "20:1" 1060000
      (Error.inventory_error "RECOVERY_BUDGET_UNAVAILABLE") (unfold reserve_restart in refl)
