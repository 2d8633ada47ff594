-- ===== src/Scheduler/Examples.antt =====
-- Turns of the scheduler on two slots, and its theorems at them.
use tradetrack_mt5_server.Prelude.{
  zero, suc, ◌≡◌, ◌≢◌, ◌≤◌, inl, true, false, not, Bool, refl, none, some, [], ◌∷◌, ok, get_elem?,
  arith, map_from, any_from,
}
use tradetrack_mt5_server.Throttle.{seconds}
use tradetrack_mt5_server.Scheduler.{
  SlotState, Turn, Settings, State, continued, returned_with, Completion, running, returned, raised,
  collected, turn, run_slots, harvested, fresh_slot, backoff, is_closing, dispatched, dispatch_all,
  prepare, turn_on,
}
use tradetrack_mt5_server.Scheduler.Dispatch.{
  IsStillWaiting, IsDeferred, turn-keeps_settled, turn-keeps_waiting, backoff_bounds,
  turn-defers_raised,
}
use tradetrack_mt5_server.Scheduler.Exit.{turn_returns_idle, turn-drains, run_slots_fails}

abbrev settings : Settings
settings = record { once = false; interval = seconds 10; has_preparation = false }

abbrev meets : Completion → Bool → Turn
meets first drain = record {
  completion = λ n. elim n [ zero ↦ first | suc m ↦ running ];
  harvested_at = λ n. 1000;
  inspected_by_job = λ n. true;
  draining = drain;
  idle_at = λ n. 1000;
  preparation_tested_at = 1000;
  preparation_set_at = 1000;
  inspected_after_preparation = λ n. true;
  stopped_before = λ n. false;
  connect = λ n. ok tt;
  prepare_inventory = λ n. ok none;
  inspected_by_inventory = λ n. true;
  dispatched_at = λ n. 1000;
}

abbrev busy_slot : SlotState
busy_slot = record fresh_slot { busy = true; connected = true; inspected = true }

abbrev late_slot : SlotState
late_slot = record fresh_slot { due = 5000; failures = 2 }

abbrev two_slots : SlotState → State
two_slots second = record { slots = busy_slot ∷ second ∷ []; preparation_at = 0; failed = false }

-- The first slot's job raises while the second one's still runs.
abbrev after_raise : State
after_raise = record {
  slots =
      record {
        busy = false;
        connected = false;
        inspected = false;
        due = 11000;
        failures = 1;
        finished = false;
      }
      ∷ busy_slot
      ∷ [];
  preparation_at = 0;
  failed = true;
}

raise_turn : turn settings (meets raised false) (two_slots busy_slot) ≡ continued after_raise
unfolding turn harvested map_from any_from turn_on is_closing prepare dispatched dispatch_all
    backoff
raise_turn = refl

-- The first slot's job still runs, and the second slot is not due.
wait_turn :
    turn settings (meets running false) (two_slots late_slot) ≡ continued (two_slots late_slot)
unfolding turn harvested map_from any_from turn_on is_closing prepare dispatched dispatch_all
    backoff
wait_turn = refl

turn-keeps_settled_example : get_elem? after_raise.slots 1 ≡ some busy_slot
turn-keeps_settled_example =
    turn-keeps_settled settings (meets raised false) (two_slots busy_slot) after_raise 1 busy_slot
      raise_turn refl (inl (refl, refl))

turn-keeps_waiting_run :
    (y : SlotState) × (get_elem? (two_slots late_slot).slots 1 ≡ some y)
    × IsStillWaiting late_slot y
turn-keeps_waiting_run =
    turn-keeps_waiting settings (meets running false) (two_slots late_slot) (two_slots late_slot) 1
      late_slot wait_turn refl (refl, omega arith)

turn-defers_raised_example :
    (y : SlotState) × (get_elem? after_raise.slots 0 ≡ some y) × IsDeferred 1000 busy_slot y
turn-defers_raised_example =
    turn-defers_raised settings (meets raised false) (two_slots busy_slot) after_raise 0 busy_slot
      raise_turn refl refl refl (unfold seconds in omega arith)

backoff_bounds_example : (seconds 10 ≤ backoff 4) × (backoff 4 ≤ seconds 300)
backoff_bounds_example = backoff_bounds 3

abbrev one_slot : State
one_slot = record { slots = busy_slot ∷ []; preparation_at = 0; failed = false }

turn_returns_idle_example : (meets (returned collected) true).completion 0 ≢ running
turn_returns_idle_example =
    turn_returns_idle settings (meets (returned collected) true) one_slot true 0 busy_slot
      (unfold turn harvested map_from any_from turn_on is_closing in refl) refl refl

abbrev all_return : Turn
all_return = record (meets (returned collected) true) { completion = λ n. returned collected }

turn-drains_example :
    turn settings all_return one_slot
    ≡ returned_with (not (harvested settings all_return one_slot).failed)
turn-drains_example = turn-drains settings all_return one_slot refl (λ n e. cc)

run_slots_fails_example :
    run_slots settings (meets raised false ∷ all_return ∷ []) one_slot ≢ some true
run_slots_fails_example =
    run_slots_fails settings (meets raised false) (all_return ∷ []) one_slot 0 busy_slot refl refl
      refl
