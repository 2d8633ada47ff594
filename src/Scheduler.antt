-- ===== src/Scheduler.antt =====
-- app/collector/scheduler.py: `run_slots`, the loop that dispatches jobs to the slots. One turn of
-- its `while` loop is a function of the state and of what the turn meets: clock readings, the
-- futures' completions and what the workers' calls answer, each by the slot's place in the list.
-- Times are milliseconds. What is printed is left out; a failing `emit` is a raising completion.

pub mod Slots
pub mod Dispatch
pub mod Exit
mod Examples
use tradetrack_mt5_server.Prelude.{
  ℕ, zero, suc, ◌+◌, ◌-◌, ◌*◌, ◌^◌, min, max, String, Bool, true, false, not, ◌&&◌, ◌||◌, Option,
  none, some, List, [], ◌∷◌, leb, if◌then◌else◌, Result, ok, raise, map_from, any_from,
}
use tradetrack_mt5_server.Throttle.{seconds}

pub record SlotState : Type 0 where
  pub busy : Bool
  pub connected : Bool
  pub inspected : Bool
  pub due : ℕ
  pub failures : ℕ
  pub finished : Bool

-- The `state` of a job's result, as far as the delay depends on it.
pub data Outcome : Type 0 where
  collected maintenance_required other_outcome : Outcome

pub data Completion : Type 0 where
  running : Completion
  returned : Outcome → Completion
  raised : Completion

pub record Turn : Type 0 where
  pub completion : ℕ → Completion
  pub harvested_at : ℕ → ℕ
  pub inspected_by_job : ℕ → Bool
  pub draining : Bool
  pub idle_at : ℕ → ℕ
  pub preparation_tested_at : ℕ
  pub preparation_set_at : ℕ
  pub inspected_after_preparation : ℕ → Bool
  pub stopped_before : ℕ → Bool
  pub connect : ℕ → Result (Unit {0})
  pub prepare_inventory : ℕ → Result (Option ℕ)
  pub inspected_by_inventory : ℕ → Bool
  pub dispatched_at : ℕ → ℕ

pub record Settings : Type 0 where
  pub once : Bool
  pub interval : ℕ
  pub has_preparation : Bool

pub record State : Type 0 where
  pub slots : List SlotState
  pub preparation_at : ℕ
  pub failed : Bool

-- `min(300, 10 * 2 ** min(failures - 1, 5))` seconds.
unfoldable pub backoff : ℕ → ℕ
backoff failures = seconds (min 300 (10 * 2 ^ min (failures - 1) 5))

unfoldable pub defer : Bool → ℕ → SlotState → SlotState
defer once now s = record s {
  failures = suc s.failures;
  due = now + backoff (suc s.failures);
  inspected = false;
  connected = false;
  finished = once;
}

unfoldable pub delay_after : ℕ → Outcome → ℕ
delay_after interval collected = 0
delay_after interval maintenance_required = min (seconds 1) interval
delay_after interval other_outcome = interval

-- The harvest of a slot with a future, by its completion.
unfoldable pub complete : Settings → ℕ → Bool → Completion → SlotState → SlotState
unfolding defer delay_after
complete c now inspected running s = s
complete c now inspected (returned outcome) s = record s {
  busy = false;
  inspected = inspected;
  failures = 0;
  due = now + delay_after c.interval outcome;
  finished = c.once;
}
complete c now inspected raised s = record (defer c.once now s) { busy = false }

unfoldable pub harvest : Settings → Turn → ℕ → SlotState → SlotState
unfolding complete
harvest c t i s =
    if s.busy then complete c (t.harvested_at i) (t.inspected_by_job i) (t.completion i) s else s

abbrev pub is_raised : Completion → Bool
is_raised raised = true
is_raised _ = false

unfoldable pub harvest_failed : Turn → ℕ → SlotState → Bool
harvest_failed t i s = s.busy && is_raised (t.completion i)

-- A slot whose inspection the preparation may look at, and drop.
unfoldable pub is_inspected : SlotState → Bool
is_inspected s = not s.busy && not s.finished && s.connected && s.inspected

unfoldable pub prepared : Turn → ℕ → SlotState → SlotState
unfolding is_inspected
prepared t i s =
    if is_inspected s then record s { inspected = t.inspected_after_preparation i } else s

-- `if preparation and inspected and clock() >= preparation_at`.
unfoldable pub is_preparing : Settings → Turn → State → Bool
unfolding is_inspected
is_preparing c t s =
    c.has_preparation
    && any_from (λ i x. is_inspected x) 0 s.slots
    && leb s.preparation_at t.preparation_tested_at

unfoldable pub prepare : Settings → Turn → State → State
unfolding prepared is_preparing
prepare c t s =
    if is_preparing c t s
    then record s {
      slots = map_from (prepared t) 0 s.slots;
      preparation_at = t.preparation_set_at + seconds 30;
    }
    else s

-- In the list `idle`: no future, not finished, and due.
unfoldable pub is_idle : Turn → ℕ → SlotState → Bool
is_idle t i s = not s.busy && not s.finished && leb s.due (t.idle_at i)

-- Below `connect`: the answer of `prepare_inventory`. Also whether the turn has failed.
unfoldable pub dispatch_connected :
    Settings → Turn → ℕ → SlotState → Result (Option ℕ) → SlotState × Bool
unfolding defer
dispatch_connected c t i s (raise e) = (defer c.once (t.dispatched_at i) s, true)
dispatch_connected c t i s (ok (some retry_after)) = (
  record s {
    connected = true;
    inspected = t.inspected_by_inventory i;
    due = t.dispatched_at i + max c.interval (min (seconds 120) retry_after);
    finished = c.once;
  },
  true,
)
dispatch_connected c t i s (ok none) =
    (record s { connected = true; inspected = t.inspected_by_inventory i; busy = true }, false)

unfoldable pub dispatch_by : Settings → Turn → ℕ → SlotState → Result (Unit {0}) → SlotState × Bool
unfolding defer dispatch_connected
dispatch_by c t i s (raise e) = (defer c.once (t.dispatched_at i) s, true)
dispatch_by c t i s (ok _) = dispatch_connected c t i s (t.prepare_inventory i)

unfoldable pub dispatch : Settings → Turn → ℕ → SlotState → SlotState × Bool
unfolding dispatch_by
dispatch c t i s = dispatch_by c t i s (if s.connected then ok tt else t.connect i)

-- One turn of the last `for` loop, and whether it comes after the `break`.
unfoldable pub stops : Turn → Bool → ℕ → SlotState → Bool
unfolding is_idle
stops t stopped i s = stopped || (is_idle t i s && t.stopped_before i)

unfoldable pub dispatch_unless : Settings → Turn → Bool → ℕ → SlotState → SlotState × Bool
unfolding is_idle dispatch
dispatch_unless c t stopped i s =
    if is_idle t i s && not stopped then dispatch c t i s else (s, false)

-- The last `for` loop; it breaks for good once `stop` answers. Also whether a slot failed.
unfoldable pub dispatch_all : Settings → Turn → Bool → ℕ → List SlotState → List SlotState × Bool
unfolding stops dispatch_unless
dispatch_all c t stopped i [] = ([], false)
dispatch_all c t stopped i (s ∷ rest) =
    let stopped' = stops t stopped i s in
    let here = dispatch_unless c t stopped' i s in
    let later = dispatch_all c t stopped' (suc i) rest in (here.0 ∷ later.0, here.1 || later.1)

pub data Step : Type 0 where
  continued : State → Step
  returned_with : Bool → Step

unfoldable pub harvested : Settings → Turn → State → State
unfolding harvest harvest_failed
harvested c t s = record s {
  slots = map_from (harvest c t) 0 s.slots;
  failed = s.failed || any_from (harvest_failed t) 0 s.slots;
}

-- Nothing is left to dispatch: a drain, or one round in which every slot has finished.
unfoldable pub is_closing : Settings → Turn → State → Bool
is_closing c t s = t.draining || (c.once && not (any_from (λ i x. not x.finished) 0 s.slots))

unfoldable pub dispatched : Settings → Turn → State → State
unfolding dispatch_all
dispatched c t s =
    let (slots', failed) = dispatch_all c t false 0 s.slots in
    record s { slots = slots'; failed = s.failed || failed }

unfoldable pub turn_on : Settings → Turn → State → Step
unfolding is_closing dispatched prepare
turn_on c t s =
    if is_closing c t s
    then (if any_from (λ i x. x.busy) 0 s.slots then continued s else returned_with (not s.failed))
    else continued (dispatched c t (prepare c t s))

unfoldable pub turn : Settings → Turn → State → Step
unfolding harvested turn_on
turn c t s = turn_on c t (harvested c t s)

abbrev pub fresh_slot : SlotState
fresh_slot = record {
  busy = false;
  connected = false;
  inspected = false;
  due = 0;
  failures = 0;
  finished = false;
}

-- Turns until the loop returns; `none` if the turns run out first.
unfoldable pub run_slots : Settings → List Turn → State → Option Bool
unfolding turn
run_slots c [] s = none
run_slots c (t ∷ ts) s = elim (turn c t s) [
  | returned_with b ↦ some b
  | continued s' ↦ run_slots c ts s'
]
