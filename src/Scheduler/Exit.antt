-- ===== src/Scheduler/Exit.antt =====
-- How the scheduler's loop ends.
use tradetrack_mt5_server.Prelude.{
  ℕ, zero, suc, ◌+◌, ◌≡◌, ◌≢◌, ◌⊎◌, inl, inr, Bool, true, false, not, some, List, [], ◌∷◌, map_from,
  any_from, get_elem?, arith, refl, Bool-cases, subst,
}
use native.Mathlib.Nat.{zero-add}
use tradetrack_mt5_server.Scheduler.{
  SlotState, Turn, Settings, State, Step, continued, returned_with, harvest, harvest_failed,
  harvested, prepare, dispatched, turn, turn_on, is_closing, running, raised, complete, Completion,
  returned, run_slots,
}
use tradetrack_mt5_server.Scheduler.Slots.{harvested_get}
use tradetrack_mt5_server.Scheduler.Dispatch.{turn_cases}

any_from-false :
    (p : ℕ → SlotState → Bool) (k : ℕ) (xs : List SlotState) (n : ℕ) (x : SlotState)
    → any_from p k xs ≡ false
    → get_elem? xs n ≡ some x
    → p (k + n) x ≡ false
unfolding any_from
any_from-false p k [] n x h found = cc
any_from-false p k (y ∷ ys) zero x h found =
    let same : y ≡ x = cc in
    subst (λ j. p j x ≡ false) (omega arith) (subst (λ z. p k z ≡ false) same (ground arith))
any_from-false p k (y ∷ ys) (suc n) x h found =
    subst (λ j. p j x ≡ false) (omega arith) (any_from-false p (suc k) ys n x (ground arith) found)

-- The way in which a turn returns.
turn_returns :
    (c : Settings) (t : Turn) (s : State) (b : Bool)
    → turn c t s ≡ returned_with b
    → (any_from (λ i x. x.busy) 0 (harvested c t s).slots ≡ false)
      × (b ≡ not (harvested c t s).failed)
unfolding turn turn_on
turn_returns c t s b h = elim (Bool-cases (is_closing c t (harvested c t s))) [
  | inl closing ↦ elim (Bool-cases (any_from (λ i x. x.busy) 0 (harvested c t s).slots)) [
    | inl waiting ↦ absurd (let e = rw (closing, waiting) at h in cc)
    | inr idle ↦ (idle, let e = rw (closing, idle) at h in cc)
  ]
  | inr open_ ↦ absurd (let e = rw open_ at h in cc)
]

running_busy :
    (c : Settings) (t : Turn) (n : ℕ) (x : SlotState)
    → x.busy ≡ true
    → t.completion n ≡ running
    → (harvest c t n x).busy ≡ true
unfolding harvest
running_busy c t n x b e = ground arith

-- The loop never returns over a running job: when a turn returns, every slot that had a job has seen
-- it return or raise in this turn.
pub turn_returns_idle :
    (c : Settings) (t : Turn) (s : State) (b : Bool) (n : ℕ) (x : SlotState)
    → turn c t s ≡ returned_with b
    → get_elem? s.slots n ≡ some x
    → x.busy ≡ true
    → t.completion n ≢ running
turn_returns_idle c t s b n x h found busy e =
    let (idle, _) = turn_returns c t s b h in
    let at_harvest = harvested_get c t s n x found in
    let free =
      any_from-false (λ i x. x.busy) 0 (harvested c t s).slots n (harvest c t n x) idle
        at_harvest in
    let taken = running_busy c t n x busy e in cc

freed_complete :
    (c : Settings) (now : ℕ) (inspected : Bool) (k : Completion) (x : SlotState)
    → k ≢ running
    → (complete c now inspected k x).busy ≡ false
unfolding complete
freed_complete c now inspected running x h = absurd (h refl)
freed_complete c now inspected (returned o) x h = refl
freed_complete c now inspected raised x h = refl

freed_harvest :
    (c : Settings) (t : Turn) (n : ℕ) (x : SlotState)
    → t.completion n ≢ running
    → (harvest c t n x).busy ≡ false
unfolding harvest
freed_harvest c t n x h =
    ground (arith, freed_complete c (t.harvested_at n) (t.inspected_by_job n) (t.completion n) x h)

none_busy :
    (c : Settings) (t : Turn) (k : ℕ) (xs : List SlotState)
    → ((n : ℕ) → t.completion n ≢ running)
    → any_from (λ i x. x.busy) k (map_from (harvest c t) k xs) ≡ false
unfolding any_from map_from
none_busy c t k [] h = refl
none_busy c t k (x ∷ xs) h = rw (freed_harvest c t k x (h k)) (none_busy c t (suc k) xs h)

-- A drain ends: the first turn under a drain in which no job still runs returns, and it answers
-- whether nothing has failed, this turn's jobs included.
pub turn-drains :
    (c : Settings) (t : Turn) (s : State)
    → t.draining ≡ true
    → ((n : ℕ) → t.completion n ≢ running)
    → turn c t s ≡ returned_with (not (harvested c t s).failed)
unfolding turn turn_on is_closing
turn-drains c t s d h =
    let idle : any_from (λ i x. x.busy) 0 (harvested c t s).slots ≡ false =
      unfold harvested in none_busy c t 0 s.slots h in
    rw (d, idle)

failed_stays :
    (c : Settings) (t : Turn) (s s' : State)
    → turn c t s ≡ continued s'
    → (harvested c t s).failed ≡ true
    → s'.failed ≡ true
failed_stays c t s s' h failed = elim (turn_cases c t s s' h) [
  | inl e ↦ subst (λ r. r.failed ≡ true) e failed
  | inr e ↦ subst (λ r. r.failed ≡ true) e (unfold dispatched prepare in ground arith)
]

harvest_keeps_failed :
    (c : Settings) (t : Turn) (s : State) → s.failed ≡ true → (harvested c t s).failed ≡ true
unfolding harvested
harvest_keeps_failed c t s failed = rw failed

Step-cases : (r : Step) → ((s' : State) × (r ≡ continued s')) ⊎ ((b : Bool) × (r ≡ returned_with b))
Step-cases (continued s') = inl (s', refl)
Step-cases (returned_with b) = inr (b, refl)

-- One turn of a run with a failure, by what holds of the rest of the run.
failed_step :
    (c : Settings) (t : Turn) (ts : List Turn) (s : State)
    → ((s' : State) → s'.failed ≡ true → run_slots c ts s' ≢ some true)
    → (harvested c t s).failed ≡ true
    → run_slots c (t ∷ ts) s ≢ some true
unfolding run_slots
failed_step c t ts s rest failed e = elim (Step-cases (turn c t s)) [
  | inl (s', goes) ↦ rest s' (failed_stays c t s s' goes failed) (rw (goes, run_slots) at e)
  | inr (b, ends) ↦
      let (_, is_b) = turn_returns c t s b ends in
      let answer = rw (ends, run_slots) at e in let fails = rw failed at is_b in cc
]

failed_run :
    (c : Settings) (ts : List Turn) (s : State) → s.failed ≡ true → run_slots c ts s ≢ some true
unfolding run_slots
failed_run c [] s failed e = cc
failed_run c (t ∷ ts) s failed e =
    failed_step c t ts s (failed_run c ts) (harvest_keeps_failed c t s failed) e

raised_fails :
    (c : Settings) (t : Turn) (s : State) (n : ℕ) (x : SlotState)
    → get_elem? s.slots n ≡ some x
    → x.busy ≡ true
    → t.completion n ≡ raised
    → (harvested c t s).failed ≡ true
unfolding harvested
raised_fails c t s n x found busy e = elim (Bool-cases (any_from (harvest_failed t) 0 s.slots)) [
  | inl some_raised ↦ ground arith
  | inr none_raised ↦ absurd (
      let calm = any_from-false (harvest_failed t) 0 s.slots n x none_raised found in
      unfold harvest_failed in let calm' = rw zero-add at calm in ground arith)
]

-- One failed job is enough for a failing exit: if a slot's job raises in the first turn, then
-- whatever the later turns meet, the loop does not end with success.
pub run_slots_fails :
    (c : Settings) (t : Turn) (ts : List Turn) (s : State) (n : ℕ) (x : SlotState)
    → get_elem? s.slots n ≡ some x
    → x.busy ≡ true
    → t.completion n ≡ raised
    → run_slots c (t ∷ ts) s ≢ some true
run_slots_fails c t ts s n x found busy e =
    failed_step c t ts s (failed_run c ts) (raised_fails c t s n x found busy e)
