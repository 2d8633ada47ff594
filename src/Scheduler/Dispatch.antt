-- ===== src/Scheduler/Dispatch.antt =====
-- What the scheduler promises of each slot.
use tradetrack_mt5_server.Prelude.{
  ℕ, zero, suc, ◌+◌, ◌-◌, ◌≤◌, ◌<◌, ◌≡◌, ◌⊎◌, inl, inr, min, true, false, some, any_from, get_elem?,
  arith, refl, Bool-cases, subst, ◌∙◌, ap, sym,
}
use tradetrack_mt5_server.Throttle.{seconds}
use tradetrack_mt5_server.Scheduler.{
  SlotState, Turn, Settings, State, continued, harvest, harvested, prepared, prepare, is_idle,
  dispatched, turn, turn_on, is_closing, running, raised, backoff,
}
use tradetrack_mt5_server.Scheduler.Slots.{SlotTurn, Changes, dispatched-SlotTurn, harvested_get}

-- A turn that goes on has either only harvested, or also dispatched.
pub turn_cases :
    (c : Settings) (t : Turn) (s s' : State)
    → turn c t s ≡ continued s'
    → (harvested c t s ≡ s') ⊎ (dispatched c t (prepare c t (harvested c t s)) ≡ s')
unfolding turn turn_on
turn_cases c t s s' h = elim (Bool-cases (is_closing c t (harvested c t s))) [
  | inl closing ↦ elim (Bool-cases (any_from (λ i x. x.busy) 0 (harvested c t s).slots)) [
    | inl waiting ↦ let e = rw (closing, waiting) at h in inl (cc)
    | inr idle ↦ absurd (let e = rw (closing, idle) at h in cc)
  ]
  | inr open_ ↦ let e = rw open_ at h in inr (cc)
]

-- A property of one slot's way through a turn holds of every slot of the next state.
pub turn-Changes :
    (c : Settings) (t : Turn) (R : ℕ → SlotState → SlotState → Type 0) (s s' : State)
    → turn c t s ≡ continued s'
    → ((n : ℕ) (x : SlotState) → R n x (harvest c t n x))
    → ((n : ℕ) (x y : SlotState) → SlotTurn c t n x y → R n x y)
    → Changes R s.slots s'.slots
turn-Changes c t R s s' h only_harvest all n x found = elim (turn_cases c t s s' h) [
  | inl e ↦
      subst (λ r. (y : SlotState) × (get_elem? r.slots n ≡ some y) × R n x y) e
        (harvest c t n x, harvested_get c t s n x found, only_harvest n x)
  | inr e ↦
      let (y, at_y, way) = dispatched-SlotTurn c t s n x found in
      subst (λ r. (y : SlotState) × (get_elem? r.slots n ≡ some y) × R n x y) e
        (y, at_y, all n x y way)
]

-- A slot that the turn must leave alone: a job still runs on it, or it has finished for good.
abbrev pub IsSettled : Turn → ℕ → SlotState → Type 0
IsSettled t n x =
    ((x.busy ≡ true) × (t.completion n ≡ running)) ⊎ ((x.busy ≡ false) × (x.finished ≡ true))

settled_harvest :
    (c : Settings) (t : Turn) (n : ℕ) (x : SlotState) → IsSettled t n x → harvest c t n x ≡ x
unfolding harvest
settled_harvest c t n x (inl (b, e)) = rw (b, e)
settled_harvest c t n x (inr (b, f)) = rw b

settled_idle :
    (t : Turn) (n : ℕ) (x : SlotState)
    → IsSettled t n x
    → (is_idle t n x ≡ false) × (prepared t n x ≡ x)
unfolding is_idle prepared
settled_idle t n x (inl (b, e)) = (rw b, rw b)
settled_idle t n x (inr (b, f)) = (rw (b, f), rw (b, f))

settled_turn :
    (c : Settings) (t : Turn) (n : ℕ) (x y : SlotState)
    → SlotTurn c t n x y
    → IsSettled t n x
    → y ≡ x
settled_turn c t n x y way settled =
    let (not_idle, kept) = settled_idle t n x settled in
    let same = settled_harvest c t n x settled in
    let between : way.between ≡ x = elim way.by_preparation [
      | inl e ↦ e ∙ same
      | inr e ↦ e ∙ ap (prepared t n) same ∙ kept
    ] in
    elim way.by_dispatch [
      | inl e ↦ e ∙ between
      | inr (idle, _) ↦ absurd (let i = ap (is_idle t n) between in cc)
    ]

-- A slot with a job that is still running, or one that has finished for good, is not touched by a
-- turn: it is not connected, inspected, prepared, given a second job or deferred.
pub turn-keeps_settled :
    (c : Settings) (t : Turn) (s s' : State) (n : ℕ) (x : SlotState)
    → turn c t s ≡ continued s'
    → get_elem? s.slots n ≡ some x
    → IsSettled t n x
    → get_elem? s'.slots n ≡ some x
turn-keeps_settled c t s s' n x h found settled =
    let (y, at_y, same) =
      turn-Changes c t (λ i z w. IsSettled t i z → w ≡ z) s s' h (λ i z. settled_harvest c t i z)
        (λ i z w way. settled_turn c t i z w way) n x found in
    at_y ∙ ap some (same settled)

-- No future, and not due by the reading that the turn compares with.
abbrev pub IsWaiting : Turn → ℕ → SlotState → Type 0
IsWaiting t n x = (x.busy ≡ false) × (t.idle_at n < x.due)

-- The deferral of a slot stays as it is.
pub record IsStillWaiting (x y : SlotState) : Type 0 where
  pub no_job : y.busy ≡ false
  pub same_due : y.due ≡ x.due
  pub same_failures : y.failures ≡ x.failures
  pub same_connection : y.connected ≡ x.connected

waiting_idle :
    (t : Turn) (n : ℕ) (x z : SlotState)
    → t.idle_at n < x.due
    → IsStillWaiting x z
    → is_idle t n z ≡ false
unfolding is_idle
waiting_idle t n x z late w = ground (arith, w.same_due)

prepared-IsStillWaiting :
    (t : Turn) (n : ℕ) (x : SlotState) → x.busy ≡ false → IsStillWaiting x (prepared t n x)
unfolding prepared
prepared-IsStillWaiting t n x b = ground arith

same-IsStillWaiting : (x : SlotState) → x.busy ≡ false → IsStillWaiting x x
same-IsStillWaiting x b = record {
  no_job = b;
  same_due = refl;
  same_failures = refl;
  same_connection = refl;
}

-- What follows the harvest of a slot that is not due.
after_harvest-IsStillWaiting :
    (c : Settings) (t : Turn) (n : ℕ) (x z y : SlotState) (way : SlotTurn c t n x y)
    → harvest c t n x ≡ z
    → IsWaiting t n z
    → IsStillWaiting z y
after_harvest-IsStillWaiting c t n x z y way same (b, late) =
    let between : IsStillWaiting z way.between = elim way.by_preparation [
      | inl e ↦ subst (IsStillWaiting z) (sym (e ∙ same)) (same-IsStillWaiting z b)
      | inr e ↦
          subst (IsStillWaiting z) (sym (e ∙ ap (prepared t n) same))
            (prepared-IsStillWaiting t n z b)
    ] in
    elim way.by_dispatch [
      | inl e ↦ subst (IsStillWaiting z) (sym e) between
      | inr (idle, _) ↦ absurd (let waits = waiting_idle t n z way.between late between in cc)
    ]

waiting_harvest :
    (c : Settings) (t : Turn) (n : ℕ) (x : SlotState) → x.busy ≡ false → harvest c t n x ≡ x
unfolding harvest
waiting_harvest c t n x b = rw b

-- A slot that is not due by the turn's reading gets no job, no connection and no new due time.
pub turn-keeps_waiting :
    (c : Settings) (t : Turn) (s s' : State) (n : ℕ) (x : SlotState)
    → turn c t s ≡ continued s'
    → get_elem? s.slots n ≡ some x
    → IsWaiting t n x
    → (y : SlotState) × (get_elem? s'.slots n ≡ some y) × IsStillWaiting x y
turn-keeps_waiting c t s s' n x h found w =
    let (y, at_y, still) =
      turn-Changes c t (λ i z y. IsWaiting t i z → IsStillWaiting z y) s s' h
        (λ i z (b, late).
          subst (IsStillWaiting z) (sym (waiting_harvest c t i z b)) (same-IsStillWaiting z b))
        (λ i z y way (b, late).
          after_harvest-IsStillWaiting c t i z z y way (waiting_harvest c t i z b) (b, late))
        n x found in
    (y, at_y, still w)

-- The delay after a failure doubles from 10 seconds on, and stays at 300 seconds from the sixth.
pub backoff_bounds :
    (failures : ℕ) → (seconds 10 ≤ backoff (suc failures)) × (backoff (suc failures) ≤ seconds 300)
unfolding backoff
backoff_bounds zero = omega arith
backoff_bounds (suc zero) = omega arith
backoff_bounds (suc (suc zero)) = omega arith
backoff_bounds (suc (suc (suc zero))) = omega arith
backoff_bounds (suc (suc (suc (suc zero)))) = omega arith
backoff_bounds (suc (suc (suc (suc (suc f))))) =
    let e : min (suc (suc (suc (suc (suc (suc f))))) - 1) 5 ≡ 5 = omega arith in rw e (omega arith)

-- The state of a slot whose job just raised.
pub record IsDeferred (now : ℕ) (x y : SlotState) : Type 0 where
  pub freed : y.busy ≡ false
  pub counted : y.failures ≡ suc x.failures
  pub dropped : y.connected ≡ false
  pub not_early : now + seconds 10 ≤ y.due
  pub bounded : y.due ≤ now + seconds 300

raised_harvest :
    (c : Settings) (t : Turn) (n : ℕ) (x : SlotState)
    → x.busy ≡ true
    → t.completion n ≡ raised
    → IsDeferred (t.harvested_at n) x (harvest c t n x)
unfolding harvest
raised_harvest c t n x b e = ground (arith, backoff_bounds x.failures)

IsDeferred-way :
    (c : Settings) (t : Turn) (n : ℕ) (x y : SlotState)
    → SlotTurn c t n x y
    → x.busy ≡ true
    → t.completion n ≡ raised
    → t.idle_at n < t.harvested_at n + seconds 10
    → IsDeferred (t.harvested_at n) x y
IsDeferred-way c t n x y way b e soon =
    let z = harvest c t n x in
    let d = raised_harvest c t n x b e in
    let late : t.idle_at n < z.due = omega (arith, d.not_early) in
    let still = after_harvest-IsStillWaiting c t n x z y way refl (d.freed, late) in
    record {
      freed = still.no_job;
      counted = still.same_failures ∙ d.counted;
      dropped = still.same_connection ∙ d.dropped;
      not_early = omega (arith, d.not_early, still.same_due);
      bounded = omega (arith, d.bounded, still.same_due);
    }

-- A slot whose job raised is freed, loses its connection, counts one more failure, and gets no new
-- job in this turn; its next is due at least 10 and at most 300 seconds after the reading that the
-- harvest took, if the turn's reading for idle slots is less than 10 seconds after that one.
pub turn-defers_raised :
    (c : Settings) (t : Turn) (s s' : State) (n : ℕ) (x : SlotState)
    → turn c t s ≡ continued s'
    → get_elem? s.slots n ≡ some x
    → x.busy ≡ true
    → t.completion n ≡ raised
    → t.idle_at n < t.harvested_at n + seconds 10
    → (y : SlotState) × (get_elem? s'.slots n ≡ some y) × IsDeferred (t.harvested_at n) x y
turn-defers_raised c t s s' n x h found b e soon =
    let (y, at_y, deferred) =
      turn-Changes c t
        (λ i z y.
          z.busy ≡ true
          → t.completion i ≡ raised
          → t.idle_at i < t.harvested_at i + seconds 10
          → IsDeferred (t.harvested_at i) z y)
        s s' h (λ i z p q _. raised_harvest c t i z p q) (λ i z y way. IsDeferred-way c t i z y way)
        n x found in
    (y, at_y, deferred b e soon)
