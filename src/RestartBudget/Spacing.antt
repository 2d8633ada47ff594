-- ===== src/RestartBudget/Spacing.antt =====
-- What the durable restart budget promises its callers.
use tradetrack_mt5_server.Prelude.{
  ℕ, ◌≤◌, String, ◌≡◌, Bool, true, List, ok, raise, Error, arith, ◌↔◌, lookup, ap, ◌⊎◌,
  lookup-insert, text_key, ==_refl,
}
use tradetrack_mt5_server.Throttle.{Throttle, seconds, grants, IsSpaced, grants-IsSpaced}
use tradetrack_mt5_server.RestartBudget.{Attempts, latest, at_of, has_identity, reserve_restart}
use tradetrack_mt5_server.RestartBudget.Gates.{
  Call, attempt, gate, slot_gate, after, gate_granted, attempt_refused, granted_in_time,
  slot_gate_granted,
}

-- The budget fills the throttle contract.
abbrev pub restart_throttle : Throttle
restart_throttle = record {
  State = Attempts;
  Request = Call;
  slot = λ c. c.key;
  at = λ c. c.now;
  attempt = attempt;
  gate = gate;
  slot_gate = slot_gate;
  IsGood = λ db. Unit;
  good_after = λ db c good. tt;
  gate_refused = λ db c h. ap gate (attempt_refused db c h);
  slot_gate_refused = λ db c j h. ap (slot_gate j) (attempt_refused db c h);
  granted_in_time = λ db c good h. granted_in_time db c h;
  gate_granted = λ db c good h. gate_granted db c h;
  slot_gate_granted = λ db c j good h. slot_gate_granted db c j h;
}

-- For any table, any sequence of calls of `reserve_restart` and any clock readings, also ones that
-- go backwards: of two calls that reserve a new restart, the later has a reading at least 120
-- seconds above the earlier one's, and at least 900 seconds above it if both are of one slot.
pub reserve_restart-IsSpaced :
    (db : Attempts) (calls : List Call) → IsSpaced (grants restart_throttle db calls)
reserve_restart-IsSpaced db calls = grants-IsSpaced restart_throttle db calls tt

-- A call returns exactly if the store answers and either the slot's row is already for this
-- identity, or both cooldowns are over: 120 seconds since the last row, 900 since the slot's own.
pub reserve_restart-ok_iff :
    (available : Bool) (db : Attempts) (key identity : String) (now : ℕ)
    → ((reserve_restart available db key identity now).1 ≡ ok tt) ↔ (
        (available ≡ true)
        × ((has_identity (lookup key db) identity ≡ true)
            ⊎ ((after (latest db) (seconds 120) ≤ now)
                × (after (at_of (lookup key db)) (seconds 900) ≤ now))))
unfolding reserve_restart
reserve_restart-ok_iff available db key identity now = ground arith

-- A reservation is idempotent: a second call for the same slot and identity, at any later or
-- earlier time, returns too and writes nothing.
pub reserve_restart_again :
    (db db' : Attempts) (key identity : String) (now again : ℕ)
    → reserve_restart true db key identity now ≡ (db', ok tt)
    → reserve_restart true db' key identity again ≡ (db', ok tt)
unfolding reserve_restart
reserve_restart_again db db' key identity now again h = ground (
  arith,
  lookup-insert key key (record { identity = identity; at = now }) db,
  ==_refl key,
  ==_refl identity,
)

-- A call that raises leaves the table as it was: a refused recovery uses up no budget.
pub reserve_restart_raised :
    (available : Bool) (db : Attempts) (key identity : String) (now : ℕ) (e : Error)
    → (reserve_restart available db key identity now).1 ≡ raise e
    → (reserve_restart available db key identity now).0 ≡ db
unfolding reserve_restart
reserve_restart_raised available db key identity now e h = ground arith
