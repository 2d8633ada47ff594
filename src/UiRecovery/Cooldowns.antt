-- ===== src/UiRecovery/Cooldowns.antt =====
-- The durable cooldowns of app/collector/ui_recovery.py (`UiRecoveryBudget.reserve`), and that they
-- keep the throttle contract. The file is missing, not readable as the expected JSON (any read
-- error raises out of the call), or holds the two kinds of times. It is replaced whole or not at
-- all; whether the write succeeds is a Boolean of the call.
use tradetrack_mt5_server.Prelude.{
  ℕ, ◌+◌, ◌≤◌, String, Bool, true, false, ◌||◌, Option, none, some, List, [], ◌∷◌, ltb,
  if◌then◌else◌, ◌==◌, text_key, lookup, insert, Result, ok, raise, Error, ◌≡◌, lookup-insert,
  arith, refl, ap,
}
use tradetrack_mt5_server.Throttle.{Throttle, seconds, grants, IsSpaced, grants-IsSpaced}

pub record Budget : Type 0 where
  pub all_at : ℕ
  pub slots : List (String × ℕ)

pub data File : Type 0 where
  missing unreadable : File
  contents : Budget → File

abbrev pub time_or_zero : Option ℕ → ℕ
time_or_zero none = 0
time_or_zero (some t) = t

abbrev pub initial : Budget
initial = record { all_at = 0; slots = [] }

-- The body below the read.
unfoldable pub reserve_in : File → Bool → Budget → String → ℕ → File × Result Bool
reserve_in file writable b slot_id now =
    if ltb now (b.all_at + seconds 120)
      || ltb now (time_or_zero (lookup slot_id b.slots) + seconds 900)
    then (file, ok false)
    else if writable
    then (contents (record { all_at = now; slots = insert slot_id now b.slots }), ok true)
    else (file, raise Error.other)

unfoldable pub reserve : File → Bool → String → ℕ → File × Result Bool
unfolding reserve_in
reserve missing writable slot_id now = reserve_in missing writable initial slot_id now
reserve unreadable writable slot_id now = (unreadable, raise Error.other)
reserve (contents b) writable slot_id now = reserve_in (contents b) writable b slot_id now

pub record Call : Type 0 where
  pub writable : Bool
  pub slot_id : String
  pub now : ℕ

abbrev is_reserved : Result Bool → Bool
is_reserved (ok b) = b
is_reserved (raise e) = false

unfoldable pub attempt : File → Call → File × Bool
attempt file c = let (file', r) = reserve file c.writable c.slot_id c.now in (file', is_reserved r)

abbrev budget_of : File → Budget
budget_of missing = initial
budget_of unreadable = initial
budget_of (contents b) = b

pub gate : File → ℕ
gate file = (budget_of file).all_at + seconds 120

pub slot_gate : String → File → ℕ
slot_gate slot_id file = time_or_zero (lookup slot_id (budget_of file).slots) + seconds 900

pub attempt_refused :
    (file : File) (c : Call) → (attempt file c).1 ≡ false → (attempt file c).0 ≡ file
unfolding attempt reserve
attempt_refused missing c h = ground arith
attempt_refused unreadable c h = refl
attempt_refused (contents b) c h = ground arith

pub granted_in_time :
    (file : File) (c : Call)
    → (attempt file c).1 ≡ true
    → (gate file ≤ c.now) × (slot_gate c.slot_id file ≤ c.now)
unfolding attempt gate slot_gate reserve
granted_in_time missing c h = ground arith
granted_in_time unreadable c h = cc
granted_in_time (contents b) c h = ground arith

pub gate_granted :
    (file : File) (c : Call)
    → (attempt file c).1 ≡ true
    → gate (attempt file c).0 ≡ c.now + seconds 120
unfolding attempt gate reserve
gate_granted missing c h = ground arith
gate_granted unreadable c h = cc
gate_granted (contents b) c h = ground arith

pub slot_gate_granted :
    (file : File) (c : Call) (j : String)
    → (attempt file c).1 ≡ true
    → slot_gate j (attempt file c).0
      ≡ (if c.slot_id == j then c.now + seconds 900 else slot_gate j file)
unfolding attempt slot_gate reserve
slot_gate_granted missing c j h = ground (arith, lookup-insert c.slot_id j c.now [])
slot_gate_granted unreadable c j h = cc
slot_gate_granted (contents b) c j h = ground (arith, lookup-insert c.slot_id j c.now b.slots)

-- The budget fills the throttle contract.
abbrev pub ui_throttle : Throttle
ui_throttle = record {
  State = File;
  Request = Call;
  slot = λ c. c.slot_id;
  at = λ c. c.now;
  attempt = attempt;
  gate = gate;
  slot_gate = slot_gate;
  IsGood = λ file. Unit;
  good_after = λ file c good. tt;
  gate_refused = λ file c h. ap gate (attempt_refused file c h);
  slot_gate_refused = λ file c j h. ap (slot_gate j) (attempt_refused file c h);
  granted_in_time = λ file c good h. granted_in_time file c h;
  gate_granted = λ file c good h. gate_granted file c h;
  slot_gate_granted = λ file c j good h. slot_gate_granted file c j h;
}

-- For any file, any calls of `reserve` and any clock readings: of two calls that answer true, the
-- later has a reading at least 120 seconds above the earlier one's, and at least 900 seconds above
-- it if both are of one slot. Restarts of the watchdog in between change nothing.
pub reserve-IsSpaced : (file : File) (calls : List Call) → IsSpaced (grants ui_throttle file calls)
reserve-IsSpaced file calls = grants-IsSpaced ui_throttle file calls tt

-- An unreadable file fails closed for good: no sequence of calls is ever granted.
pub unreadable_never_grants : (calls : List Call) → grants ui_throttle unreadable calls ≡ []
unfolding grants attempt reserve
unreadable_never_grants [] = refl
unreadable_never_grants (c ∷ calls) = unreadable_never_grants calls
