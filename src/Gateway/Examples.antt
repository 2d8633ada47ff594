-- ===== src/Gateway/Examples.antt =====
-- A gate that an investor session passes, and its theorems at it.
use tradetrack_mt5_server.Prelude.{◌≡◌, true, false, none, some, List, [], ◌∷◌, ok, refl, Any, ℕ}
use tradetrack_mt5_server.Prelude.Int.{negsuc}
use tradetrack_mt5_server.Gateway.Login.{
  Reading, connection_error, is_ipc, last_two, parts, starts_with, ends_with, is_rejection, see,
  scan, look_after, end_look, look, login_turn, await_evidence, login_failure, network_unavailable,
}
use tradetrack_mt5_server.Gateway.Login.Outage.{IsOutageTurn, login_failure-IsOutage}
use tradetrack_mt5_server.Gateway.Identity.{
  Account, Expected, Sighting, Gate, identity, is_drifted, settle,
}
use tradetrack_mt5_server.Gateway.Identity.Verified.{
  IsVerified, Keeps, identity-IsVerified, identity-Keeps, settle-IsVerified,
}

abbrev expected : Expected
expected = record {
  process_identity = "10:1";
  login = 7;
  server = "Demo";
  path = "C:/mt5";
  data_path = "C:/data";
  consented = false;
}

abbrev account : Account
account = record {
  login = 7;
  server = "Demo";
  trade_allowed = false;
  balance = "10";
  equity = "10";
  currency = "EUR";
}

abbrev sighting : Sighting
sighting = record {
  process_identity = ok (some "10:1");
  account = some account;
  terminal = some record {
    path = "C:/mt5";
    data_path = "C:/data";
    connected = true;
    tradeapi_disabled = true;
    build = 4000;
  };
  read_only_session = ok true;
}

abbrev no_gate : Gate
no_gate = record { verified_build = none; trading_mode = none }

abbrev open_gate : Gate
open_gate = record { verified_build = some 4000; trading_mode = some false }

passes : identity expected no_gate sighting ≡ (open_gate, ok account)
unfolding identity is_drifted
passes = refl

identity-IsVerified_example :
    IsVerified expected sighting (identity expected no_gate sighting).0 account
identity-IsVerified_example =
    identity-IsVerified expected no_gate sighting account (unfold identity is_drifted in refl)

identity-Keeps_run : Keeps open_gate (identity expected open_gate sighting).0
identity-Keeps_run = identity-Keeps expected open_gate sighting

-- The caption is not repainted in the first sighting.
abbrev early : Sighting
early = record sighting { read_only_session = ok false }

abbrev seen : List (Sighting × ℕ)
seen = (early, 50) ∷ (sighting, 100) ∷ []

settle-IsVerified_example : Any (λ at. IsVerified expected at.0 open_gate account) seen
settle-IsVerified_example =
    settle-IsVerified expected 10000 seen no_gate open_gate account
      (unfold settle identity is_drifted in refl)

-- The journal tells first of nothing, then that the service is not available.
abbrev quiet : Reading
quiet = record {
  lines = ("0" ∷ "1" ∷ "2" ∷ "Network" ∷ "'7': connected" ∷ []) ∷ [];
  failure = none;
}

abbrev down : Reading
down = record {
  lines =
      ("0" ∷ "1" ∷ "2" ∷ "Network" ∷ "'7': authorization on S failed (Service is not available)"
        ∷ [])
      ∷ [];
  failure = none;
}

abbrev journal_passes : List (Reading × ℕ)
journal_passes = (quiet, 100) ∷ (down, 200) ∷ []

login_failure_run :
    login_failure (λ s. s) "7" "S" (some (negsuc 5)) true 0 journal_passes
    ≡ some (ok network_unavailable)
unfolding login_failure await_evidence connection_error is_ipc last_two parts starts_with ends_with
    is_rejection see scan look_after end_look look login_turn
login_failure_run = refl

login_failure-IsOutage_example : Any (IsOutageTurn (λ s. s) "7" "S") journal_passes
login_failure-IsOutage_example =
    login_failure-IsOutage (λ s. s) "7" "S" (some (negsuc 5)) true 0 journal_passes
      login_failure_run
