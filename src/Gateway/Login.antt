-- ===== src/Gateway/Login.antt =====
-- app/collector/gateway.py, `connection_error` and `login_failure`: what a failed login is reported as.
-- The journal's lines are what each pass reads of them, with the error that ends the reading, if any.
pub mod Outage
use tradetrack_mt5_server.Prelude.{
  ℕ, ◌+◌, String, Bool, true, false, not, ◌&&◌, ◌||◌, Option, none, some, List, [], ◌∷◌, leb,
  nat_beq, if◌then◌else◌, ◌==◌, text_key, Result, ok, raise, Error,
}
use tradetrack_mt5_server.Prelude.Int.{ℤ, pos, negsuc, same_ℤ}
use tradetrack_mt5_server.Throttle.{seconds}
use Prim.Native.String.{◌++◌, [], ◌∷◌}
use Prim.Native.Char.{Char, code}

-- The codes that a failed login is reported with, by their names in lower case.
pub data Code : Type 0 where
  auth_failed connection_failed terminal_ipc_unavailable network_unavailable : Code

abbrev pub is_doubtful : Code → Bool
is_doubtful auth_failed = true
is_doubtful connection_failed = true
is_doubtful _ = false

unfoldable pub is_documented : ℤ → Bool
is_documented (pos n) = leb n 100000
is_documented (negsuc n) = leb (n + 1) 100000

-- -10000, -10001, -10002, -10003 or -10005.
unfoldable pub is_ipc : ℤ → Bool
is_ipc c =
    same_ℤ c (negsuc 9999)
    || same_ℤ c (negsuc 10000)
    || same_ℤ c (negsuc 10001)
    || same_ℤ c (negsuc 10002)
    || same_ℤ c (negsuc 10004)

-- The reported code, of the number that `last_error` gives, if it gives one.
unfoldable pub connection_error : Option ℤ → Code
unfolding is_ipc
connection_error none = connection_failed
connection_error (some c) =
    if same_ℤ c (negsuc 5)
    then auth_failed
    else if is_ipc c
    then terminal_ipc_unavailable
    else connection_failed

-- The number that the diagnostics keep.
unfoldable pub diagnosed : Option ℤ → Option ℤ
unfolding is_documented
diagnosed none = none
diagnosed (some c) = if is_documented c then some c else none

unfoldable pub starts_with : String → String → Bool
starts_with s [] = true
starts_with [] (d ∷ t) = false
starts_with (c ∷ s) (d ∷ t) = nat_beq (code c) (code d) && starts_with s t

unfoldable pub ends_with : String → String → Bool
ends_with [] t = t == ""
ends_with (c ∷ s) t = (c ∷ s) == t || ends_with s t

-- The last two of a line's fields, of which it has five at least.
unfoldable pub last_two : String → String → List String → String × String
last_two a b [] = (a, b)
last_two a b (c ∷ fields) = last_two b c fields

unfoldable pub parts : List String → Option (String × String)
unfolding last_two
parts (a ∷ b ∷ c ∷ d ∷ e ∷ fields) = some (last_two d e fields)
parts _ = none

-- What one pass over the fresh lines has seen.
pub record Evidence : Type 0 where
  pub sync_failed : Bool
  pub common_error : Bool
  pub service_unavailable : Bool

abbrev pub nothing : Evidence
nothing = record { sync_failed = false; common_error = false; service_unavailable = false }

-- The lines that a pass reads, and the error that ends it, if any.
pub record Reading : Type 0 where
  pub lines : List (List String)
  pub failure : Option Error

pub data Look : Type 0 where
  rejected unusable : Look
  seen : Evidence → Look
  broken : Error → Look

unfoldable pub end_look : Evidence → Option Error → Look
end_look e none = seen e
end_look e (some (Error.collection_error code)) = unusable
end_look e (some Error.os_error) = seen nothing
end_look e (some x) = broken x

unfoldable pub look_after : Option Evidence → Option Error → Look
unfolding end_look
look_after none failure = rejected
look_after (some e) failure = end_look e failure

abbrev pub is_transport : Evidence → Bool
is_transport e = e.service_unavailable || (e.sync_failed && e.common_error)

-- The answer of one turn, or `none` if the loop goes on.
unfoldable pub login_turn : Code → ℕ → ℕ → Look → Option (Result Code)
login_turn answer deadline now rejected = some (ok answer)
login_turn answer deadline now unusable = some (ok connection_failed)
login_turn answer deadline now (broken x) = some (raise x)
login_turn answer deadline now (seen e) =
    if is_transport e
    then some (ok network_unavailable)
    else if leb deadline now
    then some (ok connection_failed)
    else none

-- The texts of the journal, by the printed login and the server.
module _ (strip : String → String) (login server : String) where
  abbrev pub sync_message : String
  sync_message = "'" ++ (login ++ "': error sending synchronization command")

  abbrev pub failed_message : String
  failed_message = "'" ++ (login ++ ("': authorization on " ++ (server ++ " failed (")))

  abbrev pub common_message : String
  common_message = failed_message ++ "Common error)"

  abbrev pub unavailable_message : String
  unavailable_message = failed_message ++ "Service is not available)"

  -- An authorization failed for a reason of its own.
  unfoldable pub is_rejection : String → String → Bool
  unfolding starts_with ends_with
  is_rejection source message =
      source == "Network"
      && starts_with message failed_message
      && ends_with message ")"
      && not (message == common_message || message == unavailable_message)

  unfoldable pub see : String → String → Evidence → Evidence
  see source message e = record {
    sync_failed = e.sync_failed || (source == server && message == sync_message);
    common_error = e.common_error || (source == "Network" && message == common_message);
    service_unavailable =
        e.service_unavailable || (source == "Network" && message == unavailable_message);
  }

  -- The evidence of the lines, or `none` at an explicit rejection.
  unfoldable pub scan : List (List String) → Evidence → Option Evidence
  unfolding parts is_rejection see
  scan [] e = some e
  scan (line ∷ lines) e = elim (parts line) [
    | none ↦ scan lines e
    | some part ↦
        let rest = scan lines (see part.0 (strip part.1) e) in
        if is_rejection part.0 (strip part.1) then none else rest
  ]

  unfoldable pub look : Reading → Look
  unfolding scan look_after
  look r = look_after (scan r.lines nothing) r.failure

  -- The loop over its turns, each with the clock that it reads; `none` if they end before it does.
  unfoldable pub await_evidence : Code → ℕ → List (Reading × ℕ) → Option (Result Code)
  unfolding look login_turn
  await_evidence answer deadline [] = none
  await_evidence answer deadline (t ∷ turns) = elim (login_turn answer deadline t.1 (look t.0)) [
    | some r ↦ some r
    | none ↦ await_evidence answer deadline turns
  ]

  -- With the clock at the start. `settle_seconds` is its default, ten.
  unfoldable pub login_failure : Option ℤ → Bool → ℕ → List (Reading × ℕ) → Option (Result Code)
  unfolding connection_error await_evidence
  login_failure error has_baseline start turns =
      if not (is_doubtful (connection_error error))
      then some (ok (connection_error error))
      else if not has_baseline
      then some (ok connection_failed)
      else await_evidence (connection_error error) (start + seconds 10) turns
