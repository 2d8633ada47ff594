-- ===== src/NodeClient.antt =====
-- app/collector/node_agent.py, `NodeClient.call`: a request to the API with bounded retries. What
-- each attempt meets is an argument; times are whole seconds. `A` is the type of JSON objects.
pub mod Retries
mod Examples
use tradetrack_mt5_server.Prelude.{
  ℕ, zero, suc, ◌+◌, ◌*◌, ◌^◌, min, max, String, Bool, true, false, ◌||◌, Option, none, some, List,
  [], ◌∷◌, ltb, nat_beq, if◌then◌else◌, Result, ok, raise, Error,
}

-- What `json.loads` makes of a body: an error, a value that is no object, or an object.
pub data Body (A : Type 0) : Type 0 where
  invalid no_object : Body A
  object : A → Body A

-- A `Retry-After` that is missing or not all digits, one of so many seconds, or one that
-- `str.isdigit` takes and `int` refuses, such as a superscript digit.
pub data RetryAfter : Type 0 where
  no_digits unreadable : RetryAfter
  wanted : ℕ → RetryAfter

-- A response with its length, an HTTP error with its `Retry-After`, or a connection that fails.
pub data Reply (A : Type 0) : Type 0 where
  response : (size : ℕ) → Body A → Reply A
  http_error : (status : ℕ) (retry_after : RetryAfter) → Reply A
  unreachable : Reply A

-- One turn of the loop either ends it or sleeps.
pub data Decision (A : Type 0) : Type 0 where
  ends : Result A → Decision A
  sleeps : ℕ → Decision A

abbrev pub agent : String → Error
agent code = Error.agent_error code

unfoldable pub is_transient : ℕ → Bool
is_transient status =
    nat_beq status 429
    || nat_beq status 500
    || nat_beq status 502
    || nat_beq status 503
    || nat_beq status 504

-- The codes `API_HTTP_<status>` are told apart by a function of the status.
module _ {A : Type 0} (http_code : ℕ → String) (limit : ℕ) where
  unfoldable pub read_body : Body A → Result A
  read_body invalid = raise (agent "API_RESPONSE_INVALID")
  read_body no_object = raise (agent "API_RESPONSE_INVALID")
  read_body (object a) = ok a

  unfoldable pub with_retry_after : ℕ → RetryAfter → Decision A
  with_retry_after delay no_digits = sleeps delay
  with_retry_after delay unreadable = ends (raise Error.other)
  with_retry_after delay (wanted wait) =
      if ltb 10 wait then ends (raise (agent "API_RETRY_LATER")) else sleeps (max delay wait)

  unfoldable pub decide_reply : ℕ → Reply A → Decision A
  unfolding read_body with_retry_after is_transient
  decide_reply attempt (response size body) =
      if ltb limit size then ends (raise (agent "API_RESPONSE_LIMIT")) else ends (read_body body)
  decide_reply attempt (http_error status retry_after) =
      if is_transient status
      then (if nat_beq attempt 2
          then ends (raise (agent (http_code status)))
          else with_retry_after (min (2 ^ attempt) 4) retry_after)
      else ends (raise (agent (http_code status)))
  decide_reply attempt unreachable =
      if nat_beq attempt 2
      then ends (raise (agent "API_UNAVAILABLE"))
      else sleeps (min (2 ^ attempt) 4)

  -- The loop over the attempts left: its result and the sleeps on the way.
  unfoldable pub call_from : ℕ → ℕ → (ℕ → Reply A) → Result A × List ℕ
  call_from zero attempt replies = (raise (agent "API_UNAVAILABLE"), [])
  call_from (suc left) attempt replies = elim (decide_reply attempt (replies attempt)) [
    | ends r ↦ (r, [])
    | sleeps delay ↦ let rest = call_from left (suc attempt) replies in (rest.0, delay ∷ rest.1)
  ]

  unfoldable pub call : (ℕ → Reply A) → Result A × List ℕ
  unfolding call_from decide_reply
  call replies = call_from 3 0 replies

abbrev pub mebibyte : ℕ
mebibyte = 1024 * 1024

-- The public catalogue alone, read with no payload, gets the larger bound.
unfoldable pub response_limit : Bool → Bool → ℕ
response_limit is_inventory has_payload =
    if is_inventory then (if has_payload then 512 * 1024 else 16 * mebibyte) else 512 * 1024
