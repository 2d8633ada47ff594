-- ===== src/NodeClient/Examples.antt =====
-- Calls of the API, and the theorems on them at concrete replies.
use tradetrack_mt5_server.Prelude.{
  length, ◌<◌, ℕ, zero, suc, String, ◌≡◌, ◌≤◌, refl, [], ◌∷◌, ok, raise,
}
use tradetrack_mt5_server.NodeClient.{
  object, wanted, Reply, response, http_error, unreachable, call, call_from, decide_reply, agent,
}
use tradetrack_mt5_server.NodeClient.Retries.{IsRetryable, IsCall, call-IsCall, call-ok}

abbrev code : ℕ → String
code status = "API_HTTP_503"

-- An overloaded API that asks for three seconds, a lost connection, and then an answer.
abbrev replies : ℕ → Reply ℕ
replies zero = http_error 503 (wanted 3)
replies (suc zero) = unreachable
replies (suc (suc n)) = response 100 (object 7)

replies_called : call code 1000 replies ≡ (ok 7, 3 ∷ 2 ∷ [])
unfolding call call_from decide_reply
replies_called = refl

-- The wait that the API asks for may be too long.
abbrev late : ℕ → Reply ℕ
late n = http_error 429 (wanted 11)

late_called : call code 1000 late ≡ (raise (agent "API_RETRY_LATER"), [])
unfolding call call_from decide_reply
late_called = refl

call-IsCall_example :
    IsCall code 1000 replies 0 (call code 1000 replies).0 (call code 1000 replies).1
call-IsCall_example = call-IsCall code 1000 replies

call-ok_example :
    (size : ℕ) × (length (call code 1000 replies).1 ≤ 2)
    × (size ≤ 1000)
    × (replies (length (call code 1000 replies).1) ≡ response size (object 7))
    × ((i : ℕ) → i < length (call code 1000 replies).1 → IsRetryable code 1000 (replies i))
call-ok_example = call-ok code 1000 replies 7 (unfold call call_from decide_reply in refl)
