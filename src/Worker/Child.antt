-- ===== src/Worker/Child.antt =====
-- app/collector/worker.py, `run_child`: the child process under its deadline and its heartbeats.
-- The kill, the waits and the closed pipes of the `finally` are calls of the operating system.
use tradetrack_mt5_server.Prelude.{
  ℕ, ◌+◌, Bool, true, false, not, ◌&&◌, Option, none, some, List, [], ◌∷◌, leb, if◌then◌else◌,
  Result, ok, raise, Error, ◌>>=◌,
}
use tradetrack_mt5_server.Throttle.{seconds}
use tradetrack_mt5_server.Worker.{ChildResult, failure, Poll, Exit, ChildRun}

-- The next heartbeat's time, whether one is running, and the starts so far, latest first.
pub record Heart : Type 0 where
  pub ping_at : ℕ
  pub is_running : Bool
  pub starts : List ℕ

-- What a turn of the loop does: it goes on, or `run_child` ends.
pub data Turn : Type 0 where
  go : Heart → Turn
  end : Result ChildResult → Turn

-- The heartbeat's `result()` raises what the call raised.
unfoldable pub settle_heart : Heart → Option (Result (Unit {0})) → Result Heart
settle_heart h none = ok h
settle_heart h (some (ok u)) = ok (record h { is_running = false })
settle_heart h (some (raise e)) = if h.is_running then raise e else ok h

unfoldable pub ping : Poll → Heart → Heart
ping t h =
    if leb h.ping_at t.ping_now && not h.is_running
    then record {
      ping_at = t.pinged_at + seconds 20;
      is_running = true;
      starts = t.pinged_at ∷ h.starts;
    }
    else h

unfoldable pub turn_after : Poll → Result Heart → Turn
unfolding ping
turn_after t (raise e) = end (raise e)
turn_after t (ok h) = go (ping t h)

unfoldable pub child_turn : ℕ → Poll → Heart → Turn
unfolding settle_heart turn_after
child_turn deadline t h =
    if leb deadline t.now
    then end (ok (failure "CHILD_TIMEOUT"))
    else turn_after t (settle_heart h t.answer)

unfoldable pub parsed : Option ChildResult → ChildResult
parsed none = failure "CHILD_FAILED"
parsed (some r) = r

unfoldable pub read_output : Exit → Result (Unit {0}) → Result ChildResult
unfolding parsed
read_output x (raise e) = raise e
read_output x (ok u) =
    if x.oversized
    then ok (failure "BATCH_TOO_LARGE")
    else if x.failed
    then ok (failure "CHILD_FAILED")
    else (x.output >>= λ r. ok (parsed r))

-- The `while`, and what follows it: the answer, and the starts of the heartbeats.
unfoldable pub watch : ℕ → List Poll → Exit → Heart → Result ChildResult × List ℕ
unfolding child_turn read_output
watch deadline [] x h = (read_output x x.reader, h.starts)
watch deadline (t ∷ polls) x h = elim (child_turn deadline t h) [
  | go h' ↦ watch deadline polls x h'
  | end r ↦ (r, h.starts)
]

-- `except (ValueError, OSError)`.
unfoldable pub rescue : Result ChildResult → Result ChildResult
rescue (ok r) = ok r
rescue (raise Error.os_error) = ok (failure "CHILD_FAILED")
rescue (raise e) = raise e

unfoldable pub watch_from : ℕ → ChildRun → Result ℕ → Result ChildResult × List ℕ
unfolding watch
watch_from timeout c (raise e) = (raise e, [])
watch_from timeout c (ok start) =
    watch (start + timeout) c.polls c.exit
      (record { ping_at = c.ping_clock + seconds 20; is_running = false; starts = [] })

unfoldable pub run_spawned : ℕ → ChildRun → Result (Unit {0}) → Result ChildResult × List ℕ
unfolding watch_from rescue
run_spawned timeout c (raise e) = (raise e, [])
run_spawned timeout c (ok u) =
    let (r, starts) = watch_from timeout c c.written in (rescue r, starts)

unfoldable pub run_child : ℕ → ChildRun → Result ChildResult × List ℕ
unfolding run_spawned
run_child timeout c = run_spawned timeout c c.spawned
