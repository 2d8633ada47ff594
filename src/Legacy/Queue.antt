-- ===== src/Legacy/Queue.antt =====
-- app/queue.py: which queue, and so which terminal, serves an account. Redis is its rows of values
-- with their ends, in seconds; a value is missing where `int` raises on it.
use Prim.Native.String.{String, ◌++◌}
use tradetrack_mt5_server.Prelude.{
  ℕ, ◌+◌, ◌-◌, ◌%◌, ◌≡◌, max, Bool, true, false, Option, none, some, List, length, ltb, ◌⊎◌, [],
  ◌∷◌, if◌then◌else◌, ◌==◌, text_key, lookup, insert, Result, ok, raise, Error,
}
use tradetrack_mt5_server.Prelude.Int.{ℤ, pos, negsuc}

-- `%` of Python by a positive number.
unfoldable pub mod_ℤ : ℤ → ℕ → ℕ
mod_ℤ (pos n) m = n % m
mod_ℤ (negsuc n) m = m - 1 - n % m

-- `_queues_count`, with the number that the environment gives.
unfoldable pub queues_count : ℕ → ℕ
queues_count wanted = max 1 wanted

abbrev pub Store : Type 0
Store = List (String × (Option ℤ × ℕ))

-- `conn.get` at a time: an expired value is missing.
abbrev pub alive : ℕ → Option (Option ℤ × ℕ) → Option (Option ℤ)
alive now none = none
alive now (some row) = if ltb now row.1 then some row.0 else none

abbrev pub account_ttl : ℕ
account_ttl = 86400

-- `str` of a login, `str.strip` and `hash` are the interpreter's.
module _ (str : ℤ → String) (strip : String → String) (hash : String → ℤ) where
  unfoldable pub account_key : ℤ → String → String
  account_key login server =
      str login ++ (":" ++ (if strip server == "" then "_" else strip server))

  abbrev pub redis_key : ℤ → String → String
  redis_key login server = "mt5:account:" ++ account_key login server

  unfoldable pub index_of : ℕ → Option (Option ℤ) → String → ℕ
  unfolding mod_ℤ
  index_of count (some (some n)) key = mod_ℤ n count
  index_of count _ key = mod_ℤ (hash key) count

  unfoldable pub get_queue_index_for_account : ℕ → Store → ℕ → ℤ → String → ℕ
  unfolding index_of queues_count
  get_queue_index_for_account wanted store now login server =
      index_of (queues_count wanted) (alive now (lookup (redis_key login server) store))
        (account_key login server)

  unfoldable pub set_account_terminal : Store → ℕ → ℤ → String → ℤ → Store
  set_account_terminal store now login server queue_index =
      insert (redis_key login server) (some queue_index, now + account_ttl) store

  -- `get_queue`: the index in the queue's name.
  unfoldable pub get_queue : ℕ → Option ℤ → ℕ
  unfolding mod_ℤ queues_count
  get_queue wanted none = 0
  get_queue wanted (some index) = mod_ℤ index (queues_count wanted)

  -- The queue of a job, by `enqueue_trades_job` and `enqueue_connect_job` alike.
  unfoldable pub enqueue_job : ℕ → Store → ℕ → ℤ → String → ℕ
  unfolding get_queue get_queue_index_for_account
  enqueue_job wanted store now login server =
      get_queue wanted (some (pos (get_queue_index_for_account wanted store now login server)))

  -- The binding after a job that succeeded: `MT5_QUEUE_INDEX` is missing, or what `int` makes of it.
  unfoldable pub remember : Store → ℕ → ℤ → String → Option (Option ℤ) → Store
  unfolding set_account_terminal
  remember store now login server (some (some index)) =
      set_account_terminal store now login server index
  remember store now login server _ = store

  pub record ConnectResponse : Type 0 where
    pub is_ok : Bool
    pub deals_count : ℕ

  module _ {D : Type 0} where
    -- `run_trades_sync`, with what `fetch_deals` returns or raises.
    unfoldable pub run_trades_sync :
        Store → ℕ → ℤ → String → Option (Option ℤ) → Result (List D) → Store × Result (List D)
    unfolding remember
    run_trades_sync store now login server queue_index (raise e) = (store, raise e)
    run_trades_sync store now login server queue_index (ok deals) =
        (remember store now login server queue_index, ok deals)

    -- `run_test_connect`; a failed connection, `connection_failed`, is its answer.
    unfoldable pub run_test_connect :
        (Error → Bool)
        → Store
        → ℕ
        → ℤ
        → String
        → Option (Option ℤ)
        → Result (List D)
        → Store × Result ConnectResponse
    unfolding remember
    run_test_connect is_connection store now login server queue_index (ok deals) = (
      remember store now login server queue_index,
      ok record { is_ok = true; deals_count = length deals },
    )
    run_test_connect is_connection store now login server queue_index (raise e) =
        if is_connection e
        then (store, ok record { is_ok = false; deals_count = 0 })
        else (store, raise e)

  -- A job that a worker has run: its account, the worker's `MT5_QUEUE_INDEX`, when it ended and how.
  pub record Job (D : Type 0) : Type 0 where
    pub login : ℤ
    pub server : String
    pub queue_index : Option (Option ℤ)
    pub ended : ℕ
    pub outcome : Result (List D)

  module _ {D : Type 0} where
    abbrev pub after_job : Job D → Store → Store
    after_job j store = (run_trades_sync store j.ended j.login j.server j.queue_index j.outcome).0

    abbrev pub after_jobs : List (Job D) → Store → Store
    after_jobs [] store = store
    after_jobs (j ∷ jobs) store = after_jobs jobs (after_job j store)

    -- The job has failed, or its worker has no queue index, or its account has another key.
    abbrev pub IsOther : ℤ → String → Job D → Type 0
    IsOther login server j =
        ((e : Error) × (j.outcome ≡ raise e))
        ⊎ ((j.queue_index ≡ none)
            ⊎ ((redis_key j.login j.server == redis_key login server) ≡ false))
