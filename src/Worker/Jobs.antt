-- ===== src/Worker/Jobs.antt =====
-- app/collector/worker.py, `SlotWorker.once`: one lease, from the claim to `/complete` or `/fail`.
use tradetrack_mt5_server.Prelude.{
  ℕ, ◌+◌, ◌-◌, String, Bool, true, false, not, ◌||◌, some, ltb, leb, if◌then◌else◌, ◌==◌, text_key,
}
use tradetrack_mt5_server.Prelude.Actions.{◌>>=◌, ◌>>◌, pure, throw, reads, writes, choose}
use tradetrack_mt5_server.Throttle.{seconds}
use tradetrack_mt5_server.Worker.{
  Process, Job, Claim, no_job, malformed, job, ChildResult, failure, collection, identified,
  fingerprinted, claimed, credentials_read, wall_read, child_ran, failed, completed, Outside,
  Outcome, idle, maintenance_required, catalogue_changed, job_failed, collected, Act, ask, attempt,
  agent, is_text, is_due, clock, find, with_lock, forget_inspection, prepare_inventory,
}
use tradetrack_mt5_server.Worker.Child.{run_child}

abbrev pub is_process_error : String → Bool
is_process_error code =
    code == "CHILD_TIMEOUT"
    || code == "CHILD_FAILED"
    || code == "IDENTITY_DRIFT"
    || code == "TERMINAL_CHANGED"
    || code == "TERMINAL_IPC_UNAVAILABLE"

-- `min(125, remaining - 35)`, the remaining time of the lease being at least 40 seconds.
abbrev pub child_timeout : ℕ → ℕ → ℕ
child_timeout now lease_until =
    let rest = lease_until - now - seconds 35 in
    if leb (seconds 125) rest then seconds 125 else rest

module _ (o : Outside) where
  unfoldable pub wall : Act ℕ
  wall = ask (λ log. o.wall log) (λ t. wall_read t)

  unfoldable pub fail : String → String → Act (Unit {0})
  fail id code = attempt (λ log. o.fail log code) (λ r. failed id code r)

  unfoldable pub quarantine : String → Act Outcome
  quarantine identity =
      writes (λ w. record w { restart_identity = some identity })
      >> throw (agent "TERMINAL_QUARANTINED")

  unfoldable pub finish : Process → Job → ChildResult → Act Outcome
  unfolding fail quarantine
  finish process a (failure code) =
      fail a.id code
      >> (if is_process_error code then quarantine process.1 else pure (job_failed code))
  finish process a (collection deals positions) =
      ask (λ log. o.process_identity log process.0) (λ i. identified process.0 i) >>= λ identity.
      if not (is_text identity process.1)
      then fail a.id "TERMINAL_CHANGED" >> quarantine process.1
      else attempt (λ log. o.complete log a.id) (λ r. completed a.id r)
        >> pure (collected deals positions)

  unfoldable pub run_leased : Process → Job → ℕ → Act Outcome
  unfolding finish
  run_leased process a now =
      if ltb a.lease_until (now + seconds 40)
      then throw (agent "LEASE_DEADLINE_TOO_CLOSE")
      else attempt (λ log. (run_child (child_timeout now a.lease_until) (o.child log)).0)
          (λ r. child_ran process (child_timeout now a.lease_until) r)
        >>= λ result. finish process a result

  unfoldable pub run_claimed : Process → String → Claim → Act Outcome
  unfolding wall run_leased
  run_claimed process generation no_job = pure idle
  run_claimed process generation malformed = throw (agent "API_JOB_INVALID")
  run_claimed process generation (job a) =
      if not (a.generation == generation)
      then throw (agent "API_JOB_INVALID")
      else attempt (λ log. o.credentials log a.id) (λ r. credentials_read a.id r)
        >> (wall >>= λ now. run_leased process a now)

  unfoldable pub claim : Process → String → Act Outcome
  unfolding run_claimed
  claim process generation = attempt (λ log. o.claim log) (λ r. claimed generation r) >>= λ answer.
      run_claimed process generation answer

  unfoldable pub change_terminal : Act Outcome
  change_terminal = writes forget_inspection >> throw (agent "TERMINAL_CHANGED")

  unfoldable pub check_catalogue : Process → String → String → Act Outcome
  unfolding claim
  check_catalogue process generation hash = reads (λ w. is_text w.catalog_hash hash) >>= λ same.
      if not same
      then writes forget_inspection >> pure catalogue_changed
      else claim process generation

  unfoldable pub check_process : String → String → Process → Act Outcome
  unfolding change_terminal check_catalogue
  check_process generation identity process =
      if not (process.1 == identity)
      then change_terminal
      else attempt (λ log. o.catalogue_fingerprint log) (λ r. fingerprinted r) >>= λ hash.
          check_catalogue process generation hash

  -- What `once` does under the lock.
  unfoldable pub run_locked : String → String → Act Outcome
  unfolding find change_terminal check_process
  run_locked generation identity = find o >>= λ process.
      choose process change_terminal (λ process. check_process generation identity process)

  -- From the session on.
  unfoldable pub run_job : Act Outcome
  unfolding with_lock run_locked
  run_job = reads (λ w. o.session w.log) >>= λ session.
      with_lock o (run_locked session.generation session.process_identity)

  unfoldable pub once : Bool → Act Outcome
  unfolding prepare_inventory run_job clock
  once true = prepare_inventory o >>= λ outcome. choose outcome run_job (λ outcome. pure outcome)
  once false = clock o >>= λ now. reads (λ w. is_due now w.inspected_at (seconds 90)) >>= λ due.
      if due then pure maintenance_required else run_job
