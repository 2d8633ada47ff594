-- ===== src/Recovery/Terminals.antt =====
-- Starting and stopping a terminal: app/collector/server_preparation.py down to `close_terminal`,
-- and app/collector/quarantine_recovery.py.
use tradetrack_mt5_server.Prelude.{
  ℕ, zero, suc, ◌+◌, String, Bool, true, false, not, ◌&&◌, ◌||◌, Option, none, some, List, [], ◌∷◌,
  ltb, nat_beq, if◌then◌else◌, ◌==◌, text_key, Result, ok, raise, Error,
}
use tradetrack_mt5_server.Prelude.Actions.{Action, ◌>>=◌, ◌>>◌, pure, throw, catch, choose}
use tradetrack_mt5_server.Throttle.{seconds}
use tradetrack_mt5_server.RestartBudget.{reserve_restart}
use tradetrack_mt5_server.Recovery.{
  Signature, Process, identified, config_read, reserved, clock_read, file_tested, marker_read,
  marker_written, launched, close_posted, dialogs_seen, update_deferred, Outside, World, ask,
  attempt, with_lock,
}
use tradetrack_mt5_server.Recovery.Updates.{
  Folder, inventory, is_some, is_identity, find, terminate_verified, observe_blocked_update,
  recover_orphaned_update, recover_stalled_update,
}

-- A folder below `MetaQuotes/Terminal`: whether it is a link, whether its `origin.txt` names this
-- terminal's folder (which may be unreadable), its updater, and whether files are staged in it.
pub record Origin : Type 0 where
  pub is_link : Bool
  pub names_terminal : Result Bool
  pub updater : String
  pub folder : Folder
  pub has_files : Result Bool

abbrev pub is_os_error : Error → Bool
is_os_error Error.os_error = true
is_os_error _ = false

abbrev pub is_ambiguous : Error → Bool
is_ambiguous (Error.inventory_error code) = code == "AMBIGUOUS_TERMINAL_PROCESS"
is_ambiguous _ = false

abbrev pub lift : {A : Type 0} → Result A → Action World A
lift (ok a) = pure a
lift (raise e) = throw e

-- The answers of `recover_quarantined`.
pub data Recovered : Type 0 where
  healthy replacement_pending_report update_pending restarted : Recovered

module _ (o : Outside) (files : Signature → Signature) where
  -- One turn of the loop in `update_running`: `none` is its `continue`, an answer its `return`.
  unfoldable pub inspect_updater : String → Origin → Option Process → Action World (Option Bool)
  inspect_updater executable origin (some process) =
      catch
        (with_lock o executable
            (recover_stalled_update o executable origin.updater origin.folder process)
          >>= λ done. pure (if done then none else some true))
        (λ e. if is_os_error e then pure (some true) else throw e)
  inspect_updater executable origin none =
      attempt (λ log. o.exists log origin.updater) (λ r. file_tested origin.updater r) >>= λ there.
      if not there
      then pure none
      else with_lock o executable
          (recover_orphaned_update o files executable origin.updater origin.folder)
        >>= λ done.
            if done
            then pure none
            else observe_blocked_update o executable origin.folder "UPDATE_PROCESS_UNVERIFIED"
              >> pure (some true)

  unfoldable pub inspect_origin : String → Origin → Action World (Option Bool)
  unfolding inspect_updater
  inspect_origin executable origin =
      if origin.is_link
      then throw (inventory "UPDATE_PATH_UNSAFE")
      else lift origin.names_terminal >>= λ mine.
          if mine
          then (find o origin.updater >>= λ process. inspect_updater executable origin process)
          else pure none

  unfoldable pub inspect_safely : String → Origin → Action World (Option Bool)
  unfolding inspect_origin
  inspect_safely executable origin =
      catch (inspect_origin executable origin)
        (λ e. if is_os_error e || is_ambiguous e then pure (some true) else throw e)

  unfoldable pub update_running : String → List Origin → Action World Bool
  update_running executable [] = pure false
  update_running executable (origin ∷ origins) = inspect_safely executable origin >>= λ answer.
      choose answer (update_running executable origins) pure

  unfoldable pub wall_time : Action World ℕ
  wall_time = ask (λ log. o.wall log) (λ t. clock_read t)

  abbrev pub budget_unavailable : {A : Type 0} → Error → Action World A
  budget_unavailable e = throw (inventory "RECOVERY_BUDGET_UNAVAILABLE")

  abbrev pub is_launched_lately : ℕ → Option ℕ → Bool
  is_launched_lately now none = false
  is_launched_lately now (some previous) = ltb now (previous + seconds 60)

  -- The `try` block of `_launch_terminal`: whether the launch may go on.
  unfoldable pub mark_launch : ℕ → Action World Bool
  mark_launch now = attempt (λ log. o.read_marker log) (λ r. marker_read r) >>= λ previous.
      if is_launched_lately now previous
      then pure false
      else attempt (λ log. o.write_marker log now) (λ r. marker_written now r) >> pure true

  unfoldable pub launch_terminal : String → Action World Bool
  unfolding mark_launch
  launch_terminal executable = wall_time >>= λ now.
      catch (mark_launch now) budget_unavailable >>= λ may.
      if not may
      then pure false
      else attempt (λ log. o.launch log executable) (λ r. launched executable r) >> pure true

  -- Whether the terminal runs or was launched; `origins` are the folders that the glob gives.
  unfoldable pub start_terminal : String → List Origin → Action World Bool
  unfolding update_running launch_terminal
  start_terminal executable origins = with_lock o executable (
      find o executable >>= λ process.
      if is_some process
      then pure true
      else update_running executable origins >>= λ updating.
          if updating then pure false else launch_terminal executable)

  -- `reserve_restart` on the durable table.
  unfoldable pub reserve_at : String → String → ℕ → Action World (Unit {0})
  reserve_at executable identity now w =
      let (table, r) =
        reserve_restart (o.budget_available w.log) w.attempts executable identity now in
      (r, record w { attempts = table; log = reserved executable identity r ∷ w.log })

  unfoldable pub reserve : String → String → Action World (Unit {0})
  unfolding reserve_at
  reserve executable identity = wall_time >>= λ now. reserve_at executable identity now

  -- The slot's `quarantineIdentity` in the API's answer to `/config`.
  unfoldable pub quarantine : String → Action World (Option String)
  quarantine slot = attempt (λ log. o.quarantine_identity log slot) (λ r. config_read slot r)

  unfoldable pub stop_found : String → String → Option Process → Action World (Unit {0})
  unfolding reserve terminate_verified
  stop_found executable identity none = pure tt
  stop_found executable identity (some process) =
      if not (process.1 == identity)
      then throw (inventory "TERMINAL_CHANGED")
      else reserve executable identity >> terminate_verified o executable process.0 identity

  unfoldable pub stop_fenced_terminal : String → String → String → Action World (Unit {0})
  unfolding quarantine stop_found
  stop_fenced_terminal executable identity slot = quarantine slot >>= λ fenced.
      if identity == "" || not (is_identity fenced identity)
      then throw (inventory "TERMINAL_CHANGED")
      else find o executable >>= λ process. stop_found executable identity process

  unfoldable pub staged_update_exists : List Origin → Bool
  staged_update_exists [] = false
  staged_update_exists (origin ∷ origins) = elim origin.names_terminal [
    | raise e ↦ true
    | ok false ↦ staged_update_exists origins
    | ok true ↦ elim origin.has_files [ raise e ↦ true | ok b ↦ b || staged_update_exists origins ]
  ]

  abbrev pub see_dialogs : ℕ → Action World (ℕ × ℕ)
  see_dialogs pid =
      ask (λ log. (o.main_windows log pid, o.visible_dialogs log pid))
        (λ seen. dialogs_seen pid seen.0 seen.1)

  unfoldable pub last_look : String → Action World (Unit {0})
  last_look executable = find o executable >>= λ process.
      if is_some process then throw (inventory "TERMINAL_STOP_TIMEOUT") else pure tt

  -- The wait for the process to end, over the polls before its deadline.
  unfoldable pub await_exit : ℕ → String → Action World (Unit {0})
  unfolding last_look
  await_exit zero executable = last_look executable
  await_exit (suc polls) executable = find o executable >>= λ process. elim (is_some process) [
    | true ↦ await_exit polls executable
    | false ↦ last_look executable
  ]

  unfoldable pub close_found : ℕ → String → Process → Action World (Unit {0})
  unfolding await_exit reserve
  close_found polls executable process =
      reserve executable process.1 >> see_dialogs process.0 >>= λ first.
      (if nat_beq first.0 1 && nat_beq first.1 1
        then attempt (λ log. o.defer_live_update log process.0) (λ r. update_deferred process.0 r)
        else pure tt)
      >> see_dialogs process.0
      >>= λ second.
          if not (nat_beq first.0 1) || not (nat_beq second.1 0)
          then throw (inventory "TERMINAL_UI_BUSY")
          else ask (λ log. o.process_identity log process.0 executable)
              (λ i. identified process.0 executable i)
            >>= λ current.
                if not (is_identity current process.1)
                then throw (inventory "TERMINAL_CHANGED")
                else ask (λ log. tt) (λ u. close_posted process.0) >> await_exit polls executable

  unfoldable pub close_terminal : ℕ → String → List Origin → Action World (Unit {0})
  unfolding close_found staged_update_exists
  close_terminal polls executable origins = find o executable >>= λ process.
      choose process (pure tt) (λ p.
        if staged_update_exists origins
        then throw (inventory "UPDATE_MAINTENANCE_REQUIRED")
        else close_found polls executable p)

  abbrev pub is_other : Option Process → String → Bool
  is_other none identity = false
  is_other (some process) identity = not (process.1 == identity)

  unfoldable pub recover_fenced : String → String → List Origin → String → Action World Recovered
  unfolding stop_fenced_terminal start_terminal
  recover_fenced executable slot origins identity = find o executable >>= λ process.
      if is_other process identity
      then pure replacement_pending_report
      else (if is_some process then stop_fenced_terminal executable identity slot else pure tt)
        >> start_terminal executable origins
        >>= λ started. if started then pure restarted else pure update_pending

  unfoldable pub recover_quarantined : String → String → List Origin → Action World Recovered
  unfolding recover_fenced quarantine
  recover_quarantined executable slot origins = with_lock o executable (
      quarantine slot >>= λ fenced. choose fenced (pure healthy) (λ identity.
        if identity == "" then pure healthy else recover_fenced executable slot origins identity))
