-- ===== src/Recovery/Sound/Starts.antt =====
-- Starting a terminal and recovering a quarantined one keep a transcript sound.
use tradetrack_mt5_server.Prelude.{
  ℕ, ◌≡◌, inl, inr, String, Bool, true, false, Option, none, some, List, [], ◌∷◌, Any,
  if◌then◌else◌, text_key, Result, ok, raise, arith, refl,
}
use tradetrack_mt5_server.Prelude.Actions.{
  Action, ◌>>=◌, pure, throw, after, Keeps, bind-Keeps, choose-Keeps, if-Keeps, pure-Keeps,
  throw-Keeps, finally-Keeps, keeps_rules,
}
use tradetrack_mt5_server.Recovery.{
  Signature, Process, found, marker_read, marker_written, launched, Outside, World, OfLog, attempt,
  ask-Keeps, attempt-Keeps, with_lock,
}
use tradetrack_mt5_server.Recovery.Updates.{is_some, find}
use tradetrack_mt5_server.Recovery.Terminals.{
  Origin, lift, inspect_updater, inspect_origin, inspect_safely, update_running, wall_time,
  mark_launch, launch_terminal, start_terminal, quarantine, recover_fenced, recover_quarantined,
}
use tradetrack_mt5_server.Recovery.Sound.{Sound}
use tradetrack_mt5_server.Recovery.Sound.Launches.{Idle, find-Keeps, update_rules, orphaned-Keeps}
use tradetrack_mt5_server.Recovery.Sound.Stalls.{stalled-Keeps}
use tradetrack_mt5_server.Recovery.Sound.Fences.{stop-Sound}

module _ (o : Outside) (files : Signature → Signature) (slot terminal : String)
    (origins : List Origin) where
  abbrev Safe : World → Type 0
  Safe = OfLog (Idle slot terminal origins)

  abbrev pub IsSound : World → Type 0
  IsSound = OfLog (Sound slot terminal origins)

  lift-Keeps : {A : Type 0} (P : World → Type 0) (r : Result A) → Keeps P (lift r)
  lift-Keeps P (ok a) = pure-Keeps a
  lift-Keeps P (raise e) = throw-Keeps e

  -- What is done for a folder that names the terminal.
  named-Keeps :
      {A : Type 0} (r : Result Bool) (body missing : Action World A)
      → (r ≡ ok true → Keeps Safe body)
      → Keeps Safe missing
      → Keeps Safe (lift r >>= λ mine. if mine then body else missing)
  unfolding ◌>>=◌ pure throw
  named-Keeps (raise e) body missing h k = record { at = λ w safe. safe }
  named-Keeps (ok false) body missing h k = record { at = k.at }
  named-Keeps (ok true) body missing h k = record { at = (h refl).at }

  module _ (origin : Origin) (member : Any (λ x. origin ≡ x) origins) where
    inspect-Keeps :
        origin.names_terminal ≡ ok true
        → (process : Option Process) → Keeps Safe (inspect_updater o files terminal origin process)
    unfolding inspect_updater
    inspect-Keeps mine none = search (update_rules, orphaned-Keeps) depth 30
    inspect-Keeps mine (some process) = search (update_rules, stalled-Keeps) depth 30

    origin-Keeps : Keeps Safe (inspect_origin o files terminal origin)
    unfolding inspect_origin
    origin-Keeps =
        if-Keeps origin.is_link _ _ (λ linked. throw-Keeps _)
          (λ plain.
            named-Keeps origin.names_terminal _ _
              (λ mine.
                bind-Keeps _ _ (find-Keeps o slot terminal origins origin.updater)
                  (inspect-Keeps mine))
              (pure-Keeps none))

    safely-Keeps : Keeps Safe (inspect_safely o files terminal origin)
    unfolding inspect_safely
    safely-Keeps = search (keeps_rules, origin-Keeps) depth 30

  update-Keeps :
      (todo : List Origin)
      → ((origin : Origin) → Any (λ x. origin ≡ x) todo → Any (λ x. origin ≡ x) origins)
      → Keeps Safe (update_running o files terminal todo)
  unfolding update_running
  update-Keeps [] known = pure-Keeps false
  update-Keeps (origin ∷ todo) known =
      bind-Keeps _ _ (safely-Keeps origin (known origin (inl refl))) (λ answer.
        choose-Keeps answer _ _ (update-Keeps todo (λ x m. known x (inr m))) (λ b. pure-Keeps b))

  all-Keeps : Keeps Safe (update_running o files terminal origins)
  all-Keeps = update-Keeps origins (λ origin member. member)

  -- An action that is good from one property to another.
  record Leads {A : Type 0} (m : Action World A) : Type 0 where
    reach : (w : World) → Safe w → IsSound (m w).1

  of_Keeps : {A : Type 0} (m : Action World A) → Keeps Safe m → Leads m
  of_Keeps m k = record { reach = λ w p. (k.at w p).0 }

  after-Leads :
      {A B : Type 0} (r : Result A) (next : A → Action World B)
      → ((a : A) → Leads (next a))
      → Leads (after r next)
  after-Leads (ok a) next k = k a
  after-Leads (raise e) next k = record { reach = λ w p. p.0 }

  bind-Leads :
      {A B : Type 0} (m : Action World A) (next : A → Action World B)
      → Keeps Safe m
      → ((a : A) → Leads (next a))
      → Leads (m >>= next)
  unfolding ◌>>=◌
  bind-Leads m next k l = record {
    reach = λ w p. (after-Leads (m w).0 next l).reach (m w).1 (k.at w p);
  }

  if-Leads :
      {A : Type 0} (b : Bool) (m n : Action World A)
      → Leads m
      → Leads n
      → Leads (if b then m else n)
  if-Leads true m n h k = h
  if-Leads false m n h k = k

  wall-Keeps : Keeps Safe (wall_time o files)
  unfolding wall_time
  wall-Keeps = ask-Keeps {P = Idle slot terminal origins} _ _ (λ r log s. s)

  read_marker-Keeps : Keeps Safe (attempt (λ log. o.read_marker log) (λ r. marker_read r))
  read_marker-Keeps = attempt-Keeps {P = Idle slot terminal origins} _ _ (λ r log s. s)

  write_marker-Keeps :
      (now : ℕ) → Keeps Safe (attempt (λ log. o.write_marker log now) (λ r. marker_written now r))
  write_marker-Keeps now = attempt-Keeps {P = Idle slot terminal origins} _ _ (λ r log s. s)

  mark-Keeps : (now : ℕ) → Keeps Safe (mark_launch o files now)
  unfolding mark_launch
  mark-Keeps now = search (keeps_rules, read_marker-Keeps, write_marker-Keeps) depth 16

  launch-Leads :
      Leads (attempt (λ log. o.launch log terminal) (λ r. launched terminal r) >>= λ _. pure true)
  unfolding attempt ◌>>=◌ pure
  launch-Leads = record { reach = λ w (s, a). ground (arith) }

  launch_terminal-Leads : Leads (launch_terminal o files terminal)
  unfolding launch_terminal
  launch_terminal-Leads =
      search (keeps_rules, bind-Leads, if-Leads, of_Keeps, wall-Keeps, mark-Keeps, launch-Leads)
        depth 16

  -- What follows the look that found no process.
  start_absent-Leads : Leads (
      update_running o files terminal origins >>= λ updating.
      if updating then pure false else launch_terminal o files terminal)
  start_absent-Leads =
      search (keeps_rules, bind-Leads, if-Leads, of_Keeps, all-Keeps, launch_terminal-Leads) depth
        16

  start_found :
      (w : World) (r : Result (Option Process))
      → IsSound w
      → IsSound
          (after r
            (λ process.
              if is_some process
              then pure true
              else update_running o files terminal origins >>= λ updating.
                  if updating then pure false else launch_terminal o files terminal)
            (record w { log = found terminal r ∷ w.log })).1
  unfolding pure
  start_found w (raise e) s = s
  start_found w (ok (some p)) s = s
  start_found w (ok none) s =
      (start_absent-Leads).reach (record w { log = found terminal (ok none) ∷ w.log })
        (s, inl (refl, tt))

  with_lock-Sound :
      {A : Type 0} (path : String) (body : Action World A)
      → Keeps IsSound body
      → Keeps IsSound (with_lock o path body)
  unfolding with_lock
  with_lock-Sound path body keeps =
      bind-Keeps _ _ (attempt-Keeps {P = Sound slot terminal origins} _ _ (λ r log s. s))
        (λ u. finally-Keeps body _ keeps (λ w s. s))

  -- `start_terminal` keeps a sound transcript sound.
  pub start-Sound : Keeps IsSound (start_terminal o files terminal origins)
  unfolding start_terminal
  start-Sound = with_lock-Sound terminal _ (record {
    at = λ w s. unfold find attempt ◌>>=◌ in start_found w (o.find_process w.log terminal) s;
  })

  find-Sound : (p : String) → Keeps IsSound (find o p)
  unfolding find
  find-Sound p = attempt-Keeps {P = Sound slot terminal origins} _ _ (λ r log s. s)

  quarantine-Sound : Keeps IsSound (quarantine o files slot)
  unfolding quarantine
  quarantine-Sound = attempt-Keeps {P = Sound slot terminal origins} _ _ (λ r log s. s)

  recover_fenced-Sound :
      (identity : String) → Keeps IsSound (recover_fenced o files terminal slot origins identity)
  unfolding recover_fenced
  recover_fenced-Sound identity = search (keeps_rules, find-Sound, stop-Sound, start-Sound) depth 20

  quarantined-Keeps : Keeps IsSound (recover_quarantined o files terminal slot origins)
  unfolding recover_quarantined
  quarantined-Keeps =
      with_lock-Sound terminal _
        (search (keeps_rules, quarantine-Sound, recover_fenced-Sound) depth 20)

  -- Whatever Windows, the file system and the API answer: `recover_quarantined` adds to a
  -- transcript only launches of a terminal after a look that found none, with no launch between,
  -- and only two kinds of stops. Each follows at once the opening of the process's handle and the
  -- answers, of the handle and then of the process table, that it has the identity to be stopped.
  -- Just before that, with no other call between, either the API answered that identity as the
  -- slot's fence, the terminal was found with it, the clock was read and the restart budget
  -- granted the restart, and the terminal is what is stopped; or, for one of the given folders
  -- that names the terminal, the terminal was not found, the updater was found with that number
  -- and identity and without a visible window, the folder's files were read and the name for its
  -- archive was free, and that updater is what is stopped.
  pub recover_quarantined-Sound :
      (w : World)
      → Sound slot terminal origins w.log
      → Sound slot terminal origins (recover_quarantined o files terminal slot origins w).1.log
  recover_quarantined-Sound = quarantined-Keeps.at
