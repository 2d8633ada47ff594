-- ===== src/Recovery/Sound/Launches.antt =====
-- The steps of the recovery of an update that stop no process keep a transcript sound.
use tradetrack_mt5_server.Prelude.{ℕ, ◌≡◌, inr, String, List, [], ◌∷◌, text_key, subst, sym}
use tradetrack_mt5_server.Prelude.Actions.{
  Action, ◌>>=◌, ◌>>◌, pure, throw, reads, writes, finally, catch, after, rescued, Keeps,
  bind-Keeps, if-Keeps, after-Keeps, pure-Keeps, throw-Keeps, reads-Keeps, finally-Keeps,
  catch-Keeps, keeps_rules,
}
use tradetrack_mt5_server.Recovery.{
  Signature, files_held, folder_tested, folder_made, moved, file_tested, Log, Outside, World, OfLog,
  ask, attempt, ask-Keeps, attempt-Keeps, with_lock,
}
use tradetrack_mt5_server.Recovery.Terminals.{Origin}
use tradetrack_mt5_server.Recovery.Updates.{
  Folder, find, fingerprint, monotonic, wall_clock, any_visible, observe_blocked_update, move_all,
  archive_held, archive_orphan, recover_orphaned_update,
}
use tradetrack_mt5_server.Recovery.Sound.{Absent, Sound}

-- A sound transcript in which the terminal does not run.
abbrev pub Idle : String → String → List Origin → Log → Type 0
Idle slot terminal origins log = Sound slot terminal origins log × Absent terminal log

module _ (o : Outside) (slot terminal : String) (origins : List Origin) where
  abbrev Safe : World → Type 0
  Safe = OfLog (Idle slot terminal origins)

  pub writes-Keeps : (f : World → World) → ((w : World) → (f w).log ≡ w.log) → Keeps Safe (writes f)
  unfolding writes
  writes-Keeps f same = record { at = λ w p. subst (Idle slot terminal origins) (sym (same w)) p }

  pub find-Keeps : (p : String) → Keeps Safe (find o p)
  unfolding find
  find-Keeps p = attempt-Keeps {P = Idle slot terminal origins} _ _ (λ r log (s, a). (s, inr a))

  pub fingerprint-Keeps : (p : String) → Keeps Safe (fingerprint o p)
  unfolding fingerprint
  fingerprint-Keeps p = attempt-Keeps {P = Idle slot terminal origins} _ _ (λ r log s. s)

  pub monotonic-Keeps : Keeps Safe (monotonic o)
  unfolding monotonic
  monotonic-Keeps = ask-Keeps {P = Idle slot terminal origins} _ _ (λ r log s. s)

  pub wall_clock-Keeps : Keeps Safe (wall_clock o)
  unfolding wall_clock
  wall_clock-Keeps = ask-Keeps {P = Idle slot terminal origins} _ _ (λ r log s. s)

  pub any_visible-Keeps : (pid : ℕ) → Keeps Safe (any_visible o pid)
  unfolding any_visible
  any_visible-Keeps pid = ask-Keeps {P = Idle slot terminal origins} _ _ (λ r log s. s)

  pub observe-Keeps :
      (executable : String) (folder : Folder) (reason : String)
      → Keeps Safe (observe_blocked_update o executable folder reason)
  unfolding observe_blocked_update
  observe-Keeps executable folder reason =
      search (keeps_rules, fingerprint-Keeps, monotonic-Keeps, writes-Keeps) depth 16

  pub lock-Keeps :
      {A : Type 0} (path : String) (body : Action World A)
      → Keeps Safe body
      → Keeps Safe (with_lock o path body)
  unfolding with_lock
  lock-Keeps path body keeps =
      bind-Keeps _ _ (attempt-Keeps {P = Idle slot terminal origins} _ _ (λ r log s. s))
        (λ u. finally-Keeps body _ keeps (λ w s. s))

  pub move-Keeps :
      (path : String) → Keeps Safe (attempt (λ log. o.move log path) (λ r. moved path r))
  move-Keeps path = attempt-Keeps {P = Idle slot terminal origins} _ _ (λ r log s. s)

  pub make-Keeps :
      (path : String) → Keeps Safe (attempt (λ log. o.make_folder log path) (λ r. folder_made r))
  make-Keeps path = attempt-Keeps {P = Idle slot terminal origins} _ _ (λ r log s. s)

  pub free-Keeps :
      (path : String)
      → Keeps Safe (ask (λ log. o.destination_is_free log path) (λ b. folder_tested b))
  free-Keeps path = ask-Keeps {P = Idle slot terminal origins} _ _ (λ r log s. s)

  pub hold-Keeps :
      (s : Signature) → Keeps Safe (ask (λ log. o.hold_files log s) (λ b. files_held b))
  hold-Keeps s = ask-Keeps {P = Idle slot terminal origins} _ _ (λ r log s. s)

  pub exists-Keeps :
      (path : String) → Keeps Safe (attempt (λ log. o.exists log path) (λ r. file_tested path r))
  exists-Keeps path = attempt-Keeps {P = Idle slot terminal origins} _ _ (λ r log s. s)

  pub move_all-Keeps : (paths : List String) → Keeps Safe (move_all o paths)
  unfolding move_all
  move_all-Keeps [] = pure-Keeps tt
  move_all-Keeps (path ∷ paths) = bind-Keeps _ _ (move-Keeps path) (λ u. move_all-Keeps paths)

  pub ruleset update_rules = (
    keeps_rules, find-Keeps, fingerprint-Keeps, monotonic-Keeps, wall_clock-Keeps,
    any_visible-Keeps, writes-Keeps, observe-Keeps, lock-Keeps, move-Keeps, make-Keeps, free-Keeps,
    hold-Keeps, exists-Keeps, move_all-Keeps,
  )

  archive_held-Keeps :
      (executable updater : String) (folder : Folder) (signature : Signature) (files : List String)
      → Keeps Safe (archive_held o executable updater folder signature files)
  unfolding archive_held
  archive_held-Keeps executable updater folder signature files = search update_rules depth 30

  archive_orphan-Keeps :
      (executable updater : String) (folder : Folder) (signature : Signature) (files : List String)
      → Keeps Safe (archive_orphan o executable updater folder signature files)
  unfolding archive_orphan
  archive_orphan-Keeps executable updater folder signature files =
      search (update_rules, archive_held-Keeps) depth 30

  pub orphaned-Keeps :
      (files : Signature → Signature) (executable updater : String) (folder : Folder)
      → Keeps Safe (recover_orphaned_update o files executable updater folder)
  unfolding recover_orphaned_update
  orphaned-Keeps files executable updater folder =
      search (update_rules, archive_orphan-Keeps) depth 30
