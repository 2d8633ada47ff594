-- ===== src/Recovery/Updates.antt =====
-- app/collector/update_recovery.py: when an update that has stalled is moved out of the way.
use tradetrack_mt5_server.Prelude.{
  ℕ, ◌+◌, ◌*◌, String, Bool, true, false, not, ◌&&◌, ◌||◌, Option, none, some, List, [], ◌∷◌, ◌++◌,
  ltb, leb, nat_beq, if◌then◌else◌, ◌==◌, text_key, lookup, insert, remove, Error,
}
use tradetrack_mt5_server.Prelude.Actions.{
  Action, ◌>>=◌, ◌>>◌, pure, throw, reads, writes, finally, choose,
}
use tradetrack_mt5_server.Throttle.{seconds}
use tradetrack_mt5_server.Recovery.{
  Signature, Process, found, identified, opened, timed, terminated, handle_closed, windows_listed,
  fingerprinted, clock_read, files_held, files_released, folder_tested, folder_made, moved, Outside,
  World, ask, attempt, note,
}

abbrev pub inventory : String → Error
inventory code = Error.inventory_error code

-- The folder of an updater: its path, whether its name is `liveupdate`, whether it is a link.
pub record Folder : Type 0 where
  pub path : String
  pub is_named : Bool
  pub is_link : Bool

abbrev pub stall_seconds : ℕ
stall_seconds = 600

unfoldable pub same_signature : Signature → Signature → Bool
same_signature [] [] = true
same_signature (a ∷ s) (b ∷ t) =
    a.path == b.path && nat_beq a.size b.size && nat_beq a.mtime b.mtime && same_signature s t
same_signature _ _ = false

abbrev pub is_some : {A : Type 0} → Option A → Bool
is_some none = false
is_some (some a) = true

-- `find_process(path) != (pid, identity)`.
abbrev pub is_process : Option Process → Process → Bool
is_process none p = false
is_process (some q) p = nat_beq q.0 p.0 && q.1 == p.1

abbrev pub is_identity : Option String → String → Bool
is_identity none t = false
is_identity (some s) t = s == t

-- Some file changed less than ten minutes ago; the wall clock and the stamps are nanoseconds.
unfoldable pub any_recent : ℕ → Signature → Bool
any_recent now [] = false
any_recent now (s ∷ rest) = ltb now (s.mtime + stall_seconds * 1000000000) || any_recent now rest

-- What an observation of a key says: it is new or about other files, or it is this old.
unfoldable pub age_of : Option (Signature × ℕ) → Signature → Option ℕ
unfolding same_signature
age_of none s = none
age_of (some seen) s = if same_signature seen.0 s then some seen.1 else none

module _ (o : Outside) where
  unfoldable pub find : String → Action World (Option Process)
  find path = attempt (λ log. o.find_process log path) (λ r. found path r)

  unfoldable pub fingerprint : String → Action World Signature
  fingerprint folder = attempt (λ log. o.fingerprint log folder) (λ r. fingerprinted folder r)

  unfoldable pub monotonic : Action World ℕ
  monotonic = ask (λ log. o.monotonic log) (λ t. clock_read t)

  unfoldable pub wall_clock : Action World ℕ
  wall_clock = ask (λ log. o.nanoseconds log) (λ t. clock_read t)

  unfoldable pub any_visible : ℕ → Action World Bool
  any_visible pid = ask (λ log. o.any_visible log pid) (λ b. windows_listed pid b)

  -- The block below the open handle.
  unfoldable pub terminate_open : String → ℕ → String → Action World (Unit {0})
  terminate_open path pid identity = do
    held ← ask (λ log. o.process_times log pid) (λ t. timed pid t)
    if not (is_some held)
        then throw (inventory "UPDATE_PROCESS_UNAVAILABLE")
        else if not (is_identity held identity)
        then throw (inventory "TERMINAL_CHANGED")
        else ask (λ log. o.process_identity log pid path) (λ i. identified pid path i)
          >>= λ current.
              if not (is_identity current identity)
              then throw (inventory "TERMINAL_CHANGED")
              else ask (λ log. o.terminate log pid) (λ b. terminated path pid identity b)
                >>= λ done. if done then pure tt else throw (inventory "UPDATE_STOP_FAILED")

  unfoldable pub terminate_verified : String → ℕ → String → Action World (Unit {0})
  unfolding terminate_open
  terminate_verified path pid identity = do
    is_open ← ask (λ log. o.open_process log pid) (λ b. opened pid b)
    if is_open
        then finally (terminate_open path pid identity) (note (handle_closed pid))
        else throw (inventory "UPDATE_PROCESS_UNAVAILABLE")

  -- A prompt or an unknown process that persists is raised, ten minutes after it was first seen.
  unfoldable pub observe_blocked_update : String → Folder → String → Action World (Unit {0})
  unfolding age_of
  observe_blocked_update executable folder reason = do
    signature ← fingerprint folder.path
    now ← monotonic
    seen ← reads (λ w. age_of (lookup executable w.blocked) signature)
    choose seen (writes (λ w. record w { blocked = insert executable (signature, now) w.blocked }))
        (λ first.
          if leb (first + seconds stall_seconds) now then throw (inventory reason) else pure tt)

  -- The package's files, the updater itself last.
  unfoldable pub but_updater : String → Signature → List String
  but_updater updater [] = []
  but_updater updater (s ∷ rest) =
      if s.path == updater then but_updater updater rest else s.path ∷ but_updater updater rest

  unfoldable pub only_updater : String → Signature → List String
  only_updater updater [] = []
  only_updater updater (s ∷ rest) =
      if s.path == updater then s.path ∷ only_updater updater rest else only_updater updater rest

  unfoldable pub move_all : List String → Action World (Unit {0})
  move_all [] = pure tt
  move_all (path ∷ rest) = attempt (λ log. o.move log path) (λ r. moved path r) >> move_all rest

  -- Below `with exclusive_update_files`: the last look, and the archival.
  unfoldable pub archive_held :
      String → String → Folder → Signature → List String → Action World Bool
  unfolding same_signature
  archive_held executable updater folder signature files = do
    terminal ← find executable
    if is_some terminal
        then pure false
        else find updater >>= λ other.
            if is_some other
            then pure false
            else fingerprint folder.path >>= λ again.
                if not (same_signature again signature)
                then pure false
                else attempt (λ log. o.make_folder log folder.path) (λ r. folder_made r)
                  >> move_all files
                  >> pure true

  abbrev pub forget_orphan : String → World → World
  forget_orphan key w = record w { orphans = remove key w.orphans }

  unfoldable pub archive_orphan :
      String → String → Folder → Signature → List String → Action World Bool
  unfolding archive_held
  archive_orphan executable updater folder signature files = do
    free ← ask (λ log. o.destination_is_free log folder.path) (λ b. folder_tested b)
    if not free
        then throw (inventory "UPDATE_PATH_UNSAFE")
        else ask (λ log. o.hold_files log signature) (λ b. files_held b) >>= λ held.
            if not held
            then throw (inventory "UPDATE_FILES_BUSY")
            else finally (archive_held executable updater folder signature files)
                (note files_released)
              >>= λ done.
                  if done
                  then writes (λ w. record w {
                    orphans = remove folder.path w.orphans;
                    blocked = remove executable w.blocked;
                  })
                    >> pure true
                  else pure false

  -- `files` is the part of the signature below the folder, in the signature's order.
  unfoldable pub recover_orphaned_update :
      (Signature → Signature) → String → String → Folder → Action World Bool
  unfolding age_of any_recent archive_orphan but_updater only_updater
  recover_orphaned_update files executable updater folder =
      if not folder.is_named || folder.is_link
      then throw (inventory "UPDATE_PATH_UNSAFE")
      else find executable >>= λ terminal.
          (if is_some terminal then pure true else find updater >>= λ other. pure (is_some other))
          >>= λ running.
              if running
              then writes (forget_orphan folder.path) >> pure false
              else fingerprint folder.path >>= λ signature. monotonic >>= λ now.
                  reads (λ w. age_of (lookup folder.path w.orphans) signature) >>= λ seen.
                  choose seen
                    (writes
                        (λ w. record w { orphans = insert folder.path (signature, now) w.orphans })
                      >> pure false)
                    (λ first.
                      if ltb now (first + seconds 60)
                      then pure false
                      else wall_clock >>= λ wall.
                          if any_recent wall signature
                          then pure false
                          else archive_orphan executable updater folder signature (
                              but_updater updater (files signature)
                              ++ only_updater updater (files signature)))

  abbrev pub stalled_age : Option ((String × Signature) × ℕ) → String → Signature → Option ℕ
  stalled_age none identity s = none
  stalled_age (some seen) identity s =
      if seen.0.0 == identity && same_signature seen.0.1 s then some seen.1 else none

  abbrev pub forget_stall : String → World → World
  forget_stall key w = record w { observations = remove key w.observations }

  unfoldable pub archive_stalled : Folder → Action World Bool
  archive_stalled folder =
      attempt (λ log. o.move log folder.path) (λ r. moved folder.path r)
      >> writes (forget_stall folder.path)
      >> pure true

  -- The stop of the updater and the archival of its folder, if the new name is free.
  unfoldable pub stop_free : String → Folder → Process → Bool → Action World Bool
  unfolding terminate_verified archive_stalled
  stop_free updater folder process free =
      if not free
      then throw (inventory "UPDATE_PATH_UNSAFE")
      else terminate_verified updater process.0 process.1 >> archive_stalled folder

  unfoldable pub stop_unchanged : String → Folder → Process → Bool → Action World Bool
  unfolding stop_free
  stop_unchanged updater folder process unchanged =
      if not unchanged
      then writes (forget_stall folder.path) >> pure false
      else ask (λ log. o.destination_is_free log folder.path) (λ b. folder_tested b) >>= λ free.
          stop_free updater folder process free

  -- No window is visible and the files are still the same.
  unfoldable pub is_unchanged : Folder → Signature → Bool → Action World Bool
  unfolding same_signature
  is_unchanged folder signature visible =
      if visible
      then pure false
      else fingerprint folder.path >>= λ s. pure (same_signature s signature)

  -- The last looks before the updater is stopped.
  unfoldable pub stop_stalled : String → String → Folder → Process → Signature → Action World Bool
  unfolding stop_unchanged is_unchanged
  stop_stalled executable updater folder process signature = do
    terminal ← find executable
    if is_some terminal
        then pure false
        else find updater >>= λ again.
            if not (is_process again process)
            then pure false
            else any_visible process.0 >>= λ visible.
                is_unchanged folder signature visible >>= λ unchanged.
                stop_unchanged updater folder process unchanged

  unfoldable pub recover_stalled_update : String → String → Folder → Process → Action World Bool
  unfolding stop_stalled observe_blocked_update
  recover_stalled_update executable updater folder process =
      if not folder.is_named
      then throw (inventory "UPDATE_PATH_UNSAFE")
      else find executable >>= λ terminal.
          if is_some terminal
          then writes (forget_stall folder.path) >> pure false
          else any_visible process.0 >>= λ visible.
              if visible
              then writes (forget_stall folder.path)
                >> observe_blocked_update executable folder "UPDATE_REQUIRES_ATTENTION"
                >> pure false
              else fingerprint folder.path >>= λ signature. monotonic >>= λ now.
                  reads (λ w. stalled_age (lookup folder.path w.observations) process.1 signature)
                  >>= λ seen.
                      choose seen
                        (writes (λ w. record w {
                          observations =
                              insert folder.path ((process.1, signature), now) w.observations;
                        })
                          >> pure false)
                        (λ first.
                          if ltb now (first + seconds stall_seconds)
                          then pure false
                          else stop_stalled executable updater folder process signature)
