-- ===== src/Recovery/Sound.antt =====
-- What justifies each launch and each stop in a transcript, whatever the outside answers.
pub mod Fences
pub mod Launches
pub mod Stalls
pub mod Starts
use tradetrack_mt5_server.Prelude.{
  ℕ, ◌≡◌, ◌⊎◌, inl, inr, String, Bool, true, false, not, ◌||◌, Option, none, some, List, [], ◌∷◌,
  Any, if◌then◌else◌, ◌==◌, text_key, ==_sound, Result, ok, raise, Error, arith, refl, Bool-cases,
  ap,
}
use tradetrack_mt5_server.Prelude.Actions.{
  Action, ◌>>=◌, ◌>>◌, pure, throw, finally, Keeps, bind-Keeps, if-Keeps, pure-Keeps, throw-Keeps,
}
use tradetrack_mt5_server.Recovery.{
  Signature, Process, Entry, locked, unlocked, found, identified, config_read, reserved, opened,
  timed, terminated, handle_closed, windows_listed, fingerprinted, clock_read, files_held,
  files_released, folder_tested, folder_made, moved, file_tested, marker_read, marker_written,
  launched, close_posted, dialogs_seen, update_deferred, Log, Outside, World, OfLog, ask, attempt,
  ask-Keeps, attempt-Keeps, note,
}
use tradetrack_mt5_server.Recovery.Terminals.{Origin}
use tradetrack_mt5_server.Recovery.Updates.{Folder, is_identity, is_some, terminate_verified}

abbrev IsAbsent : Result (Option Process) → Type 0
IsAbsent (ok none) = Unit
IsAbsent _ = ⊥

-- `find_process` has found no process of this path since anything was launched.
abbrev pub Absent : String → Log → Type 0
Absent p [] = ⊥
Absent p (launched q r ∷ log) = ⊥
Absent p (found q r ∷ log) = ((q ≡ p) × IsAbsent r) ⊎ Absent p log
Absent p (_ ∷ log) = Absent p log

-- The entries just before the stop of a fenced terminal, newest first: the budget's grant, the clock
-- it was asked with, the sight of the process, and the fence that the API answered.
abbrev pub IsFenced : String → String → ℕ → String → Log → Type 0
IsFenced slot p pid i (reserved q j r ∷ clock_read t ∷ found s f ∷ config_read u c ∷ rest) =
    (q ≡ p)
    × (j ≡ i)
    × (r ≡ ok tt)
    × (s ≡ p)
    × (f ≡ ok (some (pid, i)))
    × (u ≡ slot)
    × (c ≡ ok (some i))
IsFenced slot p pid i _ = ⊥

abbrev pub HasFiles : Result Signature → Type 0
HasFiles (ok s) = Unit
HasFiles (raise e) = ⊥

-- The entries just before the stop of a stalled updater: the archive's name is free, the folder's
-- files were read again, no window of the process is visible, the process is at the updater's path,
-- and the terminal does not run.
abbrev pub IsStalled : String → String → ℕ → String → String → Log → Type 0
IsStalled terminal p pid i folder
      (folder_tested b ∷ fingerprinted d r ∷ windows_listed q v ∷ found s f ∷ found t g ∷ rest) =
    (b ≡ true)
    × (d ≡ folder)
    × HasFiles r
    × (q ≡ pid)
    × (v ≡ false)
    × (s ≡ p)
    × (f ≡ ok (some (pid, i)))
    × (t ≡ terminal)
    × (g ≡ ok none)
IsStalled terminal p pid i folder _ = ⊥

-- The stop of the stalled updater of a folder that names the terminal.
pub record IsUpdater (terminal : String) (origins : List Origin) (p : String) (pid : ℕ) (i : String)
    (log : Log) : Type 0 where
  pub origin : Origin
  pub is_origin : Any (λ x. origin ≡ x) origins
  pub is_mine : origin.names_terminal ≡ ok true
  pub is_updater : origin.updater ≡ p
  pub is_stalled : IsStalled terminal p pid i origin.folder.path log

-- A stop is the one of the fenced terminal, or the one of a stalled updater.
abbrev pub Allowed : String → String → List Origin → String → ℕ → String → Log → Type 0
Allowed slot terminal origins p pid i log =
    ((p ≡ terminal) × IsFenced slot p pid i log) ⊎ IsUpdater terminal origins p pid i log

-- The entries just before a stop: the path's process in the table and the process of the open handle
-- have the identity, the handle was opened, and before that the stop was allowed.
abbrev pub Verified : String → String → List Origin → String → ℕ → String → Log → Type 0
Verified slot terminal origins p pid i (identified q s x ∷ timed r y ∷ opened t b ∷ before) =
    (q ≡ pid)
    × (s ≡ p)
    × (x ≡ some i)
    × (r ≡ pid)
    × (y ≡ some i)
    × (t ≡ pid)
    × (b ≡ true)
    × Allowed slot terminal origins p pid i before
Verified slot terminal origins p pid i _ = ⊥

-- Each launch of a terminal follows a look that found none, with no launch between, and each stop
-- follows the entries that verify and allow it.
abbrev pub Sound : String → String → List Origin → Log → Type 0
Sound slot terminal origins [] = Unit
Sound slot terminal origins (launched p r ∷ log) = Absent p log × Sound slot terminal origins log
Sound slot terminal origins (terminated p pid i b ∷ log) =
    Verified slot terminal origins p pid i log × Sound slot terminal origins log
Sound slot terminal origins (_ ∷ log) = Sound slot terminal origins log

is_identity_sound : (x : Option String) (i : String) → is_identity x i ≡ true → x ≡ some i
is_identity_sound none i h = cc
is_identity_sound (some j) i h = ap some (==_sound j i h)

module _ (o : Outside) (slot terminal : String) (origins : List Origin) where
  -- The verified stop keeps a sound transcript sound, if the stop is allowed.
  pub terminate-Sound :
      (p : String) (pid : ℕ) (i : String) (w : World)
      → Sound slot terminal origins w.log
      → Allowed slot terminal origins p pid i w.log
      → Sound slot terminal origins (terminate_verified o p pid i w).1.log
  unfolding terminate_verified ask finally throw pure ◌>>=◌
  terminate-Sound p pid i w sound allowed =
      let log1 : Log = opened pid (o.open_process w.log pid) ∷ w.log in
      let log2 : Log = timed pid (o.process_times log1 pid) ∷ log1 in
      ground (
        arith,
        is_identity_sound (o.process_times log1 pid) i,
        is_identity_sound (o.process_identity log2 pid p) i,
      )

  -- An updater's stop also keeps the sight of an absent terminal.
  pub terminate-Absent :
      (q p : String) (pid : ℕ) (i : String) (w : World)
      → Absent q w.log
      → Absent q (terminate_verified o p pid i w).1.log
  unfolding terminate_verified ask finally throw pure ◌>>=◌
  terminate-Absent q p pid i w absent = ground arith
