-- ===== src/Recovery/Sound/Stalls.antt =====
-- The stop of a stalled updater (app/collector/update_recovery.py) keeps a transcript sound: the
-- entries just before it are the ones that allow it.
use tradetrack_mt5_server.Prelude.{
  ◌≡◌, inl, inr, String, Bool, true, false, not, nat_beq_iff, Option, none, some, List, ◌∷◌, Any,
  if◌then◌else◌, ==_sound, text_key, Result, ok, raise, subst, sym, refl, ap, arith, Bool-cases,
}
use tradetrack_mt5_server.Prelude.Actions.{◌>>=◌, pure, throw, writes, after, Keeps, after-Keeps}
use tradetrack_mt5_server.Recovery.{
  Signature, Process, found, windows_listed, fingerprinted, folder_tested, Log, Outside, World,
  OfLog, ask, attempt,
}
use tradetrack_mt5_server.Recovery.Terminals.{Origin}
use tradetrack_mt5_server.Recovery.Updates.{
  find, fingerprint, any_visible, terminate_verified, archive_stalled, same_signature, is_some,
  is_process, stop_free, stop_unchanged, is_unchanged, stop_stalled, recover_stalled_update,
}
use tradetrack_mt5_server.Recovery.Sound.{
  Sound, IsStalled, Allowed, terminate-Sound, terminate-Absent,
}
use tradetrack_mt5_server.Recovery.Sound.Launches.{Idle, update_rules}

is_process_sound :
    (again : Option Process) (process : Process)
    → is_process again process ≡ true
    → again ≡ some process
is_process_sound none process h = cc
is_process_sound (some (pid, i)) process h =
    let number : pid ≡ process.0 = (nat_beq_iff pid process.0).0 (ground arith) in
    let identity : i ≡ process.1 = ==_sound i process.1 (ground arith) in rw (number, identity)

module _ (o : Outside) (slot terminal : String) (origins : List Origin) (origin : Origin)
    (member : Any (λ x. origin ≡ x) origins) (mine : origin.names_terminal ≡ ok true)
    (process : Process) where
  abbrev Safe : World → Type 0
  Safe = OfLog (Idle slot terminal origins)

  abbrev Ready : Log → Type 0
  Ready = IsStalled terminal origin.updater process.0 process.1 origin.folder.path

  archive-Keeps : Keeps Safe (archive_stalled o origin.folder)
  unfolding archive_stalled
  archive-Keeps = search update_rules depth 30

  after_free :
      (free : Bool) (w : World)
      → Safe w
      → (free ≡ true → Ready w.log)
      → Safe (stop_free o origin.updater origin.folder process free w).1
  unfolding stop_free throw ◌>>=◌
  after_free false w safe ready = safe
  after_free true w (s, a) ready =
      let stopped : Allowed slot terminal origins origin.updater process.0 process.1 w.log =
        inr (record {
          origin = origin;
          is_origin = member;
          is_mine = mine;
          is_updater = refl;
          is_stalled = ready refl;
        }) in
      let safe : Safe (terminate_verified o origin.updater process.0 process.1 w).1 = (
        terminate-Sound o slot terminal origins origin.updater process.0 process.1 w s stopped,
        terminate-Absent o slot terminal origins terminal origin.updater process.0 process.1 w a,
      ) in
      let outcome = terminate_verified o origin.updater process.0 process.1 w in
      (after-Keeps outcome.0 _ (λ u. archive-Keeps)).at outcome.1 safe

  after_unchanged :
      (unchanged : Bool) (w : World)
      → Safe w
      → (unchanged ≡ true → Ready (folder_tested true ∷ w.log))
      → Safe (stop_unchanged o origin.updater origin.folder process unchanged w).1
  unfolding stop_unchanged writes pure ask ◌>>=◌
  after_unchanged false w safe ready = safe
  after_unchanged true w safe ready =
      let free = o.destination_is_free w.log origin.folder.path in
      after_free free (record w { log = folder_tested free ∷ w.log }) safe
        (λ e. subst (λ b. Ready (folder_tested b ∷ w.log)) (sym e) (ready refl))

  -- From the answer of `fingerprint` on.
  after_fingerprint :
      (signature : Signature) (r : Result Signature) (w : World)
      → Safe w
      → ((s : Signature)
          → Ready (folder_tested true ∷ fingerprinted origin.folder.path (ok s) ∷ w.log))
      → Safe
          (after
            (after r
              (λ s. pure (same_signature s signature))
              (record w { log = fingerprinted origin.folder.path r ∷ w.log })).0
            (stop_unchanged o origin.updater origin.folder process)
            (after r
              (λ s. pure (same_signature s signature))
              (record w { log = fingerprinted origin.folder.path r ∷ w.log })).1).1
  unfolding pure
  after_fingerprint signature (raise e) w safe ready = safe
  after_fingerprint signature (ok s) w safe ready =
      after_unchanged (same_signature s signature)
        (record w { log = fingerprinted origin.folder.path (ok s) ∷ w.log }) safe (λ e. ready s)

  after_visible :
      (signature : Signature) (visible : Bool) (w : World)
      → Safe w
      → ((s : Signature)
          → Ready (
              folder_tested true
              ∷ fingerprinted origin.folder.path (ok s)
              ∷ windows_listed process.0 false
              ∷ w.log))
      → Safe
          ((is_unchanged o origin.folder signature visible >>= λ unchanged.
              stop_unchanged o origin.updater origin.folder process unchanged)
            (record w { log = windows_listed process.0 visible ∷ w.log })).1
  unfolding is_unchanged fingerprint attempt pure ◌>>=◌
  after_visible signature true w safe ready =
      after_unchanged false (record w { log = windows_listed process.0 true ∷ w.log }) safe
        (λ e. absurd (let x : true ≡ false = sym e in cc))
  after_visible signature false w safe ready =
      let w1 : World = record w { log = windows_listed process.0 false ∷ w.log } in
      let r = o.fingerprint w1.log origin.folder.path in after_fingerprint signature r w1 safe ready

  -- From the answer of the search for the updater on.
  after_again :
      (signature : Signature) (r : Result (Option Process)) (w : World)
      → Sound slot terminal origins w.log
      → Safe
          (after r
            (λ again.
              if not (is_process again process)
              then pure false
              else any_visible o process.0 >>= λ visible.
                  is_unchanged o origin.folder signature visible >>= λ unchanged.
                  stop_unchanged o origin.updater origin.folder process unchanged)
            (record w { log = found origin.updater r ∷ found terminal (ok none) ∷ w.log })).1
  unfolding any_visible ask pure ◌>>=◌
  after_again signature (raise e) w s = (s, inr (inl (refl, tt)))
  after_again signature (ok again) w s = elim (Bool-cases (is_process again process)) [
    | inr other ↦ rw other (s, inr (inl (refl, tt)))
    | inl same ↦
        let log1 : Log = found origin.updater (ok again) ∷ found terminal (ok none) ∷ w.log in
        rw same (
          after_visible signature (o.any_visible log1 process.0) (record w { log = log1 })
            (s, inr (inl (refl, tt)))
            (λ s. (
              refl,
              refl,
              tt,
              refl,
              refl,
              refl,
              ap ok (is_process_sound again process same),
              refl,
              refl,
            )))
  ]

  after_terminal :
      (signature : Signature) (r : Result (Option Process)) (w : World)
      → Safe w
      → Safe
          (after r
            (λ found.
              if is_some found
              then pure false
              else find o origin.updater >>= λ again.
                  if not (is_process again process)
                  then pure false
                  else any_visible o process.0 >>= λ visible.
                      is_unchanged o origin.folder signature visible >>= λ unchanged.
                      stop_unchanged o origin.updater origin.folder process unchanged)
            (record w { log = found terminal r ∷ w.log })).1
  unfolding find attempt pure ◌>>=◌
  after_terminal signature (raise e) w (s, a) = (s, inr a)
  after_terminal signature (ok (some p)) w (s, a) = (s, inr a)
  after_terminal signature (ok none) w (s, a) =
      after_again signature (o.find_process (found terminal (ok none) ∷ w.log) origin.updater) w s

  stop_stalled-Keeps :
      (signature : Signature)
      → Keeps Safe (stop_stalled o terminal origin.updater origin.folder process signature)
  unfolding stop_stalled
  stop_stalled-Keeps signature = record {
    at = λ w safe.
        unfold find attempt ◌>>=◌ in
        after_terminal signature (o.find_process w.log terminal) w safe;
  }

  pub stalled-Keeps :
      Keeps Safe (recover_stalled_update o terminal origin.updater origin.folder process)
  unfolding recover_stalled_update
  stalled-Keeps = search (update_rules, stop_stalled-Keeps) depth 30
