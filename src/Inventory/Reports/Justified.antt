-- ===== src/Inventory/Reports/Justified.antt =====
-- Each name that a report calls inspected was shown by a login dialog of the same process.
use tradetrack_mt5_server.Prelude.{
  ℕ, ◌≡◌, inl, inr, String, Bool, true, false, Option, none, some, [], ◌∷◌, text_key, lookup,
  Result, ok, raise, arith, refl, sym, ap, subst, Bool-cases,
}
use tradetrack_mt5_server.Prelude.Actions.{◌>>=◌, pure, reads, after}
use tradetrack_mt5_server.Inventory.Processes.{Process}
use tradetrack_mt5_server.Inventory.Reports.{
  Cached, validated, found, build_read, fingerprinted, clock_read, Log, Outside, World, ask,
  attempt, is_recent, is_same, supported, clock, fingerprint, check_again, use_cached, look_up,
  collect_servers, collect_build, collect_process, collect_inventory,
}
use tradetrack_mt5_server.Inventory.Reports.Evidence.{
  IsStart, IsRead, Evidenced, IsJustified, Ends, at_log, cons-Evidenced, same-parts, recent-parts,
}
use tradetrack_mt5_server.Inventory.Reports.Checks.{error-Ends, checked-Ends, again-Ends, read-Ends}

module _ (o : Outside) (key : String) where
  -- With a row for the same process, catalogue and build, and the clock.
  cached-Ends :
      (p : Process) (build : ℕ) (hash : String) (c : Cached) (now : ℕ) (log : Log) (w : World)
      → Evidenced (at_log w log)
      → IsRead key c log
      → is_same p.1 hash build c ≡ true
      → IsStart hash build (clock_read now ∷ log)
      → Ends key (use_cached o key p build hash c now (at_log w (clock_read now ∷ log)))
  unfolding use_cached check_again fingerprint attempt ◌>>=◌
  cached-Ends p build hash c now log w good read same start1 =
      let log1 : Log = clock_read now ∷ log in
      let good1 = cons-Evidenced w (clock_read now) log good in
      elim (Bool-cases (is_recent now c)) [
        | inr old ↦ rw old (read-Ends o key p build hash log1 w good1 start1)
        | inl recent ↦
            let (same_process, same_hash) = same-parts p.1 hash build c same in
            let (past, young) = recent-parts now c recent in
            rw recent (
              again-Ends o key p build hash true false c.names (o.fingerprint log1) log1 w good1
                (λ h. checked-Ends o key p build hash true c.names h log1 w good1 (λ eq i e. inr (
                  p,
                  c,
                  now,
                  refl,
                  ap some (sym same_hash),
                  refl,
                  sym same_process,
                  inr (inr (inr read)),
                  refl,
                  past,
                  young,
                  (refl, e, ap ok (subst (λ x. h ≡ x) (sym same_hash) eq)),
                ))))
      ]

  -- With the row of the cache. `log` is what the look-up follows.
  look_up-Ends :
      (p : Process) (build : ℕ) (hash : String) (cached : Option Cached) (log : Log) (w : World)
      → Evidenced (at_log w (fingerprinted (ok hash) ∷ build_read (some build) ∷ log))
      → lookup key w.cache ≡ cached
      → Ends key (
          look_up o key p build hash cached
            (at_log w (fingerprinted (ok hash) ∷ build_read (some build) ∷ log)))
  unfolding look_up clock ask ◌>>=◌
  look_up-Ends p build hash none log w good held =
      read-Ends o key p build hash _ w good (refl, refl)
  look_up-Ends p build hash (some c) log w good held =
      let log1 : Log = fingerprinted (ok hash) ∷ build_read (some build) ∷ log in
      elim (Bool-cases (is_same p.1 hash build c)) [
        | inr other ↦ rw other (read-Ends o key p build hash log1 w good (refl, refl))
        | inl same ↦ rw same (
            cached-Ends p build hash c (o.clock log1) log1 w good (good.row key c held) same
              (refl, refl))
      ]

  servers-Ends :
      (p : Process) (build : ℕ) (inspect_ui : Bool) (hash : String) (log : Log) (w : World)
      → Evidenced (at_log w (fingerprinted (ok hash) ∷ build_read (some build) ∷ log))
      → Ends key (
          collect_servers o key p build inspect_ui hash
            (at_log w (fingerprinted (ok hash) ∷ build_read (some build) ∷ log)))
  unfolding collect_servers reads check_again fingerprint attempt ◌>>=◌
  servers-Ends p build true hash log w good =
      look_up-Ends p build hash (lookup key w.cache) log w good refl
  servers-Ends p build false hash log w good =
      let log1 : Log = fingerprinted (ok hash) ∷ build_read (some build) ∷ log in
      again-Ends o key p build hash false false [] (o.fingerprint log1) log1 w good
        (λ h. checked-Ends o key p build hash false [] h log1 w good (λ eq i e. inl refl))

  hashed-Ends :
      (p : Process) (build : ℕ) (inspect_ui : Bool) (r : Result String) (log : Log) (w : World)
      → Evidenced (at_log w (build_read (some build) ∷ log))
      → Ends key (
          after r
            (λ hash. collect_servers o key p build inspect_ui hash)
            (at_log w (fingerprinted r ∷ build_read (some build) ∷ log)))
  hashed-Ends p build inspect_ui (raise e) log w good = (cons-Evidenced w _ _ good, tt)
  hashed-Ends p build inspect_ui (ok hash) log w good =
      servers-Ends p build inspect_ui hash log w
        (cons-Evidenced w (fingerprinted (ok hash)) (build_read (some build) ∷ log) good)

  -- A verified build is the one that was read.
  supported-same : (read : Option ℕ) (build : ℕ) → supported read ≡ some build → read ≡ some build
  unfolding supported
  supported-same none build h = cc
  supported-same (some b) build h = ground arith

  build-Ends :
      (p : Process) (inspect_ui : Bool) (read b : Option ℕ) (log : Log) (w : World)
      → Evidenced (at_log w (build_read read ∷ log))
      → (((build : ℕ) → b ≡ some build → read ≡ some build))
      → Ends key (collect_build o key p inspect_ui read b (at_log w (build_read read ∷ log)))
  unfolding collect_build fingerprint attempt ◌>>=◌
  build-Ends p inspect_ui read none log w good same = error-Ends o key p _ _ good
  build-Ends p inspect_ui read (some build) log w good same =
      let e = same build refl in
      subst
        (λ x.
          Evidenced (at_log w (build_read x ∷ log))
          → Ends key
              (collect_build o key p inspect_ui x (some build) (at_log w (build_read x ∷ log))))
        (sym e)
        (λ g.
          hashed-Ends p build inspect_ui (o.fingerprint (build_read (some build) ∷ log)) log w g)
        good

  process-Ends :
      (inspect_ui : Bool) (p : Option Process) (log : Log) (w : World)
      → Evidenced (at_log w log)
      → Ends key (collect_process o key inspect_ui p (at_log w log))
  unfolding collect_process ask ◌>>=◌ pure
  process-Ends inspect_ui none log w good = (good, inl refl)
  process-Ends inspect_ui (some p) log w good =
      let read = o.terminal_build log in
      build-Ends p inspect_ui read (supported read) log w
        (cons-Evidenced w (build_read read) log good) (λ build h. supported-same read build h)

  found-Ends :
      (inspect_ui : Bool) (r : Result (Option Process)) (log : Log) (w : World)
      → Evidenced (at_log w log)
      → Ends key (after r (λ p. collect_process o key inspect_ui p) (at_log w (found r ∷ log)))
  found-Ends inspect_ui (raise e) log w good = (cons-Evidenced w _ log good, tt)
  found-Ends inspect_ui (ok p) log w good =
      process-Ends inspect_ui p (found (ok p) ∷ log) w (cons-Evidenced w (found (ok p)) log good)

  validated-Ends :
      (inspect_ui : Bool) (r : Result (Unit {0})) (w : World)
      → Evidenced w
      → Ends key (
          after r
            (λ u. attempt (λ log. o.find_process log) (λ r. found r) >>= λ p.
              collect_process o key inspect_ui p)
            (at_log w (validated r ∷ w.log)))
  unfolding attempt ◌>>=◌
  validated-Ends inspect_ui (raise e) w good = (cons-Evidenced w _ w.log good, tt)
  validated-Ends inspect_ui (ok u) w good =
      found-Ends inspect_ui (o.find_process (validated (ok u) ∷ w.log)) (validated (ok u) ∷ w.log) w
        (cons-Evidenced w (validated (ok u)) w.log good)

  -- Whatever Windows, the file and the dialogs answer: `collect_inventory` keeps each row of its cache
  -- to what a login dialog of that process, with that build, has shown, between two readings of the
  -- same catalogue and before the process was seen to be the same. A snapshot with the servers of a
  -- login dialog has the names of such a row for its own process and catalogue, whose reading is less
  -- than 300 seconds before the clock's last one, and both are seen again at the end.
  pub collect_inventory-IsJustified :
      (inspect_ui : Bool) (w : World)
      → Evidenced w
      → Evidenced (collect_inventory o key inspect_ui w).1
        × IsJustified key
            (collect_inventory o key inspect_ui w).0
            (collect_inventory o key inspect_ui w).1.log
  unfolding collect_inventory attempt ◌>>=◌
  collect_inventory-IsJustified inspect_ui w good =
      unfold attempt ◌>>=◌ in validated-Ends inspect_ui (o.validate w.log) w good
