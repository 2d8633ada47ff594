-- ===== src/Inventory/Reports/Checks.antt =====
-- How a collection of the inventory ends once the checks after the catalogue's first reading begin.
use tradetrack_mt5_server.Prelude.{
  ℕ, ◌≡◌, inl, inr, String, Bool, true, false, Option, some, List, ◌∷◌, ◌==◌, ==_sound, text_key,
  Result, ok, raise, Error, arith, refl, sym, ap, subst, Bool-cases,
}
use tradetrack_mt5_server.Prelude.Actions.{◌>>=◌, pure, throw, writes, after}
use tradetrack_mt5_server.Inventory.Processes.{Process, same_identity}
use tradetrack_mt5_server.Inventory.Reports.{
  Cached, identified, fingerprinted, clock_read, listed, Log, Outside, World, ask, attempt,
  starting_snapshot, identify, clock, fingerprint, forget, report_error, conclude, check_again,
  after_dialog, read_dialog,
}
use tradetrack_mt5_server.Inventory.Reports.Evidence.{
  IsStart, IsReadAt, IsRead, Evidenced, IsJustified, Ends, at_log, cons-Evidenced, remove-Evidenced,
  insert-Evidenced, same_identity_sound,
}

module _ (o : Outside) (key : String) where
  pub error-Ends :
      (p : Process) (code : String) (w : World)
      → Evidenced w
      → Ends key (report_error o key p code w)
  unfolding report_error identify ask ◌>>=◌ pure throw
  error-Ends p code w good =
      let i = o.process_identity w.log p.0 in
      elim (Bool-cases (same_identity i p.1)) [
        | inl same ↦ rw same (cons-Evidenced w (identified p.0 i) w.log good, inl refl)
        | inr other ↦ rw other (cons-Evidenced w (identified p.0 i) w.log good, tt)
      ]

  -- The end of the checks without a new row: `just` says why the names are justified.
  pub checked-Ends :
      (p : Process) (build : ℕ) (hash : String) (inspect_ui : Bool) (names : List String)
      (hash_again : String) (log : Log) (w : World)
      → Evidenced (at_log w log)
      → (hash_again ≡ hash
          → (i : Option String) → i ≡ some p.1
          → IsJustified key
              (ok (starting_snapshot p hash names inspect_ui))
              (identified p.0 i ∷ fingerprinted (ok hash_again) ∷ log))
      → Ends key (
          conclude o key p build hash inspect_ui false names hash_again
            (at_log w (fingerprinted (ok hash_again) ∷ log)))
  unfolding conclude identify forget writes ask ◌>>=◌ pure throw
  checked-Ends p build hash inspect_ui names hash_again log w good just =
      let log1 : Log = fingerprinted (ok hash_again) ∷ log in
      let good1 = cons-Evidenced w (fingerprinted (ok hash_again)) log good in
      let i = o.process_identity log1 p.0 in
      let good2 = cons-Evidenced w (identified p.0 i) log1 good1 in
      elim (Bool-cases (hash_again == hash)) [
        | inr other ↦ rw other (remove-Evidenced key (at_log w log1) good1, tt)
        | inl same ↦ rw same (elim (Bool-cases (same_identity i p.1)) [
          | inr gone ↦ rw gone (remove-Evidenced key (at_log w (identified p.0 i ∷ log1)) good2, tt)
          | inl here ↦
              rw here
                (good2, just (==_sound hash_again hash same) i (same_identity_sound i p.1 here))
        ])
      ]

  -- The end of the checks after a dialog.
  pub fresh-Ends :
      (p : Process) (build : ℕ) (hash : String) (names : List String) (hash_again : String)
      (log : Log) (w : World)
      → Evidenced (at_log w (listed key p (ok names) ∷ log))
      → IsStart hash build log
      → Ends key (
          conclude o key p build hash true true names hash_again
            (at_log w (fingerprinted (ok hash_again) ∷ listed key p (ok names) ∷ log)))
  unfolding conclude identify clock forget writes ask ◌>>=◌ pure throw
  fresh-Ends p build hash names hash_again log w good start =
      let log0 : Log = listed key p (ok names) ∷ log in
      let log1 : Log = fingerprinted (ok hash_again) ∷ log0 in
      let good1 = cons-Evidenced w (fingerprinted (ok hash_again)) log0 good in
      let i = o.process_identity log1 p.0 in
      let log2 : Log = identified p.0 i ∷ log1 in
      let good2 = cons-Evidenced w (identified p.0 i) log1 good1 in
      let now = o.clock log2 in
      let log3 : Log = clock_read now ∷ log2 in
      let good3 = cons-Evidenced w (clock_read now) log2 good2 in
      let new : Cached = record {
        identity = p.1;
        hash = hash;
        build = build;
        names = names;
        verified_at = now;
      } in
      elim (Bool-cases (hash_again == hash)) [
        | inr other ↦ rw other (remove-Evidenced key (at_log w log1) good1, tt)
        | inl same ↦ rw same (elim (Bool-cases (same_identity i p.1)) [
          | inr gone ↦ rw gone (remove-Evidenced key (at_log w log2) good2, tt)
          | inl here ↦
              let e = same_identity_sound i p.1 here in
              let h = ==_sound hash_again hash same in
              let read : IsRead key new log3 = inl (
                subst
                  (λ x.
                    IsReadAt key new
                      (clock_read now ∷ identified p.0 x ∷ fingerprinted (ok hash_again) ∷ log0))
                  (sym e) (refl, refl, refl, refl, h, refl, refl, start)) in
              rw here (
                insert-Evidenced key new (at_log w log3) good3 read,
                inr (
                  p,
                  new,
                  now,
                  refl,
                  refl,
                  refl,
                  refl,
                  read,
                  refl,
                  omega arith,
                  omega arith,
                  (refl, e, ap ok h),
                ),
              )
        ])
      ]

  pub again-Ends :
      (p : Process) (build : ℕ) (hash : String) (inspect_ui fresh : Bool) (names : List String)
      (r : Result String) (log : Log) (w : World)
      → Evidenced (at_log w log)
      → ((hash_again : String)
          → Ends key (
              conclude o key p build hash inspect_ui fresh names hash_again
                (at_log w (fingerprinted (ok hash_again) ∷ log))))
      → Ends key (
          after r
            (λ hash_again. conclude o key p build hash inspect_ui fresh names hash_again)
            (at_log w (fingerprinted r ∷ log)))
  again-Ends p build hash inspect_ui fresh names (ok h) log w good ends = ends h
  again-Ends p build hash inspect_ui fresh names (raise e) log w good ends =
      (cons-Evidenced w (fingerprinted (raise e)) log good, tt)

  -- From the dialog's answer on.
  pub dialog-Ends :
      (p : Process) (build : ℕ) (hash : String) (r : Result (List String)) (log : Log) (w : World)
      → Evidenced (at_log w log)
      → IsStart hash build log
      → Ends key (after_dialog o key p build hash r (at_log w (listed key p r ∷ log)))
  unfolding after_dialog check_again fingerprint attempt forget writes throw ◌>>=◌
  dialog-Ends p build hash (ok names) log w good start =
      let good1 = cons-Evidenced w (listed key p (ok names)) log good in
      again-Ends p build hash true true names (o.fingerprint (listed key p (ok names) ∷ log)) _ w
        good1 (λ h. fresh-Ends p build hash names h log w good1 start)
  dialog-Ends p build hash (raise (Error.inventory_error code)) log w good start =
      error-Ends p code _ (
        remove-Evidenced key (at_log w (listed key p (raise (Error.inventory_error code)) ∷ log))
          (cons-Evidenced w _ log good))
  dialog-Ends p build hash (raise (Error.agent_error c)) log w good start =
      (cons-Evidenced w _ log good, tt)
  dialog-Ends p build hash (raise (Error.collection_error c)) log w good start =
      (cons-Evidenced w _ log good, tt)
  dialog-Ends p build hash (raise (Error.data_error c f)) log w good start =
      (cons-Evidenced w _ log good, tt)
  dialog-Ends p build hash (raise Error.os_error) log w good start =
      (cons-Evidenced w _ log good, tt)
  dialog-Ends p build hash (raise Error.other) log w good start = (cons-Evidenced w _ log good, tt)

  pub read-Ends :
      (p : Process) (build : ℕ) (hash : String) (log : Log) (w : World)
      → Evidenced (at_log w log)
      → IsStart hash build log
      → Ends key (read_dialog o key p build hash (at_log w log))
  unfolding read_dialog ask ◌>>=◌
  read-Ends p build hash log w good start =
      dialog-Ends p build hash (o.visible_servers log p) log w good start
