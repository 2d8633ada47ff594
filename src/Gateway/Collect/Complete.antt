-- ===== src/Gateway/Collect/Complete.antt =====
-- What a collection that completes has read, and how one ends that does not.
use tradetrack_mt5_server.Prelude.{
  ℕ, ◌+◌, ◌≡◌, ◌≤◌, Bool, true, false, Option, List, length, ltb, Result, ok, raise, Error, arith,
  refl,
}
use tradetrack_mt5_server.Prelude.Actions.{
  ◌>>=◌, pure, throw, reads, catch, finally, after, rescued,
}
use tradetrack_mt5_server.Contracts.{HistoryWindow, start_ms}
use tradetrack_mt5_server.Normalization.{
  RawDeal, RawPosition, RawAccountSnapshot, normalize_account,
}
use tradetrack_mt5_server.Normalization.Deals.{Records}
use tradetrack_mt5_server.Normalization.Positions.{normalize_positions}
use tradetrack_mt5_server.Gateway.Identity.{Account, Gate}
use tradetrack_mt5_server.Gateway.Window.{Request, is_login}
use tradetrack_mt5_server.Gateway.Collect.{
  checked, positions_read, shut, Log, Outside, State, Batch, attempt, yields, mapped, clean_up,
  check_identity, warm_up, read_final, look_older, read_positions, batch_of, make_batch,
  collect_window, collect_open, guarded, collect,
}
use tradetrack_mt5_server.Gateway.Collect.Steps.{
  Good, Gives, Then, throw-Gives, yields-Gives, ask-Gives, any-Gives, if-Gives, weaken-Gives,
  given-Gives, some-Gives, bind-Gives,
}
use tradetrack_mt5_server.Gateway.Collect.Reads.{
  IsWarm, IsFinal, IsOlder, IsComplete, warm_up-IsWarm, read_final-IsFinal, look_older-IsOlder,
  identity-Gives,
}

module _ (o : Outside) (r : Request) where
  positions-Gives :
      (L : Log → Type 0)
      → Gives L (read_positions o r) (λ ps log.
        (a : Records) × ((normalize_positions o.str a 5000 ≡ ok ps)
          × Then (positions_read a) L log))
  unfolding read_positions
  positions-Gives L =
      let M : List RawPosition → Log → Type 0 = λ ps log.
        (a : Records) × ((normalize_positions o.str a 5000 ≡ ok ps)
          × Then (positions_read a) L log) in
      bind-Gives _ _ (λ a. Then (positions_read a) L) M
        (ask-Gives (λ log. o.positions log) (λ a. positions_read a))
        (λ a.
          weaken-Gives _ _ M (yields-Gives (normalize_positions o.str a 5000))
            (λ ps log (e, t). (a, (e, t))))

  -- A batch with the parts that it was made of.
  batch-Gives :
      (L : Log → Type 0) (w : HistoryWindow) (floor : ℕ) (older : Option Bool)
      (deals : List RawDeal) (positions : List RawPosition) (account : RawAccountSnapshot)
      (N : Batch → Log → Type 0)
      → ((g : Gate) (log : Log)
          → length deals + length positions ≤ 5000
          → L log
          → N (batch_of o r w floor older deals positions account g) log)
      → Gives L (make_batch o r w floor older deals positions account) N
  unfolding make_batch reads pure ◌>>=◌
  batch-Gives L w floor older deals positions account N made =
      if-Gives (ltb 5000 (length deals + length positions)) _ _ N (λ long. throw-Gives _ N)
        (λ short. record { at = λ s l. made s.gate s.log (ground arith) l })

  collect_window-IsComplete :
      (w : HistoryWindow) (floor : ℕ)
      → Gives (λ log. Unit) (collect_window o r w floor) (IsComplete o r)
  unfolding collect_window
  collect_window-IsComplete w floor =
      bind-Gives (warm_up o r w) _ (λ u. (IsWarm o r)) (IsComplete o r)
        ((warm_up-IsWarm o r) (λ log. Unit) w)
        (λ u.
          bind-Gives (read_final o r w) _ (λ deals. (IsFinal o r) w deals) (IsComplete o r)
            ((read_final-IsFinal o r) w)
            (λ deals.
              bind-Gives (look_older o r w) _ (λ x. (IsOlder o r) w x ((IsFinal o r) w deals))
                (IsComplete o r) ((look_older-IsOlder o r) ((IsFinal o r) w deals) w)
                (λ older.
                  bind-Gives (check_identity o r) _
                    (λ a. Then (checked (ok a)) ((IsOlder o r) w older ((IsFinal o r) w deals)))
                    (IsComplete o r)
                    ((identity-Gives o r) ((IsOlder o r) w older ((IsFinal o r) w deals)))
                    (λ earlier. rest deals older earlier))))
    where
      rest :
          (deals : List RawDeal) (older : Option Bool) (earlier : Account)
          → Gives
              (Then (checked (ok earlier)) ((IsOlder o r) w older ((IsFinal o r) w deals)))
              (read_positions o r >>= λ positions. check_identity o r >>= λ a.
                yields (normalize_account o.str o.is_space o.is_invisible (o.row_of a))
                >>= λ account. make_batch o r w floor older deals positions account)
              (IsComplete o r)
      rest deals older earlier =
          let L0 : Log → Type 0 =
            Then (checked (ok earlier)) ((IsOlder o r) w older ((IsFinal o r) w deals)) in
          bind-Gives (read_positions o r) _
            (λ ps log.
              (a : Records) × ((normalize_positions o.str a 5000 ≡ ok ps)
                × Then (positions_read a) L0 log))
            (IsComplete o r) (positions-Gives L0)
            (λ ps.
              some-Gives
                (λ a log.
                  (normalize_positions o.str a 5000 ≡ ok ps) × Then (positions_read a) L0 log)
                _ (IsComplete o r)
                (λ read.
                  given-Gives (normalize_positions o.str read 5000 ≡ ok ps) _ (IsComplete o r) (λ e.
                    bind-Gives (check_identity o r) _
                      (λ a. Then (checked (ok a)) (Then (positions_read read) L0)) (IsComplete o r)
                      ((identity-Gives o r) (Then (positions_read read) L0))
                      (λ a.
                        bind-Gives _ _
                          (λ x log.
                            (normalize_account o.str o.is_space o.is_invisible (o.row_of a) ≡ ok x)
                            × Then (checked (ok a)) (Then (positions_read read) L0) log)
                          (IsComplete o r)
                          (yields-Gives
                            (normalize_account o.str o.is_space o.is_invisible (o.row_of a)))
                          (λ account. given-Gives _ _ (IsComplete o r) (λ e'.
                            batch-Gives _ w floor older deals ps account (IsComplete o r)
                              (λ g log small t. (a, earlier, read, e, e', small, t))))))))

  collect_open-IsComplete : Gives (λ log. Unit) (collect_open o r) (IsComplete o r)
  unfolding collect_open
  collect_open-IsComplete =
      bind-Gives _ _ (λ a log. Unit) (IsComplete o r) (any-Gives _)
        (λ a.
          bind-Gives _ _ (λ now log. Unit) (IsComplete o r) (any-Gives _)
            (λ now.
              bind-Gives _ _ (λ planned log. Unit) (IsComplete o r) (any-Gives _)
                (λ planned.
                  bind-Gives _ _ (λ w log. Unit) (IsComplete o r) (any-Gives _)
                    (λ w. collect_window-IsComplete w (start_ms planned)))))

  -- An error that leaves the gateway: none of those that the `except` clauses name.
  abbrev pub IsReported : Error → Type 0
  IsReported (Error.data_error code field) = ⊥
  IsReported (Error.inventory_error code) = ⊥
  IsReported Error.os_error = ⊥
  IsReported _ = Unit

  mapped-IsReported : (e : Error) → IsReported (mapped e)
  unfolding mapped
  mapped-IsReported (Error.data_error code field) = tt
  mapped-IsReported (Error.inventory_error code) = tt
  mapped-IsReported (Error.agent_error code) = tt
  mapped-IsReported (Error.collection_error code) = tt
  mapped-IsReported Error.os_error = tt
  mapped-IsReported Error.other = tt

  abbrev pub IsResult : Result Batch → Log → Type 0
  IsResult (ok b) log = (IsComplete o r) b log
  IsResult (raise e) log = IsReported e

  -- How a collection ends: the password is gone, and the shutdown is the last call.
  abbrev pub Ends : Result Batch × State → Type 0
  Ends (result, s) = (s.has_password ≡ false) × Then shut (IsResult result) s.log

  guarded-Ends : (s : State) → Ends (guarded o r s)
  unfolding guarded finally catch throw
  guarded-Ends s =
      ended (collect_open o r s).0 (collect_open o r s).1 (collect_open-IsComplete.at s tt)
    where
      ended :
          (x : Result Batch) (s : State)
          → Good (IsComplete o r) (x, s)
          → Ends (
            (rescued x (λ e. throw (mapped e)) s).0,
            clean_up (rescued x (λ e. throw (mapped e)) s).1,
          )
      ended (ok b) s good = (refl, (s.log, refl, good))
      ended (raise e) s good = (refl, (s.log, refl, mapped-IsReported e))

  validated-Ends :
      (x : Result (Unit {0})) (s : State) → x ≡ ok tt → Ends (after x (λ u. guarded o r) s)
  validated-Ends (ok u) s e = guarded-Ends s
  validated-Ends (raise y) s e = cc

  -- A collection whose request has a login of the pattern and paths that are accepted ends, whatever
  -- MetaTrader, Windows and the clocks answer, with the password gone and the shutdown as its last
  -- call. If it raises, then none of the errors that the gateway must translate. If it returns a batch,
  -- the calls before the shutdown are, from the last one: a passed identity, whose account is the
  -- batch's; the read of the positions, normalized in the batch; a passed identity; the counts that
  -- decide whether older history is empty; a read of the window's deals, normalized in the batch,
  -- between two counts of the window that equal its length, where the library can count; and the
  -- record of the clock, after a passed identity. Deals and positions are at most 5000 together.
  pub collect-Ends :
      (s : State) → is_login r.login ≡ true → o.validate s.log ≡ ok tt → Ends (collect o r s)
  unfolding collect attempt ◌>>=◌
  collect-Ends s login valid = rw login (validated-Ends (o.validate s.log) _ valid)
