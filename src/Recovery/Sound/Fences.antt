-- ===== src/Recovery/Sound/Fences.antt =====
-- The stop of a fenced terminal (app/collector/server_preparation.py, `stop_fenced_terminal`) keeps a
-- transcript sound.
use tradetrack_mt5_server.Prelude.{
  ℕ, ◌≡◌, inl, inr, String, not, ◌||◌, Option, none, some, List, ◌∷◌, if◌then◌else◌, ◌==◌, text_key,
  Result, ok, raise, arith, refl, Bool-cases, ap, sym, subst, ==_sound,
}
use tradetrack_mt5_server.Prelude.Actions.{◌>>=◌, pure, throw, after, Keeps}
use tradetrack_mt5_server.RestartBudget.{Attempts, reserve_restart}
use tradetrack_mt5_server.Recovery.{
  Signature, Process, found, config_read, reserved, clock_read, Log, Outside, World, OfLog, ask,
  attempt,
}
use tradetrack_mt5_server.Recovery.Updates.{inventory, is_identity, find, terminate_verified}
use tradetrack_mt5_server.Recovery.Terminals.{
  Origin, wall_time, reserve, reserve_at, quarantine, stop_found, stop_fenced_terminal,
}
use tradetrack_mt5_server.Recovery.Sound.{Sound, IsFenced, is_identity_sound, terminate-Sound}

module _ (o : Outside) (files : Signature → Signature) (slot terminal : String)
    (origins : List Origin) where
  abbrev IsSound : World → Type 0
  IsSound = OfLog (Sound slot terminal origins)

  -- The stop, from the budget's answer on.
  after_reserve :
      (identity : String) (pid : ℕ) (r : Result (Unit {0})) (w : World)
      → IsSound w
      → (r ≡ ok tt → IsFenced slot terminal pid identity (reserved terminal identity r ∷ w.log))
      → (table : Attempts)
      → IsSound
          (after r
            (λ u. terminate_verified o terminal pid identity)
            (record w { attempts = table; log = reserved terminal identity r ∷ w.log })).1
  after_reserve identity pid (raise e) w s fence table = s
  after_reserve identity pid (ok tt) w s fence table =
      terminate-Sound o slot terminal origins terminal pid identity
        (record w { attempts = table; log = reserved terminal identity (ok tt) ∷ w.log }) s
        (inl (refl, fence refl))

  -- The stop, from the answer of `find_process` on; the API has just answered the fence.
  stop_process :
      (identity : String) (process : Process) (w : World) (rest : Log)
      → IsSound w
      → w.log ≡ found terminal (ok (some process)) ∷ config_read slot (ok (some identity)) ∷ rest
      → IsSound (stop_found o files terminal identity (some process) w).1
  unfolding stop_found reserve reserve_at wall_time ask ◌>>=◌ throw
  stop_process identity process w rest s shape = elim (Bool-cases (process.1 == identity)) [
    | inl same ↦
        let log1 : Log = clock_read (o.wall w.log) ∷ w.log in
        let w1 : World = record w { log = log1 } in
        let outcome =
          reserve_restart (o.budget_available log1) w.attempts terminal identity (o.wall w.log) in
        let e : process.1 ≡ identity = ==_sound process.1 identity same in
        let fenced : outcome.1 ≡ ok tt
            → IsFenced slot terminal process.0 identity
                (reserved terminal identity outcome.1 ∷ log1) =
          (λ granted.
            subst
              (λ log.
                IsFenced slot terminal process.0 identity
                  (reserved terminal identity outcome.1 ∷ clock_read (o.wall w.log) ∷ log))
              (sym shape)
              (refl, refl, granted, refl, ap (λ i. ok (some (process.0, i))) e, refl, refl)) in
        rw same (
          unfold reserve reserve_at in
          after_reserve identity process.0 outcome.1 w1 s fenced outcome.0)
    | inr other ↦ rw other s
  ]

  stop_found-Sound :
      (identity : String) (process : Option Process) (w : World) (rest : Log)
      → IsSound w
      → w.log ≡ found terminal (ok process) ∷ config_read slot (ok (some identity)) ∷ rest
      → IsSound (stop_found o files terminal identity process w).1
  unfolding stop_found pure
  stop_found-Sound identity none w rest s shape = s
  stop_found-Sound identity (some process) w rest s shape =
      stop_process identity process w rest s shape

  after_find :
      (identity : String) (r : Result (Option Process)) (w : World) (rest : Log)
      → IsSound w
      → w.log ≡ config_read slot (ok (some identity)) ∷ rest
      → IsSound
          (after r
            (λ process. stop_found o files terminal identity process)
            (record w { log = found terminal r ∷ w.log })).1
  after_find identity (raise e) w rest s shape = s
  after_find identity (ok process) w rest s shape =
      stop_found-Sound identity process (record w { log = found terminal (ok process) ∷ w.log })
        rest s (ap (λ log. found terminal (ok process) ∷ log) shape)

  after_config :
      (identity : String) (r : Result (Option String)) (w : World)
      → IsSound w
      → IsSound
          (after r
            (λ fenced.
              if identity == "" || not (is_identity fenced identity)
              then throw (inventory "TERMINAL_CHANGED")
              else find o terminal >>= λ process. stop_found o files terminal identity process)
            (record w { log = config_read slot r ∷ w.log })).1
  unfolding throw find attempt ◌>>=◌
  after_config identity (raise e) w s = s
  after_config identity (ok fenced) w s =
      elim (Bool-cases (identity == "" || not (is_identity fenced identity))) [
        | inl other ↦ rw other s
        | inr same ↦
            let fence = is_identity_sound fenced identity (ground arith) in
            let w1 : World = record w { log = config_read slot (ok fenced) ∷ w.log } in
            rw same (
              after_find identity (o.find_process w1.log terminal) w1 w.log s
                (ap (λ x. config_read slot (ok x) ∷ w.log) fence))
      ]

  -- `stop_fenced_terminal` keeps a sound transcript sound.
  pub stop-Sound :
      (identity : String) → Keeps IsSound (stop_fenced_terminal o files terminal identity slot)
  unfolding stop_fenced_terminal quarantine
  stop-Sound identity = record {
    at =
        λ w s. unfold attempt ◌>>=◌ in after_config identity (o.quarantine_identity w.log slot) w s;
  }
