-- ===== src/Worker/Fenced.antt =====
-- What the API's job calls in a transcript of a slot worker rest on.
pub mod Once
use tradetrack_mt5_server.Prelude.{
  ℕ, ◌+◌, ◌≤◌, ◌≡◌, ◌⊎◌, inl, inr, String, Bool, true, false, not, ◌||◌, Option, none, some, List,
  [], ◌∷◌, if◌then◌else◌, ◌==◌, text_key, ==_sound, Result, ok, raise, Error, arith, ap, sym, subst,
  refl, Bool-cases, ltb, leb,
}
use tradetrack_mt5_server.Prelude.Actions.{
  Action, ◌>>=◌, ◌>>◌, pure, throw, reads, writes, finally, choose, after, Keeps, bind-Keeps,
  choose-Keeps, if-Keeps, pure-Keeps, throw-Keeps, finally-Keeps, keeps_rules,
}
use tradetrack_mt5_server.Throttle.{seconds}
use tradetrack_mt5_server.Worker.{
  Process, Job, Claim, no_job, malformed, job, ChildResult, failure, collection, Entry, clock_read,
  connected, reported, locked, unlocked, found, identified, fingerprinted, stopped, started,
  claimed, credentials_read, wall_read, child_ran, failed, completed, Log, Outside, SlotWorker,
  Outcome, Act, ask, attempt, agent, is_text, is_due, clock, find, start, report_slot,
  refresh_config, replace_fenced, restart_found, restart_fenced, restart_offline, use_report,
  inspect, maintain, Report, with_lock, forget_inspection, catalogue_changed, job_failed, collected,
  prepare_inventory,
}
use tradetrack_mt5_server.Worker.Child.{run_child}
use tradetrack_mt5_server.Worker.Jobs.{
  wall, fail, quarantine, finish, run_leased, run_claimed, claim, change_terminal, check_catalogue,
  check_process, run_locked, run_job, once, child_timeout, is_process_error,
}

-- The process was found at the slot's path, under the lock.
abbrev IsFound : Process → Log → Type 0
IsFound p (found (ok (some q)) ∷ locked (ok u) ∷ log) = q ≡ p
IsFound p _ = ⊥

-- The process was found, the catalogue read, and a job of this id claimed and granted.
abbrev IsClaimed : Process → Job → Log → Type 0
IsClaimed p a (credentials_read id (ok u) ∷ claimed g (ok (job b)) ∷ fingerprinted (ok h) ∷ log) =
    (b ≡ a) × (id ≡ a.id) × (g ≡ a.generation) × IsFound p log
IsClaimed p a _ = ⊥

-- The time for the child ends 35 seconds before the lease does, and is 125 seconds at most.
abbrev IsLeased : Process → ℕ → Log → Type 0
IsLeased p timeout (wall_read now ∷ log) =
    (timeout ≤ seconds 125)
    × (a : Job) × (now + timeout + seconds 35 ≤ a.lease_until)
    × IsClaimed p a log
IsLeased p timeout _ = ⊥

-- Only a collection of the found process is completed, once its identity has been seen again.
abbrev IsCollected : String → Log → Type 0
IsCollected id
      (identified pid i ∷ child_ran p t (ok (collection deals positions)) ∷ wall_read now ∷ log) =
    (pid ≡ p.0) × (i ≡ some p.1) × (a : Job) × (a.id ≡ id) × IsClaimed p a log
IsCollected id _ = ⊥

-- A job fails with the child's code, or because the process at the path is another one now.
abbrev IsFailure : String → String → Log → Type 0
IsFailure id code (child_ran p t (ok (failure c)) ∷ wall_read now ∷ log) =
    (code ≡ c) × (a : Job) × (a.id ≡ id) × IsClaimed p a log
IsFailure id code
      (identified pid i ∷ child_ran p t (ok (collection deals positions)) ∷ wall_read now ∷ log) =
    (code ≡ "TERMINAL_CHANGED") × (pid ≡ p.0) × (a : Job) × (a.id ≡ id) × IsClaimed p a log
IsFailure id code _ = ⊥

-- Each child, each `/complete` and each `/fail` of a transcript is justified.
abbrev pub Sound : Log → Type 0
Sound [] = Unit
Sound (child_ran p timeout r ∷ log) = IsLeased p timeout log × Sound log
Sound (completed id r ∷ log) = IsCollected id log × Sound log
Sound (failed id code r ∷ log) = IsFailure id code log × Sound log
Sound (_ ∷ log) = Sound log

is_text_sound : (x : Option String) (t : String) → is_text x t ≡ true → x ≡ some t
is_text_sound none t h = cc
is_text_sound (some s) t h = ap some (==_sound s t h)

not-false : (b : Bool) → not b ≡ false → b ≡ true
not-false true h = refl
not-false false h = cc

-- From a transcript on, an action leaves a sound one.
pub record Reaches {A : Type 0} (log : Log) (m : Act A) : Type 0 where
  pub reach : (w : SlotWorker) → Sound (m (record w { log = log })).1.log

abbrev pub IsSound : SlotWorker → Type 0
IsSound w = Sound w.log

module _ {A : Type 0} (log : Log) where
  Reaches-pure : (a : A) → Sound log → Reaches log (pure a)
  unfolding pure
  Reaches-pure a s = record { reach = λ w. s }

  Reaches-throw : (e : Error) → Sound log → Reaches {A = A} log (throw e)
  unfolding throw
  Reaches-throw e s = record { reach = λ w. s }

  Reaches-if :
      (b : Bool) (m n : Act A)
      → (b ≡ true → Reaches log m)
      → (b ≡ false → Reaches log n)
      → Reaches log (if b then m else n)
  Reaches-if true m n h k = h refl
  Reaches-if false m n h k = k refl

module _ {A B : Type 0} (log : Log) where
  Reaches-reads :
      (f : SlotWorker → A) (next : A → Act B)
      → ((a : A) → Reaches log (next a))
      → Reaches log (reads f >>= next)
  unfolding reads ◌>>=◌
  Reaches-reads f next k = record { reach = λ w. (k (f (record w { log = log }))).reach w }

  Reaches-ask :
      (answer : Log → A) (note : A → Entry) (next : A → Act B)
      → ((a : A) → Reaches (note a ∷ log) (next a))
      → Reaches log (ask answer note >>= next)
  unfolding ask ◌>>=◌
  Reaches-ask answer note next k = record { reach = λ w. (k (answer log)).reach w }

  Reaches-noted :
      (note : Result A → Entry) (next : A → Act B) (r : Result A) (w : SlotWorker)
      → Sound (note r ∷ log)
      → ((a : A) → Reaches (note (ok a) ∷ log) (next a))
      → Sound (after r next (record w { log = note r ∷ log })).1.log
  Reaches-noted note next (ok a) w s k = (k a).reach w
  Reaches-noted note next (raise e) w s k = s

  Reaches-attempt :
      (answer : Log → Result A) (note : Result A → Entry) (next : A → Act B)
      → ((r : Result A) → Sound (note r ∷ log))
      → ((a : A) → Reaches (note (ok a) ∷ log) (next a))
      → Reaches log (attempt answer note >>= next)
  unfolding attempt ◌>>=◌
  Reaches-attempt answer note next s k = record {
    reach = λ w. Reaches-noted note next (answer log) w (s (answer log)) k;
  }

module _ (o : Outside) where
  quarantine-Reaches : (log : Log) (i : String) → Sound log → Reaches log (quarantine o i)
  unfolding quarantine writes throw ◌>>=◌
  quarantine-Reaches log i s = record { reach = λ w. s }

  change-Reaches : (log : Log) → Sound log → Reaches log (change_terminal o)
  unfolding change_terminal writes throw ◌>>=◌
  change-Reaches log s = record { reach = λ w. s }

  forget-Reaches :
      (log : Log) → Sound log → Reaches log (writes forget_inspection >> pure catalogue_changed)
  unfolding writes pure ◌>>=◌
  forget-Reaches log s = record { reach = λ w. s }

  -- From the child's answer on.
  finish-Reaches :
      (p : Process) (a : Job) (r : ChildResult) (timeout now : ℕ) (log : Log)
      → IsClaimed p a log
      → Sound (child_ran p timeout (ok r) ∷ wall_read now ∷ log)
      → Reaches (child_ran p timeout (ok r) ∷ wall_read now ∷ log) (finish o p a r)
  unfolding finish fail
  finish-Reaches p a (failure code) timeout now log c s =
      Reaches-attempt _ _ _ _ (λ r. ((refl, a, refl, c), s))
        (λ u.
          Reaches-if _ (is_process_error code) (quarantine o p.1) (pure (job_failed code))
            (λ h. quarantine-Reaches _ _ ((refl, a, refl, c), s))
            (λ h. Reaches-pure _ _ ((refl, a, refl, c), s)))
  finish-Reaches p a (collection d n) timeout now log c s = Reaches-ask _ _ _ _ (λ i.
      Reaches-if _ (not (is_text i p.1)) (fail o a.id "TERMINAL_CHANGED" >> quarantine o p.1)
        (attempt (λ log. o.complete log a.id) (λ r. completed a.id r) >> pure (collected d n))
        (λ other.
          Reaches-attempt _ _ _ _ (λ r. ((refl, refl, a, refl, c), s))
            (λ u. quarantine-Reaches _ _ ((refl, refl, a, refl, c), s)))
        (λ same.
          let seen = is_text_sound i p.1 (not-false (is_text i p.1) same) in
          Reaches-attempt _ _ _ _ (λ r. ((refl, seen, a, refl, c), s))
            (λ u. Reaches-pure _ _ ((refl, seen, a, refl, c), s))))

  -- From the job on.
  run_leased-Reaches :
      (p : Process) (a : Job) (now : ℕ) (log : Log)
      → IsClaimed p a log
      → Sound log
      → Reaches (wall_read now ∷ log) (run_leased o p a now)
  unfolding run_leased
  run_leased-Reaches p a now log c s =
      Reaches-if _ (ltb a.lease_until (now + seconds 40)) (throw (agent "LEASE_DEADLINE_TOO_CLOSE"))
        (attempt (λ log. (run_child (child_timeout now a.lease_until) (o.child log)).0)
            (λ r. child_ran p (child_timeout now a.lease_until) r)
          >>= λ result. finish o p a result)
        (λ late. Reaches-throw _ _ s)
        (λ early.
          let leased : IsLeased p (child_timeout now a.lease_until) (wall_read now ∷ log) =
            (ground arith, a, ground arith, c) in
          Reaches-attempt _ _ _ _ (λ r. (leased, s))
            (λ r. finish-Reaches p a r (child_timeout now a.lease_until) now log c (leased, s)))

  run_claimed-Reaches :
      (p : Process) (g : String) (c : Claim) (h : String) (log : Log)
      → IsFound p log
      → Sound log
      → Reaches (claimed g (ok c) ∷ fingerprinted (ok h) ∷ log) (run_claimed o p g c)
  unfolding run_claimed wall
  run_claimed-Reaches p g no_job h log f s = Reaches-pure _ _ s
  run_claimed-Reaches p g malformed h log f s = Reaches-throw _ _ s
  run_claimed-Reaches p g (job a) h log f s =
      Reaches-if _ (not (a.generation == g)) (throw (agent "API_JOB_INVALID"))
        (attempt (λ log. o.credentials log a.id) (λ r. credentials_read a.id r)
          >> (wall o >>= λ now. run_leased o p a now))
        (λ other. Reaches-throw _ _ s)
        (λ same.
          Reaches-attempt _ _ _ _ (λ r. s)
            (λ u. Reaches-ask _ _ _ _ (λ now.
              run_leased-Reaches p a now _
                (refl, refl, sym (==_sound a.generation g (not-false (a.generation == g) same)), f)
                s)))

  claim-Reaches :
      (p : Process) (g h : String) (log : Log)
      → IsFound p log
      → Sound log
      → Reaches (fingerprinted (ok h) ∷ log) (claim o p g)
  unfolding claim
  claim-Reaches p g h log f s =
      Reaches-attempt _ _ _ _ (λ r. s) (λ c. run_claimed-Reaches p g c h log f s)

  catalogue-Reaches :
      (p : Process) (g h : String) (log : Log)
      → IsFound p log
      → Sound log
      → Reaches (fingerprinted (ok h) ∷ log) (check_catalogue o p g h)
  unfolding check_catalogue
  catalogue-Reaches p g h log f s = Reaches-reads _ _ _ (λ same.
      Reaches-if _ (not same) (writes forget_inspection >> pure catalogue_changed) (claim o p g)
        (λ other. forget-Reaches _ s) (λ u. claim-Reaches p g h log f s))

  process-Reaches :
      (g i : String) (p : Process) (log : Log)
      → IsFound p log
      → Sound log
      → Reaches log (check_process o g i p)
  unfolding check_process
  process-Reaches g i p log f s =
      Reaches-if _ (not (p.1 == i)) (change_terminal o)
        (attempt (λ log. o.catalogue_fingerprint log) (λ r. fingerprinted r) >>= λ hash.
          check_catalogue o p g hash)
        (λ other. change-Reaches _ s)
        (λ same. Reaches-attempt _ _ _ _ (λ r. s) (λ h. catalogue-Reaches p g h log f s))

  found-Reaches :
      (g i : String) (p : Option Process) (log : Log)
      → Sound log
      → Reaches
          (found (ok p) ∷ locked (ok tt) ∷ log)
          (choose p (change_terminal o) (λ p. check_process o g i p))
  unfolding choose
  found-Reaches g i none log s = change-Reaches _ s
  found-Reaches g i (some p) log s = process-Reaches g i p _ refl s

  locked-Reaches :
      (g i : String) (log : Log) → Sound log → Reaches (locked (ok tt) ∷ log) (run_locked o g i)
  unfolding run_locked find
  locked-Reaches g i log s = Reaches-attempt _ _ _ _ (λ r. s) (λ p. found-Reaches g i p log s)

  with_lock-Reaches :
      {A : Type 0} (log : Log) (body : Act A)
      → Sound log
      → Reaches (locked (ok tt) ∷ log) body
      → Reaches log (with_lock o body)
  unfolding with_lock finally
  with_lock-Reaches log body s k =
      Reaches-attempt _ _ _ _ (λ r. s) (λ u. record { reach = λ w. k.reach w })

  pub run_job-Reaches : (log : Log) → Sound log → Reaches log (run_job o)
  unfolding run_job
  run_job-Reaches log s =
      Reaches-reads _ _ _ (λ session. with_lock-Reaches log _ s (locked-Reaches _ _ log s))
