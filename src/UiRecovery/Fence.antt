-- ===== src/UiRecovery/Fence.antt =====
-- app/collector/ui_recovery.py, `fence_ui_failure`: the last look before the API fences a slot.
-- What the slot mutex, the API and the process table answer are arguments.
use tradetrack_mt5_server.Prelude.{
  ℕ, List, [], ◌∷◌, ◌++◌, ◌⊎◌, Any, sym, ap, ◌∙◌, String, Bool, true, false, not, ◌||◌, Option,
  none, some, if◌then◌else◌, Result, ok, raise, ◌≡◌, arith, refl, inl, inr, Bool-cases, ==_sound,
  text_key,
}
use tradetrack_mt5_server.UiRecovery.{SlotReport, is_text, is_truthy, is_same, in_ui_errors}
use tradetrack_mt5_server.UiRecovery.Streaks.{is_same_sound}

-- `lock` is the entry to `inventory_lock`, `connect` the slot's report after `agent.connect()`,
-- `find` the answer of `find_process`, and `prepare` the API's answer to the prepare call.
pub record World : Type 0 where
  pub lock : Result (Unit {0})
  pub connect : Result SlotReport
  pub find : Result (Option (ℕ × String))
  pub prepare : Result (Unit {0})

-- A call of the function: the mutex, entered and left, the API, the process table, and the API's
-- prepare call with its generation.
pub data Call : Type 0 where
  locked released connected found : Call
  prepared : (generation : Option String) → Call

-- The calls in their order, and how the function ends.
pub record Outcome : Type 0 where
  pub calls : List Call
  pub result : Result Bool

-- One more call before the others.
abbrev pub first : Call → Outcome → Outcome
first call o = record { calls = call ∷ o.calls; result = o.result }

abbrev pub stop : Result Bool → Outcome
stop r = record { calls = []; result = r }

-- The `with` block: the mutex is left however the block ends.
abbrev pub within_lock : Outcome → Outcome
within_lock o = record { calls = locked ∷ (o.calls ++ released ∷ []); result = o.result }

-- The guard on the refreshed report.
unfoldable pub is_stale : SlotReport → SlotReport → Bool
unfolding in_ui_errors
is_stale current observed =
    is_truthy current.quarantine_identity
    || not (is_text current.status "ERROR")
    || not (in_ui_errors current.inventory_error_code)
    || not (is_same current.generation observed.generation)
    || not (is_same current.process_identity observed.process_identity)
    || not (is_truthy current.process_identity)

-- `not pid or identity != current['processIdentity']`; a process id is never 0 here.
unfoldable pub is_other_process : Option (ℕ × String) → Option String → Bool
is_other_process none identity = true
is_other_process (some (pid, seen)) identity = not (is_text identity seen)

abbrev pub answered : Result (Unit {0}) → Result Bool
answered (ok _) = ok true
answered (raise e) = raise e

-- Below the guard, from the answer of `find_process` on.
unfoldable pub fence_found : World → SlotReport → Result (Option (ℕ × String)) → Outcome
unfolding is_other_process
fence_found w current (raise e) = stop (raise e)
fence_found w current (ok process) =
    if is_other_process process current.process_identity
    then stop (ok false)
    else record { calls = prepared current.generation ∷ []; result = answered w.prepare }

unfoldable pub fence_connected : World → SlotReport → Result SlotReport → Outcome
unfolding is_stale fence_found
fence_connected w observed (raise e) = stop (raise e)
fence_connected w observed (ok current) =
    if is_stale current observed
    then stop (ok false)
    else first found (fence_found w current w.find)

unfoldable pub fence_locked : World → SlotReport → Result (Unit {0}) → Outcome
unfolding fence_connected
fence_locked w observed (raise e) = stop (raise e)
fence_locked w observed (ok _) =
    within_lock (first connected (fence_connected w observed w.connect))

unfoldable pub fence_ui_failure : World → SlotReport → Outcome
unfolding fence_locked
fence_ui_failure w observed = fence_locked w observed w.lock

-- What was checked before the API is asked to fence.
pub record IsVerified (w : World) (observed current : SlotReport) (generation : Option String)
    : Type 0 where
  pub pid : ℕ
  pub identity : String
  pub is_locked : w.lock ≡ ok tt
  pub refreshed : w.connect ≡ ok current
  pub running : w.find ≡ ok (some (pid, identity))
  pub is_current : current.process_identity ≡ some identity
  pub still_error : current.status ≡ some "ERROR"
  pub still_ui : in_ui_errors current.inventory_error_code ≡ true
  pub not_fenced : is_truthy current.quarantine_identity ≡ false
  pub same_process : current.process_identity ≡ observed.process_identity
  pub same_generation : current.generation ≡ observed.generation
  pub sent_generation : generation ≡ current.generation
  pub in_order :
      (fence_ui_failure w observed).calls
      ≡ locked ∷ connected ∷ found ∷ prepared generation ∷ released ∷ []

is_text_sound : (o : Option String) (t : String) → is_text o t ≡ true → o ≡ some t
is_text_sound none t h = cc
is_text_sound (some s) t h = rw (==_sound s t h)

-- The prepare call is one of the calls.
abbrev pub IsAsked : Option String → List Call → Type 0
IsAsked g calls = Any (λ call. call ≡ prepared g) calls

-- No call of the four kinds is a prepare call.
abbrev is_prepared : Call → Bool
is_prepared (prepared g) = true
is_prepared _ = false

other_call :
    {A : Type 0} (call : Call) (g : Option String)
    → is_prepared call ≡ false
    → call ≡ prepared g
    → A
other_call call g other same =
    let h : true ≡ false = sym (ap is_prepared same) ∙ other in absurd (cc)

found_prepared :
    (w : World) (current : SlotReport) (r : Result (Option (ℕ × String))) (g : Option String)
    → IsAsked g (fence_found w current r).calls
    → (pid : ℕ) × (identity : String) × (r ≡ ok (some (pid, identity)))
      × (is_text current.process_identity identity ≡ true)
      × (g ≡ current.generation)
      × ((fence_found w current r).calls ≡ prepared g ∷ [])
unfolding fence_found
found_prepared w current (raise e) g h = absurd h
found_prepared w current (ok none) g h = absurd h
found_prepared w current (ok (some (pid, identity))) g h =
    elim (Bool-cases (is_text current.process_identity identity)) [
      | inl same ↦
          let asked : (prepared current.generation ≡ prepared g) ⊎ ⊥ = rw same at h in
          let e : current.generation ≡ g = elim asked [ inl p ↦ cc | inr x ↦ absurd x ] in
          (pid, identity, refl, same, sym e, rw same (ap (λ x. prepared x ∷ []) e))
      | inr differs ↦ absurd (let x : ⊥ = rw differs at h in x)
    ]

connected_prepared :
    (w : World) (observed : SlotReport) (r : Result SlotReport) (g : Option String)
    → IsAsked g (fence_connected w observed r).calls
    → (current : SlotReport) × (r ≡ ok current)
      × (is_stale current observed ≡ false)
      × IsAsked g (fence_found w current w.find).calls
      × ((fence_connected w observed r).calls ≡ found ∷ (fence_found w current w.find).calls)
unfolding fence_connected
connected_prepared w observed (raise e) g h = absurd h
connected_prepared w observed (ok current) g h = elim (Bool-cases (is_stale current observed)) [
  | inl stale ↦ absurd (let x : ⊥ = rw stale at h in x)
  | inr fresh ↦
      let asked : (found ≡ prepared g) ⊎ IsAsked g (fence_found w current w.find).calls =
        rw fresh at h in
      elim asked [
        | inl same ↦ other_call found g refl same
        | inr below ↦ (current, refl, fresh, below, rw fresh refl)
      ]
]

before_release :
    (g : Option String) (calls : List Call) → IsAsked g (calls ++ released ∷ []) → IsAsked g calls
before_release g [] (inl same) = other_call released g refl same
before_release g [] (inr x) = absurd x
before_release g (call ∷ calls) (inl same) = inl same
before_release g (call ∷ calls) (inr asked) = inr (before_release g calls asked)

locked_prepared :
    (w : World) (observed : SlotReport) (r : Result (Unit {0})) (g : Option String)
    → IsAsked g (fence_locked w observed r).calls
    → (r ≡ ok tt)
      × IsAsked g (fence_connected w observed w.connect).calls
      × ((fence_locked w observed r).calls
          ≡ locked ∷ connected ∷ ((fence_connected w observed w.connect).calls ++ released ∷ []))
unfolding fence_locked
locked_prepared w observed (raise e) g h = absurd h
locked_prepared w observed (ok _) g (inl same) = other_call locked g refl same
locked_prepared w observed (ok _) g (inr (inl same)) = other_call connected g refl same
locked_prepared w observed (ok _) g (inr (inr asked)) =
    (refl, before_release g (fence_connected w observed w.connect).calls asked, refl)

none_holds :
    (a b c d e f : Bool)
    → (a || not b || not c || not d || not e || f) ≡ false
    → (b ≡ true) × (c ≡ true) × (a ≡ false) × (e ≡ true) × (d ≡ true)
none_holds a b c d e f h = ground arith

not_stale :
    (current observed : SlotReport)
    → is_stale current observed ≡ false
    → (is_text current.status "ERROR" ≡ true)
      × (in_ui_errors current.inventory_error_code ≡ true)
      × (is_truthy current.quarantine_identity ≡ false)
      × (is_same current.process_identity observed.process_identity ≡ true)
      × (is_same current.generation observed.generation ≡ true)
unfolding is_stale
not_stale current observed h =
    none_holds (is_truthy current.quarantine_identity) (is_text current.status "ERROR")
      (in_ui_errors current.inventory_error_code) (is_same current.generation observed.generation)
      (is_same current.process_identity observed.process_identity)
      (not (is_truthy current.process_identity)) h

-- If the API is asked to fence a slot, then the calls are just five, in this order: the slot's mutex is
-- entered, the API is asked for the reports, the process is looked for, the API is asked to fence, and
-- the mutex is left. All have succeeded up to that question, and it is asked only if the refreshed report still shows a UI error and no quarantine, is of the process and generation that
-- were observed, and the terminal runs with just that process identity. The generation sent is
-- that of the refreshed report.
pub fence_ui_failure-IsVerified :
    (w : World) (observed : SlotReport) (generation : Option String)
    → IsAsked generation (fence_ui_failure w observed).calls
    → (current : SlotReport) × IsVerified w observed current generation
unfolding fence_ui_failure
fence_ui_failure-IsVerified w observed generation h =
    let (is_locked, h1, outer) = locked_prepared w observed w.lock generation h in
    let (current, refreshed, fresh, h2, middle) =
      connected_prepared w observed w.connect generation h1 in
    let (pid, identity, running, same, sent, inner) =
      found_prepared w current w.find generation h2 in
    let (status, ui, free, process, generations) = not_stale current observed fresh in
    (
      current,
      record {
        pid = pid;
        identity = identity;
        is_locked = is_locked;
        refreshed = refreshed;
        running = running;
        is_current = is_text_sound _ _ same;
        still_error = is_text_sound _ _ status;
        still_ui = ui;
        not_fenced = free;
        same_process = is_same_sound _ _ process;
        same_generation = is_same_sound _ _ generations;
        sent_generation = sent;
        in_order = outer ∙ rw (middle, inner) refl;
      },
    )

answered-true : (r : Result (Unit {0})) → answered r ≡ ok true → r ≡ ok tt
answered-true (ok _) h = refl
answered-true (raise e) h = cc

found_true :
    (w : World) (current : SlotReport) (r : Result (Option (ℕ × String)))
    → (fence_found w current r).result ≡ ok true
    → ((fence_found w current r).calls ≡ prepared current.generation ∷ []) × (w.prepare ≡ ok tt)
unfolding fence_found
found_true w current (raise e) h = cc
found_true w current (ok process) h =
    elim (Bool-cases (is_other_process process current.process_identity)) [
      | inl differs ↦ absurd (let no_fence = rw differs at h in ground arith)
      | inr same ↦ rw same (refl, answered-true w.prepare (rw same at h))
    ]

connected_true :
    (w : World) (observed : SlotReport) (r : Result SlotReport)
    → (fence_connected w observed r).result ≡ ok true
    → (g : Option String) × ((fence_connected w observed r).calls ≡ found ∷ prepared g ∷ [])
      × (w.prepare ≡ ok tt)
unfolding fence_connected
connected_true w observed (raise e) h = cc
connected_true w observed (ok current) h = elim (Bool-cases (is_stale current observed)) [
  | inl stale ↦ absurd (let no_fence = rw stale at h in ground arith)
  | inr fresh ↦
      let (sent, agreed) = found_true w current w.find (rw fresh at h) in
      (current.generation, rw fresh (ap (λ calls. found ∷ calls) sent), agreed)
]

locked_true :
    (w : World) (observed : SlotReport) (r : Result (Unit {0}))
    → (fence_locked w observed r).result ≡ ok true
    → (g : Option String) × IsAsked g (fence_locked w observed r).calls × (w.prepare ≡ ok tt)
unfolding fence_locked
locked_true w observed (raise e) h = cc
locked_true w observed (ok _) h =
    let (g, sent, agreed) = connected_true w observed w.connect h in
    (g, rw sent (inr (inr (inr (inl refl)))), agreed)

-- The call answers true only if it asked the API to fence and the API agreed.
pub fence_ui_failure-true :
    (w : World) (observed : SlotReport)
    → (fence_ui_failure w observed).result ≡ ok true
    → (g : Option String) × IsAsked g (fence_ui_failure w observed).calls × (w.prepare ≡ ok tt)
unfolding fence_ui_failure
fence_ui_failure-true w observed h = locked_true w observed w.lock h
