-- ===== src/Agent/Protocol.antt =====
-- The agent as the calls that it has made: its state is what a replay of the transcript gives, and the
-- calls keep the API's protocol of generations and sequence numbers.
use tradetrack_mt5_server.Prelude.{
  ℕ, ◌+◌, ◌≡◌, String, Bool, true, Option, none, some, List, [], ◌∷◌, if◌then◌else◌, ◌==◌, ==_sound,
  text_key, lookup, insert, lookup-insert, Result, ok, raise, refl, Bool-cases, inl, inr, ◌∙◌,
}
use tradetrack_mt5_server.Prelude.Actions.{
  ◌>>=◌, pure, throw, reads, writes, after, Keeps, bind-Keeps, pure-Keeps, keeps_rules,
}
use tradetrack_mt5_server.Agent.Config.{
  SlotConfig, RemoteSlot, RemoteConfig, read_config, matches_config,
}
use tradetrack_mt5_server.Agent.{
  Snapshot, Session, Entry, configured, collected, build_read, generated, registered, reported, Log,
  Outside, InventoryAgent, ask, attempt, is_new_process, put_session, use_config, connect,
  check_build, take_snapshot, register, open_session, ensure_session, send_report, report_slot,
}

abbrev counted : Option Session → Option Session
counted none = none
counted (some s) = some (record s { sequence = s.sequence + 1 })

-- The session that a transcript leaves: the last one that the API has registered, with the number of
-- reports since.
unfoldable pub replay : String → Log → Option Session
replay id [] = none
replay id (registered slot g e i (ok u) ∷ log) =
    let rest = replay id log in
    if slot == id
    then some (record { generation = g; sequence = 0; process_identity = i })
    else rest
replay id (reported slot g n r ∷ log) =
    let rest = replay id log in if slot == id then counted rest else rest
replay id (_ ∷ log) = replay id log

abbrev kept_rows :
    Option (List ℕ × List (String × RemoteSlot))
    → List (String × RemoteSlot)
    → List (String × RemoteSlot)
kept_rows none rows = rows
kept_rows (some (builds, new)) rows = new

-- The slots of the last configuration that was not refused.
unfoldable pub remotes : String → Log → List (String × RemoteSlot)
remotes node_id [] = []
remotes node_id (configured (ok c) ∷ log) = kept_rows (read_config node_id c) (remotes node_id log)
remotes node_id (_ ∷ log) = remotes node_id log

abbrev remote_generation : Option RemoteSlot → Option String
remote_generation none = none
remote_generation (some r) = r.generation

-- What the API is expected to hold: the session's generation, and without one the configured one.
abbrev expected_by : Option Session → Option RemoteSlot → Option String
expected_by none remote = remote_generation remote
expected_by (some s) remote = some s.generation

-- A report is of the registered session, with the next number.
abbrev IsNext : Option Session → String → ℕ → Type 0
IsNext none g n = ⊥
IsNext (some s) g n = (g ≡ s.generation) × (n ≡ s.sequence + 1)

-- A registration names the generation that it replaces, and is of another process; a report has the
-- generation and the next sequence number of the session.
abbrev pub Conforms : String → Log → Type 0
Conforms node_id [] = Unit
Conforms node_id (registered slot g e i r ∷ log) =
    ((e ≡ expected_by (replay slot log) (lookup slot (remotes node_id log)))
      × (is_new_process (replay slot log) i ≡ true))
    × Conforms node_id log
Conforms node_id (reported slot g n r ∷ log) = IsNext (replay slot log) g n × Conforms node_id log
Conforms node_id (_ ∷ log) = Conforms node_id log

-- The state is that of the replay, and the transcript keeps the protocol.
pub record Refines (node_id : String) (a : InventoryAgent) : Type 0 where
  pub sessions : (id : String) → lookup id a.sessions ≡ replay id a.log
  pub remote_slots : a.remote_slots ≡ remotes node_id a.log
  pub conforms : Conforms node_id a.log

counted_at :
    (id j : String) (s : Session) (held replayed : Option Session)
    → held ≡ replayed
    → (id ≡ j → held ≡ some s)
    → (if id == j then some (record s { sequence = s.sequence + 1 }) else held)
      ≡ (if id == j then counted replayed else replayed)
counted_at id j s held replayed same at = elim (Bool-cases (id == j)) [
  | inl here ↦ rw (here, ← same, at (==_sound id j here)) refl
  | inr other ↦ rw (other, same) refl
]

module _ (o : Outside) (resolve : String → String) (node_id : String)
    (slots : List SlotConfig) where
  abbrev Good : InventoryAgent → Type 0
  Good = Refines node_id

  ask-Keeps :
      {A : Type 0} (answer : Log → A) (note : A → Entry)
      → ((x : A) (a : InventoryAgent) → Good a → Good (record a { log = note x ∷ a.log }))
      → Keeps Good (ask answer note)
  unfolding ask
  ask-Keeps answer note k = record { at = λ a g. k (answer a.log) a g }

  attempt-Keeps :
      {A : Type 0} (answer : Log → Result A) (note : Result A → Entry)
      → ((x : Result A) (a : InventoryAgent) → Good a → Good (record a { log = note x ∷ a.log }))
      → Keeps Good (attempt answer note)
  unfolding attempt
  attempt-Keeps answer note k = record { at = λ a g. k (answer a.log) a g }

  -- An entry of which the replay takes no notice.
  collected-Refines :
      (slot : String) (r : Result Snapshot) (a : InventoryAgent)
      → Good a
      → Good (record a { log = collected slot r ∷ a.log })
  unfolding replay remotes
  collected-Refines slot r a g = record {
    sessions = g.sessions;
    remote_slots = g.remote_slots;
    conforms = g.conforms;
  }

  build_read-Refines :
      (b : Option ℕ) (a : InventoryAgent) → Good a → Good (record a { log = build_read b ∷ a.log })
  unfolding replay remotes
  build_read-Refines b a g = record {
    sessions = g.sessions;
    remote_slots = g.remote_slots;
    conforms = g.conforms;
  }

  generated-Refines :
      (u : String) (a : InventoryAgent) → Good a → Good (record a { log = generated u ∷ a.log })
  unfolding replay remotes
  generated-Refines u a g = record {
    sessions = g.sessions;
    remote_slots = g.remote_slots;
    conforms = g.conforms;
  }

  build-Keeps :
      (path : String) → Keeps Good (ask (λ log. o.file_build log path) (λ b. build_read b))
  build-Keeps path = ask-Keeps _ _ build_read-Refines

  check-Keeps :
      (slot : SlotConfig) (s : Snapshot) (builds : Option (List ℕ))
      → Keeps Good (check_build o resolve node_id slots slot s builds)
  unfolding check_build
  check-Keeps slot s none = pure-Keeps s
  check-Keeps slot s (some builds) = search (keeps_rules, build-Keeps) depth 16

  take-Keeps :
      (slot : SlotConfig) (inspect_ui : Bool)
      → Keeps Good (take_snapshot o resolve node_id slots slot inspect_ui)
  unfolding take_snapshot
  take-Keeps slot inspect_ui =
      bind-Keeps _ _ (attempt-Keeps _ _ (collected-Refines slot.id))
        (λ s. search (keeps_rules, check-Keeps) depth 16)

  read-Refines :
      (c : RemoteConfig) (x : Option (List ℕ × List (String × RemoteSlot))) (a : InventoryAgent)
      → Good a
      → read_config node_id c ≡ x
      → Good (use_config o resolve node_id slots x (record a { log = configured (ok c) ∷ a.log })).1
  unfolding replay remotes use_config writes ◌>>=◌ throw pure
  read-Refines c none a g e = record {
    sessions = g.sessions;
    remote_slots = rw e g.remote_slots;
    conforms = g.conforms;
  }
  read-Refines c (some (builds, rows)) a g e =
      elim (Bool-cases (matches_config resolve slots rows)) [
        | inl same ↦
            rw same
              (record { sessions = g.sessions; remote_slots = rw e refl; conforms = g.conforms })
        | inr other ↦
            rw other
              (record { sessions = g.sessions; remote_slots = rw e refl; conforms = g.conforms })
      ]

  -- `connect`, from the API's answer on.
  configured-Refines :
      (r : Result RemoteConfig) (a : InventoryAgent)
      → Good a
      → Good
          (after r
            (λ c. use_config o resolve node_id slots (read_config node_id c))
            (record a { log = configured r ∷ a.log })).1
  unfolding replay remotes use_config writes ◌>>=◌ throw
  configured-Refines (raise e) a g = record {
    sessions = g.sessions;
    remote_slots = g.remote_slots;
    conforms = g.conforms;
  }
  configured-Refines (ok c) a g = read-Refines c (read_config node_id c) a g refl

  -- What the state says of a registration, said of the transcript.
  registration :
      (id : String) (e i : Option String) (a : InventoryAgent)
      → Good a
      → e ≡ expected_by (lookup id a.sessions) (lookup id a.remote_slots)
      → is_new_process (lookup id a.sessions) i ≡ true
      → (e ≡ expected_by (replay id a.log) (lookup id (remotes node_id a.log)))
        × (is_new_process (replay id a.log) i ≡ true)
  registration id e i a good expected new =
      (rw (← good.sessions id, ← good.remote_slots) expected, rw (← good.sessions id) new)

  register-Refines :
      (id g : String) (s : Snapshot) (e : Option String) (r : Result (Unit {0}))
      (a : InventoryAgent)
      → Good a
      → e ≡ expected_by (lookup id a.sessions) (lookup id a.remote_slots)
      → is_new_process (lookup id a.sessions) s.process_identity ≡ true
      → Good
          (after r
            (λ u. writes (
              put_session id
                (record { generation = g; sequence = 0; process_identity = s.process_identity })))
            (record a { log = registered id g e s.process_identity r ∷ a.log })).1
  unfolding replay remotes writes
  register-Refines id g s e (raise x) a good expected new = record {
    sessions = good.sessions;
    remote_slots = good.remote_slots;
    conforms = (registration id e s.process_identity a good expected new, good.conforms);
  }
  register-Refines id g s e (ok u) a good expected new = record {
    sessions = λ j. lookup-insert id j _ a.sessions ∙ rw (good.sessions j) refl;
    remote_slots = good.remote_slots;
    conforms = (registration id e s.process_identity a good expected new, good.conforms);
  }

  -- With the session and the slot that the state has.
  open-Refines :
      (id : String) (s : Snapshot) (current : Option Session) (remote : Option RemoteSlot)
      (a : InventoryAgent)
      → Good a
      → lookup id a.sessions ≡ current
      → lookup id a.remote_slots ≡ remote
      → is_new_process current s.process_identity ≡ true
      → Good (open_session o resolve node_id slots id s current remote a).1
  unfolding open_session register ask attempt ◌>>=◌ throw
  open-Refines id s none none a good held kept new = generated-Refines (o.uuid a.log) a good
  open-Refines id s none (some remote) a good held kept new =
      register-Refines id (o.uuid a.log) s remote.generation _
        (record a { log = generated (o.uuid a.log) ∷ a.log })
        (generated-Refines (o.uuid a.log) a good) (rw (held, kept) refl) (rw held new)
  open-Refines id s (some session) remote a good held kept new =
      register-Refines id (o.uuid a.log) s (some session.generation) _
        (record a { log = generated (o.uuid a.log) ∷ a.log })
        (generated-Refines (o.uuid a.log) a good) (rw held refl) (rw held new)

  ensure-Keeps :
      (id : String) (s : Snapshot) → Keeps Good (ensure_session o resolve node_id slots id s)
  unfolding ensure_session reads ◌>>=◌ pure
  ensure-Keeps id s = record {
    at = λ a good. elim (Bool-cases (is_new_process (lookup id a.sessions) s.process_identity)) [
      | inl new ↦
          rw new (
            open-Refines id s (lookup id a.sessions) (lookup id a.remote_slots) a good refl refl
              new)
      | inr old ↦ rw old good
    ];
  }

  send-Refines :
      (id : String) (current : Option Session) (a : InventoryAgent)
      → Good a
      → lookup id a.sessions ≡ current
      → Good (send_report o resolve node_id slots id current a).1
  unfolding send_report writes attempt ◌>>=◌ throw replay remotes
  send-Refines id none a good held = good
  send-Refines id (some s) a good held = record {
    sessions = λ j.
        lookup-insert id j _ a.sessions
        ∙ counted_at id j s (lookup j a.sessions) (replay j a.log) (good.sessions j)
            (λ e. rw (← e) held);
    remote_slots = good.remote_slots;
    conforms = (rw (← good.sessions id, held) (refl, refl), good.conforms);
  }

  send-Keeps :
      (id : String)
      → Keeps Good (
          reads (λ a. lookup id a.sessions) >>= λ current.
          send_report o resolve node_id slots id current)
  unfolding reads ◌>>=◌
  send-Keeps id = record { at = λ a good. send-Refines id (lookup id a.sessions) a good refl }

  store-Keeps :
      (id : String) (s : Snapshot)
      → Keeps Good (writes (λ a. record a { last_snapshots = insert id s a.last_snapshots }))
  unfolding writes
  store-Keeps id s = record {
    at = λ a good. record {
      sessions = good.sessions;
      remote_slots = good.remote_slots;
      conforms = good.conforms;
    };
  }

  report-Keeps :
      (slot : SlotConfig) (inspect_ui : Bool)
      → Keeps Good (report_slot o resolve node_id slots slot inspect_ui)
  unfolding report_slot
  report-Keeps slot inspect_ui =
      search (keeps_rules, take-Keeps, ensure-Keeps, send-Keeps, store-Keeps) depth 24

  connect-Keeps : Keeps Good (connect o resolve node_id slots)
  unfolding connect attempt ◌>>=◌
  connect-Keeps = record { at = λ a good. configured-Refines (o.config a.log) a good }

  -- Whatever the API, the inventory and the terminal's file answer: `report_slot` and `connect` leave
  -- an agent whose sessions are those of a replay of its transcript, the last registration that the
  -- API has taken with the number of reports since, and whose slots are those of the last
  -- configuration that was not refused; each registration in the transcript names the generation of
  -- the session before it, or without one the configured one, and is of another process; and each
  -- report has the generation of the session and the number after the report before.
  pub report_slot-Refines :
      (slot : SlotConfig) (inspect_ui : Bool) (a : InventoryAgent)
      → Refines node_id a
      → Refines node_id (report_slot o resolve node_id slots slot inspect_ui a).1
        × Refines node_id (connect o resolve node_id slots a).1
  report_slot-Refines slot inspect_ui a good =
      ((report-Keeps slot inspect_ui).at a good, connect-Keeps.at a good)
