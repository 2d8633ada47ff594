-- ===== src/RestartBudget/Gates.antt =====
-- When the budget grants a restart, and how a grant moves its two gates.
use tradetrack_mt5_server.Prelude.{
  ℕ, ◌+◌, ◌≤◌, String, Bool, true, false, not, ◌&&◌, Option, none, some, [], ◌∷◌, if◌then◌else◌,
  ◌==◌, text_key, lookup, insert, Result, ok, raise, ◌≡◌, arith, refl, if◌then◌else◌, lookup-insert,
  Bool-cases, inl, inr,
}
use tradetrack_mt5_server.Throttle.{seconds}
use tradetrack_mt5_server.RestartBudget.{
  Attempt, Attempts, later, latest, at_of, has_identity, reserve_restart,
}

abbrev pub after : Option ℕ → ℕ → ℕ
after none wait = 0
after (some t) wait = t + wait

pub gate : Attempts → ℕ
gate db = after (latest db) (seconds 120)

pub slot_gate : String → Attempts → ℕ
slot_gate key db = after (at_of (lookup key db)) (seconds 900)

pub record Call : Type 0 where
  pub available : Bool
  pub key : String
  pub identity : String
  pub now : ℕ

abbrev is_ok : Result (Unit {0}) → Bool
is_ok (ok _) = true
is_ok (raise _) = false

-- A call grants a new restart when it returns and the slot had no row for this identity.
unfoldable pub attempt : Attempts → Call → Attempts × Bool
attempt db c =
    let (db', r) = reserve_restart c.available db c.key c.identity c.now in
    (db', is_ok r && not (has_identity (lookup c.key db) c.identity))

later_bound : (t u : ℕ) (o : Option ℕ) → t ≤ u → after o 0 ≤ u → after (later t o) 0 ≤ u
later_bound t u none h k = omega arith
later_bound t u (some v) h k = omega arith

later_bounded : (t u : ℕ) (o : Option ℕ) → after (later t o) 0 ≤ u → (t ≤ u) × (after o 0 ≤ u)
later_bounded t u none h = omega arith
later_bounded t u (some v) h = omega arith

later_max : (u : ℕ) (o : Option ℕ) → after o 0 ≤ u → later u o ≡ some u
later_max u none h = refl
later_max u (some v) h = ground arith

-- An assignment of a time that no row exceeds makes it the largest.
latest-insert :
    (db : Attempts) (key : String) (a : Attempt)
    → after (latest db) 0 ≤ a.at
    → latest (insert key a db) ≡ some a.at
unfolding latest insert
latest-insert [] key a h = refl
latest-insert ((k, b) ∷ rows) key a h =
    let (first, rest) = later_bounded b.at a.at (latest rows) h in
    elim (Bool-cases (k == key)) [
      | inl same ↦ rw same (later_max a.at (latest rows) rest)
      | inr other ↦ rw (other, latest-insert rows key a rest) (ground arith)
    ]

module _ (db : Attempts) (c : Call) where
  pub gate_granted : (attempt db c).1 ≡ true → gate (attempt db c).0 ≡ c.now + seconds 120
  unfolding attempt gate reserve_restart
  gate_granted h =
      ground (arith, latest-insert db c.key (record { identity = c.identity; at = c.now }))

  pub attempt_refused : (attempt db c).1 ≡ false → (attempt db c).0 ≡ db
  unfolding attempt reserve_restart
  attempt_refused h = ground arith

  pub granted_in_time : (attempt db c).1 ≡ true → (gate db ≤ c.now) × (slot_gate c.key db ≤ c.now)
  unfolding attempt gate slot_gate reserve_restart
  granted_in_time h = ground arith

  pub slot_gate_granted :
      (j : String)
      → (attempt db c).1 ≡ true
      → slot_gate j (attempt db c).0 ≡ (if c.key == j then c.now + seconds 900 else slot_gate j db)
  unfolding attempt slot_gate reserve_restart
  slot_gate_granted j h =
      ground (arith, lookup-insert c.key j (record { identity = c.identity; at = c.now }) db)
