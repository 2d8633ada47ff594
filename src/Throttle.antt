-- ===== src/Throttle.antt =====
-- The contract of a restart throttle: what the two durable budgets of the recovery code
-- (app/collector/restart_budget.py and app/collector/ui_recovery.py) promise their callers.
-- Clock readings are milliseconds.
use tradetrack_mt5_server.Prelude.{
  ℕ, ◌+◌, ◌*◌, ◌≤◌, String, ◌≡◌, Bool, true, false, List, [], ◌∷◌, All, All-mono, if◌then◌else◌,
  ◌==◌, arith, Bool-cases, inl, inr, ==_iff, text_key,
}

abbrev pub seconds : ℕ → ℕ
seconds n = n * 1000

-- `attempt` answers with the new state and whether it granted a new restart. The two gates are the
-- earliest times of the next grant: of any slot, and of one slot.
pub record Throttle : Type 1 where
  pub State : Type 0
  pub Request : Type 0
  pub slot : Request → String
  pub at : Request → ℕ
  pub attempt : State → Request → State × Bool
  pub gate : State → ℕ
  pub slot_gate : String → State → ℕ
  pub IsGood : State → Type 0
  pub good_after : (s : State) (r : Request) → IsGood s → IsGood (attempt s r).0
  pub gate_refused :
      (s : State) (r : Request) → (attempt s r).1 ≡ false → gate (attempt s r).0 ≡ gate s
  pub slot_gate_refused :
      (s : State) (r : Request) (j : String)
      → (attempt s r).1 ≡ false
      → slot_gate j (attempt s r).0 ≡ slot_gate j s
  pub granted_in_time :
      (s : State) (r : Request)
      → IsGood s
      → (attempt s r).1 ≡ true
      → (gate s ≤ at r) × (slot_gate (slot r) s ≤ at r)
  pub gate_granted :
      (s : State) (r : Request)
      → IsGood s
      → (attempt s r).1 ≡ true
      → gate (attempt s r).0 ≡ at r + seconds 120
  pub slot_gate_granted :
      (s : State) (r : Request) (j : String)
      → IsGood s
      → (attempt s r).1 ≡ true
      → slot_gate j (attempt s r).0 ≡ (if slot r == j then at r + seconds 900 else slot_gate j s)

-- Every later grant comes 120 seconds after an earlier one, and 900 seconds after one of its slot.
abbrev pub IsSpaced : List (String × ℕ) → Type 0
IsSpaced [] = Unit
IsSpaced ((k, t) ∷ later) =
    All (λ g. (t + seconds 120 ≤ g.1) × (k ≡ g.0 → t + seconds 900 ≤ g.1)) later × IsSpaced later

module _ (b : Throttle) where
  open b use {State, Request, slot, at, attempt, gate, slot_gate, IsGood}

  -- The grants of a sequence of requests, in order.
  unfoldable pub grants : State → List Request → List (String × ℕ)
  grants s [] = []
  grants s (r ∷ rs) =
      let rest = grants (attempt s r).0 rs in
      if (attempt s r).1 then (slot r, at r) ∷ rest else rest

  abbrev IsAfter : State → String × ℕ → Type 0
  IsAfter s g = (gate s ≤ g.1) × (slot_gate g.0 s ≤ g.1)

  -- The gates only move forward.
  IsAfter-step :
      (s : State) (r : Request) (g : String × ℕ)
      → IsGood s
      → IsAfter (attempt s r).0 g
      → IsAfter s g
  IsAfter-step s r (j, u) good (p, q) = elim (Bool-cases (attempt s r).1) [
    | inl granted ↦ ground (
      arith,
      b.gate_granted s r good granted,
      b.granted_in_time s r good granted,
      b.slot_gate_granted s r j good granted,
      ==_iff (slot r) j,
    )
    | inr refused ↦
        (rw (← b.gate_refused s r refused) p, rw (← b.slot_gate_refused s r j refused) q)
  ]

  grants-IsAfter : (s : State) (rs : List Request) → IsGood s → All (IsAfter s) (grants s rs)
  unfolding grants
  grants-IsAfter s [] good = tt
  grants-IsAfter s (r ∷ rs) good =
      let s' = (attempt s r).0 in
      let rest =
        All-mono (grants s' rs) (λ g. IsAfter-step s r g good)
          (grants-IsAfter s' rs (b.good_after s r good)) in
      elim (Bool-cases (attempt s r).1) [
        | inl granted ↦ rw granted (b.granted_in_time s r good granted, rest)
        | inr refused ↦ rw refused rest
      ]

  spaced_after_grant :
      (s : State) (r : Request) (g : String × ℕ)
      → IsGood s
      → (attempt s r).1 ≡ true
      → IsAfter (attempt s r).0 g
      → (at r + seconds 120 ≤ g.1) × (slot r ≡ g.0 → at r + seconds 900 ≤ g.1)
  spaced_after_grant s r (j, u) good granted (p, q) = (
    rw (b.gate_granted s r good granted) at p,
    λ same. rw (b.slot_gate_granted s r j good granted, (==_iff (slot r) j).1 same) at q,
  )

  -- Whatever the requests and whatever the clock did between them, the grants are spaced.
  pub grants-IsSpaced : (s : State) (rs : List Request) → IsGood s → IsSpaced (grants s rs)
  unfolding grants
  grants-IsSpaced s [] good = tt
  grants-IsSpaced s (r ∷ rs) good =
      let s' = (attempt s r).0 in
      let good' = b.good_after s r good in
      elim (Bool-cases (attempt s r).1) [
        | inl granted ↦ rw granted (
          All-mono (grants s' rs) (λ g. spaced_after_grant s r g good granted)
              (grants-IsAfter s' rs good'),
          grants-IsSpaced s' rs good',
        )
        | inr refused ↦ rw refused (grants-IsSpaced s' rs good')
      ]
