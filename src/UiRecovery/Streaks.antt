-- ===== src/UiRecovery/Streaks.antt =====
-- What a positive answer of `observe` means for the observations that were made before it.
use tradetrack_mt5_server.Prelude.{
  ℕ, suc, ◌+◌, ◌≤◌, String, true, false, Option, none, some, List, [], ◌∷◌, ◌==◌, text_key, lookup,
  ◌≡◌, ◌≢◌, ==_iff, ==_sound, ne_of_==, lookup-insert, lookup-remove, arith, Bool-cases, inl, inr,
  refl, sym, subst,
}
use tradetrack_mt5_server.Throttle.{seconds}
use tradetrack_mt5_server.UiRecovery.{
  SlotReport, Observation, Observations, observe, observe_next, is_unhealthy, is_broken, is_same,
  restarted, continued,
}

abbrev pub Event : Type 0
Event = SlotReport × ℕ

-- The table after a sequence of calls of `observe`, the latest call first.
unfoldable pub table : List Event → Observations
table [] = []
table ((slot, now) ∷ before) = (observe (table before) slot now).0

-- Slot `key` was seen unhealthy `n` times in a row, with one process and generation, from
-- `first` to `last`, with no gap above two minutes, and with calls for other slots in between.
pub data Streak (key : String) (pid generation : Option String) (first : ℕ)
    : ℕ → ℕ → List Event → Type 0 where
  begin :
      (slot : SlotReport) {last n : ℕ} {before : List Event}
      → slot.id ≡ key
      → is_unhealthy slot first ≡ true
      → slot.process_identity ≡ pid
      → slot.generation ≡ generation
      → last ≡ first
      → n ≡ 1
      → Streak key pid generation first last n ((slot, first) ∷ before)
  extend :
      (slot : SlotReport) {previous last m n : ℕ} {before : List Event}
      → Streak key pid generation first previous m before
      → slot.id ≡ key
      → is_unhealthy slot last ≡ true
      → slot.process_identity ≡ pid
      → slot.generation ≡ generation
      → last ≤ previous + seconds 120
      → n ≡ suc m
      → Streak key pid generation first last n ((slot, last) ∷ before)
  other :
      (slot : SlotReport) (now : ℕ) {last n : ℕ} {before : List Event}
      → Streak key pid generation first last n before
      → slot.id ≢ key
      → Streak key pid generation first last n ((slot, now) ∷ before)

abbrev Recorded : String → Observation → List Event → Type 0
Recorded key o events =
    Streak key o.process_identity o.generation o.first_at o.last_at o.seen events

pub is_same_sound : (a b : Option String) → is_same a b ≡ true → a ≡ b
is_same_sound none none h = refl
is_same_sound none (some t) h = cc
is_same_sound (some s) none h = cc
is_same_sound (some s) (some t) h = rw ((==_iff s t).0 h)

unbroken :
    (slot : SlotReport) (now : ℕ) (o : Observation)
    → is_broken slot now o ≡ false
    → (is_same o.process_identity slot.process_identity ≡ true)
      × (is_same o.generation slot.generation ≡ true)
      × (now ≤ o.last_at + seconds 120)
unbroken slot now o h = grind arith

continued-Streak :
    (slot : SlotReport) (now : ℕ) (o : Observation) (before : List Event)
    → is_unhealthy slot now ≡ true
    → is_broken slot now o ≡ false
    → Recorded slot.id o before
    → Recorded slot.id (continued slot now o) ((slot, now) ∷ before)
unfolding continued
continued-Streak slot now o before h ok s =
    let (same_process, same_generation, in_time) = unbroken slot now o ok in
    let moved =
      subst (λ p. Streak slot.id p o.generation o.first_at o.last_at o.seen before)
        (is_same_sound _ _ same_process) s in
    let moved' =
      subst (λ g. Streak slot.id slot.process_identity g o.first_at o.last_at o.seen before)
        (is_same_sound _ _ same_generation) moved in
    extend slot moved' refl h refl refl in_time refl

observed-Streak :
    (slot : SlotReport) (now : ℕ) (before : List Event) (previous : Option Observation)
    → is_unhealthy slot now ≡ true
    → ((o : Observation) → previous ≡ some o → Recorded slot.id o before)
    → Recorded slot.id (observe_next slot now previous).0 ((slot, now) ∷ before)
unfolding observe_next
observed-Streak slot now before none h ih =
    unfold restarted in begin slot refl h refl refl refl refl
observed-Streak slot now before (some o) h ih = elim (Bool-cases (is_broken slot now o)) [
  | inl broken ↦ rw broken (unfold restarted in begin slot refl h refl refl refl refl)
  | inr same ↦ rw same (continued-Streak slot now o before h same (ih o refl))
]

Recorded-step :
    (key : String) (slot : SlotReport) (now : ℕ) (before : List Event) (o : Observation)
    → ((p : Observation) → lookup key (table before) ≡ some p → Recorded key p before)
    → lookup key (observe (table before) slot now).0 ≡ some o
    → Recorded key o ((slot, now) ∷ before)
unfolding observe
Recorded-step key slot now before o ih h = elim (Bool-cases (is_unhealthy slot now)) [
  | inl sick ↦
      let h' = rw (sick, lookup-insert slot.id key) at h in
      elim (Bool-cases (slot.id == key)) [
        | inl same ↦
            let e = ==_sound slot.id key same in
            let here = observed-Streak slot now before (lookup slot.id (table before)) sick (λ p q.
              subst (λ k. Recorded k p before) (sym e)
                (ih p (subst (λ k. lookup k (table before) ≡ some p) e q))) in
            let entry = rw same at h' in
            let found : (observe_next slot now (lookup slot.id (table before))).0 ≡ o = cc in
            subst (λ k. Recorded k o ((slot, now) ∷ before)) e
              (subst (λ x. Recorded slot.id x ((slot, now) ∷ before)) found here)
        | inr differs ↦ other slot now (ih o (rw differs at h')) (ne_of_== slot.id key differs)
      ]
  | inr healthy ↦
      let h' = rw (healthy, lookup-remove slot.id key) at h in
      elim (Bool-cases (slot.id == key)) [
        | inl same ↦ let gone = rw same at h' in cc
        | inr differs ↦ other slot now (ih o (rw differs at h')) (ne_of_== slot.id key differs)
      ]
]

-- Every entry of the table records a streak of the calls that were made.
table-Streak :
    (key : String) (events : List Event) (o : Observation)
    → lookup key (table events) ≡ some o
    → Recorded key o events
unfolding table
table-Streak key [] o h = unfold lookup in cc
table-Streak key ((slot, now) ∷ before) o h =
    Recorded-step key slot now before o (table-Streak key before) h

fired :
    (slot : SlotReport) (now : ℕ) (previous : Option Observation)
    → (observe_next slot now previous).1 ≡ true
    → (o : Observation) × (previous ≡ some o)
      × (is_broken slot now o ≡ false)
      × (o.first_at + seconds 120 ≤ now)
      × (3 ≤ suc o.seen)
unfolding observe_next
fired slot now none h = cc
fired slot now (some o) h = elim (Bool-cases (is_broken slot now o)) [
  | inl broken ↦ absurd (ground arith)
  | inr same ↦ (o, refl, same, ground arith, ground arith)
]

fired_sick :
    (slot : SlotReport) (now : ℕ) (obs : Observations)
    → (observe obs slot now).1 ≡ true
    → (is_unhealthy slot now ≡ true) × ((observe_next slot now (lookup slot.id obs)).1 ≡ true)
unfolding observe
fired_sick slot now obs h = elim (Bool-cases (is_unhealthy slot now)) [
  | inl sick ↦ (sick, rw sick at h)
  | inr healthy ↦ absurd (let gone = rw healthy at h in cc)
]

-- `observe` answers that a slot is to be fenced only if this call ends a streak of at least three
-- unhealthy observations of the slot, all of one process and generation, with no gap above 120
-- seconds, that spans at least 120 seconds; calls for other slots may come in between.
pub observe-Streak :
    (slot : SlotReport) (now : ℕ) (before : List Event)
    → (observe (table before) slot now).1 ≡ true
    → (first n : ℕ) × Streak slot.id slot.process_identity slot.generation first now n
        ((slot, now) ∷ before)
      × (first + seconds 120 ≤ now)
      × (3 ≤ n)
unfolding continued
observe-Streak slot now before h =
    let (sick, hit) = fired_sick slot now (table before) h in
    let (o, found, same, long, often) = fired slot now (lookup slot.id (table before)) hit in
    (
      o.first_at,
      suc o.seen,
      continued-Streak slot now o before sick same (table-Streak slot.id before o found),
      long,
      often,
    )
