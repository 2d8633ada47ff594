-- ===== src/Telemetry/Quota.antt =====
-- One event per code in six hours.
use tradetrack_mt5_server.Prelude.{
  ℕ, ◌==◌, ==_sound, Option, none, All, sym, subst, ◌∙◌, ◌+◌, ◌≤◌, ◌<◌, ◌≡◌, String, Bool, true,
  false, some, List, [], ◌∷◌, ==_refl, text_key, lookup, insert, lookup-insert, arith, refl,
  Bool-cases, inl, inr,
}
use tradetrack_mt5_server.Telemetry.{
  reminder, week, see, is_due, Telemetry, keep_week, upsert, reserve_stored, is_recent,
  reserve_seen, reserve_event,
}

lookup-keep_week :
    (c : String) (now t : ℕ) (rows : List (String × ℕ))
    → now ≤ t + week
    → lookup c rows ≡ some t
    → lookup c (keep_week now rows) ≡ some t
unfolding keep_week lookup
lookup-keep_week c now t [] kept h = cc
lookup-keep_week c now t (row ∷ rows) kept h = ground (arith, lookup-keep_week c now t rows kept)

lookup-insert_same :
    (c : String) (t : ℕ) (rows : List (String × ℕ)) → lookup c (insert c t rows) ≡ some t
lookup-insert_same c t rows = rw (lookup-insert c c t rows, ==_refl c) refl

-- The code has its time in the two tables.
abbrev IsNoted : String → ℕ → Telemetry → Type 0
IsNoted c t s = (lookup c s.sent ≡ some t) × (lookup c s.seen ≡ some t)

IsNoted-stored :
    (c : String) (t : ℕ) (s : Telemetry)
    → (reserve_stored c t s).1 ≡ true
    → IsNoted c t (reserve_stored c t s).0
unfolding reserve_stored
IsNoted-stored c t s granted =
    let rows : List (String × ℕ) = keep_week t (upsert c t s.sent) in
    let held : lookup c rows ≡ some t =
      rw granted (
        lookup-keep_week c t t (insert c t s.sent) (ground arith)
          (lookup-insert_same c t s.sent)) in
    (held, rw held (lookup-insert_same c t s.seen))

refused_stored :
    (c : String) (t u : ℕ) (s : Telemetry)
    → t ≤ u
    → u < t + reminder
    → lookup c s.sent ≡ some t
    → (reserve_stored c u s).1 ≡ false
unfolding reserve_stored
refused_stored c t u s later early noted = rw noted (ground arith)

refused_seen :
    (c : String) (t u : ℕ) (s : Telemetry)
    → t ≤ u
    → u < t + reminder
    → lookup c s.seen ≡ some t
    → (reserve_seen c u s).1 ≡ false
unfolding reserve_seen
refused_seen c t u s later early noted =
    let recent : is_recent u (some t) ≡ true = ground arith in rw (noted, recent) refl

-- Calls that the working store serves, of any codes.
abbrev pub after_calls : List (String × ℕ) → Telemetry → Telemetry
after_calls [] s = s
after_calls (call ∷ calls) s = after_calls calls (reserve_event true call.0 call.1 s).0

-- Calls in the six hours after a time.
abbrev pub AreWithin : ℕ → List (String × ℕ) → Type 0
AreWithin t calls = All (λ call. (t ≤ call.1) × (call.1 < t + reminder)) calls

see-kept :
    (c d : String) (t : ℕ) (found : Option ℕ) (seen : List (String × ℕ))
    → (d ≡ c → found ≡ some t)
    → lookup c seen ≡ some t
    → lookup c (see d found seen) ≡ some t
see-kept c d t none seen same noted = noted
see-kept c d t (some u) seen same noted = elim (Bool-cases (d == c)) [
  | inl here ↦
      let e : some u ≡ some t = same (==_sound d c here) in lookup-insert d c u seen ∙ rw here e
  | inr other ↦ lookup-insert d c u seen ∙ rw other noted
]

upsert-kept :
    (c d : String) (t u : ℕ) (sent : List (String × ℕ))
    → t ≤ u
    → u < t + reminder
    → lookup c sent ≡ some t
    → lookup c (upsert d u sent) ≡ some t
upsert-kept c d t u sent later early noted = elim (Bool-cases (d == c)) [
  | inl here ↦
      let at_d : lookup d sent ≡ some t =
        subst (λ k. lookup k sent ≡ some t) (sym (==_sound d c here)) noted in
      let old : is_due u (some t) ≡ false = ground arith in rw (at_d, old) noted
  | inr other ↦ elim (Bool-cases (is_due u (lookup d sent))) [
    | inl due ↦ rw due (lookup-insert d c u sent ∙ rw other noted)
    | inr old ↦ rw old noted
  ]
]

-- A call of the store in those six hours leaves the code noted.
stored-IsNoted :
    (c d : String) (t u : ℕ) (s : Telemetry)
    → t ≤ u
    → u < t + reminder
    → IsNoted c t s
    → IsNoted c t (reserve_stored d u s).0
unfolding reserve_stored
stored-IsNoted c d t u s later early (sent, seen) =
    let rows : List (String × ℕ) = keep_week u (upsert d u s.sent) in
    let held : lookup c rows ≡ some t =
      lookup-keep_week c u t (upsert d u s.sent) (omega arith)
        (upsert-kept c d t u s.sent later early sent) in
    (
      held,
      see-kept c d t (lookup d rows) s.seen (λ e. subst (λ k. lookup k rows ≡ some t) (sym e) held)
          seen,
    )

calls-IsNoted :
    (c : String) (t : ℕ) (calls : List (String × ℕ)) (s : Telemetry)
    → AreWithin t calls
    → IsNoted c t s
    → IsNoted c t (after_calls calls s)
unfolding reserve_event
calls-IsNoted c t [] s within noted = noted
calls-IsNoted c t (call ∷ calls) s ((later, early), within) noted =
    calls-IsNoted c t calls (reserve_stored call.0 call.1 s).0 within
      (stored-IsNoted c call.0 t call.1 s later early noted)

-- If `reserve_event` lets a code pass with a store that works, then no call lets it pass again in the
-- next six hours, however many calls with whatever codes the store has served in between; also if the
-- store fails at that call, and the process answers by what it has seen.
pub reserve_event_again :
    (works : Bool) (c : String) (t u : ℕ) (calls : List (String × ℕ)) (s : Telemetry)
    → (reserve_event true c t s).1 ≡ true
    → AreWithin t calls
    → t ≤ u
    → u < t + reminder
    → (reserve_event works c u (after_calls calls (reserve_event true c t s).0)).1 ≡ false
unfolding reserve_event
reserve_event_again true c t u calls s granted within later early =
    refused_stored c t u (after_calls calls (reserve_stored c t s).0) later early
      (calls-IsNoted c t calls (reserve_stored c t s).0 within (IsNoted-stored c t s granted)).0
reserve_event_again false c t u calls s granted within later early =
    refused_seen c t u (after_calls calls (reserve_stored c t s).0) later early
      (calls-IsNoted c t calls (reserve_stored c t s).0 within (IsNoted-stored c t s granted)).1
