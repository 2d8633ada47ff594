-- ===== src/Worker/Watchdog.antt =====
-- The pace of the heartbeats and the deadline of a child.
use tradetrack_mt5_server.Prelude.{
  ℕ, ◌+◌, ◌≤◌, ◌≡◌, inl, inr, Bool, true, false, not, ◌&&◌, Option, none, some, List, [], ◌∷◌, ◌++◌,
  All, leb, if◌then◌else◌, Result, ok, raise, Error, arith, refl, Bool-cases, ap,
}
use tradetrack_mt5_server.Throttle.{seconds}
use tradetrack_mt5_server.Worker.{ChildResult, failure, collection, Poll, Exit, ChildRun}
use tradetrack_mt5_server.Worker.Child.{
  Heart, Turn, go, end, settle_heart, ping, turn_after, child_turn, watch, rescue, watch_from,
  run_spawned, run_child,
}

-- Of two heartbeats that follow each other, the later starts 20 seconds after the earlier, at least.
abbrev pub IsPaced : List ℕ → Type 0
IsPaced [] = Unit
IsPaced (t ∷ []) = Unit
IsPaced (t ∷ s ∷ starts) = (s + seconds 20 ≤ t) × IsPaced (s ∷ starts)

-- The next heartbeat is 20 seconds after the latest one.
abbrev IsNext : ℕ → List ℕ → Type 0
IsNext p [] = Unit
IsNext p (t ∷ starts) = t + seconds 20 ≤ p

abbrev IsSteady : Heart → Type 0
IsSteady h = IsPaced h.starts × IsNext h.ping_at h.starts

-- The clock after a heartbeat's start is no earlier than the one before it.
abbrev pub IsForward : Poll → Type 0
IsForward t = t.ping_now ≤ t.pinged_at

-- A turn that goes on stays steady.
abbrev GoesSteady : Turn → Type 0
GoesSteady (go h) = IsSteady h
GoesSteady (end r) = Unit

cons-IsPaced :
    (p t : ℕ) (starts : List ℕ) → IsPaced starts → IsNext p starts → p ≤ t → IsPaced (t ∷ starts)
cons-IsPaced p t [] paced next le = tt
cons-IsPaced p t (s ∷ starts) paced next le = (ground arith, paced)

ping-IsSteady : (t : Poll) (h : Heart) → IsForward t → IsSteady h → IsSteady (ping t h)
unfolding ping
ping-IsSteady t h forward (paced, next) =
    elim (Bool-cases (leb h.ping_at t.ping_now && not h.is_running)) [
      | inl due ↦
          let le : h.ping_at ≤ t.pinged_at = ground arith in
          rw due (cons-IsPaced h.ping_at t.pinged_at h.starts paced next le, ground arith)
      | inr early ↦ rw early (paced, next)
    ]

raised-GoesSteady :
    (running : Bool) (e : Error) (t : Poll) (h : Heart)
    → IsForward t
    → IsSteady h
    → GoesSteady (turn_after t (if running then raise e else ok h))
unfolding turn_after
raised-GoesSteady true e t h forward steady = tt
raised-GoesSteady false e t h forward steady = ping-IsSteady t h forward steady

settled-GoesSteady :
    (t : Poll) (h : Heart) (answer : Option (Result (Unit {0})))
    → IsForward t
    → IsSteady h
    → GoesSteady (turn_after t (settle_heart h answer))
unfolding settle_heart turn_after
settled-GoesSteady t h none forward steady = ping-IsSteady t h forward steady
settled-GoesSteady t h (some (ok u)) forward steady =
    ping-IsSteady t (record h { is_running = false }) forward steady
settled-GoesSteady t h (some (raise e)) forward steady =
    raised-GoesSteady h.is_running e t h forward steady

turn-GoesSteady :
    (d : ℕ) (t : Poll) (h : Heart) → IsForward t → IsSteady h → GoesSteady (child_turn d t h)
unfolding child_turn
turn-GoesSteady d t h forward steady = elim (Bool-cases (leb d t.now)) [
  | inl late ↦ rw late tt
  | inr early ↦ rw early (settled-GoesSteady t h t.answer forward steady)
]

module _ (d : ℕ) (x : Exit) where
  after_turn-IsPaced :
      (polls : List Poll) (h : Heart) (turn : Turn)
      → IsPaced h.starts
      → GoesSteady turn
      → ((g : Heart) → IsSteady g → IsPaced (watch d polls x g).1)
      → IsPaced
          (elim turn as (λ _. Result ChildResult × List ℕ) [
            | go h' ↦ watch d polls x h'
            | end r ↦ (r, h.starts)
          ]).1
  after_turn-IsPaced polls h (go g) paced steady rest = rest g steady
  after_turn-IsPaced polls h (end r) paced steady rest = paced

  watch-IsPaced :
      (polls : List Poll) (h : Heart)
      → All IsForward polls
      → IsSteady h
      → IsPaced (watch d polls x h).1
  unfolding watch
  watch-IsPaced [] h forward steady = steady.0
  watch-IsPaced (t ∷ polls) h (f, forward) steady =
      after_turn-IsPaced polls h (child_turn d t h) steady.0 (turn-GoesSteady d t h f steady)
        (λ g s. watch-IsPaced polls g forward s)

watch_from-IsPaced :
    (timeout : ℕ) (c : ChildRun) (written : Result ℕ)
    → All IsForward c.polls
    → IsPaced (watch_from timeout c written).1
unfolding watch_from
watch_from-IsPaced timeout c (raise e) forward = tt
watch_from-IsPaced timeout c (ok start) forward =
    watch-IsPaced (start + timeout) c.exit c.polls _ forward (tt, tt)

spawned-IsPaced :
    (timeout : ℕ) (c : ChildRun) (spawned : Result (Unit {0}))
    → All IsForward c.polls
    → IsPaced (run_spawned timeout c spawned).1
unfolding run_spawned
spawned-IsPaced timeout c (raise e) forward = tt
spawned-IsPaced timeout c (ok u) forward = watch_from-IsPaced timeout c c.written forward

-- If in no turn of the loop the clock goes back while a heartbeat is started, then `run_child` starts
-- a heartbeat 20 seconds after the start of the one before it, or later.
pub run_child-IsPaced :
    (timeout : ℕ) (c : ChildRun) → All IsForward c.polls → IsPaced (run_child timeout c).1
unfolding run_child
run_child-IsPaced timeout c forward = spawned-IsPaced timeout c c.spawned forward

-- No collection comes out of the answer.
abbrev pub NoCollection : Result ChildResult → Type 0
NoCollection (ok (collection deals positions)) = ⊥
NoCollection _ = Unit

abbrev EndsEmpty : Turn → Type 0
EndsEmpty (go h) = Unit
EndsEmpty (end r) = NoCollection r

settled-EndsEmpty : (t : Poll) (r : Result Heart) → EndsEmpty (turn_after t r)
unfolding turn_after
settled-EndsEmpty t (ok h) = tt
settled-EndsEmpty t (raise e) = tt

turn-EndsEmpty : (d : ℕ) (t : Poll) (h : Heart) → EndsEmpty (child_turn d t h)
unfolding child_turn
turn-EndsEmpty d t h = elim (Bool-cases (leb d t.now)) [
  | inl late ↦ rw late tt
  | inr early ↦ rw early (settled-EndsEmpty t (settle_heart h t.answer))
]

late_turn :
    (d : ℕ) (t : Poll) (h : Heart)
    → d ≤ t.now
    → child_turn d t h ≡ end (ok (failure "CHILD_TIMEOUT"))
unfolding child_turn
late_turn d t h late = ground arith

abbrev pub Watched : Type 0
Watched = Result ChildResult × List ℕ

-- Two watches end alike, with no collection.
abbrev pub AreCut : Watched → Watched → Type 0
AreCut a b = (a ≡ b) × NoCollection a.0

module _ (d : ℕ) (x y : Exit) (t : Poll) (after : List Poll) where
  cut_turn-AreCut :
      (before : List Poll) (h : Heart) (turn : Turn)
      → EndsEmpty turn
      → ((g : Heart) → AreCut (watch d (before ++ t ∷ after) x g) (watch d (before ++ t ∷ []) y g))
      → AreCut
          (elim turn as (λ _. Watched) [
            | go h' ↦ watch d (before ++ t ∷ after) x h'
            | end r ↦ (r, h.starts)
          ])
          (elim turn as (λ _. Watched) [
            | go h' ↦ watch d (before ++ t ∷ []) y h'
            | end r ↦ (r, h.starts)
          ])
  cut_turn-AreCut before h (go g) empty rest = rest g
  cut_turn-AreCut before h (end r) empty rest = (refl, empty)

  watch-AreCut :
      (before : List Poll) (h : Heart)
      → d ≤ t.now
      → AreCut (watch d (before ++ t ∷ after) x h) (watch d (before ++ t ∷ []) y h)
  unfolding watch
  watch-AreCut [] h late = rw (watch, late_turn d t h late) (refl, tt)
  watch-AreCut (b ∷ before) h late =
      cut_turn-AreCut before h (child_turn d b h) (turn-EndsEmpty d b h)
        (λ g. watch-AreCut before g late)

rescue-NoCollection : (r : Result ChildResult) → NoCollection r → NoCollection (rescue r)
unfolding rescue
rescue-NoCollection (ok (failure code)) n = tt
rescue-NoCollection (ok (collection deals positions)) n = elim n [ ]
rescue-NoCollection (raise Error.os_error) n = tt
rescue-NoCollection (raise (Error.inventory_error code)) n = tt
rescue-NoCollection (raise (Error.agent_error code)) n = tt
rescue-NoCollection (raise (Error.collection_error code)) n = tt
rescue-NoCollection (raise (Error.data_error code field)) n = tt
rescue-NoCollection (raise Error.other) n = tt

rescued-AreCut : (a b : Watched) → AreCut a b → AreCut (rescue a.0, a.1) (rescue b.0, b.1)
rescued-AreCut a b (same, n) = (ap (λ c. (rescue c.0, c.1)) same, rescue-NoCollection a.0 n)

-- Of a child that started, whose input was written, and that a turn of the loop finds alive at its
-- deadline or later, `run_child` takes no collection; and nothing after that turn counts, neither
-- later turns nor how the child ends.
pub run_child_deadline :
    (timeout : ℕ) (c : ChildRun) (start : ℕ) (before after : List Poll) (t : Poll) (y : Exit)
    → c.spawned ≡ ok tt
    → c.written ≡ ok start
    → start + timeout ≤ t.now
    → AreCut
        (run_child timeout (record c { polls = before ++ t ∷ after }))
        (run_child timeout (record c { polls = before ++ t ∷ []; exit = y }))
unfolding run_child run_spawned watch_from
run_child_deadline timeout c start before after t y spawned written late =
    rw (spawned, written)
      (rescued-AreCut _ _ (
        watch-AreCut (start + timeout) c.exit y t after before
          (record { ping_at = c.ping_clock + seconds 20; is_running = false; starts = [] }) late))
