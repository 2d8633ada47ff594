-- ===== src/Gateway/Login/Outage.antt =====
-- What a failed login is reported as an outage of the network for.
use tradetrack_mt5_server.Prelude.{
  ℕ, ◌+◌, ◌≡◌, ◌⊎◌, inl, inr, String, Bool, true, false, not, ◌&&◌, ◌||◌, Option, none, some, List,
  [], ◌∷◌, Any, leb, if◌then◌else◌, ◌==◌, text_key, ==_sound, Result, ok, Error, arith, refl,
}
use tradetrack_mt5_server.Prelude.Int.{ℤ, negsuc, same_ℤ}
use tradetrack_mt5_server.Throttle.{seconds}
use tradetrack_mt5_server.Gateway.Login.{
  Code, auth_failed, connection_failed, terminal_ipc_unavailable, network_unavailable, is_doubtful,
  connection_error, is_ipc, parts, Evidence, nothing, sync_message, common_message,
  unavailable_message, is_rejection, see, scan, Reading, end_look, look_after, look, is_transport,
  login_turn, await_evidence, login_failure,
}

or_and : (o p q : Bool) → (o || (p && q)) ≡ true → (o ≡ true) ⊎ ((p ≡ true) × (q ≡ true))
or_and o p q h = ground arith

unrejected :
    {A : Type 0} (b : Bool) (x : Option A) {y : A}
    → (if b then none else x) ≡ some y
    → (b ≡ false) × (x ≡ some y)
unrejected true x h = cc
unrejected false x h = (refl, h)

-- Which branch gave the value.
if_cases :
    {A : Type 0} (b : Bool) {x y z : A}
    → (if b then x else y) ≡ z
    → ((b ≡ true) × (x ≡ z)) ⊎ ((b ≡ false) × (y ≡ z))
if_cases true h = inl (refl, h)
if_cases false h = inr (refl, h)

-- Neither end of the wait is an outage.
abbrev end_wait : Bool → Option (Result Code)
end_wait late = if late then some (ok connection_failed) else none

unmoved : (late : Bool) → end_wait late ≡ some (ok network_unavailable) → ⊥
unmoved true h = cc
unmoved false h = cc

abbrev coded : Bool → Bool → Code
coded auth ipc =
    if auth then auth_failed else if ipc then terminal_ipc_unavailable else connection_failed

local_code : (auth ipc : Bool) → coded auth ipc ≡ network_unavailable → ⊥
local_code true ipc h = cc
local_code false true h = cc
local_code false false h = cc

true-false : {b : Bool} → b ≡ true → b ≡ false → ⊥
true-false h k = cc

fresh : {S : Type 0} → (false ≡ true) ⊎ S → S
fresh (inl h) = cc
fresh (inr s) = s

module _ (strip : String → String) (login server : String) where
  -- A line has five fields or more, of which the last two are so.
  abbrev OfLine : (String → String → Type 0) → Option (String × String) → Type 0
  OfLine P none = ⊥
  OfLine P (some part) = P part.0 (strip part.1)

  abbrev pub IsSeen : String → String → List String → Type 0
  IsSeen source message line = OfLine (λ a b. (a ≡ source) × (b ≡ message)) (parts line)

  -- The line tells of a rejection with a reason of its own.
  abbrev pub IsRejected : List String → Type 0
  IsRejected line = OfLine (λ a b. is_rejection strip login server a b ≡ true) (parts line)

  -- The broker's service is not available, or a synchronization failed as well as an authorization,
  -- for no reason of its own.
  abbrev pub IsOutage : List (List String) → Type 0
  IsOutage lines =
      Any (IsSeen "Network" (unavailable_message strip login server)) lines
      ⊎ (Any (IsSeen server (sync_message strip login server)) lines
          × Any (IsSeen "Network" (common_message strip login server)) lines)

  -- A new flag is an old one or has a line.
  abbrev Scanned : (R S C U : Type 0) (e e' : Evidence) → Type 0
  Scanned R S C U e e' =
      ¬ R
      × (e'.sync_failed ≡ true → (e.sync_failed ≡ true) ⊎ S)
      × (e'.common_error ≡ true → (e.common_error ≡ true) ⊎ C)
      × (e'.service_unavailable ≡ true → (e.service_unavailable ≡ true) ⊎ U)

  flag_seen :
      (old : Bool) (a b s m : String)
      → (old || (a == s && b == m)) ≡ true
      → (old ≡ true) ⊎ ((a ≡ s) × (b ≡ m))
  flag_seen old a b s m h = elim (or_and old (a == s) (b == m) h) [
    | inl set ↦ inl set
    | inr (first, second) ↦ inr (==_sound a s first, ==_sound b m second)
  ]

  -- From the flags after a line to the flags before it.
  flag_before :
      (new old : Bool) (L S : Type 0)
      → (new ≡ true → (old ≡ true) ⊎ L)
      → (last : Bool) → (last ≡ true → (new ≡ true) ⊎ S)
      → last ≡ true
      → (old ≡ true) ⊎ (L ⊎ S)
  flag_before new old L S line last rest h = elim (rest h) [
    | inr s ↦ inr (inr s)
    | inl n ↦ elim (line n) [ inl o ↦ inl o | inr l ↦ inr (inl l) ]
  ]

  abbrev Lines : List (List String) → Evidence → Evidence → Type 0
  Lines lines =
      Scanned (Any IsRejected lines) (Any (IsSeen server (sync_message strip login server)) lines)
        (Any (IsSeen "Network" (common_message strip login server)) lines)
        (Any (IsSeen "Network" (unavailable_message strip login server)) lines)

  scan_part :
      (part : Option (String × String)) (lines : List (List String)) (e e' : Evidence)
      → ((g : Evidence) → scan strip login server lines g ≡ some e' → Lines lines g e')
      → (elim part as (λ _. Option Evidence) [
        | none ↦ scan strip login server lines e
        | some part ↦
            let rest =
              scan strip login server lines (see strip login server part.0 (strip part.1) e) in
            if is_rejection strip login server part.0 (strip part.1) then none else rest
      ])
        ≡ some e'
      → Scanned
          (OfLine (λ a b. is_rejection strip login server a b ≡ true) part ⊎ Any IsRejected lines)
          (OfLine (λ a b. (a ≡ server) × (b ≡ sync_message strip login server)) part
            ⊎ Any (IsSeen server (sync_message strip login server)) lines)
          (OfLine (λ a b. (a ≡ "Network") × (b ≡ common_message strip login server)) part
            ⊎ Any (IsSeen "Network" (common_message strip login server)) lines)
          (OfLine (λ a b. (a ≡ "Network") × (b ≡ unavailable_message strip login server)) part
            ⊎ Any (IsSeen "Network" (unavailable_message strip login server)) lines)
          e
          e'
  unfolding see
  scan_part none lines e e' rest h =
      let (r, s, c, u) = rest e h in
      (
        λ x. elim x [ inl b ↦ b | inr q ↦ r q ],
        flag_before e.sync_failed e.sync_failed ⊥ _ (λ k. inl k) e'.sync_failed s,
        flag_before e.common_error e.common_error ⊥ _ (λ k. inl k) e'.common_error c,
        flag_before e.service_unavailable e.service_unavailable ⊥ _ (λ k. inl k)
            e'.service_unavailable u,
      )
  scan_part (some part) lines e e' rest h =
      let (fine, read) = unrejected (is_rejection strip login server part.0 (strip part.1)) _ h in
      let (r, s, c, u) = rest (see strip login server part.0 (strip part.1) e) read in
      (
        λ x. elim x [ inl b ↦ true-false b fine | inr q ↦ r q ],
        flag_before _ e.sync_failed _ _ (flag_seen e.sync_failed part.0 (strip part.1) server _)
            e'.sync_failed s,
        flag_before _ e.common_error _ _
            (flag_seen e.common_error part.0 (strip part.1) "Network" _) e'.common_error c,
        flag_before _ e.service_unavailable _ _
            (flag_seen e.service_unavailable part.0 (strip part.1) "Network" _)
            e'.service_unavailable u,
      )

  scan-Lines :
      (lines : List (List String)) (e e' : Evidence)
      → scan strip login server lines e ≡ some e'
      → Lines lines e e'
  unfolding scan
  scan-Lines [] e e' h = ground arith
  scan-Lines (line ∷ lines) e e' h =
      scan_part (parts line) lines e e' (λ g k. scan-Lines lines g e' k) h

  -- What a reading shows, if it is taken as an outage.
  abbrev pub IsOutageRead : Reading → Type 0
  IsOutageRead r = (r.failure ≡ none) × ¬ Any IsRejected r.lines × IsOutage r.lines

  transport-IsOutage :
      (lines : List (List String)) (e : Evidence)
      → Lines lines nothing e
      → is_transport e ≡ true
      → IsOutage lines
  transport-IsOutage lines e (r, s, c, u) h =
      elim (or_and e.service_unavailable e.sync_failed e.common_error h) [
        | inl down ↦ inl (fresh (u down))
        | inr (sync, common) ↦ inr (fresh (s sync), fresh (c common))
      ]

  -- A pass that is taken as an outage: no error ended it, no line told of a rejection, and its lines
  -- show one.
  abbrev pub IsOutageTurn : Reading × ℕ → Type 0
  IsOutageTurn t = IsOutageRead t.0

  abbrev Networks : Option (Result Code) → Type 0
  Networks x = x ≡ some (ok network_unavailable)

  outage_read :
      (answer : Code) (deadline now : ℕ) (lines : List (List String)) (x : Option Evidence)
      (failure : Option Error)
      → scan strip login server lines nothing ≡ x
      → (answer ≡ network_unavailable → ⊥)
      → Networks (login_turn answer deadline now (look_after x failure))
      → IsOutageRead (record { lines = lines; failure = failure })
  unfolding look_after end_look login_turn
  outage_read answer deadline now lines none failure read other h =
      let same : answer ≡ network_unavailable = cc in elim (other same) [ ]
  outage_read answer deadline now lines (some e) none read other h =
      let l = scan-Lines lines nothing e read in
      elim (if_cases (is_transport e) h) [
        | inl (shown, k) ↦ (refl, l.0, transport-IsOutage lines e l shown)
        | inr (hidden, k) ↦ elim (unmoved (leb deadline now) k) [ ]
      ]
  outage_read answer deadline now lines (some e) (some (Error.collection_error c)) read other h = cc
  outage_read answer deadline now lines (some e) (some Error.os_error) read other h =
      elim (unmoved (leb deadline now) h) [ ]
  outage_read answer deadline now lines (some e) (some (Error.inventory_error c)) read other h = cc
  outage_read answer deadline now lines (some e) (some (Error.agent_error c)) read other h = cc
  outage_read answer deadline now lines (some e) (some (Error.data_error c f)) read other h = cc
  outage_read answer deadline now lines (some e) (some Error.other) read other h = cc

  turn_cases :
      (x : Option (Result Code)) (rest : Option (Result Code)) (P Q : Type 0)
      → (Networks x → P)
      → (Networks rest → Q)
      → Networks (elim x as (λ _. Option (Result Code)) [ some r ↦ some r | none ↦ rest ])
      → P ⊎ Q
  turn_cases (some r) rest P Q here later h = inl (here h)
  turn_cases none rest P Q here later h = inr (later h)

  await_evidence-Any :
      (answer : Code) (deadline : ℕ) (turns : List (Reading × ℕ))
      → (answer ≡ network_unavailable → ⊥)
      → Networks (await_evidence strip login server answer deadline turns)
      → Any IsOutageTurn turns
  unfolding await_evidence look
  await_evidence-Any answer deadline [] other h = cc
  await_evidence-Any answer deadline (t ∷ turns) other h =
      turn_cases (login_turn answer deadline t.1 (look strip login server t.0)) _ _ _
        (λ k. outage_read answer deadline t.1 t.0.lines _ t.0.failure refl other k)
        (λ k. await_evidence-Any answer deadline turns other k) h

  ok_inj : {s t : Code} → some (ok s) ≡ some (ok t) → s ≡ t
  ok_inj h = cc

  is_other : (error : Option ℤ) → connection_error error ≡ network_unavailable → ⊥
  unfolding connection_error
  is_other none h = cc
  is_other (some c) h = local_code (same_ℤ c (negsuc 5)) (is_ipc c) h

  -- If a failed login is reported as NETWORK_UNAVAILABLE, then one pass over the journal read fresh
  -- lines to their end, of which none tells of a rejection of this login with a reason of its own, and
  -- which tell that the broker's service is not available for it, or that both its synchronization and
  -- its authorization failed, the latter as a common error.
  pub login_failure-IsOutage :
      (error : Option ℤ) (has_baseline : Bool) (start : ℕ) (turns : List (Reading × ℕ))
      → login_failure strip login server error has_baseline start turns
        ≡ some (ok network_unavailable)
      → Any IsOutageTurn turns
  unfolding login_failure
  login_failure-IsOutage error has_baseline start turns h =
      elim (if_cases (not (is_doubtful (connection_error error))) h) [
        | inl (ipc, q) ↦ elim (is_other error (ok_inj q)) [ ]
        | inr (login, q) ↦ elim (if_cases (not has_baseline) q) [
          | inl (missing, r) ↦ cc
          | inr (present, r) ↦
              await_evidence-Any (connection_error error) (start + seconds 10) turns
                (is_other error) r
        ]
      ]
