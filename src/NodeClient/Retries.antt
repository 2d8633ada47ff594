-- ===== src/NodeClient/Retries.antt =====
-- How often a request is tried, how long it waits, and what its answer rests on.
use tradetrack_mt5_server.Prelude.{
  ℕ, zero, suc, ◌+◌, ◌≤◌, ◌<◌, ◌≡◌, ◌^◌, String, true, List, [], ◌∷◌, length, All, Result, ok,
  arith, refl, dec_lt, subst, ap, ◌∙◌,
}
use tradetrack_mt5_server.NodeClient.{
  invalid, no_object, object, Reply, response, no_digits, unreadable, wanted, http_error,
  unreachable, Decision, ends, sleeps, is_transient, decide_reply, read_body, call_from, call,
}

power_pos : (attempt : ℕ) → attempt ≤ 2 → 1 ≤ 2 ^ attempt
power_pos zero small = omega arith
power_pos (suc zero) small = omega arith
power_pos (suc (suc zero)) small = omega arith
power_pos (suc (suc (suc n))) small = absurd (omega arith)

module _ {A : Type 0} (http_code : ℕ → String) (limit : ℕ) where
  abbrev decide : ℕ → Reply A → Decision A
  decide = decide_reply http_code limit

  -- A reply after which another attempt may follow: a transient status whose `Retry-After`, if any, is
  -- at most ten seconds, or a connection that fails.
  abbrev pub IsRetryable : Reply A → Type 0
  IsRetryable (response size body) = ⊥
  IsRetryable (http_error status no_digits) = is_transient status ≡ true
  IsRetryable (http_error status unreadable) = ⊥
  IsRetryable (http_error status (wanted wait)) = (is_transient status ≡ true) × (wait ≤ 10)
  IsRetryable unreachable = Unit

  -- A turn that sleeps does so before the last attempt, for a second to ten, after such a reply.
  retry_sleeps :
      (attempt : ℕ) (reply : Reply A) (delay : ℕ)
      → attempt ≤ 2
      → decide attempt reply ≡ sleeps delay
      → (attempt < 2) × (1 ≤ delay) × (delay ≤ 10) × IsRetryable reply
  unfolding decide_reply
  retry_sleeps attempt (response size body) delay small h = absurd (ground arith)
  retry_sleeps attempt (http_error status unreadable) delay small h = absurd (ground arith)
  retry_sleeps attempt (http_error status no_digits) delay small h =
      ground (arith, power_pos attempt small)
  retry_sleeps attempt (http_error status (wanted wait)) delay small h =
      ground (arith, power_pos attempt small)
  retry_sleeps attempt unreachable delay small h = ground (arith, power_pos attempt small)

  -- The first attempts, up to one that ends: all replies before it allow another attempt.
  pub record IsCall (replies : ℕ → Reply A) (attempt : ℕ) (r : Result A) (slept : List ℕ)
      : Type 0 where
    pub retries : ℕ
    pub last : ℕ
    pub is_last : last ≡ attempt + retries
    pub in_bound : last ≤ 2
    pub decided : decide last (replies last) ≡ ends r
    pub as_often : length slept ≡ retries
    pub bounded : All (λ delay. (1 ≤ delay) × (delay ≤ 10)) slept
    pub allowed : (i : ℕ) → attempt ≤ i → i < last → IsRetryable (replies i)

  IsCall-sleeps :
      (replies : ℕ → Reply A) (attempt : ℕ) (r : Result A) (slept : List ℕ) (delay : ℕ)
      → (1 ≤ delay) × (delay ≤ 10)
      → IsRetryable (replies attempt)
      → IsCall replies (suc attempt) r slept
      → IsCall replies attempt r (delay ∷ slept)
  IsCall-sleeps replies attempt r slept delay d allowed_now c = record {
    retries = suc c.retries;
    last = c.last;
    is_last = omega (arith, c.is_last);
    in_bound = c.in_bound;
    decided = c.decided;
    as_often = omega (arith, c.as_often);
    bounded = (d, c.bounded);
    allowed = λ i low high. elim (dec_lt attempt i) [
      | yes later ↦ c.allowed i (omega arith) high
      | no here ↦
          let e : attempt ≡ i = omega arith in subst (λ j. IsRetryable (replies j)) e allowed_now
    ];
  }

  call_from_ends :
      (left attempt : ℕ) (replies : ℕ → Reply A) (r : Result A)
      → decide attempt (replies attempt) ≡ ends r
      → (r, []) ≡ call_from http_code limit (suc left) attempt replies
  unfolding call_from
  call_from_ends left attempt replies r e = rw (call_from, e) refl

  call_from_sleeps :
      (left attempt : ℕ) (replies : ℕ → Reply A) (delay : ℕ)
      → decide attempt (replies attempt) ≡ sleeps delay
      → (
        (call_from http_code limit left (suc attempt) replies).0,
        delay ∷ (call_from http_code limit left (suc attempt) replies).1,
      )
        ≡ call_from http_code limit (suc left) attempt replies
  unfolding call_from
  call_from_sleeps left attempt replies delay e = rw (call_from, e) refl

  IsCall-decides :
      (left attempt : ℕ) (replies : ℕ → Reply A) (d : Decision A)
      → attempt ≤ 2
      → decide attempt (replies attempt) ≡ d
      → (attempt < 2
          → IsCall replies
              (suc attempt)
              (call_from http_code limit left (suc attempt) replies).0
              (call_from http_code limit left (suc attempt) replies).1)
      → IsCall replies attempt
          (call_from http_code limit (suc left) attempt replies).0
          (call_from http_code limit (suc left) attempt replies).1
  IsCall-decides left attempt replies (ends r) small e later =
      subst (λ p. IsCall replies attempt p.0 p.1) (call_from_ends left attempt replies r e)
        record {
          retries = 0;
          last = attempt;
          is_last = omega arith;
          in_bound = small;
          decided = e;
          as_often = refl;
          bounded = tt;
          allowed = λ i low high. absurd (omega arith);
        }
  IsCall-decides left attempt replies (sleeps delay) small e later =
      let (more, low, high, allowed) = retry_sleeps attempt (replies attempt) delay small e in
      subst (λ p. IsCall replies attempt p.0 p.1) (call_from_sleeps left attempt replies delay e)
        (IsCall-sleeps replies attempt (call_from http_code limit left (suc attempt) replies).0
          (call_from http_code limit left (suc attempt) replies).1 delay (low, high) allowed
          (later more))

  call_from-IsCall :
      (left attempt : ℕ) (replies : ℕ → Reply A)
      → attempt + left ≡ 2
      → IsCall replies attempt
          (call_from http_code limit (suc left) attempt replies).0
          (call_from http_code limit (suc left) attempt replies).1
  call_from-IsCall zero attempt replies fits =
      IsCall-decides 0 attempt replies (decide attempt (replies attempt)) (omega arith) refl
        (λ more. absurd (omega arith))
  call_from-IsCall (suc left) attempt replies fits =
      IsCall-decides (suc left) attempt replies (decide attempt (replies attempt)) (omega arith)
        refl (λ more. call_from-IsCall left (suc attempt) replies (omega arith))

  ends_ok :
      (attempt : ℕ) (reply : Reply A) (a : A)
      → decide attempt reply ≡ ends (ok a)
      → (size : ℕ) × (size ≤ limit) × (reply ≡ response size (object a))
  unfolding decide_reply read_body
  ends_ok attempt (response size invalid) a h = absurd (ground arith)
  ends_ok attempt (response size no_object) a h = absurd (ground arith)
  ends_ok attempt (response size (object b)) a h = (size, ground arith, ground arith)
  ends_ok attempt (http_error status no_digits) a h = absurd (ground arith)
  ends_ok attempt (http_error status unreadable) a h = absurd (ground arith)
  ends_ok attempt (http_error status (wanted wait)) a h = absurd (ground arith)
  ends_ok attempt unreachable a h = absurd (ground arith)

  -- A call sends at most three requests. It ends with what one reply decides; every reply before
  -- that one was transient or a failed connection, and was followed by one sleep of 1 to 10 seconds.
  pub call-IsCall :
      (replies : ℕ → Reply A)
      → IsCall replies 0 (call http_code limit replies).0 (call http_code limit replies).1
  unfolding call
  call-IsCall replies = call_from-IsCall 2 0 replies (omega arith)

  -- A call that answers has slept twice at most, and has read an object, in a response within the
  -- limit, as the reply to the request after its last sleep; to each request before that one the
  -- reply was transient or a failed connection.
  pub call-ok :
      (replies : ℕ → Reply A) (a : A)
      → (call http_code limit replies).0 ≡ ok a
      → (size : ℕ) × (length (call http_code limit replies).1 ≤ 2)
        × (size ≤ limit)
        × (replies (length (call http_code limit replies).1) ≡ response size (object a))
        × ((i : ℕ) → i < length (call http_code limit replies).1 → IsRetryable (replies i))
  call-ok replies a h =
      let c = call-IsCall replies in
      let (size, small, e) = ends_ok c.last (replies c.last) a (c.decided ∙ ap ends h) in
      let same : c.last ≡ length (call http_code limit replies).1 =
        omega (arith, c.is_last, c.as_often) in
      (
        size,
        subst (λ n. n ≤ 2) same c.in_bound,
        small,
        subst (λ n. replies n ≡ response size (object a)) same e,
        λ i before. c.allowed i (omega arith) (omega (arith, same)),
      )
