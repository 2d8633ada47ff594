-- ===== src/Gateway/Identity/Verified.antt =====
-- What a passed gate has established.
use tradetrack_mt5_server.Prelude.{
  ℕ, ◌≡◌, ◌⊎◌, inl, inr, String, Bool, true, false, not, ◌||◌, Option, none, some, List, [], ◌∷◌,
  leb, ◌==◌, text_key, ==_sound, Result, ok, raise, Error, arith, refl, Bool-cases, ap, ◌∙◌, subst,
  Any,
}
use tradetrack_mt5_server.Gateway.Identity.{
  Account, Terminal, Expected, Sighting, Gate, is_drifted, identity, settle, pass_account,
  pass_infos, pass_process, is_caption_error,
}

-- The session that a sighting shows is the expected one, and cannot trade unless that was consented
-- to; `g` holds its build and its trading mode.
pub record IsVerified (e : Expected) (s : Sighting) (g : Gate) (a : Account) : Type 0 where
  pub terminal : Terminal
  pub same_process : s.process_identity ≡ ok (some e.process_identity)
  pub account_seen : s.account ≡ some a
  pub terminal_seen : s.terminal ≡ some terminal
  pub same_login : a.login ≡ e.login
  pub same_server : a.server ≡ e.server
  pub same_path : terminal.path ≡ e.path
  pub same_data : terminal.data_path ≡ e.data_path
  pub connected : terminal.connected ≡ true
  pub no_python_trading : terminal.tradeapi_disabled ≡ true
  pub read_only :
      (e.consented ≡ true) ⊎ ((a.trade_allowed ≡ false) × (s.read_only_session ≡ ok true))
  pub build_kept : g.verified_build ≡ some terminal.build
  pub mode_kept : g.trading_mode ≡ some a.trade_allowed

-- What the checks of an account and a terminal establish when they pass.
record IsPassed (e : Expected) (a : Account) (t : Terminal) (caption : Result Bool)
    (r : Gate × Result Account) (b : Account) : Type 0 where
  same_account : a ≡ b
  same_login : a.login ≡ e.login
  same_server : a.server ≡ e.server
  same_path : t.path ≡ e.path
  same_data : t.data_path ≡ e.data_path
  connected : t.connected ≡ true
  no_python_trading : t.tradeapi_disabled ≡ true
  read_only : (e.consented ≡ true) ⊎ ((a.trade_allowed ≡ false) × (caption ≡ ok true))
  build_kept : r.0.verified_build ≡ some t.build
  mode_kept : r.0.trading_mode ≡ some a.trade_allowed

pass_account-IsPassed :
    (e : Expected) (g : Gate) (a : Account) (t : Terminal) (caption : Result Bool) (b : Account)
    → (pass_account e g a t caption).1 ≡ ok b
    → IsPassed e a t caption (pass_account e g a t caption) b
unfolding pass_account is_drifted
pass_account-IsPassed e g a t (raise error) b h =
    ground
      (arith, ==_sound a.server e.server, ==_sound t.path e.path, ==_sound t.data_path e.data_path)
pass_account-IsPassed e g a t (ok seen) b h =
    ground
      (arith, ==_sound a.server e.server, ==_sound t.path e.path, ==_sound t.data_path e.data_path)

-- A gate that has a build or a mode keeps it.
abbrev pub Keeps : Gate → Gate → Type 0
Keeps g g' =
    ((b : ℕ) → g.verified_build ≡ some b → g'.verified_build ≡ some b)
    × ((m : Bool) → g.trading_mode ≡ some m → g'.trading_mode ≡ some m)

pass_account-Keeps :
    (e : Expected) (g : Gate) (a : Account) (t : Terminal) (caption : Result Bool)
    → Keeps g (pass_account e g a t caption).0
unfolding pass_account is_drifted
pass_account-Keeps e g a t (raise error) = ((λ b h. ground arith), (λ m h. ground arith))
pass_account-Keeps e g a t (ok seen) = ((λ b h. ground arith), (λ m h. ground arith))

process-IsVerified :
    (e : Expected) (g : Gate) (s : Sighting) (process : Result (Option String))
    (account : Option Account) (terminal : Option Terminal) (a : Account)
    → s.process_identity ≡ process
    → s.account ≡ account
    → s.terminal ≡ terminal
    → (pass_process e g s process).1 ≡ ok a
    → IsVerified e s (pass_process e g s process).0 a
unfolding pass_process
process-IsVerified e g s (raise error) account terminal a p q r h = cc
process-IsVerified e g s (ok none) account terminal a p q r h = cc
process-IsVerified e g s (ok (some found)) none terminal a p q r h =
    absurd (elim (Bool-cases (found == e.process_identity)) [
      | inl same ↦ let f = rw (same, q) at h in cc
      | inr other ↦ let f = rw other at h in cc
    ])
process-IsVerified e g s (ok (some found)) (some b) none a p q r h =
    absurd (elim (Bool-cases (found == e.process_identity)) [
      | inl same ↦ let f = rw (same, q, r) at h in cc
      | inr other ↦ let f = rw other at h in cc
    ])
process-IsVerified e g s (ok (some found)) (some b) (some t) a p q r h =
    elim (Bool-cases (found == e.process_identity)) [
      | inl same ↦
          let f = rw (same, q, r) at h in
          let c = pass_account-IsPassed e g b t s.read_only_session a f in
          rw (same, q, r)
            record {
              terminal = t;
              same_process = p ∙ ap (λ x. ok (some x)) (==_sound found e.process_identity same);
              account_seen = ap some c.same_account;
              terminal_seen = refl;
              same_login = subst (λ x. x.login ≡ e.login) c.same_account c.same_login;
              same_server = subst (λ x. x.server ≡ e.server) c.same_account c.same_server;
              same_path = c.same_path;
              same_data = c.same_data;
              connected = c.connected;
              no_python_trading = c.no_python_trading;
              read_only =
                  subst
                    (λ x.
                      (e.consented ≡ true)
                      ⊎ ((x.trade_allowed ≡ false) × (s.read_only_session ≡ ok true)))
                    c.same_account c.read_only;
              build_kept = c.build_kept;
              mode_kept = c.mode_kept ∙ ap (λ x. some x.trade_allowed) c.same_account;
            }
      | inr other ↦ absurd (let f = rw other at h in cc)
    ]

infos-Keeps :
    (e : Expected) (g : Gate) (account : Option Account) (terminal : Option Terminal)
    (caption : Result Bool)
    → Keeps g (pass_infos e g account terminal caption).0
unfolding pass_infos
infos-Keeps e g none terminal caption = ((λ b h. h), (λ m h. h))
infos-Keeps e g (some a) none caption = ((λ b h. h), (λ m h. h))
infos-Keeps e g (some a) (some t) caption = pass_account-Keeps e g a t caption

process-Keeps :
    (e : Expected) (g : Gate) (s : Sighting) (process : Result (Option String))
    → Keeps g (pass_process e g s process).0
unfolding pass_process
process-Keeps e g s (raise error) = ((λ b h. h), (λ m h. h))
process-Keeps e g s (ok none) = ((λ b h. h), (λ m h. h))
process-Keeps e g s (ok (some found)) = elim (Bool-cases (found == e.process_identity)) [
  | inl same ↦ rw same (infos-Keeps e g s.account s.terminal s.read_only_session)
  | inr other ↦ rw other ((λ b h. h), (λ m h. h))
]

-- Whatever a call of `identity` meets, a build or a trading mode noted before it stays.
pub identity-Keeps : (e : Expected) (g : Gate) (s : Sighting) → Keeps g (identity e g s).0
unfolding identity
identity-Keeps e g s = process-Keeps e g s s.process_identity

-- If `identity` passes, then the process, the account and the terminal are the expected ones, the
-- terminal is connected, trading through Python is disabled, and the session is read-only unless
-- trading was consented to.
pub identity-IsVerified :
    (e : Expected) (g : Gate) (s : Sighting) (a : Account)
    → (identity e g s).1 ≡ ok a
    → IsVerified e s (identity e g s).0 a
unfolding identity
identity-IsVerified e g s a h =
    process-IsVerified e g s s.process_identity s.account s.terminal a refl refl refl h

Result-cases : {A : Type 0} (r : Result A) → ((a : A) × (r ≡ ok a)) ⊎ ((e : Error) × (r ≡ raise e))
Result-cases (ok a) = inl (a, refl)
Result-cases (raise e) = inr (e, refl)

-- If the wait for the caption ends with an account, then one of the sightings was verified.
pub settle-IsVerified :
    (e : Expected) (deadline : ℕ) (seen : List (Sighting × ℕ)) (g g' : Gate) (a : Account)
    → settle e deadline seen g ≡ (g', some (ok a))
    → Any (λ at. IsVerified e at.0 g' a) seen
unfolding settle
settle-IsVerified e deadline [] g g' a h = let f = ap (λ p. p.1) h in cc
settle-IsVerified e deadline ((s, now) ∷ later) g g' a h = elim (Result-cases (identity e g s).1) [
  | inl (b, passed) ↦
      let f = rw (settle, passed) at h in
      let same_gate : (identity e g s).0 ≡ g' = ap (λ p. p.0) f in
      let answer : some (ok b) ≡ some (ok a) = ap (λ p. p.1) f in
      let same : b ≡ a = ground arith in
      inl (
        subst (λ x. IsVerified e s x a) same_gate
          (identity-IsVerified e g s a (passed ∙ ap ok same)))
  | inr (error, failed) ↦ elim (Bool-cases (not (is_caption_error error) || leb deadline now)) [
    | inl ends ↦
        let f = rw (settle, failed, ends) at h in
        absurd (let answer = ap (λ p. p.1) f in ground arith)
    | inr waits ↦
        let f = rw (settle, failed, waits) at h in
        inr (settle-IsVerified e deadline later (identity e g s).0 g' a f)
  ]
]
