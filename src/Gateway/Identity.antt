-- ===== src/Gateway/Identity.antt =====
-- app/collector/gateway.py, the function `identity` in `collect`: the gate before and after every
-- native read. Paths are compared as the resolved paths that the source compares.
pub mod Verified
use tradetrack_mt5_server.Prelude.{
  ℕ, String, Bool, true, false, not, ◌&&◌, ◌||◌, Option, none, some, List, [], ◌∷◌, leb, nat_beq,
  if◌then◌else◌, ◌==◌, text_key, Result, ok, raise, Error,
}

pub record Account : Type 0 where
  pub login : ℕ
  pub server : String
  pub trade_allowed : Bool
  pub balance : String
  pub equity : String
  pub currency : String

pub record Terminal : Type 0 where
  pub path : String
  pub data_path : String
  pub connected : Bool
  pub tradeapi_disabled : Bool
  pub build : ℕ

pub record Expected : Type 0 where
  pub process_identity : String
  pub login : ℕ
  pub server : String
  pub path : String
  pub data_path : String
  pub consented : Bool

-- What one call of `identity` meets: the process table, the two native calls, and the caption.
pub record Sighting : Type 0 where
  pub process_identity : Result (Option String)
  pub account : Option Account
  pub terminal : Option Terminal
  pub read_only_session : Result Bool

-- The two `nonlocal` variables.
pub record Gate : Type 0 where
  pub verified_build : Option ℕ
  pub trading_mode : Option Bool

abbrev pub collection : String → Error
collection code = Error.collection_error code

abbrev pub is_text : Option String → String → Bool
is_text none t = false
is_text (some s) t = s == t

abbrev pub same_bool : Bool → Bool → Bool
same_bool true b = b
same_bool false b = not b

-- `old is not None and old != new`.
abbrev pub differs_mode : Option Bool → Bool → Bool
differs_mode none b = false
differs_mode (some a) b = not (same_bool a b)

abbrev pub differs_build : Option ℕ → ℕ → Bool
differs_build none b = false
differs_build (some a) b = not (nat_beq a b)

unfoldable pub is_drifted : Expected → Account → Terminal → Bool
is_drifted e a t =
    not (nat_beq a.login e.login)
    || not (a.server == e.server)
    || not (t.path == e.path)
    || not (t.data_path == e.data_path)

-- The last two checks, once the session is known to be read-only or trading is consented to.
unfoldable pub pass_build : Gate → Account → Terminal → Gate × Result Account
pass_build g a t =
    if differs_build g.verified_build t.build
    then (g, raise (collection "IDENTITY_DRIFT"))
    else (record g { verified_build = some t.build }, ok a)

unfoldable pub pass_caption : Gate → Account → Terminal → Result Bool → Gate × Result Account
unfolding pass_build
pass_caption g a t (raise e) = (g, raise e)
pass_caption g a t (ok read_only) =
    if read_only then pass_build g a t else (g, raise (collection "INVESTOR_UNVERIFIED"))

-- From the assignment of `trading_mode` on, which stays whatever fails later.
unfoldable pub pass_trading :
    Expected → Gate → Account → Terminal → Result Bool → Gate × Result Account
unfolding pass_build pass_caption
pass_trading e g a t read_only =
    if not t.tradeapi_disabled
    then (g, raise (collection "PYTHON_TRADING_ENABLED"))
    else if not a.trade_allowed && not e.consented
    then pass_caption g a t read_only
    else pass_build g a t

unfoldable pub pass_account :
    Expected → Gate → Account → Terminal → Result Bool → Gate × Result Account
unfolding is_drifted pass_trading
pass_account e g a t read_only =
    if is_drifted e a t
    then (g, raise (collection "IDENTITY_DRIFT"))
    else if not t.connected
    then (g, raise (collection "NETWORK_UNAVAILABLE"))
    else if a.trade_allowed && not e.consented
    then (g, raise (collection "TRADING_ENABLED"))
    else if differs_mode g.trading_mode a.trade_allowed
    then (g, raise (collection "IDENTITY_DRIFT"))
    else pass_trading e (record g { trading_mode = some a.trade_allowed }) a t read_only

unfoldable pub pass_infos :
    Expected → Gate → Option Account → Option Terminal → Result Bool → Gate × Result Account
unfolding pass_account
pass_infos e g (some a) (some t) read_only = pass_account e g a t read_only
pass_infos e g _ _ read_only = (g, raise (collection "IDENTITY_DRIFT"))

unfoldable pub pass_process :
    Expected → Gate → Sighting → Result (Option String) → Gate × Result Account
unfolding pass_infos
pass_process e g s (raise error) = (g, raise error)
pass_process e g s (ok found) =
    if is_text found e.process_identity
    then pass_infos e g s.account s.terminal s.read_only_session
    else (g, raise (collection "TERMINAL_CHANGED"))

unfoldable pub identity : Expected → Gate → Sighting → Gate × Result Account
unfolding pass_process
identity e g s = pass_process e g s s.process_identity

abbrev pub is_caption_error : Error → Bool
is_caption_error (Error.collection_error code) = code == "INVESTOR_UNVERIFIED"
is_caption_error _ = false

-- The loop over the sightings, each with the clock reading after it; `none` if they run out.
unfoldable pub settle : Expected → ℕ → List (Sighting × ℕ) → Gate → Gate × Option (Result Account)
unfolding identity
settle e deadline [] g = (g, none)
settle e deadline ((s, now) ∷ later) g =
    let (g', answer) = identity e g s in
    let rest = settle e deadline later g' in
    elim answer [
      | ok a ↦ (g', some (ok a))
      | raise error ↦
          if not (is_caption_error error) || leb deadline now
          then (g', some (raise error))
          else rest
    ]
