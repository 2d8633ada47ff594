-- ===== src/Gateway/Collect/Steps.antt =====
-- What an action of `collect` leaves if it returns: of its answer and of the transcript.
use tradetrack_mt5_server.Prelude.{
  ◌≡◌, Bool, true, false, ◌∷◌, if◌then◌else◌, Result, ok, raise, Error, refl,
}
use tradetrack_mt5_server.Prelude.Actions.{◌>>=◌, pure, throw, after}
use tradetrack_mt5_server.Gateway.Collect.{Entry, Log, State, Act, ask, attempt, yields}

-- What holds of the answer and the transcript if an action returns.
abbrev pub Good : {A : Type 0} → (A → Log → Type 0) → Result A × State → Type 0
Good M (ok a, s) = M a s.log
Good M (raise e, s) = Unit

pub record Gives {A : Type 0} (L : Log → Type 0) (m : Act A) (M : A → Log → Type 0) : Type 0 where
  pub at : (s : State) → L s.log → Good M (m s)

-- The entry stands above a transcript of which `L` holds.
abbrev pub Then : Entry → (Log → Type 0) → Log → Type 0
Then e L log = (rest : Log) × (log ≡ e ∷ rest) × L rest

yields-Good :
    {A : Type 0} (L : Log → Type 0) (r : Result A) (s : State)
    → L s.log
    → Good (λ a log. (r ≡ ok a) × L log) (r, s)
yields-Good L (ok a) s l = (refl, l)
yields-Good L (raise e) s l = tt

pub attempt-Good :
    {A : Type 0} (L : Log → Type 0) (r : Result A) (note : Result A → Entry) (s : State) (log : Log)
    → L log
    → Good (λ a. Then (note (ok a)) L) (r, record s { log = note r ∷ log })
attempt-Good L (ok a) note s log l = (log, refl, l)
attempt-Good L (raise e) note s log l = tt

any-Good : {A : Type 0} (x : Result A × State) → Good (λ a log. Unit) x
any-Good (ok a, s) = tt
any-Good (raise e, s) = tt

after-Good :
    {A B : Type 0} (r : Result A) (s : State) (next : A → Act B) (M : A → Log → Type 0)
    (N : B → Log → Type 0)
    → Good M (r, s)
    → ((a : A) → Gives (M a) (next a) N)
    → Good N (after r next s)
after-Good (ok a) s next M N good later = (later a).at s good
after-Good (raise e) s next M N good later = tt

weak-Good :
    {B : Type 0} (M N : B → Log → Type 0)
    → ((b : B) (log : Log) → M b log → N b log)
    → (x : Result B × State) → Good M x
    → Good N x
weak-Good M N weaker (ok b, s) good = weaker b s.log good
weak-Good M N weaker (raise e, s) good = tt

module _ {A : Type 0} {L : Log → Type 0} where
  pub pure-Gives : (a : A) → Gives L (pure a) (λ b log. (b ≡ a) × L log)
  unfolding pure
  pure-Gives a = record { at = λ s l. (refl, l) }

  pub throw-Gives : (e : Error) (M : A → Log → Type 0) → Gives L (throw e) M
  unfolding throw
  throw-Gives e M = record { at = λ s l. tt }

  pub yields-Gives : (r : Result A) → Gives L (yields r) (λ a log. (r ≡ ok a) × L log)
  unfolding yields
  yields-Gives r = record { at = λ s l. yields-Good L r s l }

  pub ask-Gives :
      (answer : Log → A) (note : A → Entry) → Gives L (ask answer note) (λ a. Then (note a) L)
  unfolding ask
  ask-Gives answer note = record { at = λ s l. (s.log, refl, l) }

  pub attempt-Gives :
      (answer : Log → Result A) (note : Result A → Entry)
      → Gives L (attempt answer note) (λ a. Then (note (ok a)) L)
  unfolding attempt
  attempt-Gives answer note = record { at = λ s l. attempt-Good L (answer s.log) note s s.log l }

  pub any-Gives : (m : Act A) → Gives L m (λ a log. Unit)
  any-Gives m = record { at = λ s l. any-Good (m s) }

  pub if-Gives :
      (b : Bool) (m n : Act A) (M : A → Log → Type 0)
      → (b ≡ true → Gives L m M)
      → (b ≡ false → Gives L n M)
      → Gives L (if b then m else n) M
  if-Gives true m n M first second = first refl
  if-Gives false m n M first second = second refl

  pub weaken-Gives :
      (m : Act A) (M N : A → Log → Type 0)
      → Gives L m M
      → ((b : A) (log : Log) → M b log → N b log)
      → Gives L m N
  weaken-Gives m M N gives weaker = record { at = λ s l. weak-Good M N weaker (m s) (gives.at s l) }

  -- A fact besides the transcript.
  pub given-Gives :
      (P : Type 0) (m : Act A) (N : A → Log → Type 0)
      → (P → Gives L m N)
      → Gives (λ log. P × L log) m N
  given-Gives P m N gives = record { at = λ s (p, l). (gives p).at s l }

-- A value that the transcript is said of.
pub some-Gives :
    {A B : Type 0} (K : B → Log → Type 0) (m : Act A) (N : A → Log → Type 0)
    → ((b : B) → Gives (K b) m N)
    → Gives (λ log. (b : B) × K b log) m N
some-Gives K m N gives = record { at = λ s (b, k). (gives b).at s k }

module _ {A B : Type 0} {L : Log → Type 0} where
  pub bind-Gives :
      (m : Act A) (next : A → Act B) (M : A → Log → Type 0) (N : B → Log → Type 0)
      → Gives L m M
      → ((a : A) → Gives (M a) (next a) N)
      → Gives L (m >>= next) N
  unfolding ◌>>=◌
  bind-Gives m next M N first later = record {
    at = λ s l. after-Good (m s).0 (m s).1 next M N (first.at s l) later;
  }
