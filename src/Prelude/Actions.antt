-- ===== src/Prelude/Actions.antt =====
-- Code with effects: a state passed through, and a result. The state comes back after a raise too.
-- The combinators are shut, so a proof walks a block by the rules below, or opens `steps`.
use mathlib.Core.Path.{◌≡◌, refl}
use mathlib.Core.Bool.{Bool, true, false}
use mathlib.Core.Option.{Option, none, some}
use tradetrack_mt5_server.Prelude.Tests.{if◌then◌else◌}
use tradetrack_mt5_server.Prelude.Results.{Error, Result, ok, raise}

abbrev pub Action : Type 0 → Type 0 → Type 0
Action S A = S → Result A × S

-- Code that runs if the first part returns.
abbrev pub after : {S A B : Type 0} → Result A → (A → Action S B) → Action S B
after (ok a) next s = next a s
after (raise e) next s = (raise e, s)

-- Code that runs if the first part raises.
abbrev pub rescued : {S A : Type 0} → Result A → (Error → Action S A) → Action S A
rescued (ok a) handler s = (ok a, s)
rescued (raise e) handler s = handler e s

infixl 5 ◌>>=◌ ◌>>◌
unfoldable pub ◌>>=◌ : {S A B : Type 0} → Action S A → (A → Action S B) → Action S B
◌>>=◌ first next s = let (r, s') = first s in after r next s'

abbrev pub ◌>>◌ : {S A B : Type 0} → Action S A → Action S B → Action S B
first >> next = first >>= λ _. next

module _ {S A : Type 0} where
  unfoldable pub pure : A → Action S A
  pure a s = (ok a, s)

  unfoldable pub throw : Error → Action S A
  throw e s = (raise e, s)

  unfoldable pub reads : (S → A) → Action S A
  reads f s = (ok (f s), s)

  -- `finally`: the clean-up follows, whatever the result.
  unfoldable pub finally : Action S A → (S → S) → Action S A
  finally body cleanup s = let (r, s') = body s in (r, cleanup s')

  -- `except`, with the state that the raise left.
  unfoldable pub catch : Action S A → (Error → Action S A) → Action S A
  catch body handler s = let (r, s') = body s in rescued r handler s'

  -- What holds before an action holds after it, whether it returns or raises.
  pub record Keeps (P : S → Type 0) (m : Action S A) : Type 0 where
    pub at : (s : S) → P s → P (m s).1

-- A branch on a value that may be missing.
unfoldable pub choose : {S A B : Type 0} → Option B → Action S A → (B → Action S A) → Action S A
choose none missing there = missing
choose (some b) missing there = there b

unfoldable pub writes : {S : Type 0} → (S → S) → Action S (Unit {0})
writes f s = (ok tt, f s)

module _ {S A : Type 0} {P : S → Type 0} where
  pub pure-Keeps : (a : A) → Keeps P (pure a)
  unfolding pure
  pure-Keeps a = record { at = λ s p. p }

  pub throw-Keeps : (e : Error) → Keeps P (throw {A = A} e)
  unfolding throw
  throw-Keeps e = record { at = λ s p. p }

  pub reads-Keeps : (f : S → A) → Keeps P (reads f)
  unfolding reads
  reads-Keeps f = record { at = λ s p. p }

  pub if-Keeps :
      (b : Bool) (m n : Action S A)
      → (b ≡ true → Keeps P m)
      → (b ≡ false → Keeps P n)
      → Keeps P (if b then m else n)
  if-Keeps true m n first second = first refl
  if-Keeps false m n first second = second refl

  pub finally-Keeps :
      (m : Action S A) (cleanup : S → S)
      → Keeps P m
      → ((s : S) → P s → P (cleanup s))
      → Keeps P (finally m cleanup)
  unfolding finally
  finally-Keeps m cleanup body clean = record { at = λ s p. clean (m s).1 (body.at s p) }

  rescued-Keeps :
      (r : Result A) (handler : Error → Action S A)
      → ((e : Error) → Keeps P (handler e))
      → Keeps P (rescued r handler)
  rescued-Keeps (ok a) handler keeps = record { at = λ s p. p }
  rescued-Keeps (raise e) handler keeps = keeps e

  pub catch-Keeps :
      (m : Action S A) (handler : Error → Action S A)
      → Keeps P m
      → ((e : Error) → Keeps P (handler e))
      → Keeps P (catch m handler)
  unfolding catch
  catch-Keeps m handler body keeps = record {
    at = λ s p. (rescued-Keeps (m s).0 handler keeps).at (m s).1 (body.at s p);
  }

module _ {S A B : Type 0} {P : S → Type 0} where
  pub choose-Keeps :
      (x : Option B) (missing : Action S A) (there : B → Action S A)
      → Keeps P missing
      → ((b : B) → Keeps P (there b))
      → Keeps P (choose x missing there)
  unfolding choose
  choose-Keeps none missing there h k = h
  choose-Keeps (some b) missing there h k = k b

  pub after-Keeps :
      (r : Result A) (next : A → Action S B) → ((a : A) → Keeps P (next a)) → Keeps P (after r next)
  after-Keeps (ok a) next keeps = keeps a
  after-Keeps (raise e) next keeps = record { at = λ s p. p }

  pub bind-Keeps :
      (m : Action S A) (next : A → Action S B)
      → Keeps P m
      → ((a : A) → Keeps P (next a))
      → Keeps P (m >>= next)
  unfolding ◌>>=◌
  bind-Keeps m next body keeps = record {
    at = λ s p. (after-Keeps (m s).0 next keeps).at (m s).1 (body.at s p);
  }

pub ruleset keeps_rules = (
  pure-Keeps, throw-Keeps, reads-Keeps, if-Keeps, finally-Keeps, catch-Keeps, choose-Keeps,
  bind-Keeps,
)
