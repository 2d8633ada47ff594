-- ===== src/Prelude/Results.antt =====
-- Results of code that may raise, and the exceptions of the collector.
use Prim.Native.String.{String}
use mathlib.Core.Path.{◌≡◌, refl}

-- The exception classes of app/collector, each with its code. `data_error` also has the field that
-- its text names; `os_error` is an `OSError` or `UnicodeError`, `other` any other exception.
pub data Error : Type 0 where
  inventory_error : (code : String) → Error
  agent_error : (code : String) → Error
  collection_error : (code : String) → Error
  data_error : (code field : String) → Error
  os_error other : Error

pub data Result {ℓ} (A : Type ℓ) : Type ℓ where
  ok : A → Result A
  raise : Error → Result A

-- A chain of steps, each of which may raise.
abbrev pub ◌>>=◌ {ℓ κ} : {S : Type ℓ} {T : Type κ} → Result S → (S → Result T) → Result T
raise error >>= next = raise error
ok value >>= next = next value

abbrev pub ◌>>◌ {ℓ κ} : {S : Type ℓ} {T : Type κ} → Result S → Result T → Result T
raise error >> next = raise error
ok value >> next = next

infixl 5 ◌>>=◌ ◌>>◌
-- What a successful chain tells of its first step.
pub >>=-eq-ok {ℓ κ} :
    {S : Type ℓ} {T : Type κ} (step : Result S) (next : S → Result T) {t : T}
    → (step >>= next) ≡ ok t
    → (s : S) × (step ≡ ok s) × (next s ≡ ok t)
>>=-eq-ok (raise error) next chain = cc
>>=-eq-ok (ok value) next chain = (value, refl, chain)
