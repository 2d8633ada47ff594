-- ===== src/Prelude/Keys.antt =====
-- Decidable keys: one operator for numbers and texts.
use Prim.Native.Nat.{ℕ}
use Prim.Native.String.{String}
use mathlib.Core.Path.{◌≡◌, refl}
use mathlib.Core.Logic.{◌↔◌, ◌≢◌, inl, inr}
use mathlib.Core.Bool.{Bool, true, false}
use text.Mathlib.Text.{◌==◌ as str_eq}
use text.Mathlib.TextEquality.{eq_iff}
use tradetrack_mt5_server.Prelude.Tests.{nat_beq, nat_beq_iff, Bool-cases}

-- A key type: a Boolean test and what its answer means.
pub record Key {ℓ} (K : Type ℓ) : Type ℓ where
  pub same : K → K → Bool
  pub same_iff : (j k : K) → (same j k ≡ true) ↔ (j ≡ k)

instance abbrev pub text_key : Key String
text_key = record { same = str_eq; same_iff = eq_iff }

instance abbrev pub number_key : Key ℕ
number_key = record { same = nat_beq; same_iff = nat_beq_iff }

abbrev pub ◌==◌ {ℓ} : {K : Type ℓ} ⦃key : Key K⦄ → K → K → Bool
◌==◌ ⦃key⦄ = key.same

infix 50 ◌==◌
module _ {ℓ} {K : Type ℓ} ⦃key : Key K⦄ where
  pub ==_iff : (j k : K) → ((j == k) ≡ true) ↔ (j ≡ k)
  ==_iff j k = key.same_iff j k

  pub ==_refl : (j : K) → (j == j) ≡ true
  ==_refl j = (key.same_iff j j).1 refl

  pub ==_sound : (j k : K) → (j == k) ≡ true → j ≡ k
  ==_sound j k = (key.same_iff j k).0

  pub ==_of_ne : (j k : K) → j ≢ k → (j == k) ≡ false
  ==_of_ne j k h = elim (Bool-cases (j == k)) [
    | inl same ↦ absurd (h (==_sound j k same))
    | inr other ↦ other
  ]

  pub ne_of_== : (j k : K) → (j == k) ≡ false → j ≢ k
  ne_of_== j k h same = let yes_it = (key.same_iff j k).1 same in cc
