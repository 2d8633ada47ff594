-- ===== src/Prelude/Dicts.antt =====
-- A dictionary as an association list: assignment, deletion and lookup by key.
use mathlib.Core.Path.{◌≡◌, refl}
use mathlib.Core.Logic.{inl, inr}
use mathlib.Core.Option.{Option, none, some}
use mathlib.Core.List.{List, [], ◌∷◌}
use native.Mathlib.Omega.{arith}
use tradetrack_mt5_server.Prelude.Tests.{if◌then◌else◌, Bool-cases}
use tradetrack_mt5_server.Prelude.Keys.{Key, ◌==◌}

module _ {ℓ κ} {K : Type ℓ} {V : Type κ} ⦃key : Key K⦄ where
  -- `get`: the value of the first row with this key.
  unfoldable pub lookup : K → List (K × V) → Option V
  lookup wanted [] = none
  lookup wanted (row ∷ rows) = if row.0 == wanted then some row.1 else lookup wanted rows

  -- An assignment keeps the place of a key that is there, and adds a new key at the end.
  unfoldable pub insert : K → V → List (K × V) → List (K × V)
  insert wanted value [] = (wanted, value) ∷ []
  insert wanted value (row ∷ rows) =
      let rest = insert wanted value rows in
      if row.0 == wanted then (row.0, value) ∷ rows else row ∷ rest

  unfoldable pub remove : K → List (K × V) → List (K × V)
  remove k [] = []
  remove k ((j, w) ∷ m) = let rest = remove k m in if j == k then rest else (j, w) ∷ rest

  pub lookup-insert :
      (put_at wanted : K) (value : V) (rows : List (K × V))
      → lookup wanted (insert put_at value rows)
        ≡ (if put_at == wanted then some value else lookup wanted rows)
  unfolding insert lookup
  lookup-insert put_at wanted value [] = refl
  lookup-insert put_at wanted value (row ∷ rows) = ground (
    lookup-insert put_at wanted value rows,
    key.same_iff row.0 put_at,
    key.same_iff row.0 wanted,
    key.same_iff put_at wanted,
    arith,
  )

  pub lookup-remove :
      (gone wanted : K) (rows : List (K × V))
      → lookup wanted (remove gone rows) ≡ (if gone == wanted then none else lookup wanted rows)
  unfolding remove lookup
  lookup-remove gone wanted [] = elim (Bool-cases (gone == wanted)) [
    | inl same ↦ rw same
    | inr other ↦ rw other
  ]
  lookup-remove gone wanted ((place, value) ∷ rows) = ground (
    lookup-remove gone wanted rows,
    key.same_iff place gone,
    key.same_iff place wanted,
    key.same_iff gone wanted,
    arith,
  )

-- `values()`, in the order of the rows.
unfoldable pub values {ℓ κ} : {K : Type ℓ} {V : Type κ} → List (K × V) → List V
values [] = []
values (row ∷ rows) = row.1 ∷ values rows
