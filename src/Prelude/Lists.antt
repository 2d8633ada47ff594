-- ===== src/Prelude/Lists.antt =====
-- Lists measured by native numbers, and predicates on lists by recursion.
use Prim.Native.Nat.{ℕ, zero, suc, ◌+◌}
use mathlib.Core.Path.{◌≡◌, ap, ◌∙◌}
use mathlib.Core.Bool.{Bool, false, ◌||◌}
use mathlib.Core.Option.{Option, none, some}
use mathlib.Core.Logic.{◌⊎◌}
use mathlib.Core.List.{List, [], ◌∷◌, ◌++◌}
use native.Mathlib.Nat.{add-zero}
use native.Mathlib.Omega.{arith}

module _ {ℓ} {A : Type ℓ} where
  abbrev pub length : List A → ℕ
  length [] = 0
  length (x ∷ xs) = suc (length xs)

  pub length-append : (xs ys : List A) → length (xs ++ ys) ≡ length xs + length ys
  length-append [] ys = omega arith
  length-append (x ∷ xs) ys = omega (arith, length-append xs ys)

-- Every element satisfies the predicate, by recursion: the tactics read it as a tuple.
abbrev pub All {ℓ κ} : {A : Type ℓ} (P : A → Type κ) (list : List A) → Type κ
All P [] = Unit
All P (head ∷ tail) = P head × All P tail

-- Some element satisfies the predicate.
abbrev pub Any {ℓ} : {A : Type ℓ} → (A → Type 0) → List A → Type 0
Any P [] = ⊥
Any P (x ∷ xs) = P x ⊎ Any P xs

-- A weaker predicate holds wherever a stronger one does.
pub All-mono {ℓ κ μ} :
    {A : Type ℓ} {P : A → Type κ} {Q : A → Type μ} (xs : List A)
    → ((x : A) → P x → Q x)
    → All P xs
    → All Q xs
All-mono [] h a = tt
All-mono (x ∷ xs) h (p, ps) = (h x p, All-mono xs h ps)

module _ {ℓ} {A : Type ℓ} where
  abbrev pub get_elem? : List A → ℕ → Option A
  get_elem? [] n = none
  get_elem? (x ∷ xs) zero = some x
  get_elem? (x ∷ xs) (suc n) = get_elem? xs n

  -- Each element by its place, counted from `k`.
  unfoldable pub map_from {κ} : {B : Type κ} → (ℕ → A → B) → ℕ → List A → List B
  map_from f k [] = []
  map_from f k (x ∷ xs) = f k x ∷ map_from f (suc k) xs

  -- Whether some element passes a test by its place.
  unfoldable pub any_from : (ℕ → A → Bool) → ℕ → List A → Bool
  any_from p k [] = false
  any_from p k (x ∷ xs) = p k x || any_from p (suc k) xs

pub get_elem?-map_from {ℓ κ} :
    {A : Type ℓ} {B : Type κ} (f : ℕ → A → B) (k : ℕ) (xs : List A) (n : ℕ) {x : A}
    → get_elem? xs n ≡ some x
    → get_elem? (map_from f k xs) n ≡ some (f (k + n) x)
unfolding map_from
get_elem?-map_from f k [] n h = cc
get_elem?-map_from f k (y ∷ ys) zero {x} h = let same : y ≡ x = cc in rw (same, add-zero)
get_elem?-map_from f k (y ∷ ys) (suc n) {x} h =
    get_elem?-map_from f (suc k) ys n h ∙ ap (λ j. some (f j x)) (omega arith)
