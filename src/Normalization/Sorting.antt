-- ===== src/Normalization/Sorting.antt =====
-- `sorted` by a test of the keys, lists with distinct keys, and membership.
use tradetrack_mt5_server.Prelude.{
  ℕ, ◌≡◌, ◌≢◌, ◌⊎◌, inl, inr, Bool, true, false, List, [], ◌∷◌, ◌++◌, All, Any, if◌then◌else◌, refl,
  sym, Bool-cases,
}

module _ {A : Type 0} where
  -- Membership, as a chain of sums.
  abbrev pub Member : A → List A → Type 0
  Member x xs = Any (λ y. x ≡ y) xs

  pub All-Member : (P : A → Type 0) (xs : List A) → ((x : A) → Member x xs → P x) → All P xs
  All-Member P [] h = tt
  All-Member P (x ∷ xs) h = (h x (inl refl), All-Member P xs (λ y m. h y (inr m)))

  pub All-append :
      (P : A → Type 0) (early late : List A) → All P late → All P early → All P (early ++ late)
  All-append P [] late b _ = b
  All-append P (first ∷ early) late b (p, a) = (p, All-append P early late b a)

  pub Any-append_left : (P : A → Type 0) (xs ys : List A) → Any P xs → Any P (xs ++ ys)
  Any-append_left P [] ys h = absurd h
  Any-append_left P (x ∷ xs) ys (inl p) = inl p
  Any-append_left P (x ∷ xs) ys (inr a) = inr (Any-append_left P xs ys a)

  pub Any-append_right : (P : A → Type 0) (xs ys : List A) → Any P ys → Any P (xs ++ ys)
  Any-append_right P [] ys a = a
  Any-append_right P (x ∷ xs) ys a = inr (Any-append_right P xs ys a)

  -- No two places have the same key.
  abbrev pub Distinct : (A → ℕ) → List A → Type 0
  Distinct key [] = Unit
  Distinct key (x ∷ xs) = All (λ y. key y ≢ key x) xs × Distinct key xs

  pub Distinct-append :
      (key : A → ℕ) (xs : List A) (y : A)
      → Distinct key xs
      → All (λ x. key x ≢ key y) xs
      → Distinct key (xs ++ y ∷ [])
  Distinct-append key [] y d a = (tt, tt)
  Distinct-append key (x ∷ xs) y (first, d) (h, a) =
      (All-append _ xs (y ∷ []) ((λ e. h (sym e)), tt) first, Distinct-append key xs y d a)

  -- `before x y`: the key of `x` is at most that of `y`.
  module _ (before : A → A → Bool) where
    unfoldable pub put : A → List A → List A
    put x [] = x ∷ []
    put x (y ∷ ys) = let rest = put x ys in if before x y then x ∷ y ∷ ys else y ∷ rest

    unfoldable pub sorted : List A → List A
    unfolding put
    sorted [] = []
    sorted (x ∷ xs) = put x (sorted xs)

    pub All-put : (P : A → Type 0) (x : A) (ys : List A) → P x → All P ys → All P (put x ys)
    unfolding put
    All-put P x [] p a = (p, tt)
    All-put P x (y ∷ ys) p (q, a) = elim (Bool-cases (before x y)) [
      | inl e ↦ rw e (p, (q, a))
      | inr e ↦ rw e (q, All-put _ x ys p a)
    ]

    pub All-sorted : (P : A → Type 0) (xs : List A) → All P xs → All P (sorted xs)
    unfolding sorted
    All-sorted P [] a = tt
    All-sorted P (x ∷ xs) (p, a) = All-put _ x (sorted xs) p (All-sorted P xs a)

    Any-put : (P : A → Type 0) (x : A) (ys : List A) → P x ⊎ Any P ys → Any P (put x ys)
    unfolding put
    Any-put P x [] (inl p) = inl p
    Any-put P x [] (inr h) = absurd h
    Any-put P x (y ∷ ys) h = elim (Bool-cases (before x y)) [
      | inl e ↦ rw e h
      | inr e ↦ rw e (elim h [
        | inl p ↦ inr (Any-put _ x ys (inl p))
        | inr (inl q) ↦ inl q
        | inr (inr a) ↦ inr (Any-put _ x ys (inr a))
      ])
    ]

    pub Any-sorted : (P : A → Type 0) (xs : List A) → Any P xs → Any P (sorted xs)
    unfolding sorted
    Any-sorted P [] h = absurd h
    Any-sorted P (x ∷ xs) (inl p) = Any-put _ x (sorted xs) (inl p)
    Any-sorted P (x ∷ xs) (inr a) = Any-put _ x (sorted xs) (inr (Any-sorted P xs a))

    Distinct-put :
        (key : A → ℕ) (x : A) (ys : List A)
        → All (λ y. key y ≢ key x) ys
        → Distinct key ys
        → Distinct key (put x ys)
    unfolding put
    Distinct-put key x [] a d = (tt, tt)
    Distinct-put key x (y ∷ ys) (h, a) (first, d) = elim (Bool-cases (before x y)) [
      | inl e ↦ rw e ((h, a), (first, d))
      | inr e ↦ rw e (All-put _ x ys (λ e. h (sym e)) first, Distinct-put key x ys a d)
    ]

    pub Distinct-sorted : (key : A → ℕ) (xs : List A) → Distinct key xs → Distinct key (sorted xs)
    unfolding sorted
    Distinct-sorted key [] d = tt
    Distinct-sorted key (x ∷ xs) (first, d) =
        Distinct-put key x (sorted xs) (All-sorted _ xs first) (Distinct-sorted key xs d)

    -- Every element comes before all later ones.
    abbrev pub IsSorted : List A → Type 0
    IsSorted [] = Unit
    IsSorted (x ∷ xs) = All (λ y. before x y ≡ true) xs × IsSorted xs

    module _ (total : (x y : A) → before x y ≡ false → before y x ≡ true)
        (trans : (x y z : A) → before x y ≡ true → before y z ≡ true → before x z ≡ true) where
      All-before :
          (x y : A) (ys : List A)
          → before x y ≡ true
          → All (λ z. before y z ≡ true) ys
          → All (λ z. before x z ≡ true) ys
      All-before x y [] h a = tt
      All-before x y (z ∷ ys) h (p, a) = (trans x y z h p, All-before x y ys h a)

      put-IsSorted : (x : A) (ys : List A) → IsSorted ys → IsSorted (put x ys)
      unfolding put
      put-IsSorted x [] s = (tt, tt)
      put-IsSorted x (y ∷ ys) (first, s) = elim (Bool-cases (before x y)) [
        | inl e ↦ rw e ((e, All-before x y ys e first), (first, s))
        | inr e ↦ rw e (All-put _ x ys (total x y e) first, put-IsSorted x ys s)
      ]

      pub sorted-IsSorted : (xs : List A) → IsSorted (sorted xs)
      unfolding sorted
      sorted-IsSorted [] = tt
      sorted-IsSorted (x ∷ xs) = put-IsSorted x (sorted xs) (sorted-IsSorted xs)
