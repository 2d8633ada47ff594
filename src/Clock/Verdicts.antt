-- ===== src/Clock/Verdicts.antt =====
-- What a verdict means.
use tradetrack_mt5_server.Prelude.{
  ℕ, suc, ◌≤◌, ◌≡◌, String, text_key, true, Option, none, some, List, [], ◌∷◌, lookup, length, All,
  arith, refl, sym, ◌∙◌, subst, Bool-cases, inl, inr, and_true, nat_beq_iff, zero,
}
use tradetrack_mt5_server.Prelude.Int.{ℤ, pos, negsuc}
use tradetrack_mt5_server.Clock.{
  Sample, observed, accept, offsets_of, is_stable, all_same, same_ℤ, judge, compare_samples,
  with_offset,
}
use tradetrack_mt5_server.Clock.Offsets.{IsEvidence, accept-IsEvidence, IsEvidence-accept}

same_ℤ_sound : (a b : ℤ) → same_ℤ a b ≡ true → a ≡ b
same_ℤ_sound (pos a) (pos b) h = rw ((nat_beq_iff a b).0 h)
same_ℤ_sound (pos a) (negsuc b) h = cc
same_ℤ_sound (negsuc a) (pos b) h = cc
same_ℤ_sound (negsuc a) (negsuc b) h = rw ((nat_beq_iff a b).0 h)

all_same_sound : (x : ℤ) (ys : List ℤ) → all_same x ys ≡ true → All (λ y. x ≡ y) ys
unfolding all_same
all_same_sound x [] h = tt
all_same_sound x (y ∷ ys) h =
    let (first, rest) = and_true (same_ℤ x y) (all_same x ys) h in
    (same_ℤ_sound x y first, all_same_sound x ys rest)

-- The list of accepted offsets judged as an observation.
judge-eq-observed :
    (first second : Sample) (offsets : List ℤ) (x : ℤ) (n lo hi : ℕ)
    → judge first second offsets ≡ observed x n lo hi
    → All (λ y. x ≡ y) offsets
      × (length offsets ≡ n)
      × (2 ≤ n)
      × (lo ≡ first.utc_ms)
      × (hi ≡ second.utc_ms)
unfolding judge
judge-eq-observed first second [] x n lo hi h = cc
judge-eq-observed first second (a ∷ []) x n lo hi h = cc
judge-eq-observed first second (a ∷ b ∷ rest) x n lo hi h =
    elim (Bool-cases (all_same a (b ∷ rest))) [
      | inr mixed ↦ absurd (let gone = rw mixed at h in cc)
      | inl same ↦
          let verdict = rw same at h in
          let is_x : a ≡ x = cc in
          (
            (
              sym is_x,
              subst (λ y. All (λ z. y ≡ z) (b ∷ rest)) is_x (all_same_sound a (b ∷ rest) same),
            ),
            cc,
            ground arith,
            cc,
            cc,
          )
    ]

-- A symbol with no second quote, or one that is evidence for no offset.
abbrev pub IsNoEvidence : Sample → Sample → ℕ → Option ℕ → Type 0
IsNoEvidence first second previous none = Unit
IsNoEvidence first second previous (some current) =
    (y : ℤ) → IsEvidence first second previous current y → ⊥

none-IsNoEvidence :
    (first second : Sample) (previous : ℕ) (found : Option ℕ)
    → accept first second previous found ≡ none
    → IsNoEvidence first second previous found
none-IsNoEvidence first second previous none e = tt
none-IsNoEvidence first second previous (some current) e = λ y evidence.
    let h : none ≡ some y = sym e ∙ IsEvidence-accept first second previous current y evidence in cc

-- How many symbols are evidence for one offset, by the two quotes of each.
pub data Support (first second : Sample) (x : ℤ) : List (String × ℕ) → ℕ → Type 0 where
  none_left : Support first second x [] zero
  counts :
      (symbol : String) (previous current : ℕ) {ticks : List (String × ℕ)} {n : ℕ}
      → lookup symbol second.ticks ≡ some current
      → IsEvidence first second previous current x
      → Support first second x ticks n
      → Support first second x ((symbol, previous) ∷ ticks) (suc n)
  ignored :
      (symbol : String) (previous : ℕ) {ticks : List (String × ℕ)} {n : ℕ}
      → IsNoEvidence first second previous (lookup symbol second.ticks)
      → Support first second x ticks n
      → Support first second x ((symbol, previous) ∷ ticks) n

accept_found :
    (first second : Sample) (previous : ℕ) (found : Option ℕ) (y : ℤ)
    → accept first second previous found ≡ some y
    → (current : ℕ) × (found ≡ some current) × IsEvidence first second previous current y
accept_found first second previous none y h = unfold accept in cc
accept_found first second previous (some current) y h =
    (current, refl, (accept-IsEvidence first second previous current y h).1)

Support-step :
    (first second : Sample) (x : ℤ) (symbol : String) (previous : ℕ) (ticks : List (String × ℕ))
    (rest : List ℤ) (o : Option ℤ)
    → accept first second previous (lookup symbol second.ticks) ≡ o
    → (All (λ y. x ≡ y) rest → Support first second x ticks (length rest))
    → All (λ y. x ≡ y) (with_offset o rest)
    → Support first second x ((symbol, previous) ∷ ticks) (length (with_offset o rest))
Support-step first second x symbol previous ticks rest none e ih a =
    ignored symbol previous (none-IsNoEvidence first second previous _ e) (ih a)
Support-step first second x symbol previous ticks rest (some y) e ih (same, a) =
    let (current, found, evidence) =
      accept_found first second previous (lookup symbol second.ticks) y e in
    counts symbol previous current found
      (subst (IsEvidence first second previous current) (sym same) evidence) (ih a)

offsets-Support :
    (first second : Sample) (x : ℤ) (ticks : List (String × ℕ))
    → All (λ y. x ≡ y) (offsets_of first second ticks)
    → Support first second x ticks (length (offsets_of first second ticks))
unfolding offsets_of
offsets-Support first second x [] h = none_left
offsets-Support first second x ((symbol, previous) ∷ ticks) h =
    Support-step first second x symbol previous ticks (offsets_of first second ticks)
      (accept first second previous (lookup symbol second.ticks)) refl
      (offsets-Support first second x ticks) h

-- An offset is reported only if the two clocks agree on the time between the samples, at least two
-- symbols are evidence for just this offset, as many as are reported, and every other symbol gives
-- no evidence for any offset. Evidence is a quote that advanced, an offset of whole quarter hours and
-- at most 14 hours either way, and both quotes at most 2 seconds older and 250 ms newer than UTC by
-- it.
pub compare_samples-Support :
    (first second : Sample) (x : ℤ) (n lo hi : ℕ)
    → compare_samples first second ≡ observed x n lo hi
    → (is_stable first second ≡ true) × (2 ≤ n) × Support first second x first.ticks n
unfolding compare_samples
compare_samples-Support first second x n lo hi h = elim (Bool-cases (is_stable first second)) [
  | inr unstable ↦ absurd (let gone = rw unstable at h in cc)
  | inl stable ↦
      let (same, count, enough, _, _) =
        judge-eq-observed first second (offsets_of first second first.ticks) x n lo hi
          (rw stable at h) in
      (
        stable,
        enough,
        subst (Support first second x first.ticks) count
            (offsets-Support first second x first.ticks same),
      )
]
