-- ===== src/Catalogues/Choice.antt =====
-- The chosen pair adds names and removes none, and one is chosen if there is one.
use tradetrack_mt5_server.Prelude.{
  ℕ, ◌≡◌, inl, inr, String, true, false, Option, none, some, List, [], ◌∷◌, ◌++◌, All,
  if◌then◌else◌, ◌==◌, ==_sound, ==_refl, text_key, arith, refl, sym, subst, Bool-cases,
}
use tradetrack_mt5_server.Normalization.Sorting.{
  Member, All-Member, sorted, All-sorted, Any-sorted, Any-append_left, Any-append_right,
}
use tradetrack_mt5_server.Catalogues.{
  SlotView, Candidate, candidates, candidate_before, in_names, is_subset, adds_names, find_target,
  choose_from, reversed, choose_pair,
}

-- The names are a strict superset of the target's.
abbrev pub IsAddition : (target names : List String) → Type 0
IsAddition target names = All (λ n. Member n names) target × ¬ All (λ n. Member n target) names

in_names-Member : (n : String) (names : List String) → in_names n names ≡ true → Member n names
unfolding in_names
in_names-Member n [] h = cc
in_names-Member n (m ∷ names) h = elim (Bool-cases (n == m)) [
  | inl same ↦ inl (==_sound n m same)
  | inr other ↦ inr (in_names-Member n names (ground arith))
]

Member-in_names : (n : String) (names : List String) → Member n names → in_names n names ≡ true
unfolding in_names
Member-in_names n [] h = absurd h
Member-in_names n (m ∷ names) (inl same) = rw (same, ==_refl m) refl
Member-in_names n (m ∷ names) (inr h) = rw (Member-in_names n names h) (ground arith)

is_subset-All : (ns names : List String) → is_subset ns names ≡ true → All (λ n. Member n names) ns
unfolding is_subset
is_subset-All [] names h = tt
is_subset-All (n ∷ ns) names h =
    (in_names-Member n names (ground arith), is_subset-All ns names (ground arith))

All-is_subset : (ns names : List String) → All (λ n. Member n names) ns → is_subset ns names ≡ true
unfolding is_subset
All-is_subset [] names h = refl
All-is_subset (n ∷ ns) names (m, h) = rw (Member-in_names n names m, All-is_subset ns names h) refl

adds_names-IsAddition : (t names : List String) → adds_names t names ≡ true → IsAddition t names
adds_names-IsAddition t names h =
    (is_subset-All t names (ground arith), λ all. ground (arith, All-is_subset names t all))

IsAddition-adds_names : (t names : List String) → IsAddition t names → adds_names t names ≡ true
IsAddition-adds_names t names (sub, strict) = elim (Bool-cases (is_subset names t)) [
  | inl same ↦ absurd (strict (is_subset-All names t same))
  | inr other ↦ rw (All-is_subset t names sub, other) refl
]

-- Between these two nothing is added.
abbrev NoAddition : Candidate → Candidate → Type 0
NoAddition s t = ¬ IsAddition t.1.server_names s.1.server_names

module _ (Is : Candidate → Type 0) where
  -- What a search promises, of the sources and targets that it is given.
  abbrev Found : (sources targets : List Candidate) → Option (Candidate × Candidate) → Type 0
  Found sources targets none = All (λ s. All (NoAddition s) targets) sources
  Found sources targets (some (s, t)) = Is s × Is t × IsAddition t.1.server_names s.1.server_names

  abbrev FoundTarget : Candidate → List Candidate → Option Candidate → Type 0
  FoundTarget s targets none = All (NoAddition s) targets
  FoundTarget s targets (some t) = Is t × IsAddition t.1.server_names s.1.server_names

  cons-FoundTarget :
      (s c : Candidate) (rest : List Candidate) (later : Option Candidate)
      → Is c
      → FoundTarget s rest later
      → FoundTarget s
          (c ∷ rest)
          (if adds_names c.1.server_names s.1.server_names then some c else later)
  cons-FoundTarget s c rest later is found =
      elim (Bool-cases (adds_names c.1.server_names s.1.server_names)) [
        | inl adds ↦ rw adds (is, adds_names-IsAddition c.1.server_names s.1.server_names adds)
        | inr no_gain ↦ rw no_gain (skip later found no_gain)
      ]
    where
      skip :
          (later : Option Candidate)
          → FoundTarget s rest later
          → adds_names c.1.server_names s.1.server_names ≡ false
          → FoundTarget s (c ∷ rest) later
      skip none found no_gain =
          (λ a. ground (arith, IsAddition-adds_names c.1.server_names s.1.server_names a), found)
      skip (some t) found no_gain = found

  find_target-FoundTarget :
      (s : Candidate) (targets : List Candidate)
      → All Is targets
      → FoundTarget s targets (find_target s.1.server_names targets)
  unfolding find_target
  find_target-FoundTarget s [] all = tt
  find_target-FoundTarget s (c ∷ rest) (is, all) =
      cons-FoundTarget s c rest (find_target s.1.server_names rest) is
        (find_target-FoundTarget s rest all)

  choose_next-Found :
      (s : Candidate) (rest targets : List Candidate) (target : Option Candidate)
      → Is s
      → FoundTarget s targets target
      → Found rest targets (choose_from rest targets)
      → Found (s ∷ rest) targets (elim target as (λ _. Option (Candidate × Candidate)) [
        | some t ↦ some (s, t)
        | none ↦ choose_from rest targets
      ])
  choose_next-Found s rest targets (some t) is (is_t, adds) later = (is, is_t, adds)
  choose_next-Found s rest targets none is nothing later = next (choose_from rest targets) later
    where
      next :
          (answer : Option (Candidate × Candidate))
          → Found rest targets answer
          → Found (s ∷ rest) targets answer
      next none later = (nothing, later)
      next (some pair) later = later

  choose_from-Found :
      (sources targets : List Candidate)
      → All Is sources
      → All Is targets
      → Found sources targets (choose_from sources targets)
  unfolding choose_from
  choose_from-Found [] targets all all_targets = tt
  choose_from-Found (s ∷ rest) targets (is, all) all_targets =
      choose_next-Found s rest targets (find_target s.1.server_names targets) is
        (find_target-FoundTarget s targets all_targets)
        (choose_from-Found rest targets all all_targets)

All-at : {A : Type 0} (P : A → Type 0) (x : A) (xs : List A) → All P xs → Member x xs → P x
All-at P x [] all m = absurd m
All-at P x (y ∷ xs) (p, all) (inl same) = subst P (sym same) p
All-at P x (y ∷ xs) (p, all) (inr m) = All-at P x xs all m

Member-reversed : (x : Candidate) (xs : List Candidate) → Member x xs → Member x (reversed xs)
unfolding reversed
Member-reversed x [] m = m
Member-reversed x (y ∷ xs) (inl same) =
    Any-append_right (λ z. x ≡ z) (reversed xs) (y ∷ []) (inl same)
Member-reversed x (y ∷ xs) (inr m) =
    Any-append_left (λ z. x ≡ z) (reversed xs) (y ∷ []) (Member-reversed x xs m)

All-append :
    (P : Candidate → Type 0) (xs ys : List Candidate) → All P xs → All P ys → All P (xs ++ ys)
All-append P [] ys a b = b
All-append P (x ∷ xs) ys (p, a) b = (p, All-append P xs ys a b)

All-reversed : (P : Candidate → Type 0) (xs : List Candidate) → All P xs → All P (reversed xs)
unfolding reversed
All-reversed P [] all = tt
All-reversed P (x ∷ xs) (p, all) =
    All-append P (reversed xs) (x ∷ []) (All-reversed P xs all) (p, tt)

-- Back from the order of the search.
unordered :
    (cs : List Candidate) (Is : Candidate → Type 0) (answer : Option (Candidate × Candidate))
    → Found Is (sorted candidate_before cs) (reversed (sorted candidate_before cs)) answer
    → Found Is cs cs answer
unordered cs Is (some pair) found = found
unordered cs Is none found = All-Member _ cs (λ s m. All-Member _ cs (λ t k.
    All-at (NoAddition s) t (reversed (sorted candidate_before cs))
      (All-at _ s (sorted candidate_before cs) found
        (Any-sorted candidate_before (λ z. s ≡ z) cs m))
      (Member-reversed t (sorted candidate_before cs)
        (Any-sorted candidate_before (λ z. t ≡ z) cs k))))

-- What `choose_pair` promises, of the verified snapshots: a source and a target among them, the
-- source with every server of the target and one more, or that there are no such two.
abbrev pub IsChoice : List Candidate → Option (Candidate × Candidate) → Type 0
IsChoice cs = Found (λ c. Member c cs) cs cs

-- If `choose_pair` answers a source and a target, both are workers with a verified snapshot, every
-- server of the target is one of the source, and not every one of the source is one of the target;
-- and if it answers none, there are no two such workers.
pub choose_pair-IsChoice :
    (now : SlotView → ℕ) (workers : List SlotView)
    → IsChoice (candidates now workers) (choose_pair now workers)
unfolding choose_pair
choose_pair-IsChoice now workers =
    let cs = candidates now workers in
    let all = All-sorted candidate_before (λ c. Member c cs) cs (All-Member _ cs (λ x m. m)) in
    unordered cs (λ c. Member c cs) _
      (choose_from-Found (λ c. Member c cs) (sorted candidate_before cs)
        (reversed (sorted candidate_before cs)) all
        (All-reversed (λ c. Member c cs) (sorted candidate_before cs) all))
