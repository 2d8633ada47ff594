-- ===== src/Inventory/Processes.antt =====
-- `process_identity`, `find_process`, `read_only_session`, `catalogue_fingerprint` and
-- `validate_data_path`, on what the calls of Windows and of the file system answer.
use tradetrack_mt5_server.Prelude.{
  ℕ, ◌≡◌, inl, inr, ◌↔◌, String, Bool, false, not, ◌&&◌, ◌||◌, Option, none, some, List, [], ◌∷◌,
  ◌++◌, All, ltb, leb, nat_beq, if◌then◌else◌, ◌==◌, text_key, Result, ok, raise, Error, refl, ap,
  Option-cases,
}
use tradetrack_mt5_server.Inventory.Caption.{read_only_caption_matches}

abbrev pub inventory : String → Error
inventory code = Error.inventory_error code

-- What the calls for one process answer: the handle, the exit code, the image's path and the time of
-- creation, each missing where its call fails.
pub record Handle : Type 0 where
  pub is_open : Bool
  pub exit_code : Option ℕ
  pub image : Option String
  pub created : Option ℕ

abbrev pub is_number : Option ℕ → ℕ → Bool
is_number none m = false
is_number (some n) m = nat_beq n m

abbrev pub is_path : Option String → String → Bool
is_path none path = false
is_path (some p) path = p == path

-- `name` prints the number and the time; paths are resolved ones. 259 is STILL_ACTIVE.
unfoldable pub process_identity : (ℕ → ℕ → String) → String → ℕ → Handle → Option String
process_identity name path pid h =
    if not h.is_open
    then none
    else if not (is_number h.exit_code 259)
    then none
    else if not (is_path h.image path)
    then none
    else elim h.created [ none ↦ none | some t ↦ some (name pid t) ]

abbrev pub Process : Type 0
Process = ℕ × String

-- The loop over the enumerated processes, by the identity that each has at the path.
unfoldable pub matching : (ℕ → Option String) → List ℕ → List Process
matching identity [] = []
matching identity (pid ∷ pids) =
    let rest = matching identity pids in
    elim (identity pid) [ none ↦ rest | some i ↦ (pid, i) ∷ rest ]

unfoldable pub only_match : List Process → Result (Option Process)
only_match [] = ok none
only_match (p ∷ []) = ok (some p)
only_match (p ∷ q ∷ rest) = raise (inventory "AMBIGUOUS_TERMINAL_PROCESS")

-- `none` where the enumeration fails or may be cut off.
unfoldable pub find_process : (ℕ → Option String) → Option (List ℕ) → Result (Option Process)
unfolding matching only_match
find_process identity none = raise (inventory "PROCESS_ENUMERATION_FAILED")
find_process identity (some pids) = only_match (matching identity pids)

-- The one process with an identity at the path.
abbrev pub IsOnly : (ℕ → Option String) → List ℕ → Process → Type 0
IsOnly identity pids p =
    (before after : List ℕ) × (pids ≡ before ++ p.0 ∷ after)
    × (identity p.0 ≡ some p.1)
    × All (λ q. identity q ≡ none) before
    × All (λ q. identity q ≡ none) after

module _ (identity : ℕ → Option String) where
  matching-eq-nil :
      (pids : List ℕ) → All (λ q. identity q ≡ none) pids → matching identity pids ≡ []
  unfolding matching
  matching-eq-nil [] all = refl
  matching-eq-nil (pid ∷ pids) (gone, all) = rw (matching, gone) (matching-eq-nil pids all)

  nil-matching : (pids : List ℕ) → matching identity pids ≡ [] → All (λ q. identity q ≡ none) pids
  unfolding matching
  nil-matching [] h = tt
  nil-matching (pid ∷ pids) h = elim (Option-cases (identity pid)) [
    | inl gone ↦ (gone, nil-matching pids (rw (matching, gone) at h))
    | inr (i, e) ↦ absurd (let k = rw (matching, e) at h in cc)
  ]

  singleton-IsOnly :
      (pids : List ℕ) (p : Process) → matching identity pids ≡ p ∷ [] → IsOnly identity pids p
  unfolding matching
  singleton-IsOnly [] p h = absurd (cc)
  singleton-IsOnly (pid ∷ pids) p h = elim (Option-cases (identity pid)) [
    | inl gone ↦
        let (before, after, e, found, first, last) =
          singleton-IsOnly pids p (rw (matching, gone) at h) in
        (pid ∷ before, after, ap (λ l. pid ∷ l) e, found, (gone, first), last)
    | inr (i, e) ↦
        let k = rw (matching, e) at h in
        let same : (pid, i) ≡ p = cc in
        let rest : matching identity pids ≡ [] = cc in
        ([], pids, ap (λ q. q.0 ∷ pids) same, rw (← same) e, tt, nil-matching pids rest)
  ]

  IsOnly-matching :
      (pids : List ℕ) (p : Process) (before after : List ℕ)
      → pids ≡ before ++ p.0 ∷ after
      → identity p.0 ≡ some p.1
      → All (λ q. identity q ≡ none) before
      → All (λ q. identity q ≡ none) after
      → matching identity pids ≡ p ∷ []
  unfolding matching
  IsOnly-matching pids p [] after e found first last =
      rw (e, matching, found, matching-eq-nil after last) refl
  IsOnly-matching pids p (b ∷ before) after e found (gone, first) last =
      rw (e, matching, gone)
        (IsOnly-matching (before ++ p.0 ∷ after) p before after refl found first last)

  only_match-eq-some :
      (found : List Process) (p : Process) → only_match found ≡ ok (some p) → found ≡ p ∷ []
  unfolding only_match
  only_match-eq-some [] p h = absurd (cc)
  only_match-eq-some (q ∷ []) p h = cc
  only_match-eq-some (q ∷ r ∷ rest) p h = absurd (cc)

  only_match-eq-none : (found : List Process) → only_match found ≡ ok none → found ≡ []
  unfolding only_match
  only_match-eq-none [] h = refl
  only_match-eq-none (q ∷ []) h = absurd (cc)
  only_match-eq-none (q ∷ r ∷ rest) h = absurd (cc)

  -- `find_process` returns a process exactly if that is the only one of the enumerated processes with
  -- an identity at the path, and no process exactly if none has one.
  pub find_process_iff :
      (pids : List ℕ) (p : Process)
      → ((find_process identity (some pids) ≡ ok (some p)) ↔ IsOnly identity pids p)
        × ((find_process identity (some pids) ≡ ok none) ↔ All (λ q. identity q ≡ none) pids)
  unfolding find_process
  find_process_iff pids p = (
    (
      λ h. singleton-IsOnly pids p (only_match-eq-some (matching identity pids) p h),
      λ (before, after, e, found, first, last).
          rw (IsOnly-matching pids p before after e found first last, only_match) refl,
    ),
    (
      λ h. nil-matching pids (only_match-eq-none (matching identity pids) h),
      λ all. rw (matching-eq-nil pids all, only_match) refl,
    ),
  )

abbrev pub main_class : String
main_class = "MetaQuotes::MetaTrader::5.00"

-- The windows of a class, by their class names.
unfoldable pub of_class : String → List (ℕ × String) → List ℕ
of_class class [] = []
of_class class (w ∷ windows) =
    let rest = of_class class windows in if w.1 == class then w.0 ∷ rest else rest

-- What `read_only_session` meets: the identities before and after, the windows of the process, and a
-- window's text with its length.
pub record Session : Type 0 where
  pub before : Option String
  pub windows : List (ℕ × String)
  pub caption : ℕ → String × ℕ
  pub after : Option String

abbrev pub same_identity : Option String → String → Bool
same_identity none i = false
same_identity (some j) i = j == i

unfoldable pub main_matches : Session → String → String → String → Option ℕ → List ℕ → Bool
main_matches s identity login server build (main ∷ []) =
    ltb 0 (s.caption main).1
    && ltb (s.caption main).1 1023
    && read_only_caption_matches (s.caption main).0 login server build
    && same_identity s.after identity
main_matches s identity login server build _ = false

unfoldable pub read_only_session : Session → String → String → String → Option ℕ → Bool
unfolding of_class main_matches
read_only_session s identity login server build =
    same_identity s.before identity
    && main_matches s identity login server build (of_class main_class s.windows)

-- The two looks at the file, size and time, and the bytes that were read between them.
unfoldable pub catalogue_fingerprint :
    {Bytes : Type 0}
    → (Bytes → ℕ)
    → (Bytes → String)
    → Result (ℕ × ℕ)
    → Result Bytes
    → Result (ℕ × ℕ)
    → Result String
catalogue_fingerprint size digest (raise e) read after = raise (inventory "CATALOGUE_UNAVAILABLE")
catalogue_fingerprint size digest (ok before) read after =
    if not (ltb 0 before.0 && leb before.0 8388608)
    then raise (inventory "CATALOGUE_SIZE")
    else elim read [
      | raise e ↦ raise (inventory "CATALOGUE_UNAVAILABLE")
      | ok bytes ↦ elim after [
        | raise e ↦ raise (inventory "CATALOGUE_UNAVAILABLE")
        | ok now ↦
            if not (nat_beq before.0 now.0 && nat_beq before.1 now.1 && nat_beq (size bytes) now.0)
            then raise (inventory "CATALOGUE_CHANGED")
            else ok (digest bytes)
      ]
    ]

-- The resolved executable and data path; `origin.txt` is its size and, decoded, the path in it. An
-- error of the file system or of the decoding is a raise.
pub record Paths : Type 0 where
  pub lower_name : String
  pub is_file : Bool
  pub parent : String
  pub data_path : String
  pub origin_size : Result ℕ
  pub origin : Result String

unfoldable pub check_origin : Paths → Result ℕ → Result (Unit {0})
check_origin p (raise e) = raise (inventory "DATA_PATH_MISMATCH")
check_origin p (ok size) =
    if ltb 4096 size then raise (inventory "DATA_PATH_MISMATCH") else elim p.origin [
      | raise e ↦ raise (inventory "DATA_PATH_MISMATCH")
      | ok source ↦ if source == p.parent then ok tt else raise (inventory "DATA_PATH_MISMATCH")
    ]

unfoldable pub validate_data_path : Paths → Result (Unit {0})
unfolding check_origin
validate_data_path p =
    if not (p.lower_name == "terminal64.exe") || not p.is_file
    then raise (inventory "TERMINAL_PATH_INVALID")
    else if p.data_path == p.parent
    then ok tt
    else check_origin p p.origin_size
