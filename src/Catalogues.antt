-- ===== src/Catalogues.antt =====
-- app/collector/catalogue_sync.py, `verified_snapshot` and `choose_pair`: which slot's catalogue is
-- copied to which other slot. Clock readings are milliseconds.
pub mod Choice
mod Examples
use tradetrack_mt5_server.Prelude.{
  ℕ, ◌+◌, ◌≡◌, ◌⊎◌, inl, inr, ◌↔◌, String, Bool, true, false, not, ◌&&◌, ◌||◌, Option, none, some,
  List, [], ◌∷◌, ◌++◌, All, All-mono, Any, length, ltb, leb, nat_beq, if◌then◌else◌, ◌==◌, ==_sound,
  ==_refl, text_key, arith, refl, sym, subst, Bool-cases,
}
use tradetrack_mt5_server.Throttle.{seconds}
use tradetrack_mt5_server.Normalization.Sorting.{Member, All-Member, sorted, All-sorted, Any-sorted}
use Prim.Native.String.{compare}
use Prim.Native.Nat.{Ordering}

-- The fields of an inventory's snapshot that the choice reads.
pub record Snapshot : Type 0 where
  pub verification_method : String
  pub status : String
  pub server_names : List String
  pub process_identity : Option String
  pub catalog_hash : Option String

-- A slot's worker with its agent: the latest snapshot and the session's process, if there are any.
pub record SlotView : Type 0 where
  pub id : String
  pub inspected_at : Option ℕ
  pub catalog_hash : Option String
  pub snapshot : Option Snapshot
  pub process_identity : Option String

abbrev pub same_text : Option String → Option String → Bool
same_text none none = true
same_text (some s) (some t) = s == t
same_text _ _ = false

abbrev pub is_fresh : ℕ → Option ℕ → Bool
is_fresh now none = false
is_fresh now (some t) = ltb now (t + seconds 90)

abbrev pub has_names : List String → Bool
has_names [] = false
has_names (n ∷ names) = true

-- `not snapshot.get('catalogHash')`: an empty text counts as none.
abbrev pub has_hash : Option String → Bool
has_hash none = false
has_hash (some h) = not (h == "")

abbrev pub is_verified : ℕ → SlotView → Snapshot → Bool
is_verified now w s =
    is_fresh now w.inspected_at
    && s.verification_method == "login_dialog"
    && s.status == "STARTING"
    && has_names s.server_names
    && same_text s.process_identity w.process_identity
    && has_hash s.catalog_hash
    && same_text s.catalog_hash w.catalog_hash

abbrev pub checked : ℕ → SlotView → Option Snapshot → Option Snapshot
checked now w none = none
checked now w (some s) = if is_verified now w s then some s else none

unfoldable pub verified_snapshot : ℕ → SlotView → Option Snapshot
verified_snapshot now w = checked now w w.snapshot

abbrev pub Candidate : Type 0
Candidate = SlotView × Snapshot

abbrev pub add_candidate : SlotView → Option Snapshot → List Candidate → List Candidate
add_candidate w none rest = rest
add_candidate w (some s) rest = (w, s) ∷ rest

-- Each worker is asked with the clock of its own.
unfoldable pub candidates : (SlotView → ℕ) → List SlotView → List Candidate
unfolding verified_snapshot
candidates now [] = []
candidates now (w ∷ workers) =
    add_candidate w (verified_snapshot (now w) w) (candidates now workers)

-- The key counts the names of the list, repeated ones too.
abbrev pub names_before : ℕ → ℕ → Ordering → Bool
names_before m n order = ltb n m || (nat_beq m n && elim order [ Ordering.gt ↦ false | _ ↦ true ])

-- The order by `(-len(names), id)`.
abbrev pub candidate_before : Candidate → Candidate → Bool
candidate_before a b =
    names_before (length a.1.server_names) (length b.1.server_names) (compare a.0.id b.0.id)

unfoldable pub in_names : String → List String → Bool
in_names n [] = false
in_names n (m ∷ names) = n == m || in_names n names

unfoldable pub is_subset : List String → List String → Bool
unfolding in_names
is_subset [] names = true
is_subset (n ∷ some_names) names = in_names n names && is_subset some_names names

-- `set(target) < names`.
abbrev pub adds_names : List String → List String → Bool
adds_names target names = is_subset target names && not (is_subset names target)

unfoldable pub find_target : List String → List Candidate → Option Candidate
unfolding is_subset
find_target names [] = none
find_target names (c ∷ rest) =
    let later = find_target names rest in
    if adds_names c.1.server_names names then some c else later

unfoldable pub choose_from : List Candidate → List Candidate → Option (Candidate × Candidate)
unfolding find_target
choose_from [] targets = none
choose_from (source ∷ rest) targets = elim (find_target source.1.server_names targets) [
  | some target ↦ some (source, target)
  | none ↦ choose_from rest targets
]

unfoldable pub reversed : List Candidate → List Candidate
reversed [] = []
reversed (c ∷ rest) = reversed rest ++ c ∷ []

unfoldable pub choose_pair : (SlotView → ℕ) → List SlotView → Option (Candidate × Candidate)
unfolding candidates choose_from reversed sorted
choose_pair now workers =
    let ordered = sorted candidate_before (candidates now workers) in
    choose_from ordered (reversed ordered)
