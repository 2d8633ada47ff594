-- ===== src/Catalogues/Examples.antt =====
-- Slots with verified catalogues, and the theorem at them.
use tradetrack_mt5_server.Prelude.{◌≡◌, String, Option, none, some, List, [], ◌∷◌, refl}
use tradetrack_mt5_server.Normalization.Sorting.{sorted, put}
use tradetrack_mt5_server.Catalogues.{
  SlotView, Candidate, verified_snapshot, candidates, in_names, is_subset, find_target, choose_from,
  reversed, choose_pair,
}
use tradetrack_mt5_server.Catalogues.Choice.{IsChoice, choose_pair-IsChoice}

abbrev slot : String → List String → SlotView
slot id names = record {
  id = id;
  inspected_at = some 1000;
  catalog_hash = some "h";
  snapshot = some (record {
    verification_method = "login_dialog";
    status = "STARTING";
    server_names = names;
    process_identity = some "1:2";
    catalog_hash = some "h";
  });
  process_identity = some "1:2";
}

abbrev stale : SlotView
stale = record (slot "demo-03" []) { inspected_at = none }

abbrev slots : List SlotView
slots = slot "demo-01" ("A" ∷ []) ∷ stale ∷ slot "demo-02" ("B" ∷ "A" ∷ []) ∷ []

abbrev ids : Option (Candidate × Candidate) → List String
ids none = []
ids (some (s, t)) = s.0.id ∷ t.0.id ∷ []

choose_pair_run : ids (choose_pair (λ w. 2000) slots) ≡ "demo-02" ∷ "demo-01" ∷ []
unfolding choose_pair candidates verified_snapshot sorted put choose_from find_target reversed
    is_subset in_names
choose_pair_run = refl

choose_pair-IsChoice_example :
    IsChoice (candidates (λ w. 2000) slots) (choose_pair (λ w. 2000) slots)
choose_pair-IsChoice_example = choose_pair-IsChoice (λ w. 2000) slots
