-- ===== src/Normalization/Positions.antt =====
-- `normalize_positions` of app/collector/normalization.py. The dictionary is its rows by
-- identifier, and the set of tickets a list.
pub mod Complete
use tradetrack_mt5_server.Prelude.{
  ℕ, ◌≤◌, ◌≡◌, ◌≢◌, ◌⊎◌, inl, inr, String, Bool, true, false, not, ◌&&◌, Option, none, some, List,
  [], ◌∷◌, ◌++◌, values, length, All, Any, leb, nat_beq, if◌then◌else◌, ◌==◌, text_key, ==_sound,
  number_key, lookup, insert, Result, ok, raise, Error, ◌>>=◌, >>=-eq-ok, arith, refl, sym, ap, ◌∙◌,
  subst, Bool-cases, Option-cases, All-mono,
}
use tradetrack_mt5_server.Prelude.Int.{ℤ}
use tradetrack_mt5_server.Contracts.{max_records}
use tradetrack_mt5_server.Normalization.{Native, RawPosition, record_of, read_position}
use tradetrack_mt5_server.Normalization.Sorting.{
  Member, sorted, IsSorted, Distinct, Distinct-append, Distinct-sorted, sorted-IsSorted, All-append,
  Any-append_left, Any-append_right, All-sorted, Any-sorted,
}
use tradetrack_mt5_server.Normalization.Deals.{Records, rows_of, batch}
use tradetrack_mt5_server.Normalization.Deals.Complete.{
  insert_new, absent_keys, present_row, batch_ok,
}

unfoldable pub same_position : RawPosition → RawPosition → Bool
same_position a b =
    nat_beq a.ticket b.ticket
    && nat_beq a.identifier b.identifier
    && nat_beq a.time_msc b.time_msc
    && nat_beq a.time_update_msc b.time_update_msc
    && nat_beq a.type b.type
    && nat_beq a.magic b.magic
    && nat_beq a.reason b.reason
    && a.symbol == b.symbol
    && a.volume == b.volume
    && a.price_open == b.price_open
    && a.price_current == b.price_current
    && a.sl == b.sl
    && a.tp == b.tp
    && a.profit == b.profit
    && a.swap == b.swap

-- `ticket in tickets`.
unfoldable pub in_set : ℕ → List ℕ → Bool
in_set t [] = false
in_set t (u ∷ us) = if nat_beq u t then true else in_set t us

pub record Positions : Type 0 where
  pub result : List (ℕ × RawPosition)
  pub tickets : List ℕ

unfoldable pub add_new : Positions → RawPosition → Result Positions
unfolding in_set
add_new s p =
    if in_set p.ticket s.tickets
    then raise (Error.data_error "CONFLICTING_POSITION" "")
    else ok record { result = insert p.identifier p s.result; tickets = p.ticket ∷ s.tickets }

unfoldable pub add_after : Positions → Option RawPosition → RawPosition → Result Positions
unfolding add_new
add_after s none p = add_new s p
add_after s (some previous) p =
    if same_position previous p then ok s else raise (Error.data_error "CONFLICTING_POSITION" "")

unfoldable pub add_position : Positions → RawPosition → Result Positions
unfolding add_after
add_position s p = add_after s (lookup p.identifier s.result) p

unfoldable pub position_before : RawPosition → RawPosition → Bool
position_before a b = leb a.identifier b.identifier

module _ (str : ℤ → String) where
  -- One row of the loop.
  unfoldable pub position_of : Native → Result RawPosition
  position_of value = record_of value >>= λ row. read_position str row

  unfoldable pub collect_positions : List Native → Positions → Result Positions
  unfolding position_of add_position
  collect_positions [] s = ok s
  collect_positions (value ∷ natives) s =
      position_of value >>= λ p. add_position s p >>= λ next. collect_positions natives next

  unfoldable pub normalize_positions : Records → ℕ → Result (List RawPosition)
  unfolding collect_positions
  normalize_positions records limit = batch records "POSITIONS_UNAVAILABLE" limit >>= λ rows.
      collect_positions rows record { result = []; tickets = [] } >>= λ s.
      ok (sorted position_before (values s.result))
