-- ===== src/Normalization/Deals.antt =====
-- `normalize_deals` of app/collector/normalization.py. The dictionary is its rows by ticket.
pub mod Complete
use tradetrack_mt5_server.Prelude.{
  ℕ, ◌<◌, String, Bool, true, false, not, ◌&&◌, ◌||◌, Option, none, some, List, [], ◌∷◌, values,
  length, ltb, leb, nat_beq, if◌then◌else◌, ◌==◌, text_key, number_key, lookup, insert, Result, ok,
  raise, Error, ◌>>=◌,
}
use tradetrack_mt5_server.Prelude.Int.{ℤ}
use tradetrack_mt5_server.Contracts.{HistoryWindow, start_ms, end_ms, max_records}
use tradetrack_mt5_server.Normalization.{Native, Row, RawDeal, record_of, int_field, read_deal}
use tradetrack_mt5_server.Normalization.Sorting.{sorted}

-- The first argument of both functions: `None`, no tuple or list, or the native rows.
pub data Records : Type 0 where
  missing no_batch : Records
  rows_of : List Native → Records

-- `_batch`.
unfoldable pub batch : Records → String → ℕ → Result (List Native)
batch records unavailable limit =
    if not (leb 1 limit && leb limit max_records)
    then raise (Error.data_error "INVALID_LIMIT" "")
    else elim records [
      | missing ↦ raise (Error.data_error unavailable "")
      | no_batch ↦ raise (Error.data_error "INVALID_BATCH" "")
      | rows_of rows ↦
          if ltb limit (length rows) then raise (Error.data_error "BATCH_TOO_LARGE" "") else ok rows
    ]

-- `==` of the dataclass.
unfoldable pub same_deal : RawDeal → RawDeal → Bool
same_deal a b =
    nat_beq a.ticket b.ticket
    && nat_beq a.order b.order
    && nat_beq a.position_id b.position_id
    && nat_beq a.time_msc b.time_msc
    && nat_beq a.type b.type
    && nat_beq a.entry b.entry
    && nat_beq a.magic b.magic
    && nat_beq a.reason b.reason
    && a.symbol == b.symbol
    && a.volume == b.volume
    && a.price == b.price
    && a.profit == b.profit
    && a.commission == b.commission
    && a.swap == b.swap
    && a.fee == b.fee

unfoldable pub is_conflict : Option RawDeal → RawDeal → Bool
is_conflict none deal = false
is_conflict (some old) deal = not (same_deal old deal)

abbrev pub DealDict : Type 0
DealDict = List (ℕ × RawDeal)

unfoldable pub add_deal : DealDict → RawDeal → Result DealDict
unfolding is_conflict
add_deal result deal =
    if is_conflict (lookup deal.ticket result) deal
    then raise (Error.data_error "CONFLICTING_DEAL" "")
    else ok (insert deal.ticket deal result)

-- `sorted`'s key: the time, then the ticket.
unfoldable pub deal_before : RawDeal → RawDeal → Bool
deal_before a b =
    ltb a.time_msc b.time_msc || (nat_beq a.time_msc b.time_msc && leb a.ticket b.ticket)

module _ (str : ℤ → String) (window : HistoryWindow) where
  -- One row of the loop: the deal to keep, or `none` for the `continue`.
  unfoldable pub selected : Native → Result (Option RawDeal)
  unfolding read_deal
  selected value = record_of value >>= λ row. int_field row "time_msc" >>= λ time_msc.
      if leb (start_ms window) time_msc && ltb time_msc (end_ms window)
      then (read_deal str row time_msc >>= λ deal. ok (some deal))
      else ok none

  unfoldable pub add_selected : DealDict → Option RawDeal → Result DealDict
  unfolding add_deal
  add_selected result none = ok result
  add_selected result (some deal) = add_deal result deal

  unfoldable pub collect_deals : List Native → DealDict → Result DealDict
  unfolding selected add_selected
  collect_deals [] result = ok result
  collect_deals (value ∷ natives) result =
      selected value >>= λ found. add_selected result found >>= λ next. collect_deals natives next

  unfoldable pub normalize_deals : Records → ℕ → Result (List RawDeal)
  unfolding batch collect_deals
  normalize_deals records limit = batch records "HISTORY_UNAVAILABLE" limit >>= λ rows.
      collect_deals rows [] >>= λ result. ok (sorted deal_before (values result))
