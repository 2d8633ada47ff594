-- ===== src/Normalization/Examples.antt =====
-- A response of two deals, one given twice, and one of two positions, normalized.
use tradetrack_mt5_server.Prelude.{
  ℕ, ◌≤◌, ◌≡◌, String, List, [], ◌∷◌, length, if◌then◌else◌, ◌==◌, text_key, ok, refl, lookup,
  insert, values,
}
use tradetrack_mt5_server.Prelude.Int.{ℤ, pos}
use tradetrack_mt5_server.Contracts.{HistoryWindow, max_records, start_ms, epoch_ms, end_ms}
use tradetrack_mt5_server.Normalization.{
  Native, mapping, integer, text, RawDeal, RawPosition, record_of, int_field, id_field,
  symbol_field, number_field, read_position,
}
use tradetrack_mt5_server.Normalization.Sorting.{sorted}
use tradetrack_mt5_server.Normalization.Deals.{
  Records, rows_of, batch, normalize_deals, same_deal, deal_before,
}
use tradetrack_mt5_server.Normalization.Deals.Complete.{normalize_deals-IsNormalized}
use tradetrack_mt5_server.Normalization.Deals.Complete as Deals
use tradetrack_mt5_server.Normalization.Positions.{
  normalize_positions, same_position, position_before,
}
use tradetrack_mt5_server.Normalization.Positions.Complete.{normalize_positions-IsNormalized}
use tradetrack_mt5_server.Normalization.Positions.Complete as Positions

-- Only zero is written in these rows.
abbrev str : ℤ → String
str n = "0"

-- A row with a ticket, a time in milliseconds, and zero in every other field.
abbrev native : ℕ → ℕ → Native
native ticket time = mapping λ field.
    if field == "symbol"
    then text "EURUSD"
    else if field == "ticket"
    then integer (pos ticket)
    else if field == "identifier"
    then integer (pos ticket)
    else if field == "time_msc"
    then integer (pos time)
    else integer (pos 0)

-- The first two seconds after the epoch.
abbrev window : HistoryWindow
window = record { start = 0; end = 2000000 }

abbrev deal : ℕ → ℕ → RawDeal
deal ticket time = record {
  ticket = ticket;
  order = 0;
  position_id = 0;
  time_msc = time;
  type = 0;
  entry = 0;
  magic = 0;
  reason = 0;
  symbol = "EURUSD";
  volume = "0";
  price = "0";
  profit = "0";
  commission = "0";
  swap = "0";
  fee = "0";
}

-- The last row is outside the window.
abbrev rows : Records
rows = rows_of (native 7 1500 ∷ native 5 1000 ∷ native 7 1500 ∷ native 9 2000 ∷ [])

abbrev deals : List RawDeal
deals = deal 5 1000 ∷ deal 7 1500 ∷ []

rows_normalized : normalize_deals str window rows 10 ≡ ok deals
unfolding normalize_deals start_ms epoch_ms end_ms record_of int_field id_field symbol_field
    number_field lookup insert values same_deal sorted deal_before
rows_normalized = refl

normalize_deals-IsNormalized_example :
    (given : List Native) × (rows ≡ rows_of given)
    × (length given ≤ 10)
    × (10 ≤ max_records)
    × Deals.IsNormalized str window given deals
normalize_deals-IsNormalized_example =
    normalize_deals-IsNormalized str window rows 10 deals rows_normalized

abbrev position : ℕ → ℕ → RawPosition
position ticket time = record {
  ticket = ticket;
  identifier = ticket;
  time_msc = time;
  time_update_msc = 0;
  type = 0;
  magic = 0;
  reason = 0;
  symbol = "EURUSD";
  volume = "0";
  price_open = "0";
  price_current = "0";
  sl = "0";
  tp = "0";
  profit = "0";
  swap = "0";
}

abbrev positions : List RawPosition
positions = position 5 1000 ∷ position 7 1500 ∷ []

abbrev open_rows : Records
open_rows = rows_of (native 7 1500 ∷ native 5 1000 ∷ native 7 1500 ∷ [])

positions_normalized : normalize_positions str open_rows 10 ≡ ok positions
unfolding normalize_positions record_of int_field id_field symbol_field number_field lookup insert
    values same_position sorted position_before read_position batch
positions_normalized = refl

normalize_positions-IsNormalized_example :
    (given : List Native) × (open_rows ≡ rows_of given)
    × (length given ≤ 10)
    × (10 ≤ max_records)
    × Positions.IsNormalized str given positions
normalize_positions-IsNormalized_example =
    normalize_positions-IsNormalized str open_rows 10 positions positions_normalized
