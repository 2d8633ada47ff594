-- ===== src/Legacy/Examples.antt =====
-- Deals of two positions, and a binding of an account to a terminal.
use Prim.Native.String.{String}
use tradetrack_mt5_server.Prelude.{
  ℕ, Result, ok, raise, Error, ◌≡◌, true, false, some, List, [], ◌∷◌, All, refl, lookup, insert,
  if◌then◌else◌, nat_beq,
}
use tradetrack_mt5_server.Prelude.Int.{ℤ, pos, negsuc}
use tradetrack_mt5_server.Legacy.{
  Field, absent, value, Row, Deal, entry_int, position_of, trades, deals_of, latest_rows,
  closing_only, collect, time_unix, type_int,
}
use tradetrack_mt5_server.Legacy.Closings.{
  IsClosingDeal, OnceEach, deals_of-IsClosingDeal, deals_of-OnceEach,
}
use tradetrack_mt5_server.Legacy.Queue.{Job}

abbrev number : ℕ → Field
number n = value true (some (pos n))

-- A row with its position, ticket, time and entry; 0 is a buy.
abbrev row : ℕ → ℕ → ℕ → ℕ → Row ℕ
row position ticket time entry = record {
  position_id = number position;
  ticket = number ticket;
  time = number time;
  type = value false (some (pos 0));
  entry = number entry;
  capital_entry = absent;
  amounts = some 5;
}

-- The first position is opened and closed, the second one only opened.
abbrev rows : List (Row ℕ)
rows = row 1 11 100 0 ∷ row 2 12 150 0 ∷ row 1 13 200 1 ∷ []

abbrev closed : Deal ℕ
closed = record {
  ticket = pos 13;
  position_id = pos 1;
  is_sell = false;
  time = pos 200;
  time_open = pos 100;
  amounts = 5;
}

rows-closed : deals_of rows ≡ closed ∷ []
unfolding deals_of trades latest_rows closing_only collect entry_int position_of time_unix type_int
    lookup insert
rows-closed = refl

deals_of-IsClosingDeal_example : All (IsClosingDeal (trades rows)) (deals_of rows)
deals_of-IsClosingDeal_example = deals_of-IsClosingDeal rows

deals_of-OnceEach_example : OnceEach [] (deals_of rows)
deals_of-OnceEach_example = deals_of-OnceEach rows

abbrev str : ℤ → String
str (pos n) = if nat_beq n 7 then "7" else "8"
str (negsuc n) = "-"

abbrev strip : String → String
strip s = s

abbrev hash : String → ℤ
hash s = negsuc 4

abbrev none_found : Result (List ℕ)
none_found = ok []

-- Since then a job of another account has succeeded, and one of the same account has failed.
abbrev since : List (Job str strip hash ℕ)
since =
    record {
      login = pos 8;
      server = "Demo";
      queue_index = some (some (pos 1));
      ended = 20;
      outcome = ok [];
    }
    ∷ record {
      login = pos 7;
      server = "Demo";
      queue_index = some (some (pos 0));
      ended = 30;
      outcome = raise Error.other;
    }
    ∷ []
