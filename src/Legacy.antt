-- ===== src/Legacy.antt =====
-- app/mt5_client.py, `fetch_deals`: the closing deals of an account, one for each position. A row is
-- what the code reads of its dictionary. `int` of an infinite float, which raises `OverflowError`, is
-- left out. Times are seconds since the epoch.
pub mod Latest
pub mod Closings
pub mod Queue
mod Examples
use tradetrack_mt5_server.Prelude.{
  ℕ, zero, suc, Bool, true, false, not, ◌&&◌, ◌||◌, Option, none, some, List, [], ◌∷◌, ◌++◌, String,
  nat_beq, if◌then◌else◌, ◌==◌, Key, lookup, insert,
}
use tradetrack_mt5_server.Prelude.Int.{ℤ, pos, negsuc, leb_ℤ, ltb_ℤ, same_ℤ, int_key}

-- A value of a row: its key is missing, it is `None`, or a value with its truth and what `int` makes
-- of it, which is missing where `int` raises.
pub data Field : Type 0 where
  absent none_value : Field
  value : (truthy : Bool) (as_int : Option ℤ) → Field

-- `amounts` are the symbol and the numbers that are only converted, missing where a conversion
-- raises. `time` is an integer, or a datetime by its timestamp.
pub record Row (Amounts : Type 0) : Type 0 where
  pub position_id : Field
  pub ticket : Field
  pub time : Field
  pub type : Field
  pub entry : Field
  pub capital_entry : Field
  pub amounts : Option Amounts

pub record Deal (Amounts : Type 0) : Type 0 where
  pub ticket : ℤ
  pub position_id : ℤ
  pub is_sell : Bool
  pub time : ℤ
  pub time_open : ℤ
  pub amounts : Amounts

-- `int(d.get(key, 0))`.
unfoldable pub int_or_zero : Field → Option ℤ
int_or_zero absent = some (pos 0)
int_or_zero none_value = none
int_or_zero (value truthy as_int) = as_int

-- `_entry_int` of one key, with what the code goes on with if the value is missing or `None`.
abbrev pub int_with : ℤ → Option ℤ → ℤ
int_with other none = other
int_with other (some n) = n

unfoldable pub entry_int : Field → Field → ℤ
entry_int (value truthy as_int) capital = int_with (pos 0) as_int
entry_int _ (value truthy as_int) = int_with (pos 0) as_int
entry_int _ _ = pos 0

-- `_type_int`: -1 for what is no integer.
unfoldable pub type_int : Field → ℤ
type_int (value truthy as_int) = int_with (negsuc 0) as_int
type_int _ = negsuc 0

-- `_time_unix`, missing where it raises.
unfoldable pub time_unix : Field → Option ℤ
time_unix (value truthy as_int) = as_int
time_unix _ = some (pos 0)

abbrev pub or_else : Option ℤ → Option ℤ → Option ℤ
or_else none other = other
or_else (some n) other = some n

-- The number of the position: `d.get("position_id") or d.get("ticket", 0)` as an integer, or else the
-- ticket as one. Missing where that raises, and for a zero: both loops go on to the next row.
abbrev pub nonzero : Option ℤ → Option ℤ
nonzero none = none
nonzero (some n) = if same_ℤ n (pos 0) then none else some n

unfoldable pub position_of : Field → Field → Option ℤ
unfolding int_or_zero
position_of (value true as_int) ticket = nonzero (or_else as_int (int_or_zero ticket))
position_of _ ticket = nonzero (int_or_zero ticket)

unfoldable pub is_closing : ℤ → Bool
is_closing e = same_ℤ e (pos 1) || same_ℤ e (pos 2) || same_ℤ e (pos 3)

abbrev pub earlier : Option ℤ → ℤ → Option ℤ
earlier none t = some t
earlier (some u) t = if ltb_ℤ t u then some t else some u

abbrev pub or_time : Option ℤ → ℤ → ℤ
or_time none t = t
or_time (some u) t = u

unfoldable pub in_tickets : ℤ → List ℤ → Bool
in_tickets t [] = false
in_tickets t (u ∷ us) = same_ℤ u t || in_tickets t us

module _ {A : Type 0} where
  abbrev pub pid : Row A → Option ℤ
  pid d = position_of d.position_id d.ticket

  abbrev pub entry_of : Row A → ℤ
  entry_of d = entry_int d.entry d.capital_entry

  -- A deal that buys or sells.
  unfoldable pub is_trade : Row A → Bool
  unfolding type_int
  is_trade d = same_ℤ (type_int d.type) (pos 0) || same_ℤ (type_int d.type) (pos 1)

  unfoldable pub trades : List (Row A) → List (Row A)
  unfolding is_trade
  trades [] = []
  trades (d ∷ rows) = if is_trade d then d ∷ trades rows else trades rows

  -- `pid not in by_key or t >= _time_unix(by_key[pid])`.
  unfoldable pub is_later : ℤ → Option (Row A) → Bool
  is_later t none = true
  is_later t (some old) = elim (time_unix old.time) [ none ↦ false | some u ↦ leb_ℤ u t ]

  -- One turn of the loop that keeps the latest row of each position.
  unfoldable pub keep_latest : Option ℤ → Option ℤ → Row A → List (ℤ × Row A) → List (ℤ × Row A)
  unfolding is_later
  keep_latest (some p) (some t) d by_key =
      if is_later t (lookup p by_key) then insert p d by_key else by_key
  keep_latest _ _ d by_key = by_key

  unfoldable pub latest_rows : List (Row A) → List (ℤ × Row A) → List (ℤ × Row A)
  unfolding keep_latest
  latest_rows [] by_key = by_key
  latest_rows (d ∷ rows) by_key = latest_rows rows (keep_latest (pid d) (time_unix d.time) d by_key)

  unfoldable pub closing_only : List (ℤ × Row A) → List (ℤ × Row A)
  unfolding is_closing
  closing_only [] = []
  closing_only (row ∷ rows) =
      if is_closing (entry_of row.1) then row ∷ closing_only rows else closing_only rows

  -- `all_by_pid[position]`, in the order of the rows.
  unfoldable pub rows_of : ℤ → List (Row A) → List (Row A)
  rows_of p [] = []
  rows_of p (d ∷ rows) = elim (pid d) [
    | none ↦ rows_of p rows
    | some q ↦ if q == p then d ∷ rows_of p rows else rows_of p rows
  ]

  -- The earliest time of an opening row, so far `best`; the outer option is missing where a time
  -- cannot be read, which drops the whole deal.
  unfoldable pub open_time : List (Row A) → Option ℤ → Option (Option ℤ)
  open_time [] best = some best
  open_time (d ∷ rows) best =
      let read : Option (Option ℤ) = elim (time_unix d.time) [
        | none ↦ none
        | some t ↦ open_time rows (earlier best t)
      ] in
      let skip = open_time rows best in if same_ℤ (entry_of d) (pos 0) then read else skip

  -- The body of the last loop, below `seen_tickets.add`.
  unfoldable pub make_deal : List (Row A) → ℤ → ℤ → Row A → Option (Deal A)
  unfolding open_time type_int rows_of
  make_deal rows p ticket d = elim (time_unix d.time) [
    | none ↦ none
    | some t ↦ elim (open_time (rows_of p rows) none) [
      | none ↦ none
      | some opened ↦ elim d.amounts [
        | none ↦ none
        | some amounts ↦ some record {
          ticket = ticket;
          position_id = p;
          is_sell = same_ℤ (type_int d.type) (pos 1);
          time = t;
          time_open = or_time opened t;
          amounts = amounts;
        }
      ]
    ]
  ]

  abbrev pub prepend : Option (Deal A) → List (Deal A) → List (Deal A)
  prepend none deals = deals
  prepend (some d) deals = d ∷ deals

  -- The last loop. Its first guard repeats the tests of `closing_only` and `trades`.
  unfoldable pub collect : List (Row A) → List ℤ → List (ℤ × Row A) → List (Deal A)
  unfolding make_deal in_tickets is_trade is_closing
  collect rows seen [] = []
  collect rows seen ((p, d) ∷ closing) = elim (int_or_zero d.ticket) [
    | none ↦ collect rows seen closing
    | some ticket ↦
        let skipped = collect rows seen closing in
        let taken = prepend (make_deal rows p ticket d) (collect rows (ticket ∷ seen) closing) in
        if not (is_closing (entry_of d)) || not (is_trade d) || in_tickets ticket seen
        then skipped
        else taken
  ]

  -- From the dictionaries on.
  unfoldable pub deals_of : List (Row A) → List (Deal A)
  unfolding trades latest_rows closing_only collect
  deals_of rows = collect (trades rows) [] (closing_only (latest_rows (trades rows) []))

  -- The first loop: up to `left` requests until one answers something.
  unfoldable pub first_answer : ℕ → ℕ → (ℕ → Option (List (Row A))) → Option (List (Row A))
  first_answer zero n history = none
  first_answer (suc left) n history = elim (history n) [
    | some rows ↦ some rows
    | none ↦ first_answer left (suc n) history
  ]

  -- The second loop, after an empty answer: up to `left` requests until one has rows.
  unfoldable pub nonempty_answer :
      ℕ → ℕ → (ℕ → Option (List (Row A))) → Option (List (Row A)) → Option (List (Row A))
  nonempty_answer zero n history answer = answer
  nonempty_answer (suc left) n history answer = elim (history n) [
    | some (d ∷ rows) ↦ some (d ∷ rows)
    | some [] ↦ nonempty_answer left (suc n) history (some [])
    | none ↦ nonempty_answer left (suc n) history none
  ]

  unfoldable pub request_history :
      (ℕ → Option (List (Row A))) → (ℕ → Option (List (Row A))) → Option (List (Row A))
  unfolding first_answer nonempty_answer
  request_history history again = elim (first_answer 25 0 history) [
    | some [] ↦ nonempty_answer 3 0 again (some [])
    | some (d ∷ rows) ↦ some (d ∷ rows)
    | none ↦ none
  ]

  unfoldable pub fetch_deals :
      (ℕ → Option (List (Row A))) → (ℕ → Option (List (Row A))) → List (Deal A)
  unfolding request_history deals_of
  fetch_deals history again = elim (request_history history again) [
    | none ↦ []
    | some rows ↦ deals_of rows
  ]
