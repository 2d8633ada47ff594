-- ===== src/Normalization.antt =====
-- app/collector/normalization.py and the wire records of app/collector/contracts.py: the fields of
-- MetaTrader's rows, checked and copied. A row is what its `get` answers; a named tuple is its
-- `_asdict`. An identifier stays the number that the source writes in decimal digits.
pub mod Sorting
pub mod Deals
pub mod Positions
mod Examples
use Prim.Native.Char.{Char, code}
use Prim.Native.String.{String, [], ◌∷◌, count}
use tradetrack_mt5_server.Prelude.{
  ℕ, ◌-◌, ◌^◌, Bool, true, false, not, ◌&&◌, ◌||◌, ltb, leb, nat_beq, if◌then◌else◌, ◌==◌, text_key,
  Result, ok, raise, Error, ◌>>=◌,
}
use tradetrack_mt5_server.Prelude.Int.{ℤ, pos, negsuc}
use tradetrack_mt5_server.Contracts.{HistoryWindow, start_ms, end_ms, max_records}

-- A float or a `Decimal`, by what `Decimal(str(value))` makes of it.
pub record Numeral : Type 0 where
  pub text : String
  pub is_finite : Bool
  pub is_negative : Bool

-- What `row.get` answers, told apart by what the checks tell apart; a Boolean is `other`.
pub data Value : Type 0 where
  absent other : Value
  integer : ℤ → Value
  real : Numeral → Value
  text : String → Value

pub data Native : Type 0 where
  no_mapping : Native
  mapping : (String → Value) → Native

abbrev pub uint64_max : ℕ
uint64_max = 2 ^ 64 - 1

abbrev pub int64_max : ℕ
int64_max = 2 ^ 63 - 1

abbrev pub Row : Type 0
Row = String → Value

abbrev pub invalid : String → Error
invalid field = Error.data_error "INVALID_RECORD" field

-- `_record`.
unfoldable pub record_of : Native → Result Row
record_of no_mapping = raise (invalid "")
record_of (mapping row) = ok row

unfoldable pub int_within : String → ℕ → Value → Result ℕ
int_within field maximum (integer (pos n)) = if leb n maximum then ok n else raise (invalid field)
int_within field maximum _ = raise (invalid field)

-- `_int`, with the default bound.
unfoldable pub int_field : Row → String → Result ℕ
unfolding int_within
int_field row field = int_within field int64_max (row field)

-- `_id`.
unfoldable pub id_field : Row → String → Bool → Result ℕ
unfolding int_within
id_field row field nonzero = int_within field uint64_max (row field) >>= λ n.
    if nonzero && nat_beq n 0 then raise (invalid field) else ok n

abbrev pub has_control : String → Bool
has_control [] = false
has_control (c ∷ s) = ltb (code c) 32 || has_control s

unfoldable pub symbol_of : Value → Result String
symbol_of (text s) = if ltb 256 (count s) || has_control s then raise (invalid "symbol") else ok s
symbol_of _ = raise (invalid "symbol")

-- `_symbol`.
unfoldable pub symbol_field : Row → Result String
unfolding symbol_of
symbol_field row = symbol_of (row "symbol")

abbrev pub is_below_zero : ℤ → Bool
is_below_zero (pos n) = false
is_below_zero (negsuc n) = true

pub record RawDeal : Type 0 where
  pub ticket : ℕ
  pub order : ℕ
  pub position_id : ℕ
  pub time_msc : ℕ
  pub type : ℕ
  pub entry : ℕ
  pub magic : ℕ
  pub reason : ℕ
  pub symbol : String
  pub volume : String
  pub price : String
  pub profit : String
  pub commission : String
  pub swap : String
  pub fee : String

pub record RawPosition : Type 0 where
  pub ticket : ℕ
  pub identifier : ℕ
  pub time_msc : ℕ
  pub time_update_msc : ℕ
  pub type : ℕ
  pub magic : ℕ
  pub reason : ℕ
  pub symbol : String
  pub volume : String
  pub price_open : String
  pub price_current : String
  pub sl : String
  pub tp : String
  pub profit : String
  pub swap : String

pub record RawAccountSnapshot : Type 0 where
  pub balance : String
  pub equity : String
  pub currency : String

-- `str(Decimal(str(n)))` of an integer is a parameter.
module _ (str : ℤ → String) where
  unfoldable pub number_of : String → Bool → Value → Result String
  number_of field nonnegative (integer n) =
      if nonnegative && is_below_zero n then raise (invalid field) else ok (str n)
  number_of field nonnegative (real d) =
      if not d.is_finite || (nonnegative && d.is_negative) then raise (invalid field) else ok d.text
  number_of field nonnegative _ = raise (invalid field)

  -- `_number`.
  unfoldable pub number_field : Row → String → Bool → Result String
  unfolding number_of
  number_field row field nonnegative = number_of field nonnegative (row field)

  -- The call of `RawDeal` for a row whose time is read.
  unfoldable pub read_deal : Row → ℕ → Result RawDeal
  unfolding int_field id_field symbol_field number_field
  read_deal row time_msc = do
    ticket ← id_field row "ticket" true
    order ← id_field row "order" false
    position_id ← id_field row "position_id" false
    type ← int_field row "type"
    entry ← int_field row "entry"
    magic ← id_field row "magic" false
    reason ← int_field row "reason"
    symbol ← symbol_field row
    volume ← number_field row "volume" true
    price ← number_field row "price" false
    profit ← number_field row "profit" false
    commission ← number_field row "commission" false
    swap ← number_field row "swap" false
    fee ← number_field row "fee" false
    ok record {
      ticket = ticket;
      order = order;
      position_id = position_id;
      time_msc = time_msc;
      type = type;
      entry = entry;
      magic = magic;
      reason = reason;
      symbol = symbol;
      volume = volume;
      price = price;
      profit = profit;
      commission = commission;
      swap = swap;
      fee = fee;
    }

  -- The call of `RawPosition`.
  unfoldable pub read_position : Row → Result RawPosition
  unfolding int_field id_field symbol_field number_field
  read_position row = do
    ticket ← id_field row "ticket" true
    identifier ← id_field row "identifier" true
    time_msc ← int_field row "time_msc"
    time_update_msc ← int_field row "time_update_msc"
    type ← int_field row "type"
    magic ← id_field row "magic" false
    reason ← int_field row "reason"
    symbol ← symbol_field row
    volume ← number_field row "volume" true
    price_open ← number_field row "price_open" false
    price_current ← number_field row "price_current" false
    sl ← number_field row "sl" false
    tp ← number_field row "tp" false
    profit ← number_field row "profit" false
    swap ← number_field row "swap" false
    ok record {
      ticket = ticket;
      identifier = identifier;
      time_msc = time_msc;
      time_update_msc = time_update_msc;
      type = type;
      magic = magic;
      reason = reason;
      symbol = symbol;
      volume = volume;
      price_open = price_open;
      price_current = price_current;
      sl = sl;
      tp = tp;
      profit = profit;
      swap = swap;
    }

  -- The tests of characters are the interpreter's: `str.strip`'s white space, and the Unicode
  -- categories Cc and Cf.
  module _ (is_space is_invisible : Char → Bool) where
    abbrev pub any_char : (Char → Bool) → String → Bool
    any_char p [] = false
    any_char p (c ∷ s) = p c || any_char p s

    -- Whether the last character, or `c` if there is none after it, is white space.
    abbrev pub ends_in_space : Char → String → Bool
    ends_in_space c [] = is_space c
    ends_in_space c (d ∷ s) = ends_in_space d s

    -- `currency == currency.strip()`.
    abbrev pub is_stripped : String → Bool
    is_stripped [] = true
    is_stripped (c ∷ s) = not (is_space c) && not (ends_in_space c s)

    unfoldable pub currency_of : Value → Result String
    currency_of (text s) =
        if leb 1 (count s) && leb (count s) 10 && is_stripped s && not (any_char is_invisible s)
        then ok s
        else raise (invalid "currency")
    currency_of _ = raise (invalid "currency")

    unfoldable pub normalize_account : Native → Result RawAccountSnapshot
    unfolding record_of currency_of number_field
    normalize_account value = do
      row ← record_of value
      currency ← currency_of (row "currency")
      balance ← number_field row "balance" false
      equity ← number_field row "equity" false
      ok record { balance = balance; equity = equity; currency = currency }
