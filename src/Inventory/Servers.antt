-- ===== src/Inventory/Servers.antt =====
-- `visible_servers`, from the combo box of the login dialog on: the names that it lists. An answer of
-- `send` is a number, or the raise of a message that timed out. Clock readings are milliseconds.
pub mod Listed
use tradetrack_mt5_server.Prelude.{
  ℕ, zero, suc, ◌+◌, String, Bool, true, false, not, ◌&&◌, ◌||◌, Option, none, some, List, [], ◌∷◌,
  ltb, leb, nat_beq, if◌then◌else◌, Result, ok, raise, Error, ◌>>=◌, ◌>>◌,
}
use tradetrack_mt5_server.Prelude.Int.{ℤ, pos, negsuc, same_ℤ}
use tradetrack_mt5_server.Throttle.{seconds}
use tradetrack_mt5_server.Catalogues.{in_names}
use tradetrack_mt5_server.Normalization.Sorting.{sorted}
use tradetrack_mt5_server.Inventory.Processes.{inventory, same_identity}
use Prim.Native.String.{compare, [], ◌∷◌}
use Prim.Native.Char.{Char, code}
use Prim.Native.Nat.{Ordering}

-- What a turn of the loop meets: the clock before it, the length of the name, the length of the copy,
-- and what is in the buffer then.
pub record Turn : Type 0 where
  pub clock : ℕ
  pub length : Result ℤ
  pub copied : Result ℤ
  pub buffer : String

-- What the reading of the box meets, turn by turn.
pub record Combo : Type 0 where
  pub before : Option String
  pub count : Result ℤ
  pub start : ℕ
  pub turns : ℕ → Turn
  pub again : Result ℤ
  pub after : Option String

abbrev pub is_name_length : ℤ → Bool
is_name_length (pos n) = ltb 0 n && leb n 128
is_name_length (negsuc n) = false

-- The buffer for a name: its length and one more.
abbrev pub buffer_size : ℤ → ℕ
buffer_size (pos n) = suc n
buffer_size (negsuc n) = 0

-- `buffer.value`: the text before the first NUL, or the whole buffer.
unfoldable pub buffer_value : ℕ → String → String
buffer_value zero s = ""
buffer_value (suc n) [] = ""
buffer_value (suc n) (c ∷ s) =
    let rest = buffer_value n s in if nat_beq (code c) 0 then "" else c ∷ rest

unfoldable pub read_name : ℕ → Turn → Result String
unfolding buffer_value
read_name deadline t =
    if ltb deadline t.clock
    then raise (inventory "UI_TIMEOUT")
    else (t.length >>= λ n.
        if not (is_name_length n)
        then raise (inventory "SERVER_NAME_INVALID")
        else (t.copied >>= λ m.
            if same_ℤ m n
            then ok (buffer_value (buffer_size n) t.buffer)
            else raise (inventory "SERVER_LIST_CHANGED")))

-- The loop, from an index on.
unfoldable pub read_names : ℕ → (ℕ → Turn) → ℕ → ℕ → Result (List String)
unfolding read_name
read_names deadline turns i zero = ok []
read_names deadline turns i (suc rest) = read_name deadline (turns i) >>= λ x.
    read_names deadline turns (suc i) rest >>= λ xs. ok (x ∷ xs)

-- `sorted(set(names))`.
unfoldable pub set_of : List String → List String
unfolding in_names
set_of [] = []
set_of (x ∷ names) = let rest = set_of names in if in_names x rest then rest else x ∷ rest

abbrev pub text_before : String → String → Bool
text_before a b = elim (compare a b) [ Ordering.gt ↦ false | _ ↦ true ]

unfoldable pub checked_size : ℤ → Result ℕ
checked_size (pos n) = if leb n 1000 then ok n else raise (inventory "SERVER_LIST_LIMIT")
checked_size (negsuc n) = raise (inventory "SERVER_LIST_LIMIT")

abbrev pub end_reading : String → Combo → ℕ → List String → ℤ → Result (List String)
end_reading identity c n names again =
    if not (same_ℤ again (pos n)) || not (same_identity c.after identity)
    then raise (inventory "TERMINAL_CHANGED")
    else ok (sorted text_before (set_of names))

unfoldable pub read_servers : String → Combo → Result (List String)
unfolding checked_size read_names set_of
read_servers identity c =
    if not (same_identity c.before identity)
    then raise (inventory "TERMINAL_CHANGED")
    else (c.count >>= λ listed. checked_size listed >>= λ n.
        read_names (c.start + seconds 20) c.turns 0 n >>= λ names.
        c.again >>= λ again. end_reading identity c n names again)
