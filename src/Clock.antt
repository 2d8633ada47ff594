-- ===== src/Clock.antt =====
-- app/collector/clock_observation.py: what two samples of quote times tell about the offset between
-- a broker's tick clock and UTC. All times are whole milliseconds. The quotient that `round` is
-- given is exact here; with clock readings below 2 ** 53 the float has the same nearest integer.
pub mod Offsets
pub mod Verdicts
mod Examples
use tradetrack_mt5_server.Prelude.{
  ℕ, suc, ◌+◌, ◌-◌, ◌*◌, ◌/◌, ◌%◌, String, text_key, Bool, true, false, not, ◌&&◌, Option, none,
  some, List, [], ◌∷◌, ltb, leb, nat_beq, if◌then◌else◌, lookup, length, ◌||◌,
}
use tradetrack_mt5_server.Prelude.Int.{ℤ, pos, negsuc, sub_ℕ, ◌+ℤ◌, ◌-ℤ◌, ◌*ℤ◌, leb_ℤ, neg, abs}

pub record Sample : Type 0 where
  pub utc_ms : ℕ
  pub monotonic_ms : ℕ
  pub ticks : List (String × ℕ)

pub data Verdict : Type 0 where
  clock_unstable fresh_quotes_required clock_disagreement : Verdict
  observed : (offset_minutes : ℤ) (symbols from_utc_ms to_utc_ms : ℕ) → Verdict

-- `round(n / 900000)`, which sends a half to the even neighbour.
unfoldable pub round_quarters : ℕ → ℕ
round_quarters n =
    let q = n / 900000 in
    let r = n % 900000 in
    if ltb r 450000 || (nat_beq r 450000 && nat_beq (q % 2) 0) then q else suc q

unfoldable pub offset_of : ℕ → ℕ → ℤ
offset_of current utc_ms =
    if leb utc_ms current
    then pos (round_quarters (current - utc_ms) * 15)
    else neg (pos (round_quarters (utc_ms - current) * 15))

-- `utc_ms - (tick - offset * 60000)`.
unfoldable pub lag_of : ℕ → ℕ → ℤ → ℤ
unfolding ◌-ℤ◌ ◌*ℤ◌
lag_of utc_ms tick offset = pos utc_ms -ℤ (pos tick -ℤ offset *ℤ pos 60000)

abbrev pub is_between : ℤ → ℤ → ℤ → Bool
is_between lo x hi = leb_ℤ lo x && leb_ℤ x hi

-- -250 and -840.
abbrev pub min_lag : ℤ
min_lag = negsuc 249

abbrev pub min_offset : ℤ
min_offset = negsuc 839

-- One turn of the loop: the offset that a symbol's two quotes give, if they are evidence.
unfoldable pub accept : Sample → Sample → ℕ → Option ℕ → Option ℤ
accept first second previous none = none
accept first second previous (some current) =
    let offset = offset_of current second.utc_ms in
    if leb current previous
    then none
    else if not (is_between min_offset offset (pos 840))
    then none
    else if is_between min_lag (lag_of second.utc_ms current offset) (pos 2000)
        && is_between min_lag (lag_of first.utc_ms previous offset) (pos 2000)
    then some offset
    else none

abbrev pub with_offset : Option ℤ → List ℤ → List ℤ
with_offset none offsets = offsets
with_offset (some x) offsets = x ∷ offsets

unfoldable pub offsets_of : Sample → Sample → List (String × ℕ) → List ℤ
offsets_of first second [] = []
offsets_of first second ((symbol, previous) ∷ ticks) =
    with_offset (accept first second previous (lookup symbol second.ticks))
      (offsets_of first second ticks)

unfoldable pub is_stable : Sample → Sample → Bool
unfolding ◌-ℤ◌ abs
is_stable first second =
    let elapsed = sub_ℕ second.monotonic_ms first.monotonic_ms in
    let wall_elapsed = sub_ℕ second.utc_ms first.utc_ms in
    is_between (pos 500) elapsed (pos 10000) && leb (abs (wall_elapsed -ℤ elapsed)) 250

abbrev pub same_ℤ : ℤ → ℤ → Bool
same_ℤ (pos a) (pos b) = nat_beq a b
same_ℤ (negsuc a) (negsuc b) = nat_beq a b
same_ℤ _ _ = false

unfoldable pub all_same : ℤ → List ℤ → Bool
all_same x [] = true
all_same x (y ∷ ys) = same_ℤ x y && all_same x ys

-- The verdict on the list of accepted offsets.
unfoldable pub judge : Sample → Sample → List ℤ → Verdict
unfolding all_same
judge first second [] = fresh_quotes_required
judge first second (x ∷ []) = fresh_quotes_required
judge first second (x ∷ y ∷ rest) =
    if all_same x (y ∷ rest)
    then observed x (length (x ∷ y ∷ rest)) first.utc_ms second.utc_ms
    else clock_disagreement

unfoldable pub compare_samples : Sample → Sample → Verdict
compare_samples first second =
    if is_stable first second
    then judge first second (offsets_of first second first.ticks)
    else clock_unstable
