-- ===== src/Clock/Examples.antt =====
-- The clock observation at concrete inputs.
use tradetrack_mt5_server.Prelude.{
  ◌≡◌, ◌≤◌, ◌-◌, ◌+◌, ◌*◌, text_key, true, [], ◌∷◌, refl, arith, lookup,
}
use tradetrack_mt5_server.Prelude.Int.{pos, neg, ◌-ℤ◌, ◌*ℤ◌, abs}
use tradetrack_mt5_server.Clock.{
  Sample, observed, compare_samples, is_stable, offsets_of, judge, accept, offset_of, lag_of,
  round_quarters,
}
use tradetrack_mt5_server.Clock.Offsets.{offset_of_ahead}
use tradetrack_mt5_server.Clock.Verdicts.{Support, compare_samples-Support}

-- A broker three hours ahead of UTC: two quotes advance, one stands still.
abbrev first : Sample
first = record {
  utc_ms = 1000000000;
  monotonic_ms = 5000;
  ticks = ("EURUSD", 1010799900) ∷ ("GBPUSD", 1010799000) ∷ ("XAUUSD", 1010799000) ∷ [];
}

abbrev second : Sample
second = record {
  utc_ms = 1000001000;
  monotonic_ms = 6000;
  ticks = ("EURUSD", 1010800900) ∷ ("GBPUSD", 1010800100) ∷ ("XAUUSD", 1010799000) ∷ [];
}

three_hours : compare_samples first second ≡ observed (pos 180) 2 1000000000 1000001000
unfolding compare_samples is_stable offsets_of judge accept offset_of lag_of round_quarters neg
    lookup ◌-ℤ◌ ◌*ℤ◌ abs
three_hours = refl

compare_samples-Support_example :
    (is_stable first second ≡ true) × (2 ≤ 2) × Support first second (pos 180) first.ticks 2
compare_samples-Support_example =
    compare_samples-Support first second (pos 180) 2 1000000000 1000001000 three_hours

offset_of_ahead_run : offset_of (1000000000 + 12 * 900000 - 150) 1000000000 ≡ pos (12 * 15)
offset_of_ahead_run = offset_of_ahead 12 1000000000 150 (omega arith) (omega arith)
