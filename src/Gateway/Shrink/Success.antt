-- ===== src/Gateway/Shrink/Success.antt =====
-- What a narrowed window is, that 32 rounds are enough, and the one way in which a round widens.
use tradetrack_mt5_server.Prelude.{
  ℕ, zero, suc, ◌+◌, ◌-◌, ◌*◌, ◌%◌, ◌^◌, ◌≤◌, ◌<◌, ◌≡◌, false, Option, none, some, leb, leb→le,
  Result, ok, raise, arith, refl, >>=-eq-ok, Bool-cases, inl, inr, if◌then◌else◌, ◌⊎◌, subst,
}
use tradetrack_mt5_server.Prelude.Int.{ℤ, pos, negsuc}
use tradetrack_mt5_server.Contracts.{
  second, max_datetime, floor_second, HistoryWindow, mt5_bounds, start_ms, end_ms,
}
use tradetrack_mt5_server.Contracts.Window.{
  IsWindow, epoch_ms-exact, mt5_bounds-Covers, window_ms_exact,
}
use tradetrack_mt5_server.Gateway.Shrink.{
  Total, checked_count, midpoint_ms, upper_half, too_large, shrink, max_rounds,
}
use tradetrack_mt5_server.Gateway.Shrink.Progress.{
  upper, upper-IsWindow, upper_half_ok, upper_start, upper_length,
}
use native.Mathlib.Nat.{pow-suc}
use native.Mathlib.Decide.{dec_le}

-- A round whose answer is too large, and whose window is not too short: what it counts, and the window
-- of the round after it.
pub record IsDense (total : Total) (left : ℕ) (w next : HistoryWindow) : Type 0 where
  pub bounds : ℕ × ℕ
  pub counted : ℕ
  pub asked : mt5_bounds w ≡ ok bounds
  pub answered : total left bounds ≡ some (pos counted)
  pub large : 4000 < counted
  pub long : 1000 < end_ms w - start_ms w
  pub halved : upper_half w ≡ ok next

-- The loop gets from a window, with so many rounds left, to another one, with so many left then.
pub data Reaches (total : Total) : ℕ → HistoryWindow → ℕ → HistoryWindow → Type 0 where
  here : (rounds : ℕ) (w : HistoryWindow) → Reaches total rounds w rounds w
  later :
      {rounds left : ℕ} {w next last : HistoryWindow}
      → IsDense total rounds w next
      → Reaches total rounds next left last
      → Reaches total (suc rounds) w left last

-- The last round, with `left` rounds after it, asks for the bounds of the window that is returned.
pub record IsNarrowed (total : Total) (rounds : ℕ) (w w' : HistoryWindow) : Type 0 where
  pub valid : IsWindow w'
  pub same_end : w'.end ≡ w.end
  pub no_earlier : floor_second w.start ≤ w'.start
  pub left : ℕ
  pub reached : Reaches total rounds w (suc left) w'
  pub bounds : ℕ × ℕ
  pub counted : ℕ
  pub asked : mt5_bounds w' ≡ ok bounds
  pub answered : total left bounds ≡ some (pos counted)
  pub small : counted ≤ 4000

checked_count-eq-ok : (reply : Option ℤ) (n : ℕ) → checked_count reply ≡ ok n → reply ≡ some (pos n)
unfolding checked_count
checked_count-eq-ok none n h = cc
checked_count-eq-ok (some (pos m)) n h = cc
checked_count-eq-ok (some (negsuc m)) n h = cc

-- The two tests of a round.
round_cases :
    (n len : ℕ) (w w' : HistoryWindow) (rest : Result HistoryWindow)
    → (if leb n 4000 then ok w else if leb len 1000 then raise too_large else rest) ≡ ok w'
    → ((n ≤ 4000) × (w ≡ w')) ⊎ ((4000 < n) × (1000 < len) × (rest ≡ ok w'))
round_cases n len w w' rest h = elim (Bool-cases (leb n 4000)) [
  | inl small ↦ inl (leb→le n 4000 small, ground arith)
  | inr large ↦ inr (ground arith, ground arith, ground arith)
]

IsNarrowed-later :
    (total : Total) (rounds : ℕ) (w w' : HistoryWindow)
    → IsWindow w
    → IsDense total rounds w (upper w)
    → IsNarrowed total rounds (upper w) w'
    → IsNarrowed total (suc rounds) w w'
IsNarrowed-later total rounds w w' v dense r = record {
  valid = r.valid;
  same_end = r.same_end;
  no_earlier = omega (arith, upper_start w v, r.no_earlier);
  left = r.left;
  reached = later dense r.reached;
  bounds = r.bounds;
  counted = r.counted;
  asked = r.asked;
  answered = r.answered;
  small = r.small;
}

-- If the loop returns a window, it is a valid one with the same end, that starts no earlier than the
-- second in which the first window starts. The loop gets to it over rounds in each of which the
-- count asked for the bounds of the round's window was above 4000 and the window longer than a
-- second, and the count of its last round, asked for the bounds of the window that it returns, was an
-- integer of at most 4000.
pub shrink-IsNarrowed :
    (total : Total) (rounds : ℕ) (w w' : HistoryWindow)
    → IsWindow w
    → shrink total rounds w ≡ ok w'
    → IsNarrowed total rounds w w'
unfolding shrink
shrink-IsNarrowed total zero w w' v h = cc
shrink-IsNarrowed total (suc rounds) w w' v h =
    let (bounds, asked, h1) = >>=-eq-ok (mt5_bounds w) _ h in
    let (n, answered, h2) = >>=-eq-ok (checked_count (total rounds bounds)) _ h1 in
    let answer = checked_count-eq-ok (total rounds bounds) n answered in
    elim (round_cases n (end_ms w - start_ms w) w w' _ h2) [
      | inl (small, same) ↦ subst (IsNarrowed total (suc rounds) w) same (record {
        valid = v;
        same_end = refl;
        no_earlier = omega arith;
        left = rounds;
        reached = here (suc rounds) w;
        bounds = bounds;
        counted = n;
        asked = asked;
        answered = answer;
        small = small;
      })
      | inr (large, long, h3) ↦
          let dense : IsDense total rounds w (upper w) = record {
            bounds = bounds;
            counted = n;
            asked = asked;
            answered = answer;
            large = large;
            long = long;
            halved = upper_half_ok w v long;
          } in
          IsNarrowed-later total rounds w w' v dense (
            shrink-IsNarrowed total rounds (upper w) w' (upper-IsWindow w v long)
              (rw (upper_half_ok w v long) at h3))
    ]

-- The terminal counts every window of the same end that is at most three seconds long, and counts
-- at most 4000 deals in it; all its replies are integers.
pub record IsCountable (total : Total) (end : ℕ) : Type 0 where
  pub replies : (round : ℕ) (bounds : ℕ × ℕ) → (n : ℕ) × (total round bounds ≡ some (pos n))
  pub sparse :
      (w : HistoryWindow) (round : ℕ) (bounds : ℕ × ℕ) (n : ℕ)
      → w.end ≡ end
      → end_ms w ≤ start_ms w + 3000
      → mt5_bounds w ≡ ok bounds
      → total round bounds ≡ some (pos n)
      → n ≤ 4000

long_enough : (n : ℕ) → 1000 < n → leb n 1000 ≡ false
long_enough n h = ground arith

-- One round on a window that the terminal can count.
round_ok :
    (total : Total) (rounds : ℕ) (w : HistoryWindow)
    → IsWindow w
    → w.end + second ≤ max_datetime
    → IsCountable total w.end
    → (end_ms w ≤ start_ms w + 3000
        ⊎ ((1000 < end_ms w - start_ms w)
            × ((w' : HistoryWindow) × (shrink total rounds (upper w) ≡ ok w'))))
    → (w' : HistoryWindow) × (shrink total (suc rounds) w ≡ ok w')
unfolding shrink checked_count
round_ok total rounds w v h c next =
    let (lo, hi, asked, _) = mt5_bounds-Covers w v h in
    let (n, answered) = c.replies rounds (lo, hi) in
    elim (Bool-cases (leb n 4000)) [
      | inl small ↦ (w, rw (asked, answered) (rw small))
      | inr large ↦ elim next [
        | inl short ↦
            absurd (ground (arith, c.sparse w rounds (lo, hi) n refl short asked answered))
        | inr (long, (w', rest)) ↦ (
          w',
          rw (asked, answered)
              (rw (large, long_enough (end_ms w - start_ms w) long, upper_half_ok w v long) rest),
        )
      ]
    ]

enough_rounds :
    (k : ℕ) (total : Total) (w : HistoryWindow)
    → IsWindow w
    → w.end + second ≤ max_datetime
    → IsCountable total w.end
    → end_ms w ≤ start_ms w + 2000 + 2 ^ suc k
    → (w' : HistoryWindow) × (shrink total (suc k) w ≡ ok w')
enough_rounds zero total w v h c l = round_ok total 0 w v h c (inl (omega arith))
enough_rounds (suc k) total w v h c l = elim (dec_le (end_ms w) (start_ms w + 3000)) [
  | yes short ↦ round_ok total (suc k) w v h c (inl short)
  | no long ↦ round_ok total (suc k) w v h c (
      inr (
        omega arith,
        enough_rounds k total (upper w) (upper-IsWindow w v (omega arith)) h c
            (omega (arith, upper_length w v, pow-suc 2 (suc k))),
      ))
]

-- If the terminal answers integers and counts at most 4000 deals in each window of up to three
-- seconds before the window's end, then the 32 rounds are enough for any window that the
-- constructor accepts and that ends a second or more before the largest datetime: the loop returns a
-- window and does not raise.
pub shrink-ok :
    (total : Total) (w : HistoryWindow)
    → IsWindow w
    → w.end + second ≤ max_datetime
    → IsCountable total w.end
    → (w' : HistoryWindow) × (shrink total max_rounds w ≡ ok w')
shrink-ok total w v h c = enough_rounds 31 total w v h c (ground (arith, window_ms_exact w v))

-- A round can widen a window instead: of an accepted window longer than one second that does not
-- start on a whole second, and whose length with twice the start's odd milliseconds is below two
-- seconds, the next window starts earlier.
pub upper_half_widens :
    (w : HistoryWindow)
    → IsWindow w
    → 1000 < end_ms w - start_ms w
    → 0 < start_ms w % 1000
    → 2 * (start_ms w % 1000) + (end_ms w - start_ms w) < 2000
    → (w' : HistoryWindow) × (upper_half w ≡ ok w') × (w'.start < w.start)
unfolding start_ms end_ms midpoint_ms
upper_half_widens w v long odd small =
    (upper w, upper_half_ok w v long, omega (arith, epoch_ms-exact w.start, epoch_ms-exact w.end))
