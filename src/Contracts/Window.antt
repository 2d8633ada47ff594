-- ===== src/Contracts/Window.antt =====
-- The windows that the constructor lets through, and the query bounds that they expand to.
use tradetrack_mt5_server.Prelude.{
  ℕ, ◌+◌, ◌*◌, ◌/◌, ◌%◌, ◌≤◌, ◌<◌, String, none, some, ok, ◌≡◌, arith, ◌↔◌, nat_beq, Bool-cases,
  inl, inr, >>=-eq-ok,
}
use tradetrack_mt5_server.Prelude.Int.{pos, negsuc}
use tradetrack_mt5_server.Contracts.{
  second, max_window, max_datetime, Moment, zoned, naive, not_a_datetime, HistoryWindow, epoch_ms,
  start_ms, end_ms, endpoint, check_duration, make_window, mt5_bounds, floor_second,
}

-- Whole milliseconds, not empty, and at most 31 days.
pub record IsWindow (w : HistoryWindow) : Type 0 where
  pub start_aligned : w.start % 1000 ≡ 0
  pub end_aligned : w.end % 1000 ≡ 0
  pub nonempty : w.start < w.end
  pub short : w.end ≤ w.start + max_window

endpoint-eq-ok :
    (m : Moment) (field : String) (t : ℕ)
    → endpoint m field ≡ ok t
    → (m ≡ zoned (some (pos t))) × (t % 1000 ≡ 0)
unfolding endpoint
endpoint-eq-ok not_a_datetime field t h = cc
endpoint-eq-ok naive field t h = cc
endpoint-eq-ok (zoned none) field t h = cc
endpoint-eq-ok (zoned (some (negsuc n))) field t h = cc
endpoint-eq-ok (zoned (some (pos u))) field t h = ground arith

endpoint_ok : (field : String) (t : ℕ) → t % 1000 ≡ 0 → endpoint (zoned (some (pos t))) field ≡ ok t
unfolding endpoint
endpoint_ok field t h = ground arith

duration-eq-ok :
    (s e : ℕ) (w : HistoryWindow)
    → check_duration s e ≡ ok w
    → (s ≡ w.start) × (e ≡ w.end) × (w.start < w.end) × (w.end ≤ w.start + max_window)
unfolding check_duration
duration-eq-ok s e w h = ground arith

duration_ok :
    (w : HistoryWindow)
    → w.start < w.end
    → w.end ≤ w.start + max_window
    → check_duration w.start w.end ≡ ok w
unfolding check_duration
duration_ok w p q = ground arith

pub make_window_sound :
    (a b : Moment) (w : HistoryWindow)
    → make_window a b ≡ ok w
    → (a ≡ zoned (some (pos w.start))) × (b ≡ zoned (some (pos w.end))) × IsWindow w
unfolding make_window
make_window_sound a b w h =
    let (s, hs, rest) = >>=-eq-ok (endpoint a "start") _ h in
    let (e, he, last) = >>=-eq-ok (endpoint b "end") _ rest in
    let (es, ee, nonempty, short) = duration-eq-ok s e w last in
    let (ea, start_aligned) = endpoint-eq-ok a "start" s hs in
    let (eb, end_aligned) = endpoint-eq-ok b "end" e he in
    (
      rw es at ea,
      rw ee at eb,
      record {
        start_aligned = rw es at start_aligned;
        end_aligned = rw ee at end_aligned;
        nonempty = nonempty;
        short = short;
      },
    )

pub make_window_complete :
    (w : HistoryWindow)
    → IsWindow w
    → make_window (zoned (some (pos w.start))) (zoned (some (pos w.end))) ≡ ok w
unfolding make_window
make_window_complete w v =
    rw (endpoint_ok "start" w.start v.start_aligned, endpoint_ok "end" w.end v.end_aligned)
      (duration_ok w v.nonempty v.short)

pub epoch_ms-exact : (t : ℕ) → epoch_ms t ≡ t / 1000
unfolding epoch_ms
epoch_ms-exact t = omega arith

-- The query bounds.
pub record Covers (w : HistoryWindow) (lo hi : ℕ) : Type 0 where
  pub lo_whole : lo % second ≡ 0
  pub hi_whole : hi % second ≡ 0
  pub lo_below : lo ≤ w.start
  pub lo_close : w.start < lo + second
  pub hi_above : w.end ≤ hi
  pub hi_close : hi < w.end + second

-- The constructor accepts two moments as the window `w` exactly if they are aware datetimes at the
-- ends of `w`, at or after the epoch, and `w` has whole milliseconds, is not empty and is at most 31
-- days long. All else raises.
pub make_window_iff :
    (a b : Moment) (w : HistoryWindow)
    → (make_window a b ≡ ok w)
      ↔ ((a ≡ zoned (some (pos w.start))) × (b ≡ zoned (some (pos w.end))) × IsWindow w)
make_window_iff a b w =
    (make_window_sound a b w, λ (ea, eb, v). rw (ea, eb) (make_window_complete w v))

-- Of a window that the constructor accepts and that does not end in the last second of year 9999,
-- the query bounds exist, are whole seconds, and enclose the window with less than one second to
-- spare on either side.
pub mt5_bounds-Covers :
    (w : HistoryWindow)
    → IsWindow w
    → w.end + second ≤ max_datetime
    → (lo hi : ℕ) × (mt5_bounds w ≡ ok (lo, hi)) × Covers w lo hi
unfolding mt5_bounds
mt5_bounds-Covers w v h = elim (Bool-cases (nat_beq (w.end % second) 0)) [
  | inl whole ↦ (floor_second w.start, floor_second w.end, rw whole, ground arith)
  | inr partial ↦ (floor_second w.start, floor_second w.end + second, ground arith, ground arith)
]

-- Milliseconds name the ends of an accepted window without loss, in order, at most 31 days apart.
pub window_ms_exact :
    (w : HistoryWindow)
    → IsWindow w
    → (start_ms w * 1000 ≡ w.start)
      × (end_ms w * 1000 ≡ w.end)
      × (start_ms w < end_ms w)
      × (end_ms w ≤ start_ms w + 2678400000)
unfolding start_ms end_ms
window_ms_exact w v = omega (arith, epoch_ms-exact w.start, epoch_ms-exact w.end)
