-- ===== src/Clock/Offsets.antt =====
-- What an accepted pair of quotes shows.
use tradetrack_mt5_server.Prelude.{
  ℕ, refl, ap, ◌∙◌, false, ◌⊎◌, ◌+◌, ◌-◌, ◌*◌, ◌≤◌, ◌<◌, ◌≡◌, text_key, true, not, ◌&&◌, none, some,
  leb, if◌then◌else◌, arith, sym, subst, Bool-cases, inl, inr, and_true, leb→le,
}
use tradetrack_mt5_server.Prelude.Int.{
  ℤ, pos, leb_ℤ, neg, ◌≤ℤ◌, ◌-ℤ◌, ◌*ℤ◌, pos_part, neg_part, -ℤ_parts,
}
use tradetrack_mt5_server.Clock.{
  Sample, round_quarters, offset_of, lag_of, accept, min_lag, min_offset, is_between,
}

-- Rounding moves a time difference by at most 450 seconds, and an exact quarter hour by nothing.
pub round_quarters_close :
    (n : ℕ) → (round_quarters n * 900000 ≤ n + 450000) × (n ≤ round_quarters n * 900000 + 450000)
unfolding round_quarters
round_quarters_close n = ground arith

pub round_quarters_near :
    (k n : ℕ) → k * 900000 < n + 450000 → n < k * 900000 + 450000 → round_quarters n ≡ k
unfolding round_quarters
round_quarters_near k n h l = ground arith

-- A whole number of quarter hours, in minutes, either way.
abbrev pub IsQuarterHour : ℤ → Type 0
IsQuarterHour offset = (k : ℕ) × ((offset ≡ pos (k * 15)) ⊎ (offset ≡ neg (pos (k * 15))))

-- Evidence for an offset.
pub record IsEvidence (first second : Sample) (previous current : ℕ) (offset : ℤ) : Type 0 where
  pub advanced : previous < current
  pub in_quarters : IsQuarterHour offset
  pub above : min_offset ≤ℤ offset
  pub below : offset ≤ℤ pos 840
  pub lag_above : min_lag ≤ℤ lag_of second.utc_ms current offset
  pub lag_below : lag_of second.utc_ms current offset ≤ℤ pos 2000
  pub previous_lag_above : min_lag ≤ℤ lag_of first.utc_ms previous offset
  pub previous_lag_below : lag_of first.utc_ms previous offset ≤ℤ pos 2000

-- The tests of one turn, for any offset and any two lags.
accept_tests :
    (previous current : ℕ) (offset lag previous_lag x : ℤ)
    → (if leb current previous
        then none
        else if not (is_between min_offset offset (pos 840))
        then none
        else if is_between min_lag lag (pos 2000) && is_between min_lag previous_lag (pos 2000)
        then some offset
        else none)
      ≡ some x
    → (previous < current)
      × (offset ≡ x)
      × (is_between min_offset offset (pos 840) ≡ true)
      × (is_between min_lag lag (pos 2000) ≡ true)
      × (is_between min_lag previous_lag (pos 2000) ≡ true)
accept_tests previous current offset lag previous_lag x h =
    elim (Bool-cases (leb current previous)) [
      | inl stale ↦ absurd (let gone = rw stale at h in cc)
      | inr fresh ↦ elim (Bool-cases (is_between min_offset offset (pos 840))) [
        | inr far ↦ absurd (let gone = rw (fresh, far) at h in cc)
        | inl near ↦ elim (Bool-cases (is_between min_lag lag (pos 2000))) [
          | inr late ↦ absurd (let gone = rw (fresh, near, late) at h in cc)
          | inl prompt ↦ elim (Bool-cases (is_between min_lag previous_lag (pos 2000))) [
            | inr late ↦ absurd (let gone = rw (fresh, near, prompt, late) at h in cc)
            | inl prompt' ↦
                let same : some offset ≡ some x = rw (fresh, near, prompt, prompt') at h in
                (ground arith, cc, near, prompt, prompt')
          ]
        ]
      ]
    ]

between : (lo x hi : ℤ) → is_between lo x hi ≡ true → (lo ≤ℤ x) × (x ≤ℤ hi)
between lo x hi h =
    let (l, r) = and_true (leb_ℤ lo x) (leb_ℤ x hi) h in (leb→le _ _ l, leb→le _ _ r)

offset_of-IsQuarterHour : (current utc_ms : ℕ) → IsQuarterHour (offset_of current utc_ms)
unfolding offset_of
offset_of-IsQuarterHour current utc_ms = elim (Bool-cases (leb utc_ms current)) [
  | inl ahead ↦ (round_quarters (current - utc_ms), inl (rw ahead refl))
  | inr behind ↦ (round_quarters (utc_ms - current), inr (rw behind refl))
]

-- Both lags bound how far a quote is from a quarter hour, so the code's rounding finds that.
minutes_parts :
    (x : ℤ)
    → pos_part (x *ℤ pos 60000) + neg_part x * 60000
      ≡ neg_part (x *ℤ pos 60000) + pos_part x * 60000
unfolding ◌*ℤ◌
minutes_parts x = ground arith

-- The two bounds of a lag, without subtraction.
lag_bounds :
    (utc_ms tick : ℕ) (x : ℤ)
    → min_lag ≤ℤ lag_of utc_ms tick x
    → lag_of utc_ms tick x ≤ℤ pos 2000
    → (tick + neg_part x * 60000 ≤ utc_ms + pos_part x * 60000 + 250)
      × (utc_ms + pos_part x * 60000 ≤ tick + neg_part x * 60000 + 2000)
unfolding lag_of
lag_bounds utc_ms tick x lo hi =
    let m = minutes_parts x in
    let inner = -ℤ_parts (pos tick) (x *ℤ pos 60000) in
    let outer = -ℤ_parts (pos utc_ms) (pos tick -ℤ x *ℤ pos 60000) in
    (omega (arith, m, inner, outer, lo), omega (arith, m, inner, outer, hi))

offset_near_ahead :
    (k current utc_ms : ℕ)
    → current ≤ utc_ms + k * 900000 + 250
    → utc_ms + k * 900000 ≤ current + 2000
    → offset_of current utc_ms ≡ pos (k * 15)
unfolding offset_of neg
offset_near_ahead k current utc_ms h l =
    ground
      (arith, round_quarters_near k (current - utc_ms), round_quarters_near 0 (utc_ms - current))

offset_near_behind :
    (k current utc_ms : ℕ)
    → current + k * 900000 ≤ utc_ms + 250
    → utc_ms ≤ current + k * 900000 + 2000
    → offset_of current utc_ms ≡ neg (pos (k * 15))
unfolding offset_of neg
offset_near_behind k current utc_ms h l =
    ground
      (arith, round_quarters_near 0 (current - utc_ms), round_quarters_near k (utc_ms - current))

behind_parts : (n : ℕ) → (pos_part (neg (pos n)) ≡ 0) × (neg_part (neg (pos n)) ≡ n)
unfolding neg
behind_parts n = ground arith

-- A lag bounds how far a quote is from the quarter hour, so that the rounding finds it.
prompt_offset :
    (current utc_ms : ℕ) (x : ℤ)
    → IsQuarterHour x
    → min_lag ≤ℤ lag_of utc_ms current x
    → lag_of utc_ms current x ≤ℤ pos 2000
    → offset_of current utc_ms ≡ x
prompt_offset current utc_ms x (k, inl e) lo hi =
    let (h, l) = lag_bounds utc_ms current x lo hi in
    let p : pos_part x ≡ k * 15 = ap pos_part e in
    let n : neg_part x ≡ 0 = ap neg_part e in
    offset_near_ahead k current utc_ms (omega (arith, h, p, n)) (omega (arith, l, p, n)) ∙ sym e
prompt_offset current utc_ms x (k, inr e) lo hi =
    let (h, l) = lag_bounds utc_ms current x lo hi in
    let p : pos_part x ≡ 0 = ap pos_part e ∙ (behind_parts (k * 15)).0 in
    let n : neg_part x ≡ k * 15 = ap neg_part e ∙ (behind_parts (k * 15)).1 in
    offset_near_behind k current utc_ms (omega (arith, h, p, n)) (omega (arith, l, p, n)) ∙ sym e

within_tests : (lo x hi : ℤ) → lo ≤ℤ x → x ≤ℤ hi → is_between lo x hi ≡ true
within_tests lo x hi l r = ground arith

-- Evidence is always accepted.
pub IsEvidence-accept :
    (first second : Sample) (previous current : ℕ) (x : ℤ)
    → IsEvidence first second previous current x
    → accept first second previous (some current) ≡ some x
unfolding accept
IsEvidence-accept first second previous current x e =
    let same = prompt_offset current second.utc_ms x e.in_quarters e.lag_above e.lag_below in
    let fresh : leb current previous ≡ false = omega_false current previous e.advanced in
    rw
      (
        same,
        fresh,
        within_tests min_offset x (pos 840) e.above e.below,
        within_tests min_lag (lag_of second.utc_ms current x) (pos 2000) e.lag_above e.lag_below,
        within_tests min_lag (lag_of first.utc_ms previous x) (pos 2000) e.previous_lag_above
            e.previous_lag_below,
      )
      refl
  where
    omega_false : (a b : ℕ) → b < a → leb a b ≡ false
    omega_false a b h = ground arith

pub accept-IsEvidence :
    (first second : Sample) (previous current : ℕ) (x : ℤ)
    → accept first second previous (some current) ≡ some x
    → (x ≡ offset_of current second.utc_ms) × IsEvidence first second previous current x
unfolding accept
accept-IsEvidence first second previous current x h =
    let offset = offset_of current second.utc_ms in
    let (advanced, same, near, prompt, prompt') =
      accept_tests previous current offset (lag_of second.utc_ms current offset)
        (lag_of first.utc_ms previous offset) x h in
    (
      sym same,
      subst (IsEvidence first second previous current) same (record {
        advanced = advanced;
        in_quarters = offset_of-IsQuarterHour current second.utc_ms;
        above = (between min_offset offset (pos 840) near).0;
        below = (between min_offset offset (pos 840) near).1;
        lag_above = (between min_lag _ (pos 2000) prompt).0;
        lag_below = (between min_lag _ (pos 2000) prompt).1;
        previous_lag_above = (between min_lag _ (pos 2000) prompt').0;
        previous_lag_below = (between min_lag _ (pos 2000) prompt').1;
      }),
    )

-- A broker clock that runs `k` quarter hours ahead of UTC, read with a delay of at most two seconds.
pub offset_of_ahead :
    (k utc_ms lag : ℕ)
    → lag ≤ 2000
    → lag ≤ utc_ms + k * 900000
    → offset_of (utc_ms + k * 900000 - lag) utc_ms ≡ pos (k * 15)
unfolding offset_of neg
offset_of_ahead k utc_ms lag h l = ground (
  arith,
  round_quarters_near k (utc_ms + k * 900000 - lag - utc_ms),
  round_quarters_near 0 (utc_ms - (utc_ms + k * 900000 - lag)),
)

-- One that runs `k` quarter hours behind.
pub offset_of_behind :
    (k utc_ms lag : ℕ)
    → lag ≤ 2000
    → k * 900000 + lag ≤ utc_ms
    → offset_of (utc_ms - (k * 900000 + lag)) utc_ms ≡ neg (pos (k * 15))
unfolding offset_of neg
offset_of_behind k utc_ms lag h l = ground (
  arith,
  round_quarters_near 0 (utc_ms - (k * 900000 + lag) - utc_ms),
  round_quarters_near k (utc_ms - (utc_ms - (k * 900000 + lag))),
)
