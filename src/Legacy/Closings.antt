-- ===== src/Legacy/Closings.antt =====
-- What the deals are that `fetch_deals` returns.
use tradetrack_mt5_server.Prelude.{
  ◌≡◌, ◌⊎◌, inl, inr, true, false, not, ◌||◌, Option, none, some, List, [], ◌∷◌, All, Any, All-mono,
  lookup, arith, refl, sym, ap, ◌∙◌, subst, Bool-cases, Option-cases,
}
use tradetrack_mt5_server.Prelude.Int.{ℤ, pos, ◌≤ℤ◌, ltb_ℤ, int_key, same_ℤ}
use tradetrack_mt5_server.Normalization.Sorting.{Member, All-Member}
use tradetrack_mt5_server.Legacy.{
  Row, Deal, int_or_zero, time_unix, type_int, pid, entry_of, is_trade, trades, latest_rows,
  is_closing, closing_only, rows_of, earlier, open_time, or_time, make_deal, in_tickets, collect,
  deals_of,
}
use tradetrack_mt5_server.Legacy.Latest.{
  IsDone, latest_rows-IsDone, lookup_member, le_ℤ_trans, empty-IsTimed,
}

earlier_lem :
    (best : Option ℤ) (t e : ℤ)
    → earlier best t ≡ some e
    → (e ≤ℤ t) × ((b : ℤ) → best ≡ some b → e ≤ℤ b)
earlier_lem none t e h = (ground arith, λ b k. absurd (ground arith))
earlier_lem (some u) t e h = (ground arith, λ b k. ground arith)

earlier-some : (best : Option ℤ) (t : ℤ) → (e : ℤ) × (earlier best t ≡ some e)
earlier-some none t = (t, refl)
earlier-some (some u) t = elim (Bool-cases (ltb_ℤ t u)) [ inl e ↦ (t, rw e) | inr e ↦ (u, rw e) ]

-- Seeing fewer tickets asks for less.
abbrev Fewer : List ℤ → List ℤ → Type 0
Fewer seen more = (t : ℤ) → in_tickets t more ≡ false → in_tickets t seen ≡ false

one-Fewer : (seen : List ℤ) (ticket : ℤ) → Fewer seen (ticket ∷ seen)
unfolding in_tickets
one-Fewer seen ticket t h = ground arith

cons-Fewer : (seen more : List ℤ) (u : ℤ) → Fewer seen more → Fewer (u ∷ seen) (u ∷ more)
unfolding in_tickets
cons-Fewer seen more u fewer t h = ground (arith, fewer t)

module _ {A : Type 0} where
  -- A time that is no later than any opening row's.
  abbrev pub IsOpening : List (Row A) → ℤ → Type 0
  IsOpening rows o =
      All (λ d. same_ℤ (entry_of d) (pos 0) ≡ true → (u : ℤ) → time_unix d.time ≡ some u → o ≤ℤ u)
        rows

  open_time-IsOpening :
      (rows : List (Row A)) (best : Option ℤ) (o : ℤ)
      → open_time rows best ≡ some (some o)
      → IsOpening rows o × ((b : ℤ) → best ≡ some b → o ≤ℤ b)
  unfolding open_time
  open_time-IsOpening [] best o h = (tt, λ b k. ground arith)
  open_time-IsOpening (d ∷ rows) best o h = elim (Bool-cases (same_ℤ (entry_of d) (pos 0))) [
    | inr other ↦
        let rest = rw other at h in
        let (all, low) = open_time-IsOpening rows best o rest in
        ((λ opening. absurd (let e = sym opening ∙ other in cc), all), low)
    | inl opening ↦ elim (Option-cases (time_unix d.time)) [
      | inl unread ↦ absurd (let k = rw (open_time, opening, unread) at h in ground arith)
      | inr (t, read) ↦
          let rest : open_time rows (earlier best t) ≡ some (some o) =
            rw (open_time, opening, read) at h in
          let (all, low) = open_time-IsOpening rows (earlier best t) o rest in
          let (e, is_e) = earlier-some best t in
          let (le_t, le_b) = earlier_lem best t e is_e in
          let early : o ≤ℤ t = le_ℤ_trans o e t (low e is_e) le_t in
          (
            (λ _ u k. let same : t ≡ u = ground arith in subst (λ v. o ≤ℤ v) same early, all),
            λ b k. le_ℤ_trans o e b (low e is_e) (le_b b k),
          )
    ]
  ]

  -- A deal that the last loop makes of a row.
  record IsMade (rows : List (Row A)) (p ticket : ℤ) (d : Row A) (x : Deal A) : Type 0 where
    same_position : x.position_id ≡ p
    same_ticket : x.ticket ≡ ticket
    same_time : time_unix d.time ≡ some x.time
    sells : x.is_sell ≡ same_ℤ (type_int d.type) (pos 1)
    opening :
        ((o : ℤ) × (open_time (rows_of p rows) none ≡ some (some o)) × (x.time_open ≡ o))
        ⊎ ((open_time (rows_of p rows) none ≡ some none) × (x.time_open ≡ x.time))

  built : List (Row A) → ℤ → ℤ → Row A → ℤ → Option ℤ → A → Deal A
  built rows p ticket d t opened amounts = record {
    ticket = ticket;
    position_id = p;
    is_sell = same_ℤ (type_int d.type) (pos 1);
    time = t;
    time_open = or_time opened t;
    amounts = amounts;
  }

  built-IsMade :
      (rows : List (Row A)) (p ticket : ℤ) (d : Row A) (t : ℤ) (opened : Option ℤ) (amounts : A)
      → time_unix d.time ≡ some t
      → open_time (rows_of p rows) none ≡ some opened
      → IsMade rows p ticket d (built rows p ticket d t opened amounts)
  unfolding built
  built-IsMade rows p ticket d t none amounts time open_at = record {
    same_position = refl;
    same_ticket = refl;
    same_time = time;
    sells = refl;
    opening = inr (open_at, refl);
  }
  built-IsMade rows p ticket d t (some o) amounts time open_at = record {
    same_position = refl;
    same_ticket = refl;
    same_time = time;
    sells = refl;
    opening = inl (o, open_at, refl);
  }

  make_deal-IsMade :
      (rows : List (Row A)) (p ticket : ℤ) (d : Row A) (x : Deal A)
      → make_deal rows p ticket d ≡ some x
      → IsMade rows p ticket d x
  unfolding make_deal
  make_deal-IsMade rows p ticket d x h = elim (Option-cases (time_unix d.time)) [
    | inl e ↦ absurd (let k = rw (make_deal, e) at h in ground arith)
    | inr (t, et) ↦ elim (Option-cases (open_time (rows_of p rows) none)) [
      | inl e ↦ absurd (let k = rw (make_deal, et, e) at h in ground arith)
      | inr (opened, eo) ↦ elim (Option-cases d.amounts) [
        | inl e ↦ absurd (let k = rw (make_deal, et, eo, e) at h in ground arith)
        | inr (amounts, ea) ↦
            let k : some (built rows p ticket d t opened amounts) ≡ some x =
              unfold built in (let k = rw (make_deal, et, eo, ea) at h in k) in
            let same : built rows p ticket d t opened amounts ≡ x = ground arith in
            subst (IsMade rows p ticket d) same
              (built-IsMade rows p ticket d t opened amounts et eo)
      ]
    ]
  ]

  -- A held row, and one that closes.
  closing-All :
      (m : List (ℤ × Row A)) (n : List (ℤ × Row A))
      → ((row : ℤ × Row A)
          → Any (λ r. (r.0 ≡ row.0) × (r.1 ≡ row.1)) n
          → lookup row.0 m ≡ some row.1)
      → All
          (λ row. (lookup row.0 m ≡ some row.1) × (is_closing (entry_of row.1) ≡ true))
          (closing_only n)
  unfolding closing_only
  closing-All m [] h = tt
  closing-All m (row ∷ n) h =
      let rest = closing-All m n (λ r a. h r (inr a)) in
      elim (Bool-cases (is_closing (entry_of row.1))) [
        | inl closes ↦ rw closes ((h row (inl (refl, refl)), closes), rest)
        | inr open_ ↦ rw open_ rest
      ]

  -- Every deal of the last loop is made of one of its rows.
  collect-All :
      (rows : List (Row A)) (P : Deal A → Type 0) (seen : List ℤ) (closing : List (ℤ × Row A))
      → All
          (λ row.
            (x : Deal A) (ticket : ℤ)
            → int_or_zero row.1.ticket ≡ some ticket
            → is_trade row.1 ≡ true
            → IsMade rows row.0 ticket row.1 x
            → P x)
          closing
      → All P (collect rows seen closing)
  unfolding collect
  collect-All rows P seen [] h = tt
  collect-All rows P seen ((p, d) ∷ closing) (h, hs) = elim (Option-cases (int_or_zero d.ticket)) [
    | inl e ↦ rw (collect, e) (collect-All rows P seen closing hs)
    | inr (ticket, e) ↦
        elim (Bool-cases
          (not (is_closing (entry_of d)) || not (is_trade d) || in_tickets ticket seen)) [
            | inl skipped ↦ rw (collect, e, skipped) (collect-All rows P seen closing hs)
            | inr taken ↦
                let rest = collect-All rows P (ticket ∷ seen) closing hs in
                let trade : is_trade d ≡ true = ground arith in
                elim (Option-cases (make_deal rows p ticket d)) [
                  | inl nothing ↦ rw (collect, e, taken, nothing) rest
                  | inr (x, made) ↦
                      rw (collect, e, taken, made)
                        (h x ticket e trade (make_deal-IsMade rows p ticket d x made), rest)
                ]
          ]
  ]

  -- What a returned deal is to the rows that buy or sell.
  pub record IsClosingDeal (rows : List (Row A)) (x : Deal A) : Type 0 where
    pub row : Row A
    pub in_rows : Member row rows
    pub closes : is_closing (entry_of row) ≡ true
    pub same_position : pid row ≡ some x.position_id
    pub same_ticket : int_or_zero row.ticket ≡ some x.ticket
    pub same_time : time_unix row.time ≡ some x.time
    pub sells : x.is_sell ≡ same_ℤ (type_int row.type) (pos 1)
    pub latest :
        All
          (λ r. (t : ℤ) → pid r ≡ some x.position_id → time_unix r.time ≡ some t → t ≤ℤ x.time)
          rows
    pub opening : IsOpening (rows_of x.position_id rows) x.time_open ⊎ (x.time_open ≡ x.time)

  made-IsOpening :
      (rows : List (Row A)) (p ticket : ℤ) (d : Row A) (x : Deal A)
      → IsMade rows p ticket d x
      → IsOpening (rows_of x.position_id rows) x.time_open ⊎ (x.time_open ≡ x.time)
  made-IsOpening rows p ticket d x made = elim made.opening [
    | inr (nothing, same) ↦ inr same
    | inl (o, read, same) ↦ inl (
        subst (λ q. IsOpening (rows_of q rows) x.time_open) (sym made.same_position)
          (subst (IsOpening (rows_of p rows)) (sym same)
            (open_time-IsOpening (rows_of p rows) none o read).0))
  ]

  made-IsClosingDeal :
      (rows : List (Row A)) (p ticket : ℤ) (d : Row A) (x : Deal A)
      → IsDone rows rows [] (latest_rows rows [])
      → lookup p (latest_rows rows []) ≡ some d
      → is_closing (entry_of d) ≡ true
      → int_or_zero d.ticket ≡ some ticket
      → IsMade rows p ticket d x
      → IsClosingDeal rows x
  made-IsClosingDeal rows p ticket d x done held closes is_ticket made =
      let (position, member) = done.good.placed p d held in
      record {
        row = d;
        in_rows = member;
        closes = closes;
        same_position = position ∙ ap some (sym made.same_position);
        same_ticket = is_ticket ∙ ap some (sym made.same_ticket);
        same_time = made.same_time;
        sells = made.sells;
        latest =
            All-mono rows
              (λ r all t at_p at_t.
                let (e, u, h, eu, le) = all p t (at_p ∙ ap some made.same_position) at_t in
                let same : e ≡ d = ground arith in
                let time : some u ≡ some x.time =
                  sym eu ∙ ap (λ y. time_unix y.time) same ∙ made.same_time in
                let equal : u ≡ x.time = ground arith in subst (λ v. t ≤ℤ v) equal le)
              done.all;
        opening = made-IsOpening rows p ticket d x made;
      }

  -- Every deal that `fetch_deals` makes of the terminal's rows closes a position, and is that
  -- position's latest row that buys or sells; it has that row's ticket, time and direction. Its
  -- opening time is at most the time of each opening row of the position, or else its own time.
  pub deals_of-IsClosingDeal :
      (rows : List (Row A)) → All (IsClosingDeal (trades rows)) (deals_of rows)
  unfolding deals_of
  deals_of-IsClosingDeal rows =
      let kept = trades rows in
      let done =
        latest_rows-IsDone kept kept [] (All-Member _ kept (λ d m. m)) (empty-IsTimed kept) tt in
      collect-All kept (IsClosingDeal kept) [] (closing_only (latest_rows kept [])) (
        All-mono (closing_only (latest_rows kept []))
          (λ row (held, closes) x ticket is_ticket trade made.
            made-IsClosingDeal kept row.0 ticket row.1 x done held closes is_ticket made)
          (closing-All (latest_rows kept []) (latest_rows kept [])
            (λ row a. lookup_member (latest_rows kept []) row.0 row.1 done.once a)))

  -- Distinct tickets, all of them other than those seen before.
  abbrev pub OnceEach : List ℤ → List (Deal A) → Type 0
  OnceEach seen [] = Unit
  OnceEach seen (x ∷ deals) = (in_tickets x.ticket seen ≡ false) × OnceEach (x.ticket ∷ seen) deals

  OnceEach-Fewer :
      (seen more : List ℤ) (deals : List (Deal A))
      → Fewer seen more
      → OnceEach more deals
      → OnceEach seen deals
  OnceEach-Fewer seen more [] fewer h = tt
  OnceEach-Fewer seen more (x ∷ deals) fewer (fresh, h) = (
    fewer x.ticket fresh,
    OnceEach-Fewer (x.ticket ∷ seen) (x.ticket ∷ more) deals (cons-Fewer seen more x.ticket fewer)
        h,
  )

  collect-OnceEach :
      (rows : List (Row A)) (seen : List ℤ) (closing : List (ℤ × Row A))
      → OnceEach seen (collect rows seen closing)
  unfolding collect
  collect-OnceEach rows seen [] = tt
  collect-OnceEach rows seen ((p, d) ∷ closing) = elim (Option-cases (int_or_zero d.ticket)) [
    | inl e ↦ rw (collect, e) (collect-OnceEach rows seen closing)
    | inr (ticket, e) ↦
        elim (Bool-cases
          (not (is_closing (entry_of d)) || not (is_trade d) || in_tickets ticket seen)) [
            | inl skipped ↦ rw (collect, e, skipped) (collect-OnceEach rows seen closing)
            | inr taken ↦
                let rest = collect-OnceEach rows (ticket ∷ seen) closing in
                let fresh : in_tickets ticket seen ≡ false = ground arith in
                elim (Option-cases (make_deal rows p ticket d)) [
                  | inl nothing ↦
                      rw (collect, e, taken, nothing)
                        (OnceEach-Fewer seen (ticket ∷ seen) (collect rows (ticket ∷ seen) closing)
                          (one-Fewer seen ticket) rest)
                  | inr (x, made) ↦
                      let same = (make_deal-IsMade rows p ticket d x made).same_ticket in
                      rw (collect, e, taken, made)
                        (subst
                          (λ t.
                            (in_tickets t seen ≡ false)
                            × OnceEach (t ∷ seen) (collect rows (ticket ∷ seen) closing))
                          (sym same) (fresh, rest))
                ]
          ]
  ]

  -- No ticket comes twice among the deals that `fetch_deals` makes of the terminal's rows.
  pub deals_of-OnceEach : (rows : List (Row A)) → OnceEach [] (deals_of rows)
  unfolding deals_of
  deals_of-OnceEach rows =
      collect-OnceEach (trades rows) [] (closing_only (latest_rows (trades rows) []))
