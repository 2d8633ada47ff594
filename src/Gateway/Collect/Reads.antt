-- ===== src/Gateway/Collect/Reads.antt =====
-- The reads of `collect`, by the transcript that they leave if they return.
use tradetrack_mt5_server.Prelude.{
  ℕ, ◌+◌, ◌≡◌, ◌≢◌, ◌≤◌, ◌⊎◌, inl, inr, Bool, true, false, Option, none, some, List, length,
  nat_beq, nat_beq_iff, ok, arith, refl, sym, subst, Bool-cases,
}
use tradetrack_mt5_server.Prelude.Int.{ℤ, pos, negsuc}
use tradetrack_mt5_server.Prelude.Actions.{pure}
use tradetrack_mt5_server.Contracts.{HistoryWindow, mt5_bounds, floor_second}
use tradetrack_mt5_server.Normalization.{RawDeal, normalize_account}
use tradetrack_mt5_server.Normalization.Deals.{Records, normalize_deals}
use tradetrack_mt5_server.Normalization.Positions.{normalize_positions}
use tradetrack_mt5_server.Gateway.Identity.{Account, identity}
use tradetrack_mt5_server.Gateway.Shrink.{checked_count}
use tradetrack_mt5_server.Gateway.Window.{Request}
use tradetrack_mt5_server.Gateway.Collect.{
  Entry, deals_read, counted, recorded, checked, positions_read, Log, Outside, Batch, ask, yields,
  count_rows, check_identity, count, read_deals, warm_up, count_window, is_count, same_count,
  check_count, read_final, look_older,
}
use tradetrack_mt5_server.Gateway.Collect.Steps.{
  Gives, Then, pure-Gives, attempt-Good, throw-Gives, yields-Gives, ask-Gives, attempt-Gives,
  any-Gives, if-Gives, weaken-Gives, given-Gives, bind-Gives,
}

checked_count-eq-ok : (n : Option ℤ) (m : ℕ) → checked_count n ≡ ok m → n ≡ some (pos m)
unfolding checked_count
checked_count-eq-ok none m e = cc
checked_count-eq-ok (some (pos k)) m e = cc
checked_count-eq-ok (some (negsuc k)) m e = cc

Then-mono :
    (e : Entry) (K L : Log → Type 0)
    → ((log : Log) → K log → L log)
    → (log : Log) → Then e K log
    → Then e L log
Then-mono e K L h log (rest, same, k) = (rest, same, h rest k)

-- A count that the transcript has on top.
abbrev pub IsCounted : ℕ × ℕ → ℕ → (Log → Type 0) → Log → Type 0
IsCounted bounds n = Then (counted bounds (some (pos n)))

module _ (o : Outside) (r : Request) where
  -- The clock's samples are recorded, right after a passed identity.
  abbrev pub IsWarm : Log → Type 0
  IsWarm log =
      (a : Account) × (u : Unit {0}) × Then (recorded (ok u)) (Then (checked (ok a)) (λ _. Unit))
        log

  -- A read of the window.
  abbrev pub ReadIn : HistoryWindow → Records → (Log → Type 0) → Log → Type 0
  ReadIn w final L log =
      (bounds : ℕ × ℕ) × (mt5_bounds w ≡ ok bounds) × Then (deals_read bounds final) L log

  -- A count of the window, where the library can count.
  abbrev pub CountedIn : HistoryWindow → ℕ → (Log → Type 0) → Log → Type 0
  CountedIn w n L log =
      ((o.has_totals ≡ false) × L log)
      ⊎ ((bounds : ℕ × ℕ) × (mt5_bounds w ≡ ok bounds) × IsCounted bounds n L log)

  abbrev HeldIn : HistoryWindow → Option ℕ → (Log → Type 0) → Log → Type 0
  HeldIn w none L log = (o.has_totals ≡ false) × L log
  HeldIn w (some n) L log = (bounds : ℕ × ℕ) × (mt5_bounds w ≡ ok bounds) × IsCounted bounds n L log

  -- The read that gives the deals: the library counts as many before it and after it.
  abbrev pub IsFinal : HistoryWindow → List RawDeal → Log → Type 0
  IsFinal w deals log =
      (final : Records) × (normalize_deals o.str w final 5000 ≡ ok deals)
      × CountedIn w (count_rows final) (ReadIn w final (CountedIn w (count_rows final) IsWarm)) log

  -- What `olderHistoryEmpty` stands on: two counts before the window.
  abbrev pub IsOlder : HistoryWindow → Option Bool → (Log → Type 0) → Log → Type 0
  IsOlder w none L log = (o.has_totals ≡ false) × L log
  IsOlder w (some true) L log =
      IsCounted (0, floor_second w.start) 0 (IsCounted (0, floor_second w.start) 0 L) log
  IsOlder w (some false) L log =
      (n : ℕ) × (n ≢ 0)
      × (IsCounted (0, floor_second w.start) n L log
          ⊎ IsCounted (0, floor_second w.start) n (IsCounted (0, floor_second w.start) 0 L) log)

  -- The reads of a completed batch, the last one first.
  abbrev pub IsComplete : Batch → Log → Type 0
  IsComplete b log =
      (a earlier : Account) × (positions : Records) × (normalize_positions o.str positions 5000
        ≡ ok b.positions)
      × (normalize_account o.str o.is_space o.is_invisible (o.row_of a) ≡ ok b.account)
      × (length b.deals + length b.positions ≤ 5000)
      × Then (checked (ok a))
          (Then (positions_read positions) (
            Then (checked (ok earlier))
              (IsOlder b.window b.older_empty (IsFinal b.window b.deals))))
          log

  count-Gives :
      (L : Log → Type 0) (bounds : ℕ × ℕ) → Gives L (count o r bounds) (λ n. IsCounted bounds n L)
  unfolding count
  count-Gives L bounds =
      bind-Gives (ask (λ log. o.total log bounds) (λ n. counted bounds n))
        (λ n. yields (checked_count n)) (λ n. Then (counted bounds n) L) (λ n. IsCounted bounds n L)
        (ask-Gives _ _)
        (λ n. weaken-Gives _ _ _ (yields-Gives (checked_count n)) (λ m log (e, t).
          subst (λ x. Then (counted bounds x) L log) (checked_count-eq-ok n m e) t))

  pub identity-Gives :
      (L : Log → Type 0) → Gives L (check_identity o r) (λ a. Then (checked (ok a)) L)
  unfolding check_identity
  identity-Gives L = record {
    at = λ s l.
        attempt-Good L (identity r.expected s.gate (o.sighting s.log)).1 checked
          (record s { gate = (identity r.expected s.gate (o.sighting s.log)).0 }) s.log l;
  }

  pub warm_up-IsWarm :
      (L : Log → Type 0) (w : HistoryWindow) → Gives L (warm_up o r w) (λ u. IsWarm)
  unfolding warm_up
  warm_up-IsWarm L w =
      bind-Gives _ _ (λ a log. Unit) (λ u. IsWarm) (any-Gives _)
        (λ first.
          bind-Gives _ _ (λ a. Then (checked (ok a)) (λ log. Unit)) (λ u. IsWarm)
            (bind-Gives _ _ (λ a log. Unit) (λ a. Then (checked (ok a)) (λ log. Unit)) (any-Gives _)
              (λ a. identity-Gives (λ log. Unit)))
            (λ a.
              weaken-Gives _ (λ u. Then (recorded (ok u)) (Then (checked (ok a)) (λ log. Unit)))
                (λ u. IsWarm) (attempt-Gives (λ log. o.record_clock log) (λ x. recorded x))
                (λ u log t. (a, u, t))))

  window-Gives :
      (L : Log → Type 0) (w : HistoryWindow) → Gives L (count_window o r w) (λ x. HeldIn w x L)
  unfolding count_window
  window-Gives L w =
      if-Gives o.has_totals _ _ (λ x. HeldIn w x L)
        (λ can.
          bind-Gives (yields (mt5_bounds w)) _ (λ b log. (mt5_bounds w ≡ ok b) × L log)
            (λ x. HeldIn w x L) (yields-Gives (mt5_bounds w))
            (λ b.
              given-Gives (mt5_bounds w ≡ ok b) _ (λ x. HeldIn w x L)
                (λ e.
                  bind-Gives (count o r b) _ (λ n. IsCounted b n L) (λ x. HeldIn w x L)
                    (count-Gives L b)
                    (λ n.
                      weaken-Gives (pure (some n)) _ (λ x. HeldIn w x L) (pure-Gives (some n))
                        (λ x log (same, t). subst (λ y. HeldIn w y L log) (sym same) (b, e, t))))))
        (λ cannot.
          weaken-Gives (pure none) _ (λ x. HeldIn w x L) (pure-Gives none)
            (λ x log (same, l). subst (λ y. HeldIn w y L log) (sym same) (cannot, l)))

  read-Gives :
      (L : Log → Type 0) (w : HistoryWindow) → Gives L (read_deals o r w) (λ f. ReadIn w f L)
  unfolding read_deals
  read-Gives L w =
      bind-Gives (yields (mt5_bounds w)) _ (λ b log. (mt5_bounds w ≡ ok b) × L log)
        (λ f. ReadIn w f L) (yields-Gives (mt5_bounds w))
        (λ b.
          given-Gives (mt5_bounds w ≡ ok b) _ (λ f. ReadIn w f L)
            (λ e.
              weaken-Gives _ (λ f. Then (deals_read b f) L) (λ f. ReadIn w f L)
                (ask-Gives (λ log. o.deals log b) (λ f. deals_read b f)) (λ f log t. (b, e, t))))

  held-CountedIn :
      (w : HistoryWindow) (x : Option ℕ) (n : ℕ) (K L : Log → Type 0)
      → is_count o r x n ≡ true
      → ((log : Log) → K log → L log)
      → (log : Log) → HeldIn w x K log
      → CountedIn w n L log
  held-CountedIn w none n K L same h log (cannot, k) = inl (cannot, h log k)
  held-CountedIn w (some m) n K L same h log (b, e, t) = inr (
    b,
    e,
    subst (λ j. IsCounted b j L log) (sym ((nat_beq_iff n m).0 same)) (Then-mono _ K L h log t),
  )

  same-is_count :
      (x y : Option ℕ) (n : ℕ)
      → is_count o r x n ≡ true
      → same_count o r x y ≡ true
      → is_count o r y n ≡ true
  same-is_count none none n h k = refl
  same-is_count none (some m) n h k = cc
  same-is_count (some j) none n h k = cc
  same-is_count (some j) (some m) n h k = ground arith

  check-Gives :
      (L : Log → Type 0) (w : HistoryWindow) (x : Option ℕ) (f : Records)
      → Gives
          (ReadIn w f (HeldIn w x L))
          (check_count o r w x f)
          (λ u. CountedIn w (count_rows f) (ReadIn w f (CountedIn w (count_rows f) L)))
  unfolding check_count
  check-Gives L w x f =
      let M : Unit {0} → Log → Type 0 =
        λ u. CountedIn w (count_rows f) (ReadIn w f (CountedIn w (count_rows f) L)) in
      if-Gives (is_count o r x (count_rows f)) _ _ M
        (λ same.
          bind-Gives (count_window o r w) _ (λ y. HeldIn w y (ReadIn w f (HeldIn w x L))) M
            (window-Gives (ReadIn w f (HeldIn w x L)) w)
            (λ y.
              if-Gives (same_count o r x y) _ _ M
                (λ again. weaken-Gives (pure tt) _ M (pure-Gives tt) (λ u log (e, t).
                  held-CountedIn w y (count_rows f) (ReadIn w f (HeldIn w x L))
                    (ReadIn w f (CountedIn w (count_rows f) L))
                    (same-is_count x y (count_rows f) same again)
                    (λ above (b, e', t'). (
                      b,
                      e',
                      Then-mono _ (HeldIn w x L) (CountedIn w (count_rows f) L)
                          (held-CountedIn w x (count_rows f) L L same (λ below l. l)) above t',
                    ))
                    log t))
                (λ other. throw-Gives _ M)))
        (λ other. throw-Gives _ M)

  pub read_final-IsFinal :
      (w : HistoryWindow) → Gives IsWarm (read_final o r w) (λ deals. IsFinal w deals)
  unfolding read_final
  read_final-IsFinal w =
      bind-Gives (count_window o r w) _ (λ x. HeldIn w x IsWarm) (λ deals. IsFinal w deals)
        (window-Gives IsWarm w)
        (λ x.
          bind-Gives (read_deals o r w) _ (λ f. ReadIn w f (HeldIn w x IsWarm))
            (λ deals. IsFinal w deals) (read-Gives (HeldIn w x IsWarm) w)
            (λ f.
              bind-Gives (yields (normalize_deals o.str w f 5000)) _
                (λ deals log.
                  (normalize_deals o.str w f 5000 ≡ ok deals) × ReadIn w f (HeldIn w x IsWarm) log)
                (λ deals. IsFinal w deals) (yields-Gives (normalize_deals o.str w f 5000))
                (λ deals.
                  given-Gives _ _ (λ found. IsFinal w found)
                    (λ e.
                      bind-Gives (check_count o r w x f) _
                        (λ u.
                          CountedIn w (count_rows f)
                            (ReadIn w f (CountedIn w (count_rows f) IsWarm)))
                        (λ found. IsFinal w found) (check-Gives IsWarm w x f)
                        (λ u.
                          weaken-Gives (pure deals) _ (λ found. IsFinal w found) (pure-Gives deals)
                            (λ found log (same, t).
                              subst (λ d. IsFinal w d log) (sym same) (f, e, t)))))))

  pub look_older-IsOlder :
      (L : Log → Type 0) (w : HistoryWindow) → Gives L (look_older o r w) (λ x. IsOlder w x L)
  unfolding look_older
  look_older-IsOlder L w =
      let b : ℕ × ℕ = (0, floor_second w.start) in
      let M : Option Bool → Log → Type 0 = λ x. IsOlder w x L in
      if-Gives o.has_totals _ _ M
        (λ can.
          bind-Gives (count o r b) _ (λ n. IsCounted b n L) M (count-Gives L b)
            (λ n.
              if-Gives (nat_beq n 0) _ _ M
                (λ empty.
                  bind-Gives (count o r b) _ (λ m. IsCounted b m (IsCounted b n L)) M
                    (count-Gives (IsCounted b n L) b)
                    (λ m.
                      weaken-Gives (pure (some (nat_beq m 0))) _ M (pure-Gives (some (nat_beq m 0)))
                        (λ x log (same, t).
                          subst (λ y. IsOlder w y L log) (sym same)
                            (twice n m log ((nat_beq_iff n 0).0 empty) t))))
                (λ found.
                  weaken-Gives (pure (some false)) _ M (pure-Gives (some false)) (λ x log (same, t).
                    subst (λ y. IsOlder w y L log) (sym same) (n, (λ e. ground arith), inl t)))))
        (λ cannot.
          weaken-Gives (pure none) _ M (pure-Gives none)
            (λ x log (same, l). subst (λ y. IsOlder w y L log) (sym same) (cannot, l)))
    where
      twice :
          (n m : ℕ) (log : Log)
          → n ≡ 0
          → IsCounted (0, floor_second w.start) m (IsCounted (0, floor_second w.start) n L) log
          → IsOlder w (some (nat_beq m 0)) L log
      twice n m log empty t =
          let t0 =
            subst
              (λ j.
                IsCounted (0, floor_second w.start) m (IsCounted (0, floor_second w.start) j L) log)
              empty t in
          elim (Bool-cases (nat_beq m 0)) [
            | inl e ↦ rw e (
                subst
                  (λ j.
                    IsCounted (0, floor_second w.start) j (IsCounted (0, floor_second w.start) 0 L)
                      log)
                  ((nat_beq_iff m 0).0 e) t0)
            | inr e ↦ rw e (m, (λ z. ground arith), inr t0)
          ]
