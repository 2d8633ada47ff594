-- ===== src/Normalization/Positions/Complete.antt =====
-- What the normalized positions are: no row is lost or doubled, by identifier or by ticket.
use tradetrack_mt5_server.Prelude.{
  ℕ, ◌≤◌, ◌≡◌, ◌≢◌, ◌⊎◌, inl, inr, String, true, false, none, some, List, [], ◌∷◌, ◌++◌, values,
  length, All, Any, text_key, ==_sound, number_key, lookup, ok, >>=-eq-ok, arith, refl, sym, ap,
  ◌∙◌, subst, Bool-cases, Option-cases, All-mono,
}
use tradetrack_mt5_server.Prelude.Int.{ℤ}
use tradetrack_mt5_server.Contracts.{max_records}
use tradetrack_mt5_server.Normalization.{Native, RawPosition}
use tradetrack_mt5_server.Normalization.Sorting.{
  Member, sorted, IsSorted, Distinct, Distinct-append, Distinct-sorted, sorted-IsSorted, All-append,
  Any-append_left, Any-append_right, Any-sorted,
}
use tradetrack_mt5_server.Normalization.Deals.{Records, rows_of, batch}
use tradetrack_mt5_server.Normalization.Deals.Complete.{
  insert_new, absent_keys, present_row, batch_ok,
}
use tradetrack_mt5_server.Normalization.Positions.{
  same_position, in_set, Positions, add_position, position_before, position_of, collect_positions,
  normalize_positions,
}

-- Every row stands under its identifier; tickets are distinct, and all in the set.
pub record IsSound (s : Positions) : Type 0 where
  pub keyed : All (λ row. row.0 ≡ row.1.identifier) s.result
  pub once : Distinct (λ row. row.0) s.result
  pub noted : All (λ row. in_set row.1.ticket s.tickets ≡ true) s.result
  pub tickets_once : Distinct (λ row. row.1.ticket) s.result

same_position_sound : (a b : RawPosition) → same_position a b ≡ true → a ≡ b
unfolding same_position
same_position_sound a b h = ground (
  arith,
  ==_sound a.symbol b.symbol,
  ==_sound a.volume b.volume,
  ==_sound a.price_open b.price_open,
  ==_sound a.price_current b.price_current,
  ==_sound a.sl b.sl,
  ==_sound a.tp b.tp,
  ==_sound a.profit b.profit,
  ==_sound a.swap b.swap,
)

-- The position stood there already, or is new by its identifier and by its ticket.
abbrev Placed : RawPosition → Positions → Positions → Type 0
Placed p s next =
    ((next ≡ s) × Any (λ row. p ≡ row.1) s.result)
    ⊎ ((next
          ≡ record { result = s.result ++ (p.identifier, p) ∷ []; tickets = p.ticket ∷ s.tickets })
        × (lookup p.identifier s.result ≡ none)
        × (in_set p.ticket s.tickets ≡ false))

add_position-Placed :
    (s : Positions) (p : RawPosition) (next : Positions)
    → add_position s p ≡ ok next
    → Placed p s next
unfolding add_position
add_position-Placed s p next h = elim (Option-cases (lookup p.identifier s.result)) [
  | inl e ↦ elim (Bool-cases (in_set p.ticket s.tickets)) [
    | inl taken ↦ absurd (let f = rw (e, taken) at h in cc)
    | inr free ↦
        let f = rw (e, free) at h in
        let i = insert_new p.identifier p s.result e in inr (cc, e, free)
  ]
  | inr (old, e) ↦ elim (Bool-cases (same_position old p)) [
    | inl same ↦
        let f = rw (e, same) at h in
        inl (cc, present_row p.identifier p s.result (e ∙ ap some (same_position_sound old p same)))
    | inr other ↦ absurd (let f = rw (e, other) at h in cc)
  ]
]

more_noted :
    (t : ℕ) (ts : List ℕ) (m : List (ℕ × RawPosition))
    → All (λ row. in_set row.1.ticket ts ≡ true) m
    → All (λ row. in_set row.1.ticket (t ∷ ts) ≡ true) m
unfolding in_set
more_noted t ts m a = All-mono m (λ row h. ground arith) a

fresh_ticket :
    (t : ℕ) (ts : List ℕ) (m : List (ℕ × RawPosition))
    → in_set t ts ≡ false
    → All (λ row. in_set row.1.ticket ts ≡ true) m
    → All (λ row. row.1.ticket ≢ t) m
fresh_ticket t ts m free a = All-mono m (λ row h same. let e = ap (λ u. in_set u ts) same in cc) a

Placed-IsSound : (p : RawPosition) (s next : Positions) → IsSound s → Placed p s next → IsSound next
unfolding in_set
Placed-IsSound p s next g (inl (e, has)) = subst IsSound (sym e) g
Placed-IsSound p s next g (inr (e, new, free)) = subst IsSound (sym e) record {
  keyed = All-append _ s.result _ (refl, tt) g.keyed;
  once =
      Distinct-append (λ row. row.0) s.result (p.identifier, p) g.once
        (absent_keys p.identifier s.result new);
  noted =
      All-append _ s.result _ (ground arith, tt) (more_noted p.ticket s.tickets s.result g.noted);
  tickets_once =
      Distinct-append (λ row. row.1.ticket) s.result (p.identifier, p) g.tickets_once
        (fresh_ticket p.ticket s.tickets s.result free g.noted);
}

Placed-grows :
    (P : ℕ × RawPosition → Type 0) (p : RawPosition) (s next : Positions)
    → Placed p s next
    → Any P s.result
    → Any P next.result
Placed-grows P p s next (inl (e, has)) a = subst (λ r. Any P r.result) (sym e) a
Placed-grows P p s next (inr (e, new, free)) a =
    subst (λ r. Any P r.result) (sym e) (Any-append_left P s.result _ a)

Placed-Any :
    (p : RawPosition) (s next : Positions) → Placed p s next → Any (λ row. p ≡ row.1) next.result
Placed-Any p s next (inl (e, has)) = subst (λ r. Any (λ row. p ≡ row.1) r.result) (sym e) has
Placed-Any p s next (inr (e, new, free)) =
    subst (λ r. Any (λ row. p ≡ row.1) r.result) (sym e)
      (Any-append_right (λ row. p ≡ row.1) s.result _ (inl refl))

module _ (str : ℤ → String) where
  collect_step :
      (value : Native) (natives : List Native) (s last : Positions)
      → collect_positions str (value ∷ natives) s ≡ ok last
      → (p : RawPosition) × (next : Positions) × (position_of str value ≡ ok p)
        × Placed p s next
        × (collect_positions str natives next ≡ ok last)
  unfolding collect_positions
  collect_step value natives s last h =
      let (p, e, rest) = >>=-eq-ok (position_of str value) _ h in
      let (next, f, g) = >>=-eq-ok (add_position s p) _ rest in
      (p, next, e, add_position-Placed s p next f, g)

  collect-IsSound :
      (natives : List Native) (s last : Positions)
      → IsSound s
      → collect_positions str natives s ≡ ok last
      → IsSound last
  unfolding collect_positions
  collect-IsSound [] s last g h = let e : s ≡ last = cc in subst IsSound e g
  collect-IsSound (value ∷ natives) s last g h =
      let (p, next, e, f, rest) = collect_step value natives s last h in
      collect-IsSound natives next last (Placed-IsSound p s next g f) rest

  collect_grows :
      (P : ℕ × RawPosition → Type 0) (natives : List Native) (s last : Positions)
      → collect_positions str natives s ≡ ok last
      → Any P s.result
      → Any P last.result
  unfolding collect_positions
  collect_grows P [] s last h a = let e : s ≡ last = cc in subst (λ r. Any P r.result) e a
  collect_grows P (value ∷ natives) s last h a =
      let (p, next, e, f, rest) = collect_step value natives s last h in
      collect_grows P natives next last rest (Placed-grows P p s next f a)

  collect-IsHeld :
      (natives : List Native) (s last : Positions)
      → collect_positions str natives s ≡ ok last
      → All
          (λ v. (p : RawPosition) × (position_of str v ≡ ok p) × Any (λ row. p ≡ row.1) last.result)
          natives
  collect-IsHeld [] s last h = tt
  collect-IsHeld (value ∷ natives) s last h =
      let (p, next, e, f, rest) = collect_step value natives s last h in
      (
        (p, e, collect_grows (λ row. p ≡ row.1) natives next last rest (Placed-Any p s next f)),
        collect-IsHeld natives next last rest,
      )

values-Any :
    (p : RawPosition) (m : List (ℕ × RawPosition)) → Any (λ row. p ≡ row.1) m → Member p (values m)
unfolding values
values-Any p [] h = absurd h
values-Any p (row ∷ m) (inl e) = inl e
values-Any p (row ∷ m) (inr a) = inr (values-Any p m a)

values-All :
    (Q : RawPosition → Type 0) (m : List (ℕ × RawPosition))
    → All (λ row. Q row.1) m
    → All Q (values m)
unfolding values
values-All Q [] a = tt
values-All Q (row ∷ m) (q, a) = (q, values-All Q m a)

-- Distinct by a key of the rows, so distinct by the same key of the values.
values-Distinct :
    (key : RawPosition → ℕ) (m : List (ℕ × RawPosition))
    → Distinct (λ row. key row.1) m
    → Distinct key (values m)
unfolding values
values-Distinct key [] d = tt
values-Distinct key (row ∷ m) (first, d) =
    (values-All (λ p. key p ≢ key row.1) m first, values-Distinct key m d)

others :
    (i : ℕ) (m : List (ℕ × RawPosition)) (j : ℕ)
    → i ≡ j
    → All (λ row. row.0 ≡ row.1.identifier) m
    → All (λ row. row.0 ≢ i) m
    → All (λ row. row.1.identifier ≢ j) m
others i [] j e k a = tt
others i (row ∷ m) j e (f, k) (h, a) = (λ same. h (f ∙ same ∙ sym e), others i m j e k a)

by_identifier :
    (m : List (ℕ × RawPosition))
    → All (λ row. row.0 ≡ row.1.identifier) m
    → Distinct (λ row. row.0) m
    → Distinct (λ row. row.1.identifier) m
by_identifier [] k d = tt
by_identifier (row ∷ m) (e, k) (first, d) =
    (others row.0 m row.1.identifier e k first, by_identifier m k d)

position_before_total :
    (a b : RawPosition) → position_before a b ≡ false → position_before b a ≡ true
unfolding position_before
position_before_total a b h = ground arith

position_before_trans :
    (a b c : RawPosition)
    → position_before a b ≡ true
    → position_before b c ≡ true
    → position_before a c ≡ true
unfolding position_before
position_before_trans a b c h k = ground arith

module _ (str : ℤ → String) where
  -- What a list of positions is to the native rows of one response.
  pub record IsNormalized (rows : List Native) (positions : List RawPosition) : Type 0 where
    pub nothing_lost :
        All (λ v. (p : RawPosition) × (position_of str v ≡ ok p) × Member p positions) rows
    pub one_identifier : Distinct (λ p. p.identifier) positions
    pub one_ticket : Distinct (λ p. p.ticket) positions
    pub in_order : IsSorted position_before positions

  collected-IsNormalized :
      (rows : List Native) (s : Positions)
      → collect_positions str rows record { result = []; tickets = [] } ≡ ok s
      → IsNormalized rows (sorted position_before (values s.result))
  collected-IsNormalized rows s h =
      let g =
        collect-IsSound str rows record { result = []; tickets = [] } s
          record { keyed = tt; once = tt; noted = tt; tickets_once = tt } h in
      record {
        nothing_lost =
            All-mono rows
              (λ v (p, e, a).
                (p, e, Any-sorted position_before (λ y. p ≡ y) _ (values-Any p s.result a)))
              (collect-IsHeld str rows record { result = []; tickets = [] } s h);
        one_identifier =
            Distinct-sorted position_before (λ p. p.identifier) _
              (values-Distinct (λ p. p.identifier) s.result
                (by_identifier s.result g.keyed g.once));
        one_ticket =
            Distinct-sorted position_before (λ p. p.ticket) _
              (values-Distinct (λ p. p.ticket) s.result g.tickets_once);
        in_order = sorted-IsSorted position_before position_before_total position_before_trans _;
      }

  -- If `normalize_positions` answers, then the response was a list within the limit, each of its
  -- rows was readable and its position is in the answer, no identifier and no ticket comes twice,
  -- and the positions are sorted by identifier.
  pub normalize_positions-IsNormalized :
      (records : Records) (limit : ℕ) (positions : List RawPosition)
      → normalize_positions str records limit ≡ ok positions
      → (rows : List Native) × (records ≡ rows_of rows)
        × (length rows ≤ limit)
        × (limit ≤ max_records)
        × IsNormalized rows positions
  unfolding normalize_positions
  normalize_positions-IsNormalized records limit positions h =
      let (rows, e, rest) = >>=-eq-ok (batch records "POSITIONS_UNAVAILABLE" limit) _ h in
      let (s, f, last) =
        >>=-eq-ok (collect_positions str rows record { result = []; tickets = [] }) _ rest in
      let (is_rows, small, bounded) = batch_ok records "POSITIONS_UNAVAILABLE" limit rows e in
      let same : sorted position_before (values s.result) ≡ positions = cc in
      (
        rows,
        is_rows,
        small,
        bounded,
        subst (IsNormalized rows) same (collected-IsNormalized rows s f),
      )
