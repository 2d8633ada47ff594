-- ===== src/Normalization/Deals/Complete.antt =====
-- What the normalized deals are: nothing in the window is lost, invented or doubled.
use tradetrack_mt5_server.Prelude.{
  ℕ, String, ◌≤◌, ◌<◌, ◌≡◌, ◌≢◌, ◌⊎◌, inl, inr, true, false, ◌&&◌, Option, none, some, List, [],
  ◌∷◌, ◌++◌, values, length, All, Any, ltb, leb, number_key, lookup, insert, ok, >>=-eq-ok, arith,
  refl, sym, ap, ◌∙◌, subst, Bool-cases, Option-cases, ==_sound, ◌==◌, text_key, All-mono,
}
use tradetrack_mt5_server.Prelude.Int.{ℤ}
use tradetrack_mt5_server.Contracts.{HistoryWindow, start_ms, end_ms, max_records}
use tradetrack_mt5_server.Normalization.{Native, Row, RawDeal, record_of, int_field, read_deal}
use tradetrack_mt5_server.Normalization.Sorting.{
  Member, sorted, IsSorted, Distinct, Distinct-append, Distinct-sorted, sorted-IsSorted, All-append,
  Any-append_left, Any-append_right, All-sorted, Any-sorted, All-Member,
}
use tradetrack_mt5_server.Normalization.Deals.{
  Records, missing, no_batch, rows_of, batch, same_deal, is_conflict, DealDict, add_deal,
  deal_before, selected, add_selected, collect_deals, normalize_deals,
}

-- The two dictionary lemmas: a new key goes to the end, and the same value changes nothing.
module _ {V : Type 0} where
  pub insert_new :
      (k : ℕ) (v : V) (m : List (ℕ × V)) → lookup k m ≡ none → insert k v m ≡ m ++ (k, v) ∷ []
  unfolding lookup insert
  insert_new k v [] h = refl
  insert_new k v (row ∷ m) h = elim (Bool-cases (row.0 == k)) [
    | inl e ↦ absurd (let f = rw e at h in cc)
    | inr e ↦ let f = rw e at h in rw e (ap (λ r. row ∷ r) (insert_new k v m f))
  ]

  pub insert_same : (k : ℕ) (v : V) (m : List (ℕ × V)) → lookup k m ≡ some v → insert k v m ≡ m
  unfolding lookup insert
  insert_same k v [] h = cc
  insert_same k v (row ∷ m) h = elim (Bool-cases (row.0 == k)) [
    | inl e ↦ let f = rw e at h in let g : row.1 ≡ v = cc in rw e (ap (λ w. (row.0, w) ∷ m) (sym g))
    | inr e ↦ let f = rw e at h in rw e (ap (λ r. row ∷ r) (insert_same k v m f))
  ]

  pub absent_keys : (k : ℕ) (m : List (ℕ × V)) → lookup k m ≡ none → All (λ row. row.0 ≢ k) m
  unfolding lookup
  absent_keys k [] h = tt
  absent_keys k (row ∷ m) h = elim (Bool-cases (row.0 == k)) [
    | inl e ↦ absurd (let f = rw e at h in cc)
    | inr e ↦ let f = rw e at h in (λ same. ground arith, absent_keys k m f)
  ]

  pub present_row :
      (k : ℕ) (v : V) (m : List (ℕ × V)) → lookup k m ≡ some v → Any (λ row. v ≡ row.1) m
  unfolding lookup
  present_row k v [] h = cc
  present_row k v (row ∷ m) h = elim (Bool-cases (row.0 == k)) [
    | inl e ↦ let f = rw e at h in inl (cc)
    | inr e ↦ let f = rw e at h in inr (present_row k v m f)
  ]

same_deal_sound : (a b : RawDeal) → same_deal a b ≡ true → a ≡ b
unfolding same_deal
same_deal_sound a b h = ground (
  arith,
  ==_sound a.symbol b.symbol,
  ==_sound a.volume b.volume,
  ==_sound a.price b.price,
  ==_sound a.profit b.profit,
  ==_sound a.commission b.commission,
  ==_sound a.swap b.swap,
  ==_sound a.fee b.fee,
)

-- Every row stands under its own ticket, and under no other's.
abbrev pub IsGood : DealDict → Type 0
IsGood m = All (λ row. row.0 ≡ row.1.ticket) m × Distinct (λ row. row.0) m

-- The next dictionary has the deal, and is the old one or has one row more.
abbrev Added : RawDeal → DealDict → DealDict → Type 0
Added d m next =
    ((next ≡ m) ⊎ ((next ≡ m ++ (d.ticket, d) ∷ []) × (lookup d.ticket m ≡ none)))
    × Any (λ row. d ≡ row.1) next

add_deal-Added :
    (m : DealDict) (d : RawDeal) (next : DealDict) → add_deal m d ≡ ok next → Added d m next
unfolding add_deal is_conflict
add_deal-Added m d next h = elim (Option-cases (lookup d.ticket m)) [
  | inl e ↦
      let f = rw e at h in
      let g : insert d.ticket d m ≡ next = cc in
      let put : next ≡ m ++ (d.ticket, d) ∷ [] = sym g ∙ insert_new d.ticket d m e in
      (
        inr (put, e),
        subst (λ r. Any (λ row. d ≡ row.1) r) (sym put)
            (Any-append_right (λ row. d ≡ row.1) m ((d.ticket, d) ∷ []) (inl refl)),
      )
  | inr (old, e) ↦ elim (Bool-cases (same_deal old d)) [
    | inl same ↦
        let f = rw (e, same) at h in
        let g : insert d.ticket d m ≡ next = cc in
        let k : lookup d.ticket m ≡ some d = e ∙ ap some (same_deal_sound old d same) in
        let put : next ≡ m = sym g ∙ insert_same d.ticket d m k in
        (inl put, subst (λ r. Any (λ row. d ≡ row.1) r) (sym put) (present_row d.ticket d m k))
    | inr other ↦ absurd (let f = rw (e, other) at h in cc)
  ]
]

add_deal-IsGood :
    (m : DealDict) (d : RawDeal) (next : DealDict) → IsGood m → Added d m next → IsGood next
add_deal-IsGood m d next good (inl e, has) = subst IsGood (sym e) good
add_deal-IsGood m d next (keyed, distinct) (inr (e, new), has) = subst IsGood (sym e) (
  All-append _ m ((d.ticket, d) ∷ []) (refl, tt) keyed,
  Distinct-append (λ row. row.0) m (d.ticket, d) distinct (absent_keys d.ticket m new),
)

-- What a batch that is taken tells of the response.
pub batch_ok :
    (records : Records) (code : String) (limit : ℕ) (rows : List Native)
    → batch records code limit ≡ ok rows
    → (records ≡ rows_of rows) × (length rows ≤ limit) × (limit ≤ max_records)
unfolding batch
batch_ok missing code limit rows h = absurd (ground arith)
batch_ok no_batch code limit rows h = absurd (ground arith)
batch_ok (rows_of given) code limit rows h = ground arith

module _ (str : ℤ → String) (window : HistoryWindow) where
  -- The row has a time outside the window.
  abbrev pub IsOutside : Native → Type 0
  IsOutside value =
      (row : Row) × (time : ℕ) × (record_of value ≡ ok row)
      × (int_field row "time_msc" ≡ ok time)
      × ((time < start_ms window) ⊎ (end_ms window ≤ time))

  -- The row has a time in the window, its start included and its end not, and is this deal.
  abbrev pub IsDealOf : Native → RawDeal → Type 0
  IsDealOf value d =
      (row : Row) × (time : ℕ) × (record_of value ≡ ok row)
      × (int_field row "time_msc" ≡ ok time)
      × (start_ms window ≤ time)
      × (time < end_ms window)
      × (read_deal str row time ≡ ok d)

  -- The row is outside the window, or its deal is in the list.
  abbrev pub IsKept : List RawDeal → Native → Type 0
  IsKept deals value = IsOutside value ⊎ ((d : RawDeal) × IsDealOf value d × Member d deals)

  collect_step :
      (value : Native) (natives : List Native) (m last : DealDict)
      → collect_deals str window (value ∷ natives) m ≡ ok last
      → (found : Option RawDeal) × (next : DealDict) × (selected str window value ≡ ok found)
        × (add_selected str window m found ≡ ok next)
        × (collect_deals str window natives next ≡ ok last)
  unfolding collect_deals
  collect_step value natives m last h =
      let (found, e, rest) = >>=-eq-ok (selected str window value) _ h in
      let (next, f, g) = >>=-eq-ok (add_selected str window m found) _ rest in
      (found, next, e, f, g)

  add_selected-Added :
      (m : DealDict) (found : Option RawDeal) (next : DealDict)
      → add_selected str window m found ≡ ok next
      → ((found ≡ none) × (next ≡ m)) ⊎ ((d : RawDeal) × (found ≡ some d) × Added d m next)
  unfolding add_selected
  add_selected-Added m none next h = inl (refl, cc)
  add_selected-Added m (some d) next h = inr (d, refl, add_deal-Added m d next h)

  added_IsGood :
      (m : DealDict) (found : Option RawDeal) (next : DealDict)
      → IsGood m
      → add_selected str window m found ≡ ok next
      → IsGood next
  added_IsGood m found next good h = elim (add_selected-Added m found next h) [
    | inl (e, f) ↦ subst IsGood (sym f) good
    | inr (d, e, a) ↦ add_deal-IsGood m d next good a
  ]

  added_grows :
      (P : ℕ × RawDeal → Type 0) (m : DealDict) (found : Option RawDeal) (next : DealDict)
      → add_selected str window m found ≡ ok next
      → Any P m
      → Any P next
  added_grows P m found next h a = elim (add_selected-Added m found next h) [
    | inl (e, f) ↦ subst (Any P) (sym f) a
    | inr (d, e, (inl f, has)) ↦ subst (Any P) (sym f) a
    | inr (d, e, (inr (f, new), has)) ↦ subst (Any P) (sym f) (Any-append_left P m _ a)
  ]

  added_from :
      (Q : RawDeal → Type 0) (m : DealDict) (found : Option RawDeal) (next : DealDict)
      → add_selected str window m found ≡ ok next
      → All (λ row. Q row.1) m
      → ((d : RawDeal) → found ≡ some d → Q d)
      → All (λ row. Q row.1) next
  added_from Q m found next h a q = elim (add_selected-Added m found next h) [
    | inl (e, f) ↦ subst (All (λ row. Q row.1)) (sym f) a
    | inr (d, e, (inl f, has)) ↦ subst (All (λ row. Q row.1)) (sym f) a
    | inr (d, e, (inr (f, new), has)) ↦
        subst (All (λ row. Q row.1)) (sym f) (All-append _ m _ (q d e, tt) a)
  ]

  collect-IsGood :
      (natives : List Native) (m last : DealDict)
      → IsGood m
      → collect_deals str window natives m ≡ ok last
      → IsGood last
  unfolding collect_deals
  collect-IsGood [] m last good h = let e : m ≡ last = cc in subst IsGood e good
  collect-IsGood (value ∷ natives) m last good h =
      let (found, next, e, f, g) = collect_step value natives m last h in
      collect-IsGood natives next last (added_IsGood m found next good f) g

  collect_grows :
      (P : ℕ × RawDeal → Type 0) (natives : List Native) (m last : DealDict)
      → collect_deals str window natives m ≡ ok last
      → Any P m
      → Any P last
  unfolding collect_deals
  collect_grows P [] m last h a = let e : m ≡ last = cc in subst (Any P) e a
  collect_grows P (value ∷ natives) m last h a =
      let (found, next, e, f, g) = collect_step value natives m last h in
      collect_grows P natives next last g (added_grows P m found next f a)

  collect_from :
      (Q : RawDeal → Type 0) (natives : List Native) (m last : DealDict)
      → collect_deals str window natives m ≡ ok last
      → All (λ row. Q row.1) m
      → All (λ v. (d : RawDeal) → selected str window v ≡ ok (some d) → Q d) natives
      → All (λ row. Q row.1) last
  unfolding collect_deals
  collect_from Q [] m last h a q = let e : m ≡ last = cc in subst (All (λ row. Q row.1)) e a
  collect_from Q (value ∷ natives) m last h a (q, qs) =
      let (found, next, e, f, g) = collect_step value natives m last h in
      collect_from Q natives next last g
        (added_from Q m found next f a (λ d same. q d (e ∙ ap ok same))) qs

  -- A row under the dictionary that the loop ends with.
  abbrev IsHeld : DealDict → Native → Type 0
  IsHeld m value =
      (selected str window value ≡ ok none)
      ⊎ ((d : RawDeal) × (selected str window value ≡ ok (some d)) × Any (λ row. d ≡ row.1) m)

  collect-IsHeld :
      (natives : List Native) (m last : DealDict)
      → collect_deals str window natives m ≡ ok last
      → All (IsHeld last) natives
  collect-IsHeld [] m last h = tt
  collect-IsHeld (value ∷ natives) m last h =
      let (found, next, e, f, g) = collect_step value natives m last h in
      (
        elim (add_selected-Added m found next f) [
          | inl (none_found, same) ↦ inl (e ∙ ap ok none_found)
          | inr (d, is_found, (how, has)) ↦
              inr (d, e ∙ ap ok is_found, collect_grows (λ row. d ≡ row.1) natives next last g has)
        ],
        collect-IsHeld natives next last g,
      )

  -- The values of a dictionary, and the sorted list of them.
  values-Any : (d : RawDeal) (m : DealDict) → Any (λ row. d ≡ row.1) m → Member d (values m)
  unfolding values
  values-Any d [] h = absurd h
  values-Any d (row ∷ m) (inl e) = inl e
  values-Any d (row ∷ m) (inr a) = inr (values-Any d m a)

  values-All : (Q : RawDeal → Type 0) (m : DealDict) → All (λ row. Q row.1) m → All Q (values m)
  unfolding values
  values-All Q [] a = tt
  values-All Q (row ∷ m) (q, a) = (q, values-All Q m a)

  values_other :
      (t : ℕ) (m : DealDict)
      → All (λ row. row.0 ≡ row.1.ticket) m
      → All (λ row. row.0 ≢ t) m
      → All (λ d. d.ticket ≢ t) (values m)
  unfolding values
  values_other t [] k a = tt
  values_other t (row ∷ m) (e, k) (h, a) = (λ same. h (e ∙ same), values_other t m k a)

  values-Distinct : (m : DealDict) → IsGood m → Distinct (λ d. d.ticket) (values m)
  unfolding values
  values-Distinct [] good = tt
  values-Distinct (row ∷ m) ((e, k), (first, d)) = (
    values_other row.1.ticket m k (All-mono m (λ r ne same. ne (same ∙ sym e)) first),
    values-Distinct m (k, d),
  )

  deal_before_total : (a b : RawDeal) → deal_before a b ≡ false → deal_before b a ≡ true
  unfolding deal_before
  deal_before_total a b h = ground arith

  deal_before_trans :
      (a b c : RawDeal) → deal_before a b ≡ true → deal_before b c ≡ true → deal_before a c ≡ true
  unfolding deal_before
  deal_before_trans a b c h k = ground arith

  Any-Member :
      (P : Native → Type 0) (natives : List Native) (v : Native)
      → Member v natives
      → P v
      → Any P natives
  Any-Member P [] v h p = absurd h
  Any-Member P (w ∷ natives) v (inl e) p = inl (subst P e p)
  Any-Member P (w ∷ natives) v (inr a) p = inr (Any-Member P natives v a p)

  from_rows :
      (rows : List Native)
      → All
          (λ v.
            (d : RawDeal)
            → selected str window v ≡ ok (some d)
            → Any (λ w. selected str window w ≡ ok (some d)) rows)
          rows
  from_rows rows =
      All-Member _ rows
        (λ v member d e. Any-Member (λ w. selected str window w ≡ ok (some d)) rows v member e)

  read_deal_time :
      (row : Row) (time_msc : ℕ) (d : RawDeal)
      → read_deal str row time_msc ≡ ok d
      → d.time_msc ≡ time_msc
  unfolding read_deal
  read_deal_time row time_msc d h = ground arith

  -- The test of the window, either way.
  selected-IsOutside : (value : Native) → selected str window value ≡ ok none → IsOutside value
  unfolding selected
  selected-IsOutside value h =
      let (row, e, r1) = >>=-eq-ok (record_of value) _ h in
      let (time, f, r2) = >>=-eq-ok (int_field row "time_msc") _ r1 in
      elim (Bool-cases (leb (start_ms window) time && ltb time (end_ms window))) [
        | inl within ↦
            let (deal, g, r4) = >>=-eq-ok (read_deal str row time) _ (rw within at r2) in
            absurd (ground arith)
        | inr out ↦ (row, time, e, f, outside (start_ms window) time (end_ms window) out)
      ]
    where
      outside : (lo t hi : ℕ) → (leb lo t && ltb t hi) ≡ false → (t < lo) ⊎ (hi ≤ t)
      outside lo t hi h = elim (Bool-cases (leb lo t)) [
        | inl late ↦ inr (ground arith)
        | inr early ↦ inl (ground arith)
      ]

  selected-IsDealOf :
      (value : Native) (d : RawDeal) → selected str window value ≡ ok (some d) → IsDealOf value d
  unfolding selected
  selected-IsDealOf value d h =
      let (row, e, r1) = >>=-eq-ok (record_of value) _ h in
      let (time, f, r2) = >>=-eq-ok (int_field row "time_msc") _ r1 in
      elim (Bool-cases (leb (start_ms window) time && ltb time (end_ms window))) [
        | inl within ↦
            let (deal, g, r4) = >>=-eq-ok (read_deal str row time) _ (rw within at r2) in
            let same : deal ≡ d = ground arith in
            (row, time, e, f, ground arith, ground arith, g ∙ ap ok same)
        | inr out ↦ absurd (let r3 = rw out at r2 in ground arith)
      ]

  -- A deal that a row gives lies in the window, its end excluded.
  pub deal_in_window :
      (value : Native) (d : RawDeal)
      → IsDealOf value d
      → (start_ms window ≤ d.time_msc) × (d.time_msc < end_ms window)
  deal_in_window value d (row, time, e, f, lo, hi, g) = rw (read_deal_time row time d g) (lo, hi)

  Any-mono :
      (P Q : Native → Type 0) (rows : List Native)
      → ((v : Native) → P v → Q v)
      → Any P rows
      → Any Q rows
  Any-mono P Q [] h a = absurd a
  Any-mono P Q (v ∷ rows) h (inl p) = inl (h v p)
  Any-mono P Q (v ∷ rows) h (inr a) = inr (Any-mono P Q rows h a)

  -- What a list of deals is to the native rows of one response.
  pub record IsNormalized (rows : List Native) (deals : List RawDeal) : Type 0 where
    pub nothing_lost : All (IsKept deals) rows
    pub nothing_added : All (λ d. Any (λ v. IsDealOf v d) rows) deals
    pub in_window : All (λ d. (start_ms window ≤ d.time_msc) × (d.time_msc < end_ms window)) deals
    pub no_double : Distinct (λ d. d.ticket) deals
    pub in_order : IsSorted deal_before deals

  collected-IsNormalized :
      (rows : List Native) (m : DealDict)
      → collect_deals str window rows [] ≡ ok m
      → IsNormalized rows (sorted deal_before (values m))
  collected-IsNormalized rows m h = record {
    nothing_lost =
        All-mono rows
          (λ v kept. elim kept [
            | inl out ↦ inl (selected-IsOutside v out)
            | inr (d, e, a) ↦ inr (
              d,
              selected-IsDealOf v d e,
              Any-sorted deal_before (λ y. d ≡ y) _ (values-Any d m a),
            )
          ])
          (collect-IsHeld rows [] m h);
    nothing_added = All-sorted deal_before _ _ (
        values-All (λ d. Any (λ v. IsDealOf v d) rows) m
          (All-mono m (λ row given. Any-mono _ _ rows (λ v e. selected-IsDealOf v row.1 e) given)
            (collect_from (λ d. Any (λ v. selected str window v ≡ ok (some d)) rows) rows [] m h tt
              (from_rows rows))));
    in_window = All-sorted deal_before _ _ (
        values-All (λ d. (start_ms window ≤ d.time_msc) × (d.time_msc < end_ms window)) m
          (collect_from (λ d. (start_ms window ≤ d.time_msc) × (d.time_msc < end_ms window)) rows []
            m h tt
            (All-Member _ rows (λ v member d e. deal_in_window v d (selected-IsDealOf v d e)))));
    no_double =
        Distinct-sorted deal_before (λ d. d.ticket) _
          (values-Distinct m (collect-IsGood rows [] m (tt, tt) h));
    in_order = sorted-IsSorted deal_before deal_before_total deal_before_trans _;
  }

  -- If `normalize_deals` answers, then the response was a list within the limit; each row has a
  -- readable time, which is before the window's start or not before its end, or it is read as a deal
  -- that is in the answer; each answered deal is read from a row with a time in the window, its start
  -- included and its end not; no ticket comes twice; and the deals are sorted by time and ticket.
  pub normalize_deals-IsNormalized :
      (records : Records) (limit : ℕ) (deals : List RawDeal)
      → normalize_deals str window records limit ≡ ok deals
      → (rows : List Native) × (records ≡ rows_of rows)
        × (length rows ≤ limit)
        × (limit ≤ max_records)
        × IsNormalized rows deals
  unfolding normalize_deals
  normalize_deals-IsNormalized records limit deals h =
      let (rows, e, rest) = >>=-eq-ok (batch records "HISTORY_UNAVAILABLE" limit) _ h in
      let (m, f, last) = >>=-eq-ok (collect_deals str window rows []) _ rest in
      let (is_rows, small, bounded) = batch_ok records "HISTORY_UNAVAILABLE" limit rows e in
      let same : sorted deal_before (values m) ≡ deals = cc in
      (
        rows,
        is_rows,
        small,
        bounded,
        subst (IsNormalized rows) same (collected-IsNormalized rows m f),
      )
