-- ===== src/Legacy/Latest.antt =====
-- For each position the dictionary holds a row with the latest time.
use tradetrack_mt5_server.Prelude.{
  ◌≡◌, inl, inr, true, false, Option, none, some, List, [], ◌∷◌, All, Any, ◌==◌, ==_iff, ==_refl,
  ==_sound, lookup, insert, lookup-insert, arith, refl, sym, ap, ◌∙◌, subst, Bool-cases,
  Option-cases,
}
use tradetrack_mt5_server.Prelude.Int.{ℤ, ◌≤ℤ◌, leb_ℤ, int_key}
use tradetrack_mt5_server.Normalization.Sorting.{Member}
use tradetrack_mt5_server.Legacy.{Row, time_unix, pid, is_later, keep_latest, latest_rows}

leb_ℤ-le : (a b : ℤ) → leb_ℤ a b ≡ true → a ≤ℤ b
leb_ℤ-le a b h = ground arith

leb_ℤ-gt : (a b : ℤ) → leb_ℤ a b ≡ false → b ≤ℤ a
leb_ℤ-gt a b h = ground arith

pub le_ℤ_trans : (a b c : ℤ) → a ≤ℤ b → b ≤ℤ c → a ≤ℤ c
le_ℤ_trans a b c h k = omega arith

le_ℤ_refl : (a : ℤ) → a ≤ℤ a
le_ℤ_refl a = omega arith

module _ {A : Type 0} where
  -- The dictionary holds a row of the position that is at least as late.
  abbrev pub At : List (ℤ × Row A) → ℤ → ℤ → Type 0
  At m p t = (e : Row A) × (u : ℤ) × (lookup p m ≡ some e) × (time_unix e.time ≡ some u) × (t ≤ℤ u)

  -- Every row that is held has a time, and stands under its position.
  pub record IsTimed (rows : List (Row A)) (m : List (ℤ × Row A)) : Type 0 where
    pub timed : (p : ℤ) (e : Row A) → lookup p m ≡ some e → (u : ℤ) × (time_unix e.time ≡ some u)
    pub placed : (p : ℤ) (e : Row A) → lookup p m ≡ some e → (pid e ≡ some p) × Member e rows

  is_later-some :
      (t v : ℤ) (e : Row A) → time_unix e.time ≡ some v → is_later t (some e) ≡ leb_ℤ v t
  unfolding is_later
  is_later-some t v e h = ground arith

  keep_At :
      (p t q u : ℤ) (d : Row A) (m : List (ℤ × Row A))
      → time_unix d.time ≡ some t
      → ((e : Row A) → lookup p m ≡ some e → (v : ℤ) × (time_unix e.time ≡ some v))
      → At m q u
      → At (keep_latest (some p) (some t) d m) q u
  unfolding keep_latest
  keep_At p t q u d m dt timed (e, v, at_q, ev, le) = elim (Bool-cases (is_later t (lookup p m))) [
    | inr older ↦ rw older (e, v, at_q, ev, le)
    | inl later ↦ elim (Bool-cases (p == q)) [
      | inr other ↦ rw later (e, v, lookup-insert p q d m ∙ (rw other at_q), ev, le)
      | inl same ↦
          let eq : p ≡ q = ==_sound p q same in
          let held : lookup p m ≡ some e = ap (λ x. lookup x m) eq ∙ at_q in
          let newer : leb_ℤ v t ≡ true =
            sym (is_later-some t v e ev) ∙ sym (ap (is_later t) held) ∙ later in
          rw later
            (d, t, lookup-insert p q d m ∙ (rw same), dt, le_ℤ_trans u v t le (leb_ℤ-le v t newer))
    ]
  ]

  keep_own :
      (p t : ℤ) (d : Row A) (m : List (ℤ × Row A))
      → time_unix d.time ≡ some t
      → ((e : Row A) → lookup p m ≡ some e → (v : ℤ) × (time_unix e.time ≡ some v))
      → At (keep_latest (some p) (some t) d m) p t
  unfolding keep_latest
  keep_own p t d m dt timed = elim (Bool-cases (is_later t (lookup p m))) [
    | inl later ↦ rw later (d, t, lookup-insert p p d m ∙ (rw (==_refl p)), dt, le_ℤ_refl t)
    | inr older ↦ elim (Option-cases (lookup p m)) [
      | inl empty ↦ absurd (unfold is_later in (let l = rw empty at older in cc))
      | inr (e, held) ↦
          let (v, ev) = timed e held in
          let old : leb_ℤ v t ≡ false =
            sym (is_later-some t v e ev) ∙ sym (ap (is_later t) held) ∙ older in
          rw older (e, v, held, ev, leb_ℤ-gt v t old)
    ]
  ]

  keep-IsTimed :
      (p t : ℤ) (d : Row A) (rows : List (Row A)) (m : List (ℤ × Row A))
      → time_unix d.time ≡ some t
      → pid d ≡ some p
      → Member d rows
      → IsTimed rows m
      → IsTimed rows (keep_latest (some p) (some t) d m)
  unfolding keep_latest
  keep-IsTimed p t d rows m dt dp member good = elim (Bool-cases (is_later t (lookup p m))) [
    | inr older ↦ rw older good
    | inl later ↦ rw later record {
      timed = λ q e held. elim (Bool-cases (p == q)) [
        | inl same ↦
            let h = rw same at (sym (lookup-insert p q d m) ∙ held) in
            let eq : d ≡ e = cc in (t, ap (λ x. time_unix x.time) (sym eq) ∙ dt)
        | inr other ↦ let h = rw other at (sym (lookup-insert p q d m) ∙ held) in good.timed q e h
      ];
      placed = λ q e held. elim (Bool-cases (p == q)) [
        | inl same ↦
            let h = rw same at (sym (lookup-insert p q d m) ∙ held) in
            let eq : d ≡ e = cc in
            (
              ap pid (sym eq) ∙ dp ∙ ap some (==_sound p q same),
              subst (λ x. Member x rows) eq member,
            )
        | inr other ↦ let h = rw other at (sym (lookup-insert p q d m) ∙ held) in good.placed q e h
      ];
    }
  ]

  pub empty-IsTimed : (rows : List (Row A)) → IsTimed rows []
  unfolding lookup
  empty-IsTimed rows = record {
    timed = λ p e h. absurd (ground arith);
    placed = λ p e h. absurd (ground arith);
  }

  -- No position stands twice.
  abbrev pub OncePerKey : List (ℤ × Row A) → Type 0
  OncePerKey [] = Unit
  OncePerKey (row ∷ m) = (lookup row.0 m ≡ none) × OncePerKey m

  insert-OncePerKey :
      (p : ℤ) (d : Row A) (m : List (ℤ × Row A)) → OncePerKey m → OncePerKey (insert p d m)
  unfolding insert lookup
  insert-OncePerKey p d [] once = (refl, tt)
  insert-OncePerKey p d (row ∷ m) (fresh, once) = elim (Bool-cases (row.0 == p)) [
    | inl same ↦ rw same (fresh, once)
    | inr other ↦ rw other (
      lookup-insert p row.0 d m ∙ ground (arith, ==_iff p row.0, ==_iff row.0 p, fresh),
      insert-OncePerKey p d m once,
    )
  ]

  -- What one turn of the loop does, by what the row's position and time are.
  record Step (rows : List (Row A)) (d : Row A) (m next : List (ℤ × Row A)) : Type 0 where
    good : IsTimed rows next
    once : OncePerKey next
    kept : (q u : ℤ) → At m q u → At next q u
    own : (p t : ℤ) → pid d ≡ some p → time_unix d.time ≡ some t → At next p t

  step_lem :
      (rows : List (Row A)) (d : Row A) (m : List (ℤ × Row A)) (x y : Option ℤ)
      → pid d ≡ x
      → time_unix d.time ≡ y
      → Member d rows
      → IsTimed rows m
      → OncePerKey m
      → Step rows d m (keep_latest x y d m)
  step_lem rows d m none y dp dt member good once =
      let same : keep_latest none y d m ≡ m = unfold keep_latest in refl in
      record {
        good = subst (IsTimed rows) (sym same) good;
        once = subst OncePerKey (sym same) once;
        kept = λ q u h. subst (λ n. At n q u) (sym same) h;
        own = λ p t h k. absurd (ground arith);
      }
  step_lem rows d m (some p) none dp dt member good once =
      let same : keep_latest (some p) none d m ≡ m = unfold keep_latest in refl in
      record {
        good = subst (IsTimed rows) (sym same) good;
        once = subst OncePerKey (sym same) once;
        kept = λ q u h. subst (λ n. At n q u) (sym same) h;
        own = λ p t h k. absurd (ground arith);
      }
  step_lem rows d m (some p) (some t) dp dt member good once = record {
    good = keep-IsTimed p t d rows m dt dp member good;
    once = elim (Bool-cases (is_later t (lookup p m))) [
      | inl later ↦ unfold keep_latest in (rw later (insert-OncePerKey p d m once))
      | inr older ↦ unfold keep_latest in (rw older once)
    ];
    kept = λ q u h. keep_At p t q u d m dt (good.timed p) h;
    own = λ q u h k.
        let same : p ≡ q = ground arith in
        let time : t ≡ u = ground arith in
        subst (λ v. At (keep_latest (some p) (some t) d m) q v) time
          (subst (λ r. At (keep_latest (some p) (some t) d m) r t) same
            (keep_own p t d m dt (good.timed p)));
  }

  pub record IsDone (rows rest : List (Row A)) (m last : List (ℤ × Row A)) : Type 0 where
    pub good : IsTimed rows last
    pub once : OncePerKey last
    pub kept : (q u : ℤ) → At m q u → At last q u
    pub all : All (λ d. (p t : ℤ) → pid d ≡ some p → time_unix d.time ≡ some t → At last p t) rest

  pub latest_rows-IsDone :
      (rows rest : List (Row A)) (m : List (ℤ × Row A))
      → All (λ d. Member d rows) rest
      → IsTimed rows m
      → OncePerKey m
      → IsDone rows rest m (latest_rows rest m)
  unfolding latest_rows
  latest_rows-IsDone rows [] m members good once = record {
    good = good;
    once = once;
    kept = λ q u h. h;
    all = tt;
  }
  latest_rows-IsDone rows (d ∷ rest) m (member, members) good once =
      let s = step_lem rows d m (pid d) (time_unix d.time) refl refl member good once in
      let i =
        latest_rows-IsDone rows rest (keep_latest (pid d) (time_unix d.time) d m) members s.good
          s.once in
      record {
        good = i.good;
        once = i.once;
        kept = λ q u h. i.kept q u (s.kept q u h);
        all = ((λ p t dp dt. i.kept p t (s.own p t dp dt)), i.all);
      }

  pub lookup_member :
      (m : List (ℤ × Row A)) (p : ℤ) (e : Row A)
      → OncePerKey m
      → Any (λ row. (row.0 ≡ p) × (row.1 ≡ e)) m
      → lookup p m ≡ some e
  unfolding lookup
  lookup_member [] p e once h = absurd h
  lookup_member (row ∷ m) p e (fresh, once) (inl (k, v)) =
      rw (ap (λ q. row.0 == q) (sym k) ∙ ==_refl row.0) (ap some v)
  lookup_member (row ∷ m) p e (fresh, once) (inr h) =
      let rest = lookup_member m p e once h in
      elim (Bool-cases (row.0 == p)) [
        | inl same ↦ absurd (let eq = ap (λ q. lookup q m) (==_sound row.0 p same) in cc)
        | inr other ↦ rw other rest
      ]
