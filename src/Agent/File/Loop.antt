-- ===== src/Agent/File/Loop.antt =====
-- The loop of `load_config` over the slots: which lists of slots it takes.
use tradetrack_mt5_server.Prelude.{
  ◌≡◌, ◌≢◌, inl, inr, String, Bool, true, false, not, ◌||◌, Option, none, some, List, [], ◌∷◌, map,
  All, All-mono, ==_of_ne, ne_of_==, text_key, Result, ok, >>=-eq-ok, Bool-cases, arith, refl, sym,
  ap, ◌∙◌, subst,
}
use tradetrack_mt5_server.Catalogues.{in_names}
use tradetrack_mt5_server.Agent.Config.{SlotConfig}
use tradetrack_mt5_server.Agent.File.{
  FileSlot, is_id, texts_of, texts, Seen, see_slot, is_seen, add_keyed, add_named, add_slot,
  add_slots, nothing_seen,
}

-- How a configuration stands in the file.
abbrev pub slot_text : SlotConfig → Option FileSlot
slot_text c = some (record {
  id = some c.id;
  executable_path = some c.executable_path;
  data_path = some c.data_path;
})

same_texts :
    (i e d : Option String) (c : SlotConfig)
    → texts_of i e d ≡ some c
    → (i ≡ some c.id) × (e ≡ some c.executable_path) × (d ≡ some c.data_path)
unfolding texts_of
same_texts none e d c h = cc
same_texts (some i) none d c h = cc
same_texts (some i) (some e) none c h = cc
same_texts (some i) (some e) (some d) c h =
    let k : record { id = i; executable_path = e; data_path = d } ≡ c = cc in
    (ap (λ x. some x.id) k, ap (λ x. some x.executable_path) k, ap (λ x. some x.data_path) k)

texts-eq-some : (s : FileSlot) (c : SlotConfig) → texts s ≡ some c → some s ≡ slot_text c
texts-eq-some s c h =
    let (i, e, d) = same_texts s.id s.executable_path s.data_path c h in
    λ t. some (record { id = i t; executable_path = e t; data_path = d t })

module _ (is_absolute : String → Bool) (key : String → Result String) where
  -- A slot's id has the pattern, its paths are absolute and can be resolved.
  pub record IsSlot (c : SlotConfig) : Type 0 where
    pub named : is_id c.id ≡ true
    pub is_executable_absolute : is_absolute c.executable_path ≡ true
    pub is_data_absolute : is_absolute c.data_path ≡ true
    pub executable : String
    pub data_path : String
    pub executable_key : key c.executable_path ≡ ok executable
    pub data_key : key c.data_path ≡ ok data_path

  abbrev pub IsApart : SlotConfig → SlotConfig → Type 0
  IsApart c other =
      (other.id ≢ c.id)
      × (key other.executable_path ≢ key c.executable_path)
      × (key other.data_path ≢ key c.data_path)

  abbrev pub Apart : List SlotConfig → Type 0
  Apart [] = Unit
  Apart (c ∷ slots) = All (IsApart c) slots × Apart slots

  -- A slot that can be added to what was seen.
  pub record Fresh (seen : Seen) (c : SlotConfig) : Type 0 where
    pub slot : IsSlot c
    pub fresh : is_seen seen c.id slot.executable slot.data_path ≡ false

  -- A turn of the loop that has taken a slot.
  abbrev Taken : Seen → Option SlotConfig → SlotConfig × Seen → Type 0
  Taken seen read (c, seen') =
      (read ≡ some c)
      × ((f : Fresh seen c) × (seen' ≡ see_slot seen c.id f.slot.executable f.slot.data_path))

  keyed-Taken :
      (seen : Seen) (d : SlotConfig) (slot : IsSlot d) (r : SlotConfig × Seen)
      → add_keyed is_absolute key seen d slot.executable slot.data_path ≡ ok r
      → Taken seen (some d) r
  keyed-Taken seen d slot r h =
      elim (Bool-cases (is_seen seen d.id slot.executable slot.data_path)) [
        | inl old ↦ absurd (let k = rw old at h in cc)
        | inr new ↦
            let e : ok (d, see_slot seen d.id slot.executable slot.data_path) ≡ ok r =
              rw new at h in
            let k : (d, see_slot seen d.id slot.executable slot.data_path) ≡ r = cc in
            subst (λ x. Taken seen (some d) x) k (refl, (record { slot = slot; fresh = new }, refl))
      ]

  named-Taken :
      (seen : Seen) (read : Option SlotConfig) (r : SlotConfig × Seen)
      → add_named is_absolute key seen read ≡ ok r
      → Taken seen read r
  unfolding add_named
  named-Taken seen none r h = cc
  named-Taken seen (some d) r h = elim (Bool-cases (is_id d.id)) [
    | inr unnamed ↦ absurd (let k = rw unnamed at h in cc)
    | inl named ↦
        elim (Bool-cases (not (is_absolute d.executable_path) || not (is_absolute d.data_path))) [
          | inl relative ↦ absurd (let k = rw (named, relative) at h in cc)
          | inr absolute ↦
              let steps = rw (named, absolute) at h in
              let (e, e_key, rest) = >>=-eq-ok (key d.executable_path) _ steps in
              let (x, x_key, last) = >>=-eq-ok (key d.data_path) _ rest in
              keyed-Taken seen d
                (record {
                  named = named;
                  is_executable_absolute = ground arith;
                  is_data_absolute = ground arith;
                  executable = e;
                  data_path = x;
                  executable_key = e_key;
                  data_key = x_key;
                })
                r last
        ]
  ]

  Fresh-named :
      (seen : Seen) (c : SlotConfig) (f : Fresh seen c)
      → add_named is_absolute key seen (some c)
        ≡ ok (c, see_slot seen c.id f.slot.executable f.slot.data_path)
  unfolding add_named
  Fresh-named seen c f =
      rw
        (
          f.slot.named, f.slot.is_executable_absolute, f.slot.is_data_absolute,
          f.slot.executable_key, f.slot.data_key, f.fresh,
        )
        refl

  -- The slots, taken one by one.
  abbrev pub Chain : Seen → List SlotConfig → Type 0
  Chain seen [] = Unit
  Chain seen (c ∷ slots) =
      (f : Fresh seen c) × Chain (see_slot seen c.id f.slot.executable f.slot.data_path) slots

  pub Chain-add_slots :
      (seen : Seen) (slots : List SlotConfig)
      → Chain seen slots
      → add_slots is_absolute key seen (map slot_text slots) ≡ ok slots
  unfolding add_slots add_slot texts_of
  Chain-add_slots seen [] chain = refl
  Chain-add_slots seen (c ∷ slots) (f, chain) =
      rw
        (
          add_slots,
          add_slot,
          Fresh-named seen c f,
          Chain-add_slots (see_slot seen c.id f.slot.executable f.slot.data_path) slots chain,
        )
        refl

  slot-Taken :
      (seen : Seen) (read : Option FileSlot) (r : SlotConfig × Seen)
      → add_slot is_absolute key seen read ≡ ok r
      → (read ≡ slot_text r.0) × Taken seen (some r.0) r
  unfolding add_slot
  slot-Taken seen none r h = cc
  slot-Taken seen (some s) r h =
      let (same, taken) = named-Taken seen (texts s) r h in
      (texts-eq-some s r.0 same, (refl, taken))

  pub add_slots-Chain :
      (seen : Seen) (read : List (Option FileSlot)) (slots : List SlotConfig)
      → add_slots is_absolute key seen read ≡ ok slots
      → (read ≡ map slot_text slots) × Chain seen slots
  unfolding add_slots
  add_slots-Chain seen [] [] h = (refl, tt)
  add_slots-Chain seen [] (c ∷ slots) h = cc
  add_slots-Chain seen (s ∷ read) slots h =
      let ((c, seen'), added, rest) = >>=-eq-ok (add_slot is_absolute key seen s) _ h in
      let (more, chained, last) = >>=-eq-ok (add_slots is_absolute key seen' read) _ rest in
      let (here, (_, (f, e))) = slot-Taken seen s (c, seen') added in
      let (there, chain) = add_slots-Chain seen' read more chained in
      let k : c ∷ more ≡ slots = cc in
      subst (λ x. (s ∷ read ≡ map slot_text x) × Chain seen x) k
        (rw (here, there) refl, (f, subst (λ x. Chain x more) e chain))

  same_key : (p q a b : String) → key p ≡ ok a → key q ≡ ok b → key p ≡ key q → a ≡ b
  same_key p q a b h k e = let same : ok a ≡ ok b = sym h ∙ e ∙ k in cc

  other_key : (p q a b : String) → key p ≡ ok a → key q ≡ ok b → a ≢ b → key p ≢ key q
  other_key p q a b h k ne e = ne (same_key p q a b h k e)

  key_other : (p q a b : String) → key p ≡ ok a → key q ≡ ok b → key p ≢ key q → a ≢ b
  key_other p q a b h k ne e = ne (rw (h, k, e) refl)

  -- Fresh after one more slot: fresh before it, and apart from it.
  Fresh-IsApart :
      (seen : Seen) (c y : SlotConfig) (s : IsSlot c)
      → Fresh (see_slot seen c.id s.executable s.data_path) y
      → Fresh seen y × IsApart c y
  unfolding in_names
  Fresh-IsApart seen c y s f = (
    record { slot = f.slot; fresh = let h = f.fresh in ground arith },
    (
      ne_of_== y.id c.id (let h = f.fresh in ground arith),
      other_key y.executable_path c.executable_path f.slot.executable s.executable
          f.slot.executable_key s.executable_key
          (ne_of_== f.slot.executable s.executable (let h = f.fresh in ground arith)),
      other_key y.data_path c.data_path f.slot.data_path s.data_path f.slot.data_key s.data_key
          (ne_of_== f.slot.data_path s.data_path (let h = f.fresh in ground arith)),
    ),
  )

  IsApart-Fresh :
      (seen : Seen) (c y : SlotConfig) (s : IsSlot c)
      → Fresh seen y
      → IsApart c y
      → Fresh (see_slot seen c.id s.executable s.data_path) y
  unfolding in_names
  IsApart-Fresh seen c y s f (id, executable, folder) =
      let h = f.fresh in
      let a = ==_of_ne y.id c.id id in
      let b = ==_of_ne f.slot.executable s.executable (
        key_other y.executable_path c.executable_path f.slot.executable s.executable
          f.slot.executable_key s.executable_key executable) in
      let d = ==_of_ne f.slot.data_path s.data_path (
        key_other y.data_path c.data_path f.slot.data_path s.data_path f.slot.data_key s.data_key
          folder) in
      record { slot = f.slot; fresh = ground arith }

  pub Chain-Apart :
      (seen : Seen) (slots : List SlotConfig)
      → Chain seen slots
      → All (Fresh seen) slots × Apart slots
  Chain-Apart seen [] chain = (tt, tt)
  Chain-Apart seen (c ∷ slots) (f, chain) =
      let (fresh, apart) =
        Chain-Apart (see_slot seen c.id f.slot.executable f.slot.data_path) slots chain in
      (
        (f, All-mono slots (λ y g. (Fresh-IsApart seen c y f.slot g).0) fresh),
        (All-mono slots (λ y g. (Fresh-IsApart seen c y f.slot g).1) fresh, apart),
      )

  still_Fresh :
      (seen : Seen) (c : SlotConfig) (s : IsSlot c) (slots : List SlotConfig)
      → All (Fresh seen) slots
      → All (IsApart c) slots
      → All (Fresh (see_slot seen c.id s.executable s.data_path)) slots
  still_Fresh seen c s [] fresh apart = tt
  still_Fresh seen c s (y ∷ slots) (f, fresh) (a, apart) =
      (IsApart-Fresh seen c y s f a, still_Fresh seen c s slots fresh apart)

  pub Apart-Chain :
      (seen : Seen) (slots : List SlotConfig)
      → All (Fresh seen) slots
      → Apart slots
      → Chain seen slots
  Apart-Chain seen [] fresh apart = tt
  Apart-Chain seen (c ∷ slots) (f, fresh) (here, apart) = (
    f,
    Apart-Chain (see_slot seen c.id f.slot.executable f.slot.data_path) slots
        (still_Fresh seen c f.slot slots fresh here) apart,
  )

  pub first_Fresh : (c : SlotConfig) → IsSlot c → Fresh (nothing_seen is_absolute key) c
  unfolding in_names
  first_Fresh c s = record { slot = s; fresh = refl }
