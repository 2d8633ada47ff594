-- ===== src/Agent/File/Accepted.antt =====
-- Which files `load_config` accepts.
use tradetrack_mt5_server.Prelude.{
  ℕ, suc, ◌≡◌, ◌≤◌, inl, inr, ◌↔◌, String, Bool, true, false, ◌&&◌, Option, none, some, List, [],
  ◌∷◌, map, length, All, All-mono, ltb, leb, text_key, Result, ok, raise, Error, ◌>>=◌, >>=-eq-ok,
  Bool-cases, Option-cases, and_true, leb→le, arith, refl, ap, ◌∙◌, subst,
}
use tradetrack_mt5_server.Agent.Config.{SlotConfig}
use tradetrack_mt5_server.Agent.File.{
  FileSlot, FileConfig, NodeConfig, Content, texts, add_slots, nothing_seen, check_slots,
  check_config, check_content, caught, load_config,
}
use tradetrack_mt5_server.Agent.File.Loop.{
  slot_text, IsSlot, Apart, Chain-add_slots, add_slots-Chain, Chain-Apart, Apart-Chain, first_Fresh,
}

abbrev pub config_text : NodeConfig → FileConfig
config_text c = record {
  api_base_url = some c.api_base_url;
  node_id = some c.node_id;
  slots = some (map slot_text c.slots);
}

module _ (is_absolute : String → Bool) (key : String → Result String) where
  le→leb : (a b : ℕ) → a ≤ b → leb a b ≡ true
  le→leb a b h = ground arith

  abbrev Slots : List SlotConfig → Type 0
  Slots slots =
      (1 ≤ length slots)
      × (length slots ≤ 16)
      × All (IsSlot is_absolute key) slots
      × (Apart is_absolute key) slots

  -- A file with the configuration, of 65536 bytes at most: one to sixteen well-formed slots, no two of
  -- them with an id, an executable or a data path in common.
  abbrev pub IsAccepted : Content → NodeConfig → Type 0
  IsAccepted content c =
      (size : ℕ) × (content ≡ ok (size, ok (some (config_text c)))) × (size ≤ 65536) × Slots c.slots

  length-slot_text : (slots : List SlotConfig) → length (map slot_text slots) ≡ length slots
  length-slot_text [] = refl
  length-slot_text (c ∷ slots) = ap suc (length-slot_text slots)

  check_slots-Slots :
      (url node : String) (read : Option (List (Option FileSlot))) (c : NodeConfig)
      → check_slots is_absolute key url node read ≡ ok c
      → (url ≡ c.api_base_url)
        × (node ≡ c.node_id)
        × (read ≡ some (map slot_text c.slots))
        × Slots c.slots
  unfolding check_slots
  check_slots-Slots url node none c h = cc
  check_slots-Slots url node (some read) c h =
      elim (Bool-cases (leb 1 (length read) && leb (length read) 16)) [
        | inr long ↦ absurd (let k = rw long at h in cc)
        | inl bounded ↦
            let (lo, hi) = and_true (leb 1 (length read)) (leb (length read) 16) bounded in
            let steps = rw bounded at h in
            let (slots, added, e) =
              >>=-eq-ok (add_slots is_absolute key (nothing_seen is_absolute key) read) _ steps in
            let same : record { api_base_url = url; node_id = node; slots = slots } ≡ c = cc in
            let (texts, chain) =
              (add_slots-Chain is_absolute key) (nothing_seen is_absolute key) read slots added in
            let (fresh, apart) =
              (Chain-Apart is_absolute key) (nothing_seen is_absolute key) slots chain in
            let n : length read ≡ length slots = rw texts (length-slot_text slots) in
            subst
              (λ d.
                (url ≡ d.api_base_url)
                × (node ≡ d.node_id)
                × (some read ≡ some (map slot_text d.slots))
                × Slots d.slots)
              same
              (
                refl,
                refl,
                ap some texts,
                (
                  subst (λ k. 1 ≤ k) n (leb→le 1 (length read) lo),
                  subst (λ k. k ≤ 16) n (leb→le (length read) 16 hi),
                  All-mono slots (λ y f. f.slot) fresh,
                  apart,
                ),
              )
      ]

  Slots-check_slots :
      (c : NodeConfig)
      → Slots c.slots
      → check_slots is_absolute key c.api_base_url c.node_id (some (map slot_text c.slots)) ≡ ok c
  unfolding check_slots
  Slots-check_slots c (lo, hi, named, apart) =
      let chain =
        (Apart-Chain is_absolute key) (nothing_seen is_absolute key) c.slots
          (All-mono c.slots (first_Fresh is_absolute key) named) apart in
      rw
        (
          length-slot_text c.slots,
          le→leb 1 (length c.slots) lo,
          le→leb (length c.slots) 16 hi,
          (Chain-add_slots is_absolute key) (nothing_seen is_absolute key) c.slots chain,
        )
        refl

  check_config-Slots :
      (read : Option FileConfig) (c : NodeConfig)
      → check_config is_absolute key read ≡ ok c
      → (read ≡ some (config_text c)) × Slots c.slots
  unfolding check_config
  check_config-Slots none c h = cc
  check_config-Slots (some r) c h = elim (Option-cases r.api_base_url) [
    | inl missing ↦ absurd (let k = rw missing at h in cc)
    | inr (url, u) ↦ elim (Option-cases r.node_id) [
      | inl missing ↦ absurd (let k = rw (u, missing) at h in cc)
      | inr (node, n) ↦
          let (a, b, s, slots) = check_slots-Slots url node r.slots c (rw (u, n) at h) in
          (
            (λ t. some (record {
              api_base_url = (u ∙ ap some a) t;
              node_id = (n ∙ ap some b) t;
              slots = s t;
            })),
            slots,
          )
    ]
  ]

  parsed-IsAccepted :
      (size : ℕ) (parsed : Result (Option FileConfig)) (c : NodeConfig)
      → (parsed >>= λ x. check_config is_absolute key x) ≡ ok c
      → ltb 65536 size ≡ false
      → IsAccepted (ok (size, parsed)) c
  parsed-IsAccepted size (raise e) c h short = cc
  parsed-IsAccepted size (ok read) c h short =
      let (same, slots) = check_config-Slots read c h in
      (size, ap (λ x. ok (size, ok x)) same, ground arith, slots)

  checked-IsAccepted :
      (content : Content) (c : NodeConfig)
      → (content >>= λ x. check_content is_absolute key x) ≡ ok c
      → IsAccepted content c
  unfolding check_config
  checked-IsAccepted (raise e) c h = cc
  checked-IsAccepted (ok (size, parsed)) c h = elim (Bool-cases (ltb 65536 size)) [
    | inl long ↦ absurd (let k = rw long at h in cc)
    | inr short ↦ parsed-IsAccepted size parsed c (rw short at h) short
  ]

  caught-eq-ok :
      (r : Result NodeConfig) (c : NodeConfig) → caught is_absolute key r ≡ ok c → r ≡ ok c
  caught-eq-ok (ok d) c h = h
  caught-eq-ok (raise Error.os_error) c h = cc
  caught-eq-ok (raise (Error.inventory_error e)) c h = cc
  caught-eq-ok (raise (Error.agent_error e)) c h = cc
  caught-eq-ok (raise (Error.collection_error e)) c h = cc
  caught-eq-ok (raise (Error.data_error e f)) c h = cc
  caught-eq-ok (raise Error.other) c h = cc

  -- `load_config` returns a configuration exactly if the file has that and nothing else, in 65536 bytes
  -- at most, with one to sixteen slots, each with an id of the pattern and absolute paths that can be
  -- resolved, and no two with the same id, the same executable or the same data path, as resolved and
  -- casefolded.
  pub load_config_iff :
      (content : Content) (c : NodeConfig)
      → (load_config is_absolute key content ≡ ok c) ↔ IsAccepted content c
  unfolding load_config check_config
  load_config_iff content c = (
    (λ h. checked-IsAccepted content c (caught-eq-ok _ c h)),
    (λ (size, e, small, slots).
        let short : ltb 65536 size ≡ false = ground arith in
        rw (e, short, Slots-check_slots c slots) refl),
  )
