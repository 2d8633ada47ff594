-- ===== src/Inventory/Reports/Evidence.antt =====
-- What a transcript of the inventory shows: of the rows of the cache, and of a report.
use tradetrack_mt5_server.Prelude.{
  ℕ, ◌≤◌, ◌<◌, ◌+◌, and_true, ltb→lt, leb→le, ◌≡◌, ◌⊎◌, inl, inr, String, Bool, true, false, not,
  Option, none, some, [], ◌∷◌, if◌then◌else◌, ◌==◌, ==_sound, text_key, lookup, insert, remove,
  lookup-insert, lookup-remove, Result, ok, raise, arith, refl, ap, subst, Bool-cases,
}
use tradetrack_mt5_server.Inventory.Processes.{Process, same_identity}
use tradetrack_mt5_server.Inventory.Reports.{
  Snapshot, Cached, Entry, build_read, identified, fingerprinted, clock_read, listed, Log, World,
  refresh_time, is_recent, is_same,
}

-- Before the dialog: the catalogue's hash was read, below a verified build.
abbrev pub IsStart : String → ℕ → Log → Type 0
IsStart hash build (fingerprinted (ok h) ∷ build_read (some b) ∷ log) = (h ≡ hash) × (b ≡ build)
IsStart hash build (clock_read t ∷ fingerprinted (ok h) ∷ build_read (some b) ∷ log) =
    (h ≡ hash) × (b ≡ build)
IsStart hash build _ = ⊥

-- A login dialog of the process has shown the names; the catalogue had the same hash before and
-- after, and the process was the same after it.
abbrev pub IsReadAt : String → Cached → Log → Type 0
IsReadAt key c
      (clock_read t
        ∷ identified pid (some i)
        ∷ fingerprinted (ok h)
        ∷ listed k p (ok names)
        ∷ log) =
    (t ≡ c.verified_at)
    × (pid ≡ p.0)
    × (i ≡ c.identity)
    × (p.1 ≡ c.identity)
    × (h ≡ c.hash)
    × (k ≡ key)
    × (names ≡ c.names)
    × IsStart c.hash c.build log
IsReadAt key c _ = ⊥

abbrev pub IsRead : String → Cached → Log → Type 0
IsRead key c [] = ⊥
IsRead key c (e ∷ log) = IsReadAt key c (e ∷ log) ⊎ IsRead key c log

-- Every row of the cache was read so.
pub record Evidenced (w : World) : Type 0 where
  pub row : (k : String) (c : Cached) → lookup k w.cache ≡ some c → IsRead k c w.log

-- The hash and the process were seen again at the end.
abbrev pub IsSeenLast : Process → String → Log → Type 0
IsSeenLast p hash (identified pid i ∷ fingerprinted r ∷ log) =
    (pid ≡ p.0) × (i ≡ some p.1) × (r ≡ ok hash)
IsSeenLast p hash (clock_read t ∷ identified pid i ∷ fingerprinted r ∷ log) =
    (pid ≡ p.0) × (i ≡ some p.1) × (r ≡ ok hash)
IsSeenLast p hash _ = ⊥

-- The clock's last reading.
abbrev pub IsNow : ℕ → Log → Type 0
IsNow t [] = ⊥
IsNow t (clock_read u ∷ log) = t ≡ u
IsNow t (_ ∷ log) = IsNow t log

abbrev pub IsInspected : String → Snapshot → Log → Type 0
IsInspected key s log =
    (p : Process) × (c : Cached) × (now : ℕ) × (s.process ≡ some p)
    × (s.catalog_hash ≡ some c.hash)
    × (s.server_names ≡ c.names)
    × (p.1 ≡ c.identity)
    × IsRead key c log
    × IsNow now log
    × (c.verified_at ≤ now)
    × (now < c.verified_at + 300000)
    × IsSeenLast p c.hash log

-- What a result of the inventory says.
abbrev pub IsJustified : String → Result Snapshot → Log → Type 0
IsJustified key (raise e) log = Unit
IsJustified key (ok s) log = (s.is_inspected ≡ false) ⊎ IsInspected key s log

abbrev pub Ends : String → Result Snapshot × World → Type 0
Ends key (r, w) = Evidenced w × IsJustified key r w.log

abbrev pub at_log : World → Log → World
at_log w log = record w { log = log }

pub cons-Evidenced :
    (w : World) (e : Entry) (log : Log) → Evidenced (at_log w log) → Evidenced (at_log w (e ∷ log))
cons-Evidenced w e log good = record { row = λ k c h. inr (good.row k c h) }

pub remove-Evidenced :
    (key : String) (w : World) → Evidenced w → Evidenced (record w { cache = remove key w.cache })
remove-Evidenced key w good = record {
  row = λ k c h.
      good.row k c (kept (key == k) (lookup k w.cache) (rw (lookup-remove key k w.cache) at h));
}
  where
    kept :
        (b : Bool) (x : Option Cached) {c : Cached} → (if b then none else x) ≡ some c → x ≡ some c
    kept true x h = cc
    kept false x h = h

pub insert-Evidenced :
    (key : String) (new : Cached) (w : World)
    → Evidenced w
    → IsRead key new w.log
    → Evidenced (record w { cache = insert key new w.cache })
insert-Evidenced key new w good read = record {
  row = λ k c h. row k c (rw (lookup-insert key k new w.cache) at h);
}
  where
    row :
        (k : String) (c : Cached)
        → (if key == k then some new else lookup k w.cache) ≡ some c
        → IsRead k c w.log
    row k c h = elim (Bool-cases (key == k)) [
      | inl same ↦
          let n : some new ≡ some c = rw same at h in
          let e : new ≡ c = cc in
          subst (λ j. IsRead j c w.log) (==_sound key k same)
            (subst (λ d. IsRead key d w.log) e read)
      | inr other ↦ good.row k c (rw other at h)
    ]

pub same_identity_sound : (x : Option String) (i : String) → same_identity x i ≡ true → x ≡ some i
same_identity_sound none i h = cc
same_identity_sound (some j) i h = ap some (==_sound j i h)

pub same-parts :
    (identity hash : String) (build : ℕ) (c : Cached)
    → is_same identity hash build c ≡ true
    → (c.identity ≡ identity) × (c.hash ≡ hash)
same-parts identity hash build c h =
    (==_sound c.identity identity (ground arith), ==_sound c.hash hash (ground arith))

pub recent-parts :
    (now : ℕ) (c : Cached)
    → is_recent now c ≡ true
    → (c.verified_at ≤ now) × (now < c.verified_at + 300000)
recent-parts now c h =
    let (past, recent) = and_true _ _ h in
    (leb→le c.verified_at now past, ltb→lt now (c.verified_at + refresh_time) recent)

pub not-false : (b : Bool) → not b ≡ false → b ≡ true
not-false true h = refl
not-false false h = cc
